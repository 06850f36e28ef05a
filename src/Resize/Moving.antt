-- ===== src/Resize/Moving.antt =====
-- Pods that a call has taken: how they come to be loose, and how they stop.
use tiflash_autoscale.Prelude.{
  ℕ, ℤ, ◌≤◌, String, str_eq_iff, ◌≡◌, refl, Bool, true, false, some, List, [], ◌∷◌, contains,
  without, arith, Bool-cases, Option-cases, ◌⊎◌, inl, inr,
}
use tiflash_autoscale.Pod.{PodHeap, update}
use tiflash_autoscale.Tenant.{TenantDesc}
use tiflash_autoscale.Tenant.Consistent.{Consistent, Consistent-frame}
use tiflash_autoscale.Tenant.Shrinks.{Shrinks, Grows}
use tiflash_autoscale.Meta.{AutoScaleMeta, on_tenant, put_back}
use tiflash_autoscale.Meta.Desc.{
  get_tenant_desc_or_warmed_pool, Changes, on_tenant-Changes, on_tenant_missing,
}
use tiflash_autoscale.Meta.Good.{Good, Loose, Shrinks-Good, Grows-Good, changed_at, owner_unique}
use tiflash_autoscale.Meta.Events.{put_back-Good}
use tiflash_autoscale.Resize.{store_is_state_changing, mark}
use tiflash_autoscale.Resize.Count.{count, contains-eq-count, count-without}

-- Any list of loose pods will do.
pub Good-join :
    (c : AutoScaleMeta) (m m' : List ℕ)
    → Good c m
    → ((p : ℕ) → contains p m' ≡ true → (contains p m ≡ true) ⊎ Loose c p)
    → Good c m'
Good-join c m m' v f = record {
  owned = v.owned;
  listed = v.listed;
  registered = v.registered;
  unique = v.unique;
  loose = λ p i. elim (f p i) [ inl j ↦ v.loose p j | inr l ↦ l ];
}

pub Good-sub :
    (c : AutoScaleMeta) (m m' : List ℕ) → Good c m → ((p : ℕ) → count p m' ≤ count p m) → Good c m'
Good-sub c m m' v f =
    Good-join c m m' v
      (λ p i. inl (ground (arith, f p, contains-eq-count p m, contains-eq-count p m')))

-- What a descriptor has given up is loose.
pub released-Loose :
    {k : String} {h' : PodHeap} {t t' : TenantDesc} {c c' : AutoScaleMeta} {moving : List ℕ} (p : ℕ)
    → get_tenant_desc_or_warmed_pool k c ≡ some t
    → Shrinks c.heap t h' t'
    → Changes k h' t' c c'
    → Good c moving
    → contains p t.pod_list ≡ true
    → contains p t'.pod_list ≡ false
    → Loose c' p
released-Loose {k} {h'} {t} {t'} {c} {c'} {moving} p found sh ch v before after = record {
  known = ground (arith, ch.next, v.listed k t p found);
  has_ip = ground (arith, ch.heap, sh.ips p, v.listed k t p found);
  no_tenant = ground (arith, ch.heap, sh.released p);
  unlisted = λ j s e. elim (changed_at j s ch e) [
    | inl (a, b) ↦ rw b after
    | inr (a, b) ↦ elim (Bool-cases (contains p s.pod_list)) [
      | inl i ↦
          absurd
            (ground (arith, owner_unique c moving p j k s t v b found i before, str_eq_iff k j))
      | inr i ↦ i
    ]
  ];
}

-- The flag of a running call is no matter of tenants and names.
mark_frame :
    (b : Bool) (ps : List ℕ) (h : PodHeap) (q : ℕ)
    → let h' = store_is_state_changing b ps h in
      ((h' q).name ≡ (h q).name) × ((h' q).ip ≡ (h q).ip) × ((h' q).tenant_name ≡ (h q).tenant_name)
unfolding store_is_state_changing
mark_frame b [] h q = (refl, refl, refl)
mark_frame b (p ∷ ps) h q =
    let h' = update h p (record (h p) { is_state_changing = b }) in
    ground (arith, mark_frame b ps h' q)

pub mark-Good :
    (b : Bool) (ps : List ℕ) (c : AutoScaleMeta) (moving : List ℕ)
    → Good c moving
    → Good (mark b ps c) moving
unfolding get_tenant_desc_or_warmed_pool
mark-Good b ps c moving v = record {
  owned = λ k t e. (
    Consistent-frame (λ q. (mark_frame b ps c.heap q).0) (λ q m. (mark_frame b ps c.heap q).2)
        (v.owned k t e).0,
    (v.owned k t e).1,
  );
  listed = λ k t q e m. ground (arith, v.listed k t q e m, mark_frame b ps c.heap q);
  registered = λ k q e. ground (arith, v.registered k q, mark_frame b ps c.heap q);
  unique =
      λ q r a d e. ground (arith, v.unique q r, mark_frame b ps c.heap q, mark_frame b ps c.heap r);
  loose = λ q m.
      let l = v.loose q m in
      record {
        known = l.known;
        has_ip = ground (arith, l.has_ip, mark_frame b ps c.heap q);
        no_tenant = ground (arith, l.no_tenant, mark_frame b ps c.heap q);
        unlisted = l.unlisted;
      };
}

-- A loose pod goes to the pool.
pub put_back_loose :
    (now : ℤ) (from_tenant : String) (p : ℕ) (c : AutoScaleMeta) (moving : List ℕ)
    → Good c moving
    → contains p moving ≡ true
    → Good (put_back now from_tenant p false c) (without p moving)
put_back_loose now from_tenant p c moving v m =
    let l = v.loose p m in
    put_back-Good now from_tenant p false c moving v l.known l.has_ip l.unlisted

-- A loose pod goes to a tenant; without that tenant nothing changes.
pub set_loose :
    (k : String) (f : PodHeap → TenantDesc → PodHeap × TenantDesc) (p : ℕ) (c : AutoScaleMeta)
    (moving : List ℕ)
    → ((t : TenantDesc)
        → get_tenant_desc_or_warmed_pool k c ≡ some t
        → Grows p c.heap t (f c.heap t).0 (f c.heap t).1)
    → Good c moving
    → contains p moving ≡ true
    → Good (on_tenant k f c) (without p moving)
set_loose k f p c moving gr v m =
    let l = v.loose p m in
    elim (Option-cases (get_tenant_desc_or_warmed_pool k c)) [
      | inl e ↦
          rw (on_tenant_missing k f c e)
            (Good-sub c moving (without p moving) v (λ q. ground (arith, count-without p q moving)))
      | inr (t, e) ↦
          Grows-Good p e (gr t e) l.known l.has_ip
            (λ j s x n. absurd (ground (arith, l.unlisted j s x))) (on_tenant-Changes k f c t e) v
    ]

-- A method that leaves the pods of a descriptor alone.
pub relabel-Good :
    (k : String) (f : TenantDesc → TenantDesc) (c : AutoScaleMeta) (moving : List ℕ)
    → ((t : TenantDesc) → Consistent c.heap t → Shrinks c.heap t c.heap (f t))
    → Good c moving
    → Good (on_tenant k (λ h t. (h, f t)) c) moving
relabel-Good k f c moving sh v = elim (Option-cases (get_tenant_desc_or_warmed_pool k c)) [
  | inl e ↦ rw (on_tenant_missing k (λ h t. (h, f t)) c e) v
  | inr (t, e) ↦
      Shrinks-Good e (sh t (v.owned k t e).0) (on_tenant-Changes k (λ h t. (h, f t)) c t e) v
]
