-- ===== src/Meta/Good.antt =====
-- The invariant of AutoScaleMeta, and how a change to one descriptor keeps it.
use tiflash_autoscale.Prelude.{
  ℕ, ◌==◌, ◌<◌, String, str_eq, str_eq_iff, ◌≡◌, sym, ap, ◌∙◌, subst, true, false, some, List,
  contains, without, contains-without, arith, Bool-cases, ◌⊎◌, inl, inr,
}
use tiflash_autoscale.Dict
use tiflash_autoscale.Pod.{PodHeap}
use tiflash_autoscale.Tenant.{TenantDesc}
use tiflash_autoscale.Tenant.Consistent.{Consistent, Consistent-frame}
use tiflash_autoscale.Tenant.Shrinks.{Shrinks, Grows}
use tiflash_autoscale.Meta.{AutoScaleMeta}
use tiflash_autoscale.Meta.Desc.{get_tenant_desc_or_warmed_pool, Changes}

-- A pod that some call has taken out of one descriptor and has not yet put into another.
pub record Loose (c : AutoScaleMeta) (p : ℕ) : Type 0 where
  pub known : p < c.next_pod
  pub has_ip : str_eq (c.heap p).ip "" ≡ false
  pub no_tenant : (c.heap p).tenant_name ≡ ""
  pub unlisted :
      (k : String) (t : TenantDesc)
      → get_tenant_desc_or_warmed_pool k c ≡ some t
      → contains p t.pod_list ≡ false

pub record Good (c : AutoScaleMeta) (moving : List ℕ) : Type 0 where
  pub owned :
      (k : String) (t : TenantDesc)
      → get_tenant_desc_or_warmed_pool k c ≡ some t
      → Consistent c.heap t × (t.name ≡ k)
  pub listed :
      (k : String) (t : TenantDesc) (p : ℕ)
      → get_tenant_desc_or_warmed_pool k c ≡ some t
      → contains p t.pod_list ≡ true
      → (p < c.next_pod) × (str_eq (c.heap p).ip "" ≡ false)
  pub registered :
      (k : String) (p : ℕ)
      → Dict.lookup k c.pod_desc_map ≡ some p
      → ((c.heap p).name ≡ k) × (p < c.next_pod)
  pub unique :
      (p q : ℕ) → p < c.next_pod → q < c.next_pod → (c.heap p).name ≡ (c.heap q).name → p ≡ q
  pub loose : (p : ℕ) → contains p moving ≡ true → Loose c p

-- A pod stands in one descriptor at most.
pub owner_unique :
    (c : AutoScaleMeta) (moving : List ℕ) (p : ℕ) (j k : String) (s t : TenantDesc)
    → Good c moving
    → get_tenant_desc_or_warmed_pool j c ≡ some s
    → get_tenant_desc_or_warmed_pool k c ≡ some t
    → contains p s.pod_list ≡ true
    → contains p t.pod_list ≡ true
    → j ≡ k
owner_unique c moving p j k s t v e f m n =
    let (a, a') = v.owned j s e in
    let (b, b') = v.owned k t f in sym a' ∙ sym (a.listed p m).1 ∙ (b.listed p n).1 ∙ b'

-- The descriptor of one name, in the changed state.
pub changed_at :
    {k : String} {h' : PodHeap} {t' : TenantDesc} {c c' : AutoScaleMeta} (j : String)
    (s : TenantDesc)
    → Changes k h' t' c c'
    → get_tenant_desc_or_warmed_pool j c' ≡ some s
    → ((k ≡ j) × (s ≡ t')) ⊎ ((str_eq k j ≡ false) × (get_tenant_desc_or_warmed_pool j c ≡ some s))
changed_at {k} j s ch e = elim (Bool-cases (str_eq k j)) [
  | inl b ↦ inl ((str_eq_iff k j).0 b, ground (arith, ch.descs j))
  | inr b ↦ inr (b, ground (arith, ch.descs j))
]

pub Shrinks-Good :
    {k : String} {h' : PodHeap} {t t' : TenantDesc} {c c' : AutoScaleMeta} {moving : List ℕ}
    → get_tenant_desc_or_warmed_pool k c ≡ some t
    → Shrinks c.heap t h' t'
    → Changes k h' t' c c'
    → Good c moving
    → Good c' moving
Shrinks-Good {k} {h'} {t} {t'} {c} {c'} {moving} found sh ch v = record {
  owned = λ j s e. elim (changed_at j s ch e) [
    | inl (a, b) ↦ (
      rw (b, ch.heap) sh.consistent,
      ap (λ (x : TenantDesc). x.name) b ∙ sh.same_name ∙ (v.owned k t found).1 ∙ a,
    )
    | inr (a, b) ↦ (
      Consistent-frame (λ q. ground (arith, ch.heap, sh.names q))
          (λ q m. ground (
            arith,
            ch.heap,
            sh.others q,
            owner_unique c moving q j k s t v b found m,
            str_eq_iff k j,
          ))
          (v.owned j s b).0,
      (v.owned j s b).1,
    )
  ];
  listed = λ j s p e m. elim (changed_at j s ch e) [
    | inl (a, b) ↦ ground (arith, ch.heap, ch.next, sh.ips p, sh.sub p, v.listed k t p found)
    | inr (a, b) ↦ ground (arith, ch.heap, ch.next, sh.ips p, v.listed j s p b m)
  ];
  registered = λ j p e. ground (arith, ch.heap, ch.pods, ch.next, sh.names p, v.registered j p);
  unique = λ p q a b e. ground (arith, ch.heap, ch.next, sh.names p, sh.names q, v.unique p q);
  loose = λ p m.
      let l = v.loose p m in
      record {
        known = ground (arith, ch.next, l.known);
        has_ip = ground (arith, ch.heap, sh.ips p, l.has_ip);
        no_tenant = ground (arith, ch.heap, sh.others p, l.unlisted k t found, l.no_tenant);
        unlisted = λ j s e. elim (changed_at j s ch e) [
          | inl (a, b) ↦ ground (arith, sh.sub p, l.unlisted k t found)
          | inr (a, b) ↦ l.unlisted j s b
        ];
      };
}

pub Grows-Good :
    {k : String} {h' : PodHeap} {t t' : TenantDesc} {c c' : AutoScaleMeta} {moving : List ℕ} (p : ℕ)
    → get_tenant_desc_or_warmed_pool k c ≡ some t
    → Grows p c.heap t h' t'
    → p < c.next_pod
    → str_eq (c.heap p).ip "" ≡ false
    → ((j : String) (s : TenantDesc)
        → get_tenant_desc_or_warmed_pool j c ≡ some s
        → contains p s.pod_list ≡ true
        → j ≡ k)
    → Changes k h' t' c c'
    → Good c moving
    → Good c' (without p moving)
Grows-Good {k} {h'} {t} {t'} {c} {c'} {moving} p found gr known has_ip alone ch v = record {
  owned = λ j s e. elim (changed_at j s ch e) [
    | inl (a, b) ↦ (
      rw (b, ch.heap) gr.consistent,
      ap (λ (x : TenantDesc). x.name) b ∙ gr.same_name ∙ (v.owned k t found).1 ∙ a,
    )
    | inr (a, b) ↦ (
      Consistent-frame (λ q. ground (arith, ch.heap, gr.names q))
          (λ q m. ground (arith, ch.heap, gr.owners q, alone j s b, str_eq_iff k j))
          (v.owned j s b).0,
      (v.owned j s b).1,
    )
  ];
  listed = λ j s q e m. elim (changed_at j s ch e) [
    | inl (a, b) ↦ elim (gr.sub q (subst (λ (x : TenantDesc). contains q x.pod_list ≡ true) b m)) [
      | inl n ↦ ground (arith, ch.heap, ch.next, gr.ips q, v.listed k t q found n)
      | inr n ↦ ground (arith, ch.heap, ch.next, gr.ips q, n)
    ]
    | inr (a, b) ↦ ground (arith, ch.heap, ch.next, gr.ips q, v.listed j s q b m)
  ];
  registered = λ j q e. ground (arith, ch.heap, ch.pods, ch.next, gr.names q, v.registered j q);
  unique = λ q r a b e. ground (arith, ch.heap, ch.next, gr.names q, gr.names r, v.unique q r);
  loose = λ q m.
      let n : (p == q ≡ false) × (contains q moving ≡ true) =
        ground (arith, contains-without p q moving) in
      let l = v.loose q n.1 in
      record {
        known = ground (arith, ch.next, l.known);
        has_ip = ground (arith, ch.heap, gr.ips q, l.has_ip);
        no_tenant = ground (arith, ch.heap, gr.owners q, n.0, l.no_tenant);
        unlisted = λ j s e. elim (changed_at j s ch e) [
          | inl (a, b) ↦ elim (Bool-cases (contains q t'.pod_list)) [
            | inl i ↦ elim (gr.sub q i) [
              | inl i ↦ absurd (ground (arith, l.unlisted k t found))
              | inr i ↦ absurd (ground (arith, n.0))
            ]
            | inr i ↦ rw b i
          ]
          | inr (a, b) ↦ l.unlisted j s b
        ];
      };
}
