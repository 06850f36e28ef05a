-- ===== src/Meta/Events.antt =====
-- The events that reach AutoScaleMeta from outside keep its invariant: pods that Kubernetes adds,
-- changes and deletes, and what a pod says of its tenant at start-up.
use tiflash_autoscale.Prelude.{
  ℕ, ℤ, ◌<◌, String, str_eq, str_eq_iff, ◌≡◌, refl, subst, Bool, false, some, List, [], ◌∷◌,
  contains, without, contains-without, arith, Bool-cases, Option-cases, inl, inr,
}
use tiflash_autoscale.Dict
use tiflash_autoscale.Dict.{Dict}
use tiflash_autoscale.Dict.Laws.{lookup-remove}
use tiflash_autoscale.Pod.{PodHeap, clear_tenant_info}
use tiflash_autoscale.Tenant.{TenantDesc, remove_pod}
use tiflash_autoscale.Tenant.Consistent.{Consistent, Consistent-frame, Fits, remove_pod_listed}
use tiflash_autoscale.Tenant.Shrinks.{remove_pod-Shrinks, set_pod-Grows}
use tiflash_autoscale.Pool.{put_warmed_pod}
use tiflash_autoscale.Meta.{
  AutoScaleMeta, on_tenant, drop_pod, put_back, remove_pod_from_cluster_without_lock,
  handle_k8s_del_pod_event, handle_all,
}
use tiflash_autoscale.Meta.Desc.{
  get_tenant_desc_or_warmed_pool, on_tenant-Changes, on_tenant_missing,
}
use tiflash_autoscale.Meta.Good.{Good, Shrinks-Good, Grows-Good, changed_at}

-- A pod fits every descriptor under its own name.
pub Good-Fits :
    (c : AutoScaleMeta) (moving : List ℕ) (k : String) (t : TenantDesc) (p : ℕ)
    → Good c moving
    → get_tenant_desc_or_warmed_pool k c ≡ some t
    → p < c.next_pod
    → Fits c.heap t (c.heap p).name p
Good-Fits c moving k t p v e known = (
  refl,
  λ q m.
      let (a, b) = (v.owned k t e).0.mapped (c.heap p).name q m in
      v.unique q p (v.listed k t q e b).0 known a,
)

-- A pod that stands in no descriptor goes to the pool.
pub put_back-Good :
    (now : ℤ) (from_tenant : String) (p : ℕ) (is_new : Bool) (c : AutoScaleMeta) (moving : List ℕ)
    → Good c moving
    → p < c.next_pod
    → str_eq (c.heap p).ip "" ≡ false
    → ((j : String) (s : TenantDesc)
        → get_tenant_desc_or_warmed_pool j c ≡ some s
        → contains p s.pod_list ≡ false)
    → Good (put_back now from_tenant p is_new c) (without p moving)
unfolding put_back put_warmed_pod get_tenant_desc_or_warmed_pool
put_back-Good now from_tenant p is_new c moving v known has_ip unlisted =
    let t = c.prewarm_pool.warmed_pods in
    let e : get_tenant_desc_or_warmed_pool "" c ≡ some t =
      unfold get_tenant_desc_or_warmed_pool in refl in
    Grows-Good {k = ""} p e
      (set_pod-Grows (c.heap p).name p c.heap t (v.owned "" t e).0
        (Good-Fits c moving "" t p v e known))
      known has_ip (λ j s f m. absurd (ground (arith, unlisted j s f)))
      (record {
        heap = refl;
        next = refl;
        pods = refl;
        descs = λ j. ground (arith, str_eq_iff j "", str_eq_iff "" j);
      })
      v

-- RemovePod on the descriptor of a name keeps the invariant.
pub drop_pod-Good :
    (now : ℤ) (k : String) (name : String) (c : AutoScaleMeta) (moving : List ℕ)
    → Good c moving
    → Good (on_tenant k (drop_pod now name) c) moving
drop_pod-Good now k name c moving v = elim (Option-cases (get_tenant_desc_or_warmed_pool k c)) [
  | inl e ↦ rw (on_tenant_missing k (drop_pod now name) c e) v
  | inr (t, e) ↦
      Shrinks-Good e (remove_pod-Shrinks now name c.heap t (v.owned k t e).0)
        (on_tenant-Changes k (drop_pod now name) c t e) v
]

-- RemovePod by a pod's own name takes that pod out.
remove_pod_own_name :
    (now : ℤ) (p : ℕ) (h : PodHeap) (t : TenantDesc)
    → Consistent h t
    → contains p (remove_pod now (h p).name h t).1.pod_list ≡ false
remove_pod_own_name now p h t v = elim (Bool-cases (contains p t.pod_list)) [
  | inl m ↦
      rw (remove_pod_listed now (h p).name p h t (v.listed p m).0)
        (ground (arith, contains-without p p t.pod_list))
  | inr m ↦ ground (arith, (remove_pod-Shrinks now (h p).name h t v).sub p)
]

-- After a pod is dropped by name from the tenant it names, no descriptor holds it.
pub drop_pod-unlisted :
    (now : ℤ) (p : ℕ) (c : AutoScaleMeta) (moving : List ℕ) (j : String) (s : TenantDesc)
    → Good c moving
    → get_tenant_desc_or_warmed_pool j
        (on_tenant (c.heap p).tenant_name (drop_pod now (c.heap p).name) c)
      ≡ some s
    → contains p s.pod_list ≡ false
drop_pod-unlisted now p c moving j s v e =
    let k = (c.heap p).tenant_name in
    let name = (c.heap p).name in
    elim (Option-cases (get_tenant_desc_or_warmed_pool k c)) [
      | inl n ↦
          let e' =
            subst (λ x. get_tenant_desc_or_warmed_pool j x ≡ some s)
              (on_tenant_missing k (drop_pod now name) c n) e in
          ground (arith, v.owned j s e', (v.owned j s e').0.listed p)
      | inr (t, n) ↦ elim (changed_at j s (on_tenant-Changes k (drop_pod now name) c t n) e) [
        | inl (a, b) ↦ rw b (remove_pod_own_name now p c.heap t (v.owned k t n).0)
        | inr (a, b) ↦ ground (arith, v.owned j s b, (v.owned j s b).0.listed p, str_eq_iff k j)
      ]
    ]

-- A pod that no descriptor holds is forgotten.
abbrev forget : ℤ → ℕ → String → AutoScaleMeta → AutoScaleMeta
forget now p name c = record c {
  heap = clear_tenant_info now p c.heap;
  pod_desc_map = Dict.remove name c.pod_desc_map;
}

forget-Good :
    (now : ℤ) (p : ℕ) (name : String) (c : AutoScaleMeta) (moving : List ℕ)
    → Good c moving
    → ((j : String) (s : TenantDesc)
        → get_tenant_desc_or_warmed_pool j c ≡ some s
        → contains p s.pod_list ≡ false)
    → Good (forget now p name c) moving
unfolding clear_tenant_info get_tenant_desc_or_warmed_pool
forget-Good now p name c moving v unlisted = record {
  owned = λ j s e. (
    Consistent-frame (λ q. ground arith) (λ q m. ground (arith, unlisted j s e)) (v.owned j s e).0,
    (v.owned j s e).1,
  );
  listed = λ j s q e m. ground (arith, v.listed j s q e m);
  registered = λ j q e. ground (arith, lookup-remove name j c.pod_desc_map, v.registered j q);
  unique = λ q r a b e. ground (arith, v.unique q r);
  loose = λ q m.
      let l = v.loose q m in
      record {
        known = l.known;
        has_ip = ground (arith, l.has_ip);
        no_tenant = ground (arith, l.no_tenant);
        unlisted = l.unlisted;
      };
}

-- RemovePodFromCluster takes a pod out of the tenant it names, and forgets it.
pub remove_pod_from_cluster_without_lock-Good :
    (now : ℤ) (p : ℕ) (c : AutoScaleMeta) (moving : List ℕ)
    → Good c moving
    → Good (remove_pod_from_cluster_without_lock now p c) moving
unfolding remove_pod_from_cluster_without_lock
remove_pod_from_cluster_without_lock-Good now p c moving v =
    let k = (c.heap p).tenant_name in
    let name = (c.heap p).name in
    forget-Good now p name (on_tenant k (drop_pod now name) c) moving
      (drop_pod-Good now k name c moving v) (λ j s e. drop_pod-unlisted now p c moving j s v e)

pub handle_k8s_del_pod_event-Good :
    (now : ℤ) (name : String) (c : AutoScaleMeta) (moving : List ℕ)
    → Good c moving
    → Good (handle_k8s_del_pod_event now name c).0 moving
unfolding handle_k8s_del_pod_event
handle_k8s_del_pod_event-Good now name c moving v =
    elim (Option-cases (Dict.lookup name c.pod_desc_map)) [
      | inl e ↦ rw (e, handle_k8s_del_pod_event) v
      | inr (p, e) ↦
          rw (e, handle_k8s_del_pod_event)
            (remove_pod_from_cluster_without_lock-Good now p c moving v)
    ]

pub handle_all-Good :
    (now : ℤ) (names : List String) (c : AutoScaleMeta) (moving : List ℕ)
    → Good c moving
    → Good (handle_all now names c) moving
unfolding handle_all
handle_all-Good now [] c moving v = v
handle_all-Good now (k ∷ ks) c moving v =
    handle_all-Good now ks _ moving (handle_k8s_del_pod_event-Good now k c moving v)
