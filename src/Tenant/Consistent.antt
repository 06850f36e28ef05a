-- ===== src/Tenant/Consistent.antt =====
-- autoscale/meta.go: the map and the list of a TenantDesc, and the pods in them.
use tiflash_autoscale.Prelude.{
  ℕ, ℤ, ◌==◌, ◌≡◌, String, str_eq_iff, true, none, some, [], ◌∷◌, length, length-append, contains,
  without, contains-append, contains-without, AllDistinct, AllDistinct-without, AllDistinct-snoc,
  length-without, arith, if◌then◌else◌, Option-cases, inl, inr,
}
use tiflash_autoscale.Dict
use tiflash_autoscale.Dict.{Dict}
use tiflash_autoscale.Dict.Laws.{
  lookup-insert, lookup-remove, insert-Distinct, remove-Distinct, size-remove, size-insert_absent,
  size-insert_present,
}
use tiflash_autoscale.Pod.{
  PodHeap, set_tenant_info, set_tenant_info_and_stime_of_assign, clear_tenant_info,
}
use tiflash_autoscale.Tenant.{TenantDesc, put_pod, set_pod, set_pod_with_tenant_info, remove_pod}

pub record Consistent (h : PodHeap) (c : TenantDesc) : Type 0 where
  pub listed :
      (p : ℕ)
      → contains p c.pod_list ≡ true
      → (Dict.lookup (h p).name c.pod_map ≡ some p) × ((h p).tenant_name ≡ c.name)
  pub mapped :
      (k : String) (p : ℕ)
      → Dict.lookup k c.pod_map ≡ some p
      → ((h p).name ≡ k) × (contains p c.pod_list ≡ true)
  pub distinct : AllDistinct c.pod_list
  pub keys : Dict.Distinct c.pod_map
  pub counted : Dict.size c.pod_map ≡ length c.pod_list

-- A change to the heap that spares a tenant's pods keeps the tenant consistent.
pub Consistent-frame :
    {h h' : PodHeap} {c : TenantDesc}
    → ((p : ℕ) → (h' p).name ≡ (h p).name)
    → ((p : ℕ) → contains p c.pod_list ≡ true → (h' p).tenant_name ≡ (h p).tenant_name)
    → Consistent h c
    → Consistent h' c
Consistent-frame {h} {h'} {c} names owners v = record {
  listed = λ p e. ground (arith, names p, owners p, v.listed p);
  mapped = λ k p e. ground (arith, names p, v.mapped k p);
  distinct = v.distinct;
  keys = v.keys;
  counted = v.counted;
}

pub remove_pod_missing :
    (now : ℤ) (k : String) (h : PodHeap) (c : TenantDesc)
    → Dict.lookup k c.pod_map ≡ none
    → remove_pod now k h c ≡ (h, c, none)
unfolding remove_pod
remove_pod_missing now k h c e = rw (e, remove_pod)

pub remove_pod_listed :
    (now : ℤ) (k : String) (p : ℕ) (h : PodHeap) (c : TenantDesc)
    → Dict.lookup k c.pod_map ≡ some p
    → remove_pod now k h c ≡ (
      clear_tenant_info now p h,
      record c { pod_list = without p c.pod_list; pod_map = Dict.remove k c.pod_map },
      some p,
    )
unfolding remove_pod
remove_pod_listed now k p h c e = rw (e, remove_pod)

-- RemovePod takes the pod of that name out of both, and clears what the pod says of its tenant.
pub remove_pod-Consistent :
    (now : ℤ) (k : String) (h : PodHeap) (c : TenantDesc)
    → Consistent h c
    → Consistent (remove_pod now k h c).0 (remove_pod now k h c).1
unfolding remove_pod clear_tenant_info
remove_pod-Consistent now k h c v = elim (Option-cases (Dict.lookup k c.pod_map)) [
  | inl e ↦ rw (e, remove_pod) v
  | inr (p, e) ↦
      rw (e, remove_pod)
        (record {
          listed = λ q m. ground (
            arith,
            v.listed q,
            v.mapped k p,
            contains-without p q c.pod_list,
            lookup-remove k (h q).name c.pod_map,
            str_eq_iff k (h q).name,
            v.mapped (h q).name q,
          );
          mapped = λ j q m. ground (
            arith,
            v.mapped j q,
            v.mapped k p,
            contains-without p q c.pod_list,
            lookup-remove k j c.pod_map,
            str_eq_iff k j,
          );
          distinct = AllDistinct-without p c.pod_list v.distinct;
          keys = remove-Distinct k c.pod_map v.keys;
          counted = ground (
            arith,
            v.counted,
            v.mapped k p e,
            size-remove k {v = p} c.pod_map v.keys e,
            length-without p c.pod_list v.distinct,
          );
        })
]

-- What SetPod and SetPodWithTenantInfo need: the pod under its own name, and no other pod of that
-- name in the map.
abbrev pub Fits : PodHeap → TenantDesc → String → ℕ → Type 0
Fits h c k p = ((h p).name ≡ k) × ((q : ℕ) → Dict.lookup k c.pod_map ≡ some q → q ≡ p)

put_pod-Consistent :
    (k : String) (p : ℕ) (h h' : PodHeap) (c : TenantDesc)
    → ((q : ℕ) → (h' q).name ≡ (h q).name)
    → ((q : ℕ) → (h' q).tenant_name ≡ (if p == q then c.name else (h q).tenant_name))
    → Consistent h c
    → Fits h c k p
    → Consistent h' (put_pod k p c)
put_pod-Consistent k p h h' c names owners v fits = record {
  listed = λ q m. ground (
    arith,
    names q,
    owners q,
    v.listed q,
    fits.0,
    lookup-insert k (h q).name p c.pod_map,
    str_eq_iff k (h q).name,
    contains-append q c.pod_list (p ∷ []),
    v.mapped k p,
    fits.1 q,
    owners p,
    names p,
    lookup-insert k k p c.pod_map,
    str_eq_iff k k,
  );
  mapped = λ j q m. elim (Option-cases (Dict.lookup k c.pod_map)) [
    | inl e ↦ ground (
      arith,
      names q,
      v.mapped j q,
      fits.0,
      lookup-insert k j p c.pod_map,
      str_eq_iff k j,
      contains-append q c.pod_list (p ∷ []),
      e,
    )
    | inr (r, e) ↦ ground (
      arith,
      names q,
      v.mapped j q,
      fits.0,
      lookup-insert k j p c.pod_map,
      str_eq_iff k j,
      e,
      v.mapped k r e,
      fits.1 r e,
    )
  ];
  distinct = elim (Option-cases (Dict.lookup k c.pod_map)) [
    | inl e ↦ rw e (AllDistinct-snoc p c.pod_list v.distinct (ground (arith, v.listed p, fits.0)))
    | inr (r, e) ↦ rw e v.distinct
  ];
  keys = insert-Distinct k p c.pod_map v.keys;
  counted = elim (Option-cases (Dict.lookup k c.pod_map)) [
    | inl e ↦ rw e (
        omega
          (arith, v.counted, size-insert_absent k p c.pod_map e, length-append c.pod_list (p ∷ [])))
    | inr (r, e) ↦ rw e (omega (arith, v.counted, size-insert_present k p {w = r} c.pod_map e))
  ];
}

pub set_pod-Consistent :
    (k : String) (p : ℕ) (h : PodHeap) (c : TenantDesc)
    → Consistent h c
    → Fits h c k p
    → Consistent (set_pod k p h c).0 (set_pod k p h c).1
unfolding set_pod set_tenant_info
set_pod-Consistent k p h c v fits =
    put_pod-Consistent k p h _ c (λ q. ground arith) (λ q. ground arith) v fits

pub set_pod_with_tenant_info-Consistent :
    (k : String) (p : ℕ) (start : ℤ) (h : PodHeap) (c : TenantDesc)
    → Consistent h c
    → Fits h c k p
    → Consistent
        (set_pod_with_tenant_info k p start h c).0
        (set_pod_with_tenant_info k p start h c).1
unfolding set_pod_with_tenant_info set_tenant_info_and_stime_of_assign
set_pod_with_tenant_info-Consistent k p start h c v fits =
    put_pod-Consistent k p h _ c (λ q. ground arith) (λ q. ground arith) v fits
