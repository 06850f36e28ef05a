-- ===== src/Tenant/Pop.antt =====
-- autoscale/meta.go: PopPods and popOnePod, and the list of a tenant.
use mathlib.Core.List.{reverse, append-nil, append_assoc, reverse-cons}
use tiflash_autoscale.Prelude.{
  ℕ, zero, suc, ℤ, ◌+◌, ◌≡◌, refl, sym, ap, ◌∙◌, subst, Option, none, some, List, [], ◌∷◌, ◌++◌,
  length, contains-append, without, AllDistinct, unsnoc, unsnoc-append, unsnoc-eq-none, arith,
  Option-cases, ◌⊎◌, inl, inr,
}
use tiflash_autoscale.Dict
use tiflash_autoscale.Pod.{PodHeap, clear_tenant_info}
use tiflash_autoscale.Tenant.{TenantDesc, remove_pod, pop_one_pod, pop_pods}
use tiflash_autoscale.Tenant.Consistent.{Consistent, remove_pod-Consistent}

without-snoc : (p : ℕ) (xs : List ℕ) → AllDistinct (xs ++ p ∷ []) → without p (xs ++ p ∷ []) ≡ xs
unfolding without
without-snoc p [] d = ground arith
without-snoc p (x ∷ xs) d = ground (arith, without-snoc p xs d.1, contains-append x xs (p ∷ []))

pop_one_pod_empty :
    (now : ℤ) (h : PodHeap) (c : TenantDesc)
    → unsnoc c.pod_list ≡ none
    → pop_one_pod now h c ≡ (h, c, none)
unfolding pop_one_pod
pop_one_pod_empty now h c e = rw (e, pop_one_pod)

pub pop_one_pod_last :
    (now : ℤ) (h : PodHeap) (c : TenantDesc) (rest : List ℕ) (p : ℕ)
    → unsnoc c.pod_list ≡ some (rest, p)
    → pop_one_pod now h c ≡ (
      clear_tenant_info now p h,
      record c { pod_list = rest; pod_map = Dict.remove (h p).name c.pod_map },
      some p,
    )
unfolding pop_one_pod
pop_one_pod_last now h c rest p e = rw (e, pop_one_pod)

-- On a consistent tenant, to pop is to remove the last pod of the list by its name.
pub pop_one_pod-eq-remove_pod :
    (now : ℤ) (h : PodHeap) (c : TenantDesc) (rest : List ℕ) (p : ℕ)
    → Consistent h c
    → unsnoc c.pod_list ≡ some (rest, p)
    → pop_one_pod now h c ≡ remove_pod now (h p).name h c
unfolding pop_one_pod remove_pod
pop_one_pod-eq-remove_pod now h c rest p v e =
    let l : c.pod_list ≡ rest ++ p ∷ [] = unsnoc-append c.pod_list (rest, p) e in
    let w : without p c.pod_list ≡ rest =
      rw l (without-snoc p rest (subst AllDistinct l v.distinct)) in
    ground (arith, e, w, l, v.listed p, contains-append p rest (p ∷ []))

pub pop_one_pod-Consistent :
    (now : ℤ) (h : PodHeap) (c : TenantDesc)
    → Consistent h c
    → Consistent (pop_one_pod now h c).0 (pop_one_pod now h c).1
pop_one_pod-Consistent now h c v = elim (Option-cases (unsnoc c.pod_list)) [
  | inl e ↦ rw (pop_one_pod_empty now h c e) v
  | inr ((rest, p), e) ↦
      rw (pop_one_pod-eq-remove_pod now h c rest p v e) (remove_pod-Consistent now (h p).name h c v)
]

-- What the loop does with a pop's result.
abbrev next : ℤ → ℕ → List ℕ → PodHeap × TenantDesc × Option ℕ → PodHeap × TenantDesc × ℕ × List ℕ
next now cnt ret r = elim r.2 [
  | none ↦ (r.0, r.1, suc cnt, ret)
  | some p ↦ pop_pods now cnt (ret ++ p ∷ []) r.0 r.1
]

pub pop_pods-Consistent :
    (now : ℤ) (cnt : ℕ) (ret : List ℕ) (h : PodHeap) (c : TenantDesc)
    → Consistent h c
    → Consistent (pop_pods now cnt ret h c).0 (pop_pods now cnt ret h c).1
unfolding pop_pods
pop_pods-Consistent now zero ret h c v = v
pop_pods-Consistent now (suc cnt) ret h c v =
    let w = pop_one_pod-Consistent now h c v in
    elim (Option-cases (pop_one_pod now h c).2) [
      | inl e ↦ rw (e, pop_pods) w
      | inr (p, e) ↦ rw (e, pop_pods) (pop_pods-Consistent now cnt (ret ++ p ∷ []) _ _ w)
    ]

pub pop_pods_empty :
    (now : ℤ) (cnt : ℕ) (ret : List ℕ) (h : PodHeap) (c : TenantDesc)
    → unsnoc c.pod_list ≡ none
    → pop_pods now (suc cnt) ret h c ≡ (h, c, suc cnt, ret)
unfolding pop_pods
pop_pods_empty now cnt ret h c e = ap (next now cnt ret) (pop_one_pod_empty now h c e)

pub pop_pods_last :
    (now : ℤ) (cnt : ℕ) (ret : List ℕ) (h : PodHeap) (c : TenantDesc) (rest : List ℕ) (p : ℕ)
    → unsnoc c.pod_list ≡ some (rest, p)
    → pop_pods now (suc cnt) ret h c
      ≡ pop_pods now cnt
          (ret ++ p ∷ [])
          (clear_tenant_info now p h)
          (record c { pod_list = rest; pod_map = Dict.remove (h p).name c.pod_map })
unfolding pop_pods
pop_pods_last now cnt ret h c rest p e = ap (next now cnt ret) (pop_one_pod_last now h c rest p e)

-- The pods come off the end of the list, last first, and the call stops early only when the
-- list is empty.
pub pop_pods_lem :
    (now : ℤ) (cnt : ℕ) (ret : List ℕ) (h : PodHeap) (c : TenantDesc)
    → let r = pop_pods now cnt ret h c in
      (popped : List ℕ) × (r.3 ≡ ret ++ popped)
      × (c.pod_list ≡ r.1.pod_list ++ reverse popped)
      × (r.2 + length popped ≡ cnt)
      × ((r.2 ≡ 0) ⊎ (r.1.pod_list ≡ []))
pop_pods_lem now zero ret h c =
    unfold pop_pods in
    ([], sym (append-nil ret), sym (append-nil c.pod_list), omega arith, inl refl)
pop_pods_lem now (suc cnt) ret h c = elim (Option-cases (unsnoc c.pod_list)) [
  | inl e ↦ rw (pop_pods_empty now cnt ret h c e) (
    [],
    sym (append-nil ret),
    sym (append-nil c.pod_list),
    omega arith,
    inr (unsnoc-eq-none c.pod_list e),
  )
  | inr ((rest, p), e) ↦
      let h' = clear_tenant_info now p h in
      let c' : TenantDesc = record c {
        pod_list = rest;
        pod_map = Dict.remove (h p).name c.pod_map;
      } in
      let (popped, returned, split, count, end) = pop_pods_lem now cnt (ret ++ p ∷ []) h' c' in
      rw (pop_pods_last now cnt ret h c rest p e) (
        p ∷ popped,
        returned ∙ append_assoc ret (p ∷ []) popped,
        unsnoc-append c.pod_list (rest, p) e
            ∙ ap (λ (l : List ℕ). l ++ p ∷ []) split
            ∙ append_assoc _ (reverse popped) (p ∷ [])
            ∙ ap (◌++◌ (pop_pods now cnt (ret ++ p ∷ []) h' c').1.pod_list)
                (sym (reverse-cons p popped)),
        omega (arith, count),
        end,
      )
]

pub state-pop_pods :
    (now : ℤ) (cnt : ℕ) (ret : List ℕ) (h : PodHeap) (c : TenantDesc)
    → (pop_pods now cnt ret h c).1.state ≡ c.state
state-pop_pods now zero ret h c = unfold pop_pods in refl
state-pop_pods now (suc cnt) ret h c = elim (Option-cases (unsnoc c.pod_list)) [
  | inl e ↦ ap (λ r. r.1.state) (pop_pods_empty now cnt ret h c e)
  | inr ((rest, p), e) ↦
      ap (λ r. r.1.state) (pop_pods_last now cnt ret h c rest p e)
      ∙ state-pop_pods now cnt (ret ++ p ∷ []) _ _
]
