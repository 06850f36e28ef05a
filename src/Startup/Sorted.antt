-- ===== src/Startup/Sorted.antt =====
-- The order that ScanStateOfPods leaves in the tenants, and what PopPods makes of it.
use mathlib.Core.List.{Perm, reverse}
use mathlib.Core.List.Perm
use tiflash_autoscale.Prelude.{
  ℕ, ℤ, ◌≤ℤ◌, String, str_eq, ◌≡◌, refl, sym, ap, ◌∙◌, subst, Bool, true, Option, some, some_inj,
  List, [], ◌∷◌, ◌++◌, All, All-map, All-append_right, All-zip, All-of_reverse, arith, Bool-cases,
  inl, inr,
}
use tiflash_autoscale.Dict
use tiflash_autoscale.Dict.{Dict}
use tiflash_autoscale.Float.{Float64}
use tiflash_autoscale.Config.{Settings}
use tiflash_autoscale.Pod.{PodHeap}
use tiflash_autoscale.Tenant.{TenantDesc, pop_pods}
use tiflash_autoscale.Tenant.Pop.{pop_pods_lem}
use tiflash_autoscale.Meta.{AutoScaleMeta}
use tiflash_autoscale.Watch.{GetTenantResponse}
use tiflash_autoscale.Startup.{
  starts_by, insert_by_start, sort_by_start, sort_pods_at_start_up, sort_tenants, scan_pods,
  scan_state_of_pods,
}

module _ (h : PodHeap) where
  -- A pod that was assigned no later than another.
  abbrev pub NoLater : ℕ → ℕ → Type 0
  NoLater p q = (h p).start_time_of_assign ≤ℤ (h q).start_time_of_assign

  abbrev pub ByStart : List ℕ → Type 0
  ByStart [] = Unit
  ByStart (p ∷ ps) = All (NoLater p) ps × ByStart ps

  insert_by_start-All :
      (P : ℕ → Type 0) (p : ℕ) (ps : List ℕ) → P p → All P ps → All P (insert_by_start h p ps)
  unfolding insert_by_start
  insert_by_start-All P p [] hp a = (hp, tt)
  insert_by_start-All P p (q ∷ qs) hp (hq, a) = elim (Bool-cases (starts_by h p q)) [
    | inl b ↦ rw b (hp, (hq, a))
    | inr b ↦ rw b (hq, insert_by_start-All P p qs hp a)
  ]

  insert_by_start-ByStart : (p : ℕ) (ps : List ℕ) → ByStart ps → ByStart (insert_by_start h p ps)
  unfolding insert_by_start
  insert_by_start-ByStart p [] s = (tt, tt)
  insert_by_start-ByStart p (q ∷ qs) (a, s) = elim (Bool-cases (starts_by h p q)) [
    | inl b ↦ rw b (
      (ground (arith, b), All-map (NoLater q) (NoLater p) qs (λ r l. ground (arith, b, l)) a),
      (a, s),
    )
    | inr b ↦
        rw b (
          insert_by_start-All (NoLater q) p qs (ground (arith, b)) a,
          insert_by_start-ByStart p qs s,
        )
  ]

  insert_by_start-Perm : (p : ℕ) (ps : List ℕ) → Perm (insert_by_start h p ps) (p ∷ ps)
  unfolding insert_by_start
  insert_by_start-Perm p [] = Perm.rfl
  insert_by_start-Perm p (q ∷ qs) = elim (Bool-cases (starts_by h p q)) [
    | inl b ↦ rw b Perm.rfl
    | inr b ↦ rw b (Perm.trans (Perm.cons q (insert_by_start-Perm p qs)) (Perm.swap p q qs))
  ]

  sort_by_start-ByStart : (ps : List ℕ) → ByStart (sort_by_start h ps)
  unfolding sort_by_start
  sort_by_start-ByStart [] = tt
  sort_by_start-ByStart (p ∷ ps) =
      insert_by_start-ByStart p (sort_by_start h ps) (sort_by_start-ByStart ps)

  sort_by_start-Perm : (ps : List ℕ) → Perm (sort_by_start h ps) ps
  unfolding sort_by_start
  sort_by_start-Perm [] = Perm.rfl
  sort_by_start-Perm (p ∷ ps) =
      Perm.trans (insert_by_start-Perm p (sort_by_start h ps)) (Perm.cons p (sort_by_start-Perm ps))

  ByStart-append :
      (ps qs : List ℕ) → ByStart (ps ++ qs) → All (λ (q : ℕ). All (λ (p : ℕ). NoLater p q) ps) qs
  ByStart-append [] [] s = tt
  ByStart-append [] (q ∷ qs) s = (tt, ByStart-append [] qs s.1)
  ByStart-append (p ∷ ps) qs (a, s) =
      All-zip (NoLater p) (λ (q : ℕ). All (λ (r : ℕ). NoLater r q) ps)
        (λ (q : ℕ). All (λ (r : ℕ). NoLater r q) (p ∷ ps)) qs (λ q x y. (x, y))
        (All-append_right (NoLater p) ps qs a) (ByStart-append ps qs s)

  lookup-sort_tenants :
      (k : String) (m : Dict TenantDesc) (t : TenantDesc)
      → Dict.lookup k (sort_tenants h m) ≡ some t
      → (t0 : TenantDesc) × (Dict.lookup k m ≡ some t0) × (sort_pods_at_start_up h t0 ≡ t)
  unfolding sort_tenants Dict.lookup
  lookup-sort_tenants k [] t e = absurd (ground arith)
  lookup-sort_tenants k ((j, t0) ∷ m) t e = elim (Bool-cases (str_eq j k)) [
    | inl b ↦ (t0, rw b refl, some_inj (sym (rw b refl) ∙ e))
    | inr b ↦ let (u, f, s) = lookup-sort_tenants k m t (sym (rw b refl) ∙ e) in (u, rw b f, s)
  ]

-- After ScanStateOfPods at start-up, whatever the pods have answered: each tenant has the pods that
-- their answers have given it, in the order of their assignment; and PopPods takes pods from the end,
-- so that no pod that it takes was assigned before one that it leaves.
pub scan_pops_latest :
    (fl : Float64) (g : Settings fl) (try_lock : ℕ → Bool) (now : ℤ)
    (answer : ℕ → Option GetTenantResponse) (c : AutoScaleMeta) (later : ℤ) (n : ℕ) (k : String)
    (t : TenantDesc)
    → Dict.lookup k (scan_state_of_pods fl g try_lock now true answer c).tenant_map ≡ some t
    → let h = (scan_state_of_pods fl g try_lock now true answer c).heap in
      let r = pop_pods later n [] h t in
      (given : TenantDesc) × (Dict.lookup k
          (scan_pods fl g try_lock now true answer c.pod_desc_map c).tenant_map
        ≡ some given)
      × Perm t.pod_list given.pod_list
      × ByStart h t.pod_list
      × (t.pod_list ≡ r.1.pod_list ++ reverse r.3)
      × All (λ (p : ℕ). All (λ (q : ℕ). NoLater h q p) r.1.pod_list) r.3
unfolding scan_state_of_pods sort_pods_at_start_up
scan_pops_latest fl g try_lock now answer c later n k t e =
    let c' = scan_pods fl g try_lock now true answer c.pod_desc_map c in
    let (given, found, s) = lookup-sort_tenants c'.heap k c'.tenant_map t e in
    let sorted : sort_by_start c'.heap given.pod_list ≡ t.pod_list =
      ap (λ (u : TenantDesc). u.pod_list) s in
    let ordered = subst (ByStart c'.heap) sorted (sort_by_start-ByStart c'.heap given.pod_list) in
    let (popped, returned, split, _, _) = pop_pods_lem later n [] c'.heap t in
    let r = pop_pods later n [] c'.heap t in
    let parts : t.pod_list ≡ r.1.pod_list ++ reverse r.3 =
      subst (λ (l : List ℕ). t.pod_list ≡ r.1.pod_list ++ reverse l) (sym returned) split in
    (
      given,
      found,
      subst (λ (l : List ℕ). Perm l given.pod_list) sorted
          (sort_by_start-Perm c'.heap given.pod_list),
      ordered,
      parts,
      All-of_reverse _ r.3 (
          ByStart-append c'.heap r.1.pod_list (reverse r.3)
            (subst (ByStart c'.heap) parts ordered)),
    )
