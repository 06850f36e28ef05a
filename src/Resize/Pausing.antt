-- ===== src/Resize/Pausing.antt =====
-- autoscale/meta.go: removePodFromTenant where it pauses a tenant.
use mathlib.Core.List.{reverse, reverse-cons, reverse-reverse}
use tiflash_autoscale.Prelude.{
  ℕ, ℤ, String, str_eq, str_eq_iff, ◌≡◌, refl, sym, ap, ◌∙◌, true, false, some, List, [], ◌∷◌, ◌++◌,
  length, length-append, arith, if◌then◌else◌, inl, inr,
}
use tiflash_autoscale.Dict
use tiflash_autoscale.Float.{Float64}
use tiflash_autoscale.Config.{Settings}
use tiflash_autoscale.Pod.{PodHeap}
use tiflash_autoscale.Tenant.{
  TenantDesc, TenantState, paused, pausing, state_eq, get_cnt_of_pods, pop_pods, sync_state_paused,
  switch_state,
}
use tiflash_autoscale.Tenant.Consistent.{Consistent}
use tiflash_autoscale.Tenant.Pop.{pop_pods_lem, state-pop_pods}
use tiflash_autoscale.Meta.{AutoScaleMeta, get_tenant_desc, on_tenant}
use tiflash_autoscale.Meta.Desc.{on_tenant-Changes}
use tiflash_autoscale.Meta.Register.{desc_of_named}
use tiflash_autoscale.Resize.{
  Call, refused, begun, begin_remove, remove_begin, pop_and_pause, expected_state, mark,
}
use tiflash_autoscale.Resize.World.{World}
use tiflash_autoscale.Resize.Steps.{Reachable}
use tiflash_autoscale.Resize.Safety.{Reachable-Safe}

length_zero : (xs : List ℕ) → length xs ≡ 0 → xs ≡ []
length_zero [] e = refl
length_zero (x ∷ xs) e = absurd (omega (arith, e))

length-reverse : (xs : List ℕ) → length (reverse xs) ≡ length xs
length-reverse [] = refl
length-reverse (x ∷ xs) =
    ap length (reverse-cons x xs)
    ∙ omega (arith, length-append (reverse xs) (x ∷ []), length-reverse xs)

-- PopPods for as many pods as there are.
pop_all :
    (now : ℤ) (h : PodHeap) (t : TenantDesc)
    → Consistent h t
    → t.state ≡ pausing
    → let n = get_cnt_of_pods t in
      ((pop_and_pause now true n h t).1.state ≡ paused)
      × ((pop_and_pause now true n h t).1.pod_list ≡ [])
      × ((pop_pods now n [] h t).2 ≡ 0)
      × ((pop_pods now n [] h t).3 ≡ reverse t.pod_list)
unfolding get_cnt_of_pods sync_state_paused switch_state
pop_all now h t v s =
    let n = get_cnt_of_pods t in
    let r = pop_pods now n [] h t in
    let (popped, returned, split, asked, end) = pop_pods_lem now n [] h t in
    let total = ap length split ∙ length-append r.1.pod_list (reverse popped) in
    let none_left : r.1.pod_list ≡ [] = elim end [
      | inl a ↦
          length_zero r.1.pod_list
            (omega (arith, a, total, asked, v.counted, length-reverse popped))
      | inr a ↦ a
    ] in
    let all_found : r.2 ≡ 0 =
      omega (arith, total, asked, v.counted, length-reverse popped, ap length none_left) in
    (
      ground (arith, state-pop_pods now n [] h t, s),
      ground (arith, none_left),
      all_found,
      returned
          ∙ sym (reverse-reverse popped)
          ∙ ap reverse (sym (split ∙ ap (λ (l : List ℕ). l ++ reverse popped) none_left)),
    )

remove_begin_pausing :
    (now asked : ℤ) (k : String) (t : TenantDesc) (c : AutoScaleMeta)
    → Dict.lookup k c.tenant_map ≡ some t
    → t.state ≡ pausing
    → remove_begin now k true asked c ≡ begin_remove now k true (get_cnt_of_pods t) t c
unfolding remove_begin get_tenant_desc expected_state
remove_begin_pausing now asked k t c e s =
    rw (e, remove_begin)
      (ap
        (λ (st : TenantState).
          if state_eq st pausing then begin_remove now k true (get_cnt_of_pods t) t c else refused)
        s)

module _ (fl : Float64) (g : Settings fl) (w : World fl) (r : Reachable fl g w) where
  -- In every state that undisturbed steps reach, when removePodFromTenant begins to pause a named tenant
  -- whose state is pausing, it is not refused and does not panic, whatever number of pods it was
  -- given: the tenant is paused and its list is empty, the pods that it had are asked, the last
  -- one first, and none is missing.
  pub pausing_empties :
      (now asked : ℤ) (k : String) (t : TenantDesc)
      → str_eq k "" ≡ false
      → Dict.lookup k w.meta.tenant_map ≡ some t
      → t.state ≡ pausing
      → (c : AutoScaleMeta) × (call : Call) × (t' : TenantDesc) × (remove_begin now k true asked
            w.meta
          ≡ begun c call)
        × (Dict.lookup k c.tenant_map ≡ some t')
        × (t'.state ≡ paused)
        × (t'.pod_list ≡ [])
        × (call.todo ≡ reverse t.pod_list)
        × (call.cnt ≡ 0)
  pausing_empties now asked k t named e s =
      let v = (Reachable-Safe fl g w r).good in
      let found = desc_of_named k w.meta named ∙ e in
      let n = get_cnt_of_pods t in
      let f = pop_and_pause now true n in
      let p = pop_pods now n [] w.meta.heap t in
      let c = on_tenant k f w.meta in
      let ch = on_tenant-Changes k f w.meta t found in
      let (state, empty, none_missing, all) = pop_all now w.meta.heap t (v.owned k t found).0 s in
      (
        mark true p.3 c,
        _,
        (f w.meta.heap t).1,
        remove_begin_pausing now asked k t w.meta e s,
        sym (desc_of_named k c named) ∙ ch.descs k ∙ rw ((str_eq_iff k k).1 refl) refl,
        state,
        empty,
        all,
        none_missing,
      )
