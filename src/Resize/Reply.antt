-- ===== src/Resize/Reply.antt =====
-- What one reply does to the pods that move.
use tiflash_autoscale.Prelude.{
  ℕ, ℤ, ◌+◌, ◌≤◌, not, String, ◌≡◌, refl, true, Option, none, some, List, [], ◌∷◌, ◌++◌, contains,
  without, contains-without, arith, Bool-cases, inl, inr,
}
use tiflash_autoscale.Float.{Float64}
use tiflash_autoscale.Config.{Settings}
use tiflash_autoscale.Meta.{AutoScaleMeta}
use tiflash_autoscale.Meta.Setup.{update_local_meta_pod_of_tenant}
use tiflash_autoscale.Meta.Good.{Good}
use tiflash_autoscale.Meta.Local.{update_local_meta_pod_of_tenant-Good}
use tiflash_autoscale.Resize.{Call, Result}
use tiflash_autoscale.Resize.World.{World, on_success, wait_unassigning, reply}
use tiflash_autoscale.Resize.Count.{count, count-append, contains-eq-count, count-without}
use tiflash_autoscale.Resize.Moving.{Good-sub, put_back_loose}
use tiflash_autoscale.Resize.Begin.{Once}
use tiflash_autoscale.Resize.Finish.{set_pod_with_tenant_info_loose, direction-cases}

abbrev pub call_pods : Call → List ℕ
call_pods k = k.todo ++ k.undo_list

-- The pods of all calls.
abbrev pub calls_pods : List Call → List ℕ
calls_pods [] = []
calls_pods (k ∷ ks) = call_pods k ++ calls_pods ks

abbrev pub waits_pods : List (String × ℕ) → List ℕ
waits_pods [] = []
waits_pods (x ∷ xs) = x.1 ∷ waits_pods xs

-- The pods that some call has taken out of one descriptor and not yet put into another.
abbrev pub moving : {fl : Float64} → World fl → List ℕ
moving w = calls_pods w.calls ++ waits_pods w.waits

count_call :
    (q : ℕ) (k : Call) (m : List ℕ)
    → count q (call_pods k ++ m) ≡ count q k.todo + count q k.undo_list + count q m
count_call q k m = omega (arith, count-append q (call_pods k) m, count-append q k.todo k.undo_list)

module _ (fl : Float64) (g : Settings fl) where
  update_local_loose :
      (now : ℤ) (p : ℕ) (tenant : String) (start : ℤ) (c : AutoScaleMeta) (m : List ℕ)
      → Good c m
      → contains p m ≡ true
      → Good (update_local_meta_pod_of_tenant fl g now p tenant start c) (without p m)
  update_local_loose now p tenant start c m v i =
      let l = v.loose p i in
      update_local_meta_pod_of_tenant-Good fl g now p tenant start c (without p m)
        (Good-sub c m (without p m) v (λ q. ground (arith, count-without p q m)))
        (ground (arith, contains-without p p m)) l.known l.has_ip

  on_success-Good :
      (now : ℤ) (p : ℕ) (start : ℤ) (k : Call) (w : World fl) (m : List ℕ)
      → Good w.meta m
      → contains p m ≡ true
      → Good (on_success fl g now p start k w).meta (without p m)
  unfolding on_success
  on_success-Good now p start k w m v i = elim (direction-cases k.direction) [
    | inl e ↦ rw e (set_pod_with_tenant_info_loose k.tenant p start w.meta m v i)
    | inr e ↦ rw e (put_back_loose now k.tenant p w.meta m v i)
  ]

  -- A pod that answers comes to rest in a descriptor, or is kept to be put back, or is waited for.
  pub reply-Good :
      (now : ℤ) (p : ℕ) (answer : Option Result) (w : World fl) (k : Call)
      → contains p k.todo ≡ true
      → Good w.meta (call_pods k ++ moving w)
      → Once (call_pods k ++ moving w)
      → let (w', k') = reply fl g now p answer w k in
        Good w'.meta (call_pods k' ++ moving w')
        × ((q : ℕ) → count q (call_pods k' ++ moving w') ≤ count q (call_pods k ++ moving w))
        × (w'.calls ≡ w.calls)
  unfolding reply wait_unassigning on_success
  reply-Good now p none w k i v once =
      let k' : Call = record k { todo = without p k.todo; undo_list = k.undo_list ++ p ∷ [] } in
      let shape : (q : ℕ) → count q (call_pods k' ++ moving w) ≤ count q (call_pods k ++ moving w) =
        λ q. ground (
          arith,
          count_call q k (moving w),
          count_call q k' (moving w),
          count-without p q k.todo,
          count-append q k.undo_list (p ∷ []),
          contains-eq-count p k.todo,
        ) in
      (Good-sub w.meta _ _ v shape, shape, refl)
  reply-Good now p (some r) w k i v once =
      let k' : Call = record k { todo = without p k.todo } in
      let here : contains p (call_pods k ++ moving w) ≡ true = ground (
        arith,
        count_call p k (moving w),
        contains-eq-count p k.todo,
        contains-eq-count p (call_pods k ++ moving w),
      ) in
      let shape : (q : ℕ) → count q (call_pods k' ++ moving w) ≤ count q (call_pods k ++ moving w) =
        λ q. ground (
          arith,
          count_call q k (moving w),
          count_call q k' (moving w),
          count-without p q k.todo,
        ) in
      let all = call_pods k ++ moving w in
      let rest : (q : ℕ) → count q (call_pods k' ++ moving w) ≤ count q (without p all) = λ q.
        ground (
          arith,
          count_call q k (moving w),
          count_call q k' (moving w),
          count-without p q k.todo,
          count-without p q all,
          contains-eq-count p k.todo,
          once p,
        ) in
      elim (Bool-cases (not r.has_err)) [
        | inl e ↦
            rw (e, reply)
              (Good-sub _ _ _ (on_success-Good now p r.start_time k w all v here) rest, shape, refl)
        | inr e ↦ elim (Bool-cases r.is_unassigning) [
          | inl d ↦
              rw (e, d, reply)
                (let waiting : (q : ℕ)
                      → count q (call_pods k' ++ moving (wait_unassigning fl g r.tenant_id p w))
                        ≤ count q all =
                    λ q. ground (
                      arith,
                      count_call q k (moving w),
                      count_call q k' (calls_pods w.calls ++ p ∷ waits_pods w.waits),
                      count-append q (calls_pods w.calls) (waits_pods w.waits),
                      count-append q (calls_pods w.calls) (p ∷ waits_pods w.waits),
                      count-without p q k.todo,
                      contains-eq-count p k.todo,
                    ) in
                  (Good-sub w.meta _ _ v waiting, waiting, refl))
          | inr d ↦
              rw (e, d, reply)
                (
                  Good-sub _ _ _
                      (update_local_loose now p r.tenant_id r.start_time w.meta all v here) rest,
                  shape,
                  refl,
                )
        ]
      ]
