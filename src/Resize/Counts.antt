-- ===== src/Resize/Counts.antt =====
-- The numbers that a call goes by: what it takes, what it is short of, and what it returns.

use tiflash_autoscale.Prelude.{
  ℕ, ℤ, pos, ◌+◌, not, String, ◌≡◌, refl, sym, ap, ◌∙◌, subst, Bool, Option, none, some, List, [],
  ◌∷◌, ◌++◌, length, length-append, without, arith, if◌then◌else◌, Bool-cases, Option-cases,
  is_some, ◌⊎◌, inl, inr,
}
use tiflash_autoscale.Float.{Float64}
use tiflash_autoscale.Config.{Settings}
use tiflash_autoscale.Tenant.{TenantDesc, state_eq, get_pod_names}
use tiflash_autoscale.Pool.{PrewarmPool, take_pods, get_warmed_pods, note_op_result}
use tiflash_autoscale.Pool.Take.{Taken, take_pods-Taken}
use tiflash_autoscale.Meta.{AutoScaleMeta, get_tenant_desc}
use tiflash_autoscale.Meta.Desc.{get_tenant_desc_or_warmed_pool}
use tiflash_autoscale.Meta.Good.{Good}
use tiflash_autoscale.Resize.{
  adding, Call, Result, Begun, refused, panics, begun, begin_add, add_begin, expected_state,
  finish_call,
}
use tiflash_autoscale.Resize.World.{World, reply}
use tiflash_autoscale.Resize.Reply.{moving}
use tiflash_autoscale.Resize.Steps.{Reachable}
use tiflash_autoscale.Resize.Begin.{warmed_pods-note_op_result}
use tiflash_autoscale.Resize.Finish.{direction-cases}
use tiflash_autoscale.Resize.Safety.{Reachable-Safe}

-- What addPodIntoTenant takes from the pool.
record Takes (n : ℕ) (c c' : AutoScaleMeta) (k : Call) : Type 0 where
  all_counted : k.cnt + length k.todo ≡ n
  from_front : c.prewarm_pool.warmed_pods.pod_list ≡ k.todo ++ c'.prewarm_pool.warmed_pods.pod_list
  as_many : (k.cnt ≡ 0) ⊎ (c'.prewarm_pool.warmed_pods.pod_list ≡ [])

abbrev TakesAll : ℕ → AutoScaleMeta → Begun → Type 0
TakesAll n c refused = Unit
TakesAll n c panics = Unit
TakesAll n c (begun c' k) = Takes n c c' k

begin_add-TakesAll :
    (now : ℤ) (tenant : String) (b : Bool) (n : ℕ) (c : AutoScaleMeta) (m : List ℕ)
    → Good c m
    → TakesAll n c (begin_add now tenant b n c)
begin_add-TakesAll now tenant b n c m v =
    let t = c.prewarm_pool.warmed_pods in
    let e : get_tenant_desc_or_warmed_pool "" c ≡ some t =
      unfold get_tenant_desc_or_warmed_pool in refl in
    let s = take_pods now (get_pod_names c.heap t) n [] c.heap t in
    let tk : Taken c.heap t n s [] =
      unfold get_pod_names in
      take_pods-Taken now t.pod_list n [] c.heap c.heap t (λ q. refl) refl (v.owned "" t e).0 in
    let noted =
      ap (λ (x : TenantDesc). x.pod_list)
        (warmed_pods-note_op_result now tenant s.2 (record c.prewarm_pool { warmed_pods = s.1 })) in
    let pool : PrewarmPool =
      note_op_result now tenant s.2 (record c.prewarm_pool { warmed_pods = s.1 }) in
    let front : t.pod_list ≡ s.3 ++ pool.warmed_pods.pod_list =
      tk.split
      ∙ ap (λ (l : List ℕ). l ++ s.1.pod_list) (sym tk.result)
      ∙ ap (◌++◌ s.3) (sym noted) in
    let many : (s.2 ≡ 0) ⊎ (pool.warmed_pods.pod_list ≡ []) = elim tk.full [
      | inl a ↦ inl a
      | inr a ↦ inr (noted ∙ a)
    ] in
    record {
      all_counted = unfold get_warmed_pods in (omega (arith, tk.left, ap length tk.result));
      from_front = unfold get_warmed_pods in front;
      as_many = unfold get_warmed_pods in many;
    }

-- A call's own part of a reply.
call_of_reply :
    (fl : Float64) (g : Settings fl) (now : ℤ) (p : ℕ) (a : Option Result) (w : World fl) (k : Call)
    → let k' = (reply fl g now p a w k).1 in
      (k'.cnt ≡ k.cnt)
      × (length k'.undo_list ≡ length k.undo_list + (if is_some a then 0 else 1))
      × (k'.todo ≡ without p k.todo)
unfolding reply
call_of_reply fl g now p none w k = (refl, omega (arith, length-append k.undo_list (p ∷ [])), refl)
call_of_reply fl g now p (some r) w k = elim (Bool-cases (not r.has_err)) [
  | inl e ↦ rw e (refl, omega arith, refl)
  | inr e ↦ elim (Bool-cases r.is_unassigning) [
    | inl d ↦ rw (e, d) (refl, omega arith, refl)
    | inr d ↦ rw (e, d) (refl, omega arith, refl)
  ]
]

-- An answer that reaches a call: when, from which pod, and what the world is then.
abbrev pub Answer : Float64 → Type 0
Answer fl = ℤ × ℕ × Option Result × World fl

-- The call after its answers, between which the world may change in any way.
unfoldable pub answer_all : (fl : Float64) → Settings fl → List (Answer fl) → Call → Call
answer_all fl g [] k = k
answer_all fl g ((now, p, a, w) ∷ xs) k = answer_all fl g xs (reply fl g now p a w k).1

abbrev pub cnt_of_grpc_errors : {fl : Float64} → List (Answer fl) → ℕ
cnt_of_grpc_errors [] = 0
cnt_of_grpc_errors ((now, p, a, w) ∷ xs) = (if is_some a then 0 else 1) + cnt_of_grpc_errors xs

finish_call_cnt :
    (now : ℤ) (k : Call) (c : AutoScaleMeta) → (finish_call now k c).1 ≡ k.cnt + length k.undo_list
unfolding finish_call
finish_call_cnt now k c = elim (direction-cases k.direction) [
  | inl e ↦ rw e refl
  | inr e ↦ rw e refl
]

returned_from :
    (fl : Float64) (g : Settings fl) (xs : List (Answer fl)) (k : Call)
    → let k' = answer_all fl g xs k in
      k'.cnt + length k'.undo_list ≡ k.cnt + length k.undo_list + cnt_of_grpc_errors xs
unfolding answer_all
returned_from fl g [] k = omega arith
returned_from fl g ((now, p, a, w) ∷ xs) k =
    let (x, y, z) = call_of_reply fl g now p a w k in
    omega (arith, returned_from fl g xs (reply fl g now p a w k).1, x, y)

module _ (fl : Float64) (g : Settings fl) (w : World fl) (r : Reachable fl g w) where
  -- A fresh call's count and the pods it took add up to what it asked for.
  add_begin-TakesAll :
      (now : ℤ) (tenant : String) (b : Bool) (n : ℕ)
      → TakesAll n w.meta (add_begin now tenant b (pos n) w.meta)
  unfolding add_begin
  add_begin-TakesAll now tenant b n = elim (Option-cases (get_tenant_desc tenant w.meta)) [
    | inl e ↦ rw (e, add_begin) tt
    | inr (t, e) ↦ elim (Bool-cases (state_eq t.state (expected_state adding b))) [
      | inl d ↦
          rw (e, add_begin, d)
            (begin_add-TakesAll now tenant b n w.meta (moving w) (Reachable-Safe fl g w r).good)
      | inr d ↦ rw (e, add_begin, d) tt
    ]
  ]

  -- In every state that undisturbed steps reach, when addPodIntoTenant begins, the pods it is short of and
  -- the pods it takes add up to the number it was given; it takes them from the front of the
  -- pool's list; and it is short of pods only if it leaves the pool empty.
  pub add_begin_takes :
      (now : ℤ) (tenant : String) (b : Bool) (n : ℕ) (c : AutoScaleMeta) (k : Call)
      → add_begin now tenant b (pos n) w.meta ≡ begun c k
      → (k.cnt + length k.todo ≡ n)
        × (w.meta.prewarm_pool.warmed_pods.pod_list ≡ k.todo ++ c.prewarm_pool.warmed_pods.pod_list)
        × ((k.cnt ≡ 0) ⊎ (c.prewarm_pool.warmed_pods.pod_list ≡ []))
  add_begin_takes now tenant b n c k e =
      let t : Takes n w.meta c k =
        subst (TakesAll n w.meta) e (add_begin-TakesAll now tenant b n) in
      (t.all_counted, t.from_front, t.as_many)

-- A call that starts with nothing to put back returns the pods it was short of plus those whose
-- call failed in grpc, whatever the world was at each answer; a pod that answers with an error is
-- not counted.
pub returned_count :
    (fl : Float64) (g : Settings fl) (now : ℤ) (xs : List (Answer fl)) (k : Call)
    (c : AutoScaleMeta)
    → k.undo_list ≡ []
    → (finish_call now (answer_all fl g xs k) c).1 ≡ k.cnt + cnt_of_grpc_errors xs
returned_count fl g now xs k c e =
    omega
      (arith, finish_call_cnt now (answer_all fl g xs k) c, returned_from fl g xs k, ap length e)
