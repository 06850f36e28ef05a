-- ===== src/Resize/Returns.antt =====
-- autoscale/meta.go: a call of addPodIntoTenant whose grpc calls all fail.

use tiflash_autoscale.Prelude.{
  ℕ, ℤ, pos, String, str_eq, str_eq_iff, ◌≡◌, refl, sym, ap, ◌∙◌, subst, Bool, true, false, Option,
  none, some, List, [], ◌∷◌, ◌++◌, if◌then◌else◌, Bool-cases, Option-cases, inl, inr,
}
use tiflash_autoscale.Dict
use tiflash_autoscale.Dict.Laws.{lookup-insert}
use tiflash_autoscale.Float.{Float64}
use tiflash_autoscale.Config.{Settings}
use tiflash_autoscale.Tenant.{TenantDesc, sync_state_resumed, switch_state, state_eq, resuming}
use tiflash_autoscale.Meta.{AutoScaleMeta, on_tenant, get_tenant_desc}
use tiflash_autoscale.Resize.{
  Call, Begun, adding, refused, panics, begun, undo_add, finish_call, add_begin, expected_state,
}
use tiflash_autoscale.Resize.World.{World, reply}
use tiflash_autoscale.Resize.Begin.{Once, BegunWell, add_begin-BegunWell}
use tiflash_autoscale.Resize.Reply.{moving}
use tiflash_autoscale.Resize.Steps.{Reachable}
use tiflash_autoscale.Resize.Safety.{Reachable-Safe, ending}
use tiflash_autoscale.Resize.Count.{count, count-append, count-without, contains-eq-count}
use tiflash_autoscale.Prelude.{◌+◌, ◌==◌, contains, arith}
use tiflash_autoscale.Resize.Counts.{Answer, answer_all, add_begin_takes}
use tiflash_autoscale.Resize.Undo.{pool_list, AllKnown, undo_add_list}

-- What a call of addPodIntoTenant is when it begins.
abbrev Fresh : String → AutoScaleMeta → Begun → Type 0
Fresh tenant c0 refused = Unit
Fresh tenant c0 panics = Unit
Fresh tenant c0 (begun c k) =
    (k.direction ≡ adding)
    × (k.tenant ≡ tenant)
    × (k.undo_list ≡ [])
    × (c.tenant_map ≡ c0.tenant_map)

add_begin-Fresh :
    (now : ℤ) (tenant : String) (b : Bool) (n : ℕ) (c : AutoScaleMeta)
    → Fresh tenant c (add_begin now tenant b (pos n) c)
unfolding add_begin
add_begin-Fresh now tenant b n c = elim (Option-cases (get_tenant_desc tenant c)) [
  | inl e ↦ rw (e, add_begin) tt
  | inr (t, e) ↦ elim (Bool-cases (state_eq t.state (expected_state adding b))) [
    | inl d ↦ rw (e, add_begin, d) (refl, refl, refl, refl)
    | inr d ↦ rw (e, add_begin, d) tt
  ]
]

-- The lists of pods of the tenants.
abbrev pub list_of : Option TenantDesc → Option (List ℕ)
list_of none = none
list_of (some t) = some t.pod_list

abbrev pub pods_of : String → AutoScaleMeta → Option (List ℕ)
pods_of j c = list_of (Dict.lookup j c.tenant_map)

list_of-insert :
    (k j : String) (t t' : TenantDesc) (m : Dict.Dict TenantDesc)
    → Dict.lookup k m ≡ some t
    → t'.pod_list ≡ t.pod_list
    → list_of (Dict.lookup j (Dict.insert k t' m)) ≡ list_of (Dict.lookup j m)
list_of-insert k j t t' m e same =
    ap list_of (lookup-insert k j t' m) ∙ elim (Bool-cases (str_eq k j)) [
      | inl b ↦
          let old : Dict.lookup j m ≡ some t =
            subst (λ (i : String). Dict.lookup i m ≡ some t) ((str_eq_iff k j).0 b) e in
          rw b (ap some same ∙ sym (ap list_of old))
      | inr b ↦ rw b refl
    ]

-- The end of a call that adds pods, beside what it puts back.
resumed_after :
    (k : String) (b : Bool) (c : AutoScaleMeta) (j : String)
    → str_eq k "" ≡ false
    → let c' = if b then on_tenant k (λ h t. (h, (sync_state_resumed t).0)) c else c in
      (pool_list c' ≡ pool_list c) × (pods_of j c' ≡ pods_of j c)
unfolding on_tenant sync_state_resumed switch_state
resumed_after k false c j named = (refl, refl)
resumed_after k true c j named = elim (Option-cases (Dict.lookup k c.tenant_map)) [
  | inl e ↦ rw (named, e) (refl, refl)
  | inr (t, e) ↦
      let t' = (sync_state_resumed t).0 in
      let kept : t'.pod_list ≡ t.pod_list = elim (Bool-cases (state_eq t.state resuming)) [
        | inl b ↦ rw b refl
        | inr b ↦ rw b refl
      ] in
      rw (named, e) (refl, list_of-insert k j t t' c.tenant_map e kept)
]

-- The answers to a call that all fail in grpc, each from a pod that is still asked, until no pod is.
abbrev pub AllFail : (fl : Float64) → Settings fl → Call → List (Answer fl) → Type 0
AllFail fl g k [] = k.todo ≡ []
AllFail fl g k ((now, p, a, w) ∷ xs) =
    (a ≡ none) × (contains p k.todo ≡ true) × AllFail fl g (reply fl g now p none w k).1 xs

-- The call then has its pods in its undo list, in the order of the answers.
all_failed :
    (fl : Float64) (g : Settings fl) (xs : List (Answer fl)) (k : Call)
    → AllFail fl g k xs
    → Once k.todo
    → let k' = answer_all fl g xs k in
      ((q : ℕ) → count q k'.undo_list ≡ count q k.undo_list + count q k.todo)
      × (k'.todo ≡ [])
      × (k'.direction ≡ k.direction)
      × (k'.tenant ≡ k.tenant)
unfolding answer_all reply
all_failed fl g [] k d once = (λ q. omega (arith, ap (count q) d), d, refl, refl)
all_failed fl g ((now, p, a, w) ∷ xs) k (none_given, m, fails) once =
    let k1 = (reply fl g now p none w k).1 in
    let fewer : (q : ℕ) → count q k1.todo ≡ (if p == q then 0 else count q k.todo) =
      λ q. count-without p q k.todo in
    let (kept, done, d, t) = all_failed fl g xs k1 fails (λ q. ground (arith, fewer q, once q)) in
    rw none_given (
      λ q. ground (
        arith,
        kept q,
        fewer q,
        once p,
        contains-eq-count p k.todo,
        count-append q k.undo_list (p ∷ []),
      ),
      done,
      d,
      t,
    )

finish_adding :
    (now : ℤ) (k : Call) (c : AutoScaleMeta) (j : String)
    → k.direction ≡ adding
    → str_eq k.tenant "" ≡ false
    → let c1 = undo_add now k.tenant k.undo_list c in
      let c' = (finish_call now k c).0 in
      (pool_list c' ≡ pool_list c1) × (pods_of j c' ≡ pods_of j c1)
unfolding finish_call
finish_adding now k c j e named =
    let c1 = undo_add now k.tenant k.undo_list c in
    let r = resumed_after k.tenant k.changes_state c1 j named in
    (rw (finish_call, e) r.0, rw (finish_call, e) r.1)

-- In every state that undisturbed steps reach, let a call of addPodIntoTenant for a named tenant begin:
-- it takes its pods from the front of the pool. Let the grpc call to each of these fail, in any order,
-- and let the call end in any state that undisturbed steps reach and that has it among its calls, where
-- Kubernetes still knows its pods. Then it puts back just the pods that it took, at the end of the
-- pool's list, which is else as it was before the end; and the list of every tenant is as it was.
pub failed_call_returns :
    (fl : Float64) (g : Settings fl) (w : World fl)
    → Reachable fl g w
    → (now : ℤ) (tenant : String) (b : Bool) (n : ℕ) (c : AutoScaleMeta) (k : Call)
    → str_eq tenant "" ≡ false
    → add_begin now tenant b (pos n) w.meta ≡ begun c k
    → (xs : List (Answer fl)) → AllFail fl g k xs
    → (w' : World fl) → Reachable fl g w'
    → (before after : List Call)
    → let k' = answer_all fl g xs k in
      w'.calls ≡ before ++ k' ∷ after
      → AllKnown w'.meta k'.undo_list
      → (later : ℤ)
      → let c' = (finish_call later k' w'.meta).0 in
        (kept : List ℕ) × (w.meta.prewarm_pool.warmed_pods.pod_list ≡ k.todo ++ kept)
        × ((q : ℕ) → count q k'.undo_list ≡ count q k.todo)
        × (c'.prewarm_pool.warmed_pods.pod_list
            ≡ w'.meta.prewarm_pool.warmed_pods.pod_list ++ k'.undo_list)
        × ((j : String) → pods_of j c' ≡ pods_of j w'.meta)
failed_call_returns fl g w r now tenant b n c k named e xs fails w' r' before after i known later =
    let safe = Reachable-Safe fl g w r in
    let (_, front, _) = add_begin_takes fl g w r now tenant b n c k e in
    let well : BegunWell (moving w) (begun c k) =
      subst (BegunWell (moving w)) e
        (add_begin-BegunWell now tenant b (pos n) w.meta (moving w) safe.good safe.once) in
    let fresh : Fresh tenant w.meta (begun c k) =
      subst (Fresh tenant w.meta) e (add_begin-Fresh now tenant b n w.meta) in
    let k' = answer_all fl g xs k in
    let (undone, done, d, t) =
      all_failed fl g xs k fails (λ q. omega (arith, well.1 q, count-append q k.todo (moving w))) in
    let (good, once) = ending fl g before after k' w' i done (Reachable-Safe fl g w' r') in
    let (pool, tenants) =
      undo_add_list later k'.tenant k'.undo_list w'.meta
        (moving (record w' { calls = before ++ after })) good once known in
    let ended = λ (j : String).
      finish_adding later k' w'.meta j (d ∙ fresh.0)
        (ap (λ (i : String). str_eq i "") (t ∙ fresh.1) ∙ named) in
    (
      pool_list c,
      front,
      λ q. omega (arith, undone q, ap (count q) fresh.2),
      (ended "").0 ∙ pool,
      λ j. (ended j).1 ∙ ap (λ (m : Dict.Dict TenantDesc). list_of (Dict.lookup j m)) tenants,
    )
