-- ===== src/Resize/Lifecycle.antt =====
-- What each step of the program does to the state of a tenant.
use tiflash_autoscale.Prelude.{
  ℕ, ℤ, String, ◌≡◌, refl, subst, Bool, true, false, some, ◌++◌, if◌then◌else◌, ◌+◌, length,
}
use tiflash_autoscale.Dict
use tiflash_autoscale.Float.{Float64}
use tiflash_autoscale.Config.{Settings}
use tiflash_autoscale.Tenant.{resumed, resuming, TenantDesc, switch_state, sync_state_resumed}
use tiflash_autoscale.Meta.{AutoScaleMeta, on_tenant}
use tiflash_autoscale.Meta.States.{Evolve, Same, Evolve-refl, Same-trans, put_back-Evolve}
use tiflash_autoscale.Meta.Joined.{
  update_local_meta_pod_of_tenant-Evolve, setup_tenant_with_config-Evolve,
  setup_auto_pause_tenant_with_state-Evolve,
}
use tiflash_autoscale.Resize.{
  Call, Direction, adding, removing, mark, undo_add, undo_remove, finish_call,
}
use tiflash_autoscale.Resize.World.{World, end_wait}
use tiflash_autoscale.Startup.{sort_pods_at_start_up}
use tiflash_autoscale.Tenant.{try_to_reload_conf, change_holder}
use tiflash_autoscale.Prelude.{arith}
use tiflash_autoscale.Meta.States.{Same, on_tenant-Evolve}
use tiflash_autoscale.Resize.Steps.{
  warm, ask_tenant, told_tenant, conf_changes, sort_at_startup, reload_conf, runtime_ready, Step,
  k8s_event, new_tenant, new_auto_pause_tenant, correct, pause, resume, resize, begin_refused,
  begin, answer, finish, wait_over,
}
use tiflash_autoscale.Resize.Machine.{
  Occasion, pause_asked, resume_asked, resume_done, pod_reported, other, Move, on_tenant-Switches,
  undo_add-Evolve, undo_remove-Evolve, occasion_of_request, BeginsBy, begin_call-BeginsBy,
}
use tiflash_autoscale.Resize.Drives.{
  handle_event-Evolve, reply-Evolve, async_pause-Evolve, async_resume-Evolve, resize-Evolve,
}

module _ (fl : Float64) (g : Settings fl) where
  -- The end of a call; only a resuming one may move a state.
  abbrev pub occasion_of_call : Call → Occasion
  occasion_of_call k = elim k.direction [
    | adding ↦ if k.changes_state then resume_done else other
    | removing ↦ other
  ]

  finish_call-Evolve :
      (now : ℤ) (k : Call) (c : AutoScaleMeta)
      → Evolve (Move (occasion_of_call k)) c (finish_call now k c).0
  unfolding finish_call sync_state_resumed
  finish_call-Evolve now k c = by_direction k.direction
    where
      c1 : AutoScaleMeta
      c1 = undo_add now k.tenant k.undo_list c

      after : Bool → AutoScaleMeta
      after b =
          if b then on_tenant k.tenant (λ h t. (h, (switch_state resuming resumed t).0)) c1 else c1

      resumes :
          (b : Bool)
          → Evolve (Move (if b then resume_done else other)) c1 (mark false k.started (after b))
      resumes true = on_tenant-Switches resuming resumed k.tenant c1
      resumes false = Evolve-refl Same c1 (mark false k.started c1) (λ s. refl) refl

      by_direction :
          (d : Direction)
          → Evolve
              (Move (elim d [
                | adding ↦ if k.changes_state then resume_done else other
                | removing ↦ other
              ]))
              c
              (let r : AutoScaleMeta × ℕ = elim d [
                | adding ↦
                    (mark false k.started (after k.changes_state), k.cnt + length k.undo_list)
                | removing ↦ (
                  mark false k.started (undo_remove k.tenant k.undo_list c),
                  k.cnt + length k.undo_list,
                )
              ] in
                r.0)
      by_direction adding =
          Same-trans (Move (if k.changes_state then resume_done else other)) c c1
            (mark false k.started (after k.changes_state))
            (undo_add-Evolve now k.tenant k.undo_list c) (resumes k.changes_state)
      by_direction removing = undo_remove-Evolve k.tenant k.undo_list c

  -- What a step is to the tenants.
  abbrev pub occasion_of : {w w' : World fl} → Step fl g w w' → Occasion
  occasion_of (pause k) = pause_asked
  occasion_of (resume k) = resume_asked
  occasion_of (begin now xs ys r c k e named b) = occasion_of_request r
  occasion_of (finish now xs ys k e d) = occasion_of_call k
  occasion_of (answer now xs ys k p a e i) = pod_reported
  occasion_of (correct now xs ys k e known has_ip) = pod_reported
  occasion_of (ask_tenant lock p at_startup b) = other
  occasion_of (told_tenant xs ys a told e) = other
  occasion_of (conf_changes k latest) = other
  occasion_of (k8s_event now e pod f) = other
  occasion_of (new_tenant k holder s named) = other
  occasion_of (new_auto_pause_tenant k lo hi s named) = other
  occasion_of (sort_at_startup k named calls waits) = other
  occasion_of (reload_conf k) = other
  occasion_of runtime_ready = other
  occasion_of (warm api now cs) = other
  occasion_of (resize from target k) = other
  occasion_of (begin_refused now xs ys r e b) = other
  occasion_of (wait_over now xs ys k p e) = other

  step-Evolve :
      {w w' : World fl} (st : Step fl g w w') → Evolve (Move (occasion_of st)) w.meta w'.meta
  unfolding end_wait sort_pods_at_start_up try_to_reload_conf
  step-Evolve {w = w} (pause k) = async_pause-Evolve fl g k w
  step-Evolve {w = w} (resume k) = async_resume-Evolve fl g k w
  step-Evolve {w = w} (k8s_event now e pod f) = handle_event-Evolve fl g now e pod w.meta
  step-Evolve {w = w} (new_tenant k holder s named) =
      setup_tenant_with_config-Evolve k holder s w.meta
  step-Evolve {w = w} (new_auto_pause_tenant k lo hi s named) =
      setup_auto_pause_tenant_with_state-Evolve fl g k lo hi s w.meta
  step-Evolve {w = w} (correct now xs ys k e known has_ip) =
      update_local_meta_pod_of_tenant-Evolve fl g now k.pod k.tenant k.start_time w.meta
  step-Evolve {w = w} (ask_tenant lock p at_startup b) = λ k t e. (t, e, refl)
  step-Evolve {w = w} (told_tenant xs ys a told e) = λ k t e. (t, e, refl)
  step-Evolve {w = w} (conf_changes k latest) =
      on_tenant-Evolve Same k (λ h t. (h, change_holder latest t)) w.meta (λ s. refl) (λ h t. refl)
  step-Evolve {w = w} (sort_at_startup k named calls waits) =
      on_tenant-Evolve Same k (λ h t. (h, sort_pods_at_start_up h t)) w.meta (λ s. refl)
        (λ h t. refl)
  step-Evolve {w = w} (reload_conf k) =
      on_tenant-Evolve Same k (λ h t. (h, (try_to_reload_conf false t).0)) w.meta (λ s. refl)
        (λ h t. ground arith)
  step-Evolve {w = w} runtime_ready = λ k t e. (t, e, refl)
  step-Evolve {w = w} (warm api now cs) = λ k t e. (t, e, refl)
  step-Evolve {w = w} (resize from target k) = resize-Evolve fl g from target k w
  step-Evolve {w = w} (begin_refused now xs ys r e b) = λ k t e. (t, e, refl)
  step-Evolve {w = w} (begin now xs ys r c k e named b) =
      subst (BeginsBy (occasion_of_request r) w.meta) b (begin_call-BeginsBy now r w.meta)
  step-Evolve {w = w} (answer now xs ys k p a e i) =
      reply-Evolve fl g now p a (record w { calls = xs ++ ys }) k
  step-Evolve {w = w} (finish now xs ys k e d) = finish_call-Evolve now k w.meta
  step-Evolve {w = w} (wait_over now xs ys k p e) = put_back-Evolve now k p false w.meta

  -- Every step of the program is a move of the machine for every tenant: a tenant that is known stays
  -- known, and its state stays as it is or moves as the machine allows at what the step is: from
  -- resumed to pausing when a pause is asked for, from pausing to paused when the call that takes
  -- its pods begins, from paused to resuming when a resume is asked for, from resuming to resumed when
  -- a call ends that was to resume the tenant, and to resumed when a pod has told of its tenant. No
  -- other step moves a state.
  pub step_refines_machine :
      {w w' : World fl} (st : Step fl g w w') (k : String) (t : TenantDesc)
      → Dict.lookup k w.meta.tenant_map ≡ some t
      → (t' : TenantDesc) × (Dict.lookup k w'.meta.tenant_map ≡ some t')
        × Move (occasion_of st) t.state t'.state
  step_refines_machine st = step-Evolve st
