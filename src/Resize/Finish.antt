-- ===== src/Resize/Finish.antt =====
-- A reply, and the end of a call: the pods that move come to rest one by one.
use tiflash_autoscale.Prelude.{
  ℕ, ℤ, String, ◌≡◌, refl, Bool, true, false, List, [], ◌∷◌, ◌++◌, contains, without, arith,
  if◌then◌else◌, Bool-cases, ◌⊎◌, inl, inr,
}
use tiflash_autoscale.Dict
use tiflash_autoscale.Tenant.{
  resuming, resumed, set_pod, set_pod_with_tenant_info, sync_state_resumed, switch_state,
}
use tiflash_autoscale.Tenant.Shrinks.{set_pod-Grows, set_pod_with_tenant_info-Grows}
use tiflash_autoscale.Meta.{AutoScaleMeta, on_tenant, put_back}
use tiflash_autoscale.Meta.Good.{Good}
use tiflash_autoscale.Meta.Events.{Good-Fits}
use tiflash_autoscale.Meta.Register.{switch_state-Shrinks}
use tiflash_autoscale.Resize.{Direction, adding, removing, Call, undo_add, undo_remove, finish_call}
use tiflash_autoscale.Resize.Count.{count-without}
use tiflash_autoscale.Resize.Moving.{Good-sub, mark-Good, put_back_loose, set_loose, relabel-Good}
use tiflash_autoscale.Resize.Begin.{Once}

undo_add-Good :
    (now : ℤ) (k : String) (ps : List ℕ) (c : AutoScaleMeta) (moving : List ℕ)
    → Good c (ps ++ moving)
    → Once (ps ++ moving)
    → Good (undo_add now k ps c) moving
unfolding undo_add
undo_add-Good now k [] c moving v once = v
undo_add-Good now k (p ∷ ps) c moving v once =
    elim (Bool-cases (Dict.has (c.heap p).name c.pod_desc_map)) [
      | inl e ↦ rw e (
          undo_add-Good now k ps (put_back now k p false c) moving
            (Good-sub _ _ _ (put_back_loose now k p c (p ∷ ps ++ moving) v (ground arith))
              (λ q. ground (arith, count-without p q (p ∷ ps ++ moving), once q)))
            (λ q. ground (arith, once q)))
      | inr e ↦ rw e (
          undo_add-Good now k ps c moving (Good-sub _ _ _ v (λ q. ground arith))
            (λ q. ground (arith, once q)))
    ]

-- SetPod and SetPodWithTenantInfo put a loose pod into a tenant.
set_pod_loose :
    (k : String) (p : ℕ) (c : AutoScaleMeta) (moving : List ℕ)
    → Good c moving
    → contains p moving ≡ true
    → Good (on_tenant k (set_pod (c.heap p).name p) c) (without p moving)
set_pod_loose k p c moving v m =
    set_loose k (set_pod (c.heap p).name p) p c moving
      (λ t e.
        set_pod-Grows (c.heap p).name p c.heap t (v.owned k t e).0
          (Good-Fits c moving k t p v e (v.loose p m).known))
      v m

pub set_pod_with_tenant_info_loose :
    (k : String) (p : ℕ) (start : ℤ) (c : AutoScaleMeta) (moving : List ℕ)
    → Good c moving
    → contains p moving ≡ true
    → Good (on_tenant k (set_pod_with_tenant_info (c.heap p).name p start) c) (without p moving)
set_pod_with_tenant_info_loose k p start c moving v m =
    set_loose k (set_pod_with_tenant_info (c.heap p).name p start) p c moving
      (λ t e.
        set_pod_with_tenant_info-Grows (c.heap p).name p start c.heap t (v.owned k t e).0
          (Good-Fits c moving k t p v e (v.loose p m).known))
      v m

undo_remove-Good :
    (k : String) (ps : List ℕ) (c : AutoScaleMeta) (moving : List ℕ)
    → Good c (ps ++ moving)
    → Once (ps ++ moving)
    → Good (undo_remove k ps c) moving
unfolding undo_remove
undo_remove-Good k [] c moving v once = v
undo_remove-Good k (p ∷ ps) c moving v once =
    elim (Bool-cases (Dict.has (c.heap p).name c.pod_desc_map)) [
      | inl e ↦ rw e (
          undo_remove-Good k ps _ moving
            (Good-sub _ _ _ (set_pod_loose k p c (p ∷ ps ++ moving) v (ground arith))
              (λ q. ground (arith, count-without p q (p ∷ ps ++ moving), once q)))
            (λ q. ground (arith, once q)))
      | inr e ↦ rw e (
          undo_remove-Good k ps c moving (Good-sub _ _ _ v (λ q. ground arith))
            (λ q. ground (arith, once q)))
    ]

sync_state_resumed-Good :
    (k : String) (b : Bool) (c : AutoScaleMeta) (moving : List ℕ)
    → Good c moving
    → Good (if b then on_tenant k (λ h t. (h, (sync_state_resumed t).0)) c else c) moving
unfolding sync_state_resumed
sync_state_resumed-Good k true c moving v =
    relabel-Good k (λ t. (switch_state resuming resumed t).0) c moving
      (λ t w. switch_state-Shrinks resuming resumed c.heap t w) v
sync_state_resumed-Good k false c moving v = v

pub direction-cases : (d : Direction) → (d ≡ adding) ⊎ (d ≡ removing)
direction-cases adding = inl refl
direction-cases removing = inr refl

-- The end of a call lets go of every pod that it was to put back.
pub finish_call-Good :
    (now : ℤ) (k : Call) (c : AutoScaleMeta) (moving : List ℕ)
    → Good c (k.undo_list ++ moving)
    → Once (k.undo_list ++ moving)
    → Good (finish_call now k c).0 moving
unfolding finish_call
finish_call-Good now k c moving v once = elim (direction-cases k.direction) [
  | inl e ↦ rw e (
      mark-Good false k.started _ moving (
        sync_state_resumed-Good k.tenant k.changes_state _ moving
          (undo_add-Good now k.tenant k.undo_list c moving v once)))
  | inr e ↦
      rw e
        (mark-Good false k.started _ moving (undo_remove-Good k.tenant k.undo_list c moving v once))
]
