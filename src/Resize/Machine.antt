-- ===== src/Resize/Machine.antt =====
-- The life of a tenant: resumed, pausing, paused, resuming and resumed again, as a machine of its own;
-- and how addPodIntoTenant and removePodFromTenant drive it.
use tiflash_autoscale.Prelude.{
  ℕ, ℤ, pos, negsuc, String, ◌≡◌, refl, subst, Bool, true, false, List, [], ◌∷◌, ◌⊎◌, inl, inr,
  arith, if◌then◌else◌, Bool-cases, Option-cases,
}
use tiflash_autoscale.Dict
use tiflash_autoscale.Pod.{PodHeap}
use tiflash_autoscale.Tenant.{
  TenantState, resumed, resuming, paused, pausing, unknown, TenantDesc, state_eq, switch_state,
  sync_state_paused, get_cnt_of_pods, pop_pods, set_pod,
}
use tiflash_autoscale.Tenant.Pop.{state-pop_pods}
use tiflash_autoscale.Meta.{AutoScaleMeta, get_tenant_desc, on_tenant, put_back}
use tiflash_autoscale.Meta.States.{
  Evolve, Same, OrResumed, Evolve-refl, Same-trans, on_tenant-Evolve, set_pod-Evolve,
  put_back-Evolve,
}
use tiflash_autoscale.Resize.{
  Request, Direction, adding, removing, Begun, refused, panics, begun, begin_call, add_begin,
  remove_begin, begin_add, begin_remove, pop_and_pause, expected_state, undo_add, undo_remove,
}

-- What befalls a tenant.
pub data Occasion : Type 0 where
  pause_asked resume_asked pause_begun resume_done pod_reported other : Occasion

abbrev pub Switches : TenantState → TenantState → TenantState → TenantState → Type 0
Switches from to s s' = (s' ≡ s) ⊎ ((s ≡ from) × (s' ≡ to))

-- The machine: nothing else leads from state to state.
abbrev pub Move : Occasion → TenantState → TenantState → Type 0
Move pause_asked = Switches resumed pausing
Move pause_begun = Switches pausing paused
Move resume_asked = Switches paused resuming
Move resume_done = Switches resuming resumed
Move pod_reported = OrResumed
Move other = Same

pub eq-state_eq : (a b : TenantState) → state_eq a b ≡ true → a ≡ b
eq-state_eq resumed b h = ground arith
eq-state_eq resuming b h = ground arith
eq-state_eq paused b h = ground arith
eq-state_eq pausing b h = ground arith
eq-state_eq unknown b h = ground arith

pub switch_state-Switches :
    (from to : TenantState) (t : TenantDesc)
    → Switches from to t.state (switch_state from to t).0.state
unfolding switch_state
switch_state-Switches from to t = elim (Bool-cases (state_eq t.state from)) [
  | inl b ↦ rw b (inr (eq-state_eq t.state from b, refl))
  | inr b ↦ rw b (inl refl)
]

-- The switch of one tenant's state.
pub on_tenant-Switches :
    (from to : TenantState) (k : String) (c : AutoScaleMeta)
    → Evolve (Switches from to) c (on_tenant k (λ h t. (h, (switch_state from to t).0)) c)
on_tenant-Switches from to k c =
    on_tenant-Evolve (Switches from to) k (λ h t. (h, (switch_state from to t).0)) c (λ s. inl refl)
      (λ h t. switch_state-Switches from to t)

pub undo_add-Evolve :
    (now : ℤ) (k : String) (ps : List ℕ) (c : AutoScaleMeta) → Evolve Same c (undo_add now k ps c)
unfolding undo_add
undo_add-Evolve now k [] c = Evolve-refl Same c c (λ s. refl) refl
undo_add-Evolve now k (p ∷ ps) c = elim (Bool-cases (Dict.has (c.heap p).name c.pod_desc_map)) [
  | inl b ↦
      rw (b, undo_add)
        (let c' = put_back now k p false c in
          Same-trans Same c c' (undo_add now k ps c') (put_back-Evolve now k p false c)
            (undo_add-Evolve now k ps c'))
  | inr b ↦ rw (b, undo_add) (undo_add-Evolve now k ps c)
]

pub undo_remove-Evolve :
    (k : String) (ps : List ℕ) (c : AutoScaleMeta) → Evolve Same c (undo_remove k ps c)
unfolding undo_remove
undo_remove-Evolve k [] c = Evolve-refl Same c c (λ s. refl) refl
undo_remove-Evolve k (p ∷ ps) c = elim (Bool-cases (Dict.has (c.heap p).name c.pod_desc_map)) [
  | inl b ↦
      rw (b, undo_remove)
        (let c' = on_tenant k (set_pod (c.heap p).name p) c in
          Same-trans Same c c' (undo_remove k ps c') (set_pod-Evolve k (c.heap p).name p c)
            (undo_remove-Evolve k ps c'))
  | inr b ↦ rw (b, undo_remove) (undo_remove-Evolve k ps c)
]

-- What the beginning of a call is to its tenant.
abbrev pub occasion_of_request : Request → Occasion
occasion_of_request r = elim r.direction [
  | adding ↦ other
  | removing ↦ if r.changes_state then pause_begun else other
]

abbrev pub BeginsBy : Occasion → AutoScaleMeta → Begun → Type 0
BeginsBy o c refused = Unit
BeginsBy o c panics = Unit
BeginsBy o c (begun c' k) = Evolve (Move o) c c'

add_begin-BeginsBy :
    (now : ℤ) (k : String) (b : Bool) (cnt : ℤ) (c : AutoScaleMeta)
    → BeginsBy other c (add_begin now k b cnt c)
unfolding add_begin
add_begin-BeginsBy now k b cnt c = elim (Option-cases (get_tenant_desc k c)) [
  | inl n ↦ rw (n, add_begin) tt
  | inr (t, n) ↦ elim (Bool-cases (state_eq t.state (expected_state adding b))) [
    | inr e ↦ rw (n, e, add_begin) tt
    | inl e ↦ rw (n, e, add_begin) (begins cnt)
  ]
]
  where
    begins :
        (cnt : ℤ)
        → BeginsBy other c (elim cnt [ pos n ↦ begin_add now k b n c | negsuc n ↦ panics ])
    begins (pos n) = λ j u e. (u, e, refl)
    begins (negsuc n) = tt

-- PopPods, and the pause behind it.
pop_and_pause-Switches :
    (now : ℤ) (n : ℕ) (h : PodHeap) (t : TenantDesc)
    → Switches pausing paused t.state (pop_and_pause now true n h t).1.state
unfolding sync_state_paused
pop_and_pause-Switches now n h t =
    subst (λ (s : TenantState). Switches pausing paused s (pop_and_pause now true n h t).1.state)
      (state-pop_pods now n [] h t) (switch_state-Switches pausing paused (pop_pods now n [] h t).1)

begin_remove-BeginsBy :
    (now : ℤ) (k : String) (is_pause : Bool) (n : ℕ) (t : TenantDesc) (c : AutoScaleMeta)
    → BeginsBy (if is_pause then pause_begun else other) c (begin_remove now k is_pause n t c)
begin_remove-BeginsBy now k true n t c =
    on_tenant-Evolve (Switches pausing paused) k (pop_and_pause now true n) c (λ s. inl refl)
      (pop_and_pause-Switches now n)
begin_remove-BeginsBy now k false n t c =
    on_tenant-Evolve Same k (pop_and_pause now false n) c (λ s. refl)
      (λ h u. state-pop_pods now n [] h u)

remove_begin-BeginsBy :
    (now : ℤ) (k : String) (is_pause : Bool) (cnt : ℤ) (c : AutoScaleMeta)
    → BeginsBy (if is_pause then pause_begun else other) c (remove_begin now k is_pause cnt c)
unfolding remove_begin
remove_begin-BeginsBy now k is_pause cnt c = elim (Option-cases (get_tenant_desc k c)) [
  | inl n ↦ rw (n, remove_begin) tt
  | inr (t, n) ↦ elim (Bool-cases (state_eq t.state (expected_state removing is_pause))) [
    | inr e ↦ rw (n, e, remove_begin) tt
    | inl e ↦ rw (n, e, remove_begin) (begins is_pause cnt t)
  ]
]
  where
    begins :
        (is_pause : Bool) (cnt : ℤ) (t : TenantDesc)
        → BeginsBy (if is_pause then pause_begun else other) c (
            if is_pause
            then begin_remove now k is_pause (get_cnt_of_pods t) t c
            else elim cnt [ pos n ↦ begin_remove now k is_pause n t c | negsuc n ↦ panics ])
    begins true cnt t = begin_remove-BeginsBy now k true (get_cnt_of_pods t) t c
    begins false (pos n) t = begin_remove-BeginsBy now k false n t c
    begins false (negsuc n) t = tt

pub begin_call-BeginsBy :
    (now : ℤ) (r : Request) (c : AutoScaleMeta)
    → BeginsBy (occasion_of_request r) c (begin_call now r c)
unfolding begin_call
begin_call-BeginsBy now r c = by_direction r.direction
  where
    by_direction :
        (d : Direction)
        → BeginsBy
            (elim d [ adding ↦ other | removing ↦ if r.changes_state then pause_begun else other ])
            c
            (elim d [
              | adding ↦ add_begin now r.tenant r.changes_state r.cnt c
              | removing ↦ remove_begin now r.tenant r.changes_state r.cnt c
            ])
    by_direction adding = add_begin-BeginsBy now r.tenant r.changes_state r.cnt c
    by_direction removing = remove_begin-BeginsBy now r.tenant r.changes_state r.cnt c
