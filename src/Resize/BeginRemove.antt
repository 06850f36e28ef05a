-- ===== src/Resize/BeginRemove.antt =====
-- The beginning of any call, removePodFromTenant's included.
use mathlib.Core.List.{reverse}
use tiflash_autoscale.Prelude.{
  ℕ, ℤ, String, str_eq, ◌≡◌, refl, ap, ◌∙◌, Bool, true, false, some, List, [], arith, if◌then◌else◌,
  Bool-cases, Option-cases, inl, inr,
}
use tiflash_autoscale.Dict
use tiflash_autoscale.Pod.{PodHeap}
use tiflash_autoscale.Tenant.{
  TenantDesc, state_eq, pop_pods, paused, pausing, sync_state_paused, switch_state, get_cnt_of_pods,
}
use tiflash_autoscale.Tenant.Consistent.{Consistent}
use tiflash_autoscale.Tenant.Pop.{pop_pods_lem}
use tiflash_autoscale.Tenant.Shrinks.{Shrinks, Shrinks-trans, pop_pods-Shrinks}
use tiflash_autoscale.Meta.{AutoScaleMeta, get_tenant_desc}
use tiflash_autoscale.Meta.Desc.{get_tenant_desc_or_warmed_pool, on_tenant-Changes}
use tiflash_autoscale.Meta.Good.{Good}
use tiflash_autoscale.Meta.Register.{desc_of_named, switch_state-Shrinks}
use tiflash_autoscale.Resize.{
  Direction, adding, removing, Request, Begun, begin_remove, remove_begin, begin_call,
  pop_and_pause, expected_state,
}
use tiflash_autoscale.Resize.Count.{count, count-append, count-reverse}
use tiflash_autoscale.Resize.Moving.{mark-Good}
use tiflash_autoscale.Resize.Begin.{
  Once, join-Good, BegunWell, on_pos-BegunWell, add_begin-BegunWell,
}

sync_state_paused-Shrinks :
    (h : PodHeap) (t : TenantDesc) → Consistent h t → Shrinks h t h (sync_state_paused t).0
unfolding sync_state_paused switch_state
sync_state_paused-Shrinks h t v = switch_state-Shrinks pausing paused h t v

pop_and_pause-Shrinks :
    (now : ℤ) (b : Bool) (n : ℕ) (h : PodHeap) (t : TenantDesc)
    → Consistent h t
    → Shrinks h t (pop_and_pause now b n h t).0 (pop_and_pause now b n h t).1
pop_and_pause-Shrinks now true n h t v =
    let s = pop_pods-Shrinks now n [] h t v in
    Shrinks-trans s (sync_state_paused-Shrinks _ _ s.consistent)
pop_and_pause-Shrinks now false n h t v = pop_pods-Shrinks now n [] h t v

pod_list-pop_and_pause :
    (now : ℤ) (b : Bool) (n : ℕ) (h : PodHeap) (t : TenantDesc)
    → (pop_and_pause now b n h t).1.pod_list ≡ (pop_pods now n [] h t).1.pod_list
unfolding sync_state_paused switch_state
pod_list-pop_and_pause now b n h t = ground arith

pub begin_remove-BegunWell :
    (now : ℤ) (tenant : String) (b : Bool) (n : ℕ) (t : TenantDesc) (c : AutoScaleMeta)
    (moving : List ℕ)
    → get_tenant_desc_or_warmed_pool tenant c ≡ some t
    → Good c moving
    → Once moving
    → BegunWell moving (begin_remove now tenant b n t c)
begin_remove-BegunWell now tenant b n t c moving e v once =
    let r = pop_pods now n [] c.heap t in
    let (popped, returned, split, count_eq, end) = pop_pods_lem now n [] c.heap t in
    let f = pop_and_pause now b n in
    let w =
      join-Good r.3 e (pop_and_pause-Shrinks now b n c.heap t (v.owned tenant t e).0)
        (on_tenant-Changes tenant f c t e)
        (λ q. omega (
          arith,
          ap (count q) split,
          count-append q r.1.pod_list (reverse popped),
          count-reverse q popped,
          ap (count q) returned,
          ap (count q) (pod_list-pop_and_pause now b n c.heap t),
        ))
        v once in
    (mark-Good true r.3 _ _ w.0, w.1, refl)

if-BegunWell :
    (moving : List ℕ) (x y : Begun)
    → BegunWell moving x
    → BegunWell moving y
    → (b : Bool) → BegunWell moving (if b then x else y)
if-BegunWell moving x y v w true = v
if-BegunWell moving x y v w false = w

pub remove_begin-BegunWell :
    (now : ℤ) (tenant : String) (b : Bool) (n : ℤ) (c : AutoScaleMeta) (moving : List ℕ)
    → str_eq tenant "" ≡ false
    → Good c moving
    → Once moving
    → BegunWell moving (remove_begin now tenant b n c)
unfolding remove_begin
remove_begin-BegunWell now tenant b n c moving named v once =
    elim (Option-cases (get_tenant_desc tenant c)) [
      | inl e ↦ rw (e, remove_begin) tt
      | inr (t, e) ↦
          let e' : Dict.lookup tenant c.tenant_map ≡ some t = unfold get_tenant_desc in e in
          let found = desc_of_named tenant c named ∙ e' in
          elim (Bool-cases (state_eq t.state (expected_state removing b))) [
            | inr d ↦ rw (e, remove_begin, d) tt
            | inl d ↦
                rw (e, remove_begin, d)
                  (if-BegunWell moving _ _
                    (begin_remove-BegunWell now tenant b (get_cnt_of_pods t) t c moving found v
                      once)
                    (on_pos-BegunWell moving (λ i. begin_remove now tenant b i t c)
                      (λ i. begin_remove-BegunWell now tenant b i t c moving found v once) n)
                    b)
          ]
    ]

by_direction-BegunWell :
    (moving : List ℕ) (a b : Begun)
    → BegunWell moving a
    → BegunWell moving b
    → (d : Direction) → BegunWell moving (elim d [ adding ↦ a | removing ↦ b ])
by_direction-BegunWell moving a b v w adding = v
by_direction-BegunWell moving a b v w removing = w

-- Whatever is asked for, the pods that a call takes stand in no descriptor, and no other call
-- has them.
pub begin_call-BegunWell :
    (now : ℤ) (r : Request) (c : AutoScaleMeta) (moving : List ℕ)
    → str_eq r.tenant "" ≡ false
    → Good c moving
    → Once moving
    → BegunWell moving (begin_call now r c)
unfolding begin_call
begin_call-BegunWell now r c moving named v once =
    by_direction-BegunWell moving _ _
      (add_begin-BegunWell now r.tenant r.changes_state r.cnt c moving v once)
      (remove_begin-BegunWell now r.tenant r.changes_state r.cnt c moving named v once) r.direction
