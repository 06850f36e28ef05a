-- ===== src/Resize/Keeps.antt =====
-- The steps that are not part of a running call, and where the pods belong.
use tiflash_autoscale.Prelude.{
  ℕ, ℤ, ltb_ℤ, without, ◌+◌, ◌≤◌, String, str_eq, str_eq_iff, ◌≡◌, refl, ap, none, List, [], ◌∷◌,
  ◌++◌, arith, Bool-cases, Option-cases, inl, inr,
}
use tiflash_autoscale.Dict
use tiflash_autoscale.Float.{Float64}
use tiflash_autoscale.Config.{Settings}
use tiflash_autoscale.Tenant.{
  resumed, pausing, paused, resuming, sync_state_pausing, sync_state_resuming, switch_state,
  new_auto_pause_tenant_desc_with_state,
}
use tiflash_autoscale.Pool.{new_prewarm_pool}
use tiflash_autoscale.Meta.{AutoScaleMeta, get_tenant_desc}
use tiflash_autoscale.Meta.Setup.{new_auto_scale_meta}
use tiflash_autoscale.Meta.Desc.{get_tenant_desc_or_warmed_pool}
use tiflash_autoscale.Meta.Good.{Good}
use tiflash_autoscale.Meta.Events.{handle_k8s_del_pod_event-Good}
use tiflash_autoscale.Meta.Update.{Fresh, update_pod-Good}
use tiflash_autoscale.Meta.Register.{Empty-Consistent, switch_state-Shrinks}
use tiflash_autoscale.Watch.{
  Pod, EventType, added, modified, deleted, error, bookmark, handle_event,
}
use tiflash_autoscale.Resize.{Call}
use tiflash_autoscale.Resize.World.{
  World, end_wait, async_pause, async_resume, resize_pods_of_tenant,
}
use tiflash_autoscale.Resize.Count.{count, count-append, contains-eq-count, count-without}
use tiflash_autoscale.Resize.Moving.{Good-sub, relabel-Good, put_back_loose}
use tiflash_autoscale.Resize.Begin.{Once}
use tiflash_autoscale.Resize.Reply.{call_pods, calls_pods, waits_pods, moving}

pub record Safe {fl : Float64} (w : World fl) : Type 0 where
  pub good : Good w.meta (moving w)
  pub once : Once (moving w)

pub handle_event-Good :
    (now : ℤ) (e : EventType) (pod : Pod) (c : AutoScaleMeta) (m : List ℕ)
    → Good c m
    → (Dict.lookup pod.name c.pod_desc_map ≡ none → Fresh pod.name c)
    → Good (handle_event now e pod c) m
unfolding handle_event
handle_event-Good now added pod c m v f = update_pod-Good now pod.name pod.ip c m v f
handle_event-Good now modified pod c m v f = update_pod-Good now pod.name pod.ip c m v f
handle_event-Good now deleted pod c m v f = handle_k8s_del_pod_event-Good now pod.name c m v
handle_event-Good now error pod c m v f = v
handle_event-Good now bookmark pod c m v f = v

pub count_calls :
    (q : ℕ) (xs ys : List Call) (k : Call)
    → count q (calls_pods (xs ++ k ∷ ys)) ≡ count q (call_pods k) + count q (calls_pods (xs ++ ys))
count_calls q [] ys k = count-append q (call_pods k) (calls_pods ys)
count_calls q (x ∷ xs) ys k = omega (
  arith,
  count_calls q xs ys k,
  count-append q (call_pods x) (calls_pods (xs ++ k ∷ ys)),
  count-append q (call_pods x) (calls_pods (xs ++ ys)),
)

pub count_waits :
    (q : ℕ) (xs ys : List (String × ℕ)) (x : String × ℕ)
    → count q (waits_pods (xs ++ x ∷ ys)) ≡ count q (x.1 ∷ waits_pods (xs ++ ys))
count_waits q [] ys x = refl
count_waits q (y ∷ xs) ys x = omega (arith, count_waits q xs ys x)

module _ (fl : Float64) (g : Settings fl) where
  pub new_auto_scale_meta-Good : Good (new_auto_scale_meta fl g) []
  unfolding new_auto_scale_meta new_prewarm_pool new_auto_pause_tenant_desc_with_state
      get_tenant_desc_or_warmed_pool Dict.lookup
  new_auto_scale_meta-Good = record {
    owned = λ k t e. elim (Bool-cases (str_eq k "")) [
      | inl b ↦ (
        Empty-Consistent _ t (ground (arith, b)) (ground (arith, b)),
        ground (arith, b, str_eq_iff k ""),
      )
      | inr b ↦ absurd (ground (arith, b))
    ];
    listed = λ k t p e m. absurd (ground arith);
    registered = λ k p e. absurd (ground arith);
    unique = λ p q a b e. absurd (omega arith);
    loose = λ p m. absurd (ground arith);
  }

  pub async_pause-Safe : (k : String) (w : World fl) → Safe w → Safe (async_pause fl g k w).0
  unfolding async_pause sync_state_pausing
  async_pause-Safe k w s = elim (Option-cases (get_tenant_desc k w.meta)) [
    | inl e ↦ rw (e, async_pause) s
    | inr (t, e) ↦ elim (Bool-cases (switch_state resumed pausing t).1) [
      | inl b ↦
          rw (e, b, async_pause)
            (record {
              good =
                  relabel-Good k (λ t. (switch_state resumed pausing t).0) w.meta (moving w)
                    (λ t v. switch_state-Shrinks resumed pausing w.meta.heap t v) s.good;
              once = s.once;
            })
      | inr b ↦ rw (e, b, async_pause) s
    ]
  ]

  pub async_resume-Safe : (k : String) (w : World fl) → Safe w → Safe (async_resume fl g k w).0
  unfolding async_resume sync_state_resuming
  async_resume-Safe k w s = elim (Option-cases (get_tenant_desc k w.meta)) [
    | inl e ↦ rw (e, async_resume) s
    | inr (t, e) ↦ elim (Bool-cases (switch_state paused resuming t).1) [
      | inl b ↦
          rw (e, b, async_resume)
            (record {
              good =
                  relabel-Good k (λ t. (switch_state paused resuming t).0) w.meta (moving w)
                    (λ t v. switch_state-Shrinks paused resuming w.meta.heap t v) s.good;
              once = s.once;
            })
      | inr b ↦ rw (e, b, async_resume) s
    ]
  ]

  pub resize-Safe :
      (from target : ℤ) (k : String) (w : World fl)
      → Safe w
      → Safe (resize_pods_of_tenant fl g from target k w)
  unfolding resize_pods_of_tenant
  resize-Safe from target k w s = elim (Bool-cases (ltb_ℤ from target)) [
    | inl a ↦ rw a (record { good = s.good; once = s.once })
    | inr a ↦ elim (Bool-cases (ltb_ℤ target from)) [
      | inl b ↦ rw (a, b) (record { good = s.good; once = s.once })
      | inr b ↦ rw (a, b) s
    ]
  ]

  pub end_wait-Safe :
      (now : ℤ) (xs ys : List (String × ℕ)) (k : String) (p : ℕ) (w : World fl)
      → w.waits ≡ xs ++ (k, p) ∷ ys
      → Safe w
      → Safe (end_wait fl g now k p (record w { waits = xs ++ ys }))
  unfolding end_wait
  end_wait-Safe now xs ys k p w e s =
      let cs = calls_pods w.calls in
      let shape : (q : ℕ) → count q (moving w) ≡ count q cs + count q (p ∷ waits_pods (xs ++ ys)) =
        λ q. omega (
          arith,
          count-append q cs (waits_pods w.waits),
          ap (λ (l : List (String × ℕ)). count q (waits_pods l)) e,
          count_waits q xs ys (k, p),
        ) in
      let left : (q : ℕ) → count q (cs ++ waits_pods (xs ++ ys)) ≤ count q (without p (moving w)) =
        λ q. ground (
          arith,
          shape q,
          s.once q,
          count-append q cs (waits_pods (xs ++ ys)),
          count-without p q (moving w),
          shape p,
          s.once p,
          count-append p cs (waits_pods (xs ++ ys)),
        ) in
      record {
        good =
            Good-sub _ _ _
              (put_back_loose now k p w.meta (moving w) s.good
                (ground (arith, shape p, contains-eq-count p (moving w))))
              left;
        once = λ q. ground (arith, left q, s.once q, count-without p q (moving w));
      }
