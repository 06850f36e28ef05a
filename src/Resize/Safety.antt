-- ===== src/Resize/Safety.antt =====
-- The steps, and where the pods belong.
use tiflash_autoscale.Prelude.{
  ℕ, ℤ, ◌+◌, str_eq, ◌≡◌, ap, subst, true, false, Option, List, [], ◌∷◌, ◌++◌, contains, arith,
}
use tiflash_autoscale.Float.{Float64}
use tiflash_autoscale.Config.{Settings}
use tiflash_autoscale.Meta.{AutoScaleMeta}
use tiflash_autoscale.Meta.Desc.{get_tenant_desc_or_warmed_pool}
use tiflash_autoscale.Meta.Register.{
  setup_tenant_with_config-Good, setup_auto_pause_tenant_with_state-Good,
}
use tiflash_autoscale.Resize.{Call, Request, Result, begun, begin_call, finish_call}
use tiflash_autoscale.Resize.World.{World, reply}
use tiflash_autoscale.Resize.Count.{count, count-append}
use tiflash_autoscale.Resize.Moving.{Good-sub}
use tiflash_autoscale.Resize.Begin.{Once, BegunWell}
use tiflash_autoscale.Resize.BeginRemove.{begin_call-BegunWell}
use tiflash_autoscale.Resize.Finish.{finish_call-Good}
use tiflash_autoscale.Resize.Reply.{call_pods, calls_pods, waits_pods, moving, reply-Good}
use tiflash_autoscale.Resize.Reload.{reload-Good, conf_changes-Good}
use tiflash_autoscale.Startup.Kept.{sort-Good}
use tiflash_autoscale.Meta.Good.{Good}
use tiflash_autoscale.Meta.Local.{update_local_meta_pod_of_tenant-Good}
use tiflash_autoscale.Resize.Warming.{do_pods_warm-Good}
use tiflash_autoscale.Resize.Steps.{
  warm, ask_tenant, told_tenant, conf_changes, sort_at_startup, reload_conf, runtime_ready, Step,
  k8s_event, new_tenant, new_auto_pause_tenant, correct, pause, resume, resize, begin_refused,
  begin, answer, finish, wait_over, Undisturbed, Reachable, start, and_then, answered,
}
use tiflash_autoscale.Resize.Keeps.{
  Safe, handle_event-Good, count_calls, new_auto_scale_meta-Good, async_pause-Safe,
  async_resume-Safe, resize-Safe, end_wait-Safe,
}

module _ (fl : Float64) (g : Settings fl) where
  -- The pods of one call, and those of the others.
  pub count_world :
      (q : ℕ) (xs ys : List Call) (k : Call) (w : World fl)
      → w.calls ≡ xs ++ k ∷ ys
      → count q (moving w)
        ≡ count q (call_pods k) + count q (calls_pods (xs ++ ys) ++ waits_pods w.waits)
  count_world q xs ys k w e = omega (
    arith,
    count-append q (calls_pods w.calls) (waits_pods w.waits),
    ap (λ (l : List Call). count q (calls_pods l)) e,
    count_calls q xs ys k,
    count-append q (calls_pods (xs ++ ys)) (waits_pods w.waits),
  )

  begin-Safe :
      (now : ℤ) (requests : List Request) (r : Request) (w : World fl) (c : AutoScaleMeta)
      (k : Call)
      → str_eq r.tenant "" ≡ false
      → begin_call now r w.meta ≡ begun c k
      → Safe w
      → Safe (record w { meta = c; requests = requests; calls = k ∷ w.calls })
  begin-Safe now requests r w c k named e s =
      let b : BegunWell (moving w) (begun c k) =
        subst (BegunWell (moving w)) e
          (begin_call-BegunWell now r w.meta (moving w) named s.good s.once) in
      let shape : (q : ℕ)
          → count q ((call_pods k ++ calls_pods w.calls) ++ waits_pods w.waits)
            ≡ count q (k.todo ++ moving w) =
        λ q. omega (
          arith,
          count-append q (call_pods k ++ calls_pods w.calls) (waits_pods w.waits),
          count-append q (call_pods k) (calls_pods w.calls),
          count-append q k.todo k.undo_list,
          ap (count q) b.2,
          count-append q k.todo (moving w),
          count-append q (calls_pods w.calls) (waits_pods w.waits),
        ) in
      record {
        good = Good-sub c _ _ b.0 (λ q. omega (arith, shape q));
        once = λ q. omega (arith, shape q, b.1 q);
      }

  answered-Safe :
      (now : ℤ) (xs ys : List Call) (k : Call) (p : ℕ) (a : Option Result) (w : World fl)
      → w.calls ≡ xs ++ k ∷ ys
      → contains p k.todo ≡ true
      → Safe w
      → Safe (answered fl g now p a k (record w { calls = xs ++ ys }))
  answered-Safe now xs ys k p a w e i s =
      let w0 : World fl = record w { calls = xs ++ ys } in
      let all = call_pods k ++ moving w0 in
      let shape : (q : ℕ) → count q (moving w) ≡ count q all =
        λ q. omega (arith, count_world q xs ys k w e, count-append q (call_pods k) (moving w0)) in
      let r = reply fl g now p a w0 k in
      let (v, fewer, same) =
        reply-Good fl g now p a w0 k i
          (Good-sub w.meta (moving w) all s.good (λ q. omega (arith, shape q)))
          (λ q. omega (arith, shape q, s.once q)) in
      let shape' : (q : ℕ)
          → count q ((call_pods r.1 ++ calls_pods r.0.calls) ++ waits_pods r.0.waits)
            ≡ count q (call_pods r.1 ++ moving r.0) =
        λ q. omega (
          arith,
          count-append q (call_pods r.1 ++ calls_pods r.0.calls) (waits_pods r.0.waits),
          count-append q (call_pods r.1) (calls_pods r.0.calls),
          count-append q (call_pods r.1) (moving r.0),
          count-append q (calls_pods r.0.calls) (waits_pods r.0.waits),
        ) in
      record {
        good = Good-sub r.0.meta _ _ v (λ q. omega (arith, shape' q));
        once = λ q. omega (arith, shape' q, fewer q, shape q, s.once q);
      }

  -- The pods that a call which ends puts back, among those that move.
  pub ending :
      (xs ys : List Call) (k : Call) (w : World fl)
      → w.calls ≡ xs ++ k ∷ ys
      → k.todo ≡ []
      → Safe w
      → let others = k.undo_list ++ moving (record w { calls = xs ++ ys }) in
        Good w.meta others × Once others
  ending xs ys k w e d s =
      let w0 : World fl = record w { calls = xs ++ ys } in
      let shape : (q : ℕ) → count q (moving w) ≡ count q (k.undo_list ++ moving w0) = λ q. omega (
        arith,
        count_world q xs ys k w e,
        count-append q k.todo k.undo_list,
        ap (count q) d,
        count-append q k.undo_list (moving w0),
      ) in
      (
        Good-sub w.meta _ _ s.good (λ q. omega (arith, shape q)),
        λ q. omega (arith, shape q, s.once q),
      )

  finish-Safe :
      (now : ℤ) (xs ys : List Call) (k : Call) (w : World fl)
      → w.calls ≡ xs ++ k ∷ ys
      → k.todo ≡ []
      → Safe w
      → Safe (record w { meta = (finish_call now k w.meta).0; calls = xs ++ ys })
  finish-Safe now xs ys k w e d s =
      let rest = moving (record w { calls = xs ++ ys }) in
      let (good, once) = ending xs ys k w e d s in
      record {
        good = finish_call-Good now k w.meta rest good once;
        once = λ q. omega (arith, count-append q k.undo_list rest, once q);
      }

  ready-Good :
      (c : AutoScaleMeta) (m : List ℕ) → Good c m → Good (record c { is_runtime_ready = true }) m
  unfolding get_tenant_desc_or_warmed_pool
  ready-Good c m v = record {
    owned = v.owned;
    listed = v.listed;
    registered = v.registered;
    unique = v.unique;
    loose = λ p e.
        let l = v.loose p e in
        record {
          known = l.known;
          has_ip = l.has_ip;
          no_tenant = l.no_tenant;
          unlisted = l.unlisted;
        };
  }

  pub step-Safe : (w w' : World fl) (st : Step fl g w w') → Undisturbed fl g st → Safe w → Safe w'
  step-Safe w w' (k8s_event now e pod f) u s = record {
    good = handle_event-Good now e pod w.meta (moving w) s.good f;
    once = s.once;
  }
  step-Safe w w' (new_tenant k holder st named) u s = record {
    good = setup_tenant_with_config-Good k holder st w.meta (moving w) s.good named;
    once = s.once;
  }
  step-Safe w w' (new_auto_pause_tenant k lo hi st named) u s = record {
    good = setup_auto_pause_tenant_with_state-Good fl g k lo hi st w.meta (moving w) s.good named;
    once = s.once;
  }
  step-Safe w w' (correct now xs ys k e known has_ip) away s = record {
    good =
        update_local_meta_pod_of_tenant-Good fl g now k.pod k.tenant k.start_time w.meta (moving w)
          s.good away known has_ip;
    once = s.once;
  }
  step-Safe w w' (ask_tenant lock p at_startup b) u s = record { good = s.good; once = s.once }
  step-Safe w w' (told_tenant xs ys a told e) u s = record { good = s.good; once = s.once }
  step-Safe w w' (conf_changes k latest) u s = record {
    good = conf_changes-Good k latest w.meta (moving w) s.good;
    once = s.once;
  }
  step-Safe w w' (sort_at_startup k named no_calls no_waits) u s = record {
    good = sort-Good k w.meta (moving w) s.good;
    once = s.once;
  }
  step-Safe w w' (reload_conf k) u s = record {
    good = reload-Good k w.meta (moving w) s.good;
    once = s.once;
  }
  step-Safe w w' runtime_ready u s = record {
    good = ready-Good w.meta (moving w) s.good;
    once = s.once;
  }
  step-Safe w w' (warm api now cs) u s = record {
    good = do_pods_warm-Good api now cs w.meta (moving w) s.good s.once;
    once = s.once;
  }
  step-Safe w w' (pause k) u s = async_pause-Safe fl g k w s
  step-Safe w w' (resume k) u s = async_resume-Safe fl g k w s
  step-Safe w w' (resize from target k) u s = resize-Safe fl g from target k w s
  step-Safe w w' (begin_refused now xs ys r e n) u s = record { good = s.good; once = s.once }
  step-Safe w w' (begin now xs ys r c k e named b) u s = begin-Safe now (xs ++ ys) r w c k named b s
  step-Safe w w' (answer now xs ys k p a e i) u s = answered-Safe now xs ys k p a w e i s
  step-Safe w w' (finish now xs ys k e d) u s = finish-Safe now xs ys k w e d s
  step-Safe w w' (wait_over now xs ys k p e) u s = end_wait-Safe fl g now xs ys k p w e s

  pub Reachable-Safe : (w : World fl) → Reachable fl g w → Safe w
  Reachable-Safe w (start _ m c q _ _) = record {
    good = rw (m, c, q) (new_auto_scale_meta-Good fl g);
    once = rw (c, q) (λ q. omega arith);
  }
  Reachable-Safe w (and_then v _ r s u) = step-Safe v w s u (Reachable-Safe v r)
