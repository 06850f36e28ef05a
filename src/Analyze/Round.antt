-- ===== src/Analyze/Round.antt =====
-- autoscale/cluster.go: a round of analyzeTaskLoop as a whole.
use tiflash_autoscale.Prelude.{
  ℕ, ℤ, pos, negsuc, ltb_ℤ, eq_ℤ, String, str_eq, ◌≡◌, refl, sym, ap, ◌∙◌, subst, Bool, true, false,
  not, ◌&&◌, Option, none, some, List, [], ◌∷◌, length, if◌then◌else◌, arith, Bool-cases,
  Option-cases, inl, inr,
}
use tiflash_autoscale.Dict
use tiflash_autoscale.Float.{Float64}
use tiflash_autoscale.Config.{
  Settings, get_min_cnt_of_pod, get_init_cnt_of_pod, get_lower_and_upper_cpu_scale_threshold,
}
use tiflash_autoscale.Tenant.{
  TenantDesc, resumed, paused, state_eq, is_state_correct, get_cnt_of_pods, sync_state_pausing,
}
use tiflash_autoscale.Meta.{get_tenant_desc}
use tiflash_autoscale.Meta.Register.{desc_of_named}
use tiflash_autoscale.Series.Stats.{AvgSigma, ◌>>=◌, avg, capacity_of_statics_avg_sigma}
use tiflash_autoscale.Series.Container.{MetricsTopic, cpu, task_cnt}
use tiflash_autoscale.Series.Container.Insert.{IsKnown, AllWellFormed}
use tiflash_autoscale.Statistics.{Statistics, compute_statistics_of_tenant}
use tiflash_autoscale.Statistics.Total.{compute_statistics_known}
use tiflash_autoscale.ScaleRule.{compute_best_pods_in_rule_of_compute}
use tiflash_autoscale.Resize.World.{World, async_pause, async_resume, resize_pods_of_tenant}
use tiflash_autoscale.Resize.Steps.{reload_conf, pause, Step, resize, Reachable, and_then}
use tiflash_autoscale.Resize.Safety.{Reachable-Safe}
use tiflash_autoscale.Resize.Lifecycle.{step_refines_machine}
use tiflash_autoscale.Server.{resume}
use tiflash_autoscale.Analyze.{
  first_slot, pause_by, analyze_auto_pause, scale_to, scale_by, analyze_auto_scale, correct_state,
  scale_again, analyze_tenant, reload, analyze_round,
}

module _ (fl : Float64) (g : Settings fl) (k : String) (has_name : str_eq k "" ≡ false) where
  -- What a round rests on: the tenant is known, and the samples can be read.
  record Sound (w : World fl) : Type 0 where
    reached : Reachable fl g w
    samples : AllWellFormed fl w.ts_container
    known : (t : TenantDesc) × (Dict.lookup k w.meta.tenant_map ≡ some t)

  abbrev Ends : (World fl → Type 0) → Option (World fl) → Type 0
  Ends P o = (w : World fl) × (o ≡ some w) × P w

  Reachable-name :
      (w : World fl) (t : TenantDesc)
      → Reachable fl g w
      → Dict.lookup k w.meta.tenant_map ≡ some t
      → t.name ≡ k
  Reachable-name w t r e =
      ((Reachable-Safe fl g w r).good.owned k t (desc_of_named k w.meta has_name ∙ e)).1

  async_pause_samples :
      (j : String) (w : World fl) → (async_pause fl g j w).0.ts_container ≡ w.ts_container
  unfolding async_pause
  async_pause_samples j w = elim (Option-cases (get_tenant_desc j w.meta)) [
    | inl n ↦ rw (n, async_pause) refl
    | inr (t, n) ↦ elim (Bool-cases (sync_state_pausing t).1) [
      | inl b ↦ rw (n, b, async_pause) refl
      | inr b ↦ rw (n, b, async_pause) refl
    ]
  ]

  async_pause-Sound : (j : String) (w : World fl) → Sound w → Sound (async_pause fl g j w).0
  async_pause-Sound j w s =
      let (t, e) = s.known in
      let (t', e', _) = step_refines_machine fl g {w = w} (pause j) k t e in
      record {
        reached = and_then w _ s.reached (pause j) tt;
        samples = subst (AllWellFormed fl) (sym (async_pause_samples j w)) s.samples;
        known = (t', e');
      }

  first_slot_total :
      (s : Statistics fl)
      → length s.ret ≡ capacity_of_statics_avg_sigma
      → (x : AvgSigma fl) × (first_slot fl g s ≡ some x)
  first_slot_total s n = by_list s.ret n
    where
      by_list :
          (l : List (AvgSigma fl))
          → length l ≡ capacity_of_statics_avg_sigma
          → (x : AvgSigma fl) × (let o : Option (AvgSigma fl) = elim l [
            | [] ↦ none
            | x ∷ xs ↦ some x
          ] in
              o ≡ some x)
      by_list [] m = absurd (omega (arith, m))
      by_list (x ∷ xs) m = (x, refl)

  -- A branch on the first slot of the statistics.
  sampled-Ends :
      (P : World fl → Type 0) (b : Bool) (s : Statistics fl) (f : AvgSigma fl → World fl)
      (w : World fl)
      → length s.ret ≡ capacity_of_statics_avg_sigma
      → ((x : AvgSigma fl) → P (f x))
      → P w
      → Ends P (if b then (first_slot fl g s >>= λ x. some (f x)) else some w)
  sampled-Ends P true s f w n each here =
      let (x, e) = first_slot_total s n in (f x, rw e refl, each x)
  sampled-Ends P false s f w n each here = (w, refl, here)

  -- A branch on the statistics of the tenant.
  statistics-Ends :
      (P : World fl → Type 0) (now : ℤ) (topic : MetricsTopic) (t : TenantDesc) (w : World fl)
      (f : Option (Statistics fl) → Option (World fl))
      → IsKnown topic
      → Sound w
      → t.name ≡ k
      → ((s : Statistics fl) → length s.ret ≡ capacity_of_statics_avg_sigma → Ends P (f (some s)))
      → Ends P (compute_statistics_of_tenant fl now t.name w.ts_container topic w.meta >>= f)
  statistics-Ends P now topic t w f is_known sound n each =
      let (t', e) = sound.known in
      let (s, q, l) =
        compute_statistics_known fl now w.ts_container topic is_known sound.samples t.name w.meta t'
          (ap (λ (j : String). Dict.lookup j w.meta.tenant_map) n ∙ e) in
      subst (λ (o : Option (Option (Statistics fl))). Ends P (o >>= f)) (sym q) (each s l)

  auto_pause-Ends :
      (now : ℤ) (t : TenantDesc) (w : World fl)
      → Sound w
      → t.name ≡ k
      → Ends Sound (analyze_auto_pause fl g now t w)
  unfolding analyze_auto_pause pause_by
  auto_pause-Ends now t w s n =
      elim (Bool-cases (eq_ℤ t.conf.auto_pause_interval_seconds (pos 0))) [
        | inl b ↦ rw b (w, refl, s)
        | inr b ↦ rw b (
            statistics-Ends Sound now task_cnt t w (pause_by fl g now t w) tt s n (λ r l.
              sampled-Ends Sound _ r
                (λ x. if fl.lt x.sum (fl.of_int (pos 1)) then (async_pause fl g t.name w).0 else w)
                w l
                (λ x. elim (Bool-cases (fl.lt x.sum (fl.of_int (pos 1)))) [
                  | inl c ↦ rw c (async_pause-Sound t.name w s)
                  | inr c ↦ rw c s
                ])
                s))
      ]

  module _ (answer : World fl → World fl × Option ℕ)
      (keeps : (w : World fl) → Reachable fl g w → Reachable fl g (answer w).0) where
    resized-Reachable :
        (from target : ℤ) (j : String) (w : World fl)
        → Reachable fl g w
        → Reachable fl g (answer (resize_pods_of_tenant fl g from target j w)).0
    resized-Reachable from target j w r = keeps _ (and_then w _ r (resize from target j) tt)

    scale_to-Reachable :
        (t : TenantDesc) (w : World fl) (usage : fl.Float)
        → Reachable fl g w
        → Reachable fl g (scale_to fl g answer t w usage)
    unfolding scale_to
    scale_to-Reachable t w usage r =
        let limits = get_lower_and_upper_cpu_scale_threshold fl g t.conf in
        let best = (compute_best_pods_in_rule_of_compute fl g (some t) usage limits.0 limits.1).0 in
        let cnt = pos (get_cnt_of_pods t) in
        elim (Bool-cases (not (eq_ℤ best (negsuc 0)) && not (eq_ℤ cnt best))) [
          | inl b ↦ rw b (resized-Reachable cnt best t.name w r)
          | inr b ↦ rw b r
        ]

    auto_scale-Ends :
        (now : ℤ) (t : TenantDesc) (w : World fl)
        → Sound w
        → t.name ≡ k
        → Ends (Reachable fl g) (analyze_auto_scale fl g answer now t w)
    unfolding analyze_auto_scale scale_by
    auto_scale-Ends now t w s n =
        let cnt = pos (get_cnt_of_pods t) in
        elim (Bool-cases (ltb_ℤ cnt (get_min_cnt_of_pod fl g t.conf))) [
          | inl b ↦
              rw b (
                _,
                refl,
                resized-Reachable cnt (get_init_cnt_of_pod fl g t.conf) t.name w s.reached,
              )
          | inr b ↦ rw b (
              statistics-Ends (Reachable fl g) now cpu t w (scale_by fl g answer now t w) tt s n
                (λ r l.
                  sampled-Ends (Reachable fl g) _ r (λ x. scale_to fl g answer t w (avg fl x)) w l
                    (λ x. scale_to-Reachable t w (avg fl x) s.reached) s.reached))
        ]

    scale_again-Ends :
        (now : ℤ) (w : World fl) → Sound w → Ends (Reachable fl g) (scale_again fl g answer now k w)
    unfolding scale_again get_tenant_desc
    scale_again-Ends now w s =
        let (t, e) = s.known in
        rw (e, scale_again) (auto_scale-Ends now t w s (Reachable-name w t s.reached e))

    resume-Reachable : (w : World fl) → Reachable fl g w → Reachable fl g (resume fl g answer k w).0
    unfolding resume
    resume-Reachable w r =
        let r1 = and_then w _ r (Step.resume k) tt in
        elim (Bool-cases (async_resume fl g k w).1) [ inl b ↦ rw b (keeps _ r1) | inr b ↦ rw b r1 ]

    correct_state-Reachable :
        (t : TenantDesc) (w : World fl)
        → Reachable fl g w
        → Reachable fl g (correct_state fl g answer k t w)
    unfolding correct_state
    correct_state-Reachable t w r = elim (Bool-cases (state_eq (is_state_correct t).1 resumed)) [
      | inl b ↦ rw b (resume-Reachable w r)
      | inr b ↦ elim (Bool-cases (state_eq (is_state_correct t).1 paused)) [
        | inl d ↦ rw (b, d) (and_then w _ r (pause k) tt)
        | inr d ↦ rw (b, d) r
      ]
    ]

    analyze_tenant-Ends :
        (now : ℤ) (t : TenantDesc) (w : World fl)
        → Sound w
        → t.name ≡ k
        → Ends (Reachable fl g) (analyze_tenant fl g answer now k t w)
    unfolding analyze_tenant
    analyze_tenant-Ends now t w s n =
        by_tests t.conf.disabled (not (is_state_correct t).0) (not (state_eq t.state resumed))
      where
        by_tests :
            (disabled incorrect away : Bool)
            → Ends (Reachable fl g) (
                if disabled
                then some (async_pause fl g k w).0
                else if incorrect
                then some (correct_state fl g answer k t w)
                else if away
                then some w
                else (analyze_auto_pause fl g now t w >>= scale_again fl g answer now k))
        by_tests true b c = (_, refl, and_then w _ s.reached (pause k) tt)
        by_tests false true c = (_, refl, correct_state-Reachable t w s.reached)
        by_tests false false true = (w, refl, s.reached)
        by_tests false false false =
            let (v, e, sound) = auto_pause-Ends now t w s n in
            let (w', f, r) = scale_again-Ends now v sound in (w', rw e f, r)

    reload-Sound : (w : World fl) → Sound w → Sound (reload fl g k w)
    reload-Sound w s =
        let (t, e) = s.known in
        let (t', e', _) = step_refines_machine fl g {w = w} (reload_conf k) k t e in
        record {
          reached = and_then w _ s.reached (reload_conf k) tt;
          samples = s.samples;
          known = (t', e');
        }

    -- Let the tenant of a task be known and its name not empty, let all series of samples be well
    -- formed, and let what goes on while the round waits for a call, which the argument answer stands
    -- for, be made of undisturbed steps. From a state that undisturbed steps reach, the round then comes
    -- to its end, and does not read statistics that are not there; it ends in a state that undisturbed
    -- steps reach.
    pub round_ends :
        (now : ℤ) (w : World fl) (t : TenantDesc)
        → Reachable fl g w
        → AllWellFormed fl w.ts_container
        → Dict.lookup k w.meta.tenant_map ≡ some t
        → (w' : World fl) × (analyze_round fl g answer now k w ≡ some w') × Reachable fl g w'
    unfolding analyze_round get_tenant_desc
    round_ends now w t r all e =
        let sound = reload-Sound w (record { reached = r; samples = all; known = (t, e) }) in
        let (t1, e1) = sound.known in
        rw (e1, analyze_round)
          (analyze_tenant-Ends now t1 (reload fl g k w) sound
            (Reachable-name (reload fl g k w) t1 sound.reached e1))
