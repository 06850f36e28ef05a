-- ===== src/Analyze/Bounds.antt =====
-- autoscale/cluster.go: the scaling part of a round, and the bounds of a tenant.
use tiflash_autoscale.Prelude.{
  ℕ, ℤ, pos, negsuc, ◌≤ℤ◌, ltb_ℤ, eq_ℤ, ◌≡◌, sym, ap, ◌∙◌, true, not, ◌&&◌, Option, none, some,
  some_inj, arith, Bool-cases, ◌⊎◌, inl, inr,
}
use tiflash_autoscale.Float.{Float64}
use tiflash_autoscale.Config.{
  Settings, get_min_cnt_of_pod, get_max_cnt_of_pod, get_lower_and_upper_cpu_scale_threshold,
}
use tiflash_autoscale.Tenant.{TenantDesc, get_cnt_of_pods}
use tiflash_autoscale.Series.Stats.{>>=-eq-some, avg}
use tiflash_autoscale.Series.Container.{cpu}
use tiflash_autoscale.Statistics.{Statistics, compute_statistics_of_tenant}
use tiflash_autoscale.ScaleRule.{compute_best_pods_in_rule_of_compute}
use tiflash_autoscale.ScaleRule.Bounds.{rule_bounds}
use tiflash_autoscale.Resize.World.{World, resize_pods_of_tenant}
use tiflash_autoscale.Analyze.{enough_points, first_slot, scale_by, scale_to, analyze_auto_scale}

no_change :
    (old best : ℤ)
    → best ≡ negsuc 0
    → (not (eq_ℤ best (negsuc 0)) && not (eq_ℤ old best)) ≡ true
    → ⊥
no_change old best r e = cc (sym e ∙ ap (λ b. not (eq_ℤ b (negsuc 0)) && not (eq_ℤ old b)) r)

module _ (fl : Float64) (g : Settings fl) where
  abbrev pub Asks : (World fl → World fl × Option ℕ) → TenantDesc → World fl → World fl → Type 0
  Asks answer t w w' =
      (target : ℤ) × (w'
        ≡ (answer (resize_pods_of_tenant fl g (pos (get_cnt_of_pods t)) target t.name w)).0)
      × (get_min_cnt_of_pod fl g t.conf ≤ℤ target)
      × (target ≤ℤ get_max_cnt_of_pod fl g t.conf)

  resized :
      (answer : World fl → World fl × Option ℕ) (t : TenantDesc) (w w' : World fl)
      (usage : fl.Float)
      → get_min_cnt_of_pod fl g t.conf ≤ℤ pos (get_cnt_of_pods t)
      → pos (get_cnt_of_pods t) ≤ℤ get_max_cnt_of_pod fl g t.conf
      → scale_to fl g answer t w usage ≡ w'
      → (w' ≡ w) ⊎ Asks answer t w w'
  unfolding scale_to
  resized answer t w w' usage x y =
      let limits = get_lower_and_upper_cpu_scale_threshold fl g t.conf in
      let best = (compute_best_pods_in_rule_of_compute fl g (some t) usage limits.0 limits.1).0 in
      elim (Bool-cases (not (eq_ℤ best (negsuc 0)) && not (eq_ℤ (pos (get_cnt_of_pods t)) best))) [
        | inr e ↦ rw e (λ h. inl (sym h))
        | inl e ↦ elim (rule_bounds fl g t usage limits.0 limits.1 x y) [
          | inl r ↦ λ h. absurd (no_change (pos (get_cnt_of_pods t)) best (ap (λ q. q.0) r) e)
          | inr (_, lo, hi, _) ↦ rw e (λ h. inr (best, sym h, lo, hi))
        ]
      ]

  measured :
      (answer : World fl → World fl × Option ℕ) (now : ℤ) (t : TenantDesc) (w w' : World fl)
      (o : Option (Statistics fl))
      → get_min_cnt_of_pod fl g t.conf ≤ℤ pos (get_cnt_of_pods t)
      → pos (get_cnt_of_pods t) ≤ℤ get_max_cnt_of_pod fl g t.conf
      → scale_by fl g answer now t w o ≡ some w'
      → (w' ≡ w) ⊎ Asks answer t w w'
  unfolding scale_by
  measured answer now t w w' none x y = λ h. absurd (ground arith)
  measured answer now t w w' (some s) x y =
      elim (Bool-cases (enough_points now t.conf.window_seconds s.metric_desc_of_tenant)) [
        | inr e ↦ rw e (λ h. inl (sym (some_inj h)))
        | inl e ↦ rw e (λ h.
            let (a, _, k) = >>=-eq-some (first_slot fl g s) _ h in
            resized answer t w w' (avg fl a) x y (some_inj k))
      ]

  -- If the number of pods of the tenant is within its bounds, the scaling part of a round leaves the
  -- world as it is, or calls ResizePodsOfTenant for a number of pods within the bounds and ends with
  -- the world that the call leaves.
  pub auto_scale_bounds :
      (answer : World fl → World fl × Option ℕ) (now : ℤ) (t : TenantDesc) (w w' : World fl)
      → get_min_cnt_of_pod fl g t.conf ≤ℤ pos (get_cnt_of_pods t)
      → pos (get_cnt_of_pods t) ≤ℤ get_max_cnt_of_pod fl g t.conf
      → analyze_auto_scale fl g answer now t w ≡ some w'
      → (w' ≡ w) ⊎ Asks answer t w w'
  unfolding analyze_auto_scale
  auto_scale_bounds answer now t w w' x y =
      elim (Bool-cases (ltb_ℤ (pos (get_cnt_of_pods t)) (get_min_cnt_of_pod fl g t.conf))) [
        | inl e ↦ λ h. absurd (ground arith)
        | inr e ↦ rw e (λ h.
            let (o, _, k) =
              >>=-eq-some (compute_statistics_of_tenant fl now t.name w.ts_container cpu w.meta) _
                h in
            measured answer now t w w' o x y k)
      ]
