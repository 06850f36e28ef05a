-- ===== src/Series/Window/Append.antt =====
-- SimpleTimeSeries.append at a time later than all before it, which its only caller sees to.
use tiflash_autoscale.Prelude.{
  ℤ, pos, ◌-ℤ◌, ◌≤ℤ◌, ◌<ℤ◌, eq_ℤ, max_ℤ, ◌≤◌, ◌≡◌, refl, ◌∙◌, subst, some, List, [], ◌∷◌, ◌++◌,
  length, All, All-map, All-append, arith, if◌then◌else◌,
}
use tiflash_autoscale.Float.{Float64}
use tiflash_autoscale.Series.Stats.{
  AvgSigma, sub_values, sub_value, add_values, add_value, capacity_of_statics_avg_sigma,
}
use tiflash_autoscale.Series.Stats.Slots.{update_each_total, length-update_each}
use tiflash_autoscale.Series.Window.{TimeValues, SimpleTimeSeries, append, back_time, evict}
use tiflash_autoscale.Series.Window.Evict.{Ascending, surviving, evict-surviving, evict_total}
use tiflash_autoscale.Series.Window.Invariant.{
  WellFormed, Counted, sub-Counted, add-Counted, evict_induction,
}

module _ (fl : Float64) where
  Ascending-append :
      (xs : List (TimeValues fl)) (p : TimeValues fl)
      → Ascending fl xs
      → All (λ (y : TimeValues fl). y.time <ℤ p.time) xs
      → Ascending fl (xs ++ p ∷ [])
  Ascending-append [] p a h = (tt, tt)
  Ascending-append (x ∷ xs) p a h =
      (All-append _ xs (p ∷ []) a.0 (h.0, tt), Ascending-append xs p a.1 h.1)

  back_time-append :
      (x : TimeValues fl) (xs : List (TimeValues fl)) (p : TimeValues fl)
      → back_time fl x (xs ++ p ∷ []) ≡ p.time
  back_time-append x [] p = refl
  back_time-append x (y ∷ ys) p = back_time-append y ys p

  evict-surviving-append :
      (limit interval : ℤ) (xs : List (TimeValues fl)) (p : TimeValues fl)
      (stats : List (AvgSigma fl)) (r : List (TimeValues fl) × List (AvgSigma fl))
      → Ascending fl (xs ++ p ∷ [])
      → evict fl limit interval (xs ++ p ∷ []) stats ≡ some r
      → r.0 ≡ surviving fl limit (p.time -ℤ interval) (xs ++ p ∷ [])
  evict-surviving-append limit interval [] p stats r a e =
      evict-surviving fl limit interval p [] stats r a e
  evict-surviving-append limit interval (x ∷ xs) p stats r a e =
      subst (λ b. r.0 ≡ surviving fl limit (b -ℤ interval) (x ∷ (xs ++ p ∷ [])))
        (back_time-append x xs p) (evict-surviving fl limit interval x (xs ++ p ∷ []) stats r a e)

  -- The facts that both the array and the list keep through the loop.
  record Within (max_time : ℤ) (xs : List (TimeValues fl)) (stats : List (AvgSigma fl))
      : Type 0 where
    ascending : Ascending fl xs
    bounded : All (λ (y : TimeValues fl). y.time ≤ℤ max_time) xs
    slots : length stats ≡ capacity_of_statics_avg_sigma
    fits : All (λ (y : TimeValues fl). length y.values ≤ capacity_of_statics_avg_sigma) xs
    counted : Counted fl xs stats

  Within-sub :
      (max_time : ℤ) (x : TimeValues fl) (xs : List (TimeValues fl))
      (stats rest : List (AvgSigma fl))
      → Within max_time (x ∷ xs) stats
      → sub_values fl stats x.values ≡ some rest
      → Within max_time xs rest
  unfolding sub_values
  Within-sub max_time x xs stats rest w e = record {
    ascending = w.ascending.1;
    bounded = w.bounded.1;
    slots = length-update_each fl (sub_value fl) stats x.values rest e ∙ w.slots;
    fits = w.fits.1;
    counted = sub-Counted fl x xs stats rest w.counted e;
  }

  Within-add :
      (s : SimpleTimeSeries fl) (p : TimeValues fl) (rest : List (AvgSigma fl))
      → WellFormed fl s
      → s.max_time <ℤ p.time
      → length p.values ≤ capacity_of_statics_avg_sigma
      → add_values fl s.statistics p.values ≡ some rest
      → Within p.time (s.series ++ p ∷ []) rest
  unfolding add_values Counted
  Within-add s p rest w later fit e = record {
    ascending =
        Ascending-append s.series p w.ascending
          (All-map _ _ s.series (λ y h. ground arith) w.bounded);
    bounded =
        All-append _ s.series (p ∷ []) (All-map _ _ s.series (λ y h. ground arith) w.bounded)
          (ground arith, tt);
    slots = length-update_each fl (add_value fl) s.statistics p.values rest e ∙ w.slots;
    fits = All-append _ s.series (p ∷ []) w.fits (fit, tt);
    counted = add-Counted fl p s.series s.statistics rest w.counted e;
  }

  latest : (m t : ℤ) → m <ℤ t → (if eq_ℤ m (pos 0) then t else max_ℤ m t) ≡ t
  unfolding max_ℤ
  latest m t h = ground arith

  -- In a section, a point that the caller may append.
  module _ (s : SimpleTimeSeries fl) (time : ℤ) (values : List fl.Float) (w : WellFormed fl s)
      (later : s.max_time <ℤ time) (fit : length values ≤ capacity_of_statics_avg_sigma) where
    point : TimeValues fl
    point = record { time = time; values = values }

    -- The call does not fail; what it returns is well formed again, ends at the new time, and
    -- holds just the points of the window.
    pub append_lem :
        (t : SimpleTimeSeries fl) × (append fl time values s ≡ some t)
        × WellFormed fl t
        × (t.max_time ≡ time)
        × (t.series
            ≡ surviving fl s.cap
                (time -ℤ s.interval_sec)
                (s.series ++ record { time = time; values = values } ∷ []))
        × (t.cap ≡ s.cap)
        × (t.interval_sec ≡ s.interval_sec)
    unfolding append point Counted add_values
    append_lem =
        let (stats, e) = update_each_total fl (add_value fl) s.statistics values (rw w.slots fit) in
        let v : Within time (s.series ++ point ∷ []) stats =
          Within-add s point stats w later fit e in
        let (r, q, m) =
          evict_total fl s.cap s.interval_sec (s.series ++ point ∷ []) stats
            (omega (arith, w.cap_positive)) (rw v.slots v.fits) in
        let u : Within time r.0 r.1 =
          evict_induction fl (Within time) s.cap s.interval_sec (Within-sub time) _ stats r v q in
        (
          record s { series = r.0; statistics = r.1; max_time = time },
          rw (e, q, latest s.max_time time later) refl,
          record {
            ascending = u.ascending;
            bounded = u.bounded;
            cap_positive = w.cap_positive;
            slots = u.slots;
            fits = u.fits;
            counted = u.counted;
          },
          refl,
          evict-surviving-append s.cap s.interval_sec s.series point stats r v.ascending q,
          refl,
          refl,
        )
