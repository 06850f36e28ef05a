-- ===== src/Series/Container/Window.antt =====
-- What an insert does to the series that it names, and to all the others.
use tiflash_autoscale.Prelude.{
  ℤ, ◌-ℤ◌, ◌≤ℤ◌, ◌<ℤ◌, ◌≤◌, ◌≡◌, refl, sym, ◌∙◌, subst, String, str_eq, str_eq_iff, Bool, true,
  false, ◌&&◌, Option, none, some, List, [], ◌∷◌, ◌++◌, length, arith, Bool-cases, some_inj, inl,
  inr, ◌≢◌, ◌⊎◌,
}
use tiflash_autoscale.Float.{Float64}
use tiflash_autoscale.Series.Stats.{AvgSigma, capacity_of_statics_avg_sigma}
use tiflash_autoscale.Series.Window.{TimeValues, SimpleTimeSeries, reload_cfg}
use tiflash_autoscale.Series.Window.Evict.{surviving}
use tiflash_autoscale.Series.Window.Invariant.{WellFormed}
use tiflash_autoscale.Series.Container.{
  MetricsTopic, TimeSeriesContainer, series_for_insert, insert_with_user_cfg,
}
use tiflash_autoscale.Series.Container.Insert.{
  IsKnown, series_of, AllWellFormed, same_topic, target, Outcome, outcome, same_topic_refl,
  eq_of_same_topic,
}

module _ (fl : Float64) where
  -- What a reader sees of a series: its points, its statistics and its latest time.
  abbrev pub contents :
      Option (SimpleTimeSeries fl) → Option (List (TimeValues fl) × List (AvgSigma fl) × ℤ)
  contents none = none
  contents (some s) = some (s.series, s.statistics, s.max_time)

  contents-series_for_insert :
      (resolution interval : ℤ) (s : SimpleTimeSeries fl) (o : Option (SimpleTimeSeries fl))
      → o ≡ some s
      → contents (some (series_for_insert fl resolution interval o)) ≡ contents (some s)
  unfolding series_for_insert reload_cfg
  contents-series_for_insert resolution interval s none e = absurd (ground arith)
  contents-series_for_insert resolution interval s (some r) e = ground arith

  module _ (resolution : ℤ) (c : TimeSeriesContainer fl) (key : String) (time : ℤ)
      (values : List fl.Float) (interval : ℤ) (topic : MetricsTopic) (known : IsKnown topic)
      (all : AllWellFormed fl c) (fit : length values ≤ capacity_of_statics_avg_sigma) where
    out : Outcome fl resolution c key time values interval topic known all fit
    out = outcome fl resolution c key time values interval topic known all fit

    -- For a topic that is known, well formed series and no more values than a point may have: an
    -- insert returns, and leaves every series well formed.
    pub insert-AllWellFormed :
        (after : TimeSeriesContainer fl) × (accepted : Bool) × (insert_with_user_cfg fl resolution c
            key time values interval topic
          ≡ some (after, accepted))
        × AllWellFormed fl after
    insert-AllWellFormed = (
      out.after,
      out.accepted,
      out.returns,
      record {
        at = λ other k s e. elim (Bool-cases (same_topic topic other && str_eq key k)) [
          | inl hit ↦
              subst (WellFormed fl) (some_inj (sym (rw (out.at other k, hit) refl) ∙ e)) out.good
          | inr miss ↦ all.at other k s (sym (rw (out.at other k, miss) refl) ∙ e)
        ];
      },
    )

    module _ {after : TimeSeriesContainer fl} {accepted : Bool}
        (done : insert_with_user_cfg fl resolution c key time values interval topic
          ≡ some (after, accepted)) where
      result : (out.after ≡ after) × (out.accepted ≡ accepted)
      result = (cc (out.returns), cc (out.returns))

      -- Under the same conditions, a point that is no later than the last one of its series is
      -- refused, and a reader sees no change in any series.
      pub insert_stale :
          (s : SimpleTimeSeries fl)
          → series_of fl c topic key ≡ some s
          → time ≤ℤ s.max_time
          → (accepted ≡ false)
            × ((other : MetricsTopic) (k : String)
                → contents (series_of fl after other k) ≡ contents (series_of fl c other k))
      insert_stale s e stale = elim out.decided [
        | inl (later, _, _, _) ↦
            absurd (ground (arith, contents-series_for_insert resolution interval s _ e))
        | inr (_, refused, kept) ↦ (
          sym result.1 ∙ refused,
          λ other k. elim (Bool-cases (same_topic topic other && str_eq key k)) [
            | inl hit ↦ ground (
              arith,
              result.0,
              out.at other k,
              kept,
              eq_of_same_topic topic other,
              str_eq_iff key k,
              contents-series_for_insert resolution interval s _ e,
            )
            | inr miss ↦ ground (arith, result.0, out.at other k)
          ],
        )
      ]

      -- For a topic that is known, well formed series and no more values than a point may have: a
      -- point later than the last one of its series is taken in. Its series then holds just the
      -- points of the window, old ones and the new one, and ends at the new time.
      pub insert_window :
          (target fl resolution interval c topic key).max_time <ℤ time
          → (accepted ≡ true)
            × (t : SimpleTimeSeries fl) × (series_of fl after topic key ≡ some t)
            × (t.max_time ≡ time)
            × (t.series
                ≡ surviving fl
                    (target fl resolution interval c topic key).cap
                    (time -ℤ (target fl resolution interval c topic key).interval_sec)
                    ((target fl resolution interval c topic key).series
                      ++ record { time = time; values = values } ∷ []))
      insert_window later = elim out.decided [
        | inl (_, taken, latest, points) ↦ (
          sym result.1 ∙ taken,
          out.stored,
          ground
              (arith, result.0, out.at topic key, same_topic_refl topic known, str_eq_iff key key),
          latest,
          points,
        )
        | inr (stale, _, _) ↦ absurd (omega arith)
      ]

      -- Under the same conditions, an insert leaves the series of every other topic or pod as it
      -- was.
      pub insert_elsewhere :
          (other : MetricsTopic) (k : String)
          → (other ≢ topic) ⊎ (k ≢ key)
          → series_of fl after other k ≡ series_of fl c other k
      insert_elsewhere other k apart =
          ground (arith, result.0, out.at other k, eq_of_same_topic topic other, str_eq_iff key k)
