-- ===== src/Series/Window.antt =====
-- autoscale/timeseries.go: SimpleTimeSeries, the window of one pod and one metric. The linked
-- list is a list with its front first.
pub mod Evict
pub mod Invariant
pub mod Append
use tiflash_autoscale.Prelude.{
  ℤ, pos, ◌+ℤ◌, ◌-ℤ◌, ◌/ℤ◌, leb_ℤ, ltb_ℤ, eq_ℤ, ◌≡◌, Bool, ◌||◌, Option, none, some, List, [], ◌∷◌,
  ◌++◌, length, if◌then◌else◌, max_ℤ,
}
use tiflash_autoscale.Float.{Float64}
use tiflash_autoscale.Series.Stats.{AvgSigma, ◌>>=◌, add_values, sub_values, new_statistics}

pub record TimeValues (fl : Float64) : Type 0 where
  pub time : ℤ
  pub values : List fl.Float

pub record SimpleTimeSeries (fl : Float64) : Type 0 where
  pub series : List (TimeValues fl)
  pub statistics : List (AvgSigma fl)
  pub max_time : ℤ
  pub cap : ℤ
  pub interval_sec : ℤ

-- The metric resolution is a variable that a command line flag sets; a zero there is a panic in
-- the division, which the program runs into at its first insert.
unfoldable pub compute_series_cap_based_on_interval_sec : ℤ → ℤ → ℤ
compute_series_cap_based_on_interval_sec resolution interval =
    max_ℤ (interval /ℤ resolution) (pos 1)

module _ (fl : Float64) where
  unfoldable pub new_series : ℤ → ℤ → SimpleTimeSeries fl
  new_series resolution interval = record {
    series = [];
    statistics = new_statistics fl;
    max_time = pos 0;
    cap = compute_series_cap_based_on_interval_sec resolution interval;
    interval_sec = interval;
  }

  unfoldable pub reload_cfg : ℤ → ℤ → SimpleTimeSeries fl → SimpleTimeSeries fl
  reload_cfg resolution interval c = record c {
    interval_sec = interval;
    cap = compute_series_cap_based_on_interval_sec resolution interval;
  }

  -- The time at the back of the list, whose front is given apart.
  abbrev pub back_time : TimeValues fl → List (TimeValues fl) → ℤ
  back_time x [] = x.time
  back_time x (y ∷ ys) = back_time y ys

  -- The condition of the loop in `append` on a list that is not empty.
  unfoldable pub must_evict : ℤ → ℤ → TimeValues fl → List (TimeValues fl) → Bool
  must_evict limit interval x xs =
      ltb_ℤ limit (pos (length (x ∷ xs))) || leb_ℤ x.time (back_time x xs -ℤ interval)

  -- The loop. On an empty list with a negative cap it reads through a nil pointer.
  unfoldable pub evict :
      ℤ
      → ℤ
      → List (TimeValues fl)
      → List (AvgSigma fl)
      → Option (List (TimeValues fl) × List (AvgSigma fl))
  evict limit interval [] stats = if ltb_ℤ limit (pos 0) then none else some ([], stats)
  evict limit interval (x ∷ xs) stats =
      if must_evict limit interval x xs
      then (sub_values fl stats x.values >>= λ rest. evict limit interval xs rest)
      else some (x ∷ xs, stats)

  unfoldable pub append : ℤ → List fl.Float → SimpleTimeSeries fl → Option (SimpleTimeSeries fl)
  append time values cur = add_values fl cur.statistics values >>= λ stats.
      evict cur.cap cur.interval_sec (cur.series ++ record { time = time; values = values } ∷ [])
        stats
      >>= λ r. some (record cur {
        series = r.0;
        statistics = r.1;
        max_time = if eq_ℤ cur.max_time (pos 0) then time else max_ℤ cur.max_time time;
      })

  unfoldable pub get_min_max_time : SimpleTimeSeries fl → ℤ × ℤ
  get_min_max_time cur = elim cur.series [ [] ↦ (pos 0, pos 0) | x ∷ xs ↦ (x.time, cur.max_time) ]
