-- ===== src/Series/Container/Insert.antt =====
-- autoscale/timeseries.go: what InsertWithUserCfg comes to.
use tiflash_autoscale.Prelude.{
  ℕ, zero, suc, ℤ, pos, ◌≤ℤ◌, ◌<ℤ◌, eq_ℤ, ltb_ℤ, max_ℤ, ◌≤◌, ◌≡◌, refl, String, str_eq, Bool, true,
  false, ◌&&◌, Option, none, some, List, [], ◌∷◌, ◌++◌, ◌-ℤ◌, length, replicate, arith,
  if◌then◌else◌, Bool-cases, inl, inr, ◌⊎◌,
}
use tiflash_autoscale.Dict
use tiflash_autoscale.Dict.{Dict}
use tiflash_autoscale.Dict.Laws.{lookup-insert}
use tiflash_autoscale.Float.{Float64}
use tiflash_autoscale.Series.Stats.{new_statistics, zero_sigma, capacity_of_statics_avg_sigma}
use tiflash_autoscale.Series.Window.{
  SimpleTimeSeries, new_series, reload_cfg, compute_series_cap_based_on_interval_sec,
}
use tiflash_autoscale.Series.Window.Invariant.{WellFormed}
use tiflash_autoscale.Series.Stats.Slots.{slot}
use tiflash_autoscale.Series.Window.Evict.{surviving}
use tiflash_autoscale.Series.Window.Append.{append_lem}
use tiflash_autoscale.Series.Container.{
  MetricsTopic, cpu, task_cnt, unknown, TimeSeriesContainer, map_of_topic, set_map_of_topic,
  series_for_insert, insert_with_user_cfg,
}

-- A topic that has a map.
abbrev pub IsKnown : MetricsTopic → Type 0
IsKnown cpu = Unit
IsKnown task_cnt = Unit
IsKnown (unknown n) = ⊥

abbrev pub same_topic : MetricsTopic → MetricsTopic → Bool
same_topic cpu cpu = true
same_topic task_cnt task_cnt = true
same_topic _ _ = false

pub same_topic_refl : (t : MetricsTopic) → IsKnown t → same_topic t t ≡ true
same_topic_refl cpu k = refl
same_topic_refl task_cnt k = refl
same_topic_refl (unknown n) k = absurd k

pub eq_of_same_topic : (t u : MetricsTopic) → same_topic t u ≡ true → u ≡ t
eq_of_same_topic t u h = ground arith

cap_positive :
    (resolution interval : ℤ)
    → pos 1 ≤ℤ compute_series_cap_based_on_interval_sec resolution interval
unfolding compute_series_cap_based_on_interval_sec max_ℤ
cap_positive resolution interval = ground arith

module _ (fl : Float64) where
  -- The series of a topic and a pod.
  abbrev pub series_of :
      TimeSeriesContainer fl → MetricsTopic → String → Option (SimpleTimeSeries fl)
  series_of c cpu key = Dict.lookup key c.series_map
  series_of c task_cnt key = Dict.lookup key c.task_cnt_series_map
  series_of c (unknown n) key = none

  pub record AllWellFormed (c : TimeSeriesContainer fl) : Type 0 where
    pub at :
        (topic : MetricsTopic) (key : String) (s : SimpleTimeSeries fl)
        → series_of c topic key ≡ some s
        → WellFormed fl s

  pub new_series-WellFormed :
      (resolution interval : ℤ) → WellFormed fl (new_series fl resolution interval)
  unfolding new_series new_statistics zero_sigma
  new_series-WellFormed resolution interval = record {
    ascending = tt;
    bounded = tt;
    cap_positive = cap_positive resolution interval;
    slots = refl;
    fits = tt;
    counted = λ i. count i;
  }
    where
      count : (i : ℕ) → (slot fl (replicate 6 (zero_sigma fl)) i).cnt ≡ pos 0
      count zero = refl
      count (suc zero) = refl
      count (suc (suc zero)) = refl
      count (suc (suc (suc zero))) = refl
      count (suc (suc (suc (suc zero)))) = refl
      count (suc (suc (suc (suc (suc zero))))) = refl
      count (suc (suc (suc (suc (suc (suc i)))))) = refl

  pub series_for_insert-WellFormed :
      (resolution interval : ℤ) (o : Option (SimpleTimeSeries fl))
      → ((s : SimpleTimeSeries fl) → o ≡ some s → WellFormed fl s)
      → WellFormed fl (series_for_insert fl resolution interval o)
  unfolding series_for_insert reload_cfg
  series_for_insert-WellFormed resolution interval none h =
      new_series-WellFormed resolution interval
  series_for_insert-WellFormed resolution interval (some s) h =
      elim (Bool-cases (eq_ℤ s.interval_sec interval)) [
        | inl same ↦ rw same (h s refl)
        | inr other ↦
            let w = h s refl in
            rw other (record {
              ascending = w.ascending;
              bounded = w.bounded;
              cap_positive = cap_positive resolution interval;
              slots = w.slots;
              fits = w.fits;
              counted = w.counted;
            })
      ]

  -- The series that an insert works on.
  abbrev pub target : ℤ → ℤ → TimeSeriesContainer fl → MetricsTopic → String → SimpleTimeSeries fl
  target resolution interval c topic key =
      series_for_insert fl resolution interval (series_of c topic key)

  written :
      (c : TimeSeriesContainer fl) (topic : MetricsTopic) (key : String) (x : SimpleTimeSeries fl)
      → IsKnown topic
      → (m : Dict (SimpleTimeSeries fl)) × (map_of_topic fl c topic ≡ some m)
        × (Dict.lookup key m ≡ series_of c topic key)
        × ((other : MetricsTopic) (k : String)
            → series_of (set_map_of_topic fl c topic (Dict.insert key x m)) other k
              ≡ (if same_topic topic other && str_eq key k then some x else series_of c other k))
  unfolding map_of_topic set_map_of_topic
  written c cpu key x known = (c.series_map, refl, refl, at)
    where
      at :
          (other : MetricsTopic) (k : String)
          → series_of (record c { series_map = Dict.insert key x c.series_map }) other k
            ≡ (if same_topic cpu other && str_eq key k then some x else series_of c other k)
      at cpu k = lookup-insert key k x c.series_map
      at task_cnt k = refl
      at (unknown n) k = refl
  written c task_cnt key x known = (c.task_cnt_series_map, refl, refl, at)
    where
      at :
          (other : MetricsTopic) (k : String)
          → series_of
              (record c { task_cnt_series_map = Dict.insert key x c.task_cnt_series_map })
              other
              k
            ≡ (if same_topic task_cnt other && str_eq key k then some x else series_of c other k)
      at task_cnt k = lookup-insert key k x c.task_cnt_series_map
      at cpu k = refl
      at (unknown n) k = refl
  written c (unknown n) key x known = absurd known

  module _ (resolution : ℤ) (c : TimeSeriesContainer fl) (key : String) (time : ℤ)
      (values : List fl.Float) (interval : ℤ) (topic : MetricsTopic) (known : IsKnown topic)
      (all : AllWellFormed c) (fit : length values ≤ capacity_of_statics_avg_sigma) where
    abbrev old : SimpleTimeSeries fl
    old = target resolution interval c topic key

    pub record Outcome : Type 0 where
      pub stored : SimpleTimeSeries fl
      pub accepted : Bool
      pub after : TimeSeriesContainer fl
      pub returns :
          insert_with_user_cfg fl resolution c key time values interval topic
          ≡ some (after, accepted)
      pub good : WellFormed fl stored
      pub at :
          (other : MetricsTopic) (k : String)
          → series_of after other k
            ≡ (if same_topic topic other && str_eq key k then some stored else series_of c other k)
      pub decided :
          ((old.max_time <ℤ time)
            × (accepted ≡ true)
            × (stored.max_time ≡ time)
            × (stored.series
                ≡ surviving fl old.cap
                    (time -ℤ old.interval_sec)
                    (old.series ++ record { time = time; values = values } ∷ [])))
          ⊎ ((time ≤ℤ old.max_time) × (accepted ≡ false) × (stored ≡ old))

    old-WellFormed : WellFormed fl old
    old-WellFormed =
        series_for_insert-WellFormed resolution interval (series_of c topic key)
          (λ s e. all.at topic key s e)

    pub outcome : Outcome
    unfolding insert_with_user_cfg
    outcome = elim (Bool-cases (ltb_ℤ old.max_time time)) [
      | inl later ↦
          let (t, e, w, m, sv, _, _) =
            append_lem fl old time values old-WellFormed (ground arith) fit in
          let (d, e1, e2, at) = written c topic key t known in
          record {
            stored = t;
            accepted = true;
            after = set_map_of_topic fl c topic (Dict.insert key t d);
            returns = rw (e1, e2) (rw (later, e) refl);
            good = w;
            at = at;
            decided = inl (ground arith, refl, m, sv);
          }
      | inr stale ↦
          let (d, e1, e2, at) = written c topic key old known in
          record {
            stored = old;
            accepted = false;
            after = set_map_of_topic fl c topic (Dict.insert key old d);
            returns = rw (e1, e2) (rw stale refl);
            good = old-WellFormed;
            at = at;
            decided = inr (ground arith, refl, refl);
          }
    ]
