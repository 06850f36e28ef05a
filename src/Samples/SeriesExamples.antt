-- ===== src/Samples/SeriesExamples.antt =====
-- The theorems on time series, at two inserts of a pod's processor use.
use tiflash_autoscale.Prelude.{
  pos, ◌+ℤ◌, ◌-ℤ◌, ◌*ℤ◌, ◌/ℤ◌, max_ℤ, String, ◌≡◌, inl, refl, sym, ap, ◌∙◌, subst, Bool, true,
  false, Option, none, some, some_inj, [], ◌∷◌, ◌++◌, arith,
}
use tiflash_autoscale.Dict
use tiflash_autoscale.Series.Stats.{
  new_statistics, zero_sigma, add_value, sub_value, add_values, sub_values, update_each,
}
use tiflash_autoscale.Series.Window.{
  SimpleTimeSeries, new_series, reload_cfg, append, evict, must_evict,
  compute_series_cap_based_on_interval_sec,
}
use tiflash_autoscale.Series.Window.Evict.{surviving}
use tiflash_autoscale.Series.Window.Invariant.{WellFormed}
use tiflash_autoscale.Series.Window.Append.{append_lem}
use tiflash_autoscale.Series.Container.{
  MetricsTopic, cpu, task_cnt, TimeSeriesContainer, new_container, map_of_topic, set_map_of_topic,
  series_for_insert, insert_with_user_cfg,
}
use tiflash_autoscale.Series.Container.Insert.{
  AllWellFormed, series_of, target, new_series-WellFormed,
}
use tiflash_autoscale.Series.Container.Window.{
  contents, insert-AllWellFormed, insert_stale, insert_window, insert_elsewhere,
}
use tiflash_autoscale.Samples.{whole}

abbrev empty : TimeSeriesContainer whole
empty = new_container whole

empty-AllWellFormed : AllWellFormed whole empty
unfolding new_container Dict.lookup
empty-AllWellFormed = record { at = λ topic key s e. absurd (ground arith) }

abbrev first : Option (TimeSeriesContainer whole × Bool)
first = insert_with_user_cfg whole (pos 15) empty "p" (pos 10) (pos 3 ∷ []) (pos 60) cpu

abbrev after_first : TimeSeriesContainer whole
after_first = elim first [ none ↦ empty | some r ↦ r.0 ]

first_accepted : first ≡ some (after_first, true)
unfolding new_container Dict.lookup Dict.insert new_statistics zero_sigma add_value sub_value
    add_values sub_values update_each new_series reload_cfg append evict must_evict
    compute_series_cap_based_on_interval_sec map_of_topic set_map_of_topic series_for_insert
    insert_with_user_cfg surviving ◌+ℤ◌ ◌-ℤ◌ ◌*ℤ◌ ◌/ℤ◌ max_ℤ
first_accepted = refl

insert-AllWellFormed_example :
    (after : TimeSeriesContainer whole) × (accepted : Bool) × (first ≡ some (after, accepted))
    × AllWellFormed whole after
insert-AllWellFormed_example =
    insert-AllWellFormed whole (pos 15) empty "p" (pos 10) (pos 3 ∷ []) (pos 60) cpu tt
      empty-AllWellFormed (omega arith)

after_first-AllWellFormed : AllWellFormed whole after_first
after_first-AllWellFormed =
    let (after, accepted, e, v) =
      insert-AllWellFormed whole (pos 15) empty "p" (pos 10) (pos 3 ∷ []) (pos 60) cpu tt
        empty-AllWellFormed (omega arith) in
    subst (AllWellFormed whole) (ap (λ r. r.0) (some_inj (sym e ∙ first_accepted))) v

abbrev series_p : SimpleTimeSeries whole
series_p = elim (Dict.lookup "p" after_first.series_map) [
  | none ↦ new_series whole (pos 15) (pos 60)
  | some s ↦ s
]

-- A point of the same second is refused.
abbrev second : Option (TimeSeriesContainer whole × Bool)
second = insert_with_user_cfg whole (pos 15) after_first "p" (pos 10) (pos 5 ∷ []) (pos 60) cpu

abbrev after_second : TimeSeriesContainer whole
after_second = elim second [ none ↦ empty | some r ↦ r.0 ]

insert_stale_example :
    (false ≡ false)
    × ((other : MetricsTopic) (k : String)
        → contents whole (series_of whole after_second other k)
          ≡ contents whole (series_of whole after_first other k))
unfolding new_container Dict.lookup Dict.insert new_statistics zero_sigma add_value sub_value
    add_values sub_values update_each new_series reload_cfg append evict must_evict
    compute_series_cap_based_on_interval_sec map_of_topic set_map_of_topic series_for_insert
    insert_with_user_cfg surviving ◌+ℤ◌ ◌-ℤ◌ ◌*ℤ◌ ◌/ℤ◌ max_ℤ
insert_stale_example =
    insert_stale whole (pos 15) after_first "p" (pos 10) (pos 5 ∷ []) (pos 60) cpu tt
      after_first-AllWellFormed (omega arith) {after = after_second} {accepted = false} refl
      series_p refl (omega arith)

-- A point of a later minute pushes the first one out.
abbrev third : Option (TimeSeriesContainer whole × Bool)
third = insert_with_user_cfg whole (pos 15) after_first "p" (pos 80) (pos 5 ∷ []) (pos 60) cpu

abbrev after_third : TimeSeriesContainer whole
after_third = elim third [ none ↦ empty | some r ↦ r.0 ]

insert_window_example :
    (true ≡ true)
    × (t : SimpleTimeSeries whole) × (series_of whole after_third cpu "p" ≡ some t)
    × (t.max_time ≡ pos 80)
    × (t.series
        ≡ surviving whole
            (target whole (pos 15) (pos 60) after_first cpu "p").cap
            (pos 80 -ℤ (target whole (pos 15) (pos 60) after_first cpu "p").interval_sec)
            ((target whole (pos 15) (pos 60) after_first cpu "p").series
              ++ record { time = pos 80; values = pos 5 ∷ [] } ∷ []))
unfolding new_container Dict.lookup Dict.insert new_statistics zero_sigma add_value sub_value
    add_values sub_values update_each new_series reload_cfg append evict must_evict
    compute_series_cap_based_on_interval_sec map_of_topic set_map_of_topic series_for_insert
    insert_with_user_cfg surviving ◌+ℤ◌ ◌-ℤ◌ ◌*ℤ◌ ◌/ℤ◌ max_ℤ
insert_window_example =
    insert_window whole (pos 15) after_first "p" (pos 80) (pos 5 ∷ []) (pos 60) cpu tt
      after_first-AllWellFormed (omega arith) {after = after_third} {accepted = true} refl
      (omega arith)

insert_elsewhere_example :
    series_of whole after_third task_cnt "p" ≡ series_of whole after_first task_cnt "p"
unfolding new_container Dict.lookup Dict.insert new_statistics zero_sigma add_value sub_value
    add_values sub_values update_each new_series reload_cfg append evict must_evict
    compute_series_cap_based_on_interval_sec map_of_topic set_map_of_topic series_for_insert
    insert_with_user_cfg surviving ◌+ℤ◌ ◌-ℤ◌ ◌*ℤ◌ ◌/ℤ◌ max_ℤ
insert_elsewhere_example =
    insert_elsewhere whole (pos 15) after_first "p" (pos 80) (pos 5 ∷ []) (pos 60) cpu tt
      after_first-AllWellFormed (omega arith) {after = after_third} {accepted = true} refl task_cnt
      "p" (inl (λ e. absurd (ground arith)))

abbrev fresh : SimpleTimeSeries whole
fresh = new_series whole (pos 15) (pos 60)

abbrev fresh_appended : SimpleTimeSeries whole
fresh_appended = elim (append whole (pos 10) (pos 3 ∷ []) fresh) [ none ↦ fresh | some s ↦ s ]

append_lem_example :
    (t : SimpleTimeSeries whole) × (append whole (pos 10) (pos 3 ∷ []) fresh ≡ some t)
    × WellFormed whole t
    × (t.max_time ≡ pos 10)
    × (t.series
        ≡ surviving whole fresh.cap
            (pos 10 -ℤ fresh.interval_sec)
            (fresh.series ++ record { time = pos 10; values = pos 3 ∷ [] } ∷ []))
    × (t.cap ≡ fresh.cap)
    × (t.interval_sec ≡ fresh.interval_sec)
append_lem_example =
    append_lem whole fresh (pos 10) (pos 3 ∷ []) (new_series-WellFormed whole (pos 15) (pos 60))
      (unfold new_series in omega arith) (omega arith)
