-- ===== src/Samples/MetricsExamples.antt =====
-- The theorems on what comes from Prometheus: three streams of two pods, and a round of metrics.
use tiflash_autoscale.Prelude.{◌⊎◌, pos, ◌≡◌, none, some, [], ◌∷◌}
use tiflash_autoscale.Dict
use tiflash_autoscale.Series.Container.{new_container}
use tiflash_autoscale.Series.Container.{cpu, TimeSeriesContainer}
use tiflash_autoscale.Samples.{whole}
use tiflash_autoscale.Samples.Run.{w6}
use tiflash_autoscale.Prelude.{ℤ, arith}
use tiflash_autoscale.Prelude.{String, List, All, ◌<ℤ◌, ◌≤ℤ◌, ◌++◌, inl}
use tiflash_autoscale.Dict.{Dict}
use tiflash_autoscale.Series.Container.{task_cnt}
use tiflash_autoscale.Series.Container.Insert.{AllWellFormed, series_of}
use tiflash_autoscale.Metrics.{
  TimeValPair, SampleStream, query_cpu, range_query_cpu, collect_metrics,
}
use tiflash_autoscale.Metrics.Latest.{rates_of, query_cpu_latest}
use tiflash_autoscale.Metrics.Since.{Since, range_query_cpu-Since}
use tiflash_autoscale.Metrics.Keeps.{collect_metrics_lem}

abbrev point : ℤ → ℤ → TimeValPair whole
point time value = record { time = time; value = value }

abbrev streams : List (SampleStream whole)
streams =
    record { pod = "readnode-0"; values = point (pos 85) (pos 0) ∷ point (pos 100) (pos 30) ∷ [] }
    ∷ record {
      pod = "readnode-0";
      values = point (pos 100) (pos 0) ∷ point (pos 115) (pos 60) ∷ [];
    }
    ∷ record { pod = "readnode-1"; values = point (pos 100) (pos 7) ∷ [] }
    ∷ []

query_cpu_latest_example :
    ((Dict.lookup "readnode-0" (query_cpu whole streams []) ≡ none)
      × (rates_of whole "readnode-0" streams ≡ []))
    ⊎ ((v : TimeValPair whole) × (before : List (TimeValPair whole)) × (after : List
          (TimeValPair whole))
        × (Dict.lookup "readnode-0" (query_cpu whole streams []) ≡ some v)
        × (rates_of whole "readnode-0" streams ≡ before ++ v ∷ after)
        × All (λ (p : TimeValPair whole). p.time <ℤ v.time) before
        × All (λ (p : TimeValPair whole). p.time ≤ℤ v.time) after)
query_cpu_latest_example = query_cpu_latest whole "readnode-0" streams

abbrev empty : TimeSeriesContainer whole
empty = new_container whole

empty-AllWellFormed : AllWellFormed whole empty
unfolding new_container Dict.lookup
empty-AllWellFormed = record { at = λ topic key s e. absurd (ground arith) }

abbrev sampled : Dict (TimeValPair whole)
sampled = ("readnode-0", point (pos 115) (pos 4)) ∷ ("readnode-7", point (pos 115) (pos 5)) ∷ []

collect_metrics_lem_example :
    (c : TimeSeriesContainer whole) × (collect_metrics whole (pos 15) cpu w6.meta sampled empty
      ≡ some c)
    × AllWellFormed whole c
    × (series_of whole c task_cnt "readnode-0" ≡ series_of whole empty task_cnt "readnode-0")
collect_metrics_lem_example =
    collect_metrics_lem whole (pos 15) cpu w6.meta sampled empty task_cnt "readnode-0" tt
      empty-AllWellFormed (inl (λ e. absurd (ground arith)))

empty-Since : Since whole (pos 15) w6.meta empty
unfolding new_container Dict.lookup
empty-Since = λ k s e. absurd (ground arith)

range_query_cpu-Since_example :
    (c : TimeSeriesContainer whole) × (range_query_cpu whole (pos 15) w6.meta streams empty
      ≡ some c)
    × AllWellFormed whole c
    × Since whole (pos 15) w6.meta c
    × ((k : String) → series_of whole c task_cnt k ≡ series_of whole empty task_cnt k)
range_query_cpu-Since_example =
    range_query_cpu-Since whole (pos 15) w6.meta streams empty empty-AllWellFormed empty-Since
