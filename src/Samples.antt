-- ===== src/Samples.antt =====
-- Sample data: whole numbers in place of float64, the settings of a serverless process, and a short
-- run of the program in which a pod arrives and serves a tenant that is then paused.
pub mod Run
pub mod Examples
pub mod SeriesExamples
pub mod RuleExamples
pub mod LoadExamples
pub mod RoundExamples
pub mod RaceExamples
pub mod StartExamples
pub mod MetricsExamples
pub mod ServerExamples
pub mod StepExamples
use tiflash_autoscale.Prelude.{
  ℕ, zero, suc, ◌/◌, ℤ, pos, negsuc, ◌+ℤ◌, ◌-ℤ◌, ◌*ℤ◌, ◌/ℤ◌, ltb_ℤ, leb_ℤ, eq_ℤ, int_laws, String,
  ◌≡◌, refl, Bool, true, false, Option, none, some, List, [], ◌∷◌,
}
use tiflash_autoscale.Float.{Float64}
use tiflash_autoscale.Config.{Settings, serverless}

-- A number without its last digits.
abbrev shift : ℕ → ℕ → ℕ
shift n zero = n
shift n (suc d) = shift n d / 10

abbrev pub whole : Float64
whole = record {
  Float = ℤ;
  of_int = λ a. a;
  lit = λ n d. pos (shift n d);
  add = λ a b. a +ℤ b;
  sub = λ a b. a -ℤ b;
  mul = λ a b. a *ℤ b;
  div = λ a b. a /ℤ b;
  lt = λ a b. ltb_ℤ a b;
  le = λ a b. leb_ℤ a b;
  eq = λ a b. eq_ℤ a b;
  to_int = λ a. a;
  round = λ a. a;
}

abbrev pub settings : Settings whole
settings = record {
  default_min_cnt_of_pod = pos 1;
  default_max_cnt_of_pod = pos 4;
  default_core_of_pod = 8;
  default_lower_limit = pos 2;
  default_upper_limit = pos 4;
  prewarm_pool_cap = pos 2;
  metric_resolution_seconds = 15;
  default_auto_pause_interval_seconds = pos 300;
  default_scale_interval_seconds = pos 60;
  option_run_mode = serverless;
}
