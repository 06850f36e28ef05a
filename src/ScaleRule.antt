-- ===== src/ScaleRule.antt =====
-- autoscale/scale_rule.go: how many pods a tenant should have, from the use of its processors.
pub mod Bounds
use tiflash_autoscale.Prelude.{
  ℕ, ℤ, pos, negsuc, ◌+ℤ◌, ◌-ℤ◌, ltb_ℤ, max_ℤ, min_ℤ, Bool, true, false, ◌&&◌, Option, none, some,
  if◌then◌else◌,
}
use tiflash_autoscale.Float.{Float64}
use tiflash_autoscale.Config.{Settings, get_min_cnt_of_pod, get_max_cnt_of_pod}
use tiflash_autoscale.Tenant.{TenantDesc, get_cnt_of_pods}

module _ (fl : Float64) (g : Settings fl) where
  open fl use {Float, of_int, lit, add, sub, mul, div, lt, le, eq, to_int, round}

  -- The number of pods that would bring the use to the middle of the limits, at least 1.
  unfoldable pub target_cnt_of_pod : ℕ → Float → Float → Float → ℤ
  target_cnt_of_pod old usage lower upper =
      let logical_target_cpu_usage = div (add lower upper) (of_int (pos 2)) in
      let logical_target_cpu_cores = div (mul usage (of_int (pos old))) logical_target_cpu_usage in
      let logical_target_cnt_of_pod =
        div logical_target_cpu_cores (of_int (pos g.default_core_of_pod)) in
      max_ℤ
        (if lt (of_int (pos old)) logical_target_cnt_of_pod
            && lt logical_target_cnt_of_pod (add (of_int (pos old)) (of_int (pos 1)))
          then to_int (add logical_target_cnt_of_pod (lit 99 2))
          else if lt logical_target_cnt_of_pod (of_int (pos old))
              && lt (sub (of_int (pos old)) (of_int (pos 1))) logical_target_cnt_of_pod
          then to_int logical_target_cnt_of_pod
          else to_int (round (div logical_target_cpu_cores (of_int (pos g.default_core_of_pod)))))
        (pos 1)

  abbrev pub unchanged : ℤ × ℤ
  unchanged = (negsuc 0, pos 0)

  abbrev pub changed : ℤ → ℕ → ℤ × ℤ
  changed ret old = (ret, ret -ℤ pos old)

  -- The use is above the upper limit.
  unfoldable pub scale_out : ℕ → ℤ → ℤ → Bool → ℤ × ℤ
  scale_out old max_cnt target too_low =
      if ltb_ℤ target (pos old)
      then unchanged
      else if too_low
      then changed (min_ℤ (pos old +ℤ pos 1) max_cnt) old
      else changed (min_ℤ target max_cnt) old

  -- The use is below the lower limit.
  unfoldable pub scale_in : ℕ → ℤ → ℤ → Bool → ℤ × ℤ
  scale_in old min_cnt target too_high =
      if ltb_ℤ (pos old) target
      then unchanged
      else if too_high
      then changed (max_ℤ (pos old -ℤ pos 1) min_cnt) old
      else changed (max_ℤ target min_cnt) old

  -- The limits are shares of a pod's cores. The parts are the number of pods, and how it differs
  -- from the one there is; -1 is for no change.
  unfoldable pub compute_best_pods_in_rule_of_compute :
      Option TenantDesc → Float → Float → Float → ℤ × ℤ
  unfolding target_cnt_of_pod scale_out scale_in
  compute_best_pods_in_rule_of_compute tenant_desc usage lower upper = elim tenant_desc [
    | none ↦ unchanged
    | some t ↦
        let core = of_int (pos g.default_core_of_pod) in
        let low = mul core lower in
        let up = mul core upper in
        let old = get_cnt_of_pods t in
        let target = target_cnt_of_pod old usage lower upper in
        let target_usage = div (mul usage (of_int (pos old))) (of_int target) in
        if le upper lower
        then unchanged
        else if le low usage && le usage up
        then unchanged
        else if eq (add low up) (of_int (pos 0))
        then unchanged
        else if lt up usage
        then scale_out old (get_max_cnt_of_pod fl g t.conf) target (le target_usage low)
        else if lt usage low
        then scale_in old (get_min_cnt_of_pod fl g t.conf) target (le up target_usage)
        else unchanged
  ]
