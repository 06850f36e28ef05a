-- ===== src/Config/Bounds.antt =====
-- How many pods a configuration asks for.
use tiflash_autoscale.Prelude.{
  ℕ, suc, ℤ, pos, negsuc, ◌≤ℤ◌, max_ℤ, ◌-ℤ◌, ◌/ℤ◌, ◌≤◌, ◌<◌, ◌/◌, arith,
}
use tiflash_autoscale.Float.{Float64}
use tiflash_autoscale.Config.{
  Settings, ConfigOfComputeCluster, get_init_cnt_of_pod, get_min_cnt_of_pod, get_max_cnt_of_pod,
}

div_mono : (a b c : ℕ) → a ≤ b → a / c ≤ b / c
div_mono a b c h = grind arith

-- Division by a positive number keeps the order, also through 0.
quotient_mono : (a b : ℤ) (c : ℕ) → a ≤ℤ b → a /ℤ pos c ≤ℤ b /ℤ pos c
unfolding ◌/ℤ◌ ◌-ℤ◌
quotient_mono (pos a) (pos b) c h = omega (arith, div_mono a b c (omega arith))
quotient_mono (pos a) (negsuc b) c h = absurd (omega arith)
quotient_mono (negsuc a) (pos b) c h = ground arith
quotient_mono (negsuc a) (negsuc b) c h = ground (arith, div_mono (suc b) (suc a) c (omega arith))

one_le_quotient : (a : ℤ) (c : ℕ) → 0 < c → pos c ≤ℤ a → pos 1 ≤ℤ a /ℤ pos c
unfolding ◌/ℤ◌
one_le_quotient (pos a) c h k = grind arith
one_le_quotient (negsuc a) c h k = absurd (omega arith)

module _ (fl : Float64) (g : Settings fl) (c : ConfigOfComputeCluster) where
  -- Whatever a configuration says, its tenant may have at least one pod, and its least number of
  -- pods is no more than its greatest.
  pub one_le_min_le_max :
      (pos 1 ≤ℤ get_min_cnt_of_pod fl g c)
      × (get_min_cnt_of_pod fl g c ≤ℤ get_max_cnt_of_pod fl g c)
  unfolding get_min_cnt_of_pod get_max_cnt_of_pod max_ℤ
  one_le_min_le_max = ground arith

  -- With room for a pod in the least number of cores, and that no more than the greatest, a
  -- resumed tenant starts with a number of pods that it may keep.
  pub init_in_range :
      pos g.default_core_of_pod ≤ℤ c.min_cores
      → 0 < g.default_core_of_pod
      → c.min_cores ≤ℤ c.max_cores
      → (get_min_cnt_of_pod fl g c ≤ℤ get_init_cnt_of_pod fl g c)
        × (get_init_cnt_of_pod fl g c ≤ℤ get_max_cnt_of_pod fl g c)
  unfolding get_min_cnt_of_pod get_max_cnt_of_pod get_init_cnt_of_pod max_ℤ
  init_in_range room positive ordered = ground (
    arith,
    one_le_quotient c.min_cores g.default_core_of_pod positive room,
    quotient_mono c.min_cores c.max_cores g.default_core_of_pod ordered,
    quotient_mono c.min_cores c.init_cores g.default_core_of_pod,
    quotient_mono c.init_cores c.max_cores g.default_core_of_pod,
  )
