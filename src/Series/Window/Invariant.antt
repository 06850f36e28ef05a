-- ===== src/Series/Window/Invariant.antt =====
-- What holds of a SimpleTimeSeries between two calls, and that `append` keeps it.
use tiflash_autoscale.Prelude.{
  ℕ, suc, ℤ, pos, ◌+ℤ◌, ◌-ℤ◌, ◌≤ℤ◌, ltb_ℤ, ◌≤◌, ◌≡◌, refl, subst, some, List, [], ◌∷◌, ◌++◌, length,
  get_elem?, is_some, All, arith, if◌then◌else◌, Bool-cases, some_inj, inl, inr,
}
use tiflash_autoscale.Float.{Float64}
use tiflash_autoscale.Series.Stats.{
  AvgSigma, sub_values, sub_value, add_values, add_value, >>=-eq-some,
  capacity_of_statics_avg_sigma,
}
use tiflash_autoscale.Series.Stats.Slots.{slot, slot-update_each}
use tiflash_autoscale.Series.Window.{TimeValues, SimpleTimeSeries, must_evict, evict}
use tiflash_autoscale.Series.Window.Evict.{Ascending}

module _ (fl : Float64) where
  -- How many points have a value for a slot.
  abbrev pub points_with : ℕ → List (TimeValues fl) → ℕ
  points_with i [] = 0
  points_with i (x ∷ xs) =
      let rest = points_with i xs in if is_some (get_elem? x.values i) then suc rest else rest

  pub record WellFormed (s : SimpleTimeSeries fl) : Type 0 where
    pub ascending : Ascending fl s.series
    pub bounded : All (λ (y : TimeValues fl). y.time ≤ℤ s.max_time) s.series
    pub cap_positive : pos 1 ≤ℤ s.cap
    pub slots : length s.statistics ≡ capacity_of_statics_avg_sigma
    pub fits : All (λ (y : TimeValues fl). length y.values ≤ capacity_of_statics_avg_sigma) s.series
    pub counted : (i : ℕ) → (slot fl s.statistics i).cnt ≡ pos (points_with i s.series)

  -- What the loop keeps, if dropping the front keeps it.
  pub evict_induction {κ} :
      (P : List (TimeValues fl) → List (AvgSigma fl) → Type κ) (limit interval : ℤ)
      (keep : (x : TimeValues fl) (xs : List (TimeValues fl)) (stats rest : List (AvgSigma fl))
        → P (x ∷ xs) stats
        → sub_values fl stats x.values ≡ some rest
        → P xs rest)
      (xs : List (TimeValues fl)) (stats : List (AvgSigma fl))
      (r : List (TimeValues fl) × List (AvgSigma fl))
      → P xs stats
      → evict fl limit interval xs stats ≡ some r
      → P r.0 r.1
  unfolding evict
  evict_induction P limit interval keep [] stats r h e = elim (Bool-cases (ltb_ℤ limit (pos 0))) [
    | inl b ↦ cc (rw b at e)
    | inr b ↦ subst (λ q. P q.0 q.1) (some_inj (rw b at e)) h
  ]
  evict_induction P limit interval keep (x ∷ xs) stats r h e =
      elim (Bool-cases (must_evict fl limit interval x xs)) [
        | inl go ↦
            let (rest, e1, e2) = >>=-eq-some (sub_values fl stats x.values) _ (rw go at e) in
            evict_induction P limit interval keep xs rest r (keep x xs stats rest h e1) e2
        | inr stop ↦ subst (λ q. P q.0 q.1) (some_inj (rw stop at e)) h
      ]

  unfoldable pub Counted : List (TimeValues fl) → List (AvgSigma fl) → Type 0
  Counted xs stats = (i : ℕ) → (slot fl stats i).cnt ≡ pos (points_with i xs)

  pub sub-Counted :
      (x : TimeValues fl) (xs : List (TimeValues fl)) (stats rest : List (AvgSigma fl))
      → Counted (x ∷ xs) stats
      → sub_values fl stats x.values ≡ some rest
      → Counted xs rest
  unfolding Counted sub_values sub_value ◌-ℤ◌
  sub-Counted x xs stats rest h e i =
      ground (arith, slot-update_each fl (sub_value fl) stats x.values rest i e, h i)

  points_with-append :
      (i : ℕ) (xs : List (TimeValues fl)) (p : TimeValues fl)
      → points_with i (xs ++ p ∷ [])
        ≡ (if is_some (get_elem? p.values i) then suc (points_with i xs) else points_with i xs)
  points_with-append i [] p = refl
  points_with-append i (x ∷ xs) p = ground (arith, points_with-append i xs p)

  pub add-Counted :
      (p : TimeValues fl) (xs : List (TimeValues fl)) (stats rest : List (AvgSigma fl))
      → Counted xs stats
      → add_values fl stats p.values ≡ some rest
      → Counted (xs ++ p ∷ []) rest
  unfolding Counted add_values add_value ◌+ℤ◌
  add-Counted p xs stats rest h e i = ground (
    arith,
    slot-update_each fl (add_value fl) stats p.values rest i e,
    h i,
    points_with-append i xs p,
  )
