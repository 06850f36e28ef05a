-- ===== src/Series/Window/Evict.antt =====
-- The eviction loop of SimpleTimeSeries.append against a description of the window.
use tiflash_autoscale.Prelude.{
  ℤ, pos, ◌-ℤ◌, ◌≤ℤ◌, ◌<ℤ◌, ltb_ℤ, leb_ℤ, ◌≤◌, ◌≡◌, refl, true, false, ◌&&◌, some, List, [], ◌∷◌,
  length, All, All-map, arith, subst, sym, ◌∙◌, if◌then◌else◌, Bool-cases, inl, inr,
}
use tiflash_autoscale.Float.{Float64}
use tiflash_autoscale.Series.Stats.{AvgSigma, sub_values, sub_value, >>=-eq-some}
use tiflash_autoscale.Series.Stats.Slots.{update_each_total, length-update_each}
use tiflash_autoscale.Series.Window.{TimeValues, back_time, must_evict, evict}

module _ (fl : Float64) where
  -- Times rise from the front to the back.
  abbrev pub Ascending : List (TimeValues fl) → Type 0
  Ascending [] = Unit
  Ascending (x ∷ xs) = All (λ (y : TimeValues fl). x.time <ℤ y.time) xs × Ascending xs

  -- The points later than a time among the last few, each judged on its own.
  unfoldable pub surviving : ℤ → ℤ → List (TimeValues fl) → List (TimeValues fl)
  surviving limit lo [] = []
  surviving limit lo (x ∷ xs) =
      let rest = surviving limit lo xs in
      if ltb_ℤ lo x.time && leb_ℤ (pos (length (x ∷ xs))) limit then x ∷ rest else rest

  surviving-All :
      (limit lo : ℤ) (xs : List (TimeValues fl))
      → All (λ (y : TimeValues fl). lo <ℤ y.time) xs
      → pos (length xs) ≤ℤ limit
      → surviving limit lo xs ≡ xs
  unfolding surviving
  surviving-All limit lo [] h le = refl
  surviving-All limit lo (x ∷ xs) h le = ground (arith, surviving-All limit lo xs h.1)

  kept_all :
      (limit interval : ℤ) (x : TimeValues fl) (xs : List (TimeValues fl))
      → Ascending (x ∷ xs)
      → must_evict fl limit interval x xs ≡ false
      → surviving limit (back_time fl x xs -ℤ interval) (x ∷ xs) ≡ x ∷ xs
  unfolding must_evict
  kept_all limit interval x xs a e =
      let lo = back_time fl x xs -ℤ interval in
      surviving-All limit lo (x ∷ xs) (ground arith, All-map _ _ xs (λ y h. ground arith) a.0)
        (ground arith)

  dropped :
      (limit interval : ℤ) (x : TimeValues fl) (xs : List (TimeValues fl))
      → must_evict fl limit interval x xs ≡ true
      → surviving limit (back_time fl x xs -ℤ interval) (x ∷ xs)
        ≡ surviving limit (back_time fl x xs -ℤ interval) xs
  unfolding must_evict surviving
  dropped limit interval x xs e = ground arith

  evict_nil :
      (limit interval lo : ℤ) (stats : List (AvgSigma fl))
      (r : List (TimeValues fl) × List (AvgSigma fl))
      → evict fl limit interval [] stats ≡ some r
      → r.0 ≡ surviving limit lo []
  unfolding evict surviving
  evict_nil limit interval lo stats r e = ground arith

  -- The loop keeps just the surviving points.
  pub evict-surviving :
      (limit interval : ℤ) (x : TimeValues fl) (xs : List (TimeValues fl))
      (stats : List (AvgSigma fl)) (r : List (TimeValues fl) × List (AvgSigma fl))
      → Ascending (x ∷ xs)
      → evict fl limit interval (x ∷ xs) stats ≡ some r
      → r.0 ≡ surviving limit (back_time fl x xs -ℤ interval) (x ∷ xs)
  unfolding evict
  evict-surviving limit interval x [] stats r a e =
      elim (Bool-cases (must_evict fl limit interval x [])) [
        | inl go ↦
            let (rest, _, e') = >>=-eq-some (sub_values fl stats x.values) _ (rw go at e) in
            rw (dropped limit interval x [] go)
              (evict_nil limit interval (x.time -ℤ interval) rest r e')
        | inr stop ↦ rw (kept_all limit interval x [] a stop) (cc (rw stop at e))
      ]
  evict-surviving limit interval x (y ∷ ys) stats r a e =
      elim (Bool-cases (must_evict fl limit interval x (y ∷ ys))) [
        | inl go ↦
            let (rest, _, e') = >>=-eq-some (sub_values fl stats x.values) _ (rw go at e) in
            rw (dropped limit interval x (y ∷ ys) go)
              (evict-surviving limit interval y ys rest r a.1 e')
        | inr stop ↦ rw (kept_all limit interval x (y ∷ ys) a stop) (cc (rw stop at e))
      ]

  -- A loop that starts with room in the array for every point does not fail.
  pub evict_total :
      (limit interval : ℤ) (xs : List (TimeValues fl)) (stats : List (AvgSigma fl))
      → pos 0 ≤ℤ limit
      → All (λ (y : TimeValues fl). length y.values ≤ length stats) xs
      → (r : List (TimeValues fl) × List (AvgSigma fl)) × (evict fl limit interval xs stats
          ≡ some r)
        × (length r.1 ≡ length stats)
  unfolding evict sub_values
  evict_total limit interval [] stats h a = (([], stats), ground arith, refl)
  evict_total limit interval (x ∷ xs) stats h a =
      elim (Bool-cases (must_evict fl limit interval x xs)) [
        | inl go ↦
            let (rest, e) = update_each_total fl (sub_value fl) stats x.values a.0 in
            let n : length rest ≡ length stats =
              length-update_each fl (sub_value fl) stats x.values rest e in
            let (r, q, m) =
              evict_total limit interval xs rest h
                (subst (λ k. All (λ (y : TimeValues fl). length y.values ≤ k) xs) (sym n) a.1) in
            (r, rw (go, e) q, m ∙ n)
        | inr stop ↦ ((x ∷ xs, stats), rw stop refl, refl)
      ]
