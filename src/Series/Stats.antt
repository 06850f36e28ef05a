-- ===== src/Series/Stats.antt =====
-- autoscale/timeseries.go: AvgSigma, and the loops over arrays of it. A write past the end of an
-- array is a panic in Go, and `none` here.
pub mod Slots
use tiflash_autoscale.Prelude.{
  ℤ, pos, ◌+ℤ◌, ◌-ℤ◌, leb_ℤ, ℕ, ◌≡◌, refl, Option, none, some, List, [], ◌∷◌, replicate,
  if◌then◌else◌,
}
use tiflash_autoscale.Float.{Float64}

pub record AvgSigma (fl : Float64) : Type 0 where
  pub sum : fl.Float
  pub cnt : ℤ

infixl 5 ◌>>=◌
abbrev pub ◌>>=◌ {ℓ κ} : {A : Type ℓ} {B : Type κ} → Option A → (A → Option B) → Option B
none >>= f = none
some a >>= f = f a

-- Inversion of a step that succeeds.
pub >>=-eq-some {ℓ κ} :
    {A : Type ℓ} {B : Type κ} (m : Option A) (f : A → Option B) {b : B}
    → (m >>= f) ≡ some b
    → (a : A) × (m ≡ some a) × (f a ≡ some b)
>>=-eq-some none f h = cc
>>=-eq-some (some a) f h = (a, refl, h)

-- CapacityOfStaticsAvgSigma.
abbrev pub capacity_of_statics_avg_sigma : ℕ
capacity_of_statics_avg_sigma = 6

module _ (fl : Float64) where
  open fl use {Float, of_int, add, sub, div}

  unfoldable pub zero_sigma : AvgSigma fl
  zero_sigma = record { sum = of_int (pos 0); cnt = pos 0 }

  unfoldable pub sub_value : AvgSigma fl → Float → AvgSigma fl
  sub_value cur v = record { sum = sub cur.sum v; cnt = cur.cnt -ℤ pos 1 }

  unfoldable pub add_value : AvgSigma fl → Float → AvgSigma fl
  add_value cur v = record { sum = add cur.sum v; cnt = cur.cnt +ℤ pos 1 }

  unfoldable pub avg : AvgSigma fl → Float
  avg cur = if leb_ℤ cur.cnt (pos 0) then of_int (pos 0) else div cur.sum (of_int cur.cnt)

  unfoldable pub merge_sigma : AvgSigma fl → AvgSigma fl → AvgSigma fl
  merge_sigma cur o = record { sum = add cur.sum o.sum; cnt = cur.cnt +ℤ o.cnt }

  -- `for i, value := range values { cur[i] = f(cur[i], value) }`.
  unfoldable pub update_each {ℓ} :
      {V : Type ℓ}
      → (AvgSigma fl → V → AvgSigma fl)
      → List (AvgSigma fl)
      → List V
      → Option (List (AvgSigma fl))
  update_each f cur [] = some cur
  update_each f [] (v ∷ vs) = none
  update_each f (c ∷ cs) (v ∷ vs) = update_each f cs vs >>= λ rest. some (f c v ∷ rest)

  unfoldable pub sub_values : List (AvgSigma fl) → List Float → Option (List (AvgSigma fl))
  unfolding update_each
  sub_values = update_each sub_value

  unfoldable pub add_values : List (AvgSigma fl) → List Float → Option (List (AvgSigma fl))
  unfolding update_each
  add_values = update_each add_value

  unfoldable pub merge : List (AvgSigma fl) → List (AvgSigma fl) → Option (List (AvgSigma fl))
  unfolding update_each
  merge = update_each merge_sigma

  -- `make([]AvgSigma, CapacityOfStaticsAvgSigma)`.
  unfoldable pub new_statistics : List (AvgSigma fl)
  unfolding zero_sigma
  new_statistics = replicate capacity_of_statics_avg_sigma zero_sigma
