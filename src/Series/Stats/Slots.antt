-- ===== src/Series/Stats/Slots.antt =====
-- The loops over arrays of AvgSigma, one slot at a time.
use tiflash_autoscale.Prelude.{
  ℕ, zero, suc, ◌≤◌, ◌≡◌, refl, Option, none, some, List, [], ◌∷◌, length, get_elem?, arith,
}
use tiflash_autoscale.Float.{Float64}
use tiflash_autoscale.Series.Stats.{AvgSigma, zero_sigma, update_each, >>=-eq-some}

module _ (fl : Float64) where
  -- A slot of an array; outside it, the initial value.
  abbrev pub slot : List (AvgSigma fl) → ℕ → AvgSigma fl
  slot [] i = zero_sigma fl
  slot (c ∷ cs) zero = c
  slot (c ∷ cs) (suc i) = slot cs i

  abbrev pub apply {ℓ} :
      {V : Type ℓ} → (AvgSigma fl → V → AvgSigma fl) → AvgSigma fl → Option V → AvgSigma fl
  apply f c none = c
  apply f c (some v) = f c v

  module _ {ℓ} {V : Type ℓ} (f : AvgSigma fl → V → AvgSigma fl) where
    pub slot-update_each :
        (cs : List (AvgSigma fl)) (vs : List V) (ds : List (AvgSigma fl)) (i : ℕ)
        → update_each fl f cs vs ≡ some ds
        → slot ds i ≡ apply f (slot cs i) (get_elem? vs i)
    unfolding update_each
    slot-update_each cs [] ds i h = ground arith
    slot-update_each [] (v ∷ vs) ds i h = absurd (ground arith)
    slot-update_each (c ∷ cs) (v ∷ vs) ds zero h =
        let (rest, e, q) = >>=-eq-some (update_each fl f cs vs) _ h in ground arith
    slot-update_each (c ∷ cs) (v ∷ vs) ds (suc i) h =
        let (rest, e, q) = >>=-eq-some (update_each fl f cs vs) _ h in
        ground (arith, slot-update_each cs vs rest i e)

    pub length-update_each :
        (cs : List (AvgSigma fl)) (vs : List V) (ds : List (AvgSigma fl))
        → update_each fl f cs vs ≡ some ds
        → length ds ≡ length cs
    unfolding update_each
    length-update_each cs [] ds h = ground arith
    length-update_each [] (v ∷ vs) ds h = absurd (ground arith)
    length-update_each (c ∷ cs) (v ∷ vs) ds h =
        let (rest, e, q) = >>=-eq-some (update_each fl f cs vs) _ h in
        ground (arith, length-update_each cs vs rest e)

    pub update_each_total :
        (cs : List (AvgSigma fl)) (vs : List V)
        → length vs ≤ length cs
        → (ds : List (AvgSigma fl)) × (update_each fl f cs vs ≡ some ds)
    unfolding update_each
    update_each_total cs [] h = (cs, refl)
    update_each_total [] (v ∷ vs) h = absurd (omega arith)
    update_each_total (c ∷ cs) (v ∷ vs) h =
        let (ds, e) = update_each_total cs vs (omega arith) in (f c v ∷ ds, ground arith)
