-- ===== src/Dict.antt =====
-- Go's maps with string keys, as association lists: what the program does with `m[k]`,
-- `m[k] = v`, `delete(m, k)`, `len(m)` and `range m`. The order of the list stands for the
-- order in which a range over the map happens to visit it.
pub mod Laws
use tiflash_autoscale.Prelude.{
  ℕ, zero, suc, String, str_eq, ◌≡◌, Bool, true, false, Option, none, some, List, [], ◌∷◌, length,
  is_some, if◌then◌else◌,
}

abbrev pub Dict {ℓ} : Type ℓ → Type ℓ
Dict V = List (String × V)

module _ {ℓ} {V : Type ℓ} where
  unfoldable pub lookup : String → Dict V → Option V
  lookup k [] = none
  lookup k ((j, v) ∷ m) = if str_eq j k then some v else lookup k m

  unfoldable pub insert : String → V → Dict V → Dict V
  insert k v [] = (k, v) ∷ []
  insert k v ((j, w) ∷ m) = if str_eq j k then (k, v) ∷ m else (j, w) ∷ insert k v m

  unfoldable pub remove : String → Dict V → Dict V
  remove k [] = []
  remove k ((j, v) ∷ m) = let rest = remove k m in if str_eq j k then rest else (j, v) ∷ rest

  abbrev pub size : Dict V → ℕ
  size m = length m

  abbrev pub has : String → Dict V → Bool
  has k m = is_some (lookup k m)

  -- No key twice: each key is absent from what follows it.
  abbrev pub Distinct : Dict V → Type 0
  Distinct [] = Unit
  Distinct ((k, v) ∷ m) = (has k m ≡ false) × Distinct m
