-- ===== src/Dict/Laws.antt =====
-- The laws of the map operations, in conditional form.
use tiflash_autoscale.Prelude.{
  suc, String, str_eq, str_eq_iff, ◌≡◌, refl, none, some, [], ◌∷◌, arith, if◌then◌else◌,
}
use tiflash_autoscale.Dict.{Dict, lookup, insert, remove, size, Distinct}

module _ {ℓ} {V : Type ℓ} where
  pub lookup-insert :
      (k j : String) (v : V) (m : Dict V)
      → lookup j (insert k v m) ≡ (if str_eq k j then some v else lookup j m)
  unfolding lookup insert
  lookup-insert k j v [] = refl
  lookup-insert k j v ((i, w) ∷ m) =
      ground (arith, str_eq_iff k j, str_eq_iff i k, str_eq_iff i j, lookup-insert k j v m)

  pub lookup-remove :
      (k j : String) (m : Dict V)
      → lookup j (remove k m) ≡ (if str_eq k j then none else lookup j m)
  unfolding lookup remove
  lookup-remove k j [] = ground arith
  lookup-remove k j ((i, w) ∷ m) =
      ground (arith, str_eq_iff k j, str_eq_iff i k, str_eq_iff i j, lookup-remove k j m)

  pub insert-Distinct : (k : String) (v : V) (m : Dict V) → Distinct m → Distinct (insert k v m)
  unfolding insert
  insert-Distinct k v [] d = (unfold lookup in refl, tt)
  insert-Distinct k v ((i, w) ∷ m) d =
      ground
        (arith, insert-Distinct k v m d.1, lookup-insert k i v m, str_eq_iff i k, str_eq_iff k i)

  pub remove-Distinct : (k : String) (m : Dict V) → Distinct m → Distinct (remove k m)
  unfolding remove
  remove-Distinct k [] d = tt
  remove-Distinct k ((i, w) ∷ m) d = ground (arith, remove-Distinct k m d.1, lookup-remove k i m)

  pub remove_absent : (k : String) (m : Dict V) → lookup k m ≡ none → remove k m ≡ m
  unfolding lookup remove
  remove_absent k [] h = refl
  remove_absent k ((i, w) ∷ m) h = ground (arith, remove_absent k m)

  pub size-remove :
      (k : String) {v : V} (m : Dict V)
      → Distinct m
      → lookup k m ≡ some v
      → suc (size (remove k m)) ≡ size m
  unfolding lookup remove
  size-remove k [] d h = absurd (ground arith)
  size-remove k {v = u} ((i, w) ∷ m) d h =
      ground (arith, size-remove k {v = u} m d.1, remove_absent k m, str_eq_iff i k)

  pub size-insert_absent :
      (k : String) (v : V) (m : Dict V) → lookup k m ≡ none → size (insert k v m) ≡ suc (size m)
  unfolding lookup insert
  size-insert_absent k v [] h = refl
  size-insert_absent k v ((i, w) ∷ m) h = ground (arith, size-insert_absent k v m)

  pub size-insert_present :
      (k : String) (v : V) {w : V} (m : Dict V) → lookup k m ≡ some w → size (insert k v m) ≡ size m
  unfolding lookup insert
  size-insert_present k v [] h = absurd (ground arith)
  size-insert_present k v {w = u} ((i, w) ∷ m) h = ground (arith, size-insert_present k v {w = u} m)
