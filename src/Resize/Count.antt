-- ===== src/Resize/Count.antt =====
-- How often a pod stands in a list.
use mathlib.Core.List.{reverse, reverse-cons}
use tiflash_autoscale.Prelude.{
  ℕ, ◌+◌, ◌≤◌, ◌==◌, leb, ◌≡◌, refl, ap, ◌∙◌, List, [], ◌∷◌, ◌++◌, contains, without, AllDistinct,
  arith, if◌then◌else◌,
}

abbrev pub count : ℕ → List ℕ → ℕ
count p [] = 0
count p (x ∷ xs) = (if x == p then 1 else 0) + count p xs

pub count-append : (p : ℕ) (xs ys : List ℕ) → count p (xs ++ ys) ≡ count p xs + count p ys
count-append p [] ys = omega arith
count-append p (x ∷ xs) ys = omega (arith, count-append p xs ys)

pub contains-eq-count : (p : ℕ) (xs : List ℕ) → contains p xs ≡ leb 1 (count p xs)
contains-eq-count p [] = refl
contains-eq-count p (x ∷ xs) = ground (arith, contains-eq-count p xs)

pub count-without :
    (p q : ℕ) (xs : List ℕ) → count q (without p xs) ≡ (if p == q then 0 else count q xs)
unfolding without
count-without p q [] = ground arith
count-without p q (x ∷ xs) = ground (arith, count-without p q xs)

pub count-reverse : (p : ℕ) (xs : List ℕ) → count p (reverse xs) ≡ count p xs
count-reverse p [] = refl
count-reverse p (x ∷ xs) =
    ap (count p) (reverse-cons x xs)
    ∙ omega (arith, count-append p (reverse xs) (x ∷ []), count-reverse p xs)

pub count_le_one : (p : ℕ) (xs : List ℕ) → AllDistinct xs → count p xs ≤ 1
count_le_one p [] d = omega arith
count_le_one p (x ∷ xs) d = ground (arith, count_le_one p xs d.1, contains-eq-count x xs)
