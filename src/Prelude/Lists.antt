-- ===== src/Prelude/Lists.antt =====
-- Lists measured by native numbers, and predicates on lists by recursion.
use Prim.Native.Nat.{ℕ, zero, suc, ◌+◌}
use mathlib.Core.Path.{◌≡◌, refl, subst}
use mathlib.Core.Bool.{Bool, true, false}
use mathlib.Core.Option.{Option, none, some}
use mathlib.Core.List.{List, [], ◌∷◌, ◌++◌, reverse, reverse-cons}
use native.Mathlib.Omega.{arith}
use mathlib.Core.Logic.{inl, inr}
use tiflash_autoscale.Prelude.Tests.{Option-cases, if◌then◌else◌, ◌==◌}

module _ {ℓ} {A : Type ℓ} where
  abbrev pub length : List A → ℕ
  length [] = 0
  length (x ∷ xs) = suc (length xs)

  abbrev pub replicate : ℕ → A → List A
  replicate zero a = []
  replicate (suc n) a = a ∷ replicate n a

  pub length-append : (xs ys : List A) → length (xs ++ ys) ≡ length xs + length ys
  length-append [] ys = omega arith
  length-append (x ∷ xs) ys = omega (arith, length-append xs ys)

abbrev pub All {ℓ κ} : {A : Type ℓ} → (A → Type κ) → List A → Type κ
All P [] = Unit
All P (x ∷ xs) = P x × All P xs

pub All-append {ℓ κ} :
    {A : Type ℓ} (P : A → Type κ) (xs ys : List A) → All P xs → All P ys → All P (xs ++ ys)
All-append P [] ys hx hy = hy
All-append P (x ∷ xs) ys hx hy = (hx.0, All-append P xs ys hx.1 hy)

pub All-append_left {ℓ κ} :
    {A : Type ℓ} (P : A → Type κ) (xs ys : List A) → All P (xs ++ ys) → All P xs
All-append_left P [] ys h = tt
All-append_left P (x ∷ xs) ys h = (h.0, All-append_left P xs ys h.1)

pub All-append_right {ℓ κ} :
    {A : Type ℓ} (P : A → Type κ) (xs ys : List A) → All P (xs ++ ys) → All P ys
All-append_right P [] ys h = h
All-append_right P (x ∷ xs) ys h = All-append_right P xs ys h.1

pub All-zip {ℓ κ ι μ} :
    {A : Type ℓ} (P : A → Type κ) (Q : A → Type ι) (R : A → Type μ) (xs : List A)
    → ((x : A) → P x → Q x → R x)
    → All P xs
    → All Q xs
    → All R xs
All-zip P Q R [] f a b = tt
All-zip P Q R (x ∷ xs) f a b = (f x a.0 b.0, All-zip P Q R xs f a.1 b.1)

pub All-of_reverse {ℓ κ} :
    {A : Type ℓ} (P : A → Type κ) (xs : List A) → All P (reverse xs) → All P xs
All-of_reverse P [] a = tt
All-of_reverse P (x ∷ xs) a =
    let b = subst (All P) (reverse-cons x xs) a in
    (
      (All-append_right P (reverse xs) (x ∷ []) b).0,
      All-of_reverse P xs (All-append_left P (reverse xs) (x ∷ []) b),
    )

pub All-map {ℓ κ ι} :
    {A : Type ℓ} (P : A → Type κ) (Q : A → Type ι) (xs : List A)
    → ((a : A) → P a → Q a)
    → All P xs
    → All Q xs
All-map P Q [] f h = tt
All-map P Q (x ∷ xs) f h = (f x h.0, All-map P Q xs f h.1)

-- Whether a number stands in a list.
abbrev pub contains : ℕ → List ℕ → Bool
contains p [] = false
contains p (x ∷ xs) = if x == p then true else contains p xs

module _ {ℓ} {A : Type ℓ} where
  abbrev pub get_elem? : List A → ℕ → Option A
  get_elem? [] i = none
  get_elem? (x ∷ xs) zero = some x
  get_elem? (x ∷ xs) (suc i) = get_elem? xs i

-- The elements other than a number, as the copying loops of the program keep them.
unfoldable pub without : ℕ → List ℕ → List ℕ
without p [] = []
without p (x ∷ xs) = let rest = without p xs in if x == p then rest else x ∷ rest

abbrev pub AllDistinct : List ℕ → Type 0
AllDistinct [] = Unit
AllDistinct (x ∷ xs) = (contains x xs ≡ false) × AllDistinct xs

pub contains-append :
    (p : ℕ) (xs ys : List ℕ)
    → contains p (xs ++ ys) ≡ (if contains p xs then true else contains p ys)
contains-append p [] ys = refl
contains-append p (x ∷ xs) ys = ground (arith, contains-append p xs ys)

pub contains-without :
    (p q : ℕ) (xs : List ℕ) → contains q (without p xs) ≡ (if p == q then false else contains q xs)
unfolding without
contains-without p q [] = ground arith
contains-without p q (x ∷ xs) = ground (arith, contains-without p q xs)

pub without_absent : (p : ℕ) (xs : List ℕ) → contains p xs ≡ false → without p xs ≡ xs
unfolding without
without_absent p [] h = refl
without_absent p (x ∷ xs) h = ground (arith, without_absent p xs)

pub AllDistinct-without : (p : ℕ) (xs : List ℕ) → AllDistinct xs → AllDistinct (without p xs)
unfolding without
AllDistinct-without p [] d = tt
AllDistinct-without p (x ∷ xs) d =
    ground (arith, AllDistinct-without p xs d.1, contains-without p x xs)

pub length-without :
    (p : ℕ) (xs : List ℕ)
    → AllDistinct xs
    → contains p xs ≡ true
    → suc (length (without p xs)) ≡ length xs
unfolding without
length-without p [] d h = cc
length-without p (x ∷ xs) d h = ground (arith, length-without p xs d.1, without_absent p xs)

pub AllDistinct-snoc :
    (p : ℕ) (xs : List ℕ) → AllDistinct xs → contains p xs ≡ false → AllDistinct (xs ++ p ∷ [])
AllDistinct-snoc p [] d h = (refl, tt)
AllDistinct-snoc p (x ∷ xs) d h =
    ground (arith, AllDistinct-snoc p xs d.1, contains-append x xs (p ∷ []))

-- Without the last element, and that element.
abbrev pub unsnoc {ℓ} : {A : Type ℓ} → List A → Option (List A × A)
unsnoc [] = none
unsnoc (x ∷ xs) = elim (unsnoc xs) [ none ↦ some ([], x) | some r ↦ some (x ∷ r.0, r.1) ]

pub unsnoc-eq-none {ℓ} : {A : Type ℓ} (xs : List A) → unsnoc xs ≡ none → xs ≡ []
unsnoc-eq-none [] e = refl
unsnoc-eq-none (x ∷ xs) e = absurd (ground arith)

pub unsnoc-append {ℓ} :
    {A : Type ℓ} (xs : List A) (r : List A × A) → unsnoc xs ≡ some r → xs ≡ r.0 ++ r.1 ∷ []
unsnoc-append [] r e = cc
unsnoc-append (x ∷ []) r e = ground arith
unsnoc-append (x ∷ y ∷ ys) r e = elim (Option-cases (unsnoc (y ∷ ys))) [
  | inl n ↦ absurd (cc (unsnoc-eq-none (y ∷ ys) n))
  | inr (q, n) ↦ ground (arith, n, unsnoc-append (y ∷ ys) q n)
]
