-- ===== src/Prelude/Lists.antt =====
-- Lists measured by native numbers, and predicates on their elements.
use Prim.Native.Nat.{ℕ, suc, ◌+◌}
use mathlib.Core.Path.{◌≡◌, refl, ap}
use mathlib.Core.List.{List, [], ◌∷◌, ◌++◌, map}
use native.Mathlib.Omega.{arith}

module _ {ℓ} {A : Type ℓ} where
  abbrev pub length : List A → ℕ
  length [] = 0
  length (x ∷ xs) = suc (length xs)

  abbrev pub All {κ} : (A → Type κ) → List A → Type κ
  All P [] = Unit
  All P (x ∷ xs) = P x × All P xs

  pub All-map_of {κ μ} :
      {P : A → Type κ} {Q : A → Type μ} (f : (a : A) → P a → Q a) (xs : List A)
      → All P xs
      → All Q xs
  All-map_of f [] h = tt
  All-map_of f (x ∷ xs) h = (f x h.0, All-map_of f xs h.1)

  pub length-append : (xs ys : List A) → length (xs ++ ys) ≡ length xs + length ys
  length-append [] ys = omega arith
  length-append (x ∷ xs) ys = omega (arith, length-append xs ys)

  pub All-append_left {κ} : (P : A → Type κ) (xs ys : List A) → All P (xs ++ ys) → All P xs
  All-append_left P [] ys h = tt
  All-append_left P (x ∷ xs) ys h = (h.0, All-append_left P xs ys h.1)

  pub All-append_right {κ} : (P : A → Type κ) (xs ys : List A) → All P (xs ++ ys) → All P ys
  All-append_right P [] ys h = h
  All-append_right P (x ∷ xs) ys h = All-append_right P xs ys h.1

  -- Each element is related to all that follow it.
  abbrev pub AllPairs {κ} : (A → A → Type κ) → List A → Type κ
  AllPairs R [] = Unit
  AllPairs R (x ∷ xs) = All (R x) xs × AllPairs R xs

  pub AllPairs-append_left {κ} :
      (R : A → A → Type κ) (xs ys : List A) → AllPairs R (xs ++ ys) → AllPairs R xs
  AllPairs-append_left R [] ys h = tt
  AllPairs-append_left R (x ∷ xs) ys h =
      (All-append_left (R x) xs ys h.0, AllPairs-append_left R xs ys h.1)

  pub AllPairs-cross {κ} :
      (R : A → A → Type κ) (xs ys : List A) → AllPairs R (xs ++ ys) → All (λ x. All (R x) ys) xs
  AllPairs-cross R [] ys h = tt
  AllPairs-cross R (x ∷ xs) ys h = (All-append_right (R x) xs ys h.0, AllPairs-cross R xs ys h.1)

module _ {ℓ κ} {A : Type ℓ} {B : Type κ} (f : A → B) where
  pub length-map : (xs : List A) → length (map f xs) ≡ length xs
  length-map [] = refl
  length-map (x ∷ xs) = ap suc (length-map xs)

  pub All-map {μ} : (P : B → Type μ) (xs : List A) → All (λ a. P (f a)) xs → All P (map f xs)
  All-map P [] h = tt
  All-map P (x ∷ xs) h = (h.0, All-map P xs h.1)

  pub AllPairs-map {μ} :
      (R : B → B → Type μ) (xs : List A)
      → AllPairs (λ a b. R (f a) (f b)) xs
      → AllPairs R (map f xs)
  AllPairs-map R [] h = tt
  AllPairs-map R (x ∷ xs) h = (All-map (R (f x)) xs h.0, AllPairs-map R xs h.1)
