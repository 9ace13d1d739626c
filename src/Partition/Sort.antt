-- ===== src/Partition/Sort.antt =====
-- `sort.SliceStable` of Go's standard library, by its documented result: the slice ordered by
-- `less`, and equal elements in their original order.
use dra_rt_driver.Prelude.{
  ◌≡◌, refl, Bool, true, false, if◌then◌else◌, List, [], ◌∷◌, length, arith, All, All-map_of,
  AllPairs, Bool-cases, inl, inr, suc,
}
use mathlib.Core.List.{Perm}
use mathlib.Core.List.Perm

module _ {ℓ} {A : Type ℓ} (less : A → A → Bool) where
  -- `a` in front of the first element that is not less than it.
  unfoldable pub insert_stable : A → List A → List A
  insert_stable a [] = a ∷ []
  insert_stable a (x ∷ xs) =
      let rest = insert_stable a xs in if less x a then x ∷ rest else a ∷ x ∷ xs

  unfoldable pub sort_stable : List A → List A
  unfolding insert_stable
  sort_stable [] = []
  sort_stable (x ∷ xs) = insert_stable x (sort_stable xs)

  pub length-insert_stable : (a : A) (xs : List A) → length (insert_stable a xs) ≡ suc (length xs)
  unfolding insert_stable
  length-insert_stable a [] = refl
  length-insert_stable a (x ∷ xs) = ground (arith, length-insert_stable a xs)

  pub length-sort_stable : (xs : List A) → length (sort_stable xs) ≡ length xs
  unfolding sort_stable
  length-sort_stable [] = refl
  length-sort_stable (x ∷ xs) =
      ground (arith, length-insert_stable x (sort_stable xs), length-sort_stable xs)

module _ {ℓ κ} {A : Type ℓ} (P : A → Type κ) (less : A → A → Bool) where
  All-insert_stable : (a : A) (xs : List A) → P a → All P xs → All P (insert_stable less a xs)
  unfolding insert_stable
  All-insert_stable a [] h hs = (h, tt)
  All-insert_stable a (x ∷ xs) h hs = elim (Bool-cases (less x a)) [
    | inl e ↦ rw e (hs.0, All-insert_stable a xs h hs.1)
    | inr e ↦ rw e (h, hs)
  ]

  pub All-sort_stable : (xs : List A) → All P xs → All P (sort_stable less xs)
  unfolding sort_stable
  All-sort_stable [] h = tt
  All-sort_stable (x ∷ xs) h =
      All-insert_stable x (sort_stable less xs) h.0 (All-sort_stable xs h.1)

module _ {ℓ κ} {A : Type ℓ} (R : A → A → Type κ) (R_sym : (a b : A) → R a b → R b a)
    (less : A → A → Bool) where
  AllPairs-insert_stable :
      (a : A) (xs : List A) → All (R a) xs → AllPairs R xs → AllPairs R (insert_stable less a xs)
  unfolding insert_stable
  AllPairs-insert_stable a [] h hs = (h, tt)
  AllPairs-insert_stable a (x ∷ xs) h hs = elim (Bool-cases (less x a)) [
    | inl e ↦ rw e (
      All-insert_stable (R x) less a xs (R_sym a x h.0) hs.0,
      AllPairs-insert_stable a xs h.1 hs.1,
    )
    | inr e ↦ rw e (h, hs)
  ]

  pub AllPairs-sort_stable : (xs : List A) → AllPairs R xs → AllPairs R (sort_stable less xs)
  unfolding sort_stable
  AllPairs-sort_stable [] h = tt
  AllPairs-sort_stable (x ∷ xs) h =
      AllPairs-insert_stable x (sort_stable less xs) (All-sort_stable (R x) less xs h.0)
        (AllPairs-sort_stable xs h.1)

-- Sorting neither loses elements nor makes any up.
module _ {ℓ} {A : Type ℓ} (less : A → A → Bool) where
  insert_stable-perm : (a : A) (xs : List A) → Perm (insert_stable less a xs) (a ∷ xs)
  unfolding insert_stable
  insert_stable-perm a [] = Perm.refl (a ∷ [])
  insert_stable-perm a (x ∷ xs) = elim (Bool-cases (less x a)) [
    | inl e ↦ rw e (Perm.trans (Perm.cons x (insert_stable-perm a xs)) (Perm.swap a x xs))
    | inr e ↦ rw e (Perm.refl (a ∷ x ∷ xs))
  ]

  pub sort_stable-perm : (xs : List A) → Perm (sort_stable less xs) xs
  unfolding sort_stable
  sort_stable-perm [] = Perm.refl []
  sort_stable-perm (x ∷ xs) =
      Perm.trans (insert_stable-perm x (sort_stable less xs)) (Perm.cons x (sort_stable-perm xs))

-- Each element is followed by none that is less than it.
abbrev pub IsSorted {ℓ} : {A : Type ℓ} → (A → A → Bool) → List A → Type 0
IsSorted less = AllPairs (λ x y. less y x ≡ false)

-- What `SliceStable` asks of `less`: a strict weak order.
pub record IsOrder {ℓ} {A : Type ℓ} (less : A → A → Bool) : Type ℓ where
  pub asym : (a b : A) → less a b ≡ true → less b a ≡ false
  pub trans : (a b c : A) → less b a ≡ false → less c b ≡ false → less c a ≡ false

module _ {ℓ} {A : Type ℓ} (less : A → A → Bool) (o : IsOrder less) where
  insert_stable-IsSorted :
      (a : A) (xs : List A) → IsSorted less xs → IsSorted less (insert_stable less a xs)
  unfolding insert_stable
  insert_stable-IsSorted a [] s = (tt, tt)
  insert_stable-IsSorted a (x ∷ xs) s = elim (Bool-cases (less x a)) [
    | inl e ↦
        rw e (All-insert_stable _ less a xs (o.asym x a e) s.0, insert_stable-IsSorted a xs s.1)
    | inr e ↦ rw e ((e, All-map_of (λ y h. o.trans a x y e h) xs s.0), s)
  ]

  pub sort_stable-IsSorted : (xs : List A) → IsSorted less (sort_stable less xs)
  unfolding sort_stable
  sort_stable-IsSorted [] = tt
  sort_stable-IsSorted (x ∷ xs) =
      insert_stable-IsSorted x (sort_stable less xs) (sort_stable-IsSorted xs)
