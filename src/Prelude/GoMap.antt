-- ===== src/Prelude/GoMap.antt =====
-- Go's maps. The entries stand in the order in which `range` delivers them; a program may not rely
-- on that order, so theorems are stated for every list of entries, in any order.
use dra_rt_driver.Prelude.Tests.{Key, ◌==◌, if◌then◌else◌, Bool-cases}
use dra_rt_driver.Prelude.Lists.{All}
use mathlib.Core.Bool.{false≢true}
use dra_rt_driver.Prelude.Outcome.{Outcome, ok, panic, nil_map_write}
use mathlib.Core.Path.{◌≡◌, refl, sym, ◌∙◌, subst, subst₂}
use mathlib.Core.Logic.{◌≢◌, inl, inr}
use mathlib.Core.Bool.{true}
use mathlib.Core.Option.{Option, none, some}
use mathlib.Core.List.{List, [], ◌∷◌}
use native.Mathlib.Omega.{arith}

abbrev pub GoMap {ℓ} : Type ℓ → Type ℓ → Type ℓ
GoMap K V = List (K × V)

module _ {ℓ κ} {K : Type ℓ} {V : Type κ} ⦃e : Key K⦄ where
  -- v, exists := m[k]
  abbrev pub lookup : K → List (K × V) → Option V
  lookup k [] = none
  lookup k ((j, v) ∷ rest) = if j == k then some v else lookup k rest

  -- m[k] = v
  unfoldable pub insert : K → V → List (K × V) → List (K × V)
  insert k v [] = (k, v) ∷ []
  insert k v ((j, w) ∷ m) = let rest = insert k v m in if j == k then (j, v) ∷ m else (j, w) ∷ rest

  -- delete(m, k)
  unfoldable pub delete : K → List (K × V) → List (K × V)
  delete k [] = []
  delete k ((j, w) ∷ m) = let rest = delete k m in if j == k then rest else (j, w) ∷ rest

  pub lookup-insert :
      (k j : K) (v : V) (m : List (K × V))
      → lookup j (insert k v m) ≡ (if k == j then some v else lookup j m)
  unfolding insert
  lookup-insert k j v [] = refl
  lookup-insert k j v ((i, w) ∷ m) =
      ground (arith, e.same_iff k j, e.same_iff i k, e.same_iff i j, lookup-insert k j v m)

  pub lookup-delete :
      (k j : K) (m : List (K × V)) → lookup j (delete k m) ≡ (if k == j then none else lookup j m)
  unfolding delete
  lookup-delete k j [] = ground arith
  lookup-delete k j ((i, w) ∷ m) =
      ground (arith, e.same_iff k j, e.same_iff i k, e.same_iff i j, lookup-delete k j m)

pub eq_self {ℓ} : {K : Type ℓ} ⦃e : Key K⦄ (k : K) → (k == k) ≡ true
eq_self ⦃e⦄ k = (e.same_iff k k).1 refl

-- A write through a map variable that may be nil.
unfoldable pub assign {ℓ κ} :
    {K : Type ℓ} {V : Type κ} ⦃e : Key K⦄
    → K
    → V
    → Option (List (K × V))
    → Outcome (Option (List (K × V)))
assign k v none = panic nil_map_write
assign k v (some m) = ok (some (insert k v m))

-- A read of a map variable that may be nil: nil reads as the empty map.
abbrev pub entries {ℓ} : {A : Type ℓ} → Option (List A) → List A
entries none = []
entries (some m) = m

-- The keys of a map are distinct.
abbrev pub Absent {ℓ κ} : {K : Type ℓ} {V : Type κ} → K → List (K × V) → Type ℓ
Absent k [] = Unit
Absent k ((j, v) ∷ m) = (j ≢ k) × Absent k m

abbrev pub HasDistinctKeys {ℓ κ} : {K : Type ℓ} {V : Type κ} → List (K × V) → Type ℓ
HasDistinctKeys [] = Unit
HasDistinctKeys ((j, v) ∷ m) = Absent j m × HasDistinctKeys m

pub lookup-Absent {ℓ κ} :
    {K : Type ℓ} {V : Type κ} ⦃e : Key K⦄ (k : K) (m : List (K × V))
    → Absent k m
    → lookup k m ≡ none
lookup-Absent k [] a = refl
lookup-Absent ⦃e⦄ k ((j, v) ∷ m) a = ground (arith, e.same_iff j k, lookup-Absent k m a.1, a.0)

module _ {ℓ κ} {K : Type ℓ} {V : Type κ} ⦃e : Key K⦄ where
  pub All-insert {μ} :
      (P : K × V → Type μ) (k : K) (v : V) (m : List (K × V))
      → P (k, v)
      → All P m
      → All P (insert k v m)
  unfolding insert
  All-insert P k v [] h a = (h, tt)
  All-insert P k v ((j, w) ∷ m) h a = elim (Bool-cases (j == k)) [
    | inl hit ↦ rw hit (subst (λ i. P (i, v)) (sym ((e.same_iff j k).0 hit)) h, a.1)
    | inr miss ↦ rw miss (a.0, All-insert P k v m h a.1)
  ]

  pub Absent-insert :
      (i k : K) (v : V) (m : List (K × V)) → k ≢ i → Absent i m → Absent i (insert k v m)
  unfolding insert
  Absent-insert i k v [] h a = (h, tt)
  Absent-insert i k v ((j, w) ∷ m) h a = elim (Bool-cases (j == k)) [
    | inl hit ↦ rw hit a
    | inr miss ↦ rw miss (a.0, Absent-insert i k v m h a.1)
  ]

  pub HasDistinctKeys-insert :
      (k : K) (v : V) (m : List (K × V)) → HasDistinctKeys m → HasDistinctKeys (insert k v m)
  unfolding insert
  HasDistinctKeys-insert k v [] d = (tt, tt)
  HasDistinctKeys-insert k v ((j, w) ∷ m) d = elim (Bool-cases (j == k)) [
    | inl hit ↦ rw hit d
    | inr miss ↦ rw miss (
      Absent-insert j k v m (λ h. false≢true (sym miss ∙ (e.same_iff j k).1 (sym h))) d.0,
      HasDistinctKeys-insert k v m d.1,
    )
  ]

  pub lookup-All {μ} :
      (P : K × V → Type μ) (k : K) (m : List (K × V)) {v : V}
      → All P m
      → lookup k m ≡ some v
      → P (k, v)
  lookup-All P k [] a h = absurd (cc)
  lookup-All P k ((j, w) ∷ m) {v} a h = elim (Bool-cases (j == k)) [
    | inl hit ↦ subst₂ (λ i x. P (i, x)) ((e.same_iff j k).0 hit) (ground arith) a.0
    | inr miss ↦ lookup-All P k m a.1 (ground arith)
  ]

  pub Absent-delete : (i k : K) (m : List (K × V)) → Absent i m → Absent i (delete k m)
  unfolding delete
  Absent-delete i k [] a = tt
  Absent-delete i k ((j, w) ∷ m) a = elim (Bool-cases (j == k)) [
    | inl hit ↦ rw hit (Absent-delete i k m a.1)
    | inr miss ↦ rw miss (a.0, Absent-delete i k m a.1)
  ]

  pub HasDistinctKeys-delete :
      (k : K) (m : List (K × V)) → HasDistinctKeys m → HasDistinctKeys (delete k m)
  unfolding delete
  HasDistinctKeys-delete k [] d = tt
  HasDistinctKeys-delete k ((j, w) ∷ m) d = elim (Bool-cases (j == k)) [
    | inl hit ↦ rw hit (HasDistinctKeys-delete k m d.1)
    | inr miss ↦ rw miss (Absent-delete j k m d.0, HasDistinctKeys-delete k m d.1)
  ]

  -- What holds of every entry that can be read holds of every entry.
  pub All-lookup {μ} :
      (P : K × V → Type μ) (m : List (K × V))
      → HasDistinctKeys m
      → ((k : K) (v : V) → lookup k m ≡ some v → P (k, v))
      → All P m
  All-lookup P [] d h = tt
  All-lookup P ((j, w) ∷ m) d h = (
    h j w (rw (eq_self j) refl),
    All-lookup P m d.1 (λ k v f. elim (Bool-cases (j == k)) [
      | inl hit ↦ absurd (
          let e : j ≡ k = (e.same_iff j k).0 hit in
          let n : lookup k m ≡ none = subst (λ i. lookup i m ≡ none) e (lookup-Absent j m d.0) in
          cc)
      | inr miss ↦ h k v (rw miss f)
    ]),
  )

  pub lookup-insert_hit : (k : K) (v : V) (m : List (K × V)) → lookup k (insert k v m) ≡ some v
  lookup-insert_hit k v m = lookup-insert k k v m ∙ rw (eq_self k) refl

  pub lookup-insert_miss :
      (k j : K) (v : V) (m : List (K × V)) → j ≢ k → lookup j (insert k v m) ≡ lookup j m
  lookup-insert_miss k j v m n = ground (arith, lookup-insert k j v m, e.same_iff k j)

  pub lookup-insert_kept :
      (k j : K) (v w : V) (m : List (K × V))
      → lookup j m ≡ some w
      → (x : V) × (lookup j (insert k v m) ≡ some x)
  lookup-insert_kept k j v w m h = elim (Bool-cases (k == j)) [
    | inl hit ↦ (v, lookup-insert k j v m ∙ rw hit refl)
    | inr miss ↦ (w, lookup-insert k j v m ∙ rw miss h)
  ]
