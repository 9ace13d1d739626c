-- ===== src/Prelude/Exec.antt =====
-- Go functions that change what their receiver points to or what a server holds: the new state comes
-- back beside the outcome, beside an error too.
use mathlib.Core.Path.{◌≡◌, refl}
use mathlib.Core.Bool.{false}
use dra_rt_driver.Prelude.Outcome.{
  Outcome, ok, err, panic, Reason, Error, wrap_error, is_conflict, wrap_error-is_conflict,
}

abbrev pub Exec {ℓ} : Type ℓ → Type ℓ → Type ℓ
Exec S A = S → Outcome A × S

module _ {ℓ} {S A : Type ℓ} where
  abbrev pub pure : A → Exec S A
  pure a s = (ok a, s)

  abbrev pub lift : Outcome A → Exec S A
  lift r s = (r, s)

  abbrev pub fail : Error → Exec S A
  fail e s = (err e, s)

  abbrev pub gets : (S → A) → Exec S A
  gets f s = (ok (f s), s)

  -- `if err != nil { return fmt.Errorf("…: %v", err) }` after the call.
  abbrev pub on_error : Reason → Exec S A → Exec S A
  on_error r m s = (wrap_error r (m s).0, (m s).1)

module _ {ℓ} {S A B : Type ℓ} where
  abbrev pub continue : Outcome A → (A → Exec S B) → Exec S B
  continue (ok a) f s = f a s
  continue (err e) f s = (err e, s)
  continue (panic p) f s = (panic p, s)

  infixl 5 ◌>>=◌ ◌>>◌
  abbrev pub ◌>>=◌ : Exec S A → (A → Exec S B) → Exec S B
  ◌>>=◌ m f s = continue (m s).0 f (m s).1

  abbrev pub ◌>>◌ : Exec S A → Exec S B → Exec S B
  ◌>>◌ m k = m >>= λ _. k

-- A call whose error, if it has one, is no conflict.
pub record HidesConflict {ℓ} {S A : Type ℓ} (m : Exec S A) : Type ℓ where
  pub at : (s : S) → is_conflict (m s).0 ≡ false

continue-is_conflict {ℓ} :
    {S A B : Type ℓ} (m : Outcome A) (f : A → Exec S B) (s : S)
    → is_conflict m ≡ false
    → ((a : A) → HidesConflict (f a))
    → is_conflict (continue m f s).0 ≡ false
continue-is_conflict (ok a) f s n h = (h a).at s
continue-is_conflict (err e) f s n h = n
continue-is_conflict (panic p) f s n h = refl

module _ {ℓ} {S A : Type ℓ} where
  pub bind-HidesConflict :
      {B : Type ℓ} {m : Exec S A} {f : A → Exec S B}
      → HidesConflict m
      → ((a : A) → HidesConflict (f a))
      → HidesConflict (m >>= f)
  bind-HidesConflict {m = m} {f = f} h k = record {
    at = λ s. continue-is_conflict (m s).0 f (m s).1 (h.at s) k;
  }

  pub on_error-HidesConflict : (r : Reason) (m : Exec S A) → HidesConflict (on_error r m)
  on_error-HidesConflict r m = record { at = λ s. wrap_error-is_conflict r (m s).0 }

module _ {ℓ} {S A B : Type ℓ} where
  -- A call that may fail, with what follows it, ends well: then so do both.
  pub on_error-ok :
      (reason : Reason) (m : Exec S A) (f : A → Exec S B) (s t : S) (b : B)
      → continue (on_error reason m s).0 f (on_error reason m s).1 ≡ (ok b, t)
      → (a : A) × (u : S) × (m s ≡ (ok a, u)) × (f a u ≡ (ok b, t))
  on_error-ok reason m f s t b h = go (m s) refl h
    where
      go :
          (r : Outcome A × S)
          → m s ≡ r
          → continue (wrap_error reason r.0) f r.1 ≡ (ok b, t)
          → (a : A) × (u : S) × (m s ≡ (ok a, u)) × (f a u ≡ (ok b, t))
      go (ok a, u) e h = (a, u, e, h)
      go (err e, u) h' h = absurd (cc)
      go (panic p, u) h' h = absurd (cc)

  pub continue-ok :
      (m : Exec S A) (f : A → Exec S B) (s t : S) (b : B)
      → continue (m s).0 f (m s).1 ≡ (ok b, t)
      → (a : A) × (u : S) × (m s ≡ (ok a, u)) × (f a u ≡ (ok b, t))
  continue-ok m f s t b h = go (m s) refl h
    where
      go :
          (r : Outcome A × S)
          → m s ≡ r
          → continue r.0 f r.1 ≡ (ok b, t)
          → (a : A) × (u : S) × (m s ≡ (ok a, u)) × (f a u ≡ (ok b, t))
      go (ok a, u) e h = (a, u, e, h)
      go (err e, u) h' h = absurd (cc)
      go (panic p, u) h' h = absurd (cc)
