-- ===== src/Prelude/Meets.antt =====
-- Conditions on what a Go function leaves behind, whatever its outcome: `result` when it returns with
-- no error, `kept` beside an error or a panic.
use mathlib.Core.Path.{◌≡◌, refl}
use dra_rt_driver.Prelude.Outcome.{Outcome, ok, err, panic, Reason}
use dra_rt_driver.Prelude.Exec.{continue, on_error, Exec}

module _ {ℓ κ} {S A : Type ℓ} (kept : S → Type κ) (result : A → S → Type κ) where
  abbrev pub Meets : Outcome A × S → Type κ
  Meets (ok a, s) = result a s
  Meets (err e, s) = kept s
  Meets (panic p, s) = kept s

module _ {ℓ κ} {S A : Type ℓ} (kept : S → Type κ) where
  pub Meets-kept : (r : Outcome A × S) → Meets kept (λ a s. kept s) r → kept r.1
  Meets-kept (ok a, s) h = h
  Meets-kept (err e, s) h = h
  Meets-kept (panic p, s) h = h

  pub kept-Meets : (r : Outcome A × S) → kept r.1 → Meets kept (λ a s. kept s) r
  kept-Meets (ok a, s) h = h
  kept-Meets (err e, s) h = h
  kept-Meets (panic p, s) h = h

  pub on_error-Meets :
      (result : A → S → Type κ) (reason : Reason) (m : Exec S A) (s : S)
      → Meets kept result (m s)
      → Meets kept result (on_error reason m s)
  on_error-Meets result reason m s h = go (m s) h
    where
      go :
          (r : Outcome A × S) → Meets kept result r → Meets kept result (on_error reason (λ u. r) s)
      go (ok a, t) h = h
      go (err e, t) h = h
      go (panic p, t) h = h

  pub continue-Meets :
      {B : Type ℓ} (before : A → S → Type κ) (after : B → S → Type κ) (f : A → Exec S B)
      (r : Outcome A × S)
      → Meets kept before r
      → ((a : A) (t : S) → before a t → Meets kept after (f a t))
      → Meets kept after (continue r.0 f r.1)
  continue-Meets before after f (ok a, t) h k = k a t h
  continue-Meets before after f (err e, t) h k = h
  continue-Meets before after f (panic p, t) h k = h

  pub lift-Meets :
      {B : Type ℓ} (after : B → S → Type κ) (o : Outcome A) (f : A → Exec S B) (s : S)
      → kept s
      → ((a : A) → o ≡ ok a → Meets kept after (f a s))
      → Meets kept after (continue o f s)
  lift-Meets after (ok a) f s h k = k a refl
  lift-Meets after (err e) f s h k = h
  lift-Meets after (panic p) f s h k = h
