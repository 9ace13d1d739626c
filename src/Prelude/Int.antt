-- ===== src/Prelude/Int.antt =====
-- Go's `int` on a 64-bit platform: integers, with the wrap-around of each operation written out,
-- and the quotient that rounds towards zero.
use dra_rt_driver.Prelude.Tests.{ltb, leb, nat_beq, if◌then◌else◌, Key}
use Prim.Native.Nat.{ℕ, zero, suc, ◌+◌, ◌-◌, ◌*◌, ◌/◌, ◌%◌, ◌^◌, ◌≤◌, ◌<◌}
use mathlib.Core.Path.{◌≡◌, refl}
use mathlib.Core.Logic.{◌↔◌}
use mathlib.Core.Bool.{Bool, true}
use native.Mathlib.Omega.{arith}

-- `negsuc n` is -(n + 1).
pub data ℤ : Type 0 where
  pos : ℕ → ℤ
  negsuc : ℕ → ℤ

abbrev pub pos_part : ℤ → ℕ
pos_part (pos n) = n
pos_part (negsuc n) = 0

abbrev pub neg_part : ℤ → ℕ
neg_part (pos n) = 0
neg_part (negsuc n) = suc n

-- a - b, as an integer.
abbrev pub sub_ℕ : ℕ → ℕ → ℤ
sub_ℕ a b = if leb b a then pos (a - b) else negsuc (b - a - 1)

infixl 65 ◌+ℤ◌ ◌-ℤ◌
infixl 70 ◌*ℤ◌
infix 50 ◌≤ℤ◌ ◌<ℤ◌
unfoldable pub ◌+ℤ◌ : ℤ → ℤ → ℤ
a +ℤ b = sub_ℕ (pos_part a + pos_part b) (neg_part a + neg_part b)

unfoldable pub ◌-ℤ◌ : ℤ → ℤ → ℤ
a -ℤ b = sub_ℕ (pos_part a + neg_part b) (neg_part a + pos_part b)

unfoldable pub ◌*ℤ◌ : ℤ → ℤ → ℤ
a *ℤ b =
    sub_ℕ (pos_part a * pos_part b + neg_part a * neg_part b)
      (pos_part a * neg_part b + neg_part a * pos_part b)

abbrev pub ◌≤ℤ◌ : ℤ → ℤ → Type 0
a ≤ℤ b = pos_part a + neg_part b ≤ pos_part b + neg_part a

abbrev pub ◌<ℤ◌ : ℤ → ℤ → Type 0
a <ℤ b = pos_part a + neg_part b < pos_part b + neg_part a

abbrev pub ltb_ℤ : ℤ → ℤ → Bool
ltb_ℤ a b = ltb (pos_part a + neg_part b) (pos_part b + neg_part a)

abbrev pub eqb_ℤ : ℤ → ℤ → Bool
eqb_ℤ a b = nat_beq (pos_part a + neg_part b) (pos_part b + neg_part a)

pub eqb_ℤ_iff : (a b : ℤ) → (eqb_ℤ a b ≡ true) ↔ (a ≡ b)
eqb_ℤ_iff a b = ground arith

instance abbrev pub int_key : Key ℤ
int_key = record { same = eqb_ℤ; same_iff = eqb_ℤ_iff }

-- The value of an integer kept in 64 bits, two's complement.
unfoldable pub wrap : ℤ → ℤ
wrap (pos n) = let r = n % 2 ^ 64 in if ltb r (2 ^ 63) then pos r else negsuc (2 ^ 64 - 1 - r)
wrap (negsuc n) = let r = n % 2 ^ 64 in if ltb r (2 ^ 63) then negsuc r else pos (2 ^ 64 - 1 - r)

-- The values of `int`.
pub record Fits (a : ℤ) : Type 0 where
  pub above : pos_part a < 2 ^ 63
  pub below : neg_part a ≤ 2 ^ 63

pub wrap-Fits : (a : ℤ) → Fits (wrap a)
unfolding wrap
wrap-Fits (pos n) = ground arith
wrap-Fits (negsuc n) = ground arith

pub wrap_of_Fits : (a : ℤ) → Fits a → wrap a ≡ a
unfolding wrap
wrap_of_Fits (pos n) h = ground arith
wrap_of_Fits (negsuc n) h = ground arith

-- `a + b`, `a - b`, `a * b` on `int`.
unfoldable pub add_int : ℤ → ℤ → ℤ
add_int a b = wrap (a +ℤ b)

unfoldable pub sub_int : ℤ → ℤ → ℤ
sub_int a b = wrap (a -ℤ b)

unfoldable pub mul_int : ℤ → ℤ → ℤ
mul_int a b = wrap (a *ℤ b)

abbrev pub neg_ℕ : ℕ → ℤ
neg_ℕ zero = pos 0
neg_ℕ (suc n) = negsuc n

-- `a / b` on `int`, for `b` other than 0.
unfoldable pub quo_int : ℤ → ℤ → ℤ
unfolding wrap
quo_int (pos a) (pos b) = pos (a / b)
quo_int (pos a) (negsuc b) = neg_ℕ (a / suc b)
quo_int (negsuc a) (pos b) = neg_ℕ (suc a / b)
quo_int (negsuc a) (negsuc b) = wrap (pos (suc a / suc b))

-- Sums and differences that fit are exact.
pub add_int_exact :
    (a b : ℤ)
    → Fits (a +ℤ b)
    → pos_part (add_int a b) + neg_part a + neg_part b
      ≡ neg_part (add_int a b) + pos_part a + pos_part b
unfolding add_int ◌+ℤ◌
add_int_exact a b h = ground (arith, wrap_of_Fits (a +ℤ b))

pub add_int_small : (a b : ℕ) → a + b < 2 ^ 63 → add_int (pos a) (pos b) ≡ pos (a + b)
unfolding add_int ◌+ℤ◌ wrap
add_int_small a b h = ground arith

pub sub_int_small : (a b : ℕ) → a < 2 ^ 63 → b < 2 ^ 63 → sub_int (pos a) (pos b) ≡ sub_ℕ a b
unfolding sub_int ◌-ℤ◌ wrap
sub_int_small a b h k = ground arith

wrap_overflow : add_int (pos (2 ^ 63 - 1)) (pos 1) ≡ negsuc (2 ^ 63 - 1)
unfolding add_int ◌+ℤ◌ wrap
wrap_overflow = refl

quo_rounds : (quo_int (negsuc 6) (pos 2) ≡ negsuc 2) × (quo_int (pos 7) (negsuc 1) ≡ negsuc 2)
unfolding quo_int
quo_rounds = (refl, refl)
