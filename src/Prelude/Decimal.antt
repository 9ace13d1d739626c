-- ===== src/Prelude/Decimal.antt =====
-- `strconv.Itoa` and the value of `strconv.Atoi`, which make CPU numbers the keys of maps.
use dra_rt_driver.Prelude.Tests.{ltb, leb, nat_beq, Bool-cases, if◌then◌else◌}
use dra_rt_driver.Prelude.Int.{ℤ, pos, negsuc, Fits, neg_ℕ}
use Prim.Native.Nat.{ℕ, zero, suc, ◌+◌, ◌-◌, ◌*◌, ◌/◌, ◌%◌, ◌^◌, ◌≤◌, ◌<◌}
use Prim.Native.Char.{Char, code}
use Prim.Native.String.{String, [], ◌∷◌}
use mathlib.Core.Path.{◌≡◌, refl, ap, ◌∙◌, sym}
use mathlib.Core.Logic.{inl, inr}
use mathlib.Core.Bool.{true, false, ◌&&◌}
use mathlib.Core.Option.{Option, none, some}
use native.Mathlib.Omega.{arith}

digit : ℕ → Char
digit zero = "0"
digit (suc zero) = "1"
digit (suc (suc zero)) = "2"
digit (suc (suc (suc zero))) = "3"
digit (suc (suc (suc (suc zero)))) = "4"
digit (suc (suc (suc (suc (suc zero))))) = "5"
digit (suc (suc (suc (suc (suc (suc zero)))))) = "6"
digit (suc (suc (suc (suc (suc (suc (suc zero))))))) = "7"
digit (suc (suc (suc (suc (suc (suc (suc (suc zero)))))))) = "8"
digit (suc (suc (suc (suc (suc (suc (suc (suc (suc n))))))))) = "9"

-- The digits of `n` in front of `out`; `n` rounds are enough.
digits : ℕ → ℕ → String → String
digits zero n out = out
digits (suc f) n out = elim (nat_beq n 0) [
  | true ↦ out
  | false ↦ digits f (n / 10) (digit (n % 10) ∷ out)
]

format : ℕ → String
unfolding digits digit
format zero = "0"
format (suc n) = digits (suc n) (suc n) ""

unfoldable pub itoa : ℤ → String
unfolding format
itoa (pos n) = format n
itoa (negsuc n) = "-" ∷ format (suc n)

-- The number that decimal digits spell, read on from `acc`; `none` at any other character.
scan : String → ℕ → Option ℕ
scan [] acc = some acc
scan (c ∷ s) acc =
    let rest = scan s (acc * 10 + (code c - 48)) in
    if leb 48 (code c) && leb (code c) 57 then rest else none

-- Atoi clamps a number that is out of range, and returns 0 for a text that is none.
clamp_pos : Option ℕ → ℤ
clamp_pos none = pos 0
clamp_pos (some n) = if ltb n (2 ^ 63) then pos n else pos (2 ^ 63 - 1)

clamp_neg : Option ℕ → ℤ
clamp_neg none = pos 0
clamp_neg (some n) = if leb n (2 ^ 63) then neg_ℕ n else negsuc (2 ^ 63 - 1)

scan_all : String → Option ℕ
unfolding scan
scan_all [] = none
scan_all (c ∷ s) = scan (c ∷ s) 0

-- The first result of `strconv.Atoi`; the program drops the second, the error.
unfoldable pub atoi : String → ℤ
unfolding scan_all clamp_pos clamp_neg
atoi [] = pos 0
atoi (c ∷ s) =
    if nat_beq (code c) 45
    then clamp_neg (scan_all s)
    else if nat_beq (code c) 43
    then clamp_pos (scan_all s)
    else clamp_pos (scan_all (c ∷ s))

abbrev below : ℕ → (ℕ → ℤ) → Option ℕ → Option ℤ
below limit f none = none
below limit f (some n) = if ltb n limit then some (f n) else none

-- The first result of `strconv.ParseInt(s, 10, 32)`, unless it reports an error.
unfoldable pub parse_int32 : String → Option ℤ
unfolding scan_all
parse_int32 [] = none
parse_int32 (c ∷ s) =
    if nat_beq (code c) 45
    then below (2 ^ 31 + 1) neg_ℕ (scan_all s)
    else if nat_beq (code c) 43
    then below (2 ^ 31) pos (scan_all s)
    else below (2 ^ 31) pos (scan_all (c ∷ s))

code-digit : (d : ℕ) → d < 10 → code (digit d) ≡ 48 + d
unfolding digit
code-digit zero h = refl
code-digit (suc zero) h = refl
code-digit (suc (suc zero)) h = refl
code-digit (suc (suc (suc zero))) h = refl
code-digit (suc (suc (suc (suc zero)))) h = refl
code-digit (suc (suc (suc (suc (suc zero))))) h = refl
code-digit (suc (suc (suc (suc (suc (suc zero)))))) h = refl
code-digit (suc (suc (suc (suc (suc (suc (suc zero))))))) h = refl
code-digit (suc (suc (suc (suc (suc (suc (suc (suc zero)))))))) h = refl
code-digit (suc (suc (suc (suc (suc (suc (suc (suc (suc n))))))))) h = omega arith

scan-digit :
    (d : ℕ) (out : String) (acc : ℕ) → d < 10 → scan (digit d ∷ out) acc ≡ scan out (acc * 10 + d)
unfolding scan
scan-digit d out acc h =
    rw (code-digit d h) (let e : 48 + d - 48 ≡ d = omega arith in rw e (ground arith))

scan-digits : (f n : ℕ) (out : String) → n ≤ f → scan (digits f n out) 0 ≡ scan out n
unfolding digits
scan-digits zero n out h = let e : n ≡ 0 = omega arith in rw e
scan-digits (suc f) n out h = elim (Bool-cases (nat_beq n 0)) [
  | inl e ↦ rw (e, digits) (let z : n ≡ 0 = ground arith in rw z)
  | inr e ↦
      rw (e, digits)
        (scan-digits f (n / 10) (digit (n % 10) ∷ out) (ground arith)
          ∙ scan-digit (n % 10) out (n / 10) (omega arith)
          ∙ ap (scan out) (omega arith))
]

-- A text that begins with a digit.
abbrev LeadsWithDigit : String → Type 0
LeadsWithDigit s = (d : ℕ) × (rest : String) × (d < 10) × (s ≡ digit d ∷ rest)

digits-LeadsWithDigit : (f n : ℕ) (s : String) → LeadsWithDigit s → LeadsWithDigit (digits f n s)
unfolding digits
digits-LeadsWithDigit zero n s h = h
digits-LeadsWithDigit (suc f) n s h = elim (Bool-cases (nat_beq n 0)) [
  | inl e ↦ rw (e, digits) h
  | inr e ↦
      rw (e, digits)
        (digits-LeadsWithDigit f (n / 10) (digit (n % 10) ∷ s) (n % 10, s, omega arith, refl))
]

format-LeadsWithDigit : (n : ℕ) → LeadsWithDigit (format n)
unfolding format
format-LeadsWithDigit zero = (0, "", omega arith, refl)
format-LeadsWithDigit (suc n) =
    let e : nat_beq (suc n) 0 ≡ false = ground arith in
    rw (e, digits)
      (digits-LeadsWithDigit n (suc n / 10) (digit (suc n % 10) ∷ "")
        (suc n % 10, "", omega arith, refl))

scan-format : (n : ℕ) → scan (format n) 0 ≡ some n
unfolding format scan
scan-format zero = refl
scan-format (suc n) = scan-digits (suc n) (suc n) "" (omega arith)

scan_all-eq-scan : (s : String) → LeadsWithDigit s → scan_all s ≡ scan s 0
unfolding scan_all
scan_all-eq-scan s (d, rest, h, e) = rw e refl

scan_all-format : (n : ℕ) → scan_all (format n) ≡ some n
scan_all-format n = scan_all-eq-scan (format n) (format-LeadsWithDigit n) ∙ scan-format n

-- A text with no sign is read whole.
atoi_unsigned : (s : String) → LeadsWithDigit s → atoi s ≡ clamp_pos (scan_all s)
unfolding atoi
atoi_unsigned s (d, rest, h, e) = rw e (ground (arith, code-digit d h))

-- `Atoi` reads back what `Itoa` wrote, for every value of `int`.
pub atoi-itoa : (z : ℤ) → Fits z → atoi (itoa z) ≡ z
unfolding itoa
atoi-itoa (pos n) h =
    rw (atoi_unsigned (format n) (format-LeadsWithDigit n), scan_all-format n)
      (unfold clamp_pos in ground arith)
atoi-itoa (negsuc n) h = unfold atoi clamp_neg in rw (scan_all-format (suc n)) (ground arith)

-- Distinct numbers have distinct texts.
pub itoa_injective : (a b : ℤ) → Fits a → Fits b → itoa a ≡ itoa b → a ≡ b
itoa_injective a b ha hb e = sym (atoi-itoa a ha) ∙ ap atoi e ∙ atoi-itoa b hb

itoa_examples : (itoa (pos 1024) ≡ "1024") × (itoa (negsuc 6) ≡ "-7") × (itoa (pos 0) ≡ "0")
unfolding itoa
itoa_examples = (refl, refl, refl)

atoi_examples : (atoi "007" ≡ pos 7) × (atoi "cpu" ≡ pos 0) × (atoi "-12" ≡ negsuc 11)
unfolding atoi scan_all scan
atoi_examples = (refl, refl, refl)
