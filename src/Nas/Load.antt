-- ===== src/Nas/Load.antt =====
-- The load that reservations put on a CPU, in plain numbers: the view in which the signed, wrapping
-- arithmetic of nas.go is specified.
use dra_rt_driver.Prelude.{
  ℕ, zero, suc, ◌+◌, ◌*◌, ◌/◌, ◌^◌, ◌<◌, ◌≡◌, refl, String, string_key, ◌==◌, if◌then◌else◌, List,
  [], ◌∷◌, ◌++◌, arith,
}
use dra_rt_driver.Prelude.Int.{ℤ, pos, negsuc, pos_part, neg_part, mul_int, quo_int, wrap, ◌*ℤ◌}
use dra_rt_driver.Prelude.Decimal.{itoa}
use dra_rt_driver.Prelude.Outcome.{ok}
use dra_rt_driver.Nas.{AllocatedCpu, claim_util}

-- A reservation that the arithmetic of `int` treats exactly.
pub record IsSound (runtime period : ℤ) : Type 0 where
  pub runtime_nonneg : neg_part runtime ≡ 0
  pub period_positive : 0 < pos_part period
  pub product_fits : pos_part runtime * 1000 < 2 ^ 63

abbrev pub IsSoundCpu : AllocatedCpu → Type 0
IsSoundCpu c = IsSound c.runtime c.period

-- Thousandths of a CPU, rounded down.
abbrev pub share : ℤ → ℤ → ℕ
share runtime period = pos_part runtime * 1000 / pos_part period

-- What a list of reservations puts on the CPU with key `k`.
unfoldable pub load : String → List AllocatedCpu → ℕ
load k [] = 0
load k (c ∷ cs) = (if itoa c.id == k then share c.runtime c.period else 0) + load k cs

pub load-cons :
    (k : String) (c : AllocatedCpu) (cs : List AllocatedCpu)
    → load k (c ∷ cs) ≡ load k (c ∷ []) + load k cs
unfolding load
load-cons k c cs = omega arith

pub load-append :
    (k : String) (xs ys : List AllocatedCpu) → load k (xs ++ ys) ≡ load k xs + load k ys
unfolding load
load-append k [] ys = omega arith
load-append k (c ∷ xs) ys = omega (arith, load-append k xs ys)

mul_thousand : (r : ℕ) → r * 1000 < 2 ^ 63 → mul_int (pos r) (pos 1000) ≡ pos (r * 1000)
unfolding mul_int ◌*ℤ◌ wrap
mul_thousand r h = ground arith

pub claim_util-share :
    (runtime period : ℤ)
    → IsSound runtime period
    → claim_util runtime period ≡ ok (pos (share runtime period))
unfolding claim_util
claim_util-share (negsuc r) period h = absurd (let e : suc r ≡ 0 = h.runtime_nonneg in omega arith)
claim_util-share (pos r) (negsuc p) h = absurd (let e : 0 < 0 = h.period_positive in omega arith)
claim_util-share (pos r) (pos zero) h = absurd (let e : 0 < 0 = h.period_positive in omega arith)
claim_util-share (pos r) (pos (suc p)) h =
    rw (mul_thousand r h.product_fits) (unfold quo_int in refl)
