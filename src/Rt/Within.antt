-- ===== src/Rt/Within.antt =====
-- rt.go: what a node can bear. No CPU is to reach 950 thousandths.
use dra_rt_driver.Prelude.{
  ℕ, ◌+◌, ◌<◌, ◌≡◌, refl, String, string_key, All, arith, Option-cases, inl, inr,
}
use dra_rt_driver.Prelude.Int.{pos}
use dra_rt_driver.Prelude.Decimal.{itoa, atoi}
use dra_rt_driver.Prelude.GoMap.{lookup, lookup-All, HasDistinctKeys}
use dra_rt_driver.Nas.{AllocatedCpu, AllocatedUtil, MappedUtil, util_at}
use dra_rt_driver.Nas.Load.{IsSoundCpu}

-- A CPU under the text of its number, with less than 950 thousandths in use.
pub record IsWithinEntry (e : String × AllocatedUtil) : Type 0 where
  pub used : ℕ
  pub is_used : e.1.util ≡ pos used
  pub within : used < 950
  pub canonical : itoa (atoi e.0) ≡ e.0

pub record IsWithin (m : MappedUtil) : Type 0 where
  pub distinct : HasDistinctKeys m
  pub all : All IsWithinEntry m

-- A reservation with exact arithmetic, of a CPU whose number reads back.
pub record IsSafeCpu (c : AllocatedCpu) : Type 0 where
  pub sound : IsSoundCpu c
  pub canonical : itoa (atoi (itoa c.id)) ≡ itoa c.id

-- Every CPU stays below 950 thousandths with `more` on top.
pub record Bears (more : String → ℕ) (m : MappedUtil) : Type 0 where
  pub at : (k : String) → (u : ℕ) × (util_at k m ≡ pos u) × (u + more k < 950)

pub util_at-IsWithin :
    (m : MappedUtil) → IsWithin m → (k : String) → (u : ℕ) × (util_at k m ≡ pos u) × (u < 950)
unfolding util_at
util_at-IsWithin m w k = elim (Option-cases (lookup k m)) [
  | inl e ↦ (0, rw (util_at, e) refl, omega arith)
  | inr (v, e) ↦
      let x = lookup-All IsWithinEntry k m w.all e in (x.used, rw (util_at, e) x.is_used, x.within)
]
