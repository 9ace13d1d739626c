-- ===== src/Rt/ZeroPeriod.antt =====
-- rt.go, ValidateClaimParameters and allocate: a claim whose period is 0.
use dra_rt_driver.Prelude.{
  ◌≡◌, refl, string_key, false, none, List, [], ◌∷◌, Option-cases, inl, inr,
}
use dra_rt_driver.Prelude.Int.{pos, ltb_ℤ, int_key}
use dra_rt_driver.Prelude.GoMap.{lookup, insert, entries}
use dra_rt_driver.Prelude.Outcome.{ok, panic, divide_by_zero}
use dra_rt_driver.Nas.{AllocatableCpuset, NodeAllocationState, allocatable_type, claim_util}
use dra_rt_driver.Params.{RtClaimParametersSpec}
use dra_rt_driver.Resource.{ClaimAllocation, rt_claim}
use dra_rt_driver.Rt.{validate_claim_parameters}
use dra_rt_driver.Rt.Propose.{
  RangeOrder, Available, propose, propose_claim, propose_claims, claim_params, available_cpus,
}

-- The allocatable CPUs are read with no panic: a nil pointer is left out by its type.
pub available_cpus-ok :
    (cs : List AllocatableCpuset) (a : Available) → (a' : Available) × (available_cpus cs a ≡ ok a')
unfolding available_cpus allocatable_type
available_cpus-ok [] a = (a, refl)
available_cpus-ok (c ∷ cs) a = elim (Option-cases c.rt_cpu) [
  | inl e ↦
      let (a', rest) = available_cpus-ok cs a in (a', rw (available_cpus, allocatable_type, e) rest)
  | inr (cpu, e) ↦
      let (a', rest) = available_cpus-ok cs (insert cpu.id cpu a) in
      (a', rw (available_cpus, allocatable_type, e) rest)
]

-- A claim that asks for at least one CPU with a period of 0 is accepted by
-- `ValidateClaimParameters`; `allocate` divides by the period and panics, on every node whose record
-- does not hold the claim, when the claim is the first of its pod, whatever the node's CPUs and the
-- other claims are.
pub zero_period_panics :
    (range : RangeOrder) (crd : NodeAllocationState) (ca : ClaimAllocation)
    (cas : List ClaimAllocation) (params : RtClaimParametersSpec)
    → ca.claim_parameters ≡ rt_claim params
    → ltb_ℤ params.count (pos 1) ≡ false
    → params.period ≡ pos 0
    → lookup ca.claim.uid (entries crd.spec.allocated_claims) ≡ none
    → (validate_claim_parameters params ≡ ok tt)
      × (propose range crd (ca ∷ cas) ≡ panic divide_by_zero)
unfolding validate_claim_parameters propose propose_claims propose_claim claim_params claim_util
zero_period_panics range crd ca cas params is_rt counts zero_period fresh =
    let (a, e) = available_cpus-ok crd.spec.allocatable_cpuset [] in
    (
      rw counts refl,
      rw
          (
            propose, e, propose_claims, propose_claim, fresh, claim_params, is_rt, claim_util,
            zero_period,
          )
          refl,
    )
