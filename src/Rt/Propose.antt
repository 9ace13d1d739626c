-- ===== src/Rt/Propose.antt =====
-- `allocate` of cmd/dra-rt-controller/rt.go: the CPUs that a node would give to the claims of a pod.
-- `range` delivers the entries of a map in an order that differs from one loop to the next: the
-- order is the parameter `order`, indexed by the number of claims that are left.
use dra_rt_driver.Prelude.{
  ℕ, zero, suc, String, string_key, ◌==◌, if◌then◌else◌, Option, none, some, List, [], ◌∷◌, ◌++◌,
  length, All,
}
use dra_rt_driver.Prelude.Int.{ℤ, pos, pos_part, ltb_ℤ, add_int, int_key}
use dra_rt_driver.Prelude.Decimal.{itoa, atoi}
use dra_rt_driver.Prelude.GoMap.{GoMap, lookup, insert, delete, entries, HasDistinctKeys}
use dra_rt_driver.Prelude.{◌≡◌}
use dra_rt_driver.Prelude.Outcome.{
  Outcome, ok, err, panic, deref, nil_dereference, index_out_of_range, ◌>>=◌,
}
use dra_rt_driver.Nas.{
  AllocatableCpu, AllocatableCpuset, AllocatedCpu, AllocatedUtil, MappedUtil, NodeAllocationState,
  util_at, claim_util, allocatable_type, rt_cpu_type,
}
use dra_rt_driver.Params.{RtClaimParametersSpec}
use dra_rt_driver.Resource.{ClaimAllocation, rt_claim, other_parameters}
use dra_rt_driver.Partition.{cpu_partitioning}

-- Orders of iteration: each entry is delivered, and once.
pub record RangeOrder : Type 1 where
  pub order : ℕ → MappedUtil → MappedUtil
  pub distinct : (n : ℕ) (m : MappedUtil) → HasDistinctKeys m → HasDistinctKeys (order n m)
  pub same :
      (n : ℕ) (m : MappedUtil) (k : String) → HasDistinctKeys m → lookup k (order n m) ≡ lookup k m
  pub delivers :
      (n : ℕ) (m : MappedUtil) (P : String × AllocatedUtil → Type 0) → All P m → All P (order n m)

-- `ca.ClaimParameters.(*RtClaimParametersSpec)`, whose second result is dropped: reading a field
-- through the nil pointer that it yields for another type panics.
unfoldable pub claim_params : ClaimAllocation → Outcome RtClaimParametersSpec
claim_params ca = elim ca.claim_parameters [
  | rt_claim params ↦ ok params
  | other_parameters ↦ panic nil_dereference
]

-- The copy of `crd.Spec.AllocatedUtilToCpu.Cpus`.
unfoldable pub copy_utils : MappedUtil → MappedUtil → MappedUtil
copy_utils [] util = util
copy_utils ((id, cpu) ∷ rest) util = copy_utils rest (insert id (record { util = cpu.util }) util)

abbrev pub Available : Type 0
Available = GoMap ℤ AllocatableCpu

abbrev add_available : Option AllocatableCpu → Available → Outcome Available
add_available none available = panic nil_dereference
add_available (some cpu) available = ok (insert cpu.id cpu available)

unfoldable pub available_cpus : List AllocatableCpuset → Available → Outcome Available
available_cpus [] available = ok available
available_cpus (device ∷ rest) available =
    (if allocatable_type device == rt_cpu_type
      then add_available device.rt_cpu available
      else ok available)
    >>= available_cpus rest

-- The variables of the function: its two results, and the CPUs with less than 950 thousandths in
-- use, which it keeps up to date and never reads.
pub record Proposal : Type 0 where
  pub allocated : GoMap String (List AllocatedCpu)
  pub util : MappedUtil
  pub available : Available

pub record Picks : Type 0 where
  pub devices : List AllocatedCpu
  pub util : MappedUtil
  pub available : Available

-- The body of the loop over `worstFitCpus`.
unfoldable pub take_cpu : RtClaimParametersSpec → ℤ → String → Picks → Picks
take_cpu params used cpu s =
    let d : AllocatedCpu = record {
      id = atoi cpu;
      runtime = params.runtime;
      period = params.period;
    } in
    let key = itoa d.id in
    let util = insert key (record { util = add_int (util_at key s.util) used }) s.util in
    record {
      devices = s.devices ++ d ∷ [];
      util = util;
      available =
          if ltb_ℤ (pos 950) (util_at key util) then delete d.id s.available else s.available;
    }

unfoldable pub take_cpus : RtClaimParametersSpec → ℤ → ℕ → List String → Picks → Outcome Picks
take_cpus params used zero cpus s = ok s
take_cpus params used (suc n) [] s = panic index_out_of_range
take_cpus params used (suc n) (cpu ∷ cpus) s =
    take_cpus params used n cpus (take_cpu params used cpu s)

-- `for … { allocated[claimUID] = append(allocated[claimUID], device) }`
unfoldable pub append_devices :
    String → List AllocatedCpu → GoMap String (List AllocatedCpu) → GoMap String (List AllocatedCpu)
append_devices uid [] allocated = allocated
append_devices uid (d ∷ ds) allocated =
    append_devices uid ds (insert uid (entries (lookup uid allocated) ++ d ∷ []) allocated)

-- The CPUs that `cpuPartitioning` found are taken; its error makes the function return `nil, nil`.
unfoldable pub take_found :
    String
    → RtClaimParametersSpec
    → ℤ
    → Outcome (List String)
    → Proposal
    → Outcome (Option Proposal)
take_found uid params used (ok cpus) s = do
  picks ←
      take_cpus params used (pos_part params.count) cpus
        (record { devices = []; util = s.util; available = s.available })
  ok (
      some (record {
        allocated = insert uid picks.devices s.allocated;
        util = picks.util;
        available = picks.available;
      }))
take_found uid params used (err e) s = ok none
take_found uid params used (panic p) s = panic p

module _ (range : RangeOrder) where
  -- One round of the loop over the claims.
  unfoldable pub propose_claim :
      NodeAllocationState → ℕ → ClaimAllocation → Proposal → Outcome (Option Proposal)
  propose_claim crd left ca s =
      let uid = ca.claim.uid in
      elim (lookup uid (entries crd.spec.allocated_claims)) [
        | some claim ↦ do
          rt ← deref claim.rt_cpu
          ok (some (record s { allocated = append_devices uid rt.cpuset s.allocated }))
        | none ↦ do
          params ← claim_params ca
          used ← claim_util params.runtime params.period
          take_found uid params used
              (cpu_partitioning (range.order left s.util) used params.count "worstFit") s
      ]

  abbrev or_nil :
      (Proposal → Outcome (Option Proposal)) → Option Proposal → Outcome (Option Proposal)
  or_nil f none = ok none
  or_nil f (some s) = f s

  unfoldable pub propose_claims :
      NodeAllocationState → List ClaimAllocation → Proposal → Outcome (Option Proposal)
  propose_claims crd [] s = ok (some s)
  propose_claims crd (ca ∷ cas) s =
      propose_claim crd (length cas) ca s >>= or_nil (propose_claims crd cas)

  -- `allocate`; `none` stands for its result `nil, nil`.
  unfoldable pub propose : NodeAllocationState → List ClaimAllocation → Outcome (Option Proposal)
  propose crd cas = do
    available ← available_cpus crd.spec.allocatable_cpuset []
    propose_claims crd cas (record {
      allocated = [];
      util = copy_utils (entries crd.spec.allocated_util_to_cpu.cpus) [];
      available = available;
    })
