-- ===== src/Rt.antt =====
-- cmd/dra-rt-controller/rt.go: the part of the controller that knows about real-time CPUs. The
-- argument `crd` of a method is the record that the caller has fetched.
pub mod Propose
pub mod Within
pub mod Capacity
pub mod Pods
pub mod Whole
pub mod Served
pub mod Serving
pub mod ZeroPeriod
pub mod Commitment
pub mod Bearing
pub mod Covered
pub mod Charging
pub mod Visiting
pub mod Absorbing
pub mod Reserving
pub mod Filing
pub mod Bearable
pub mod Upkeep
pub mod Elsewhere
use dra_rt_driver.Prelude.{
  ℕ, String, string_key, ◌==◌, if◌then◌else◌, Bool, not, Option, none, some, List, [], ◌∷◌, ◌++◌,
  length, map,
}
use dra_rt_driver.Prelude.Int.{ℤ, pos, ltb_ℤ, eqb_ℤ, add_int}
use dra_rt_driver.Prelude.Decimal.{itoa}
use dra_rt_driver.Prelude.GoMap.{GoMap, lookup, insert, assign, entries}
use dra_rt_driver.Prelude.Outcome.{
  Outcome, ok, err, panic, failed, deref, nil_dereference, invalid_count, no_allocation_generated,
  ◌>>=◌,
}
use dra_rt_driver.Nas.{
  AllocatedCpu, AllocatedCpuset, AllocatedUtilset, AllocatedUtil, MappedUtil, NodeAllocationState,
  util_at, claim_util, set_utilisation,
}
use dra_rt_driver.Params.{RtClaimParametersSpec}
use dra_rt_driver.Resource.{ClaimAllocation, ResourceClaim, Pod}
use dra_rt_driver.Pending
use dra_rt_driver.Pending.{PerNodeAllocatedClaims}
use Propose.{RangeOrder, Proposal, propose, copy_utils, claim_params}

-- `ValidateClaimParameters`
unfoldable pub validate_claim_parameters : RtClaimParametersSpec → Outcome (Unit {0})
validate_claim_parameters params =
    if ltb_ℤ params.count (pos 1) then err (failed invalid_count) else ok tt

-- The callback that `Allocate` returns: the claim and the node that it is closed over.
pub record OnSuccess : Type 0 where
  pub uid : String
  pub node : String

-- A call of the callback, which panics if it is nil.
unfoldable pub call_on_success :
    Option OnSuccess → PerNodeAllocatedClaims → Outcome PerNodeAllocatedClaims
call_on_success none p = panic nil_dereference
call_on_success (some f) p = do
  q ← Pending.remove_util_other_nodes p f.uid f.node
  ok (Pending.remove q f.uid)

-- The record with a claim put into its map, which may be nil.
unfoldable pub put_claim :
    String → AllocatedCpuset → NodeAllocationState → Outcome NodeAllocationState
put_claim uid allocation crd = do
  claims ← assign uid allocation crd.spec.allocated_claims
  ok (record crd { spec = record crd.spec { allocated_claims = claims } })

-- The end of `Allocate`, and of the visitor of `UnsuitableNode`: the claim is put into the record,
-- and its load added.
unfoldable pub charge_claim :
    String → AllocatedCpuset → NodeAllocationState → Outcome NodeAllocationState
unfolding put_claim
charge_claim uid allocation crd = do
  crd' ← put_claim uid allocation crd
  set_utilisation crd' allocation uid

-- `Allocate`. Of a claim that is allocated already the log line prints the CPUs.
unfoldable pub allocate :
    PerNodeAllocatedClaims
    → NodeAllocationState
    → ResourceClaim
    → String
    → Outcome (NodeAllocationState × Option OnSuccess)
allocate p crd claim node =
    if not (Pending.exists p claim.uid node)
    then err (failed no_allocation_generated)
    else elim (lookup claim.uid (entries crd.spec.allocated_claims))
        as (λ _. Outcome (NodeAllocationState × Option OnSuccess)) [
          | some allocated ↦ do rt ← deref allocated.rt_cpu; ok (crd, none)
          | none ↦ do
            crd' ← charge_claim claim.uid (Pending.get p claim.uid node) crd
            ok (crd', some (record { uid = claim.uid; node = node }))
        ]

-- `Deallocate`
unfoldable pub deallocate : PerNodeAllocatedClaims → ResourceClaim → Outcome PerNodeAllocatedClaims
deallocate p claim = do q ← Pending.remove_util p claim.uid; ok (Pending.remove q claim.uid)

-- What the visitor of `UnsuitableNode` changes: the fetched record and the pending allocations.
pub record Visited : Type 0 where
  pub crd : NodeAllocationState
  pub pending : PerNodeAllocatedClaims

unfoldable pub visit_pending :
    String → AllocatedCpuset → AllocatedUtilset → Visited → Outcome Visited
visit_pending uid allocation utilisation s =
    elim (lookup uid (entries s.crd.spec.allocated_claims)) as (λ _. Outcome Visited) [
      | some _ ↦ ok (record s { pending = Pending.remove s.pending uid })
      | none ↦ do crd ← charge_claim uid allocation s.crd; ok (record s { crd = crd })
    ]

-- `for … { util[id] = util[id].Util + claimUtil }`
unfoldable pub charge_cpus : ℤ → List AllocatedCpu → MappedUtil → MappedUtil
charge_cpus used [] util = util
charge_cpus used (cpu ∷ cpus) util =
    charge_cpus used cpus
      (insert (itoa cpu.id) (record { util = add_int (util_at (itoa cpu.id) util) used }) util)

-- The variables of the last loop of `UnsuitableNode`; `stopped` if it has returned.
pub record Placing : Type 0 where
  pub pending : PerNodeAllocatedClaims
  pub util : MappedUtil
  pub stopped : Bool

unfoldable pub place_new :
    String → Pod → String → RtClaimParametersSpec → List AllocatedCpu → Placing → Outcome Placing
place_new node pod uid params devices s =
    if not (eqb_ℤ params.count (pos (length devices)))
    then ok (record s { stopped = Bool.true })
    else do
      used ← claim_util params.runtime params.period
      let allocated : AllocatedCpuset = record {
        rt_cpu = some (record { cpuset = devices; cgroup_uid = pod.uid });
      }
      ok (record s {
        pending = Pending.set s.pending uid node allocated;
        util = charge_cpus used devices s.util;
      })

unfoldable pub place_claim :
    String
    → Pod
    → NodeAllocationState
    → GoMap String (List AllocatedCpu)
    → ClaimAllocation
    → Placing
    → Outcome Placing
unfolding claim_params
place_claim node pod crd allocated ca s =
    elim (lookup ca.claim.uid (entries crd.spec.allocated_claims)) as (λ _. Outcome Placing) [
      | some _ ↦ ok s
      | none ↦ do
        params ← claim_params ca
        place_new node pod ca.claim.uid params (entries (lookup ca.claim.uid allocated)) s
    ]

unfoldable pub place_claims :
    String
    → Pod
    → NodeAllocationState
    → GoMap String (List AllocatedCpu)
    → List ClaimAllocation
    → Placing
    → Outcome Placing
place_claims node pod crd allocated [] s = ok s
place_claims node pod crd allocated (ca ∷ cas) s = place_claim node pod crd allocated ca s >>= λ s'.
    let rest = place_claims node pod crd allocated cas s' in if s'.stopped then ok s' else rest

-- `for _, ca := range allcas { ca.UnsuitableNodes = append(ca.UnsuitableNodes, node) }`
unfoldable pub mark_unsuitable : String → List ClaimAllocation → List ClaimAllocation
mark_unsuitable node allcas =
    map
      (λ (ca : ClaimAllocation). record ca { unsuitable_nodes = ca.unsuitable_nodes ++ node ∷ [] })
      allcas

abbrev allocated_of : Option Proposal → GoMap String (List AllocatedCpu)
allocated_of none = []
allocated_of (some s) = s.allocated

-- The end of `UnsuitableNode`, by the way in which its last loop ended.
unfoldable pub finish_placing :
    String → List ClaimAllocation → Placing → PerNodeAllocatedClaims × List ClaimAllocation
unfolding mark_unsuitable
finish_placing node allcas s =
    if s.stopped
    then (s.pending, mark_unsuitable node allcas)
    else (Pending.set_util s.pending node (record { cpus = some s.util }), allcas)

-- `UnsuitableNode`, which always returns nil. It changes the pending allocations and, for a node
-- that does not fit, the nodes that all claims of the pod are unsuitable for.
unfoldable pub unsuitable_node :
    RangeOrder
    → PerNodeAllocatedClaims
    → NodeAllocationState
    → Pod
    → List ClaimAllocation
    → List ClaimAllocation
    → String
    → Outcome (PerNodeAllocatedClaims × List ClaimAllocation)
unsuitable_node range p crd pod rtcas allcas node = do
  v ←
      Pending.visit_node (λ (s : Visited). s.pending) node visit_pending
        (record { crd = crd; pending = p })
  proposal ← propose range v.crd rtcas
  let util = copy_utils (entries v.crd.spec.allocated_util_to_cpu.cpus) []
  s ←
      place_claims node pod v.crd (allocated_of proposal) rtcas
        (record { pending = v.pending; util = util; stopped = Bool.false })
  ok (finish_placing node allcas s)
