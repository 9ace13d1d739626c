-- ===== src/Controller.antt =====
-- cmd/dra-rt-controller/driver.go: the operations that the DRA controller calls. The state is the
-- server behind the clientset and the pending allocations; the lock of a node is held over a whole
-- call, so calls on one node follow one another. Log lines are left out.
pub mod Record
pub mod Made
pub mod Nodes
pub mod Deallocation
pub mod Allocation
pub mod Repeating
pub mod Returning
pub mod Parameters
pub mod Starting
pub mod Unique
pub mod Giving
pub mod History
pub mod Server
use dra_rt_driver.Prelude.{
  String, string_key, ◌==◌, if◌then◌else◌, Bool, true, false, not, Option, none, some, List, [],
  ◌∷◌, ◌++◌, map,
}
use mathlib.Core.Option
use dra_rt_driver.Prelude.Int.{ℤ, pos, ltb_ℤ, sub_int}
use dra_rt_driver.Prelude.Decimal.{itoa}
use dra_rt_driver.Prelude.GoMap.{GoMap, lookup, insert, delete, entries}
use dra_rt_driver.Prelude.Outcome
use dra_rt_driver.Prelude.Outcome.{
  Outcome, ok, err, panic, Error, failed, within, deref, index_out_of_range, wrap_error,
  incorrect_api_group, getting_class_parameters, getting_claim_parameters,
  validating_claim_parameters, unknown_claim_kind, immediate_allocation, retrieving_crd, crd_status,
  unable_to_allocate, updating_crd, retrieving_latest_crd, unknown_device_type,
  unable_to_deallocate, processing_node, processing_kind,
}
use dra_rt_driver.Prelude.Exec.{Exec, pure, lift, fail, gets, on_error, ◌>>=◌, ◌>>◌}
use dra_rt_driver.Nas.{
  AllocatableCpuset, AllocatedCpu, AllocatedCpuset, AllocatedUtil, MappedUtil, NodeAllocationState,
  NodeAllocationStateSpec, new_node_allocation_state, allocated_type, rt_cpu_type, status_ready,
  util_at, claim_util, with_cpus,
}
use dra_rt_driver.Params.{
  RtClaimParametersSpec, DeviceClassParametersSpec, group_name, rt_claim_parameters_kind,
  default_device_class_parameters_spec, default_rt_claim_parameters_spec,
}
use dra_rt_driver.Resource.{
  ResourceClaim, ResourceClass, Pod, ClaimParameters, rt_claim, other_parameters, ClaimAllocation,
  AllocationResult, NodeSelectorTerm, NodeSelectorRequirement,
}
use dra_rt_driver.Pending.{PerNodeAllocatedClaims, clamp_zero}
use dra_rt_driver.Client
use dra_rt_driver.Client.{NasApi}
use dra_rt_driver.Rt
use dra_rt_driver.Rt.{OnSuccess}
use dra_rt_driver.Rt.Propose.{RangeOrder}
use Record.{
  build_allocation_result, get_selected_node, unique_loop, unique, make_claims, initial_utils,
  make_utils, return_cpu, return_cpus, without_claim, devices_of,
}

-- The clientset: the NodeAllocationStates, and the two kinds of parameters by name.
pub record Clientset (S : Type 0) : Type 0 where
  pub nas : NasApi S
  pub device_class_parameters : String → S → Outcome DeviceClassParametersSpec × S
  pub rt_claim_parameters : String → String → S → Outcome RtClaimParametersSpec × S

pub record World (S : Type 0) : Type 0 where
  pub server : S
  pub pending : PerNodeAllocatedClaims

-- A call that changes the server only, and one that changes the pending allocations only.
abbrev pub on_server : {S A : Type 0} → Exec S A → Exec (World S) A
on_server m w = ((m w.server).0, record w { server = (m w.server).1 })

abbrev keep_pending :
    {S : Type 0} → Outcome PerNodeAllocatedClaims → World S → Outcome (Unit {0}) × World S
keep_pending (ok p) w = (ok tt, record w { pending = p })
keep_pending (err e) w = (err e, w)
keep_pending (panic q) w = (panic q, w)

abbrev pub on_pending :
    {S : Type 0}
    → (PerNodeAllocatedClaims → Outcome PerNodeAllocatedClaims)
    → Exec (World S) (Unit {0})
on_pending f w = keep_pending (f w.pending) w

module _ {S : Type 0} (clients : Clientset S) (namespace : String) where
  abbrev new_crd : String → NodeAllocationState
  new_crd node =
      new_node_allocation_state (record { name = node; namespace = namespace; owner = none })

  -- `GetClassParameters`
  unfoldable pub get_class_parameters : ResourceClass → Exec (World S) DeviceClassParametersSpec
  get_class_parameters class = elim class.parameters_ref [
    | none ↦ pure default_device_class_parameters_spec
    | some r ↦
        if not (r.api_group == group_name)
        then fail (failed incorrect_api_group)
        else on_error getting_class_parameters (on_server (clients.device_class_parameters r.name))
  ]

  -- `GetClaimParameters`
  unfoldable pub get_claim_parameters : ResourceClaim → Exec (World S) RtClaimParametersSpec
  get_claim_parameters claim = elim claim.parameters_ref [
    | none ↦ pure default_rt_claim_parameters_spec
    | some r ↦
        if not (r.api_group == group_name)
        then fail (failed incorrect_api_group)
        else if r.kind == rt_claim_parameters_kind
        then (do
          gc ←
              on_error getting_claim_parameters
                (on_server (clients.rt_claim_parameters claim.namespace r.name))
          on_error validating_claim_parameters (lift (Rt.validate_claim_parameters gc))
          pure gc)
        else fail (failed unknown_claim_kind)
  ]

  -- The switch of `allocate` on the type of the claim's parameters.
  unfoldable pub allocate_parameters :
      NodeAllocationState
      → ResourceClaim
      → ClaimParameters
      → String
      → Exec (World S) (NodeAllocationState × Option OnSuccess)
  allocate_parameters crd claim (rt_claim params) node =
      on_error unable_to_allocate (λ w. (Rt.allocate w.pending crd claim node, w))
  allocate_parameters crd claim other_parameters node =
      fail (within unable_to_allocate (failed unknown_claim_kind))

  -- `allocate` from the point where the record has both its maps.
  unfoldable pub allocate_on :
      NodeAllocationState
      → ResourceClaim
      → ClaimParameters
      → String
      → Exec (World S) AllocationResult
  unfolding allocate_parameters
  allocate_on crd claim params node =
      elim (lookup claim.uid (entries crd.spec.allocated_claims))
        as (λ _. Exec (World S) AllocationResult) [
          | some _ ↦ pure (build_allocation_result node true)
          | none ↦ do
            r ← allocate_parameters crd claim params node
            on_error updating_crd (on_server (Client.update clients.nas r.0 r.0.spec))
            on_pending (Rt.call_on_success r.1)
            pure (build_allocation_result node true)
        ]

  -- `allocate`
  unfoldable pub allocate :
      ResourceClaim → ClaimParameters → String → Exec (World S) AllocationResult
  allocate claim params node = if node == "" then fail (failed immediate_allocation) else do
    crd ← on_error retrieving_crd (on_server (Client.get clients.nas (new_crd node)))
    if not (crd.status == status_ready)
        then fail (failed crd_status)
        else do crd' ← lift (make_utils (make_claims crd)); allocate_on crd' claim params node

  abbrev result_of :
      ClaimAllocation → Outcome AllocationResult × World S → Outcome ClaimAllocation × World S
  result_of ca (ok a, w) = (ok (record ca { allocation = some a; error = none }), w)
  result_of ca (err e, w) = (ok (record ca { allocation = none; error = some e }), w)
  result_of ca (panic p, w) = (panic p, w)

  -- `Allocate`: each claim carries its result or its error.
  unfoldable pub allocate_all :
      List ClaimAllocation → String → Exec (World S) (List ClaimAllocation)
  allocate_all [] node = pure []
  allocate_all (ca ∷ cas) node = do
    ca' ← λ w. result_of ca (allocate ca.claim ca.claim_parameters node w)
    cas' ← allocate_all cas node
    pure (ca' ∷ cas')

  -- The switch of `Deallocate` on the type of the claim's devices.
  unfoldable pub deallocate_devices : ResourceClaim → AllocatedCpuset → Exec (World S) (Unit {0})
  deallocate_devices claim devices =
      if allocated_type devices == rt_cpu_type
      then on_error unable_to_deallocate (on_pending (λ p. Rt.deallocate p claim))
      else fail (within unable_to_deallocate (failed unknown_device_type))

  -- `Deallocate` from the point where the latest record is read.
  unfoldable pub deallocate_on :
      NodeAllocationState → NodeAllocationState → ResourceClaim → Exec (World S) (Unit {0})
  unfolding deallocate_devices without_claim
  deallocate_on first_crd crd claim = do
    deallocate_devices claim (devices_of claim crd)
    rt ← lift (deref (devices_of claim crd).rt_cpu)
    crd' ← lift (without_claim claim rt.cpuset crd)
    on_error updating_crd (on_server (Client.update clients.nas first_crd crd'.spec))
    pure tt

  -- The forced read of the latest version.
  unfoldable pub latest : NodeAllocationState → String → Exec (World S) NodeAllocationState
  latest crd node =
      if (new_crd node).meta.resource_version == crd.meta.resource_version
      then pure crd
      else on_error retrieving_latest_crd (on_server (Client.get clients.nas (new_crd node)))

  -- `Deallocate` from the point where the node's record is read.
  unfoldable pub deallocate_read :
      NodeAllocationState → String → ResourceClaim → Exec (World S) (Unit {0})
  unfolding latest deallocate_on
  deallocate_read crd node claim =
      elim (lookup claim.uid (entries crd.spec.allocated_claims))
        as (λ _. Exec (World S) (Unit {0})) [
          | none ↦ pure tt
          | some _ ↦ do newest ← latest crd node; deallocate_on crd newest claim
        ]

  -- `Deallocate` of a claim that has a node.
  unfoldable pub deallocate_from : String → ResourceClaim → Exec (World S) (Unit {0})
  unfolding deallocate_read
  deallocate_from node claim = do
    crd ← on_error retrieving_crd (on_server (Client.get clients.nas (new_crd node)))
    deallocate_read crd node claim

  -- `Deallocate`
  unfoldable pub deallocate : ResourceClaim → Exec (World S) (Unit {0})
  deallocate claim = do
    node ← lift (get_selected_node claim)
    if node == "" then pure tt else deallocate_from node claim
