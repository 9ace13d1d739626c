-- ===== src/Controller/Record.antt =====
-- driver.go: the functions on a record and on a claim that the operations of the controller use.
use dra_rt_driver.Prelude.{String, string_key, Bool, Option, none, some, List, [], ◌∷◌, ◌++◌}
use mathlib.Core.Option
use dra_rt_driver.Prelude.Int.{sub_int}
use dra_rt_driver.Prelude.Decimal.{itoa}
use dra_rt_driver.Prelude.GoMap.{GoMap, lookup, insert, delete, entries}
use dra_rt_driver.Prelude.Outcome
use dra_rt_driver.Prelude.Outcome.{
  Outcome, ok, err, panic, Error, failed, within, deref, index_out_of_range, wrap_error,
  incorrect_api_group, getting_class_parameters, getting_claim_parameters,
  validating_claim_parameters, unknown_claim_kind, immediate_allocation, retrieving_crd, crd_status,
  unable_to_allocate, updating_crd, retrieving_latest_crd, unknown_device_type,
  unable_to_deallocate, processing_node, processing_kind,
}
use dra_rt_driver.Nas.{
  AllocatableCpuset, AllocatedCpu, AllocatedCpuset, MappedUtil, NodeAllocationState, claim_util,
  with_cpus,
}
use dra_rt_driver.Resource.{ResourceClaim, AllocationResult, NodeSelectorTerm}
use dra_rt_driver.Pending.{clamp_zero}

-- `buildAllocationResult`
unfoldable pub build_allocation_result : String → Bool → AllocationResult
build_allocation_result node shareable = record {
  available_on_nodes = some (
      record {
        match_fields = record { key = "metadata.name"; operator = "In"; values = node ∷ [] } ∷ [];
      }
      ∷ []);
  shareable = shareable;
}

abbrev first {ℓ} : {A : Type ℓ} → List A → Outcome A
first [] = panic index_out_of_range
first (x ∷ xs) = ok x

abbrev first_node : List NodeSelectorTerm → Outcome String
first_node terms =
    Outcome.◌>>=◌ (first terms) λ t. Outcome.◌>>=◌ (first t.match_fields) λ r. first r.values

abbrev node_of : Option (List NodeSelectorTerm) → Outcome String
node_of none = ok ""
node_of (some terms) = first_node terms

abbrev selected : Option AllocationResult → Outcome String
selected none = ok ""
selected (some a) = node_of a.available_on_nodes

-- `getSelectedNode`
unfoldable pub get_selected_node : ResourceClaim → Outcome String
get_selected_node claim = selected claim.allocation

-- `unique`: `set` holds the texts that were met.
unfoldable pub unique_loop : GoMap String (Unit {0}) → List String → List String → List String
unique_loop set news [] = news
unique_loop set news (str ∷ s) = elim (lookup str set) as (λ _. List String) [
  | some _ ↦ unique_loop set news s
  | none ↦ unique_loop (insert str tt set) (news ++ str ∷ []) s
]

unfoldable pub unique : List String → List String
unique s = unique_loop [] [] s

-- `crd.Spec.AllocatedClaims = make(…)` if it is nil.
unfoldable pub make_claims : NodeAllocationState → NodeAllocationState
make_claims crd = elim crd.spec.allocated_claims [
  | some _ ↦ crd
  | none ↦ record crd { spec = record crd.spec { allocated_claims = some [] } }
]

-- The utilisation that each allocatable CPU starts from.
unfoldable pub initial_utils : List AllocatableCpuset → MappedUtil → Outcome MappedUtil
initial_utils [] utils = ok utils
initial_utils (cpu ∷ rest) utils =
    Outcome.◌>>=◌ (deref cpu.rt_cpu)
      λ c. initial_utils rest (insert (itoa c.id) (record { util = c.util }) utils)

-- `crd.Spec.AllocatedUtilToCpu` from the allocatable CPUs, if its map is nil.
unfoldable pub make_utils : NodeAllocationState → Outcome NodeAllocationState
make_utils crd = elim crd.spec.allocated_util_to_cpu.cpus [
  | some _ ↦ ok crd
  | none ↦
      Outcome.◌>>=◌ (initial_utils crd.spec.allocatable_cpuset [])
        λ utils. ok (with_cpus crd (some utils))
]

-- One round of the loop of `Deallocate` over the CPUs of the claim.
unfoldable pub return_cpu : AllocatedCpu → MappedUtil → Outcome MappedUtil
return_cpu cpu utils = elim (lookup (itoa cpu.id) utils) [
  | none ↦ ok utils
  | some entry ↦ Outcome.◌>>=◌ (claim_util cpu.runtime cpu.period) λ used.
      ok (insert (itoa cpu.id) (record { util = clamp_zero (sub_int entry.util used) }) utils)
]

unfoldable pub return_cpus : List AllocatedCpu → MappedUtil → Outcome MappedUtil
return_cpus [] utils = ok utils
return_cpus (cpu ∷ cpus) utils = Outcome.◌>>=◌ (return_cpu cpu utils) (return_cpus cpus)

-- The record after the CPUs are given back and the claim is deleted from its map.
unfoldable pub without_claim :
    ResourceClaim → List AllocatedCpu → NodeAllocationState → Outcome NodeAllocationState
without_claim claim cpus crd =
    Outcome.◌>>=◌ (return_cpus cpus (entries crd.spec.allocated_util_to_cpu.cpus)) λ utils.
      let crd' = with_cpus crd (some utils) in
      ok (record crd' {
        spec = record crd'.spec {
          allocated_claims = Option.map (delete claim.uid) crd.spec.allocated_claims;
        };
      })

abbrev pub devices_of : ResourceClaim → NodeAllocationState → AllocatedCpuset
devices_of claim crd = elim (lookup claim.uid (entries crd.spec.allocated_claims)) [
  | none ↦ record { rt_cpu = none }
  | some devices ↦ devices
]
