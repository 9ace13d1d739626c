-- ===== src/Nas.antt =====
-- api/example.com/resource/rt/nas/v1alpha1/nas.go and api.go: the NodeAllocationState resource, the
-- record through which controller and kubelet plugin share a node's CPUs. A pointer that may be nil
-- and a map that may be nil are options; the mutex of the record is taken for one call at a time.
pub mod Load
pub mod Utilisation
use dra_rt_driver.Prelude.{
  String, string_key, ◌==◌, if◌then◌else◌, Option, none, some, List, [], ◌∷◌,
}
use dra_rt_driver.Prelude.Int.{ℤ, pos, eqb_ℤ, add_int, mul_int}
use dra_rt_driver.Prelude.Decimal.{itoa}
use dra_rt_driver.Prelude.GoMap.{GoMap, lookup, assign, entries}
use dra_rt_driver.Prelude.Outcome.{Outcome, ok, div_int, ◌>>=◌}

abbrev pub rt_cpu_type : String
rt_cpu_type = "rtcpu"

abbrev pub unknown_device_type : String
unknown_device_type = "unknown"

abbrev pub status_ready : String
status_ready = "Ready"

abbrev pub status_not_ready : String
status_not_ready = "NotReady"

pub record AllocatableCpu : Type 0 where
  pub id : ℤ
  pub util : ℤ

pub record AllocatableCpuset : Type 0 where
  pub rt_cpu : Option AllocatableCpu

pub record AllocatedCpu : Type 0 where
  pub id : ℤ
  pub runtime : ℤ
  pub period : ℤ

pub record AllocatedRtCpu : Type 0 where
  pub cpuset : List AllocatedCpu
  pub cgroup_uid : String

pub record AllocatedCpuset : Type 0 where
  pub rt_cpu : Option AllocatedRtCpu

pub record PreparedCpu : Type 0 where
  pub id : ℤ
  pub util : ℤ

pub record PreparedRtCpu : Type 0 where
  pub cpuset : List PreparedCpu

pub record PreparedCpuset : Type 0 where
  pub rt_cpu : Option PreparedRtCpu

pub record AllocatedUtil : Type 0 where
  pub util : ℤ

abbrev pub MappedUtil : Type 0
MappedUtil = GoMap String AllocatedUtil

pub record AllocatedUtilset : Type 0 where
  pub cpus : Option MappedUtil

pub record NodeAllocationStateSpec : Type 0 where
  pub allocatable_cpuset : List AllocatableCpuset
  pub allocated_claims : Option (GoMap String AllocatedCpuset)
  pub prepared_claims : Option (GoMap String PreparedCpuset)
  pub allocated_util_to_cpu : AllocatedUtilset

-- The parts of the metadata that the driver reads.
pub record ObjectMeta : Type 0 where
  pub name : String
  pub namespace : String
  pub resource_version : String
  pub owners : List String

pub record NodeAllocationState : Type 0 where
  pub meta : ObjectMeta
  pub spec : NodeAllocationStateSpec
  pub status : String

-- The three `Type` methods.
unfoldable pub allocatable_type : AllocatableCpuset → String
allocatable_type d = elim d.rt_cpu [ none ↦ unknown_device_type | some _ ↦ rt_cpu_type ]

unfoldable pub allocated_type : AllocatedCpuset → String
allocated_type r = elim r.rt_cpu [ none ↦ unknown_device_type | some _ ↦ rt_cpu_type ]

unfoldable pub prepared_type : PreparedCpuset → String
prepared_type d = elim d.rt_cpu [ none ↦ unknown_device_type | some _ ↦ rt_cpu_type ]

pub record NodeAllocationStateConfig : Type 0 where
  pub name : String
  pub namespace : String
  pub owner : Option String

abbrev pub empty_spec : NodeAllocationStateSpec
empty_spec = record {
  allocatable_cpuset = [];
  allocated_claims = none;
  prepared_claims = none;
  allocated_util_to_cpu = record { cpus = none };
}

-- `NewNodeAllocationState`
unfoldable pub new_node_allocation_state : NodeAllocationStateConfig → NodeAllocationState
new_node_allocation_state config = record {
  meta = record {
    name = config.name;
    namespace = config.namespace;
    resource_version = "";
    owners = elim config.owner [ none ↦ [] | some o ↦ o ∷ [] ];
  };
  spec = empty_spec;
  status = "";
}

-- `SetAllocations`
unfoldable pub set_allocations :
    NodeAllocationState → Option (GoMap String AllocatedCpuset) → NodeAllocationState
set_allocations n allocations = record n { spec = record n.spec { allocated_claims = allocations } }

-- `m[key].Util`, where a missing entry reads as the zero value.
unfoldable pub util_at : String → MappedUtil → ℤ
util_at k m = elim (lookup k m) [ none ↦ pos 0 | some u ↦ u.util ]

-- `runtime * 1000 / period`, the share of one CPU in thousandths.
unfoldable pub claim_util : ℤ → ℤ → Outcome ℤ
claim_util runtime period = div_int (mul_int runtime (pos 1000)) period

-- One round of the loop of `SetUtilisation`.
unfoldable pub add_cpu : AllocatedCpu → Option MappedUtil → Outcome (Option MappedUtil)
add_cpu cpu m = if eqb_ℤ cpu.period (pos 0) then ok m else do
  util ← claim_util cpu.runtime cpu.period
  let key = itoa cpu.id
  assign key (record { util = add_int util (util_at key (entries m)) }) m

unfoldable pub add_cpus : List AllocatedCpu → Option MappedUtil → Outcome (Option MappedUtil)
add_cpus [] m = ok m
add_cpus (cpu ∷ rest) m = add_cpu cpu m >>= add_cpus rest

-- The spec with another map of utilisations.
abbrev pub with_cpus : NodeAllocationState → Option MappedUtil → NodeAllocationState
with_cpus n m = record n { spec = record n.spec { allocated_util_to_cpu = record { cpus = m } } }

add_claim : NodeAllocationState → Option AllocatedRtCpu → Outcome NodeAllocationState
add_claim n none = ok n
add_claim n (some claim) = do
  m ← add_cpus claim.cpuset n.spec.allocated_util_to_cpu.cpus
  ok (with_cpus n m)

-- `SetUtilisation`: the argument `allocations` is not used; the claim is looked up by its UID.
unfoldable pub set_utilisation :
    NodeAllocationState → AllocatedCpuset → String → Outcome NodeAllocationState
unfolding add_claim
set_utilisation n allocations uid = elim (lookup uid (entries n.spec.allocated_claims)) [
  | none ↦ ok n
  | some claim ↦ add_claim n claim.rt_cpu
]
