-- ===== src/Controller/Server.antt =====
-- driver.go and client.go over the API server: what the server shows of the nodes, and that the
-- pending allocations of every node fit on top of it.
pub mod Kept
pub mod Calls
pub mod Allocating
pub mod Returning
pub mod Judging
pub mod Run
use dra_rt_driver.Prelude.{◌≡◌, String, string_key, Option, some}
use dra_rt_driver.Prelude.GoMap.{lookup, entries}
use dra_rt_driver.Prelude.Outcome.{ok}
use dra_rt_driver.Nas.{AllocatedCpuset, MappedUtil, NodeAllocationState}
use dra_rt_driver.Pending.{PerNodeAllocatedClaims}
use dra_rt_driver.Rt.Covered.{IsCovered}
use dra_rt_driver.Controller.{World}
use dra_rt_driver.Controller.Record.{make_claims, make_utils}

-- A stored record: the driver can make the maps it lacks, the node is covered when they are made, and
-- a record that holds a claim has its utilisations.
pub record IsKept (node : String) (crd : NodeAllocationState) (p : PerNodeAllocatedClaims)
    : Type 0 where
  pub made : NodeAllocationState
  pub is_made : make_utils (make_claims crd) ≡ ok made
  pub covered : IsCovered node made p
  pub charged :
      (uid : String) (a : AllocatedCpuset)
      → lookup uid (entries crd.spec.allocated_claims) ≡ some a
      → (m : MappedUtil) × (crd.spec.allocated_util_to_cpu.cpus ≡ some m)

-- Every record that the server shows is kept.
abbrev pub AllKept : {S : Type 0} → (S → String → Option NodeAllocationState) → World S → Type 0
AllKept shown w =
    (node : String) (crd : NodeAllocationState)
    → shown w.server node ≡ some crd
    → IsKept node crd w.pending
