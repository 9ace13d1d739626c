-- ===== src/Controller/History.antt =====
-- rt.go, driver.go and allocations.go: the records of the nodes and the pending allocations, step by
-- step. The claims that a step is about, the node and the answers are those of the environment.
pub mod Kept
pub mod Limit
use dra_rt_driver.Prelude.{
  ℕ, ◌+◌, ◌<◌, ◌≡◌, ◌≢◌, refl, sym, ap, ◌∙◌, subst, String, string_key, ◌==◌, if◌then◌else◌, Bool,
  true, false, Bool-cases, Option-cases, inl, inr, Option, none, some, List, [], ◌∷◌, All, arith,
  not,
}
use mathlib.Core.Bool.{false≢true}
use dra_rt_driver.Prelude.Int.{pos}
use dra_rt_driver.Prelude.GoMap.{GoMap, lookup, entries}
use dra_rt_driver.Prelude.Outcome.{
  Outcome, ok, err, failed, no_allocation_generated, bind-ok, ok_injective, deref,
}
use dra_rt_driver.Nas.{AllocatedCpuset, AllocatedRtCpu, MappedUtil, NodeAllocationState, util_at}
use dra_rt_driver.Pending
use dra_rt_driver.Pending.{PerNodeAllocatedClaims, new_per_node_allocated_claims, nodes_of, is_some}
use dra_rt_driver.Pending.View.{pending_at, exists-eq-is_some, get-eq-or_zero}
use dra_rt_driver.Pending.Unchanged.{remove_util-allocations, remove_util_other_nodes-allocations}
use dra_rt_driver.Resource.{ClaimAllocation, Pod, ResourceClaim}
use dra_rt_driver.Rt
use dra_rt_driver.Rt.{OnSuccess, call_on_success, unsuitable_node, charge_claim}
use dra_rt_driver.Rt.Propose.{RangeOrder}
use dra_rt_driver.Rt.Pods.{IsServed}
use dra_rt_driver.Rt.Within.{IsWithin, IsSafeCpu, util_at-IsWithin}
use dra_rt_driver.Rt.Commitment.{pending_load}
use dra_rt_driver.Rt.Covered.{IsSafe, IsCovered}
use dra_rt_driver.Rt.Charging.{charge_claim-Charges}
use dra_rt_driver.Rt.Reserving.{HasDistinctClaims}
use dra_rt_driver.Rt.Upkeep.{unsuitable_node-IsCovered}
use dra_rt_driver.Rt.Elsewhere.{
  Shrinks, Shrinks-IsCovered, remove-Shrinks, same-Shrinks, unsuitable_node-Shrinks,
}
use dra_rt_driver.Controller.Record.{without_claim}
use dra_rt_driver.Controller.Giving.{without_claim-IsCovered}

-- The record of each node as the driver reads it, its maps made, and what the controller keeps.
pub record Cluster : Type 0 where
  pub records : String → NodeAllocationState
  pub pending : PerNodeAllocatedClaims

abbrev pub write_record : String → NodeAllocationState → Cluster → Cluster
write_record node crd s = record s { records = λ n. if node == n then crd else s.records n }

-- What the controller does at one moment. A write that the server refuses leaves the record as it
-- was, which is the step without the write; a callback or a release may come at any time.
pub data Step (s t : Cluster) : Type 1 where
  judges :
      (range : RangeOrder) (node : String) (pod : Pod) (rtcas allcas : List ClaimAllocation)
      (r : PerNodeAllocatedClaims × List ClaimAllocation)
      → All IsServed rtcas
      → HasDistinctClaims rtcas
      → unsuitable_node range s.pending (s.records node) pod rtcas allcas node ≡ ok r
      → t ≡ record s { pending = r.0 }
      → Step s t
  allocates :
      (claim : ResourceClaim) (node : String) (crd : NodeAllocationState) (f : Option OnSuccess)
      → Rt.allocate s.pending (s.records node) claim node ≡ ok (crd, f)
      → t ≡ write_record node crd s
      → Step s t
  confirms :
      (f : Option OnSuccess) (p : PerNodeAllocatedClaims)
      → call_on_success f s.pending ≡ ok p
      → t ≡ record s { pending = p }
      → Step s t
  releases :
      (claim : ResourceClaim) (p : PerNodeAllocatedClaims)
      → Rt.deallocate s.pending claim ≡ ok p
      → t ≡ record s { pending = p }
      → Step s t
  returns :
      (claim : ResourceClaim) (node : String) (rt : AllocatedRtCpu) (p : PerNodeAllocatedClaims)
      (crd : NodeAllocationState)
      → lookup claim.uid (entries (s.records node).spec.allocated_claims)
        ≡ some (record { rt_cpu = some rt })
      → Rt.deallocate s.pending claim ≡ ok p
      → without_claim claim rt.cpuset (s.records node) ≡ ok crd
      → t ≡ write_record node crd (record s { pending = p })
      → Step s t

pub data Reach (s : Cluster) : Cluster → Type 1 where
  start : Reach s s
  later : {t u : Cluster} → Reach s t → Step t u → Reach s u

abbrev pub AllCovered : Cluster → Type 0
AllCovered s = (n : String) → IsCovered n (s.records n) s.pending
