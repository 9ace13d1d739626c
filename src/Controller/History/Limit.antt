-- ===== src/Controller/History/Limit.antt =====
-- rt.go, driver.go and allocations.go: the limit of 950 thousandths over the life of the controller.
use dra_rt_driver.Prelude.{ℕ, ◌+◌, ◌<◌, ◌≡◌, refl, String, string_key, some, arith}
use dra_rt_driver.Prelude.Int.{pos}
use dra_rt_driver.Prelude.GoMap.{GoMap, lookup, entries}
use dra_rt_driver.Nas.{AllocatedCpuset, MappedUtil, NodeAllocationState, util_at}
use dra_rt_driver.Pending.{PerNodeAllocatedClaims, new_per_node_allocated_claims}
use dra_rt_driver.Pending.View.{pending_at}
use dra_rt_driver.Rt.Within.{IsWithin, util_at-IsWithin}
use dra_rt_driver.Rt.Commitment.{pending_load}
use dra_rt_driver.Rt.Covered.{IsSafe, IsCovered}
use dra_rt_driver.Controller.History.{Cluster, Reach}
use dra_rt_driver.Controller.History.Kept.{Reach-AllCovered}

-- The record of a node at the start: its maps made, no CPU at 950 thousandths, safe allocations.
pub record IsUpright (crd : NodeAllocationState) : Type 0 where
  pub claims : GoMap String AllocatedCpuset
  pub is_claims : crd.spec.allocated_claims ≡ some claims
  pub utils : MappedUtil
  pub is_utils : crd.spec.allocated_util_to_cpu.cpus ≡ some utils
  pub within : IsWithin utils
  pub held : (uid : String) (a : AllocatedCpuset) → lookup uid claims ≡ some a → IsSafe a

pub IsUpright-IsCovered :
    (n : String) (crd : NodeAllocationState)
    → IsUpright crd
    → IsCovered n crd new_per_node_allocated_claims
unfolding new_per_node_allocated_claims pending_load pending_at
IsUpright-IsCovered n crd u = record {
  claims = u.claims;
  is_claims = u.is_claims;
  utils = u.utils;
  is_utils = u.is_utils;
  within = u.within;
  bears = record {
    at = λ k. let (v, e, h) = util_at-IsWithin u.utils u.within k in (v, e, omega arith);
  };
  held = u.held;
  tidy = record { keys = tt; pending = λ uid a e. absurd (cc) };
}

-- The load that a node has promised of a CPU: what its record has in use, and what is pending on the
-- node for claims that the record does not hold.
pub record Promises (crd : NodeAllocationState) (p : PerNodeAllocatedClaims) (node cpu : String)
    (load : ℕ) : Type 0 where
  pub used : ℕ
  pub is_used : util_at cpu (entries crd.spec.allocated_util_to_cpu.cpus) ≡ pos used
  pub is_load :
      load ≡ used + pending_load cpu node (entries crd.spec.allocated_claims) p.allocations

pub IsCovered-below_limit :
    (node cpu : String) (crd : NodeAllocationState) (p : PerNodeAllocatedClaims)
    → IsCovered node crd p
    → (load : ℕ) × Promises crd p node cpu load × (load < 950)
IsCovered-below_limit node cpu crd p c =
    let (u, e, h) = c.bears.at cpu in
    (
      u + pending_load cpu node c.claims p.allocations,
      record { used = u; is_used = rw c.is_utils e; is_load = rw c.is_claims refl },
      h,
    )

-- A controller that starts with nothing pending, over records whose maps are made, whose claims are
-- sound and none of whose CPUs is at 950 thousandths: after any steps of judging nodes (for claims
-- with sound parameters, none of them twice in a call), allocating, calling back, releasing and
-- giving back claims, in any order, every CPU of every node has less than 950 thousandths promised,
-- counting what its record has in use and what is pending on the node for claims that it does not
-- hold yet.
pub promised_below_limit :
    (records : String → NodeAllocationState) (t : Cluster) (node cpu : String)
    → ((n : String) → IsUpright (records n))
    → Reach (record { records = records; pending = new_per_node_allocated_claims }) t
    → (load : ℕ) × Promises (t.records node) t.pending node cpu load × (load < 950)
promised_below_limit records t node cpu upright r =
    IsCovered-below_limit node cpu (t.records node) t.pending
      (Reach-AllCovered (λ n. IsUpright-IsCovered n (records n) (upright n)) r node)
