-- ===== src/Rt/Covered.antt =====
-- rt.go and allocations.go together: the pending allocations of a node fit on top of what its record
-- has in use.
use dra_rt_driver.Prelude.{ℕ, ◌≤◌, ◌≡◌, sym, ap, ◌∙◌, subst, String, string_key, some, All, arith}
use dra_rt_driver.Prelude.GoMap.{
  GoMap, lookup, entries, HasDistinctKeys, HasDistinctKeys-delete, lookup-delete,
}
use dra_rt_driver.Nas.{AllocatedCpuset, AllocatedRtCpu, MappedUtil, NodeAllocationState}
use dra_rt_driver.Pending
use dra_rt_driver.Pending.{PerNodeAllocatedClaims}
use dra_rt_driver.Pending.View.{pending_at}
use dra_rt_driver.Rt.Within.{IsWithin}
use dra_rt_driver.Rt.Commitment.{pending_load, pending_load-delete}
use dra_rt_driver.Rt.Within.{IsSafeCpu, Bears}

-- A real-time allocation of reservations with exact arithmetic.
pub record IsSafe (a : AllocatedCpuset) : Type 0 where
  pub rt : AllocatedRtCpu
  pub is_rt : a ≡ record { rt_cpu = some rt }
  pub safe : All IsSafeCpu rt.cpuset

-- What is known of the pending allocations on their own.
pub record IsTidy (node : String) (p : PerNodeAllocatedClaims) : Type 0 where
  pub keys : HasDistinctKeys p.allocations
  pub pending : (uid : String) (a : AllocatedCpuset) → pending_at p uid node ≡ some a → IsSafe a

-- The record of the node has both its maps; what it holds and what is pending on the node are safe
-- allocations; and each CPU stays below 950 thousandths when all that is pending is added to it.
pub record IsCovered (node : String) (crd : NodeAllocationState) (p : PerNodeAllocatedClaims)
    : Type 0 where
  pub claims : GoMap String AllocatedCpuset
  pub is_claims : crd.spec.allocated_claims ≡ some claims
  pub utils : MappedUtil
  pub is_utils : crd.spec.allocated_util_to_cpu.cpus ≡ some utils
  pub within : IsWithin utils
  pub bears : Bears (λ k. pending_load k node claims p.allocations) utils
  pub held : (uid : String) (a : AllocatedCpuset) → lookup uid claims ≡ some a → IsSafe a
  pub tidy : IsTidy node p

pub Bears-less :
    (f g : String → ℕ) (m : MappedUtil) → ((k : String) → g k ≤ f k) → Bears f m → Bears g m
Bears-less f g m h b = record {
  at = λ k. let (u, e, l) = b.at k in let s = h k in (u, e, omega arith);
}

-- Pending allocations that put no more on the node.
pub IsCovered-less :
    (node : String) (crd : NodeAllocationState) (p q : PerNodeAllocatedClaims)
    → IsTidy node q
    → ((held : GoMap String AllocatedCpuset) (k : String)
        → pending_load k node held q.allocations ≤ pending_load k node held p.allocations)
    → IsCovered node crd p
    → IsCovered node crd q
IsCovered-less node crd p q t h c = record {
  claims = c.claims;
  is_claims = c.is_claims;
  utils = c.utils;
  is_utils = c.is_utils;
  within = c.within;
  bears =
      Bears-less (λ k. pending_load k node c.claims p.allocations)
        (λ k. pending_load k node c.claims q.allocations) c.utils (h c.claims) c.bears;
  held = c.held;
  tidy = t;
}

pub remove-IsTidy :
    (node uid : String) (p : PerNodeAllocatedClaims)
    → IsTidy node p
    → IsTidy node (Pending.remove p uid)
unfolding Pending.remove pending_at
remove-IsTidy node uid p t = record {
  keys = HasDistinctKeys-delete uid p.allocations t.keys;
  pending = λ j a e. t.pending j a (ground (arith, lookup-delete uid j p.allocations));
}

pub remove-IsCovered :
    (node uid : String) (crd : NodeAllocationState) (p : PerNodeAllocatedClaims)
    → IsCovered node crd p
    → IsCovered node crd (Pending.remove p uid)
unfolding Pending.remove
remove-IsCovered node uid crd p c =
    IsCovered-less node crd p (Pending.remove p uid) (remove-IsTidy node uid p c.tidy)
      (λ held k. pending_load-delete k node held uid p.allocations) c

pub same-IsTidy :
    (node : String) (p q : PerNodeAllocatedClaims)
    → q.allocations ≡ p.allocations
    → IsTidy node p
    → IsTidy node q
unfolding pending_at
same-IsTidy node p q e t = record {
  keys = subst HasDistinctKeys (sym e) t.keys;
  pending = λ uid a h. t.pending uid a (ap (λ m. lookup node (entries (lookup uid m))) (sym e) ∙ h);
}

-- A change of the utilisations that the controller keeps for itself.
pub same-IsCovered :
    (node : String) (crd : NodeAllocationState) (p q : PerNodeAllocatedClaims)
    → q.allocations ≡ p.allocations
    → IsCovered node crd p
    → IsCovered node crd q
same-IsCovered node crd p q e c =
    IsCovered-less node crd p q (same-IsTidy node p q e c.tidy) (λ held k. rw e (omega arith)) c
