-- ===== src/Rt/Upkeep.antt =====
-- rt.go, UnsuitableNode: the function keeps the pending allocations of the node covered.
use dra_rt_driver.Prelude.{
  ℕ, ◌+◌, ◌≤◌, ◌<◌, ◌≡◌, refl, sym, subst, String, string_key, false, Bool-cases, inl, inr, some,
  List, [], All, arith,
}
use dra_rt_driver.Prelude.Int.{pos}
use dra_rt_driver.Prelude.GoMap.{GoMap, entries}
use dra_rt_driver.Prelude.Outcome.{ok, ◌>>=◌}
use dra_rt_driver.Nas.{AllocatedCpu, NodeAllocationState, util_at}
use dra_rt_driver.Pending
use dra_rt_driver.Pending.{PerNodeAllocatedClaims}
use dra_rt_driver.Resource.{ClaimAllocation, Pod}
use dra_rt_driver.Rt.{Placing, Visited, unsuitable_node, finish_placing, allocated_of}
use dra_rt_driver.Rt.Propose.{RangeOrder, copy_utils}
use dra_rt_driver.Rt.Within.{IsWithin, Bears}
use dra_rt_driver.Rt.Pods.{IsServed}
use dra_rt_driver.Rt.Commitment.{pending_load}
use dra_rt_driver.Rt.Covered.{IsCovered, same-IsCovered}
use dra_rt_driver.Rt.Absorbing.{IsVisited, visit_node-IsVisited}
use dra_rt_driver.Rt.Reserving.{new_load, HasDistinctClaims}
use dra_rt_driver.Rt.Filing.{Files, place_claims-Files}
use dra_rt_driver.Rt.Bearable.{propose-IsBearable, IsCovered-HoldsRt}

-- What is pending fits on top of the first record after the loop.
Files-IsCovered :
    (node : String) (pod : Pod) (crd : NodeAllocationState) (p : PerNodeAllocatedClaims)
    (v : Visited) (allocated : GoMap String (List AllocatedCpu)) (cas : List ClaimAllocation)
    (s t : Placing)
    → IsCovered node crd p
    → IsVisited node crd v
    → Bears
        (λ k. new_load k (entries v.crd.spec.allocated_claims) allocated cas)
        (entries v.crd.spec.allocated_util_to_cpu.cpus)
    → s.pending ≡ v.pending
    → Files node pod v.crd allocated cas s t
    → IsCovered node crd t.pending
Files-IsCovered node pod crd p v allocated cas s t c i b same f = record {
  claims = c.claims;
  is_claims = c.is_claims;
  utils = c.utils;
  is_utils = c.is_utils;
  within = c.within;
  bears = record { at = bear };
  held = c.held;
  tidy = f.tidy;
}
  where
    bear :
        (k : String)
        → (u : ℕ) × (util_at k c.utils ≡ pos u)
          × (u + pending_load k node c.claims t.pending.allocations < 950)
    bear k =
        let (u, e, h) = c.bears.at k in
        let (w, g, l) = b.at k in
        let d : u + pending_load k node c.claims v.pending.allocations ≤ w =
          subst (λ o. u + pending_load k node (entries o) v.pending.allocations ≤ w) c.is_claims
            (i.dominates k u w (subst (λ o. util_at k (entries o) ≡ pos u) (sym c.is_utils) e) g) in
        let q =
          subst
            (λ x.
              pending_load k node c.claims t.pending.allocations
              ≤ pending_load k node c.claims x.allocations
                + new_load k (entries v.crd.spec.allocated_claims) allocated cas)
            same (f.loads c.claims k) in
        (u, e, omega (arith, d, q, l))

finish-IsCovered :
    (node : String) (allcas : List ClaimAllocation) (crd : NodeAllocationState) (t : Placing)
    → IsCovered node crd t.pending
    → IsCovered node crd (finish_placing node allcas t).0
unfolding finish_placing Pending.set_util
finish-IsCovered node allcas crd t c = elim (Bool-cases t.stopped) [
  | inl stops ↦ rw (finish_placing, stops) c
  | inr goes ↦
      rw (finish_placing, goes)
        (same-IsCovered node crd t.pending
          (Pending.set_util t.pending node (record { cpus = some t.util })) refl c)
]

-- On a node that is covered, for real-time claims with sound parameters, none of them twice: whatever
-- the orders of iteration, `UnsuitableNode` ends with no panic, and what is pending afterwards is
-- covered again, so every CPU stays below 950 thousandths with all that is pending on it.
pub unsuitable_node-IsCovered :
    (range : RangeOrder) (p : PerNodeAllocatedClaims) (crd : NodeAllocationState) (pod : Pod)
    (rtcas allcas : List ClaimAllocation) (node : String)
    → IsCovered node crd p
    → All IsServed rtcas
    → HasDistinctClaims rtcas
    → (r : PerNodeAllocatedClaims × List ClaimAllocation) × (unsuitable_node range p crd pod rtcas
          allcas node
        ≡ ok r)
      × IsCovered node crd r.0
unfolding unsuitable_node
unsuitable_node-IsCovered range p crd pod rtcas allcas node c served distinct =
    let (v, visit, i) = visit_node-IsVisited node crd p c in
    let within : IsWithin (entries v.crd.spec.allocated_util_to_cpu.cpus) =
      subst (λ o. IsWithin (entries o)) (sym i.covered.is_utils) i.covered.within in
    let (r, proposed, b) =
      propose-IsBearable range v.crd rtcas (IsCovered-HoldsRt node v.crd v.pending i.covered) served
        distinct within in
    let s : Placing = record {
      pending = v.pending;
      util = copy_utils (entries v.crd.spec.allocated_util_to_cpu.cpus) [];
      stopped = false;
    } in
    let (t, placed, f) =
      place_claims-Files node pod v.crd (allocated_of r) rtcas s served b.safe i.covered.tidy in
    (
      finish_placing node allcas t,
      rw (unsuitable_node, visit, ◌>>=◌, proposed, placed) refl,
      finish-IsCovered node allcas crd t
          (Files-IsCovered node pod crd p v (allocated_of r) rtcas s t c i b.bears refl f),
    )
