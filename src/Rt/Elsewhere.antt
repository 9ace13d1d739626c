-- ===== src/Rt/Elsewhere.antt =====
-- rt.go, UnsuitableNode: what the function does about one node puts no more on another.
use dra_rt_driver.Prelude.{
  ◌≤◌, ◌≡◌, ◌≢◌, refl, subst, String, string_key, Bool-cases, Option-cases, inl, inr, true, some,
  List, [], ◌∷◌, length, arith,
}
use dra_rt_driver.Prelude.Int.{pos, eqb_ℤ}
use dra_rt_driver.Prelude.GoMap.{
  GoMap, lookup, insert, entries, lookup-insert_miss, HasDistinctKeys-insert,
}
use dra_rt_driver.Prelude.Outcome.{ok, bind-ok, ok_injective}
use dra_rt_driver.Nas.{
  AllocatedCpu, AllocatedCpuset, AllocatedUtilset, AllocatedRtCpu, NodeAllocationState, claim_util,
}
use dra_rt_driver.Params.{RtClaimParametersSpec}
use dra_rt_driver.Pending
use dra_rt_driver.Pending.{
  PerNodeAllocatedClaims, nodes_of, visit_at, visit_uids, util_or_zero, keys,
}
use dra_rt_driver.Pending.View.{pending_at-set}
use dra_rt_driver.Resource.{ClaimAllocation, Pod}
use dra_rt_driver.Rt.{
  Placing, Visited, visit_pending, charge_claim, place_new, place_claim, place_claims,
  finish_placing, unsuitable_node, allocated_of,
}
use dra_rt_driver.Rt.Propose.{RangeOrder, propose, claim_params}
use dra_rt_driver.Rt.Commitment.{pending_load, pending_load-insert_same, pending_load-delete}
use dra_rt_driver.Rt.Covered.{IsCovered, IsTidy, IsCovered-less, remove-IsTidy, same-IsTidy}

-- From `p` to `q` no load is added to the node.
pub record Shrinks (node : String) (p q : PerNodeAllocatedClaims) : Type 0 where
  pub tidy : IsTidy node p → IsTidy node q
  pub loads :
      (held : GoMap String AllocatedCpuset) (k : String)
      → pending_load k node held q.allocations ≤ pending_load k node held p.allocations

Shrinks-refl : (node : String) (p : PerNodeAllocatedClaims) → Shrinks node p p
Shrinks-refl node p = record { tidy = λ t. t; loads = λ held k. omega arith }

Shrinks-trans :
    (node : String) (p q r : PerNodeAllocatedClaims)
    → Shrinks node p q
    → Shrinks node q r
    → Shrinks node p r
Shrinks-trans node p q r a b = record {
  tidy = λ t. b.tidy (a.tidy t);
  loads = λ held k. omega (arith, a.loads held k, b.loads held k);
}

pub Shrinks-IsCovered :
    (node : String) (crd : NodeAllocationState) (p q : PerNodeAllocatedClaims)
    → Shrinks node p q
    → IsCovered node crd p
    → IsCovered node crd q
Shrinks-IsCovered node crd p q s c = IsCovered-less node crd p q (s.tidy c.tidy) s.loads c

pub remove-Shrinks :
    (node uid : String) (p : PerNodeAllocatedClaims) → Shrinks node p (Pending.remove p uid)
unfolding Pending.remove
remove-Shrinks node uid p = record {
  tidy = remove-IsTidy node uid p;
  loads = λ held k. pending_load-delete k node held uid p.allocations;
}

pub same-Shrinks :
    (node : String) (p q : PerNodeAllocatedClaims)
    → q.allocations ≡ p.allocations
    → Shrinks node p q
same-Shrinks node p q e = record {
  tidy = same-IsTidy node p q e;
  loads = λ held k. rw e (omega arith);
}

module _ (node other : String) (apart : node ≢ other) where
  set-Shrinks :
      (uid : String) (rt : AllocatedRtCpu) (p : PerNodeAllocatedClaims)
      → Shrinks node p (Pending.set p uid other (record { rt_cpu = some rt }))
  unfolding Pending.set
  set-Shrinks uid rt p = record {
    tidy = λ t. record {
      keys = HasDistinctKeys-insert uid _ p.allocations t.keys;
      pending = λ j a e. t.pending j a (
          ground (
            arith,
            pending_at-set p uid other (record { rt_cpu = some rt }) rt j node refl,
            string_key.same_iff other node,
            e,
          ));
    };
    loads = λ held k.
        let q =
          pending_load-insert_same k node held uid
            (insert other (record { rt_cpu = some rt }) (nodes_of p uid)) p.allocations
            (lookup-insert_miss other node (record { rt_cpu = some rt }) (nodes_of p uid) apart) in
        rw q (omega arith);
  }

  visit_pending-Shrinks :
      (uid : String) (a : AllocatedCpuset) (u : AllocatedUtilset) (s t : Visited)
      → visit_pending uid a u s ≡ ok t
      → Shrinks node s.pending t.pending
  unfolding visit_pending
  visit_pending-Shrinks uid a u s t h =
      elim (Option-cases (lookup uid (entries s.crd.spec.allocated_claims))) [
        | inl e ↦
            let (crd, _, r) = bind-ok (charge_claim uid a s.crd) _ t (rw (visit_pending, e) at h) in
            subst (λ (x : Visited). Shrinks node s.pending x.pending) (ok_injective r)
              (Shrinks-refl node s.pending)
        | inr (held, e) ↦
            let r : ok (record s { pending = Pending.remove s.pending uid }) ≡ ok t =
              rw (visit_pending, e) at h in
            subst (λ (x : Visited). Shrinks node s.pending x.pending) (ok_injective r)
              (remove-Shrinks node uid s.pending)
      ]

  visit_at-Shrinks :
      (uid : String) (s t : Visited)
      → visit_at (λ (v : Visited). v.pending) visit_pending other uid s ≡ ok t
      → Shrinks node s.pending t.pending
  unfolding visit_at
  visit_at-Shrinks uid s t h = elim (Option-cases (lookup other (nodes_of s.pending uid))) [
    | inl e ↦
        let r : ok s ≡ ok t = rw (visit_at, e) at h in
        subst (λ (x : Visited). Shrinks node s.pending x.pending) (ok_injective r)
          (Shrinks-refl node s.pending)
    | inr (a, e) ↦
        visit_pending-Shrinks uid a (util_or_zero (lookup other s.pending.utilisation)) s t
          (rw (visit_at, e) at h)
  ]

  visit_uids-Shrinks :
      (uids : List String) (s t : Visited)
      → visit_uids (λ (v : Visited). v.pending) visit_pending other uids s ≡ ok t
      → Shrinks node s.pending t.pending
  unfolding visit_uids
  visit_uids-Shrinks [] s t h =
      subst (λ (x : Visited). Shrinks node s.pending x.pending) (ok_injective h)
        (Shrinks-refl node s.pending)
  visit_uids-Shrinks (uid ∷ uids) s t h =
      let (u, e, h') =
        bind-ok (visit_at (λ (v : Visited). v.pending) visit_pending other uid s) _ t h in
      Shrinks-trans node s.pending u.pending t.pending (visit_at-Shrinks uid s u e)
        (visit_uids-Shrinks uids u t h')

  place_new-Shrinks :
      (pod : Pod) (uid : String) (params : RtClaimParametersSpec) (devices : List AllocatedCpu)
      (s t : Placing)
      → place_new other pod uid params devices s ≡ ok t
      → Shrinks node s.pending t.pending
  unfolding place_new
  place_new-Shrinks pod uid params devices s t h =
      elim (Bool-cases (eqb_ℤ params.count (pos (length devices)))) [
        | inl e ↦
            let (used, _, r) =
              bind-ok (claim_util params.runtime params.period) _ t (rw (place_new, e) at h) in
            subst (λ (x : Placing). Shrinks node s.pending x.pending) (ok_injective r)
              (set-Shrinks uid (record { cpuset = devices; cgroup_uid = pod.uid }) s.pending)
        | inr e ↦
            let r : ok (record s { stopped = true }) ≡ ok t = rw (place_new, e) at h in
            subst (λ (x : Placing). Shrinks node s.pending x.pending) (ok_injective r)
              (Shrinks-refl node s.pending)
      ]

  place_claim-Shrinks :
      (pod : Pod) (crd : NodeAllocationState) (allocated : GoMap String (List AllocatedCpu))
      (ca : ClaimAllocation) (s t : Placing)
      → place_claim other pod crd allocated ca s ≡ ok t
      → Shrinks node s.pending t.pending
  unfolding place_claim
  place_claim-Shrinks pod crd allocated ca s t h =
      elim (Option-cases (lookup ca.claim.uid (entries crd.spec.allocated_claims))) [
        | inl e ↦
            let (params, _, r) = bind-ok (claim_params ca) _ t (rw (place_claim, e) at h) in
            place_new-Shrinks pod ca.claim.uid params (entries (lookup ca.claim.uid allocated)) s t
              r
        | inr (a, e) ↦
            let r : ok s ≡ ok t = rw (place_claim, e) at h in
            subst (λ (x : Placing). Shrinks node s.pending x.pending) (ok_injective r)
              (Shrinks-refl node s.pending)
      ]

  place_claims-Shrinks :
      (pod : Pod) (crd : NodeAllocationState) (allocated : GoMap String (List AllocatedCpu))
      (cas : List ClaimAllocation) (s t : Placing)
      → place_claims other pod crd allocated cas s ≡ ok t
      → Shrinks node s.pending t.pending
  unfolding place_claims
  place_claims-Shrinks pod crd allocated [] s t h =
      subst (λ (x : Placing). Shrinks node s.pending x.pending) (ok_injective h)
        (Shrinks-refl node s.pending)
  place_claims-Shrinks pod crd allocated (ca ∷ cas) s t h =
      let (u, e, h') = bind-ok (place_claim other pod crd allocated ca s) _ t h in
      let first = place_claim-Shrinks pod crd allocated ca s u e in
      elim (Bool-cases u.stopped) [
        | inl stops ↦
            let r : ok u ≡ ok t = rw stops at h' in
            subst (λ (x : Placing). Shrinks node s.pending x.pending) (ok_injective r) first
        | inr goes ↦
            Shrinks-trans node s.pending u.pending t.pending first
              (place_claims-Shrinks pod crd allocated cas u t (rw goes at h'))
      ]

  finish-Shrinks :
      (allcas : List ClaimAllocation) (t : Placing)
      → Shrinks node t.pending (finish_placing other allcas t).0
  unfolding finish_placing Pending.set_util
  finish-Shrinks allcas t = elim (Bool-cases t.stopped) [
    | inl stops ↦ rw (finish_placing, stops) (Shrinks-refl node t.pending)
    | inr goes ↦
        rw (finish_placing, goes)
          (same-Shrinks node t.pending
            (Pending.set_util t.pending other (record { cpus = some t.util })) refl)
  ]

  pub unsuitable_node-Shrinks :
      (range : RangeOrder) (p : PerNodeAllocatedClaims) (crd : NodeAllocationState) (pod : Pod)
      (rtcas allcas : List ClaimAllocation) (r : PerNodeAllocatedClaims × List ClaimAllocation)
      → unsuitable_node range p crd pod rtcas allcas other ≡ ok r
      → Shrinks node p r.0
  unfolding unsuitable_node Pending.visit_node
  unsuitable_node-Shrinks range p crd pod rtcas allcas r h =
      let (v, e, h') =
        bind-ok
          (Pending.visit_node (λ (s : Visited). s.pending) other visit_pending
            (record { crd = crd; pending = p }))
          _ r h in
      let (proposal, e', h'') = bind-ok (propose range v.crd rtcas) _ r h' in
      let (t, f, g) =
        bind-ok (place_claims other pod v.crd (allocated_of proposal) rtcas _) _ r h'' in
      let visited =
        visit_uids-Shrinks (keys p.allocations) (record { crd = crd; pending = p }) v e in
      let placed = place_claims-Shrinks pod v.crd (allocated_of proposal) rtcas _ t f in
      subst (λ (x : PerNodeAllocatedClaims × List ClaimAllocation). Shrinks node p x.0)
        (ok_injective g)
        (Shrinks-trans node p v.pending _ visited
          (Shrinks-trans node v.pending t.pending _ placed (finish-Shrinks allcas t)))
