-- ===== src/Controller/History/Kept.antt =====
-- rt.go, driver.go and allocations.go: every step keeps all nodes covered.
use dra_rt_driver.Prelude.{
  ◌≡◌, refl, sym, ap, ◌∙◌, subst, String, string_key, ◌==◌, if◌then◌else◌, true, false, Bool-cases,
  Option-cases, inl, inr, Option, none, some, List, All,
}
use mathlib.Core.Bool.{false≢true}
use dra_rt_driver.Prelude.GoMap.{lookup, entries}
use dra_rt_driver.Prelude.Outcome.{
  ok, err, failed, no_allocation_generated, bind-ok, ok_injective, deref,
}
use dra_rt_driver.Nas.{AllocatedCpuset, AllocatedRtCpu, NodeAllocationState}
use dra_rt_driver.Pending
use dra_rt_driver.Pending.{PerNodeAllocatedClaims, new_per_node_allocated_claims, nodes_of, is_some}
use dra_rt_driver.Pending.View.{pending_at, exists-eq-is_some, get-eq-or_zero}
use dra_rt_driver.Pending.Unchanged.{remove_util-allocations, remove_util_other_nodes-allocations}
use dra_rt_driver.Resource.{ClaimAllocation, Pod, ResourceClaim}
use dra_rt_driver.Rt
use dra_rt_driver.Rt.{OnSuccess, call_on_success, unsuitable_node, charge_claim}
use dra_rt_driver.Rt.Propose.{RangeOrder}
use dra_rt_driver.Rt.Pods.{IsServed}
use dra_rt_driver.Rt.Within.{IsSafeCpu}
use dra_rt_driver.Rt.Covered.{IsCovered}
use dra_rt_driver.Rt.Charging.{charge_claim-Charges}
use dra_rt_driver.Rt.Reserving.{HasDistinctClaims}
use dra_rt_driver.Rt.Upkeep.{unsuitable_node-IsCovered}
use dra_rt_driver.Rt.Elsewhere.{
  Shrinks-IsCovered, remove-Shrinks, same-Shrinks, unsuitable_node-Shrinks,
}
use dra_rt_driver.Controller.Record.{without_claim}
use dra_rt_driver.Controller.Giving.{without_claim-IsCovered}
use dra_rt_driver.Controller.History.{
  Cluster, Step, judges, allocates, confirms, releases, returns, Reach, start, later, AllCovered,
}

deallocate-Shrinks :
    (n : String) (claim : ResourceClaim) (p q : PerNodeAllocatedClaims)
    → Rt.deallocate p claim ≡ ok q
    → (r : PerNodeAllocatedClaims) × (r.allocations ≡ p.allocations)
      × (Pending.remove r claim.uid ≡ q)
unfolding Rt.deallocate
deallocate-Shrinks n claim p q h =
    let (r, e, h') = bind-ok (Pending.remove_util p claim.uid) _ q h in
    (r, remove_util-allocations p r claim.uid e, ok_injective h')

pub confirms-IsCovered :
    (n : String) (f : Option OnSuccess) (p q : PerNodeAllocatedClaims)
    → call_on_success f p ≡ ok q
    → (c : NodeAllocationState) → IsCovered n c p
    → IsCovered n c q
unfolding call_on_success
confirms-IsCovered n none p q h c i = absurd (cc)
confirms-IsCovered n (some f) p q h c i =
    let (r, e, h') = bind-ok (Pending.remove_util_other_nodes p f.uid f.node) _ q h in
    let j =
      Shrinks-IsCovered n c p r
        (same-Shrinks n p r (remove_util_other_nodes-allocations p r f.uid f.node e)) i in
    subst (IsCovered n c) (ok_injective h')
      (Shrinks-IsCovered n c r (Pending.remove r f.uid) (remove-Shrinks n f.uid r) j)

pub releases-IsCovered :
    (n : String) (claim : ResourceClaim) (p q : PerNodeAllocatedClaims)
    → Rt.deallocate p claim ≡ ok q
    → (c : NodeAllocationState) → IsCovered n c p
    → IsCovered n c q
releases-IsCovered n claim p q h c i =
    let (r, e, h') = deallocate-Shrinks n claim p q h in
    let j = Shrinks-IsCovered n c p r (same-Shrinks n p r e) i in
    subst (IsCovered n c) h'
      (Shrinks-IsCovered n c r (Pending.remove r claim.uid) (remove-Shrinks n claim.uid r) j)

pub returns-IsCovered :
    (n : String) (claim : ResourceClaim) (rt : AllocatedRtCpu) (p q : PerNodeAllocatedClaims)
    (crd crd' : NodeAllocationState)
    → lookup claim.uid (entries crd.spec.allocated_claims) ≡ some (record { rt_cpu = some rt })
    → Rt.deallocate p claim ≡ ok q
    → without_claim claim rt.cpuset crd ≡ ok crd'
    → IsCovered n crd p
    → IsCovered n crd' q
returns-IsCovered n claim rt p q crd crd' held h e i =
    let (r, same, h') = deallocate-Shrinks n claim p q h in
    let j = Shrinks-IsCovered n crd p r (same-Shrinks n p r same) i in
    let s =
      i.held claim.uid (record { rt_cpu = some rt })
        (subst (λ o. lookup claim.uid (entries o) ≡ some (record { rt_cpu = some rt })) i.is_claims
          held) in
    let eq : some rt ≡ some s.rt = ap (λ (a : AllocatedCpuset). a.rt_cpu) s.is_rt in
    let eq' : s.rt ≡ rt = cc in
    subst (IsCovered n crd') h' (
      without_claim-IsCovered n claim rt.cpuset crd crd' r
        (subst (λ (x : AllocatedRtCpu). All IsSafeCpu x.cpuset) eq' s.safe) j e)

-- A pending allocation that is charged to the record.
charged-IsCovered :
    (n uid : String) (a : AllocatedCpuset) (p : PerNodeAllocatedClaims)
    (crd crd' : NodeAllocationState) (i : IsCovered n crd p)
    → lookup uid (entries crd.spec.allocated_claims) ≡ none
    → pending_at p uid n ≡ some a
    → charge_claim uid a crd ≡ ok crd'
    → IsCovered n crd' p × (crd'.meta ≡ crd.meta)
charged-IsCovered n uid a p crd crd' i new e h =
    let safe = i.tidy.pending uid a e in
    let new' : lookup uid i.claims ≡ none =
      subst (λ o. lookup uid (entries o) ≡ none) i.is_claims new in
    let (t, run, _, _, c) =
      charge_claim-Charges n uid safe.rt crd p i new' (e ∙ ap some safe.is_rt) safe.safe in
    let same : t ≡ crd' =
      ok_injective (sym run ∙ subst (λ x. charge_claim uid x crd ≡ ok crd') safe.is_rt h) in
    subst (λ (x : NodeAllocationState). IsCovered n x p × (x.meta ≡ crd.meta)) same
      (c.covered, c.same_meta)

pub allocates-IsCovered :
    (n : String) (claim : ResourceClaim) (p : PerNodeAllocatedClaims)
    (crd crd' : NodeAllocationState) (f : Option OnSuccess)
    → Rt.allocate p crd claim n ≡ ok (crd', f)
    → IsCovered n crd p
    → IsCovered n crd' p × (crd'.meta ≡ crd.meta)
unfolding Rt.allocate
allocates-IsCovered n claim p crd crd' f h i = elim (Option-cases (pending_at p claim.uid n)) [
  | inl e ↦
      let no : Pending.exists p claim.uid n ≡ false = rw (exists-eq-is_some, e) refl in
      absurd (
        let r : err (failed no_allocation_generated) ≡ ok (crd', f) = rw (Rt.allocate, no) at h in
        cc)
  | inr (a, e) ↦
      let yes : Pending.exists p claim.uid n ≡ true = rw (exists-eq-is_some, e) refl in
      let reads : Pending.get p claim.uid n ≡ a = rw (get-eq-or_zero, e) refl in
      elim (Option-cases (lookup claim.uid (entries crd.spec.allocated_claims))) [
        | inl new ↦
            let (c, charged, r) =
              bind-ok (charge_claim claim.uid a crd) _ (crd', f)
                (rw (Rt.allocate, yes, new, reads) at h) in
            let same : c ≡ crd' =
              ap (λ (x : NodeAllocationState × Option OnSuccess). x.0) (ok_injective r) in
            subst (λ (x : NodeAllocationState). IsCovered n x p × (x.meta ≡ crd.meta)) same
              (charged-IsCovered n claim.uid a p crd c i new e charged)
        | inr (held, e') ↦
            let (rt, _, r) =
              bind-ok (deref held.rt_cpu) _ (crd', f) (rw (Rt.allocate, yes, e') at h) in
            subst (λ (x : NodeAllocationState). IsCovered n x p × (x.meta ≡ crd.meta))
              (ap (λ (x : NodeAllocationState × Option OnSuccess). x.0) (ok_injective r)) (i, refl)
      ]
]

by_node :
    (n node : String) (crd : NodeAllocationState) (s : Cluster) (p : PerNodeAllocatedClaims)
    → IsCovered node crd p
    → IsCovered n (s.records n) p
    → IsCovered n (if node == n then crd else s.records n) p
by_node n node crd s p here there = elim (Bool-cases (node == n)) [
  | inl hit ↦ rw hit (subst (λ m. IsCovered m crd p) ((string_key.same_iff node n).0 hit) here)
  | inr miss ↦ rw miss there
]

judges-IsCovered :
    (n node : String) (range : RangeOrder) (s : Cluster) (pod : Pod)
    (rtcas allcas : List ClaimAllocation) (r : PerNodeAllocatedClaims × List ClaimAllocation)
    → All IsServed rtcas
    → HasDistinctClaims rtcas
    → unsuitable_node range s.pending (s.records node) pod rtcas allcas node ≡ ok r
    → AllCovered s
    → IsCovered n (s.records n) r.0
judges-IsCovered n node range s pod rtcas allcas r served distinct h all =
    elim (Bool-cases (node == n)) [
      | inl hit ↦
          let (q, e, c) =
            unsuitable_node-IsCovered range s.pending (s.records node) pod rtcas allcas node
              (all node) served distinct in
          let same : q ≡ r = ok_injective (sym e ∙ h) in
          subst (λ m. IsCovered m (s.records m) r.0) ((string_key.same_iff node n).0 hit)
            (subst
              (λ (x : PerNodeAllocatedClaims × List ClaimAllocation).
                IsCovered node (s.records node) x.0)
              same c)
      | inr miss ↦
          Shrinks-IsCovered n (s.records n) s.pending r.0
            (unsuitable_node-Shrinks n node
              (λ q. false≢true (sym miss ∙ (string_key.same_iff node n).1 (sym q))) range s.pending
              (s.records node) pod rtcas allcas r h)
            (all n)
    ]

Step-AllCovered : {s t : Cluster} → Step s t → AllCovered s → AllCovered t
Step-AllCovered {s} {t} (judges range node pod rtcas allcas r served distinct h e) all =
    rw e (λ n. judges-IsCovered n node range s pod rtcas allcas r served distinct h all)
Step-AllCovered {s} {t} (allocates claim node crd f h e) all = rw e (λ n.
    by_node n node crd s s.pending
      (allocates-IsCovered node claim s.pending (s.records node) crd f h (all node)).0 (all n))
Step-AllCovered {s} {t} (confirms f p h e) all =
    rw e (λ n. confirms-IsCovered n f s.pending p h (s.records n) (all n))
Step-AllCovered {s} {t} (releases claim p h e) all =
    rw e (λ n. releases-IsCovered n claim s.pending p h (s.records n) (all n))
Step-AllCovered {s} {t} (returns claim node rt p crd held h h' e) all = rw e (λ n.
    by_node n node crd s p
      (returns-IsCovered node claim rt s.pending p (s.records node) crd held h h' (all node))
      (releases-IsCovered n claim s.pending p h (s.records n) (all n)))

pub Reach-AllCovered : {s t : Cluster} → AllCovered s → Reach s t → AllCovered t
Reach-AllCovered all start = all
Reach-AllCovered all (later r st) = Step-AllCovered st (Reach-AllCovered all r)
