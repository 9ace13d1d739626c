-- ===== src/Rt/Serving.antt =====
-- rt.go, UnsuitableNode: a node fits, or every claim of the pod is marked.
use dra_rt_driver.Prelude.{
  ◌≡◌, ◌⊎◌, inl, inr, refl, sym, ap, ◌∙◌, String, Bool, true, false, Bool-cases, Option, some, List,
  [], ◌∷◌, All, All-map_of, if◌then◌else◌,
}
use mathlib.Core.Bool.{false≢true}
use dra_rt_driver.Prelude.GoMap.{GoMap, entries}
use dra_rt_driver.Prelude.Outcome.{Outcome, ok, err, panic, ◌>>=◌}
use dra_rt_driver.Nas.{AllocatedCpu, MappedUtil, NodeAllocationState}
use dra_rt_driver.Pending
use dra_rt_driver.Pending.{PerNodeAllocatedClaims}
use dra_rt_driver.Pending.View.{pending_at}
use dra_rt_driver.Resource.{ClaimAllocation, Pod}
use dra_rt_driver.Rt.{
  Placing, Visited, visit_pending, place_claim, place_claims, unsuitable_node, finish_placing,
  mark_unsuitable, allocated_of,
}
use dra_rt_driver.Rt.Propose.{RangeOrder, Proposal, propose, copy_utils}
use dra_rt_driver.Rt.Served.{IsPlaced, IsHeld, Keeps, place_claim-Places}

module _ (node : String) (pod : Pod) (crd : NodeAllocationState)
    (allocated : GoMap String (List AllocatedCpu)) where
  abbrev pub Served : PerNodeAllocatedClaims → ClaimAllocation → Type 0
  Served p ca = IsHeld node pod crd allocated ca ⊎ IsPlaced node pod crd allocated p ca

  -- The loop to its end: every claim is served, and what was placed before still is.
  pub record Serves (cas : List ClaimAllocation) (s t : PerNodeAllocatedClaims) : Type 0 where
    pub served : All (Served t) cas
    pub keeps : Keeps node pod crd allocated s t

  keep :
      (s t : PerNodeAllocatedClaims)
      → Keeps node pod crd allocated s t
      → (ca : ClaimAllocation) → Served s ca
      → Served t ca
  keep s t k ca (inl h) = inl h
  keep s t k ca (inr h) = inr (k.keeps ca h)

  after_first :
      (ca : ClaimAllocation) (cas : List ClaimAllocation) (s u t : Placing)
      → t.stopped ≡ false
      → place_claim node pod crd allocated ca s ≡ ok u
      → ((u : Placing)
          → place_claims node pod crd allocated cas u ≡ ok t
          → Serves cas u.pending t.pending)
      → (b : Bool) → u.stopped ≡ b
      → (if b then ok u else place_claims node pod crd allocated cas u) ≡ ok t
      → Serves (ca ∷ cas) s.pending t.pending
  after_first ca cas s u t going e ih true stops h =
      let same : u ≡ t = cc in
      absurd (false≢true (sym going ∙ ap (λ (x : Placing). x.stopped) (sym same) ∙ stops))
  after_first ca cas s u t going e ih false goes h =
      let first = place_claim-Places node pod crd allocated ca s u e goes in
      let rest = ih u h in
      record {
        served = (keep u.pending t.pending rest.keeps ca first.served, rest.served);
        keeps = record { keeps = λ x i. rest.keeps.keeps x (first.keeps.keeps x i) };
      }

  pub place_claims-Serves :
      (cas : List ClaimAllocation) (s t : Placing)
      → place_claims node pod crd allocated cas s ≡ ok t
      → t.stopped ≡ false
      → Serves cas s.pending t.pending
  unfolding place_claims
  place_claims-Serves [] s t h going =
      let eq : s ≡ t = cc in
      rw (← eq) (record { served = tt; keeps = record { keeps = λ ca h. h } })
  place_claims-Serves (ca ∷ cas) s t h going =
      go (λ u e. place_claims-Serves cas u t e going) (place_claim node pod crd allocated ca s) refl
        h
    where
      go :
          ((u : Placing)
            → place_claims node pod crd allocated cas u ≡ ok t
            → Serves cas u.pending t.pending)
          → (o : Outcome Placing) → place_claim node pod crd allocated ca s ≡ o
          → (o >>= λ s'.
              let rest = place_claims node pod crd allocated cas s' in
              if s'.stopped then ok s' else rest)
            ≡ ok t
          → Serves (ca ∷ cas) s.pending t.pending
      go ih (err x) e h = absurd (cc)
      go ih (panic x) e h = absurd (cc)
      go ih (ok u) e h = after_first ca cas s u t going e ih u.stopped refl h

-- Recording the utilisation of the node changes no pending allocation.
set_util-Served :
    (node : String) (pod : Pod) (crd : NodeAllocationState)
    (allocated : GoMap String (List AllocatedCpu)) (p : PerNodeAllocatedClaims) (util : MappedUtil)
    (ca : ClaimAllocation)
    → Served node pod crd allocated p ca
    → Served node pod crd allocated (Pending.set_util p node (record { cpus = some util })) ca
unfolding Pending.set_util pending_at
set_util-Served node pod crd allocated p util ca (inl h) = inl h
set_util-Served node pod crd allocated p util ca (inr h) =
    inr (record { params = h.params; is_rt = h.is_rt; counts = h.counts; pending = h.pending })

-- The node fits the pod: after the visit of what is pending on the node, every claim is held by the
-- record of the node, or is pending with as many of the proposed CPUs as it asks for.
pub record FitsPod (p : PerNodeAllocatedClaims) (crd : NodeAllocationState) (pod : Pod)
    (rtcas : List ClaimAllocation) (node : String) (after : PerNodeAllocatedClaims) : Type 0 where
  pub visited : Visited
  pub visits :
      Pending.visit_node
        (λ (s : Visited). s.pending)
        node
        visit_pending
        (record { crd = crd; pending = p })
      ≡ ok visited
  pub allocated : GoMap String (List AllocatedCpu)
  pub served : All (Served node pod visited.crd allocated after) rtcas

-- The result of `UnsuitableNode`: all claims are marked, or none and the node fits.
abbrev pub Judged :
    PerNodeAllocatedClaims
    → NodeAllocationState
    → Pod
    → List ClaimAllocation
    → List ClaimAllocation
    → String
    → PerNodeAllocatedClaims × List ClaimAllocation
    → Type 0
Judged p crd pod rtcas allcas node (after, cas) =
    (cas ≡ mark_unsuitable node allcas) ⊎ ((cas ≡ allcas) × FitsPod p crd pod rtcas node after)

finish-Judged :
    (p : PerNodeAllocatedClaims) (crd : NodeAllocationState) (pod : Pod)
    (rtcas allcas : List ClaimAllocation) (node : String) (v : Visited)
    (allocated : GoMap String (List AllocatedCpu)) (s t : Placing)
    → Pending.visit_node
        (λ (s : Visited). s.pending)
        node
        visit_pending
        (record { crd = crd; pending = p })
      ≡ ok v
    → place_claims node pod v.crd allocated rtcas s ≡ ok t
    → Judged p crd pod rtcas allcas node (finish_placing node allcas t)
unfolding finish_placing
finish-Judged p crd pod rtcas allcas node v allocated s t visits places =
    elim (Bool-cases t.stopped) [
      | inl stops ↦ rw (finish_placing, stops) (inl refl)
      | inr goes ↦
          let all = place_claims-Serves node pod v.crd allocated rtcas s t places goes in
          rw (finish_placing, goes)
            (inr (
              refl,
              record {
                visited = v;
                visits = visits;
                allocated = allocated;
                served =
                    All-map_of (set_util-Served node pod v.crd allocated t.pending t.util) rtcas
                      all.served;
              },
            ))
    ]

-- Whatever the record, the pending allocations and the orders of iteration: when `UnsuitableNode`
-- returns, it has marked every claim of the pod as unsuitable for the node; or it has marked none,
-- and every real-time claim of the pod is held by the node's record, counting what was pending there,
-- or is now pending on the node with as many CPUs as it asks for.
pub unsuitable_node-Judged :
    (range : RangeOrder) (p : PerNodeAllocatedClaims) (crd : NodeAllocationState) (pod : Pod)
    (rtcas allcas : List ClaimAllocation) (node : String)
    (r : PerNodeAllocatedClaims × List ClaimAllocation)
    → unsuitable_node range p crd pod rtcas allcas node ≡ ok r
    → Judged p crd pod rtcas allcas node r
unfolding unsuitable_node
unsuitable_node-Judged range p crd pod rtcas allcas node r h =
    visited
      (Pending.visit_node (λ (s : Visited). s.pending) node visit_pending
        (record { crd = crd; pending = p }))
      refl h
  where
    start : Visited → Placing
    start v = record {
      pending = v.pending;
      util = copy_utils (entries v.crd.spec.allocated_util_to_cpu.cpus) [];
      stopped = false;
    }

    placed :
        (v : Visited) (a : GoMap String (List AllocatedCpu)) (o : Outcome Placing)
        → Pending.visit_node
            (λ (s : Visited). s.pending)
            node
            visit_pending
            (record { crd = crd; pending = p })
          ≡ ok v
        → place_claims node pod v.crd a rtcas (start v) ≡ o
        → (o >>= λ s. ok (finish_placing node allcas s)) ≡ ok r
        → Judged p crd pod rtcas allcas node r
    placed v a (ok t) e f h =
        let same : finish_placing node allcas t ≡ r = cc in
        rw (← same) (finish-Judged p crd pod rtcas allcas node v a (start v) t e f)
    placed v a (err x) e f h = absurd (cc)
    placed v a (panic x) e f h = absurd (cc)

    proposed :
        (v : Visited) (o : Outcome (Option Proposal))
        → Pending.visit_node
            (λ (s : Visited). s.pending)
            node
            visit_pending
            (record { crd = crd; pending = p })
          ≡ ok v
        → (o >>= λ proposal.
            place_claims node pod v.crd (allocated_of proposal) rtcas (start v) >>= λ s.
            ok (finish_placing node allcas s))
          ≡ ok r
        → Judged p crd pod rtcas allcas node r
    proposed v (ok a) e h =
        placed v (allocated_of a) (place_claims node pod v.crd (allocated_of a) rtcas (start v)) e
          refl h
    proposed v (err x) e h = absurd (cc)
    proposed v (panic x) e h = absurd (cc)

    visited :
        (o : Outcome Visited)
        → Pending.visit_node
            (λ (s : Visited). s.pending)
            node
            visit_pending
            (record { crd = crd; pending = p })
          ≡ o
        → (o >>= λ v. propose range v.crd rtcas >>= λ proposal.
            place_claims node pod v.crd (allocated_of proposal) rtcas (start v) >>= λ s.
            ok (finish_placing node allcas s))
          ≡ ok r
        → Judged p crd pod rtcas allcas node r
    visited (ok v) e h = proposed v (propose range v.crd rtcas) e h
    visited (err x) e h = absurd (cc)
    visited (panic x) e h = absurd (cc)
