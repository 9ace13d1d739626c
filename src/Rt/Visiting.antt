-- ===== src/Rt/Visiting.antt =====
-- rt.go, UnsuitableNode: the visit of what is pending on the node charges all of it to the record that
-- the function has fetched.
use dra_rt_driver.Prelude.{
  ℕ, ◌+◌, ◌≤◌, ◌≡◌, ◌⊎◌, refl, sym, ap, ◌∙◌, subst, String, string_key, none, some, List, [], ◌∷◌,
  All, arith, Option-cases, inl, inr,
}
use dra_rt_driver.Prelude.Int.{pos, pos_part}
use dra_rt_driver.Prelude.GoMap.{GoMap, lookup, entries}
use dra_rt_driver.Prelude.Outcome.{ok, ◌>>=◌}
use dra_rt_driver.Nas.{
  AllocatedCpu, AllocatedCpuset, AllocatedRtCpu, AllocatedUtilset, MappedUtil, NodeAllocationState,
  util_at,
}
use dra_rt_driver.Nas.Load.{load}
use dra_rt_driver.Pending
use dra_rt_driver.Pending.{
  PerNodeAllocatedClaims, visit_at, visit_uids, nodes_of, util_or_zero, keys,
}
use dra_rt_driver.Pending.View.{pending_at, pending_at-remove}
use dra_rt_driver.Rt.{Visited, visit_pending, charge_claim}
use dra_rt_driver.Rt.Commitment.{pending_load, pending_load-delete, pending_load-delete_held}
use dra_rt_driver.Rt.Charging.{Charges, charge_claim-Charges}
use dra_rt_driver.Rt.Covered.{IsCovered, remove-IsCovered}

-- Nothing is pending on the node for a claim that the fetched record does not hold.
abbrev pub IsSettled : String → Visited → String → Type 0
IsSettled node s uid =
    (pending_at s.pending uid node ≡ none)
    ⊎ ((a : AllocatedCpuset) × (lookup uid (entries s.crd.spec.allocated_claims) ≡ some a))

module _ (node : String) (held0 : GoMap String AllocatedCpuset) (m0 : MappedUtil) where
  -- What is pending on top of the first record is pending on top of the fetched one, or charged to it.
  pub record Absorbs (s : Visited) : Type 0 where
    pub covered : IsCovered node s.crd s.pending
    pub dominates :
        (k : String) (u w : ℕ)
        → util_at k m0 ≡ pos u
        → util_at k (entries s.crd.spec.allocated_util_to_cpu.cpus) ≡ pos w
        → u + pending_load k node held0 s.pending.allocations
          ≤ w + pending_load k node (entries s.crd.spec.allocated_claims) s.pending.allocations

  Charges-Absorbs :
      (crd t : NodeAllocationState) (p : PerNodeAllocatedClaims) (cs : List AllocatedCpu)
      (a : Absorbs (record { crd = crd; pending = p }))
      → Charges node p cs crd t a.covered
      → Absorbs (record { crd = t; pending = p })
  Charges-Absorbs crd t p cs a c = record {
    covered = c.covered;
    dominates = λ k u w e f.
        let (v, g, l) = a.covered.bears.at k in
        let h : u + pending_load k node held0 p.allocations
            ≤ v + pending_load k node a.covered.claims p.allocations =
          subst
            (λ o.
              u + pending_load k node held0 p.allocations
              ≤ v + pending_load k node (entries o) p.allocations)
            a.covered.is_claims
            (a.dominates k u v e
              (subst (λ o. util_at k (entries o) ≡ pos v) (sym a.covered.is_utils) g)) in
        let q : w ≡ v + load k cs = ap pos_part (sym f ∙ c.adds k v g) in
        omega (arith, c.load_moves k);
  }

  -- One claim of the visit.
  record VisitsOne (uid : String) (s t : Visited) : Type 0 where
    absorbs : Absorbs t
    settled : IsSettled node t uid
    keeps : (j : String) → IsSettled node s j → IsSettled node t j

  removed-VisitsOne :
      (uid : String) (a : AllocatedCpuset) (s : Visited)
      → lookup uid (entries s.crd.spec.allocated_claims) ≡ some a
      → Absorbs s
      → VisitsOne uid s (record s { pending = Pending.remove s.pending uid })
  unfolding Pending.remove
  removed-VisitsOne uid a s e b = record {
    absorbs = record {
      covered = remove-IsCovered node uid s.crd s.pending b.covered;
      dominates = λ k u w f g.
          let d = b.dominates k u w f g in
          omega (
            arith,
            pending_load-delete k node held0 uid s.pending.allocations,
            pending_load-delete_held k node (entries s.crd.spec.allocated_claims) uid a
                s.pending.allocations e,
          );
    };
    settled = inr (a, e);
    keeps = λ j h. kept j h;
  }
    where
      kept :
          (j : String)
          → IsSettled node s j
          → IsSettled node (record s { pending = Pending.remove s.pending uid }) j
      kept j (inl h) = inl (ground (arith, pending_at-remove s.pending uid j node))
      kept j (inr h) = inr h

  visit_pending-charge :
      (uid : String) (a : AllocatedCpuset) (u : AllocatedUtilset) (rt : AllocatedRtCpu)
      (s : Visited) (t : NodeAllocationState)
      → lookup uid (entries s.crd.spec.allocated_claims) ≡ none
      → a ≡ record { rt_cpu = some rt }
      → charge_claim uid (record { rt_cpu = some rt }) s.crd ≡ ok t
      → visit_pending uid a u s ≡ ok (record s { crd = t })
  unfolding visit_pending
  visit_pending-charge uid a u rt s t new is_rt e = rw (visit_pending, new, is_rt, e) refl

  grown :
      (s : Visited) (t : NodeAllocationState)
      → ((j : String) (a : AllocatedCpuset)
          → lookup j (entries s.crd.spec.allocated_claims) ≡ some a
          → (b : AllocatedCpuset) × (lookup j (entries t.spec.allocated_claims) ≡ some b))
      → (j : String) → IsSettled node s j
      → IsSettled node (record s { crd = t }) j
  grown s t grows j (inl h) = inl h
  grown s t grows j (inr (a, h)) = inr (grows j a h)

  visit_at-VisitsOne :
      (uid : String) (s : Visited)
      → Absorbs s
      → (t : Visited) × (visit_at (λ (v : Visited). v.pending) visit_pending node uid s ≡ ok t)
        × VisitsOne uid s t
  unfolding visit_at visit_pending pending_at
  visit_at-VisitsOne uid s b = elim (Option-cases (lookup node (nodes_of s.pending uid))) [
    | inl e ↦ (s, rw (visit_at, e) refl, record { absorbs = b; settled = inl e; keeps = λ j h. h })
    | inr (a, e) ↦ elim (Option-cases (lookup uid (entries s.crd.spec.allocated_claims))) [
      | inl new ↦
          let safe = b.covered.tidy.pending uid a e in
          let new' : lookup uid b.covered.claims ≡ none =
            subst (λ o. lookup uid (entries o) ≡ none) b.covered.is_claims new in
          let (t, run, hit, grows, c) =
            charge_claim-Charges node uid safe.rt s.crd s.pending b.covered new'
              (e ∙ ap some safe.is_rt) safe.safe in
          (
            record s { crd = t },
            rw (visit_at, e)
                (visit_pending-charge uid a (util_or_zero (lookup node s.pending.utilisation))
                  safe.rt s t new safe.is_rt run),
            record {
              absorbs = Charges-Absorbs s.crd t s.pending safe.rt.cpuset b c;
              settled = inr (_, hit);
              keeps = grown s t grows;
            },
          )
      | inr (held, h) ↦ (
        record s { pending = Pending.remove s.pending uid },
        rw (visit_at, e, visit_pending, h) refl,
        removed-VisitsOne uid held s h b,
      )
    ]
  ]

  -- The visit of a list of claims.
  pub record VisitsAll (uids : List String) (s t : Visited) : Type 0 where
    pub absorbs : Absorbs t
    pub settled : All (IsSettled node t) uids
    pub keeps : (j : String) → IsSettled node s j → IsSettled node t j

  pub visit_uids-VisitsAll :
      (uids : List String) (s : Visited)
      → Absorbs s
      → (t : Visited) × (visit_uids (λ (v : Visited). v.pending) visit_pending node uids s ≡ ok t)
        × VisitsAll uids s t
  unfolding visit_uids
  visit_uids-VisitsAll [] s b = (s, refl, record { absorbs = b; settled = tt; keeps = λ j h. h })
  visit_uids-VisitsAll (uid ∷ uids) s b =
      let (t, run, one) = visit_at-VisitsOne uid s b in
      let (t', run', all) = visit_uids-VisitsAll uids t one.absorbs in
      (
        t',
        rw (visit_uids, run, ◌>>=◌) run',
        record {
          absorbs = all.absorbs;
          settled = (all.keeps uid one.settled, all.settled);
          keeps = λ j h. all.keeps j (one.keeps j h);
        },
      )
