-- ===== src/Rt/Absorbing.antt =====
-- rt.go, UnsuitableNode: after the visit the fetched record has all that is pending on the node.
use dra_rt_driver.Prelude.{
  ℕ, ◌+◌, ◌≤◌, ◌≡◌, ◌⊎◌, refl, sym, ap, ◌∙◌, subst, String, string_key, ◌==◌, Option, none, some,
  [], ◌∷◌, All, arith, Bool-cases, inl, inr,
}
use dra_rt_driver.Prelude.Int.{pos, pos_part}
use dra_rt_driver.Prelude.GoMap.{GoMap, lookup, entries, All-lookup}
use dra_rt_driver.Prelude.Outcome.{ok}
use dra_rt_driver.Nas.{AllocatedCpuset, NodeAllocationState, util_at}
use dra_rt_driver.Pending
use dra_rt_driver.Pending.{
  PerNodeAllocatedClaims, visit_at, visit_uids, nodes_of, util_or_zero, keys,
}
use dra_rt_driver.Pending.View.{pending_at}
use dra_rt_driver.Rt.{Visited, visit_pending}
use dra_rt_driver.Rt.Commitment.{waiting, pending_load, pending_load-none}
use dra_rt_driver.Rt.Covered.{IsCovered}
use dra_rt_driver.Rt.Visiting.{IsSettled, visit_uids-VisitsAll}

-- A key is in the list of the keys, or has no entry.
lookup-keys :
    (P : String → Type 0) (m : GoMap String (GoMap String AllocatedCpuset)) (uid : String)
    → All P (keys m)
    → (lookup uid m ≡ none) ⊎ P uid
lookup-keys P [] uid a = inl refl
lookup-keys P ((j, v) ∷ m) uid a = elim (Bool-cases (j == uid)) [
  | inl hit ↦ inr (subst P ((string_key.same_iff j uid).0 hit) a.0)
  | inr miss ↦ elim (lookup-keys P m uid a.1) [ inl h ↦ inl (rw miss h) | inr h ↦ inr h ]
]

settled-waiting :
    (k node : String) (v : Visited)
    → ((j : String) → IsSettled node v j)
    → (uid : String) (nodes : GoMap String AllocatedCpuset)
    → lookup uid v.pending.allocations ≡ some nodes
    → waiting k (lookup uid (entries v.crd.spec.allocated_claims)) (lookup node nodes) ≡ 0
unfolding waiting pending_at
settled-waiting k node v settled uid nodes e = elim (settled uid) [
  | inl h ↦
      let h' : lookup node nodes ≡ none = rw e at h in
      rw h' (no_pending (lookup uid (entries v.crd.spec.allocated_claims)))
  | inr (a, h) ↦ rw h refl
]
  where
    no_pending : (o : Option AllocatedCpuset) → waiting k o none ≡ 0
    no_pending none = refl
    no_pending (some a) = refl

-- After the visit: the fetched record is covered, nothing that is pending on the node waits, and what
-- was pending on top of the first record is in the record.
pub record IsVisited (node : String) (crd : NodeAllocationState) (v : Visited) : Type 0 where
  pub covered : IsCovered node v.crd v.pending
  pub dominates :
      (k : String) (u w : ℕ)
      → util_at k (entries crd.spec.allocated_util_to_cpu.cpus) ≡ pos u
      → util_at k (entries v.crd.spec.allocated_util_to_cpu.cpus) ≡ pos w
      → u + pending_load k node (entries crd.spec.allocated_claims) v.pending.allocations ≤ w

pub visit_node-IsVisited :
    (node : String) (crd : NodeAllocationState) (p : PerNodeAllocatedClaims)
    → IsCovered node crd p
    → (v : Visited) × (Pending.visit_node
          (λ (s : Visited). s.pending)
          node
          visit_pending
          (record { crd = crd; pending = p })
        ≡ ok v)
      × IsVisited node crd v
unfolding Pending.visit_node pending_at
visit_node-IsVisited node crd p c =
    let held0 = entries crd.spec.allocated_claims in
    let m0 = entries crd.spec.allocated_util_to_cpu.cpus in
    let s : Visited = record { crd = crd; pending = p } in
    let (v, run, all) = visit_uids-VisitsAll node held0 m0 (keys p.allocations) s (record {
      covered = c;
      dominates = λ k u w e f. let q : u ≡ w = ap pos_part (sym e ∙ f) in omega (arith);
    }) in
    let settled : (j : String) → IsSettled node v j = λ j.
      elim (lookup-keys (IsSettled node v) p.allocations j all.settled) [
        | inl h ↦ all.keeps j (inl (rw h refl))
        | inr h ↦ h
      ] in
    (
      v,
      run,
      record {
        covered = all.absorbs.covered;
        dominates = λ k u w e f.
            let h = all.absorbs.dominates k u w e f in
            let z =
              pending_load-none k node (entries v.crd.spec.allocated_claims) v.pending.allocations (
                All-lookup _ v.pending.allocations all.absorbs.covered.tidy.keys
                  (settled-waiting k node v settled)) in
            omega arith;
      },
    )
