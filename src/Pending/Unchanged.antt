-- ===== src/Pending/Unchanged.antt =====
-- allocations.go: `RemoveUtil` and `RemoveUtilOtherNodes` leave the allocations alone.
use dra_rt_driver.Prelude.{
  ◌≡◌, ap, sym, ◌∙◌, String, string_key, ◌==◌, Bool-cases, Option-cases, inl, inr, [], ◌∷◌,
}
use dra_rt_driver.Prelude.GoMap.{GoMap, lookup}
use dra_rt_driver.Prelude.Outcome.{ok, deref, bind-ok, ok_injective}
use dra_rt_driver.Nas.{AllocatedCpuset, AllocatedUtilset}
use dra_rt_driver.Pending.{
  PerNodeAllocatedClaims, nodes_of, release_cpus, release_node, remove_util_at, remove_util_loop,
  remove_util, remove_other_at, remove_other_loop, remove_util_other_nodes,
}

release_node-allocations :
    (node : String) (a : AllocatedCpuset) (u : AllocatedUtilset) (p q : PerNodeAllocatedClaims)
    → release_node node a u p ≡ ok q
    → q.allocations ≡ p.allocations
unfolding release_node
release_node-allocations node a u p q h =
    let (rt, _, h') = bind-ok (deref a.rt_cpu) _ q h in
    let (util, _, e) = bind-ok (release_cpus rt.cpuset u.cpus) _ q h' in
    ap (λ (x : PerNodeAllocatedClaims). x.allocations) (sym (ok_injective e))

same_allocations : (p q : PerNodeAllocatedClaims) → ok p ≡ ok q → q.allocations ≡ p.allocations
same_allocations p q h = ap (λ (x : PerNodeAllocatedClaims). x.allocations) (sym (ok_injective h))

remove_util_at-allocations :
    (node : String) (a : AllocatedCpuset) (p q : PerNodeAllocatedClaims)
    → remove_util_at node a p ≡ ok q
    → q.allocations ≡ p.allocations
unfolding remove_util_at
remove_util_at-allocations node a p q h = elim (Option-cases (lookup node p.utilisation)) [
  | inl e ↦ same_allocations p q (rw (remove_util_at, e) at h)
  | inr (u, e) ↦ release_node-allocations node a u p q (rw (remove_util_at, e) at h)
]

remove_util_loop-allocations :
    (nodes : GoMap String AllocatedCpuset) (p q : PerNodeAllocatedClaims)
    → remove_util_loop nodes p ≡ ok q
    → q.allocations ≡ p.allocations
unfolding remove_util_loop
remove_util_loop-allocations [] p q h = same_allocations p q h
remove_util_loop-allocations ((node, a) ∷ rest) p q h =
    let (r, e, h') = bind-ok (remove_util_at node a p) (remove_util_loop rest) q h in
    remove_util_loop-allocations rest r q h' ∙ remove_util_at-allocations node a p r e

pub remove_util-allocations :
    (p q : PerNodeAllocatedClaims) (uid : String)
    → remove_util p uid ≡ ok q
    → q.allocations ≡ p.allocations
unfolding remove_util
remove_util-allocations p q uid h = remove_util_loop-allocations (nodes_of p uid) p q h

remove_other_at-allocations :
    (current node : String) (a : AllocatedCpuset) (p q : PerNodeAllocatedClaims)
    → remove_other_at current node a p ≡ ok q
    → q.allocations ≡ p.allocations
unfolding remove_other_at
remove_other_at-allocations current node a p q h = elim (Option-cases (lookup node p.utilisation)) [
  | inl e ↦ same_allocations p q (rw (remove_other_at, e) at h)
  | inr (u, e) ↦ elim (Bool-cases (node == current)) [
    | inl hit ↦ same_allocations p q (rw (remove_other_at, e, hit) at h)
    | inr miss ↦ release_node-allocations node a u p q (rw (remove_other_at, e, miss) at h)
  ]
]

remove_other_loop-allocations :
    (current : String) (nodes : GoMap String AllocatedCpuset) (p q : PerNodeAllocatedClaims)
    → remove_other_loop current nodes p ≡ ok q
    → q.allocations ≡ p.allocations
unfolding remove_other_loop
remove_other_loop-allocations current [] p q h = same_allocations p q h
remove_other_loop-allocations current ((node, a) ∷ rest) p q h =
    let (r, e, h') =
      bind-ok (remove_other_at current node a p) (remove_other_loop current rest) q h in
    remove_other_loop-allocations current rest r q h'
    ∙ remove_other_at-allocations current node a p r e

pub remove_util_other_nodes-allocations :
    (p q : PerNodeAllocatedClaims) (uid current : String)
    → remove_util_other_nodes p uid current ≡ ok q
    → q.allocations ≡ p.allocations
unfolding remove_util_other_nodes
remove_util_other_nodes-allocations p q uid current h =
    remove_other_loop-allocations current (nodes_of p uid) p q h
