-- ===== src/Pending/View.antt =====
-- allocations.go as a table: the map of maps seen as one function of a claim and a node.
use dra_rt_driver.Prelude.{
  ◌≡◌, refl, ap, String, string_key, ◌==◌, if◌then◌else◌, ◌&&◌, Option, none, some, arith,
  Option-cases, inl, inr,
}
use dra_rt_driver.Prelude.GoMap.{lookup, insert, delete, lookup-insert, lookup-delete}
use dra_rt_driver.Nas.{AllocatedCpuset, AllocatedRtCpu}
use dra_rt_driver.Pending.{
  PerNodeAllocatedClaims, new_per_node_allocated_claims, nodes_of, is_some, or_zero, exists, get,
  set, remove_node, remove,
}

-- The allocation that is pending for a claim on a node.
unfoldable pub pending_at : PerNodeAllocatedClaims → String → String → Option AllocatedCpuset
pending_at p uid node = lookup node (nodes_of p uid)

pub pending_at-set :
    (p : PerNodeAllocatedClaims) (uid node : String) (d : AllocatedCpuset) (r : AllocatedRtCpu)
    (uid' node' : String)
    → d.rt_cpu ≡ some r
    → pending_at (set p uid node d) uid' node'
      ≡ (if uid == uid' && node == node' then some d else pending_at p uid' node')
unfolding pending_at set
pending_at-set p uid node d r uid' node' e =
    rw (e, set)
      (ground (
        arith,
        lookup-insert uid uid' (insert node d (nodes_of p uid)) p.allocations,
        lookup-insert node node' d (nodes_of p uid),
        string_key.same_iff uid uid',
        ap (λ (u : String). nodes_of p u) {x = uid} {y = uid'},
      ))

pub pending_at-remove :
    (p : PerNodeAllocatedClaims) (uid uid' node' : String)
    → pending_at (remove p uid) uid' node' ≡ (if uid == uid' then none else pending_at p uid' node')
unfolding pending_at remove
pending_at-remove p uid uid' node' = ground (arith, lookup-delete uid uid' p.allocations)

pub pending_at-remove_node :
    (p : PerNodeAllocatedClaims) (uid node uid' node' : String)
    → pending_at (remove_node p uid node) uid' node'
      ≡ (if uid == uid' && node == node' then none else pending_at p uid' node')
unfolding pending_at remove_node
pending_at-remove_node p uid node uid' node' = elim (Option-cases (lookup uid p.allocations)) [
  | inl e ↦
      rw (e, remove_node)
        (ground (
          arith,
          e,
          string_key.same_iff uid uid',
          ap (λ (u : String). nodes_of p u) {x = uid} {y = uid'},
        ))
  | inr (nodes, e) ↦
      rw (e, remove_node)
        (ground (
          arith,
          e,
          lookup-insert uid uid' (delete node nodes) p.allocations,
          lookup-delete node node' nodes,
          string_key.same_iff uid uid',
          ap (λ (u : String). nodes_of p u) {x = uid} {y = uid'},
        ))
]

pub exists-eq-is_some :
    (p : PerNodeAllocatedClaims) (uid node : String)
    → exists p uid node ≡ is_some (pending_at p uid node)
unfolding exists pending_at
exists-eq-is_some p uid node = ground arith

pub get-eq-or_zero :
    (p : PerNodeAllocatedClaims) (uid node : String)
    → get p uid node ≡ or_zero (pending_at p uid node)
unfolding get pending_at
get-eq-or_zero p uid node = ground arith

-- The record of maps behaves as one table from pairs of a claim and a node to allocations: empty at
-- first; `Set` of a real-time allocation changes one entry, `RemoveNode` clears one, `Remove` clears
-- all entries of a claim; `Exists` tells whether there is an entry, and `Get` reads it.
pub operations_refine_table :
    (p : PerNodeAllocatedClaims) (uid node : String) (d : AllocatedCpuset) (r : AllocatedRtCpu)
    (uid' node' : String)
    → d.rt_cpu ≡ some r
    → (pending_at new_per_node_allocated_claims uid' node' ≡ none)
      × (pending_at (set p uid node d) uid' node'
          ≡ (if uid == uid' && node == node' then some d else pending_at p uid' node'))
      × (pending_at (remove_node p uid node) uid' node'
          ≡ (if uid == uid' && node == node' then none else pending_at p uid' node'))
      × (pending_at (remove p uid) uid' node'
          ≡ (if uid == uid' then none else pending_at p uid' node'))
      × (exists p uid' node' ≡ is_some (pending_at p uid' node'))
      × (get p uid' node' ≡ or_zero (pending_at p uid' node'))
operations_refine_table p uid node d r uid' node' e = (
  unfold pending_at new_per_node_allocated_claims in refl,
  pending_at-set p uid node d r uid' node' e,
  pending_at-remove_node p uid node uid' node',
  pending_at-remove p uid uid' node',
  exists-eq-is_some p uid' node',
  get-eq-or_zero p uid' node',
)
