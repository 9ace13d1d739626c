-- ===== src/Pending.antt =====
-- cmd/dra-rt-controller/allocations.go: the allocations that the controller has proposed, for each
-- claim and node, and has not yet written to the API server. Each method runs under the lock of the
-- record; a method that changes the record returns the new one.
pub mod View
pub mod Release
pub mod Claims
pub mod Unchanged
pub mod Locking
use dra_rt_driver.Prelude.{
  String, string_key, ◌==◌, if◌then◌else◌, Bool, true, false, Option, none, some, List, [], ◌∷◌,
  map,
}
use dra_rt_driver.Prelude.Int.{ℤ, pos, ltb_ℤ, sub_int}
use dra_rt_driver.Prelude.Decimal.{itoa}
use dra_rt_driver.Prelude.GoMap.{GoMap, lookup, insert, delete, assign, entries}
use dra_rt_driver.Prelude.Outcome.{Outcome, ok, deref, ◌>>=◌}
use dra_rt_driver.Nas.{
  AllocatedCpu, AllocatedCpuset, AllocatedUtilset, MappedUtil, util_at, claim_util,
}

pub record PerNodeAllocatedClaims : Type 0 where
  pub allocations : GoMap String (GoMap String AllocatedCpuset)
  pub utilisation : GoMap String AllocatedUtilset

-- `NewPerNodeAllocatedClaims`
unfoldable pub new_per_node_allocated_claims : PerNodeAllocatedClaims
new_per_node_allocated_claims = record { allocations = []; utilisation = [] }

-- `p.allocations[claimUID]`: a missing entry is a nil map, which reads as empty.
abbrev pub nodes_of : PerNodeAllocatedClaims → String → GoMap String AllocatedCpuset
nodes_of p uid = entries (lookup uid p.allocations)

abbrev pub is_some {ℓ} : {A : Type ℓ} → Option A → Bool
is_some none = false
is_some (some a) = true

-- `Exists`
unfoldable pub exists : PerNodeAllocatedClaims → String → String → Bool
exists p uid node = elim (lookup uid p.allocations) [
  | none ↦ false
  | some nodes ↦ is_some (lookup node nodes)
]

-- `ExistsUtil`
unfoldable pub exists_util : PerNodeAllocatedClaims → String → Bool
exists_util p node = is_some (lookup node p.utilisation)

abbrev pub or_zero : Option AllocatedCpuset → AllocatedCpuset
or_zero none = record { rt_cpu = none }
or_zero (some a) = a

abbrev pub util_or_zero : Option AllocatedUtilset → AllocatedUtilset
util_or_zero none = record { cpus = none }
util_or_zero (some u) = u

-- `Get`
unfoldable pub get : PerNodeAllocatedClaims → String → String → AllocatedCpuset
unfolding exists
get p uid node =
    if exists p uid node then or_zero (lookup node (nodes_of p uid)) else record { rt_cpu = none }

-- `GetUtil`
unfoldable pub get_util : PerNodeAllocatedClaims → String → AllocatedUtilset
unfolding exists_util
get_util p node =
    if exists_util p node then util_or_zero (lookup node p.utilisation) else record { cpus = none }

-- `Set`
unfoldable pub set :
    PerNodeAllocatedClaims → String → String → AllocatedCpuset → PerNodeAllocatedClaims
set p uid node devices = elim devices.rt_cpu [
  | none ↦ p
  | some _ ↦ record p {
    allocations = insert uid (insert node devices (nodes_of p uid)) p.allocations;
  }
]

-- `SetUtil`: the entry that is made for a new node is overwritten at once.
unfoldable pub set_util :
    PerNodeAllocatedClaims → String → AllocatedUtilset → PerNodeAllocatedClaims
set_util p node devices = record p { utilisation = insert node devices p.utilisation }

-- `RemoveNode`
unfoldable pub remove_node : PerNodeAllocatedClaims → String → String → PerNodeAllocatedClaims
remove_node p uid node = elim (lookup uid p.allocations) [
  | none ↦ p
  | some nodes ↦ record p { allocations = insert uid (delete node nodes) p.allocations }
]

-- `Remove`
unfoldable pub remove : PerNodeAllocatedClaims → String → PerNodeAllocatedClaims
remove p uid = record p { allocations = delete uid p.allocations }

-- `if newUtil < 0 { newUtil = 0 }`
abbrev pub clamp_zero : ℤ → ℤ
clamp_zero z = if ltb_ℤ z (pos 0) then pos 0 else z

-- One round of the inner loop of `RemoveUtil` and `RemoveUtilOtherNodes`.
unfoldable pub release_cpu : AllocatedCpu → Option MappedUtil → Outcome (Option MappedUtil)
release_cpu cpu util = do
  let id = itoa cpu.id
  used ← claim_util cpu.runtime cpu.period
  let new_util = sub_int (util_at id (entries util)) used
  assign id (record { util = clamp_zero new_util }) util

unfoldable pub release_cpus : List AllocatedCpu → Option MappedUtil → Outcome (Option MappedUtil)
release_cpus [] util = ok util
release_cpus (cpu ∷ rest) util = release_cpu cpu util >>= release_cpus rest

-- The body of the outer loop, where the node has utilisation data.
unfoldable pub release_node :
    String
    → AllocatedCpuset
    → AllocatedUtilset
    → PerNodeAllocatedClaims
    → Outcome PerNodeAllocatedClaims
release_node node allocated utilset p = do
  claim ← deref allocated.rt_cpu
  util ← release_cpus claim.cpuset utilset.cpus
  ok (record p { utilisation = insert node (record { cpus = util }) p.utilisation })

unfoldable pub remove_util_at :
    String → AllocatedCpuset → PerNodeAllocatedClaims → Outcome PerNodeAllocatedClaims
remove_util_at node allocated p = elim (lookup node p.utilisation) [
  | none ↦ ok p
  | some utilset ↦ release_node node allocated utilset p
]

unfoldable pub remove_util_loop :
    GoMap String AllocatedCpuset → PerNodeAllocatedClaims → Outcome PerNodeAllocatedClaims
remove_util_loop [] p = ok p
remove_util_loop ((node, allocated) ∷ rest) p =
    remove_util_at node allocated p >>= remove_util_loop rest

-- `RemoveUtil`
unfoldable pub remove_util : PerNodeAllocatedClaims → String → Outcome PerNodeAllocatedClaims
remove_util p uid = remove_util_loop (nodes_of p uid) p

unfoldable pub remove_other_at :
    String → String → AllocatedCpuset → PerNodeAllocatedClaims → Outcome PerNodeAllocatedClaims
remove_other_at current node allocated p = elim (lookup node p.utilisation) [
  | none ↦ ok p
  | some utilset ↦ if node == current then ok p else release_node node allocated utilset p
]

unfoldable pub remove_other_loop :
    String → GoMap String AllocatedCpuset → PerNodeAllocatedClaims → Outcome PerNodeAllocatedClaims
remove_other_loop current [] p = ok p
remove_other_loop current ((node, allocated) ∷ rest) p =
    remove_other_at current node allocated p >>= remove_other_loop current rest

-- `RemoveUtilOtherNodes`
unfoldable pub remove_util_other_nodes :
    PerNodeAllocatedClaims → String → String → Outcome PerNodeAllocatedClaims
remove_util_other_nodes p uid current = remove_other_loop current (nodes_of p uid) p

abbrev pub keys {ℓ κ} : {K : Type ℓ} {V : Type κ} → List (K × V) → List K
keys [] = []
keys ((k, v) ∷ m) = k ∷ keys m

-- The visitors run with the lock released and may change the record, which is a part of their state
-- `S`; an entry that is gone when its turn comes is not delivered.
module _ {S : Type 0} (pending : S → PerNodeAllocatedClaims) where
  unfoldable pub visit_at :
      (String → AllocatedCpuset → AllocatedUtilset → S → Outcome S)
      → String
      → String
      → S
      → Outcome S
  visit_at visitor node uid s = elim (lookup node (nodes_of (pending s) uid)) [
    | none ↦ ok s
    | some allocation ↦
        visitor uid allocation (util_or_zero (lookup node (pending s).utilisation)) s
  ]

  unfoldable pub visit_uids :
      (String → AllocatedCpuset → AllocatedUtilset → S → Outcome S)
      → String
      → List String
      → S
      → Outcome S
  visit_uids visitor node [] s = ok s
  visit_uids visitor node (uid ∷ uids) s =
      visit_at visitor node uid s >>= visit_uids visitor node uids

  -- `VisitNode`
  unfoldable pub visit_node :
      String → (String → AllocatedCpuset → AllocatedUtilset → S → Outcome S) → S → Outcome S
  unfolding visit_at
  visit_node node visitor s = visit_uids visitor node (keys (pending s).allocations) s

  unfoldable pub visit_nodes :
      (String → String → AllocatedCpuset → S → Outcome S) → String → List String → S → Outcome S
  visit_nodes visitor uid [] s = ok s
  visit_nodes visitor uid (node ∷ nodes) s =
      elim (lookup node (nodes_of (pending s) uid)) as (λ _. Outcome S) [
        | none ↦ ok s
        | some allocation ↦ visitor uid node allocation s
      ]
      >>= visit_nodes visitor uid nodes

  unfoldable pub visit_claims :
      (String → String → AllocatedCpuset → S → Outcome S) → List String → S → Outcome S
  visit_claims visitor [] s = ok s
  visit_claims visitor (uid ∷ uids) s =
      visit_nodes visitor uid (keys (nodes_of (pending s) uid)) s >>= visit_claims visitor uids

  -- `Visit`
  unfoldable pub visit : (String → String → AllocatedCpuset → S → Outcome S) → S → Outcome S
  visit visitor s = visit_claims visitor (keys (pending s).allocations) s
