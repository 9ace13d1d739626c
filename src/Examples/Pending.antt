-- ===== src/Examples/Pending.antt =====
-- allocations.go at concrete records.
use dra_rt_driver.Prelude.{
  ◌≡◌, refl, String, string_key, ◌==◌, ◌&&◌, if◌then◌else◌, none, some, [], ◌∷◌,
}
use dra_rt_driver.Prelude.GoMap.{lookup-All}
use dra_rt_driver.Prelude.Outcome.{ok}
use dra_rt_driver.Nas.{AllocatedUtilset, MappedUtil}
use dra_rt_driver.Pending.{
  PerNodeAllocatedClaims, new_per_node_allocated_claims, set, remove, remove_node, remove_util,
  exists, get, nodes_of, is_some, or_zero,
}
use dra_rt_driver.Pending.View.{pending_at, operations_refine_table}
use dra_rt_driver.Pending.Release.{IsMade, IsSoundClaim}
use dra_rt_driver.Pending.Claims.{Leaves, reserved, remove_util-Leaves}
use dra_rt_driver.Examples.Fixtures.{two_cpus, two_cpus_rt, utils, tenth-IsSound, quarter-IsSound}

-- The claim `c` is pending on the nodes `a` and `b`, which both have utilisation data.
abbrev proposed : PerNodeAllocatedClaims
proposed = record {
  allocations = ("c", ("a", two_cpus) ∷ ("b", two_cpus) ∷ []) ∷ [];
  utilisation = ("a", record { cpus = some utils }) ∷ ("b", record { cpus = some utils }) ∷ [];
}

two_cpus-IsSoundClaim : IsSoundClaim two_cpus
two_cpus-IsSoundClaim = record {
  rt = two_cpus_rt;
  is_rt = refl;
  sound = (tenth-IsSound, (quarter-IsSound, tt));
}

proposed-IsMade : IsMade proposed.utilisation
proposed-IsMade = record {
  at = λ node us e.
      lookup-All
        (λ (x : String × AllocatedUtilset). (m : MappedUtil) × (x.1 ≡ record { cpus = some m }))
        node proposed.utilisation ((utils, refl), ((utils, refl), tt)) e;
}

operations_refine_table_example :
    (pending_at new_per_node_allocated_claims "c" "b" ≡ none)
    × (pending_at (set proposed "d" "a" two_cpus) "c" "b" ≡ (
        if ◌==◌ {A = String} "d" "c" && ◌==◌ {A = String} "a" "b"
        then some two_cpus
        else pending_at proposed "c" "b"))
    × (pending_at (remove_node proposed "d" "a") "c" "b" ≡ (
        if ◌==◌ {A = String} "d" "c" && ◌==◌ {A = String} "a" "b"
        then none
        else pending_at proposed "c" "b"))
    × (pending_at (remove proposed "d") "c" "b"
        ≡ (if ◌==◌ {A = String} "d" "c" then none else pending_at proposed "c" "b"))
    × (exists proposed "c" "b" ≡ is_some (pending_at proposed "c" "b"))
    × (get proposed "c" "b" ≡ or_zero (pending_at proposed "c" "b"))
operations_refine_table_example =
    operations_refine_table proposed "d" "a" two_cpus two_cpus_rt "c" "b" refl

remove_util-Leaves_example :
    (q : PerNodeAllocatedClaims) × (remove_util proposed "c" ≡ ok q)
    × Leaves (reserved (nodes_of proposed "c")) proposed q
remove_util-Leaves_example =
    remove_util-Leaves proposed "c" (two_cpus-IsSoundClaim, (two_cpus-IsSoundClaim, tt))
      proposed-IsMade
