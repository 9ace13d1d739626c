-- ===== src/Rt/Whole.antt =====
-- rt.go, allocate: the function as a whole, from the record of the node.
use dra_rt_driver.Prelude.{◌≡◌, string_key, Option, List, [], ◌∷◌, All}
use dra_rt_driver.Prelude.GoMap.{insert, entries, All-insert, HasDistinctKeys-insert}
use dra_rt_driver.Prelude.Outcome.{ok, ◌>>=◌}
use dra_rt_driver.Nas.{MappedUtil, NodeAllocationState}
use dra_rt_driver.Resource.{ClaimAllocation}
use dra_rt_driver.Rt.Propose.{RangeOrder, Proposal, propose, copy_utils}
use dra_rt_driver.Rt.Within.{IsWithin, IsWithinEntry}
use dra_rt_driver.Rt.Pods.{IsServed, HoldsRt, KeepsWithin, propose_claims-KeepsWithin}
use dra_rt_driver.Rt.ZeroPeriod.{available_cpus-ok}

-- The copy of the utilisations that the function works on is within the bounds of the original.
pub copy_utils-IsWithin :
    (m acc : MappedUtil) → All IsWithinEntry m → IsWithin acc → IsWithin (copy_utils m acc)
unfolding copy_utils
copy_utils-IsWithin [] acc all w = w
copy_utils-IsWithin ((id, cpu) ∷ rest) acc all w =
    copy_utils-IsWithin rest (insert id cpu acc) all.1 (record {
      distinct = HasDistinctKeys-insert id cpu acc w.distinct;
      all = All-insert IsWithinEntry id cpu acc all.0 w.all;
    })

-- Whatever the claims of a pod and the orders of iteration: on a node whose CPUs stand once each under
-- their numbers, all below 950 thousandths, and whose record holds real-time claims only, for claims
-- with sound parameters, `allocate` ends with no panic, and the utilisation that it returns has every
-- CPU below 950 thousandths again, unless the pod is refused.
pub propose-KeepsWithin :
    (range : RangeOrder) (crd : NodeAllocationState) (cas : List ClaimAllocation)
    → HoldsRt crd
    → All IsServed cas
    → IsWithin (entries crd.spec.allocated_util_to_cpu.cpus)
    → (r : Option Proposal) × (propose range crd cas ≡ ok r) × KeepsWithin r
unfolding propose
propose-KeepsWithin range crd cas holds served within =
    let utils = entries crd.spec.allocated_util_to_cpu.cpus in
    let (available, read) = available_cpus-ok crd.spec.allocatable_cpuset [] in
    let (r, run, keeps) =
      propose_claims-KeepsWithin range crd cas
        (record { allocated = []; util = copy_utils utils []; available = available }) holds served
        (copy_utils-IsWithin utils [] within.all (record { distinct = tt; all = tt })) in
    (r, rw (propose, read, ◌>>=◌) run, keeps)
