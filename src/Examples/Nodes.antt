-- ===== src/Examples/Nodes.antt =====
-- The judgement of nodes against the small server.
use dra_rt_driver.Prelude.{
  ℕ, ◌≡◌, refl, String, string_key, true, false, Option, none, some, List, [], ◌∷◌,
}
use dra_rt_driver.Prelude.Int.{pos}
use dra_rt_driver.Prelude.Outcome.{Outcome, ok}
use dra_rt_driver.Nas.{NodeAllocationState, MappedUtil}
use dra_rt_driver.Pending.{PerNodeAllocatedClaims}
use dra_rt_driver.Resource.{ClaimAllocation}
use dra_rt_driver.Rt.{validate_claim_parameters, charge_claim}
use dra_rt_driver.Rt.Propose.{propose}
use dra_rt_driver.Controller.{Clientset, World, allocate, deallocate}
use dra_rt_driver.Controller.Record.{build_allocation_result, without_claim, unique, unique_loop}
use dra_rt_driver.Controller.Nodes.{
  unsuitable_node, unsuitable_nodes, unsuitable_loop, judge_node, rt_claims, type_of_claim,
}
use dra_rt_driver.Controller.Nodes.Verdicts.{Verdicts, Settled, unsuitable_nodes-Settled}
use dra_rt_driver.Controller.Nodes.Judging.{Judgement, unsuitable_node-Judgement}
use dra_rt_driver.Controller.{get_claim_parameters}
use dra_rt_driver.Prelude.{arith}
use dra_rt_driver.Nas.{with_cpus, empty_spec}
use dra_rt_driver.Controller.Record.{make_utils}
use dra_rt_driver.Examples.Fixtures.{wants_two}
use dra_rt_driver.Examples.Client.{Store}
use dra_rt_driver.Examples.Rt.{in_order}
use dra_rt_driver.Examples.Controller.{clients, world}

-- The judgement on the node for a pod with one claim for two CPUs.
abbrev judged : Outcome (List ClaimAllocation) × World Store
judged = unsuitable_node clients "dra" in_order (record { uid = "pod" }) (wants_two ∷ []) "a" world

abbrev claims_of : Outcome (List ClaimAllocation) → List ClaimAllocation
claims_of (ok cas) = cas
claims_of r = []

judged-ok : judged ≡ (ok (claims_of judged.0), judged.1)
unfolding unsuitable_node dra_rt_driver.Client.get dra_rt_driver.Nas.new_node_allocation_state
    judge_node dra_rt_driver.Controller.Record.make_utils
    dra_rt_driver.Controller.Record.make_claims rt_claims type_of_claim
    dra_rt_driver.Rt.unsuitable_node dra_rt_driver.Pending.visit_node
    dra_rt_driver.Pending.visit_uids dra_rt_driver.Pending.visit_at dra_rt_driver.Rt.visit_pending
    charge_claim dra_rt_driver.Rt.put_claim dra_rt_driver.Prelude.GoMap.assign
    dra_rt_driver.Nas.set_utilisation dra_rt_driver.Nas.add_cpus dra_rt_driver.Nas.add_cpu
    dra_rt_driver.Nas.util_at propose dra_rt_driver.Rt.Propose.propose_claims
    dra_rt_driver.Rt.Propose.propose_claim dra_rt_driver.Rt.Propose.available_cpus
    dra_rt_driver.Rt.Propose.claim_params dra_rt_driver.Nas.claim_util
    dra_rt_driver.Rt.Propose.copy_utils dra_rt_driver.Rt.Propose.take_found
    dra_rt_driver.Rt.Propose.take_cpus dra_rt_driver.Rt.Propose.take_cpu
    dra_rt_driver.Rt.place_claims dra_rt_driver.Rt.place_claim dra_rt_driver.Rt.place_new
    dra_rt_driver.Rt.charge_cpus dra_rt_driver.Rt.finish_placing dra_rt_driver.Pending.set
    dra_rt_driver.Pending.set_util dra_rt_driver.Partition.cpu_partitioning
    dra_rt_driver.Partition.scored_cpus dra_rt_driver.Prelude.GoMap.insert
    dra_rt_driver.Partition.score_of dra_rt_driver.Prelude.Int.sub_int
    dra_rt_driver.Prelude.Int.add_int dra_rt_driver.Prelude.Int.wrap dra_rt_driver.Prelude.Int.◌-ℤ◌
    dra_rt_driver.Prelude.Int.◌+ℤ◌ dra_rt_driver.Prelude.Int.quo_int
    dra_rt_driver.Prelude.Int.mul_int dra_rt_driver.Prelude.Int.◌*ℤ◌
    dra_rt_driver.Partition.first_cpus dra_rt_driver.Partition.sort_cpus
    dra_rt_driver.Partition.Sort.sort_stable dra_rt_driver.Prelude.Decimal.itoa
judged-ok = refl

unsuitable_node-Judgement_example :
    Judgement clients "dra" in_order
      (record { uid = "pod" })
      (wants_two ∷ [])
      "a"
      world
      (claims_of judged.0, judged.1)
unsuitable_node-Judgement_example =
    unsuitable_node-Judgement clients "dra" in_order (record { uid = "pod" }) (wants_two ∷ []) "a"
      world judged.1 (claims_of judged.0) judged-ok

-- The same pod and two nodes, of which the server knows one.
abbrev sorted_out : Outcome (List ClaimAllocation) × World Store
sorted_out =
    unsuitable_nodes clients "dra" in_order (record { uid = "pod" }) (wants_two ∷ [])
      ("a" ∷ "b" ∷ "b" ∷ []) world

abbrev settled : List ClaimAllocation
settled = record wants_two { unsuitable_nodes = "b" ∷ [] } ∷ []

-- The node that the server does not know is marked, once.
sorted_out-ok : sorted_out ≡ (ok settled, sorted_out.1)
unfolding unsuitable_node dra_rt_driver.Client.get dra_rt_driver.Nas.new_node_allocation_state
    judge_node dra_rt_driver.Controller.Record.make_utils
    dra_rt_driver.Controller.Record.make_claims rt_claims type_of_claim
    dra_rt_driver.Rt.unsuitable_node dra_rt_driver.Pending.visit_node
    dra_rt_driver.Pending.visit_uids dra_rt_driver.Pending.visit_at dra_rt_driver.Rt.visit_pending
    charge_claim dra_rt_driver.Rt.put_claim dra_rt_driver.Prelude.GoMap.assign
    dra_rt_driver.Nas.set_utilisation dra_rt_driver.Nas.add_cpus dra_rt_driver.Nas.add_cpu
    dra_rt_driver.Nas.util_at propose dra_rt_driver.Rt.Propose.propose_claims
    dra_rt_driver.Rt.Propose.propose_claim dra_rt_driver.Rt.Propose.available_cpus
    dra_rt_driver.Rt.Propose.claim_params dra_rt_driver.Nas.claim_util
    dra_rt_driver.Rt.Propose.copy_utils dra_rt_driver.Rt.Propose.take_found
    dra_rt_driver.Rt.Propose.take_cpus dra_rt_driver.Rt.Propose.take_cpu
    dra_rt_driver.Rt.place_claims dra_rt_driver.Rt.place_claim dra_rt_driver.Rt.place_new
    dra_rt_driver.Rt.charge_cpus dra_rt_driver.Rt.finish_placing dra_rt_driver.Pending.set
    dra_rt_driver.Pending.set_util dra_rt_driver.Partition.cpu_partitioning
    dra_rt_driver.Partition.scored_cpus dra_rt_driver.Prelude.GoMap.insert
    dra_rt_driver.Partition.score_of dra_rt_driver.Prelude.Int.sub_int
    dra_rt_driver.Prelude.Int.add_int dra_rt_driver.Prelude.Int.wrap dra_rt_driver.Prelude.Int.◌-ℤ◌
    dra_rt_driver.Prelude.Int.◌+ℤ◌ dra_rt_driver.Prelude.Int.quo_int
    dra_rt_driver.Prelude.Int.mul_int dra_rt_driver.Prelude.Int.◌*ℤ◌
    dra_rt_driver.Partition.first_cpus dra_rt_driver.Partition.sort_cpus
    dra_rt_driver.Partition.Sort.sort_stable dra_rt_driver.Prelude.Decimal.itoa unsuitable_nodes
    unsuitable_loop unique unique_loop dra_rt_driver.Rt.mark_unsuitable
sorted_out-ok = refl

unsuitable_nodes-Settled_example :
    (marked : List String) × Verdicts clients "dra" in_order
      (record { uid = "pod" })
      (wants_two ∷ [])
      world
      ("a" ∷ "b" ∷ "b" ∷ [])
      marked
    × Settled marked (wants_two ∷ []) settled
unsuitable_nodes-Settled_example =
    unsuitable_nodes-Settled clients "dra" in_order (record { uid = "pod" }) ("a" ∷ "b" ∷ "b" ∷ [])
      (wants_two ∷ []) settled world sorted_out.1 sorted_out-ok
