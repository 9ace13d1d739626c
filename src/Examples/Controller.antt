-- ===== src/Examples/Controller.antt =====
-- The controller against the small server, on a node with three CPUs.
use dra_rt_driver.Prelude.{
  ℕ, ◌≡◌, refl, sym, ap, ◌∙◌, String, string_key, true, false, Option, none, some, List, [], ◌∷◌,
}
use dra_rt_driver.Prelude.Int.{pos}
use dra_rt_driver.Prelude.Outcome.{ok_injective, Outcome, ok, panic, divide_by_zero}
use dra_rt_driver.Nas.{NodeAllocationState, MappedUtil}
use dra_rt_driver.Params.{
  RtClaimParametersSpec, default_device_class_parameters_spec, default_rt_claim_parameters_spec,
}
use dra_rt_driver.Pending.{PerNodeAllocatedClaims}
use dra_rt_driver.Resource.{ResourceClaim, ClaimAllocation, AllocationResult, rt_claim}
use dra_rt_driver.Rt.{validate_claim_parameters, charge_claim}
use dra_rt_driver.Rt.Propose.{propose}
use dra_rt_driver.Rt.ZeroPeriod.{zero_period_panics}
use dra_rt_driver.Controller.{Clientset, World, allocate, deallocate}
use dra_rt_driver.Controller.Record.{build_allocation_result, without_claim, unique, unique_loop}
use dra_rt_driver.Controller.{get_claim_parameters}
use dra_rt_driver.Rt.Within.{IsWithin}
use dra_rt_driver.Prelude.{arith}
use dra_rt_driver.Nas.{with_cpus, empty_spec}
use dra_rt_driver.Controller.Record.{make_utils}
use dra_rt_driver.Controller.Starting.{Lists, make_utils-IsWithin}
use dra_rt_driver.Controller.Deallocation.{IsRestored, charge_then_return}
use dra_rt_driver.Controller.Allocation.{IsPending, allocate-Commits, Reads, Commits}
use dra_rt_driver.Controller.Repeating.{allocate_twice}
use dra_rt_driver.Resource.{other_parameters}
use dra_rt_driver.Nas.{status_ready}
use dra_rt_driver.Controller.Returning.{deallocate-Returned, Returned}
use dra_rt_driver.Examples.Fixtures.{
  node_a, two_cpus, two_cpus_rt, utils, tenths, claim_named, wants_two, tenth-IsSound,
  quarter-IsSound,
}
use dra_rt_driver.Examples.Client.{Store, store_api, store_api-IsServer, store}
use dra_rt_driver.Examples.Rt.{in_order}

abbrev pub clients : Clientset Store
clients = record {
  nas = store_api;
  device_class_parameters = λ name s. (ok default_device_class_parameters_spec, s);
  rt_claim_parameters = λ ns name s. (ok default_rt_claim_parameters_spec, s);
}

-- The claim `new` is pending on the node.
abbrev pub world : World Store
world = record {
  server = store 0;
  pending = record {
    allocations = ("new", ("a", two_cpus) ∷ []) ∷ [];
    utilisation = ("a", record { cpus = some utils }) ∷ [];
  };
}

world-Reads : Reads clients "dra" "a" world node_a (("held", two_cpus) ∷ []) utils (store 0)
world-Reads = record {
  named = refl;
  reads = refl;
  ready = refl;
  has_claims = refl;
  has_utils = refl;
}

charge_then_return_example :
    (charged after : NodeAllocationState) × (charge_claim "new" two_cpus node_a ≡ ok charged)
    × (without_claim (claim_named "new") two_cpus_rt.cpuset charged ≡ ok after)
    × IsRestored two_cpus_rt.cpuset node_a after
charge_then_return_example =
    charge_then_return (claim_named "new") two_cpus_rt node_a (("held", two_cpus) ∷ []) utils refl
      refl refl (tenth-IsSound, (quarter-IsSound, tt))

abbrev zero_period : RtClaimParametersSpec
zero_period = record { count = pos 1; runtime = pos 10; period = pos 0 }

abbrev wants_zero_period : ClaimAllocation
wants_zero_period = record wants_two { claim_parameters = rt_claim zero_period }

zero_period_panics_example :
    (validate_claim_parameters zero_period ≡ ok tt)
    × (propose in_order node_a (wants_zero_period ∷ []) ≡ panic divide_by_zero)
zero_period_panics_example =
    zero_period_panics in_order node_a wants_zero_period [] zero_period refl refl refl refl

-- The outcome of the allocation of the claim `new`, and of the deallocation of the claim `held`.
abbrev allocated : Outcome AllocationResult × World Store
allocated = allocate clients "dra" (claim_named "new") (rt_claim tenths) "a" world

allocated-ok : allocated ≡ (ok (build_allocation_result "a" true), allocated.1)
unfolding allocate dra_rt_driver.Client.get dra_rt_driver.Nas.new_node_allocation_state
    dra_rt_driver.Controller.Record.make_utils dra_rt_driver.Controller.Record.make_claims
    dra_rt_driver.Controller.allocate_on dra_rt_driver.Rt.allocate dra_rt_driver.Pending.exists
    charge_claim dra_rt_driver.Prelude.GoMap.assign dra_rt_driver.Nas.set_utilisation
    dra_rt_driver.Prelude.GoMap.insert dra_rt_driver.Pending.get dra_rt_driver.Nas.add_cpus
    dra_rt_driver.Nas.add_cpu dra_rt_driver.Nas.claim_util dra_rt_driver.Client.update
    dra_rt_driver.Client.update_loop build_allocation_result
    dra_rt_driver.Controller.allocate_parameters dra_rt_driver.Pending.remove_util_other_nodes
    dra_rt_driver.Pending.remove_other_loop dra_rt_driver.Pending.remove_other_at
    dra_rt_driver.Pending.remove dra_rt_driver.Prelude.Decimal.itoa
    dra_rt_driver.Prelude.GoMap.delete dra_rt_driver.Rt.call_on_success dra_rt_driver.Rt.put_claim
allocated-ok = refl

new-IsPending : IsPending clients "dra" world.pending "new" "a" two_cpus_rt
unfolding dra_rt_driver.Pending.exists dra_rt_driver.Pending.get
new-IsPending = record { exists = refl; is_rt = refl }

allocate-Commits_example :
    (build_allocation_result "a" true ≡ build_allocation_result "a" true)
    × Commits clients "dra" "new" two_cpus_rt node_a (("held", two_cpus) ∷ []) utils allocated.1
unfolding dra_rt_driver.Pending.exists dra_rt_driver.Pending.get
allocate-Commits_example =
    allocate-Commits clients "dra" (claim_named "new") tenths "a" two_cpus_rt world allocated.1
      node_a (("held", two_cpus) ∷ []) utils (store 0) (build_allocation_result "a" true)
      store_api-IsServer world-Reads refl (record { exists = refl; is_rt = refl })
      (tenth-IsSound, (quarter-IsSound, tt)) allocated-ok

-- The server holds the record under the node's name, ready still.
allocated-found :
    (clients.nas.fetch "dra" "a" allocated.1.server
      ≡ (ok allocated.1.server.held, allocated.1.server))
    × (allocated.1.server.held.status ≡ status_ready)
unfolding allocate dra_rt_driver.Client.get dra_rt_driver.Nas.new_node_allocation_state
    dra_rt_driver.Controller.Record.make_utils dra_rt_driver.Controller.Record.make_claims
    dra_rt_driver.Controller.allocate_on dra_rt_driver.Rt.allocate dra_rt_driver.Pending.exists
    charge_claim dra_rt_driver.Prelude.GoMap.assign dra_rt_driver.Nas.set_utilisation
    dra_rt_driver.Prelude.GoMap.insert dra_rt_driver.Pending.get dra_rt_driver.Nas.add_cpus
    dra_rt_driver.Nas.add_cpu dra_rt_driver.Nas.claim_util dra_rt_driver.Client.update
    dra_rt_driver.Client.update_loop build_allocation_result
    dra_rt_driver.Controller.allocate_parameters dra_rt_driver.Pending.remove_util_other_nodes
    dra_rt_driver.Pending.remove_other_loop dra_rt_driver.Pending.remove_other_at
    dra_rt_driver.Pending.remove dra_rt_driver.Prelude.Decimal.itoa
    dra_rt_driver.Prelude.GoMap.delete dra_rt_driver.Rt.call_on_success dra_rt_driver.Rt.put_claim
allocated-found = (refl, refl)

still_ready :
    (c : NodeAllocationState) (t : Store)
    → clients.nas.fetch "dra" "a" allocated.1.server ≡ (ok c, t)
    → c.status ≡ status_ready
still_ready c t e =
    let f : (ok allocated.1.server.held, allocated.1.server) ≡ (ok c, t) =
      sym allocated-found.0 ∙ e in
    let same : allocated.1.server.held ≡ c = ok_injective (ap (λ r. r.0) f) in
    rw (← same) allocated-found.1

allocate_twice_example :
    allocate clients "dra" (claim_named "new") other_parameters "a" allocated.1
    ≡ (ok (build_allocation_result "a" true), allocated.1)
allocate_twice_example =
    allocate_twice clients "dra" (claim_named "new") tenths other_parameters "a" two_cpus_rt world
      allocated.1 node_a (("held", two_cpus) ∷ []) utils (store 0)
      (build_allocation_result "a" true) store_api-IsServer world-Reads refl new-IsPending
      (tenth-IsSound, (quarter-IsSound, tt)) allocated-ok still_ready

abbrev held_on_a : ResourceClaim
held_on_a = record (claim_named "held") { allocation = some (build_allocation_result "a" true) }

abbrev deallocated : Outcome (Unit {0}) × World Store
deallocated = deallocate clients "dra" held_on_a world

deallocated-ok : deallocated ≡ (ok tt, deallocated.1)
unfolding deallocate dra_rt_driver.Controller.Record.get_selected_node build_allocation_result
    dra_rt_driver.Controller.deallocate_from dra_rt_driver.Client.get
    dra_rt_driver.Nas.new_node_allocation_state dra_rt_driver.Nas.allocated_type
    dra_rt_driver.Rt.deallocate dra_rt_driver.Pending.remove_util
    dra_rt_driver.Pending.remove_util_loop dra_rt_driver.Controller.Record.return_cpus
    dra_rt_driver.Controller.Record.return_cpu dra_rt_driver.Prelude.Decimal.itoa
    dra_rt_driver.Nas.claim_util dra_rt_driver.Prelude.GoMap.insert dra_rt_driver.Client.update
    dra_rt_driver.Client.update_loop
deallocated-ok = refl

deallocate-Returned_example :
    Returned clients "dra" "held" two_cpus_rt.cpuset node_a node_a deallocated.1
unfolding dra_rt_driver.Controller.Record.get_selected_node build_allocation_result
    dra_rt_driver.Client.get dra_rt_driver.Nas.new_node_allocation_state
    dra_rt_driver.Controller.latest
deallocate-Returned_example =
    deallocate-Returned clients "dra" held_on_a "a" two_cpus_rt two_cpus node_a node_a world
      (record world { server = store 0 }) deallocated.1 (store 0) store_api-IsServer refl refl refl
      refl refl refl (tenth-IsSound, (quarter-IsSound, tt)) deallocated-ok

-- A claim that names its parameters.
abbrev referring : ResourceClaim
referring = record (claim_named "new") {
  parameters_ref = some (record {
    api_group = "rt.resource.example.com";
    kind = "RtClaimParameters";
    name = "tenths";
  });
}

referring-ok :
    get_claim_parameters clients "dra" referring world
    ≡ (ok default_rt_claim_parameters_spec, world)
unfolding get_claim_parameters validate_claim_parameters default_rt_claim_parameters_spec
referring-ok = refl

-- A node with one CPU, before the first claim.
abbrev fresh_node : NodeAllocationState
fresh_node = record node_a {
  spec = record empty_spec {
    allocatable_cpuset = record { rt_cpu = some (record { id = pos 3; util = pos 0 }) } ∷ [];
  };
}

make_utils-IsWithin_example :
    (m : MappedUtil) × (make_utils fresh_node ≡ ok (with_cpus fresh_node (some m)))
    × IsWithin m
    × Lists fresh_node.spec.allocatable_cpuset m
make_utils-IsWithin_example = make_utils-IsWithin fresh_node refl (
  record {
    cpu = record { id = pos 3; util = pos 0 };
    used = 0;
    is_rt = refl;
    is_used = refl;
    within = omega arith;
    numbered = omega arith;
  },
  tt,
)
