-- ===== src/Examples/History.antt =====
-- The controller over nodes with three CPUs each: a node is judged for a pod, and the claim is
-- allocated there, and the callback is made.
use dra_rt_driver.Prelude.{
  ℕ, ◌<◌, ◌≡◌, refl, String, string_key, ◌==◌, Bool-cases, inl, inr, Option, none, some, [], ◌∷◌,
  List, arith,
}
use dra_rt_driver.Prelude.Int.{pos}
use dra_rt_driver.Prelude.Decimal.{itoa, atoi}
use dra_rt_driver.Prelude.GoMap.{lookup}
use dra_rt_driver.Prelude.Outcome.{Outcome, ok}
use dra_rt_driver.Nas.{NodeAllocationState, claim_util, add_cpus, add_cpu, set_utilisation}
use dra_rt_driver.Pending
use dra_rt_driver.Pending.{PerNodeAllocatedClaims, new_per_node_allocated_claims}
use dra_rt_driver.Partition.{cpu_partitioning}
use dra_rt_driver.Resource.{ClaimAllocation}
use dra_rt_driver.Rt
use dra_rt_driver.Rt.{
  OnSuccess, call_on_success, unsuitable_node, place_claims, place_claim, place_new, charge_cpus,
  finish_placing, charge_claim, put_claim,
}
use dra_rt_driver.Rt.Propose.{
  propose, propose_claims, propose_claim, available_cpus, claim_params, copy_utils, take_found,
  take_cpus, take_cpu,
}
use dra_rt_driver.Rt.Covered.{IsSafe, IsCovered}
use dra_rt_driver.Rt.Upkeep.{unsuitable_node-IsCovered}
use dra_rt_driver.Controller.History.{Cluster, write_record, judges, allocates, start, later}
use dra_rt_driver.Controller.History.Limit.{
  IsUpright, IsUpright-IsCovered, Promises, promised_below_limit,
}
use dra_rt_driver.Examples.Fixtures.{
  node_a, two_cpus, two_cpus_rt, utils, wants_two, claim_named, tenth-IsSound, quarter-IsSound,
}
use dra_rt_driver.Examples.Rt.{
  in_order, utils-IsWithin, wants_two-IsServed, pod, judgement, judgement-ok, or_nothing,
}

two_cpus-IsSafe : IsSafe two_cpus
unfolding itoa atoi
two_cpus-IsSafe = record {
  rt = two_cpus_rt;
  is_rt = refl;
  safe = (
    record { sound = tenth-IsSound; canonical = refl },
    (record { sound = quarter-IsSound; canonical = refl }, tt),
  );
}

pub node_a-IsUpright : IsUpright node_a
node_a-IsUpright = record {
  claims = ("held", two_cpus) ∷ [];
  is_claims = refl;
  utils = utils;
  is_utils = refl;
  within = utils-IsWithin;
  held = λ uid a e. elim (Bool-cases ("held" == uid)) [
    | inl hit ↦
        let f : some two_cpus ≡ some a = rw hit at e in
        let g : two_cpus ≡ a = cc in rw (← g) two_cpus-IsSafe
    | inr miss ↦ absurd (let f : none ≡ some a = rw miss at e in cc)
  ];
}

abbrev before : Cluster
before = record { records = λ n. node_a; pending = new_per_node_allocated_claims }

abbrev nothing_pending : PerNodeAllocatedClaims
nothing_pending = record { allocations = []; utilisation = [] }

nothing-eq-new : nothing_pending ≡ new_per_node_allocated_claims
unfolding new_per_node_allocated_claims
nothing-eq-new = refl

unsuitable_node-IsCovered_example :
    (r : PerNodeAllocatedClaims × List ClaimAllocation) × (unsuitable_node in_order
        new_per_node_allocated_claims node_a pod
        (wants_two ∷ [])
        (wants_two ∷ [])
        "a"
      ≡ ok r)
    × IsCovered "a" node_a r.0
unsuitable_node-IsCovered_example =
    unsuitable_node-IsCovered in_order new_per_node_allocated_claims node_a pod (wants_two ∷ [])
      (wants_two ∷ []) "a" (IsUpright-IsCovered "a" node_a node_a-IsUpright)
      (wants_two-IsServed, tt) (tt, tt)

abbrev judged : Cluster
judged = record before { pending = (or_nothing judgement).0 }

abbrev allocation : Outcome (NodeAllocationState × Option OnSuccess)
allocation = Rt.allocate judged.pending node_a (claim_named "new") "a"

abbrev or_node :
    Outcome (NodeAllocationState × Option OnSuccess) → NodeAllocationState × Option OnSuccess
or_node (ok r) = r
or_node r = (node_a, none)

allocation-ok : allocation ≡ ok ((or_node allocation).0, (or_node allocation).1)
unfolding unsuitable_node Pending.visit_node Pending.visit_uids propose propose_claims propose_claim
    available_cpus claim_params claim_util copy_utils take_found take_cpus take_cpu place_claims
    place_claim place_new charge_cpus finish_placing Pending.set Pending.set_util cpu_partitioning
    dra_rt_driver.Partition.scored_cpus dra_rt_driver.Prelude.GoMap.insert
    dra_rt_driver.Partition.score_of dra_rt_driver.Prelude.Int.sub_int
    dra_rt_driver.Prelude.Int.wrap dra_rt_driver.Prelude.Int.◌-ℤ◌ dra_rt_driver.Prelude.Int.quo_int
    dra_rt_driver.Prelude.Int.mul_int dra_rt_driver.Prelude.Int.◌*ℤ◌
    dra_rt_driver.Partition.first_cpus dra_rt_driver.Partition.sort_cpus
    dra_rt_driver.Partition.Sort.sort_stable Rt.allocate charge_claim put_claim set_utilisation
    add_cpus add_cpu Pending.exists Pending.get dra_rt_driver.Prelude.GoMap.assign
    dra_rt_driver.Prelude.Int.add_int dra_rt_driver.Prelude.Int.◌+ℤ◌ itoa atoi
allocation-ok = refl

promised_below_limit_example :
    (load : ℕ) × Promises (or_node allocation).0 judged.pending "a" "0" load × (load < 950)
promised_below_limit_example =
    promised_below_limit (λ n. node_a) (write_record "a" (or_node allocation).0 judged) "a" "0"
      (λ n. node_a-IsUpright)
      (later
        (later start (
          judges in_order "a" pod (wants_two ∷ []) (wants_two ∷ []) (or_nothing judgement)
            (wants_two-IsServed, tt) (tt, tt) (rw (← nothing-eq-new) judgement-ok) refl))
        (allocates (claim_named "new") "a" (or_node allocation).0 (or_node allocation).1
          allocation-ok refl))
