-- ===== src/Examples/Rt.antt =====
-- rt.go on a node with three CPUs.
use dra_rt_driver.Prelude.{List}
use dra_rt_driver.Prelude.Outcome.{Outcome}
use dra_rt_driver.Nas.{claim_util}
use dra_rt_driver.Pending
use dra_rt_driver.Pending.{PerNodeAllocatedClaims}
use dra_rt_driver.Partition.{cpu_partitioning}
use dra_rt_driver.Resource.{Pod, ClaimAllocation}
use dra_rt_driver.Rt.{
  unsuitable_node, place_claims, place_claim, place_new, charge_cpus, finish_placing,
}
use dra_rt_driver.Rt.Propose.{
  propose, available_cpus, claim_params, copy_utils, take_found, take_cpus, take_cpu,
}
use dra_rt_driver.Rt.Whole.{propose-KeepsWithin}
use dra_rt_driver.Prelude.{
  ◌<◌, ◌≡◌, ◌⊎◌, inl, inr, refl, string_key, ◌==◌, Option, none, some, [], ◌∷◌, Bool-cases, arith,
}
use dra_rt_driver.Prelude.Int.{pos, pos_part}
use dra_rt_driver.Prelude.Decimal.{itoa, atoi}
use dra_rt_driver.Prelude.Outcome.{ok}
use dra_rt_driver.Nas.Load.{share}
use dra_rt_driver.Partition.Choice.{rooms}
use dra_rt_driver.Rt.Propose.{RangeOrder, Proposal, propose_claim, propose_claims}
use dra_rt_driver.Rt.Within.{IsWithin}
use dra_rt_driver.Rt.Pods.{IsServed, HoldsRt, Gives, KeepsWithin, propose_claim_new}
use dra_rt_driver.Examples.Fixtures.{node_a, two_cpus_rt, utils, wants_two, tenths, tenth-IsSound}
use dra_rt_driver.Examples.Partition.{utils-HasDistinctKeys}

-- Entries delivered in the order of insertion.
abbrev pub in_order : RangeOrder
in_order = record {
  order = λ n m. m;
  distinct = λ n m d. d;
  same = λ n m k d. refl;
  delivers = λ n m P a. a;
}

abbrev start : Proposal
start = record { allocated = []; util = utils; available = [] }

pub utils-IsWithin : IsWithin utils
unfolding itoa atoi
utils-IsWithin = record {
  distinct = utils-HasDistinctKeys;
  all = (
    record { used = 500; is_used = refl; within = omega arith; canonical = refl },
    (
      record { used = 200; is_used = refl; within = omega arith; canonical = refl },
      (record { used = 900; is_used = refl; within = omega arith; canonical = refl }, tt),
    ),
  );
}

abbrev pub wants_two-IsServed : IsServed wants_two
wants_two-IsServed = record {
  params = tenths;
  is_rt = refl;
  sound = record { sound = tenth-IsSound; modest = omega arith };
}

node_a-HoldsRt : HoldsRt node_a
node_a-HoldsRt = record {
  at = λ uid. elim (Bool-cases ("held" == uid)) [
    | inl hit ↦ inr (two_cpus_rt, rw hit refl)
    | inr miss ↦ inl (rw miss refl)
  ];
}

propose_claim_new_example :
    ((t : Proposal) × (propose_claim in_order node_a 0 wants_two start ≡ ok (some t))
      × Gives tenths "new" start t)
    ⊎ ((propose_claim in_order node_a 0 wants_two start ≡ ok none)
        × (rooms utils (pos (share (pos 10) (pos 100))) < pos_part (pos 2)))
propose_claim_new_example =
    propose_claim_new in_order node_a 0 wants_two start wants_two-IsServed refl utils-IsWithin

propose-KeepsWithin_example :
    (r : Option Proposal) × (propose in_order node_a (wants_two ∷ wants_two ∷ []) ≡ ok r)
    × KeepsWithin r
propose-KeepsWithin_example =
    propose-KeepsWithin in_order node_a (wants_two ∷ wants_two ∷ []) node_a-HoldsRt
      (wants_two-IsServed, (wants_two-IsServed, tt)) utils-IsWithin

abbrev pub pod : Pod
pod = record { uid = "pod" }

-- The judgement on the node for a pod with one claim for two CPUs.
abbrev pub judgement : Outcome (PerNodeAllocatedClaims × List ClaimAllocation)
judgement =
    unsuitable_node in_order (record { allocations = []; utilisation = [] }) node_a pod
      (wants_two ∷ []) (wants_two ∷ []) "a"

abbrev pub or_nothing :
    Outcome (PerNodeAllocatedClaims × List ClaimAllocation)
    → PerNodeAllocatedClaims × List ClaimAllocation
or_nothing (ok r) = r
or_nothing r = (record { allocations = []; utilisation = [] }, [])

pub judgement-ok : judgement ≡ ok (or_nothing judgement)
unfolding unsuitable_node Pending.visit_node Pending.visit_uids propose propose_claims propose_claim
    available_cpus claim_params claim_util copy_utils take_found take_cpus take_cpu place_claims
    place_claim place_new charge_cpus finish_placing Pending.set Pending.set_util cpu_partitioning
    dra_rt_driver.Partition.scored_cpus dra_rt_driver.Prelude.GoMap.insert
    dra_rt_driver.Partition.score_of dra_rt_driver.Prelude.Int.sub_int
    dra_rt_driver.Prelude.Int.wrap dra_rt_driver.Prelude.Int.◌-ℤ◌ dra_rt_driver.Prelude.Int.quo_int
    dra_rt_driver.Prelude.Int.mul_int dra_rt_driver.Prelude.Int.◌*ℤ◌
    dra_rt_driver.Partition.first_cpus dra_rt_driver.Partition.sort_cpus
    dra_rt_driver.Partition.Sort.sort_stable
judgement-ok = refl
