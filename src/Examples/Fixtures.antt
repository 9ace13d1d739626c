-- ===== src/Examples/Fixtures.antt =====
-- The nodes, claims and maps that the examples share.
use dra_rt_driver.Prelude.{
  ◌≡◌, ◌≢◌, refl, sym, ◌∙◌, String, string_key, ◌==◌, false, none, some, [], ◌∷◌, arith,
}
use mathlib.Core.Bool.{false≢true}
use dra_rt_driver.Prelude.Int.{pos}
use dra_rt_driver.Nas.{
  AllocatedCpu, AllocatedRtCpu, AllocatedCpuset, MappedUtil, NodeAllocationState, status_ready,
}
use dra_rt_driver.Nas.Load.{IsSound}
use dra_rt_driver.Params.{RtClaimParametersSpec}
use dra_rt_driver.Resource.{ResourceClaim, ClaimAllocation, rt_claim}

pub ne_of_test : (a b : String) → (a == b) ≡ false → a ≢ b
ne_of_test a b h e = false≢true (sym h ∙ (string_key.same_iff a b).1 e)

-- A reservation of a tenth of CPU 0, and one of a quarter of CPU 1.
abbrev pub tenth_of_0 : AllocatedCpu
tenth_of_0 = record { id = pos 0; runtime = pos 10; period = pos 100 }

abbrev pub quarter_of_1 : AllocatedCpu
quarter_of_1 = record { id = pos 1; runtime = pos 25; period = pos 100 }

pub tenth-IsSound : IsSound (pos 10) (pos 100)
tenth-IsSound = record {
  runtime_nonneg = refl;
  period_positive = omega arith;
  product_fits = omega arith;
}

pub quarter-IsSound : IsSound (pos 25) (pos 100)
quarter-IsSound = record {
  runtime_nonneg = refl;
  period_positive = omega arith;
  product_fits = omega arith;
}

abbrev pub two_cpus_rt : AllocatedRtCpu
two_cpus_rt = record { cpuset = tenth_of_0 ∷ quarter_of_1 ∷ []; cgroup_uid = "pod" }

abbrev pub two_cpus : AllocatedCpuset
two_cpus = record { rt_cpu = some two_cpus_rt }

-- CPU 0 has 500 thousandths in use, CPU 1 has 200, CPU 2 has 900.
abbrev pub utils : MappedUtil
utils =
    ("0", record { util = pos 500 })
    ∷ ("1", record { util = pos 200 })
    ∷ ("2", record { util = pos 900 })
    ∷ []

-- A node that is ready and holds the claim `held`.
abbrev pub node_a : NodeAllocationState
node_a = record {
  meta = record { name = "a"; namespace = "dra"; resource_version = "7"; owners = [] };
  spec = record {
    allocatable_cpuset = [];
    allocated_claims = some (("held", two_cpus) ∷ []);
    prepared_claims = none;
    allocated_util_to_cpu = record { cpus = some utils };
  };
  status = status_ready;
}

abbrev pub tenths : RtClaimParametersSpec
tenths = record { count = pos 2; runtime = pos 10; period = pos 100 }

abbrev pub claim_named : String → ResourceClaim
claim_named uid = record {
  uid = uid;
  namespace = "default";
  parameters_ref = none;
  allocation = none;
}

-- A claim for a tenth of two CPUs.
abbrev pub wants_two : ClaimAllocation
wants_two = record {
  claim = claim_named "new";
  class = record { parameters_ref = none };
  claim_parameters = rt_claim tenths;
  class_parameters = none;
  unsuitable_nodes = [];
  allocation = none;
  error = none;
}
