-- ===== src/Examples/Plugin.antt =====
-- The plugin on a small node, with a CDI library that writes no files.
use dra_rt_driver.Prelude.{◌≡◌, if◌then◌else◌, refl, string_key, none, some, [], ◌∷◌}
use Prim.Native.String.{◌++◌ as text_append}
use dra_rt_driver.Prelude.Outcome.{
  Outcome, ok, err, failed, within, is_conflict, preparing_devices, cdi_names, cdi_devices_nil,
}
use dra_rt_driver.Prelude.Exec.{Exec}
use dra_rt_driver.Nas.{empty_spec}
use dra_rt_driver.Plugin.Devices.{DeviceState}
use dra_rt_driver.Plugin.Cdi.{CdiLib}
use dra_rt_driver.Plugin.State.{prepare, unprepare}
use dra_rt_driver.Plugin.State.Laws.{
  prepared_of, HasVersions, Unprepares, with_prepared, prepare_twice, unprepare-Unprepares,
}
use dra_rt_driver.Nas.{NodeAllocationStateSpec}
use dra_rt_driver.Prelude.Int.{pos, int_key}
use dra_rt_driver.Prelude.{map}
use dra_rt_driver.Plugin.State.{get_updated_spec, sync_prepared_from_spec}
use dra_rt_driver.Plugin.State.Laws.{info_of}
use dra_rt_driver.Plugin.State.Restart.{map_values, remembered_claim, restart_remembers}
use dra_rt_driver.Plugin.Driver.{
  Node, Retry, prepare_attempt, unprepare_attempt, node_prepare_resource, node_unprepare_resource,
  prepare_response, unprepare_response,
}
use dra_rt_driver.Plugin.Driver.Attempts.{IsRetry, attempts_run_once}
use dra_rt_driver.Plugin.Driver.Stale.{prepare_attempt-stale}
use dra_rt_driver.Examples.Fixtures.{node_a, two_cpus, two_cpus_rt, tenth-IsSound, quarter-IsSound}
use dra_rt_driver.Examples.Client.{Store, store_api, store}

abbrev pub cdi_lib : CdiLib (Unit {0})
cdi_lib = record {
  refresh = λ r. (ok tt, r);
  minimum_required_version = λ spec. ok "0.3.0";
  generate_name_for_transient_spec = λ spec id. ok id;
  generate_transient_spec_name = λ vendor class id. id;
  qualified_name = λ vendor class name.
      text_append vendor (text_append "/" (text_append class (text_append "=" name)));
  write_spec = λ spec name r. (ok tt, r);
  remove_spec = λ name r. (ok tt, r);
}

cdi_lib-HasVersions : HasVersions cdi_lib
cdi_lib-HasVersions = record { versions = λ spec. ("0.3.0", refl) }

abbrev pub started : DeviceState
started = record { allocatable = []; prepared = []; allocated_util = [] }

prepare_twice_example :
    (prepare cdi_lib "held" two_cpus (some ("runtime-10.period-100" ∷ "0-1" ∷ [])) (started, tt) ≡ (
      ok ("runtime-10.period-100/CPUSET=0-1" ∷ []),
      (with_prepared "held" two_cpus_rt started, tt),
    ))
    × (prepare cdi_lib "held"
          (record { rt_cpu = none })
          (some ("runtime-10.period-100" ∷ "0-1" ∷ []))
          (with_prepared "held" two_cpus_rt started, tt)
        ≡ (
          ok ("runtime-10.period-100/CPUSET=0-1" ∷ []),
          (with_prepared "held" two_cpus_rt started, tt),
        ))
prepare_twice_example =
    prepare_twice cdi_lib cdi_lib-HasVersions "held" "runtime-10.period-100" "0-1" two_cpus_rt
      (record { rt_cpu = none }) started tt refl (tenth-IsSound, (quarter-IsSound, tt))

unprepare-Unprepares_example :
    Unprepares "held"
      (with_prepared "held" two_cpus_rt started)
      (unprepare cdi_lib "held" (with_prepared "held" two_cpus_rt started, tt)).1.0
      (unprepare cdi_lib "held" (with_prepared "held" two_cpus_rt started, tt)).0
unprepare-Unprepares_example =
    unprepare-Unprepares cdi_lib "held" (with_prepared "held" two_cpus_rt started) tt

-- A retry that tries a second time after a conflict.
abbrev pub again : {W A : Type 0} → Exec W A → Outcome A × W → Outcome A × W
again m (r, w) = if is_conflict r then m w else (r, w)

abbrev pub twice : Retry
twice = record { on_conflict = λ m w. again m (m w) }

pub twice-IsRetry : IsRetry twice
twice-IsRetry = record { returns = λ m w h. rw h refl }

-- The plugin holds an old copy of the record, without the claim.
abbrev behind : Node Store (Unit {0}) DeviceState
behind = record {
  server = store 0;
  registry = tt;
  nascrd = record node_a { spec = empty_spec };
  state = started;
}

attempts_run_once_example :
    (node_prepare_resource twice store_api cdi_lib "held" behind
      ≡ prepare_response (prepare_attempt store_api cdi_lib "held" behind))
    × (node_unprepare_resource twice store_api cdi_lib "held" behind
        ≡ unprepare_response (unprepare_attempt store_api cdi_lib "held" behind))
attempts_run_once_example = attempts_run_once store_api cdi_lib twice "held" behind twice-IsRetry

prepare_attempt-stale_example : prepare_attempt store_api cdi_lib "held" behind ≡ (
  err (within preparing_devices (within cdi_names (failed cdi_devices_nil))),
  record behind {
    server = store 0;
    nascrd = node_a;
    state = with_prepared "held" two_cpus_rt started;
  },
)
prepare_attempt-stale_example =
    prepare_attempt-stale store_api cdi_lib cdi_lib-HasVersions "held" two_cpus_rt behind node_a
      (store 0) refl refl refl refl (tenth-IsSound, (quarter-IsSound, tt))

-- The claim `held` is prepared, and the node has the CPUs 0 and 1.
abbrev running : DeviceState
running = record {
  allocatable =
      (pos 0, record { id = pos 0; util = pos 0 })
      ∷ (pos 1, record { id = pos 1; util = pos 0 })
      ∷ [];
  prepared = ("held", prepared_of two_cpus_rt) ∷ [];
  allocated_util = [];
}

abbrev restarted : DeviceState
restarted = record running { prepared = [] }

restart_remembers_example :
    (spec' : NodeAllocationStateSpec) × (get_updated_spec running empty_spec ≡ ok spec')
    × (sync_prepared_from_spec restarted spec'
        ≡ ok (record restarted {
          prepared = map_values (remembered_claim running.allocatable) running.prepared;
        }))
restart_remembers_example =
    restart_remembers running restarted empty_spec (tt, tt)
      (
        record {
          rt = record { cpuset = map info_of two_cpus_rt.cpuset };
          is_rt = refl;
          known = ((pos 0, refl), ((pos 0, refl), tt));
        },
        tt,
      )
      refl
