-- ===== src/Examples/Lifecycle.antt =====
-- The plugin on the small server: it starts, and it is shut down.
use dra_rt_driver.Prelude.{◌≡◌, refl, string_key, List, [], ◌∷◌}
use dra_rt_driver.Prelude.Int.{ℤ, pos}
use dra_rt_driver.Prelude.Outcome.{Outcome, ok, err, failed, crd_status}
use dra_rt_driver.Nas.{status_ready}
use dra_rt_driver.Client
use dra_rt_driver.Resource.{rt_claim}
use dra_rt_driver.Rt.{mark_unsuitable}
use dra_rt_driver.Controller.{World, allocate}
use dra_rt_driver.Controller.Nodes.{unsuitable_node}
use dra_rt_driver.Plugin.Devices.{DeviceState}
use dra_rt_driver.Plugin.State
use dra_rt_driver.Plugin.State.Start.{new_device_state, new_cdi_handler}
use dra_rt_driver.Plugin.Driver.{Node, shutdown, shutdown_attempt, new_driver, new_driver_attempt}
use dra_rt_driver.Programs.KubeletPlugin.Lifecycle.{HasStatus, shutdown_stops_node}
use dra_rt_driver.Programs.KubeletPlugin.Starting.{new_driver-Ready}
use dra_rt_driver.Examples.Fixtures.{node_a, tenths, claim_named, wants_two}
use dra_rt_driver.Examples.Client.{Store, store_api, store_api-IsServer, store}
use dra_rt_driver.Examples.Controller.{clients, world}
use dra_rt_driver.Examples.Plugin.{cdi_lib, started}
use dra_rt_driver.Examples.Programs.{once, once-IsAttempting, store_api-IsCreator}
use dra_rt_driver.Examples.Rt.{in_order, pod}

abbrev plugin : Node Store (Unit {0}) DeviceState
plugin = record { server = store 0; registry = tt; nascrd = node_a; state = started }

abbrev stopped : Outcome (Unit {0}) × Node Store (Unit {0}) DeviceState
stopped = shutdown once store_api cdi_lib plugin

stopped-ok : stopped ≡ (ok tt, stopped.1)
unfolding shutdown shutdown_attempt Client.get Client.update_status
stopped-ok = refl

abbrev meanwhile : World Store
meanwhile = record world { server = stopped.1.server }

shutdown_stops_node_example :
    (unsuitable_node clients "dra" in_order pod (wants_two ∷ []) "a" meanwhile
      ≡ (ok (mark_unsuitable "a" (wants_two ∷ [])), meanwhile))
    × (allocate clients "dra" (claim_named "new") (rt_claim tenths) "a" meanwhile
        ≡ (err (failed crd_status), meanwhile))
shutdown_stops_node_example =
    shutdown_stops_node clients once cdi_lib "dra" "a" plugin stopped.1 meanwhile in_order pod
      (wants_two ∷ []) (claim_named "new") (rt_claim tenths) store_api-IsServer store_api-IsCreator
      once-IsAttempting refl refl refl stopped-ok refl

abbrev fresh : Node Store (Unit {0}) (Unit {0})
fresh = record { server = store 0; registry = tt; nascrd = node_a; state = tt }

abbrev cpus : List ℤ
cpus = pos 0 ∷ pos 1 ∷ []

abbrev driven : Outcome DeviceState × Node Store (Unit {0}) (Unit {0})
driven = new_driver once store_api cdi_lib cpus "a" fresh

abbrev state_of : Outcome DeviceState → DeviceState
state_of (ok d) = d
state_of r = started

driven-ok : driven ≡ (ok (state_of driven.0), driven.1)
unfolding new_driver new_driver_attempt Client.get_or_create Client.get Client.update_status
    Client.update dra_rt_driver.Client.update_loop new_device_state new_cdi_handler
    dra_rt_driver.Plugin.State.get_updated_spec dra_rt_driver.Plugin.State.sync_prepared_to_spec
    dra_rt_driver.Plugin.State.sync_prepared_loop dra_rt_driver.Plugin.Discovery.enumerate_cpusets
    dra_rt_driver.Plugin.State.sync_prepared_from_spec dra_rt_driver.Plugin.State.restore_loop
    dra_rt_driver.Plugin.Cdi.create_common_spec_file
driven-ok = refl

new_driver-Ready_example : HasStatus store_api "dra" "a" status_ready driven.1.server
new_driver-Ready_example =
    new_driver-Ready once store_api cdi_lib "dra" "a" "a" cpus fresh driven.1 (state_of driven.0)
      store_api-IsServer store_api-IsCreator once-IsAttempting refl refl driven-ok
