-- ===== src/Plugin/State/Start.antt =====
-- cmd/dra-rt-kubeletplugin/state.go, NewDeviceState: the state of a plugin that has just started.
use dra_rt_driver.Prelude.{String, List, []}
use dra_rt_driver.Prelude.Int.{ℤ}
use dra_rt_driver.Prelude.Outcome.{
  wrap_error, cdi_handler, refreshing_registry, common_spec_file, sync_prepared_back,
}
use dra_rt_driver.Prelude.Exec.{Exec, lift, on_error, ◌>>◌}
use dra_rt_driver.Nas.{NodeAllocationStateSpec}
use dra_rt_driver.Plugin.Devices.{DeviceState}
use dra_rt_driver.Plugin.Discovery.{enumerate_cpusets}
use dra_rt_driver.Plugin.Cdi.{CdiLib, create_common_spec_file}
use dra_rt_driver.Plugin.State.{sync_prepared_from_spec, sync_allocated_util_from_allocatable}

module _ {R : Type 0} (lib : CdiLib R) where
  -- `NewCDIHandler`
  unfoldable pub new_cdi_handler : Exec R (Unit {0})
  new_cdi_handler = on_error refreshing_registry lib.refresh

  -- `NewDeviceState` on a node with these CPUs and this name, from the record's spec.
  unfoldable pub new_device_state : List ℤ → String → NodeAllocationStateSpec → Exec R DeviceState
  unfolding new_cdi_handler
  new_device_state cpu_info node_name spec = do
    on_error cdi_handler new_cdi_handler
    on_error common_spec_file (create_common_spec_file lib node_name)
    let state : DeviceState = record {
      allocatable = enumerate_cpusets cpu_info;
      prepared = [];
      allocated_util = [];
    }
    lift (
        wrap_error sync_prepared_back
          (sync_prepared_from_spec (sync_allocated_util_from_allocatable state) spec))
