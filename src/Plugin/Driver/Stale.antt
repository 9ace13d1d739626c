-- ===== src/Plugin/Driver/Stale.antt =====
-- driver.go of the plugin, nodePrepareResource: the device is named from the plugin's copy of the
-- record before the latest record is read.
use dra_rt_driver.Prelude.{◌≡◌, refl, String, string_key, none, some, All}
use dra_rt_driver.Prelude.GoMap.{lookup, entries}
use dra_rt_driver.Prelude.Outcome.{
  ok, err, failed, within, preparing_devices, cdi_names, cdi_devices_nil,
}
use dra_rt_driver.Nas.{AllocatedRtCpu, NodeAllocationState}
use dra_rt_driver.Nas.Load.{IsSoundCpu}
use dra_rt_driver.Client.{NasApi}
use dra_rt_driver.Client
use dra_rt_driver.Plugin.Devices.{DeviceState}
use dra_rt_driver.Plugin.Cdi.{CdiLib, write_cgroup_to_cdi}
use dra_rt_driver.Plugin.State.Laws.{HasVersions, with_prepared, prepare-nil_devices}
use dra_rt_driver.Plugin.Driver.{Node, prepare, prepare_attempt}

module _ {S R : Type 0} (server : NasApi S) (lib : CdiLib R) (law : HasVersions lib) where
  -- With a CDI library that finds a version for every spec: the first attempt for a claim that the
  -- server's record holds, with sound reservations, and the plugin's copy does not, where the claim
  -- is not prepared, fails for want of a device name, but reads the record and keeps the claim as
  -- prepared in memory, without telling the server.
  pub prepare_attempt-stale :
      (uid : String) (rt : AllocatedRtCpu) (w : Node S R DeviceState) (crd : NodeAllocationState)
      (s : S)
      → lookup uid (entries w.nascrd.spec.allocated_claims) ≡ none
      → server.fetch w.nascrd.meta.namespace w.nascrd.meta.name w.server ≡ (ok crd, s)
      → lookup uid (entries crd.spec.allocated_claims) ≡ some (record { rt_cpu = some rt })
      → lookup uid w.state.prepared ≡ none
      → All IsSoundCpu rt.cpuset
      → prepare_attempt server lib uid w ≡ (
        err (within preparing_devices (within cdi_names (failed cdi_devices_nil))),
        record w { server = s; nascrd = crd; state = with_prepared uid rt w.state },
      )
  unfolding prepare_attempt prepare Client.get write_cgroup_to_cdi
  prepare_attempt-stale uid rt w crd s stale reads held fresh sound =
      rw
        (
          prepare_attempt,
          write_cgroup_to_cdi,
          stale,
          prepare,
          Client.get,
          reads,
          held,
          prepare-nil_devices lib law uid rt w.state w.registry fresh sound,
        )
        refl
