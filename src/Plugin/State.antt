-- ===== src/Plugin/State.antt =====
-- cmd/dra-rt-kubeletplugin/state.go: what the plugin has prepared. A method runs under the lock of
-- the state. The state comes back beside the outcome, with the registry of the CDI library.
pub mod Laws
pub mod Start
pub mod Restart
use dra_rt_driver.Prelude.{
  String, string_key, ◌==◌, if◌then◌else◌, Option, none, some, List, [], ◌∷◌, ◌++◌, map,
}
use dra_rt_driver.Prelude.Int.{ℤ, pos, int_key}
use dra_rt_driver.Prelude.Decimal.{itoa}
use dra_rt_driver.Prelude.GoMap.{GoMap, lookup, insert, delete, entries}
use dra_rt_driver.Prelude.Outcome
use dra_rt_driver.Prelude.Outcome.{
  Outcome, ok, err, panic, failed, within, deref, wrap_error, nil_dereference, unknown_device_type,
  allocation_failed, cdi_names, claim_spec_file, delete_spec_file, unprepare_failed,
  sync_allocatable, sync_prepared,
}
use dra_rt_driver.Prelude.Exec.{Exec, pure, lift, fail, on_error, ◌>>=◌, ◌>>◌}
use dra_rt_driver.Nas.{
  AllocatedCpu, AllocatedRtCpu, AllocatedCpuset, AllocatableCpuset, PreparedCpu, AllocatedUtil,
  MappedUtil, NodeAllocationStateSpec, claim_util, allocated_type, rt_cpu_type,
}
use dra_rt_driver.Nas
use dra_rt_driver.Plugin.Devices.{
  RtCpuInfo, PreparedRtCpuInfo, PreparedRtCpu, PreparedCpuset, AllocatableRtCpus, PreparedClaims,
  DeviceState, prepared_type,
}
use dra_rt_driver.Plugin.Cdi.{
  CdiLib, create_claim_spec_file, delete_claim_spec_file, get_claim_devices,
}

-- The loop of `prepareRtCpus`; the period is not copied.
unfoldable pub prepare_cpus :
    List AllocatedCpu → List PreparedRtCpuInfo → Outcome (List PreparedRtCpuInfo)
prepare_cpus [] cpuset = ok cpuset
prepare_cpus (device ∷ devices) cpuset =
    Outcome.◌>>=◌ (claim_util device.runtime device.period) λ util. prepare_cpus devices (
      cpuset
      ++ record { id = device.id; util = util; runtime = device.runtime; period = pos 0 } ∷ [])

-- `prepareRtCpus`
unfoldable pub prepare_rt_cpus : AllocatedRtCpu → Outcome PreparedRtCpu
unfolding prepare_cpus
prepare_rt_cpus allocated =
    Outcome.◌>>=◌ (prepare_cpus allocated.cpuset []) λ cpuset. ok (record { cpuset = cpuset })

-- The switch of `Prepare` on the type of the allocation.
unfoldable pub prepare_devices : AllocatedCpuset → Outcome PreparedCpuset
unfolding prepare_rt_cpus
prepare_devices allocation = elim allocation.rt_cpu [
  | none ↦ err (failed unknown_device_type)
  | some rt ↦ Outcome.◌>>=◌ (prepare_rt_cpus rt) λ prepared. ok (record { rt_cpu = some prepared })
]

-- `unprepareRtCpus`
unfoldable pub unprepare_rt_cpus : PreparedCpuset → Outcome (Unit {0})
unprepare_rt_cpus devices = ok tt

module _ {R : Type 0} (lib : CdiLib R) where
  -- `Prepare`
  unfoldable pub prepare :
      String → AllocatedCpuset → Option (List String) → Exec (DeviceState × R) (List String)
  unfolding prepare_devices
  prepare uid allocation rt_cdi_devices (s, r) =
      elim (lookup uid s.prepared) as (λ _. Outcome (List String) × (DeviceState × R)) [
        | some prepared ↦
            (wrap_error cdi_names (get_claim_devices lib prepared rt_cdi_devices), (s, r))
        | none ↦
            (do
              prepared ← lift (wrap_error allocation_failed (prepare_devices allocation))
              lift (wrap_error claim_spec_file (create_claim_spec_file lib prepared))
              λ w. (ok tt, (record w.0 { prepared = insert uid prepared w.0.prepared }, w.1))
              lift (wrap_error cdi_names (get_claim_devices lib prepared rt_cdi_devices)))
              (s, r)
      ]

  unfoldable pub unprepare_devices : PreparedCpuset → Outcome (Unit {0})
  unprepare_devices devices =
      if prepared_type devices == rt_cpu_type
      then wrap_error unprepare_failed (unprepare_rt_cpus devices)
      else err (failed unknown_device_type)

  -- `Unprepare`
  unfoldable pub unprepare : String → Exec (DeviceState × R) (Unit {0})
  unfolding unprepare_devices
  unprepare uid (s, r) =
      elim (lookup uid s.prepared) as (λ _. Outcome (Unit {0}) × (DeviceState × R)) [
        | none ↦ (ok tt, (s, r))
        | some prepared ↦
            (do
              lift (unprepare_devices prepared)
              on_error delete_spec_file (λ w. (
                (delete_claim_spec_file lib uid w.1).0,
                (w.0, (delete_claim_spec_file lib uid w.1).1),
              ))
              λ w. (ok tt, (record w.0 { prepared = delete uid w.0.prepared }, w.1)))
              (s, r)
      ]

-- `syncAllocatableRtCpusToCRDSpec`: the CPUs by number, then the entries of that map.
unfoldable pub cpus_by_id :
    AllocatableRtCpus → GoMap ℤ AllocatableCpuset → GoMap ℤ AllocatableCpuset
cpus_by_id [] cpus = cpus
cpus_by_id ((i, device) ∷ rest) cpus = cpus_by_id rest (
    insert device.id (record { rt_cpu = some (record { id = device.id; util = device.util }) })
      cpus)

abbrev values {ℓ κ} : {K : Type ℓ} {V : Type κ} → List (K × V) → List V
values [] = []
values ((k, v) ∷ m) = v ∷ values m

unfoldable pub sync_allocatable_to_spec :
    DeviceState → NodeAllocationStateSpec → NodeAllocationStateSpec
unfolding cpus_by_id
sync_allocatable_to_spec s spec = record spec {
  allocatable_cpuset = values (cpus_by_id s.allocatable []);
}

-- One claim of `syncPreparedRtCpuToCRDSpec`: number and utilisation of each CPU.
unfoldable pub prepared_to_spec : List PreparedRtCpuInfo → List PreparedCpu
prepared_to_spec [] = []
prepared_to_spec (device ∷ devices) =
    record { id = device.id; util = device.util } ∷ prepared_to_spec devices

unfoldable pub sync_prepared_loop :
    PreparedClaims → GoMap String Nas.PreparedCpuset → Outcome (GoMap String Nas.PreparedCpuset)
unfolding prepared_to_spec
sync_prepared_loop [] outcas = ok outcas
sync_prepared_loop ((claim, devices) ∷ rest) outcas = elim devices.rt_cpu [
  | none ↦ err (failed unknown_device_type)
  | some rt ↦ sync_prepared_loop rest (
      insert claim (record { rt_cpu = some (record { cpuset = prepared_to_spec rt.cpuset }) })
        outcas)
]

-- `syncPreparedRtCpuToCRDSpec`
unfoldable pub sync_prepared_to_spec :
    DeviceState → NodeAllocationStateSpec → Outcome NodeAllocationStateSpec
unfolding sync_prepared_loop
sync_prepared_to_spec s spec =
    Outcome.◌>>=◌ (sync_prepared_loop s.prepared [])
      λ outcas. ok (record spec { prepared_claims = some outcas })

-- `GetUpdatedSpec`: `inspec` is copied deeply, so the copy is the value itself.
unfoldable pub get_updated_spec :
    DeviceState → NodeAllocationStateSpec → Outcome NodeAllocationStateSpec
unfolding sync_allocatable_to_spec sync_prepared_to_spec
get_updated_spec s inspec =
    wrap_error sync_prepared (sync_prepared_to_spec s (sync_allocatable_to_spec s inspec))

-- One claim of `syncPreparedCpusetFromCRDSpec`: number and utilisation come from the allocatable
-- CPU, which must be there.
unfoldable pub prepared_from_spec :
    AllocatableRtCpus → List PreparedCpu → List PreparedRtCpuInfo → Outcome (List PreparedRtCpuInfo)
prepared_from_spec cpus [] cpuset = ok cpuset
prepared_from_spec cpus (d ∷ ds) cpuset = Outcome.◌>>=◌ (deref (lookup d.id cpus)) λ info.
    prepared_from_spec cpus ds
      (cpuset ++ record { id = info.id; util = info.util; runtime = pos 0; period = pos 0 } ∷ [])

unfoldable pub restore_loop :
    AllocatableRtCpus → GoMap String Nas.PreparedCpuset → PreparedClaims → Outcome PreparedClaims
unfolding prepared_from_spec
restore_loop cpus [] prepared = ok prepared
restore_loop cpus ((claim, devices) ∷ rest) prepared = elim devices.rt_cpu [
  | none ↦ err (failed unknown_device_type)
  | some rt ↦ Outcome.◌>>=◌ (prepared_from_spec cpus rt.cpuset []) λ cpuset.
      restore_loop cpus rest
        (insert claim (record { rt_cpu = some (record { cpuset = cpuset }) }) prepared)
]

-- `syncPreparedCpusetFromCRDSpec`
unfoldable pub sync_prepared_from_spec : DeviceState → NodeAllocationStateSpec → Outcome DeviceState
unfolding restore_loop
sync_prepared_from_spec s spec =
    Outcome.◌>>=◌ (restore_loop s.allocatable (entries spec.prepared_claims) [])
      λ prepared. ok (record s { prepared = prepared })

unfoldable pub utils_to_spec : GoMap ℤ ℤ → MappedUtil → MappedUtil
utils_to_spec [] utils = utils
utils_to_spec ((id, util) ∷ rest) utils =
    utils_to_spec rest (insert (itoa id) (record { util = util }) utils)

-- `syncAllocatedUtilToCRDSpec`
unfoldable pub sync_allocated_util_to_spec :
    DeviceState → NodeAllocationStateSpec → NodeAllocationStateSpec
unfolding utils_to_spec
sync_allocated_util_to_spec s spec = record spec {
  allocated_util_to_cpu = record { cpus = some (utils_to_spec s.allocated_util []) };
}

unfoldable pub utils_of_allocatable : AllocatableRtCpus → GoMap ℤ ℤ → GoMap ℤ ℤ
utils_of_allocatable [] utils = utils
utils_of_allocatable ((i, device) ∷ rest) utils =
    utils_of_allocatable rest (insert device.id device.util utils)

-- `syncAllocatedUtilFromAllocatableRtCpu`
unfoldable pub sync_allocated_util_from_allocatable : DeviceState → DeviceState
unfolding utils_of_allocatable
sync_allocated_util_from_allocatable s = record s {
  allocated_util = utils_of_allocatable s.allocatable [];
}
