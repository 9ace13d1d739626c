-- ===== src/Plugin/Driver.antt =====
-- cmd/dra-rt-kubeletplugin/driver.go: the calls that the kubelet makes. `d.nascrd` and the record of
-- the client are one object. `retry.RetryOnConflict` is the parameter `retry`.
pub mod Attempts
pub mod Stale
pub mod Keeping
use dra_rt_driver.Prelude.{String, string_key, Option, none, some, List, [], ◌∷◌}
use mathlib.Core.Option
use dra_rt_driver.Prelude.Int.{ℤ}
use dra_rt_driver.Prelude.GoMap.{GoMap, lookup, insert, delete, entries}
use dra_rt_driver.Prelude.Outcome.{
  Outcome, ok, err, panic, Error, within, preparing_devices, unpreparing_devices, getting_spec,
  preparing_resource, unpreparing_resource,
}
use dra_rt_driver.Prelude.Exec.{Exec, pure, lift, on_error, ◌>>=◌, ◌>>◌}
use dra_rt_driver.Nas.{
  AllocatedCpuset, NodeAllocationState, NodeAllocationStateSpec, status_ready, status_not_ready,
}
use dra_rt_driver.Client
use dra_rt_driver.Client.{NasApi}
use dra_rt_driver.Plugin.Devices.{DeviceState}
use dra_rt_driver.Plugin.Cdi.{CdiLib, write_cgroup_to_cdi}
use dra_rt_driver.Plugin.State
use dra_rt_driver.Plugin.State.{get_updated_spec}
use dra_rt_driver.Plugin.State.Start.{new_device_state}

-- The server, the CDI registry, the plugin's copy of the record, and the device state `D`, which is
-- trivial until the driver is made.
pub record Node (S R D : Type 0) : Type 0 where
  pub server : S
  pub registry : R
  pub nascrd : NodeAllocationState
  pub state : D

module _ {S R D : Type 0} where
  abbrev pub stored : Node S R D → Outcome NodeAllocationState × S → Outcome (Unit {0}) × Node S R D
  stored w (ok crd, s) = (ok tt, record w { server = s; nascrd = crd })
  stored w (err e, s) = (err e, record w { server = s })
  stored w (panic p, s) = (panic p, record w { server = s })

  -- A method of the client: when it returns nil, the record is what it has stored.
  abbrev pub on_client :
      (NodeAllocationState → Exec S NodeAllocationState) → Exec (Node S R D) (Unit {0})
  on_client m w = stored w (m w.nascrd w.server)

  abbrev pub on_registry : {A : Type 0} → Exec R A → Exec (Node S R D) A
  on_registry m w = ((m w.registry).0, record w { registry = (m w.registry).1 })

abbrev pub on_state : {S R A : Type 0} → Exec (DeviceState × R) A → Exec (Node S R DeviceState) A
on_state m w =
    let r = m (w.state, w.registry) in (r.0, record w { state = r.1.0; registry = r.1.1 })

-- `spec.AllocatedClaims[uid]`
abbrev pub allocation_of : String → NodeAllocationStateSpec → AllocatedCpuset
allocation_of uid spec = elim (lookup uid (entries spec.allocated_claims)) [
  | none ↦ record { rt_cpu = none }
  | some a ↦ a
]

-- A slice whose error is dropped: nil if there was one.
abbrev pub or_nil : Outcome (List String) → Outcome (Option (List String))
or_nil (ok devices) = ok (some devices)
or_nil (err e) = ok none
or_nil (panic p) = panic p

pub record NodePrepareResourceResponse : Type 0 where
  pub cdi_devices : List String
  pub error : Option Error

pub record NodeUnprepareResourceResponse : Type 0 where
  pub error : Option Error

module _ {S R : Type 0} (server : NasApi S) (lib : CdiLib R) where
  -- `prepare`
  unfoldable pub prepare : String → Option (List String) → Exec (Node S R DeviceState) (List String)
  prepare uid rt_cdi_devices = do
    on_client (Client.get server)
    λ w. on_state (State.prepare lib uid (allocation_of uid w.nascrd.spec) rt_cdi_devices) w

  -- `delete(d.nascrd.Spec.PreparedClaims, claimUID)`
  unfoldable pub forget_prepared : String → NodeAllocationState → NodeAllocationState
  forget_prepared uid nas = record nas {
    spec = record nas.spec { prepared_claims = Option.map (delete uid) nas.spec.prepared_claims };
  }

  -- `unprepare`
  unfoldable pub unprepare : String → Exec (Node S R DeviceState) (Unit {0})
  unfolding forget_prepared
  unprepare uid = do
    on_client (Client.get server)
    on_state (State.unprepare lib uid)
    λ w. (ok tt, record w { nascrd = forget_prepared uid w.nascrd })

  -- The update has failed with `e`: an error of `Unprepare` is logged and dropped.
  abbrev keep_error : {W : Type 0} → Error → Outcome (Unit {0}) × W → Outcome (Unit {0}) × W
  keep_error e (ok u, w) = (err e, w)
  keep_error e (err x, w) = (err e, w)
  keep_error e (panic p, w) = (panic p, w)

  abbrev or_unprepare :
      String → Outcome (Unit {0}) × Node S R DeviceState → Outcome (Unit {0}) × Node S R DeviceState
  or_unprepare uid (ok u, w) = (ok u, w)
  or_unprepare uid (err e, w) = keep_error e (on_state (State.unprepare lib uid) w)
  or_unprepare uid (panic p, w) = (panic p, w)

  -- The function that `nodePrepareResource` retries.
  unfoldable pub prepare_attempt : String → Exec (Node S R DeviceState) (List String)
  unfolding prepare
  prepare_attempt uid = do
    rt_cdi_devices ← λ w. (or_nil (write_cgroup_to_cdi uid w.nascrd.spec), w)
    prepared ← on_error preparing_devices (prepare uid rt_cdi_devices)
    spec ← on_error getting_spec (λ w. (get_updated_spec w.state w.nascrd.spec, w))
    λ w. or_unprepare uid (on_client (λ nas. Client.update server nas spec) w)
    pure prepared

  -- The function that `nodeUnprepareResource` retries.
  unfoldable pub unprepare_attempt : String → Exec (Node S R DeviceState) (Unit {0})
  unfolding unprepare
  unprepare_attempt uid = do
    on_error unpreparing_devices (unprepare uid)
    spec ← on_error getting_spec (λ w. (get_updated_spec w.state w.nascrd.spec, w))
    on_client (λ nas. Client.update server nas spec)

  -- The function that `NewDriver` retries, on a node with these CPUs and this name.
  unfoldable pub new_driver_attempt : List ℤ → String → Exec (Node S R (Unit {0})) DeviceState
  new_driver_attempt cpu_info node_name = do
    on_client (Client.get_or_create server)
    on_client (λ nas. Client.update_status server nas status_not_ready)
    state ← λ w. on_registry (new_device_state lib cpu_info node_name w.nascrd.spec) w
    spec ← on_error getting_spec (λ w. (get_updated_spec state w.nascrd.spec, w))
    on_client (λ nas. Client.update server nas spec)
    on_client (λ nas. Client.update_status server nas status_ready)
    pure state

  -- The function that `Shutdown` retries.
  unfoldable pub shutdown_attempt : Exec (Node S R DeviceState) (Unit {0})
  shutdown_attempt = do
    on_client (Client.get server)
    on_client (λ nas. Client.update_status server nas status_not_ready)

-- `retry.RetryOnConflict(retry.DefaultRetry, fn)`
pub record Retry : Type 1 where
  pub on_conflict : {W A : Type 0} → Exec W A → Exec W A

abbrev pub prepare_response :
    {W : Type 0} → Outcome (List String) × W → Outcome NodePrepareResourceResponse × W
prepare_response (ok devices, w) = (ok (record { cdi_devices = devices; error = none }), w)
prepare_response (err e, w) =
    (ok (record { cdi_devices = []; error = some (within preparing_resource e) }), w)
prepare_response (panic p, w) = (panic p, w)

abbrev pub unprepare_response :
    {W : Type 0} → Outcome (Unit {0}) × W → Outcome NodeUnprepareResourceResponse × W
unprepare_response (ok u, w) = (ok (record { error = none }), w)
unprepare_response (err e, w) = (ok (record { error = some (within unpreparing_resource e) }), w)
unprepare_response (panic p, w) = (panic p, w)

module _ (r : Retry) {S R : Type 0} (server : NasApi S) (lib : CdiLib R) where
  -- `NewDriver`
  unfoldable pub new_driver : List ℤ → String → Exec (Node S R (Unit {0})) DeviceState
  new_driver cpu_info node_name = r.on_conflict (new_driver_attempt server lib cpu_info node_name)

  -- `Shutdown`
  unfoldable pub shutdown : Exec (Node S R DeviceState) (Unit {0})
  shutdown = r.on_conflict (shutdown_attempt server lib)

  -- `nodePrepareResource`
  unfoldable pub node_prepare_resource :
      String → Exec (Node S R DeviceState) NodePrepareResourceResponse
  node_prepare_resource uid w = prepare_response (r.on_conflict (prepare_attempt server lib uid) w)

  -- `nodeUnprepareResource`
  unfoldable pub node_unprepare_resource :
      String → Exec (Node S R DeviceState) NodeUnprepareResourceResponse
  node_unprepare_resource uid w =
      unprepare_response (r.on_conflict (unprepare_attempt server lib uid) w)

  unfoldable pub prepare_loop :
      List String
      → GoMap String NodePrepareResourceResponse
      → Exec (Node S R DeviceState) (GoMap String NodePrepareResourceResponse)
  prepare_loop [] claims = pure claims
  prepare_loop (uid ∷ uids) claims = do
    response ← node_prepare_resource uid
    prepare_loop uids (insert uid response claims)

  -- `NodePrepareResources`
  unfoldable pub node_prepare_resources :
      List String → Exec (Node S R DeviceState) (GoMap String NodePrepareResourceResponse)
  node_prepare_resources uids = prepare_loop uids []

  unfoldable pub unprepare_loop :
      List String
      → GoMap String NodeUnprepareResourceResponse
      → Exec (Node S R DeviceState) (GoMap String NodeUnprepareResourceResponse)
  unprepare_loop [] claims = pure claims
  unprepare_loop (uid ∷ uids) claims = do
    response ← node_unprepare_resource uid
    unprepare_loop uids (insert uid response claims)

  -- `NodeUnprepareResources`
  unfoldable pub node_unprepare_resources :
      List String → Exec (Node S R DeviceState) (GoMap String NodeUnprepareResourceResponse)
  node_unprepare_resources uids = unprepare_loop uids []
