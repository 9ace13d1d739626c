-- ===== src/Plugin/Driver/Attempts.antt =====
-- driver.go of the plugin: what `retry.RetryOnConflict` can do for the calls of the kubelet.
use dra_rt_driver.Prelude.{◌≡◌, refl, ap, false, String, List}
use dra_rt_driver.Prelude.Outcome.{
  Outcome, ok, err, panic, Error, is_conflict, is_conflict_error, preparing_devices,
  unpreparing_devices, getting_spec,
}
use dra_rt_driver.Prelude.Exec.{Exec, HidesConflict, bind-HidesConflict, on_error-HidesConflict}
use dra_rt_driver.Nas.{NodeAllocationState, NodeAllocationStateSpec}
use dra_rt_driver.Client.{NasApi, update}
use dra_rt_driver.Client.Errors.{update-is_conflict}
use dra_rt_driver.Plugin.Devices.{DeviceState}
use dra_rt_driver.Plugin.Cdi.{CdiLib, write_cgroup_to_cdi}
use dra_rt_driver.Plugin.State
use dra_rt_driver.Plugin.Driver.{
  Node, Retry, prepare, unprepare, prepare_attempt, unprepare_attempt, node_prepare_resource,
  node_unprepare_resource, on_client, on_state, or_unprepare, prepare_response, unprepare_response,
  or_nil, stored, keep_error,
}

-- `retry.RetryOnConflict` documents that it returns the result of the function as soon as that is
-- not a conflict.
pub record IsRetry (r : Retry) : Type 1 where
  pub returns :
      {W A : Type 0} (m : Exec W A) (w : W) → is_conflict (m w).0 ≡ false → r.on_conflict m w ≡ m w

module _ {S R : Type 0} (server : NasApi S) (lib : CdiLib R) where
  or_nil-is_conflict : (m : Outcome (List String)) → is_conflict (or_nil m) ≡ false
  or_nil-is_conflict (ok a) = refl
  or_nil-is_conflict (err e) = refl
  or_nil-is_conflict (panic p) = refl

  stored-is_conflict :
      (w : Node S R DeviceState) (r : Outcome NodeAllocationState × S)
      → is_conflict r.0 ≡ false
      → is_conflict (stored w r).0 ≡ false
  stored-is_conflict w (ok crd, s) h = refl
  stored-is_conflict w (err e, s) h = h
  stored-is_conflict w (panic p, s) h = refl

  keep_error-is_conflict :
      (e : Error) (r : Outcome (Unit {0}) × Node S R DeviceState)
      → is_conflict_error e ≡ false
      → is_conflict (keep_error {S = S} {R = R} server lib e r).0 ≡ false
  keep_error-is_conflict e (ok u, w) h = h
  keep_error-is_conflict e (err x, w) h = h
  keep_error-is_conflict e (panic p, w) h = refl

  or_unprepare-is_conflict :
      (uid : String) (r : Outcome (Unit {0}) × Node S R DeviceState)
      → is_conflict r.0 ≡ false
      → is_conflict (or_unprepare server lib uid r).0 ≡ false
  or_unprepare-is_conflict uid (ok u, w) h = refl
  or_unprepare-is_conflict uid (err e, w) h =
      keep_error-is_conflict e (on_state (State.unprepare lib uid) w) h
  or_unprepare-is_conflict uid (panic p, w) h = refl

  update-HidesConflict :
      (spec : NodeAllocationStateSpec)
      → HidesConflict (on_client {S = S} {R = R} {D = DeviceState} (λ nas. update server nas spec))
  update-HidesConflict spec = record {
    at = λ t. stored-is_conflict t _ (update-is_conflict server t.nascrd spec t.server);
  }

  prepare_attempt-HidesConflict : (uid : String) → HidesConflict (prepare_attempt server lib uid)
  unfolding prepare_attempt
  prepare_attempt-HidesConflict uid =
      bind-HidesConflict
        (record { at = λ w. or_nil-is_conflict (write_cgroup_to_cdi uid w.nascrd.spec) })
        λ rt.
          bind-HidesConflict (on_error-HidesConflict preparing_devices (prepare server lib uid rt))
            λ names. bind-HidesConflict (on_error-HidesConflict getting_spec _) λ spec.
              bind-HidesConflict
                (record {
                  at = λ w.
                      or_unprepare-is_conflict uid (on_client (λ nas. update server nas spec) w)
                        ((update-HidesConflict spec).at w);
                })
                λ u. record { at = λ w. refl }

  unprepare_attempt-HidesConflict :
      (uid : String) → HidesConflict (unprepare_attempt server lib uid)
  unfolding unprepare_attempt
  unprepare_attempt-HidesConflict uid =
      bind-HidesConflict (on_error-HidesConflict unpreparing_devices (unprepare server lib uid))
        λ u.
          bind-HidesConflict (on_error-HidesConflict getting_spec _)
            λ spec. update-HidesConflict spec

  -- For a `RetryOnConflict` that returns what is not a conflict, whatever the API server answers: the
  -- retries around `nodePrepareResource` and `nodeUnprepareResource` never retry, and the response is
  -- that of one attempt.
  pub attempts_run_once :
      (r : Retry) (uid : String) (w : Node S R DeviceState)
      → IsRetry r
      → (node_prepare_resource r server lib uid w
          ≡ prepare_response (prepare_attempt server lib uid w))
        × (node_unprepare_resource r server lib uid w
            ≡ unprepare_response (unprepare_attempt server lib uid w))
  unfolding node_prepare_resource node_unprepare_resource
  attempts_run_once r uid w law = (
    ap prepare_response
        (law.returns (prepare_attempt server lib uid) w ((prepare_attempt-HidesConflict uid).at w)),
    ap unprepare_response (
        law.returns (unprepare_attempt server lib uid) w
          ((unprepare_attempt-HidesConflict uid).at w)),
  )
