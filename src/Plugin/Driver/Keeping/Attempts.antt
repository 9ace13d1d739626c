-- ===== src/Plugin/Driver/Keeping/Attempts.antt =====
-- driver.go of the plugin: one attempt to prepare or to unprepare a claim leaves the allocations.
use dra_rt_driver.Prelude.{◌≡◌, refl, String, Option, List}
use dra_rt_driver.Prelude.Outcome.{
  Outcome, ok, err, panic, Error, preparing_devices, unpreparing_devices, getting_spec,
}
use dra_rt_driver.Prelude.Exec
use dra_rt_driver.Prelude.Exec.{Exec}
use dra_rt_driver.Prelude.Meets.{
  Meets, Meets-kept, kept-Meets, on_error-Meets, continue-Meets, lift-Meets,
}
use dra_rt_driver.Nas.{NodeAllocationStateSpec}
use dra_rt_driver.Client
use dra_rt_driver.Client.{NasApi}
use dra_rt_driver.Client.Storing.{IsStore}
use dra_rt_driver.Plugin.Devices.{DeviceState}
use dra_rt_driver.Plugin.Cdi.{CdiLib, write_cgroup_to_cdi}
use dra_rt_driver.Plugin.State
use dra_rt_driver.Plugin.State.{get_updated_spec}
use dra_rt_driver.Plugin.Driver.{
  Node, prepare, unprepare, prepare_attempt, unprepare_attempt, on_client, on_state, or_unprepare,
  or_nil, keep_error, allocation_of, forget_prepared,
}
use dra_rt_driver.Plugin.Driver.Keeping.{Keeping, Fresh, get-Meets, update-Keeping}

module _ {S R : Type 0} (server : NasApi S) (lib : CdiLib R) (namespace node : String)
    (store : IsStore server namespace) (s : S) where
  abbrev Kept : Node S R DeviceState → Type 0
  Kept w = Keeping server lib namespace node store s w

  abbrev Read : Node S R DeviceState → Type 0
  Read w = Fresh server lib namespace node store s w

  -- A change of the plugin's own state.
  moved-Read :
      {A : Type 0} (w : Node S R DeviceState) (r : Outcome A × (DeviceState × R))
      → Read w
      → Meets Kept (λ a v. Read v) (r.0, record w { state = r.1.0; registry = r.1.1 })
  moved-Read w (ok a, t) f = record {
    keeping = record { keeps = f.keeping.keeps; home = f.keeping.home; named = f.keeping.named };
    seen = f.seen;
    shown = f.shown;
    same = f.same;
  }
  moved-Read w (err e, t) f = record {
    keeps = f.keeping.keeps;
    home = f.keeping.home;
    named = f.keeping.named;
  }
  moved-Read w (panic p, t) f = record {
    keeps = f.keeping.keeps;
    home = f.keeping.home;
    named = f.keeping.named;
  }

  prepare-Meets :
      (uid : String) (devices : Option (List String)) (w : Node S R DeviceState)
      → Kept w
      → Meets Kept (λ a v. Read v) (prepare server lib uid devices w)
  unfolding prepare
  prepare-Meets uid devices w k =
      continue-Meets Kept (λ a v. Read v) (λ a v. Read v)
        (λ a v. on_state (State.prepare lib uid (allocation_of uid v.nascrd.spec) devices) v)
        (on_client (Client.get server) w) (get-Meets server lib namespace node store s w k)
        (λ a v f.
          moved-Read v
            (State.prepare lib uid (allocation_of uid v.nascrd.spec) devices (v.state, v.registry))
            f)

  unprepare-Meets :
      (uid : String) (w : Node S R DeviceState)
      → Kept w
      → Meets Kept (λ a v. Read v) (unprepare server lib uid w)
  unfolding unprepare forget_prepared
  unprepare-Meets uid w k =
      continue-Meets Kept (λ a v. Read v) (λ a v. Read v)
        (λ a.
          Exec.◌>>◌ (on_state (State.unprepare lib uid))
            (λ v. (ok tt, record v { nascrd = forget_prepared server lib uid v.nascrd })))
        (on_client (Client.get server) w) (get-Meets server lib namespace node store s w k)
        (λ a v f.
          continue-Meets Kept (λ b u. Read u) (λ b u. Read u)
            (λ b u. (ok tt, record u { nascrd = forget_prepared server lib uid u.nascrd }))
            (on_state (State.unprepare lib uid) v)
            (moved-Read v (State.unprepare lib uid (v.state, v.registry)) f)
            (λ b u g. record {
              keeping = record {
                keeps = g.keeping.keeps;
                home = g.keeping.home;
                named = g.keeping.named;
              };
              seen = g.seen;
              shown = g.shown;
              same = record { claims = g.same.claims; utils = g.same.utils };
            }))

  -- The spec that is written.
  abbrev Spec : NodeAllocationStateSpec → Node S R DeviceState → Type 0
  Spec spec w = Read w × (get_updated_spec w.state w.nascrd.spec ≡ ok spec)

  spec-Meets :
      (w : Node S R DeviceState) (o : Outcome NodeAllocationStateSpec)
      → Read w
      → get_updated_spec w.state w.nascrd.spec ≡ o
      → Meets Kept Spec (o, w)
  spec-Meets w (ok spec) f e = (f, e)
  spec-Meets w (err x) f e = f.keeping
  spec-Meets w (panic x) f e = f.keeping

  keep_error-Kept :
      (e : Error) (w : Node S R DeviceState) (r : Outcome (Unit {0}) × (DeviceState × R))
      → Kept w
      → Kept (keep_error server lib e (r.0, record w { state = r.1.0; registry = r.1.1 })).1
  keep_error-Kept e w (ok u, t) k = record { keeps = k.keeps; home = k.home; named = k.named }
  keep_error-Kept e w (err x, t) k = record { keeps = k.keeps; home = k.home; named = k.named }
  keep_error-Kept e w (panic x, t) k = record { keeps = k.keeps; home = k.home; named = k.named }

  or_unprepare-Kept :
      (uid : String) (r : Outcome (Unit {0}) × Node S R DeviceState)
      → Kept r.1
      → Kept (or_unprepare server lib uid r).1
  or_unprepare-Kept uid (ok u, w) k = k
  or_unprepare-Kept uid (err e, w) k =
      keep_error-Kept e w (State.unprepare lib uid (w.state, w.registry)) k
  or_unprepare-Kept uid (panic p, w) k = k

  abbrev spec_of : Exec (Node S R DeviceState) NodeAllocationStateSpec
  spec_of = Exec.on_error getting_spec (λ w. (get_updated_spec w.state w.nascrd.spec, w))

  spec_of-Meets : (w : Node S R DeviceState) → Read w → Meets Kept Spec (spec_of w)
  spec_of-Meets w f =
      on_error-Meets Kept Spec getting_spec (λ v. (get_updated_spec v.state v.nascrd.spec, v)) w
        (spec-Meets w (get_updated_spec w.state w.nascrd.spec) f refl)

  -- The attempt to prepare, after the devices are prepared and after the spec is made.
  abbrev write_of :
      String → List String → NodeAllocationStateSpec → Exec (Node S R DeviceState) (List String)
  write_of uid prepared spec =
      Exec.◌>>◌
        (λ w. or_unprepare server lib uid (on_client (λ nas. Client.update server nas spec) w))
        (Exec.pure prepared)

  abbrev rest_of : String → List String → Exec (Node S R DeviceState) (List String)
  rest_of uid prepared = Exec.◌>>=◌ spec_of (write_of uid prepared)

  pub prepare_attempt-Keeping :
      (uid : String) (w : Node S R DeviceState) → Kept w → Kept (prepare_attempt server lib uid w).1
  unfolding prepare_attempt
  prepare_attempt-Keeping uid w k = Meets-kept Kept (prepare_attempt server lib uid w) (
      lift-Meets Kept (λ a v. Kept v) (or_nil (write_cgroup_to_cdi uid w.nascrd.spec))
        (λ devices.
          Exec.◌>>=◌ (Exec.on_error preparing_devices (prepare server lib uid devices))
            (rest_of uid))
        w k
        (λ devices e.
          continue-Meets Kept (λ a v. Read v) (λ a v. Kept v) (rest_of uid)
            (Exec.on_error preparing_devices (prepare server lib uid devices) w)
            (on_error-Meets Kept (λ a v. Read v) preparing_devices (prepare server lib uid devices)
              w (prepare-Meets uid devices w k))
            (λ prepared v f.
              continue-Meets Kept Spec (λ a u. Kept u) (write_of uid prepared) (spec_of v)
                (spec_of-Meets v f)
                (λ spec u g.
                  continue-Meets Kept (λ a t. Kept t) (λ a t. Kept t) (λ a. Exec.pure prepared)
                    (or_unprepare server lib uid
                      (on_client (λ nas. Client.update server nas spec) u))
                    (kept-Meets Kept
                      (or_unprepare server lib uid
                        (on_client (λ nas. Client.update server nas spec) u))
                      (or_unprepare-Kept uid (on_client (λ nas. Client.update server nas spec) u)
                        (update-Keeping server lib namespace node store s u spec g.0 g.1)))
                    (λ a t j. j)))))

  pub unprepare_attempt-Keeping :
      (uid : String) (w : Node S R DeviceState)
      → Kept w
      → Kept (unprepare_attempt server lib uid w).1
  unfolding unprepare_attempt
  unprepare_attempt-Keeping uid w k = Meets-kept Kept (unprepare_attempt server lib uid w) (
      continue-Meets Kept (λ a v. Read v) (λ a v. Kept v)
        (λ a. Exec.◌>>=◌ spec_of (λ spec. on_client (λ nas. Client.update server nas spec)))
        (Exec.on_error unpreparing_devices (unprepare server lib uid) w)
        (on_error-Meets Kept (λ a v. Read v) unpreparing_devices (unprepare server lib uid) w
          (unprepare-Meets uid w k))
        (λ a v f.
          continue-Meets Kept Spec (λ b u. Kept u)
            (λ spec. on_client (λ nas. Client.update server nas spec)) (spec_of v)
            (spec_of-Meets v f)
            (λ spec u g.
              kept-Meets Kept (on_client (λ nas. Client.update server nas spec) u)
                (update-Keeping server lib namespace node store s u spec g.0 g.1))))
