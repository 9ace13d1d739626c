-- ===== src/Programs/KubeletPlugin/Starting.antt =====
-- driver.go of the plugin, NewDriver: the status that a start leaves.
use dra_rt_driver.Prelude.{◌≡◌, ap, ◌∙◌, subst, String, List}
use dra_rt_driver.Prelude.Int.{ℤ}
use dra_rt_driver.Prelude.Outcome.{Outcome, ok, getting_spec}
use dra_rt_driver.Prelude.Exec
use dra_rt_driver.Prelude.Exec.{Exec, continue-ok, on_error-ok}
use dra_rt_driver.Prelude.Meets.{Meets-kept, kept-Meets, continue-Meets}
use dra_rt_driver.Nas.{NodeAllocationStateSpec, status_ready, status_not_ready}
use dra_rt_driver.Client
use dra_rt_driver.Client.{NasApi}
use dra_rt_driver.Client.Overwrite.{IsServer, update_overwrites}
use dra_rt_driver.Plugin.Devices.{DeviceState}
use dra_rt_driver.Plugin.Cdi.{CdiLib}
use dra_rt_driver.Plugin.State.{get_updated_spec}
use dra_rt_driver.Plugin.State.Start.{new_device_state}
use dra_rt_driver.Plugin.Driver.{
  Node, Retry, on_client, on_registry, new_driver_attempt, new_driver,
}
use dra_rt_driver.Programs.Status.Attempt.{
  IsCreator, Tries, now, again, IsAttempting, get_or_create-IsNamed,
}
use dra_rt_driver.Programs.KubeletPlugin.Lifecycle.{
  HasStatus, Named, stored-Named, update_status-Named, update_status-HasStatus,
}

module _ {S R : Type 0} (server : NasApi S) (law : IsServer server) (creator : IsCreator server)
    (ns node : String) (lib : CdiLib R) (cpus : List ℤ) (name : String) where
  -- The plugin before it has a device state.
  abbrev Start : Type 0
  Start = Node S R (Unit {0})

  abbrev Kept : Start → Type 0
  Kept w = Named server law creator ns node w

  get_or_create-Kept : (w : Start) → Kept w → Kept (on_client (Client.get_or_create server) w).1
  get_or_create-Kept w h =
      stored-Named server law creator ns node w (Client.get_or_create server w.nascrd w.server) h
        (λ crd t e. get_or_create-IsNamed server law creator ns node w.nascrd crd w.server t h e)

  update_status-Kept :
      (status : String) (w : Start)
      → Kept w
      → Kept (on_client (λ nas. Client.update_status server nas status) w).1
  update_status-Kept status w h = update_status-Named server law creator ns node status w h

  update-Kept :
      (spec : NodeAllocationStateSpec) (w : Start)
      → Kept w
      → Kept (on_client (λ nas. Client.update server nas spec) w).1
  update-Kept spec w h =
      stored-Named server law creator ns node w (Client.update server w.nascrd spec w.server) h
        (λ crd t e.
          let (_, found) = update_overwrites server law w.nascrd spec w.server t crd e in
          let (a, b) = law.reads w.nascrd.meta.namespace w.nascrd.meta.name t t crd found in
          record { namespace = a ∙ h.namespace; named = b ∙ h.named })

  -- The steps of an attempt that are left after each step.
  abbrev last_step : DeviceState → Exec Start DeviceState
  last_step state =
      Exec.◌>>◌ (on_client (λ nas. Client.update_status server nas status_ready)) (Exec.pure state)

  abbrev write_step : DeviceState → NodeAllocationStateSpec → Exec Start DeviceState
  write_step state spec =
      Exec.◌>>◌ (on_client (λ nas. Client.update server nas spec)) (last_step state)

  abbrev make_spec : DeviceState → Exec Start NodeAllocationStateSpec
  make_spec state = Exec.on_error getting_spec (λ w. (get_updated_spec state w.nascrd.spec, w))

  abbrev spec_step : DeviceState → Exec Start DeviceState
  spec_step state = Exec.◌>>=◌ (make_spec state) (write_step state)

  abbrev make_state : Exec Start DeviceState
  make_state w = on_registry (new_device_state lib cpus name w.nascrd.spec) w

  abbrev state_step : Exec Start DeviceState
  state_step = Exec.◌>>=◌ make_state spec_step

  abbrev not_ready_step : Exec Start DeviceState
  not_ready_step =
      Exec.◌>>◌ (on_client (λ nas. Client.update_status server nas status_not_ready)) state_step

  -- A step that keeps the name, before steps that do.
  then-Kept :
      {A B : Type 0} (m : Exec Start A) (f : A → Exec Start B) (w : Start)
      → Kept (m w).1
      → ((a : A) (v : Start) → Kept v → Kept (f a v).1)
      → Kept (Exec.◌>>=◌ m f w).1
  then-Kept m f w h k = Meets-kept Kept (Exec.◌>>=◌ m f w) (
      continue-Meets Kept (λ a v. Kept v) (λ b v. Kept v) f (m w) (kept-Meets Kept (m w) h)
        (λ a v j. kept-Meets Kept (f a v) (k a v j)))

  attempt-Kept : (w : Start) → Kept w → Kept (new_driver_attempt server lib cpus name w).1
  unfolding new_driver_attempt
  attempt-Kept w h =
      then-Kept (on_client (Client.get_or_create server)) (λ a. not_ready_step) w
        (get_or_create-Kept w h)
        (λ a v i.
          then-Kept (on_client (λ nas. Client.update_status server nas status_not_ready))
            (λ b. state_step) v (update_status-Kept status_not_ready v i)
            (λ b u j. then-Kept make_state spec_step u j (λ state t k.
              then-Kept (make_spec state) (write_step state) t k (λ spec x l.
                then-Kept (on_client (λ nas. Client.update server nas spec)) (λ c. last_step state)
                  x (update-Kept spec x l)
                  (λ c y m.
                    then-Kept (on_client (λ nas. Client.update_status server nas status_ready))
                      (λ d. Exec.pure state) y (update_status-Kept status_ready y m)
                      (λ d z n. n))))))

  Tries-Kept : {v w : Start} → Tries (new_driver_attempt server lib cpus name) v w → Kept w → Kept v
  Tries-Kept now h = h
  Tries-Kept {v} {w} (again e unmet more) h = Tries-Kept more (attempt-Kept w h)

  -- A step that ends well keeps the name too.
  ended-Kept :
      {A : Type 0} (m : Exec Start A) (w v : Start) (a : A)
      → m w ≡ (ok a, v)
      → Kept (m w).1
      → Kept v
  ended-Kept m w v a e h = subst Kept (ap (λ (x : Outcome _ × Start). x.1) e) h

  attempt-Ready :
      (w w' : Start) (state : DeviceState)
      → Kept w
      → new_driver_attempt server lib cpus name w ≡ (ok state, w')
      → HasStatus server ns node status_ready w'.server
  unfolding new_driver_attempt
  attempt-Ready w w' state h e =
      let (_, w₁, e₁, r₁) =
        continue-ok (on_client (Client.get_or_create server)) (λ a. not_ready_step) w w' state e in
      let (_, w₂, e₂, r₂) =
        continue-ok (on_client (λ nas. Client.update_status server nas status_not_ready))
          (λ a. state_step) w₁ w' state r₁ in
      let (st, w₃, e₃, r₃) = continue-ok make_state spec_step w₂ w' state r₂ in
      let (spec, w₄, e₄, r₄) = continue-ok (make_spec st) (write_step st) w₃ w' state r₃ in
      let (_, w₅, e₅, r₅) =
        continue-ok (on_client (λ nas. Client.update server nas spec)) (λ a. last_step st) w₄ w'
          state r₄ in
      let (_, w₆, e₆, r₆) =
        continue-ok (on_client (λ nas. Client.update_status server nas status_ready))
          (λ a. Exec.pure st) w₅ w' state r₅ in
      let k₁ =
        ended-Kept (on_client (Client.get_or_create server)) w w₁ _ e₁ (get_or_create-Kept w h) in
      let k₂ =
        ended-Kept (on_client (λ nas. Client.update_status server nas status_not_ready)) w₁ w₂ _ e₂
          (update_status-Kept status_not_ready w₁ k₁) in
      let k₃ = ended-Kept make_state w₂ w₃ st e₃ k₂ in
      let k₄ = ended-Kept (make_spec st) w₃ w₄ spec e₄ k₃ in
      let k₅ =
        ended-Kept (on_client (λ nas. Client.update server nas spec)) w₄ w₅ _ e₅
          (update-Kept spec w₄ k₄) in
      let same : w₆ ≡ w' = ap (λ (x : Outcome DeviceState × Start). x.1) r₆ in
      subst (λ (x : Start). HasStatus server ns node status_ready x.server) same
        (update_status-HasStatus server law creator ns node status_ready w₅ w₆ k₅ e₆)

-- When NewDriver returns a driver, on a server that stores what it accepts, with a `RetryOnConflict`
-- that returns nil only when an attempt has, and a record to start from that has the name of the node:
-- the server holds the record of the node with the status Ready, however many attempts there were.
pub new_driver-Ready :
    {S R : Type 0} (r : Retry) (server : NasApi S) (lib : CdiLib R) (ns node name : String)
    (cpus : List ℤ) (w w' : Node S R (Unit {0})) (state : DeviceState)
    → IsServer server
    → IsCreator server
    → IsAttempting r
    → w.nascrd.meta.namespace ≡ ns
    → w.nascrd.meta.name ≡ node
    → new_driver r server lib cpus name w ≡ (ok state, w')
    → HasStatus server ns node status_ready w'.server
unfolding new_driver
new_driver-Ready r server lib ns node name cpus w w' state law creator attempting home named e =
    let (v, tries, last) =
      attempting.attempts (new_driver_attempt server lib cpus name) w w' state e in
    attempt-Ready server law creator ns node lib cpus name v w' state
      (Tries-Kept server law creator ns node lib cpus name tries
        (record { namespace = home; named = named }))
      last
