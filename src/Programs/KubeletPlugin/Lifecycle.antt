-- ===== src/Programs/KubeletPlugin/Lifecycle.antt =====
-- driver.go of the plugin: NewDriver and Shutdown, and what the controller makes of the status that
-- they leave.
use dra_rt_driver.Prelude.{◌≡◌, refl, ap, ◌∙◌, subst, String, string_key, ◌==◌, false, List}
use dra_rt_driver.Prelude.Outcome.{Outcome, ok, err, panic, failed, crd_status}
use dra_rt_driver.Prelude.Exec.{continue-ok}
use dra_rt_driver.Prelude.Meets.{Meets-kept, kept-Meets, continue-Meets}
use dra_rt_driver.Nas.{
  NodeAllocationState, status_ready, status_not_ready, new_node_allocation_state,
}
use dra_rt_driver.Client
use dra_rt_driver.Client.{NasApi}
use dra_rt_driver.Client.Overwrite.{IsServer}
use dra_rt_driver.Resource.{ClaimAllocation, ClaimParameters, Pod, ResourceClaim}
use dra_rt_driver.Rt.{mark_unsuitable}
use dra_rt_driver.Rt.Propose.{RangeOrder}
use dra_rt_driver.Controller.{Clientset, World, allocate}
use dra_rt_driver.Controller.Nodes.{unsuitable_node}
use dra_rt_driver.Plugin.Devices.{DeviceState}
use dra_rt_driver.Plugin.Cdi.{CdiLib}
use dra_rt_driver.Plugin.Driver.{Node, Retry, on_client, stored, shutdown_attempt, shutdown}
use dra_rt_driver.Programs.Status.Attempt.{
  IsCreator, Tries, now, again, IsAttempting, IsNamed, update_status-Sets,
}

module _ {S : Type 0} (server : NasApi S) (ns node : String) where
  -- The server holds the record of the node with this status.
  pub record HasStatus (status : String) (s : S) : Type 0 where
    pub crd : NodeAllocationState
    pub found : server.fetch ns node s ≡ (ok crd, s)
    pub is_status : crd.status ≡ status

module _ {S R : Type 0} (server : NasApi S) (law : IsServer server) (creator : IsCreator server)
    (ns node : String) where
  -- The plugin's copy of the record has the name of the node.
  abbrev pub Named : {D : Type 0} → Node S R D → Type 0
  Named w = IsNamed server law creator ns node w.nascrd

  pub stored-Named :
      {D : Type 0} (w : Node S R D) (r : Outcome NodeAllocationState × S)
      → Named w
      → ((crd : NodeAllocationState) (t : S)
          → r ≡ (ok crd, t)
          → IsNamed server law creator ns node crd)
      → Named (stored w r).1
  stored-Named w (ok crd, t) h k = k crd t refl
  stored-Named w (err e, t) h k = h
  stored-Named w (panic p, t) h k = h

  get-Named : {D : Type 0} (w : Node S R D) → Named w → Named (on_client (Client.get server) w).1
  unfolding Client.get
  get-Named w h = stored-Named w (Client.get server w.nascrd w.server) h (λ crd t e.
      let (a, b) = law.reads w.nascrd.meta.namespace w.nascrd.meta.name w.server t crd e in
      record { namespace = a ∙ h.namespace; named = b ∙ h.named })

  pub update_status-Named :
      {D : Type 0} (status : String) (w : Node S R D)
      → Named w
      → Named (on_client (λ nas. Client.update_status server nas status) w).1
  update_status-Named status w h =
      stored-Named w (Client.update_status server w.nascrd status w.server) h (λ crd t e.
        (update_status-Sets server law creator ns node status w.nascrd crd w.server t h e).is_named)

  pub update_status-HasStatus :
      {D : Type 0} (status : String) (w v : Node S R D)
      → Named w
      → on_client (λ nas. Client.update_status server nas status) w ≡ (ok tt, v)
      → HasStatus server ns node status v.server
  update_status-HasStatus status w v h e =
      go (Client.update_status server w.nascrd status w.server) refl e
    where
      go :
          (r : Outcome NodeAllocationState × S)
          → Client.update_status server w.nascrd status w.server ≡ r
          → stored w r ≡ (ok tt, v)
          → HasStatus server ns node status v.server
      go (ok crd, t) f g =
          let s =
            update_status-Sets server law creator ns node status w.nascrd crd w.server t h f in
          let same : t ≡ v.server = ap (λ (x : Outcome (Unit {0}) × Node S R _). x.1.server) g in
          subst (HasStatus server ns node status) same
            (record { crd = crd; found = s.found; is_status = s.is_status })
      go (err x, t) f g = absurd (cc)
      go (panic x, t) f g = absurd (cc)

  module _ (lib : CdiLib R) where
    shutdown_attempt-Named :
        (w : Node S R DeviceState) → Named w → Named (shutdown_attempt server lib w).1
    unfolding shutdown_attempt
    shutdown_attempt-Named w h = Meets-kept Named (shutdown_attempt server lib w) (
        continue-Meets Named (λ a v. Named v) (λ a v. Named v)
          (λ a. on_client (λ nas. Client.update_status server nas status_not_ready))
          (on_client (Client.get server) w)
          (kept-Meets Named (on_client (Client.get server) w) (get-Named w h))
          (λ a v j.
            kept-Meets Named (on_client (λ nas. Client.update_status server nas status_not_ready) v)
              (update_status-Named status_not_ready v j)))

    Tries-Named :
        {v w : Node S R DeviceState} → Tries (shutdown_attempt server lib) v w → Named w → Named v
    Tries-Named now h = h
    Tries-Named {v} {w} (again e unmet more) h = Tries-Named more (shutdown_attempt-Named w h)

    shutdown-HasStatus :
        (r : Retry) (w w' : Node S R DeviceState)
        → IsAttempting r
        → Named w
        → shutdown r server lib w ≡ (ok tt, w')
        → HasStatus server ns node status_not_ready w'.server
    unfolding shutdown shutdown_attempt
    shutdown-HasStatus r w w' attempting h e =
        let (v, tries, last) = attempting.attempts (shutdown_attempt server lib) w w' tt e in
        let named = Tries-Named tries h in
        let (a, u, got, set) =
          continue-ok (on_client (Client.get server))
            (λ a. on_client (λ nas. Client.update_status server nas status_not_ready)) v w' tt
            last in
        update_status-HasStatus status_not_ready u w'
          (subst Named (ap (λ (x : Outcome (Unit {0}) × Node S R DeviceState). x.1) got)
            (get-Named v named))
          set

-- When Shutdown returns nil, on a server that stores what it accepts, with a `RetryOnConflict` that
-- returns nil only when an attempt has, and a plugin whose copy of the record has its name: from then
-- on, as long as nothing is written, the controller marks every claim of every pod as unsuitable for
-- the node, and Allocate of any claim on it fails; neither changes the server nor what is pending.
pub shutdown_stops_node :
    {S R : Type 0} (clients : Clientset S) (r : Retry) (lib : CdiLib R) (ns node : String)
    (w w' : Node S R DeviceState) (u : World S) (range : RangeOrder) (pod : Pod)
    (cas : List ClaimAllocation) (claim : ResourceClaim) (params : ClaimParameters)
    → IsServer clients.nas
    → IsCreator clients.nas
    → IsAttempting r
    → w.nascrd.meta.namespace ≡ ns
    → w.nascrd.meta.name ≡ node
    → (node == "") ≡ false
    → shutdown r clients.nas lib w ≡ (ok tt, w')
    → u.server ≡ w'.server
    → (unsuitable_node clients ns range pod cas node u ≡ (ok (mark_unsuitable node cas), u))
      × (allocate clients ns claim params node u ≡ (err (failed crd_status), u))
unfolding unsuitable_node allocate Client.get new_node_allocation_state
shutdown_stops_node clients r lib ns node w w' u range pod cas claim params law creator attempting
      home name named e same =
    let h =
      shutdown-HasStatus clients.nas law creator ns node lib r w w' attempting
        (record { namespace = home; named = name }) e in
    let found : clients.nas.fetch ns node u.server ≡ (ok h.crd, u.server) = rw same h.found in
    let unready : (h.crd.status == status_ready) ≡ false = rw h.is_status refl in
    (
      rw (unsuitable_node, Client.get, new_node_allocation_state, found, unready) refl,
      rw (allocate, named, Client.get, new_node_allocation_state, found, unready) refl,
    )
