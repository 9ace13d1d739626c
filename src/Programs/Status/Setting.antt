-- ===== src/Programs/Status/Setting.antt =====
-- cmd/set-nas-status/main.go: what the program leaves on the server.
use dra_rt_driver.Prelude.{◌≡◌, refl, subst, String, some}
use dra_rt_driver.Prelude.Outcome.{
  Outcome, ok, err, panic, create_client, create_nas, get_node, wrap_error,
}
use dra_rt_driver.Prelude.Exec
use dra_rt_driver.Prelude.Exec.{Exec}
use dra_rt_driver.Nas.{NodeAllocationState, new_node_allocation_state}
use dra_rt_driver.Client.{NasApi}
use dra_rt_driver.Client.Overwrite.{IsServer}
use dra_rt_driver.Plugin.Driver.{Retry}
use dra_rt_driver.Programs.Setup.{
  NasConfig, KubeClientConfig, ClientGo, ClientSets, new_client_sets, new_nas,
}
use dra_rt_driver.Programs.Status.{Session, set_status_attempt, set_nas_status, server_of}
use dra_rt_driver.Programs.Status.Attempt.{IsCreator, IsAttempting, Tries-IsNamed, attempt-Sets}

server_of-ok :
    {S : Type 0} (p : Outcome (Unit {0}) × Session S) (t : S)
    → server_of p ≡ (ok tt, t)
    → (p ≡ (ok tt, p.1)) × (p.1.server ≡ t)
server_of-ok (ok u, w) t h = (refl, cc)
server_of-ok (err e, w) t h = absurd (cc)
server_of-ok (panic q, w) t h = absurd (cc)

-- Of an API server that keeps what is written under its name, and a `RetryOnConflict` that returns nil
-- only when an attempt has: when the program ends without an error, its clients were made, and the
-- server holds a record of the node, in the namespace of the flags, with the status that was asked for.
pub set_nas_status_sets :
    (r : Retry) {S F X : Type 0} (lib : ClientGo F X (String → Exec S String) (NasApi S))
    (k : KubeClientConfig F) (n : NasConfig) (status : String) (s t : S)
    → IsAttempting r
    → ((sets : ClientSets (String → Exec S String) (NasApi S))
        → new_client_sets lib k ≡ ok sets
        → IsServer sets.example × IsCreator sets.example)
    → set_nas_status r lib k n status s ≡ (ok tt, t)
    → (sets : ClientSets (String → Exec S String) (NasApi S)) × (new_client_sets lib k ≡ ok sets)
      × (crd : NodeAllocationState) × (sets.example.fetch n.namespace n.node_name t ≡ (ok crd, t))
      × (crd.status ≡ status)
unfolding set_nas_status new_nas new_node_allocation_state
set_nas_status_sets r {S} lib k n status s t law api h = clients (new_client_sets lib k) refl h
  where
    retried :
        (sets : ClientSets (String → Exec S String) (NasApi S)) (u : S) (uid : String)
        → new_client_sets lib k ≡ ok sets
        → server_of (
            r.on_conflict (set_status_attempt sets.example status) (record {
              server = u;
              nas =
                  new_node_allocation_state
                    (record { name = n.node_name; namespace = n.namespace; owner = some uid });
            }))
          ≡ (ok tt, t)
        → (crd : NodeAllocationState) × (sets.example.fetch n.namespace n.node_name t ≡ (ok crd, t))
          × (crd.status ≡ status)
    retried sets u uid e g =
        let made =
          new_node_allocation_state
            (record { name = n.node_name; namespace = n.namespace; owner = some uid }) in
        let (api_law, creator) = api sets e in
        let (ran, at_end) =
          server_of-ok
            (r.on_conflict (set_status_attempt sets.example status)
              (record { server = u; nas = made }))
            t g in
        let (v, tries, last) =
          law.attempts (set_status_attempt sets.example status) (record { server = u; nas = made })
            _ tt ran in
        let named =
          Tries-IsNamed sets.example api_law creator n.namespace n.node_name status tries
            (record { namespace = refl; named = refl }) in
        let (crd, found, same) =
          attempt-Sets sets.example api_law creator n.namespace n.node_name status v _ named last in
        (
          crd,
          subst (λ x. sets.example.fetch n.namespace n.node_name x ≡ (ok crd, x)) at_end found,
          same,
        )

    nodes :
        (sets : ClientSets (String → Exec S String) (NasApi S)) (o : Outcome String × S)
        → new_client_sets lib k ≡ ok sets
        → Exec.continue
            (wrap_error create_nas
              (Exec.continue
                (wrap_error get_node o.0)
                (λ uid. Exec.pure (
                  new_node_allocation_state
                    (record { name = n.node_name; namespace = n.namespace; owner = some uid })))
                o.1).0)
            (λ nas v. server_of (
              r.on_conflict
                (set_status_attempt sets.example status)
                (record { server = v; nas = nas })))
            (Exec.continue
              (wrap_error get_node o.0)
              (λ uid. Exec.pure (
                new_node_allocation_state
                  (record { name = n.node_name; namespace = n.namespace; owner = some uid })))
              o.1).1
          ≡ (ok tt, t)
        → (crd : NodeAllocationState) × (sets.example.fetch n.namespace n.node_name t ≡ (ok crd, t))
          × (crd.status ≡ status)
    nodes sets (ok uid, u) e g = retried sets u uid e g
    nodes sets (err x, u) e g = absurd (cc)
    nodes sets (panic x, u) e g = absurd (cc)

    clients :
        (o : Outcome (ClientSets (String → Exec S String) (NasApi S)))
        → new_client_sets lib k ≡ o
        → Exec.continue
            (wrap_error create_client o)
            (λ sets. Exec.◌>>=◌ (Exec.on_error create_nas (new_nas sets.core n)) λ nas v.
              server_of (
                r.on_conflict
                  (set_status_attempt sets.example status)
                  (record { server = v; nas = nas })))
            s
          ≡ (ok tt, t)
        → (sets : ClientSets (String → Exec S String) (NasApi S)) × (new_client_sets lib k
            ≡ ok sets)
          × (crd : NodeAllocationState) × (sets.example.fetch n.namespace n.node_name t
              ≡ (ok crd, t))
          × (crd.status ≡ status)
    clients (ok sets) e g =
        let (crd, found, same) = nodes sets (sets.core n.node_name s) e g in
        (sets, e, crd, found, same)
    clients (err x) e g = absurd (cc)
    clients (panic x) e g = absurd (cc)
