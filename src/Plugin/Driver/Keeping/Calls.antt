-- ===== src/Plugin/Driver/Keeping/Calls.antt =====
-- driver.go of the plugin: the requests of the kubelet leave the allocations on the server.
use dra_rt_driver.Prelude.{◌≡◌, refl, String, string_key, List, [], ◌∷◌}
use dra_rt_driver.Prelude.GoMap.{GoMap, insert}
use dra_rt_driver.Prelude.Outcome.{Outcome, ok, err, panic}
use dra_rt_driver.Prelude.Meets.{Meets-kept, kept-Meets, continue-Meets}
use dra_rt_driver.Client.{NasApi}
use dra_rt_driver.Client.Storing.{IsStore}
use dra_rt_driver.Plugin.Devices.{DeviceState}
use dra_rt_driver.Plugin.Cdi.{CdiLib}
use dra_rt_driver.Plugin.Driver.{
  Node, Retry, prepare_attempt, unprepare_attempt, node_prepare_resource, node_unprepare_resource,
  prepare_loop, unprepare_loop, node_prepare_resources, node_unprepare_resources, prepare_response,
  unprepare_response, NodePrepareResourceResponse, NodeUnprepareResourceResponse,
}
use dra_rt_driver.Plugin.Driver.Attempts.{IsRetry, attempts_run_once}
use dra_rt_driver.Plugin.Driver.Keeping.{Keeps, Keeping}
use dra_rt_driver.Plugin.Driver.Keeping.Attempts.{
  prepare_attempt-Keeping, unprepare_attempt-Keeping,
}

module _ {S R : Type 0} (r : Retry) (law : IsRetry r) (server : NasApi S) (lib : CdiLib R)
    (namespace node : String) (store : IsStore server namespace) (s : S) where
  abbrev Kept : Node S R DeviceState → Type 0
  Kept w = Keeping server lib namespace node store s w

  prepare_response-Kept :
      (o : Outcome (List String) × Node S R DeviceState) → Kept o.1 → Kept (prepare_response o).1
  prepare_response-Kept (ok a, w) k = k
  prepare_response-Kept (err e, w) k = k
  prepare_response-Kept (panic p, w) k = k

  unprepare_response-Kept :
      (o : Outcome (Unit {0}) × Node S R DeviceState) → Kept o.1 → Kept (unprepare_response o).1
  unprepare_response-Kept (ok a, w) k = k
  unprepare_response-Kept (err e, w) k = k
  unprepare_response-Kept (panic p, w) k = k

  node_prepare_resource-Kept :
      (uid : String) (w : Node S R DeviceState)
      → Kept w
      → Kept (node_prepare_resource r server lib uid w).1
  node_prepare_resource-Kept uid w k = rw ((attempts_run_once server lib r uid w law).0) (
      prepare_response-Kept (prepare_attempt server lib uid w)
        (prepare_attempt-Keeping server lib namespace node store s uid w k))

  node_unprepare_resource-Kept :
      (uid : String) (w : Node S R DeviceState)
      → Kept w
      → Kept (node_unprepare_resource r server lib uid w).1
  node_unprepare_resource-Kept uid w k = rw ((attempts_run_once server lib r uid w law).1) (
      unprepare_response-Kept (unprepare_attempt server lib uid w)
        (unprepare_attempt-Keeping server lib namespace node store s uid w k))

  prepare_loop-Kept :
      (uids : List String) (claims : GoMap String NodePrepareResourceResponse)
      (w : Node S R DeviceState)
      → Kept w
      → Kept (prepare_loop r server lib uids claims w).1
  unfolding prepare_loop
  prepare_loop-Kept [] claims w k = k
  prepare_loop-Kept (uid ∷ uids) claims w k =
      Meets-kept Kept (prepare_loop r server lib (uid ∷ uids) claims w) (
        continue-Meets Kept (λ a v. Kept v) (λ a v. Kept v)
          (λ response. prepare_loop r server lib uids (insert uid response claims))
          (node_prepare_resource r server lib uid w)
          (kept-Meets Kept (node_prepare_resource r server lib uid w)
            (node_prepare_resource-Kept uid w k))
          (λ response v j.
            kept-Meets Kept (prepare_loop r server lib uids (insert uid response claims) v)
              (prepare_loop-Kept uids (insert uid response claims) v j)))

  unprepare_loop-Kept :
      (uids : List String) (claims : GoMap String NodeUnprepareResourceResponse)
      (w : Node S R DeviceState)
      → Kept w
      → Kept (unprepare_loop r server lib uids claims w).1
  unfolding unprepare_loop
  unprepare_loop-Kept [] claims w k = k
  unprepare_loop-Kept (uid ∷ uids) claims w k =
      Meets-kept Kept (unprepare_loop r server lib (uid ∷ uids) claims w) (
        continue-Meets Kept (λ a v. Kept v) (λ a v. Kept v)
          (λ response. unprepare_loop r server lib uids (insert uid response claims))
          (node_unprepare_resource r server lib uid w)
          (kept-Meets Kept (node_unprepare_resource r server lib uid w)
            (node_unprepare_resource-Kept uid w k))
          (λ response v j.
            kept-Meets Kept (unprepare_loop r server lib uids (insert uid response claims) v)
              (unprepare_loop-Kept uids (insert uid response claims) v j)))

-- The requests of the kubelet, whatever they answer: on a server that stores what it is sent and
-- nothing else, with a `RetryOnConflict` that returns what is not a conflict, and a plugin whose copy
-- of the record has its name: every record that the server shows after NodePrepareResources or
-- NodeUnprepareResources, with no other writer meanwhile, was there before with the same allocated
-- claims and the same utilisations.
pub requests-Keeps :
    {S R : Type 0} (r : Retry) (server : NasApi S) (lib : CdiLib R) (namespace node : String)
    (store : IsStore server namespace) (uids : List String) (w : Node S R DeviceState)
    → IsRetry r
    → w.nascrd.meta.namespace ≡ namespace
    → w.nascrd.meta.name ≡ node
    → Keeps server lib namespace node store w.server
        (node_prepare_resources r server lib uids w).1.server
      × Keeps server lib namespace node store w.server
          (node_unprepare_resources r server lib uids w).1.server
unfolding node_prepare_resources node_unprepare_resources
requests-Keeps r server lib namespace node store uids w law home named =
    let k : Keeping server lib namespace node store w.server w = record {
      keeps = λ n c h. (c, h, record { claims = refl; utils = refl });
      home = home;
      named = named;
    } in
    (
      (prepare_loop-Kept r law server lib namespace node store w.server uids [] w k).keeps,
      (unprepare_loop-Kept r law server lib namespace node store w.server uids [] w k).keeps,
    )
