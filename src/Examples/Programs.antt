-- ===== src/Examples/Programs.antt =====
-- The programs, against a small server and a file system that holds texts under their paths.
use dra_rt_driver.Prelude.{
  ℕ, ◌≡◌, ◌⊎◌, ◌↔◌, refl, ap, subst, String, string_key, ◌==◌, false, List, [], ◌∷◌,
}
use dra_rt_driver.Prelude.Int.{pos}
use dra_rt_driver.Prelude.Text.{to_lower}
use dra_rt_driver.Prelude.Outcome.{ok, err, failed, api, unavailable, not_a_directory, ok_injective}
use dra_rt_driver.Prelude.Exec.{Exec}
use dra_rt_driver.Nas.{
  NodeAllocationState, status_ready, status_not_ready, new_node_allocation_state,
}
use dra_rt_driver.Client
use dra_rt_driver.Client.{NasApi}
use dra_rt_driver.Client.Overwrite.{IsServer}
use dra_rt_driver.Plugin.Driver.{Retry}
use dra_rt_driver.Programs.Setup.{
  NasConfig, KubeClientConfig, ClientGo, ClientSets, new_client_sets, new_client_set_config,
  new_nas,
}
use dra_rt_driver.Programs.Status.{
  parse_status, parse_status_accepts, set_nas_status, set_status_attempt,
}
use dra_rt_driver.Programs.Status.Attempt.{IsCreator, IsAttempting, now}
use dra_rt_driver.Programs.Status.Setting.{set_nas_status_sets}
use dra_rt_driver.Prelude.Text.{to_upper, dashes_to_underscores}
use dra_rt_driver.Programs.Setup.{pflag_to_cli, no_value}
use dra_rt_driver.Programs.KubeletPlugin.{
  Os, found, Kubelet, Host, driver_plugin_path, prepare_directories, start_plugin,
}
use dra_rt_driver.Programs.KubeletPlugin.Failing.{Fails, start_plugin-Fails}
use dra_rt_driver.Examples.Plugin.{cdi_lib}
use dra_rt_driver.Examples.Fixtures.{node_a}
use dra_rt_driver.Examples.Client.{Store, store_api, store_api-IsServer, write-named, store}

-- One attempt, and no more.
abbrev pub once : Retry
once = record { on_conflict = λ m. m }

pub once-IsAttempting : IsAttempting once
once-IsAttempting = record { attempts = λ m w w' a e. (w, now, e) }

abbrev client_go : ClientGo ℕ (Unit {0}) (String → Exec Store String) (NasApi Store)
client_go = record {
  in_cluster = ok (record { qps = 0; burst = pos 0; rest = tt });
  from_flags = λ master path. err (api unavailable);
  to_float32 = λ x. x;
  new_core = λ c. ok (λ name s. (ok "uid", s));
  new_example = λ c. ok store_api;
}

abbrev pub kube : KubeClientConfig ℕ
kube = record { kube_config = ""; kube_api_qps = 5; kube_api_burst = pos 10 }

abbrev pub on_a : NasConfig
on_a = record { node_name = "a"; namespace = "dra"; hide_node_name = false }

pub store_api-IsCreator : IsCreator store_api
store_api-IsCreator = record {
  creates = λ ns s t nas crd e. write-named ns s.held s.refusals t nas crd e;
}

-- The node's record is there, and becomes not ready.
abbrev not_ready : Store
not_ready = record { held = record node_a { status = status_not_ready }; refusals = 0 }

sets_not_ready :
    set_nas_status once client_go kube on_a status_not_ready (store 0) ≡ (ok tt, not_ready)
unfolding set_nas_status new_client_sets new_client_set_config new_nas set_status_attempt
    Client.get_or_create Client.get Client.update_status new_node_allocation_state
sets_not_ready = refl

clients_of_store :
    (sets : ClientSets (String → Exec Store String) (NasApi Store))
    → new_client_sets client_go kube ≡ ok sets
    → IsServer sets.example × IsCreator sets.example
unfolding new_client_sets new_client_set_config
clients_of_store sets e =
    let same : store_api ≡ sets.example =
      ap (λ (x : ClientSets (String → Exec Store String) (NasApi Store)). x.example)
        (ok_injective e) in
    (subst IsServer same store_api-IsServer, subst IsCreator same store_api-IsCreator)

set_nas_status_sets_example :
    (sets : ClientSets (String → Exec Store String) (NasApi Store)) × (new_client_sets client_go
        kube
      ≡ ok sets)
    × (crd : NodeAllocationState) × (sets.example.fetch "dra" "a" not_ready ≡ (ok crd, not_ready))
    × (crd.status ≡ status_not_ready)
set_nas_status_sets_example =
    set_nas_status_sets once client_go kube on_a status_not_ready (store 0) not_ready
      once-IsAttempting clients_of_store sets_not_ready

parse_status_accepts_example : (parse_status "notREADY" ≡ ok "NotReady") ↔ (
    (("NotReady" ≡ status_ready) ⊎ ("NotReady" ≡ status_not_ready))
    × (to_lower "notREADY" ≡ to_lower "NotReady"))
parse_status_accepts_example = parse_status_accepts "notREADY" "NotReady"

env_name :
    (pflag_to_cli (record { name = "feature-gates"; value = no_value })).env_vars
    ≡ "FEATURE_GATES" ∷ []
unfolding pflag_to_cli to_upper dashes_to_underscores
env_name = refl

-- A file system that is a list of directories, with a file in the place of the CDI files.
abbrev disk : Os (List String)
disk = record {
  mkdir_all = λ path dirs. (ok tt, path ∷ dirs);
  stat = λ path dirs. (found (path == "/etc/cdi.d"), dirs);
}

abbrev kubelet : Kubelet (List String)
kubelet = record { start = λ dirs. (ok tt, dirs); stop = λ dirs. dirs }

abbrev host : Host (List String) Store (Unit {0})
host = record { files = []; server = store 0; registry = tt }

abbrev refused : Host (List String) Store (Unit {0})
refused = record host { files = driver_plugin_path ∷ [] }

start_plugin_refused :
    start_plugin once disk kubelet store_api cdi_lib
      (λ f n. (f, n))
      (pos 0 ∷ [])
      "a"
      "/etc/cdi"
      node_a
      host
    ≡ (err (failed not_a_directory), refused)
unfolding start_plugin prepare_directories
start_plugin_refused = refl

start_plugin-Fails_example :
    Fails once disk kubelet store_api cdi_lib
      (λ f n. (f, n))
      (pos 0 ∷ [])
      "a"
      "/etc/cdi"
      node_a
      host
      (failed not_a_directory)
      refused
start_plugin-Fails_example =
    start_plugin-Fails once disk kubelet store_api cdi_lib (λ f n. (f, n)) (pos 0 ∷ []) "a"
      "/etc/cdi" node_a host (failed not_a_directory) refused start_plugin_refused
