-- ===== src/Programs/Setup.antt =====
-- pkg/flags: the flags that the programs share, and what is made of them. client-go and the API server
-- behind its clients are parameters: `F` stands for Go's floating-point numbers, `C` for the client of
-- the core API, `E` for that of the driver's own.
use dra_rt_driver.Prelude.{
  String, string_key, ◌==◌, if◌then◌else◌, Bool, true, false, not, some, List, [], ◌∷◌, ◌++◌, map,
}
use dra_rt_driver.Prelude.Int.{ℤ, pos}
use dra_rt_driver.Prelude.Text.{to_upper, dashes_to_underscores}
use dra_rt_driver.Prelude.Outcome.{
  Outcome, ok, wrap_error, get_node, in_cluster_config, out_of_cluster_config, client_configuration,
  core_client, example_client, arguments_not_supported, failed, ◌>>=◌,
}
use dra_rt_driver.Prelude.Exec
use dra_rt_driver.Prelude.Exec.{Exec}
use dra_rt_driver.Nas.{NodeAllocationState, new_node_allocation_state}

-- The value that a flag has unless it is set; a floating-point default of the program is whole.
pub data FlagValue : Type 0 where
  no_value : FlagValue
  text : String → FlagValue
  whole : ℤ → FlagValue
  floating : ℤ → FlagValue

-- What a `cli.Flag` is made with, less the texts that it is shown with and its destination.
pub record CliFlag : Type 0 where
  pub name : String
  pub value : FlagValue
  pub required : Bool
  pub env_vars : List String

pub record NasConfig : Type 0 where
  pub node_name : String
  pub namespace : String
  pub hide_node_name : Bool

-- `NasConfig.Flags`
unfoldable pub nas_flags : NasConfig → List CliFlag
nas_flags n =
    let flags : List CliFlag =
      record {
        name = "namespace";
        value = text "default";
        required = false;
        env_vars = "NAMESPACE" ∷ [];
      }
      ∷ [] in
    if not n.hide_node_name
    then flags
      ++ record {
        name = "node-name";
        value = no_value;
        required = true;
        env_vars = "NODE_NAME" ∷ [];
      }
        ∷ []
    else flags

-- `NasConfig.NewNodeAllocationState`: `nodes` reads the UID of a node from the core API.
unfoldable pub new_nas :
    {S : Type 0} → (String → Exec S String) → NasConfig → Exec S NodeAllocationState
new_nas nodes n = Exec.◌>>=◌ (Exec.on_error get_node (nodes n.node_name)) λ uid. Exec.pure (
    new_node_allocation_state
      (record { name = n.node_name; namespace = n.namespace; owner = some uid }))

pub record KubeClientConfig (F : Type 0) : Type 0 where
  pub kube_config : String
  pub kube_api_qps : F
  pub kube_api_burst : ℤ

-- What the program sets in client-go's `rest.Config`, and the rest of it.
pub record RestConfig (F X : Type 0) : Type 0 where
  pub qps : F
  pub burst : ℤ
  pub rest : X

pub record ClientSets (C E : Type 0) : Type 0 where
  pub core : C
  pub example : E

pub record ClientGo (F X C E : Type 0) : Type 0 where
  pub in_cluster : Outcome (RestConfig F X)
  pub from_flags : String → String → Outcome (RestConfig F X)
  pub to_float32 : F → F
  pub new_core : RestConfig F X → Outcome C
  pub new_example : RestConfig F X → Outcome E

-- `KubeClientConfig.Flags`
unfoldable pub kube_client_flags : List CliFlag
kube_client_flags =
    record { name = "kubeconfig"; value = no_value; required = false; env_vars = "KUBECONFIG" ∷ [] }
    ∷ record {
      name = "kube-api-qps";
      value = floating (pos 5);
      required = false;
      env_vars = "KUBE_API_QPS" ∷ [];
    }
    ∷ record {
      name = "kube-api-burst";
      value = whole (pos 10);
      required = false;
      env_vars = "KUBE_API_BURST" ∷ [];
    }
    ∷ []

-- A flag of the library that component-base uses, less the text that it is shown with.
pub record Pflag : Type 0 where
  pub name : String
  pub value : FlagValue

-- `pflagToCLI`
unfoldable pub pflag_to_cli : Pflag → CliFlag
pflag_to_cli flag = record {
  name = flag.name;
  value = flag.value;
  required = false;
  env_vars = to_upper (dashes_to_underscores flag.name) ∷ [];
}

-- `LoggingConfig.Flags`: component-base has added the flags `fs`, and `sorted` is the order in which
-- `VisitAll` delivers them; `gates` is the value of the feature gate.
unfoldable pub logging_flags : (List Pflag → List Pflag) → List Pflag → FlagValue → List CliFlag
unfolding pflag_to_cli
logging_flags sorted fs gates =
    map pflag_to_cli (sorted (fs ++ record { name = "feature-gates"; value = gates } ∷ []))

-- `Before` of the three programs, where `apply` is `loggingConfig.Apply`.
unfoldable pub before : {W : Type 0} → Exec W (Unit {0}) → List String → Exec W (Unit {0})
before apply [] = apply
before apply (arg ∷ args) = Exec.fail (failed arguments_not_supported)

module _ {F X C E : Type 0} (lib : ClientGo F X C E) where
  -- `KubeClientConfig.NewClientSetConfig`
  unfoldable pub new_client_set_config : KubeClientConfig F → Outcome (RestConfig F X)
  new_client_set_config k = do
    csconfig ←
        if k.kube_config == ""
        then wrap_error in_cluster_config lib.in_cluster
        else wrap_error out_of_cluster_config (lib.from_flags "" k.kube_config)
    ok (record csconfig { qps = lib.to_float32 k.kube_api_qps; burst = k.kube_api_burst })

  -- `KubeClientConfig.NewClientSets`
  unfoldable pub new_client_sets : KubeClientConfig F → Outcome (ClientSets C E)
  unfolding new_client_set_config
  new_client_sets k = do
    csconfig ← wrap_error client_configuration (new_client_set_config k)
    core ← wrap_error core_client (lib.new_core csconfig)
    example ← wrap_error example_client (lib.new_example csconfig)
    ok (record { core = core; example = example })
