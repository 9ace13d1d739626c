-- ===== src/Programs/KubeletPlugin.antt =====
-- cmd/dra-rt-kubeletplugin/main.go: the program of the plugin. The file system is the parameter `os`,
-- the kubelet's plugin library `kubelet`, and `serve` is what the kubelet's calls do until a signal ends
-- the program.
pub mod Failing
pub mod Lifecycle
pub mod Starting
use dra_rt_driver.Prelude.{String, Bool, true, false, Option, none, some, List, [], ◌∷◌, ◌++◌}
use dra_rt_driver.Prelude.Int.{ℤ}
use dra_rt_driver.Prelude.Outcome.{
  Outcome, ok, err, panic, Error, failed, not_a_directory, create_client, create_nas,
}
use dra_rt_driver.Prelude.Exec
use dra_rt_driver.Prelude.Exec.{Exec}
use dra_rt_driver.Nas.{NodeAllocationState}
use dra_rt_driver.Client.{NasApi}
use dra_rt_driver.Plugin.Devices.{DeviceState}
use dra_rt_driver.Plugin.Cdi.{CdiLib}
use dra_rt_driver.Plugin.Driver.{Node, Retry, new_driver, shutdown}
use dra_rt_driver.Programs.Setup.{
  CliFlag, text, NasConfig, nas_flags, kube_client_flags, KubeClientConfig, ClientGo, ClientSets,
  new_client_sets, new_nas,
}

-- The flags of the program, where `logging` are those of the logging configuration.
unfoldable pub plugin_flags : List CliFlag → NasConfig → List CliFlag
plugin_flags logging n =
    record {
      name = "cdi-root";
      value = text "/etc/cdi";
      required = false;
      env_vars = "CDI_ROOT" ∷ [];
    }
    ∷ (kube_client_flags ++ nas_flags n ++ logging)

abbrev pub driver_plugin_path : String
driver_plugin_path = "/var/lib/kubelet/plugins/rt.resource.example.com"

-- What `os.Stat` finds out: whether the file is a directory, or that there is none, or another error.
pub data Stat : Type 0 where
  found : Bool → Stat
  not_exist : Stat
  unreadable : Error → Stat

pub record Os (F : Type 0) : Type 0 where
  pub mkdir_all : String → Exec F (Unit {0})
  pub stat : String → F → Stat × F

pub record Kubelet (F : Type 0) : Type 0 where
  pub start : Exec F (Unit {0})
  pub stop : F → F

module _ {F : Type 0} (os : Os F) where
  -- The switch of `StartPlugin` on the directory of the CDI files.
  abbrev check_root : String → Stat × F → Outcome (Unit {0}) × F
  check_root cdi_root (found true, f) = (ok tt, f)
  check_root cdi_root (found false, f) = (err (failed not_a_directory), f)
  check_root cdi_root (not_exist, f) = os.mkdir_all cdi_root f
  check_root cdi_root (unreadable e, f) = (err e, f)

  -- `StartPlugin` up to the driver.
  unfoldable pub prepare_directories : String → Exec F (Unit {0})
  prepare_directories cdi_root =
      Exec.◌>>=◌ (os.mkdir_all driver_plugin_path) λ u f. check_root cdi_root (os.stat cdi_root f)

-- The file system, the API server and the CDI registry, between the steps of the program.
pub record Host (F S R : Type 0) : Type 0 where
  pub files : F
  pub server : S
  pub registry : R

module _ (r : Retry) {F S R : Type 0} (os : Os F) (kubelet : Kubelet F) (server : NasApi S)
    (lib : CdiLib R) (serve : F → Node S R DeviceState → F × Node S R DeviceState) where
  abbrev host_of : {D : Type 0} → F → Node S R D → Host F S R
  host_of f n = record { files = f; server = n.server; registry = n.registry }

  -- The end of `StartPlugin`: an error of `Shutdown` is logged.
  abbrev end_of : F → Outcome (Unit {0}) × Node S R DeviceState → Outcome (Unit {0}) × Host F S R
  end_of f (ok u, n) = (ok tt, host_of f n)
  end_of f (err e, n) = (ok tt, host_of f n)
  end_of f (panic p, n) = (panic p, host_of f n)

  -- From the start of the kubelet's plugin, which may fail, to the end.
  abbrev serve_on : Node S R DeviceState → Outcome (Unit {0}) × F → Outcome (Unit {0}) × Host F S R
  serve_on n (ok u, f) =
      let served = serve f n in end_of (kubelet.stop served.0) (shutdown r server lib served.1)
  serve_on n (err e, f) = (err e, host_of f n)
  serve_on n (panic p, f) = (panic p, host_of f n)

  abbrev with_driver :
      F → Outcome DeviceState × Node S R (Unit {0}) → Outcome (Unit {0}) × Host F S R
  with_driver f (ok state, n) =
      serve_on
        (record { server = n.server; registry = n.registry; nascrd = n.nascrd; state = state })
        (kubelet.start f)
  with_driver f (err e, n) = (err e, host_of f n)
  with_driver f (panic p, n) = (panic p, host_of f n)

  abbrev in_directories :
      List ℤ
      → String
      → NodeAllocationState
      → S
      → R
      → Outcome (Unit {0}) × F
      → Outcome (Unit {0}) × Host F S R
  in_directories cpu_info node_name nascr s reg (ok u, f) = with_driver f (
      new_driver r server lib cpu_info node_name
        (record { server = s; registry = reg; nascrd = nascr; state = tt }))
  in_directories cpu_info node_name nascr s reg (err e, f) =
      (err e, record { files = f; server = s; registry = reg })
  in_directories cpu_info node_name nascr s reg (panic p, f) =
      (panic p, record { files = f; server = s; registry = reg })

  -- `StartPlugin`, on a node with these CPUs and this name.
  unfoldable pub start_plugin :
      List ℤ → String → String → NodeAllocationState → Exec (Host F S R) (Unit {0})
  unfolding prepare_directories
  start_plugin cpu_info node_name cdi_root nascr h =
      in_directories cpu_info node_name nascr h.server h.registry
        (prepare_directories os cdi_root h.files)

-- `Action` of the program, for the flags `k`, `n` and `cdi_root`.
module _ (r : Retry) {F S R Fl X : Type 0} (os : Os F) (kubelet : Kubelet F) (lib : CdiLib R)
    (client_go : ClientGo Fl X (String → Exec S String) (NasApi S))
    (serve : F → Node S R DeviceState → F × Node S R DeviceState) where
  abbrev with_nas :
      List ℤ
      → NasApi S
      → NasConfig
      → String
      → F
      → R
      → Outcome NodeAllocationState × S
      → Outcome (Unit {0}) × Host F S R
  with_nas cpu_info api n cdi_root f reg (ok nas, s) =
      start_plugin r os kubelet api lib serve cpu_info n.node_name cdi_root nas
        (record { files = f; server = s; registry = reg })
  with_nas cpu_info api n cdi_root f reg (err e, s) =
      (err e, record { files = f; server = s; registry = reg })
  with_nas cpu_info api n cdi_root f reg (panic p, s) =
      (panic p, record { files = f; server = s; registry = reg })

  unfoldable pub start :
      KubeClientConfig Fl → NasConfig → String → List ℤ → Exec (Host F S R) (Unit {0})
  start k n cdi_root cpu_info =
      Exec.◌>>=◌ (Exec.on_error create_client (Exec.lift (new_client_sets client_go k))) λ sets h.
        with_nas cpu_info sets.example n cdi_root h.files h.registry
          (Exec.on_error create_nas (new_nas sets.core n) h.server)
