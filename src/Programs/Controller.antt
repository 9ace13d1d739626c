-- ===== src/Programs/Controller.antt =====
-- cmd/dra-rt-controller/main.go: the program of the controller, up to the loop of the controller
-- library, which is the parameter `run`. Prometheus, pprof and the HTTP server are the handlers that
-- are registered, by name.
pub mod Routes
use dra_rt_driver.Prelude.{
  ◌≡◌, refl, ap, ◌∙◌, String, string_key, ◌==◌, if◌then◌else◌, not, Bool, true, false, Bool-cases,
  inl, inr, Option, none, some, List, [], ◌∷◌, ◌++◌,
}
use dra_rt_driver.Prelude.Int.{ℤ, pos}
use dra_rt_driver.Prelude.Text.{join_path}
use dra_rt_driver.Prelude.GoMap.{GoMap, lookup, HasDistinctKeys}
use dra_rt_driver.Prelude.Outcome
use dra_rt_driver.Prelude.Outcome.{
  Outcome, ok, err, panic, already_registered, wrap_error, ◌>>=◌, create_client, listen_endpoint,
  create_http_endpoint, starting_controller,
}
use dra_rt_driver.Prelude.Exec
use dra_rt_driver.Prelude.Exec.{Exec}
use dra_rt_driver.Programs.Setup.{
  CliFlag, text, whole, no_value, NasConfig, nas_flags, kube_client_flags, KubeClientConfig,
  ClientGo, ClientSets, new_client_sets,
}

pub record Flags (F : Type 0) : Type 0 where
  pub kube_client_config : KubeClientConfig F
  pub nas_config : NasConfig
  pub workers : ℤ
  pub http_endpoint : String
  pub metrics_path : String
  pub profile_path : String

-- The flags of the program, where `logging` are those of the logging configuration.
unfoldable pub controller_flags : List CliFlag → NasConfig → List CliFlag
controller_flags logging n =
    record { name = "workers"; value = whole (pos 10); required = false; env_vars = "WORKERS" ∷ [] }
    ∷ record {
      name = "http-endpoint";
      value = no_value;
      required = false;
      env_vars = "HTTP_ENDPOINT" ∷ [];
    }
    ∷ record {
      name = "metrics-path";
      value = text "/metrics";
      required = false;
      env_vars = "METRICS_PATH" ∷ [];
    }
    ∷ record {
      name = "pprof-path";
      value = no_value;
      required = false;
      env_vars = "PPROF_PATH" ∷ [];
    }
    ∷ (kube_client_flags ++ logging ++ nas_flags (record n { hide_node_name = true }))

pub data Handler : Type 0 where
  metrics pprof_index pprof_cmdline pprof_profile pprof_symbol pprof_trace : Handler

-- `http.ServeMux` of Go's standard library, over muxes `M`: `handle` panics for a pattern that it does
-- not accept, and for one that conflicts with a pattern that is registered.
pub record ServeMux (M : Type 0) : Type 0 where
  pub new : M
  pub handle : String → Handler → M → Outcome M

module _ {M : Type 0} (lib : ServeMux M) where
  unfoldable pub handle_metrics : String → M → Outcome M
  handle_metrics path mux =
      if path == "" then ok mux else lib.handle (join_path "/" path) metrics mux

  unfoldable pub handle_profile : String → M → Outcome M
  handle_profile path mux =
      if path == ""
      then ok mux
      else (let actual = join_path "/" path in
          lib.handle actual pprof_index mux
          >>= lib.handle (join_path actual "cmdline") pprof_cmdline
          >>= lib.handle (join_path actual "profile") pprof_profile
          >>= lib.handle (join_path actual "symbol") pprof_symbol
          >>= lib.handle (join_path actual "trace") pprof_trace)

module _ {M N : Type 0} (http : ServeMux M) (listen : String → Exec N (Unit {0})) where
  -- `SetupHTTPEndpoint`, from an empty mux; `listen` is `net.Listen`, over the state `N` of the network,
  -- and the mux is what the server then serves.
  unfoldable pub setup_http_endpoint : {F : Type 0} → Flags F → Exec N M
  unfolding handle_metrics handle_profile
  setup_http_endpoint flags =
      Exec.◌>>=◌ (Exec.lift (handle_metrics http flags.metrics_path http.new)) λ mux.
        Exec.◌>>=◌ (Exec.lift (handle_profile http flags.profile_path mux)) λ mux'.
          Exec.◌>>=◌ (Exec.on_error listen_endpoint (listen flags.http_endpoint))
            λ u. Exec.pure mux'

  -- `StartController`, which returns nil when the controller has run with the clients, the namespace
  -- and the number of workers; `run` is the controller library, over the driver that it is given.
  unfoldable pub start_controller :
      {F C E : Type 0}
      → (ClientSets C E → String → ℤ → N → N)
      → ClientSets C E
      → Flags F
      → Exec N (Unit {0})
  start_controller run sets flags s = (ok tt, run sets flags.nas_config.namespace flags.workers s)

  -- `Action` of the program
  unfoldable pub start :
      {F X C E : Type 0}
      → ClientGo F X C E
      → (ClientSets C E → String → ℤ → N → N)
      → Flags F
      → Exec N (Unit {0})
  unfolding setup_http_endpoint start_controller
  start lib run flags =
      Exec.◌>>=◌
        (Exec.on_error create_client (Exec.lift (new_client_sets lib flags.kube_client_config)))
        λ sets.
          Exec.◌>>=◌
            (if flags.http_endpoint == ""
              then Exec.pure http.new
              else Exec.on_error create_http_endpoint (setup_http_endpoint flags))
            λ mux. Exec.on_error starting_controller (start_controller run sets flags)
