-- ===== src/Examples/Routes.antt =====
-- cmd/dra-rt-controller/main.go, SetupHTTPEndpoint: the default paths.
use dra_rt_driver.Prelude.{none, some, ℕ, ◌≡◌, refl, String, string_key, List, [], ◌∷◌, ◌++◌}
use dra_rt_driver.Prelude.Int.{pos}
use dra_rt_driver.Prelude.Text.{join_path}
use dra_rt_driver.Prelude.GoMap.{lookup}
use dra_rt_driver.Prelude.Outcome.{Outcome, panic, already_registered, ok}
use dra_rt_driver.Prelude.Exec.{Exec}
use dra_rt_driver.Prelude.GoMap.{HasDistinctKeys}
use dra_rt_driver.Programs.Controller.{
  Flags, ServeMux, setup_http_endpoint, metrics, pprof_index, pprof_cmdline, pprof_profile,
  pprof_symbol, pprof_trace,
}
use dra_rt_driver.Programs.Controller.Routes.{
  Routes, ArePlain, is_plain, IsServeMux, metrics_routes, profile_routes,
  setup_http_endpoint_routes,
}
use dra_rt_driver.Examples.Fixtures.{ne_of_test}
use dra_rt_driver.Examples.Programs.{kube, on_a}

-- The flags of a controller that serves metrics and pprof.
abbrev served : Flags ℕ
served = record {
  kube_client_config = kube;
  nas_config = on_a;
  workers = pos 10;
  http_endpoint = ":8080";
  metrics_path = "/metrics";
  profile_path = "debug/pprof/";
}

abbrev listens : String → Exec (List String) (Unit {0})
listens address bound = (ok tt, address ∷ bound)

served-HasDistinctKeys :
    HasDistinctKeys (metrics_routes "/metrics" ++ profile_routes "debug/pprof/")
unfolding join_path
served-HasDistinctKeys = (
  (
    ne_of_test "/debug/pprof" "/metrics" refl,
    (
      ne_of_test "/debug/pprof/cmdline" "/metrics" refl,
      (
        ne_of_test "/debug/pprof/profile" "/metrics" refl,
        (
          ne_of_test "/debug/pprof/symbol" "/metrics" refl,
          (ne_of_test "/debug/pprof/trace" "/metrics" refl, tt),
        ),
      ),
    ),
  ),
  (
    (
      ne_of_test "/debug/pprof/cmdline" "/debug/pprof" refl,
      (
        ne_of_test "/debug/pprof/profile" "/debug/pprof" refl,
        (
          ne_of_test "/debug/pprof/symbol" "/debug/pprof" refl,
          (ne_of_test "/debug/pprof/trace" "/debug/pprof" refl, tt),
        ),
      ),
    ),
    (
      (
        ne_of_test "/debug/pprof/profile" "/debug/pprof/cmdline" refl,
        (
          ne_of_test "/debug/pprof/symbol" "/debug/pprof/cmdline" refl,
          (ne_of_test "/debug/pprof/trace" "/debug/pprof/cmdline" refl, tt),
        ),
      ),
      (
        (
          ne_of_test "/debug/pprof/symbol" "/debug/pprof/profile" refl,
          (ne_of_test "/debug/pprof/trace" "/debug/pprof/profile" refl, tt),
        ),
        ((ne_of_test "/debug/pprof/trace" "/debug/pprof/symbol" refl, tt), (tt, tt)),
      ),
    ),
  ),
)

-- A mux that takes every pattern once.
abbrev small_mux : ServeMux Routes
small_mux = record {
  new = [];
  handle = λ path h m. elim (lookup path m) as (λ _. Outcome Routes) [
    | none ↦ ok (m ++ (path, h) ∷ [])
    | some _ ↦ panic already_registered
  ];
}

abbrev small_mux_law : IsServeMux small_mux
small_mux_law = record {
  patterns = λ m. m;
  starts = refl;
  adds = λ path h m p e. (m ++ (path, h) ∷ [], rw (small_mux, e) refl, refl);
  repeats = λ path h g m p e. rw (small_mux, e) refl;
}

served-ArePlain : ArePlain (metrics_routes "/metrics" ++ profile_routes "debug/pprof/")
unfolding join_path is_plain
served-ArePlain = (refl, (refl, (refl, (refl, (refl, (refl, tt))))))

setup_http_endpoint_routes_example :
    (mux : Routes) × (mux ≡ metrics_routes "/metrics" ++ profile_routes "debug/pprof/")
    × (setup_http_endpoint small_mux listens served [] ≡ (ok mux, ":8080" ∷ []))
setup_http_endpoint_routes_example =
    setup_http_endpoint_routes small_mux small_mux_law listens served [] served-HasDistinctKeys
      served-ArePlain

-- The paths are cleaned, and no two are the same.
served_paths :
    metrics_routes "/metrics" ++ profile_routes "debug//./x/../pprof/"
    ≡ ("/metrics", metrics)
      ∷ ("/debug/pprof", pprof_index)
      ∷ ("/debug/pprof/cmdline", pprof_cmdline)
      ∷ ("/debug/pprof/profile", pprof_profile)
      ∷ ("/debug/pprof/symbol", pprof_symbol)
      ∷ ("/debug/pprof/trace", pprof_trace)
      ∷ []
unfolding join_path
served_paths = refl
