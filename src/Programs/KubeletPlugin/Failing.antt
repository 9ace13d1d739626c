-- ===== src/Programs/KubeletPlugin/Failing.antt =====
-- cmd/dra-rt-kubeletplugin/main.go, StartPlugin: the ways in which it fails.
use dra_rt_driver.Prelude.{◌≡◌, ◌⊎◌, inl, inr, refl, sym, ap, String, List}
use dra_rt_driver.Prelude.Int.{ℤ}
use dra_rt_driver.Prelude.Outcome.{Outcome, ok, err, panic, Error}
use dra_rt_driver.Nas.{NodeAllocationState}
use dra_rt_driver.Client.{NasApi}
use dra_rt_driver.Plugin.Devices.{DeviceState}
use dra_rt_driver.Plugin.Cdi.{CdiLib}
use dra_rt_driver.Plugin.Driver.{Node, Retry, new_driver}
use dra_rt_driver.Programs.KubeletPlugin.{
  Os, Kubelet, Host, prepare_directories, start_plugin, serve_on, with_driver, in_directories,
  end_of,
}

module _ (r : Retry) {F S R : Type 0} (os : Os F) (kubelet : Kubelet F) (server : NasApi S)
    (lib : CdiLib R) (serve : F → Node S R DeviceState → F × Node S R DeviceState)
    (cpu_info : List ℤ) (node_name cdi_root : String) (nascr : NodeAllocationState)
    (h : Host F S R) where
  abbrev fresh : Node S R (Unit {0})
  fresh = record { server = h.server; registry = h.registry; nascrd = nascr; state = tt }

  -- The directories could not be prepared, and the server and the registry are as they were.
  pub record DirectoriesFail (e : Error) (h' : Host F S R) : Type 0 where
    pub fails : prepare_directories os cdi_root h.files ≡ (err e, h'.files)
    pub server_kept : h'.server ≡ h.server
    pub registry_kept : h'.registry ≡ h.registry

  -- The driver could not be made, and the kubelet was not told of it.
  pub record DriverFails (e : Error) (h' : Host F S R) : Type 0 where
    pub prepared : prepare_directories os cdi_root h.files ≡ (ok tt, h'.files)
    pub node : Node S R (Unit {0})
    pub fails : new_driver r server lib cpu_info node_name fresh ≡ (err e, node)
    pub is_server : h'.server ≡ node.server

  -- The driver was made, and the kubelet's library did not start.
  pub record KubeletFails (e : Error) (h' : Host F S R) : Type 0 where
    pub files : F
    pub prepared : prepare_directories os cdi_root h.files ≡ (ok tt, files)
    pub state : DeviceState
    pub node : Node S R (Unit {0})
    pub made : new_driver r server lib cpu_info node_name fresh ≡ (ok state, node)
    pub fails : kubelet.start files ≡ (err e, h'.files)
    pub is_server : h'.server ≡ node.server

  abbrev pub Fails : Error → Host F S R → Type 0
  Fails e h' = DirectoriesFail e h' ⊎ DriverFails e h' ⊎ KubeletFails e h'

  ending :
      (f : F) (o : Outcome (Unit {0}) × Node S R DeviceState) (e : Error) (h' : Host F S R)
      → end_of r os kubelet server lib serve f o ≡ (err e, h')
      → Fails e h'
  ending f (ok u, n) e h' q = absurd (cc)
  ending f (err x, n) e h' q = absurd (cc)
  ending f (panic p, n) e h' q = absurd (cc)

  serving :
      (f : F) (state : DeviceState) (n : Node S R (Unit {0})) (o : Outcome (Unit {0}) × F)
      (e : Error) (h' : Host F S R)
      → prepare_directories os cdi_root h.files ≡ (ok tt, f)
      → new_driver r server lib cpu_info node_name fresh ≡ (ok state, n)
      → kubelet.start f ≡ o
      → serve_on r os kubelet server lib serve
          (record { server = n.server; registry = n.registry; nascrd = n.nascrd; state = state })
          o
        ≡ (err e, h')
      → Fails e h'
  serving f state n (ok u, g) e h' a b c q = ending _ _ e h' q
  serving f state n (err x, g) e h' a b c q =
      let files : g ≡ h'.files = ap (λ (y : Outcome (Unit {0}) × Host F S R). y.1.files) q in
      let srv : n.server ≡ h'.server = ap (λ (y : Outcome (Unit {0}) × Host F S R). y.1.server) q in
      let same : x ≡ e = cc in
      inr (
        inr (record {
          files = f;
          prepared = a;
          state = state;
          node = n;
          made = b;
          fails = cc;
          is_server = sym srv;
        }))
  serving f state n (panic p, g) e h' a b c q = absurd (cc)

  driving :
      (f : F) (o : Outcome DeviceState × Node S R (Unit {0})) (e : Error) (h' : Host F S R)
      → prepare_directories os cdi_root h.files ≡ (ok tt, f)
      → new_driver r server lib cpu_info node_name fresh ≡ o
      → with_driver r os kubelet server lib serve f o ≡ (err e, h')
      → Fails e h'
  driving f (ok state, n) e h' a b q = serving f state n (kubelet.start f) e h' a b refl q
  driving f (err x, n) e h' a b q =
      let files : f ≡ h'.files = ap (λ (y : Outcome (Unit {0}) × Host F S R). y.1.files) q in
      let srv : n.server ≡ h'.server = ap (λ (y : Outcome (Unit {0}) × Host F S R). y.1.server) q in
      inr (inl (record { prepared = cc; node = n; fails = cc; is_server = sym srv }))
  driving f (panic p, n) e h' a b q = absurd (cc)

  preparing :
      (o : Outcome (Unit {0}) × F) (e : Error) (h' : Host F S R)
      → prepare_directories os cdi_root h.files ≡ o
      → in_directories r os kubelet server lib serve cpu_info node_name nascr h.server h.registry o
        ≡ (err e, h')
      → Fails e h'
  preparing (ok tt, f) e h' a q =
      driving f (new_driver r server lib cpu_info node_name fresh) e h' a refl q
  preparing (err x, f) e h' a q =
      let files : f ≡ h'.files = ap (λ (y : Outcome (Unit {0}) × Host F S R). y.1.files) q in
      let srv : h.server ≡ h'.server = ap (λ (y : Outcome (Unit {0}) × Host F S R). y.1.server) q in
      let reg : h.registry ≡ h'.registry =
        ap (λ (y : Outcome (Unit {0}) × Host F S R). y.1.registry) q in
      inl (record { fails = cc; server_kept = sym srv; registry_kept = sym reg })
  preparing (panic p, f) e h' a q = absurd (cc)

  -- When `StartPlugin` returns an error, it is one of three: the directories could not be prepared, and
  -- then the API server and the CDI registry are as they were; the driver could not be made; or the
  -- kubelet's library did not start. In particular an error of `Shutdown` is never returned.
  pub start_plugin-Fails :
      (e : Error) (h' : Host F S R)
      → start_plugin r os kubelet server lib serve cpu_info node_name cdi_root nascr h ≡ (err e, h')
      → Fails e h'
  unfolding start_plugin
  start_plugin-Fails e h' q = preparing (prepare_directories os cdi_root h.files) e h' refl q
