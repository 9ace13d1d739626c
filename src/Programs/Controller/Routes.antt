-- ===== src/Programs/Controller/Routes.antt =====
-- cmd/dra-rt-controller/main.go, SetupHTTPEndpoint: the paths that are served.
use dra_rt_driver.Prelude.{
  ◌≡◌, nat_beq, false, ◌≢◌, ◌&&◌, ◌||◌, not, List, All, true, inl, inr, refl, sym, ap, ◌∙◌, subst,
  String, string_key, ◌==◌, if◌then◌else◌, Bool, Bool-cases, none, some, [], ◌∷◌, ◌++◌, arith,
}
use Prim.Native.Char.{code}
use Prim.Native.String.{[], ◌∷◌}
use mathlib.Core.List.{append-nil, append_assoc}
use dra_rt_driver.Prelude.Text.{join_path}
use dra_rt_driver.Prelude.GoMap.{lookup, Absent, HasDistinctKeys, eq_self}
use dra_rt_driver.Prelude.Outcome.{
  Outcome, ok, err, panic, already_registered, ◌>>=◌, wrap_error, listen_endpoint,
}
use dra_rt_driver.Prelude.Exec
use dra_rt_driver.Prelude.Exec.{Exec}
use dra_rt_driver.Programs.Controller.{
  Flags, Handler, metrics, pprof_index, pprof_cmdline, pprof_profile, pprof_symbol, pprof_trace,
  ServeMux, handle_metrics, handle_profile, setup_http_endpoint,
}

-- A pattern that matches its own text: it starts with a slash and has no blank, no wildcard and no
-- escape (tab 9, blank 32, percent 37, braces 123 and 125).
is_ordinary : String → Bool
is_ordinary [] = true
is_ordinary (c ∷ s) =
    not (
      nat_beq (code c) 9
      || nat_beq (code c) 32
      || nat_beq (code c) 37
      || nat_beq (code c) 123
      || nat_beq (code c) 125)
    && is_ordinary s

unfoldable pub is_plain : String → Bool
unfolding is_ordinary
is_plain [] = false
is_plain (c ∷ s) = nat_beq (code c) 47 && is_ordinary s

-- Patterns with their handlers, in the order of their registration.
abbrev pub Routes : Type 0
Routes = List (String × Handler)

abbrev pub ArePlain : Routes → Type 0
ArePlain rs = All (λ (r : String × Handler). is_plain r.0 ≡ true) rs

-- What the package `net/http` documents: a new mux has no patterns; with plain patterns only, another
-- plain pattern is registered if it is not there yet, and `Handle` panics if it is.
pub record IsServeMux {M : Type 0} (lib : ServeMux M) : Type 0 where
  pub patterns : M → Routes
  pub starts : patterns lib.new ≡ []
  pub adds :
      (path : String) (h : Handler) (m : M)
      → ArePlain (patterns m ++ (path, h) ∷ [])
      → lookup path (patterns m) ≡ none
      → (m' : M) × (lib.handle path h m ≡ ok m') × (patterns m' ≡ patterns m ++ (path, h) ∷ [])
  pub repeats :
      (path : String) (h g : Handler) (m : M)
      → ArePlain (patterns m)
      → lookup path (patterns m) ≡ some g
      → lib.handle path h m ≡ panic already_registered

-- The routes that the flags ask for: metrics under their path, and the five pages of pprof, each only
-- if its path is not empty.
abbrev pub metrics_routes : String → Routes
metrics_routes path = if path == "" then [] else (join_path "/" path, metrics) ∷ []

abbrev profile_pages : String → Routes
profile_pages actual =
    (actual, pprof_index)
    ∷ (join_path actual "cmdline", pprof_cmdline)
    ∷ (join_path actual "profile", pprof_profile)
    ∷ (join_path actual "symbol", pprof_symbol)
    ∷ (join_path actual "trace", pprof_trace)
    ∷ []

abbrev pub profile_routes : String → Routes
profile_routes path = if path == "" then [] else profile_pages (join_path "/" path)

lookup-front :
    (path : String) (h : Handler) (m rest : Routes)
    → HasDistinctKeys (m ++ (path, h) ∷ rest)
    → lookup path m ≡ none
lookup-front path h [] rest d = refl
lookup-front path h ((j, g) ∷ m) rest d =
    ground (arith, string_key.same_iff j path, apart j m d.0, lookup-front path h m rest d.1)
  where
    apart : (j : String) (m : Routes) → Absent j (m ++ (path, h) ∷ rest) → path ≢ j
    apart j [] a = a.0
    apart j (e ∷ m) a = apart j m a.1

ArePlain-front : (m rest : Routes) → ArePlain (m ++ rest) → ArePlain m
ArePlain-front [] rest p = tt
ArePlain-front (e ∷ m) rest p = (p.0, ArePlain-front m rest p.1)

HasDistinctKeys-front : (m rest : Routes) → HasDistinctKeys (m ++ rest) → HasDistinctKeys m
HasDistinctKeys-front [] rest d = tt
HasDistinctKeys-front ((j, h) ∷ m) rest d = (absent m d.0, HasDistinctKeys-front m rest d.1)
  where
    absent : (xs : Routes) → Absent j (xs ++ rest) → Absent j xs
    absent [] a = tt
    absent (x ∷ xs) a = (a.0, absent xs a.1)

module _ {M : Type 0} (lib : ServeMux M) where
  -- Registering routes one after the other.
  handle_all : Routes → M → Outcome M
  handle_all [] mux = ok mux
  handle_all ((path, h) ∷ rest) mux = lib.handle path h mux >>= handle_all rest

  then_all :
      (path : String) (h : Handler) (rest : Routes) (o : Outcome M)
      → ((o >>= lib.handle path h) >>= handle_all rest) ≡ (o >>= handle_all ((path, h) ∷ rest))
  unfolding handle_all
  then_all path h rest (ok m) = refl
  then_all path h rest (err e) = refl
  then_all path h rest (panic p) = refl

  done : (o : Outcome M) → (o >>= handle_all []) ≡ o
  unfolding handle_all
  done (ok m) = refl
  done (err e) = refl
  done (panic p) = refl

  handle_metrics-handle_all :
      (path : String) (mux : M) → handle_metrics lib path mux ≡ handle_all (metrics_routes path) mux
  unfolding handle_metrics handle_all
  handle_metrics-handle_all path mux = elim (Bool-cases (path == "")) [
    | inl e ↦ rw (handle_metrics, e) refl
    | inr e ↦ rw (handle_metrics, e) (sym (done (lib.handle (join_path "/" path) metrics mux)))
  ]

  handle_profile-handle_all :
      (path : String) (mux : M) → handle_profile lib path mux ≡ handle_all (profile_routes path) mux
  unfolding handle_profile handle_all
  handle_profile-handle_all path mux =
      let actual = join_path "/" path in
      let trace : Routes = (join_path actual "trace", pprof_trace) ∷ [] in
      let symbol : Routes = (join_path actual "symbol", pprof_symbol) ∷ trace in
      let profile : Routes = (join_path actual "profile", pprof_profile) ∷ symbol in
      let first = lib.handle actual pprof_index mux in
      let second = first >>= lib.handle (join_path actual "cmdline") pprof_cmdline in
      let third = second >>= lib.handle (join_path actual "profile") pprof_profile in
      let fourth = third >>= lib.handle (join_path actual "symbol") pprof_symbol in
      elim (Bool-cases (path == "")) [
        | inl e ↦ rw (handle_profile, e) refl
        | inr e ↦
            rw (handle_profile, e)
              (sym (done (fourth >>= lib.handle (join_path actual "trace") pprof_trace))
                ∙ then_all (join_path actual "trace") pprof_trace [] fourth
                ∙ then_all (join_path actual "symbol") pprof_symbol trace third
                ∙ then_all (join_path actual "profile") pprof_profile symbol second
                ∙ then_all (join_path actual "cmdline") pprof_cmdline profile first)
      ]

  -- Different plain routes are all registered.
  handle_all-registers :
      (law : IsServeMux lib) (rest : Routes) (m : M)
      → HasDistinctKeys (law.patterns m ++ rest)
      → ArePlain (law.patterns m ++ rest)
      → (m' : M) × (handle_all rest m ≡ ok m') × (law.patterns m' ≡ law.patterns m ++ rest)
  unfolding handle_all
  handle_all-registers law [] m d p = (m, refl, sym (append-nil (law.patterns m)))
  handle_all-registers law ((path, h) ∷ rest) m d p =
      let same = append_assoc (law.patterns m) ((path, h) ∷ []) rest in
      let (m₁, e, added) =
        law.adds path h m
          (ArePlain-front (law.patterns m ++ (path, h) ∷ []) rest (subst ArePlain (sym same) p))
          (lookup-front path h (law.patterns m) rest d) in
      let now : law.patterns m₁ ++ rest ≡ law.patterns m ++ (path, h) ∷ rest =
        ap (λ l. l ++ rest) added ∙ same in
      let (m₂, e', all) =
        handle_all-registers law rest m₁ (subst HasDistinctKeys (sym now) d)
          (subst ArePlain (sym now) p) in
      (m₂, rw e e', all ∙ now)

-- With the mux that `net/http` documents, where no two of the patterns that the flags ask for are the
-- same, and all are plain: `SetupHTTPEndpoint` does not panic, its only error is that of `net.Listen`,
-- and what it serves then has exactly these patterns, in this order: the metrics if their path is not
-- empty, and the five pages of pprof if theirs is not.
pub setup_http_endpoint_routes :
    {M N F : Type 0} (http : ServeMux M) (law : IsServeMux http)
    (listen : String → Exec N (Unit {0})) (flags : Flags F) (s : N)
    → HasDistinctKeys (metrics_routes flags.metrics_path ++ profile_routes flags.profile_path)
    → ArePlain (metrics_routes flags.metrics_path ++ profile_routes flags.profile_path)
    → (mux : M) × (law.patterns mux
        ≡ metrics_routes flags.metrics_path ++ profile_routes flags.profile_path)
      × (setup_http_endpoint http listen flags s
          ≡ Exec.continue
              (wrap_error listen_endpoint (listen flags.http_endpoint s).0)
              (λ u. Exec.pure mux)
              (listen flags.http_endpoint s).1)
unfolding setup_http_endpoint
setup_http_endpoint_routes http law listen flags s d p =
    let ms = metrics_routes flags.metrics_path in
    let ps = profile_routes flags.profile_path in
    let empty : law.patterns http.new ++ ms ≡ ms = ap (λ l. l ++ ms) law.starts in
    let (m, e, has_metrics) =
      handle_all-registers http law ms http.new
        (subst HasDistinctKeys (sym empty) (HasDistinctKeys-front ms ps d))
        (subst ArePlain (sym empty) (ArePlain-front ms ps p)) in
    let now : law.patterns m ++ ps ≡ ms ++ ps = ap (λ l. l ++ ps) (has_metrics ∙ empty) in
    let (mux, e', has_all) =
      handle_all-registers http law ps m (subst HasDistinctKeys (sym now) d)
        (subst ArePlain (sym now) p) in
    let first = handle_metrics-handle_all http flags.metrics_path http.new ∙ e in
    let second = handle_profile-handle_all http flags.profile_path m ∙ e' in
    (mux, has_all ∙ now, rw (setup_http_endpoint, first, second) refl)

-- Where the metrics and pprof are asked for under one plain path, `SetupHTTPEndpoint` panics before it
-- listens.
pub setup_http_endpoint_panics :
    {M N F : Type 0} (http : ServeMux M) (law : IsServeMux http)
    (listen : String → Exec N (Unit {0})) (flags : Flags F) (s : N)
    → (flags.metrics_path == "") ≡ false
    → (flags.profile_path == "") ≡ false
    → join_path "/" flags.metrics_path ≡ join_path "/" flags.profile_path
    → is_plain (join_path "/" flags.metrics_path) ≡ true
    → setup_http_endpoint http listen flags s ≡ (panic already_registered, s)
unfolding setup_http_endpoint handle_metrics handle_profile
setup_http_endpoint_panics http law listen flags s e f same plain =
    let path = join_path "/" flags.metrics_path in
    let fresh : law.patterns http.new ++ (path, metrics) ∷ [] ≡ (path, metrics) ∷ [] =
      ap (λ l. l ++ (path, metrics) ∷ []) law.starts in
    let (m, added, now) =
      law.adds path metrics http.new (subst ArePlain (sym fresh) (plain, tt))
        (ap (lookup path) law.starts) in
    let there : law.patterns m ≡ (path, metrics) ∷ [] = now ∙ fresh in
    let twice : http.handle path pprof_index m ≡ panic already_registered =
      law.repeats path pprof_index metrics m (subst ArePlain (sym there) (plain, tt))
        (ap (lookup path) there ∙ rw (eq_self path) refl) in
    rw (setup_http_endpoint, handle_metrics, e, added, handle_profile, f, ← same, twice) refl
