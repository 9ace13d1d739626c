-- ===== src/Client/Overwrite.antt =====
-- client.go, Update: what a successful call leaves on the server.
use dra_rt_driver.Prelude.{ℕ, zero, suc, ◌≡◌, refl, ◌∙◌, String, Option, none, some}
use dra_rt_driver.Prelude.Outcome.{Outcome, ok, err, panic, Error}
use dra_rt_driver.Nas.{NodeAllocationState, NodeAllocationStateSpec}
use dra_rt_driver.Client.{NasApi, update_loop, update, max_retries, after_fetch, after_update}

-- What the API server documents of reads and writes of a resource without a status subresource: a
-- read changes nothing and finds the record under the name that was asked for; a write that
-- succeeds stores the record, under the same name, and the next read finds it.
pub record IsServer {S : Type 0} (api : NasApi S) : Type 0 where
  pub reads :
      (ns name : String) (s t : S) (crd : NodeAllocationState)
      → api.fetch ns name s ≡ (ok crd, t)
      → (crd.meta.namespace ≡ ns) × (crd.meta.name ≡ name)
  pub writes :
      (ns : String) (s t : S) (nas crd : NodeAllocationState)
      → api.update ns nas s ≡ (ok crd, t)
      → (crd.spec ≡ nas.spec)
        × (crd.status ≡ nas.status)
        × (api.fetch ns nas.meta.name t ≡ (ok crd, t))

module _ {S : Type 0} (server : NasApi S) (law : IsServer server) (nas : NodeAllocationState)
    (spec : NodeAllocationStateSpec) where
  -- The server holds `spec` and nothing else of what it held in the spec.
  abbrev Stored : NodeAllocationState → S → Type 0
  Stored crd t = (crd.spec ≡ spec) × (server.fetch nas.meta.namespace nas.meta.name t ≡ (ok crd, t))

  wrote :
      (s t u : S) (crd crd' : NodeAllocationState)
      → server.fetch nas.meta.namespace nas.meta.name s ≡ (ok crd, t)
      → server.update nas.meta.namespace (record crd { spec = spec }) t ≡ (ok crd', u)
      → Stored crd' u
  wrote s t u crd crd' e e' =
      let (_, named) = law.reads _ _ s t crd e in
      let (same, _, found) = law.writes _ t u (record crd { spec = spec }) crd' e' in
      (same, rw (← named) found)

  -- By the results of the read and of the write of the first round.
  round-Stored :
      (rest : Option Error → S → Outcome NodeAllocationState × S)
      → ((last : Option Error) (s u : S) (crd' : NodeAllocationState)
          → rest last s ≡ (ok crd', u)
          → Stored crd' u)
      → (s u : S) (crd' : NodeAllocationState) (r : Outcome NodeAllocationState × S)
      → server.fetch nas.meta.namespace nas.meta.name s ≡ r
      → after_fetch server nas.meta.namespace spec rest r ≡ (ok crd', u)
      → Stored crd' u
  round-Stored rest ih s u crd' (err e, t) found h = absurd (cc)
  round-Stored rest ih s u crd' (panic p, t) found h = absurd (cc)
  round-Stored rest ih s u crd' (ok crd, t) found h = go _ refl h
    where
      go :
          (w : Outcome NodeAllocationState × S)
          → server.update nas.meta.namespace (record crd { spec = spec }) t ≡ w
          → after_update server rest w ≡ (ok crd', u)
          → Stored crd' u
      go (ok x, v) e h = wrote s t u crd crd' found (e ∙ h)
      go (err x, v) e h = ih (some x) v u crd' h
      go (panic x, v) e h = absurd (cc)

  update_loop-Stored :
      (n : ℕ) (last : Option Error) (s u : S) (crd' : NodeAllocationState)
      → update_loop server nas spec n last s ≡ (ok crd', u)
      → Stored crd' u
  unfolding update_loop
  update_loop-Stored zero none s u crd' e = absurd (cc)
  update_loop-Stored zero (some x) s u crd' e = absurd (cc)
  update_loop-Stored (suc n) last s u crd' e =
      round-Stored (update_loop server nas spec n) (update_loop-Stored n) s u crd' _ refl e

  -- When `Update` returns nil, the record that the server holds has exactly the spec of the call: what
  -- another writer put into the spec since the caller read it is gone, and no conflict is reported.
  pub update_overwrites :
      (s u : S) (crd' : NodeAllocationState)
      → update server nas spec s ≡ (ok crd', u)
      → (crd'.spec ≡ spec) × (server.fetch nas.meta.namespace nas.meta.name u ≡ (ok crd', u))
  unfolding update
  update_overwrites s u crd' e = update_loop-Stored max_retries none s u crd' e
