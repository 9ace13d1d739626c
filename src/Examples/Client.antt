-- ===== src/Examples/Client.antt =====
-- client.go against a small server: it holds one record, and refuses a number of writes.
use dra_rt_driver.Prelude.{
  ℕ, zero, suc, ◌≡◌, refl, String, string_key, ◌==◌, ◌&&◌, if◌then◌else◌, none, some, arith,
}
use dra_rt_driver.Prelude.Outcome.{
  Outcome, ok, err, within, after_retries, api, conflict, not_found, unavailable,
}
use dra_rt_driver.Nas.{NodeAllocationState, empty_spec}
use dra_rt_driver.Client.{NasApi, update}
use dra_rt_driver.Client.Retry.{Rounds, round, done, update_succeeds, update_gives_up}
use dra_rt_driver.Client.Overwrite.{IsServer, update_overwrites}
use dra_rt_driver.Examples.Fixtures.{node_a}

pub record Store : Type 0 where
  pub held : NodeAllocationState
  pub refusals : ℕ

abbrev fetch : String → String → Store → Outcome NodeAllocationState × Store
fetch ns name s =
    if s.held.meta.namespace == ns && s.held.meta.name == name
    then (ok s.held, s)
    else (err (api not_found), s)

abbrev write :
    String → NodeAllocationState → NodeAllocationState → ℕ → Outcome NodeAllocationState × Store
write ns nas held zero =
    if nas.meta.namespace == ns
    then (ok nas, record { held = nas; refusals = 0 })
    else (err (api unavailable), record { held = held; refusals = 0 })
write ns nas held (suc n) = (err (api conflict), record { held = held; refusals = n })

abbrev pub store_api : NasApi Store
store_api = record {
  fetch = fetch;
  create = λ ns nas s. write ns nas s.held s.refusals;
  update = λ ns nas s. write ns nas s.held s.refusals;
  delete = λ ns name s. (ok tt, s);
}

pub fetch-reads :
    (ns name : String) (s t : Store) (crd : NodeAllocationState)
    → fetch ns name s ≡ (ok crd, t)
    → (crd.meta.namespace ≡ ns) × (crd.meta.name ≡ name)
fetch-reads ns name s t crd e =
    ground (
      arith,
      string_key.same_iff s.held.meta.namespace ns,
      string_key.same_iff s.held.meta.name name,
    )

write-stores :
    (ns : String) (held : NodeAllocationState) (n : ℕ) (t : Store) (nas crd : NodeAllocationState)
    → write ns nas held n ≡ (ok crd, t)
    → (crd.spec ≡ nas.spec) × (crd.status ≡ nas.status) × (fetch ns nas.meta.name t ≡ (ok crd, t))
write-stores ns held zero t nas crd e = ground (
  arith,
  string_key.same_iff nas.meta.namespace ns,
  string_key.same_iff nas.meta.name nas.meta.name,
)
write-stores ns held (suc n) t nas crd e = absurd (cc)

pub write-named :
    (ns : String) (held : NodeAllocationState) (n : ℕ) (t : Store) (nas crd : NodeAllocationState)
    → write ns nas held n ≡ (ok crd, t)
    → (crd.meta.namespace ≡ ns) × (crd.meta.name ≡ nas.meta.name)
write-named ns held zero t nas crd e = ground (arith, string_key.same_iff nas.meta.namespace ns)
write-named ns held (suc n) t nas crd e = absurd (cc)

pub store_api-IsServer : IsServer store_api
store_api-IsServer = record {
  reads = fetch-reads;
  writes = λ ns s t nas crd e. write-stores ns s.held s.refusals t nas crd e;
}

abbrev pub store : ℕ → Store
store n = record { held = node_a; refusals = n }

abbrev after : Store
after = record { held = record node_a { spec = empty_spec }; refusals = 0 }

two_refusals : Rounds store_api node_a empty_spec 2 none (store 2) (some (api conflict)) (store 0)
two_refusals =
    round (api conflict) (record { crd = node_a; between = store 2; reads = refl; refused = refl })
      (round (api conflict)
        (record { crd = node_a; between = store 1; reads = refl; refused = refl }) done)

four_refusals : Rounds store_api node_a empty_spec 4 none (store 5) (some (api conflict)) (store 1)
four_refusals =
    round (api conflict) (record { crd = node_a; between = store 5; reads = refl; refused = refl })
      (round (api conflict)
        (record { crd = node_a; between = store 4; reads = refl; refused = refl })
        (round (api conflict)
          (record { crd = node_a; between = store 3; reads = refl; refused = refl })
          (round (api conflict)
            (record { crd = node_a; between = store 2; reads = refl; refused = refl }) done)))

update_succeeds_example :
    update store_api node_a empty_spec (store 2) ≡ (ok (record node_a { spec = empty_spec }), after)
update_succeeds_example =
    update_succeeds store_api node_a empty_spec 2 (some (api conflict)) (store 2) (store 0) after
      (record node_a { spec = empty_spec }) two_refusals (omega arith)
      (record { crd = node_a; between = store 0; reads = refl; writes = refl })

update_gives_up_example :
    update store_api node_a empty_spec (store 5)
    ≡ (err (within after_retries (api conflict)), store 1)
update_gives_up_example =
    update_gives_up store_api node_a empty_spec (api conflict) (store 5) (store 1) four_refusals

update_overwrites_example :
    (empty_spec ≡ empty_spec)
    × (fetch "dra" "a" after ≡ (ok (record node_a { spec = empty_spec }), after))
update_overwrites_example =
    update_overwrites store_api store_api-IsServer node_a empty_spec (store 2) after
      (record node_a { spec = empty_spec }) update_succeeds_example
