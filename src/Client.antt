-- ===== src/Client.antt =====
-- api/example.com/resource/rt/nas/v1alpha1/client/client.go: the client of one NodeAllocationState.
-- The generated clientset and the API server behind it are the parameter `api` over server states
-- `S`. The record that `c.nas` points to is an argument; a method returns what it points to then.
pub mod Retry
pub mod Storing
pub mod Overwrite
pub mod Errors
use dra_rt_driver.Prelude.{
  ℕ, zero, suc, String, Bool, true, false, if◌then◌else◌, Option, none, some,
}
use dra_rt_driver.Prelude.Outcome.{
  Outcome, ok, err, panic, Error, failed, within, api, ApiError, not_found, after_retries,
  retrieve_latest,
}
use dra_rt_driver.Prelude.Exec.{Exec}
use dra_rt_driver.Nas.{NodeAllocationState, NodeAllocationStateSpec}

-- `NodeAllocationStates(namespace)` of the clientset, by namespace and name.
pub record NasApi (S : Type 0) : Type 0 where
  pub fetch : String → String → S → Outcome NodeAllocationState × S
  pub create : String → NodeAllocationState → S → Outcome NodeAllocationState × S
  pub update : String → NodeAllocationState → S → Outcome NodeAllocationState × S
  pub delete : String → String → S → Outcome (Unit {0}) × S

-- `errors.IsNotFound`
unfoldable pub is_not_found : Error → Bool
is_not_found (api not_found) = true
is_not_found e = false

-- The attempts of `Update`.
abbrev pub max_retries : ℕ
max_retries = 4

module _ {S : Type 0} (server : NasApi S) where
  -- `Get`
  unfoldable pub get : NodeAllocationState → Exec S NodeAllocationState
  get nas s = server.fetch nas.meta.namespace nas.meta.name s

  -- `Create`
  unfoldable pub create : NodeAllocationState → Exec S NodeAllocationState
  create nas s = server.create nas.meta.namespace nas s

  abbrev pub after_get :
      NodeAllocationState → Outcome NodeAllocationState × S → Outcome NodeAllocationState × S
  after_get nas (ok crd, s) = (ok crd, s)
  after_get nas (err e, s) = if is_not_found e then create nas s else (err e, s)
  after_get nas (panic p, s) = (panic p, s)

  -- `GetOrCreate`
  unfoldable pub get_or_create : NodeAllocationState → Exec S NodeAllocationState
  get_or_create nas s = after_get nas (get nas s)

  abbrev ignore_not_found : Outcome (Unit {0}) × S → Outcome (Unit {0}) × S
  ignore_not_found (ok u, s) = (ok u, s)
  ignore_not_found (err e, s) = if is_not_found e then (ok tt, s) else (err e, s)
  ignore_not_found (panic p, s) = (panic p, s)

  -- `Delete`
  unfoldable pub delete : NodeAllocationState → Exec S (Unit {0})
  delete nas s = ignore_not_found (server.delete nas.meta.namespace nas.meta.name s)

  -- `UpdateStatus`
  unfoldable pub update_status : NodeAllocationState → String → Exec S NodeAllocationState
  update_status nas status s = server.update nas.meta.namespace (record nas { status = status }) s

  abbrev give_up : Option Error → Outcome NodeAllocationState
  give_up none = err (failed after_retries)
  give_up (some e) = err (within after_retries e)

  -- What follows the attempt to write: success, or the rest of the rounds.
  abbrev after_update :
      (Option Error → Exec S NodeAllocationState)
      → Outcome NodeAllocationState × S
      → Outcome NodeAllocationState × S
  after_update rest (ok crd, s) = (ok crd, s)
  after_update rest (err e, s) = rest (some e) s
  after_update rest (panic p, s) = (panic p, s)

  -- What follows the read of the latest version: the attempt to write.
  abbrev after_fetch :
      String
      → NodeAllocationStateSpec
      → (Option Error → Exec S NodeAllocationState)
      → Outcome NodeAllocationState × S
      → Outcome NodeAllocationState × S
  after_fetch namespace spec rest (ok crd, s) =
      after_update rest (server.update namespace (record crd { spec = spec }) s)
  after_fetch namespace spec rest (err e, s) = (err (within retrieve_latest e), s)
  after_fetch namespace spec rest (panic p, s) = (panic p, s)

  -- The loop of `Update`, over the rounds left and the last error.
  unfoldable pub update_loop :
      NodeAllocationState → NodeAllocationStateSpec → ℕ → Option Error → Exec S NodeAllocationState
  update_loop nas spec zero last s = (give_up last, s)
  update_loop nas spec (suc n) last s =
      after_fetch nas.meta.namespace spec (update_loop nas spec n)
        (server.fetch nas.meta.namespace nas.meta.name s)

  -- `Update`
  unfoldable pub update : NodeAllocationState → NodeAllocationStateSpec → Exec S NodeAllocationState
  update nas spec s = update_loop nas spec max_retries none s
