-- ===== src/Client/Errors.antt =====
-- client.go, Update: the errors that it can return.
use dra_rt_driver.Prelude.{◌≡◌, refl, ℕ, zero, suc, false, String, Option, none, some}
use dra_rt_driver.Prelude.Outcome.{Outcome, ok, err, panic, Error, is_conflict}
use dra_rt_driver.Nas.{NodeAllocationState, NodeAllocationStateSpec}
use dra_rt_driver.Client.{NasApi, update, update_loop, max_retries, after_fetch, after_update}

module _ {S : Type 0} (server : NasApi S) where
  after_update-is_conflict :
      (rest : Option Error → S → Outcome NodeAllocationState × S)
      → ((last : Option Error) (s : S) → is_conflict (rest last s).0 ≡ false)
      → (r : Outcome NodeAllocationState × S) → is_conflict (after_update server rest r).0 ≡ false
  after_update-is_conflict rest h (ok crd, s) = refl
  after_update-is_conflict rest h (err e, s) = h (some e) s
  after_update-is_conflict rest h (panic p, s) = refl

  after_fetch-is_conflict :
      (ns : String) (spec : NodeAllocationStateSpec)
      (rest : Option Error → S → Outcome NodeAllocationState × S)
      → ((last : Option Error) (s : S) → is_conflict (rest last s).0 ≡ false)
      → (r : Outcome NodeAllocationState × S)
      → is_conflict (after_fetch server ns spec rest r).0 ≡ false
  after_fetch-is_conflict ns spec rest h (ok crd, s) =
      after_update-is_conflict rest h (server.update ns (record crd { spec = spec }) s)
  after_fetch-is_conflict ns spec rest h (err e, s) = refl
  after_fetch-is_conflict ns spec rest h (panic p, s) = refl

  update_loop-is_conflict :
      (nas : NodeAllocationState) (spec : NodeAllocationStateSpec) (n : ℕ) (last : Option Error)
      (s : S)
      → is_conflict (update_loop server nas spec n last s).0 ≡ false
  unfolding update_loop
  update_loop-is_conflict nas spec zero none s = refl
  update_loop-is_conflict nas spec zero (some e) s = refl
  update_loop-is_conflict nas spec (suc n) last s =
      after_fetch-is_conflict nas.meta.namespace spec (update_loop server nas spec n)
        (update_loop-is_conflict nas spec n) (server.fetch nas.meta.namespace nas.meta.name s)

  pub update-is_conflict :
      (nas : NodeAllocationState) (spec : NodeAllocationStateSpec) (s : S)
      → is_conflict (update server nas spec s).0 ≡ false
  unfolding update
  update-is_conflict nas spec s = update_loop-is_conflict nas spec max_retries none s
