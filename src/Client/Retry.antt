-- ===== src/Client/Retry.antt =====
-- client.go, Update: four rounds of reading the latest record and writing the spec over it.
use dra_rt_driver.Prelude.{
  ℕ, zero, suc, ◌+◌, ◌-◌, ◌<◌, ◌≡◌, refl, ap, ◌∙◌, Option, none, some, arith,
}
use dra_rt_driver.Prelude.Outcome.{ok, err, Error, within, after_retries}
use dra_rt_driver.Nas.{NodeAllocationState, NodeAllocationStateSpec}
use dra_rt_driver.Client.{NasApi, update_loop, update, max_retries}

module _ {S : Type 0} (server : NasApi S) (nas : NodeAllocationState)
    (spec : NodeAllocationStateSpec) where
  -- A round that reads a record and fails to write it, whatever the error is.
  pub record Refused (s : S) (e : Error) (t : S) : Type 0 where
    pub crd : NodeAllocationState
    pub between : S
    pub reads : server.fetch nas.meta.namespace nas.meta.name s ≡ (ok crd, between)
    pub refused : server.update nas.meta.namespace (record crd { spec = spec }) between ≡ (err e, t)

  -- A round that reads a record and writes it.
  pub record Written (s : S) (crd' : NodeAllocationState) (t : S) : Type 0 where
    pub crd : NodeAllocationState
    pub between : S
    pub reads : server.fetch nas.meta.namespace nas.meta.name s ≡ (ok crd, between)
    pub writes :
        server.update nas.meta.namespace (record crd { spec = spec }) between ≡ (ok crd', t)

  -- `n` refused rounds in a row, the last with the error `e`.
  pub data Rounds : ℕ → Option Error → S → Option Error → S → Type 0 where
    done : {last : Option Error} {s : S} → Rounds zero last s last s
    round :
        {n : ℕ} {last out : Option Error} {s t u : S} (e : Error)
        → Refused s e t
        → Rounds n (some e) t out u
        → Rounds (suc n) last s out u

  step-Refused :
      (n : ℕ) (last : Option Error) {s t : S} {e : Error}
      → Refused s e t
      → update_loop server nas spec (suc n) last s ≡ update_loop server nas spec n (some e) t
  unfolding update_loop
  step-Refused n last r = rw (r.reads, r.refused) refl

  skip-Rounds :
      (n m : ℕ) {last out : Option Error} {s t : S}
      → Rounds n last s out t
      → update_loop server nas spec (n + m) last s ≡ update_loop server nas spec m out t
  skip-Rounds zero m done = ap (λ k. update_loop server nas spec k _ _) (omega arith)
  skip-Rounds (suc n) m {last} {s = s} (round e r rest) =
      let shift : suc n + m ≡ suc (n + m) = omega arith in
      ap (λ k. update_loop server nas spec k last s) shift
      ∙ step-Refused (n + m) last r
      ∙ skip-Rounds n m rest

  -- After fewer than four refused rounds, whatever their errors, a round that writes ends the call
  -- with the record that the server returned.
  pub update_succeeds :
      (n : ℕ) (out : Option Error) (s t u : S) (crd' : NodeAllocationState)
      → Rounds n none s out t
      → n < max_retries
      → Written t crd' u
      → update server nas spec s ≡ (ok crd', u)
  unfolding update update_loop
  update_succeeds n out s t u crd' r h w =
      let split : max_retries ≡ n + suc (max_retries - suc n) = omega arith in
      ap (λ k. update_loop server nas spec k none s) split
      ∙ skip-Rounds n (suc (max_retries - suc n)) r
      ∙ rw (w.reads, w.writes) refl

  -- Four refused rounds end the call with the last error, and there is no fifth.
  pub update_gives_up :
      (e : Error) (s t : S)
      → Rounds max_retries none s (some e) t
      → update server nas spec s ≡ (err (within after_retries e), t)
  unfolding update update_loop
  update_gives_up e s t r = skip-Rounds max_retries 0 r
