-- ===== src/Controller/Server/Allocating.antt =====
-- driver.go, allocate: it keeps every stored record, whatever the server answers.
use dra_rt_driver.Prelude.{
  ◌≡◌, inl, inr, refl, ◌∙◌, ap, String, string_key, ◌==◌, if◌then◌else◌, not, true, Bool-cases,
  Option, Option-cases, none,
}
use dra_rt_driver.Prelude.GoMap.{lookup, entries}
use dra_rt_driver.Prelude.Outcome.{
  Outcome, ok, err, panic, updating_crd, unable_to_allocate, retrieving_crd, failed, crd_status,
}
use dra_rt_driver.Prelude.Exec
use dra_rt_driver.Prelude.Exec.{Exec}
use dra_rt_driver.Prelude.Meets.{
  Meets, Meets-kept, kept-Meets, on_error-Meets, continue-Meets, lift-Meets,
}
use dra_rt_driver.Nas.{NodeAllocationState, status_ready}
use dra_rt_driver.Client
use dra_rt_driver.Client.Storing.{IsStore}
use dra_rt_driver.Resource.{ResourceClaim, ClaimParameters, rt_claim, other_parameters}
use dra_rt_driver.Rt
use dra_rt_driver.Rt.{OnSuccess, call_on_success}
use dra_rt_driver.Rt.Covered.{IsCovered}
use dra_rt_driver.Controller.{
  Clientset, World, allocate, allocate_on, allocate_parameters, on_server, on_pending, new_crd,
}
use dra_rt_driver.Controller.Record.{make_claims, make_utils, build_allocation_result}
use dra_rt_driver.Controller.Made.{made-meta}
use dra_rt_driver.Controller.History.Kept.{allocates-IsCovered, confirms-IsCovered}
use dra_rt_driver.Controller.Server.{AllKept}
use dra_rt_driver.Controller.Server.Kept.{IsKept-made}
use dra_rt_driver.Controller.Server.Calls.{Got, get-Meets, update-AllKept, on_pending-Meets}

module _ {S : Type 0} (clients : Clientset S) (namespace : String)
    (store : IsStore clients.nas namespace) where
  -- The record that an allocation writes.
  record Written (node : String) (r : NodeAllocationState × Option OnSuccess) (w : World S)
      : Type 0 where
    all : AllKept store.shown w
    covered : IsCovered node r.0 w.pending
    home : r.0.meta.namespace ≡ namespace
    named : r.0.meta.name ≡ node

  rt_allocate-Meets :
      (node : String) (claim : ResourceClaim) (crd : NodeAllocationState) (w : World S)
      (o : Outcome (NodeAllocationState × Option OnSuccess))
      → Written node (crd, none) w
      → Rt.allocate w.pending crd claim node ≡ o
      → Meets (AllKept store.shown) (Written node) (o, w)
  rt_allocate-Meets node claim crd w (ok (c, f)) i e =
      let (covered, meta) = allocates-IsCovered node claim w.pending crd c f e i.covered in
      record {
        all = i.all;
        covered = covered;
        home = ap (λ m. m.namespace) meta ∙ i.home;
        named = ap (λ m. m.name) meta ∙ i.named;
      }
  rt_allocate-Meets node claim crd w (err x) i e = i.all
  rt_allocate-Meets node claim crd w (panic x) i e = i.all

  allocate_parameters-Meets :
      (node : String) (claim : ResourceClaim) (params : ClaimParameters) (crd : NodeAllocationState)
      (w : World S)
      → Written node (crd, none) w
      → Meets
          (AllKept store.shown)
          (Written node)
          (allocate_parameters clients namespace crd claim params node w)
  unfolding allocate_parameters
  allocate_parameters-Meets node claim (rt_claim params) crd w i =
      on_error-Meets (AllKept store.shown) (Written node) unable_to_allocate
        (λ v. (Rt.allocate v.pending crd claim node, v)) w
        (rt_allocate-Meets node claim crd w (Rt.allocate w.pending crd claim node) i refl)
  allocate_parameters-Meets node claim other_parameters crd w i = i.all

  -- The write, and the callback after it.
  update-Meets :
      (node : String) (r : NodeAllocationState × Option OnSuccess) (w : World S)
      → Written node r w
      → Meets
          (AllKept store.shown)
          (λ a v. AllKept store.shown v)
          (Exec.◌>>◌
            (Exec.on_error updating_crd (on_server (Client.update clients.nas r.0 r.0.spec)))
            (Exec.◌>>◌
              (on_pending (call_on_success r.1))
              (Exec.pure (build_allocation_result node true)))
            w)
  update-Meets node r w i =
      let kept =
        update-AllKept clients namespace store node r.0 r.0 w i.home i.named i.covered i.all in
      continue-Meets (AllKept store.shown) (λ a v. AllKept store.shown v)
        (λ a v. AllKept store.shown v)
        (λ c.
          Exec.◌>>◌ (on_pending (call_on_success r.1))
            (Exec.pure (build_allocation_result node true)))
        (Exec.on_error updating_crd (on_server (Client.update clients.nas r.0 r.0.spec)) w)
        (on_error-Meets (AllKept store.shown) (λ a v. AllKept store.shown v) updating_crd
          (on_server (Client.update clients.nas r.0 r.0.spec)) w
          (kept-Meets (AllKept store.shown) (on_server (Client.update clients.nas r.0 r.0.spec) w)
            kept))
        (λ c v all.
          continue-Meets (AllKept store.shown) (λ a u. AllKept store.shown u)
            (λ a u. AllKept store.shown u) (λ a. Exec.pure (build_allocation_result node true))
            (on_pending (call_on_success r.1) v)
            (on_pending-Meets clients namespace store v (call_on_success r.1) all
              (λ q e n c j. confirms-IsCovered n r.1 v.pending q e c j) (AllKept store.shown)
              (λ q e j. j))
            (λ a u j. j))

  allocate_on-Meets :
      (node : String) (claim : ResourceClaim) (params : ClaimParameters) (crd : NodeAllocationState)
      (w : World S)
      → Written node (crd, none) w
      → Meets
          (AllKept store.shown)
          (λ a v. AllKept store.shown v)
          (allocate_on clients namespace crd claim params node w)
  unfolding allocate_on
  allocate_on-Meets node claim params crd w i =
      elim (Option-cases (lookup claim.uid (entries crd.spec.allocated_claims))) [
        | inl e ↦
            rw (allocate_on, e)
              (continue-Meets (AllKept store.shown) (Written node) (λ a v. AllKept store.shown v)
                (λ r.
                  Exec.◌>>◌
                    (Exec.on_error updating_crd
                      (on_server (Client.update clients.nas r.0 r.0.spec)))
                    (Exec.◌>>◌ (on_pending (call_on_success r.1))
                      (Exec.pure (build_allocation_result node true))))
                (allocate_parameters clients namespace crd claim params node w)
                (allocate_parameters-Meets node claim params crd w i)
                (λ r v j. update-Meets node r v j))
        | inr (held, e) ↦ rw (allocate_on, e) i.all
      ]

  allocate_read-Meets :
      (node : String) (claim : ResourceClaim) (params : ClaimParameters) (crd : NodeAllocationState)
      (w : World S)
      → Got clients namespace store node crd w
      → Meets
          (AllKept store.shown)
          (λ a v. AllKept store.shown v)
          ((if not (crd.status == status_ready)
              then Exec.fail (failed crd_status)
              else Exec.◌>>=◌
                  (Exec.lift (make_utils (make_claims crd)))
                  (λ crd'. allocate_on clients namespace crd' claim params node))
            w)
  allocate_read-Meets node claim params crd w g = elim (Bool-cases (crd.status == status_ready)) [
    | inl ready ↦ rw ready (
        lift-Meets (AllKept store.shown) (λ a v. AllKept store.shown v)
          (make_utils (make_claims crd))
          (λ crd'. allocate_on clients namespace crd' claim params node) w g.all
          (λ c e. allocate_on-Meets node claim params c w (record {
            all = g.all;
            covered = IsKept-made node crd c w.pending g.kept e;
            home = ap (λ m. m.namespace) (made-meta crd c e) ∙ g.home;
            named = ap (λ m. m.name) (made-meta crd c e) ∙ g.named;
          })))
    | inr unready ↦ rw unready g.all
  ]

  -- `allocate`, whatever it returns.
  pub allocate-AllKept :
      (node : String) (claim : ResourceClaim) (params : ClaimParameters) (w : World S)
      → AllKept store.shown w
      → AllKept store.shown (allocate clients namespace claim params node w).1
  unfolding allocate
  allocate-AllKept node claim params w all = elim (Bool-cases (node == "")) [
    | inl unnamed ↦ rw (allocate, unnamed) all
    | inr named ↦
        rw (allocate, named)
          (Meets-kept (AllKept store.shown) _ (
            continue-Meets (AllKept store.shown) (Got clients namespace store node)
              (λ a v. AllKept store.shown v)
              (λ crd.
                if not (crd.status == status_ready)
                then Exec.fail (failed crd_status)
                else Exec.◌>>=◌ (Exec.lift (make_utils (make_claims crd)))
                    (λ crd'. allocate_on clients namespace crd' claim params node))
              (Exec.on_error retrieving_crd
                (on_server (Client.get clients.nas (new_crd clients namespace node))) w)
              (on_error-Meets (AllKept store.shown) (Got clients namespace store node)
                retrieving_crd (on_server (Client.get clients.nas (new_crd clients namespace node)))
                w (get-Meets clients namespace store node w all))
              (λ crd v g. allocate_read-Meets node claim params crd v g)))
  ]
