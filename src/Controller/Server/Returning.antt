-- ===== src/Controller/Server/Returning.antt =====
-- driver.go, Deallocate: it keeps every stored record, whatever the server answers.
use dra_rt_driver.Prelude.{
  ◌≡◌, inl, inr, ◌∙◌, ap, String, string_key, ◌==◌, if◌then◌else◌, Bool-cases, Option-cases, some,
}
use dra_rt_driver.Prelude.GoMap.{lookup, entries}
use dra_rt_driver.Prelude.Outcome.{
  ok, panic, deref, ok_injective, nil_dereference, unable_to_deallocate, updating_crd,
  retrieving_crd, retrieving_latest_crd,
}
use dra_rt_driver.Prelude.Exec
use dra_rt_driver.Prelude.Exec.{Exec}
use dra_rt_driver.Prelude.Meets.{
  Meets, Meets-kept, kept-Meets, on_error-Meets, continue-Meets, lift-Meets,
}
use dra_rt_driver.Nas.{
  AllocatedCpuset, AllocatedRtCpu, NodeAllocationState, allocated_type, rt_cpu_type,
}
use dra_rt_driver.Client
use dra_rt_driver.Client.Storing.{IsStore}
use dra_rt_driver.Resource.{ResourceClaim}
use dra_rt_driver.Rt
use dra_rt_driver.Rt.Covered.{IsCovered}
use dra_rt_driver.Controller.{
  Clientset, World, deallocate, deallocate_from, deallocate_read, deallocate_on, deallocate_devices,
  latest, on_server, on_pending, new_crd,
}
use dra_rt_driver.Controller.Record.{get_selected_node, without_claim, devices_of}
use dra_rt_driver.Controller.History.Kept.{releases-IsCovered, returns-IsCovered}
use dra_rt_driver.Controller.Server.{AllKept}
use dra_rt_driver.Controller.Server.Kept.{IsKept-charged}
use dra_rt_driver.Controller.Server.Calls.{Got, get-Meets, update-AllKept, on_pending-Meets}

module _ {S : Type 0} (clients : Clientset S) (namespace : String)
    (store : IsStore clients.nas namespace) where
  -- Nothing is pending for the claim any more.
  abbrev Forgot : ResourceClaim → World S → World S → Type 0
  Forgot claim w v = (Rt.deallocate w.pending claim ≡ ok v.pending) × AllKept store.shown v

  deallocate_devices-Meets :
      (claim : ResourceClaim) (devices : AllocatedCpuset) (w : World S)
      → AllKept store.shown w
      → Meets
          (AllKept store.shown)
          (λ a v. Forgot claim w v)
          (deallocate_devices clients namespace claim devices w)
  unfolding deallocate_devices
  deallocate_devices-Meets claim devices w all =
      elim (Bool-cases (allocated_type devices == rt_cpu_type)) [
        | inl rt ↦
            rw (deallocate_devices, rt)
              (on_error-Meets (AllKept store.shown) (λ a v. Forgot claim w v) unable_to_deallocate
                (on_pending (λ p. Rt.deallocate p claim)) w
                (on_pending-Meets clients namespace store w (λ p. Rt.deallocate p claim) all
                  (λ q e n c i. releases-IsCovered n claim w.pending q e c i)
                  (λ v. Forgot claim w v) (λ q e i. (e, i))))
        | inr other ↦ rw (deallocate_devices, other) all
      ]

  deref-is_rt :
      (devices : AllocatedCpuset) (rt : AllocatedRtCpu)
      → deref devices.rt_cpu ≡ ok rt
      → devices ≡ record { rt_cpu = some rt }
  deref-is_rt devices rt h = elim (Option-cases devices.rt_cpu) [
    | inl e ↦ absurd (let r : panic nil_dereference ≡ ok rt = rw e at h in cc)
    | inr (x, e) ↦
        let r : ok x ≡ ok rt = rw e at h in
        ap (λ y. record { rt_cpu = y }) (e ∙ ap some (ok_injective r))
  ]

  devices_of-is_held :
      (claim : ResourceClaim) (crd : NodeAllocationState) (rt : AllocatedRtCpu)
      → deref (devices_of claim crd).rt_cpu ≡ ok rt
      → lookup claim.uid (entries crd.spec.allocated_claims) ≡ some (record { rt_cpu = some rt })
  devices_of-is_held claim crd rt h =
      elim (Option-cases (lookup claim.uid (entries crd.spec.allocated_claims))) [
        | inl e ↦ absurd (let r : panic nil_dereference ≡ ok rt = rw (devices_of, e) at h in cc)
        | inr (held, e) ↦
            let r : deref held.rt_cpu ≡ ok rt = rw (devices_of, e) at h in
            e ∙ ap some (deref-is_rt held rt r)
      ]

  -- The write of the record without the claim.
  write-Meets :
      (node : String) (first crd' : NodeAllocationState) (v : World S)
      → first.meta.namespace ≡ namespace
      → first.meta.name ≡ node
      → IsCovered node crd' v.pending
      → AllKept store.shown v
      → Meets
          (AllKept store.shown)
          (λ a u. AllKept store.shown u)
          (Exec.◌>>◌
            (Exec.on_error updating_crd (on_server (Client.update clients.nas first crd'.spec)))
            (Exec.pure tt)
            v)
  write-Meets node first crd' v home named i all =
      continue-Meets (AllKept store.shown) (λ a u. AllKept store.shown u)
        (λ a u. AllKept store.shown u) (λ a. Exec.pure tt)
        (Exec.on_error updating_crd (on_server (Client.update clients.nas first crd'.spec)) v)
        (on_error-Meets (AllKept store.shown) (λ a u. AllKept store.shown u) updating_crd
          (on_server (Client.update clients.nas first crd'.spec)) v
          (kept-Meets (AllKept store.shown)
            (on_server (Client.update clients.nas first crd'.spec) v)
            (update-AllKept clients namespace store node first crd' v home named i all)))
        (λ a u j. j)

  deallocate_on-Meets :
      (node : String) (claim : ResourceClaim) (first crd : NodeAllocationState) (w : World S)
      → first.meta.namespace ≡ namespace
      → first.meta.name ≡ node
      → Got clients namespace store node crd w
      → Meets
          (AllKept store.shown)
          (λ a u. AllKept store.shown u)
          (deallocate_on clients namespace first crd claim w)
  unfolding deallocate_on
  deallocate_on-Meets node claim first crd w home named g =
      continue-Meets (AllKept store.shown) (λ a v. Forgot claim w v) (λ a u. AllKept store.shown u)
        (λ a. Exec.◌>>=◌ (Exec.lift (deref (devices_of claim crd).rt_cpu)) λ rt.
          Exec.◌>>=◌ (Exec.lift (without_claim claim rt.cpuset crd)) λ crd'.
            Exec.◌>>◌
              (Exec.on_error updating_crd (on_server (Client.update clients.nas first crd'.spec)))
              (Exec.pure tt))
        (deallocate_devices clients namespace claim (devices_of claim crd) w)
        (deallocate_devices-Meets claim (devices_of claim crd) w g.all)
        (λ a v f.
          lift-Meets (AllKept store.shown) (λ a u. AllKept store.shown u)
            (deref (devices_of claim crd).rt_cpu)
            (λ rt. Exec.◌>>=◌ (Exec.lift (without_claim claim rt.cpuset crd)) λ crd'.
              Exec.◌>>◌
                (Exec.on_error updating_crd (on_server (Client.update clients.nas first crd'.spec)))
                (Exec.pure tt))
            v f.1
            (λ rt is_rt.
              lift-Meets (AllKept store.shown) (λ a u. AllKept store.shown u)
                (without_claim claim rt.cpuset crd)
                (λ crd'.
                  Exec.◌>>◌
                    (Exec.on_error updating_crd
                      (on_server (Client.update clients.nas first crd'.spec)))
                    (Exec.pure tt))
                v f.1
                (λ crd' e.
                  let held = devices_of-is_held claim crd rt is_rt in
                  write-Meets node first crd' v home named
                    (returns-IsCovered node claim rt w.pending v.pending crd crd' held f.0 e (
                      IsKept-charged node crd w.pending claim.uid (record { rt_cpu = some rt })
                        g.kept held))
                    f.1)))

  latest-Meets :
      (node : String) (first : NodeAllocationState) (w : World S)
      → Got clients namespace store node first w
      → Meets
          (AllKept store.shown)
          (Got clients namespace store node)
          (latest clients namespace first node w)
  unfolding latest
  latest-Meets node first w g =
      elim (Bool-cases
        ((new_crd clients namespace node).meta.resource_version == first.meta.resource_version)) [
          | inl same ↦ rw (latest, same) g
          | inr newer ↦
              rw (latest, newer)
                (on_error-Meets (AllKept store.shown) (Got clients namespace store node)
                  retrieving_latest_crd
                  (on_server (Client.get clients.nas (new_crd clients namespace node))) w
                  (get-Meets clients namespace store node w g.all))
        ]

  deallocate_read-Meets :
      (node : String) (claim : ResourceClaim) (first : NodeAllocationState) (w : World S)
      → Got clients namespace store node first w
      → Meets
          (AllKept store.shown)
          (λ a u. AllKept store.shown u)
          (deallocate_read clients namespace first node claim w)
  unfolding deallocate_read
  deallocate_read-Meets node claim first w g =
      elim (Option-cases (lookup claim.uid (entries first.spec.allocated_claims))) [
        | inl e ↦ rw (deallocate_read, e) g.all
        | inr (held, e) ↦
            rw (deallocate_read, e)
              (continue-Meets (AllKept store.shown) (Got clients namespace store node)
                (λ a u. AllKept store.shown u)
                (λ crd. deallocate_on clients namespace first crd claim)
                (latest clients namespace first node w) (latest-Meets node first w g)
                (λ crd v j. deallocate_on-Meets node claim first crd v g.home g.named j))
      ]

  deallocate_from-Meets :
      (node : String) (claim : ResourceClaim) (w : World S)
      → AllKept store.shown w
      → Meets
          (AllKept store.shown)
          (λ a u. AllKept store.shown u)
          (deallocate_from clients namespace node claim w)
  unfolding deallocate_from
  deallocate_from-Meets node claim w all =
      continue-Meets (AllKept store.shown) (Got clients namespace store node)
        (λ a u. AllKept store.shown u) (λ crd. deallocate_read clients namespace crd node claim)
        (Exec.on_error retrieving_crd
          (on_server (Client.get clients.nas (new_crd clients namespace node))) w)
        (on_error-Meets (AllKept store.shown) (Got clients namespace store node) retrieving_crd
          (on_server (Client.get clients.nas (new_crd clients namespace node))) w
          (get-Meets clients namespace store node w all))
        (λ crd v g. deallocate_read-Meets node claim crd v g)

  -- `Deallocate`, whatever it returns.
  pub deallocate-AllKept :
      (claim : ResourceClaim) (w : World S)
      → AllKept store.shown w
      → AllKept store.shown (deallocate clients namespace claim w).1
  unfolding deallocate
  deallocate-AllKept claim w all =
      Meets-kept (AllKept store.shown) (deallocate clients namespace claim w) (
        lift-Meets (AllKept store.shown) (λ a u. AllKept store.shown u) (get_selected_node claim)
          (λ node.
            if node == "" then Exec.pure tt else deallocate_from clients namespace node claim)
          w all
          (λ node e. elim (Bool-cases (node == "")) [
            | inl unnamed ↦ rw unnamed all
            | inr named ↦ rw named (deallocate_from-Meets node claim w all)
          ]))
