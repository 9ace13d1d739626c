-- ===== src/Controller/Returning.antt =====
-- driver.go, Deallocate: what a deallocation leaves on the server and among the pending allocations.
use dra_rt_driver.Prelude.{◌≡◌, refl, sym, ◌∙◌, String, string_key, ◌==◌, false, some, List, All}
use dra_rt_driver.Prelude.GoMap.{lookup, entries}
use dra_rt_driver.Prelude.Outcome.{
  Outcome, ok, err, panic, wrap_error, updating_crd, unable_to_deallocate, ◌>>=◌,
}
use dra_rt_driver.Prelude.Exec
use dra_rt_driver.Prelude.Exec.{Exec}
use dra_rt_driver.Nas.{
  AllocatedCpu, AllocatedRtCpu, AllocatedCpuset, NodeAllocationState, NodeAllocationStateSpec,
  allocated_type,
}
use dra_rt_driver.Nas.Load.{IsSoundCpu}
use dra_rt_driver.Pending
use dra_rt_driver.Pending.{PerNodeAllocatedClaims}
use dra_rt_driver.Client
use dra_rt_driver.Client.Overwrite.{IsServer, update_overwrites}
use dra_rt_driver.Resource.{ResourceClaim}
use dra_rt_driver.Rt
use dra_rt_driver.Controller.{
  Clientset, World, deallocate, deallocate_from, deallocate_read, deallocate_on, deallocate_devices,
  latest, new_crd, on_server, keep_pending,
}
use dra_rt_driver.Controller.Record.{get_selected_node, devices_of, without_claim}
use dra_rt_driver.Controller.Deallocation.{GivesBack, without_claim-GivesBack}
use dra_rt_driver.Controller.Allocation.{exists-remove}

module _ {S : Type 0} (clients : Clientset S) (namespace : String) where
  -- The server holds the record `crd` without the claim, and nothing is pending for the claim.
  pub record Returned (uid : String) (cs : List AllocatedCpu) (first crd : NodeAllocationState)
      (w : World S) : Type 0 where
    pub stored : NodeAllocationState
    pub found :
        clients.nas.fetch first.meta.namespace first.meta.name w.server ≡ (ok stored, w.server)
    pub gives_back : GivesBack uid cs crd stored
    pub settled : (node : String) → Pending.exists w.pending uid node ≡ false

  rt_deallocate-settled :
      (claim : ResourceClaim) (p p' : PerNodeAllocatedClaims)
      → Rt.deallocate p claim ≡ ok p'
      → (n : String) → Pending.exists p' claim.uid n ≡ false
  unfolding Rt.deallocate
  rt_deallocate-settled claim p p' h n = go (Pending.remove_util p claim.uid) h
    where
      go :
          (o : Outcome PerNodeAllocatedClaims)
          → (o >>= λ q. ok (Pending.remove q claim.uid)) ≡ ok p'
          → Pending.exists p' claim.uid n ≡ false
      go (ok q) h =
          let e : Pending.remove q claim.uid ≡ p' = cc in
          rw (← e) (exists-remove clients namespace q claim.uid n)
      go (err e) h = absurd (cc)
      go (panic e) h = absurd (cc)

  -- The two calls of `deallocate_on` that may fail, by their outcomes.
  abbrev write_back :
      NodeAllocationState → NodeAllocationStateSpec → World S → Outcome (Unit {0}) × World S
  write_back first spec w =
      Exec.◌>>◌ (Exec.on_error updating_crd (on_server (Client.update clients.nas first spec)))
        (Exec.pure tt) w

  abbrev tail :
      ResourceClaim
      → AllocatedRtCpu
      → NodeAllocationState
      → NodeAllocationState
      → Exec (World S) (Unit {0})
  tail claim rt first crd =
      Exec.◌>>=◌ (Exec.lift (without_claim claim rt.cpuset crd)) λ crd'. write_back first crd'.spec

  tail-write_back :
      (claim : ResourceClaim) (rt : AllocatedRtCpu) (first crd crd' : NodeAllocationState)
      (w : World S) (o : Outcome PerNodeAllocatedClaims)
      → without_claim claim rt.cpuset crd ≡ ok crd'
      → Exec.continue
          (wrap_error unable_to_deallocate (keep_pending o w).0)
          (λ u. tail claim rt first crd)
          (keep_pending o w).1
        ≡ Exec.continue
            (wrap_error unable_to_deallocate (keep_pending o w).0)
            (λ u. write_back first crd'.spec)
            (keep_pending o w).1
  tail-write_back claim rt first crd crd' w (ok p) e = rw e refl
  tail-write_back claim rt first crd crd' w (err x) e = refl
  tail-write_back claim rt first crd crd' w (panic q) e = refl

  deallocate_on-write_back :
      (claim : ResourceClaim) (rt : AllocatedRtCpu) (first crd crd' : NodeAllocationState)
      (w : World S)
      → lookup claim.uid (entries crd.spec.allocated_claims) ≡ some (record { rt_cpu = some rt })
      → without_claim claim rt.cpuset crd ≡ ok crd'
      → deallocate_on clients namespace first crd claim w
        ≡ Exec.continue
            (wrap_error unable_to_deallocate (keep_pending (Rt.deallocate w.pending claim) w).0)
            (λ u. write_back first crd'.spec)
            (keep_pending (Rt.deallocate w.pending claim) w).1
  unfolding deallocate_on deallocate_devices allocated_type
  deallocate_on-write_back claim rt first crd crd' w held e =
      let devices : devices_of claim crd ≡ record { rt_cpu = some rt } =
        rw (devices_of, held) refl in
      rw (deallocate_on, devices, deallocate_devices, allocated_type)
        (tail-write_back claim rt first crd crd' w (Rt.deallocate w.pending claim) e)

  settle-Returned :
      (law : IsServer clients.nas) (claim : ResourceClaim) (cs : List AllocatedCpu)
      (first crd crd' : NodeAllocationState) (w w' : World S) (o : Outcome PerNodeAllocatedClaims)
      → GivesBack claim.uid cs crd crd'
      → Rt.deallocate w.pending claim ≡ o
      → Exec.continue
          (wrap_error unable_to_deallocate (keep_pending o w).0)
          (λ u. write_back first crd'.spec)
          (keep_pending o w).1
        ≡ (ok tt, w')
      → Returned claim.uid cs first crd w'
  settle-Returned law claim cs first crd crd' w w' (err x) back e h = absurd (cc)
  settle-Returned law claim cs first crd crd' w w' (panic q) back e h = absurd (cc)
  settle-Returned law claim cs first crd crd' w w' (ok p) back e h =
      go (Client.update clients.nas first crd'.spec w.server) refl h
    where
      go :
          (u : Outcome NodeAllocationState × S)
          → Client.update clients.nas first crd'.spec w.server ≡ u
          → Exec.continue
              (wrap_error updating_crd u.0)
              (λ x. Exec.pure tt)
              (record { server = u.1; pending = p })
            ≡ (ok tt, w')
          → Returned claim.uid cs first crd w'
      go (ok stored, s) f h =
          let after : w' ≡ record { server = s; pending = p } = cc in
          let (spec, found) =
            update_overwrites clients.nas law first crd'.spec w.server s stored f in
          rw after (record {
            stored = stored;
            found = found;
            gives_back = record {
              utils = back.utils;
              is_utils = rw spec back.is_utils;
              releases = back.releases;
              claims = λ j. rw spec (back.claims j);
            };
            settled = rt_deallocate-settled claim w.pending p e;
          })
      go (err x, s) f h = absurd (cc)
      go (panic x, s) f h = absurd (cc)

  deallocate_read-deallocate_on :
      (claim : ResourceClaim) (node : String) (held : AllocatedCpuset)
      (first crd : NodeAllocationState) (w v : World S)
      → lookup claim.uid (entries first.spec.allocated_claims) ≡ some held
      → latest clients namespace first node w ≡ (ok crd, v)
      → deallocate_read clients namespace first node claim w
        ≡ deallocate_on clients namespace first crd claim v
  unfolding deallocate_read
  deallocate_read-deallocate_on claim node held first crd w v known newest =
      rw (deallocate_read, known, newest) refl

  -- `Deallocate` of a claim whose node's record holds it, the latest read included, with sound
  -- reservations: whenever it returns no error, the server holds the latest record without the claim
  -- and with the load of the claim taken off its CPUs, and nothing is pending for the claim.
  pub deallocate-Returned :
      (claim : ResourceClaim) (node : String) (rt : AllocatedRtCpu) (held : AllocatedCpuset)
      (first crd : NodeAllocationState) (w v w' : World S) (s : S)
      → IsServer clients.nas
      → get_selected_node claim ≡ ok node
      → (node == "") ≡ false
      → Client.get clients.nas (new_crd clients namespace node) w.server ≡ (ok first, s)
      → lookup claim.uid (entries first.spec.allocated_claims) ≡ some held
      → latest clients namespace first node (record w { server = s }) ≡ (ok crd, v)
      → lookup claim.uid (entries crd.spec.allocated_claims) ≡ some (record { rt_cpu = some rt })
      → All IsSoundCpu rt.cpuset
      → deallocate clients namespace claim w ≡ (ok tt, w')
      → Returned claim.uid rt.cpuset first crd w'
  unfolding deallocate deallocate_from
  deallocate-Returned claim node rt held first crd w v w' s law selected named read known newest
        held' sound h =
      let (crd', e, back) = without_claim-GivesBack claim rt.cpuset crd sound in
      settle-Returned law claim rt.cpuset first crd crd' v w' (Rt.deallocate v.pending claim) back
        refl
        (sym (deallocate_on-write_back claim rt first crd crd' v held' e)
          ∙ sym (
              deallocate_read-deallocate_on claim node held first crd (record w { server = s }) v
                known newest)
          ∙ sym (rw (deallocate, selected, named, deallocate_from, read) refl)
          ∙ h)
