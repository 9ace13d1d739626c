-- ===== src/Controller/Allocation.antt =====
-- driver.go, allocate: what an allocation leaves on the server and among the pending allocations.
use dra_rt_driver.Prelude.{
  ◌≡◌, refl, sym, ◌∙◌, String, string_key, ◌==◌, true, false, none, some, All, arith,
}
use dra_rt_driver.Prelude.GoMap.{GoMap, lookup, insert, entries, lookup-delete, eq_self}
use dra_rt_driver.Prelude.Outcome.{Outcome, ok, err, panic, wrap_error, updating_crd, ◌>>=◌}
use dra_rt_driver.Prelude.Exec
use dra_rt_driver.Nas.{
  AllocatedRtCpu, AllocatedCpuset, MappedUtil, NodeAllocationState, status_ready, with_cpus,
  new_node_allocation_state,
}
use dra_rt_driver.Nas.Load.{IsSoundCpu}
use dra_rt_driver.Nas.Utilisation.{Adds}
use dra_rt_driver.Params.{RtClaimParametersSpec}
use dra_rt_driver.Pending
use dra_rt_driver.Pending.{PerNodeAllocatedClaims}
use dra_rt_driver.Client
use dra_rt_driver.Client.Overwrite.{IsServer, update_overwrites}
use dra_rt_driver.Resource.{ResourceClaim, ClaimParameters, rt_claim, AllocationResult}
use dra_rt_driver.Rt
use dra_rt_driver.Rt.{OnSuccess, call_on_success}
use dra_rt_driver.Controller.{
  Clientset, World, allocate, allocate_on, allocate_parameters, on_server, on_pending, keep_pending,
}
use dra_rt_driver.Controller.Record.{build_allocation_result}
use dra_rt_driver.Controller.Made.{make_claims-made, make_utils-made}
use dra_rt_driver.Controller.Deallocation.{charge_claim-Adds, holding}

module _ {S : Type 0} (clients : Clientset S) (namespace : String) where
  -- What `allocate` reads: the record of the node, ready, with both its maps made.
  pub record Reads (node : String) (w : World S) (crd : NodeAllocationState)
      (claims : GoMap String AllocatedCpuset) (m : MappedUtil) (s : S) : Type 0 where
    pub named : (node == "") ≡ false
    pub reads : clients.nas.fetch namespace node w.server ≡ (ok crd, s)
    pub ready : crd.status ≡ status_ready
    pub has_claims : crd.spec.allocated_claims ≡ some claims
    pub has_utils : crd.spec.allocated_util_to_cpu.cpus ≡ some m

  allocate-allocate_on :
      (claim : ResourceClaim) (params : ClaimParameters) (node : String) (w : World S)
      (crd : NodeAllocationState) (claims : GoMap String AllocatedCpuset) (m : MappedUtil) (s : S)
      → Reads node w crd claims m s
      → allocate clients namespace claim params node w
        ≡ allocate_on clients namespace crd claim params node (record w { server = s })
  unfolding allocate Client.get new_node_allocation_state
  allocate-allocate_on claim params node w crd claims m s r =
      let is_ready : (crd.status == status_ready) ≡ true = rw r.ready refl in
      rw
        (
          allocate,
          r.named,
          Client.get,
          new_node_allocation_state,
          r.reads,
          is_ready,
          make_claims-made crd claims r.has_claims,
          make_utils-made crd m r.has_utils,
        )
        refl

  -- On a node whose record is ready and has both its maps made: allocating a claim that the record
  -- holds already returns the same result again, writes nothing to the server and changes no pending
  -- allocation.
  pub allocate_again :
      (claim : ResourceClaim) (params : ClaimParameters) (node : String) (w : World S)
      (crd : NodeAllocationState) (claims : GoMap String AllocatedCpuset) (m : MappedUtil) (s : S)
      (held : AllocatedCpuset)
      → Reads node w crd claims m s
      → lookup claim.uid claims ≡ some held
      → allocate clients namespace claim params node w
        ≡ (ok (build_allocation_result node true), record w { server = s })
  unfolding allocate_on
  allocate_again claim params node w crd claims m s held r h =
      allocate-allocate_on claim params node w crd claims m s r
      ∙ rw (allocate_on, r.has_claims, h) refl

  -- The server holds the claim with what was pending for it and has its load added; nothing is
  -- pending for the claim any more.
  pub record Commits (uid : String) (rt : AllocatedRtCpu) (crd : NodeAllocationState)
      (claims : GoMap String AllocatedCpuset) (m : MappedUtil) (w : World S) : Type 0 where
    pub stored : NodeAllocationState
    pub found : clients.nas.fetch crd.meta.namespace crd.meta.name w.server ≡ (ok stored, w.server)
    pub is_claims :
        stored.spec.allocated_claims ≡ some (insert uid (record { rt_cpu = some rt }) claims)
    pub utils : MappedUtil
    pub is_utils : stored.spec.allocated_util_to_cpu.cpus ≡ some utils
    pub adds : Adds rt.cpuset m utils
    pub settled : (node : String) → Pending.exists w.pending uid node ≡ false

  pub exists-remove :
      (p : PerNodeAllocatedClaims) (uid node : String)
      → Pending.exists (Pending.remove p uid) uid node ≡ false
  unfolding Pending.exists Pending.remove
  exists-remove p uid node = ground (arith, lookup-delete uid uid p.allocations, eq_self uid)

  -- The part of `allocate_on` that follows the allocation, by the outcomes of its two calls.
  abbrev settle :
      String
      → String
      → AllocationResult
      → Outcome NodeAllocationState × World S
      → Outcome AllocationResult × World S
  settle uid node result r =
      Exec.continue (wrap_error updating_crd r.0)
        (λ crd.
          Exec.◌>>◌ (on_pending (call_on_success (some (record { uid = uid; node = node }))))
            (Exec.pure result))
        r.1

  settle-pending :
      (uid node : String) (result res : AllocationResult) (w w' : World S)
      (o : Outcome PerNodeAllocatedClaims)
      → Exec.continue (keep_pending o w).0 (λ u. Exec.pure result) (keep_pending o w).1
        ≡ (ok res, w')
      → (p : PerNodeAllocatedClaims) × (o ≡ ok p) × (w' ≡ record w { pending = p }) × (res ≡ result)
  settle-pending uid node result res w w' (ok p) h = (p, refl, cc, cc)
  settle-pending uid node result res w w' (err e) h = absurd (cc)
  settle-pending uid node result res w w' (panic q) h = absurd (cc)

  call_on_success-settled :
      (uid node : String) (p p' : PerNodeAllocatedClaims)
      → call_on_success (some (record { uid = uid; node = node })) p ≡ ok p'
      → (n : String) → Pending.exists p' uid n ≡ false
  unfolding call_on_success
  call_on_success-settled uid node p p' h n = go (Pending.remove_util_other_nodes p uid node) h
    where
      go :
          (o : Outcome PerNodeAllocatedClaims)
          → (o >>= λ q. ok (Pending.remove q uid)) ≡ ok p'
          → Pending.exists p' uid n ≡ false
      go (ok q) h = let e : Pending.remove q uid ≡ p' = cc in rw (← e) (exists-remove q uid n)
      go (err e) h = absurd (cc)
      go (panic e) h = absurd (cc)

  -- The real-time allocation that is pending for the claim on the node.
  pub record IsPending (p : PerNodeAllocatedClaims) (uid node : String) (rt : AllocatedRtCpu)
      : Type 0 where
    pub exists : Pending.exists p uid node ≡ true
    pub is_rt : Pending.get p uid node ≡ record { rt_cpu = some rt }

  rt_allocate :
      (claim : ResourceClaim) (node : String) (p : PerNodeAllocatedClaims) (rt : AllocatedRtCpu)
      (crd crd' : NodeAllocationState) (claims : GoMap String AllocatedCpuset)
      → IsPending p claim.uid node rt
      → crd.spec.allocated_claims ≡ some claims
      → lookup claim.uid claims ≡ none
      → Rt.charge_claim claim.uid (record { rt_cpu = some rt }) crd ≡ ok crd'
      → Rt.allocate p crd claim node ≡ ok (crd', some (record { uid = claim.uid; node = node }))
  unfolding Rt.allocate
  rt_allocate claim node p rt crd crd' claims h has fresh e =
      let unheld : lookup claim.uid (entries crd.spec.allocated_claims) ≡ none = rw has fresh in
      rw (Rt.allocate, h.exists, unheld, h.is_rt, e) refl

  allocate_on-settle :
      (claim : ResourceClaim) (params : RtClaimParametersSpec) (node : String) (w : World S)
      (crd crd' : NodeAllocationState) (claims : GoMap String AllocatedCpuset)
      → crd.spec.allocated_claims ≡ some claims
      → lookup claim.uid claims ≡ none
      → Rt.allocate w.pending crd claim node
        ≡ ok (crd', some (record { uid = claim.uid; node = node }))
      → allocate_on clients namespace crd claim (rt_claim params) node w
        ≡ settle claim.uid node
            (build_allocation_result node true)
            (on_server (Client.update clients.nas crd' crd'.spec) w)
  unfolding allocate_on allocate_parameters
  allocate_on-settle claim params node w crd crd' claims has fresh e =
      let unheld : lookup claim.uid (entries crd.spec.allocated_claims) ≡ none = rw has fresh in
      rw (allocate_on, unheld, allocate_parameters, e) refl

  settle-Commits :
      (law : IsServer clients.nas) (uid node : String) (rt : AllocatedRtCpu)
      (result res : AllocationResult) (crd : NodeAllocationState)
      (claims : GoMap String AllocatedCpuset) (m m' : MappedUtil) (w w' : World S)
      → Adds rt.cpuset m m'
      → let crd' = with_cpus (holding uid rt claims crd) (some m') in
        settle uid node result (on_server (Client.update clients.nas crd' crd'.spec) w)
          ≡ (ok res, w')
        → (res ≡ result) × Commits uid rt crd claims m w'
  settle-Commits law uid node rt result res crd claims m m' w w' adds h =
      go (Client.update clients.nas crd' crd'.spec w.server) refl h
    where
      crd' : NodeAllocationState
      crd' = with_cpus (holding uid rt claims crd) (some m')

      go :
          (o : Outcome NodeAllocationState × S)
          → Client.update clients.nas crd' crd'.spec w.server ≡ o
          → settle uid node result (o.0, record w { server = o.1 }) ≡ (ok res, w')
          → (res ≡ result) × Commits uid rt crd claims m w'
      go (ok stored, s) e h =
          let (p, called, after, same) =
            settle-pending uid node result res (record w { server = s }) w'
              (call_on_success (some (record { uid = uid; node = node })) w.pending) h in
          let (spec, found) =
            update_overwrites clients.nas law crd' crd'.spec w.server s stored e in
          (
            same,
            rw after (record {
              stored = stored;
              found = found;
              is_claims = rw spec refl;
              utils = m';
              is_utils = rw spec refl;
              adds = adds;
              settled = call_on_success-settled uid node w.pending p called;
            }),
          )
      go (err x, s) e h = absurd (cc)
      go (panic x, s) e h = absurd (cc)

  -- On a node whose record is ready, has both its maps made and does not hold the claim, with a
  -- real-time allocation of sound reservations pending: whenever `allocate` returns no error, its
  -- result is for this node, the server holds the claim as it was pending and, where the sums fit an
  -- `int`, the load of the claim on its CPUs, and nothing is pending for the claim on any node.
  pub allocate-Commits :
      (claim : ResourceClaim) (params : RtClaimParametersSpec) (node : String) (rt : AllocatedRtCpu)
      (w w' : World S) (crd : NodeAllocationState) (claims : GoMap String AllocatedCpuset)
      (m : MappedUtil) (s : S) (res : AllocationResult)
      → IsServer clients.nas
      → Reads node w crd claims m s
      → lookup claim.uid claims ≡ none
      → IsPending w.pending claim.uid node rt
      → All IsSoundCpu rt.cpuset
      → allocate clients namespace claim (rt_claim params) node w ≡ (ok res, w')
      → (res ≡ build_allocation_result node true) × Commits claim.uid rt crd claims m w'
  allocate-Commits claim params node rt w w' crd claims m s res law r fresh pending sound h =
      let (m', charged, adds) =
        charge_claim-Adds claim.uid rt crd claims m r.has_claims r.has_utils sound in
      let crd' = with_cpus (holding claim.uid rt claims crd) (some m') in
      let allocated =
        rt_allocate claim node w.pending rt crd crd' claims pending r.has_claims fresh charged in
      settle-Commits law claim.uid node rt (build_allocation_result node true) res crd claims m m'
        (record w { server = s }) w' adds
        (sym (
            allocate_on-settle claim params node (record w { server = s }) crd crd' claims
              r.has_claims fresh allocated)
          ∙ sym (allocate-allocate_on claim (rt_claim params) node w crd claims m s r)
          ∙ h)
