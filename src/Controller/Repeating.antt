-- ===== src/Controller/Repeating.antt =====
-- driver.go, allocate: a second call for a claim that a first call has allocated.
use dra_rt_driver.Prelude.{◌≡◌, sym, ◌∙◌, ap, subst, String, string_key, none, some, All}
use dra_rt_driver.Prelude.GoMap.{GoMap, lookup, insert, lookup-insert_hit}
use dra_rt_driver.Prelude.Outcome.{ok}
use dra_rt_driver.Nas.{
  AllocatedRtCpu, AllocatedCpuset, MappedUtil, NodeAllocationState, status_ready,
}
use dra_rt_driver.Nas.Load.{IsSoundCpu}
use dra_rt_driver.Params.{RtClaimParametersSpec}
use dra_rt_driver.Client.Overwrite.{IsServer}
use dra_rt_driver.Resource.{ResourceClaim, ClaimParameters, rt_claim, AllocationResult}
use dra_rt_driver.Controller.{Clientset, World, allocate}
use dra_rt_driver.Controller.Allocation.{
  Reads, Commits, IsPending, allocate-Commits, allocate_again,
}

module _ {S : Type 0} (clients : Clientset S) (namespace : String) where
  -- The record that a first call leaves, under the node's name.
  Commits-found :
      (uid node : String) (rt : AllocatedRtCpu) (w w' : World S) (crd : NodeAllocationState)
      (claims : GoMap String AllocatedCpuset) (m : MappedUtil) (s : S)
      → IsServer clients.nas
      → Reads clients namespace node w crd claims m s
      → (c : Commits clients namespace uid rt crd claims m w')
      → clients.nas.fetch namespace node w'.server ≡ (ok c.stored, w'.server)
  Commits-found uid node rt w w' crd claims m s law r c =
      let (home, name) = law.reads namespace node w.server s crd r.reads in
      subst (λ n. clients.nas.fetch namespace n w'.server ≡ (ok c.stored, w'.server)) name
        (subst (λ n. clients.nas.fetch n crd.meta.name w'.server ≡ (ok c.stored, w'.server)) home
          c.found)

  -- Allocating is idempotent. A first call of `allocate` returns a result, on a node whose record is
  -- ready, has both its maps made and does not hold the claim, with a real-time allocation of sound
  -- reservations pending. If the record that the server then holds under the node's name is ready
  -- still, a second call for the claim, whatever its parameters, returns the same result, and leaves
  -- the server and the pending allocations as the first call left them.
  pub allocate_twice :
      (claim : ResourceClaim) (params : RtClaimParametersSpec) (second_params : ClaimParameters)
      (node : String) (rt : AllocatedRtCpu) (w w' : World S) (crd : NodeAllocationState)
      (claims : GoMap String AllocatedCpuset) (m : MappedUtil) (s : S) (res : AllocationResult)
      → IsServer clients.nas
      → Reads clients namespace node w crd claims m s
      → lookup claim.uid claims ≡ none
      → IsPending clients namespace w.pending claim.uid node rt
      → All IsSoundCpu rt.cpuset
      → allocate clients namespace claim (rt_claim params) node w ≡ (ok res, w')
      → ((c : NodeAllocationState) (t : S)
          → clients.nas.fetch namespace node w'.server ≡ (ok c, t)
          → c.status ≡ status_ready)
      → allocate clients namespace claim second_params node w' ≡ (ok res, w')
  allocate_twice claim params second_params node rt w w' crd claims m s res law r fresh pending
        sound h ready =
      let (same, c) =
        allocate-Commits clients namespace claim params node rt w w' crd claims m s res law r fresh
          pending sound h in
      let found = Commits-found claim.uid node rt w w' crd claims m s law r c in
      allocate_again clients namespace claim second_params node w' c.stored
        (insert claim.uid (record { rt_cpu = some rt }) claims) c.utils w'.server
        (record { rt_cpu = some rt })
        (record {
          named = r.named;
          reads = found;
          ready = ready c.stored w'.server found;
          has_claims = c.is_claims;
          has_utils = c.is_utils;
        })
        (lookup-insert_hit claim.uid (record { rt_cpu = some rt }) claims)
      ∙ ap (λ x. (ok x, w')) (sym same)
