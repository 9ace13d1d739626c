-- ===== src/Controller/Server/Run.antt =====
-- driver.go over an API server: any sequence of calls of the driver, and the limit of 950 thousandths.
use dra_rt_driver.Prelude.{ℕ, ◌<◌, ◌≡◌, sym, ◌∙◌, subst, String, string_key, none, some, List, All}
use dra_rt_driver.Prelude.GoMap.{lookup, entries}
use dra_rt_driver.Prelude.Outcome.{ok}
use dra_rt_driver.Nas.{AllocatedCpuset, MappedUtil, NodeAllocationState}
use dra_rt_driver.Pending.{new_per_node_allocated_claims}
use dra_rt_driver.Client.Storing.{IsStore}
use dra_rt_driver.Resource.{ClaimAllocation, ClaimParameters, Pod, ResourceClaim}
use dra_rt_driver.Rt.Propose.{RangeOrder}
use dra_rt_driver.Rt.Pods.{IsServed}
use dra_rt_driver.Rt.Reserving.{HasDistinctClaims}
use dra_rt_driver.Plugin.Devices.{DeviceState}
use dra_rt_driver.Plugin.Cdi.{CdiLib}
use dra_rt_driver.Plugin.Driver.{Node, Retry, node_prepare_resources, node_unprepare_resources}
use dra_rt_driver.Plugin.Driver.Attempts.{IsRetry}
use dra_rt_driver.Plugin.Driver.Keeping.{Keeps, SameClaims}
use dra_rt_driver.Plugin.Driver.Keeping.Calls.{requests-Keeps}
use dra_rt_driver.Controller.{Clientset, World, allocate, deallocate}
use dra_rt_driver.Controller.Record.{make_claims, make_utils}
use dra_rt_driver.Controller.Made.{SameAllocation}
use dra_rt_driver.Controller.Nodes.{unsuitable_node}
use dra_rt_driver.Controller.History.Limit.{
  IsUpright, IsUpright-IsCovered, Promises, IsCovered-below_limit,
}
use dra_rt_driver.Controller.Server.{AllKept}
use dra_rt_driver.Controller.Server.Kept.{SameAllocation-IsKept}
use dra_rt_driver.Controller.Server.Allocating.{allocate-AllKept}
use dra_rt_driver.Controller.Server.Returning.{deallocate-AllKept}
use dra_rt_driver.Controller.Server.Judging.{unsuitable_node-AllKept}

module _ {S : Type 0} (clients : Clientset S) (namespace : String)
    (store : IsStore clients.nas namespace) where
  -- The plugin of the node at work on the server, whose records have their utilisations.
  pub record IsPluginOf {R : Type 0} (node : String) (p : Node S R DeviceState) (w : World S)
      : Type 0 where
    pub server : p.server ≡ w.server
    pub home : p.nascrd.meta.namespace ≡ namespace
    pub named : p.nascrd.meta.name ≡ node
    pub utils :
        (n : String) (d : NodeAllocationState)
        → store.shown w.server n ≡ some d
        → (m : MappedUtil) × (d.spec.allocated_util_to_cpu.cpus ≡ some m)

  -- A call of the driver on one node that runs to its end, whatever it returns; a request of the
  -- kubelet to the plugin of a node; or another program that writes to the server, and leaves the
  -- allocations as they are.
  pub data Call (w v : World S) : Type 1 where
    judges :
        (range : RangeOrder) (pod : Pod) (cas : List ClaimAllocation) (node : String)
        → All IsServed cas
        → HasDistinctClaims cas
        → v ≡ (unsuitable_node clients namespace range pod cas node w).1
        → Call w v
    allocates :
        (claim : ResourceClaim) (params : ClaimParameters) (node : String)
        → v ≡ (allocate clients namespace claim params node w).1
        → Call w v
    deallocates : (claim : ResourceClaim) → v ≡ (deallocate clients namespace claim w).1 → Call w v
    others :
        (s : S)
        → ((n : String) (c : NodeAllocationState)
            → store.shown s n ≡ some c
            → (d : NodeAllocationState) × (store.shown w.server n ≡ some d) × SameAllocation c d)
        → v ≡ record w { server = s }
        → Call w v
    prepares :
        {R : Type 0} (r : Retry) (lib : CdiLib R) (node : String) (uids : List String)
        (p : Node S R DeviceState)
        → IsRetry r
        → IsPluginOf node p w
        → v ≡ record w { server = (node_prepare_resources r clients.nas lib uids p).1.server }
        → Call w v
    unprepares :
        {R : Type 0} (r : Retry) (lib : CdiLib R) (node : String) (uids : List String)
        (p : Node S R DeviceState)
        → IsRetry r
        → IsPluginOf node p w
        → v ≡ record w { server = (node_unprepare_resources r clients.nas lib uids p).1.server }
        → Call w v

  pub data Run (w : World S) : World S → Type 1 where
    begin : Run w w
    next : {v u : World S} → Run w v → Call v u → Run w u

  keeps-AllKept :
      (w : World S) (t : S)
      → ((n : String) (d : NodeAllocationState)
          → store.shown w.server n ≡ some d
          → (m : MappedUtil) × (d.spec.allocated_util_to_cpu.cpus ≡ some m))
      → ((n : String) (c : NodeAllocationState)
          → store.shown t n ≡ some c
          → (d : NodeAllocationState) × (store.shown w.server n ≡ some d)
            × SameClaims c.spec d.spec)
      → AllKept store.shown w
      → AllKept store.shown (record w { server = t })
  keeps-AllKept w t utils keeps all n c h =
      let (d, before, same) = keeps n c h in
      let (m, e) = utils n d before in
      SameAllocation-IsKept n c d w.pending
        (record {
          claims = same.claims;
          utils = same.utils;
          allocatable = λ none_yet. absurd (let x : none ≡ some m = sym none_yet ∙ e in cc);
        })
        (all n d before)

  Call-AllKept : {w v : World S} → Call w v → AllKept store.shown w → AllKept store.shown v
  Call-AllKept {w} {v} (judges range pod cas node served distinct e) all =
      rw e
        (unsuitable_node-AllKept clients namespace store range pod cas node served distinct w all)
  Call-AllKept {w} {v} (allocates claim params node e) all =
      rw e (allocate-AllKept clients namespace store node claim params w all)
  Call-AllKept {w} {v} (deallocates claim e) all =
      rw e (deallocate-AllKept clients namespace store claim w all)
  Call-AllKept {w} {v} (others s h e) all = rw e (λ n c shown.
      let (d, before, same) = h n c shown in
      SameAllocation-IsKept n c d w.pending same (all n d before))
  Call-AllKept {w} {v} (prepares {R} r lib node uids p law plugin e) all = rw e (
      keeps-AllKept w (node_prepare_resources r clients.nas lib uids p).1.server plugin.utils
        (subst
          (λ x.
            Keeps clients.nas lib namespace node store x
              (node_prepare_resources r clients.nas lib uids p).1.server)
          plugin.server
          (requests-Keeps r clients.nas lib namespace node store uids p law plugin.home
            plugin.named).0)
        all)
  Call-AllKept {w} {v} (unprepares {R} r lib node uids p law plugin e) all = rw e (
      keeps-AllKept w (node_unprepare_resources r clients.nas lib uids p).1.server plugin.utils
        (subst
          (λ x.
            Keeps clients.nas lib namespace node store x
              (node_unprepare_resources r clients.nas lib uids p).1.server)
          plugin.server
          (requests-Keeps r clients.nas lib namespace node store uids p law plugin.home
            plugin.named).1)
        all)

  pub Run-AllKept : {w v : World S} → AllKept store.shown w → Run w v → AllKept store.shown v
  Run-AllKept all begin = all
  Run-AllKept all (next r c) = Call-AllKept c (Run-AllKept all r)

  -- A stored record to start from: the maps that it lacks can be made, no CPU is at 950 thousandths
  -- then, its allocations are safe; and if it holds a claim, it has its utilisations.
  pub record IsSound (crd : NodeAllocationState) : Type 0 where
    pub made : NodeAllocationState
    pub is_made : make_utils (make_claims crd) ≡ ok made
    pub upright : IsUpright made
    pub charged :
        (uid : String) (a : AllocatedCpuset)
        → lookup uid (entries crd.spec.allocated_claims) ≡ some a
        → (m : MappedUtil) × (crd.spec.allocated_util_to_cpu.cpus ≡ some m)

  -- On a server that stores what it is sent and nothing else, with sound records at the start and
  -- nothing pending: after any sequence of calls of unsuitableNode (for real-time claims with sound
  -- parameters, none of them twice in a call), allocate and Deallocate, each run to its end whatever
  -- it returns, of requests of the kubelet to prepare and unprepare claims on servers whose records
  -- have their utilisations, and of writes by others that leave the allocations as they are: from every
  -- record that the server shows the controller can make the maps it lacks, and then every CPU has less than 950
  -- thousandths promised, counting what is in use and what is pending on the node for claims that the
  -- record does not hold yet.
  pub server_below_limit :
      (s : S) (w : World S) (node cpu : String) (crd : NodeAllocationState)
      → ((n : String) (c : NodeAllocationState) → store.shown s n ≡ some c → IsSound c)
      → Run (record { server = s; pending = new_per_node_allocated_claims }) w
      → store.shown w.server node ≡ some crd
      → (made : NodeAllocationState) × (make_utils (make_claims crd) ≡ ok made)
        × ((load : ℕ) × Promises made w.pending node cpu load × (load < 950))
  server_below_limit s w node cpu crd sound r shown =
      let start : AllKept store.shown
          (record { server = s; pending = new_per_node_allocated_claims }) =
        λ n c h.
          let i = sound n c h in
          record {
            made = i.made;
            is_made = i.is_made;
            covered = IsUpright-IsCovered n i.made i.upright;
            charged = i.charged;
          } in
      let k = Run-AllKept start r node crd shown in
      (k.made, k.is_made, IsCovered-below_limit node cpu k.made w.pending k.covered)
