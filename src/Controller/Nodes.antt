-- ===== src/Controller/Nodes.antt =====
-- driver.go, UnsuitableNodes: which of the nodes that a pod may run on its claims do not fit.
pub mod Judging
pub mod Verdicts
use dra_rt_driver.Prelude.{
  String, string_key, ◌==◌, if◌then◌else◌, Bool, true, false, not, List, [], ◌∷◌, map,
}
use dra_rt_driver.Prelude.Outcome
use dra_rt_driver.Prelude.Outcome.{
  Outcome, ok, err, panic, Error, failed, within, deref, index_out_of_range, wrap_error,
  incorrect_api_group, getting_class_parameters, getting_claim_parameters,
  validating_claim_parameters, unknown_claim_kind, immediate_allocation, retrieving_crd, crd_status,
  unable_to_allocate, updating_crd, retrieving_latest_crd, unknown_device_type,
  unable_to_deallocate, processing_node, processing_kind,
}
use dra_rt_driver.Prelude.Exec.{Exec, pure, lift, on_error, ◌>>=◌}
use dra_rt_driver.Nas.{NodeAllocationState, status_ready}
use dra_rt_driver.Resource.{Pod, ClaimParameters, rt_claim, other_parameters, ClaimAllocation}
use dra_rt_driver.Pending.{PerNodeAllocatedClaims}
use dra_rt_driver.Client
use dra_rt_driver.Client.{NasApi}
use dra_rt_driver.Rt
use dra_rt_driver.Rt.{OnSuccess}
use dra_rt_driver.Rt.Propose.{RangeOrder}
use dra_rt_driver.Controller.Record.{unique, make_claims, make_utils}
use dra_rt_driver.Controller.{Clientset, World, on_server, new_crd}

unfoldable pub type_of_claim : ClaimParameters → Bool
type_of_claim (rt_claim params) = true
type_of_claim other_parameters = false

-- The claims whose parameters are real-time parameters; any other kind is an error.
unfoldable pub rt_claims : List ClaimAllocation → Outcome (List ClaimAllocation)
unfolding type_of_claim
rt_claims [] = ok []
rt_claims (ca ∷ cas) =
    if type_of_claim ca.claim_parameters
    then Outcome.◌>>=◌ (rt_claims cas) (λ rest. ok (ca ∷ rest))
    else err (failed unknown_claim_kind)

abbrev pub keep_nodes :
    {S : Type 0}
    → Outcome (PerNodeAllocatedClaims × List ClaimAllocation)
    → World S
    → Outcome (List ClaimAllocation) × World S
keep_nodes (ok (p, cas)) w = (ok cas, record w { pending = p })
keep_nodes (err e) w = (err e, w)
keep_nodes (panic q) w = (panic q, w)

module _ {S : Type 0} (clients : Clientset S) (namespace : String) where
  module _ (range : RangeOrder) where
    -- `unsuitableNode` of a record that is ready.
    unfoldable pub judge_node :
        NodeAllocationState
        → Pod
        → List ClaimAllocation
        → String
        → Exec (World S) (List ClaimAllocation)
    unfolding rt_claims
    judge_node crd pod cas node = do
      crd' ← lift (make_utils (make_claims crd))
      rtcas ← lift (rt_claims cas)
      on_error processing_kind
          (λ w. keep_nodes (Rt.unsuitable_node range w.pending crd' pod rtcas cas node) w)

    abbrev pub after_get :
        Pod
        → List ClaimAllocation
        → String
        → Outcome NodeAllocationState × World S
        → Outcome (List ClaimAllocation) × World S
    after_get pod cas node (ok crd, w) =
        if not (crd.status == status_ready)
        then (ok (Rt.mark_unsuitable node cas), w)
        else judge_node crd pod cas node w
    after_get pod cas node (err e, w) = (ok (Rt.mark_unsuitable node cas), w)
    after_get pod cas node (panic q, w) = (panic q, w)

    -- `unsuitableNode`
    unfoldable pub unsuitable_node :
        Pod → List ClaimAllocation → String → Exec (World S) (List ClaimAllocation)
    unsuitable_node pod cas node w =
        after_get pod cas node
          (on_server (Client.get clients.nas (new_crd clients namespace node)) w)

    unfoldable pub unsuitable_loop :
        Pod → List String → List ClaimAllocation → Exec (World S) (List ClaimAllocation)
    unsuitable_loop pod [] cas = pure cas
    unsuitable_loop pod (node ∷ nodes) cas = do
      cas' ← on_error processing_node (unsuitable_node pod cas node)
      unsuitable_loop pod nodes cas'

    -- `UnsuitableNodes`
    unfoldable pub unsuitable_nodes :
        Pod → List ClaimAllocation → List String → Exec (World S) (List ClaimAllocation)
    unsuitable_nodes pod cas nodes = do
      cas' ← unsuitable_loop pod nodes cas
      pure (
          map
            (λ (ca : ClaimAllocation). record ca { unsuitable_nodes = unique ca.unsuitable_nodes })
            cas')
