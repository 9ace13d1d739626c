-- ===== src/Controller/Nodes/Judging.antt =====
-- driver.go, unsuitableNode: the judgement on one node, with the read of its record.
use dra_rt_driver.Prelude.{
  ◌≡◌, ◌⊎◌, inl, inr, refl, sym, ap, ◌∙◌, String, string_key, ◌==◌, if◌then◌else◌, not, Bool, true,
  false, List,
}
use dra_rt_driver.Prelude.Outcome.{Outcome, ok, err, panic, processing_kind}
use dra_rt_driver.Prelude.Exec
use dra_rt_driver.Prelude.Exec.{Exec}
use dra_rt_driver.Nas.{NodeAllocationState, status_ready}
use dra_rt_driver.Pending.{PerNodeAllocatedClaims}
use dra_rt_driver.Client
use dra_rt_driver.Resource.{ClaimAllocation, Pod}
use dra_rt_driver.Rt
use dra_rt_driver.Rt.{mark_unsuitable}
use dra_rt_driver.Rt.Propose.{RangeOrder}
use dra_rt_driver.Rt.Serving.{FitsPod, unsuitable_node-Judged}
use dra_rt_driver.Controller.{Clientset, World, new_crd}
use dra_rt_driver.Controller.Record.{make_claims, make_utils}
use dra_rt_driver.Controller.Nodes.{rt_claims, judge_node, unsuitable_node, after_get, keep_nodes}

module _ {S : Type 0} (clients : Clientset S) (namespace : String) (range : RangeOrder) (pod : Pod)
    (cas : List ClaimAllocation) (node : String) where
  -- The node fits: its record is read and is ready, all claims are real-time claims, and each is held
  -- by the record or pending on the node.
  pub record FitsNode (w : World S) (after : PerNodeAllocatedClaims) : Type 0 where
    pub stored : NodeAllocationState
    pub server : S
    pub reads :
        Client.get clients.nas (new_crd clients namespace node) w.server ≡ (ok stored, server)
    pub ready : (stored.status == status_ready) ≡ true
    pub crd : NodeAllocationState
    pub made : make_utils (make_claims stored) ≡ ok crd
    pub rtcas : List ClaimAllocation
    pub is_rtcas : rt_claims cas ≡ ok rtcas
    pub fits : FitsPod w.pending crd pod rtcas node after

  abbrev pub Judgement : World S → List ClaimAllocation × World S → Type 0
  Judgement w (cas', w') =
      (cas' ≡ mark_unsuitable node cas) ⊎ ((cas' ≡ cas) × FitsNode w w'.pending)

  -- What is known when the record has been read.
  record Ready (w v : World S) (crd : NodeAllocationState) : Type 0 where
    stored : NodeAllocationState
    reads : Client.get clients.nas (new_crd clients namespace node) w.server ≡ (ok stored, v.server)
    ready : (stored.status == status_ready) ≡ true
    made : make_utils (make_claims stored) ≡ ok crd
    same : v.pending ≡ w.pending

  kept :
      (w v w' : World S) (cas' rtcas : List ClaimAllocation) (crd : NodeAllocationState)
      (o : Outcome (PerNodeAllocatedClaims × List ClaimAllocation))
      → Ready w v crd
      → rt_claims cas ≡ ok rtcas
      → Rt.unsuitable_node range w.pending crd pod rtcas cas node ≡ o
      → Exec.on_error processing_kind (keep_nodes o) v ≡ (ok cas', w')
      → Judgement w (cas', w')
  kept w v w' cas' rtcas crd (ok (p, c)) k all e h =
      elim (unsuitable_node-Judged range w.pending crd pod rtcas cas node (p, c) e) [
        | inl marked ↦ inl (let same : c ≡ cas' = cc in sym same ∙ marked)
        | inr (none_marked, fits) ↦
            let same : c ≡ cas' = cc in
            let after : record v { pending = p } ≡ w' = cc in
            rw (← after) (
              inr (
                sym same ∙ none_marked,
                record {
                  stored = k.stored;
                  server = v.server;
                  reads = k.reads;
                  ready = k.ready;
                  crd = crd;
                  made = k.made;
                  rtcas = rtcas;
                  is_rtcas = all;
                  fits = fits;
                },
              ))
      ]
  kept w v w' cas' rtcas crd (err x) k all e h = absurd (cc)
  kept w v w' cas' rtcas crd (panic x) k all e h = absurd (cc)

  kinds :
      (w v w' : World S) (cas' : List ClaimAllocation) (crd : NodeAllocationState)
      (o : Outcome (List ClaimAllocation))
      → Ready w v crd
      → rt_claims cas ≡ o
      → Exec.continue o
          (λ rtcas. Exec.on_error processing_kind (λ (u : World S).
            keep_nodes (Rt.unsuitable_node range u.pending crd pod rtcas cas node) u))
          v
        ≡ (ok cas', w')
      → Judgement w (cas', w')
  kinds w v w' cas' crd (ok rtcas) k all h =
      kept w v w' cas' rtcas crd (Rt.unsuitable_node range v.pending crd pod rtcas cas node) k all
        (ap (λ q. Rt.unsuitable_node range q crd pod rtcas cas node) (sym k.same)) h
  kinds w v w' cas' crd (err x) k all h = absurd (cc)
  kinds w v w' cas' crd (panic x) k all h = absurd (cc)

  judge_node-Judgement :
      (w v w' : World S) (cas' : List ClaimAllocation) (stored : NodeAllocationState)
      (o : Outcome NodeAllocationState)
      → Client.get clients.nas (new_crd clients namespace node) w.server ≡ (ok stored, v.server)
      → (stored.status == status_ready) ≡ true
      → v.pending ≡ w.pending
      → make_utils (make_claims stored) ≡ o
      → Exec.continue o
          (λ crd. Exec.◌>>=◌ (Exec.lift (rt_claims cas)) (λ rtcas.
            Exec.on_error processing_kind (λ (u : World S).
              keep_nodes (Rt.unsuitable_node range u.pending crd pod rtcas cas node) u)))
          v
        ≡ (ok cas', w')
      → Judgement w (cas', w')
  judge_node-Judgement w v w' cas' stored (ok crd) reads ready same made h =
      kinds w v w' cas' crd (rt_claims cas)
        (record { stored = stored; reads = reads; ready = ready; made = made; same = same }) refl h
  judge_node-Judgement w v w' cas' stored (err x) reads ready same made h = absurd (cc)
  judge_node-Judgement w v w' cas' stored (panic x) reads ready same made h = absurd (cc)

  by_status :
      (w v w' : World S) (cas' : List ClaimAllocation) (stored : NodeAllocationState) (b : Bool)
      → Client.get clients.nas (new_crd clients namespace node) w.server ≡ (ok stored, v.server)
      → (stored.status == status_ready) ≡ b
      → v.pending ≡ w.pending
      → (if not b
          then (ok (mark_unsuitable node cas), v)
          else judge_node clients namespace range stored pod cas node v)
        ≡ (ok cas', w')
      → Judgement w (cas', w')
  unfolding judge_node
  by_status w v w' cas' stored true reads ready same h =
      judge_node-Judgement w v w' cas' stored (make_utils (make_claims stored)) reads ready same
        refl h
  by_status w v w' cas' stored false reads ready same h = inl (sym (ap (cas_of cas') h))
    where
      cas_of :
          List ClaimAllocation → Outcome (List ClaimAllocation) × World S → List ClaimAllocation
      cas_of d (ok c, u) = c
      cas_of d r = d

  by_read :
      (w w' : World S) (cas' : List ClaimAllocation) (r : Outcome NodeAllocationState × S)
      → Client.get clients.nas (new_crd clients namespace node) w.server ≡ r
      → after_get clients namespace range pod cas node (r.0, record w { server = r.1 })
        ≡ (ok cas', w')
      → Judgement w (cas', w')
  by_read w w' cas' (ok stored, s) e h =
      by_status w (record w { server = s }) w' cas' stored (stored.status == status_ready) e refl
        refl h
  by_read w w' cas' (err x, s) e h =
      inl (let same : mark_unsuitable node cas ≡ cas' = cc in sym same)
  by_read w w' cas' (panic x, s) e h = absurd (cc)

  -- Whatever the server answers and whatever is pending: when the judgement on a node returns no
  -- error, every claim of the pod is marked as unsuitable for it; or none is, and then the node's
  -- record was read and is ready, all claims are real-time claims, and each is held by the record,
  -- counting what was pending there, or is pending on the node with as many CPUs as it asks for.
  pub unsuitable_node-Judgement :
      (w w' : World S) (cas' : List ClaimAllocation)
      → unsuitable_node clients namespace range pod cas node w ≡ (ok cas', w')
      → Judgement w (cas', w')
  unfolding unsuitable_node
  unsuitable_node-Judgement w w' cas' h =
      by_read w w' cas' (Client.get clients.nas (new_crd clients namespace node) w.server) refl h
