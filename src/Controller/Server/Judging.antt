-- ===== src/Controller/Server/Judging.antt =====
-- driver.go, unsuitableNode: it keeps every stored record, whatever the server answers.
use dra_rt_driver.Prelude.{
  ◌≡◌, inl, inr, sym, ◌∙◌, ap, subst, String, string_key, ◌==◌, Bool-cases, some, List, [], ◌∷◌,
  All,
}
use mathlib.Core.Bool.{false≢true}
use dra_rt_driver.Prelude.Outcome
use dra_rt_driver.Prelude.Outcome.{Outcome, ok, err, panic, bind-ok, ok_injective, processing_kind}
use dra_rt_driver.Prelude.Exec
use dra_rt_driver.Prelude.Exec.{Exec}
use dra_rt_driver.Prelude.Meets.{Meets, Meets-kept, on_error-Meets, lift-Meets}
use dra_rt_driver.Nas.{NodeAllocationState, status_ready}
use dra_rt_driver.Pending.{PerNodeAllocatedClaims}
use dra_rt_driver.Client.Storing.{IsStore}
use dra_rt_driver.Resource.{ClaimAllocation, Pod}
use dra_rt_driver.Rt
use dra_rt_driver.Rt.Propose.{RangeOrder}
use dra_rt_driver.Rt.Pods.{IsServed}
use dra_rt_driver.Rt.Covered.{IsCovered}
use dra_rt_driver.Rt.Reserving.{HasDistinctClaims}
use dra_rt_driver.Rt.Upkeep.{unsuitable_node-IsCovered}
use dra_rt_driver.Rt.Elsewhere.{Shrinks-IsCovered, unsuitable_node-Shrinks}
use dra_rt_driver.Controller.{Clientset, World}
use dra_rt_driver.Controller.Record.{make_claims, make_utils}
use dra_rt_driver.Controller.Nodes.{
  type_of_claim, rt_claims, judge_node, unsuitable_node, after_get, keep_nodes,
}
use dra_rt_driver.Controller.Server.{IsKept, AllKept}
use dra_rt_driver.Controller.Server.Kept.{IsKept-made, IsKept-pending}
use dra_rt_driver.Controller.Server.Calls.{Got, get-Meets}

rt_claims-same : (cas rtcas : List ClaimAllocation) → rt_claims cas ≡ ok rtcas → rtcas ≡ cas
unfolding rt_claims
rt_claims-same [] rtcas h = sym (ok_injective h)
rt_claims-same (ca ∷ cas) rtcas h = elim (Bool-cases (type_of_claim ca.claim_parameters)) [
  | inl rt ↦
      let (rest, e, r) = bind-ok (rt_claims cas) (λ rest. ok (ca ∷ rest)) rtcas (rw rt at h) in
      sym (ok_injective r) ∙ ap (λ l. ca ∷ l) (rt_claims-same cas rest e)
  | inr other ↦
      absurd
        (let r : err (Outcome.failed Outcome.unknown_claim_kind) ≡ ok rtcas = rw other at h in cc)
]

module _ {S : Type 0} (clients : Clientset S) (namespace : String)
    (store : IsStore clients.nas namespace) (range : RangeOrder) (pod : Pod)
    (cas : List ClaimAllocation) (node : String) (served : All IsServed cas)
    (distinct : HasDistinctClaims cas) where
  -- The node that is judged, and the others.
  judged-AllKept :
      (stored crd : NodeAllocationState) (w : World S)
      (r : PerNodeAllocatedClaims × List ClaimAllocation)
      → Got clients namespace store node stored w
      → make_utils (make_claims stored) ≡ ok crd
      → Rt.unsuitable_node range w.pending crd pod cas cas node ≡ ok r
      → AllKept store.shown (record w { pending = r.0 })
  judged-AllKept stored crd w r g made h n c shown = elim (Bool-cases (node == n)) [
    | inl hit ↦
        let here : node ≡ n = (string_key.same_iff node n).0 hit in
        let same : c ≡ stored =
          g.only c (subst (λ m. store.shown w.server m ≡ some c) (sym here) shown) in
        let (q, e, covered) =
          unsuitable_node-IsCovered range w.pending crd pod cas cas node
            (IsKept-made node stored crd w.pending g.kept made) served distinct in
        let after : q.0 ≡ r.0 =
          ap (λ (x : PerNodeAllocatedClaims × List ClaimAllocation). x.0)
            (ok_injective (sym e ∙ h)) in
        subst (λ m. IsKept m c r.0) here
          (subst (λ x. IsKept node x r.0) (sym same)
            (record {
              made = crd;
              is_made = made;
              covered = subst (IsCovered node crd) after covered;
              charged = g.kept.charged;
            }))
    | inr miss ↦
        IsKept-pending n c w.pending r.0
          (λ x i.
            Shrinks-IsCovered n x w.pending r.0
              (unsuitable_node-Shrinks n node
                (λ q. false≢true (sym miss ∙ (string_key.same_iff node n).1 (sym q))) range
                w.pending crd pod cas cas r h)
              i)
          (g.all n c shown)
  ]

  keep_nodes-AllKept :
      (stored crd : NodeAllocationState) (w : World S)
      (o : Outcome (PerNodeAllocatedClaims × List ClaimAllocation))
      → Got clients namespace store node stored w
      → make_utils (make_claims stored) ≡ ok crd
      → Rt.unsuitable_node range w.pending crd pod cas cas node ≡ o
      → Meets (AllKept store.shown) (λ a v. AllKept store.shown v) (keep_nodes o w)
  keep_nodes-AllKept stored crd w (ok r) g made h = judged-AllKept stored crd w r g made h
  keep_nodes-AllKept stored crd w (err x) g made h = g.all
  keep_nodes-AllKept stored crd w (panic x) g made h = g.all

  judge_node-Meets :
      (stored : NodeAllocationState) (w : World S)
      → Got clients namespace store node stored w
      → Meets
          (AllKept store.shown)
          (λ a v. AllKept store.shown v)
          (judge_node clients namespace range stored pod cas node w)
  unfolding judge_node
  judge_node-Meets stored w g =
      lift-Meets (AllKept store.shown) (λ a v. AllKept store.shown v)
        (make_utils (make_claims stored))
        (λ crd. Exec.◌>>=◌ (Exec.lift (rt_claims cas)) λ rtcas.
          Exec.on_error processing_kind (λ (u : World S).
            keep_nodes (Rt.unsuitable_node range u.pending crd pod rtcas cas node) u))
        w g.all
        (λ crd made.
          lift-Meets (AllKept store.shown) (λ a v. AllKept store.shown v) (rt_claims cas)
            (λ rtcas. Exec.on_error processing_kind (λ (u : World S).
              keep_nodes (Rt.unsuitable_node range u.pending crd pod rtcas cas node) u))
            w g.all
            (λ rtcas e.
              on_error-Meets (AllKept store.shown) (λ a v. AllKept store.shown v) processing_kind
                (λ (u : World S).
                  keep_nodes (Rt.unsuitable_node range u.pending crd pod rtcas cas node) u)
                w
                (keep_nodes-AllKept stored crd w
                  (Rt.unsuitable_node range w.pending crd pod rtcas cas node) g made
                  (ap (λ l. Rt.unsuitable_node range w.pending crd pod l cas node)
                    (sym (rt_claims-same cas rtcas e))))))

  after_get-AllKept :
      (r : Outcome NodeAllocationState × World S)
      → Meets (AllKept store.shown) (Got clients namespace store node) r
      → AllKept store.shown (after_get clients namespace range pod cas node r).1
  after_get-AllKept (ok stored, w) g = elim (Bool-cases (stored.status == status_ready)) [
    | inl ready ↦ rw ready (Meets-kept (AllKept store.shown) _ (judge_node-Meets stored w g))
    | inr unready ↦ rw unready g.all
  ]
  after_get-AllKept (err x, w) all = all
  after_get-AllKept (panic x, w) all = all

  -- `unsuitableNode`, whatever it returns.
  pub unsuitable_node-AllKept :
      (w : World S)
      → AllKept store.shown w
      → AllKept store.shown (unsuitable_node clients namespace range pod cas node w).1
  unfolding unsuitable_node
  unsuitable_node-AllKept w all = after_get-AllKept _ (get-Meets clients namespace store node w all)
