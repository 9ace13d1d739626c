-- ===== src/Controller/Nodes/Verdicts.antt =====
-- driver.go, UnsuitableNodes: what the loop over the nodes makes of the claims.
use dra_rt_driver.Prelude.{
  ◌≡◌, inl, inr, refl, sym, ap, ◌∙◌, subst, String, List, [], ◌∷◌, ◌++◌, map,
}
use mathlib.Core.List.{append-nil, append_assoc}
use dra_rt_driver.Prelude.Outcome.{Outcome, ok, processing_node}
use dra_rt_driver.Prelude.Exec
use dra_rt_driver.Prelude.Exec.{Exec, on_error-ok, continue-ok}
use dra_rt_driver.Resource.{ClaimAllocation, Pod}
use dra_rt_driver.Rt.{mark_unsuitable}
use dra_rt_driver.Rt.Propose.{RangeOrder}
use dra_rt_driver.Controller.{Clientset, World}
use dra_rt_driver.Controller.Record.{unique}
use dra_rt_driver.Controller.Unique.{IsUniqueOf, unique-IsUniqueOf}
use dra_rt_driver.Controller.Nodes.{unsuitable_node, unsuitable_loop, unsuitable_nodes}
use dra_rt_driver.Controller.Nodes.Judging.{FitsNode, unsuitable_node-Judgement}

-- The claims with nodes appended to those that do not fit them.
abbrev with_nodes : List String → List ClaimAllocation → List ClaimAllocation
with_nodes ms cas =
    map (λ (ca : ClaimAllocation). record ca { unsuitable_nodes = ca.unsuitable_nodes ++ ms }) cas

abbrev unique_of : ClaimAllocation → ClaimAllocation
unique_of ca = record ca { unsuitable_nodes = unique ca.unsuitable_nodes }

-- Claim by claim: only the nodes that do not fit change, to those of before and `marked`, each once.
pub data Settled (marked : List String) : List ClaimAllocation → List ClaimAllocation → Type 0 where
  no_claim : Settled marked [] []
  claim :
      {ca : ClaimAllocation} {cas cas' : List ClaimAllocation} (nodes : List String)
      → IsUniqueOf (ca.unsuitable_nodes ++ marked) nodes
      → Settled marked cas cas'
      → Settled marked (ca ∷ cas) (record ca { unsuitable_nodes = nodes } ∷ cas')

unique-Settled :
    (marked : List String) (cas : List ClaimAllocation)
    → Settled marked cas (map unique_of (with_nodes marked cas))
unique-Settled marked [] = no_claim
unique-Settled marked (ca ∷ cas) =
    claim (unique (ca.unsuitable_nodes ++ marked))
      (unique-IsUniqueOf (ca.unsuitable_nodes ++ marked)) (unique-Settled marked cas)

with_nodes-none : (cas : List ClaimAllocation) → with_nodes [] cas ≡ cas
with_nodes-none [] = refl
with_nodes-none (ca ∷ cas) =
    ap (λ l. record ca { unsuitable_nodes = l } ∷ with_nodes [] cas)
      (append-nil ca.unsuitable_nodes)
    ∙ ap (λ r. ca ∷ r) (with_nodes-none cas)

with_nodes-mark :
    (node : String) (ms : List String) (cas : List ClaimAllocation)
    → with_nodes ms (mark_unsuitable node cas) ≡ with_nodes (node ∷ ms) cas
unfolding mark_unsuitable
with_nodes-mark node ms [] = refl
with_nodes-mark node ms (ca ∷ cas) =
    ap (λ l. record ca { unsuitable_nodes = l } ∷ with_nodes ms (mark_unsuitable node cas))
      (append_assoc ca.unsuitable_nodes (node ∷ []) ms)
    ∙ ap (λ r. record ca { unsuitable_nodes = ca.unsuitable_nodes ++ node ∷ ms } ∷ r)
        (with_nodes-mark node ms cas)

module _ {S : Type 0} (clients : Clientset S) (namespace : String) (range : RangeOrder)
    (pod : Pod) where
  -- The verdicts on the nodes one after the other: each is marked, or fits the claims at its turn.
  pub data Verdicts : List ClaimAllocation → World S → List String → List String → Type 1 where
    done : {cas : List ClaimAllocation} {w : World S} → Verdicts cas w [] []
    marks :
        {cas : List ClaimAllocation} {w : World S} {node : String} {nodes marked : List String}
        (v : World S)
        → v ≡ (unsuitable_node clients namespace range pod cas node w).1
        → Verdicts (mark_unsuitable node cas) v nodes marked
        → Verdicts cas w (node ∷ nodes) (node ∷ marked)
    fits :
        {cas : List ClaimAllocation} {w : World S} {node : String} {nodes marked : List String}
        (v : World S)
        → v ≡ (unsuitable_node clients namespace range pod cas node w).1
        → FitsNode clients namespace range pod cas node w v.pending
        → Verdicts cas v nodes marked
        → Verdicts cas w (node ∷ nodes) marked

  unsuitable_loop-Verdicts :
      (nodes : List String) (cas cas' : List ClaimAllocation) (w w' : World S)
      → unsuitable_loop clients namespace range pod nodes cas w ≡ (ok cas', w')
      → (marked : List String) × Verdicts cas w nodes marked × (cas' ≡ with_nodes marked cas)
  unfolding unsuitable_loop
  unsuitable_loop-Verdicts [] cas cas' w w' h =
      let same : cas ≡ cas' = cc in ([], done, sym same ∙ sym (with_nodes-none cas))
  unsuitable_loop-Verdicts (node ∷ nodes) cas cas' w w' h =
      let (c, v, judged, rest) =
        on_error-ok processing_node (unsuitable_node clients namespace range pod cas node)
          (unsuitable_loop clients namespace range pod nodes) w w' cas' h in
      let (marked, verdicts, e) = unsuitable_loop-Verdicts nodes c cas' v w' rest in
      let after : v ≡ (unsuitable_node clients namespace range pod cas node w).1 =
        sym (ap (λ (r : Outcome (List ClaimAllocation) × World S). r.1) judged) in
      elim (unsuitable_node-Judgement clients namespace range pod cas node w v c judged) [
        | inl unfit ↦ (
          node ∷ marked,
          marks v after (subst (λ l. Verdicts l v nodes marked) unfit verdicts),
          e ∙ ap (with_nodes marked) unfit ∙ with_nodes-mark node marked cas,
        )
        | inr (same, fit) ↦ (
          marked,
          fits v after fit (subst (λ l. Verdicts l v nodes marked) same verdicts),
          e ∙ ap (with_nodes marked) same,
        )
      ]

  -- When UnsuitableNodes returns no error, each of the nodes that it was asked about is marked, or
  -- fitted the pod when its turn came; the marked nodes are added to the unsuitable nodes of every
  -- claim of the pod, where each node then stands once, and the claims keep all else that they had.
  pub unsuitable_nodes-Settled :
      (nodes : List String) (cas cas' : List ClaimAllocation) (w w' : World S)
      → unsuitable_nodes clients namespace range pod cas nodes w ≡ (ok cas', w')
      → (marked : List String) × Verdicts cas w nodes marked × Settled marked cas cas'
  unfolding unsuitable_nodes
  unsuitable_nodes-Settled nodes cas cas' w w' h =
      let (c, v, looped, rest) =
        continue-ok (unsuitable_loop clients namespace range pod nodes cas)
          (λ c. Exec.pure (map unique_of c)) w w' cas' h in
      let (marked, verdicts, e) = unsuitable_loop-Verdicts nodes cas c w v looped in
      let after : map unique_of c ≡ cas' = cc in
      (
        marked,
        verdicts,
        subst (Settled marked cas) (ap (map unique_of) (sym e) ∙ after) (unique-Settled marked cas),
      )
