-- ===== src/Rt/Reserving.antt =====
-- rt.go, allocate: the utilisation at which the loop over the claims of a pod arrives is that of the
-- start and the load of what it gives to the claims that are new to the node.
use dra_rt_driver.Prelude.{
  ℕ, ◌+◌, ◌≡◌, ◌≢◌, inl, inr, refl, sym, ap, ◌∙◌, String, string_key, Option, none, some, List, [],
  ◌∷◌, length, All, AllPairs, arith,
}
use dra_rt_driver.Prelude.Int.{pos, pos_part}
use dra_rt_driver.Prelude.Decimal.{itoa, atoi}
use dra_rt_driver.Prelude.GoMap.{GoMap, lookup, entries, lookup-insert_hit, lookup-insert_miss}
use dra_rt_driver.Prelude.Outcome.{ok, ◌>>=◌}
use dra_rt_driver.Nas.{AllocatedCpu, AllocatedCpuset, NodeAllocationState, util_at}
use dra_rt_driver.Nas.Load.{load}
use dra_rt_driver.Params.{RtClaimParametersSpec}
use dra_rt_driver.Resource.{ClaimAllocation}
use dra_rt_driver.Rt.Propose.{RangeOrder, Proposal, append_devices, propose_claim, propose_claims}
use dra_rt_driver.Rt.Within.{IsWithin, IsSafeCpu}
use dra_rt_driver.Rt.Pods.{IsServed, IsSoundParams, HoldsRt, Gives, propose_claim_new}

abbrev pub unheld : String → Option AllocatedCpuset → List AllocatedCpu → ℕ
unheld k (some held) cs = 0
unheld k none cs = load k cs

-- What a proposal puts on a CPU for the claims of a pod that are new to the node.
unfoldable pub new_load :
    String
    → GoMap String AllocatedCpuset
    → GoMap String (List AllocatedCpu)
    → List ClaimAllocation
    → ℕ
new_load k held allocated [] = 0
new_load k held allocated (ca ∷ cas) =
    unheld k (lookup ca.claim.uid held) (entries (lookup ca.claim.uid allocated))
    + new_load k held allocated cas

abbrev pub IsNew : NodeAllocationState → ClaimAllocation → Type 0
IsNew crd ca = lookup ca.claim.uid (entries crd.spec.allocated_claims) ≡ none

-- No claim stands twice in the list.
abbrev pub HasDistinctClaims : List ClaimAllocation → Type 0
HasDistinctClaims cas = AllPairs (λ a b. a.claim.uid ≢ b.claim.uid) cas

module _ (crd : NodeAllocationState) where
  record ReservesOne (ca : ClaimAllocation) (s t : Proposal) : Type 0 where
    within : IsWithin t.util
    adds :
        (k : String) (u : ℕ)
        → util_at k s.util ≡ pos u
        → util_at k t.util
          ≡ pos (
              u
              + unheld k
                  (lookup ca.claim.uid (entries crd.spec.allocated_claims))
                  (entries (lookup ca.claim.uid t.allocated)))
    same : (j : String) → j ≢ ca.claim.uid → lookup j t.allocated ≡ lookup j s.allocated
    safe : IsNew crd ca → All IsSafeCpu (entries (lookup ca.claim.uid t.allocated))

  -- What the loop over the claims leaves.
  pub record Reserves (cas : List ClaimAllocation) (s t : Proposal) : Type 0 where
    pub within : IsWithin t.util
    pub adds :
        (k : String) (u : ℕ)
        → util_at k s.util ≡ pos u
        → util_at k t.util
          ≡ pos (u + new_load k (entries crd.spec.allocated_claims) t.allocated cas)
    pub same :
        (j : String)
        → All (λ (ca : ClaimAllocation). j ≢ ca.claim.uid) cas
        → lookup j t.allocated ≡ lookup j s.allocated
    pub safe :
        All (λ ca. IsNew crd ca → All IsSafeCpu (entries (lookup ca.claim.uid t.allocated))) cas

  abbrev pub ReservesOrRefuses : List ClaimAllocation → Proposal → Option Proposal → Type 0
  ReservesOrRefuses cas s none = Unit
  ReservesOrRefuses cas s (some t) = Reserves cas s t

  abbrev ReservesOneOrRefuses : ClaimAllocation → Proposal → Option Proposal → Type 0
  ReservesOneOrRefuses ca s none = Unit
  ReservesOneOrRefuses ca s (some t) = ReservesOne ca s t

lookup-append_devices :
    (uid j : String) (ds : List AllocatedCpu) (m : GoMap String (List AllocatedCpu))
    → j ≢ uid
    → lookup j (append_devices uid ds m) ≡ lookup j m
unfolding append_devices
lookup-append_devices uid j [] m n = refl
lookup-append_devices uid j (d ∷ ds) m n =
    lookup-append_devices uid j ds _ n ∙ lookup-insert_miss uid j _ m n

IsSafeCpu-all :
    (params : RtClaimParametersSpec) (cs : List AllocatedCpu)
    → IsSoundParams params
    → All (λ (d : AllocatedCpu). (d.runtime ≡ params.runtime) × (d.period ≡ params.period)) cs
    → All (λ (d : AllocatedCpu). itoa (atoi (itoa d.id)) ≡ itoa d.id) cs
    → All IsSafeCpu cs
IsSafeCpu-all params [] s h c = tt
IsSafeCpu-all params (d ∷ cs) s h c = (
  record { sound = rw (h.0.0, h.0.1) s.sound; canonical = c.0 },
  IsSafeCpu-all params cs s h.1 c.1,
)

Gives-ReservesOne :
    (crd : NodeAllocationState) (ca : ClaimAllocation) (v : IsServed ca) (s t : Proposal)
    → IsNew crd ca
    → Gives v.params ca.claim.uid s t
    → ReservesOne crd ca s t
Gives-ReservesOne crd ca v s t new g =
    let hit : lookup ca.claim.uid t.allocated ≡ some g.takes.reserved =
      ap (λ m. lookup ca.claim.uid m) g.allocated
      ∙ lookup-insert_hit ca.claim.uid g.picks.devices s.allocated
      ∙ ap some g.takes.devices in
    record {
      within = rw g.util g.takes.within;
      adds = λ k u e.
          let (w, f, l) = g.takes.bears.at k in
          rw (g.util, new, hit)
            (g.takes.adds.at k u e (let q : u ≡ w = ap pos_part (sym e ∙ f) in omega arith));
      same =
          λ j n. rw g.allocated (lookup-insert_miss ca.claim.uid j g.picks.devices s.allocated n);
      safe = λ n.
          rw hit (IsSafeCpu-all v.params g.takes.reserved v.sound g.takes.sound g.takes.canonical);
    }

propose_claim-ReservesOne :
    (range : RangeOrder) (crd : NodeAllocationState) (left : ℕ) (ca : ClaimAllocation)
    (s : Proposal)
    → HoldsRt crd
    → IsServed ca
    → IsWithin s.util
    → (r : Option Proposal) × (propose_claim range crd left ca s ≡ ok r)
      × ReservesOneOrRefuses crd ca s r
propose_claim-ReservesOne range crd left ca s holds v w = elim (holds.at ca.claim.uid) [
  | inl new ↦ elim (propose_claim_new range crd left ca s v new w) [
    | inl (t, run, g) ↦ (some t, run, Gives-ReservesOne crd ca v s t new g)
    | inr (run, _) ↦ (none, run, tt)
  ]
  | inr (rt, e) ↦ (
    some (record s { allocated = append_devices ca.claim.uid rt.cpuset s.allocated }),
    unfold propose_claim in (rw (e, propose_claim) refl),
    record {
      within = w;
      adds = λ k u f. rw e (f ∙ ap pos (omega arith));
      same = λ j n. lookup-append_devices ca.claim.uid j rt.cpuset s.allocated n;
      safe = λ n. absurd (cc);
    },
  )
]

Reserves-cons :
    (crd : NodeAllocationState) (ca : ClaimAllocation) (cas : List ClaimAllocation)
    (s t u : Proposal)
    → All (λ (b : ClaimAllocation). ca.claim.uid ≢ b.claim.uid) cas
    → ReservesOne crd ca s t
    → Reserves crd cas t u
    → Reserves crd (ca ∷ cas) s u
unfolding new_load
Reserves-cons crd ca cas s t u d one rest =
    let kept = rest.same ca.claim.uid d in
    record {
      within = rest.within;
      adds = λ k n e. rest.adds k _ (one.adds k n e) ∙ ap pos (rw kept (omega arith));
      same = λ j n. rest.same j n.1 ∙ one.same j n.0;
      safe = (λ n. rw kept (one.safe n), rest.safe);
    }

pub propose_claims-Reserves :
    (range : RangeOrder) (crd : NodeAllocationState) (cas : List ClaimAllocation) (s : Proposal)
    → HoldsRt crd
    → All IsServed cas
    → HasDistinctClaims cas
    → IsWithin s.util
    → (r : Option Proposal) × (propose_claims range crd cas s ≡ ok r)
      × ReservesOrRefuses crd cas s r
unfolding propose_claims
propose_claims-Reserves range crd [] s holds v d w = (
  some s,
  refl,
  record {
    within = w;
    adds = λ k u e. unfold new_load in (e ∙ ap pos (omega arith));
    same = λ j n. refl;
    safe = tt;
  },
)
propose_claims-Reserves range crd (ca ∷ cas) s holds v d w =
    let (r, run, k) = propose_claim-ReservesOne range crd (length cas) ca s holds v.0 w in
    go r run k (λ s' w'. propose_claims-Reserves range crd cas s' holds v.1 d.1 w')
  where
    go :
        (r : Option Proposal)
        → propose_claim range crd (length cas) ca s ≡ ok r
        → ReservesOneOrRefuses crd ca s r
        → ((s' : Proposal)
            → IsWithin s'.util
            → (r' : Option Proposal) × (propose_claims range crd cas s' ≡ ok r')
              × ReservesOrRefuses crd cas s' r')
        → (r' : Option Proposal) × (propose_claims range crd (ca ∷ cas) s ≡ ok r')
          × ReservesOrRefuses crd (ca ∷ cas) s r'
    go none run k ih = (none, rw (run, ◌>>=◌) refl, tt)
    go (some s') run k ih =
        let (r', run', k') = ih s' k.within in (r', rw (run, ◌>>=◌) run', joined s' r' k k')
      where
        joined :
            (s' : Proposal) (r' : Option Proposal)
            → ReservesOne crd ca s s'
            → ReservesOrRefuses crd cas s' r'
            → ReservesOrRefuses crd (ca ∷ cas) s r'
        joined s' none one rest = tt
        joined s' (some u) one rest = Reserves-cons crd ca cas s s' u d.0 one rest
