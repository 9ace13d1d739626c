-- ===== src/Rt/Pods.antt =====
-- rt.go, allocate: the loop over the claims of a pod.
use dra_rt_driver.Prelude.{
  ℕ, ◌^◌, ◌<◌, ◌≡◌, ◌⊎◌, inl, inr, refl, sym, ◌∙◌, String, string_key, Option, none, some, List, [],
  ◌∷◌, length, All, All-map_of, arith,
}
use dra_rt_driver.Prelude.Int.{ℤ, pos, pos_part}
use dra_rt_driver.Prelude.GoMap.{lookup, insert, entries, HasDistinctKeys}
use dra_rt_driver.Prelude.Outcome.{ok, ◌>>=◌}
use dra_rt_driver.Nas.{AllocatedRtCpu, AllocatedUtil, MappedUtil, NodeAllocationState}
use dra_rt_driver.Nas.Load.{IsSound, share, claim_util-share}
use dra_rt_driver.Params.{RtClaimParametersSpec}
use dra_rt_driver.Resource.{ClaimAllocation, rt_claim}
use dra_rt_driver.Partition.Fits.{IsModest, Picked, ModestEntries}
use dra_rt_driver.Partition.Choice.{
  IsDistinct, rooms, cpu_partitioning-Choice, cpu_partitioning_sound, cpu_partitioning_refuses,
}
use dra_rt_driver.Rt.Propose.{
  RangeOrder, Proposal, Picks, append_devices, take_found, claim_params, propose_claim,
  propose_claims,
}
use dra_rt_driver.Rt.Within.{IsWithin, IsWithinEntry}
use dra_rt_driver.Rt.Capacity.{Takes, take_cpus-Takes}

-- Parameters that the arithmetic treats exactly.
pub record IsSoundParams (params : RtClaimParametersSpec) : Type 0 where
  pub sound : IsSound params.runtime params.period
  pub modest : share params.runtime params.period < 2 ^ 61

-- A claim that the function can serve: it holds real-time parameters that are sound.
pub record IsServed (ca : ClaimAllocation) : Type 0 where
  pub params : RtClaimParametersSpec
  pub is_rt : ca.claim_parameters ≡ rt_claim params
  pub sound : IsSoundParams params

-- The claims in the record hold reservations.
pub record HoldsRt (crd : NodeAllocationState) : Type 0 where
  pub at :
      (uid : String)
      → (lookup uid (entries crd.spec.allocated_claims) ≡ none)
        ⊎ ((rt : AllocatedRtCpu) × (lookup uid (entries crd.spec.allocated_claims)
              ≡ some (record { rt_cpu = some rt })))

IsWithinEntry-IsModest : (e : String × AllocatedUtil) → IsWithinEntry e → IsModest e.1.util
IsWithinEntry-IsModest e w =
    rw w.is_used (record { above = omega (arith, w.within); below = omega arith })

-- What a claim that is new to the node is given.
pub record Gives (params : RtClaimParametersSpec) (uid : String) (s t : Proposal) : Type 0 where
  pub cpus : List String
  pub picks : Picks
  pub takes :
      Takes params cpus (record { devices = []; util = s.util; available = s.available }) picks
  pub count : length cpus ≡ pos_part params.count
  pub distinct : IsDistinct cpus
  pub allocated : t.allocated ≡ insert uid picks.devices s.allocated
  pub util : t.util ≡ picks.util

module _ (range : RangeOrder) (left : ℕ) (m : MappedUtil) (within : IsWithin m) where
  order-ModestEntries : ModestEntries (range.order left m)
  order-ModestEntries = range.delivers left m _ (All-map_of IsWithinEntry-IsModest m within.all)

  order-HasDistinctKeys : HasDistinctKeys (range.order left m)
  order-HasDistinctKeys = range.distinct left m within.distinct

  order-Picked : (req : ℤ) (id : String) → Picked (range.order left m) req id → Picked m req id
  order-Picked req id p = record {
    info = p.info;
    found = sym (range.same left m id within.distinct) ∙ p.found;
    room = p.room;
  }

take_found-Gives :
    (uid : String) (params : RtClaimParametersSpec) (cpus : List String) (s : Proposal)
    → IsWithin s.util
    → length cpus ≡ pos_part params.count
    → IsDistinct cpus
    → All (Picked s.util (pos (share params.runtime params.period))) cpus
    → (t : Proposal) × (take_found uid params (pos (share params.runtime params.period)) (ok cpus) s
        ≡ ok (some t))
      × Gives params uid s t
unfolding take_found
take_found-Gives uid params cpus s w count d p =
    let (picks, run, takes) =
      take_cpus-Takes params cpus (record { devices = []; util = s.util; available = s.available })
        w d p in
    (
      record {
        allocated = insert uid picks.devices s.allocated;
        util = picks.util;
        available = picks.available;
      },
      rw (← count, run) refl,
      record {
        cpus = cpus;
        picks = picks;
        takes = takes;
        count = count;
        distinct = d;
        allocated = refl;
        util = refl;
      },
    )

-- On a node whose CPUs are all below 950 thousandths, a claim with sound parameters that the record
-- does not hold yet gets as many CPUs as it asks for, all different, each below 950 thousandths with
-- the claim's share on top; or the pod is refused, and then fewer CPUs have room.
pub propose_claim_new :
    (range : RangeOrder) (crd : NodeAllocationState) (left : ℕ) (ca : ClaimAllocation)
    (s : Proposal) (served : IsServed ca)
    → lookup ca.claim.uid (entries crd.spec.allocated_claims) ≡ none
    → IsWithin s.util
    → ((t : Proposal) × (propose_claim range crd left ca s ≡ ok (some t))
        × Gives served.params ca.claim.uid s t)
      ⊎ ((propose_claim range crd left ca s ≡ ok none)
          × (rooms
                (range.order left s.util)
                (pos (share served.params.runtime served.params.period))
              < pos_part served.params.count))
unfolding propose_claim claim_params
propose_claim_new range crd left ca s v new w =
    let params = v.params in
    let used = share params.runtime params.period in
    let spec = range.order left s.util in
    let modest = order-ModestEntries range left s.util w in
    let keys = order-HasDistinctKeys range left s.util w in
    let small : IsModest (pos used) = record { above = v.sound.modest; below = omega arith } in
    elim (cpu_partitioning-Choice spec (pos used) params.count "worstFit") [
      | inl (cpus, run, _) ↦
          let (count, picked, d) =
            cpu_partitioning_sound spec (pos used) params.count "worstFit" keys modest small cpus
              run in
          let (t, run', g) =
            take_found-Gives ca.claim.uid params cpus s w count d
              (All-map_of (order-Picked range left s.util w (pos used)) cpus picked) in
          inl (
            t,
            rw
                (
                  new,
                  propose_claim,
                  v.is_rt,
                  claim_util-share params.runtime params.period v.sound.sound,
                  ◌>>=◌,
                  run,
                )
                run',
            g,
          )
      | inr (refused, _) ↦ inr (
        rw
            (
              new,
              propose_claim,
              v.is_rt,
              claim_util-share params.runtime params.period v.sound.sound,
              ◌>>=◌,
              refused,
            )
            (unfold take_found in refl),
        (cpu_partitioning_refuses spec (pos used) params.count "worstFit" keys modest small).0
            refused,
      )
    ]

-- What is left of a proposal when the function has returned.
abbrev pub KeepsWithin : Option Proposal → Type 0
KeepsWithin none = Unit
KeepsWithin (some s) = IsWithin s.util

propose_claim-KeepsWithin :
    (range : RangeOrder) (crd : NodeAllocationState) (left : ℕ) (ca : ClaimAllocation)
    (s : Proposal)
    → HoldsRt crd
    → IsServed ca
    → IsWithin s.util
    → (r : Option Proposal) × (propose_claim range crd left ca s ≡ ok r) × KeepsWithin r
propose_claim-KeepsWithin range crd left ca s holds v w = elim (holds.at ca.claim.uid) [
  | inl new ↦ elim (propose_claim_new range crd left ca s v new w) [
    | inl (t, run, g) ↦ (some t, run, rw g.util g.takes.within)
    | inr (run, _) ↦ (none, run, tt)
  ]
  | inr (rt, e) ↦ (
    some (record s { allocated = append_devices ca.claim.uid rt.cpuset s.allocated }),
    unfold propose_claim in (rw (e, propose_claim) refl),
    w,
  )
]

-- Whatever the claims of the pod, and whatever the orders of iteration: with all
-- CPUs below 950 thousandths and a record that holds real-time claims only, for claims with sound
-- parameters, the loop ends with no panic, and the utilisation that it arrives at has every CPU below
-- 950 thousandths again, unless the pod is refused.
pub propose_claims-KeepsWithin :
    (range : RangeOrder) (crd : NodeAllocationState) (cas : List ClaimAllocation) (s : Proposal)
    → HoldsRt crd
    → All IsServed cas
    → IsWithin s.util
    → (r : Option Proposal) × (propose_claims range crd cas s ≡ ok r) × KeepsWithin r
unfolding propose_claims
propose_claims-KeepsWithin range crd [] s holds v w = (some s, refl, w)
propose_claims-KeepsWithin range crd (ca ∷ cas) s holds v w =
    let (r, run, k) = propose_claim-KeepsWithin range crd (length cas) ca s holds v.0 w in
    go r run k (λ s' w'. propose_claims-KeepsWithin range crd cas s' holds v.1 w')
  where
    go :
        (r : Option Proposal)
        → propose_claim range crd (length cas) ca s ≡ ok r
        → KeepsWithin r
        → ((s' : Proposal)
            → IsWithin s'.util
            → (r' : Option Proposal) × (propose_claims range crd cas s' ≡ ok r') × KeepsWithin r')
        → (r' : Option Proposal) × (propose_claims range crd (ca ∷ cas) s ≡ ok r') × KeepsWithin r'
    go none run k ih = (none, rw (run, ◌>>=◌) refl, tt)
    go (some s') run k ih = let (r', run', k') = ih s' k in (r', rw (run, ◌>>=◌) run', k')
