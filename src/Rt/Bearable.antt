-- ===== src/Rt/Bearable.antt =====
-- rt.go, allocate: what is proposed is what the CPUs of the node can bear.
use dra_rt_driver.Prelude.{
  ◌+◌, ◌≡◌, ◌⊎◌, refl, sym, ap, ◌∙◌, subst, String, string_key, ◌==◌, Bool-cases, inl, inr, Option,
  none, some, List, [], ◌∷◌, All, arith, Option-cases,
}
use mathlib.Core.Bool.{false≢true}
use dra_rt_driver.Prelude.Int.{pos_part}
use dra_rt_driver.Prelude.GoMap.{
  GoMap, lookup, insert, entries, lookup-insert_hit, lookup-insert_miss, lookup-Absent,
  HasDistinctKeys,
}
use dra_rt_driver.Prelude.Outcome.{ok, ◌>>=◌}
use dra_rt_driver.Nas.{AllocatedCpuset, AllocatedUtil, MappedUtil, NodeAllocationState, util_at}
use dra_rt_driver.Nas.Load.{load}
use dra_rt_driver.Pending.{PerNodeAllocatedClaims}
use dra_rt_driver.Resource.{ClaimAllocation}
use dra_rt_driver.Rt.{allocated_of}
use dra_rt_driver.Rt.Propose.{RangeOrder, Proposal, propose, copy_utils}
use dra_rt_driver.Rt.Within.{IsWithin, IsSafeCpu, Bears, util_at-IsWithin}
use dra_rt_driver.Rt.Pods.{IsServed, HoldsRt}
use dra_rt_driver.Rt.ZeroPeriod.{available_cpus-ok}
use dra_rt_driver.Rt.Whole.{copy_utils-IsWithin}
use dra_rt_driver.Rt.Covered.{IsCovered}
use dra_rt_driver.Rt.Reserving.{
  unheld, new_load, IsNew, HasDistinctClaims, Reserves, ReservesOrRefuses, propose_claims-Reserves,
}

-- The copy of a map reads like the map, and like the map before where it has no entry.
lookup-copy_utils :
    (k : String) (m acc : MappedUtil)
    → HasDistinctKeys m
    → ((lookup k m ≡ none) × (lookup k (copy_utils m acc) ≡ lookup k acc))
      ⊎ ((v : AllocatedUtil) × (lookup k m ≡ some v)
          × (lookup k (copy_utils m acc) ≡ some (record { util = v.util })))
unfolding copy_utils
lookup-copy_utils k [] acc d = inl (refl, refl)
lookup-copy_utils k ((j, v) ∷ m) acc d = elim (Bool-cases (j == k)) [
  | inl hit ↦
      let same : j ≡ k = (string_key.same_iff j k).0 hit in
      let absent : lookup k m ≡ none =
        subst (λ i. lookup i m ≡ none) same (lookup-Absent j m d.0) in
      elim (lookup-copy_utils k m (insert j (record { util = v.util }) acc) d.1) [
        | inl (n, e) ↦ inr (
          v,
          rw hit refl,
          e
              ∙ subst
                  (λ i.
                    lookup i (insert j (record { util = v.util }) acc)
                    ≡ some (record { util = v.util }))
                  same (lookup-insert_hit j (record { util = v.util }) acc),
        )
        | inr (w, e, f) ↦ absurd (cc)
      ]
  | inr miss ↦ elim (lookup-copy_utils k m (insert j (record { util = v.util }) acc) d.1) [
    | inl (n, e) ↦ inl (
      rw miss n,
      e
          ∙ lookup-insert_miss j k (record { util = v.util }) acc
              (λ q. false≢true (sym miss ∙ (string_key.same_iff j k).1 (sym q))),
    )
    | inr (w, e, f) ↦ inr (w, rw miss e, f)
  ]
]

pub IsCovered-HoldsRt :
    (node : String) (crd : NodeAllocationState) (p : PerNodeAllocatedClaims)
    → IsCovered node crd p
    → HoldsRt crd
IsCovered-HoldsRt node crd p c = record {
  at = λ uid. elim (Option-cases (lookup uid c.claims)) [
    | inl e ↦ inl (rw c.is_claims e)
    | inr (a, e) ↦ let h = c.held uid a e in inr (h.rt, rw c.is_claims (e ∙ ap some h.is_rt))
  ];
}

new_load-none :
    (k : String) (held : GoMap String AllocatedCpuset) (cas : List ClaimAllocation)
    → new_load k held [] cas ≡ 0
unfolding new_load load
new_load-none k held [] = refl
new_load-none k held (ca ∷ cas) =
    ground (arith, new_load-none k held cas, unheld_none (lookup ca.claim.uid held))
  where
    unheld_none : (o : Option AllocatedCpuset) → unheld k o [] ≡ 0
    unheld_none none = refl
    unheld_none (some a) = refl

copy_utils-util_at :
    (k : String) (m : MappedUtil) → HasDistinctKeys m → util_at k (copy_utils m []) ≡ util_at k m
unfolding util_at
copy_utils-util_at k m d = elim (lookup-copy_utils k m [] d) [
  | inl (n, e) ↦ rw (util_at, n, e) refl
  | inr (v, e, f) ↦ rw (util_at, e, f) refl
]

module _ (range : RangeOrder) (crd : NodeAllocationState) (cas : List ClaimAllocation) where
  abbrev pub fetched_utils : MappedUtil
  fetched_utils = entries crd.spec.allocated_util_to_cpu.cpus

  -- A proposal that the CPUs can bear, of safe reservations.
  pub record IsBearable (r : Option Proposal) : Type 0 where
    pub bears :
        Bears
          (λ k. new_load k (entries crd.spec.allocated_claims) (allocated_of r) cas)
          fetched_utils
    pub safe :
        All
          (λ ca. IsNew crd ca → All IsSafeCpu (entries (lookup ca.claim.uid (allocated_of r))))
          cas

  refused-IsBearable : IsWithin fetched_utils → IsBearable none
  refused-IsBearable w = record {
    bears = record {
      at = λ k.
          let (u, e, h) = util_at-IsWithin fetched_utils w k in
          (u, e, omega (arith, new_load-none k (entries crd.spec.allocated_claims) cas));
    };
    safe = nothing cas;
  }
    where
      nothing :
          (xs : List ClaimAllocation)
          → All (λ (ca : ClaimAllocation). IsNew crd ca → All IsSafeCpu []) xs
      nothing [] = tt
      nothing (x ∷ xs) = (λ n. tt, nothing xs)

  reserved-IsBearable :
      (s t : Proposal)
      → s.util ≡ copy_utils fetched_utils []
      → IsWithin fetched_utils
      → Reserves crd cas s t
      → IsBearable (some t)
  reserved-IsBearable s t is_copy w r = record {
    bears = record {
      at = λ k.
          let (u, e, h) = util_at-IsWithin fetched_utils w k in
          let (v, f, l) = util_at-IsWithin t.util r.within k in
          let g =
            r.adds k u
              (ap (util_at k) is_copy ∙ copy_utils-util_at k fetched_utils w.distinct ∙ e) in
          let q : v ≡ u + new_load k (entries crd.spec.allocated_claims) t.allocated cas =
            ap pos_part (sym f ∙ g) in
          (u, e, omega (arith, q, l));
    };
    safe = r.safe;
  }

  pub propose-IsBearable :
      HoldsRt crd
      → All IsServed cas
      → HasDistinctClaims cas
      → IsWithin fetched_utils
      → (r : Option Proposal) × (propose range crd cas ≡ ok r) × IsBearable r
  unfolding propose
  propose-IsBearable holds served distinct w =
      let (available, read) = available_cpus-ok crd.spec.allocatable_cpuset [] in
      let s : Proposal = record {
        allocated = [];
        util = copy_utils fetched_utils [];
        available = available;
      } in
      let (r, run, k) =
        propose_claims-Reserves range crd cas s holds served distinct
          (copy_utils-IsWithin fetched_utils [] w.all (record { distinct = tt; all = tt })) in
      (r, rw (propose, read, ◌>>=◌) run, by_result s r refl k)
    where
      by_result :
          (s : Proposal) (r : Option Proposal)
          → s.util ≡ copy_utils fetched_utils []
          → ReservesOrRefuses crd cas s r
          → IsBearable r
      by_result s none e k = refused-IsBearable w
      by_result s (some t) e k = reserved-IsBearable s t e w k
