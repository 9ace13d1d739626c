-- ===== src/Rt/Charging.antt =====
-- rt.go: a pending allocation is charged to the record of its node.
use dra_rt_driver.Prelude.{
  ℕ, ◌+◌, ◌≡◌, refl, sym, ap, ◌∙◌, subst, String, string_key, ◌==◌, if◌then◌else◌, Option, none,
  some, List, All, arith, Bool-cases, inl, inr,
}
use dra_rt_driver.Prelude.Int.{pos, pos_part}
use dra_rt_driver.Prelude.GoMap.{
  GoMap, lookup, insert, entries, lookup-insert, lookup-insert_hit, lookup-insert_kept,
}
use dra_rt_driver.Prelude.Outcome.{ok}
use dra_rt_driver.Nas.{AllocatedCpu, AllocatedCpuset, AllocatedRtCpu, NodeAllocationState, util_at}
use dra_rt_driver.Nas.Load.{load}
use dra_rt_driver.Pending.{PerNodeAllocatedClaims}
use dra_rt_driver.Pending.View.{pending_at}
use dra_rt_driver.Rt.{charge_claim}
use dra_rt_driver.Rt.Commitment.{waiting, pending_load, pending_load-hold}
use dra_rt_driver.Rt.Within.{IsSafeCpu}
use dra_rt_driver.Rt.Bearing.{charged_crd, charge_claim-IsWithin}
use dra_rt_driver.Rt.Covered.{IsSafe, IsCovered, Bears-less}

-- The record `t` is covered with what is charged to it taken from what was pending.
pub record Charges (node : String) (p : PerNodeAllocatedClaims) (cs : List AllocatedCpu)
    (s t : NodeAllocationState) (c : IsCovered node s p) : Type 0 where
  pub covered : IsCovered node t p
  pub same_meta : t.meta ≡ s.meta
  pub load_moves :
      (k : String)
      → pending_load k node (entries t.spec.allocated_claims) p.allocations + load k cs
        ≡ pending_load k node c.claims p.allocations
  pub adds :
      (k : String) (u : ℕ)
      → util_at k c.utils ≡ pos u
      → util_at k (entries t.spec.allocated_util_to_cpu.cpus) ≡ pos (u + load k cs)

held-IsSafe :
    (uid : String) (rt : AllocatedRtCpu) (claims : GoMap String AllocatedCpuset)
    → All IsSafeCpu rt.cpuset
    → ((j : String) (a : AllocatedCpuset) → lookup j claims ≡ some a → IsSafe a)
    → (j : String) (a : AllocatedCpuset)
    → lookup j (insert uid (record { rt_cpu = some rt }) claims) ≡ some a
    → IsSafe a
held-IsSafe uid rt claims safe held j a e = elim (Bool-cases (uid == j)) [
  | inl hit ↦
      let f : (if uid == j then some (record { rt_cpu = some rt }) else lookup j claims) ≡ some a =
        sym (lookup-insert uid j (record { rt_cpu = some rt }) claims) ∙ e in
      let g : some (record { rt_cpu = some rt }) ≡ some a = rw hit at f in
      record { rt = rt; is_rt = cc; safe = safe }
  | inr miss ↦
      let f : (if uid == j then some (record { rt_cpu = some rt }) else lookup j claims) ≡ some a =
        sym (lookup-insert uid j (record { rt_cpu = some rt }) claims) ∙ e in
      held j a (rw miss at f)
]

module _ (node : String) (uid : String) (rt : AllocatedRtCpu) (crd : NodeAllocationState)
    (p : PerNodeAllocatedClaims) (c : IsCovered node crd p) (new : lookup uid c.claims ≡ none)
    (pending : pending_at p uid node ≡ some (record { rt_cpu = some rt }))
    (safe : All IsSafeCpu rt.cpuset) where
  moves :
      (k : String)
      → pending_load k node (insert uid (record { rt_cpu = some rt }) c.claims) p.allocations
          + load k rt.cpuset
        ≡ pending_load k node c.claims p.allocations
  unfolding waiting pending_at
  moves k =
      ap
        (λ (x : Option AllocatedCpuset).
          pending_load k node (insert uid (record { rt_cpu = some rt }) c.claims) p.allocations
          + waiting k none x)
        (sym pending)
      ∙ pending_load-hold k node c.claims uid (record { rt_cpu = some rt }) p.allocations
          c.tidy.keys new

  pub charge_claim-Charges :
      (t : NodeAllocationState) × (charge_claim uid (record { rt_cpu = some rt }) crd ≡ ok t)
      × (lookup uid (entries t.spec.allocated_claims) ≡ some (record { rt_cpu = some rt }))
      × ((j : String) (a : AllocatedCpuset)
          → lookup j (entries crd.spec.allocated_claims) ≡ some a
          → (b : AllocatedCpuset) × (lookup j (entries t.spec.allocated_claims) ≡ some b))
      × Charges node p rt.cpuset crd t c
  charge_claim-Charges =
      let (m', e, adds, w) =
        charge_claim-IsWithin uid rt crd c.claims c.utils c.is_claims c.is_utils safe c.within (
          Bears-less (λ k. pending_load k node c.claims p.allocations) (λ k. load k rt.cpuset)
            c.utils (λ k. omega (arith, moves k)) c.bears) in
      (
        charged_crd uid rt c.claims m' crd,
        e,
        lookup-insert_hit uid (record { rt_cpu = some rt }) c.claims,
        λ j a h.
            lookup-insert_kept uid j (record { rt_cpu = some rt }) a c.claims
              (subst (λ o. lookup j (entries o) ≡ some a) c.is_claims h),
        record {
          covered = record {
            claims = insert uid (record { rt_cpu = some rt }) c.claims;
            is_claims = refl;
            utils = m';
            is_utils = refl;
            within = w;
            bears = record {
              at = λ k.
                  let (u, f, l) = c.bears.at k in
                  (
                    u + load k rt.cpuset,
                    adds.at k u f (omega (arith, moves k)),
                    omega (arith, moves k),
                  );
            };
            held = held-IsSafe uid rt c.claims safe c.held;
            tidy = c.tidy;
          };
          same_meta = refl;
          load_moves = moves;
          adds = λ k u f. adds.at k u f (
              let (v, g, l) = c.bears.at k in
              let q : u ≡ v = ap pos_part (sym f ∙ g) in omega (arith, moves k));
        },
      )
