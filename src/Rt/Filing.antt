-- ===== src/Rt/Filing.antt =====
-- rt.go, UnsuitableNode: the last loop makes pending what was proposed, and no more.
use dra_rt_driver.Prelude.{
  ◌+◌, ◌≤◌, ◌≡◌, ◌⊎◌, inl, inr, refl, sym, ap, ◌∙◌, String, string_key, ◌==◌, ◌&&◌, if◌then◌else◌,
  true, false, Bool-cases, Option-cases, Option, none, some, List, [], ◌∷◌, length, All, arith,
}
use dra_rt_driver.Prelude.Int.{pos, eqb_ℤ}
use dra_rt_driver.Prelude.GoMap.{
  GoMap, lookup, insert, entries, lookup-insert_hit, HasDistinctKeys-insert, eq_self,
}
use dra_rt_driver.Prelude.Outcome.{ok, ◌>>=◌}
use dra_rt_driver.Nas.{AllocatedCpu, AllocatedRtCpu, AllocatedCpuset, NodeAllocationState}
use dra_rt_driver.Nas.Load.{share, load, claim_util-share}
use dra_rt_driver.Pending
use dra_rt_driver.Pending.{PerNodeAllocatedClaims, nodes_of}
use dra_rt_driver.Pending.View.{pending_at, pending_at-set}
use dra_rt_driver.Resource.{ClaimAllocation, Pod}
use dra_rt_driver.Rt.{Placing, place_new, place_claim, place_claims, charge_cpus}
use dra_rt_driver.Rt.Propose.{claim_params}
use dra_rt_driver.Rt.Within.{IsSafeCpu}
use dra_rt_driver.Rt.Pods.{IsServed}
use dra_rt_driver.Rt.Commitment.{waiting, pending_load, pending_load-insert}
use dra_rt_driver.Rt.Covered.{IsSafe, IsTidy}
use dra_rt_driver.Rt.Reserving.{unheld, new_load, IsNew}

set-load :
    (k node uid : String) (held : GoMap String AllocatedCpuset) (p : PerNodeAllocatedClaims)
    (rt : AllocatedRtCpu)
    → pending_load k node held (Pending.set p uid node (record { rt_cpu = some rt })).allocations
      ≤ pending_load k node held p.allocations + load k rt.cpuset
unfolding Pending.set waiting
set-load k node uid held p rt =
    let a : AllocatedCpuset = record { rt_cpu = some rt } in
    let nodes = insert node a (nodes_of p uid) in
    let h = pending_load-insert k node held uid nodes p.allocations in
    let g = waits (lookup uid held) in
    let e : waiting k (lookup uid held) (lookup node nodes) ≡ waiting k (lookup uid held) (some a) =
      ap (waiting k (lookup uid held)) (lookup-insert_hit node a (nodes_of p uid)) in
    omega arith
  where
    waits :
        (o : Option AllocatedCpuset)
        → waiting k o (some (record { rt_cpu = some rt })) ≤ load k rt.cpuset
    waits none = omega arith
    waits (some h) = omega arith

set-IsTidy :
    (node uid : String) (p : PerNodeAllocatedClaims) (rt : AllocatedRtCpu)
    → All IsSafeCpu rt.cpuset
    → IsTidy node p
    → IsTidy node (Pending.set p uid node (record { rt_cpu = some rt }))
set-IsTidy node uid p rt safe t = record {
  keys = unfold Pending.set in HasDistinctKeys-insert uid _ p.allocations t.keys;
  pending = λ j a e.
      file j a (sym (pending_at-set p uid node (record { rt_cpu = some rt }) rt j node refl) ∙ e)
        (Bool-cases (uid == j));
}
  where
    file :
        (j : String) (a : AllocatedCpuset)
        → (if uid == j && node == node
            then some (record { rt_cpu = some rt })
            else pending_at p j node)
          ≡ some a
        → ((uid == j) ≡ true) ⊎ ((uid == j) ≡ false)
        → IsSafe a
    file j a e (inl hit) =
        let f : some (record { rt_cpu = some rt }) ≡ some a = rw (hit, eq_self node) at e in
        record { rt = rt; is_rt = cc; safe = safe }
    file j a e (inr miss) = t.pending j a (rw miss at e)

module _ (node : String) (pod : Pod) (crd : NodeAllocationState)
    (allocated : GoMap String (List AllocatedCpu)) where
  -- What is pending after the loop: at most what it was, and what was proposed for the new claims.
  pub record Files (cas : List ClaimAllocation) (s t : Placing) : Type 0 where
    pub tidy : IsTidy node t.pending
    pub loads :
        (held : GoMap String AllocatedCpuset) (k : String)
        → pending_load k node held t.pending.allocations
          ≤ pending_load k node held s.pending.allocations
            + new_load k (entries crd.spec.allocated_claims) allocated cas

  abbrev pub IsSafeFor : ClaimAllocation → Type 0
  IsSafeFor ca = IsNew crd ca → All IsSafeCpu (entries (lookup ca.claim.uid allocated))

  record FilesOne (ca : ClaimAllocation) (s t : Placing) : Type 0 where
    tidy : IsTidy node t.pending
    loads :
        (held : GoMap String AllocatedCpuset) (k : String)
        → pending_load k node held t.pending.allocations
          ≤ pending_load k node held s.pending.allocations
            + unheld k
                (lookup ca.claim.uid (entries crd.spec.allocated_claims))
                (entries (lookup ca.claim.uid allocated))

  place_new-FilesOne :
      (ca : ClaimAllocation) (v : IsServed ca) (s : Placing)
      → IsNew crd ca
      → IsSafeFor ca
      → IsTidy node s.pending
      → (t : Placing) × (place_new node pod ca.claim.uid v.params
            (entries (lookup ca.claim.uid allocated))
            s
          ≡ ok t)
        × FilesOne ca s t
  unfolding place_new
  place_new-FilesOne ca v s new safe tidy =
      let devices = entries (lookup ca.claim.uid allocated) in
      elim (Bool-cases (eqb_ℤ v.params.count (pos (length devices)))) [
        | inl e ↦ (
          record s {
            pending =
                Pending.set s.pending ca.claim.uid node
                  (record { rt_cpu = some (record { cpuset = devices; cgroup_uid = pod.uid }) });
            util = charge_cpus (pos (share v.params.runtime v.params.period)) devices s.util;
          },
          rw (place_new, e, claim_util-share v.params.runtime v.params.period v.sound.sound) refl,
          record {
            tidy =
                set-IsTidy node ca.claim.uid s.pending
                  (record { cpuset = devices; cgroup_uid = pod.uid }) (safe new) tidy;
            loads = λ held k. rw new (
                set-load k node ca.claim.uid held s.pending
                  (record { cpuset = devices; cgroup_uid = pod.uid }));
          },
        )
        | inr e ↦ (
          record s { stopped = true },
          rw (place_new, e) refl,
          record { tidy = tidy; loads = λ held k. omega arith },
        )
      ]

  place_claim-FilesOne :
      (ca : ClaimAllocation) (s : Placing)
      → IsServed ca
      → IsSafeFor ca
      → IsTidy node s.pending
      → (t : Placing) × (place_claim node pod crd allocated ca s ≡ ok t) × FilesOne ca s t
  unfolding place_claim claim_params
  place_claim-FilesOne ca s v safe tidy =
      elim (Option-cases (lookup ca.claim.uid (entries crd.spec.allocated_claims))) [
        | inl new ↦
            let (t, run, f) = place_new-FilesOne ca v s new safe tidy in
            (t, rw (place_claim, new, claim_params, v.is_rt) run, f)
        | inr (a, e) ↦
            (s, rw (place_claim, e) refl, record { tidy = tidy; loads = λ held k. omega arith })
      ]

  pub place_claims-Files :
      (cas : List ClaimAllocation) (s : Placing)
      → All IsServed cas
      → All IsSafeFor cas
      → IsTidy node s.pending
      → (t : Placing) × (place_claims node pod crd allocated cas s ≡ ok t) × Files cas s t
  unfolding place_claims new_load
  place_claims-Files [] s v safe tidy =
      (s, refl, record { tidy = tidy; loads = λ held k. omega arith })
  place_claims-Files (ca ∷ cas) s v safe tidy =
      let (u, run, one) = place_claim-FilesOne ca s v.0 safe.0 tidy in
      let (t, run', rest) = place_claims-Files cas u v.1 safe.1 one.tidy in
      elim (Bool-cases u.stopped) [
        | inl stops ↦ (
          u,
          rw (place_claims, run, ◌>>=◌, stops) refl,
          record { tidy = one.tidy; loads = λ held k. omega (arith, one.loads held k) },
        )
        | inr goes ↦ (
          t,
          rw (place_claims, run, ◌>>=◌, goes) run',
          record {
            tidy = rest.tidy;
            loads = λ held k. omega (arith, one.loads held k, rest.loads held k);
          },
        )
      ]
