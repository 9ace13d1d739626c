-- ===== src/Controller/Giving.antt =====
-- driver.go, Deallocate: a node that gives back a claim stays covered.
use dra_rt_driver.Prelude.{
  ◌-◌, ◌≤◌, ◌≡◌, refl, sym, ◌∙◌, subst, String, string_key, ◌==◌, Bool-cases, Option-cases, inl,
  inr, some, List, [], ◌∷◌, All, All-map_of, arith,
}
use mathlib.Core.Option
use dra_rt_driver.Prelude.Int.{pos, sub_int}
use dra_rt_driver.Prelude.Decimal.{itoa}
use dra_rt_driver.Prelude.GoMap.{
  GoMap, lookup, insert, delete, entries, lookup-delete, lookup-All, All-insert,
  HasDistinctKeys-insert,
}
use dra_rt_driver.Prelude.Outcome.{ok, bind-ok, ok_injective}
use dra_rt_driver.Nas.{
  AllocatedCpu, AllocatedCpuset, MappedUtil, NodeAllocationState, util_at, with_cpus,
}
use dra_rt_driver.Nas.Load.{IsSoundCpu, share, load, claim_util-share}
use dra_rt_driver.Pending
use dra_rt_driver.Pending.{PerNodeAllocatedClaims, clamp_zero}
use dra_rt_driver.Pending.Release.{clamp_zero-sub_int, share-lt}
use dra_rt_driver.Resource.{ResourceClaim}
use dra_rt_driver.Rt.Within.{IsWithin, IsWithinEntry, IsSafeCpu}
use dra_rt_driver.Rt.Commitment.{pending_load}
use dra_rt_driver.Rt.Covered.{IsCovered, remove-IsTidy}
use dra_rt_driver.Controller.Record.{return_cpu, return_cpus, without_claim}
use dra_rt_driver.Controller.Deallocation.{return_cpus-Releases}

return_cpu-IsWithin :
    (c : AllocatedCpu) (m m' : MappedUtil)
    → IsSoundCpu c
    → IsWithin m
    → return_cpu c m ≡ ok m'
    → IsWithin m'
unfolding return_cpu
return_cpu-IsWithin c m m' s w h = elim (Option-cases (lookup (itoa c.id) m)) [
  | inl e ↦ let r : ok m ≡ ok m' = rw (return_cpu, e) at h in subst IsWithin (ok_injective r) w
  | inr (entry, e) ↦
      let x = lookup-All IsWithinEntry (itoa c.id) m w.all e in
      let used = share c.runtime c.period in
      let z : clamp_zero (sub_int entry.util (pos used)) ≡ pos (x.used - used) = rw x.is_used (
        clamp_zero-sub_int x.used used (omega (arith, x.within)) (share-lt c.runtime c.period s)) in
      let r : ok
            (insert (itoa c.id) (record { util = clamp_zero (sub_int entry.util (pos used)) }) m)
          ≡ ok m' =
        rw (return_cpu, e, claim_util-share c.runtime c.period s) at h in
      subst IsWithin (ok_injective r) (record {
        distinct = HasDistinctKeys-insert (itoa c.id) _ m w.distinct;
        all =
            All-insert IsWithinEntry (itoa c.id) _ m
              (record {
                used = x.used - used;
                is_used = z;
                within = omega (arith, x.within);
                canonical = x.canonical;
              })
              w.all;
      })
]

return_cpus-IsWithin :
    (cs : List AllocatedCpu) (m m' : MappedUtil)
    → All IsSoundCpu cs
    → IsWithin m
    → return_cpus cs m ≡ ok m'
    → IsWithin m'
unfolding return_cpus
return_cpus-IsWithin [] m m' s w h = subst IsWithin (ok_injective h) w
return_cpus-IsWithin (c ∷ cs) m m' s w h =
    let (n, e, h') = bind-ok (return_cpu c m) (return_cpus cs) m' h in
    return_cpus-IsWithin cs n m' s.1 (return_cpu-IsWithin c m n s.0 w e) h'

pending_load-forget :
    (k node uid : String) (held : GoMap String AllocatedCpuset)
    (m : GoMap String (GoMap String AllocatedCpuset))
    → pending_load k node (delete uid held) (delete uid m) ≤ pending_load k node held m
unfolding pending_load delete
pending_load-forget k node uid held [] = omega arith
pending_load-forget k node uid held ((j, w) ∷ m) = elim (Bool-cases (j == uid)) [
  | inl hit ↦ rw hit (omega (arith, pending_load-forget k node uid held m))
  | inr miss ↦
      let e : lookup j (delete uid held) ≡ lookup j held =
        ground
          (arith, lookup-delete uid j held, string_key.same_iff j uid, string_key.same_iff uid j) in
      rw (miss, e) (omega (arith, pending_load-forget k node uid held m))
]

-- When a claim that the record of a node holds is given back and forgotten among the pending
-- allocations, the node stays covered.
pub without_claim-IsCovered :
    (node : String) (claim : ResourceClaim) (cs : List AllocatedCpu)
    (crd crd' : NodeAllocationState) (p : PerNodeAllocatedClaims)
    → All IsSafeCpu cs
    → IsCovered node crd p
    → without_claim claim cs crd ≡ ok crd'
    → IsCovered node crd' (Pending.remove p claim.uid)
unfolding without_claim Pending.remove
without_claim-IsCovered node claim cs crd crd' p safe c h =
    let (m', e, r) =
      bind-ok (return_cpus cs (entries crd.spec.allocated_util_to_cpu.cpus)) _ crd' h in
    subst (λ x. IsCovered node x (Pending.remove p claim.uid)) (ok_injective r)
      (given m' (subst (λ o. return_cpus cs (entries o) ≡ ok m') c.is_utils e))
  where
    sound : All IsSoundCpu cs
    sound = All-map_of (λ a (s : IsSafeCpu a). s.sound) cs safe

    given :
        (m' : MappedUtil)
        → return_cpus cs c.utils ≡ ok m'
        → let crd₁ = with_cpus crd (some m') in
          IsCovered node
            (record crd₁ {
              spec = record crd₁.spec {
                allocated_claims = Option.map (delete claim.uid) crd.spec.allocated_claims;
              };
            })
            (Pending.remove p claim.uid)
    given m' e =
        let (n, e', rel) = return_cpus-Releases cs c.utils sound in
        let same : n ≡ m' = ok_injective (sym e' ∙ e) in
        record {
          claims = delete claim.uid c.claims;
          is_claims = rw c.is_claims refl;
          utils = m';
          is_utils = refl;
          within = return_cpus-IsWithin cs c.utils m' sound c.within e;
          bears = record {
            at = λ k.
                let (u, f, l) = c.bears.at k in
                (
                  u - load k cs,
                  subst (λ x. util_at k x ≡ pos (u - load k cs)) same
                      (rel.at k u f (omega (arith, l))),
                  omega (arith, l, pending_load-forget k node claim.uid c.claims p.allocations),
                );
          };
          held = λ j a g. c.held j a (ground (arith, lookup-delete claim.uid j c.claims, g));
          tidy = remove-IsTidy node claim.uid p c.tidy;
        }
