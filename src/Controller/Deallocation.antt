-- ===== src/Controller/Deallocation.antt =====
-- driver.go, Deallocate: the load of a claim goes back to its CPUs.
use dra_rt_driver.Prelude.{
  ℕ, ◌+◌, ◌^◌, ◌<◌, ◌≡◌, refl, ap, ◌∙◌, subst, String, string_key, ◌==◌, if◌then◌else◌, Option,
  none, some, List, [], ◌∷◌, arith, All, Option-cases, inl, inr,
}
use mathlib.Core.Option
use dra_rt_driver.Prelude.Int.{pos}
use dra_rt_driver.Prelude.Decimal.{itoa}
use dra_rt_driver.Prelude.GoMap.{
  GoMap, lookup, insert, delete, entries, lookup-insert, lookup-delete, assign, eq_self,
}
use dra_rt_driver.Prelude.Outcome.{ok, ◌>>=◌}
use dra_rt_driver.Nas.{
  AllocatedCpu, AllocatedRtCpu, AllocatedCpuset, MappedUtil, NodeAllocationState, util_at,
  with_cpus,
}
use dra_rt_driver.Nas.Load.{IsSoundCpu, load, claim_util-share}
use dra_rt_driver.Nas.Utilisation.{Adds, set_utilisation-Adds}
use dra_rt_driver.Pending.Release.{
  Releases, Releases-nil, Releases-append, released, util_at-released,
}
use dra_rt_driver.Resource.{ResourceClaim}
use dra_rt_driver.Rt.{charge_claim, put_claim}
use dra_rt_driver.Controller.Record.{return_cpu, return_cpus, without_claim}

-- A CPU without an entry has nothing to give back.
missing-Releases :
    (c : AllocatedCpu) (m : MappedUtil) → lookup (itoa c.id) m ≡ none → Releases (c ∷ []) m m
unfolding util_at load
missing-Releases c m e = record {
  at = λ k u h b. ground (
    arith,
    string_key.same_iff (itoa c.id) k,
    ap (λ (j : String). lookup j m) {x = itoa c.id} {y = k},
  );
}

return_cpu-Releases :
    (c : AllocatedCpu) (m : MappedUtil)
    → IsSoundCpu c
    → (m' : MappedUtil) × (return_cpu c m ≡ ok m') × Releases (c ∷ []) m m'
unfolding return_cpu util_at
return_cpu-Releases c m h = elim (Option-cases (lookup (itoa c.id) m)) [
  | inl e ↦ (m, rw (return_cpu, e) refl, missing-Releases c m e)
  | inr (entry, e) ↦ (
    released c m,
    rw (return_cpu, util_at, e, claim_util-share c.runtime c.period h) refl,
    record { at = λ k u v b. util_at-released c m k u h v b },
  )
]

pub return_cpus-Releases :
    (cs : List AllocatedCpu) (m : MappedUtil)
    → All IsSoundCpu cs
    → (m' : MappedUtil) × (return_cpus cs m ≡ ok m') × Releases cs m m'
unfolding return_cpus
return_cpus-Releases [] m h = (m, refl, Releases-nil m)
return_cpus-Releases (c ∷ cs) m h =
    let (m', e, r) = return_cpu-Releases c m h.0 in
    let (m'', e', r') = return_cpus-Releases cs m' h.1 in
    (m'', rw (e, ◌>>=◌) e', Releases-append (c ∷ []) cs r r')

-- The record `after`: the claim `uid` is gone, the other claims stay, and the load of `cs` is taken
-- off each CPU.
pub record GivesBack (uid : String) (cs : List AllocatedCpu) (before after : NodeAllocationState)
    : Type 0 where
  pub utils : MappedUtil
  pub is_utils : after.spec.allocated_util_to_cpu.cpus ≡ some utils
  pub releases : Releases cs (entries before.spec.allocated_util_to_cpu.cpus) utils
  pub claims :
      (j : String)
      → lookup j (entries after.spec.allocated_claims)
        ≡ (if uid == j then none else lookup j (entries before.spec.allocated_claims))

lookup-delete_map :
    {V : Type 0} (k j : String) (m : Option (GoMap String V))
    → lookup j (entries (Option.map (delete k) m)) ≡ (if k == j then none else lookup j (entries m))
lookup-delete_map k j none = ground arith
lookup-delete_map k j (some m) = lookup-delete k j m

-- The record without the claim, and with these utilisations.
abbrev released_crd : String → NodeAllocationState → MappedUtil → NodeAllocationState
released_crd uid crd m =
    let crd' = with_cpus crd (some m) in
    record crd' {
      spec = record crd'.spec {
        allocated_claims = Option.map (delete uid) crd.spec.allocated_claims;
      };
    }

-- For a claim whose reservations are sound, what `Deallocate` writes is the record without the
-- claim, with the load of the claim taken off its CPUs and nothing else changed in the two maps,
-- whether they are made or nil.
pub without_claim-GivesBack :
    (claim : ResourceClaim) (cs : List AllocatedCpu) (crd : NodeAllocationState)
    → All IsSoundCpu cs
    → (crd' : NodeAllocationState) × (without_claim claim cs crd ≡ ok crd')
      × GivesBack claim.uid cs crd crd'
unfolding without_claim
without_claim-GivesBack claim cs crd sound =
    let (m, e, r) = return_cpus-Releases cs (entries crd.spec.allocated_util_to_cpu.cpus) sound in
    (
      released_crd claim.uid crd m,
      rw (without_claim, e, ◌>>=◌) refl,
      record {
        utils = m;
        is_utils = refl;
        releases = r;
        claims = λ j. lookup-delete_map claim.uid j crd.spec.allocated_claims;
      },
    )

-- `after` has every CPU whose utilisation is a number at that number, as long as the load of `cs` on
-- top of it fits an `int`, and the claims of `before`.
pub record IsRestored (cs : List AllocatedCpu) (before after : NodeAllocationState) : Type 0 where
  pub utils :
      (k : String) (u : ℕ)
      → util_at k (entries before.spec.allocated_util_to_cpu.cpus) ≡ pos u
      → u + load k cs < 2 ^ 63
      → util_at k (entries after.spec.allocated_util_to_cpu.cpus) ≡ pos u
  pub claims :
      (j : String)
      → lookup j (entries after.spec.allocated_claims)
        ≡ lookup j (entries before.spec.allocated_claims)

-- The record with the claim in it.
abbrev pub holding :
    String
    → AllocatedRtCpu
    → GoMap String AllocatedCpuset
    → NodeAllocationState
    → NodeAllocationState
holding uid rt claims crd = record crd {
  spec = record crd.spec {
    allocated_claims = some (insert uid (record { rt_cpu = some rt }) claims);
  };
}

pub charge_claim-Adds :
    (uid : String) (rt : AllocatedRtCpu) (crd : NodeAllocationState)
    (claims : GoMap String AllocatedCpuset) (m : MappedUtil)
    → crd.spec.allocated_claims ≡ some claims
    → crd.spec.allocated_util_to_cpu.cpus ≡ some m
    → All IsSoundCpu rt.cpuset
    → (m' : MappedUtil) × (charge_claim uid (record { rt_cpu = some rt }) crd
        ≡ ok (with_cpus (holding uid rt claims crd) (some m')))
      × Adds rt.cpuset m m'
unfolding charge_claim put_claim assign
charge_claim-Adds uid rt crd claims m made utils sound =
    let hit = lookup-insert uid uid (record { rt_cpu = some rt }) claims ∙ rw (eq_self uid) refl in
    let (m', e, a) =
      set_utilisation-Adds (holding uid rt claims crd) (record { rt_cpu = some rt }) uid rt m hit
        utils sound in
    (m', rw (charge_claim, put_claim, made, ◌>>=◌) e, a)

-- On a node whose two maps are made and whose record does not hold the claim: what `Deallocate`
-- makes of the record that `Allocate` wrote for a claim with sound reservations is the record of
-- before, in its claims and in every utilisation that the load does not push over the end of `int`.
pub charge_then_return :
    (claim : ResourceClaim) (rt : AllocatedRtCpu) (crd : NodeAllocationState)
    (claims : GoMap String AllocatedCpuset) (m : MappedUtil)
    → crd.spec.allocated_claims ≡ some claims
    → crd.spec.allocated_util_to_cpu.cpus ≡ some m
    → lookup claim.uid claims ≡ none
    → All IsSoundCpu rt.cpuset
    → (charged after : NodeAllocationState) × (charge_claim claim.uid
          (record { rt_cpu = some rt })
          crd
        ≡ ok charged)
      × (without_claim claim rt.cpuset charged ≡ ok after)
      × IsRestored rt.cpuset crd after
charge_then_return claim rt crd claims m made utils fresh sound =
    let (m', e, adds) = charge_claim-Adds claim.uid rt crd claims m made utils sound in
    let (after, e', back) =
      without_claim-GivesBack claim rt.cpuset
        (with_cpus (holding claim.uid rt claims crd) (some m')) sound in
    (
      _,
      after,
      e,
      e',
      record {
        utils = λ k u v b. rw back.is_utils (
            back.releases.at k (u + load k rt.cpuset)
              (adds.at k u (subst (λ o. util_at k (entries o) ≡ pos u) utils v) b) b
            ∙ ap pos (omega arith));
        claims = λ j. ground (
          arith,
          back.claims j,
          lookup-insert claim.uid j (record { rt_cpu = some rt }) claims,
          string_key.same_iff claim.uid j,
        );
      },
    )
