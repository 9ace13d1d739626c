-- ===== src/Rt/Bearing.antt =====
-- nas.go, SetUtilisation, called by rt.go: load that the CPUs of a node can bear is added to them, and
-- they stay below 950 thousandths.
use dra_rt_driver.Prelude.{◌+◌, ◌<◌, ◌≡◌, refl, String, string_key, some, List, [], ◌∷◌, All, arith}
use dra_rt_driver.Prelude.Int.{add_int_small}
use dra_rt_driver.Prelude.Decimal.{itoa}
use dra_rt_driver.Prelude.GoMap.{
  GoMap, insert, assign, lookup-insert_hit, All-insert, HasDistinctKeys-insert, eq_self,
}
use dra_rt_driver.Prelude.Outcome.{ok, ◌>>=◌}
use dra_rt_driver.Nas.{
  AllocatedCpu, AllocatedRtCpu, AllocatedCpuset, MappedUtil, NodeAllocationState, add_cpus,
  set_utilisation, with_cpus,
}
use dra_rt_driver.Nas.Load.{share, load, load-cons}
use dra_rt_driver.Nas.Utilisation.{
  Adds, Adds-nil, Adds-cons, added, add_cpu-eq-added, util_at-added,
}
use dra_rt_driver.Rt.{charge_claim, put_claim}
use dra_rt_driver.Rt.Within.{IsWithin, IsWithinEntry, IsSafeCpu, Bears}

added-IsWithin :
    (c : AllocatedCpu) (m : MappedUtil)
    → IsSafeCpu c
    → IsWithin m
    → Bears (λ k. load k (c ∷ [])) m
    → IsWithin (added c m)
unfolding load
added-IsWithin c m safe w b =
    let (u, e, h) = b.at (itoa c.id) in
    let h' : u + share c.runtime c.period < 950 = omega (arith, rw (eq_self (itoa c.id)) at h) in
    record {
      distinct = HasDistinctKeys-insert (itoa c.id) _ m w.distinct;
      all =
          All-insert IsWithinEntry (itoa c.id) _ m
            (record {
              used = share c.runtime c.period + u;
              is_used = rw e (add_int_small (share c.runtime c.period) u (omega (arith, h')));
              within = omega (arith, h');
              canonical = safe.canonical;
            })
            w.all;
    }

Bears-head :
    (c : AllocatedCpu) (cs : List AllocatedCpu) (m : MappedUtil)
    → Bears (λ k. load k (c ∷ cs)) m
    → Bears (λ k. load k (c ∷ [])) m
Bears-head c cs m b = record {
  at = λ k. let (u, e, h) = b.at k in (u, e, omega (arith, load-cons k c cs));
}

Bears-tail :
    (c : AllocatedCpu) (cs : List AllocatedCpu) (m : MappedUtil)
    → Bears (λ k. load k (c ∷ cs)) m
    → Bears (λ k. load k cs) (added c m)
Bears-tail c cs m b = record {
  at = λ k.
      let (u, e, h) = b.at k in
      (
        u + load k (c ∷ []),
        util_at-added c m k u e (omega (arith, load-cons k c cs)),
        omega (arith, load-cons k c cs),
      );
}

pub add_cpus-IsWithin :
    (cs : List AllocatedCpu) (m : MappedUtil)
    → All IsSafeCpu cs
    → IsWithin m
    → Bears (λ k. load k cs) m
    → (m' : MappedUtil) × (add_cpus cs (some m) ≡ ok (some m')) × Adds cs m m' × IsWithin m'
unfolding add_cpus
add_cpus-IsWithin [] m safe w b = (m, refl, Adds-nil m, w)
add_cpus-IsWithin (c ∷ cs) m safe w b =
    let (m', e, a, w') =
      add_cpus-IsWithin cs (added c m) safe.1 (added-IsWithin c m safe.0 w (Bears-head c cs m b))
        (Bears-tail c cs m b) in
    (m', rw (add_cpu-eq-added c m safe.0.sound, ◌>>=◌) e, Adds-cons c cs a, w')

-- The record with the claim in it, and with these utilisations.
abbrev pub charged_crd :
    String
    → AllocatedRtCpu
    → GoMap String AllocatedCpuset
    → MappedUtil
    → NodeAllocationState
    → NodeAllocationState
charged_crd uid rt claims m crd =
    with_cpus
      (record crd {
        spec = record crd.spec {
          allocated_claims = some (insert uid (record { rt_cpu = some rt }) claims);
        };
      })
      (some m)

pub charge_claim-IsWithin :
    (uid : String) (rt : AllocatedRtCpu) (crd : NodeAllocationState)
    (claims : GoMap String AllocatedCpuset) (m : MappedUtil)
    → crd.spec.allocated_claims ≡ some claims
    → crd.spec.allocated_util_to_cpu.cpus ≡ some m
    → All IsSafeCpu rt.cpuset
    → IsWithin m
    → Bears (λ k. load k rt.cpuset) m
    → (m' : MappedUtil) × (charge_claim uid (record { rt_cpu = some rt }) crd
        ≡ ok (charged_crd uid rt claims m' crd))
      × Adds rt.cpuset m m'
      × IsWithin m'
unfolding charge_claim put_claim assign set_utilisation
charge_claim-IsWithin uid rt crd claims m made utils safe w b =
    let (m', e, a, w') = add_cpus-IsWithin rt.cpuset m safe w b in
    let hit = lookup-insert_hit uid (record { rt_cpu = some rt }) claims in
    (m', rw (charge_claim, put_claim, made, ◌>>=◌, set_utilisation, hit, utils, e) refl, a, w')
