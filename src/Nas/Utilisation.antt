-- ===== src/Nas/Utilisation.antt =====
-- nas.go, SetUtilisation: what the method does to the utilisation of each CPU.
use dra_rt_driver.Prelude.{
  ℕ, ◌+◌, ◌^◌, ◌<◌, ◌≡◌, refl, ap, ◌∙◌, String, string_key, ◌==◌, if◌then◌else◌, some, List, [],
  ◌∷◌, ◌++◌, arith, All,
}
use native.Mathlib.Nat.{add-zero}
use dra_rt_driver.Prelude.Int.{ℤ, pos, add_int, add_int_small}
use dra_rt_driver.Prelude.Decimal.{itoa}
use dra_rt_driver.Prelude.GoMap.{lookup, insert, assign, lookup-insert, entries}
use dra_rt_driver.Prelude.Outcome.{ok, ◌>>=◌}
use dra_rt_driver.Nas.{
  AllocatedCpu, AllocatedRtCpu, AllocatedCpuset, NodeAllocationState, MappedUtil, util_at, add_cpu,
  add_cpus, set_utilisation, with_cpus,
}
use dra_rt_driver.Nas.Load.{IsSoundCpu, share, load, load-cons, load-append, claim_util-share}

-- `m` after the additions: every CPU has its old utilisation and its load.
pub record Adds (cs : List AllocatedCpu) (before after : MappedUtil) : Type 0 where
  pub at :
      (k : String) (u : ℕ)
      → util_at k before ≡ pos u
      → u + load k cs < 2 ^ 63
      → util_at k after ≡ pos (u + load k cs)

pub util_at-insert :
    (k j : String) (z : ℤ) (m : MappedUtil)
    → util_at j (insert k (record { util = z }) m) ≡ (if k == j then z else util_at j m)
unfolding util_at
util_at-insert k j z m = ground (arith, lookup-insert k j (record { util = z }) m)

-- The map after the reservation `c`.
abbrev pub added : AllocatedCpu → MappedUtil → MappedUtil
added c m =
    insert (itoa c.id)
      (record { util = add_int (pos (share c.runtime c.period)) (util_at (itoa c.id) m) }) m

pub add_cpu-eq-added :
    (c : AllocatedCpu) (m : MappedUtil) → IsSoundCpu c → add_cpu c (some m) ≡ ok (some (added c m))
unfolding add_cpu assign
add_cpu-eq-added c m h = ground (arith, claim_util-share c.runtime c.period h, h.period_positive)

pub util_at-added :
    (c : AllocatedCpu) (m : MappedUtil) (k : String) (u : ℕ)
    → util_at k m ≡ pos u
    → u + load k (c ∷ []) < 2 ^ 63
    → util_at k (added c m) ≡ pos (u + load k (c ∷ []))
unfolding load
util_at-added c m k u e h = rw util_at-insert (
    ground (
      arith,
      string_key.same_iff (itoa c.id) k,
      add_int_small (share c.runtime c.period) u,
      ap (λ (j : String). util_at j m) {x = itoa c.id} {y = k},
    ))

pub Adds-cons :
    (c : AllocatedCpu) (cs : List AllocatedCpu) {m m' : MappedUtil}
    → Adds cs (added c m) m'
    → Adds (c ∷ cs) m m'
Adds-cons c cs {m} a = record {
  at = λ k u e b.
      a.at k (u + load k (c ∷ [])) (util_at-added c m k u e (omega (arith, load-cons k c cs)))
        (omega (arith, load-cons k c cs))
      ∙ ap pos (omega (arith, load-cons k c cs));
}

pub Adds-nil : (m : MappedUtil) → Adds [] m m
Adds-nil m = record { at = λ k u e b. unfold load in rw add-zero e }

pub Adds-append :
    (xs ys : List AllocatedCpu) {a b c : MappedUtil}
    → Adds xs a b
    → Adds ys b c
    → Adds (xs ++ ys) a c
Adds-append xs ys r s = record {
  at = λ k u e h.
      s.at k (u + load k xs) (r.at k u e (omega (arith, load-append k xs ys)))
        (omega (arith, load-append k xs ys))
      ∙ ap pos (omega (arith, load-append k xs ys));
}

-- The loop of `SetUtilisation` runs to its end on sound reservations.
pub add_cpus-Adds :
    (cs : List AllocatedCpu) (m : MappedUtil)
    → All IsSoundCpu cs
    → (m' : MappedUtil) × (add_cpus cs (some m) ≡ ok (some m')) × Adds cs m m'
unfolding add_cpus
add_cpus-Adds [] m h = (m, refl, Adds-nil m)
add_cpus-Adds (c ∷ cs) m h =
    let (m', e, a) = add_cpus-Adds cs (added c m) h.1 in
    (m', rw (add_cpu-eq-added c m h.0, ◌>>=◌) e, Adds-cons c cs a)

-- On a record whose map of utilisations is made and which holds the claim `uid` with sound
-- reservations, `SetUtilisation` ends with no panic, changes nothing but that map, and adds to each
-- CPU exactly the load that the claim puts on it, as long as the sum fits an `int`.
pub set_utilisation-Adds :
    (n : NodeAllocationState) (a : AllocatedCpuset) (uid : String) (r : AllocatedRtCpu)
    (m : MappedUtil)
    → lookup uid (entries n.spec.allocated_claims) ≡ some (record { rt_cpu = some r })
    → n.spec.allocated_util_to_cpu.cpus ≡ some m
    → All IsSoundCpu r.cpuset
    → (m' : MappedUtil) × (set_utilisation n a uid ≡ ok (with_cpus n (some m')))
      × Adds r.cpuset m m'
unfolding set_utilisation
set_utilisation-Adds n a uid r m found made sound =
    let (m', e, adds) = add_cpus-Adds r.cpuset m sound in
    (m', rw (found, set_utilisation, made, e, ◌>>=◌) refl, adds)
