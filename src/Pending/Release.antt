-- ===== src/Pending/Release.antt =====
-- allocations.go, RemoveUtil and RemoveUtilOtherNodes: how the pending utilisation goes down.
use dra_rt_driver.Prelude.{
  ℕ, ◌-◌, ◌^◌, ◌<◌, ◌≡◌, refl, ap, ◌∙◌, String, string_key, none, some, List, [], ◌∷◌, ◌++◌, arith,
  All, Option-cases, inl, inr,
}
use dra_rt_driver.Prelude.Int.{ℤ, pos, sub_int, sub_int_small}
use dra_rt_driver.Prelude.Decimal.{itoa}
use dra_rt_driver.Prelude.GoMap.{GoMap, lookup, insert, assign}
use dra_rt_driver.Prelude.Outcome.{ok, ◌>>=◌}
use dra_rt_driver.Nas.{
  AllocatedCpu, AllocatedRtCpu, AllocatedCpuset, AllocatedUtilset, MappedUtil, util_at,
}
use dra_rt_driver.Nas.Load.{
  IsSoundCpu, IsSound, share, load, load-cons, load-append, claim_util-share,
}
use dra_rt_driver.Nas.Utilisation.{util_at-insert}
use dra_rt_driver.Pending.{clamp_zero, release_cpu, release_cpus}

-- `after` has the load of `cs` taken off each CPU, and never less than nothing.
pub record Releases (cs : List AllocatedCpu) (before after : MappedUtil) : Type 0 where
  pub at :
      (k : String) (u : ℕ)
      → util_at k before ≡ pos u
      → u < 2 ^ 63
      → util_at k after ≡ pos (u - load k cs)

pub clamp_zero-sub_int :
    (u s : ℕ) → u < 2 ^ 63 → s < 2 ^ 63 → clamp_zero (sub_int (pos u) (pos s)) ≡ pos (u - s)
clamp_zero-sub_int u s h k = rw (sub_int_small u s h k) (ground arith)

pub share-lt : (r p : ℤ) → IsSound r p → share r p < 2 ^ 63
share-lt r p h = grind arith

-- The map after one round of the inner loop.
abbrev pub released : AllocatedCpu → MappedUtil → MappedUtil
released c m =
    insert (itoa c.id)
      (record {
        util = clamp_zero (sub_int (util_at (itoa c.id) m) (pos (share c.runtime c.period)));
      })
      m

release_cpu-eq-released :
    (c : AllocatedCpu) (m : MappedUtil)
    → IsSoundCpu c
    → release_cpu c (some m) ≡ ok (some (released c m))
unfolding release_cpu assign
release_cpu-eq-released c m h = rw (claim_util-share c.runtime c.period h)

pub util_at-released :
    (c : AllocatedCpu) (m : MappedUtil) (k : String) (u : ℕ)
    → IsSoundCpu c
    → util_at k m ≡ pos u
    → u < 2 ^ 63
    → util_at k (released c m) ≡ pos (u - load k (c ∷ []))
unfolding load
util_at-released c m k u s e h = rw util_at-insert (
    ground (
      arith,
      string_key.same_iff (itoa c.id) k,
      clamp_zero-sub_int u (share c.runtime c.period) h (share-lt c.runtime c.period s),
      ap (λ (j : String). util_at j m) {x = itoa c.id} {y = k},
    ))

Releases-cons :
    (c : AllocatedCpu) (cs : List AllocatedCpu) {m m' : MappedUtil}
    → IsSoundCpu c
    → Releases cs (released c m) m'
    → Releases (c ∷ cs) m m'
Releases-cons c cs {m} s a = record {
  at = λ k u e b.
      a.at k (u - load k (c ∷ [])) (util_at-released c m k u s e b) (omega arith)
      ∙ ap pos (omega (arith, load-cons k c cs));
}

-- The inner loop ends with no panic on sound reservations, and takes their load off each CPU.
pub release_cpus-Releases :
    (cs : List AllocatedCpu) (m : MappedUtil)
    → All IsSoundCpu cs
    → (m' : MappedUtil) × (release_cpus cs (some m) ≡ ok (some m')) × Releases cs m m'
unfolding release_cpus
release_cpus-Releases [] m h =
    (m, refl, record { at = λ k u e b. e ∙ ap pos (unfold load in omega arith) })
release_cpus-Releases (c ∷ cs) m h =
    let (m', e, a) = release_cpus-Releases cs (released c m) h.1 in
    (m', rw (release_cpu-eq-released c m h.0, ◌>>=◌) e, Releases-cons c cs h.0 a)

pub Releases-append :
    (xs ys : List AllocatedCpu) {a b c : MappedUtil}
    → Releases xs a b
    → Releases ys b c
    → Releases (xs ++ ys) a c
Releases-append xs ys r s = record {
  at = λ k u e h.
      s.at k (u - load k xs) (r.at k u e h) (omega arith)
      ∙ ap pos (omega (arith, load-append k xs ys));
}

pub Releases-nil : (m : MappedUtil) → Releases [] m m
Releases-nil m = record { at = λ k u e b. e ∙ ap pos (unfold load in omega arith) }

-- The utilisation of each node, with the reservations `amount` taken off.
pub record ReleasesAll (amount : String → List AllocatedCpu)
    (before after : GoMap String AllocatedUtilset) : Type 0 where
  pub at :
      (node : String) (m : MappedUtil)
      → lookup node before ≡ some (record { cpus = some m })
      → (m' : MappedUtil) × (lookup node after ≡ some (record { cpus = some m' }))
        × Releases (amount node) m m'
  pub missing : (node : String) → lookup node before ≡ none → lookup node after ≡ none

-- Every entry holds a map that was made.
pub record IsMade (utils : GoMap String AllocatedUtilset) : Type 0 where
  pub at :
      (node : String) (us : AllocatedUtilset)
      → lookup node utils ≡ some us
      → (m : MappedUtil) × (us ≡ record { cpus = some m })

pub ReleasesAll-IsMade :
    {f : String → List AllocatedCpu} {a b : GoMap String AllocatedUtilset}
    → ReleasesAll f a b
    → IsMade a
    → IsMade b
ReleasesAll-IsMade {f} {a} {b} r h = record {
  at = λ node us e. elim (Option-cases (lookup node a)) [
    | inl e' ↦ absurd (let g : lookup node b ≡ none = r.missing node e' in cc)
    | inr (us', e') ↦
        let (m, made) = h.at node us' e' in
        let (m', e'', _) = r.at node m (rw (← made) e') in (m', cc)
  ];
}

pub ReleasesAll-append :
    (f g : String → List AllocatedCpu) {a b c : GoMap String AllocatedUtilset}
    → ReleasesAll f a b
    → ReleasesAll g b c
    → ReleasesAll (λ n. f n ++ g n) a c
ReleasesAll-append f g r s = record {
  at = λ node m e.
      let (m', e', h) = r.at node m e in
      let (m'', e'', h') = s.at node m' e' in (m'', e'', Releases-append (f node) (g node) h h');
  missing = λ node e. s.missing node (r.missing node e);
}

-- A claim with reservations that are sound.
pub record IsSoundClaim (a : AllocatedCpuset) : Type 0 where
  pub rt : AllocatedRtCpu
  pub is_rt : a ≡ record { rt_cpu = some rt }
  pub sound : All IsSoundCpu rt.cpuset

abbrev pub cpus_of : AllocatedCpuset → List AllocatedCpu
cpus_of a = elim a.rt_cpu [ none ↦ [] | some r ↦ r.cpuset ]
