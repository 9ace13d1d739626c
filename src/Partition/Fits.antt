-- ===== src/Partition/Fits.antt =====
-- rt.go, cpuPartitioning: every CPU that is picked has room, and no CPU is picked twice.
use dra_rt_driver.Prelude.{
  ◌+◌, ◌^◌, ◌<◌, ◌≡◌, ◌≢◌, refl, sym, ap, String, string_key, true, false, some, [], ◌∷◌, All,
  AllPairs, All-map_of, arith, Bool-cases, inl, inr,
}
use dra_rt_driver.Prelude.Int.{ℤ, pos, negsuc, pos_part, neg_part, ltb_ℤ, sub_int, wrap, ◌-ℤ◌}
use dra_rt_driver.Prelude.GoMap.{lookup, HasDistinctKeys, Absent, lookup-Absent, eq_self}
use dra_rt_driver.Nas.{AllocatedUtil, MappedUtil}
use dra_rt_driver.Partition.{ScoredCpu, score_of, scored_cpus}

-- A quantity far from the ends of `int`, so that the score does not wrap.
pub record IsModest (z : ℤ) : Type 0 where
  pub above : pos_part z < 2 ^ 61
  pub below : neg_part z < 2 ^ 61

-- The CPU keeps below 950 thousandths.
abbrev pub HasRoom : ℤ → ℤ → Type 0
HasRoom util req = pos_part util + pos_part req < 950 + neg_part util + neg_part req

pub score_positive :
    (util req : ℤ)
    → IsModest util
    → IsModest req
    → ltb_ℤ (pos 0) (score_of util req) ≡ true
    → HasRoom util req
unfolding score_of sub_int ◌-ℤ◌ wrap
score_positive (pos u) (pos r) hu hr h = ground arith
score_positive (pos u) (negsuc r) hu hr h = ground arith
score_positive (negsuc u) (pos r) hu hr h = ground arith
score_positive (negsuc u) (negsuc r) hu hr h = ground arith

pub score_nonpositive :
    (util req : ℤ)
    → IsModest util
    → IsModest req
    → ltb_ℤ (pos 0) (score_of util req) ≡ false
    → ¬ HasRoom util req
unfolding score_of sub_int ◌-ℤ◌ wrap
score_nonpositive (pos u) (pos r) hu hr h = ground arith
score_nonpositive (pos u) (negsuc r) hu hr h = ground arith
score_nonpositive (negsuc u) (pos r) hu hr h = ground arith
score_nonpositive (negsuc u) (negsuc r) hu hr h = ground arith

-- What `cpuPartitioning` promises of each CPU that it picks.
pub record Picked (spec : MappedUtil) (req : ℤ) (id : String) : Type 0 where
  pub info : AllocatedUtil
  pub found : lookup id spec ≡ some info
  pub room : HasRoom info.util req

abbrev pub ModestEntries : MappedUtil → Type 0
ModestEntries = All (λ (e : String × AllocatedUtil). IsModest e.1.util)

Picked-cons :
    (id : String) (info : AllocatedUtil) (spec : MappedUtil) (req : ℤ)
    → Absent id spec
    → (k : String) → Picked spec req k
    → Picked ((id, info) ∷ spec) req k
Picked-cons id info spec req a k h = record {
  info = h.info;
  found = ground (
    arith,
    string_key.same_iff id k,
    lookup-Absent id spec a,
    h.found,
    ap (λ (j : String). lookup j spec) {x = id} {y = k},
  );
  room = h.room;
}

-- Each CPU that is scored has room.
pub scored_cpus-Picked :
    (spec : MappedUtil) (req : ℤ)
    → HasDistinctKeys spec
    → ModestEntries spec
    → IsModest req
    → All (λ c. Picked spec req c.cpu) (scored_cpus spec req)
unfolding scored_cpus
scored_cpus-Picked [] req d m r = tt
scored_cpus-Picked ((id, info) ∷ rest) req d m r =
    let others =
      All-map_of (λ c. Picked-cons id info rest req d.0 c.cpu) (scored_cpus rest req)
        (scored_cpus-Picked rest req d.1 m.1 r) in
    elim (Bool-cases (ltb_ℤ (pos 0) (score_of info.util req))) [
      | inl e ↦ rw e (
        record {
          info = info;
          found = rw eq_self refl;
          room = score_positive info.util req m.0 r e;
        },
        others,
      )
      | inr e ↦ rw e others
    ]

abbrev pub Differ : ScoredCpu → ScoredCpu → Type 0
Differ a b = a.cpu ≢ b.cpu

scored_cpus-Absent :
    (id : String) (spec : MappedUtil) (req : ℤ)
    → Absent id spec
    → All (λ c. id ≢ c.cpu) (scored_cpus spec req)
unfolding scored_cpus
scored_cpus-Absent id [] req a = tt
scored_cpus-Absent id ((j, info) ∷ rest) req a =
    elim (Bool-cases (ltb_ℤ (pos 0) (score_of info.util req))) [
      | inl e ↦ rw e ((λ h. a.0 (sym h)), scored_cpus-Absent id rest req a.1)
      | inr e ↦ rw e (scored_cpus-Absent id rest req a.1)
    ]

pub scored_cpus-Differ :
    (spec : MappedUtil) (req : ℤ) → HasDistinctKeys spec → AllPairs Differ (scored_cpus spec req)
unfolding scored_cpus
scored_cpus-Differ [] req d = tt
scored_cpus-Differ ((j, info) ∷ rest) req d =
    elim (Bool-cases (ltb_ℤ (pos 0) (score_of info.util req))) [
      | inl e ↦ rw e (scored_cpus-Absent j rest req d.0, scored_cpus-Differ rest req d.1)
      | inr e ↦ rw e (scored_cpus-Differ rest req d.1)
    ]
