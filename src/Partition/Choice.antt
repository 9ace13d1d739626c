-- ===== src/Partition/Choice.antt =====
-- rt.go, cpuPartitioning: the function is total, refuses exactly when too few CPUs have room, and
-- otherwise picks a first part of the CPUs that it has sorted.
use dra_rt_driver.Prelude.{
  ℕ, zero, suc, ◌+◌, ◌≤◌, ◌<◌, ◌≡◌, ◌≢◌, ◌⊎◌, inl, inr, refl, sym, ap, subst, ◌↔◌, ◌∙◌, String,
  string_key, ◌==◌, if◌then◌else◌, true, false, List, [], ◌∷◌, ◌++◌, map, length, length-map,
  length-append, All, AllPairs, All-map, AllPairs-map, All-append_left, AllPairs-append_left, arith,
  Bool-cases, ltb,
}
use dra_rt_driver.Prelude.Int.{ℤ, pos, negsuc, pos_part, neg_part, ltb_ℤ}
use dra_rt_driver.Prelude.GoMap.{HasDistinctKeys}
use dra_rt_driver.Prelude.Outcome.{ok, err, failed, not_enough_cpus, ◌>>=◌}
use dra_rt_driver.Nas.{MappedUtil}
use dra_rt_driver.Partition.Sort.{
  sort_stable, length-sort_stable, All-sort_stable, AllPairs-sort_stable,
}
use dra_rt_driver.Partition.Fits.{
  IsModest, ModestEntries, Picked, Differ, scored_cpus-Picked, scored_cpus-Differ, score_positive,
  score_nonpositive,
}
use dra_rt_driver.Partition.{
  ScoredCpu, more_room, less_room, scored_cpus, sort_cpus, first_cpus, cpu_partitioning,
}

abbrev pub cpu_of : ScoredCpu → String
cpu_of c = c.cpu

-- The CPUs that are picked, and those that are passed over.
pub record Choice (spec : MappedUtil) (req_util req_cpus : ℤ) (policy : String) (ids : List String)
    : Type 0 where
  pub chosen : List ScoredCpu
  pub rest : List ScoredCpu
  pub picks : ids ≡ map cpu_of chosen
  pub count : length chosen ≡ pos_part req_cpus
  pub split : sort_cpus policy (scored_cpus spec req_util) ≡ chosen ++ rest

record Prefix (n : ℕ) (scored : List ScoredCpu) : Type 0 where
  chosen : List ScoredCpu
  rest : List ScoredCpu
  runs : first_cpus n scored ≡ ok (map cpu_of chosen)
  count : length chosen ≡ n
  split : scored ≡ chosen ++ rest

first_cpus-Prefix : (n : ℕ) (scored : List ScoredCpu) → n ≤ length scored → Prefix n scored
unfolding first_cpus
first_cpus-Prefix zero scored h = record {
  chosen = [];
  rest = scored;
  runs = refl;
  count = refl;
  split = refl;
}
first_cpus-Prefix (suc n) [] h = absurd (omega arith)
first_cpus-Prefix (suc n) (c ∷ scored) h =
    let p = first_cpus-Prefix n scored (omega arith) in
    record {
      chosen = c ∷ p.chosen;
      rest = p.rest;
      runs = rw (p.runs, ◌>>=◌) refl;
      count = ap suc p.count;
      split = ap (◌∷◌ c) p.split;
    }

-- The three cases of the policy sort by two orders.
pub by_policy {κ} :
    (P : List ScoredCpu → Type κ) (policy : String) (scored : List ScoredCpu)
    → P (sort_stable more_room scored)
    → P (sort_stable less_room scored)
    → P (sort_cpus policy scored)
unfolding sort_cpus
by_policy P policy scored worst best = elim (Bool-cases (policy == "worstFit")) [
  | inl e ↦ rw e worst
  | inr e ↦
      rw e (elim (Bool-cases (policy == "bestFit")) [ inl e' ↦ rw e' best | inr e' ↦ rw e' worst ])
]

length-sort_cpus :
    (policy : String) (scored : List ScoredCpu) → length (sort_cpus policy scored) ≡ length scored
length-sort_cpus policy scored =
    by_policy (λ xs. length xs ≡ length scored) policy scored (length-sort_stable more_room scored)
      (length-sort_stable less_room scored)

few_cpus : (n : ℕ) (z : ℤ) → ltb_ℤ (pos n) z ≡ true → n < pos_part z
few_cpus n (pos m) h = ground arith
few_cpus n (negsuc m) h = ground arith

enough_cpus : (n : ℕ) (z : ℤ) → ltb_ℤ (pos n) z ≡ false → pos_part z ≤ n
enough_cpus n (pos m) h = ground arith
enough_cpus n (negsuc m) h = ground arith

-- For every request the function returns: with the CPUs at the head of the sorted list, or, when
-- fewer CPUs have a positive score than are requested, with an error; it never indexes out of range.
pub cpu_partitioning-Choice :
    (spec : MappedUtil) (req_util req_cpus : ℤ) (policy : String)
    → ((ids : List String) × (cpu_partitioning spec req_util req_cpus policy ≡ ok ids)
        × Choice spec req_util req_cpus policy ids)
      ⊎ ((cpu_partitioning spec req_util req_cpus policy ≡ err (failed not_enough_cpus))
          × (length (scored_cpus spec req_util) < pos_part req_cpus))
unfolding cpu_partitioning
cpu_partitioning-Choice spec req_util req_cpus policy =
    elim (Bool-cases (ltb_ℤ (pos (length (scored_cpus spec req_util))) req_cpus)) [
      | inl e ↦ inr (rw e refl, few_cpus _ req_cpus e)
      | inr e ↦
          let p =
            first_cpus-Prefix (pos_part req_cpus) (sort_cpus policy (scored_cpus spec req_util)) (
              rw (length-sort_cpus policy (scored_cpus spec req_util))
                (enough_cpus _ req_cpus e)) in
          inl (
            map cpu_of p.chosen,
            rw e p.runs,
            record {
              chosen = p.chosen;
              rest = p.rest;
              picks = refl;
              count = p.count;
              split = p.split;
            },
          )
    ]

-- CPUs that keep below 950 thousandths with the request on top.
pub rooms : MappedUtil → ℤ → ℕ
rooms [] req = 0
rooms ((id, info) ∷ rest) req =
    (if ltb (pos_part info.util + pos_part req) (950 + neg_part info.util + neg_part req)
      then 1
      else 0)
    + rooms rest req

pub length-scored_cpus :
    (spec : MappedUtil) (req : ℤ)
    → ModestEntries spec
    → IsModest req
    → length (scored_cpus spec req) ≡ rooms spec req
unfolding scored_cpus rooms
length-scored_cpus [] req m r = refl
length-scored_cpus ((id, info) ∷ rest) req m r = ground (
  arith,
  length-scored_cpus rest req m.1 r,
  score_positive info.util req m.0 r,
  score_nonpositive info.util req m.0 r,
)

-- Distinct texts.
abbrev pub IsDistinct : List String → Type 0
IsDistinct = AllPairs (λ x y. x ≢ y)

module _ (spec : MappedUtil) (req_util req_cpus : ℤ) (policy : String)
    (distinct : HasDistinctKeys spec) (modest : ModestEntries spec)
    (small : IsModest req_util) where
  sorted_Picked :
      All (λ c. Picked spec req_util c.cpu) (sort_cpus policy (scored_cpus spec req_util))
  sorted_Picked =
      let all = scored_cpus-Picked spec req_util distinct modest small in
      by_policy (All (λ c. Picked spec req_util c.cpu)) policy (scored_cpus spec req_util)
        (All-sort_stable _ more_room _ all) (All-sort_stable _ less_room _ all)

  sorted_Differ : AllPairs Differ (sort_cpus policy (scored_cpus spec req_util))
  sorted_Differ =
      let all = scored_cpus-Differ spec req_util distinct in
      let flip = λ (a b : ScoredCpu) (h : a.cpu ≢ b.cpu). λ (e : b.cpu ≡ a.cpu). h (sym e) in
      by_policy (AllPairs Differ) policy (scored_cpus spec req_util)
        (AllPairs-sort_stable Differ flip more_room _ all)
        (AllPairs-sort_stable Differ flip less_room _ all)

  -- With distinct CPUs whose utilisations, like the request, are far from the ends of `int`, what
  -- the function returns are as many CPUs as are requested (none for a negative number), all
  -- different, each an entry of the map that keeps below 950 thousandths with the request on top.
  pub cpu_partitioning_sound :
      (ids : List String)
      → cpu_partitioning spec req_util req_cpus policy ≡ ok ids
      → (length ids ≡ pos_part req_cpus) × All (Picked spec req_util) ids × IsDistinct ids
  cpu_partitioning_sound ids run = elim (cpu_partitioning-Choice spec req_util req_cpus policy) [
    | inl (ids', run', c) ↦
        let same : ids ≡ map cpu_of c.chosen = (cc) in
        rw same (
          length-map cpu_of c.chosen ∙ c.count,
          All-map cpu_of _ c.chosen (
              All-append_left _ c.chosen c.rest
                (subst (All (λ x. Picked spec req_util x.cpu)) c.split sorted_Picked)),
          AllPairs-map cpu_of _ c.chosen (
              AllPairs-append_left _ c.chosen c.rest
                (subst (AllPairs Differ) c.split sorted_Differ)),
        )
    | inr (refused, _) ↦ absurd (cc)
  ]

  -- Then the request is refused exactly when fewer CPUs have room for it than are requested.
  pub cpu_partitioning_refuses :
      (cpu_partitioning spec req_util req_cpus policy ≡ err (failed not_enough_cpus))
      ↔ (rooms spec req_util < pos_part req_cpus)
  cpu_partitioning_refuses = (
    λ refused. elim (cpu_partitioning-Choice spec req_util req_cpus policy) [
      | inl (ids, run, _) ↦ absurd (cc)
      | inr (_, few) ↦ rw (← length-scored_cpus spec req_util modest small) few
    ],
    λ few. elim (cpu_partitioning-Choice spec req_util req_cpus policy) [
      | inl (ids, run, c) ↦ absurd (
          omega (
            arith,
            few,
            c.count,
            ap length c.split,
            length-append c.chosen c.rest,
            length-sort_cpus policy (scored_cpus spec req_util),
            length-scored_cpus spec req_util modest small,
          ))
      | inr (refused, _) ↦ refused
    ],
  )
