-- ===== src/Partition/Best.antt =====
-- rt.go, cpuPartitioning: the policies, read as a guarantee about what is picked and passed over.
use mathlib.Core.List.{Perm}
use dra_rt_driver.Prelude.{
  ◌≡◌, ◌≢◌, refl, sym, subst, ◌∙◌, String, string_key, ◌==◌, false, List, ◌++◌, All, AllPairs-cross,
  arith, Bool-cases, inl, inr, All-map_of,
}
use dra_rt_driver.Prelude.Int.{ℤ, ◌≤ℤ◌}
use dra_rt_driver.Prelude.Outcome.{ok}
use dra_rt_driver.Nas.{MappedUtil}
use dra_rt_driver.Partition.Sort.{
  sort_stable, IsOrder, IsSorted, sort_stable-IsSorted, sort_stable-perm,
}
use dra_rt_driver.Partition.Choice.{Choice, cpu_partitioning-Choice}
use dra_rt_driver.Partition.{
  ScoredCpu, more_room, less_room, scored_cpus, sort_cpus, cpu_partitioning,
}

more_room-IsOrder : IsOrder more_room
more_room-IsOrder = record { asym = λ a b h. ground arith; trans = λ a b c h k. ground arith }

less_room-IsOrder : IsOrder less_room
less_room-IsOrder = record { asym = λ a b h. ground arith; trans = λ a b c h k. ground arith }

not_more_room : (a b : ScoredCpu) → more_room b a ≡ false → b.score ≤ℤ a.score
not_more_room a b h = ground arith

-- The candidates, split into those that are picked and those that are passed over, none of which
-- has a higher score than any that is picked.
pub record IsWorstFit (spec : MappedUtil) (req_util req_cpus : ℤ) (policy : String)
    (ids : List String) : Type 0 where
  pub choice : Choice spec req_util req_cpus policy ids
  pub candidates : Perm (choice.chosen ++ choice.rest) (scored_cpus spec req_util)
  pub best : All (λ a. All (λ b. b.score ≤ℤ a.score) choice.rest) choice.chosen

sort_cpus-eq_more_room :
    (policy : String) (scored : List ScoredCpu)
    → policy ≢ "bestFit"
    → sort_cpus policy scored ≡ sort_stable more_room scored
unfolding sort_cpus
sort_cpus-eq_more_room policy scored h = elim (Bool-cases (policy == "worstFit")) [
  | inl e ↦ rw e refl
  | inr e ↦ rw e (elim (Bool-cases (policy == "bestFit")) [
    | inl e' ↦ absurd (h ((string_key.same_iff policy "bestFit").0 e'))
    | inr e' ↦ rw e' refl
  ])
]

-- Under every policy but `bestFit` the CPUs that are picked are the ones with the most room: of the
-- CPUs with a positive score, none that is passed over has a higher score than one that is picked.
pub cpu_partitioning-IsWorstFit :
    (spec : MappedUtil) (req_util req_cpus : ℤ) (policy : String) (ids : List String)
    → policy ≢ "bestFit"
    → cpu_partitioning spec req_util req_cpus policy ≡ ok ids
    → IsWorstFit spec req_util req_cpus policy ids
cpu_partitioning-IsWorstFit spec req_util req_cpus policy ids other run =
    elim (cpu_partitioning-Choice spec req_util req_cpus policy) [
      | inl (ids', run', c) ↦
          let same : ids' ≡ ids = (cc) in
          let sorted = sort_cpus-eq_more_room policy (scored_cpus spec req_util) other in
          let split = sym sorted ∙ c.split in
          subst (IsWorstFit spec req_util req_cpus policy) same (record {
            choice = c;
            candidates =
                subst (λ l. Perm l (scored_cpus spec req_util)) split
                  (sort_stable-perm more_room (scored_cpus spec req_util));
            best =
                All-map_of (λ a. All-map_of (λ b. not_more_room a b) c.rest) c.chosen
                  (AllPairs-cross _ c.chosen c.rest (
                    subst (IsSorted more_room) split (
                      sort_stable-IsSorted more_room more_room-IsOrder
                        (scored_cpus spec req_util))));
          })
      | inr (refused, _) ↦ absurd (cc)
    ]
