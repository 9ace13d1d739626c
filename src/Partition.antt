-- ===== src/Partition.antt =====
-- `cpuPartitioning` of cmd/dra-rt-controller/rt.go: which CPUs of a node a claim gets. `spec` stands
-- in the order in which `range` delivers its entries.
pub mod Sort
pub mod Fits
pub mod Choice
pub mod Best
use dra_rt_driver.Prelude.{
  ℕ, zero, suc, String, string_key, ◌==◌, if◌then◌else◌, Bool, List, [], ◌∷◌, length,
}
use dra_rt_driver.Prelude.Int.{ℤ, pos, negsuc, pos_part, ltb_ℤ, sub_int}
use dra_rt_driver.Prelude.Outcome.{
  Outcome, ok, err, panic, failed, not_enough_cpus, index_out_of_range, ◌>>=◌,
}
use dra_rt_driver.Nas.{AllocatedUtil, MappedUtil}
use Sort.{sort_stable}

pub record ScoredCpu : Type 0 where
  pub cpu : String
  pub score : ℤ

-- `950 - cpuinfo.Util - reqUtil`
unfoldable pub score_of : ℤ → ℤ → ℤ
score_of util req = sub_int (sub_int (pos 950) util) req

-- The loop that scores the CPUs with room for the request.
unfoldable pub scored_cpus : MappedUtil → ℤ → List ScoredCpu
scored_cpus [] req = []
scored_cpus ((id, info) ∷ rest) req =
    let others = scored_cpus rest req in
    let score = score_of info.util req in
    if ltb_ℤ (pos 0) score then record { cpu = id; score = score } ∷ others else others

abbrev pub more_room : ScoredCpu → ScoredCpu → Bool
more_room a b = ltb_ℤ b.score a.score

abbrev pub less_room : ScoredCpu → ScoredCpu → Bool
less_room a b = ltb_ℤ a.score b.score

-- The switch on the policy.
unfoldable pub sort_cpus : String → List ScoredCpu → List ScoredCpu
sort_cpus policy scored =
    if policy == "worstFit"
    then sort_stable more_room scored
    else if policy == "bestFit"
    then sort_stable less_room scored
    else sort_stable more_room scored

-- `for i < n { fittingCpus = append(fittingCpus, scoredCpus[i].cpu) }`
unfoldable pub first_cpus : ℕ → List ScoredCpu → Outcome (List String)
first_cpus zero scored = ok []
first_cpus (suc n) [] = panic index_out_of_range
first_cpus (suc n) (c ∷ scored) = do rest ← first_cpus n scored; ok (c.cpu ∷ rest)

unfoldable pub cpu_partitioning : MappedUtil → ℤ → ℤ → String → Outcome (List String)
cpu_partitioning spec req_util req_cpus policy =
    let scored = scored_cpus spec req_util in
    if ltb_ℤ (pos (length scored)) req_cpus
    then err (failed not_enough_cpus)
    else first_cpus (pos_part req_cpus) (sort_cpus policy scored)
