-- ===== src/Examples/Partition.antt =====
-- cpuPartitioning on three CPUs, two of which have room.
use dra_rt_driver.Prelude.{◌<◌, ◌≡◌, ◌↔◌, ◌⊎◌, refl, String, List, [], ◌∷◌, length, All, arith}
use dra_rt_driver.Prelude.Int.{pos, pos_part, sub_int, wrap, ◌-ℤ◌}
use dra_rt_driver.Prelude.GoMap.{HasDistinctKeys}
use dra_rt_driver.Prelude.Outcome.{ok, err, failed, not_enough_cpus}
use dra_rt_driver.Partition.{cpu_partitioning, scored_cpus, score_of, first_cpus, sort_cpus}
use dra_rt_driver.Partition.Sort.{sort_stable}
use dra_rt_driver.Partition.Fits.{IsModest, ModestEntries, Picked}
use dra_rt_driver.Partition.Choice.{
  Choice, IsDistinct, rooms, cpu_partitioning-Choice, cpu_partitioning_sound,
  cpu_partitioning_refuses,
}
use dra_rt_driver.Partition.Best.{IsWorstFit, cpu_partitioning-IsWorstFit}
use dra_rt_driver.Examples.Fixtures.{utils, ne_of_test}

pub utils-HasDistinctKeys : HasDistinctKeys utils
utils-HasDistinctKeys = (
  (ne_of_test "1" "0" refl, (ne_of_test "2" "0" refl, tt)),
  ((ne_of_test "2" "1" refl, tt), (tt, tt)),
)

utils-ModestEntries : ModestEntries utils
utils-ModestEntries = (
  record { above = omega arith; below = omega arith },
  (
    record { above = omega arith; below = omega arith },
    (record { above = omega arith; below = omega arith }, tt),
  ),
)

hundred-IsModest : IsModest (pos 100)
hundred-IsModest = record { above = omega arith; below = omega arith }

worst_fit : cpu_partitioning utils (pos 100) (pos 2) "worstFit" ≡ ok ("1" ∷ "0" ∷ [])
unfolding cpu_partitioning scored_cpus score_of sub_int wrap ◌-ℤ◌ first_cpus sort_cpus sort_stable
worst_fit = refl

best_fit : cpu_partitioning utils (pos 100) (pos 1) "bestFit" ≡ ok ("0" ∷ [])
unfolding cpu_partitioning scored_cpus score_of sub_int wrap ◌-ℤ◌ first_cpus sort_cpus sort_stable
best_fit = refl

too_many : cpu_partitioning utils (pos 100) (pos 3) "worstFit" ≡ err (failed not_enough_cpus)
unfolding cpu_partitioning scored_cpus score_of sub_int wrap ◌-ℤ◌ first_cpus sort_cpus sort_stable
too_many = refl

cpu_partitioning-Choice_example :
    ((ids : List String) × (cpu_partitioning utils (pos 100) (pos 2) "worstFit" ≡ ok ids)
      × Choice utils (pos 100) (pos 2) "worstFit" ids)
    ⊎ ((cpu_partitioning utils (pos 100) (pos 2) "worstFit" ≡ err (failed not_enough_cpus))
        × (length (scored_cpus utils (pos 100)) < pos_part (pos 2)))
cpu_partitioning-Choice_example = cpu_partitioning-Choice utils (pos 100) (pos 2) "worstFit"

cpu_partitioning_sound_example :
    (length {A = String} ("1" ∷ "0" ∷ []) ≡ pos_part (pos 2))
    × All (Picked utils (pos 100)) ("1" ∷ "0" ∷ [])
    × IsDistinct ("1" ∷ "0" ∷ [])
cpu_partitioning_sound_example =
    cpu_partitioning_sound utils (pos 100) (pos 2) "worstFit" utils-HasDistinctKeys
      utils-ModestEntries hundred-IsModest ("1" ∷ "0" ∷ []) worst_fit

cpu_partitioning_refuses_example :
    (cpu_partitioning utils (pos 100) (pos 3) "worstFit" ≡ err (failed not_enough_cpus))
    ↔ (rooms utils (pos 100) < pos_part (pos 3))
cpu_partitioning_refuses_example =
    cpu_partitioning_refuses utils (pos 100) (pos 3) "worstFit" utils-HasDistinctKeys
      utils-ModestEntries hundred-IsModest

cpu_partitioning-IsWorstFit_example : IsWorstFit utils (pos 100) (pos 2) "worstFit" ("1" ∷ "0" ∷ [])
cpu_partitioning-IsWorstFit_example =
    cpu_partitioning-IsWorstFit utils (pos 100) (pos 2) "worstFit" ("1" ∷ "0" ∷ [])
      (ne_of_test "worstFit" "bestFit" refl) worst_fit
