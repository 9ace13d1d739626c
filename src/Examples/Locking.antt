-- ===== src/Examples/Locking.antt =====
-- The lock of allocations.go: `Get` and `VisitNode` against `Set`.
use dra_rt_driver.Prelude.{◌⊎◌, refl, Bool, [], ◌∷◌}
use dra_rt_driver.Pending.Locking.{
  Reader, Writer, Lock, read_locks, write_locks, unlocked, IsFinished, IsStuck, Step, Reach, start,
  later, requests, nested_reads_deadlock,
}
use dra_rt_driver.Pending.Locking
use dra_rt_driver.Pending.Locking.Progress.{single_reads_progress}

nested_reads_deadlock_example : (t : Lock) × Reach (unlocked Reader.get Writer.set) t × IsStuck t
nested_reads_deadlock_example = nested_reads_deadlock Reader.get Writer.set refl

abbrev asked : Lock
asked = record (unlocked (Reader.visit_node 2) Writer.set) { waits = Bool.true }

asked-Reach : Reach (unlocked (Reader.visit_node 2) Writer.set) asked
unfolding write_locks
asked-Reach = later start (requests (Locking.write_unlock ∷ []) refl refl refl)

single_reads_progress_example : IsFinished asked ⊎ ((u : Lock) × Step asked u)
single_reads_progress_example =
    single_reads_progress (Reader.visit_node 2) Writer.set asked refl asked-Reach
