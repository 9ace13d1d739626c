-- ===== src/Examples/Mutex.antt =====
-- mutex.go at concrete names.
use dra_rt_driver.Prelude.{[], ◌∷◌, AllPairs}
use dra_rt_driver.Mutex.{new_mutexes, gets}
use dra_rt_driver.Mutex.Table.{SameByName, gets-SameByName}

gets-SameByName_example : AllPairs SameByName (gets (new_mutexes 0) ("a" ∷ "b" ∷ "a" ∷ [])).0
gets-SameByName_example = gets-SameByName 0 ("a" ∷ "b" ∷ "a" ∷ [])
