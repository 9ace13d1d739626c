-- ===== src/Mutex.antt =====
-- cmd/dra-rt-controller/mutex.go: `PerNodeMutex` and `PerCoreMutex`, which hold one mutex for each
-- name. A mutex is its number in the order in which the mutexes are allocated.
pub mod Table
use dra_rt_driver.Prelude.{
  ℕ, suc, ◌+◌, ◌<◌, ◌≡◌, ◌≢◌, refl, sym, ◌∙◌, String, string_key, Option, none, some, List, [], ◌∷◌,
  All, arith,
}
use dra_rt_driver.Prelude.GoMap.{GoMap, lookup, insert, lookup-insert}

-- The table of a `PerNodeMutex` or `PerCoreMutex`, and the number of mutexes allocated so far.
pub record Mutexes : Type 0 where
  pub submutex : GoMap String ℕ
  pub allocated : ℕ

-- `NewPerNodeMutex`, `NewPerCoreMutex`
unfoldable pub new_mutexes : ℕ → Mutexes
new_mutexes allocated = record { submutex = []; allocated = allocated }

-- `Get`
unfoldable pub get : Mutexes → String → ℕ × Mutexes
get pnm node = elim (lookup node pnm.submutex) as (λ _. ℕ × Mutexes) [
  | some m ↦ (m, pnm)
  | none ↦ (
    pnm.allocated,
    record { submutex = insert node pnm.allocated pnm.submutex; allocated = suc pnm.allocated },
  )
]

-- The mutexes that a sequence of calls of `Get` returns, and the table after it.
unfoldable pub gets : Mutexes → List String → List (String × ℕ) × Mutexes
gets pnm [] = ([], pnm)
gets pnm (node ∷ nodes) =
    let (m, pnm') = get pnm node in let (ms, end) = gets pnm' nodes in ((node, m) ∷ ms, end)
