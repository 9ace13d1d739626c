-- ===== src/Mutex/Table.antt =====
-- mutex.go, Get: a name has one mutex, and no other name has it.
use dra_rt_driver.Prelude.{
  ℕ, suc, ◌<◌, ◌≡◌, refl, sym, ap, ◌∙◌, String, string_key, Option, none, some, List, [], ◌∷◌, All,
  AllPairs, All-map_of, arith,
}
use dra_rt_driver.Prelude.GoMap.{lookup, insert, lookup-insert}
use dra_rt_driver.Mutex.{Mutexes, new_mutexes, get, gets}

-- The mutexes of the table are allocated, and no two names share one.
pub record IsTable (pnm : Mutexes) : Type 0 where
  pub fresh : (a : String) (m : ℕ) → lookup a pnm.submutex ≡ some m → m < pnm.allocated
  pub apart :
      (a b : String) (m : ℕ)
      → lookup a pnm.submutex ≡ some m
      → lookup b pnm.submutex ≡ some m
      → a ≡ b

abbrev Holds : Mutexes → String × ℕ → Type 0
Holds pnm c = lookup c.0 pnm.submutex ≡ some c.1

new_mutexes-IsTable : (n : ℕ) → IsTable (new_mutexes n)
unfolding new_mutexes
new_mutexes-IsTable n = record { fresh = λ a m e. absurd (cc); apart = λ a b m e e'. absurd (cc) }

-- What a call of `Get` gives and keeps.
record Gets (pnm : Mutexes) (node : String) (r : ℕ × Mutexes) : Type 0 where
  table : IsTable r.1
  holds : Holds r.1 (node, r.0)
  keeps : (c : String × ℕ) → Holds pnm c → Holds r.1 c

get-Gets : (pnm : Mutexes) (node : String) → IsTable pnm → Gets pnm node (get pnm node)
unfolding get
get-Gets pnm node t = go (lookup node pnm.submutex) refl
  where
    go :
        (r : Option ℕ)
        → lookup node pnm.submutex ≡ r
        → Gets pnm node (elim r as (λ _. ℕ × Mutexes) [
          | some m ↦ (m, pnm)
          | none ↦ (
            pnm.allocated,
            record {
              submutex = insert node pnm.allocated pnm.submutex;
              allocated = suc pnm.allocated;
            },
          )
        ])
    go (some m) e = record { table = t; holds = e; keeps = λ c h. h }
    go none e =
        let at = λ (a : String). lookup-insert node a pnm.allocated pnm.submutex in
        record {
          table = record {
            fresh = λ a m h. ground (arith, at a, t.fresh a m);
            apart = λ a b m h h'. ground (
              arith,
              at a,
              at b,
              t.fresh a m,
              t.fresh b m,
              t.apart a b m,
              string_key.same_iff node a,
              string_key.same_iff node b,
            );
          };
          holds = ground (arith, at node, string_key.same_iff node node);
          keeps = λ c h. ground (arith, at c.0, string_key.same_iff node c.0);
        }

gets-keeps :
    (pnm : Mutexes) (nodes : List String)
    → IsTable pnm
    → IsTable (gets pnm nodes).1
      × All (Holds (gets pnm nodes).1) (gets pnm nodes).0
      × ((c : String × ℕ) → Holds pnm c → Holds (gets pnm nodes).1 c)
unfolding gets
gets-keeps pnm [] t = (t, tt, λ c h. h)
gets-keeps pnm (node ∷ nodes) t =
    let g = get-Gets pnm node t in
    let (table, all, keeps) = gets-keeps (get pnm node).1 nodes g.table in
    (table, (keeps (node, (get pnm node).0) g.holds, all), λ c h. keeps c (g.keeps c h))

-- Two calls return the same mutex exactly when their names are equal.
unfoldable pub SameByName : String × ℕ → String × ℕ → Type 0
SameByName c d = (c.0 ≡ d.0 → c.1 ≡ d.1) × (c.1 ≡ d.1 → c.0 ≡ d.0)

Holds-SameByName :
    (pnm : Mutexes) (c d : String × ℕ) → IsTable pnm → Holds pnm c → Holds pnm d → SameByName c d
unfolding SameByName
Holds-SameByName pnm c d t h i = (
  λ e. let q : some c.1 ≡ some d.1 = sym h ∙ ap (λ a. lookup a pnm.submutex) e ∙ i in cc,
  λ e. t.apart c.0 d.0 c.1 h (i ∙ ap some (sym e)),
)

AllPairs-SameByName :
    (pnm : Mutexes) (cs : List (String × ℕ))
    → IsTable pnm
    → All (Holds pnm) cs
    → AllPairs SameByName cs
AllPairs-SameByName pnm [] t h = tt
AllPairs-SameByName pnm (c ∷ cs) t h =
    (All-map_of (λ d. Holds-SameByName pnm c d t h.0) cs h.1, AllPairs-SameByName pnm cs t h.1)

-- Of the calls of `Get` in any sequence on a new table, two return the same mutex exactly when their
-- names are equal.
pub gets-SameByName :
    (n : ℕ) (nodes : List String) → AllPairs SameByName (gets (new_mutexes n) nodes).0
gets-SameByName n nodes =
    let (table, all, keeps) = gets-keeps (new_mutexes n) nodes (new_mutexes-IsTable n) in
    AllPairs-SameByName (gets (new_mutexes n) nodes).1 (gets (new_mutexes n) nodes).0 table all
