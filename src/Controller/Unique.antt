-- ===== src/Controller/Unique.antt =====
-- driver.go, unique: the nodes of a claim without their repetitions.
use dra_rt_driver.Prelude.{
  ◌≡◌, ◌≢◌, refl, sym, ap, ◌∙◌, String, string_key, ◌==◌, List, [], ◌∷◌, ◌++◌, All, AllPairs, Bool,
  false, ◌||◌, arith, Option-cases, inl, inr,
}
use dra_rt_driver.Prelude.GoMap.{GoMap, lookup, insert, lookup-insert}
use dra_rt_driver.Pending.{is_some}
use dra_rt_driver.Controller.Record.{unique, unique_loop}

unfoldable pub contains : String → List String → Bool
contains x [] = false
contains x (y ∷ ys) = (y == x) || contains x ys

-- `news` has the entries of `s`, each once.
pub record IsUniqueOf (s news : List String) : Type 0 where
  pub distinct : AllPairs (λ (a b : String). a ≢ b) news
  pub entries : (x : String) → contains x news ≡ contains x s

contains-append :
    (x : String) (xs ys : List String) → contains x (xs ++ ys) ≡ contains x xs || contains x ys
unfolding contains
contains-append x [] ys = refl
contains-append x (z ∷ xs) ys = ground (arith, contains-append x xs ys)

All-ne-snoc :
    (z y : String) (xs : List String)
    → All (λ b. z ≢ b) xs
    → z ≢ y
    → All (λ b. z ≢ b) (xs ++ y ∷ [])
All-ne-snoc z y [] h n = (n, tt)
All-ne-snoc z y (x ∷ xs) h n = (h.0, All-ne-snoc z y xs h.1 n)

distinct-snoc :
    (xs : List String) (y : String)
    → AllPairs (λ (a b : String). a ≢ b) xs
    → contains y xs ≡ false
    → AllPairs (λ (a b : String). a ≢ b) (xs ++ y ∷ [])
unfolding contains
distinct-snoc [] y d e = (tt, tt)
distinct-snoc (x ∷ xs) y d e = (
  All-ne-snoc x y xs d.0 (λ h. absurd (ground (arith, string_key.same_iff x y))),
  distinct-snoc xs y d.1 (ground arith),
)

-- The set and the texts taken so far agree.
record Agrees (set : GoMap String (Unit {0})) (news : List String) : Type 0 where
  distinct : AllPairs (λ (a b : String). a ≢ b) news
  known : (x : String) → is_some (lookup x set) ≡ contains x news

unique_loop-entries :
    (set : GoMap String (Unit {0})) (news s : List String)
    → Agrees set news
    → AllPairs (λ (a b : String). a ≢ b) (unique_loop set news s)
      × ((x : String) → contains x (unique_loop set news s) ≡ contains x news || contains x s)
unfolding unique_loop contains
unique_loop-entries set news [] a = (a.distinct, λ x. ground arith)
unique_loop-entries set news (str ∷ s) a = elim (Option-cases (lookup str set)) [
  | inl e ↦
      let (d, c) = unique_loop-entries (insert str tt set) (news ++ str ∷ []) s (record {
        distinct = distinct-snoc news str a.distinct (sym (a.known str) ∙ rw e refl);
        known = λ x.
            ground
              (arith, a.known x, lookup-insert str x tt set, contains-append x news (str ∷ []));
      }) in
      (
        rw (unique_loop, e) d,
        λ x. rw (unique_loop, e) (ground (arith, c x, contains-append x news (str ∷ []))),
      )
  | inr (u, e) ↦
      let (d, c) = unique_loop-entries set news s a in
      (
        rw (unique_loop, e) d,
        λ x.
            rw (unique_loop, e)
              (ground (
                arith,
                c x,
                a.known x,
                a.known str,
                ap (λ (y : String). contains y news) {x = str} {y = x},
                string_key.same_iff str x,
              )),
      )
]

-- For every list of nodes `unique` returns the same nodes, each once.
pub unique-IsUniqueOf : (s : List String) → IsUniqueOf s (unique s)
unfolding unique contains
unique-IsUniqueOf s =
    let (d, c) = unique_loop-entries [] [] s (record { distinct = tt; known = λ x. refl }) in
    record { distinct = d; entries = c }
