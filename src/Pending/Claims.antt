-- ===== src/Pending/Claims.antt =====
-- allocations.go: `RemoveUtil` and `RemoveUtilOtherNodes` over all the nodes of a claim.
use dra_rt_driver.Prelude.{
  ◌≡◌, refl, sym, ap, subst, ◌∙◌, String, string_key, ◌==◌, if◌then◌else◌, none, some, List, [],
  ◌∷◌, ◌++◌, arith, All, Option-cases, Bool-cases, inl, inr, true,
}
use dra_rt_driver.Prelude.GoMap.{GoMap, lookup, insert, lookup-insert}
use dra_rt_driver.Prelude.Outcome.{ok, ◌>>=◌}
use dra_rt_driver.Nas.{AllocatedCpu, AllocatedCpuset, AllocatedUtilset, MappedUtil}
use dra_rt_driver.Pending.{
  PerNodeAllocatedClaims, nodes_of, release_node, remove_util_at, remove_util_loop, remove_util,
  remove_other_at, remove_other_loop, remove_util_other_nodes,
}
use dra_rt_driver.Pending.Release.{
  Releases, Releases-nil, release_cpus-Releases, ReleasesAll, ReleasesAll-append,
  ReleasesAll-IsMade, IsMade, IsSoundClaim, cpus_of,
}

-- The reservations `cs` on one node, and none on the others.
abbrev on : String → List AllocatedCpu → String → List AllocatedCpu
on node cs n = if node == n then cs else []

-- The reservations that the entries of a claim hold on a node.
abbrev pub reserved : GoMap String AllocatedCpuset → String → List AllocatedCpu
reserved [] n = []
reserved ((node, a) ∷ rest) n = on node (cpus_of a) n ++ reserved rest n

-- Those on other nodes than `current`.
abbrev pub reserved_elsewhere : String → GoMap String AllocatedCpuset → String → List AllocatedCpu
reserved_elsewhere current [] n = []
reserved_elsewhere current ((node, a) ∷ rest) n =
    on node (if node == current then [] else cpus_of a) n ++ reserved_elsewhere current rest n

-- What a call leaves: the allocations as they were, the utilisation lower by `amount`.
pub record Leaves (amount : String → List AllocatedCpu) (p q : PerNodeAllocatedClaims)
    : Type 0 where
  pub allocations : q.allocations ≡ p.allocations
  pub utilisation : ReleasesAll amount p.utilisation q.utilisation

on-nil : (node n : String) → on node [] n ≡ []
on-nil node n = ground arith

on_elsewhere :
    (node n : String) (cs : List AllocatedCpu) (utils : GoMap String AllocatedUtilset)
    {us : AllocatedUtilset}
    → lookup node utils ≡ none
    → lookup n utils ≡ some us
    → on node cs n ≡ []
on_elsewhere node n cs utils e e' =
    ground
      (arith, string_key.same_iff node n, ap (λ (j : String). lookup j utils) {x = node} {y = n})

Leaves-refl :
    (p : PerNodeAllocatedClaims) (f : String → List AllocatedCpu)
    → ((n : String) (m : MappedUtil)
        → lookup n p.utilisation ≡ some (record { cpus = some m })
        → f n ≡ [])
    → Leaves f p p
Leaves-refl p f h = record {
  allocations = refl;
  utilisation = record { at = λ n m e. (m, e, rw (h n m e) (Releases-nil m)); missing = λ n e. e };
}

Leaves-append :
    (f g : String → List AllocatedCpu) {p q r : PerNodeAllocatedClaims}
    → Leaves f p q
    → Leaves g q r
    → Leaves (λ n. f n ++ g n) p r
Leaves-append f g a b = record {
  allocations = b.allocations ∙ a.allocations;
  utilisation = ReleasesAll-append f g a.utilisation b.utilisation;
}

same_map :
    (node n : String) (utils : GoMap String AllocatedUtilset) {m m₁ : MappedUtil}
    → (node == n) ≡ true
    → lookup node utils ≡ some (record { cpus = some m })
    → lookup n utils ≡ some (record { cpus = some m₁ })
    → m ≡ m₁
same_map node n utils hit e e₁ =
    cc (ap (λ (j : String). lookup j utils) ((string_key.same_iff node n).0 hit), e, e₁)

ReleasesAll-insert :
    (node : String) (cs : List AllocatedCpu) (utils : GoMap String AllocatedUtilset)
    {m m' : MappedUtil}
    → lookup node utils ≡ some (record { cpus = some m })
    → Releases cs m m'
    → ReleasesAll (on node cs) utils (insert node (record { cpus = some m' }) utils)
ReleasesAll-insert node cs utils {m} {m'} e r = record {
  at = λ n m₁ e₁. elim (Bool-cases (node == n)) [
    | inl hit ↦ (
      m',
      rw (lookup-insert, hit) refl,
      rw hit (subst (λ x. Releases cs x m') (same_map node n utils hit e e₁) r),
    )
    | inr miss ↦ (m₁, rw (lookup-insert, miss) e₁, rw miss (Releases-nil m₁))
  ];
  missing = λ n e₁. elim (Bool-cases (node == n)) [
    | inl hit ↦
        absurd
          (cc (ap (λ (j : String). lookup j utils) ((string_key.same_iff node n).0 hit), e, e₁))
    | inr miss ↦ rw (lookup-insert, miss) e₁
  ];
}

-- The body of the outer loop on a node that has a map of utilisations.
release_node-Leaves :
    (node : String) (a : AllocatedCpuset) (m : MappedUtil) (p : PerNodeAllocatedClaims)
    → IsSoundClaim a
    → lookup node p.utilisation ≡ some (record { cpus = some m })
    → (q : PerNodeAllocatedClaims) × (release_node node a (record { cpus = some m }) p ≡ ok q)
      × Leaves (on node (cpus_of a)) p q
unfolding release_node
release_node-Leaves node a m p s e =
    let (m', run, r) = release_cpus-Releases s.rt.cpuset m s.sound in
    (
      record p { utilisation = insert node (record { cpus = some m' }) p.utilisation },
      rw (s.is_rt, run) refl,
      record {
        allocations = refl;
        utilisation =
            ReleasesAll-insert node (cpus_of a) p.utilisation e
              (subst (λ (b : AllocatedCpuset). Releases (cpus_of b) m m') (sym s.is_rt) r);
      },
    )

remove_util_at-Leaves :
    (node : String) (a : AllocatedCpuset) (p : PerNodeAllocatedClaims)
    → IsSoundClaim a
    → IsMade p.utilisation
    → (q : PerNodeAllocatedClaims) × (remove_util_at node a p ≡ ok q)
      × Leaves (on node (cpus_of a)) p q
unfolding remove_util_at
remove_util_at-Leaves node a p s made = elim (Option-cases (lookup node p.utilisation)) [
  | inl e ↦ (
    p,
    rw (e, remove_util_at) refl,
    Leaves-refl p _ λ n m e'. on_elsewhere node n _ p.utilisation e e',
  )
  | inr (us, e) ↦
      let (m, is_map) = made.at node us e in
      let (q, run, l) = release_node-Leaves node a m p s (rw (← is_map) e) in
      (q, rw (e, remove_util_at, is_map) run, l)
]

remove_util_loop-Leaves :
    (nodes : GoMap String AllocatedCpuset) (p : PerNodeAllocatedClaims)
    → All (λ (e : String × AllocatedCpuset). IsSoundClaim e.1) nodes
    → IsMade p.utilisation
    → (q : PerNodeAllocatedClaims) × (remove_util_loop nodes p ≡ ok q) × Leaves (reserved nodes) p q
unfolding remove_util_loop
remove_util_loop-Leaves [] p s made = (p, refl, Leaves-refl p _ λ n m e. refl)
remove_util_loop-Leaves ((node, a) ∷ rest) p s made =
    let (q, run, l) = remove_util_at-Leaves node a p s.0 made in
    let (r, run', l') =
      remove_util_loop-Leaves rest q s.1 (ReleasesAll-IsMade l.utilisation made) in
    (r, rw (run, ◌>>=◌) run', Leaves-append (on node (cpus_of a)) (reserved rest) l l')

-- `RemoveUtil` of a claim whose reservations are sound, over utilisation maps that are made, ends
-- with no panic, leaves the allocations as they are, and takes off each CPU of each node what the
-- claim reserves there, never going below zero; a node without utilisation data stays without.
pub remove_util-Leaves :
    (p : PerNodeAllocatedClaims) (uid : String)
    → All (λ (e : String × AllocatedCpuset). IsSoundClaim e.1) (nodes_of p uid)
    → IsMade p.utilisation
    → (q : PerNodeAllocatedClaims) × (remove_util p uid ≡ ok q)
      × Leaves (reserved (nodes_of p uid)) p q
unfolding remove_util
remove_util-Leaves p uid s made = remove_util_loop-Leaves (nodes_of p uid) p s made

remove_other_at-Leaves :
    (current node : String) (a : AllocatedCpuset) (p : PerNodeAllocatedClaims)
    → IsSoundClaim a
    → IsMade p.utilisation
    → (q : PerNodeAllocatedClaims) × (remove_other_at current node a p ≡ ok q)
      × Leaves (on node (if node == current then [] else cpus_of a)) p q
unfolding remove_other_at
remove_other_at-Leaves current node a p s made = elim (Option-cases (lookup node p.utilisation)) [
  | inl e ↦ (
    p,
    rw (e, remove_other_at) refl,
    Leaves-refl p _ λ n m e'. on_elsewhere node n _ p.utilisation e e',
  )
  | inr (us, e) ↦ elim (Bool-cases (node == current)) [
    | inl here ↦
        (p, rw (e, remove_other_at, here) refl, Leaves-refl p _ λ n m _. rw here (on-nil node n))
    | inr elsewhere ↦
        let (m, is_map) = made.at node us e in
        let (q, run, l) = release_node-Leaves node a m p s (rw (← is_map) e) in
        (q, rw (e, remove_other_at, elsewhere, is_map) run, rw elsewhere l)
  ]
]

remove_other_loop-Leaves :
    (current : String) (nodes : GoMap String AllocatedCpuset) (p : PerNodeAllocatedClaims)
    → All (λ (e : String × AllocatedCpuset). IsSoundClaim e.1) nodes
    → IsMade p.utilisation
    → (q : PerNodeAllocatedClaims) × (remove_other_loop current nodes p ≡ ok q)
      × Leaves (reserved_elsewhere current nodes) p q
unfolding remove_other_loop
remove_other_loop-Leaves current [] p s made = (p, refl, Leaves-refl p _ λ n m e. refl)
remove_other_loop-Leaves current ((node, a) ∷ rest) p s made =
    let (q, run, l) = remove_other_at-Leaves current node a p s.0 made in
    let (r, run', l') =
      remove_other_loop-Leaves current rest q s.1 (ReleasesAll-IsMade l.utilisation made) in
    (r, rw (run, ◌>>=◌) run', Leaves-append _ (reserved_elsewhere current rest) l l')

-- `RemoveUtilOtherNodes` does the same on every node but `current`, whose utilisation it leaves.
pub remove_util_other_nodes-Leaves :
    (p : PerNodeAllocatedClaims) (uid current : String)
    → All (λ (e : String × AllocatedCpuset). IsSoundClaim e.1) (nodes_of p uid)
    → IsMade p.utilisation
    → (q : PerNodeAllocatedClaims) × (remove_util_other_nodes p uid current ≡ ok q)
      × Leaves (reserved_elsewhere current (nodes_of p uid)) p q
unfolding remove_util_other_nodes
remove_util_other_nodes-Leaves p uid current s made =
    remove_other_loop-Leaves current (nodes_of p uid) p s made

-- What is reserved elsewhere leaves the current node out.
pub reserved_elsewhere_current :
    (current : String) (nodes : GoMap String AllocatedCpuset)
    → reserved_elsewhere current nodes current ≡ []
reserved_elsewhere_current current [] = refl
reserved_elsewhere_current current ((node, a) ∷ rest) =
    ground (arith, reserved_elsewhere_current current rest)
