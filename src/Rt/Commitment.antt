-- ===== src/Rt/Commitment.antt =====
-- rt.go and allocations.go together: what a node has promised. A CPU's load is what the record of the
-- node has in use, and what is pending on the node for claims that the record does not hold yet.
use dra_rt_driver.Prelude.{
  ℕ, ◌+◌, ◌≤◌, ◌≡◌, refl, sym, ap, ◌∙◌, subst, String, string_key, ◌==◌, Bool-cases, inl, inr,
  Option, none, some, List, [], ◌∷◌, All, arith,
}
use mathlib.Core.Bool.{false≢true}
use dra_rt_driver.Prelude.GoMap.{
  GoMap, lookup, insert, delete, entries, lookup-insert_hit, lookup-insert_miss, Absent,
  HasDistinctKeys,
}
use dra_rt_driver.Nas.{AllocatedCpu, AllocatedRtCpu, AllocatedCpuset}
use dra_rt_driver.Nas.Load.{load}

abbrev pub cpus_of : Option AllocatedRtCpu → List AllocatedCpu
cpus_of none = []
cpus_of (some rt) = rt.cpuset

-- What a pending allocation adds to a CPU, by what the record of the node holds for its claim.
unfoldable pub waiting : String → Option AllocatedCpuset → Option AllocatedCpuset → ℕ
waiting k (some held) pending = 0
waiting k none none = 0
waiting k none (some a) = load k (cpus_of a.rt_cpu)

-- What the pending allocations of a node add to a CPU.
unfoldable pub pending_load :
    String → String → GoMap String AllocatedCpuset → GoMap String (GoMap String AllocatedCpuset) → ℕ
pending_load k node held [] = 0
pending_load k node held ((uid, nodes) ∷ rest) =
    waiting k (lookup uid held) (lookup node nodes) + pending_load k node held rest

module _ (k node : String) (held : GoMap String AllocatedCpuset) where
  pub pending_load-insert :
      (uid : String) (nodes : GoMap String AllocatedCpuset)
      (m : GoMap String (GoMap String AllocatedCpuset))
      → pending_load k node held (insert uid nodes m)
        ≤ pending_load k node held m + waiting k (lookup uid held) (lookup node nodes)
  unfolding pending_load insert
  pending_load-insert uid nodes [] = omega arith
  pending_load-insert uid nodes ((j, w) ∷ m) = elim (Bool-cases (j == uid)) [
    | inl hit ↦ rw (hit, ap (λ i. lookup i held) ((string_key.same_iff j uid).0 hit)) (omega arith)
    | inr miss ↦ rw miss (omega (arith, pending_load-insert uid nodes m))
  ]

  -- An insertion that leaves the node's allocation of the claim as it was.
  pub pending_load-insert_same :
      (uid : String) (nodes : GoMap String AllocatedCpuset)
      (m : GoMap String (GoMap String AllocatedCpuset))
      → lookup node nodes ≡ lookup node (entries (lookup uid m))
      → pending_load k node held (insert uid nodes m) ≡ pending_load k node held m
  unfolding pending_load insert waiting
  pending_load-insert_same uid nodes [] e = rw e (ground arith)
  pending_load-insert_same uid nodes ((j, w) ∷ m) e = elim (Bool-cases (j == uid)) [
    | inl hit ↦ let e' : lookup node nodes ≡ lookup node w = rw hit at e in rw (hit, e') refl
    | inr miss ↦
        let e' : lookup node nodes ≡ lookup node (entries (lookup uid m)) = rw miss at e in
        rw (miss, pending_load-insert_same uid nodes m e') refl
  ]

  pub pending_load-delete :
      (uid : String) (m : GoMap String (GoMap String AllocatedCpuset))
      → pending_load k node held (delete uid m) ≤ pending_load k node held m
  unfolding pending_load delete
  pending_load-delete uid [] = omega arith
  pending_load-delete uid ((j, w) ∷ m) = ground (arith, pending_load-delete uid m)

  pub pending_load-delete_held :
      (uid : String) (a : AllocatedCpuset) (m : GoMap String (GoMap String AllocatedCpuset))
      → lookup uid held ≡ some a
      → pending_load k node held (delete uid m) ≡ pending_load k node held m
  unfolding pending_load delete waiting
  pending_load-delete_held uid a [] e = refl
  pending_load-delete_held uid a ((j, w) ∷ m) e = elim (Bool-cases (j == uid)) [
    | inl hit ↦
        rw (hit, (string_key.same_iff j uid).0 hit, e, pending_load-delete_held uid a m e)
          (omega arith)
    | inr miss ↦ rw (miss, pending_load-delete_held uid a m e) refl
  ]

  pub pending_load-hold-Absent :
      (uid : String) (a : AllocatedCpuset) (m : GoMap String (GoMap String AllocatedCpuset))
      → Absent uid m
      → pending_load k node (insert uid a held) m ≡ pending_load k node held m
  unfolding pending_load
  pending_load-hold-Absent uid a [] h = refl
  pending_load-hold-Absent uid a ((j, w) ∷ m) h =
      rw (lookup-insert_miss uid j a held h.0, pending_load-hold-Absent uid a m h.1) refl

  -- A claim that the record comes to hold is pending no more.
  pub pending_load-hold :
      (uid : String) (a : AllocatedCpuset) (m : GoMap String (GoMap String AllocatedCpuset))
      → HasDistinctKeys m
      → lookup uid held ≡ none
      → pending_load k node (insert uid a held) m
          + waiting k none (lookup node (entries (lookup uid m)))
        ≡ pending_load k node held m
  unfolding pending_load waiting
  pending_load-hold uid a [] d h = refl
  pending_load-hold uid a ((j, w) ∷ m) d h = elim (Bool-cases (j == uid)) [
    | inl hit ↦
        let same : j ≡ uid = (string_key.same_iff j uid).0 hit in
        rw
          (
            hit,
            same,
            lookup-insert_hit uid a held,
            h,
            pending_load-hold-Absent uid a m (subst (λ i. Absent i m) same d.0),
          )
          (omega arith)
    | inr miss ↦
        rw
          (
            miss,
            lookup-insert_miss uid j a held
                (λ q. false≢true (sym miss ∙ (string_key.same_iff j uid).1 q)),
          )
          (omega (arith, pending_load-hold uid a m d.1 h))
  ]

  pub pending_load-none :
      (m : GoMap String (GoMap String AllocatedCpuset))
      → All
          (λ (e : String × GoMap String AllocatedCpuset).
            waiting k (lookup e.0 held) (lookup node e.1) ≡ 0)
          m
      → pending_load k node held m ≡ 0
  unfolding pending_load
  pending_load-none [] h = refl
  pending_load-none ((j, w) ∷ m) h = rw (h.0, pending_load-none m h.1) refl
