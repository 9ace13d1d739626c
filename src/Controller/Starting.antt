-- ===== src/Controller/Starting.antt =====
-- driver.go, allocate and unsuitableNode: the utilisations of a record that has none yet.
use dra_rt_driver.Prelude.{
  ℕ, ◌<◌, ◌≡◌, ◌⊎◌, inl, inr, refl, sym, ap, String, string_key, ◌==◌, Bool-cases, none, some, List,
  [], ◌∷◌, All,
}
use dra_rt_driver.Prelude.Int.{pos, Fits}
use dra_rt_driver.Prelude.Decimal.{itoa, atoi-itoa}
use dra_rt_driver.Prelude.GoMap.{
  lookup, lookup-insert, lookup-insert_hit, insert, All-insert, HasDistinctKeys-insert,
}
use dra_rt_driver.Prelude.Outcome.{ok, ◌>>=◌}
use dra_rt_driver.Nas.{
  AllocatableCpu, AllocatableCpuset, AllocatedUtil, MappedUtil, NodeAllocationState, with_cpus,
}
use dra_rt_driver.Rt.Within.{IsWithin, IsWithinEntry}
use dra_rt_driver.Controller.Record.{initial_utils, make_utils}

-- An allocatable CPU that is a real-time CPU with less than 950 thousandths in use; its number fits
-- an `int`.
pub record HasRoom (c : AllocatableCpuset) : Type 0 where
  pub cpu : AllocatableCpu
  pub used : ℕ
  pub is_rt : c.rt_cpu ≡ some cpu
  pub is_used : cpu.util ≡ pos used
  pub within : used < 950
  pub numbered : Fits cpu.id

initial_utils-IsWithin :
    (cs : List AllocatableCpuset) (acc : MappedUtil)
    → All HasRoom cs
    → IsWithin acc
    → (m : MappedUtil) × (initial_utils cs acc ≡ ok m) × IsWithin m
unfolding initial_utils
initial_utils-IsWithin [] acc all w = (acc, refl, w)
initial_utils-IsWithin (c ∷ cs) acc all w =
    let h = all.0 in
    let key = itoa h.cpu.id in
    let (m, e, within) =
      initial_utils-IsWithin cs (insert key (record { util = h.cpu.util }) acc) all.1 (record {
        distinct = HasDistinctKeys-insert key (record { util = h.cpu.util }) acc w.distinct;
        all =
            All-insert IsWithinEntry key (record { util = h.cpu.util }) acc
              (record {
                used = h.used;
                is_used = h.is_used;
                within = h.within;
                canonical = ap itoa (atoi-itoa h.cpu.id h.numbered);
              })
              w.all;
      }) in
    (m, rw (h.is_rt, ◌>>=◌) e, within)

-- The entry comes from one of the allocatable CPUs: its key is the CPU's number, and its utilisation
-- the CPU's.
pub data IsFrom (k : String) (v : AllocatedUtil) : List AllocatableCpuset → Type 0 where
  here :
      {c : AllocatableCpuset} {cs : List AllocatableCpuset} (cpu : AllocatableCpu)
      → c.rt_cpu ≡ some cpu
      → itoa cpu.id ≡ k
      → v.util ≡ cpu.util
      → IsFrom k v (c ∷ cs)
  later :
      {c : AllocatableCpuset} {cs : List AllocatableCpuset} → IsFrom k v cs → IsFrom k v (c ∷ cs)

-- A CPU has an entry under its number.
pub record Stands (m : MappedUtil) (c : AllocatableCpuset) : Type 0 where
  pub cpu : AllocatableCpu
  pub is_rt : c.rt_cpu ≡ some cpu
  pub entry : AllocatedUtil
  pub found : lookup (itoa cpu.id) m ≡ some entry

-- The map has an entry for every CPU, and no other: what it holds under a number is the utilisation of
-- a CPU with this number.
pub record Lists (cs : List AllocatableCpuset) (m : MappedUtil) : Type 0 where
  pub each : All (Stands m) cs
  pub only : (k : String) (v : AllocatedUtil) → lookup k m ≡ some v → IsFrom k v cs

-- What the loop keeps of the entries that it starts with, and adds to them.
record Extends (cs : List AllocatableCpuset) (acc m : MappedUtil) : Type 0 where
  each : All (Stands m) cs
  kept :
      (k : String) (v : AllocatedUtil)
      → lookup k acc ≡ some v
      → (u : AllocatedUtil) × (lookup k m ≡ some u)
  only :
      (k : String) (v : AllocatedUtil)
      → lookup k m ≡ some v
      → IsFrom k v cs ⊎ (lookup k acc ≡ some v)

-- An entry of the map after the first CPU is in.
insert-IsFrom :
    (k : String) (v : AllocatedUtil) (c : AllocatableCpuset) (cs : List AllocatableCpuset)
    (cpu : AllocatableCpu) (acc : MappedUtil)
    → c.rt_cpu ≡ some cpu
    → lookup k (insert (itoa cpu.id) (record { util = cpu.util }) acc) ≡ some v
    → IsFrom k v (c ∷ cs) ⊎ (lookup k acc ≡ some v)
insert-IsFrom k v c cs cpu acc is_rt h = elim (Bool-cases (itoa cpu.id == k)) [
  | inl hit ↦
      let f : some (record { util = cpu.util }) ≡ some v =
        rw (lookup-insert (itoa cpu.id) k (record { util = cpu.util }) acc, hit) at h in
      let g : record { util = cpu.util } ≡ v = cc in
      inl (here cpu is_rt ((string_key.same_iff (itoa cpu.id) k).0 hit) (ap (λ x. x.util) (sym g)))
  | inr miss ↦ inr (rw (lookup-insert (itoa cpu.id) k (record { util = cpu.util }) acc, miss) at h)
]

initial_utils-Extends :
    (cs : List AllocatableCpuset) (acc m : MappedUtil)
    → All HasRoom cs
    → initial_utils cs acc ≡ ok m
    → Extends cs acc m
unfolding initial_utils
initial_utils-Extends [] acc m all e =
    let same : acc ≡ m = cc in
    record { each = tt; kept = λ k v h. (v, rw (← same) h); only = λ k v h. inr (rw same h) }
initial_utils-Extends (c ∷ cs) acc m all e =
    let h = all.0 in
    let key = itoa h.cpu.id in
    let value : AllocatedUtil = record { util = h.cpu.util } in
    let run : initial_utils cs (insert key value acc) ≡ ok m = rw (h.is_rt, ◌>>=◌) at e in
    let x = initial_utils-Extends cs (insert key value acc) m all.1 run in
    let (u, at_key) = x.kept key value (lookup-insert_hit key value acc) in
    record {
      each = (record { cpu = h.cpu; is_rt = h.is_rt; entry = u; found = at_key }, x.each);
      kept = λ k v f. elim (Bool-cases (key == k)) [
        | inl hit ↦ (u, rw (← (string_key.same_iff key k).0 hit) at_key)
        | inr miss ↦ x.kept k v (rw (lookup-insert key k value acc, miss) f)
      ];
      only = λ k v f. elim (x.only k v f) [
        | inl from ↦ inl (later from)
        | inr start ↦ insert-IsFrom k v c cs h.cpu acc h.is_rt start
      ];
    }

initial_utils-Lists :
    (cs : List AllocatableCpuset) (m : MappedUtil)
    → All HasRoom cs
    → initial_utils cs [] ≡ ok m
    → Lists cs m
initial_utils-Lists cs m all e =
    let x = initial_utils-Extends cs [] m all e in
    record {
      each = x.each;
      only = λ k v h. elim (x.only k v h) [ inl from ↦ from | inr f ↦ absurd (cc) ];
    }

-- For a record without a map of utilisations, whose allocatable CPUs are all real-time CPUs with less
-- than 950 thousandths in use and a number that fits an `int`: in the map that is made every CPU has
-- an entry under its number; every entry is under the number of a CPU, with the utilisation of a CPU
-- of this number; no key stands twice, and every entry is below 950 thousandths, as `allocate` of
-- rt.go wants it; the rest of the record stays.
pub make_utils-IsWithin :
    (crd : NodeAllocationState)
    → crd.spec.allocated_util_to_cpu.cpus ≡ none
    → All HasRoom crd.spec.allocatable_cpuset
    → (m : MappedUtil) × (make_utils crd ≡ ok (with_cpus crd (some m)))
      × IsWithin m
      × Lists crd.spec.allocatable_cpuset m
unfolding make_utils
make_utils-IsWithin crd nil all =
    let (m, e, within) =
      initial_utils-IsWithin crd.spec.allocatable_cpuset [] all
        (record { distinct = tt; all = tt }) in
    (
      m,
      rw (make_utils, nil, e, ◌>>=◌) refl,
      within,
      initial_utils-Lists crd.spec.allocatable_cpuset m all e,
    )
