-- ===== src/Plugin/State/Restart.antt =====
-- state.go: what a plugin that starts again gets back of the claims that were prepared, through the
-- record that the plugin before it wrote.
use dra_rt_driver.Prelude.{
  ◌≡◌, ◌≢◌, refl, sym, ap, ◌∙◌, String, string_key, ◌==◌, Bool-cases, inl, inr, none, some, List,
  [], ◌∷◌, ◌++◌, All, map,
}
use mathlib.Core.Option
use dra_rt_driver.Prelude.Int.{ℤ, pos, int_key}
use dra_rt_driver.Prelude.GoMap.{GoMap, lookup, insert, Absent, HasDistinctKeys}
use dra_rt_driver.Prelude.Outcome.{ok, ◌>>=◌}
use dra_rt_driver.Nas
use dra_rt_driver.Nas.{PreparedCpu, NodeAllocationStateSpec}
use dra_rt_driver.Plugin.Devices.{
  PreparedRtCpuInfo, PreparedRtCpu, PreparedCpuset, AllocatableRtCpus, PreparedClaims, DeviceState,
}
use dra_rt_driver.Plugin.State.{
  get_updated_spec, sync_allocatable_to_spec, sync_prepared_to_spec, sync_prepared_loop,
  prepared_to_spec, sync_prepared_from_spec, restore_loop, prepared_from_spec,
}
use dra_rt_driver.Plugin.State.Laws.{append_one, append_nil}

abbrev pub map_values : {K V W : Type 0} → (V → W) → List (K × V) → List (K × W)
map_values f [] = []
map_values f ((k, v) ∷ m) = (k, f v) ∷ map_values f m

-- The utilisation of an allocatable CPU.
abbrev pub util_of : AllocatableRtCpus → ℤ → ℤ
util_of cpus id = elim (lookup id cpus) [ none ↦ pos 0 | some info ↦ info.util ]

-- What is left of a prepared CPU: its number, with the utilisation of the allocatable CPU.
abbrev pub remembered : AllocatableRtCpus → PreparedRtCpuInfo → PreparedRtCpuInfo
remembered cpus x = record { id = x.id; util = util_of cpus x.id; runtime = pos 0; period = pos 0 }

abbrev pub remembered_claim : AllocatableRtCpus → PreparedCpuset → PreparedCpuset
remembered_claim cpus d = record {
  rt_cpu =
      Option.map (λ (rt : PreparedRtCpu). record { cpuset = map (remembered cpus) rt.cpuset })
        d.rt_cpu;
}

-- The CPU is among the allocatable ones, under its number.
abbrev pub IsKnown : AllocatableRtCpus → PreparedRtCpuInfo → Type 0
IsKnown cpus x = (u : ℤ) × (lookup x.id cpus ≡ some (record { id = x.id; util = u }))

-- A prepared claim that holds real-time CPUs, all of them known.
pub record IsRestorable (cpus : AllocatableRtCpus) (e : String × PreparedCpuset) : Type 0 where
  pub rt : PreparedRtCpu
  pub is_rt : e.1 ≡ record { rt_cpu = some rt }
  pub known : All (IsKnown cpus) rt.cpuset

insert-Absent :
    {V : Type 0} (k : String) (v : V) (m : List (String × V))
    → Absent k m
    → insert k v m ≡ m ++ (k, v) ∷ []
unfolding insert
insert-Absent k v [] a = refl
insert-Absent k v ((j, w) ∷ m) a = elim (Bool-cases (j == k)) [
  | inl e ↦ absurd (a.0 ((string_key.same_iff j k).0 e))
  | inr e ↦ rw e (ap (λ r. (j, w) ∷ r) (insert-Absent k v m a.1))
]

Absent-snoc :
    {V : Type 0} (i k : String) (v : V) (m : List (String × V))
    → Absent i m
    → k ≢ i
    → Absent i (m ++ (k, v) ∷ [])
Absent-snoc i k v [] a n = (n, tt)
Absent-snoc i k v ((j, w) ∷ m) a n = (a.0, Absent-snoc i k v m a.1 n)

-- No key of `m` is a key of `acc`.
abbrev IsFresh : {V W : Type 0} → List (String × W) → List (String × V) → Type 0
IsFresh acc [] = Unit
IsFresh acc ((k, v) ∷ m) = Absent k acc × IsFresh acc m

IsFresh-snoc :
    {V W : Type 0} (acc : List (String × W)) (k : String) (w : W) (m : List (String × V))
    → IsFresh acc m
    → Absent k m
    → IsFresh (acc ++ (k, w) ∷ []) m
IsFresh-snoc acc k w [] f a = tt
IsFresh-snoc acc k w ((j, v) ∷ m) f a =
    (Absent-snoc j k w acc f.0 (λ h. a.0 (sym h)), IsFresh-snoc acc k w m f.1 a.1)

IsFresh-nil : {V : Type 0} (W : Type 0) (m : List (String × V)) → IsFresh {W = W} [] m
IsFresh-nil W [] = tt
IsFresh-nil W ((k, v) ∷ m) = (tt, IsFresh-nil W m)

-- What a prepared claim is in the record.
abbrev pub in_spec : PreparedCpuset → Nas.PreparedCpuset
in_spec d = record {
  rt_cpu =
      Option.map (λ (rt : PreparedRtCpu). record { cpuset = prepared_to_spec rt.cpuset }) d.rt_cpu;
}

sync_prepared_loop-eq-map :
    (cpus : AllocatableRtCpus) (m : PreparedClaims) (acc : GoMap String Nas.PreparedCpuset)
    → HasDistinctKeys m
    → IsFresh acc m
    → All (IsRestorable cpus) m
    → sync_prepared_loop m acc ≡ ok (acc ++ map_values in_spec m)
unfolding sync_prepared_loop
sync_prepared_loop-eq-map cpus [] acc d f r = ap ok (sym (append_nil acc))
sync_prepared_loop-eq-map cpus ((k, v) ∷ m) acc d f r =
    let h = r.0 in
    let w = in_spec (record { rt_cpu = some h.rt }) in
    let rest =
      sync_prepared_loop-eq-map cpus m (acc ++ (k, w) ∷ []) d.1 (IsFresh-snoc acc k w m f.1 d.0)
        r.1 in
    rw h.is_rt
      (rw (insert-Absent k w acc f.0) (rest ∙ ap ok (append_one acc (k, w) (map_values in_spec m))))

prepared_from_spec-eq-map :
    (cpus : AllocatableRtCpus) (xs acc : List PreparedRtCpuInfo)
    → All (IsKnown cpus) xs
    → prepared_from_spec cpus (prepared_to_spec xs) acc ≡ ok (acc ++ map (remembered cpus) xs)
unfolding prepared_from_spec prepared_to_spec
prepared_from_spec-eq-map cpus [] acc h = ap ok (sym (append_nil acc))
prepared_from_spec-eq-map cpus (x ∷ xs) acc h =
    let (u, e) = h.0 in
    let y : PreparedRtCpuInfo = record { id = x.id; util = u; runtime = pos 0; period = pos 0 } in
    let rest = prepared_from_spec-eq-map cpus xs (acc ++ y ∷ []) h.1 in
    let used : util_of cpus x.id ≡ u = rw (util_of, e) refl in
    rw e (
      rest
      ∙ ap ok (append_one acc y (map (remembered cpus) xs))
      ∙ ap
          (λ z. ok (
            acc
            ++ record { id = x.id; util = z; runtime = pos 0; period = pos 0 }
              ∷ map (remembered cpus) xs))
          (sym used))

restore_loop-eq-map :
    (cpus : AllocatableRtCpus) (m acc : PreparedClaims)
    → HasDistinctKeys m
    → IsFresh acc m
    → All (IsRestorable cpus) m
    → restore_loop cpus (map_values in_spec m) acc
      ≡ ok (acc ++ map_values (remembered_claim cpus) m)
unfolding restore_loop
restore_loop-eq-map cpus [] acc d f r = ap ok (sym (append_nil acc))
restore_loop-eq-map cpus ((k, v) ∷ m) acc d f r =
    let h = r.0 in
    let w = remembered_claim cpus (record { rt_cpu = some h.rt }) in
    let rest =
      restore_loop-eq-map cpus m (acc ++ (k, w) ∷ []) d.1 (IsFresh-snoc acc k w m f.1 d.0) r.1 in
    rw h.is_rt (
      rw (prepared_from_spec-eq-map cpus h.rt.cpuset [] h.known, insert-Absent k w acc f.0)
        (rest ∙ ap ok (append_one acc (k, w) (map_values (remembered_claim cpus) m))))

-- For prepared claims under distinct names that all hold known CPUs: the record can be written, and
-- a plugin with the same allocatable CPUs that starts from it has the same claims prepared, with the
-- same CPUs; of each CPU the number is kept, the utilisation is that of the allocatable CPU, and
-- runtime and period are 0.
pub restart_remembers :
    (s t : DeviceState) (spec : NodeAllocationStateSpec)
    → HasDistinctKeys s.prepared
    → All (IsRestorable s.allocatable) s.prepared
    → t.allocatable ≡ s.allocatable
    → (spec' : NodeAllocationStateSpec) × (get_updated_spec s spec ≡ ok spec')
      × (sync_prepared_from_spec t spec'
          ≡ ok (record t { prepared = map_values (remembered_claim s.allocatable) s.prepared }))
unfolding get_updated_spec sync_allocatable_to_spec sync_prepared_to_spec sync_prepared_from_spec
restart_remembers s t spec distinct restorable same =
    let write =
      sync_prepared_loop-eq-map s.allocatable s.prepared [] distinct
        (IsFresh-nil Nas.PreparedCpuset s.prepared) restorable in
    let read =
      restore_loop-eq-map s.allocatable s.prepared [] distinct
        (IsFresh-nil PreparedCpuset s.prepared) restorable in
    let read' : restore_loop t.allocatable (map_values in_spec s.prepared) []
        ≡ ok (map_values (remembered_claim s.allocatable) s.prepared) =
      rw same read in
    (
      record (sync_allocatable_to_spec s spec) {
        prepared_claims = some (map_values in_spec s.prepared);
      },
      rw (get_updated_spec, sync_prepared_to_spec, write, ◌>>=◌) refl,
      rw (sync_prepared_from_spec, read', ◌>>=◌) refl,
    )
