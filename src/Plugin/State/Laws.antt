-- ===== src/Plugin/State/Laws.antt =====
-- state.go, Prepare and Unprepare: what they return and what they leave prepared.
use dra_rt_driver.Prelude.{
  ◌≡◌, ◌≢◌, refl, sym, ap, ◌∙◌, String, string_key, Option, none, some, List, [], ◌∷◌, ◌++◌, All,
  map, arith,
}
use dra_rt_driver.Prelude.Int.{pos}
use dra_rt_driver.Prelude.GoMap.{lookup, insert, delete, lookup-insert, lookup-delete, eq_self}
use dra_rt_driver.Prelude.Outcome.{
  Outcome, ok, err, panic, Error, Panic, within, failed, cdi_names, cdi_devices_nil,
  delete_spec_file, wrap_error,
}
use dra_rt_driver.Prelude.Exec
use dra_rt_driver.Nas.{AllocatedCpu, AllocatedRtCpu, AllocatedCpuset}
use dra_rt_driver.Nas.Load.{IsSoundCpu, share, claim_util-share}
use dra_rt_driver.Plugin.Devices.{PreparedRtCpuInfo, PreparedCpuset, DeviceState, prepared_type}
use dra_rt_driver.Plugin.Cdi.{
  CdiLib, CdiSpec, create_claim_spec_file, delete_claim_spec_file, get_claim_devices,
}
use dra_rt_driver.Plugin.State.{
  prepare, unprepare, prepare_devices, prepare_rt_cpus, prepare_cpus, unprepare_devices,
}

-- What is kept of a reservation.
abbrev pub info_of : AllocatedCpu → PreparedRtCpuInfo
info_of c = record {
  id = c.id;
  util = pos (share c.runtime c.period);
  runtime = c.runtime;
  period = pos 0;
}

abbrev pub prepared_of : AllocatedRtCpu → PreparedCpuset
prepared_of rt = record { rt_cpu = some (record { cpuset = map info_of rt.cpuset }) }

pub append_one {ℓ} :
    {A : Type ℓ} (xs : List A) (y : A) (ys : List A) → (xs ++ y ∷ []) ++ ys ≡ xs ++ y ∷ ys
append_one [] y ys = refl
append_one (x ∷ xs) y ys = ap (λ zs. x ∷ zs) (append_one xs y ys)

pub append_nil {ℓ} : {A : Type ℓ} (xs : List A) → xs ++ [] ≡ xs
append_nil [] = refl
append_nil (x ∷ xs) = ap (λ zs. x ∷ zs) (append_nil xs)

prepare_cpus-eq-map :
    (cs : List AllocatedCpu) (acc : List PreparedRtCpuInfo)
    → All IsSoundCpu cs
    → prepare_cpus cs acc ≡ ok (acc ++ map info_of cs)
unfolding prepare_cpus
prepare_cpus-eq-map [] acc h = ap ok (sym (append_nil acc))
prepare_cpus-eq-map (c ∷ cs) acc h = rw (claim_util-share c.runtime c.period h.0) (
    prepare_cpus-eq-map cs (acc ++ info_of c ∷ []) h.1
    ∙ ap ok (append_one acc (info_of c) (map info_of cs)))

prepare_devices-eq-prepared_of :
    (rt : AllocatedRtCpu)
    → All IsSoundCpu rt.cpuset
    → prepare_devices (record { rt_cpu = some rt }) ≡ ok (prepared_of rt)
unfolding prepare_devices prepare_rt_cpus
prepare_devices-eq-prepared_of rt h = rw (prepare_cpus-eq-map rt.cpuset [] h) refl

abbrev pub with_prepared : String → AllocatedRtCpu → DeviceState → DeviceState
with_prepared uid rt s = record s { prepared = insert uid (prepared_of rt) s.prepared }

-- What the CDI library documents: a spec that holds only environment variables has a version.
pub record HasVersions {R : Type 0} (lib : CdiLib R) : Type 0 where
  pub versions : (spec : CdiSpec) → (v : String) × (lib.minimum_required_version spec ≡ ok v)

module _ {R : Type 0} (lib : CdiLib R) (law : HasVersions lib) where
  create_claim_spec_file-ok :
      (rt : AllocatedRtCpu) → create_claim_spec_file lib (prepared_of rt) ≡ ok tt
  unfolding create_claim_spec_file
  create_claim_spec_file-ok rt = rw ((law.versions _).1) refl

  get_claim_devices-name :
      (vendor cpus : String) (rt : AllocatedRtCpu)
      → get_claim_devices lib (prepared_of rt) (some (vendor ∷ cpus ∷ []))
        ≡ ok (lib.qualified_name vendor "CPUSET" cpus ∷ [])
  unfolding get_claim_devices prepared_type
  get_claim_devices-name vendor cpus rt = refl

  -- With a CDI library that finds a version for every spec: the first `Prepare` of a claim with sound
  -- reservations, with its device named, returns the qualified name of the device and keeps the claim
  -- as prepared with each of its CPUs, their load included; a second `Prepare` of it, whatever its
  -- allocation, returns the same name and changes nothing.
  pub prepare_twice :
      (uid vendor cpus : String) (rt : AllocatedRtCpu) (a : AllocatedCpuset) (s : DeviceState)
      (r : R)
      → lookup uid s.prepared ≡ none
      → All IsSoundCpu rt.cpuset
      → (prepare lib uid (record { rt_cpu = some rt }) (some (vendor ∷ cpus ∷ [])) (s, r)
          ≡ (ok (lib.qualified_name vendor "CPUSET" cpus ∷ []), (with_prepared uid rt s, r)))
        × (prepare lib uid a (some (vendor ∷ cpus ∷ [])) (with_prepared uid rt s, r)
            ≡ (ok (lib.qualified_name vendor "CPUSET" cpus ∷ []), (with_prepared uid rt s, r)))
  unfolding prepare
  prepare_twice uid vendor cpus rt a s r fresh sound =
      let hit = lookup-insert uid uid (prepared_of rt) s.prepared in
      (
        rw
            (
              prepare,
              fresh,
              prepare_devices-eq-prepared_of rt sound,
              create_claim_spec_file-ok rt,
              get_claim_devices-name vendor cpus rt,
            )
            refl,
        rw (prepare, hit, eq_self uid, get_claim_devices-name vendor cpus rt) refl,
      )

  -- A `Prepare` of a claim without its devices: the claim is prepared before the error.
  pub prepare-nil_devices :
      (uid : String) (rt : AllocatedRtCpu) (s : DeviceState) (r : R)
      → lookup uid s.prepared ≡ none
      → All IsSoundCpu rt.cpuset
      → prepare lib uid (record { rt_cpu = some rt }) none (s, r)
        ≡ (err (within cdi_names (failed cdi_devices_nil)), (with_prepared uid rt s, r))
  unfolding prepare get_claim_devices prepared_type
  prepare-nil_devices uid rt s r fresh sound =
      rw (prepare, fresh, prepare_devices-eq-prepared_of rt sound, create_claim_spec_file-ok rt)
        refl

-- The state after `Unprepare`: on success the claim is not prepared and every other claim is as it
-- was; on an error, all are as they were.
pub record Unprepares (uid : String) (before after : DeviceState) (result : Outcome (Unit {0}))
    : Type 0 where
  pub forgets : result ≡ ok tt → lookup uid after.prepared ≡ none
  pub others : (j : String) → uid ≢ j → lookup j after.prepared ≡ lookup j before.prepared
  pub keeps : (e : Error) → result ≡ err e → after ≡ before

same_state : (uid : String) (s : DeviceState) (e : Error) → Unprepares uid s s (err e)
same_state uid s e = record {
  forgets = λ h. absurd (cc);
  others = λ j n. refl;
  keeps = λ x h. refl;
}

panicked : (uid : String) (s : DeviceState) (q : Panic) → Unprepares uid s s (panic q)
panicked uid s q = record { forgets = λ h. absurd (cc); others = λ j n. refl; keeps = λ x h. refl }

module _ {R : Type 0} (lib : CdiLib R) (uid : String) (s : DeviceState) where
  abbrev After : Outcome (Unit {0}) × (DeviceState × R) → Type 0
  After o = Unprepares uid s o.1.0 o.0

  abbrev forget : DeviceState → Outcome (Unit {0}) × R → Outcome (Unit {0}) × (DeviceState × R)
  forget s' x =
      Exec.continue (wrap_error delete_spec_file x.0)
        (λ u (w : DeviceState × R).
          (ok tt, (record w.0 { prepared = delete uid w.0.prepared }, w.1)))
        (s', x.1)

  forget-After : (x : Outcome (Unit {0}) × R) → After (forget s x)
  forget-After (ok u, t) = record {
    forgets = λ h. rw (lookup-delete uid uid s.prepared, eq_self uid) refl;
    others = λ j n. ground (arith, lookup-delete uid j s.prepared, string_key.same_iff uid j);
    keeps = λ e h. absurd (cc);
  }
  forget-After (err e, t) = same_state uid s (within delete_spec_file e)
  forget-After (panic q, t) = panicked uid s q

  devices-After :
      (d : Outcome (Unit {0})) (r : R)
      → After (
          Exec.continue d
            (λ u (w : DeviceState × R). forget w.0 (delete_claim_spec_file lib uid w.1))
            (s, r))
  devices-After (ok u) r = forget-After (delete_claim_spec_file lib uid r)
  devices-After (err e) r = same_state uid s e
  devices-After (panic q) r = panicked uid s q

  -- Whatever the CDI library does, `Unprepare` forgets the claim when it succeeds, keeps every claim
  -- when it fails, and never touches another claim.
  pub unprepare-Unprepares :
      (r : R) → Unprepares uid s (unprepare lib uid (s, r)).1.0 (unprepare lib uid (s, r)).0
  unfolding unprepare
  unprepare-Unprepares r = go (lookup uid s.prepared) refl
    where
      go :
          (x : Option PreparedCpuset)
          → lookup uid s.prepared ≡ x
          → Unprepares uid s (unprepare lib uid (s, r)).1.0 (unprepare lib uid (s, r)).0
      go none e =
          rw (unprepare, e) (record { forgets = λ h. e; others = λ j n. refl; keeps = λ x h. refl })
      go (some p) e = rw (unprepare, e) (devices-After (unprepare_devices lib p) r)
