-- ===== src/Controller/Made.antt =====
-- driver.go: a record that has its maps already is left as it is.
use dra_rt_driver.Prelude.{
  ◌≡◌, refl, sym, ◌∙◌, ap, subst, none, inl, inr, String, some, [], Option-cases,
}
use dra_rt_driver.Prelude.GoMap.{GoMap}
use dra_rt_driver.Prelude.Outcome.{ok, bind-ok, ok_injective}
use dra_rt_driver.Nas.{AllocatedCpuset, MappedUtil, NodeAllocationState, with_cpus}
use dra_rt_driver.Controller.Record.{make_claims, make_utils, initial_utils}

pub make_claims-made :
    (crd : NodeAllocationState) (claims : GoMap String AllocatedCpuset)
    → crd.spec.allocated_claims ≡ some claims
    → make_claims crd ≡ crd
unfolding make_claims
make_claims-made crd claims e = simp (make_claims, e)

pub make_utils-made :
    (crd : NodeAllocationState) (m : MappedUtil)
    → crd.spec.allocated_util_to_cpu.cpus ≡ some m
    → make_utils crd ≡ ok crd
unfolding make_utils
make_utils-made crd m e = simp (make_utils, e)

pub maps_made :
    (crd : NodeAllocationState) (claims : GoMap String AllocatedCpuset) (m : MappedUtil)
    → crd.spec.allocated_claims ≡ some claims
    → crd.spec.allocated_util_to_cpu.cpus ≡ some m
    → make_utils (make_claims crd) ≡ ok crd
maps_made crd claims m e f = ap make_utils (make_claims-made crd claims e) ∙ make_utils-made crd m f

make_claims-meta : (crd : NodeAllocationState) → (make_claims crd).meta ≡ crd.meta
unfolding make_claims
make_claims-meta crd = elim (Option-cases crd.spec.allocated_claims) [
  | inl e ↦ rw (make_claims, e) refl
  | inr (m, e) ↦ rw (make_claims, e) refl
]

make_utils-meta : (crd made : NodeAllocationState) → make_utils crd ≡ ok made → made.meta ≡ crd.meta
unfolding make_utils
make_utils-meta crd made h = elim (Option-cases crd.spec.allocated_util_to_cpu.cpus) [
  | inl e ↦
      let (utils, _, r) =
        bind-ok (initial_utils crd.spec.allocatable_cpuset []) (λ u. ok (with_cpus crd (some u)))
          made (rw (make_utils, e) at h) in
      ap (λ (x : NodeAllocationState). x.meta) (sym (ok_injective r))
  | inr (m, e) ↦
      let r : ok crd ≡ ok made = rw (make_utils, e) at h in
      ap (λ (x : NodeAllocationState). x.meta) (sym (ok_injective r))
]

-- The maps that are made leave the name as it is.
pub made-meta :
    (crd made : NodeAllocationState) → make_utils (make_claims crd) ≡ ok made → made.meta ≡ crd.meta
made-meta crd made e = make_utils-meta (make_claims crd) made e ∙ make_claims-meta crd

-- Two records with the same allocations; status, prepared claims and metadata may differ, and the
-- allocatable CPUs too when the utilisations are there.
pub record SameAllocation (c d : NodeAllocationState) : Type 0 where
  pub claims : c.spec.allocated_claims ≡ d.spec.allocated_claims
  pub utils : c.spec.allocated_util_to_cpu ≡ d.spec.allocated_util_to_cpu
  pub allocatable :
      d.spec.allocated_util_to_cpu.cpus ≡ none
      → c.spec.allocatable_cpuset ≡ d.spec.allocatable_cpuset

make_claims-SameAllocation :
    (c d : NodeAllocationState)
    → SameAllocation c d
    → SameAllocation (make_claims c) (make_claims d)
unfolding make_claims
make_claims-SameAllocation c d s = elim (Option-cases d.spec.allocated_claims) [
  | inl e ↦
      let f : c.spec.allocated_claims ≡ none = s.claims ∙ e in
      rw (make_claims, e, f)
        (record { claims = refl; utils = s.utils; allocatable = s.allocatable })
  | inr (m, e) ↦
      subst (λ x. SameAllocation x (make_claims d)) (sym (make_claims-made c m (s.claims ∙ e)))
        (subst (λ x. SameAllocation c x) (sym (make_claims-made d m e)) s)
]

make_utils-SameAllocation :
    (c d made : NodeAllocationState)
    → SameAllocation c d
    → make_utils d ≡ ok made
    → (m : NodeAllocationState) × (make_utils c ≡ ok m) × SameAllocation m made
unfolding make_utils
make_utils-SameAllocation c d made s h = elim (Option-cases d.spec.allocated_util_to_cpu.cpus) [
  | inl e ↦
      let (utils, run, r) =
        bind-ok (initial_utils d.spec.allocatable_cpuset []) (λ u. ok (with_cpus d (some u))) made
          (rw (make_utils, e) at h) in
      let f : c.spec.allocated_util_to_cpu.cpus ≡ none = ap (λ u. u.cpus) s.utils ∙ e in
      let run' : initial_utils c.spec.allocatable_cpuset [] ≡ ok utils =
        ap (λ l. initial_utils l []) (s.allocatable e) ∙ run in
      (
        with_cpus c (some utils),
        rw (make_utils, f, run') refl,
        subst (λ x. SameAllocation (with_cpus c (some utils)) x) (ok_injective r)
            (record { claims = s.claims; utils = refl; allocatable = λ x. absurd (cc) }),
      )
  | inr (m, e) ↦
      let r : ok d ≡ ok made = rw (make_utils, e) at h in
      (
        c,
        make_utils-made c m (ap (λ u. u.cpus) s.utils ∙ e),
        subst (λ x. SameAllocation c x) (ok_injective r) s,
      )
]

-- Records with the same allocations get the same maps.
pub SameAllocation-made :
    (c d made : NodeAllocationState)
    → SameAllocation c d
    → make_utils (make_claims d) ≡ ok made
    → (m : NodeAllocationState) × (make_utils (make_claims c) ≡ ok m) × SameAllocation m made
SameAllocation-made c d made s h =
    make_utils-SameAllocation (make_claims c) (make_claims d) made
      (make_claims-SameAllocation c d s) h
