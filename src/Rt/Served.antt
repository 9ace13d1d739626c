-- ===== src/Rt/Served.antt =====
-- rt.go, UnsuitableNode: what is pending for the claims of a pod on a node that fits.
use dra_rt_driver.Prelude.{
  ◌≡◌, ◌⊎◌, inl, inr, refl, sym, ap, ◌∙◌, String, string_key, ◌==◌, ◌&&◌, if◌then◌else◌, Bool, true,
  false, Bool-cases, Option-cases, some, List, length,
}
use mathlib.Core.Bool.{false≢true}
use dra_rt_driver.Prelude.Int.{ℤ, pos, eqb_ℤ, eqb_ℤ_iff}
use dra_rt_driver.Prelude.GoMap.{GoMap, lookup, entries, eq_self}
use dra_rt_driver.Prelude.Outcome.{Outcome, ok, err, panic, nil_dereference, ◌>>=◌}
use dra_rt_driver.Nas.{AllocatedCpu, AllocatedCpuset, NodeAllocationState, claim_util}
use dra_rt_driver.Params.{RtClaimParametersSpec}
use dra_rt_driver.Pending
use dra_rt_driver.Pending.{PerNodeAllocatedClaims}
use dra_rt_driver.Pending.View.{pending_at, pending_at-set}
use dra_rt_driver.Resource.{ClaimAllocation, ClaimParameters, Pod, rt_claim, other_parameters}
use dra_rt_driver.Rt.{Placing, place_new, place_claim, charge_cpus}
use dra_rt_driver.Rt.Propose.{claim_params}

module _ (node : String) (pod : Pod) (crd : NodeAllocationState)
    (allocated : GoMap String (List AllocatedCpu)) where
  -- The CPUs that were proposed for a claim, as an allocation to the pod.
  abbrev pub devices_for : String → List AllocatedCpu
  devices_for uid = entries (lookup uid allocated)

  abbrev pub allocation_for : String → AllocatedCpuset
  allocation_for uid = record {
    rt_cpu = some (record { cpuset = devices_for uid; cgroup_uid = pod.uid });
  }

  -- The claim is new to the node, has real-time parameters and got as many CPUs as it asks for, which
  -- are pending for it.
  pub record IsPlaced (p : PerNodeAllocatedClaims) (ca : ClaimAllocation) : Type 0 where
    pub params : RtClaimParametersSpec
    pub is_rt : ca.claim_parameters ≡ rt_claim params
    pub counts : params.count ≡ pos (length (devices_for ca.claim.uid))
    pub pending : pending_at p ca.claim.uid node ≡ some (allocation_for ca.claim.uid)

  abbrev pub IsHeld : ClaimAllocation → Type 0
  IsHeld ca =
      (a : AllocatedCpuset) × (lookup ca.claim.uid (entries crd.spec.allocated_claims) ≡ some a)

  -- From `s` to `t` nothing that was placed is lost.
  pub record Keeps (s t : PerNodeAllocatedClaims) : Type 0 where
    pub keeps : (ca : ClaimAllocation) → IsPlaced s ca → IsPlaced t ca

  -- A claim with as many CPUs as it asks for is made pending.
  charged-set :
      (uid : String) (params : RtClaimParametersSpec) (s t : Placing) (used : Outcome ℤ)
      → (used >>= λ u. ok (record s {
        pending = Pending.set s.pending uid node (allocation_for uid);
        util = charge_cpus u (devices_for uid) s.util;
      }))
        ≡ ok t
      → t.pending ≡ Pending.set s.pending uid node (allocation_for uid)
  charged-set uid params s t (ok u) h = ap pending_of (sym h)
    where
      pending_of : Outcome Placing → PerNodeAllocatedClaims
      pending_of (ok x) = x.pending
      pending_of r = t.pending
  charged-set uid params s t (err e) h = absurd (cc)
  charged-set uid params s t (panic q) h = absurd (cc)

  abbrev stopped_of : Placing → Outcome Placing → Bool
  stopped_of s (ok x) = x.stopped
  stopped_of s r = s.stopped

  place_new-set :
      (uid : String) (params : RtClaimParametersSpec) (s t : Placing)
      → place_new node pod uid params (devices_for uid) s ≡ ok t
      → t.stopped ≡ false
      → (params.count ≡ pos (length (devices_for uid)))
        × (t.pending ≡ Pending.set s.pending uid node (allocation_for uid))
  unfolding place_new
  place_new-set uid params s t h going =
      elim (Bool-cases (eqb_ℤ params.count (pos (length (devices_for uid))))) [
        | inl e ↦ (
          (eqb_ℤ_iff params.count (pos (length (devices_for uid)))).0 e,
          charged-set uid params s t (claim_util params.runtime params.period)
              (rw (place_new, e) at h),
        )
        | inr e ↦ absurd (
            let stops : ok (record s { stopped = true }) ≡ ok t = rw (place_new, e) at h in
            false≢true (sym going ∙ sym (ap (stopped_of s) stops)))
      ]

  set-Keeps :
      (p : PerNodeAllocatedClaims) (uid : String)
      → Keeps p (Pending.set p uid node (allocation_for uid))
  set-Keeps p uid = record {
    keeps = λ ca h. record {
      params = h.params;
      is_rt = h.is_rt;
      counts = h.counts;
      pending =
          pending_at-set p uid node (allocation_for uid) _ ca.claim.uid node refl
          ∙ same ca h (Bool-cases (uid == ca.claim.uid));
    };
  }
    where
      same :
          (ca : ClaimAllocation)
          → IsPlaced p ca
          → ((uid == ca.claim.uid) ≡ true) ⊎ ((uid == ca.claim.uid) ≡ false)
          → (if uid == ca.claim.uid && node == node
              then some (allocation_for uid)
              else pending_at p ca.claim.uid node)
            ≡ some (allocation_for ca.claim.uid)
      same ca h (inl e) =
          rw (e, eq_self node)
            (ap (λ u. some (allocation_for u)) ((string_key.same_iff uid ca.claim.uid).0 e))
      same ca h (inr e) = rw e h.pending

  -- One claim: it is held already, or it is placed.
  pub record Places (ca : ClaimAllocation) (s t : PerNodeAllocatedClaims) : Type 0 where
    pub served : IsHeld ca ⊎ IsPlaced t ca
    pub keeps : Keeps s t

  place_new-Places :
      (ca : ClaimAllocation) (params : RtClaimParametersSpec) (s t : Placing)
      → ca.claim_parameters ≡ rt_claim params
      → place_new node pod ca.claim.uid params (devices_for ca.claim.uid) s ≡ ok t
      → t.stopped ≡ false
      → Places ca s.pending t.pending
  place_new-Places ca params s t is_rt h going =
      let (counts, after) = place_new-set ca.claim.uid params s t h going in
      rw after (record {
        served = inr (record {
          params = params;
          is_rt = is_rt;
          counts = counts;
          pending =
              pending_at-set s.pending ca.claim.uid node (allocation_for ca.claim.uid) _
                ca.claim.uid node refl
              ∙ rw (eq_self ca.claim.uid, eq_self node) refl;
        });
        keeps = set-Keeps s.pending ca.claim.uid;
      })

  pub place_claim-Places :
      (ca : ClaimAllocation) (s t : Placing)
      → place_claim node pod crd allocated ca s ≡ ok t
      → t.stopped ≡ false
      → Places ca s.pending t.pending
  unfolding place_claim claim_params
  place_claim-Places ca s t h going =
      elim (Option-cases (lookup ca.claim.uid (entries crd.spec.allocated_claims))) [
        | inl e ↦ by_kind ca.claim_parameters refl (rw (place_claim, e, claim_params) at h)
        | inr (a, e) ↦
            let same : ok s ≡ ok t = rw (place_claim, e) at h in
            let eq : s ≡ t = cc in
            rw (← eq) (record { served = inl (a, e); keeps = record { keeps = λ ca h. h } })
      ]
    where
      by_kind :
          (k : ClaimParameters)
          → ca.claim_parameters ≡ k
          → (elim k as (λ _. Outcome RtClaimParametersSpec) [
            | rt_claim params ↦ ok params
            | other_parameters ↦ panic nil_dereference
          ]
              >>= λ params. place_new node pod ca.claim.uid params (devices_for ca.claim.uid) s)
            ≡ ok t
          → Places ca s.pending t.pending
      by_kind (rt_claim params) e h = place_new-Places ca params s t e h going
      by_kind other_parameters e h = absurd (cc)
