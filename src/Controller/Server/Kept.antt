-- ===== src/Controller/Server/Kept.antt =====
-- driver.go: the record that the driver works on is covered.
use dra_rt_driver.Prelude.{◌≡◌, refl, sym, ap, ◌∙◌, subst, String, string_key, Option, none, some}
use dra_rt_driver.Prelude.GoMap.{GoMap, lookup, entries}
use dra_rt_driver.Prelude.Outcome.{ok, ok_injective}
use dra_rt_driver.Nas.{AllocatedCpuset, MappedUtil, NodeAllocationState}
use dra_rt_driver.Pending.{PerNodeAllocatedClaims}
use dra_rt_driver.Rt.Covered.{IsCovered}
use dra_rt_driver.Controller.Record.{make_claims, make_utils}
use dra_rt_driver.Controller.Made.{maps_made, SameAllocation, SameAllocation-made}
use dra_rt_driver.Controller.Server.{IsKept}

-- A node whose record has both its maps.
pub IsCovered-IsKept :
    (n : String) (crd c : NodeAllocationState) (p : PerNodeAllocatedClaims)
    → c.spec ≡ crd.spec
    → IsCovered n crd p
    → IsKept n c p
IsCovered-IsKept n crd c p e i =
    let claims : c.spec.allocated_claims ≡ some i.claims = rw e i.is_claims in
    let utils : c.spec.allocated_util_to_cpu.cpus ≡ some i.utils = rw e i.is_utils in
    record {
      made = c;
      is_made = maps_made c i.claims i.utils claims utils;
      covered = record {
        claims = i.claims;
        is_claims = claims;
        utils = i.utils;
        is_utils = utils;
        within = i.within;
        bears = i.bears;
        held = i.held;
        tidy = i.tidy;
      };
      charged = λ uid a h. (i.utils, utils);
    }

-- The record that the driver works on.
pub IsKept-made :
    (n : String) (crd c : NodeAllocationState) (p : PerNodeAllocatedClaims)
    → IsKept n crd p
    → make_utils (make_claims crd) ≡ ok c
    → IsCovered n c p
IsKept-made n crd c p i e =
    subst (λ x. IsCovered n x p) (ok_injective (sym i.is_made ∙ e)) i.covered

-- A record that holds a claim has its maps.
pub IsKept-charged :
    (n : String) (crd : NodeAllocationState) (p : PerNodeAllocatedClaims) (uid : String)
    (a : AllocatedCpuset)
    → IsKept n crd p
    → lookup uid (entries crd.spec.allocated_claims) ≡ some a
    → IsCovered n crd p
IsKept-charged n crd p uid a i h =
    let (m, e) = i.charged uid a h in
    IsKept-made n crd crd p i (go crd.spec.allocated_claims refl h m e)
  where
    go :
        (o : Option (GoMap String AllocatedCpuset))
        → crd.spec.allocated_claims ≡ o
        → lookup uid (entries o) ≡ some a
        → (m : MappedUtil) → crd.spec.allocated_util_to_cpu.cpus ≡ some m
        → make_utils (make_claims crd) ≡ ok crd
    go none e h m u = absurd (cc)
    go (some x) e h m u = maps_made crd x m e u

-- Another change of the pending allocations that keeps every covered node covered.
pub IsKept-pending :
    (n : String) (crd : NodeAllocationState) (p q : PerNodeAllocatedClaims)
    → ((c : NodeAllocationState) → IsCovered n c p → IsCovered n c q)
    → IsKept n crd p
    → IsKept n crd q
IsKept-pending n crd p q f i = record {
  made = i.made;
  is_made = i.is_made;
  covered = f i.made i.covered;
  charged = i.charged;
}

-- A record with the same allocations.
pub SameAllocation-IsKept :
    (n : String) (c d : NodeAllocationState) (p : PerNodeAllocatedClaims)
    → SameAllocation c d
    → IsKept n d p
    → IsKept n c p
SameAllocation-IsKept n c d p same i =
    let (m, e, made) = SameAllocation-made c d i.made same i.is_made in
    record {
      made = m;
      is_made = e;
      covered = record {
        claims = i.covered.claims;
        is_claims = made.claims ∙ i.covered.is_claims;
        utils = i.covered.utils;
        is_utils = ap (λ u. u.cpus) made.utils ∙ i.covered.is_utils;
        within = i.covered.within;
        bears = i.covered.bears;
        held = i.covered.held;
        tidy = i.covered.tidy;
      };
      charged = λ uid a h.
          let (u, f) = i.charged uid a (rw (← same.claims) h) in
          (u, ap (λ x. x.cpus) same.utils ∙ f);
    }
