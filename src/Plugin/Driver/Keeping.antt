-- ===== src/Plugin/Driver/Keeping.antt =====
-- driver.go of the plugin: what the calls of the kubelet leave of the allocations on the server.
pub mod Attempts
pub mod Calls
use dra_rt_driver.Prelude.{
  ◌≡◌, ◌⊎◌, inl, inr, refl, sym, ap, ◌∙◌, subst, String, Option, some, List, [], ◌∷◌,
}
use dra_rt_driver.Prelude.GoMap.{GoMap, insert}
use dra_rt_driver.Prelude.Outcome.{
  Outcome, ok, err, panic, Error, preparing_devices, unpreparing_devices, getting_spec, bind-ok,
  ok_injective, wrap_error, sync_prepared,
}
use dra_rt_driver.Prelude.Exec
use dra_rt_driver.Prelude.Exec.{Exec}
use dra_rt_driver.Prelude.Meets.{
  Meets, Meets-kept, kept-Meets, on_error-Meets, continue-Meets, lift-Meets,
}
use dra_rt_driver.Nas.{NodeAllocationState, NodeAllocationStateSpec}
use dra_rt_driver.Client
use dra_rt_driver.Client.{NasApi}
use dra_rt_driver.Client.Storing.{IsStore, update-Stores, update-Named}
use dra_rt_driver.Plugin.Devices.{DeviceState}
use dra_rt_driver.Plugin.Cdi.{CdiLib, write_cgroup_to_cdi}
use dra_rt_driver.Plugin.State
use dra_rt_driver.Plugin.State.{
  get_updated_spec, sync_prepared_to_spec, sync_allocatable_to_spec, sync_prepared_loop,
}
use dra_rt_driver.Plugin.Driver.{
  Node, Retry, prepare, unprepare, prepare_attempt, unprepare_attempt, node_prepare_resource,
  node_unprepare_resource, prepare_loop, unprepare_loop, node_prepare_resources,
  node_unprepare_resources, on_client, on_state, or_unprepare, prepare_response, unprepare_response,
  or_nil, stored, keep_error, allocation_of, forget_prepared, NodePrepareResourceResponse,
  NodeUnprepareResourceResponse,
}
use dra_rt_driver.Plugin.Driver.Attempts.{IsRetry, attempts_run_once}

-- The allocated claims and the utilisations are the same.
pub record SameClaims (c d : NodeAllocationStateSpec) : Type 0 where
  pub claims : c.allocated_claims ≡ d.allocated_claims
  pub utils : c.allocated_util_to_cpu ≡ d.allocated_util_to_cpu

SameClaims-trans :
    (a b c : NodeAllocationStateSpec) → SameClaims a b → SameClaims b c → SameClaims a c
SameClaims-trans a b c p q = record { claims = p.claims ∙ q.claims; utils = p.utils ∙ q.utils }

wrap_error-ok :
    {A : Type 0} (r : dra_rt_driver.Prelude.Outcome.Reason) (o : Outcome A) (a : A)
    → wrap_error r o ≡ ok a
    → o ≡ ok a
wrap_error-ok r (ok x) a h = h
wrap_error-ok r (err e) a h = absurd (cc)
wrap_error-ok r (panic p) a h = absurd (cc)

get_updated_spec-SameClaims :
    (s : DeviceState) (spec spec' : NodeAllocationStateSpec)
    → get_updated_spec s spec ≡ ok spec'
    → SameClaims spec' spec
unfolding get_updated_spec sync_prepared_to_spec sync_allocatable_to_spec
get_updated_spec-SameClaims s spec spec' h =
    let (m, _, r) =
      bind-ok (sync_prepared_loop s.prepared [])
        (λ outcas. ok (record (sync_allocatable_to_spec s spec) { prepared_claims = some outcas }))
        spec'
        (wrap_error-ok sync_prepared (sync_prepared_to_spec s (sync_allocatable_to_spec s spec))
          spec' h) in
    subst (λ x. SameClaims x spec) (ok_injective r) (record { claims = refl; utils = refl })

module _ {S R : Type 0} (server : NasApi S) (lib : CdiLib R) (namespace node : String)
    (store : IsStore server namespace) where
  -- Every record that the server shows at `t` was there at `s`, with the same allocations.
  abbrev pub Keeps : S → S → Type 0
  Keeps s t =
      (n : String) (c : NodeAllocationState)
      → store.shown t n ≡ some c
      → (d : NodeAllocationState) × (store.shown s n ≡ some d) × SameClaims c.spec d.spec

  -- The plugin of a node, since the state `s` of the server.
  pub record Keeping (s : S) (w : Node S R DeviceState) : Type 0 where
    pub keeps : Keeps s w.server
    pub home : w.nascrd.meta.namespace ≡ namespace
    pub named : w.nascrd.meta.name ≡ node

  -- The plugin's copy of the record has the allocations of the server's.
  pub record Fresh (s : S) (w : Node S R DeviceState) : Type 0 where
    pub keeping : Keeping s w
    pub seen : NodeAllocationState
    pub shown : store.shown s node ≡ some seen
    pub same : SameClaims w.nascrd.spec seen.spec

  get-go :
      (s : S) (w : Node S R DeviceState) (r : Outcome NodeAllocationState × S)
      → Keeping s w
      → server.fetch namespace node w.server ≡ r
      → Meets (Keeping s) (λ a v. Fresh s v) (stored w r)
  get-go s w (ok crd, t) k e =
      let (shown, home, named) = store.finds node w.server t crd e in
      let (d, before, same) = k.keeps node crd shown in
      record {
        keeping = record {
          keeps = λ n c h. k.keeps n c (store.reads node w.server n c (rw e h));
          home = home;
          named = named;
        };
        seen = d;
        shown = before;
        same = same;
      }
  get-go s w (err x, t) k e = record {
    keeps = λ n c h. k.keeps n c (store.reads node w.server n c (rw e h));
    home = k.home;
    named = k.named;
  }
  get-go s w (panic x, t) k e = record {
    keeps = λ n c h. k.keeps n c (store.reads node w.server n c (rw e h));
    home = k.home;
    named = k.named;
  }

  pub get-Meets :
      (s : S) (w : Node S R DeviceState)
      → Keeping s w
      → Meets (Keeping s) (λ a v. Fresh s v) (on_client (Client.get server) w)
  unfolding Client.get
  get-Meets s w k =
      get-go s w (server.fetch w.nascrd.meta.namespace w.nascrd.meta.name w.server) k
        (rw (k.home, k.named) refl)

  updated :
      (s : S) (w : Node S R DeviceState) (spec : NodeAllocationStateSpec)
      → Fresh s w
      → SameClaims spec w.nascrd.spec
      → Keeps s (Client.update server w.nascrd spec w.server).1
  updated s w spec f same n c h =
      elim (update-Stores server namespace store w.nascrd spec f.keeping.home w.server n c h) [
        | inl before ↦ f.keeping.keeps n c before
        | inr (here, is_spec) ↦ (
          f.seen,
          subst (λ m. store.shown s m ≡ some f.seen) (sym (here ∙ f.keeping.named)) f.shown,
          subst (λ x. SameClaims x f.seen.spec) (sym is_spec)
              (SameClaims-trans spec w.nascrd.spec f.seen.spec same f.same),
        )
      ]

  update-go :
      (s : S) (w : Node S R DeviceState) (spec : NodeAllocationStateSpec)
      (r : Outcome NodeAllocationState × S)
      → Fresh s w
      → SameClaims spec w.nascrd.spec
      → Client.update server w.nascrd spec w.server ≡ r
      → Keeping s (stored w r).1
  update-go s w spec (ok crd, t) f same e =
      let (home, name) =
        update-Named server namespace store w.nascrd spec f.keeping.home w.server t crd e in
      record {
        keeps =
            subst (Keeps s) (ap (λ (r : Outcome NodeAllocationState × S). r.1) e)
              (updated s w spec f same);
        home = home;
        named = name ∙ f.keeping.named;
      }
  update-go s w spec (err x, t) f same e = record {
    keeps =
        subst (Keeps s) (ap (λ (r : Outcome NodeAllocationState × S). r.1) e)
          (updated s w spec f same);
    home = f.keeping.home;
    named = f.keeping.named;
  }
  update-go s w spec (panic x, t) f same e = record {
    keeps =
        subst (Keeps s) (ap (λ (r : Outcome NodeAllocationState × S). r.1) e)
          (updated s w spec f same);
    home = f.keeping.home;
    named = f.keeping.named;
  }

  pub update-Keeping :
      (s : S) (w : Node S R DeviceState) (spec : NodeAllocationStateSpec)
      → Fresh s w
      → get_updated_spec w.state w.nascrd.spec ≡ ok spec
      → Keeping s (on_client (λ nas. Client.update server nas spec) w).1
  update-Keeping s w spec f e =
      update-go s w spec (Client.update server w.nascrd spec w.server) f
        (get_updated_spec-SameClaims w.state w.nascrd.spec spec e) refl
