-- ===== src/Controller/Server/Calls.antt =====
-- client.go, Get and Update, and driver.go: the calls of the server and of the pending allocations,
-- over stored records that are kept.
use dra_rt_driver.Prelude.{◌≡◌, inl, inr, refl, sym, ◌∙◌, subst, String, Option, some}
use dra_rt_driver.Prelude.Outcome.{Outcome, ok, err, panic}
use dra_rt_driver.Prelude.Meets.{Meets}
use dra_rt_driver.Nas.{NodeAllocationState, new_node_allocation_state}
use dra_rt_driver.Pending.{PerNodeAllocatedClaims}
use dra_rt_driver.Client
use dra_rt_driver.Client.Storing.{IsStore, update-Stores}
use dra_rt_driver.Rt.Covered.{IsCovered}
use dra_rt_driver.Controller.{Clientset, World, new_crd, on_server, on_pending, keep_pending}
use dra_rt_driver.Controller.Server.{IsKept, AllKept}
use dra_rt_driver.Controller.Server.Kept.{IsCovered-IsKept, IsKept-pending}

-- Another change of the pending allocations that keeps every covered node covered.
pub AllKept-pending :
    {S : Type 0} (shown : S → String → Option NodeAllocationState) (w : World S)
    (q : PerNodeAllocatedClaims)
    → ((n : String) (c : NodeAllocationState) → IsCovered n c w.pending → IsCovered n c q)
    → AllKept shown w
    → AllKept shown (record w { pending = q })
AllKept-pending shown w q f all n c h = IsKept-pending n c w.pending q (f n) (all n c h)

module _ {S : Type 0} (clients : Clientset S) (namespace : String)
    (store : IsStore clients.nas namespace) where
  -- What is known of a record that was read.
  pub record Got (node : String) (crd : NodeAllocationState) (w : World S) : Type 0 where
    pub all : AllKept store.shown w
    pub kept : IsKept node crd w.pending
    pub only : (c : NodeAllocationState) → store.shown w.server node ≡ some c → c ≡ crd
    pub home : crd.meta.namespace ≡ namespace
    pub named : crd.meta.name ≡ node

  get-Got :
      (node : String) (w : World S) (r : Outcome NodeAllocationState × S)
      → AllKept store.shown w
      → clients.nas.fetch namespace node w.server ≡ r
      → Meets (AllKept store.shown) (Got node) (r.0, record w { server = r.1 })
  get-Got node w (ok crd, s) all e =
      let (shown, home, named) = store.finds node w.server s crd e in
      record {
        all = λ n c h. all n c (store.reads node w.server n c (rw e h));
        kept = all node crd shown;
        only = λ c h.
            let same : some c ≡ some crd =
              sym (store.reads node w.server node c (rw e h)) ∙ shown in
            cc;
        home = home;
        named = named;
      }
  get-Got node w (err x, s) all e = λ n c h. all n c (store.reads node w.server n c (rw e h))
  get-Got node w (panic x, s) all e = λ n c h. all n c (store.reads node w.server n c (rw e h))

  pub get-Meets :
      (node : String) (w : World S)
      → AllKept store.shown w
      → Meets
          (AllKept store.shown)
          (Got node)
          (on_server (Client.get clients.nas (new_crd clients namespace node)) w)
  unfolding Client.get new_node_allocation_state
  get-Meets node w all = get-Got node w (clients.nas.fetch namespace node w.server) all refl

  -- `Update` with the spec of a record on which the node is covered.
  pub update-AllKept :
      (node : String) (nas crd : NodeAllocationState) (w : World S)
      → nas.meta.namespace ≡ namespace
      → nas.meta.name ≡ node
      → IsCovered node crd w.pending
      → AllKept store.shown w
      → AllKept store.shown
          (record w { server = (Client.update clients.nas nas crd.spec w.server).1 })
  update-AllKept node nas crd w home named i all n c h =
      elim (update-Stores clients.nas namespace store nas crd.spec home w.server n c h) [
        | inl before ↦ all n c before
        | inr (here, spec) ↦
            subst (λ m. IsKept m c w.pending) (sym (here ∙ named))
              (IsCovered-IsKept node crd c w.pending spec i)
      ]

  on_pending-go :
      (w : World S) (o : Outcome PerNodeAllocatedClaims)
      → AllKept store.shown w
      → ((q : PerNodeAllocatedClaims)
          → o ≡ ok q
          → (n : String) (c : NodeAllocationState) → IsCovered n c w.pending
          → IsCovered n c q)
      → (after : World S → Type 0)
      → ((q : PerNodeAllocatedClaims)
          → o ≡ ok q
          → AllKept store.shown (record w { pending = q })
          → after (record w { pending = q }))
      → Meets (AllKept store.shown) (λ a v. after v) (keep_pending o w)
  on_pending-go w (ok q) all f after k = k q refl (AllKept-pending store.shown w q (f q refl) all)
  on_pending-go w (err x) all f after k = all
  on_pending-go w (panic x) all f after k = all

  -- A call that changes the pending allocations only.
  pub on_pending-Meets :
      (w : World S) (g : PerNodeAllocatedClaims → Outcome PerNodeAllocatedClaims)
      → AllKept store.shown w
      → ((q : PerNodeAllocatedClaims)
          → g w.pending ≡ ok q
          → (n : String) (c : NodeAllocationState) → IsCovered n c w.pending
          → IsCovered n c q)
      → (after : World S → Type 0)
      → ((q : PerNodeAllocatedClaims)
          → g w.pending ≡ ok q
          → AllKept store.shown (record w { pending = q })
          → after (record w { pending = q }))
      → Meets (AllKept store.shown) (λ a v. after v) (on_pending g w)
  on_pending-Meets w g all f after k = on_pending-go w (g w.pending) all f after k
