-- ===== src/Client/Storing.antt =====
-- client.go, Update: what a call stores, whatever it returns.
use dra_rt_driver.Prelude.{
  ℕ, zero, suc, ◌≡◌, ◌⊎◌, inl, inr, refl, ap, ◌∙◌, String, Option, none, some,
}
use dra_rt_driver.Prelude.Outcome.{Outcome, ok, err, panic, Error}
use dra_rt_driver.Nas.{NodeAllocationState, NodeAllocationStateSpec}
use dra_rt_driver.Client
use dra_rt_driver.Client.{NasApi, update_loop, after_fetch, after_update, max_retries}

-- What the API server documents of the records of a namespace, by the names they are stored under: a
-- read finds the record under the name that was asked for and stores nothing; a write, whatever its
-- answer, stores nothing but a record with the spec that was sent, under the name that was sent; and
-- the record that a write returns has the name that was sent.
pub record IsStore {S : Type 0} (api : NasApi S) (namespace : String) : Type 0 where
  pub shown : S → String → Option NodeAllocationState
  pub reads :
      (name : String) (s : S) (other : String) (c : NodeAllocationState)
      → shown (api.fetch namespace name s).1 other ≡ some c
      → shown s other ≡ some c
  pub finds :
      (name : String) (s t : S) (c : NodeAllocationState)
      → api.fetch namespace name s ≡ (ok c, t)
      → (shown s name ≡ some c) × (c.meta.namespace ≡ namespace) × (c.meta.name ≡ name)
  pub writes :
      (nas : NodeAllocationState) (s : S) (other : String) (c : NodeAllocationState)
      → shown (api.update namespace nas s).1 other ≡ some c
      → (shown s other ≡ some c) ⊎ ((other ≡ nas.meta.name) × (c.spec ≡ nas.spec))
  pub answers :
      (nas : NodeAllocationState) (s t : S) (c : NodeAllocationState)
      → api.update namespace nas s ≡ (ok c, t)
      → (c.meta.namespace ≡ namespace) × (c.meta.name ≡ nas.meta.name)

module _ {S : Type 0} (api : NasApi S) (namespace : String) (store : IsStore api namespace) where
  -- Between the two states nothing was stored but `spec` under `name`.
  abbrev pub Stores : String → NodeAllocationStateSpec → S → S → Type 0
  Stores name spec s t =
      (n : String) (c : NodeAllocationState)
      → store.shown t n ≡ some c
      → (store.shown s n ≡ some c) ⊎ ((n ≡ name) × (c.spec ≡ spec))

  Stores-trans :
      (name : String) (spec : NodeAllocationStateSpec) (s t u : S)
      → Stores name spec s t
      → Stores name spec t u
      → Stores name spec s u
  Stores-trans name spec s t u a b n c h = elim (b n c h) [ inl h' ↦ a n c h' | inr r ↦ inr r ]

  module _ (nas : NodeAllocationState) (spec : NodeAllocationStateSpec)
      (home : nas.meta.namespace ≡ namespace) where
    round-Stores :
        (rest : Option Error → S → Outcome NodeAllocationState × S)
        → ((last : Option Error) (s : S) → Stores nas.meta.name spec s (rest last s).1)
        → (s : S) (r : Outcome NodeAllocationState × S) → api.fetch namespace nas.meta.name s ≡ r
        → Stores nas.meta.name spec s (after_fetch api nas.meta.namespace spec rest r).1
    round-Stores rest ih s (err e, t) found =
        λ n c h. inl (store.reads nas.meta.name s n c (rw found h))
    round-Stores rest ih s (panic p, t) found =
        λ n c h. inl (store.reads nas.meta.name s n c (rw found h))
    round-Stores rest ih s (ok crd, t) found =
        Stores-trans nas.meta.name spec s t _
          (λ n c h. inl (store.reads nas.meta.name s n c (rw found h)))
          (go (api.update nas.meta.namespace (record crd { spec = spec }) t) refl)
      where
        wrote :
            (n : String) (c : NodeAllocationState) (u : S)
            → (api.update nas.meta.namespace (record crd { spec = spec }) t).1 ≡ u
            → store.shown u n ≡ some c
            → (store.shown t n ≡ some c) ⊎ ((n ≡ nas.meta.name) × (c.spec ≡ spec))
        wrote n c u e h =
            let (_, _, named) = store.finds nas.meta.name s t crd found in
            let h' : store.shown (api.update namespace (record crd { spec = spec }) t).1 n
                ≡ some c =
              rw (← home, e) h in
            elim (store.writes (record crd { spec = spec }) t n c h') [
              | inl k ↦ inl k
              | inr (m, k) ↦ inr (m ∙ named, k)
            ]

        go :
            (w : Outcome NodeAllocationState × S)
            → api.update nas.meta.namespace (record crd { spec = spec }) t ≡ w
            → Stores nas.meta.name spec t (after_update api rest w).1
        go (ok x, u) e =
            λ n c h. wrote n c u (ap (λ (r : Outcome NodeAllocationState × S). r.1) e) h
        go (panic x, u) e =
            λ n c h. wrote n c u (ap (λ (r : Outcome NodeAllocationState × S). r.1) e) h
        go (err x, u) e =
            Stores-trans nas.meta.name spec t u _
              (λ n c h. wrote n c u (ap (λ (r : Outcome NodeAllocationState × S). r.1) e) h)
              (ih (some x) u)

    update_loop-Stores :
        (k : ℕ) (last : Option Error) (s : S)
        → Stores nas.meta.name spec s (update_loop api nas spec k last s).1
    unfolding update_loop
    update_loop-Stores zero last s = λ n c h. inl h
    update_loop-Stores (suc k) last s =
        round-Stores (update_loop api nas spec k) (update_loop-Stores k) s
          (api.fetch nas.meta.namespace nas.meta.name s) (rw home refl)

    -- `Update`, whatever it returns.
    pub update-Stores : (s : S) → Stores nas.meta.name spec s (Client.update api nas spec s).1
    unfolding Client.update
    update-Stores s = update_loop-Stores max_retries none s

    -- The record that `Update` returns is called as the one that it was sent.
    abbrev pub Named : NodeAllocationState → Type 0
    Named c = (c.meta.namespace ≡ namespace) × (c.meta.name ≡ nas.meta.name)

    round-Named :
        (rest : Option Error → S → Outcome NodeAllocationState × S)
        → ((last : Option Error) (s t : S) (c : NodeAllocationState)
            → rest last s ≡ (ok c, t)
            → Named c)
        → (s t : S) (c : NodeAllocationState) (r : Outcome NodeAllocationState × S)
        → api.fetch namespace nas.meta.name s ≡ r
        → after_fetch api nas.meta.namespace spec rest r ≡ (ok c, t)
        → Named c
    round-Named rest ih s t c (err e, u) found h = absurd (cc)
    round-Named rest ih s t c (panic p, u) found h = absurd (cc)
    round-Named rest ih s t c (ok crd, u) found h =
        go (api.update nas.meta.namespace (record crd { spec = spec }) u) (rw home refl) h
      where
        go :
            (w : Outcome NodeAllocationState × S)
            → api.update namespace (record crd { spec = spec }) u ≡ w
            → after_update api rest w ≡ (ok c, t)
            → Named c
        go (ok x, v) e h =
            let (_, _, named) = store.finds nas.meta.name s u crd found in
            let (here, name) = store.answers (record crd { spec = spec }) u v x e in
            let same : x ≡ c = cc in rw (← same) (here, name ∙ named)
        go (err x, v) e h = ih (some x) v t c h
        go (panic x, v) e h = absurd (cc)

    update_loop-Named :
        (k : ℕ) (last : Option Error) (s t : S) (c : NodeAllocationState)
        → update_loop api nas spec k last s ≡ (ok c, t)
        → Named c
    unfolding update_loop
    update_loop-Named zero none s t c h = absurd (cc)
    update_loop-Named zero (some e) s t c h = absurd (cc)
    update_loop-Named (suc k) last s t c h =
        round-Named (update_loop api nas spec k) (update_loop-Named k) s t c
          (api.fetch nas.meta.namespace nas.meta.name s) (rw home refl) h

    pub update-Named :
        (s t : S) (c : NodeAllocationState) → Client.update api nas spec s ≡ (ok c, t) → Named c
    unfolding Client.update
    update-Named s t c h = update_loop-Named max_retries none s t c h
