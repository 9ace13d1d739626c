-- ===== src/Programs/Status/Attempt.antt =====
-- cmd/set-nas-status/main.go: the attempts of the program, which keep to one record.
use dra_rt_driver.Prelude.{◌≡◌, refl, ap, ◌∙◌, subst, String, Bool-cases, inl, inr}
use dra_rt_driver.Prelude.Outcome.{Outcome, ok, err, panic, Error}
use dra_rt_driver.Prelude.Exec
use dra_rt_driver.Prelude.Exec.{Exec}
use dra_rt_driver.Nas.{NodeAllocationState}
use dra_rt_driver.Client
use dra_rt_driver.Client.{NasApi, is_not_found, after_get}
use dra_rt_driver.Client.Overwrite.{IsServer}
use dra_rt_driver.Plugin.Driver.{Retry}
use dra_rt_driver.Programs.Status.{Session, kept, on_session, set_status_attempt}

-- What the API server documents of creating a record: it is stored under the name that it has.
pub record IsCreator {S : Type 0} (api : NasApi S) : Type 0 where
  pub creates :
      (ns : String) (s t : S) (nas crd : NodeAllocationState)
      → api.create ns nas s ≡ (ok crd, t)
      → (crd.meta.namespace ≡ ns) × (crd.meta.name ≡ nas.meta.name)

-- A number of attempts that fail, one after the other.
pub data Tries {W A : Type 0} (m : Exec W A) (v : W) : W → Type 0 where
  now : Tries m v v
  again : {w : W} (e : Error) → (m w).0 ≡ err e → Tries m v (m w).1 → Tries m v w

-- `retry.RetryOnConflict` documents that it returns nil only when an attempt has.
pub record IsAttempting (r : Retry) : Type 1 where
  pub attempts :
      {W A : Type 0} (m : Exec W A) (w w' : W) (a : A)
      → r.on_conflict m w ≡ (ok a, w')
      → (v : W) × Tries m v w × (m v ≡ (ok a, w'))

module _ {S : Type 0} (api : NasApi S) (law : IsServer api) (creator : IsCreator api)
    (ns name : String) where
  pub record IsNamed (nas : NodeAllocationState) : Type 0 where
    pub namespace : nas.meta.namespace ≡ ns
    pub named : nas.meta.name ≡ name

  create-IsNamed :
      (nas crd : NodeAllocationState) (s t : S)
      → IsNamed nas
      → Client.create api nas s ≡ (ok crd, t)
      → IsNamed crd
  unfolding Client.create
  create-IsNamed nas crd s t h e =
      let (a, b) = creator.creates nas.meta.namespace s t nas crd e in
      record { namespace = a ∙ h.namespace; named = b ∙ h.named }

  pub get_or_create-IsNamed :
      (nas crd : NodeAllocationState) (s t : S)
      → IsNamed nas
      → Client.get_or_create api nas s ≡ (ok crd, t)
      → IsNamed crd
  unfolding Client.get_or_create Client.get
  get_or_create-IsNamed nas crd s t h e = go (api.fetch nas.meta.namespace nas.meta.name s) refl e
    where
      go :
          (r : Outcome NodeAllocationState × S)
          → api.fetch nas.meta.namespace nas.meta.name s ≡ r
          → after_get api nas r ≡ (ok crd, t)
          → IsNamed crd
      go (ok x, u) f g =
          let (a, b) = law.reads nas.meta.namespace nas.meta.name s u x f in
          let same : x ≡ crd = cc in
          rw (← same) (record { namespace = a ∙ h.namespace; named = b ∙ h.named })
      go (err x, u) f g = elim (Bool-cases (is_not_found x)) [
        | inl missing ↦ create-IsNamed nas crd u t h (rw missing at g)
        | inr other ↦ absurd (let q : (err x, u) ≡ (ok crd, t) = rw other at g in cc)
      ]
      go (panic x, u) f g = absurd (cc)

  -- What a write of the status leaves.
  pub record Sets (status : String) (nas : NodeAllocationState) (t : S) (crd : NodeAllocationState)
      : Type 0 where
    pub is_named : IsNamed crd
    pub found : api.fetch ns name t ≡ (ok crd, t)
    pub is_status : crd.status ≡ status

  pub update_status-Sets :
      (status : String) (nas crd : NodeAllocationState) (s t : S)
      → IsNamed nas
      → Client.update_status api nas status s ≡ (ok crd, t)
      → Sets status nas t crd
  unfolding Client.update_status
  update_status-Sets status nas crd s t h e =
      let (_, same, found) =
        law.writes nas.meta.namespace s t (record nas { status = status }) crd e in
      let found' : api.fetch ns name t ≡ (ok crd, t) =
        subst (λ n. api.fetch n name t ≡ (ok crd, t)) h.namespace
          (subst (λ n. api.fetch nas.meta.namespace n t ≡ (ok crd, t)) h.named found) in
      let (a, b) = law.reads ns name t t crd found' in
      record { is_named = record { namespace = a; named = b }; found = found'; is_status = same }

  -- A call of the client keeps the name of the record.
  kept-IsNamed :
      (w : Session S) (r : Outcome NodeAllocationState × S)
      → IsNamed w.nas
      → ((crd : NodeAllocationState) (t : S) → r ≡ (ok crd, t) → IsNamed crd)
      → IsNamed (kept w r).1.nas
  kept-IsNamed w (ok crd, t) h k = k crd t refl
  kept-IsNamed w (err x, t) h k = h
  kept-IsNamed w (panic x, t) h k = h

  second-IsNamed :
      (status : String) (r : Outcome (Unit {0}) × Session S)
      → IsNamed r.1.nas
      → IsNamed
          (Exec.continue r.0
            (λ u. on_session (λ nas. Client.update_status api nas status))
            r.1).1.nas
  second-IsNamed status (ok u, w) h =
      kept-IsNamed w (Client.update_status api w.nas status w.server) h
        (λ crd t e. (update_status-Sets status w.nas crd w.server t h e).is_named)
  second-IsNamed status (err x, w) h = h
  second-IsNamed status (panic x, w) h = h

  attempt-IsNamed :
      (status : String) (w : Session S)
      → IsNamed w.nas
      → IsNamed (set_status_attempt api status w).1.nas
  unfolding set_status_attempt
  attempt-IsNamed status w h = second-IsNamed status (on_session (Client.get_or_create api) w) (
      kept-IsNamed w (Client.get_or_create api w.nas w.server) h
        (λ crd t e. get_or_create-IsNamed w.nas crd w.server t h e))

  pub Tries-IsNamed :
      (status : String) {v w : Session S}
      → Tries (set_status_attempt api status) v w
      → IsNamed w.nas
      → IsNamed v.nas
  Tries-IsNamed status now h = h
  Tries-IsNamed status {v} {w} (again e failed more) h =
      Tries-IsNamed status more (attempt-IsNamed status w h)

  -- An attempt that returns nil has set the status.
  pub attempt-Sets :
      (status : String) (v w : Session S)
      → IsNamed v.nas
      → set_status_attempt api status v ≡ (ok tt, w)
      → (crd : NodeAllocationState) × (api.fetch ns name w.server ≡ (ok crd, w.server))
        × (crd.status ≡ status)
  unfolding set_status_attempt
  attempt-Sets status v w h e = first (Client.get_or_create api v.nas v.server) refl e
    where
      second :
          (u : Session S) (r : Outcome NodeAllocationState × S)
          → IsNamed u.nas
          → Client.update_status api u.nas status u.server ≡ r
          → kept u r ≡ (ok tt, w)
          → (crd : NodeAllocationState) × (api.fetch ns name w.server ≡ (ok crd, w.server))
            × (crd.status ≡ status)
      second u (ok crd, t) i f g =
          let s = update_status-Sets status u.nas crd u.server t i f in
          let same : t ≡ w.server = ap (λ (x : Outcome (Unit {0}) × Session S). x.1.server) g in
          (crd, rw (← same) s.found, s.is_status)
      second u (err x, t) i f g = absurd (cc)
      second u (panic x, t) i f g = absurd (cc)

      first :
          (r : Outcome NodeAllocationState × S)
          → Client.get_or_create api v.nas v.server ≡ r
          → Exec.continue
              (kept v r).0
              (λ u. on_session (λ nas. Client.update_status api nas status))
              (kept v r).1
            ≡ (ok tt, w)
          → (crd : NodeAllocationState) × (api.fetch ns name w.server ≡ (ok crd, w.server))
            × (crd.status ≡ status)
      first (ok crd, t) f g =
          second (record { server = t; nas = crd }) (Client.update_status api crd status t)
            (get_or_create-IsNamed v.nas crd v.server t h f) refl g
      first (err x, t) f g = absurd (cc)
      first (panic x, t) f g = absurd (cc)
