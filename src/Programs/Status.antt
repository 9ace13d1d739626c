-- ===== src/Programs/Status.antt =====
-- cmd/set-nas-status/main.go: the program that sets the status of a node's record.
pub mod Attempt
pub mod Setting
use dra_rt_driver.Prelude.{
  ◌≡◌, ◌⊎◌, ◌↔◌, inl, inr, refl, sym, ap, ◌∙◌, String, string_key, ◌==◌, if◌then◌else◌, true, false,
  Bool-cases, List, [], ◌∷◌, ◌++◌,
}
use dra_rt_driver.Prelude.Text.{to_lower}
use dra_rt_driver.Prelude.GoMap.{eq_self}
use dra_rt_driver.Prelude.Outcome
use dra_rt_driver.Prelude.Outcome.{
  Outcome, ok, err, panic, failed, within, unknown_status, create_client, create_nas, ok_injective,
  bind-ok,
}
use dra_rt_driver.Prelude.Exec
use dra_rt_driver.Prelude.Exec.{Exec, ◌>>=◌, ◌>>◌}
use dra_rt_driver.Nas.{
  NodeAllocationState, status_ready, status_not_ready, new_node_allocation_state,
}
use dra_rt_driver.Client
use dra_rt_driver.Client.{NasApi}
use dra_rt_driver.Client.Overwrite.{IsServer}
use dra_rt_driver.Plugin.Driver.{Retry}
use dra_rt_driver.Programs.Setup.{
  CliFlag, no_value, NasConfig, nas_flags, kube_client_flags, KubeClientConfig, ClientGo,
  ClientSets, new_client_sets, new_nas,
}

-- The `Action` of the flag `status`.
unfoldable pub parse_status : String → Outcome String
parse_status value =
    if to_lower value == to_lower status_ready
    then ok status_ready
    else if to_lower value == to_lower status_not_ready
    then ok status_not_ready
    else err (failed unknown_status)

-- The flags of the program, where `logging` are those of the logging configuration.
unfoldable pub status_flags : List CliFlag → NasConfig → List CliFlag
status_flags logging n =
    record { name = "status"; value = no_value; required = true; env_vars = "STATUS" ∷ [] }
    ∷ (kube_client_flags ++ logging ++ nas_flags n)

-- The server, and the record that the client of the program points to.
pub record Session (S : Type 0) : Type 0 where
  pub server : S
  pub nas : NodeAllocationState

abbrev kept :
    {S : Type 0} → Session S → Outcome NodeAllocationState × S → Outcome (Unit {0}) × Session S
kept w (ok crd, s) = (ok tt, record { server = s; nas = crd })
kept w (err e, s) = (err e, record w { server = s })
kept w (panic p, s) = (panic p, record w { server = s })

abbrev on_session :
    {S : Type 0} → (NodeAllocationState → Exec S NodeAllocationState) → Exec (Session S) (Unit {0})
on_session m w = kept w (m w.nas w.server)

module _ {S : Type 0} (server : NasApi S) where
  -- The function that the program retries.
  unfoldable pub set_status_attempt : String → Exec (Session S) (Unit {0})
  set_status_attempt status = do
    on_session (Client.get_or_create server)
    on_session (λ nas. Client.update_status server nas status)

abbrev server_of : {S A : Type 0} → Outcome A × Session S → Outcome A × S
server_of (o, w) = (o, w.server)

-- `Action` of the program: what it does once its flags are read.
module _ (r : Retry) {S F X : Type 0} (lib : ClientGo F X (String → Exec S String) (NasApi S)) where
  unfoldable pub set_nas_status : KubeClientConfig F → NasConfig → String → Exec S (Unit {0})
  set_nas_status k n status = do
    sets ← Exec.on_error create_client (Exec.lift (new_client_sets lib k))
    nas ← Exec.on_error create_nas (new_nas sets.core n)
    λ s.
        server_of (
          r.on_conflict (set_status_attempt sets.example status) (record { server = s; nas = nas }))

ready_apart : (to_lower status_not_ready == to_lower status_ready) ≡ false
unfolding to_lower
ready_apart = refl

-- The flag accepts exactly the texts that differ from one of the two statuses in the case of letters
-- only, and yields that status; it rejects every other text.
pub parse_status_accepts :
    (value s : String)
    → (parse_status value ≡ ok s)
      ↔ (((s ≡ status_ready) ⊎ (s ≡ status_not_ready)) × (to_lower value ≡ to_lower s))
unfolding parse_status
parse_status_accepts value s = (accepted, λ h. chosen h.0 h.1)
  where
    accepted :
        parse_status value ≡ ok s
        → ((s ≡ status_ready) ⊎ (s ≡ status_not_ready)) × (to_lower value ≡ to_lower s)
    accepted h = elim (Bool-cases (to_lower value == to_lower status_ready)) [
      | inl is_ready ↦
          let e : ok status_ready ≡ ok s = rw (parse_status, is_ready) at h in
          let same = ok_injective e in
          (
            inl (sym same),
            (string_key.same_iff (to_lower value) (to_lower status_ready)).0 is_ready
                ∙ ap to_lower same,
          )
      | inr other ↦ elim (Bool-cases (to_lower value == to_lower status_not_ready)) [
        | inl not_ready ↦
            let e : ok status_not_ready ≡ ok s = rw (parse_status, other, not_ready) at h in
            let same = ok_injective e in
            (
              inr (sym same),
              (string_key.same_iff (to_lower value) (to_lower status_not_ready)).0 not_ready
                  ∙ ap to_lower same,
            )
        | inr neither ↦ absurd (
            let e : err (failed unknown_status) ≡ ok s = rw (parse_status, other, neither) at h in
            cc)
      ]
    ]

    chosen :
        (s ≡ status_ready) ⊎ (s ≡ status_not_ready)
        → to_lower value ≡ to_lower s
        → parse_status value ≡ ok s
    chosen (inl e) h =
        let is_ready =
          (string_key.same_iff (to_lower value) (to_lower status_ready)).1 (h ∙ ap to_lower e) in
        rw (parse_status, is_ready) (ap ok (sym e))
    chosen (inr e) h =
        let h' : to_lower value ≡ to_lower status_not_ready = h ∙ ap to_lower e in
        rw (parse_status, h', ready_apart, eq_self (to_lower status_not_ready)) (ap ok (sym e))
