-- ===== src/Controller/Parameters.antt =====
-- driver.go, GetClaimParameters: what is known of the parameters of a claim.
use dra_rt_driver.Prelude.{
  ◌≡◌, refl, sym, ap, ◌∙◌, Bool, true, false, not, if◌then◌else◌, String, string_key, ◌==◌, Option,
  none, some,
}
use dra_rt_driver.Prelude.Int.{pos, ltb_ℤ}
use dra_rt_driver.Prelude.Outcome.{
  Outcome, ok, err, panic, failed, wrap_error, getting_claim_parameters,
  validating_claim_parameters, incorrect_api_group, unknown_claim_kind,
}
use dra_rt_driver.Prelude.Exec
use dra_rt_driver.Prelude.Exec.{Exec}
use dra_rt_driver.Params.{
  RtClaimParametersSpec, group_name, rt_claim_parameters_kind, default_rt_claim_parameters_spec,
}
use dra_rt_driver.Resource.{ResourceClaim, ParametersRef}
use dra_rt_driver.Rt.{validate_claim_parameters}
use dra_rt_driver.Controller.{Clientset, World, on_server, get_claim_parameters}

-- At least one CPU is asked for.
abbrev pub AsksForCpus : RtClaimParametersSpec → Type 0
AsksForCpus params = ltb_ℤ params.count (pos 1) ≡ false

validated :
    {W : Type 0} (gc params : RtClaimParametersSpec) (w w' : W) (b : Bool)
    → ltb_ℤ gc.count (pos 1) ≡ b
    → Exec.continue
        (wrap_error validating_claim_parameters (validate_claim_parameters gc))
        (λ u. Exec.pure gc)
        w
      ≡ (ok params, w')
    → AsksForCpus params
unfolding validate_claim_parameters
validated gc params w w' true e h = absurd (let g = rw (validate_claim_parameters, e) at h in cc)
validated gc params w w' false e h =
    let g = rw (validate_claim_parameters, e) at h in
    let same : gc ≡ params = cc in
    ap (λ (p : RtClaimParametersSpec). ltb_ℤ p.count (pos 1)) (sym same) ∙ e

module _ {S : Type 0} (clients : Clientset S) (namespace : String) where
  fetched :
      (params : RtClaimParametersSpec) (w w' : World S) (o : Outcome RtClaimParametersSpec)
      → Exec.continue
          (wrap_error getting_claim_parameters o)
          (λ gc.
            Exec.◌>>◌
              (Exec.on_error validating_claim_parameters (Exec.lift (validate_claim_parameters gc)))
              (Exec.pure gc))
          w
        ≡ (ok params, w')
      → AsksForCpus params
  fetched params w w' (ok gc) h = validated gc params w w' (ltb_ℤ gc.count (pos 1)) refl h
  fetched params w w' (err e) h = absurd (cc)
  fetched params w w' (panic p) h = absurd (cc)

  referred :
      (claim : ResourceClaim) (r : ParametersRef) (params : RtClaimParametersSpec) (w w' : World S)
      (a b : Bool)
      → (if not a
            then Exec.fail (failed incorrect_api_group)
            else if b
            then Exec.◌>>=◌
                (Exec.on_error getting_claim_parameters
                  (on_server (clients.rt_claim_parameters claim.namespace r.name)))
                (λ gc.
                  Exec.◌>>◌
                    (Exec.on_error validating_claim_parameters
                      (Exec.lift (validate_claim_parameters gc)))
                    (Exec.pure gc))
            else Exec.fail (failed unknown_claim_kind))
          w
        ≡ (ok params, w')
      → AsksForCpus params
  referred claim r params w w' false b h = absurd (cc)
  referred claim r params w w' true false h = absurd (cc)
  referred claim r params w w' true true h =
      fetched params
        (record w { server = (clients.rt_claim_parameters claim.namespace r.name w.server).1 }) w'
        (clients.rt_claim_parameters claim.namespace r.name w.server).0 h

  by_ref :
      (claim : ResourceClaim) (params : RtClaimParametersSpec) (w w' : World S)
      (o : Option ParametersRef)
      → claim.parameters_ref ≡ o
      → get_claim_parameters clients namespace claim w ≡ (ok params, w')
      → AsksForCpus params
  unfolding get_claim_parameters default_rt_claim_parameters_spec
  by_ref claim params w w' none e h =
      let g = rw (get_claim_parameters, e) at h in
      let same : default_rt_claim_parameters_spec ≡ params = cc in
      ap (λ (p : RtClaimParametersSpec). ltb_ℤ p.count (pos 1)) (sym same)
  by_ref claim params w w' (some r) e h =
      referred claim r params w w' (r.api_group == group_name) (r.kind == rt_claim_parameters_kind)
        (rw (get_claim_parameters, e) at h)

  -- Whatever the server holds: parameters that `GetClaimParameters` returns ask for at least one CPU.
  pub get_claim_parameters-AsksForCpus :
      (claim : ResourceClaim) (params : RtClaimParametersSpec) (w w' : World S)
      → get_claim_parameters clients namespace claim w ≡ (ok params, w')
      → AsksForCpus params
  get_claim_parameters-AsksForCpus claim params w w' h =
      by_ref claim params w w' claim.parameters_ref refl h
