-- ===== src/Examples/Server.antt =====
-- The controller against the small server: a node is judged for a pod, and the claim is allocated.
use dra_rt_driver.Prelude.{
  ℕ, ◌<◌, ◌≡◌, ◌⊎◌, inl, inr, refl, sym, ◌∙◌, ap, subst, String, string_key, ◌==◌, ◌&&◌,
  if◌then◌else◌, Bool, Bool-cases, true, false, Option, none, some, List, [], ◌∷◌, arith, ℕ, zero,
  suc,
}
use dra_rt_driver.Prelude.Decimal.{itoa, atoi}
use dra_rt_driver.Prelude.Outcome.{ok, err, api, not_found, unavailable}
use dra_rt_driver.Nas.{
  NodeAllocationState, claim_util, add_cpus, add_cpu, set_utilisation, new_node_allocation_state,
}
use dra_rt_driver.Pending
use dra_rt_driver.Pending.{new_per_node_allocated_claims}
use dra_rt_driver.Partition.{cpu_partitioning}
use dra_rt_driver.Client
use dra_rt_driver.Client.Storing.{IsStore}
use dra_rt_driver.Resource.{rt_claim}
use dra_rt_driver.Rt
use dra_rt_driver.Rt.Propose.{
  propose, propose_claims, propose_claim, available_cpus, claim_params, copy_utils, take_found,
  take_cpus, take_cpu,
}
use dra_rt_driver.Controller.{World, allocate, allocate_on, allocate_parameters}
use dra_rt_driver.Controller.Record.{make_claims, make_utils, build_allocation_result}
use dra_rt_driver.Controller.Made.{maps_made}
use dra_rt_driver.Controller.Nodes.{unsuitable_node, judge_node, rt_claims, type_of_claim}
use dra_rt_driver.Controller.History.Limit.{Promises}
use dra_rt_driver.Controller.Server.Run.{
  IsSound, begin, next, judges, allocates, server_below_limit,
}
use dra_rt_driver.Examples.Fixtures.{node_a, two_cpus, utils, tenths, claim_named, wants_two}
use dra_rt_driver.Examples.Client.{Store, store_api, store, fetch-reads}
use dra_rt_driver.Plugin.Devices.{DeviceState}
use dra_rt_driver.Plugin.Driver.{Node, node_prepare_resources, node_unprepare_resources}
use dra_rt_driver.Plugin.Driver.Keeping.{Keeps}
use dra_rt_driver.Plugin.Driver.Keeping.Calls.{requests-Keeps}
use dra_rt_driver.Examples.Plugin.{cdi_lib, started, twice, twice-IsRetry}
use dra_rt_driver.Examples.Controller.{clients}
use dra_rt_driver.Examples.History.{node_a-IsUpright}
use dra_rt_driver.Examples.Rt.{in_order, wants_two-IsServed, pod}

abbrev shown : Store → String → Option NodeAllocationState
shown s n = if s.held.meta.namespace == "dra" && s.held.meta.name == n then some s.held else none

-- A write keeps what it does not replace.
store-writes :
    (nas : NodeAllocationState) (held : NodeAllocationState) (r : ℕ) (other : String)
    (c : NodeAllocationState)
    → shown (store_api.update "dra" nas (record { held = held; refusals = r })).1 other ≡ some c
    → (shown (record { held = held; refusals = r }) other ≡ some c)
      ⊎ ((other ≡ nas.meta.name) × (c.spec ≡ nas.spec))
store-writes nas held (suc r) other c h = inl h
store-writes nas held zero other c h = elim (Bool-cases (nas.meta.namespace == "dra")) [
  | inl home ↦ inr (go (nas.meta.name == other) refl (rw (home, home) at h))
  | inr away ↦ inl (rw away at h)
]
  where
    go :
        (b : Bool)
        → (nas.meta.name == other) ≡ b
        → (if b then some nas else none) ≡ some c
        → (other ≡ nas.meta.name) × (c.spec ≡ nas.spec)
    go true e f =
        let same : nas ≡ c = cc in
        (sym ((string_key.same_iff nas.meta.name other).0 e), ap (λ x. x.spec) (sym same))
    go false e f = absurd (cc)

store-reads :
    (name : String) (s : Store) (other : String) (c : NodeAllocationState)
    → shown (store_api.fetch "dra" name s).1 other ≡ some c
    → shown s other ≡ some c
store-reads name s other c h =
    elim (Bool-cases (s.held.meta.namespace == "dra" && s.held.meta.name == name)) [
      | inl hit ↦ rw hit at h
      | inr miss ↦ rw miss at h
    ]

store-finds :
    (name : String) (s t : Store) (c : NodeAllocationState)
    → store_api.fetch "dra" name s ≡ (ok c, t)
    → shown s name ≡ some c
store-finds name s t c h =
    elim (Bool-cases (s.held.meta.namespace == "dra" && s.held.meta.name == name)) [
      | inl hit ↦
          let f : (ok s.held, s) ≡ (ok c, t) = rw hit at h in
          let g : s.held ≡ c = cc in rw (hit, g) refl
      | inr miss ↦ let f : (err (api not_found), s) ≡ (ok c, t) = rw miss at h in absurd (cc)
    ]

store-answers :
    (nas held : NodeAllocationState) (r : ℕ) (t : Store) (c : NodeAllocationState)
    → store_api.update "dra" nas (record { held = held; refusals = r }) ≡ (ok c, t)
    → (c.meta.namespace ≡ "dra") × (c.meta.name ≡ nas.meta.name)
store-answers nas held (suc r) t c h = absurd (cc)
store-answers nas held zero t c h = elim (Bool-cases (nas.meta.namespace == "dra")) [
  | inl home ↦
      let f : (ok nas, record { held = nas; refusals = 0 }) ≡ (ok c, t) = rw home at h in
      let g : nas ≡ c = cc in rw (← g) ((string_key.same_iff nas.meta.namespace "dra").0 home, refl)
  | inr away ↦
      let f : (err (api unavailable), record { held = held; refusals = 0 }) ≡ (ok c, t) =
        rw away at h in
      absurd (cc)
]

abbrev dra : IsStore store_api "dra"
dra = record {
  shown = shown;
  reads = store-reads;
  finds = λ name s t c h.
      let (home, named) = fetch-reads "dra" name s t c h in (store-finds name s t c h, home, named);
  writes = λ nas s other c h. store-writes nas s.held s.refusals other c h;
  answers = λ nas s t c h. store-answers nas s.held s.refusals t c h;
}

node_a-IsSound : IsSound clients "dra" dra node_a
node_a-IsSound = record {
  made = node_a;
  is_made = maps_made node_a (("held", two_cpus) ∷ []) utils refl refl;
  upright = node_a-IsUpright;
  charged = λ uid a h. (utils, refl);
}

shown-IsSound :
    (n : String) (c : NodeAllocationState)
    → shown (store 0) n ≡ some c
    → IsSound clients "dra" dra c
shown-IsSound n c h = elim (Bool-cases ("a" == n)) [
  | inl hit ↦
      let f : some node_a ≡ some c = rw hit at h in
      let g : node_a ≡ c = cc in rw (← g) node_a-IsSound
  | inr miss ↦ absurd (let f : none ≡ some c = rw miss at h in cc)
]

abbrev before : World Store
before = record { server = store 0; pending = new_per_node_allocated_claims }

abbrev judged : World Store
judged = (unsuitable_node clients "dra" in_order pod (wants_two ∷ []) "a" before).1

abbrev allocated : World Store
allocated = (allocate clients "dra" (claim_named "new") (rt_claim tenths) "a" judged).1

shown-allocated : shown allocated.server "a" ≡ some allocated.server.held
unfolding unsuitable_node judge_node rt_claims type_of_claim Client.get new_node_allocation_state
    make_claims make_utils allocate allocate_on allocate_parameters build_allocation_result
    Client.update dra_rt_driver.Client.update_loop dra_rt_driver.Rt.unsuitable_node
    Pending.visit_node Pending.visit_uids propose propose_claims propose_claim available_cpus
    claim_params claim_util copy_utils take_found take_cpus take_cpu dra_rt_driver.Rt.place_claims
    dra_rt_driver.Rt.place_claim dra_rt_driver.Rt.place_new dra_rt_driver.Rt.charge_cpus
    dra_rt_driver.Rt.finish_placing Pending.set Pending.set_util cpu_partitioning
    dra_rt_driver.Partition.scored_cpus dra_rt_driver.Prelude.GoMap.insert
    dra_rt_driver.Partition.score_of dra_rt_driver.Prelude.Int.sub_int
    dra_rt_driver.Prelude.Int.wrap dra_rt_driver.Prelude.Int.◌-ℤ◌ dra_rt_driver.Prelude.Int.quo_int
    dra_rt_driver.Prelude.Int.mul_int dra_rt_driver.Prelude.Int.◌*ℤ◌
    dra_rt_driver.Partition.first_cpus dra_rt_driver.Partition.sort_cpus
    dra_rt_driver.Partition.Sort.sort_stable Rt.allocate dra_rt_driver.Rt.charge_claim
    dra_rt_driver.Rt.put_claim set_utilisation add_cpus add_cpu Pending.exists Pending.get
    dra_rt_driver.Prelude.GoMap.assign dra_rt_driver.Prelude.Int.add_int
    dra_rt_driver.Prelude.Int.◌+ℤ◌ itoa atoi Pending.remove_util_other_nodes
    Pending.remove_other_loop Pending.remove_other_at Pending.remove
    dra_rt_driver.Prelude.GoMap.delete dra_rt_driver.Rt.call_on_success
    new_per_node_allocated_claims
shown-allocated = refl

server_below_limit_example :
    (made : NodeAllocationState) × (make_utils (make_claims allocated.server.held) ≡ ok made)
    × ((load : ℕ) × Promises made allocated.pending "a" "0" load × (load < 950))
server_below_limit_example =
    server_below_limit clients "dra" dra (store 0) allocated "a" "0" allocated.server.held
      shown-IsSound
      (next
        (next begin
          (judges in_order pod (wants_two ∷ []) "a" (wants_two-IsServed, tt) (tt, tt) refl))
        (allocates (claim_named "new") (rt_claim tenths) "a" refl))
      shown-allocated

-- The plugin of the node, with its copy of the record.
abbrev plugin : Node Store (Unit {0}) DeviceState
plugin = record { server = store 0; registry = tt; nascrd = node_a; state = started }

requests-Keeps_example :
    Keeps store_api cdi_lib "dra" "a" dra
      (store 0)
      (node_prepare_resources twice store_api cdi_lib ("held" ∷ "new" ∷ []) plugin).1.server
    × Keeps store_api cdi_lib "dra" "a" dra
        (store 0)
        (node_unprepare_resources twice store_api cdi_lib ("held" ∷ "new" ∷ []) plugin).1.server
requests-Keeps_example =
    requests-Keeps twice store_api cdi_lib "dra" "a" dra ("held" ∷ "new" ∷ []) plugin twice-IsRetry
      refl refl
