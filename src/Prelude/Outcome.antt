-- ===== src/Prelude/Outcome.antt =====
-- What a Go function returns: its results, a non-nil error, or a panic that ends the process.
use dra_rt_driver.Prelude.Int.{ℤ, pos, negsuc, quo_int}
use Prim.Native.Nat.{zero, suc}
use mathlib.Core.Path.{◌≡◌, refl}
use mathlib.Core.Option.{Option, none, some}
use mathlib.Core.Bool.{Bool, true, false}

-- Errors of the API server that the driver tells apart or passes on.
pub data ApiError : Type 0 where
  not_found conflict unavailable : ApiError

-- One constructor for each message that the program makes up by `fmt.Errorf`.
pub data Reason : Type 0 where
  incorrect_api_group getting_class_parameters getting_claim_parameters : Reason
  validating_claim_parameters unknown_claim_kind invalid_count : Reason
  immediate_allocation retrieving_crd crd_status unable_to_allocate updating_crd : Reason
  retrieving_latest_crd unknown_device_type unable_to_deallocate processing_node : Reason
  processing_kind no_allocation_generated not_enough_cpus : Reason
  retrieve_latest after_retries unknown_status : Reason
  cdi_devices_nil cdi_names allocation_failed claim_spec_file delete_spec_file : Reason
  unprepare_failed sync_allocatable sync_prepared claim_missing rtcpu_missing : Reason
  cgroup_missing spec_version spec_name preparing_devices unpreparing_devices getting_spec : Reason
  create_client create_nas get_node in_cluster_config out_of_cluster_config : Reason
  client_configuration core_client example_client arguments_not_supported : Reason
  listen_endpoint create_http_endpoint starting_controller not_a_directory : Reason
  cdi_handler refreshing_registry common_spec_file sync_prepared_back preparing_resource
        unpreparing_resource :
      Reason

-- `within r e` is an error that `fmt.Errorf` wraps around `e`.
pub data Error : Type 0 where
  api : ApiError → Error
  failed : Reason → Error
  within : Reason → Error → Error

pub data Panic : Type 0 where
  nil_map_write nil_dereference index_out_of_range divide_by_zero : Panic
  already_registered parse_failure : Panic

pub data Outcome {ℓ} (A : Type ℓ) : Type ℓ where
  ok : A → Outcome A
  err : Error → Outcome A
  panic : Panic → Outcome A

infixl 5 ◌>>=◌ ◌>>◌
abbrev pub ◌>>=◌ {ℓ κ} : {A : Type ℓ} {B : Type κ} → Outcome A → (A → Outcome B) → Outcome B
ok a >>= f = f a
err e >>= f = err e
panic p >>= f = panic p

abbrev pub ◌>>◌ {ℓ κ} : {A : Type ℓ} {B : Type κ} → Outcome A → Outcome B → Outcome B
m >> k = m >>= λ _. k

-- `fmt.Errorf("…: %v", err)` around what `m` returns.
abbrev pub wrap_error {ℓ} : {A : Type ℓ} → Reason → Outcome A → Outcome A
wrap_error r (ok a) = ok a
wrap_error r (err e) = err (within r e)
wrap_error r (panic p) = panic p

-- A field of what a pointer points to.
abbrev pub deref {ℓ} : {A : Type ℓ} → Option A → Outcome A
deref none = panic nil_dereference
deref (some a) = ok a

-- `a / b`, which panics at 0.
abbrev pub div_int : ℤ → ℤ → Outcome ℤ
div_int a (pos zero) = panic divide_by_zero
div_int a (pos (suc n)) = ok (quo_int a (pos (suc n)))
div_int a (negsuc n) = ok (quo_int a (negsuc n))

-- `errors.IsConflict`: an error that `fmt.Errorf("…: %v", err)` made is none.
abbrev pub is_conflict_error : Error → Bool
is_conflict_error (api conflict) = true
is_conflict_error e = false

abbrev pub is_conflict {ℓ} : {A : Type ℓ} → Outcome A → Bool
is_conflict (ok a) = false
is_conflict (err e) = is_conflict_error e
is_conflict (panic p) = false

pub wrap_error-is_conflict {ℓ} :
    {A : Type ℓ} (x : Reason) (m : Outcome A) → is_conflict (wrap_error x m) ≡ false
wrap_error-is_conflict x (ok a) = refl
wrap_error-is_conflict x (err e) = refl
wrap_error-is_conflict x (panic p) = refl

-- A chain that returns a result has a first step that does.
pub bind-ok {ℓ κ} :
    {A : Type ℓ} {B : Type κ} (o : Outcome A) (f : A → Outcome B) (b : B)
    → (o >>= f) ≡ ok b
    → (a : A) × (o ≡ ok a) × (f a ≡ ok b)
bind-ok (ok a) f b h = (a, refl, h)
bind-ok (err e) f b h = absurd (cc)
bind-ok (panic p) f b h = absurd (cc)

pub ok_injective {ℓ} : {A : Type ℓ} {a b : A} → ok a ≡ ok b → a ≡ b
ok_injective h = cc
