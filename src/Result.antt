-- ===== src/Result.antt =====
-- Fallible code. An error is `anyhow::Error`, with a constructor for each message that the program can
-- give it; a panic unwinds through every caller, which no error handler of the program stops.
use udp_director.Prelude.{Bool, true, false, Option, none, some, ◌≡◌, refl, ◌⊎◌, inl, inr}

-- demand.rs: the errors that a query reports by their own text.
pub data DemandError : Type 0 where
  unknown_group maintenance unavailable timeout cancelled : DemandError

pub data Error : Type 0 where
  demand : DemandError → Error
  no_resources no_valid_backends no_backend_with_capacity : Error
  not_serialized address_path_missing no_address_of_type address_not_array address_not_string :
      Error
  port_out_of_range port_name_missing port_path_missing port_not_number no_port_lookup : Error
  list_failed no_list_version watch_failed pod_is_draining no_pod_name no_resource_version : Error
  patch_rejected no_selector_label no_service_port_name no_service : Error
  no_port_mapping invalid_socket_address bind_failed send_failed connect_failed no_session : Error
  unknown_resource_type no_matching_resources no_address_path port_not_supported : Error
  missing_server_mapping not_a_pod_mapping not_a_pod no_server_identity missing_character : Error
  invalid_backend_ports invalid_backend_port missing_backend_port no_data_ports : Error
  invalid_endpoint not_internal_http zero_boot_timeout invalid_group no_pod_mapping
        no_core_pod_mapping :
      Error
  zero_query_port no_data_port zero_data_port empty_port_name empty_resource_type : Error
  empty_namespace empty_mapping : Error
  incomplete_request request_too_long bad_request read_failed : Error
  config_unreadable config_malformed : Error

pub data Result {ℓ} (A : Type ℓ) : Type ℓ where
  ok : A → Result A
  err : Error → Result A
  panic : Result A

infixl 5 ◌>>=◌ ◌>>◌
abbrev pub ◌>>=◌ {ℓ κ} : {A : Type ℓ} {B : Type κ} → Result A → (A → Result B) → Result B
ok a >>= f = f a
err e >>= f = err e
panic >>= f = panic

abbrev pub ◌>>◌ {ℓ} : {B : Type ℓ} → Result (Unit {0}) → Result B → Result B
m >> k = m >>= λ _. k

-- `anyhow::ensure!`
abbrev pub ensure : Bool → Error → Result (Unit {0})
ensure true e = ok tt
ensure false e = err e

-- `ok_or_else` and `context` on an `Option`
abbrev pub or_fail {ℓ} : {A : Type ℓ} → Option A → Error → Result A
or_fail none e = err e
or_fail (some a) e = ok a

-- `map_err` with an error that does not depend on the first one
abbrev pub map_err {ℓ} : {A : Type ℓ} → Error → Result A → Result A
map_err e (ok a) = ok a
map_err e (err d) = err e
map_err e panic = panic

-- To split on a computed result and keep the equation.
pub Result-cases {ℓ} :
    {A : Type ℓ} (m : Result A)
    → ((a : A) × (m ≡ ok a)) ⊎ (((e : Error) × (m ≡ err e)) ⊎ (m ≡ panic))
Result-cases (ok a) = inl (a, refl)
Result-cases (err e) = inr (inl (e, refl))
Result-cases panic = inr (inr refl)
