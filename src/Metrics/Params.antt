-- ===== src/Metrics/Params.antt =====
-- plugin/metrics.go: the parameters as the calls of the SDK's package metric describe them, and
-- `getParameters`.
use zabbix_agent2_plugin_pos.Prelude.{
  ℕ, zero, suc, ◌<◌, String, ◌≡◌, refl, ap, Bool, true, false, Option, none, some, List, [], ◌∷◌,
  ◌++◌, length, take, drop, set, leb, ltb, le→leb, Bool-cases, inl, inr, if◌then◌else◌, arith,
}
use zabbix_agent2_plugin_pos.Metrics.Keys.{
  cache_mode_param, database_param, password_param, tcp_param, tls_ca_param, tls_cert_param,
  tls_connect_param, tls_key_param, uri_param, user_param,
}

-- `NewConnParam`, `NewSessionOnlyParam` and `NewParam`.
pub data Kind : Type 0 where
  conn session_only plain : Kind

-- The validators of the plugin's parameters, with their fields.
pub data ParamValidator : Type 0 where
  no_validator : ParamValidator
  uri_validator : List String → ParamValidator
  len_validator : Option ℕ → Option ℕ → ParamValidator
  set_validator : List String → Bool → ParamValidator  -- the set, and `CaseInsensitive`

pub record Param : Type 0 where
  pub kind : Kind
  pub name : String
  pub description : String
  pub default : Option String
  pub with_session : Bool
  pub required : Bool
  pub validator : ParamValidator

abbrev conn_param : String → String → String → ParamValidator → Param
conn_param name description default validator = record {
  kind = conn;
  name = name;
  description = description;
  default = some default;
  with_session = false;
  required = false;
  validator = validator;
}

abbrev session_param : String → String → String → ParamValidator → Param
session_param name description default validator = record {
  kind = session_only;
  name = name;
  description = description;
  default = some default;
  with_session = false;
  required = false;
  validator = validator;
}

abbrev required_param : String → String → Param
required_param name description = record {
  kind = plain;
  name = name;
  description = description;
  default = none;
  with_session = false;
  required = true;
  validator = no_validator;
}

abbrev pub allowed_schemes : List String
allowed_schemes = tcp_param ∷ "postgresql" ∷ "unix" ∷ []

abbrev pub param_uri : Param
param_uri = record {
  kind = conn;
  name = uri_param;
  description = "URI to connect or session name.";
  default = some "tcp://localhost:5432";
  with_session = true;
  required = false;
  validator = uri_validator allowed_schemes;
}

abbrev min_db_name_len : ℕ
min_db_name_len = 1

abbrev max_db_name_len : ℕ
max_db_name_len = 63

abbrev max_pass_len : ℕ
max_pass_len = 512

abbrev pub param_username : Param
param_username = conn_param user_param "PostgreSQL user." "postgres" no_validator

abbrev pub param_password : Param
param_password =
    conn_param password_param "User's password." "" (len_validator none (some max_pass_len))

abbrev pub param_database : Param
param_database =
    conn_param database_param "Database name to be used for connection." "postgres"
      (len_validator (some min_db_name_len) (some max_db_name_len))

abbrev pub param_tls_connect : Param
param_tls_connect = session_param tls_connect_param "DB connection encryption type." "" no_validator

abbrev pub param_tls_ca_file : Param
param_tls_ca_file = session_param tls_ca_param "TLS ca file path." "" no_validator

abbrev pub param_tls_cert_file : Param
param_tls_cert_file = session_param tls_cert_param "TLS cert file path." "" no_validator

abbrev pub param_tls_key_file : Param
param_tls_key_file = session_param tls_key_param "TLS key file path." "" no_validator

abbrev pub param_cache_mode : Param
param_cache_mode =
    session_param cache_mode_param "Cache mode for postgresql connections." "prepare"
      (set_validator ("prepare" ∷ "describe" ∷ []) false)

abbrev pub param_query_name : Param
param_query_name =
    required_param "QueryName"
      "Name of a custom query (must be equal to a name of an SQL file without an extension)."

abbrev pub param_time_period : Param
param_time_period = required_param "TimePeriod" "Execution time limit for count of slow queries."

-- The slice `m` of `getParameters`.
abbrev pub common_params : List Param
common_params =
    param_uri ∷ param_username ∷ param_password ∷ param_database ∷ param_tls_connect
    ∷ param_tls_ca_file ∷ param_tls_cert_file ∷ param_tls_key_file ∷ param_cache_mode ∷ []

-- `additionalParam`
pub record AdditionalParam : Type 0 where
  pub param : Option Param
  pub position : ℕ

-- `m = append(m[:position+1], m[position:]...)`, then `m[position] = param`. The capacity of `m` is
-- its length, so that the first slice panics (`none`) where it reaches beyond.
unfoldable pub add_param : {A : Type 0} → List A → A → ℕ → Option (List A)
add_param m param position =
    if leb (suc position) (length m)
    then some (set (take (suc position) m ++ drop position m) position param)
    else none

unfoldable pub get_parameters : Option AdditionalParam → Option (List Param)
unfolding add_param
get_parameters none = some common_params
get_parameters (some add) = elim add.param [
  | none ↦ some common_params
  | some param ↦ add_param common_params param add.position
]

set-shifted :
    {A : Type 0} (m : List A) (p : ℕ) (a : A)
    → p < length m
    → set (take (suc p) m ++ drop p m) p a ≡ take p m ++ a ∷ drop p m
set-shifted [] p a h = absurd (omega arith)
set-shifted (x ∷ m) zero a h = refl
set-shifted (x ∷ m) (suc p) a h = ap (λ t. x ∷ t) (set-shifted m p a (omega arith))

-- At a position inside the slice the new parameter is inserted in front of the one that was there,
-- and all the others keep their order; at any other position the call panics.
add_param_lem :
    {A : Type 0} (m : List A) (a : A) (p : ℕ)
    → add_param m a p ≡ (if ltb p (length m) then some (take p m ++ a ∷ drop p m) else none)
unfolding add_param
add_param_lem m a p = elim (Bool-cases (ltb p (length m))) [
  | inl inside ↦
      rw (inside, le→leb (suc p) (length m) (ground arith))
        (ap some (set-shifted m p a (ground arith)))
  | inr outside ↦ ground arith
]
