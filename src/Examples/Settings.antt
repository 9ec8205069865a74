-- ===== src/Examples/Settings.antt =====
-- Runs of the theorems on the configuration, the metrics' parameters and the connection string.
use mathlib.Core.List.{Perm, Mem}
use mathlib.Core.List.Perm
use text.Mathlib.TextEquality.{eq_iff}
use zabbix_agent2_plugin_pos.Prelude.{
  ◌<◌, ◌≡◌, ◌≢◌, refl, ◌↔◌, ◌⊎◌, true, false, Option, none, some, List, [], ◌∷◌, String, ◌<>◌,
  string_eq, contains, arith,
}
use zabbix_agent2_plugin_pos.Prelude.Text.FilePath.{is_abs}
use zabbix_agent2_plugin_pos.Errors.{Error, ok}
use zabbix_agent2_plugin_pos.Config.{
  PluginOptions, zero_options, default_path_nix, configure, validated, validate as validate_options,
}
use zabbix_agent2_plugin_pos.Config.Laws.{configure_timeouts, configure-is_abs}
use zabbix_agent2_plugin_pos.Conn.Tls.{tls_type, tls_details}
use zabbix_agent2_plugin_pos.Conn.Dsn.{create_dns, endpoint_settings, optional_settings}
use zabbix_agent2_plugin_pos.Conn.Dsn.Laws.{
  concat, written, create_dns_ambiguous, create_dns-written, create_dns-sslmode,
}
use zabbix_agent2_plugin_pos.Metrics.Validator.{PostgresUriValidator, is_socket_path, validate}
use zabbix_agent2_plugin_pos.Metrics.Validator.Laws.{IsSocketPath, is_socket_path_iff, validate_iff}
use zabbix_agent2_plugin_pos.Examples.Samples.{sdk}

-- Options that turn custom queries on and leave the rest unset.
abbrev read_enabled : Unit {0} → PluginOptions → PluginOptions × Option Error
read_enabled _ o = (record o { custom_queries_enabled = true }, none)

configure_timeouts_example :
    let set = (read_enabled tt zero_options).0 in
    let o = configure read_enabled default_path_nix 3 tt zero_options in
    (0 < o.timeout)
    × (0 < o.call_timeout)
    × ((set.timeout ≡ 0) ⊎ (o.timeout ≡ set.timeout))
    × ((set.call_timeout ≡ 0) ⊎ (o.call_timeout ≡ set.call_timeout))
configure_timeouts_example =
    configure_timeouts read_enabled default_path_nix 3 tt zero_options (omega arith)

configure-is_abs_example :
    let o = configure read_enabled default_path_nix 3 tt zero_options in
    (o.custom_queries_enabled ≡ false) ⊎ (is_abs o.custom_queries_path ≡ true)
unfolding validate_options validated string_eq is_abs
configure-is_abs_example = configure-is_abs read_enabled 3 tt refl

create_dns-written_example :
    (ts : List String) × Perm ts (written (optional_settings sdk "secret" "prepare" "disable"))
    × (create_dns sdk (λ d. d) "localhost" "5432" "postgres" "zabbix" "secret" "prepare" "disable"
        ≡ concat (endpoint_settings "localhost" "5432" "postgres" "zabbix") ts)
create_dns-written_example =
    create_dns-written sdk (λ d. d) "localhost" "5432" "postgres" "zabbix" "secret" "prepare"
      "disable" (Perm.refl _)

create_dns-sslmode_example :
    (ts : List String) × Mem
      (" " <> "sslmode" <> "=" <> tls_type (("TLSConnect", "required") ∷ []))
      ts
    × (create_dns sdk
          (λ d. d)
          "localhost"
          "5432"
          "postgres"
          "zabbix"
          ""
          "prepare"
          (tls_details sdk (("TLSConnect", "required") ∷ []))
        ≡ concat (endpoint_settings "localhost" "5432" "postgres" "zabbix") ts)
create_dns-sslmode_example =
    create_dns-sslmode sdk (λ session type_ ca cert key uri types. refl) (λ d. d)
      (("TLSConnect", "required") ∷ []) "localhost" "5432" "postgres" "zabbix" "" "prepare"
      (λ entries. Perm.refl entries)

secret-ne-nil : ◌≢◌ {A = String} "secret" ""
secret-ne-nil = ground (arith, eq_iff "secret" "")

create_dns_ambiguous_example :
    create_dns sdk
      (λ d. d)
      "localhost"
      "5432"
      "postgres"
      ("zabbix" <> " password=" <> "secret")
      ""
      "prepare"
      "disable"
    ≡ create_dns sdk (λ d. d) "localhost" "5432" "postgres" "zabbix" "secret" "prepare" "disable"
unfolding optional_settings
create_dns_ambiguous_example =
    create_dns_ambiguous sdk (λ d. d) "localhost" "5432" "postgres" "zabbix" "secret" "prepare"
      "disable"
      (("sslmode", "disable")
        ∷ ("sslrootcert", "")
        ∷ ("sslcert", "")
        ∷ ("sslkey", "")
        ∷ ("statement_cache_mode", "prepare")
        ∷ [])
      secret-ne-nil refl refl

is_socket_path_iff_example :
    (is_socket_path "/tmp/.s.PGSQL.5432" ≡ true) ↔ IsSocketPath "/tmp/.s.PGSQL.5432"
is_socket_path_iff_example = is_socket_path_iff "/tmp/.s.PGSQL.5432"

abbrev uri_validator : PostgresUriValidator
uri_validator = record {
  defaults = record { scheme = "tcp"; port = "5432" };
  allowed_schemes = some ("tcp" ∷ "postgresql" ∷ "unix" ∷ []);
}

validate_iff_example : (validate sdk uri_validator (some "tcp://localhost") ≡ ok tt) ↔ (
    (u : String) × (sdk.uri_new "tcp://localhost" uri_validator.defaults ≡ ok u)
    × (contains ("tcp" ∷ "postgresql" ∷ "unix" ∷ []) (sdk.scheme u) ≡ true)
    × ((sdk.scheme u ≢ "unix") ⊎ IsSocketPath "tcp://localhost"))
validate_iff_example =
    validate_iff sdk uri_validator ("tcp" ∷ "postgresql" ∷ "unix" ∷ []) "tcp://localhost" refl
