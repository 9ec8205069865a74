-- ===== src/Config.antt =====
-- plugin/config.go, plugin/config_nix.go and plugin/config_windows.go. The ranges and defaults in
-- the field tags are the work of the SDK's conf package, which is a parameter here.
pub mod Laws
use zabbix_agent2_plugin_pos.Prelude.{
  ℕ, String, ◌<>◌, Bool, true, false, not, ◌&&◌, Option, none, some, List, [], ◌∷◌, ◌==◌, string_eq,
  eqb, if◌then◌else◌,
}
use zabbix_agent2_plugin_pos.Prelude.Dict.{Dict}
use zabbix_agent2_plugin_pos.Prelude.Text.FilePath.{is_abs}
use zabbix_agent2_plugin_pos.Errors.{Error, wrap, new, Result, ok, err}

pub record Session : Type 0 where
  pub uri : String
  pub user : String
  pub password : String
  pub database : String
  pub tls_connect : String
  pub tls_ca_file : String
  pub tls_cert_file : String
  pub tls_key_file : String
  pub cache_mode : String

-- `PluginOptions`, less the field `System` that the plugin does not read. Times are in seconds.
pub record PluginOptions : Type 0 where
  pub timeout : ℕ
  pub call_timeout : ℕ
  pub keep_alive : ℕ
  pub sessions : Dict String Session
  pub custom_queries_path : String
  pub custom_queries_enabled : Bool
  pub default : Session

abbrev pub empty_session : Session
empty_session = record {
  uri = "";
  user = "";
  password = "";
  database = "";
  tls_connect = "";
  tls_ca_file = "";
  tls_cert_file = "";
  tls_key_file = "";
  cache_mode = "";
}

-- The zero value.
abbrev pub zero_options : PluginOptions
zero_options = record {
  timeout = 0;
  call_timeout = 0;
  keep_alive = 0;
  sessions = [];
  custom_queries_path = "";
  custom_queries_enabled = false;
  default = empty_session;
}

-- `setCustomQueriesPathDefault`, with the path that each system has.
unfoldable pub set_custom_queries_path_default : String → PluginOptions → PluginOptions
set_custom_queries_path_default path pc =
    if pc.custom_queries_enabled && pc.custom_queries_path == ""
    then record pc { custom_queries_path = path }
    else pc

abbrev pub default_path_nix : String
default_path_nix = "/usr/local/share/zabbix/custom-queries/postgresql"

-- The argument is the environment variable `ProgramFiles`.
abbrev pub default_path_windows : String → String
default_path_windows program_files = program_files <> "\\Zabbix Agent 2\\Custom Queries\\Postgresql"

abbrev pub default_timeouts : ℕ → PluginOptions → PluginOptions
default_timeouts global o = record o {
  timeout = if eqb o.timeout 0 then global else o.timeout;
  call_timeout = if eqb o.call_timeout 0 then global else o.call_timeout;
}

-- The test of the options that were read.
unfoldable pub validated : PluginOptions → Result (Unit {0})
unfolding is_abs
validated opts =
    if opts.custom_queries_enabled
      && (not (opts.custom_queries_path == "") && not (is_abs opts.custom_queries_path))
    then err
        (new ("opts.CustomQueriesDir path: '" <> opts.custom_queries_path <> "' must be absolute"))
    else ok tt

-- `conf.UnmarshalStrict(options, &o)` for raw options of type `Raw`: the options after the call,
-- whose error leaves them partly set, and the error.
module _ {Raw : Type 0} (unmarshal : Raw → PluginOptions → PluginOptions × Option Error) where
  -- `Configure`: an error of `UnmarshalStrict` is logged and nothing else.
  unfoldable pub configure : String → ℕ → Raw → PluginOptions → PluginOptions
  unfolding set_custom_queries_path_default
  configure path global raw before =
      default_timeouts global (set_custom_queries_path_default path (unmarshal raw before).0)

  -- `Validate`
  unfoldable pub validate : Raw → Result (Unit {0})
  validate raw = elim ((unmarshal raw zero_options).1) [
    | some e ↦ err (wrap e "failed to unmarshal configuration options")
    | none ↦ validated (unmarshal raw zero_options).0
  ]
