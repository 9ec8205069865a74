-- ===== src/Conn/Dsn.antt =====
-- plugin/conn.go: `createDNS`, the connection string. It ranges over a map, whose order of
-- iteration the runtime chooses: `iterate` lists the entries in that order.
pub mod Laws
use zabbix_agent2_plugin_pos.Prelude.{String, ◌<>◌, List, [], ◌∷◌, ◌==◌, string_eq, if◌then◌else◌}
use zabbix_agent2_plugin_pos.Prelude.Dict.{Dict}
use zabbix_agent2_plugin_pos.Sdk.{Sdk}

-- The settings that the driver calls so.
abbrev password : String
password = "password"

abbrev ssl_mode : String
ssl_mode = "sslmode"

abbrev root_ca : String
root_ca = "sslrootcert"

abbrev cert : String
cert = "sslcert"

abbrev key : String
key = "sslkey"

abbrev cache_mode : String
cache_mode = "statement_cache_mode"

-- `fmt.Sprintf("%s %s=%s", dsn, k, v)`
abbrev pub add_setting : String → String → String → String
add_setting dsn k v = dsn <> " " <> k <> "=" <> v

-- The loop over the map, in the order of its entries.
unfoldable pub add_settings : String → Dict String String → String
add_settings dsn [] = dsn
add_settings dsn ((k, v) ∷ entries) =
    add_settings (if v == "" then dsn else add_setting dsn k v) entries

-- `fmt.Sprintf("host=%s port=%s dbname=%s user=%s", host, port, dbname, user)`
unfoldable pub endpoint_settings : String → String → String → String → String
endpoint_settings host port dbname user =
    "host=" <> host <> " port=" <> port <> " dbname=" <> dbname <> " user=" <> user

module _ (S : Sdk) where
  -- The map `tmp`.
  unfoldable pub optional_settings : String → String → S.Details → Dict String String
  optional_settings pass mode details =
      (password, pass)
      ∷ (ssl_mode, S.tls_connect details)
      ∷ (root_ca, S.tls_ca_file details)
      ∷ (cert, S.tls_cert_file details)
      ∷ (key, S.tls_key_file details)
      ∷ (cache_mode, mode)
      ∷ []

  unfoldable pub create_dns :
      (Dict String String → Dict String String)
      → String
      → String
      → String
      → String
      → String
      → String
      → S.Details
      → String
  unfolding add_settings endpoint_settings optional_settings
  create_dns iterate host port dbname user pass mode details =
      add_settings (endpoint_settings host port dbname user)
        (iterate (optional_settings pass mode details))
