-- ===== src/Handlers/Database.antt =====
-- plugin/handler_database_age.go, handler_database_size.go, handler_databases_bloating.go and
-- handler_databases_discovery.go.
use zabbix_agent2_plugin_pos.Prelude.Dict.{get}
use zabbix_agent2_plugin_pos.Prelude.{String, ◌<>◌, [], ◌∷◌}
use zabbix_agent2_plugin_pos.Client.Values.{Formats}
use zabbix_agent2_plugin_pos.Handlers.Fetch.{HandlerFunc, fetch_string, fetch_int64}

unfoldable pub database_age_sql : String
database_age_sql =
    "SELECT age(datfrozenxid)\n\t\tFROM pg_catalog.pg_database\n"
    <> "   \t\tWHERE datistemplate = false\n\t\t\t AND datname = $1;"

unfoldable pub database_size_sql : String
database_size_sql =
    "SELECT pg_database_size(datname::text)\n\t\tFROM pg_catalog.pg_database\n"
    <> "   \t\tWHERE datistemplate = false\n\t\t\t AND datname = $1;"

unfoldable pub databases_bloating_sql : String
databases_bloating_sql =
    "SELECT count(*)\n\t\t\t\tFROM pg_catalog.pg_stat_all_tables\n"
    <> "\t   \t\t   WHERE (n_dead_tup/(n_live_tup+n_dead_tup)::float8) > 0.2\n"
    <> "\t\t \t\t AND (n_live_tup+n_dead_tup) > 50;"

unfoldable pub databases_discovery_sql : String
databases_discovery_sql =
    "SELECT json_build_object " <> "('data',json_agg(json_build_object('{#DBNAME}',d.datname)))\n"
    <> "\t\t\t\tFROM pg_database d\n\t\t\t   WHERE NOT datistemplate\n"
    <> "\t\t\t\t AND datallowconn;"

module _ {W : Type 0} (F : Formats) where
  unfoldable pub database_age_handler : HandlerFunc W
  database_age_handler conn _ params _ =
      fetch_int64 F conn database_age_sql (get params "Database" ∷ [])

  unfoldable pub database_size_handler : HandlerFunc W
  database_size_handler conn _ params _ =
      fetch_int64 F conn database_size_sql (get params "Database" ∷ [])

  unfoldable pub databases_bloating_handler : HandlerFunc W
  databases_bloating_handler conn _ _ _ = fetch_int64 F conn databases_bloating_sql []

  unfoldable pub databases_discovery_handler : HandlerFunc W
  databases_discovery_handler conn _ _ _ = fetch_string F conn databases_discovery_sql []
