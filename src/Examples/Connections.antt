-- ===== src/Examples/Connections.antt =====
-- Runs of the theorems on connecting and on `Export`.
use zabbix_agent2_plugin_pos.Prelude.{
  ℕ, suc, none, some, true, List, ◌≡◌, refl, ◌⊎◌, false, [], ◌∷◌, string_eq,
}
use zabbix_agent2_plugin_pos.Prelude.Dict.{lookup, insert, get}
use zabbix_agent2_plugin_pos.Prelude.Integers.{ltb_ℤ}
use zabbix_agent2_plugin_pos.Prelude.Text.Decimal.{format_int, parse_int}
use zabbix_agent2_plugin_pos.Errors.{Error, wrap, new, ok, err, panic}
use zabbix_agent2_plugin_pos.Client.Values.{text, got_row, scan, to_int}
use zabbix_agent2_plugin_pos.Conn.Manager.{
  PgConn, ConnManager, update_access_time, get_conn, set_conn, new_pg_conn,
  min_supported_pg_version,
}
use zabbix_agent2_plugin_pos.Conn.Query.{Sql, get_postgres_version}
use zabbix_agent2_plugin_pos.Conn.Tls.{get_tls_details, tls_details}
use zabbix_agent2_plugin_pos.Conn.Create.{
  create_conn_id, get_connection, connect, create, create_client, admit, endpoint,
}
use zabbix_agent2_plugin_pos.Conn.Create.Laws.{admit-closes, get_connection_again}
use zabbix_agent2_plugin_pos.Conn.Create.Ledger.{Ledger, shown}
use zabbix_agent2_plugin_pos.Conn.Create.{ConnId}
use zabbix_agent2_plugin_pos.Conn.Manager.Schedule.{Event, run}
use zabbix_agent2_plugin_pos.Config.{zero_options}
use zabbix_agent2_plugin_pos.Handlers.Fetch.{Answer}
use zabbix_agent2_plugin_pos.Handlers.Server.{ping_failed}
use zabbix_agent2_plugin_pos.Metrics.Registry.{metrics}
use zabbix_agent2_plugin_pos.Metrics.Dispatch.{get_handler_func}
use zabbix_agent2_plugin_pos.Plugin.{Plugin, prepare, serve, export}
use zabbix_agent2_plugin_pos.Plugin.Refinement.{export-shown}
use zabbix_agent2_plugin_pos.Examples.Samples.{
  metric_sdk, conn_of, formats, database, sdk, url, nothing, conn_id_eq, no_connections, main_id,
}

abbrev made : PgConn
made = record (conn_of 3 4) { address = "tcp://localhost:5432" }

connected :
    get_connection sdk url database formats (λ d. d) main_id [] (no_connections, 3)
    ≡ (ok made, (record no_connections { connections = (main_id, made) ∷ [] }, 4))
unfolding get_connection connect create create_client admit endpoint get_tls_details tls_details
    get_postgres_version get_conn set_conn lookup insert new_pg_conn scan to_int parse_int string_eq
connected = refl

get_connection_again_example :
    get_connection sdk url database formats
      (λ d. d)
      main_id
      []
      (record no_connections { connections = (main_id, made) ∷ [] }, 4)
    ≡ (
      ok (update_access_time made 4),
      (
        record no_connections {
          connections = insert main_id (update_access_time made 4) ((main_id, made) ∷ []);
        },
        4,
      ),
    )
get_connection_again_example =
    get_connection_again sdk url database formats (λ d. d) main_id [] [] no_connections
      (record no_connections { connections = (main_id, made) ∷ [] }) 3 4 made connected

admit-closes_example :
    let asked = get_postgres_version database formats sdk.wrap_nil 7 8 in
    ((conn : PgConn) × (conn
        ≡ new_pg_conn no_connections 7 conn.version (database.now asked.1) (sdk.addr main_id.uri))
      × (asked.0 ≡ ok conn.version)
      × (ltb_ℤ conn.version min_supported_pg_version ≡ false)
      × (admit sdk url database formats no_connections main_id 7 8 ≡ (ok conn, asked.1)))
    ⊎ ((e : Error) × (admit sdk url database formats no_connections main_id 7 8
          ≡ (err e, database.close 7 asked.1)))
    ⊎ (admit sdk url database formats no_connections main_id 7 8 ≡ (panic, asked.1))
admit-closes_example = admit-closes sdk url database formats no_connections main_id 7 8

-- A server of an old version; the world is the next handle and the handles closed.
abbrev old_database : Sql (ℕ × List ℕ)
old_database = record {
  query_context = λ _ _ _ _ w. (ok nothing, w);
  query_row_context = λ _ _ _ _ w. (got_row (text "90600" ∷ []), w);
  close = λ h w. (w.0, h ∷ w.1);
  parse_config = λ _. none;
  open_db = λ _ _ w. (w.0, (suc w.0, w.1));
  now = λ w. w.0;
}

abbrev old_ledger : Ledger old_database
old_ledger = record {
  opened = λ w. w.0;
  closed = λ w. w.1;
  open_db = λ _ _ w. (refl, refl, refl);
  close = λ h w. (refl, refl);
  query_row_context = λ _ _ _ _ w. (refl, refl);
  query_context = λ _ _ _ _ w. (refl, refl);
}

abbrev too_old : Error
too_old = wrap (new "PostgreSQL version 90600 is not supported") "failed to create connection"

refused :
    get_connection sdk url old_database formats (λ d. d) main_id [] (no_connections, (3, []))
    ≡ (err too_old, (no_connections, (4, 3 ∷ [])))
unfolding get_connection connect create create_client admit endpoint get_tls_details tls_details
    get_postgres_version get_conn lookup scan to_int parse_int string_eq format_int
refused = refl

abbrev plugin : Plugin sdk
plugin = record { conn_mgr = some no_connections; options = zero_options }

failed :
    export sdk metric_sdk url formats old_database (λ d. d) "pgsql.ping" [] none (plugin, (3, []))
    ≡ (ok (Answer.int ping_failed), (plugin, (4, 3 ∷ [])))
unfolding export prepare lookup metrics create_conn_id get get_handler_func string_eq serve
    get_connection connect create create_client admit endpoint get_tls_details tls_details
    get_postgres_version get_conn scan to_int parse_int format_int
failed = refl

export-shown_example :
    (c : ConnManager (ConnId sdk)) × (evs : List (Event (ConnId sdk))) × (plugin.conn_mgr ≡ some c)
    × (run (shown old_database old_ledger true no_connections (3, [])) evs
        ≡ shown old_database old_ledger true c (4, 3 ∷ []))
export-shown_example =
    export-shown old_database old_ledger sdk metric_sdk url formats (λ d. d) true plugin plugin
      "pgsql.ping" [] none no_connections (3, []) (4, 3 ∷ []) (ok (Answer.int ping_failed)) refl
      (λ same. cc) failed
