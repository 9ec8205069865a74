-- ===== src/Examples/Lifetimes.antt =====
-- Runs of the theorems on the plugin's life: it is asked twice, with a sweep in between that closes
-- its connection.
use zabbix_agent2_plugin_pos.Prelude.{
  ℕ, suc, String, ◌≡◌, ◌≢◌, refl, Option, none, some, true, List, [], ◌∷◌, string_eq, count, ltb,
  arith, if◌then◌else◌,
}
use zabbix_agent2_plugin_pos.Errors.{ok, panic}
use zabbix_agent2_plugin_pos.Prelude.Dict.{lookup, insert, get}
use zabbix_agent2_plugin_pos.Prelude.Integers.{pos}
use zabbix_agent2_plugin_pos.Prelude.Text.Decimal.{parse_int}
use zabbix_agent2_plugin_pos.Client.Values.{text, got_row, scan, to_int}
use zabbix_agent2_plugin_pos.Conn.Time.{since, seconds, with_timeout, context_err}
use zabbix_agent2_plugin_pos.Conn.Manager.{
  ConnManager, new_conn_manager, new_pg_conn, get_conn, set_conn, is_unused, close_unused,
  close_all,
}
use zabbix_agent2_plugin_pos.Conn.Query.{Sql, get_postgres_version, pg_client}
use zabbix_agent2_plugin_pos.Conn.Tls.{get_tls_details, tls_details}
use zabbix_agent2_plugin_pos.Conn.Create.{
  ConnId, create_conn_id, get_connection, connect, create, create_client, admit, endpoint,
}
use zabbix_agent2_plugin_pos.Handlers.Server.{ping_failed, ping_handler}
use zabbix_agent2_plugin_pos.Metrics.Registry.{metrics}
use zabbix_agent2_plugin_pos.Metrics.Dispatch.{get_handler_func}
use zabbix_agent2_plugin_pos.Plugin.{
  Plugin, start, prepare, serve, handle, export, effective_timeout,
}
use zabbix_agent2_plugin_pos.Conn.Manager.Schedule.Ownership.{Inv}
use zabbix_agent2_plugin_pos.Conn.Create.Ledger.{Ledger, shown}
use zabbix_agent2_plugin_pos.Config.{zero_options}
use zabbix_agent2_plugin_pos.Handlers.Fetch.{Answer, fetch_with}
use zabbix_agent2_plugin_pos.Plugin.Lifetime.{Doing, asked, swept, live, shut}
use zabbix_agent2_plugin_pos.Plugin.Lifetime.Laws.{CalmLife, live-Inv, shut-live-start}
use zabbix_agent2_plugin_pos.Examples.Samples.{metric_sdk, formats, sdk, url, nothing, conn_id_eq}

-- The clock, which a query moves on, the next handle and the handles closed.
abbrev pub World : Type 0
World = ℕ × ℕ × List ℕ

abbrev pub server : Sql World
server = record {
  query_context = λ _ _ _ _ w. (ok nothing, w);
  query_row_context = λ _ _ _ _ w. (got_row (text "150000" ∷ []), (suc w.0, w.1, w.2));
  close = λ h w. (w.0, w.1, h ∷ w.2);
  parse_config = λ _. none;
  open_db = λ _ _ w. (w.1, (w.0, suc w.1, w.2));
  now = λ w. w.0;
}

abbrev pub ledger : Ledger server
ledger = record {
  opened = λ w. w.1;
  closed = λ w. w.2;
  open_db = λ _ _ w. (refl, refl, refl);
  close = λ h w. (refl, refl);
  query_row_context = λ _ _ _ _ w. (refl, refl);
  query_context = λ _ _ _ _ w. (refl, refl);
}

abbrev idle : Plugin sdk
idle = record { conn_mgr = none; options = zero_options }

abbrev pub no_storage : String → String → Option (String → Option String)
no_storage _ _ = none

ok-ne-panic : (a : Answer) → ok a ≢ panic
ok-ne-panic a same = cc

abbrev began : Plugin sdk
began = start sdk no_storage idle

abbrev doings : List (Doing (ConnId sdk))
doings = asked "pgsql.ping" [] none ∷ swept (λ _. 2) ∷ asked "pgsql.ping" [] (some 5) ∷ []

-- What a run computes with.
program : Unit {0}
unfolding live shut start new_conn_manager export prepare lookup metrics create_conn_id get
    get_handler_func conn_id_eq string_eq serve get_connection connect create create_client admit
    endpoint get_tls_details tls_details get_postgres_version get_conn set_conn insert new_pg_conn
    close_unused close_all scan to_int parse_int handle ping_handler pg_client with_timeout
    context_err effective_timeout since seconds is_unused fetch_with
program = tt

ended :
    (shut server sdk (live server sdk metric_sdk url formats (λ d. d) doings (began, (0, 0, [])))).1
    ≡ (4, 2, 1 ∷ 0 ∷ [])
unfolding program
ended = refl

calm : CalmLife server ledger sdk metric_sdk url formats (λ d. d) doings (began, (0, 0, []))
unfolding program
calm = (ok-ne-panic (Answer.int ping_failed), (ok-ne-panic (Answer.int ping_failed), tt))

shut-live-start_example :
    (p : Plugin sdk) × ((shut server sdk
        (live server sdk metric_sdk url formats (λ d. d) doings (began, (0, 0, [])))).0
      ≡ ok p)
    × (p.conn_mgr ≡ none)
    × ((h : ℕ)
        → count h (
            ledger.closed
              (shut server sdk
                (live server sdk metric_sdk url formats (λ d. d) doings (began, (0, 0, [])))).1)
          ≡ (if ltb h (
                ledger.opened
                  (shut server sdk
                    (live server sdk metric_sdk url formats (λ d. d) doings (began, (0, 0, [])))).1)
              then 1
              else 0))
shut-live-start_example =
    shut-live-start server ledger sdk metric_sdk url formats (λ d. d) no_storage idle (0, 0, [])
      doings refl refl calm

abbrev at_first : ConnManager (ConnId sdk)
at_first = new_conn_manager (pos 0) (pos 0) (pos 0) (λ _. none)

at_first-Inv : Inv (shown server ledger true at_first (0, 0, []))
unfolding new_conn_manager
at_first-Inv = record { keys = tt; owned = λ h. ground arith }

live-Inv_example :
    let (p, w) = live server sdk metric_sdk url formats (λ d. d) doings (began, (0, 0, [])) in
    (c : ConnManager (ConnId sdk)) × (p.conn_mgr ≡ some c) × Inv (shown server ledger true c w)
unfolding start seconds string_eq
live-Inv_example =
    live-Inv server ledger sdk metric_sdk url formats (λ d. d) began at_first (0, 0, []) doings refl
      at_first-Inv calm
