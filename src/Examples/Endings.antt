-- ===== src/Examples/Endings.antt =====
-- Runs of the theorems on how a handler and the process end.
use zabbix_agent2_plugin_pos.Prelude.{ℕ, ◌≡◌, refl, ◌↔◌, false, some, none, [], string_eq}
use zabbix_agent2_plugin_pos.Errors.{ok, new, wrap_const, cannot_fetch_data, sql_no_rows}
use zabbix_agent2_plugin_pos.Client.Values.{no_row, scan}
use zabbix_agent2_plugin_pos.Conn.Query.{Sql, pg_client}
use zabbix_agent2_plugin_pos.Conn.Time.{background}
use zabbix_agent2_plugin_pos.Handlers.Fetch.{fetch_with, scan_failed}
use zabbix_agent2_plugin_pos.Handlers.Outcomes.Emptiness.{is_empty_result}
use zabbix_agent2_plugin_pos.Handlers.Server.{uptime_handler}
use zabbix_agent2_plugin_pos.Metrics.Dispatch.{get_handler_func}
use zabbix_agent2_plugin_pos.Metrics.Dispatch.NeverEmpty.{PlainSql, get_handler_func_never_empty}
use zabbix_agent2_plugin_pos.Main.{Agent, main, exited}
use zabbix_agent2_plugin_pos.Main.Laws.{Completes, main_lem}
use zabbix_agent2_plugin_pos.Examples.Samples.{formats, database, conn_of}

-- A database that finds no row.
abbrev empty_database : Sql ℕ
empty_database = record database { query_row_context = λ _ _ _ _ n. (no_row, n) }

empty_database-Plain : PlainSql empty_database
empty_database-Plain = record {
  query_context =
      λ h ctx sql args. record { at = λ w. record { columns = tt; fetched = tt; rows_err = tt } };
  query_row_context = λ h ctx sql args w. tt;
}

get_handler_func_never_empty_example :
    is_empty_result (wrap_const cannot_fetch_data sql_no_rows) ≡ false
unfolding get_handler_func string_eq uptime_handler pg_client fetch_with scan scan_failed
get_handler_func_never_empty_example =
    get_handler_func_never_empty empty_database formats (λ _. none) (conn_of 0 100) background
      "pgsql.uptime" (uptime_handler formats) [] [] 3 3 (wrap_const cannot_fetch_data sql_no_rows)
      empty_database-Plain (λ msg. tt) refl refl

-- An SDK that has nothing to do for the flags, and whose handler fails.
abbrev failing_agent : Agent ℕ
failing_agent = record {
  Args = Unit {0};
  Handler = Unit {0};
  handle_flags = λ w. (ok tt, w);
  decide_action_from_flags = λ _ _ w. (none, w);
  new_handler = λ _ w. (ok tt, w);
  execute = λ _ w. (some (new "no socket"), w);
  exits_gracefully = λ _. false;
  error = λ _. "no socket";
  open_log = λ w. (none, w);
  register_metrics = λ _ _ w. (none, w);
}

main_lem_example :
    ((main failing_agent "postgresql" 0).0 ≡ exited 0 []) ↔ Completes failing_agent "postgresql" 0
main_lem_example = main_lem failing_agent "postgresql" 0
