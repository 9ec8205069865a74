-- ===== src/Metrics/Dispatch/NeverEmpty.antt =====
-- The whole plugin on a connection of database/sql: which errors its handlers can give.
use zabbix_agent2_plugin_pos.Prelude.{
  ◌≡◌, refl, subst, false, String, ◌<>◌, ℕ, List, Option, none, some, [], ◌∷◌, leb, arith,
  string_eq, if◌then◌else◌,
}
use zabbix_agent2_plugin_pos.Prelude.Dict.{Dict, get}
use zabbix_agent2_plugin_pos.Errors.{
  Error, new, wrap, deadline_exceeded, is_pgx_no_rows, Result, ok, err, fail,
}
use zabbix_agent2_plugin_pos.Client.Values.{Formats}
use zabbix_agent2_plugin_pos.Conn.Time.{Context, context_err}
use zabbix_agent2_plugin_pos.Conn.Manager.{PgConn}
use zabbix_agent2_plugin_pos.Conn.Query.{
  Sql, sql_ext, normalized_sql, query, query_row, query_by_name, pg_client, check_context,
}
use zabbix_agent2_plugin_pos.Handlers.Fetch.{HandlerFunc}
use zabbix_agent2_plugin_pos.Handlers.Outcomes.{Outcome, Ends, Any, Ends-fail, Ends-on_error}
use zabbix_agent2_plugin_pos.Handlers.Outcomes.Emptiness.{
  Plain, NotEmpty, PlainEnd, PlainRow, PlainRows, PlainClient, is_empty_result,
}
use zabbix_agent2_plugin_pos.Handlers.Outcomes.NeverEmpty.{
  NeverEmpty, fetch_string-NotEmpty, fetch_int64-NotEmpty, fetch_float64-NotEmpty,
  archive_handler-NeverEmpty, ping_handler-NeverEmpty, version_handler-NeverEmpty,
  wal_handler-NeverEmpty, locks_handler-NeverEmpty, queries_handler-NeverEmpty,
  replication_handler-NeverEmpty,
}
use zabbix_agent2_plugin_pos.Handlers.CustomQuery.NeverEmpty.{custom_query_handler-NeverEmpty}
use zabbix_agent2_plugin_pos.Handlers.Server.{
  bgwriter_handler, bgwriter_sql, uptime_handler, uptime_sql,
}
use zabbix_agent2_plugin_pos.Handlers.Activity.{
  autovacuum_handler, cache_handler, connections_handler, oldest_xid_handler, autovacuum_sql,
  cache_sql, connections_sql, oldest_xid_sql,
}
use zabbix_agent2_plugin_pos.Handlers.Database.{
  database_age_handler, database_size_handler, databases_bloating_handler,
  databases_discovery_handler, database_age_sql, database_size_sql, databases_bloating_sql,
  databases_discovery_sql,
}
use zabbix_agent2_plugin_pos.Handlers.DbStat.{db_stat_handler, db_stat_sql}
use zabbix_agent2_plugin_pos.Handlers.Replication.{
  process_name_discovery_handler, process_name_discovery_sql,
}
use zabbix_agent2_plugin_pos.Metrics.Dispatch.{get_handler_func}
use zabbix_agent2_plugin_pos.Metrics.Dispatch.Every.{Every, get_handler_func-Every}

-- database/sql and the driver do not give pgx.ErrNoRows, nor an error of the SDK.
pub record PlainSql {W : Type 0} (D : Sql W) : Type 0 where
  pub query_context :
      (h : ℕ) (ctx : Context) (sql : String) (args : List String)
      → Ends Plain PlainRows (D.query_context h ctx sql args)
  pub query_row_context :
      (h : ℕ) (ctx : Context) (sql : String) (args : List String) (w : W)
      → PlainRow (D.query_row_context h ctx sql args w).0

context_err-Plain :
    (ctx : Context) (now : ℕ) (e : Error) → context_err ctx now ≡ some e → e ≡ deadline_exceeded
unfolding context_err
context_err-Plain ctx now e h = at_deadline ctx.deadline h
  where
    at_deadline :
        (o : Option ℕ)
        → elim o [ none ↦ none | some t ↦ if leb t now then some deadline_exceeded else none ]
          ≡ some e
        → e ≡ deadline_exceeded
    at_deadline none h' = cc
    at_deadline (some t) h' = ground arith

module _ {W : Type 0} (D : Sql W) (F : Formats) (conn : PgConn) (ctx : Context)
    (p : PlainSql D) where
  check_context-Plain :
      {A : Type 0} (Q : A → Type 0) (msg : String) (a : A) (w : W)
      → Q a
      → Outcome Plain Q (check_context D F conn ctx msg a w).0
  unfolding is_pgx_no_rows is_empty_result
  check_context-Plain {A} Q msg a w q =
      checked (context_err ctx (D.now w)) (context_err-Plain ctx (D.now w))
    where
      checked :
          (o : Option Error)
          → ((e : Error) → o ≡ some e → e ≡ deadline_exceeded)
          → Outcome Plain Q
              (elim o as (λ _. Result A × W) [
                | none ↦ (ok a, w)
                | some e ↦ (err (wrap e msg), w)
              ]).0
      checked none late = q
      checked (some e) late = rw (late e refl) (refl, refl)

  query-Plain :
      (sql : String) (args : List String) → Ends Plain PlainRows (query D F conn ctx sql args)
  unfolding query is_pgx_no_rows is_empty_result
  query-Plain sql args =
      Ends-on_error _ _ _ (p.query_context conn.client ctx sql args)
        (λ e pe. Ends-fail (wrap e "failed to execute query") pe)
        λ rows q. record {
          at = λ w. check_context-Plain PlainRows "failed to query due to context error" rows w q;
        }

  query_row-Plain :
      (sql : String) (args : List String) → Ends Plain PlainRow (query_row D F conn ctx sql args)
  unfolding query_row
  query_row-Plain sql args = record {
    at = λ w.
        let (row, w') = D.query_row_context conn.client ctx sql args w in
        check_context-Plain PlainRow "failed to query row" row w'
          (p.query_row_context conn.client ctx sql args w);
  }

  query_by_name-Plain :
      (name : String) (args : List String)
      → Ends Plain PlainRows (query_by_name D F conn ctx name args)
  unfolding query_by_name is_pgx_no_rows is_empty_result
  query_by_name-Plain name args = stored (conn.query_storage (name <> sql_ext))
    where
      stored :
          (o : Option String)
          → Ends {W = W} Plain PlainRows (elim o [
            | some sql ↦ query D F conn ctx (normalized_sql sql) args
            | none ↦ fail (new ("query " <> F.quote name <> " not found"))
          ])
      stored none = Ends-fail _ (refl, refl)
      stored (some sql) = query-Plain (normalized_sql sql) args

  pg_client-Plain : PlainClient (pg_client D F conn ctx)
  unfolding pg_client
  pg_client-Plain = record { query_row = query_row-Plain; query_by_name = query_by_name-Plain }

module _ {W : Type 0} (F : Formats) where
  bgwriter_handler-NeverEmpty : NeverEmpty (bgwriter_handler {W = W} F)
  unfolding bgwriter_handler
  bgwriter_handler-NeverEmpty conn key params extra p =
      fetch_string-NotEmpty conn p (bgwriter_sql conn.postgres_version) [] F

  uptime_handler-NeverEmpty : NeverEmpty (uptime_handler {W = W} F)
  unfolding uptime_handler
  uptime_handler-NeverEmpty conn key params extra p = fetch_float64-NotEmpty conn p uptime_sql [] F

  autovacuum_handler-NeverEmpty : NeverEmpty (autovacuum_handler {W = W} F)
  unfolding autovacuum_handler
  autovacuum_handler-NeverEmpty conn key params extra p =
      fetch_int64-NotEmpty conn p autovacuum_sql [] F

  cache_handler-NeverEmpty : NeverEmpty (cache_handler {W = W} F)
  unfolding cache_handler
  cache_handler-NeverEmpty conn key params extra p = fetch_float64-NotEmpty conn p cache_sql [] F

  connections_handler-NeverEmpty : NeverEmpty (connections_handler {W = W} F)
  unfolding connections_handler
  connections_handler-NeverEmpty conn key params extra p =
      fetch_string-NotEmpty conn p connections_sql [] F

  oldest_xid_handler-NeverEmpty : NeverEmpty (oldest_xid_handler {W = W} F)
  unfolding oldest_xid_handler
  oldest_xid_handler-NeverEmpty conn key params extra p =
      fetch_int64-NotEmpty conn p oldest_xid_sql [] F

  database_age_handler-NeverEmpty : NeverEmpty (database_age_handler {W = W} F)
  unfolding database_age_handler
  database_age_handler-NeverEmpty conn key params extra p =
      fetch_int64-NotEmpty conn p database_age_sql (get params "Database" ∷ []) F

  database_size_handler-NeverEmpty : NeverEmpty (database_size_handler {W = W} F)
  unfolding database_size_handler
  database_size_handler-NeverEmpty conn key params extra p =
      fetch_int64-NotEmpty conn p database_size_sql (get params "Database" ∷ []) F

  databases_bloating_handler-NeverEmpty : NeverEmpty (databases_bloating_handler {W = W} F)
  unfolding databases_bloating_handler
  databases_bloating_handler-NeverEmpty conn key params extra p =
      fetch_int64-NotEmpty conn p databases_bloating_sql [] F

  databases_discovery_handler-NeverEmpty : NeverEmpty (databases_discovery_handler {W = W} F)
  unfolding databases_discovery_handler
  databases_discovery_handler-NeverEmpty conn key params extra p =
      fetch_string-NotEmpty conn p databases_discovery_sql [] F

  db_stat_handler-NeverEmpty : NeverEmpty (db_stat_handler {W = W} F)
  unfolding db_stat_handler
  db_stat_handler-NeverEmpty conn key params extra p =
      fetch_string-NotEmpty conn p (db_stat_sql key conn.postgres_version) [] F

  process_name_discovery_handler-NeverEmpty : NeverEmpty (process_name_discovery_handler {W = W} F)
  unfolding process_name_discovery_handler
  process_name_discovery_handler-NeverEmpty conn key params extra p =
      fetch_string-NotEmpty conn p process_name_discovery_sql [] F

every-NeverEmpty :
    (W : Type 0) (F : Formats) (wrap_nil : String → Option Error)
    → ((msg : String) → PlainEnd (wrap_nil msg))
    → Every {W = W} F wrap_nil NeverEmpty
every-NeverEmpty W F wrap_nil h = record {
  archive = archive_handler-NeverEmpty F;
  autovacuum = autovacuum_handler-NeverEmpty F;
  bgwriter = bgwriter_handler-NeverEmpty F;
  cache = cache_handler-NeverEmpty F;
  connections = connections_handler-NeverEmpty F;
  custom_query = custom_query_handler-NeverEmpty F wrap_nil h;
  database_age = database_age_handler-NeverEmpty F;
  database_size = database_size_handler-NeverEmpty F;
  databases_bloating = databases_bloating_handler-NeverEmpty F;
  databases_discovery = databases_discovery_handler-NeverEmpty F;
  db_stat = db_stat_handler-NeverEmpty F;
  locks = locks_handler-NeverEmpty F;
  oldest_xid = oldest_xid_handler-NeverEmpty F;
  ping = ping_handler-NeverEmpty F;
  process_name_discovery = process_name_discovery_handler-NeverEmpty F;
  queries = queries_handler-NeverEmpty F;
  replication = replication_handler-NeverEmpty F;
  uptime = uptime_handler-NeverEmpty F;
  version = version_handler-NeverEmpty F;
  wal = wal_handler-NeverEmpty F;
}

-- Whatever the metric, its parameters and the state of the server: if database/sql and the driver
-- give neither pgx.ErrNoRows nor an ErrorEmptyResult, and errs.Wrap makes neither of a nil error,
-- then no error that the metric's handler returns on a connection of the plugin is
-- ErrorEmptyResult.
pub get_handler_func_never_empty :
    {W : Type 0} (D : Sql W) (F : Formats) (wrap_nil : String → Option Error) (conn : PgConn)
    (ctx : Context) (key : String) (handler : HandlerFunc W) (params : Dict String String)
    (extra : List String) (w w' : W) (e : Error)
    → PlainSql D
    → ((msg : String) → PlainEnd (wrap_nil msg))
    → get_handler_func F wrap_nil key ≡ some handler
    → handler (pg_client D F conn ctx) key params extra w ≡ (err e, w')
    → is_empty_result e ≡ false
get_handler_func_never_empty D F wrap_nil conn ctx key handler params extra w w' e p h found
      failed =
    let never =
      get_handler_func-Every NeverEmpty F wrap_nil key handler (every-NeverEmpty _ F wrap_nil h)
        found in
    let ends =
      (never (pg_client D F conn ctx) key params extra (pg_client-Plain D F conn ctx p)).at w in
    subst (λ o. Outcome NotEmpty Any o.0) failed ends
