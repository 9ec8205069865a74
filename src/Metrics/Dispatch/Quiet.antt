-- ===== src/Metrics/Dispatch/Quiet.antt =====
-- A handler on a connection of the plugin leaves the handles of the driver as they are.
use zabbix_agent2_plugin_pos.Prelude.{
  ◌≡◌, refl, ◌∙◌, String, ◌<>◌, ℕ, List, Option, none, some, string_eq,
}
use zabbix_agent2_plugin_pos.Errors.{Error, new, wrap, Result, ok, err, fail}
use zabbix_agent2_plugin_pos.Client.Values.{Formats, Rows}
use zabbix_agent2_plugin_pos.Conn.Time.{Context, context_err}
use zabbix_agent2_plugin_pos.Conn.Manager.{PgConn}
use zabbix_agent2_plugin_pos.Conn.Query.{
  Sql, sql_ext, normalized_sql, query, query_row, query_by_name, pg_client, check_context,
}
use zabbix_agent2_plugin_pos.Handlers.Fetch.{HandlerFunc}
use zabbix_agent2_plugin_pos.Handlers.Outcomes.Quiet.{
  Quiet, QuietClient, QuietHandler, Quiet-fail, Quiet-on_error, archive_handler-Quiet,
  autovacuum_handler-Quiet, bgwriter_handler-Quiet, cache_handler-Quiet, connections_handler-Quiet,
  custom_query_handler-Quiet, database_age_handler-Quiet, database_size_handler-Quiet,
  databases_bloating_handler-Quiet, databases_discovery_handler-Quiet, db_stat_handler-Quiet,
  locks_handler-Quiet, oldest_xid_handler-Quiet, ping_handler-Quiet,
  process_name_discovery_handler-Quiet, queries_handler-Quiet, replication_handler-Quiet,
  uptime_handler-Quiet, version_handler-Quiet, wal_handler-Quiet,
}
use zabbix_agent2_plugin_pos.Metrics.Dispatch.{get_handler_func}
use zabbix_agent2_plugin_pos.Metrics.Dispatch.Every.{get_handler_func-Every}

module _ {W X : Type 0} (seen : W → X) where
  -- No query of the driver changes what is seen.
  pub record QuietSql (D : Sql W) : Type 0 where
    pub query_context :
        (h : ℕ) (ctx : Context) (sql : String) (args : List String)
        → Quiet seen (D.query_context h ctx sql args)
    pub query_row_context :
        (h : ℕ) (ctx : Context) (sql : String) (args : List String) (w : W)
        → seen (D.query_row_context h ctx sql args w).1 ≡ seen w

  module _ (D : Sql W) (F : Formats) (conn : PgConn) (ctx : Context) (p : QuietSql D) where
    check_context-Quiet :
        {A : Type 0} (msg : String) (a : A) → Quiet seen (check_context D F conn ctx msg a)
    check_context-Quiet {A} msg a = record { at = λ w. checked w (context_err ctx (D.now w)) }
      where
        checked :
            (w : W) (o : Option Error)
            → seen
                (elim o as (λ _. Result A × W) [
                  | none ↦ (ok a, w)
                  | some e ↦ (err (wrap e msg), w)
                ]).1
              ≡ seen w
        checked w none = refl
        checked w (some e) = refl

    query-Quiet : (sql : String) (args : List String) → Quiet seen (query D F conn ctx sql args)
    unfolding query
    query-Quiet sql args =
        Quiet-on_error _ _ _ (p.query_context conn.client ctx sql args)
          (λ e. Quiet-fail (wrap e "failed to execute query"))
          (check_context-Quiet "failed to query due to context error")

    query_row-Quiet :
        (sql : String) (args : List String) → Quiet seen (query_row D F conn ctx sql args)
    unfolding query_row
    query_row-Quiet sql args = record {
      at = λ w.
          let (row, w') = D.query_row_context conn.client ctx sql args w in
          (check_context-Quiet "failed to query row" row).at w'
          ∙ p.query_row_context conn.client ctx sql args w;
    }

    query_by_name-Quiet :
        (name : String) (args : List String) → Quiet seen (query_by_name D F conn ctx name args)
    unfolding query_by_name
    query_by_name-Quiet name args = stored (conn.query_storage (name <> sql_ext))
      where
        stored :
            (o : Option String)
            → Quiet seen {A = Rows} (elim o [
              | some sql ↦ query D F conn ctx (normalized_sql sql) args
              | none ↦ fail (new ("query " <> F.quote name <> " not found"))
            ])
        stored none = Quiet-fail _
        stored (some sql) = query-Quiet (normalized_sql sql) args

    pub pg_client-Quiet : QuietClient seen (pg_client D F conn ctx)
    unfolding pg_client
    pg_client-Quiet = record { query_row = query_row-Quiet; query_by_name = query_by_name-Quiet }

  -- Every handler, whatever it asks.
  pub get_handler_func-Quiet :
      (F : Formats) (wrap_nil : String → Option Error) (key : String) (handler : HandlerFunc W)
      → get_handler_func F wrap_nil key ≡ some handler
      → QuietHandler seen handler
  get_handler_func-Quiet F wrap_nil key handler =
      get_handler_func-Every (QuietHandler seen) F wrap_nil key handler record {
        archive = archive_handler-Quiet seen F;
        autovacuum = autovacuum_handler-Quiet seen F;
        bgwriter = bgwriter_handler-Quiet seen F;
        cache = cache_handler-Quiet seen F;
        connections = connections_handler-Quiet seen F;
        custom_query = custom_query_handler-Quiet seen F wrap_nil;
        database_age = database_age_handler-Quiet seen F;
        database_size = database_size_handler-Quiet seen F;
        databases_bloating = databases_bloating_handler-Quiet seen F;
        databases_discovery = databases_discovery_handler-Quiet seen F;
        db_stat = db_stat_handler-Quiet seen F;
        locks = locks_handler-Quiet seen F;
        oldest_xid = oldest_xid_handler-Quiet seen F;
        ping = ping_handler-Quiet seen F;
        process_name_discovery = process_name_discovery_handler-Quiet seen F;
        queries = queries_handler-Quiet seen F;
        replication = replication_handler-Quiet seen F;
        uptime = uptime_handler-Quiet seen F;
        version = version_handler-Quiet seen F;
        wal = wal_handler-Quiet seen F;
      }
