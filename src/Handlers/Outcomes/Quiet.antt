-- ===== src/Handlers/Outcomes/Quiet.antt =====
-- What the handlers leave as it is: whatever the queries of the client leave as it is.
use zabbix_agent2_plugin_pos.Prelude.{
  ◌≡◌, refl, ◌∙◌, Bool, true, false, String, List, Option, if◌then◌else◌,
}
use zabbix_agent2_plugin_pos.Prelude.Dict.{Dict}
use zabbix_agent2_plugin_pos.Errors.{
  Error, Result, ok, err, panic, Act, return, fail, on_error, branch,
}
use zabbix_agent2_plugin_pos.Client.{PostgresClient}
use zabbix_agent2_plugin_pos.Client.Values.{Value, Formats, scan}
use zabbix_agent2_plugin_pos.Handlers.Fetch.{HandlerFunc, lift, fetch_with}
use zabbix_agent2_plugin_pos.Handlers.Server.{
  archive_handler, bgwriter_handler, ping_handler, uptime_handler, version_handler, wal_handler,
}
use zabbix_agent2_plugin_pos.Handlers.Activity.{
  autovacuum_handler, cache_handler, connections_handler, locks_handler, oldest_xid_handler,
}
use zabbix_agent2_plugin_pos.Handlers.Database.{
  database_age_handler, database_size_handler, databases_bloating_handler,
  databases_discovery_handler,
}
use zabbix_agent2_plugin_pos.Handlers.DbStat.{db_stat_handler}
use zabbix_agent2_plugin_pos.Handlers.Replication.{
  replication_handler, replication_status, replication_lag_b, replication_process_info,
  process_name_discovery_handler,
}
use zabbix_agent2_plugin_pos.Handlers.Queries.{queries_handler}
use zabbix_agent2_plugin_pos.Handlers.CustomQuery.{custom_query_handler}

module _ {W X : Type 0} (seen : W → X) where
  -- The action does not change what is seen of the world, however it ends.
  pub record Quiet {A : Type 0} (m : Act W A) : Type 0 where
    pub at : (w : W) → seen (m w).1 ≡ seen w

  -- The calls of a client that the handlers use.
  pub record QuietClient (conn : PostgresClient W) : Type 0 where
    pub query_row : (sql : String) (args : List String) → Quiet (conn.query_row sql args)
    pub query_by_name : (name : String) (args : List String) → Quiet (conn.query_by_name name args)

module _ {W X : Type 0} {seen : W → X} where
  pub Quiet-return : {A : Type 0} (a : A) → Quiet seen (return {W = W} a)
  Quiet-return a = record { at = λ w. refl }

  pub Quiet-fail : {A : Type 0} (e : Error) → Quiet seen (fail {W = W} {A = A} e)
  Quiet-fail e = record { at = λ w. refl }

  pub Quiet-lift : {A : Type 0} (r : Result A) → Quiet seen (lift {W = W} r)
  Quiet-lift r = record { at = λ w. refl }

  pub Quiet-if :
      {A : Type 0} (b : Bool) (m n : Act W A)
      → Quiet seen m
      → Quiet seen n
      → Quiet seen (if b then m else n)
  Quiet-if true m n p q = p
  Quiet-if false m n p q = q

  module _ {A B : Type 0} where
    Quiet-branch :
        (handle : Error → Act W B) (use_value : A → Act W B) (r : Result A)
        → ((e : Error) → Quiet seen (handle e))
        → ((a : A) → Quiet seen (use_value a))
        → Quiet seen (branch handle use_value r)
    Quiet-branch handle use_value (ok a) h u = record { at = (u a).at }
    Quiet-branch handle use_value (err e) h u = record { at = (h e).at }
    Quiet-branch handle use_value panic h u = record { at = λ w. refl }

    pub Quiet-on_error :
        (m : Act W A) (handle : Error → Act W B) (use_value : A → Act W B)
        → Quiet seen m
        → ((e : Error) → Quiet seen (handle e))
        → ((a : A) → Quiet seen (use_value a))
        → Quiet seen (on_error m handle use_value)
    Quiet-on_error m handle use_value p h u = record {
      at = λ w. let (r, w') = m w in (Quiet-branch handle use_value r h u).at w' ∙ p.at w;
    }

  pub Quiet-fetch_with :
      {A : Type 0} (unqueried unscanned : Error → Error) (conn : PostgresClient W)
      (convert : Value → Result A) (sql : String) (args : List String)
      → QuietClient seen conn
      → Quiet seen (fetch_with unqueried unscanned conn convert sql args)
  unfolding fetch_with
  Quiet-fetch_with unqueried unscanned conn convert sql args p =
      Quiet-on_error _ _ _ (p.query_row sql args) (λ e. Quiet-fail (unqueried e))
        λ r.
          Quiet-on_error _ _ _ (Quiet-lift (scan convert r)) (λ e. Quiet-fail (unscanned e))
            Quiet-return

  ruleset quiet_rules =
      (Quiet-return, Quiet-fail, Quiet-lift, Quiet-if, Quiet-on_error, Quiet-fetch_with)

abbrev pub QuietHandler : {W X : Type 0} → (W → X) → HandlerFunc W → Type 0
QuietHandler {W} seen handler =
    (conn : PostgresClient W) (key : String) (params : Dict String String) (extra : List String)
    → QuietClient seen conn
    → Quiet seen (handler conn key params extra)

module _ {W X : Type 0} (seen : W → X) (F : Formats) where
  pub archive_handler-Quiet : QuietHandler seen (archive_handler F)
  unfolding archive_handler
  archive_handler-Quiet conn key params extra p = search quiet_rules

  pub uptime_handler-Quiet : QuietHandler seen (uptime_handler F)
  unfolding uptime_handler
  uptime_handler-Quiet conn key params extra p = search quiet_rules

  pub bgwriter_handler-Quiet : QuietHandler seen (bgwriter_handler F)
  unfolding bgwriter_handler
  bgwriter_handler-Quiet conn key params extra p = search quiet_rules

  pub ping_handler-Quiet : QuietHandler seen (ping_handler F)
  unfolding ping_handler
  ping_handler-Quiet conn key params extra p = search quiet_rules

  pub version_handler-Quiet : QuietHandler seen (version_handler F)
  unfolding version_handler
  version_handler-Quiet conn key params extra p = search quiet_rules

  pub wal_handler-Quiet : QuietHandler seen (wal_handler F)
  unfolding wal_handler
  wal_handler-Quiet conn key params extra p = search quiet_rules

  pub autovacuum_handler-Quiet : QuietHandler seen (autovacuum_handler F)
  unfolding autovacuum_handler
  autovacuum_handler-Quiet conn key params extra p = search quiet_rules

  pub cache_handler-Quiet : QuietHandler seen (cache_handler F)
  unfolding cache_handler
  cache_handler-Quiet conn key params extra p = search quiet_rules

  pub connections_handler-Quiet : QuietHandler seen (connections_handler F)
  unfolding connections_handler
  connections_handler-Quiet conn key params extra p = search quiet_rules

  pub locks_handler-Quiet : QuietHandler seen (locks_handler F)
  unfolding locks_handler
  locks_handler-Quiet conn key params extra p = search quiet_rules

  pub oldest_xid_handler-Quiet : QuietHandler seen (oldest_xid_handler F)
  unfolding oldest_xid_handler
  oldest_xid_handler-Quiet conn key params extra p = search quiet_rules

  pub database_age_handler-Quiet : QuietHandler seen (database_age_handler F)
  unfolding database_age_handler
  database_age_handler-Quiet conn key params extra p = search quiet_rules

  pub database_size_handler-Quiet : QuietHandler seen (database_size_handler F)
  unfolding database_size_handler
  database_size_handler-Quiet conn key params extra p = search quiet_rules

  pub databases_bloating_handler-Quiet : QuietHandler seen (databases_bloating_handler F)
  unfolding databases_bloating_handler
  databases_bloating_handler-Quiet conn key params extra p = search quiet_rules

  pub databases_discovery_handler-Quiet : QuietHandler seen (databases_discovery_handler F)
  unfolding databases_discovery_handler
  databases_discovery_handler-Quiet conn key params extra p = search quiet_rules

  pub db_stat_handler-Quiet : QuietHandler seen (db_stat_handler F)
  unfolding db_stat_handler
  db_stat_handler-Quiet conn key params extra p = search quiet_rules

  pub process_name_discovery_handler-Quiet : QuietHandler seen (process_name_discovery_handler F)
  unfolding process_name_discovery_handler
  process_name_discovery_handler-Quiet conn key params extra p = search quiet_rules

  pub queries_handler-Quiet : QuietHandler seen (queries_handler F)
  unfolding queries_handler
  queries_handler-Quiet conn key params extra p = search quiet_rules

  replication_status-Quiet :
      (conn : PostgresClient W) → QuietClient seen conn → Quiet seen (replication_status F conn)
  unfolding replication_status
  replication_status-Quiet conn p = search quiet_rules

  replication_lag_b-Quiet :
      (conn : PostgresClient W) → QuietClient seen conn → Quiet seen (replication_lag_b F conn)
  unfolding replication_lag_b
  replication_lag_b-Quiet conn p = search quiet_rules

  replication_process_info-Quiet :
      (conn : PostgresClient W)
      → QuietClient seen conn
      → Quiet seen (replication_process_info F conn)
  unfolding replication_process_info
  replication_process_info-Quiet conn p = search quiet_rules

  pub replication_handler-Quiet : QuietHandler seen (replication_handler F)
  unfolding replication_handler
  replication_handler-Quiet conn key params extra p =
      search
        (
          quiet_rules, replication_status-Quiet, replication_lag_b-Quiet,
          replication_process_info-Quiet,
        )
        depth 8

  pub custom_query_handler-Quiet :
      (wrap_nil : String → Option Error) → QuietHandler seen (custom_query_handler F wrap_nil)
  unfolding custom_query_handler
  custom_query_handler-Quiet wrap_nil conn key params extra p =
      search (quiet_rules, p.query_by_name)
