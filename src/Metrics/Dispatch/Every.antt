-- ===== src/Metrics/Dispatch/Every.antt =====
-- What holds of every handler holds of the one that `getHandlerFunc` gives.
use zabbix_agent2_plugin_pos.Prelude.{
  String, ◌≡◌, subst, Bool, true, false, Option, none, some, ◌==◌, string_eq, if◌then◌else◌,
}
use zabbix_agent2_plugin_pos.Errors.{Error}
use zabbix_agent2_plugin_pos.Client.Values.{Formats}
use zabbix_agent2_plugin_pos.Handlers.Fetch.{HandlerFunc}
use zabbix_agent2_plugin_pos.Handlers.Server.{
  archive_handler, bgwriter_handler, ping_handler, uptime_handler, version_handler, wal_handler,
}
use zabbix_agent2_plugin_pos.Handlers.Activity.{
  autovacuum_handler, cache_handler, connections_handler, locks_handler, oldest_xid_handler,
}
use zabbix_agent2_plugin_pos.Handlers.Database.{
  database_age_handler, database_size_handler, databases_bloating_handler,
  databases_discovery_handler,
}
use zabbix_agent2_plugin_pos.Handlers.DbStat.{db_stat_handler}
use zabbix_agent2_plugin_pos.Handlers.Replication.{
  replication_handler, process_name_discovery_handler,
}
use zabbix_agent2_plugin_pos.Handlers.Queries.{queries_handler}
use zabbix_agent2_plugin_pos.Handlers.CustomQuery.{custom_query_handler}
use zabbix_agent2_plugin_pos.Metrics.Dispatch.{get_handler_func}
use zabbix_agent2_plugin_pos.Metrics.Keys.{
  key_archive_size, key_autovacuum, key_bgwriter, key_cache, key_connections, key_custom_query,
  key_database_age, key_database_size, key_databases_bloating, key_databases_discovery, key_db_stat,
  key_db_stat_sum, key_locks, key_oldest_xid, key_ping, key_queries, key_replication_count,
  key_replication_lag_b, key_replication_lag_sec, key_replication_process_info,
  key_replication_process_name_discovery, key_replication_recovery_role, key_replication_status,
  key_uptime, key_version, key_wal,
}

pub record Every {W : Type 0} (F : Formats) (wrap_nil : String → Option Error)
    (P : HandlerFunc W → Type 0) : Type 0 where
  pub archive : P (archive_handler F)
  pub autovacuum : P (autovacuum_handler F)
  pub bgwriter : P (bgwriter_handler F)
  pub cache : P (cache_handler F)
  pub connections : P (connections_handler F)
  pub custom_query : P (custom_query_handler F wrap_nil)
  pub database_age : P (database_age_handler F)
  pub database_size : P (database_size_handler F)
  pub databases_bloating : P (databases_bloating_handler F)
  pub databases_discovery : P (databases_discovery_handler F)
  pub db_stat : P (db_stat_handler F)
  pub locks : P (locks_handler F)
  pub oldest_xid : P (oldest_xid_handler F)
  pub ping : P (ping_handler F)
  pub process_name_discovery : P (process_name_discovery_handler F)
  pub queries : P (queries_handler F)
  pub replication : P (replication_handler F)
  pub uptime : P (uptime_handler F)
  pub version : P (version_handler F)
  pub wal : P (wal_handler F)

module _ {W : Type 0} (P : HandlerFunc W → Type 0) where
  abbrev Chosen : Option (HandlerFunc W) → Type 0
  Chosen none = Unit {0}
  Chosen (some handler) = P handler

  choose :
      (b : Bool) (handler : HandlerFunc W) (others : Option (HandlerFunc W))
      → P handler
      → Chosen others
      → Chosen (if b then some handler else others)
  choose true handler others here there = here
  choose false handler others here there = there

  get_handler_func-Chosen :
      (F : Formats) (wrap_nil : String → Option Error) (key : String)
      → Every F wrap_nil P
      → Chosen (get_handler_func F wrap_nil key)
  unfolding get_handler_func
  get_handler_func-Chosen F wrap_nil key each =
      (choose (key == key_archive_size) _ _ each.archive (
        choose (key == key_autovacuum) _ _ each.autovacuum (
          choose (key == key_bgwriter) _ _ each.bgwriter (
            choose (key == key_cache) _ _ each.cache (
              choose (key == key_connections) _ _ each.connections (
                choose (key == key_custom_query) _ _ each.custom_query (
                  choose (key == key_db_stat) _ _ each.db_stat (
                    choose (key == key_db_stat_sum) _ _ each.db_stat (
                      choose (key == key_database_age) _ _ each.database_age (
                        choose (key == key_databases_bloating) _ _ each.databases_bloating (
                          choose (key == key_databases_discovery) _ _ each.databases_discovery (
                            choose (key == key_database_size) _ _ each.database_size (
                              choose (key == key_locks) _ _ each.locks (
                                choose (key == key_oldest_xid) _ _ each.oldest_xid (
                                  choose (key == key_ping) _ _ each.ping (
                                    choose (key == key_queries) _ _ each.queries (
                                      choose (key == key_replication_count) _ _ each.replication (
                                        choose (key == key_replication_lag_b) _ _ each.replication (
                                          choose (key == key_replication_lag_sec) _ _
                                            each.replication
                                            (choose (key == key_replication_process_info) _ _
                                              each.replication
                                              (choose (key == key_replication_recovery_role) _ _
                                                each.replication
                                                (choose (key == key_replication_status) _ _
                                                  each.replication
                                                  (choose
                                                    (key == key_replication_process_name_discovery)
                                                    _ _ each.process_name_discovery
                                                    (choose (key == key_uptime) _ _ each.uptime (
                                                      choose (key == key_version) _ _ each.version (
                                                        choose (key == key_wal) _ _ each.wal
                                                          tt))))))))))))))))))))))))))

  pub get_handler_func-Every :
      (F : Formats) (wrap_nil : String → Option Error) (key : String) (handler : HandlerFunc W)
      → Every F wrap_nil P
      → get_handler_func F wrap_nil key ≡ some handler
      → P handler
  get_handler_func-Every F wrap_nil key handler each found =
      subst Chosen found (get_handler_func-Chosen F wrap_nil key each)
