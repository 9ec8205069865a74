-- ===== src/Metrics/Dispatch.antt =====
-- plugin/metrics.go: `getHandlerFunc`.
pub mod Laws
pub mod Every
pub mod NeverEmpty
pub mod Quiet
use zabbix_agent2_plugin_pos.Prelude.{String, Option, none, some, ◌==◌, string_eq, if◌then◌else◌}
use zabbix_agent2_plugin_pos.Errors.{Error}
use zabbix_agent2_plugin_pos.Client.Values.{Formats}
use zabbix_agent2_plugin_pos.Handlers.Fetch.{HandlerFunc}
use zabbix_agent2_plugin_pos.Handlers.Server.{
  archive_handler, bgwriter_handler, ping_handler, uptime_handler, version_handler, wal_handler,
}
use zabbix_agent2_plugin_pos.Handlers.Activity.{
  autovacuum_handler, cache_handler, connections_handler, locks_handler, oldest_xid_handler,
}
use zabbix_agent2_plugin_pos.Handlers.Database.{
  database_age_handler, database_size_handler, databases_bloating_handler,
  databases_discovery_handler,
}
use zabbix_agent2_plugin_pos.Handlers.DbStat.{db_stat_handler}
use zabbix_agent2_plugin_pos.Handlers.Replication.{
  replication_handler, process_name_discovery_handler,
}
use zabbix_agent2_plugin_pos.Handlers.Queries.{queries_handler}
use zabbix_agent2_plugin_pos.Handlers.CustomQuery.{custom_query_handler}
use zabbix_agent2_plugin_pos.Metrics.Keys.{
  key_archive_size, key_autovacuum, key_bgwriter, key_cache, key_connections, key_custom_query,
  key_database_age, key_database_size, key_databases_bloating, key_databases_discovery, key_db_stat,
  key_db_stat_sum, key_locks, key_oldest_xid, key_ping, key_queries, key_replication_count,
  key_replication_lag_b, key_replication_lag_sec, key_replication_process_info,
  key_replication_process_name_discovery, key_replication_recovery_role, key_replication_status,
  key_uptime, key_version, key_wal,
}

unfoldable pub get_handler_func :
    {W : Type 0} → Formats → (String → Option Error) → String → Option (HandlerFunc W)
get_handler_func F wrap_nil key =
    if key == key_archive_size
    then some (archive_handler F)
    else if key == key_autovacuum
    then some (autovacuum_handler F)
    else if key == key_bgwriter
    then some (bgwriter_handler F)
    else if key == key_cache
    then some (cache_handler F)
    else if key == key_connections
    then some (connections_handler F)
    else if key == key_custom_query
    then some (custom_query_handler F wrap_nil)
    else if key == key_db_stat
    then some (db_stat_handler F)
    else if key == key_db_stat_sum
    then some (db_stat_handler F)
    else if key == key_database_age
    then some (database_age_handler F)
    else if key == key_databases_bloating
    then some (databases_bloating_handler F)
    else if key == key_databases_discovery
    then some (databases_discovery_handler F)
    else if key == key_database_size
    then some (database_size_handler F)
    else if key == key_locks
    then some (locks_handler F)
    else if key == key_oldest_xid
    then some (oldest_xid_handler F)
    else if key == key_ping
    then some (ping_handler F)
    else if key == key_queries
    then some (queries_handler F)
    else if key == key_replication_count
    then some (replication_handler F)
    else if key == key_replication_lag_b
    then some (replication_handler F)
    else if key == key_replication_lag_sec
    then some (replication_handler F)
    else if key == key_replication_process_info
    then some (replication_handler F)
    else if key == key_replication_recovery_role
    then some (replication_handler F)
    else if key == key_replication_status
    then some (replication_handler F)
    else if key == key_replication_process_name_discovery
    then some (process_name_discovery_handler F)
    else if key == key_uptime
    then some (uptime_handler F)
    else if key == key_version
    then some (version_handler F)
    else if key == key_wal
    then some (wal_handler F)
    else none
