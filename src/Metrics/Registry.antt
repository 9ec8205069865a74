-- ===== src/Metrics/Registry.antt =====
-- plugin/metrics.go: the map `metrics`.
use zabbix_agent2_plugin_pos.Prelude.{String, Bool, true, false, Option, none, some, List, [], ◌∷◌}
use zabbix_agent2_plugin_pos.Prelude.Dict.{Dict}
use zabbix_agent2_plugin_pos.Metrics.Params.{
  Param, AdditionalParam, get_parameters, param_query_name, param_time_period,
}
use zabbix_agent2_plugin_pos.Metrics.Keys.{
  key_archive_size, key_autovacuum, key_bgwriter, key_cache, key_connections, key_custom_query,
  key_database_age, key_database_size, key_databases_bloating, key_databases_discovery, key_db_stat,
  key_db_stat_sum, key_locks, key_oldest_xid, key_ping, key_queries, key_replication_count,
  key_replication_lag_b, key_replication_lag_sec, key_replication_process_info,
  key_replication_process_name_discovery, key_replication_recovery_role, key_replication_status,
  key_uptime, key_version, key_wal,
}

-- `metric.New(description, params, varParam)`; a panic of `getParameters` is no parameters.
pub record Metric : Type 0 where
  pub description : String
  pub params : Option (List Param)
  pub var_param : Bool

abbrev metric : String → Option AdditionalParam → Bool → Metric
metric description add var_param = record {
  description = description;
  params = get_parameters add;
  var_param = var_param;
}

unfoldable pub metrics : Dict String Metric
metrics =
    (key_archive_size, metric "Returns info about size of archive files." none false)
    ∷ (key_autovacuum, metric "Returns count of autovacuum workers." none false)
    ∷ (key_bgwriter, metric "Returns JSON for sum of each type of bgwriter statistic." none false)
    ∷ (key_cache, metric "Returns cache hit percent." none false)
    ∷ (key_connections, metric "Returns JSON for sum of each type of connection." none false)
    ∷ (
      key_custom_query,
      metric "Returns result of a custom query."
          (some (record { param = some param_query_name; position = 4 })) true,
    )
    ∷ (key_db_stat, metric "Returns JSON for sum of each type of statistic." none false)
    ∷ (
      key_db_stat_sum,
      metric "Returns JSON for sum of each type of statistic for all database." none false,
    )
    ∷ (key_database_age, metric "Returns age for specific database." none false)
    ∷ (
      key_databases_bloating,
      metric "Returns percent of bloating tables for each database." none false,
    )
    ∷ (
      key_databases_discovery,
      metric "Returns JSON discovery rule with names of databases." none false,
    )
    ∷ (key_database_size, metric "Returns size in bytes for specific database." none false)
    ∷ (key_locks, metric "Returns collect all metrics from pg_locks." none false)
    ∷ (key_oldest_xid, metric "Returns age of oldest xid." none false)
    ∷ (key_ping, metric "Tests if connection is alive or not." none false)
    ∷ (
      key_queries,
      metric "Returns queries statistic."
          (some (record { param = some param_time_period; position = 4 })) false,
    )
    ∷ (key_replication_count, metric "Returns number of standby servers." none false)
    ∷ (key_replication_lag_b, metric "Returns replication lag with Master in byte." none false)
    ∷ (key_replication_lag_sec, metric "Returns replication lag with Master in seconds." none false)
    ∷ (
      key_replication_process_name_discovery,
      metric "Returns JSON with application name from pg_stat_replication." none false,
    )
    ∷ (
      key_replication_process_info,
      metric "Returns flush lag, write lag and replay lag per each sender process." none false,
    )
    ∷ (key_replication_recovery_role, metric "Returns postgreSQL recovery role." none false)
    ∷ (key_replication_status, metric "Returns postgreSQL replication status." none false)
    ∷ (key_uptime, metric "Returns uptime." none false)
    ∷ (key_version, metric "Returns PostgreSQL version." none false)
    ∷ (key_wal, metric "Returns JSON wal by type." none false)
    ∷ []
