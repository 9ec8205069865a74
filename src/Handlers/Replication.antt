-- ===== src/Handlers/Replication.antt =====
-- plugin/handler_replication.go and handler_replication_process_name_discovery.go.
pub mod Laws
use zabbix_agent2_plugin_pos.Prelude.{◌==◌, string_eq}
use zabbix_agent2_plugin_pos.Prelude.Text.Decimal.{format_int}
use zabbix_agent2_plugin_pos.Client.Values.{to_bool, to_null_string}
use zabbix_agent2_plugin_pos.Prelude.{String, ◌<>◌, [], if◌then◌else◌}
use zabbix_agent2_plugin_pos.Errors.{return, ◌>>=◌, Act}
use zabbix_agent2_plugin_pos.Prelude.Integers.{pos}
use zabbix_agent2_plugin_pos.Client.{PostgresClient}
use zabbix_agent2_plugin_pos.Client.Values.{Formats, to_int}
use zabbix_agent2_plugin_pos.Handlers.Fetch.{
  Answer, HandlerFunc, fetch_with, fetch, cannot_fetch, fetch_string, fetch_int64,
}
use zabbix_agent2_plugin_pos.Metrics.Keys.{
  key_replication_count, key_replication_lag_b, key_replication_lag_sec,
  key_replication_process_info, key_replication_recovery_role, key_replication_status,
}

unfoldable pub in_recovery_sql : String
in_recovery_sql = "SELECT pg_is_in_recovery()"

unfoldable pub wal_receiver_sql : String
wal_receiver_sql = "SELECT COUNT(*) FROM pg_stat_wal_receiver"

unfoldable pub lag_sec_sql : String
lag_sec_sql =
    "SELECT\n\t\t\t\t\tCASE\n"
    <> "\t\t  \t\t\t\tWHEN NOT pg_is_in_recovery() OR pg_last_wal_receive_lsn() = "
    <> "pg_last_wal_replay_lsn() THEN 0\n"
    <> "\t\t  \t\t\t\tELSE COALESCE(EXTRACT(EPOCH FROM now() - "
    <> "pg_last_xact_replay_timestamp())::integer, 0)\n\t\t\t\t\tEND AS lag;"

unfoldable pub lag_b_sql : String
lag_b_sql =
    "SELECT pg_catalog.pg_wal_lsn_diff (pg_last_wal_receive_lsn(), " <> "pg_last_wal_replay_lsn());"

unfoldable pub recovery_role_sql : String
recovery_role_sql = "SELECT pg_is_in_recovery()::int"

unfoldable pub standby_count_sql : String
standby_count_sql =
    "SELECT COUNT(DISTINCT client_addr) + COALESCE(SUM(CASE WHEN client_addr IS NULL "
    <> "THEN 1 ELSE 0 END), 0) FROM pg_stat_replication;"

unfoldable pub process_info_sql : String
process_info_sql =
    "SELECT json_object_agg(application_name, row_to_json(T))\n\t\t\t\t   FROM (\n"
    <> "\t\t\t\t\t\tSELECT\n\t\t\t\t\t\t    application_name,\n"
    <> "\t\t\t\t\t\t\tEXTRACT(epoch FROM COALESCE(flush_lag,'0'::interval)) AS flush_lag, \n"
    <> "\t\t\t\t\t\t\tEXTRACT(epoch FROM COALESCE(replay_lag,'0'::interval)) AS " <> "replay_lag,\n"
    <> "\t\t\t\t\t\t\tEXTRACT(epoch FROM COALESCE(write_lag, '0'::interval)) AS write_lag\n"
    <> "\t\t\t\t\t\tFROM pg_stat_replication\n\t\t\t\t\t) T; "

unfoldable pub process_name_discovery_sql : String
process_name_discovery_sql =
    "SELECT \n"
    <> "\tjson_build_object('data',COALESCE(json_agg(json_build_object('{#APPLICATION_NAME}'"
    <> ",application_name)), '[]'))\t\t\n\tFROM pg_stat_replication"

-- The query of the keys that share the end of the function; the other keys return before it, and
-- a key of no case leaves the query empty.
unfoldable pub replication_sql : String → String
replication_sql key =
    if key == key_replication_lag_sec
    then lag_sec_sql
    else if key == key_replication_recovery_role
    then recovery_role_sql
    else if key == key_replication_count
    then standby_count_sql
    else ""

module _ {W : Type 0} (F : Formats) (conn : PostgresClient W) where
  -- `case keyReplicationStatus`; its first `Scan` has no test for pgx.ErrNoRows.
  unfoldable pub replication_status : Act W Answer
  unfolding format_int
  replication_status = do
    in_recovery ← fetch_with cannot_fetch cannot_fetch conn (to_bool F) in_recovery_sql []
    status ← (if in_recovery then fetch conn (to_int F) wal_receiver_sql [] else return (pos 2))
    return (Answer.string (format_int status))

  -- `case keyReplicationLagB`
  unfoldable pub replication_lag_b : Act W Answer
  replication_lag_b = do
    in_recovery ← fetch conn (to_bool F) in_recovery_sql []
    lag ← (if in_recovery then fetch conn (to_int F) lag_b_sql [] else return (pos 0))
    return (Answer.int64 lag)

  -- `case keyReplicationProcessInfo`
  unfoldable pub replication_process_info : Act W Answer
  replication_process_info = do
    info ← fetch conn (to_null_string F) process_info_sql []
    return (Answer.string info)

module _ {W : Type 0} (F : Formats) where
  unfoldable pub replication_handler : HandlerFunc W
  replication_handler conn key _ _ =
      if key == key_replication_status
      then replication_status F conn
      else if key == key_replication_lag_b
      then replication_lag_b F conn
      else if key == key_replication_process_info
      then replication_process_info F conn
      else fetch_int64 F conn (replication_sql key) []

  unfoldable pub process_name_discovery_handler : HandlerFunc W
  process_name_discovery_handler conn _ _ _ = fetch_string F conn process_name_discovery_sql []
