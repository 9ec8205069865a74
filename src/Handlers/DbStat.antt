-- ===== src/Handlers/DbStat.antt =====
-- plugin/handler_dbstat.go
use zabbix_agent2_plugin_pos.Prelude.{◌==◌, string_eq}
use zabbix_agent2_plugin_pos.Prelude.{String, ◌<>◌, [], if◌then◌else◌}
use zabbix_agent2_plugin_pos.Prelude.Integers.{ℤ, pos, ltb_ℤ}
use zabbix_agent2_plugin_pos.Client.Values.{Formats}
use zabbix_agent2_plugin_pos.Handlers.Fetch.{HandlerFunc, fetch_string}
use zabbix_agent2_plugin_pos.Metrics.Keys.{key_db_stat, key_db_stat_sum}

-- The two queries, with the column for `checksum_failures` put in for `%s`.
unfoldable pub db_stat_sum_template : String → String
db_stat_sum_template column =
    "\n  SELECT row_to_json (T)\n    FROM  (\n      SELECT\n"
    <> "        sum(numbackends) as numbackends\n      , sum(xact_commit) as xact_commit\n"
    <> "      , sum(xact_rollback) as xact_rollback\n      , sum(blks_read) as blks_read\n"
    <> "      , sum(blks_hit) as blks_hit\n      , sum(tup_returned) as tup_returned\n"
    <> "      , sum(tup_fetched) as tup_fetched\n      , sum(tup_inserted) as tup_inserted\n"
    <> "      , sum(tup_updated) as tup_updated\n      , sum(tup_deleted) as tup_deleted\n"
    <> "      , sum(conflicts) as conflicts\n      , sum(temp_files) as temp_files\n"
    <> "      , sum(temp_bytes) as temp_bytes\n      , sum(deadlocks) as deadlocks\n      , "
    <> column <> " as checksum_failures\n      , sum(blk_read_time) as blk_read_time\n"
    <> "      , sum(blk_write_time) as blk_write_time\n"
    <> "      FROM pg_catalog.pg_stat_database\n    ) T ;"

unfoldable pub db_stat_template : String → String
db_stat_template column =
    "\n  SELECT json_object_agg(coalesce (datname,'null'), row_to_json(T))\n    FROM  (\n"
    <> "      SELECT\n        datname\n      , numbackends as numbackends\n"
    <> "      , xact_commit as xact_commit\n      , xact_rollback as xact_rollback\n"
    <> "      , blks_read as blks_read\n      , blks_hit as blks_hit\n"
    <> "      , tup_returned as tup_returned\n      , tup_fetched as tup_fetched\n"
    <> "      , tup_inserted as tup_inserted\n      , tup_updated as tup_updated\n"
    <> "      , tup_deleted as tup_deleted\n      , conflicts as conflicts\n"
    <> "      , temp_files as temp_files\n      , temp_bytes as temp_bytes\n"
    <> "      , deadlocks as deadlocks\n      , " <> column
    <> " as checksum_failures\n      , blk_read_time as blk_read_time\n"
    <> "      , blk_write_time as blk_write_time\n      FROM pg_catalog.pg_stat_database\n"
    <> "    ) T ;"

abbrev pub pg_version_with_checksum : ℤ
pg_version_with_checksum = pos 120000

-- The `switch` on the key; another key leaves the query empty.
unfoldable pub db_stat_sql : String → ℤ → String
db_stat_sql key version =
    if key == key_db_stat_sum
    then if ltb_ℤ version pg_version_with_checksum
      then db_stat_sum_template "null"
      else db_stat_sum_template "sum(COALESCE(checksum_failures, 0))"
    else if key == key_db_stat
    then if ltb_ℤ version pg_version_with_checksum
      then db_stat_template "null"
      else db_stat_template "COALESCE(checksum_failures, 0)"
    else ""

module _ {W : Type 0} (F : Formats) where
  unfoldable pub db_stat_handler : HandlerFunc W
  db_stat_handler conn key _ _ = fetch_string F conn (db_stat_sql key conn.postgres_version) []
