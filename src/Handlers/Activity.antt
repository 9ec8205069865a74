-- ===== src/Handlers/Activity.antt =====
-- plugin/handler_autovacuum.go, handler_cache.go, handler_connections.go, handler_locks.go and
-- handler_oldest_xid.go.
use Prim.Native.String.{len}
use zabbix_agent2_plugin_pos.Prelude.{eqb}
use zabbix_agent2_plugin_pos.Prelude.{String, ◌<>◌, [], if◌then◌else◌}
use zabbix_agent2_plugin_pos.Errors.{new, fail, return, ◌>>=◌}
use zabbix_agent2_plugin_pos.Client.Values.{Formats, to_string}
use zabbix_agent2_plugin_pos.Handlers.Fetch.{
  Answer, HandlerFunc, fetch_with, cannot_fetch, fetch_string, fetch_int64, fetch_float64,
}

unfoldable pub autovacuum_sql : String
autovacuum_sql =
    "SELECT count(*)\n\t\t\t\tFROM pg_catalog.pg_stat_activity\n"
    <> "\t\t\t\tWHERE backend_type = 'autovacuum worker'\n\t\t\t\t AND state <> 'idle'\n"
    <> "\t\t\t\t AND pid <> pg_catalog.pg_backend_pid()"

unfoldable pub cache_sql : String
cache_sql =
    "SELECT round(sum(blks_hit)*100/sum(blks_hit+blks_read), 2) FROM "
    <> "pg_catalog.pg_stat_database;"

unfoldable pub connections_sql : String
connections_sql =
    "SELECT row_to_json(T)\n\tFROM (\n\t\tSELECT\n"
    <> "\t\t\tsum(CASE WHEN state = 'active' THEN 1 ELSE 0 END) AS active,\n"
    <> "\t\t\tsum(CASE WHEN state = 'idle' THEN 1 ELSE 0 END) AS idle,\n"
    <> "\t\t\tsum(CASE WHEN state = 'idle in transaction' THEN 1 ELSE 0 END) AS "
    <> "idle_in_transaction,\n"
    <> "\t\t\tsum(CASE WHEN state = 'idle in transaction (aborted)' THEN 1 ELSE 0 END) AS "
    <> "idle_in_transaction_aborted,\n"
    <> "\t\t\tsum(CASE WHEN state = 'fastpath function call' THEN 1 ELSE 0 END) AS "
    <> "fastpath_function_call,\n"
    <> "\t\t\tsum(CASE WHEN state = 'disabled' THEN 1 ELSE 0 END) AS disabled,\n"
    <> "\t\t\tcount(*) AS total,\n"
    <> "\t\t\tcount(*)*100/(SELECT current_setting('max_connections')::int) AS total_pct,\n"
    <> "\t\t\tsum(CASE WHEN wait_event IS NOT NULL THEN 1 ELSE 0 END) AS waiting,\n"
    <> "\t\t\t(SELECT count(*) FROM pg_prepared_xacts) AS prepared\n"
    <> "\t\tFROM pg_stat_activity WHERE datid IS NOT NULL AND state IS NOT NULL) T;"

unfoldable pub locks_sql : String
locks_sql =
    "\nWITH T AS\n\t(SELECT db.datname dbname,\n"
    <> "\t\t\tlower(replace(Q.mode, 'Lock', '')) AS MODE,\n\t\t\tcoalesce(T.qty, 0) val\n"
    <> "\tFROM pg_database db\n\tJOIN (\n"
    <> "\t\t\tVALUES ('AccessShareLock') ,('RowShareLock') ,('RowExclusiveLock') "
    <> ",('ShareUpdateExclusiveLock') ,('ShareLock') ,('ShareRowExclusiveLock') "
    <> ",('ExclusiveLock') ,('AccessExclusiveLock')) Q(MODE) ON TRUE NATURAL\n\tLEFT JOIN\n"
    <> "\t\t(SELECT datname,\n\t\t\tMODE,\n\t\t\tcount(MODE) qty\n\t\tFROM pg_locks lc\n"
    <> "\t\tRIGHT JOIN pg_database db ON db.oid = lc.database\n\t\tGROUP BY 1, 2) T\n"
    <> "\tWHERE NOT db.datistemplate\n\tORDER BY 1, 2)\n"
    <> "SELECT json_object_agg(dbname, row_to_json(T2))\nFROM\n\t(SELECT dbname,\n"
    <> "\t\t\tsum(val) AS total,\n\t\t\tsum(CASE\n"
    <> "\t\t\t\t\tWHEN MODE = 'accessexclusive' THEN val\n\t\t\t\tEND) AS accessexclusive,\n"
    <> "\t\t\tsum(CASE\n\t\t\t\t\tWHEN MODE = 'accessshare' THEN val\n"
    <> "\t\t\t\tEND) AS accessshare,\n\t\t\tsum(CASE\n"
    <> "\t\t\t\t\tWHEN MODE = 'exclusive' THEN val\n\t\t\t\tEND) AS EXCLUSIVE,\n"
    <> "\t\t\tsum(CASE\n\t\t\t\t\tWHEN MODE = 'rowexclusive' THEN val\n"
    <> "\t\t\t\tEND) AS rowexclusive,\n\t\t\tsum(CASE\n"
    <> "\t\t\t\t\tWHEN MODE = 'rowshare' THEN val\n\t\t\t\tEND) AS rowshare,\n"
    <> "\t\t\tsum(CASE\n\t\t\t\t\tWHEN MODE = 'share' THEN val\n\t\t\t\tEND) AS SHARE,\n"
    <> "\t\t\tsum(CASE\n\t\t\t\t\tWHEN MODE = 'sharerowexclusive' THEN val\n"
    <> "\t\t\t\tEND) AS sharerowexclusive,\n\t\t\tsum(CASE\n"
    <> "\t\t\t\t\tWHEN MODE = 'shareupdateexclusive' THEN val\n"
    <> "\t\t\t\tEND) AS shareupdateexclusive\n\tFROM T\n\tGROUP BY dbname) T2"

unfoldable pub oldest_xid_sql : String
oldest_xid_sql =
    "SELECT greatest(max(age(backend_xmin)), max(age(backend_xid)))\n"
    <> "\t\t\t\tFROM pg_catalog.pg_stat_activity"

module _ {W : Type 0} (F : Formats) where
  unfoldable pub autovacuum_handler : HandlerFunc W
  autovacuum_handler conn _ _ _ = fetch_int64 F conn autovacuum_sql []

  unfoldable pub cache_handler : HandlerFunc W
  cache_handler conn _ _ _ = fetch_float64 F conn cache_sql []

  unfoldable pub connections_handler : HandlerFunc W
  connections_handler conn _ _ _ = fetch_string F conn connections_sql []

  -- No test for pgx.ErrNoRows, and an empty text is an error.
  unfoldable pub locks_handler : HandlerFunc W
  locks_handler conn _ _ _ = do
    json ← fetch_with cannot_fetch cannot_fetch conn (to_string F) locks_sql []
    if eqb (len json) 0 then fail (new "cannot parse data") else return (Answer.string json)

  unfoldable pub oldest_xid_handler : HandlerFunc W
  oldest_xid_handler conn _ _ _ = fetch_int64 F conn oldest_xid_sql []
