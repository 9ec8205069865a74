-- ===== src/Handlers/Server.antt =====
-- plugin/handler_archive.go, handler_bgwriter.go, handler_ping.go, handler_uptime.go,
-- handler_version.go and handler_wal.go.
pub mod Laws
use Prim.Native.String.{len, slice}
use zabbix_agent2_plugin_pos.Prelude.{eqb, ◌||◌, ◌-◌}
use zabbix_agent2_plugin_pos.Prelude.Text.Decimal.{format_int}
use zabbix_agent2_plugin_pos.Prelude.{ℕ, String, ◌<>◌, List, [], ◌∷◌, if◌then◌else◌}
use zabbix_agent2_plugin_pos.Errors.{
  ok, err, panic, new, cannot_fetch_data, cannot_parse_result, const, fail, return, on_error, ◌>>=◌,
  Result, Act,
}
use zabbix_agent2_plugin_pos.Prelude.Integers.{ℤ, pos, ltb_ℤ}
use zabbix_agent2_plugin_pos.Client.{PostgresClient}
use zabbix_agent2_plugin_pos.Client.Values.{Formats, to_string, to_int}
use zabbix_agent2_plugin_pos.Handlers.Fetch.{
  Answer, HandlerFunc, fetch_with, fetch, lift, cannot_fetch, cannot_fetch_text, scan_failed_text,
  fetch_string, fetch_int64, fetch_float64,
}

unfoldable pub archive_count_sql : String
archive_count_sql =
    "SELECT row_to_json(T)\n\t\t\t\t\t\t\tFROM (\n"
    <> "\t\t\t\t\t\t\t\t\tSELECT archived_count, failed_count\n"
    <> "\t\t\t\t\t\t\t\t   \t  FROM pg_stat_archiver\n\t\t\t\t\t\t\t\t) T;"

unfoldable pub archive_size_sql : String
archive_size_sql =
    "SELECT row_to_json(T)\n\t\t\t\t\t\t\tFROM (\n\t\t\t\t\t\t\t\tWITH values AS (\n"
    <> "\t\t\t\t\t\t\t\t\tSELECT\n"
    <> "\t\t\t\t\t\t\t\t\t\t4096/(ceil(pg_settings.setting::numeric/1024/1024))::int AS "
    <> "segment_parts_count,\n\t\t\t\t\t\t\t\t\t\tsetting::bigint AS segment_size,\n"
    <> "\t\t\t\t\t\t\t\t\t\t('x' || substring(pg_stat_archiver.last_archived_wal from 9 for "
    <> "8))::bit(32)::int AS last_wal_div,\n"
    <> "\t\t\t\t\t\t\t\t\t\t('x' || substring(pg_stat_archiver.last_archived_wal from 17 "
    <> "for 8))::bit(32)::int AS last_wal_mod,\n"
    <> "\t\t\t\t\t\t\t\t\t\tCASE WHEN pg_is_in_recovery() THEN NULL \n"
    <> "\t\t\t\t\t\t\t\t\t\t\tELSE ('x' || substring(pg_walfile_name(pg_current_wal_lsn()) "
    <> "from 9 for 8))::bit(32)::int END AS current_wal_div,\n"
    <> "\t\t\t\t\t\t\t\t\t\tCASE WHEN pg_is_in_recovery() THEN NULL \n"
    <> "\t\t\t\t\t\t\t\t\t\t\tELSE ('x' || substring(pg_walfile_name(pg_current_wal_lsn()) "
    <> "from 17 for 8))::bit(32)::int END AS current_wal_mod\n"
    <> "\t\t\t\t\t\t\t\t\tFROM pg_settings, pg_stat_archiver\n"
    <> "\t\t\t\t\t\t\t\t\tWHERE pg_settings.name = 'wal_segment_size')\n"
    <> "\t\t\t\t\t\t\t\tSELECT \n"
    <> "\t\t\t\t\t\t\t\t\tgreatest(coalesce((segment_parts_count - last_wal_mod) + "
    <> "((current_wal_div - last_wal_div - 1) * segment_parts_count) + current_wal_mod - 1, "
    <> "0), 0) AS count_files,\n"
    <> "\t\t\t\t\t\t\t\t\tgreatest(coalesce(((segment_parts_count - last_wal_mod) + "
    <> "((current_wal_div - last_wal_div - 1) * segment_parts_count) + current_wal_mod - 1) "
    <> "* segment_size, 0), 0) AS size_files\n\t\t\t\t\t\t\t\tFROM values\n" <> "\t\t\t\t\t\t\t) T;"

-- `archiveCountJSON[:len(archiveCountJSON)-1] + "," + archiveSizeJSON[1:]`, which panics on an
-- empty text.
unfoldable pub merge : String → String → Result String
merge counts sizes =
    if eqb (len counts) 0 || eqb (len sizes) 0
    then panic
    else ok (slice counts 0 (len counts - 1) <> "," <> slice sizes 1 (len sizes))

unfoldable pub bgwriter_v1_sql : String
bgwriter_v1_sql =
    "\n\t\tSELECT row_to_json(T)\n\t\tFROM (\n\t\t\tSELECT\n\t\t\t\tcheckpoints_timed,\n"
    <> "\t\t\t\tcheckpoints_req,\n\t\t\t\tcheckpoint_write_time,\n"
    <> "\t\t\t\tcheckpoint_sync_time,\n\t\t\t\tbuffers_checkpoint,\n\t\t\t\tbuffers_clean,\n"
    <> "\t\t\t\tmaxwritten_clean,\n\t\t\t\tbuffers_backend,\n"
    <> "\t\t\t\tbuffers_backend_fsync,\n\t\t\t\tbuffers_alloc\n"
    <> "\t\t\tFROM pg_catalog.pg_stat_bgwriter\n\t\t) T;\n\t"

unfoldable pub bgwriter_v2_sql : String
bgwriter_v2_sql =
    "\n\t\tSELECT row_to_json(T)\n\t\tFROM (\n\t\t\tSELECT  \n"
    <> "\t\t\t\tpsc.num_timed AS checkpoints_timed,\n"
    <> "\t\t\t\tpsc.num_requested AS checkpoints_req,\n"
    <> "\t\t\t\tpsc.write_time AS checkpoint_write_time,\n"
    <> "\t\t\t\tpsc.sync_time AS checkpoint_sync_time,\n"
    <> "\t\t\t\tpsc.buffers_written AS buffers_checkpoint,\n"
    <> "\t\t\t\tpsb.buffers_clean AS buffers_clean,\n"
    <> "\t\t\t\tpsb.maxwritten_clean AS maxwritten_clean,\n"
    <> "\t\t\t\tpsb.buffers_alloc AS buffers_alloc\n\t\t\tFROM \n"
    <> "\t\t\t\tpg_catalog.pg_stat_checkpointer AS psc, \n"
    <> "\t\t\t\tpg_catalog.pg_stat_bgwriter AS psb\n\t\t) T;\n\t  "

unfoldable pub uptime_sql : String
uptime_sql = "SELECT date_part('epoch', now() - pg_postmaster_start_time());"

unfoldable pub version_sql : String
version_sql = "SELECT version();"

unfoldable pub wal_sql : String
wal_sql =
    "SELECT row_to_json(T)\n\t\t\t    FROM (\n\t\t\t\t\tSELECT\n\t\t\t\t\t\tCASE\n"
    <> "\t\t\t\t\t\t\tWHEN pg_is_in_recovery() THEN 0\n"
    <> "\t\t\t\t\t\t\tELSE pg_wal_lsn_diff(pg_current_wal_lsn(),'0/00000000')\n"
    <> "\t\t\t\t\t\tEND AS WRITE,\n\t\t\t\t\t\tCASE \n"
    <> "\t\t\t\t\t\t\tWHEN NOT pg_is_in_recovery() THEN 0\n"
    <> "\t\t\t\t\t\t\tELSE pg_wal_lsn_diff(pg_last_wal_receive_lsn(),'0/00000000')\n"
    <> "\t\t\t\t\t\tEND AS RECEIVE,\n\t\t\t\t\t\tcount(*)\n"
    <> "\t\t\t\t\t\tFROM pg_ls_waldir() AS COUNT\n\t\t\t\t\t) T;"

abbrev pub ping_failed : ℤ
ping_failed = pos 0

abbrev pub ping_ok : ℤ
ping_ok = pos 1

-- `fmt.Sprintf("SELECT %d", pingOk)`
unfoldable pub ping_sql : String
unfolding format_int
ping_sql = "SELECT " <> format_int ping_ok

-- `res != pingOk`
abbrev pong : ℤ → Answer
pong (pos n) = if eqb n 1 then Answer.int ping_ok else Answer.int ping_failed
pong z = Answer.int ping_failed

-- The server's version chooses the query.
unfoldable pub bgwriter_sql : ℤ → String
bgwriter_sql version = if ltb_ℤ version (pos 170000) then bgwriter_v1_sql else bgwriter_v2_sql

module _ {W : Type 0} (F : Formats) where
  unfoldable pub archive_handler : HandlerFunc W
  archive_handler conn _ _ _ = do
    counts ← fetch conn (to_string F) archive_count_sql []
    sizes ← fetch conn (to_string F) archive_size_sql []
    both ← lift (merge counts sizes)
    return (Answer.string both)

  unfoldable pub bgwriter_handler : HandlerFunc W
  bgwriter_handler conn _ _ _ = fetch_string F conn (bgwriter_sql conn.postgres_version) []

  -- Every error becomes the answer `pingFailed`.
  unfoldable pub ping_handler : HandlerFunc W
  ping_handler conn _ _ _ =
      on_error (fetch conn (to_int F) ping_sql []) (λ e. return (Answer.int ping_failed))
        λ res. return (pong res)

  unfoldable pub uptime_handler : HandlerFunc W
  uptime_handler conn _ _ _ = fetch_float64 F conn uptime_sql []

  unfoldable pub version_handler : HandlerFunc W
  version_handler conn _ _ _ = do
    version ← fetch_with cannot_fetch_text scan_failed_text conn (to_string F) version_sql []
    return (Answer.string version)

  unfoldable pub wal_handler : HandlerFunc W
  wal_handler conn _ _ _ = do
    json ← fetch_with cannot_fetch_text scan_failed_text conn (to_string F) wal_sql []
    return (Answer.string json)
