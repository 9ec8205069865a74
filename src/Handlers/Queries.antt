-- ===== src/Handlers/Queries.antt =====
-- plugin/handler_queries.go
pub mod Laws
use Prim.Native.String.{len}
use zabbix_agent2_plugin_pos.Prelude.{eqb}
use zabbix_agent2_plugin_pos.Prelude.Dict.{Dict, get}
use zabbix_agent2_plugin_pos.Prelude.Text.Decimal.{
  format_int, parse_int, Parsed, parsed, rejected, NumError, syntax, range,
}
use zabbix_agent2_plugin_pos.Errors.{invalid_params, wrap_const, Error}
use zabbix_agent2_plugin_pos.Prelude.{ℕ, String, ◌<>◌, List, [], ◌∷◌, if◌then◌else◌}
use zabbix_agent2_plugin_pos.Errors.{
  ok, err, panic, new, cannot_fetch_data, cannot_parse_result, const, fail, return, on_error, ◌>>=◌,
  Result, Act,
}
use zabbix_agent2_plugin_pos.Prelude.Integers.{ℤ, pos, ltb_ℤ}
use zabbix_agent2_plugin_pos.Client.{PostgresClient}
use zabbix_agent2_plugin_pos.Client.Values.{Formats, to_string, to_int}
use zabbix_agent2_plugin_pos.Handlers.Fetch.{
  Answer, HandlerFunc, fetch_with, fetch, lift, cannot_fetch, cannot_fetch_text, scan_failed_text,
  fetch_string, fetch_int64, fetch_float64,
}

-- The pattern of maintenance statements.
unfoldable pub maintenance_exp : String
maintenance_exp =
    "^(\\\\s*(--[^\\\\n]*\\\\n|/\\\\*.*\\\\*/|\\\\n))*(autovacuum|VACUUM|ANALYZE|REINDEX|"
    <> "CLUSTER|CREATE|ALTER|TRUNCATE|DROP)"

-- The query, with the pattern for each `%s` and the period for each `% d`, which prints a blank in
-- front of a number that is not negative.
unfoldable pub queries_sql : String → ℤ → String
unfolding format_int
queries_sql exp period =
    "WITH T AS (\n\t\tSELECT\n\t\t\tdb.datname,\n"
    <> "\t\t\tcoalesce(T.query_time_max, 0) query_time_max,\n"
    <> "\t\t\tcoalesce(T.tx_time_max, 0) tx_time_max,\n"
    <> "\t\t\tcoalesce(T.mro_time_max, 0) mro_time_max,\n"
    <> "\t\t\tcoalesce(T.query_time_sum, 0) query_time_sum,\n"
    <> "\t\t\tcoalesce(T.tx_time_sum, 0) tx_time_sum,\n"
    <> "\t\t\tcoalesce(T.mro_time_sum, 0) mro_time_sum,\n"
    <> "\t\t\tcoalesce(T.query_slow_count, 0) query_slow_count,\n"
    <> "\t\t\tcoalesce(T.tx_slow_count, 0) tx_slow_count,\n"
    <> "\t\t\tcoalesce(T.mro_slow_count, 0) mro_slow_count\n\t\tFROM\n"
    <> "\t\t\tpg_database db NATURAL\n\t\t\tLEFT JOIN (\n\t\t\t\tSELECT\n"
    <> "\t\t\t\t\tdatname,\n\t\t\t\t\textract(\n\t\t\t\t\t\tepoch\n\t\t\t\t\t\tFROM\n"
    <> "\t\t\t\t\t\t\tnow()\n\t\t\t\t\t) :: integer ts,\n\t\t\t\t\tcoalesce(\n"
    <> "\t\t\t\t\t\tmax(\n\t\t\t\t\t\t\textract(\n\t\t\t\t\t\t\t\t'epoch'\n"
    <> "\t\t\t\t\t\t\t\tFROM\n\t\t\t\t\t\t\t\t\t(clock_timestamp() - query_start)\n"
    <> "\t\t\t\t\t\t\t) :: integer * (\n\t\t\t\t\t\t\t\tstate NOT IN (\n"
    <> "\t\t\t\t\t\t\t\t\t'idle',\n\t\t\t\t\t\t\t\t\t'idle in transaction',\n"
    <> "\t\t\t\t\t\t\t\t\t'idle in transaction (aborted)'\n\t\t\t\t\t\t\t\t)\n"
    <> "\t\t\t\t\t\t\t\tAND query !~* E'"
    <> exp
    <> "'\n\t\t\t\t\t\t\t) :: integer\n\t\t\t\t\t\t),\n\t\t\t\t\t\t0\n"
    <> "\t\t\t\t\t) query_time_max,\n\t\t\t\t\tcoalesce(\n\t\t\t\t\t\tmax(\n"
    <> "\t\t\t\t\t\t\textract(\n\t\t\t\t\t\t\t\t'epoch'\n\t\t\t\t\t\t\t\tFROM\n"
    <> "\t\t\t\t\t\t\t\t\t(clock_timestamp() - query_start)\n"
    <> "\t\t\t\t\t\t\t) :: integer * (\n\t\t\t\t\t\t\t\tstate NOT IN ('idle')\n"
    <> "\t\t\t\t\t\t\t\tAND query !~* E'"
    <> exp
    <> "'\n\t\t\t\t\t\t\t) :: integer\n\t\t\t\t\t\t),\n\t\t\t\t\t\t0\n"
    <> "\t\t\t\t\t) tx_time_max,\n\t\t\t\t\tcoalesce(\n\t\t\t\t\t\tmax(\n"
    <> "\t\t\t\t\t\t\textract(\n\t\t\t\t\t\t\t\t'epoch'\n\t\t\t\t\t\t\t\tFROM\n"
    <> "\t\t\t\t\t\t\t\t\t(clock_timestamp() - query_start)\n"
    <> "\t\t\t\t\t\t\t) :: integer * (\n\t\t\t\t\t\t\t\tstate NOT IN ('idle')\n"
    <> "\t\t\t\t\t\t\t\tAND query ~* E'"
    <> exp
    <> "'\n\t\t\t\t\t\t\t) :: integer\n\t\t\t\t\t\t),\n\t\t\t\t\t\t0\n"
    <> "\t\t\t\t\t) mro_time_max,\n\t\t\t\t\tcoalesce(\n\t\t\t\t\t\tsum(\n"
    <> "\t\t\t\t\t\t\textract(\n\t\t\t\t\t\t\t\t'epoch'\n\t\t\t\t\t\t\t\tFROM\n"
    <> "\t\t\t\t\t\t\t\t\t(clock_timestamp() - query_start)\n"
    <> "\t\t\t\t\t\t\t) :: integer * (\n\t\t\t\t\t\t\t\tstate NOT IN (\n"
    <> "\t\t\t\t\t\t\t\t\t'idle',\n\t\t\t\t\t\t\t\t\t'idle in transaction',\n"
    <> "\t\t\t\t\t\t\t\t\t'idle in transaction (aborted)'\n\t\t\t\t\t\t\t\t)\n"
    <> "\t\t\t\t\t\t\t\tAND query !~* E'"
    <> exp
    <> "'\n\t\t\t\t\t\t\t) :: integer\n\t\t\t\t\t\t),\n\t\t\t\t\t\t0\n"
    <> "\t\t\t\t\t) query_time_sum,\n\t\t\t\t\tcoalesce(\n\t\t\t\t\t\tsum(\n"
    <> "\t\t\t\t\t\t\textract(\n\t\t\t\t\t\t\t\t'epoch'\n\t\t\t\t\t\t\t\tFROM\n"
    <> "\t\t\t\t\t\t\t\t\t(clock_timestamp() - query_start)\n"
    <> "\t\t\t\t\t\t\t) :: integer * (\n\t\t\t\t\t\t\t\tstate NOT IN ('idle')\n"
    <> "\t\t\t\t\t\t\t\tAND query !~* E'"
    <> exp
    <> "'\n\t\t\t\t\t\t\t) :: integer\n\t\t\t\t\t\t),\n\t\t\t\t\t\t0\n"
    <> "\t\t\t\t\t) tx_time_sum,\n\t\t\t\t\tcoalesce(\n\t\t\t\t\t\tsum(\n"
    <> "\t\t\t\t\t\t\textract(\n\t\t\t\t\t\t\t\t'epoch'\n\t\t\t\t\t\t\t\tFROM\n"
    <> "\t\t\t\t\t\t\t\t\t(clock_timestamp() - query_start)\n"
    <> "\t\t\t\t\t\t\t) :: integer * (\n\t\t\t\t\t\t\t\tstate NOT IN ('idle')\n"
    <> "\t\t\t\t\t\t\t\tAND query ~* E'"
    <> exp
    <> "'\n\t\t\t\t\t\t\t) :: integer\n\t\t\t\t\t\t),\n\t\t\t\t\t\t0\n"
    <> "\t\t\t\t\t) mro_time_sum,\n\t\t\t\t\tcoalesce(\n\t\t\t\t\t\tsum(\n\t\t\t\t\t\t\t(\n"
    <> "\t\t\t\t\t\t\t\textract(\n\t\t\t\t\t\t\t\t\t'epoch'\n\t\t\t\t\t\t\t\t\tFROM\n"
    <> "\t\t\t\t\t\t\t\t\t\t(clock_timestamp() - query_start)\n\t\t\t\t\t\t\t\t) > "
    <> " "
    <> format_int period
    <> "\n\t\t\t\t\t\t\t) :: integer * (\n\t\t\t\t\t\t\t\tstate NOT IN (\n"
    <> "\t\t\t\t\t\t\t\t\t'idle',\n\t\t\t\t\t\t\t\t\t'idle in transaction',\n"
    <> "\t\t\t\t\t\t\t\t\t'idle in transaction (aborted)'\n\t\t\t\t\t\t\t\t)\n"
    <> "\t\t\t\t\t\t\t\tAND query !~* E'"
    <> exp
    <> "'\n\t\t\t\t\t\t\t) :: integer\n\t\t\t\t\t\t),\n\t\t\t\t\t\t0\n"
    <> "\t\t\t\t\t) query_slow_count,\n\t\t\t\t\tcoalesce(\n\t\t\t\t\t\tsum(\n"
    <> "\t\t\t\t\t\t\t(\n\t\t\t\t\t\t\t\textract(\n\t\t\t\t\t\t\t\t\t'epoch'\n"
    <> "\t\t\t\t\t\t\t\t\tFROM\n\t\t\t\t\t\t\t\t\t\t(clock_timestamp() - query_start)\n"
    <> "\t\t\t\t\t\t\t\t) > "
    <> " "
    <> format_int period
    <> "\n\t\t\t\t\t\t\t) :: integer * (\n\t\t\t\t\t\t\t\tstate NOT IN ('idle')\n"
    <> "\t\t\t\t\t\t\t\tAND query !~* E'"
    <> exp
    <> "'\n\t\t\t\t\t\t\t) :: integer\n\t\t\t\t\t\t),\n\t\t\t\t\t\t0\n"
    <> "\t\t\t\t\t) tx_slow_count,\n\t\t\t\t\tcoalesce(\n\t\t\t\t\t\tsum(\n\t\t\t\t\t\t\t(\n"
    <> "\t\t\t\t\t\t\t\textract(\n\t\t\t\t\t\t\t\t\t'epoch'\n\t\t\t\t\t\t\t\t\tFROM\n"
    <> "\t\t\t\t\t\t\t\t\t\t(clock_timestamp() - query_start)\n\t\t\t\t\t\t\t\t) > "
    <> " "
    <> format_int period
    <> "\n\t\t\t\t\t\t\t) :: integer * (\n\t\t\t\t\t\t\t\tstate NOT IN ('idle')\n"
    <> "\t\t\t\t\t\t\t\tAND query ~* E'"
    <> exp
    <> "'\n\t\t\t\t\t\t\t) :: integer\n\t\t\t\t\t\t),\n\t\t\t\t\t\t0\n"
    <> "\t\t\t\t\t) mro_slow_count\n\t\t\t\tFROM\n\t\t\t\t\tpg_stat_activity\n"
    <> "\t\t\t\tWHERE\n\t\t\t\t\tpid <> pg_backend_pid()\n\t\t\t\tGROUP BY\n\t\t\t\t\t1\n"
    <> "\t\t\t) T\n\t\tWHERE\n\t\t\tNOT db.datistemplate\n\t)\n\tSELECT\n"
    <> "\t\tjson_object_agg(datname, row_to_json(T))\n\tFROM\n\t\tT"

-- The error of strconv.Atoi; `quote` is strconv.Quote.
abbrev atoi_error : (String → String) → String → NumError → String
atoi_error quote s syntax = "strconv.Atoi: parsing " <> quote s <> ": invalid syntax"
atoi_error quote s range = "strconv.Atoi: parsing " <> quote s <> ": value out of range"

-- The test of the parameter `TimePeriod`, before any query.
unfoldable pub time_period_of : (String → String) → String → Parsed ℤ → Result ℤ
time_period_of quote s (rejected e) =
    err
      (wrap_const invalid_params (new ("TimePeriod must be an integer, " <> atoi_error quote s e)))
time_period_of quote s (parsed period) =
    if ltb_ℤ period (pos 1)
    then err (wrap_const invalid_params (new "TimePeriod must be greater than 0"))
    else ok period

unfoldable pub time_period : (String → String) → Dict String String → Result ℤ
unfolding time_period_of get parse_int
time_period quote params = let s = get params "TimePeriod" in time_period_of quote s (parse_int s)

module _ {W : Type 0} (F : Formats) where
  unfoldable pub queries_handler : HandlerFunc W
  queries_handler conn _ params _ = do
    period ← lift (time_period F.quote params)
    json ←
        fetch_with cannot_fetch cannot_fetch conn (to_string F) (queries_sql maintenance_exp period)
          []
    if eqb (len json) 0 then fail (const cannot_parse_result) else return (Answer.string json)
