-- ===== src/Examples/Endpoints.antt =====
-- Runs of the theorems on what a connection is made of: the socket, the database's name, the
-- deadline.
use Prim.Native.Char.{code}
use Prim.Native.String.{len, slice}
use zabbix_agent2_plugin_pos.Prelude.{
  eqb, ℕ, ◌+◌, ◌*◌, String, ◌<>◌, ◌≡◌, refl, arith, List, some, none, [], ◌∷◌, ltb, if◌then◌else◌,
}
use zabbix_agent2_plugin_pos.Prelude.Dict.{Dict}
use zabbix_agent2_plugin_pos.Prelude.Integers.{pos}
use zabbix_agent2_plugin_pos.Prelude.Text.FilePath.{dir}
use zabbix_agent2_plugin_pos.Errors.{Error, ok, new}
use zabbix_agent2_plugin_pos.Sdk.{Sdk}
use zabbix_agent2_plugin_pos.Config.{zero_options}
use zabbix_agent2_plugin_pos.Conn.Time.{with_timeout, seconds}
use zabbix_agent2_plugin_pos.Conn.Manager.{ConnManager, new_conn_manager, new_pg_conn}
use zabbix_agent2_plugin_pos.Conn.Create.{ConnId, endpoint}
use zabbix_agent2_plugin_pos.Conn.Create.Socket.{endpoint-socket}
use zabbix_agent2_plugin_pos.Metrics.Validator.{is_socket_path}
use zabbix_agent2_plugin_pos.Metrics.Validator.Laws.{IsPort}
use zabbix_agent2_plugin_pos.Plugin.{Plugin, start, effective_timeout, set_custom_query}
use zabbix_agent2_plugin_pos.Plugin.Timeouts.{start-deadline}
use zabbix_agent2_plugin_pos.Examples.Samples.{formats, database, sdk, url, no_query}

-- The text behind `?dbname=`.
abbrev behind_query : String → String
behind_query String.[] = ""
behind_query (String.◌∷◌ c s) = if eqb (code c) b'?' then slice s 7 (len s) else behind_query s

abbrev bad_escape : String → Error
bad_escape s = new s

abbrev as_empty : List ℕ → String
as_empty _ = ""

-- URIs of one socket, each its own text.
abbrev local_sdk : Sdk
local_sdk = record sdk {
  scheme = λ _. "unix";
  addr = λ _. "/var/run/.s.PGSQL.5432";
  get_param = λ u _. behind_query u;
}

abbrev local_id : ConnId local_sdk
local_id = record { uri = "unix:/var/run/.s.PGSQL.5432?dbname=a%2Bb"; cache_mode = "" }

endpoint-socket_example :
    (pre : String) × (ds : String) × ("/var/run/.s.PGSQL.5432" ≡ pre <> ".s.PGSQL." <> ds)
    × IsPort ds
    × (endpoint local_sdk url database formats local_id ≡ ok (dir "/var/run/.s.PGSQL.5432", ds))
unfolding is_socket_path
endpoint-socket_example = endpoint-socket local_sdk url database formats local_id refl refl

abbrev local_connections : ConnManager String
local_connections = record {
  connections = [];
  keep_alive = pos 60;
  connect_timeout = pos 10;
  call_timeout = pos 5;
  query_storage = no_query;
}

abbrev database_params : Dict String String
database_params = ("URI", "unix:/var/run/.s.PGSQL.5432") ∷ ("Database", "a+b") ∷ []

-- The options of a plugin whose calls may take 4 seconds.
abbrev plugin : Plugin sdk
plugin = record { conn_mgr = none; options = record zero_options { call_timeout = 4 } }

abbrev started : ConnManager (ConnId sdk)
started =
    new_conn_manager (seconds 0) (seconds 0) (seconds 4)
      (set_custom_query (λ _ _. none) plugin.options)

start-deadline_example :
    let conn = new_pg_conn started 1 (pos 150000) 50 "db" in
    (with_timeout conn.ctx 100 (effective_timeout conn.call_timeout (some 9))).deadline
    ≡ some (100 + (if ltb 4 9 then 9 else 4) * 1_000_000_000)
unfolding start
start-deadline_example =
    start-deadline sdk (λ _ _. none) plugin started 1 (pos 150000) 50 "db" 9 100 refl (omega arith)
      (omega arith)
