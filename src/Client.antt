-- ===== src/Client.antt =====
-- plugin/conn.go: the interface `PostgresClient` that the handlers use, and what they read from a
-- row of database/sql: its values, and `Scan` into a Go variable of a type.
pub mod Values
use zabbix_agent2_plugin_pos.Prelude.{String, List}
use zabbix_agent2_plugin_pos.Prelude.Integers.{ℤ}
use zabbix_agent2_plugin_pos.Errors.{Act}
use Values.{Row, Rows}

-- `W` is the world that a query changes. The context of a call is fixed when the client is made.
pub record PostgresClient (W : Type 0) : Type 0 where
  pub query : String → List String → Act W Rows
  pub query_by_name : String → List String → Act W Rows
  pub query_row : String → List String → Act W Row
  pub query_row_by_name : String → List String → Act W Row
  pub postgres_version : ℤ
