-- ===== src/Conn/Query.antt =====
-- plugin/conn.go: the methods of `PGConn`, which implement `PostgresClient`.
pub mod Laws
use zabbix_agent2_plugin_pos.Prelude.{ℕ, String, ◌<>◌, Option, none, some, List, []}
use zabbix_agent2_plugin_pos.Prelude.Integers.{ℤ}
use zabbix_agent2_plugin_pos.Prelude.Text.Trim.{trim_space, trim_right, is_semicolon}
use zabbix_agent2_plugin_pos.Errors.{Error, wrap, new, Result, ok, err, panic, Act, fail, on_error}
use zabbix_agent2_plugin_pos.Client.{PostgresClient}
use zabbix_agent2_plugin_pos.Client.Values.{Row, Rows, Formats, scan, to_int}
use zabbix_agent2_plugin_pos.Conn.Time.{Context, background, context_err}
use zabbix_agent2_plugin_pos.Conn.Manager.{PgConn}

-- database/sql over the driver, and the clock: what happens outside the plugin. A handle is a
-- `*sql.DB`. The error of QueryRowContext is in the row that it returns.
pub record Sql (W : Type 0) : Type 0 where
  pub query_context : ℕ → Context → String → List String → Act W Rows
  pub query_row_context : ℕ → Context → String → List String → W → Row × W
  pub close : ℕ → W → W
  -- pgxpool.ParseConfig of a connection string, and stdlib.OpenDB of its configuration with a
  -- dialer of the given timeout.
  pub parse_config : String → Option Error
  pub open_db : String → ℤ → W → ℕ × W
  pub now : W → ℕ

abbrev pub sql_ext : String
sql_ext = ".sql"

-- `strings.TrimRight(strings.TrimSpace(querySQL), ";")`
unfoldable pub normalized_sql : String → String
unfolding trim_space trim_right
normalized_sql sql = trim_right is_semicolon (trim_space sql)

module _ {W : Type 0} (D : Sql W) (F : Formats) (conn : PgConn) (ctx : Context) where
  -- The test of `ctx.Err()` after a query.
  abbrev pub check_context : {A : Type 0} → String → A → Act W A
  check_context msg a w = elim (context_err ctx (D.now w)) [
    | none ↦ (ok a, w)
    | some e ↦ (err (wrap e msg), w)
  ]

  -- `Query`
  unfoldable pub query : String → List String → Act W Rows
  unfolding context_err
  query sql args =
      on_error (D.query_context conn.client ctx sql args)
        (λ e. fail (wrap e "failed to execute query"))
        λ rows. check_context "failed to query due to context error" rows

  -- `QueryRow`
  unfoldable pub query_row : String → List String → Act W Row
  unfolding context_err
  query_row sql args w =
      let (row, w') = D.query_row_context conn.client ctx sql args w in
      check_context "failed to query row" row w'

  -- The lookup that `QueryByName` and `QueryRowByName` begin with.
  abbrev pub by_name :
      {A : Type 0} → (String → List String → Act W A) → String → List String → Act W A
  by_name run name args = elim (conn.query_storage (name <> sql_ext)) [
    | some sql ↦ run (normalized_sql sql) args
    | none ↦ fail (new ("query " <> F.quote name <> " not found"))
  ]

  -- `QueryByName`
  unfoldable pub query_by_name : String → List String → Act W Rows
  query_by_name = by_name query

  -- `QueryRowByName`
  unfoldable pub query_row_by_name : String → List String → Act W Row
  query_row_by_name = by_name query_row

  -- A `*PGConn` as the interface that a handler gets; `PostgresVersion` is the field.
  unfoldable pub pg_client : PostgresClient W
  unfolding query query_row query_by_name query_row_by_name
  pg_client = record {
    query = query;
    query_by_name = query_by_name;
    query_row = query_row;
    query_row_by_name = query_row_by_name;
    postgres_version = conn.version;
  }

abbrev server_version : (String → Option Error) → Result ℤ → Result ℤ
server_version wrap_nil (ok v) = elim (wrap_nil "failed to get server version") [
  | none ↦ ok v
  | some e ↦ err e
]
server_version wrap_nil (err e) = err (wrap e "failed to get server version")
server_version wrap_nil panic = panic

-- `getPostgresVersion`. It wraps the error of `Scan` whether it is nil or not: `wrap_nil` is what
-- errs.Wrap makes of a nil error and a message.
unfoldable pub get_postgres_version :
    {W : Type 0} → Sql W → Formats → (String → Option Error) → ℕ → Act W ℤ
get_postgres_version D F wrap_nil client w =
    let (row, w') =
      D.query_row_context client background "select current_setting('server_version_num');" [] w in
    (server_version wrap_nil (scan (to_int F) row), w')
