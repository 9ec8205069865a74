-- ===== src/TestPool.antt =====
-- plugin/testpool.go: the connection that the tests of the handlers share. Logging is left out.
pub mod Laws
use zabbix_agent2_plugin_pos.Prelude.{
  ℕ, String, ◌<>◌, Option, none, some, [], ◌==◌, string_eq, if◌then◌else◌,
}
use zabbix_agent2_plugin_pos.Prelude.Integers.{ℤ, pos}
use zabbix_agent2_plugin_pos.Errors.{Error, wrap, Result, ok, err, panic}
use zabbix_agent2_plugin_pos.Client.Values.{Formats, scan, to_int}
use zabbix_agent2_plugin_pos.Conn.Time.{background}
use zabbix_agent2_plugin_pos.Conn.Query.{Sql}

-- os.Getenv, which gives the empty text for an unset variable, and sql.Open of a driver's name and
-- a connection string.
pub record Outside (W : Type 0) : Type 0 where
  pub getenv : String → String
  pub sql_open : String → String → W → Result ℕ × W

-- The `PGConn` that `createConnection` makes: `ctx` and `queryStorage` are nil there, and `address`
-- is empty.
pub record TestConn : Type 0 where
  pub client : ℕ
  pub last_time_access : ℕ
  pub version : ℤ
  pub call_timeout : ℤ

abbrev or_default : String → String → String
or_default default value = if value == "" then default else value

-- `getConnPool`, of the variable `sharedConn`; its error is nil.
unfoldable pub get_conn_pool : Option TestConn → Option TestConn × Option Error
get_conn_pool shared = (shared, none)

module _ {W : Type 0} (O : Outside W) where
  -- `getEnv`: the address, the user, the password and the database.
  unfoldable pub get_env : String × String × String × String
  get_env = (
    or_default "localhost:5432" (O.getenv "PG_ADDR"),
    or_default "postgres" (O.getenv "PG_USER"),
    or_default "postgres" (O.getenv "PG_PWD"),
    or_default "postgres" (O.getenv "PG_DB"),
  )

  -- `fmt.Sprintf("postgresql://%s:%s@%s/%s", pgUser, pgPwd, pgAddr, pgDb)`
  unfoldable pub conn_string : String
  unfolding get_env
  conn_string =
      let (pg_addr, pg_user, pg_pwd, pg_db) = get_env in
      "postgresql://" <> pg_user <> ":" <> pg_pwd <> "@" <> pg_addr <> "/" <> pg_db

  module _ (D : Sql W) (F : Formats) where
    -- The end of `createConnection`, after the version was asked for.
    abbrev pub share :
        ℕ → Result ℤ → Option TestConn × W → Result (Option Error) × (Option TestConn × W)
    share client (ok version) (_, w) = (
      ok none,
      (
        some (record {
          client = client;
          last_time_access = D.now w;
          version = version;
          call_timeout = pos 30;
        }),
        w,
      ),
    )
    share client (err e) (shared, w) =
        (ok (some (wrap e "cannot get PostgreSQL version")), (shared, w))
    share client panic (shared, w) = (panic, (shared, w))

    -- `createConnection`, from the result of sql.Open on.
    abbrev pub ask : Result ℕ → Option TestConn × W → Result (Option Error) × (Option TestConn × W)
    ask (ok client) (shared, w) =
        let (row, w') =
          D.query_row_context client background "select current_setting('server_version_num');" []
            w in
        share client (scan (to_int F) row) (shared, w')
    ask (err e) (shared, w) =
        (ok (some (wrap e "cannot create connection to PostgreSQL")), (shared, w))
    ask panic (shared, w) = (panic, (shared, w))

    -- `createConnection`, over the variable `sharedConn`: its error, if there is one.
    unfoldable pub create_connection :
        Option TestConn × W → Result (Option Error) × (Option TestConn × W)
    unfolding conn_string scan to_int
    create_connection (shared, w) =
        let (opened, w') = O.sql_open "pgx" conn_string w in ask opened (shared, w')
