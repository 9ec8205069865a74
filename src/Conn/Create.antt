-- ===== src/Conn/Create.antt =====
-- plugin/conn.go: `connID`, `createConnID`, `create`, `createClient` and `GetConnection`, as one
-- goroutine runs them with no other in between (`Manager.Schedule` has the interleavings).
pub mod Laws
pub mod Refinement
pub mod Dbname
pub mod Socket
pub mod Ledger
use Prim.Native.String.{len}
use zabbix_agent2_plugin_pos.Prelude.{
  ℕ, String, ◌<>◌, Option, none, some, List, [], ◌∷◌, Eq, ◌==◌, string_eq, leb, if◌then◌else◌,
}
use zabbix_agent2_plugin_pos.Prelude.Dict.{Dict, get}
use zabbix_agent2_plugin_pos.Prelude.Integers.{ℤ, ltb_ℤ}
use zabbix_agent2_plugin_pos.Prelude.Text.Decimal.{format_int}
use zabbix_agent2_plugin_pos.Prelude.Text.FilePath.{dir, base, ext}
use zabbix_agent2_plugin_pos.Errors.{
  Error, wrap, new, Result, ok, err, panic, Act, return, fail, on_error, branch, ◌>>=◌,
}
use zabbix_agent2_plugin_pos.Client.Values.{Formats}
use zabbix_agent2_plugin_pos.Sdk.{Sdk, Defaults}
use zabbix_agent2_plugin_pos.Conn.Manager.{
  PgConn, ConnManager, min_supported_pg_version, new_pg_conn, get_conn, set_conn,
}
use zabbix_agent2_plugin_pos.Conn.Query.{Sql, get_postgres_version}
use zabbix_agent2_plugin_pos.Conn.Tls.{get_tls_details}
use zabbix_agent2_plugin_pos.Conn.Dsn.{create_dns}
use zabbix_agent2_plugin_pos.Metrics.Keys.{
  cache_mode_param, database_param, password_param, uri_param, user_param,
}

-- net/url: QueryEscape and QueryUnescape, which work on bytes that need not be valid UTF-8.
pub record Url : Type 0 where
  pub query_escape : String → String
  pub query_unescape : String → Result String

-- `connID`
pub record ConnId (S : Sdk) : Type 0 where
  pub uri : S.Uri
  pub cache_mode : String

abbrev pub uri_defaults : Defaults
uri_defaults = record { scheme = "tcp"; port = "5432" }

abbrev pub to_act : {W A : Type 0} → Result A → Act W A
to_act r w = (r, w)

-- `socket[1:]`
abbrev pub after_first : String → String
after_first String.[] = ""
after_first (String.◌∷◌ c s) = s

-- The host and the port of the connection string: those of the URI, or those of a socket's path.
abbrev pub socket_endpoint : (String → String) → String → Result (String × String)
socket_endpoint quote socket =
    if leb (len (ext (base socket))) 1
    then err (new ("incorrect socket: " <> quote socket))
    else ok (dir socket, after_first (ext (base socket)))

module _ (S : Sdk) (U : Url) where
  -- `createConnID`
  unfoldable pub create_conn_id : Dict String String → Result (ConnId S)
  unfolding get
  create_conn_id params =
      elim (S.uri_new_with_creds
        (get params uri_param <> "?dbname=" <> U.query_escape (get params database_param))
        (get params user_param) (get params password_param) uri_defaults) [
          | ok u ↦ ok (record { uri = u; cache_mode = get params cache_mode_param })
          | err e ↦ err (wrap e "cannot create URI validator")
          | panic ↦ panic
        ]

  module _ {W : Type 0} (D : Sql W) (F : Formats) where
    unfoldable pub endpoint : ConnId S → Result (String × String)
    unfolding dir base ext
    endpoint ci =
        if S.scheme ci.uri == "unix"
        then socket_endpoint F.quote (S.addr ci.uri)
        else ok (S.host ci.uri, S.port ci.uri)

    -- `createClient`
    unfoldable pub create_client : String → ℤ → Act W ℕ
    create_client dsn timeout w = elim (D.parse_config dsn) [
      | some e ↦ (err (wrap e "cannot parse config"), w)
      | none ↦ let (client, w') = D.open_db dsn timeout w in (ok client, w')
    ]

    -- `client.Close()`, then the error.
    abbrev closing : {A : Type 0} → ℕ → Error → Act W A
    closing client e w = (err e, D.close client w)

    -- `create`, from the open client on.
    unfoldable pub admit : {K : Type 0} → ConnManager K → ConnId S → ℕ → Act W PgConn
    admit c ci client =
        on_error (get_postgres_version D F S.wrap_nil client) (closing client) λ version w.
          if ltb_ℤ version min_supported_pg_version
          then closing client
              (new ("PostgreSQL version " <> format_int version <> " is not supported")) w
          else (ok (new_pg_conn c client version (D.now w) (S.addr ci.uri)), w)

    module _ (iterate : Dict String String → Dict String String) where
      -- `create`
      unfoldable pub create : {K : Type 0} → ConnManager K → ConnId S → S.Details → Act W PgConn
      create c ci details = do
        (host, port) ← to_act (endpoint ci)
        dbname ←
            on_error (to_act (U.query_unescape (S.get_param ci.uri "dbname")))
              (λ e. fail (wrap e "cannot get dbname")) return
        client ←
            create_client
              (create_dns S iterate host port dbname (S.user ci.uri) (S.password ci.uri)
                ci.cache_mode details)
              c.connect_timeout
        admit c ci client

-- `Close` of each handle.
abbrev close_each : {W : Type 0} → Sql W → List ℕ → W → W
close_each D [] w = w
close_each D (h ∷ hs) w = close_each D hs (D.close h w)

module _ (S : Sdk) (U : Url) {W : Type 0} (D : Sql W) (F : Formats)
    (iterate : Dict String String → Dict String String) ⦃e : Eq (ConnId S)⦄ where
  -- The end of `GetConnection`: `create`, then `setConn`.
  unfoldable pub connect :
      ConnId S
      → S.Details
      → ConnManager (ConnId S) × W
      → Result PgConn × (ConnManager (ConnId S) × W)
  connect ci details (c, w) =
      let (made, w') = create S U D F iterate c ci details w in
      elim made [
        | ok conn ↦
            let (used, c', closed) = set_conn c ci conn in (ok used, (c', close_each D closed w'))
        | err e ↦ (err (wrap e "failed to create connection"), (c, w'))
        | panic ↦ (panic, (c, w'))
      ]

  -- `GetConnection`
  unfoldable pub get_connection :
      ConnId S → Dict String String → Act (ConnManager (ConnId S) × W) PgConn
  get_connection ci params (c, w) =
      let (found, c') = get_conn c ci (D.now w) in
      elim found [
        | some conn ↦ (ok conn, (c', w))
        | none ↦ elim (get_tls_details S params) [
          | ok details ↦ connect ci details (c', w)
          | err e ↦ (err e, (c', w))
          | panic ↦ (panic, (c', w))
        ]
      ]
