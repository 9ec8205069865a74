-- ===== src/Conn/Create/Laws.antt =====
-- What `create` makes of an open client, and which connection `GetConnection` answers.
use zabbix_agent2_plugin_pos.Prelude.{
  ℕ, String, ◌<>◌, ◌≡◌, refl, ◌⊎◌, inl, inr, false, Bool-cases, some, Option-cases, Eq, ==_refl,
  string_eq,
}
use zabbix_agent2_plugin_pos.Prelude.Dict.{Dict, lookup, insert, lookup-insert}
use zabbix_agent2_plugin_pos.Prelude.Integers.{ltb_ℤ}
use zabbix_agent2_plugin_pos.Prelude.Text.Decimal.{format_int}
use zabbix_agent2_plugin_pos.Errors.{Error, ok, err, panic, new, Result-cases}
use zabbix_agent2_plugin_pos.Client.Values.{Formats}
use zabbix_agent2_plugin_pos.Sdk.{Sdk}
use zabbix_agent2_plugin_pos.Conn.Manager.{
  PgConn, ConnManager, min_supported_pg_version, new_pg_conn, get_conn, set_conn,
  update_access_time,
}
use zabbix_agent2_plugin_pos.Conn.Manager.Expiry.{get_conn_lem}
use zabbix_agent2_plugin_pos.Conn.Query.{Sql, get_postgres_version}
use zabbix_agent2_plugin_pos.Conn.Tls.{get_tls_details}
use zabbix_agent2_plugin_pos.Conn.Create.{Url, ConnId, admit, create, connect, get_connection}

module _ (S : Sdk) (U : Url) {W : Type 0} (D : Sql W) (F : Formats) where
  -- An open client becomes a connection only if the server's version is read and supported, and
  -- then stays open; otherwise it is closed (unless reading the version panics).
  pub admit-closes :
      {K : Type 0} (c : ConnManager K) (ci : ConnId S) (client : ℕ) (w : W)
      → let asked = get_postgres_version D F S.wrap_nil client w in
        ((conn : PgConn) × (conn
            ≡ new_pg_conn c client conn.version (D.now asked.1) (S.addr ci.uri))
          × (asked.0 ≡ ok conn.version)
          × (ltb_ℤ conn.version min_supported_pg_version ≡ false)
          × (admit S U D F c ci client w ≡ (ok conn, asked.1)))
        ⊎ ((e : Error) × (admit S U D F c ci client w ≡ (err e, D.close client asked.1)))
        ⊎ (admit S U D F c ci client w ≡ (panic, asked.1))
  unfolding admit new_pg_conn
  admit-closes c ci client w =
      elim (Result-cases (get_postgres_version D F S.wrap_nil client w).0) [
        | inl (v, q) ↦ elim (Bool-cases (ltb_ℤ v min_supported_pg_version)) [
          | inl old ↦ inr (
              inl (
                new ("PostgreSQL version " <> format_int v <> " is not supported"),
                rw (admit, q) (rw old refl),
              ))
          | inr fine ↦ inl (
            new_pg_conn c client v (D.now (get_postgres_version D F S.wrap_nil client w).1)
                (S.addr ci.uri),
            refl,
            q,
            fine,
            rw (admit, q) (rw fine refl),
          )
        ]
        | inr (inl (e, q)) ↦ inr (inl (e, rw (admit, q) refl))
        | inr (inr q) ↦ inr (inr rw (admit, q) refl)
      ]

  module _ (iterate : Dict String String → Dict String String) ⦃e : Eq (ConnId S)⦄ where
    get_conn-lookup :
        (c : ConnManager (ConnId S)) (ci : ConnId S) (now : ℕ) (conn : PgConn)
        → (get_conn c ci now).0 ≡ some conn
        → lookup ci (get_conn c ci now).1.connections ≡ some conn
    unfolding get_conn
    get_conn-lookup c ci now conn h = elim (Option-cases (lookup ci c.connections)) [
      | inl p ↦ cc (rw (get_conn, p) at h)
      | inr (x, p) ↦
          rw (get_conn, p, lookup-insert ci ci (update_access_time x now) c.connections, ==_refl ci)
            (rw (get_conn, p) at h)
    ]

    set_conn-lookup :
        (c : ConnManager (ConnId S)) (ci : ConnId S) (conn : PgConn)
        → lookup ci (set_conn c ci conn).1.connections ≡ some (set_conn c ci conn).0
    unfolding set_conn
    set_conn-lookup c ci conn = elim (Option-cases (lookup ci c.connections)) [
      | inl p ↦
          rw (set_conn, p) (rw (lookup-insert ci ci conn c.connections) (rw (==_refl ci) refl))
      | inr (x, p) ↦ rw (set_conn, p) p
    ]

    connect-lookup :
        (ci : ConnId S) (details : S.Details) (c c' : ConnManager (ConnId S)) (w w' : W)
        (conn : PgConn)
        → connect S U D F iterate ci details (c, w) ≡ (ok conn, (c', w'))
        → lookup ci c'.connections ≡ some conn
    unfolding connect
    connect-lookup ci details c c' w w' conn h =
        elim (Result-cases (create S U D F iterate c ci details w).0) [
          | inl (made, q) ↦ let h' = rw (connect, q) at h in cc (set_conn-lookup c ci made, h')
          | inr (inl (e, q)) ↦ cc (rw (connect, q) at h)
          | inr (inr q) ↦ cc (rw (connect, q) at h)
        ]

    -- The connection that `GetConnection` answers is the one in the map, under the identity asked for.
    pub get_connection-lookup :
        (ci : ConnId S) (params : Dict String String) (c c' : ConnManager (ConnId S)) (w w' : W)
        (conn : PgConn)
        → get_connection S U D F iterate ci params (c, w) ≡ (ok conn, (c', w'))
        → lookup ci c'.connections ≡ some conn
    unfolding get_connection
    get_connection-lookup ci params c c' w w' conn h =
        elim (Option-cases (get_conn c ci (D.now w)).0) [
          | inl p ↦ elim (Result-cases (get_tls_details S params)) [
            | inl (details, q) ↦
                connect-lookup ci details (get_conn c ci (D.now w)).1 c' w w' conn
                  (rw (get_connection, p, q) at h)
            | inr (inl (e, q)) ↦ cc (rw (get_connection, p, q) at h)
            | inr (inr q) ↦ cc (rw (get_connection, p, q) at h)
          ]
          | inr (x, p) ↦ cc (get_conn-lookup c ci (D.now w) x p, rw (get_connection, p) at h)
        ]

    -- After a call of `GetConnection` that answered a connection, the next call for the same
    -- identity, whatever its parameters, answers that connection with its access time set, opens
    -- and closes nothing, and sends no query.
    pub get_connection_again :
        (ci : ConnId S) (params params' : Dict String String) (c c' : ConnManager (ConnId S))
        (w w' : W) (conn : PgConn)
        → get_connection S U D F iterate ci params (c, w) ≡ (ok conn, (c', w'))
        → get_connection S U D F iterate ci params' (c', w') ≡ (
          ok (update_access_time conn (D.now w')),
          (
            record c' {
              connections = insert ci (update_access_time conn (D.now w')) c'.connections;
            },
            w',
          ),
        )
    unfolding get_connection
    get_connection_again ci params params' c c' w w' conn h =
        let found =
          get_conn_lem c' ci (D.now w') conn (get_connection-lookup ci params c c' w w' conn h) in
        rw (get_connection, found) (rw found refl)
