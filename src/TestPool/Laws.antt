-- ===== src/TestPool/Laws.antt =====
-- What `createConnection` leaves to the tests.
use zabbix_agent2_plugin_pos.Prelude.{
  ℕ, String, ◌≡◌, ◌≢◌, refl, sym, ap, ◌∙◌, ◌⊎◌, inl, inr, Option, none, some, [],
}
use zabbix_agent2_plugin_pos.Prelude.Integers.{ℤ}
use zabbix_agent2_plugin_pos.Errors.{Error, Result, ok, err, panic}
use zabbix_agent2_plugin_pos.Client.Values.{Formats, scan, to_int}
use zabbix_agent2_plugin_pos.Conn.Time.{background}
use zabbix_agent2_plugin_pos.Conn.Query.{Sql}
use zabbix_agent2_plugin_pos.Conn.Create.Ledger.{Ledger}
use zabbix_agent2_plugin_pos.TestPool.{
  Outside, TestConn, conn_string, share, create_connection, get_conn_pool,
}

module _ {W : Type 0} (O : Outside W) (D : Sql W) (F : Formats) (L : Ledger D) where
  -- What the rest of `createConnection` makes of the outcome of its query.
  share-outcome :
      (client : ℕ) (v : Result ℤ) (shared shared' : Option TestConn) (w w' : W)
      (r : Result (Option Error))
      → share O D F client v (shared, w) ≡ (r, (shared', w'))
      → (w' ≡ w)
        × (((r ≡ ok none)
              × ((conn : TestConn) × (get_conn_pool shared' ≡ (some conn, none))
                  × (conn.client ≡ client)))
            ⊎ ((r ≢ ok none) × (get_conn_pool shared' ≡ get_conn_pool shared)))
  unfolding get_conn_pool
  share-outcome client (ok v) shared shared' w w' r h = (
    sym (ap (λ t. t.1.1) h),
    inl (sym (ap (λ t. t.0) h), (_, ap (λ t. (t, none)) (sym (ap (λ t. t.1.0) h)), refl)),
  )
  share-outcome client (err e) shared shared' w w' r h = (
    sym (ap (λ t. t.1.1) h),
    inr (λ same. cc (same, ap (λ t. t.0) h), ap (λ t. (t, none)) (sym (ap (λ t. t.1.0) h))),
  )
  share-outcome client panic shared shared' w w' r h = (
    sym (ap (λ t. t.1.1) h),
    inr (λ same. cc (same, ap (λ t. t.0) h), ap (λ t. (t, none)) (sym (ap (λ t. t.1.0) h))),
  )

  -- Take a world with a ledger, and let sql.Open give a client. Whatever `createConnection` then
  -- does, no client is closed. Without an error or a panic `getConnPool` gives a connection of that
  -- client; otherwise it gives what it gave before, so that the client stays open with nobody to
  -- close it.
  pub get_conn_pool-create_connection :
      (shared shared' : Option TestConn) (w w₁ w' : W) (client : ℕ) (r : Result (Option Error))
      → O.sql_open "pgx" (conn_string O) w ≡ (ok client, w₁)
      → create_connection O D F (shared, w) ≡ (r, (shared', w'))
      → (L.closed w' ≡ L.closed w₁)
        × (((r ≡ ok none)
              × ((conn : TestConn) × (get_conn_pool shared' ≡ (some conn, none))
                  × (conn.client ≡ client)))
            ⊎ ((r ≢ ok none) × (get_conn_pool shared' ≡ get_conn_pool shared)))
  unfolding create_connection get_conn_pool
  get_conn_pool-create_connection shared shared' w w₁ w' client r opened made =
      let sql : String = "select current_setting('server_version_num');" in
      let (row, w₂) = D.query_row_context client background sql [] w₁ in
      let (here, outcome) =
        share-outcome client (scan (to_int F) row) shared shared' w₂ w' r (rw opened at made) in
      (ap (λ v. L.closed v) here ∙ (L.query_row_context client background sql [] w₁).1, outcome)
