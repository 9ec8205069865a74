-- ===== src/Conn/Manager/Expiry.antt =====
-- What a caller of the manager may rely on: a connection handed out stays while it is in use, and
-- every caller of a key gets one connection.
use zabbix_agent2_plugin_pos.Prelude.{
  ℕ, ◌≡◌, refl, ◌∙◌, ◌⊎◌, inl, inr, false, none, some, [], ◌∷◌, Eq, Option-cases, ==_refl,
}
use zabbix_agent2_plugin_pos.Prelude.Dict.{
  NodupKeys, lookup, lookup-insert, insert, insert-NodupKeys,
}
use zabbix_agent2_plugin_pos.Prelude.Integers.{ltb_ℤ}
use zabbix_agent2_plugin_pos.Conn.Time.{since}
use zabbix_agent2_plugin_pos.Conn.Manager.{
  PgConn, ConnManager, update_access_time, is_unused, get_conn, set_conn, close_unused,
}
use zabbix_agent2_plugin_pos.Conn.Manager.Contents.{swept, lookup-sweep}

module _ {K : Type 0} ⦃e : Eq K⦄ where
  -- `closeUnused` drops the connections idle for longer than `keepAlive`, and leaves the others
  -- as they are.
  lookup-close_unused :
      (c : ConnManager K) (clock : K → ℕ) (k : K)
      → NodupKeys c.connections
      → lookup k (close_unused c clock).0.connections ≡ swept c (clock k) (lookup k c.connections)
  unfolding close_unused
  lookup-close_unused c clock k u = lookup-sweep c clock k c.connections u

  -- `getConn` finds what the map holds, and stamps it.
  pub get_conn_lem :
      (c : ConnManager K) (k : K) (t : ℕ) (conn : PgConn)
      → lookup k c.connections ≡ some conn
      → get_conn c k t ≡ (
        some (update_access_time conn t),
        record c { connections = insert k (update_access_time conn t) c.connections },
      )
  unfolding get_conn
  get_conn_lem c k t conn found = rw (found, get_conn)

  -- A connection that `getConn` hands out at `t` survives each sweep up to `keepAlive` after `t`.
  close_unused-get_conn :
      (c : ConnManager K) (k : K) (t : ℕ) (clock : K → ℕ) (conn : PgConn)
      → NodupKeys c.connections
      → lookup k c.connections ≡ some conn
      → ltb_ℤ c.keep_alive (since t (clock k)) ≡ false
      → lookup k (close_unused (get_conn c k t).1 clock).0.connections
        ≡ some (update_access_time conn t)
  unfolding is_unused
  close_unused-get_conn c k t clock conn u found young = rw (get_conn_lem c k t conn found) (
      lookup-close_unused _ clock k (insert-NodupKeys k _ c.connections u)
      ∙ rw (lookup-insert, ==_refl k, young))

  -- Of the goroutines that connect for one key the first wins: whatever `setConn` answers, a
  -- later `getConn` finds the same connection, and exactly a connection that is not the answer
  -- is closed.
  get_conn-set_conn :
      (c : ConnManager K) (k : K) (conn : PgConn) (now : ℕ)
      → let (used, c', closed) = set_conn c k conn in
        ((get_conn c' k now).0 ≡ some (update_access_time used now))
        × (((lookup k c.connections ≡ none) × (used ≡ conn) × (closed ≡ []))
            ⊎ ((lookup k c.connections ≡ some used) × (c' ≡ c) × (closed ≡ conn.client ∷ [])))
  unfolding set_conn get_conn
  get_conn-set_conn c k conn now = elim (Option-cases (lookup k c.connections)) [
    | inl absent ↦
        rw (absent, set_conn)
          (rw (lookup-insert, ==_refl k, get_conn) (refl, inl (refl, refl, refl)))
    | inr (old, found) ↦ rw (found, set_conn) (rw (found, get_conn) (refl, inr (refl, refl, refl)))
  ]
