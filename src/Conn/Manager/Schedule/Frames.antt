-- ===== src/Conn/Manager/Schedule/Frames.antt =====
-- What a step leaves alone: the manager's settings, the connections of other keys, the handles that
-- are closed already.
use zabbix_agent2_plugin_pos.Prelude.{
  ℕ, ◌≤◌, String, ◌≡◌, refl, inl, inr, false, Option, none, some, List, Eq, ◌==◌, Bool-cases,
  Option-cases, arith, count, count-append,
}
use zabbix_agent2_plugin_pos.Prelude.Dict.{lookup, lookup-insert}
use zabbix_agent2_plugin_pos.Prelude.Integers.{ℤ, ltb_ℤ}
use zabbix_agent2_plugin_pos.Conn.Manager.{
  PgConn, ConnManager, min_supported_pg_version, get_conn, set_conn, close_unused, close_all,
}
use zabbix_agent2_plugin_pos.Conn.Manager.Schedule.{
  State, Event, finds, creates, publishes, ticks, destroys, pick, open_client, publish, tick,
  destroy, step,
}

module _ {K : Type 0} ⦃e : Eq K⦄ where
  pub lookup-get_conn :
      (c : ConnManager K) (k j : K) (now : ℕ)
      → (k == j) ≡ false
      → lookup k (get_conn c j now).1.connections ≡ lookup k c.connections
  unfolding get_conn
  lookup-get_conn c k j now other = elim (Option-cases (lookup j c.connections)) [
    | inl absent ↦ rw (absent, get_conn)
    | inr (old, found) ↦ rw (found, get_conn) (rw (lookup-insert, other) refl)
  ]

  pub get_conn-keep_alive :
      (c : ConnManager K) (j : K) (now : ℕ) → (get_conn c j now).1.keep_alive ≡ c.keep_alive
  unfolding get_conn
  get_conn-keep_alive c j now = ground arith

  pub set_conn-keep_alive :
      (c : ConnManager K) (j : K) (x : PgConn) → (set_conn c j x).1.keep_alive ≡ c.keep_alive
  unfolding set_conn
  set_conn-keep_alive c j x = ground arith

  pub lookup-set_conn :
      (c : ConnManager K) (k j : K) (conn x : PgConn)
      → lookup k c.connections ≡ some conn
      → lookup k (set_conn c j x).1.connections ≡ some conn
  unfolding set_conn
  lookup-set_conn c k j conn x held = elim (Option-cases (lookup j c.connections)) [
    | inl absent ↦ rw (absent, set_conn) (rw lookup-insert (grind (arith)))
    | inr (old, found) ↦ rw (found, set_conn) held
  ]

  pub open_client-closed :
      (s : State K) (k : K) (v : Option ℤ) (now : ℕ) (address : String) (h : ℕ)
      → count h s.closed ≤ count h (open_client s k v now address).closed
  open_client-closed s k none now address h = omega arith
  open_client-closed s k (some v) now address h =
      elim (Bool-cases (ltb_ℤ v min_supported_pg_version)) [
        | inl old ↦ rw old (omega arith)
        | inr new ↦ rw new (omega arith)
      ]

  pub open_client-manager :
      (s : State K) (k : K) (v : Option ℤ) (now : ℕ) (address : String)
      → let t = open_client s k v now address in (t.manager ≡ s.manager) × (t.running ≡ s.running)
  open_client-manager s k none now address = (refl, refl)
  open_client-manager s k (some v) now address =
      elim (Bool-cases (ltb_ℤ v min_supported_pg_version)) [
        | inl old ↦ rw old (refl, refl)
        | inr new ↦ rw new (refl, refl)
      ]

  pub publish-closed :
      (s : State K) (p : Option ((K × PgConn) × List (K × PgConn))) (h : ℕ)
      → count h s.closed ≤ count h (publish s p).closed
  publish-closed s none h = omega arith
  publish-closed s (some ((k, conn), rest)) h =
      omega (arith, count-append h (set_conn s.manager k conn).2 s.closed)

  -- A handle that is closed stays closed.
  pub closed-grows :
      (s : State K) (ev : Event K) (h : ℕ) → count h s.closed ≤ count h (step s ev).closed
  unfolding step tick destroy
  closed-grows s (finds j now) h = omega arith
  closed-grows s (creates j v now address) h = open_client-closed s j v now address h
  closed-grows s (publishes n) h = publish-closed s (pick n s.in_flight) h
  closed-grows s (ticks clock) h = elim (Bool-cases s.running) [
    | inl on ↦ rw on (omega (arith, count-append h (close_unused s.manager clock).1 s.closed))
    | inr off ↦ rw off (omega arith)
  ]
  closed-grows s destroys h = elim (Bool-cases s.running) [
    | inl on ↦ rw on (omega (arith, count-append h (close_all s.manager).1 s.closed))
    | inr off ↦ rw off (omega arith)
  ]

  pub publish-held :
      (s : State K) (p : Option ((K × PgConn) × List (K × PgConn))) (k : K) (conn : PgConn)
      → lookup k s.manager.connections ≡ some conn
      → let t = publish s p in
        (t.running ≡ s.running)
        × (t.manager.keep_alive ≡ s.manager.keep_alive)
        × (lookup k t.manager.connections ≡ some conn)
  publish-held s none k conn held = (refl, refl, held)
  publish-held s (some ((j, x), rest)) k conn held =
      (refl, set_conn-keep_alive s.manager j x, lookup-set_conn s.manager k j conn x held)
