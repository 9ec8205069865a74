-- ===== src/Conn/Manager/Schedule/Publishing.antt =====
-- The end of `GetConnection` for a goroutine that created a connection: `setConn` answers its own
-- or, when another goroutine was first, the one in the map, whose access time it leaves alone.
use zabbix_agent2_plugin_pos.Prelude.{
  ℕ, ◌≤◌, ◌≡◌, refl, ap, ◌∙◌, ◌⊎◌, inl, inr, true, some, List, [], ◌∷◌, Eq, ==_refl, Option-cases,
  arith, count,
}
use zabbix_agent2_plugin_pos.Prelude.Dict.{lookup, lookup-insert}
use zabbix_agent2_plugin_pos.Prelude.Integers.{ltb_ℤ}
use zabbix_agent2_plugin_pos.Conn.Time.{since}
use zabbix_agent2_plugin_pos.Conn.Manager.{PgConn, ConnManager, set_conn}
use zabbix_agent2_plugin_pos.Conn.Manager.Schedule.{
  State, Event, publishes, ticks, pick, publish, step, run,
}
use zabbix_agent2_plugin_pos.Conn.Manager.Schedule.Ownership.{Inv, step-Inv, run-Inv}
use zabbix_agent2_plugin_pos.Conn.Manager.Schedule.Frames.{closed-grows, set_conn-keep_alive}
use zabbix_agent2_plugin_pos.Conn.Manager.Schedule.Liveness.{run-closes_idle}
use zabbix_agent2_plugin_pos.Conn.Manager.Schedule.Serving.{While, Used, run-Used, Used-open}

module _ {K : Type 0} ⦃e : Eq K⦄ where
  run-closed-grows :
      (s : State K) (evs : List (Event K)) (h : ℕ) → count h s.closed ≤ count h (run s evs).closed
  unfolding run
  run-closed-grows s [] h = omega arith
  run-closed-grows s (ev ∷ evs) h =
      omega (arith, closed-grows s ev h, run-closed-grows (step s ev) evs h)

  -- What `setConn` answers is in the map afterwards; the other connection, if there is one, is
  -- closed.
  set_conn-lookup :
      (c : ConnManager K) (k : K) (mine : PgConn)
      → let (used, c', closed) = set_conn c k mine in
        (lookup k c'.connections ≡ some used) × ((used ≡ mine) ⊎ (closed ≡ mine.client ∷ []))
  unfolding set_conn
  set_conn-lookup c k mine = elim (Option-cases (lookup k c.connections)) [
    | inl absent ↦ rw (absent, set_conn) (rw (lookup-insert, ==_refl k) (refl, inl refl))
    | inr (old, found) ↦ rw (found, set_conn) (found, inr refl)
  ]

  module _ (s : State K) (n : ℕ) (k : K) (mine : PgConn) (rest : List (K × PgConn))
      (flying : pick n s.in_flight ≡ some ((k, mine), rest)) where
    publishes-lookup :
        lookup k (step s (publishes n)).manager.connections ≡ some (set_conn s.manager k mine).0
    unfolding step
    publishes-lookup =
        ap (λ p. lookup k (publish s p).manager.connections) flying
        ∙ (set_conn-lookup s.manager k mine).0

    publishes-keep_alive : (step s (publishes n)).manager.keep_alive ≡ s.manager.keep_alive
    unfolding step
    publishes-keep_alive =
        ap (λ p. (publish s p).manager.keep_alive) flying ∙ set_conn-keep_alive s.manager k mine

    publishes-running : (step s (publishes n)).running ≡ s.running
    unfolding step
    publishes-running = ap (λ p. (publish s p).running) flying

    publishes-closes :
        ((set_conn s.manager k mine).0 ≡ mine)
        ⊎ (1 ≤ count mine.client (step s (publishes n)).closed)
    unfolding step
    publishes-closes = rw flying (elim ((set_conn-lookup s.manager k mine).1) [
      | inl own ↦ inl own
      | inr redundant ↦ inr (rw redundant (ground arith))
    ])

    -- Take any state that the invariant allows and a goroutine with a connection that it created. It
    -- calls `setConn`, and whatever calls and sweeps follow, as long as the clock does not run
    -- backwards, no sweep happens more than `keepAlive` after the last access to the connection
    -- that `setConn` answers, and the plugin is not stopped: the map holds that connection under its
    -- key, and its client is not closed. If it is not the goroutine's own, the goroutine's own is
    -- closed, exactly once.
    pub run-keeps_published :
        (evs : List (Event K))
        → Inv s
        → While (set_conn s.manager k mine).0.last_time_access s.manager.keep_alive evs
        → let used = (set_conn s.manager k mine).0 in
          let s' = run (step s (publishes n)) evs in
          ((conn : PgConn) × (lookup k s'.manager.connections ≡ some conn)
            × (conn.client ≡ used.client))
          × (count used.client s'.closed ≡ 0)
          × ((used ≡ mine) ⊎ (count mine.client s'.closed ≡ 1))
    run-keeps_published evs i quiet =
        let (used, _, _) = set_conn s.manager k mine in
        let t = step s (publishes n) in
        let after = step-Inv s (publishes n) i in
        let last = run-Inv t evs after in
        let first : Used k used.client used.last_time_access s.manager.keep_alive t = record {
          conn = used;
          held = publishes-lookup;
          same = refl;
          fresh = omega arith;
          kept = publishes-keep_alive;
        } in
        let u =
          run-Used k used.client used.last_time_access s.manager.keep_alive t evs after quiet
            first in
        let still =
          Used-open k used.client used.last_time_access s.manager.keep_alive (run t evs) last u in
        (
          (u.conn, u.held, u.same),
          still.0,
          elim publishes-closes [
            | inl own ↦ inl own
            | inr once ↦ inr (
                let more = run-closed-grows t evs mine.client in
                let most = last.owned mine.client in ground arith)
          ],
        )

    -- With the same goroutine, and the housekeeper running: `setConn` does not count as an access. If
    -- the housekeeper ticks right after it, and the last access to the connection that it answers is
    -- more than `keepAlive` ago, the client of the answer is closed.
    run-closes_published :
        (clock : K → ℕ)
        → Inv s
        → s.running ≡ true
        → ltb_ℤ s.manager.keep_alive
            (since (set_conn s.manager k mine).0.last_time_access (clock k))
          ≡ true
        → count
            (set_conn s.manager k mine).0.client
            (run (step s (publishes n)) (ticks clock ∷ [])).closed
          ≡ 1
    run-closes_published clock i on old =
        run-closes_idle (step s (publishes n)) k (set_conn s.manager k mine).0 [] clock
          (step-Inv s (publishes n) i) (publishes-running ∙ on) publishes-lookup tt
          (rw publishes-keep_alive old)
