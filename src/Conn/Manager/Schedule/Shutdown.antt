-- ===== src/Conn/Manager/Schedule/Shutdown.antt =====
-- What `Destroy` does not reach: a connection that a goroutine was creating while the housekeeper
-- closed all others and returned.
use zabbix_agent2_plugin_pos.Prelude.{
  ℕ, ◌≡◌, refl, sym, ap, ◌∙◌, inl, inr, String, true, false, Option, none, some, List, [], ◌∷◌,
  ◌++◌, Eq, Bool-cases, Option-cases, count, arith,
}
use mathlib.Core.List.{append_assoc, append-nil}
use zabbix_agent2_plugin_pos.Prelude.Dict.{lookup, insert}
use zabbix_agent2_plugin_pos.Prelude.Integers.{ℤ, ltb_ℤ}
use zabbix_agent2_plugin_pos.Conn.Manager.{PgConn, min_supported_pg_version, set_conn, close_all}
use zabbix_agent2_plugin_pos.Conn.Manager.Contents.{clients, clients-insert_of_absent, drain_lem}
use zabbix_agent2_plugin_pos.Conn.Manager.Schedule.{
  State, Event, finds, creates, publishes, ticks, destroys, pick, open_client, publish, tick,
  destroy, step, run,
}
use zabbix_agent2_plugin_pos.Conn.Manager.Schedule.Ownership.{Inv, run-Inv, get_conn-clients}

module _ {K : Type 0} ⦃e : Eq K⦄ where
  -- The state keeps the handles that the map held, and may gain some.
  abbrev pub Extends : State K → State K → Type 0
  Extends s t =
      (xs : List ℕ) × (clients t.manager.connections ≡ clients s.manager.connections ++ xs)
      × (t.running ≡ s.running)

  publish-Extends :
      (s : State K) (p : Option ((K × PgConn) × List (K × PgConn))) → Extends s (publish s p)
  unfolding set_conn
  publish-Extends s none = ([], sym (append-nil _), refl)
  publish-Extends s (some ((k, conn), rest)) =
      elim (Option-cases (lookup k s.manager.connections)) [
        | inl absent ↦
            rw (absent, set_conn)
              (conn.client ∷ [], clients-insert_of_absent k conn s.manager.connections absent, refl)
        | inr (old, found) ↦ rw (found, set_conn) ([], sym (append-nil _), refl)
      ]

  open_client-Extends :
      (s : State K) (k : K) (v : Option ℤ) (now : ℕ) (address : String)
      → Extends s (open_client s k v now address)
  open_client-Extends s k none now address = ([], sym (append-nil _), refl)
  open_client-Extends s k (some v) now address =
      elim (Bool-cases (ltb_ℤ v min_supported_pg_version)) [
        | inl old ↦ rw old ([], sym (append-nil _), refl)
        | inr new ↦ rw new ([], sym (append-nil _), refl)
      ]

  step-Extends : (s : State K) (ev : Event K) → s.running ≡ false → Extends s (step s ev)
  unfolding step tick destroy
  step-Extends s (finds k now) off =
      ([], get_conn-clients s.manager k now ∙ sym (append-nil _), refl)
  step-Extends s (creates k v now address) off = open_client-Extends s k v now address
  step-Extends s (publishes n) off = publish-Extends s (pick n s.in_flight)
  step-Extends s (ticks clock) off = simp off ([], sym (append-nil _), refl)
  step-Extends s destroys off = simp off ([], sym (append-nil _), refl)

  run-Extends : (s : State K) (evs : List (Event K)) → s.running ≡ false → Extends s (run s evs)
  unfolding run
  run-Extends s [] off = ([], sym (append-nil _), refl)
  run-Extends s (ev ∷ evs) off =
      let (xs, here, on) = step-Extends s ev off in
      let (ys, later, on') = run-Extends (step s ev) evs (on ∙ off) in
      (xs ++ ys, later ∙ ap (λ l. l ++ ys) here ∙ append_assoc _ xs ys, on' ∙ on)

  -- After `Destroy` the housekeeper has closed every connection of the map and emptied it.
  destroy_empties :
      (s : State K)
      → s.running ≡ true
      → ((step s destroys).manager.connections ≡ [])
        × ((step s destroys).closed ≡ clients s.manager.connections ++ s.closed)
        × ((step s destroys).running ≡ false)
  unfolding step destroy close_all
  destroy_empties s on = simp (on, drain_lem) (refl, refl, refl)

  -- The events without those of the housekeeper.
  abbrev pub others : List (Event K) → List (Event K)
  others [] = []
  others (finds k now ∷ evs) = finds k now ∷ others evs
  others (creates k v now address ∷ evs) = creates k v now address ∷ others evs
  others (publishes n ∷ evs) = publishes n ∷ others evs
  others (ticks clock ∷ evs) = others evs
  others (destroys ∷ evs) = others evs

  run-others :
      (s : State K) (evs : List (Event K)) → s.running ≡ false → run s evs ≡ run s (others evs)
  unfolding run step tick destroy
  run-others s [] off = refl
  run-others s (finds k now ∷ evs) off = run-others (step s (finds k now)) evs off
  run-others s (creates k v now address ∷ evs) off =
      run-others (open_client s k v now address) evs
        ((open_client-Extends s k v now address).2 ∙ off)
  run-others s (publishes n ∷ evs) off =
      run-others (publish s (pick n s.in_flight)) evs
        ((publish-Extends s (pick n s.in_flight)).2 ∙ off)
  run-others s (ticks clock ∷ evs) off = simp off (run-others s evs off)
  run-others s (destroys ∷ evs) off = simp off (run-others s evs off)

  -- While the housekeeper runs and receives `Destroy`, it closes every connection of the map, empties it and returns. From then on it
  -- neither runs nor acts again: whatever events follow, those of the housekeeper change nothing.
  pub destroy_returns :
      (s : State K) (evs : List (Event K))
      → s.running ≡ true
      → let t = step s destroys in
        (t.manager.connections ≡ [])
        × (t.closed ≡ clients s.manager.connections ++ s.closed)
        × (run t evs ≡ run t (others evs))
        × ((run t evs).running ≡ false)
  destroy_returns s evs on =
      let (empty, closed, off) = destroy_empties s on in
      (
        empty,
        closed,
        run-others (step s destroys) evs off,
        (run-Extends (step s destroys) evs off).2 ∙ off,
      )

  late_publish :
      (s : State K) (k : K) (conn : PgConn) (rest : List (K × PgConn))
      → s.running ≡ true
      → s.in_flight ≡ (k, conn) ∷ rest
      → (clients (step (step s destroys) (publishes 0)).manager.connections ≡ conn.client ∷ [])
        × ((step (step s destroys) (publishes 0)).running ≡ false)
  unfolding step destroy close_all set_conn lookup insert
  late_publish s k conn rest on flying = simp (on, drain_lem, flying) (refl, refl)

  -- Take any state that the invariant allows while the housekeeper runs, with a connection first in
  -- flight. The housekeeper handles `Destroy`, and right after it the connection is published. Then,
  -- whatever events follow, the map holds its client, and the client is not closed, not even once
  -- the housekeeper ticks again.
  pub late_publish_leaks :
      (s : State K) (k : K) (conn : PgConn) (rest : List (K × PgConn)) (evs : List (Event K))
      → Inv s
      → s.running ≡ true
      → s.in_flight ≡ (k, conn) ∷ rest
      → let s' = run s (destroys ∷ publishes 0 ∷ evs) in
        (count conn.client (clients s'.manager.connections) ≡ 1)
        × (count conn.client s'.closed ≡ 0)
        × (count conn.client (clients s'.in_flight) ≡ 0)
  unfolding run
  late_publish_leaks s k conn rest evs i on flying =
      let (held, off) = late_publish s k conn rest on flying in
      let (xs, kept, _) = run-Extends (step (step s destroys) (publishes 0)) evs off in
      let mapped = ap (count conn.client) (kept ∙ ap (λ l. l ++ xs) held) in
      let once = (run-Inv s (destroys ∷ publishes 0 ∷ evs) i).owned conn.client in
      (ground (arith), ground (arith), ground (arith))
