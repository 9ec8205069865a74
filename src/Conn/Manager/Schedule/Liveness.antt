-- ===== src/Conn/Manager/Schedule/Liveness.antt =====
-- An idle connection does not stay: the housekeeper closes it at its first tick past `keepAlive`.
use zabbix_agent2_plugin_pos.Prelude.{
  ℕ, ◌≤◌, ◌≡◌, refl, ap, ◌∙◌, subst, ◌⊎◌, inl, inr, true, false, some, List, [], ◌∷◌, ◌++◌, Eq,
  ◌==◌, ==→eq, Bool-cases, arith, count, count-append,
}
use zabbix_agent2_plugin_pos.Prelude.Dict.{Dict, lookup}
use zabbix_agent2_plugin_pos.Prelude.Integers.{ℤ, ltb_ℤ}
use zabbix_agent2_plugin_pos.Conn.Time.{since}
use zabbix_agent2_plugin_pos.Conn.Manager.{
  PgConn, ConnManager, is_unused, sweep, close_unused, close_all,
}
use zabbix_agent2_plugin_pos.Conn.Manager.Contents.{clients, lookup-sweep, drain_lem}
use zabbix_agent2_plugin_pos.Conn.Manager.Schedule.{
  State, Event, finds, creates, publishes, ticks, destroys, pick, tick, destroy, step, run,
}
use zabbix_agent2_plugin_pos.Conn.Manager.Schedule.Ownership.{Inv, step-Inv, run-Inv, count-lookup}
use zabbix_agent2_plugin_pos.Conn.Manager.Schedule.Frames.{
  lookup-get_conn, get_conn-keep_alive, open_client-manager, closed-grows, publish-held,
}

module _ {K : Type 0} ⦃e : Eq K⦄ where
  -- No caller asks for the key.
  abbrev pub Unasked : K → List (Event K) → Type 0
  Unasked k [] = Unit {0}
  Unasked k (finds j now ∷ evs) = ((k == j) ≡ false) × Unasked k evs
  Unasked k (creates j v now address ∷ evs) = Unasked k evs
  Unasked k (publishes n ∷ evs) = Unasked k evs
  Unasked k (ticks clock ∷ evs) = Unasked k evs
  Unasked k (destroys ∷ evs) = Unasked k evs

  -- The connection is in the map under its key while the housekeeper runs, or it is closed.
  abbrev Settled : K → PgConn → ℤ → State K → Type 0
  Settled k conn keep s =
      ((s.running ≡ true)
        × (s.manager.keep_alive ≡ keep)
        × (lookup k s.manager.connections ≡ some conn))
      ⊎ (1 ≤ count conn.client s.closed)

  -- A handle that the map held and a sweep does not keep under its key was closed by it.
  closed-sweep :
      (c : ConnManager K) (clock : K → ℕ) (k : K) (conn : PgConn) (d : Dict K PgConn)
      → lookup k d ≡ some conn
      → is_unused c (clock k) conn ≡ true
      → 1 ≤ count conn.client (sweep c clock d).1
  unfolding sweep lookup
  closed-sweep c clock k conn [] found old = cc
  closed-sweep c clock k conn ((j, x) ∷ d) found old =
      let same : (k == j) ≡ true → is_unused c (clock k) conn ≡ is_unused c (clock j) conn =
        λ h. ap (λ i. is_unused c (clock i) conn) (==→eq k j h) in
      elim (Bool-cases (is_unused c (clock j) x)) [
        | inl b ↦ rw b (ground (arith, closed-sweep c clock k conn d))
        | inr b ↦ rw b (ground (arith, closed-sweep c clock k conn d))
      ]

  tick-closes :
      (s : State K) (clock : K → ℕ) (k : K) (conn : PgConn)
      → s.running ≡ true
      → lookup k s.manager.connections ≡ some conn
      → is_unused s.manager (clock k) conn ≡ true
      → 1 ≤ count conn.client (tick s clock).closed
  unfolding tick close_unused
  tick-closes s clock k conn on found old = simp on (
      omega (
        arith,
        closed-sweep s.manager clock k conn s.manager.connections found old,
        count-append conn.client (sweep s.manager clock s.manager.connections).1 s.closed,
      ))

  module _ (k : K) (conn : PgConn) (s : State K) (i : Inv s) (on : s.running ≡ true)
      (held : lookup k s.manager.connections ≡ some conn) where
    step-held :
        (ev : Event K) → Unasked k (ev ∷ []) → Settled k conn s.manager.keep_alive (step s ev)
    unfolding step tick destroy close_unused close_all
    step-held (finds j now) (other, _) =
        inl
          (on, get_conn-keep_alive s.manager j now, lookup-get_conn s.manager k j now other ∙ held)
    step-held (creates j v now address) quiet =
        let (same, running) = open_client-manager s j v now address in
        inl
          (running ∙ on, ap (λ m. m.keep_alive) same, ap (λ m. lookup k m.connections) same ∙ held)
    step-held (publishes n) quiet =
        let (running, keep, found) = publish-held s (pick n s.in_flight) k conn held in
        inl (running ∙ on, keep, found)
    step-held (ticks clock) quiet = elim (Bool-cases (is_unused s.manager (clock k) conn)) [
      | inl old ↦ inr (tick-closes s clock k conn on held old)
      | inr young ↦ simp on (
          inl (
            refl,
            refl,
            lookup-sweep s.manager clock k s.manager.connections i.keys ∙ rw held (rw young refl),
          ))
    ]
    step-held destroys quiet =
        simp (on, drain_lem)
          (inr (
            omega (
              arith,
              count-lookup k conn s.manager.connections held,
              count-append conn.client (clients s.manager.connections) s.closed,
            )))

  step-Settled :
      (k : K) (conn : PgConn) (keep : ℤ) (s : State K) (ev : Event K)
      → Inv s
      → Unasked k (ev ∷ [])
      → Settled k conn keep s
      → Settled k conn keep (step s ev)
  step-Settled k conn keep s ev i quiet (inl (on, same, held)) =
      subst (λ kp. Settled k conn kp (step s ev)) same (step-held k conn s i on held ev quiet)
  step-Settled k conn keep s ev i quiet (inr done) =
      inr (omega (arith, closed-grows s ev conn.client))

  Unasked-cons :
      (k : K) (ev : Event K) (evs : List (Event K))
      → Unasked k (ev ∷ evs)
      → Unasked k (ev ∷ []) × Unasked k evs
  Unasked-cons k (finds j now) evs (other, quiet) = ((other, tt), quiet)
  Unasked-cons k (creates j v now address) evs quiet = (tt, quiet)
  Unasked-cons k (publishes n) evs quiet = (tt, quiet)
  Unasked-cons k (ticks clock) evs quiet = (tt, quiet)
  Unasked-cons k destroys evs quiet = (tt, quiet)

  run-closes :
      (k : K) (conn : PgConn) (keep : ℤ) (s : State K) (evs : List (Event K)) (clock : K → ℕ)
      → Inv s
      → Unasked k evs
      → Settled k conn keep s
      → ltb_ℤ keep (since conn.last_time_access (clock k)) ≡ true
      → 1 ≤ count conn.client (run s (evs ++ ticks clock ∷ [])).closed
  unfolding run step is_unused
  run-closes k conn keep s [] clock i quiet (inl (on, same, held)) old =
      tick-closes s clock k conn on held (rw same old)
  run-closes k conn keep s [] clock i quiet (inr done) old =
      omega (arith, closed-grows s (ticks clock) conn.client)
  run-closes k conn keep s (ev ∷ evs) clock i quiet settled old =
      let (first, later) = Unasked-cons k ev evs quiet in
      run-closes k conn keep (step s ev) evs clock (step-Inv s ev i) later
        (step-Settled k conn keep s ev i first settled) old

  -- Take any state that the invariant allows while the housekeeper runs, and a connection in its
  -- map. Whatever happens next, if no caller asks for its key and the housekeeper then ticks and
  -- comes to it more than `keepAlive` after its last access, the connection has been closed, exactly once.
  pub run-closes_idle :
      (s : State K) (k : K) (conn : PgConn) (evs : List (Event K)) (clock : K → ℕ)
      → Inv s
      → s.running ≡ true
      → lookup k s.manager.connections ≡ some conn
      → Unasked k evs
      → ltb_ℤ s.manager.keep_alive (since conn.last_time_access (clock k)) ≡ true
      → count conn.client (run s (evs ++ ticks clock ∷ [])).closed ≡ 1
  run-closes_idle s k conn evs clock i on held quiet old =
      let least =
        run-closes k conn s.manager.keep_alive s evs clock i quiet (inl (on, refl, held)) old in
      let once = (run-Inv s (evs ++ ticks clock ∷ []) i).owned conn.client in ground arith
