-- ===== src/Conn/Manager/Schedule/Settings.antt =====
-- The settings of `NewConnManager` reach every connection: they do not change, and each connection
-- that the map or a goroutine holds was made with them.
use zabbix_agent2_plugin_pos.Prelude.{
  ℕ, zero, suc, String, ◌≡◌, refl, ◌∙◌, inl, inr, Option, none, some, List, [], ◌∷◌, Eq, Bool-cases,
  Option-cases, arith,
}
use zabbix_agent2_plugin_pos.Prelude.Dict.{Dict, lookup, insert}
use zabbix_agent2_plugin_pos.Prelude.Integers.{ℤ, ltb_ℤ}
use zabbix_agent2_plugin_pos.Conn.Time.{background}
use zabbix_agent2_plugin_pos.Conn.Manager.{
  PgConn, ConnManager, update_access_time, is_unused, min_supported_pg_version, new_pg_conn,
  get_conn, set_conn, sweep, close_unused, close_all,
}
use zabbix_agent2_plugin_pos.Conn.Manager.Contents.{drain_lem}
use zabbix_agent2_plugin_pos.Conn.Manager.Schedule.{
  State, Event, finds, creates, publishes, ticks, destroys, start, pick, open_client, publish, tick,
  destroy, step, run,
}

-- The context of a connection and its timeout, as `create` sets them.
abbrev IsMade : ℤ → PgConn → Type 0
IsMade call conn = (conn.ctx ≡ background) × (conn.call_timeout ≡ call)

abbrev AllMade : {K : Type 0} → ℤ → List (K × PgConn) → Type 0
AllMade call [] = Unit {0}
AllMade call ((k, conn) ∷ d) = IsMade call conn × AllMade call d

module _ {K : Type 0} (call : ℤ) where
  -- The connection picked, and the others.
  abbrev PickMade : Option ((K × PgConn) × List (K × PgConn)) → Type 0
  PickMade none = Unit {0}
  PickMade (some ((k, conn), rest)) = IsMade call conn × AllMade call rest

  pick-PickMade : (n : ℕ) (xs : List (K × PgConn)) → AllMade call xs → PickMade (pick n xs)
  pick-PickMade n [] all = tt
  pick-PickMade zero ((j, x) ∷ xs) all = all
  pick-PickMade (suc n) ((j, x) ∷ xs) (made, all) =
      let rest = pick-PickMade n xs all in
      elim (Option-cases (pick n xs)) [
        | inl e ↦ rw (e, pick) tt
        | inr (((i, y), ys), e) ↦
            let (here, others) = (rw e at rest) in rw (e, pick) (here, (made, others))
      ]

  sweep-AllMade :
      (c : ConnManager K) (clock : K → ℕ) (d : Dict K PgConn)
      → AllMade call d
      → AllMade call (sweep c clock d).0
  unfolding sweep
  sweep-AllMade c clock [] all = tt
  sweep-AllMade c clock ((k, conn) ∷ d) (made, all) =
      elim (Bool-cases (is_unused c (clock k) conn)) [
        | inl old ↦ rw old (sweep-AllMade c clock d all)
        | inr young ↦ rw young (made, sweep-AllMade c clock d all)
      ]

module _ {K : Type 0} ⦃e : Eq K⦄ (call : ℤ) where
  lookup-AllMade :
      (k : K) (conn : PgConn) (d : Dict K PgConn)
      → lookup k d ≡ some conn
      → AllMade call d
      → IsMade call conn
  unfolding lookup
  lookup-AllMade k conn [] found all = cc
  lookup-AllMade k conn ((j, x) ∷ d) found (made, all) = ground (arith, lookup-AllMade k conn d)

  insert-AllMade :
      (k : K) (conn : PgConn) (d : Dict K PgConn)
      → IsMade call conn
      → AllMade call d
      → AllMade call (insert k conn d)
  unfolding insert
  insert-AllMade k conn [] made all = (made, tt)
  insert-AllMade k conn ((j, x) ∷ d) made (first, all) = ground (arith, insert-AllMade k conn d)

  -- The manager's settings are those given, and so are those of every connection held.
  pub record Keeps (keep : ℤ) (s : State K) : Type 0 where
    pub keep_alive : s.manager.keep_alive ≡ keep
    pub call_timeout : s.manager.call_timeout ≡ call
    pub map : AllMade call s.manager.connections
    pub flying : AllMade call s.in_flight

  get_conn-AllMade :
      (c : ConnManager K) (k : K) (now : ℕ)
      → AllMade call c.connections
      → let c' = (get_conn c k now).1 in
        (c'.keep_alive ≡ c.keep_alive)
        × (c'.call_timeout ≡ c.call_timeout)
        × AllMade call c'.connections
  unfolding get_conn
  get_conn-AllMade c k now all = elim (Option-cases (lookup k c.connections)) [
    | inl absent ↦ rw (absent, get_conn) (refl, refl, all)
    | inr (old, found) ↦
        let made = lookup-AllMade k old c.connections found all in
        rw (found, get_conn)
          (refl, refl, insert-AllMade k (update_access_time old now) c.connections made all)
  ]

  set_conn-AllMade :
      (c : ConnManager K) (k : K) (conn : PgConn)
      → IsMade call conn
      → AllMade call c.connections
      → let c' = (set_conn c k conn).1 in
        (c'.keep_alive ≡ c.keep_alive)
        × (c'.call_timeout ≡ c.call_timeout)
        × AllMade call c'.connections
  unfolding set_conn
  set_conn-AllMade c k conn made all = elim (Option-cases (lookup k c.connections)) [
    | inl absent ↦ rw (absent, set_conn) (refl, refl, insert-AllMade k conn c.connections made all)
    | inr (old, found) ↦ rw (found, set_conn) (refl, refl, all)
  ]

  module _ (keep : ℤ) (s : State K) (h : Keeps keep s) where
    open h use {keep_alive, call_timeout, map, flying}

    publish-Keeps :
        (p : Option ((K × PgConn) × List (K × PgConn))) → PickMade call p → Keeps keep (publish s p)
    publish-Keeps none _ = h
    publish-Keeps (some ((k, conn), rest)) (made, others) =
        let (a, b, all) = set_conn-AllMade s.manager k conn made map in
        record {
          keep_alive = a ∙ keep_alive;
          call_timeout = b ∙ call_timeout;
          map = all;
          flying = others;
        }

    open_client-Keeps :
        (k : K) (v : Option ℤ) (now : ℕ) (address : String)
        → Keeps keep (open_client s k v now address)
    unfolding new_pg_conn
    open_client-Keeps k none now address = record {
      keep_alive = keep_alive;
      call_timeout = call_timeout;
      map = map;
      flying = flying;
    }
    open_client-Keeps k (some v) now address =
        elim (Bool-cases (ltb_ℤ v min_supported_pg_version)) [
          | inl old ↦ rw old (record {
            keep_alive = keep_alive;
            call_timeout = call_timeout;
            map = map;
            flying = flying;
          })
          | inr new ↦ rw new (record {
            keep_alive = keep_alive;
            call_timeout = call_timeout;
            map = map;
            flying = ((refl, call_timeout), flying);
          })
        ]

    step-Keeps : (ev : Event K) → Keeps keep (step s ev)
    unfolding step tick destroy close_unused close_all
    step-Keeps (finds k now) =
        let (a, b, all) = get_conn-AllMade s.manager k now map in
        record {
          keep_alive = a ∙ keep_alive;
          call_timeout = b ∙ call_timeout;
          map = all;
          flying = flying;
        }
    step-Keeps (creates k v now address) = open_client-Keeps k v now address
    step-Keeps (publishes n) =
        publish-Keeps (pick n s.in_flight) (pick-PickMade call n s.in_flight flying)
    step-Keeps (ticks clock) = elim (Bool-cases s.running) [
      | inl on ↦ simp on (record {
        keep_alive = keep_alive;
        call_timeout = call_timeout;
        map = sweep-AllMade call s.manager clock s.manager.connections map;
        flying = flying;
      })
      | inr off ↦ simp off h
    ]
    step-Keeps destroys = elim (Bool-cases s.running) [
      | inl on ↦
          simp (on, drain_lem)
            (record {
              keep_alive = keep_alive;
              call_timeout = call_timeout;
              map = tt;
              flying = flying;
            })
      | inr off ↦ simp off h
    ]

  run-Keeps :
      (keep : ℤ) (s : State K) (evs : List (Event K)) → Keeps keep s → Keeps keep (run s evs)
  unfolding run
  run-Keeps keep s [] h = h
  run-Keeps keep s (ev ∷ evs) h = run-Keeps keep (step s ev) evs (step-Keeps keep s h ev)

-- In every interleaving from the start of a manager without connections, its settings stay, and a
-- connection in its map has the background context and the manager's call timeout.
pub run-start-settings :
    {K : Type 0} ⦃e : Eq K⦄ (c : ConnManager K) (evs : List (Event K)) (k : K) (conn : PgConn)
    → c.connections ≡ []
    → lookup k (run (start c) evs).manager.connections ≡ some conn
    → ((run (start c) evs).manager.keep_alive ≡ c.keep_alive)
      × (conn.ctx ≡ background)
      × (conn.call_timeout ≡ c.call_timeout)
unfolding start
run-start-settings c evs k conn empty found =
    let h =
      run-Keeps c.call_timeout c.keep_alive (start c) evs
        (record { keep_alive = refl; call_timeout = refl; map = rw empty tt; flying = tt }) in
    let made =
      lookup-AllMade c.call_timeout k conn (run (start c) evs).manager.connections found h.map in
    (h.keep_alive, made.0, made.1)
