-- ===== src/Examples/Goroutines.antt =====
-- Runs of the theorems on the goroutines with their mutex: two of them connect for one key, and the
-- housekeeper sweeps while the second waits to publish.
use zabbix_agent2_plugin_pos.Prelude.{
  ℕ, ◌+◌, ◌≤◌, ◌≡◌, refl, ◌⊎◌, false, none, some, List, [], ◌∷◌, String, string_eq, count, eqb,
  arith,
}
use zabbix_agent2_plugin_pos.Prelude.Dict.{lookup, insert}
use zabbix_agent2_plugin_pos.Prelude.Integers.{pos}
use zabbix_agent2_plugin_pos.Conn.Manager.{
  PgConn, is_unused, ConnManager, new_pg_conn, get_conn, set_conn,
}
use zabbix_agent2_plugin_pos.Conn.Manager.Contents.{clients}
use zabbix_agent2_plugin_pos.Conn.Manager.Schedule
use zabbix_agent2_plugin_pos.Conn.Manager.Schedule.{Event, run}
use zabbix_agent2_plugin_pos.Conn.Manager.Goroutines.{
  delete, closes, returns, Pc, idle, asking, finding, connecting, publishing, storing, answered,
  watching, sweeping, spares, unlocks_sweep, goroutine, housekeeper, update, asks, locks_get,
  misses, creates, locks_set, stores, ticks, locks_sweep, System, Step, moves, keeps, Reach, start,
  later,
}
use zabbix_agent2_plugin_pos.Conn.Manager.Goroutines.Shows.{held, Shows}
use zabbix_agent2_plugin_pos.Conn.Manager.Goroutines.Refinement.{Reach-run}
use zabbix_agent2_plugin_pos.Conn.Manager.Goroutines.Clients.{is_held, Reach-is_held}
use zabbix_agent2_plugin_pos.Conn.Time.{since}
use zabbix_agent2_plugin_pos.Conn.Manager.Goroutines.Serving.{During, Reach-During}
use zabbix_agent2_plugin_pos.Conn.Manager.Goroutines.Serving
use zabbix_agent2_plugin_pos.Conn.Manager.Goroutines.Section.{
  left, Section, begins, goes, Reach-Section,
}
use zabbix_agent2_plugin_pos.Conn.Manager.Goroutines.Release.{Alone, Reach-Alone}
use zabbix_agent2_plugin_pos.Examples.Samples.{no_query, conn_of}

abbrev fresh : ConnManager String
fresh = record {
  connections = [];
  keep_alive = pos 60;
  connect_timeout = pos 10;
  call_timeout = pos 5;
  query_storage = no_query;
}

-- Where the goroutines stand after these changes, the last one first.
abbrev pcs : List (ℕ × Pc String) → ℕ → Pc String
pcs [] = λ _. idle
pcs ((i, p) ∷ changes) = update (pcs changes) i p

abbrev changes : List (ℕ × Pc String)
changes =
    (0, answered "main" (conn_of 0 3))
    ∷ (0, storing "main" (conn_of 0 3))
    ∷ (1, publishing "main" (conn_of 1 4))
    ∷ (0, publishing "main" (conn_of 0 3))
    ∷ (1, connecting "main")
    ∷ (1, finding "main")
    ∷ (1, asking "main")
    ∷ (0, connecting "main")
    ∷ (0, finding "main")
    ∷ (0, asking "main")
    ∷ []

-- The first goroutine has published, and the second waits.
abbrev stored_state : System String
stored_state = record {
  shared = record {
    manager = record fresh { connections = ("main", conn_of 0 3) ∷ [] };
    mu = none;
    opened = 2;
    closed = [];
  };
  pc = pcs changes;
  keeper = watching;
}

reached_stored : Reach fresh stored_state
unfolding get_conn set_conn lookup insert string_eq new_pg_conn
reached_stored =
    let asked_0 =
      later (later (later start (moves 0 (asks "main"))) (moves 0 (locks_get refl)))
        (moves 0 (misses 1 refl)) in
    let asked_1 =
      later (later (later asked_0 (moves 1 (asks "main"))) (moves 1 (locks_get refl)))
        (moves 1 (misses 2 refl)) in
    let created =
      later (later asked_1 (moves 0 (creates (pos 150000) 3 "db" refl)))
        (moves 1 (creates (pos 150000) 4 "db" refl)) in
    later (later created (moves 0 (locks_set refl))) (moves 0 (stores refl))

-- The housekeeper has begun a sweep.
abbrev sweeping_state : System String
sweeping_state = record stored_state {
  shared = record stored_state.shared { mu = some housekeeper };
  keeper = sweeping (λ _. 200) (("main", conn_of 0 3) ∷ []);
}

reached_sweeping : Reach fresh sweeping_state
reached_sweeping = later (later reached_stored (keeps ticks)) (keeps (locks_sweep (λ _. 200) refl))

Reach-run_example :
    (evs : List (Event String)) × Shows sweeping_state (run (Schedule.start fresh) evs)
Reach-run_example = Reach-run fresh sweeping_state refl reached_sweeping

Reach-is_held_example :
    ((count 1 (clients sweeping_state.shared.manager.connections)
          + count 1 sweeping_state.shared.closed
        ≡ 1)
      × ((i : ℕ) → is_held 1 (held (sweeping_state.pc i)) ≡ false))
    ⊎ ((count 1 (clients sweeping_state.shared.manager.connections)
            + count 1 sweeping_state.shared.closed
          ≡ 0)
        × ((n : ℕ) × ((i : ℕ) → is_held 1 (held (sweeping_state.pc i)) ≡ eqb i n)))
Reach-is_held_example = Reach-is_held fresh sweeping_state refl reached_sweeping 1 (omega arith)

Reach-Alone_example :
    (t u : System String) × Alone housekeeper sweeping_state t
    × Step t u
    × (u.shared.mu ≡ some (goroutine 1))
Reach-Alone_example =
    Reach-Alone fresh sweeping_state housekeeper (goroutine 1) reached_sweeping refl refl

-- While the housekeeper has the lock, the first goroutine returns; the sweep closes the connection.
abbrev swept_state : System String
swept_state = record stored_state {
  shared = record { manager = fresh; mu = none; opened = 2; closed = 0 ∷ [] };
  pc = pcs ((0, idle) ∷ changes);
}

sweeping-Section : Section housekeeper sweeping_state 2 swept_state
unfolding delete string_eq is_unused since
sweeping-Section =
    let answered_0 = goes begins refl (moves 0 returns) in
    goes (goes answered_0 refl (keeps (closes refl))) refl (keeps unlocks_sweep)

Reach-Section_example :
    (2 ≤ left housekeeper sweeping_state.keeper + 1)
    × ((swept_state.shared.mu ≡ none)
        ⊎ ((swept_state.shared.mu ≡ some housekeeper)
            × (2 + left housekeeper swept_state.keeper ≤ left housekeeper sweeping_state.keeper)))
Reach-Section_example =
    Reach-Section fresh sweeping_state swept_state housekeeper 2 reached_sweeping refl
      sweeping-Section

-- A sweep has spared the connection, and the second goroutine has published.
abbrev served_state : System String
served_state = record stored_state {
  shared = record stored_state.shared { closed = 1 ∷ [] };
  pc = pcs ((1, answered "main" (conn_of 0 3)) ∷ (1, storing "main" (conn_of 1 4)) ∷ changes);
}

serving : During 3 (pos 60) stored_state served_state
unfolding set_conn lookup string_eq is_unused since
serving =
    let began =
      Serving.goes (Serving.goes Serving.begins (keeps ticks) tt)
        (keeps (locks_sweep (λ _. 50) refl)) (λ j. refl) in
    let swept =
      Serving.goes (Serving.goes began (keeps (spares refl)) tt) (keeps unlocks_sweep) tt in
    Serving.goes (Serving.goes swept (moves 1 (locks_set refl)) tt) (moves 1 (stores refl)) tt

stored-lookup : lookup "main" stored_state.shared.manager.connections ≡ some (conn_of 0 3)
unfolding lookup string_eq
stored-lookup = refl

Reach-During_example :
    ((conn : PgConn) × (lookup "main" served_state.shared.manager.connections ≡ some conn)
      × (conn.client ≡ 0))
    × (count 0 served_state.shared.closed ≡ 0)
    × ((i : ℕ) → is_held 0 (held (served_state.pc i)) ≡ false)
Reach-During_example =
    Reach-During fresh stored_state served_state "main" (conn_of 0 3) refl reached_stored
      stored-lookup tt serving
