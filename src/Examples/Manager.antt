-- ===== src/Examples/Manager.antt =====
-- Runs of the theorems on the manager: two goroutines that connect for one key, a sweep, and a
-- shutdown.
use zabbix_agent2_plugin_pos.Prelude.{
  arith, ◌≡◌, refl, ◌⊎◌, true, false, some, List, [], ◌∷◌, ◌++◌, String, string_eq, count,
}
use zabbix_agent2_plugin_pos.Prelude.Dict.{lookup, insert}
use zabbix_agent2_plugin_pos.Prelude.Integers.{pos}
use zabbix_agent2_plugin_pos.Conn.Manager.{
  PgConn, get_conn, set_conn, new_pg_conn, new_conn_manager,
}
use zabbix_agent2_plugin_pos.Conn.Time.{since}
use zabbix_agent2_plugin_pos.Conn.Manager.Contents.{clients}
use zabbix_agent2_plugin_pos.Conn.Manager.Schedule.{
  State, Event, finds, creates, publishes, ticks, destroys, start, run, step,
}
use zabbix_agent2_plugin_pos.Conn.Manager.Schedule.Ownership.{Inv, reached, reached-Inv}
use zabbix_agent2_plugin_pos.Conn.Manager.Schedule.Liveness.{run-closes_idle}
use zabbix_agent2_plugin_pos.Conn.Manager.Schedule.Shutdown.{
  others, destroy_returns, late_publish_leaks,
}
use zabbix_agent2_plugin_pos.Conn.Manager.Schedule.Serving.{run-keeps_used}
use zabbix_agent2_plugin_pos.Conn.Manager.Schedule.Publishing.{run-keeps_published}
use zabbix_agent2_plugin_pos.Examples.Samples.{no_query, conn_of, manager}

-- Two goroutines miss the key, both connect and both publish; the second client is redundant.
abbrev race : List (Event String)
race =
    finds "main" 1
    ∷ finds "main" 2
    ∷ creates "main" (some (pos 150000)) 3 "db"
    ∷ creates "main" (some (pos 150000)) 4 "db"
    ∷ publishes 1
    ∷ publishes 0
    ∷ []

race-closed : (reached (pos 60) (pos 10) (pos 5) no_query race).closed ≡ 1 ∷ []
unfolding run step start new_conn_manager get_conn set_conn lookup insert string_eq new_pg_conn
race-closed = refl

reached-Inv_example : Inv (reached (pos 60) (pos 10) (pos 5) no_query race)
reached-Inv_example = reached-Inv (pos 60) (pos 10) (pos 5) no_query race

race-lookup :
    lookup "main" (reached (pos 60) (pos 10) (pos 5) no_query race).manager.connections
    ≡ some (conn_of 0 3)
unfolding run step start new_conn_manager get_conn set_conn lookup insert string_eq new_pg_conn
race-lookup = refl

manager-lookup : lookup "main" manager.connections ≡ some (conn_of 0 100)
unfolding lookup string_eq
manager-lookup = refl

-- A connection in the map, and one in flight.
abbrev leaving : State String
leaving = record {
  manager = manager;
  in_flight = ("other", conn_of 1 120) ∷ [];
  opened = 2;
  closed = [];
  running = true;
}

-- After the race another key is asked for, and the housekeeper ticks twice.
abbrev quiet : List (Event String)
quiet = finds "other" 10 ∷ ticks (λ _. 20) ∷ []

run-closes_idle_example :
    count 0
      (run (reached (pos 60) (pos 10) (pos 5) no_query race) (quiet ++ ticks (λ _. 64) ∷ [])).closed
    ≡ 1
unfolding run step start new_conn_manager get_conn set_conn lookup insert string_eq new_pg_conn
    since
run-closes_idle_example =
    run-closes_idle (reached (pos 60) (pos 10) (pos 5) no_query race) "main" (conn_of 0 3) quiet
      (λ _. 64) (reached-Inv (pos 60) (pos 10) (pos 5) no_query race) refl race-lookup (refl, tt)
      refl

-- While `leaving` is destroyed another goroutine publishes, and the ticker's last tick comes late.
abbrev aftermath : List (Event String)
aftermath = publishes 0 ∷ ticks (λ _. 500) ∷ finds "other" 510 ∷ []

destroy_returns_example :
    let s = step leaving destroys in
    (s.manager.connections ≡ [])
    × (s.closed ≡ clients manager.connections ++ [])
    × (run s aftermath ≡ run s (others aftermath))
    × ((run s aftermath).running ≡ false)
destroy_returns_example = destroy_returns leaving aftermath refl

-- In the 60 after "main" was handed out at 150, another goroutine publishes and the housekeeper
-- sweeps twice.
abbrev busy : List (Event String)
busy = publishes 0 ∷ ticks (λ _. 170) ∷ finds "main" 180 ∷ ticks (λ _. 210) ∷ []

leaving-Inv : Inv leaving
unfolding lookup string_eq
leaving-Inv = record { keys = (refl, tt); owned = λ h. ground arith }

late_publish_leaks_example :
    let s = run leaving (destroys ∷ publishes 0 ∷ ticks (λ _. 500) ∷ []) in
    (count 1 (clients s.manager.connections) ≡ 1)
    × (count 1 s.closed ≡ 0)
    × (count 1 (clients s.in_flight) ≡ 0)
late_publish_leaks_example =
    late_publish_leaks leaving "other" (conn_of 1 120) [] (ticks (λ _. 500) ∷ []) leaving-Inv refl
      refl

run-keeps_used_example :
    let s = run (step leaving (finds "main" 150)) busy in
    ((conn : PgConn) × (lookup "main" s.manager.connections ≡ some conn) × (conn.client ≡ 0))
    × (count 0 s.closed ≡ 0)
    × (count 0 (clients s.in_flight) ≡ 0)
unfolding since
run-keeps_used_example =
    run-keeps_used leaving "main" (conn_of 0 100) 150 busy leaving-Inv manager-lookup
      ((λ j. refl), (omega arith, ((λ j. refl), tt)))

-- A goroutine that connected for "main" while another one did.
abbrev beaten : State String
beaten = record leaving { in_flight = ("main", conn_of 1 120) ∷ [] }

beaten-Inv : Inv beaten
unfolding lookup string_eq
beaten-Inv = record { keys = (refl, tt); owned = λ h. ground arith }

run-keeps_published_example :
    let s = run (step beaten (publishes 0)) (ticks (λ _. 150) ∷ finds "main" 155 ∷ []) in
    ((conn : PgConn) × (lookup "main" s.manager.connections ≡ some conn) × (conn.client ≡ 0))
    × (count 0 s.closed ≡ 0)
    × ((conn_of 0 100 ≡ conn_of 1 120) ⊎ (count 1 s.closed ≡ 1))
unfolding since set_conn lookup string_eq
run-keeps_published_example =
    run-keeps_published beaten 0 "main" (conn_of 1 120) [] refl
      (ticks (λ _. 150) ∷ finds "main" 155 ∷ []) beaten-Inv ((λ j. refl), (omega arith, tt))
