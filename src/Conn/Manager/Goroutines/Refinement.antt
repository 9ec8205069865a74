-- ===== src/Conn/Manager/Goroutines/Refinement.antt =====
-- The goroutines with their mutex are a run of `Schedule`, in which a locked section is one event.
use zabbix_agent2_plugin_pos.Prelude.{◌≡◌, refl, sym, subst, none, List, [], ◌∷◌, ◌++◌, Eq, arith}
use zabbix_agent2_plugin_pos.Conn.Manager.{ConnManager}
use zabbix_agent2_plugin_pos.Conn.Manager.Schedule
use zabbix_agent2_plugin_pos.Conn.Manager.Schedule.{State, Event, run}
use zabbix_agent2_plugin_pos.Conn.Manager.Goroutines.{
  System, Step, moves, keeps, Reach, start, later,
}
use zabbix_agent2_plugin_pos.Conn.Manager.Goroutines.Flights.{Crew-nil}
use zabbix_agent2_plugin_pos.Conn.Manager.Goroutines.Mutex.{Locked, Reach-Locked}
use zabbix_agent2_plugin_pos.Conn.Manager.Goroutines.Moves.{Move-Follows}
use zabbix_agent2_plugin_pos.Conn.Manager.Goroutines.Sweeps.{Keep-Follows}
use zabbix_agent2_plugin_pos.Conn.Manager.Goroutines.Shows.{Shows, Follows}

module _ {K : Type 0} ⦃e : Eq K⦄ where
  Step-Follows : {s s' : System K} (t : State K) → Step s s' → Shows s t → Locked s → Follows t s'
  Step-Follows {s} t (moves i mv) sh l = Move-Follows s t sh l i mv refl
  Step-Follows {s} t (keeps kp) sh l = Keep-Follows s t sh kp refl

  pub run-append :
      (s : State K) (evs more : List (Event K)) → run s (evs ++ more) ≡ run (run s evs) more
  unfolding run
  run-append s [] more = refl
  run-append s (ev ∷ evs) more = run-append (Schedule.step s ev) evs more

  -- Let any number of goroutines call `GetConnection`, any number of times each, on a manager without
  -- connections, with the housekeeper beside them; each lock, each locked body and each turn of the
  -- housekeeper's loops is a step of its own, and the steps are interleaved in any order that the
  -- mutex allows. Every state that they reach shows a state that a run of the schedule reaches, in
  -- which each locked section is one event: the same map, but for the entries that a loop of the
  -- housekeeper has yet to visit, the same clients opened and, but for those that this loop has yet
  -- to close, closed, each as often, and the connections between `create` and `setConn` are those of
  -- the goroutines.
  pub Reach-run :
      (c : ConnManager K) (s : System K)
      → c.connections ≡ []
      → Reach c s
      → (evs : List (Event K)) × Shows s (run (Schedule.start c) evs)
  unfolding run Schedule.start
  Reach-run c s empty start = (
    [],
    record {
      map = refl;
      nodup = rw empty tt;
      closed = λ h. omega arith;
      opened = refl;
      running = refl;
      crew = Crew-nil (λ i. none) (λ i. refl);
    },
  )
  Reach-run c s' empty (later {s} r st) =
      let (evs, sh) = Reach-run c s empty r in
      let (more, sh') = Step-Follows (run (Schedule.start c) evs) st sh (Reach-Locked r) in
      (evs ++ more, subst (Shows s') (sym (run-append (Schedule.start c) evs more)) sh')
