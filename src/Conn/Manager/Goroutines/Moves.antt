-- ===== src/Conn/Manager/Goroutines/Moves.antt =====
-- A step of a goroutine is at most one event of `Schedule`.
use zabbix_agent2_plugin_pos.Prelude.{
  ℕ, suc, String, ◌≡◌, ◌≢◌, refl, sym, ap, ◌∙◌, subst, inl, inr, true, false, Option, none, some,
  List, [], ◌∷◌, ◌++◌, Eq, Bool-cases, arith, count-append, ne→eqb,
}
use zabbix_agent2_plugin_pos.Prelude.Dict.{NodupKeys}
use zabbix_agent2_plugin_pos.Prelude.Integers.{ℤ}
use zabbix_agent2_plugin_pos.Conn.Manager.{PgConn, ConnManager, new_pg_conn, get_conn, set_conn}
use zabbix_agent2_plugin_pos.Conn.Manager.Schedule.{
  State, finds, creates, publishes, open_client, step, run,
}
use zabbix_agent2_plugin_pos.Conn.Manager.Schedule.Ownership.{
  get_conn-NodupKeys, set_conn-NodupKeys,
}
use zabbix_agent2_plugin_pos.Conn.Manager.Goroutines
use zabbix_agent2_plugin_pos.Conn.Manager.Goroutines.{
  Pc, idle, asking, finding, connecting, publishing, storing, answered, goroutine, housekeeper,
  Shared, is_refused, update, Move, asks, locks_get, misses, fails, discards, locks_set, stores,
  returns, System,
}
use zabbix_agent2_plugin_pos.Conn.Manager.Goroutines.Flights.{Crew-same, Crew-board, Crew-leave}
use zabbix_agent2_plugin_pos.Conn.Manager.Goroutines.Mutex.{is_critical, is_busy, Locked}
use zabbix_agent2_plugin_pos.Conn.Manager.Goroutines.Shows.{
  held, Mapped-idle, idle-Mapped, pending-idle, new_pg_conn-Mapped, held-update, Shows, Follows,
}

module _ {K : Type 0} where
  open_client-refused :
      (t : State K) (k : K) (v : Option ℤ) (now : ℕ) (address : String)
      → is_refused v ≡ true
      → open_client t k v now address
        ≡ record t { opened = suc t.opened; closed = t.opened ∷ t.closed }
  open_client-refused t k none now address h = refl
  open_client-refused t k (some v) now address h = rw h refl

  open_client-admitted :
      (t : State K) (k : K) (v : ℤ) (now : ℕ) (address : String)
      → is_refused (some v) ≡ false
      → open_client t k (some v) now address ≡ record t {
        opened = suc t.opened;
        in_flight = (k, new_pg_conn t.manager t.opened v now address) ∷ t.in_flight;
      }
  open_client-admitted t k v now address h = rw h refl

module _ {K : Type 0} ⦃e : Eq K⦄ (s : System K) (t : State K) (sh : Shows s t) (l : Locked s)
    (i : ℕ) where
  -- A step that changes at most the mutex and where the goroutine stands.
  passes :
      (m : Shared K) (p : Pc K)
      → m.manager ≡ s.shared.manager
      → m.opened ≡ s.shared.opened
      → m.closed ≡ s.shared.closed
      → held p ≡ held (s.pc i)
      → Follows t (record s { shared = m; pc = update s.pc i p })
  unfolding run
  passes m p same_m same_o same_c same = (
    [],
    record {
      map = rw same_m sh.map;
      nodup = rw same_m sh.nodup;
      closed = λ h. rw (same_m, same_c) (sh.closed h);
      opened = sh.opened ∙ sym same_o;
      running = sh.running;
      crew = Crew-same sh.crew (held-update s.pc i p same);
    },
  )

  -- In its locked section a goroutine sees the map of the schedule.
  alone : is_critical (s.pc i) ≡ true → is_busy s.keeper ≡ false
  alone h = elim (Bool-cases (is_busy s.keeper)) [ inl b ↦ cc (l.inside i h, l.busy b) | inr b ↦ b ]

  -- `getConn`, found or not.
  gets :
      (k : K) (now : ℕ) (o : Option PgConn) (c : ConnManager K) (p : Pc K)
      → s.pc i ≡ finding k
      → get_conn s.shared.manager k now ≡ (o, c)
      → held p ≡ none
      → Follows t
          (record s { shared = record s.shared { manager = c; mu = none }; pc = update s.pc i p })
  unfolding run step
  gets k now o c p at found empty =
      let quiet = alone (rw at refl) in
      let here = Mapped-idle s.keeper s.shared.manager t.manager quiet sh.map in
      let moved : (get_conn t.manager k now).1 ≡ c = rw (here, found) refl in
      (
        finds k now ∷ [],
        record {
          map = idle-Mapped s.keeper c _ quiet moved;
          nodup =
              subst (λ d. NodupKeys d.connections) (ap (λ r. r.1) found)
                (get_conn-NodupKeys s.shared.manager k now sh.nodup);
          closed = λ h.
              rw (pending-idle s.keeper c quiet)
                (rw (pending-idle s.keeper s.shared.manager quiet) at (sh.closed h));
          opened = sh.opened;
          running = sh.running;
          crew = Crew-same sh.crew (held-update s.pc i p (empty ∙ sym (ap held at)));
        },
      )

  others_same : (p : Pc K) (j : ℕ) → j ≢ i → held (update s.pc i p j) ≡ held (s.pc j)
  others_same p j differ = rw (ne→eqb j i differ) refl

  own_new : (p : Pc K) → held (update s.pc i p i) ≡ held p
  own_new p = ground arith

  -- `create` closes the client that it opened.
  discarded :
      (k : K) (v : Option ℤ)
      → s.pc i ≡ connecting k
      → is_refused v ≡ true
      → Follows t (record s {
        shared = record s.shared {
          opened = suc s.shared.opened;
          closed = s.shared.opened ∷ s.shared.closed;
        };
        pc = update s.pc i idle;
      })
  unfolding run step
  discarded k v at refused =
      let same = open_client-refused t k v 0 "" refused in
      (
        creates k v 0 "" ∷ [],
        rw same (record {
          map = sh.map;
          nodup = sh.nodup;
          closed = λ h. rw sh.opened (omega (arith, sh.closed h));
          opened = ap suc sh.opened;
          running = sh.running;
          crew = Crew-same sh.crew (held-update s.pc i idle (sym (ap held at)));
        }),
      )

  -- `create` hands its connection on.
  created :
      (k : K) (v : ℤ) (now : ℕ) (address : String)
      → s.pc i ≡ connecting k
      → is_refused (some v) ≡ false
      → Follows t (record s {
        shared = record s.shared { opened = suc s.shared.opened };
        pc =
            update s.pc i
              (publishing k (new_pg_conn s.shared.manager s.shared.opened v now address));
      })
  unfolding run step
  created k v now address at admitted =
      let conn = new_pg_conn s.shared.manager s.shared.opened v now address in
      let same_conn : new_pg_conn t.manager t.opened v now address ≡ conn =
        new_pg_conn-Mapped s.keeper s.shared.manager t.manager t.opened v now address sh.map
        ∙ ap (λ n. new_pg_conn s.shared.manager n v now address) sh.opened in
      (
        creates k (some v) now address ∷ [],
        rw (open_client-admitted t k v now address admitted) (record {
          map = sh.map;
          nodup = sh.nodup;
          closed = sh.closed;
          opened = ap suc sh.opened;
          running = sh.running;
          crew =
              Crew-board sh.crew i _ (others_same (publishing k conn)) (ap held at)
                (own_new (publishing k conn) ∙ ap (λ x. some (k, x)) (sym same_conn));
        }),
      )

  -- `setConn`
  stored :
      (k : K) (conn used : PgConn) (c : ConnManager K) (redundant : List ℕ)
      → s.pc i ≡ storing k conn
      → set_conn s.shared.manager k conn ≡ (used, c, redundant)
      → Follows t (record s {
        shared = record s.shared { manager = c; mu = none; closed = redundant ++ s.shared.closed };
        pc = update s.pc i (answered k used);
      })
  unfolding run step
  stored k conn used c redundant at found =
      let quiet = alone (rw at refl) in
      let here = Mapped-idle s.keeper s.shared.manager t.manager quiet sh.map in
      let moved : set_conn t.manager k conn ≡ (used, c, redundant) = rw here found in
      let (n, rest, picked, left) =
        Crew-leave sh.crew i (k, conn) (others_same (answered k used)) (ap held at)
          (own_new (answered k used)) in
      (
        publishes n ∷ [],
        rw picked (record {
          map = idle-Mapped s.keeper c _ quiet (ap (λ r. r.1) moved);
          nodup =
              subst (λ d. NodupKeys d.connections) (ap (λ r. r.1) found)
                (set_conn-NodupKeys s.shared.manager k conn sh.nodup);
          closed = λ h.
              let before = (rw (pending-idle s.keeper s.shared.manager quiet) at (sh.closed h)) in
              rw (moved, pending-idle s.keeper c quiet)
                (omega (
                  arith,
                  before,
                  count-append h redundant t.closed,
                  count-append h redundant s.shared.closed,
                ));
          opened = sh.opened;
          running = sh.running;
          crew = left;
        }),
      )

  pub Move-Follows :
      {p p' : Pc K} {m : Shared K}
      → Move i s.shared p m p'
      → s.pc i ≡ p
      → Follows t (record s { shared = m; pc = update s.pc i p' })
  Move-Follows (asks k) at = passes _ (asking k) refl refl refl (sym (ap held at))
  Move-Follows (locks_get {k} free) at = passes _ (finding k) refl refl refl (sym (ap held at))
  Move-Follows (Goroutines.finds {k} {conn} {c} now found) at =
      gets k now (some conn) c (answered k conn) at found refl
  Move-Follows (misses {k} {c} now found) at = gets k now none c (connecting k) at found refl
  Move-Follows fails at = passes _ idle refl refl refl (sym (ap held at))
  Move-Follows (discards {k} v refused) at = discarded k v at refused
  Move-Follows (Goroutines.creates {k} v now address admitted) at =
      created k v now address at admitted
  Move-Follows (locks_set {k} {conn} free) at =
      passes _ (storing k conn) refl refl refl (sym (ap held at))
  Move-Follows (stores {k} {conn} {used} {c} {redundant} found) at =
      stored k conn used c redundant at found
  Move-Follows returns at = passes _ idle refl refl refl (sym (ap held at))
