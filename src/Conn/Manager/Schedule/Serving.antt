-- ===== src/Conn/Manager/Schedule/Serving.antt =====
-- A connection in use: the goroutine that `getConn` has handed it to, and what the others and the
-- housekeeper do meanwhile.
use zabbix_agent2_plugin_pos.Prelude.{
  ℕ, ◌≤◌, ◌≡◌, refl, ap, ◌∙◌, inl, inr, false, some, List, [], ◌∷◌, Eq, ◌==◌, ==_refl, ==→eq,
  Bool-cases, Option-cases, arith, count,
}
use zabbix_agent2_plugin_pos.Prelude.Dict.{lookup, lookup-insert}
use zabbix_agent2_plugin_pos.Prelude.Integers.{ℤ, ltb_ℤ}
use zabbix_agent2_plugin_pos.Conn.Time.{since}
use zabbix_agent2_plugin_pos.Conn.Manager.{
  PgConn, update_access_time, is_unused, get_conn, close_unused,
}
use zabbix_agent2_plugin_pos.Conn.Manager.Contents.{clients, lookup-sweep}
use zabbix_agent2_plugin_pos.Conn.Manager.Expiry.{get_conn_lem}
use zabbix_agent2_plugin_pos.Conn.Manager.Schedule.{
  State, Event, finds, creates, publishes, ticks, destroys, pick, tick, step, run,
}
use zabbix_agent2_plugin_pos.Conn.Manager.Schedule.Ownership.{Inv, step-Inv, run-Inv, count-lookup}
use zabbix_agent2_plugin_pos.Conn.Manager.Schedule.Frames.{
  get_conn-keep_alive, open_client-manager, publish-held,
}

-- A later access makes a connection younger.
pub since_mono :
    (keep : ℤ) (t last now : ℕ)
    → t ≤ last
    → ltb_ℤ keep (since t now) ≡ false
    → ltb_ℤ keep (since last now) ≡ false
unfolding since
since_mono keep t last now h young = ground arith

-- The events that happen while a connection handed out at `t` is in use: the clock does not run
-- backwards, the housekeeper ticks up to `keep` after `t`, and the plugin is not stopped.
abbrev pub While : {K : Type 0} → ℕ → ℤ → List (Event K) → Type 0
While {K} t keep [] = Unit {0}
While {K} t keep (finds j now ∷ evs) = (t ≤ now) × While t keep evs
While {K} t keep (creates j v now address ∷ evs) = While t keep evs
While {K} t keep (publishes n ∷ evs) = While t keep evs
While {K} t keep (ticks clock ∷ evs) =
    ((j : K) → ltb_ℤ keep (since t (clock j)) ≡ false) × While t keep evs
While {K} t keep (destroys ∷ evs) = ⊥

module _ {K : Type 0} ⦃e : Eq K⦄ where
  -- The map holds the client under the key, accessed at `t` or later.
  pub record Used (k : K) (client t : ℕ) (keep : ℤ) (s : State K) : Type 0 where
    pub conn : PgConn
    pub held : lookup k s.manager.connections ≡ some conn
    pub same : conn.client ≡ client
    pub fresh : t ≤ conn.last_time_access
    pub kept : s.manager.keep_alive ≡ keep

  module _ (k : K) (client t : ℕ) (keep : ℤ) (s : State K) (u : Used k client t keep s) where
    pub finds-Used : (j : K) (now : ℕ) → t ≤ now → Used k client t keep (step s (finds j now))
    unfolding step get_conn
    finds-Used j now later = elim (Option-cases (lookup j s.manager.connections)) [
      | inl absent ↦ record {
        conn = u.conn;
        held = rw (absent, get_conn) u.held;
        same = u.same;
        fresh = u.fresh;
        kept = get_conn-keep_alive s.manager j now ∙ u.kept;
      }
      | inr (old, found) ↦ elim (Bool-cases (k == j)) [
        | inl mine ↦ record {
          conn = update_access_time old now;
          held = rw (found, get_conn) (rw (lookup-insert, mine) refl);
          same = cc (u.same, u.held, found, ==→eq k j mine);
          fresh = later;
          kept = get_conn-keep_alive s.manager j now ∙ u.kept;
        }
        | inr other ↦ record {
          conn = u.conn;
          held = rw (found, get_conn) (rw (lookup-insert, other) u.held);
          same = u.same;
          fresh = u.fresh;
          kept = get_conn-keep_alive s.manager j now ∙ u.kept;
        }
      ]
    ]

    ticks-Used :
        (clock : K → ℕ)
        → Inv s
        → ltb_ℤ keep (since t (clock k)) ≡ false
        → Used k client t keep (step s (ticks clock))
    unfolding step tick close_unused is_unused
    ticks-Used clock i young =
        let stays : is_unused s.manager (clock k) u.conn ≡ false =
          rw u.kept (since_mono keep t u.conn.last_time_access (clock k) u.fresh young) in
        elim (Bool-cases s.running) [
          | inl on ↦ simp on (record {
            conn = u.conn;
            held =
                lookup-sweep s.manager clock k s.manager.connections i.keys
                ∙ rw u.held (rw stays refl);
            same = u.same;
            fresh = u.fresh;
            kept = u.kept;
          })
          | inr off ↦ simp off u
        ]

    step-Used : (ev : Event K) → Inv s → While t keep (ev ∷ []) → Used k client t keep (step s ev)
    unfolding step
    step-Used (finds j now) i (later, _) = finds-Used j now later
    step-Used (creates j v now address) i quiet =
        let (same, _) = open_client-manager s j v now address in
        record {
          conn = u.conn;
          held = ap (λ m. lookup k m.connections) same ∙ u.held;
          same = u.same;
          fresh = u.fresh;
          kept = ap (λ m. m.keep_alive) same ∙ u.kept;
        }
    step-Used (publishes n) i quiet =
        let (_, keeps, found) = publish-held s (pick n s.in_flight) k u.conn u.held in
        record {
          conn = u.conn;
          held = found;
          same = u.same;
          fresh = u.fresh;
          kept = keeps ∙ u.kept;
        }
    step-Used (ticks clock) i (young, _) = ticks-Used clock i (young k)
    step-Used destroys i quiet = absurd quiet

  While-cons :
      (t : ℕ) (keep : ℤ) (ev : Event K) (evs : List (Event K))
      → While t keep (ev ∷ evs)
      → While t keep (ev ∷ []) × While t keep evs
  While-cons t keep (finds j now) evs (later, quiet) = ((later, tt), quiet)
  While-cons t keep (creates j v now address) evs quiet = (tt, quiet)
  While-cons t keep (publishes n) evs quiet = (tt, quiet)
  While-cons t keep (ticks clock) evs (young, quiet) = ((young, tt), quiet)
  While-cons t keep destroys evs quiet = absurd quiet

  pub run-Used :
      (k : K) (client t : ℕ) (keep : ℤ) (s : State K) (evs : List (Event K))
      → Inv s
      → While t keep evs
      → Used k client t keep s
      → Used k client t keep (run s evs)
  unfolding run
  run-Used k client t keep s [] i quiet u = u
  run-Used k client t keep s (ev ∷ evs) i quiet u =
      let (first, later) = While-cons t keep ev evs quiet in
      run-Used k client t keep (step s ev) evs (step-Inv s ev i) later
        (step-Used k client t keep s u ev i first)

  pub Used-open :
      (k : K) (client t : ℕ) (keep : ℤ) (s : State K)
      → Inv s
      → Used k client t keep s
      → (count client s.closed ≡ 0) × (count client (clients s.in_flight) ≡ 0)
  Used-open k client t keep s i u =
      let held = count-lookup k u.conn s.manager.connections u.held in
      let once = i.owned client in (ground (arith, u.same), ground (arith, u.same))

  pub lookup-finds :
      (s : State K) (k : K) (conn : PgConn) (t : ℕ)
      → lookup k s.manager.connections ≡ some conn
      → lookup k (step s (finds k t)).manager.connections ≡ some (update_access_time conn t)
  unfolding step
  lookup-finds s k conn t found =
      ap (λ r. lookup k r.1.connections) (get_conn_lem s.manager k t conn found)
      ∙ rw (lookup-insert, ==_refl k) refl

  found-Used :
      (s : State K) (k : K) (conn : PgConn) (t : ℕ)
      → lookup k s.manager.connections ≡ some conn
      → Used k conn.client t s.manager.keep_alive (step s (finds k t))
  unfolding step
  found-Used s k conn t found = record {
    conn = update_access_time conn t;
    held = lookup-finds s k conn t found;
    same = refl;
    fresh = omega arith;
    kept = get_conn-keep_alive s.manager k t;
  }

  -- Take any state that the invariant allows, and let `getConn` hand out a connection of its map at
  -- `t`. Whatever calls and sweeps of other goroutines follow, in any order, as long as the clock
  -- does not run backwards, no sweep happens more than `keepAlive` after `t` and the plugin is not
  -- stopped, the map still holds the connection under its key, and its client is not closed nor
  -- about to be closed by a goroutine.
  pub run-keeps_used :
      (s : State K) (k : K) (conn : PgConn) (t : ℕ) (evs : List (Event K))
      → Inv s
      → lookup k s.manager.connections ≡ some conn
      → While t s.manager.keep_alive evs
      → let s' = run (step s (finds k t)) evs in
        ((conn' : PgConn) × (lookup k s'.manager.connections ≡ some conn')
          × (conn'.client ≡ conn.client))
        × (count conn.client s'.closed ≡ 0)
        × (count conn.client (clients s'.in_flight) ≡ 0)
  unfolding step
  run-keeps_used s k conn t evs i found quiet =
      let first = found-Used s k conn t found in
      let u =
        run-Used k conn.client t s.manager.keep_alive (step s (finds k t)) evs
          (step-Inv s (finds k t) i) quiet first in
      let still =
        Used-open k conn.client t s.manager.keep_alive _
          (run-Inv (step s (finds k t)) evs (step-Inv s (finds k t) i)) u in
      ((u.conn, u.held, u.same), still.0, still.1)
