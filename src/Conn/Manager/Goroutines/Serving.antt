-- ===== src/Conn/Manager/Goroutines/Serving.antt =====
-- A connection in use while the goroutines and the housekeeper take their steps.
use zabbix_agent2_plugin_pos.Prelude.{
  ℕ, ◌≤◌, ◌≡◌, refl, ap, ◌∙◌, subst, inl, inr, true, false, some, [], ◌∷◌, ◌++◌, Eq, ◌==◌, ==_refl,
  ==→eq, Bool-cases, arith, count,
}
use zabbix_agent2_plugin_pos.Prelude.Dict.{Dict, NodupKeys, lookup}
use zabbix_agent2_plugin_pos.Prelude.Integers.{ℤ, ltb_ℤ}
use zabbix_agent2_plugin_pos.Conn.Time.{since}
use zabbix_agent2_plugin_pos.Conn.Manager.{PgConn, ConnManager, is_unused, get_conn}
use zabbix_agent2_plugin_pos.Conn.Manager.Contents.{clients}
use zabbix_agent2_plugin_pos.Conn.Manager.Schedule.{State, step}
use zabbix_agent2_plugin_pos.Conn.Manager.Schedule.Ownership.{count-lookup}
use zabbix_agent2_plugin_pos.Conn.Manager.Schedule.Frames.{set_conn-keep_alive, lookup-set_conn}
use zabbix_agent2_plugin_pos.Conn.Manager.Schedule.Serving.{since_mono, Used, finds-Used}
use zabbix_agent2_plugin_pos.Conn.Manager.Goroutines
use zabbix_agent2_plugin_pos.Conn.Manager.Goroutines.{
  Pc, Keeper, watching, due, sweeping, stopping, draining, returned, Shared, delete, drop_entry,
  Move, asks, locks_get, misses, fails, discards, locks_set, stores, returns, Keep, ticks,
  locks_sweep, closes, spares, unlocks_sweep, destroyed, locks_drain, drains, unlocks_drain, System,
  Step, moves, keeps, Reach, later,
}
use zabbix_agent2_plugin_pos.Conn.Manager.Goroutines.Shows.{held, Mapped}
use zabbix_agent2_plugin_pos.Conn.Manager.Goroutines.Refinement.{Reach-run}
use zabbix_agent2_plugin_pos.Conn.Manager.Goroutines.Clients.{is_held, Reach-clients}
use zabbix_agent2_plugin_pos.Conn.Manager.Goroutines.Loops.{lookup-append_none}

module _ {K : Type 0} ⦃e : Eq K⦄ where
  -- The entry that a loop visits is the one of its key.
  lookup-append_here :
      (k : K) (conn : PgConn) (d rest : Dict K PgConn)
      → NodupKeys (d ++ (k, conn) ∷ rest)
      → lookup k (d ++ (k, conn) ∷ rest) ≡ some conn
  unfolding lookup
  lookup-append_here k conn [] rest u = rw (==_refl k) refl
  lookup-append_here k conn ((j, x) ∷ d) rest (fresh, u) =
      rw (lookup-append_none j k conn d rest fresh).0 (lookup-append_here k conn d rest u)

  lookup-delete_other :
      (k ci : K) (d : Dict K PgConn) → (k == ci) ≡ false → lookup k (delete ci d) ≡ lookup k d
  unfolding lookup delete
  lookup-delete_other k ci [] other = refl
  lookup-delete_other k ci ((j, x) ∷ d) other = elim (Bool-cases (ci == j)) [
    | inl here ↦
        let apart : (k == j) ≡ false = subst (λ x. (k == x) ≡ false) (==→eq ci j here) other in
        rw (here, apart) refl
    | inr there ↦ rw there (ground (arith, lookup-delete_other k ci d))
  ]

  -- The manager alone, as a state of the schedule.
  abbrev only : ConnManager K → State K
  only c = record { manager = c; in_flight = []; opened = 0; closed = []; running = true }

  -- What a goroutine's step may not do in the time of a handler: read a clock that runs backwards.
  abbrev pub Later : {i : ℕ} {m m' : Shared K} {p p' : Pc K} → ℕ → Move i m p m' p' → Type 0
  Later t (Goroutines.finds now h) = t ≤ now
  Later t (misses now h) = t ≤ now
  Later t _ = Unit {0}

  module _ (t : ℕ) (keep : ℤ) where
    -- The readings of the clock in a sweep are at most `keep` after `t`, and the plugin is not
    -- stopped.
    abbrev pub Young : (K → ℕ) → Type 0
    Young clock = (j : K) → ltb_ℤ keep (since t (clock j)) ≡ false

    abbrev pub Calm : Keeper K → Type 0
    Calm (sweeping clock rest) = Young clock
    Calm stopping = ⊥
    Calm (draining rest) = ⊥
    Calm _ = Unit {0}

    abbrev pub Gentle : {m m' : Shared K} {q q' : Keeper K} → Keep m q m' q' → Type 0
    Gentle (locks_sweep clock _) = Young clock
    Gentle destroyed = ⊥
    Gentle _ = Unit {0}

    -- What the steps may do in the time of a handler.
    abbrev pub Quietly : {s s' : System K} → Step s s' → Type 0
    Quietly (moves i mv) = Later t mv
    Quietly (keeps kp) = Gentle kp

    -- Steps in the time of a handler.
    pub data During (s : System K) : System K → Type 0 where
      begins : During s s
      goes : {r r' : System K} → During s r → (st : Step r r') → Quietly st → During s r'

    During-Reach : {c : ConnManager K} {s s' : System K} → Reach c s → During s s' → Reach c s'
    During-Reach r begins = r
    During-Reach r (goes d st quiet) = later (During-Reach r d) st

  module _ (k : K) (client t : ℕ) (keep : ℤ) where
    get_conn-Used :
        (c : ConnManager K) (j : K) (now : ℕ)
        → t ≤ now
        → Used k client t keep (only c)
        → Used k client t keep (only (get_conn c j now).1)
    unfolding step
    get_conn-Used c j now soon u = finds-Used k client t keep (only c) u j now soon

    Move-Used :
        {i : ℕ} {m m' : Shared K} {p p' : Pc K}
        → (mv : Move i m p m' p') → Later t mv
        → Used k client t keep (only m.manager)
        → Used k client t keep (only m'.manager)
    Move-Used (asks _) soon u = u
    Move-Used (locks_get _) soon u = u
    Move-Used {m = m} (Goroutines.finds {k = j} now h) soon u =
        subst (λ a. Used k client t keep (only a)) (ap (λ r. r.1) h)
          (get_conn-Used m.manager j now soon u)
    Move-Used {m = m} (misses {k = j} now h) soon u =
        subst (λ a. Used k client t keep (only a)) (ap (λ r. r.1) h)
          (get_conn-Used m.manager j now soon u)
    Move-Used fails soon u = u
    Move-Used (discards v _) soon u = u
    Move-Used (Goroutines.creates v now address _) soon u = u
    Move-Used (locks_set _) soon u = u
    Move-Used {m = m} (stores {k = j} {conn = x} h) soon u =
        subst (λ a. Used k client t keep (only a)) (ap (λ r. r.1) h)
          (record {
            conn = u.conn;
            held = lookup-set_conn m.manager k j u.conn x u.held;
            same = u.same;
            fresh = u.fresh;
            kept = set_conn-keep_alive m.manager j x ∙ u.kept;
          })
    Move-Used returns soon u = u

    closes-Used :
        (m : Shared K) (a : ConnManager K) (clock : K → ℕ) (ci : K) (conn : PgConn)
        (rest : Dict K PgConn)
        → NodupKeys m.manager.connections
        → Mapped (sweeping clock ((ci, conn) ∷ rest)) m.manager a
        → Young t keep clock
        → is_unused m.manager (clock ci) conn ≡ true
        → Used k client t keep (only m.manager)
        → Used k client t keep (only (drop_entry m ci conn).manager)
    unfolding is_unused
    closes-Used m a clock ci conn rest u (kept, split, _) young old used =
        let stays : is_unused m.manager (clock ci) used.conn ≡ false =
          rw used.kept
            (since_mono keep t used.conn.last_time_access (clock ci) used.fresh (young ci)) in
        let here : lookup ci m.manager.connections ≡ some conn =
          ap (λ d. lookup ci d) split
          ∙ lookup-append_here ci conn kept rest (subst NodupKeys split u) in
        elim (Bool-cases (k == ci)) [
          | inl mine ↦
              let found = ap (λ j. lookup j m.manager.connections) (==→eq k ci mine) in
              absurd (cc (used.held, found, here, stays, old))
          | inr other ↦ record {
            conn = used.conn;
            held = lookup-delete_other k ci m.manager.connections other ∙ used.held;
            same = used.same;
            fresh = used.fresh;
            kept = used.kept;
          }
        ]

    Keep-Used :
        {m m' : Shared K} {q q' : Keeper K}
        → (kp : Keep m q m' q') (a : ConnManager K) → NodupKeys m.manager.connections
        → Mapped q m.manager a
        → Gentle t keep kp
        → Calm t keep q
        → Used k client t keep (only m.manager)
        → Used k client t keep (only m'.manager) × Calm t keep q'
    Keep-Used ticks a u mapped gentle calm used = (used, tt)
    Keep-Used (locks_sweep clock _) a u mapped gentle calm used = (used, gentle)
    Keep-Used {m = m} (closes {clock} {ci} {conn} {rest} old) a u mapped gentle calm used =
        (closes-Used m a clock ci conn rest u mapped calm old used, calm)
    Keep-Used (spares young) a u mapped gentle calm used = (used, calm)
    Keep-Used unlocks_sweep a u mapped gentle calm used = (used, tt)
    Keep-Used destroyed a u mapped gentle calm used = absurd gentle
    Keep-Used (locks_drain _) a u mapped gentle calm used = absurd calm
    Keep-Used drains a u mapped gentle calm used = absurd calm
    Keep-Used unlocks_drain a u mapped gentle calm used = absurd calm

    During-Used :
        (c : ConnManager K) {s s' : System K}
        → c.connections ≡ []
        → Reach c s
        → During t keep s s'
        → Calm t keep s.keeper
        → Used k client t keep (only s.shared.manager)
        → Used k client t keep (only s'.shared.manager) × Calm t keep s'.keeper
    During-Used c empty r begins calm used = (used, calm)
    During-Used c empty r (goes {r = s₁} d (moves i mv) quiet) calm used =
        let (used', calm') = During-Used c empty r d calm used in (Move-Used mv quiet used', calm')
    During-Used c empty r (goes {r = s₁} d (keeps kp) quiet) calm used =
        let (used', calm') = During-Used c empty r d calm used in
        let (evs, sh) = Reach-run c s₁ empty (During-Reach t keep r d) in
        Keep-Used kp _ sh.nodup sh.map quiet calm' used'

  -- Goroutines and a housekeeper as in `Reach-run` come to a state in which the map holds a
  -- connection, accessed at `t`, and the plugin is not being stopped. Then they take any steps, as
  -- long as the clock does not run backwards, what a sweep reads on it is at most `keepAlive` after
  -- `t`, also in a sweep that has begun, and the plugin is not stopped. At each of these steps, also
  -- between two turns of a loop, the map holds the connection's client under its key, it is not
  -- closed, and no goroutine has it to close it.
  pub Reach-During :
      (c : ConnManager K) (s s' : System K) (k : K) (conn : PgConn)
      → c.connections ≡ []
      → Reach c s
      → lookup k s.shared.manager.connections ≡ some conn
      → Calm conn.last_time_access s.shared.manager.keep_alive s.keeper
      → During conn.last_time_access s.shared.manager.keep_alive s s'
      → ((conn' : PgConn) × (lookup k s'.shared.manager.connections ≡ some conn')
          × (conn'.client ≡ conn.client))
        × (count conn.client s'.shared.closed ≡ 0)
        × ((i : ℕ) → is_held conn.client (held (s'.pc i)) ≡ false)
  Reach-During c s s' k conn empty r found calm d =
      let keep = s.shared.manager.keep_alive in
      let t = conn.last_time_access in
      let first : Used k conn.client t keep (only s.shared.manager) = record {
        conn = conn;
        held = found;
        same = refl;
        fresh = omega arith;
        kept = refl;
      } in
      let (u, _) = During-Used k conn.client t keep c empty r d calm first in
      let mapped = count-lookup k u.conn s'.shared.manager.connections u.held in
      let (open_, free) =
        Reach-clients c s' empty (During-Reach t keep r d) conn.client
          (subst (λ h. 1 ≤ count h (clients s'.shared.manager.connections)) u.same mapped) in
      ((u.conn, u.held, u.same), open_, free)
