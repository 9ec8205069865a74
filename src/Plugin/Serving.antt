-- ===== src/Plugin/Serving.antt =====
-- The housekeeper and a handler that runs: is the client that the handler got still open at the end
-- of its time? Only `getConn` sets the time by which `closeUnused` goes.
use zabbix_agent2_plugin_pos.Prelude.{
  ℕ, ◌+◌, ◌*◌, ◌≤◌, ◌<◌, String, ◌≡◌, sym, ap, ◌∙◌, true, false, Option, none, some, List, [], ◌∷◌,
  ◌++◌, Bool-cases, inl, inr, leb, Eq, arith, count, ltb, if◌then◌else◌,
}
use zabbix_agent2_plugin_pos.Prelude.Dict.{lookup}
use zabbix_agent2_plugin_pos.Prelude.Integers.{pos, ltb_ℤ}
use zabbix_agent2_plugin_pos.Sdk.{Sdk}
use zabbix_agent2_plugin_pos.Conn.Time.{Context, background, since, with_timeout, context_err}
use zabbix_agent2_plugin_pos.Conn.Manager.{
  PgConn, ConnManager, update_access_time, new_conn_manager, new_pg_conn,
}
use zabbix_agent2_plugin_pos.Conn.Manager.Schedule
use zabbix_agent2_plugin_pos.Conn.Manager.Schedule.{
  State, Event, finds, creates, publishes, ticks, destroys, step, run,
}
use zabbix_agent2_plugin_pos.Conn.Manager.Schedule.Ownership.{Inv, step-Inv, run-Inv}
use zabbix_agent2_plugin_pos.Conn.Manager.Schedule.Frames.{get_conn-keep_alive}
use zabbix_agent2_plugin_pos.Conn.Manager.Schedule.Liveness.{Unasked, run-closes_idle}
use zabbix_agent2_plugin_pos.Conn.Manager.Schedule.Serving.{While, lookup-finds, run-keeps_used}
use zabbix_agent2_plugin_pos.Conn.Manager.Schedule.Settings.{run-start-settings}
use zabbix_agent2_plugin_pos.Conn.Create.{ConnId}
use zabbix_agent2_plugin_pos.Plugin.{Plugin, start, effective_timeout}
use zabbix_agent2_plugin_pos.Plugin.Timeouts.{max_seconds, seconds_lem, start-deadline}

-- What other goroutines and the housekeeper do from `t` to `end`, while the plugin is not stopped.
abbrev pub Until : {K : Type 0} → ℕ → ℕ → List (Event K) → Type 0
Until {K} t end [] = Unit {0}
Until {K} t end (finds j now ∷ evs) = (t ≤ now) × Until t end evs
Until {K} t end (creates j v now address ∷ evs) = Until t end evs
Until {K} t end (publishes n ∷ evs) = Until t end evs
Until {K} t end (ticks clock ∷ evs) = ((j : K) → clock j ≤ end) × Until t end evs
Until {K} t end (destroys ∷ evs) = ⊥

young_lem : (keep t now : ℕ) → now ≤ t + keep → ltb_ℤ (pos keep) (since t now) ≡ false
unfolding since
young_lem keep t now early = ground arith

late_lem : (keep t now : ℕ) → t + keep < now → ltb_ℤ (pos keep) (since t now) ≡ true
unfolding since
late_lem keep t now late = ground arith

some-injective : {A : Type 0} (a b : A) → some a ≡ some b → a ≡ b
some-injective a b h = cc

module _ {K : Type 0} ⦃e : Eq K⦄ where
  Until→While :
      (t end keep : ℕ) (evs : List (Event K))
      → end ≤ t + keep
      → Until t end evs
      → While t (pos keep) evs
  Until→While t end keep [] fits quiet = tt
  Until→While t end keep (finds j now ∷ evs) fits (later, quiet) =
      (later, Until→While t end keep evs fits quiet)
  Until→While t end keep (creates j v now address ∷ evs) fits quiet =
      Until→While t end keep evs fits quiet
  Until→While t end keep (publishes n ∷ evs) fits quiet = Until→While t end keep evs fits quiet
  Until→While t end keep (ticks clock ∷ evs) fits (early, quiet) = (
    λ j. young_lem keep t (clock j) (let soon = early j in omega arith),
    Until→While t end keep evs fits quiet,
  )
  Until→While t end keep (destroys ∷ evs) fits quiet = absurd quiet

  late_sweep :
      (s : State K) (k : K) (conn : PgConn) (t now : ℕ) (evs : List (Event K))
      → Inv s
      → s.running ≡ true
      → lookup k s.manager.connections ≡ some conn
      → Unasked k evs
      → ltb_ℤ s.manager.keep_alive (since t now) ≡ true
      → count conn.client (run (step s (finds k t)) (evs ++ ticks (λ _. now) ∷ [])).closed ≡ 1
  unfolding step
  late_sweep s k conn t now evs i on found quiet old =
      run-closes_idle (step s (finds k t)) k (update_access_time conn t) evs (λ _. now)
        (step-Inv s (finds k t) i) on (lookup-finds s k conn t found) quiet
        (rw (get_conn-keep_alive s.manager k t) old)

-- An instant from both on, before the end.
moment : (a b end : ℕ) → a < end → b < end → (n : ℕ) × (a ≤ n) × (b ≤ n) × (n < end)
moment a b end early early' = elim (Bool-cases (leb a b)) [
  | inl first ↦ (b, ground arith, omega arith, early')
  | inr second ↦ (a, omega arith, ground arith, early)
]

context_err_before :
    (ctx : Context) (d now : ℕ) → ctx.deadline ≡ some d → now < d → context_err ctx now ≡ none
unfolding context_err
context_err_before ctx d now at early = rw at (ground arith)

-- The seconds that a handler gets.
abbrev pub handler_seconds : ℕ → ℕ → ℕ
handler_seconds call agent = if ltb call agent then agent else call

module _ (S : Sdk) (yarn : String → String → Option (String → Option String)) (p : Plugin S)
    (c : ConnManager (ConnId S)) (up : (start S yarn p).conn_mgr ≡ some c) where
  deadline_lem :
      (conn : PgConn) (agent begin d : ℕ)
      → p.options.call_timeout ≤ max_seconds
      → agent ≤ max_seconds
      → conn.ctx ≡ background
      → conn.call_timeout ≡ c.call_timeout
      → (with_timeout conn.ctx begin (effective_timeout conn.call_timeout (some agent))).deadline
        ≡ some d
      → d ≡ begin + handler_seconds p.options.call_timeout agent * 1_000_000_000
  unfolding new_pg_conn
  deadline_lem conn agent begin d hc ha ctx call h =
      let made =
        start-deadline S yarn p c conn.client conn.version 0 conn.address agent begin up hc ha in
      some-injective _ _ (sym (rw (ctx, call) at h) ∙ made)

  keep_alive_lem :
      p.options.keep_alive ≤ max_seconds → c.keep_alive ≡ pos (p.options.keep_alive * 1_000_000_000)
  unfolding start new_conn_manager
  keep_alive_lem hk =
      sym (ap (λ o. elim o [ none ↦ pos 0 | some m ↦ m.keep_alive ]) up)
      ∙ seconds_lem p.options.keep_alive hk

  started-nil : c.connections ≡ []
  unfolding start new_conn_manager
  started-nil = sym (ap (λ o. elim o [ none ↦ [] | some m ↦ m.connections ]) up)

  started-Inv : ⦃e : Eq (ConnId S)⦄ → Inv (Schedule.start c)
  unfolding Schedule.start
  started-Inv = record { keys = rw started-nil tt; owned = λ h. rw started-nil (ground arith) }

  module _ ⦃e : Eq (ConnId S)⦄ (before : List (Event (ConnId S))) (k : ConnId S) (conn : PgConn)
      (agent t begin d : ℕ) (hc : p.options.call_timeout ≤ max_seconds)
      (hk : p.options.keep_alive ≤ max_seconds) (ha : agent ≤ max_seconds)
      (found : lookup k (run (Schedule.start c) before).manager.connections ≡ some conn)
      (until_ : (with_timeout conn.ctx begin
          (effective_timeout conn.call_timeout (some agent))).deadline
        ≡ some d) where
    settings :
        ((run (Schedule.start c) before).manager.keep_alive
          ≡ pos (p.options.keep_alive * 1_000_000_000))
        × (d ≡ begin + handler_seconds p.options.call_timeout agent * 1_000_000_000)
    settings =
        let (same, ctx, call) = run-start-settings c before k conn started-nil found in
        (same ∙ keep_alive_lem hk, deadline_lem conn agent begin d hc ha ctx call until_)

    -- Start a plugin whose options and whose agent's timeout are at most 9223372036 seconds, and let
    -- its manager run through any events. Let `getConn` then hand out a connection of the map at
    -- `t`, and `Export` begin its handler at `begin`, with the deadline `d`. If the time from `t` to
    -- `begin` and the greater of `CallTimeout` and the agent's timeout are together at most
    -- `KeepAlive`, the client is not closed up to `d`, whatever calls and sweeps of others happen
    -- meanwhile, as long as the clock does not run backwards and the plugin is not stopped.
    pub start-keeps_serving :
        (evs : List (Event (ConnId S)))
        → begin + handler_seconds p.options.call_timeout agent * 1_000_000_000
          ≤ t + p.options.keep_alive * 1_000_000_000
        → Until t d evs
        → count conn.client (run (step (run (Schedule.start c) before) (finds k t)) evs).closed ≡ 0
    start-keeps_serving evs fits quiet =
        let s = run (Schedule.start c) before in
        let (set, at) = settings in
        let i = run-Inv (Schedule.start c) before started-Inv in
        (run-keeps_used s k conn t evs i found (
          rw set (
            Until→While t d (p.options.keep_alive * 1_000_000_000) evs (omega (arith, at))
              quiet))).1

    -- Start a plugin whose options and whose agent's timeout are at most 9223372036 seconds, and let
    -- its manager run through any events, after which its housekeeper still runs. Let `getConn` then
    -- hand out a connection of the map at `t`, and `Export` begin its handler at `begin`, with the
    -- deadline `d`, where the handler has at least a second. If the time from `t` to `begin` and the
    -- greater of `CallTimeout` and the agent's timeout are together more than a nanosecond longer
    -- than `KeepAlive`, there is an instant at which the handler has begun and its context has not
    -- expired, and at which a tick of the housekeeper closes the client that the handler holds,
    -- whatever events happened since `t` in which no caller asks for the same key.
    pub start-closes_serving :
        (evs : List (Event (ConnId S)))
        → (run (Schedule.start c) before).running ≡ true
        → Unasked k evs
        → 1 ≤ handler_seconds p.options.call_timeout agent
        → t + p.options.keep_alive * 1_000_000_000 + 1
          < begin + handler_seconds p.options.call_timeout agent * 1_000_000_000
        → let ctx =
            with_timeout conn.ctx begin (effective_timeout conn.call_timeout (some agent)) in
          (now : ℕ) × (begin ≤ now)
          × (context_err ctx now ≡ none)
          × (count conn.client
                (run
                  (step (run (Schedule.start c) before) (finds k t))
                  (evs ++ ticks (λ _. now) ∷ [])).closed
              ≡ 1)
    start-closes_serving evs on quiet some_time late =
        let s = run (Schedule.start c) before in
        let keep = p.options.keep_alive * 1_000_000_000 in
        let ctx = with_timeout conn.ctx begin (effective_timeout conn.call_timeout (some agent)) in
        let (set, at) = settings in
        let i = run-Inv (Schedule.start c) before started-Inv in
        let (now, begun, past, early) =
          moment begin (t + keep + 1) d (omega (arith, at)) (omega (arith, at)) in
        (
          now,
          begun,
          context_err_before ctx d now until_ early,
          late_sweep s k conn t now evs i on found quiet
              (rw set (late_lem keep t now (omega arith))),
        )
