-- ===== src/Plugin/Timeouts.antt =====
-- The time that a handler is given: the option `CallTimeout`, the agent's own timeout, and the
-- deadline of the context that they make.
use zabbix_agent2_plugin_pos.Prelude.{
  ℕ, ◌+◌, ◌*◌, ◌≤◌, String, ◌≡◌, ap, ◌∙◌, sym, Option, none, some, ltb, if◌then◌else◌, arith,
}
use zabbix_agent2_plugin_pos.Prelude.Integers.{ℤ, pos, wrap64}
use zabbix_agent2_plugin_pos.Sdk.{Sdk}
use zabbix_agent2_plugin_pos.Conn.Time.{seconds, after, with_timeout}
use zabbix_agent2_plugin_pos.Conn.Manager.{ConnManager, new_conn_manager, new_pg_conn}
use zabbix_agent2_plugin_pos.Conn.Create.{ConnId}
use zabbix_agent2_plugin_pos.Plugin.{Plugin, start, effective_timeout}

-- The greatest number of seconds that a time.Duration holds.
abbrev pub max_seconds : ℕ
max_seconds = 9_223_372_036

pub seconds_lem : (n : ℕ) → n ≤ max_seconds → seconds n ≡ pos (n * 1_000_000_000)
unfolding seconds wrap64
seconds_lem n h = ground arith

effective_timeout_lem :
    (c t : ℕ)
    → c ≤ max_seconds
    → t ≤ max_seconds
    → effective_timeout (seconds c) (some t) ≡ pos ((if ltb c t then t else c) * 1_000_000_000)
unfolding effective_timeout
effective_timeout_lem c t hc ht = rw (seconds_lem c hc) (rw (seconds_lem t ht) (ground arith))

module _ (S : Sdk) where
  -- Take a connection that the plugin's manager makes after `Start`, when the option `CallTimeout`
  -- and the agent's timeout are at most 9223372036 seconds. A handler that begins at `now` gets the
  -- greater of the two: the deadline of its context is that many seconds after `now`, without
  -- overflow.
  pub start-deadline :
      (yarn : String → String → Option (String → Option String)) (p : Plugin S)
      (c : ConnManager (ConnId S)) (client : ℕ) (version : ℤ) (made : ℕ) (address : String)
      (t now : ℕ)
      → (start S yarn p).conn_mgr ≡ some c
      → p.options.call_timeout ≤ max_seconds
      → t ≤ max_seconds
      → let conn = new_pg_conn c client version made address in
        (with_timeout conn.ctx now (effective_timeout conn.call_timeout (some t))).deadline
        ≡ some (
            now
            + (if ltb p.options.call_timeout t then t else p.options.call_timeout) * 1_000_000_000)
  unfolding start new_conn_manager new_pg_conn with_timeout after
  start-deadline yarn p c client version made address t now h hc ht =
      let set : seconds p.options.call_timeout ≡ c.call_timeout =
        ap (λ o. elim o [ none ↦ pos 0 | some m ↦ m.call_timeout ]) h in
      let d =
        ap (λ call. effective_timeout call (some t)) (sym set)
        ∙ effective_timeout_lem p.options.call_timeout t hc ht in
      ap (λ d. some (after now d)) d
