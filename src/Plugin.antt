-- ===== src/Plugin.antt =====
-- plugin/postgresql.go: `Plugin`, with `Start`, `Stop`, `setCustomQuery` and `Export`. Logging is
-- left out. The manager's goroutines are in `Conn.Manager.Schedule`; here one call runs alone.
pub mod Laws
pub mod Ping
pub mod Timeouts
pub mod Prepare
pub mod Refinement
pub mod Lifetime
pub mod Serving
use zabbix_agent2_plugin_pos.Prelude.{
  ℕ, String, ◌<>◌, Bool, true, false, not, ◌&&◌, Option, none, some, List, [], ◌∷◌, Eq, ◌==◌,
  string_eq, if◌then◌else◌,
}
use zabbix_agent2_plugin_pos.Prelude.Dict.{Dict, lookup}
use zabbix_agent2_plugin_pos.Prelude.Integers.{ℤ, ltb_ℤ}
use zabbix_agent2_plugin_pos.Errors.{
  Error, wrap, new, const, unsupported_metric, is_deadline_exceeded, Result, ok, err, panic, Act,
  and_then,
}
use zabbix_agent2_plugin_pos.Client.Values.{Formats}
use zabbix_agent2_plugin_pos.Sdk.{Sdk}
use zabbix_agent2_plugin_pos.Conn.Time.{Context, seconds, with_timeout, context_err}
use zabbix_agent2_plugin_pos.Conn.Manager.{PgConn, ConnManager, new_conn_manager}
use zabbix_agent2_plugin_pos.Conn.Query.{Sql, pg_client, sql_ext}
use zabbix_agent2_plugin_pos.Conn.Create.{ConnId, Url, create_conn_id, get_connection}
use zabbix_agent2_plugin_pos.Config.{Session, PluginOptions}
use zabbix_agent2_plugin_pos.Handlers.Fetch.{Answer, HandlerFunc}
use zabbix_agent2_plugin_pos.Handlers.Server.{ping_failed}
use zabbix_agent2_plugin_pos.Metrics.Registry.{Metric, metrics}
use zabbix_agent2_plugin_pos.Metrics.Dispatch.{get_handler_func}
use zabbix_agent2_plugin_pos.Metrics.Keys.{key_custom_query, key_ping}

-- The package metric of the SDK: `EvalParams` of a metric, the raw parameters and the sessions
-- gives the named and the extra parameters and what was written in the key; `SetDefaults` fills in
-- the configured defaults.
pub record MetricSdk : Type 1 where
  pub Hardcoded : Type 0
  pub eval_params :
      Metric
      → List String
      → Dict String Session
      → Result (Dict String String × List String × Hardcoded)
  pub set_defaults : Dict String String → Hardcoded → Session → Result (Dict String String)

-- `timeout` of `Export`: the connection's, or a longer one of the agent's context.
unfoldable pub effective_timeout : ℤ → Option ℕ → ℤ
unfolding seconds
effective_timeout call none = call
effective_timeout call (some t) = if ltb_ℤ call (seconds t) then seconds t else call

-- `setCustomQuery`: `yarn` is yarn.New of a directory and a pattern, `none` on its error, which is
-- logged; an empty storage answers none.
unfoldable pub set_custom_query :
    (String → String → Option (String → Option String)) → PluginOptions → String → Option String
set_custom_query yarn options =
    if options.custom_queries_path == ""
    then (λ _. none)
    else elim (yarn options.custom_queries_path ("*" <> sql_ext)) [
      | some storage ↦ storage
      | none ↦ λ _. none
    ]

abbrev pub or_error : {A : Type 0} → Error → Option A → Result A
or_error e none = err e
or_error e (some a) = ok a

-- The error of a handler, which a passed deadline replaces.
abbrev pub handler_error : Option Error → Error → Error
handler_error none e = e
handler_error (some c) e =
    if is_deadline_exceeded c then new "query execution timeout exceeded" else e

module _ (S : Sdk) where
  pub record Plugin : Type 0 where
    -- `nil` before `Start` and after `Stop`.
    pub conn_mgr : Option (ConnManager (ConnId S))
    pub options : PluginOptions

  -- `Start`
  unfoldable pub start : (String → String → Option (String → Option String)) → Plugin → Plugin
  unfolding new_conn_manager seconds set_custom_query
  start yarn p = record p {
    conn_mgr = some (
        new_conn_manager (seconds p.options.keep_alive) (seconds p.options.timeout)
          (seconds p.options.call_timeout) (set_custom_query yarn p.options));
  }

  -- `Stop`, which panics on a nil manager; `Destroy` is the event of `Schedule`.
  unfoldable pub stop : Plugin → Result Plugin
  stop p = elim p.conn_mgr [ none ↦ panic | some c ↦ ok (record p { conn_mgr = none }) ]

  -- What `Export` has worked out before it asks for a connection.
  pub record Request (W : Type 0) : Type 0 where
    pub conn_id : ConnId S
    pub params : Dict String String
    pub extra : List String
    pub handle_metric : HandlerFunc W

  module _ (M : MetricSdk) (U : Url) (F : Formats) where
    -- `Export` up to `GetConnection`.
    unfoldable pub prepare :
        {W : Type 0} → PluginOptions → String → List String → Result (Request W)
    unfolding lookup
    prepare options key raw =
        if key == key_custom_query && not options.custom_queries_enabled
        then err (new ("key " <> F.quote key_custom_query <> " is disabled"))
        else and_then
            (or_error (wrap (const unsupported_metric) ("unknown metric " <> F.quote key))
              (lookup key metrics))
            λ m. and_then (M.eval_params m raw options.sessions) λ (params, extra, hc).
              and_then (M.set_defaults params hc options.default) λ params'.
                and_then (create_conn_id S U params') λ id.
                  and_then (or_error (const unsupported_metric) (get_handler_func F S.wrap_nil key))
                    λ h.
                      ok (record {
                        conn_id = id;
                        params = params';
                        extra = extra;
                        handle_metric = h;
                      })

    module _ {W : Type 0} (D : Sql W) (iterate : Dict String String → Dict String String)
        ⦃e : Eq (ConnId S)⦄ where
      -- `Export` behind `GetConnection`: the handler under its timeout.
      unfoldable pub handle : Request W → String → Option ℕ → PgConn → Act W Answer
      unfolding effective_timeout with_timeout pg_client context_err
      handle req key timeout conn w =
          let ctx = with_timeout conn.ctx (D.now w) (effective_timeout conn.call_timeout timeout) in
          let (r, w') = req.handle_metric (pg_client D F conn ctx) key req.params req.extra w in
          elim r [
            | ok a ↦ (ok a, w')
            | err e ↦ (err (handler_error (context_err ctx (D.now w')) e), w')
            | panic ↦ (panic, w')
          ]

      -- `Export` from `GetConnection` on, with a manager.
      unfoldable pub serve :
          Request W
          → String
          → Option ℕ
          → ConnManager (ConnId S)
          → W
          → Result Answer × (ConnManager (ConnId S) × W)
      serve req key timeout c w =
          let (r, cw) = get_connection S U D F iterate req.conn_id req.params (c, w) in
          elim r [
            | ok conn ↦ let (a, w') = handle req key timeout conn cw.1 in (a, (cw.0, w'))
            | err e ↦ (if key == key_ping then ok (Answer.int ping_failed) else err e, cw)
            | panic ↦ (panic, cw)
          ]

      abbrev with_manager :
          Plugin
          → String
          → Option ℕ
          → W
          → Request W
          → Option (ConnManager (ConnId S))
          → Result Answer × (Plugin × W)
      with_manager p key timeout w req none = (panic, (p, w))
      with_manager p key timeout w req (some c) =
          let (a, cw) = serve req key timeout c w in (a, (record p { conn_mgr = some cw.0 }, cw.1))

      -- `Export`; the agent's context is its timeout in seconds, if there is one.
      unfoldable pub export :
          String → List String → Option ℕ → Plugin × W → Result Answer × (Plugin × W)
      export key raw timeout (p, w) = elim (prepare p.options key raw) [
        | ok req ↦ with_manager p key timeout w req p.conn_mgr
        | err e ↦ (err e, (p, w))
        | panic ↦ (panic, (p, w))
      ]
