-- ===== src/Plugin/Ping.antt =====
-- What `Export` answers to `pgsql.ping`.
use zabbix_agent2_plugin_pos.Prelude.{
  ℕ, String, ◌<>◌, ◌≡◌, refl, sym, ap, ◌∙◌, not, ◌&&◌, ◌⊎◌, inl, inr, Option, none, some, List, Eq,
  ◌==◌, ==_refl, string_eq, Bool-cases,
}
use zabbix_agent2_plugin_pos.Prelude.Dict.{Dict, lookup}
use zabbix_agent2_plugin_pos.Errors.{
  Error, wrap, const, unsupported_metric, Result, ok, panic, Result-cases, and_then-inverse,
  ok-injective,
}
use zabbix_agent2_plugin_pos.Client.Values.{Formats}
use zabbix_agent2_plugin_pos.Sdk.{Sdk}
use zabbix_agent2_plugin_pos.Conn.Time.{with_timeout}
use zabbix_agent2_plugin_pos.Conn.Manager.{PgConn, ConnManager}
use zabbix_agent2_plugin_pos.Conn.Query.{Sql, pg_client}
use zabbix_agent2_plugin_pos.Conn.Create.{create_conn_id, ConnId, Url, get_connection}
use zabbix_agent2_plugin_pos.Config.{PluginOptions}
use zabbix_agent2_plugin_pos.Handlers.Fetch.{Answer}
use zabbix_agent2_plugin_pos.Handlers.Server.{ping_ok, ping_failed, ping_handler}
use zabbix_agent2_plugin_pos.Handlers.Server.Laws.{ping_handler_answers}
use zabbix_agent2_plugin_pos.Metrics.Registry.{metrics}
use zabbix_agent2_plugin_pos.Metrics.Dispatch.{get_handler_func}
use zabbix_agent2_plugin_pos.Metrics.Dispatch.Laws.{get_handler_func-ping}
use zabbix_agent2_plugin_pos.Plugin.{
  MetricSdk, Plugin, Request, effective_timeout, or_error, prepare, handle, serve, export,
}
use zabbix_agent2_plugin_pos.Metrics.Keys.{key_custom_query, key_ping}

some-injective : {A : Type 0} (a b : A) → some a ≡ some b → a ≡ b
some-injective a b h = cc

pub or_error-inverse :
    {A : Type 0} (e : Error) (o : Option A) (a : A) → or_error e o ≡ ok a → o ≡ some a
or_error-inverse e none a h = cc
or_error-inverse e (some b) a h = cc

-- The answers of `pgsql.ping`.
abbrev pub Pinged : Result Answer → Type 0
Pinged r = (r ≡ ok (Answer.int ping_ok)) ⊎ (r ≡ ok (Answer.int ping_failed)) ⊎ (r ≡ panic)

module _ (S : Sdk) (M : MetricSdk) (U : Url) (F : Formats) {W : Type 0} (D : Sql W)
    (iterate : Dict String String → Dict String String) ⦃e : Eq (ConnId S)⦄ where
  -- The handler of a request is the one that `getHandlerFunc` gives for its key.
  pub prepare-get_handler_func :
      (options : PluginOptions) (key : String) (raw : List String) (req : Request S W)
      → prepare S M U F options key raw ≡ ok req
      → get_handler_func F S.wrap_nil key ≡ some req.handle_metric
  unfolding prepare
  prepare-get_handler_func options key raw req h =
      elim (Bool-cases (key == key_custom_query && not options.custom_queries_enabled)) [
        | inl b ↦ cc (rw (prepare, b) at h)
        | inr b ↦
            let (m, _, h₁) =
              and_then-inverse
                (or_error (wrap (const unsupported_metric) ("unknown metric " <> F.quote key))
                  (lookup key metrics))
                _ req (rw (prepare, b) at h) in
            let ((params, extra, hc), _, h₂) =
              and_then-inverse (M.eval_params m raw options.sessions) _ req h₁ in
            let (params', _, h₃) =
              and_then-inverse (M.set_defaults params hc options.default) _ req h₂ in
            let (id, _, h₄) = and_then-inverse (create_conn_id S U params') _ req h₃ in
            let (f, q, h₅) =
              and_then-inverse
                (or_error (const unsupported_metric) (get_handler_func F S.wrap_nil key)) _ req
                h₄ in
            or_error-inverse _ _ f q ∙ ap (λ r. some r.handle_metric) (ok-injective _ req h₅)
      ]

  handler_of_ping :
      (options : PluginOptions) (raw : List String) (req : Request S W)
      → prepare S M U F options key_ping raw ≡ ok req
      → req.handle_metric ≡ ping_handler F
  handler_of_ping options raw req h = some-injective _ _ (
      sym (prepare-get_handler_func options key_ping raw req h)
      ∙ get_handler_func-ping W F S.wrap_nil)

  handle-Pinged :
      (req : Request S W) (timeout : Option ℕ) (conn : PgConn) (w : W)
      → req.handle_metric ≡ ping_handler F
      → Pinged (handle S M U F D iterate req key_ping timeout conn w).0
  unfolding handle
  handle-Pinged req timeout conn w same =
      elim ((ping_handler_answers F
        (pg_client D F conn
          (with_timeout conn.ctx (D.now w) (effective_timeout conn.call_timeout timeout)))
        key_ping req.params req.extra w).1) [
          | inl a ↦ inl (rw (handle, same, a) refl)
          | inr (inl a) ↦ inr (inl (rw (handle, same, a) refl))
          | inr (inr a) ↦ inr (inr (rw (handle, same, a) refl))
        ]

  serve-Pinged :
      (req : Request S W) (timeout : Option ℕ) (c : ConnManager (ConnId S)) (w : W)
      → req.handle_metric ≡ ping_handler F
      → Pinged (serve S M U F D iterate req key_ping timeout c w).0
  unfolding serve
  serve-Pinged req timeout c w same =
      elim (Result-cases (get_connection S U D F iterate req.conn_id req.params (c, w)).0) [
        | inl (conn, q) ↦ rw (serve, q) (handle-Pinged req timeout conn _ same)
        | inr (inl (e, q)) ↦ rw (serve, q) (rw (==_refl {A = String} key_ping) (inr (inl refl)))
        | inr (inr q) ↦ rw (serve, q) (inr (inr refl))
      ]

  -- A request for `pgsql.ping` that gets past `prepare` while the plugin runs is answered 1 or 0,
  -- or panics where a part outside panics: no error of the connection, of the query or of the
  -- timeout reaches the caller.
  pub export-Pinged :
      (p : Plugin S) (raw : List String) (timeout : Option ℕ) (w : W) (req : Request S W)
      (c : ConnManager (ConnId S))
      → prepare S M U F p.options key_ping raw ≡ ok req
      → p.conn_mgr ≡ some c
      → Pinged (export S M U F D iterate key_ping raw timeout (p, w)).0
  unfolding export
  export-Pinged p raw timeout w req c h running =
      rw (export, h)
        (rw running (serve-Pinged req timeout c w (handler_of_ping p.options raw req h)))
