-- ===== src/Plugin/Laws.antt =====
-- What `Export` answers, whatever the database and the SDK do.
use zabbix_agent2_plugin_pos.Prelude.{
  ℕ, String, ◌<>◌, ◌≡◌, refl, false, inl, inr, Option, some, List, Eq, ◌==◌, ==_refl, string_eq,
  leb, Bool-cases, if◌then◌else◌,
}
use zabbix_agent2_plugin_pos.Prelude.Dict.{Dict}
use zabbix_agent2_plugin_pos.Errors.{Error, ok, err, new, is_deadline_exceeded}
use zabbix_agent2_plugin_pos.Client.Values.{Formats}
use zabbix_agent2_plugin_pos.Sdk.{Sdk}
use zabbix_agent2_plugin_pos.Conn.Time.{with_timeout, context_err}
use zabbix_agent2_plugin_pos.Conn.Manager.{PgConn, ConnManager}
use zabbix_agent2_plugin_pos.Conn.Query.{Sql, pg_client}
use zabbix_agent2_plugin_pos.Conn.Create.{ConnId, Url, get_connection}
use zabbix_agent2_plugin_pos.Handlers.Fetch.{Answer}
use zabbix_agent2_plugin_pos.Handlers.Server.{ping_failed}
use zabbix_agent2_plugin_pos.Plugin.{
  MetricSdk, Plugin, Request, effective_timeout, prepare, handle, serve, export,
}

module _ (S : Sdk) (M : MetricSdk) (U : Url) (F : Formats) {W : Type 0} (D : Sql W)
    (iterate : Dict String String → Dict String String) ⦃e : Eq (ConnId S)⦄ where
  -- A custom query that the configuration disables is refused before anything else: the plugin
  -- and the world stay as they are.
  pub export_disabled :
      (p : Plugin S) (raw : List String) (timeout : Option ℕ) (w : W)
      → p.options.custom_queries_enabled ≡ false
      → export S M U F D iterate "pgsql.custom.query" raw timeout (p, w)
        ≡ (err (new ("key " <> F.quote "pgsql.custom.query" <> " is disabled")), (p, w))
  unfolding export prepare
  export_disabled p raw timeout w off =
      rw (export, prepare, ==_refl {A = String} "pgsql.custom.query") (simp off)

  -- What `prepare` refuses leaves the plugin and the world as they are.
  pub export_refuses :
      (p : Plugin S) (key : String) (raw : List String) (timeout : Option ℕ) (w : W) (e : Error)
      → prepare S M U F {W = W} p.options key raw ≡ err e
      → export S M U F D iterate key raw timeout (p, w) ≡ (err e, (p, w))
  unfolding export
  export_refuses p key raw timeout w e h = rw (export, h) refl

  -- Without a connection `pgsql.ping` answers 0, every other key the error.
  pub serve_unconnected :
      (req : Request S W) (key : String) (timeout : Option ℕ) (c : ConnManager (ConnId S)) (w : W)
      (e : Error) (c' : ConnManager (ConnId S)) (w' : W)
      → get_connection S U D F iterate req.conn_id req.params (c, w) ≡ (err e, (c', w'))
      → serve S M U F D iterate req key timeout c w
        ≡ ((if key == "pgsql.ping" then ok (Answer.int ping_failed) else err e), (c', w'))
  unfolding serve
  serve_unconnected req key timeout c w e c' w' h = rw (serve, h) cc

  -- A handler's error is the error of the call, unless the deadline of the call has passed: then
  -- it is the text "query execution timeout exceeded".
  handle_timeout :
      (req : Request S W) (key : String) (timeout : Option ℕ) (conn : PgConn) (w w' : W)
      (e' : Error) (t : ℕ)
      → let ctx = with_timeout conn.ctx (D.now w) (effective_timeout conn.call_timeout timeout) in
        ctx.deadline ≡ some t
        → req.handle_metric (pg_client D F conn ctx) key req.params req.extra w ≡ (err e', w')
        → handle S M U F D iterate req key timeout conn w
          ≡ (err (if leb t (D.now w') then new "query execution timeout exceeded" else e'), w')
  unfolding handle is_deadline_exceeded
  handle_timeout req key timeout conn w w' e' t d h =
      rw (handle, h)
        (rw (h, context_err, d, h)
          (elim (Bool-cases (leb t (D.now w'))) [ inl b ↦ rw b refl | inr b ↦ rw b refl ]))
