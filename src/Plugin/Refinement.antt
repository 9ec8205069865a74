-- ===== src/Plugin/Refinement.antt =====
-- A call of `Export`, with its handler, as a run of the manager's schedule.
use zabbix_agent2_plugin_pos.Prelude.{
  ℕ, String, ◌≡◌, refl, sym, ap, ◌∙◌, ◌≢◌, inl, inr, Bool, Option, some, List, [], Eq, string_eq,
}
use zabbix_agent2_plugin_pos.Prelude.Dict.{Dict}
use zabbix_agent2_plugin_pos.Errors.{Result, ok, err, panic, Result-cases}
use zabbix_agent2_plugin_pos.Client.Values.{Formats}
use zabbix_agent2_plugin_pos.Sdk.{Sdk}
use zabbix_agent2_plugin_pos.Conn.Time.{with_timeout}
use zabbix_agent2_plugin_pos.Conn.Manager.{PgConn, ConnManager}
use zabbix_agent2_plugin_pos.Conn.Manager.Schedule.{Event, run}
use zabbix_agent2_plugin_pos.Conn.Query.{Sql, pg_client}
use zabbix_agent2_plugin_pos.Conn.Create.{ConnId, Url, get_connection}
use zabbix_agent2_plugin_pos.Conn.Create.Ledger.{Ledger, shown, get_connection-shown}
use zabbix_agent2_plugin_pos.Handlers.Fetch.{Answer}
use zabbix_agent2_plugin_pos.Metrics.Dispatch.{get_handler_func}
use zabbix_agent2_plugin_pos.Metrics.Dispatch.Quiet.{
  QuietSql, pg_client-Quiet, get_handler_func-Quiet,
}
use zabbix_agent2_plugin_pos.Plugin.{
  MetricSdk, Plugin, Request, effective_timeout, prepare, handle, serve, export,
}
use zabbix_agent2_plugin_pos.Plugin.Ping.{prepare-get_handler_func}

module _ {W : Type 0} (D : Sql W) (L : Ledger D) where
  -- The handles given out and taken back.
  abbrev handles : W → ℕ × List ℕ
  handles w = (L.opened w, L.closed w)

  handles-QuietSql : QuietSql handles D
  handles-QuietSql = record {
    query_context = λ h ctx sql args. record {
      at = λ w. let (p, q) = L.query_context h ctx sql args w in λ i. (p i, q i);
    };
    query_row_context =
        λ h ctx sql args w. let (p, q) = L.query_row_context h ctx sql args w in λ i. (p i, q i);
  }

  module _ (S : Sdk) (M : MetricSdk) (U : Url) (F : Formats)
      (iterate : Dict String String → Dict String String) ⦃e : Eq (ConnId S)⦄ where
    handle-handles :
        (req : Request S W) (key : String) (timeout : Option ℕ) (conn : PgConn) (w : W)
        → get_handler_func F S.wrap_nil key ≡ some req.handle_metric
        → handles (handle S M U F D iterate req key timeout conn w).1 ≡ handles w
    unfolding handle
    handle-handles req key timeout conn w found =
        let ctx = with_timeout conn.ctx (D.now w) (effective_timeout conn.call_timeout timeout) in
        let quiet =
          get_handler_func-Quiet handles F S.wrap_nil key req.handle_metric found
            (pg_client D F conn ctx) key req.params req.extra
            (pg_client-Quiet handles D F conn ctx handles-QuietSql) in
        elim (Result-cases
          (req.handle_metric (pg_client D F conn ctx) key req.params req.extra w).0) [
            | inl (a, h) ↦ rw (handle, h) (quiet.at w)
            | inr (inl (x, h)) ↦ rw (handle, h) (quiet.at w)
            | inr (inr h) ↦ rw (handle, h) (quiet.at w)
          ]

    serve-shown :
        (running : Bool) (req : Request S W) (key : String) (timeout : Option ℕ)
        (c c' : ConnManager (ConnId S)) (w w' : W) (a : Result Answer)
        → get_handler_func F S.wrap_nil key ≡ some req.handle_metric
        → a ≢ panic
        → serve S M U F D iterate req key timeout c w ≡ (a, (c', w'))
        → (evs : List (Event (ConnId S))) × (run (shown D L running c w) evs
            ≡ shown D L running c' w')
    unfolding serve
    serve-shown running req key timeout c c' w w' a found calm h =
        let (r, (c₁, w₁)) = get_connection S U D F iterate req.conn_id req.params (c, w) in
        elim (Result-cases (get_connection S U D F iterate req.conn_id req.params (c, w)).0) [
          | inl (conn, g) ↦
              let (evs, same) =
                get_connection-shown D L S U F iterate running c c₁ req.conn_id req.params w w₁
                  (ok conn) (λ bad. cc) (λ i. (g i, (c₁, w₁))) in
              let kept = handle-handles req key timeout conn w₁ found in
              let after = ap (λ t. shown D L running t.1.0 t.1.1) (rw (serve, g) at h) in
              (
                evs,
                same
                    ∙ sym (
                        ap
                          (λ x. record {
                            manager = c₁;
                            in_flight = [];
                            opened = x.0;
                            closed = x.1;
                            running = running;
                          })
                          kept)
                    ∙ after,
              )
          | inr (inl (x, g)) ↦
              let (evs, same) =
                get_connection-shown D L S U F iterate running c c₁ req.conn_id req.params w w₁
                  (err x) (λ bad. cc) (λ i. (g i, (c₁, w₁))) in
              (evs, same ∙ ap (λ t. shown D L running t.1.0 t.1.1) (rw (serve, g) at h))
          | inr (inr g) ↦ absurd (calm (ap (λ t. t.0) (sym (rw (serve, g) at h))))
        ]

    -- Take a running plugin and a world whose ledger gives out handles in order, and let `Export` of
    -- any metric run alone. Unless it panics, the plugin keeps a manager, and there is a run of the
    -- schedule from the state shown before the call to the state shown after it: the handler
    -- neither opens nor closes a client, and what the connecting opens and closes is that of the run.
    pub export-shown :
        (running : Bool) (p p' : Plugin S) (key : String) (raw : List String) (timeout : Option ℕ)
        (c : ConnManager (ConnId S)) (w w' : W) (a : Result Answer)
        → p.conn_mgr ≡ some c
        → a ≢ panic
        → export S M U F D iterate key raw timeout (p, w) ≡ (a, (p', w'))
        → (c' : ConnManager (ConnId S)) × (evs : List (Event (ConnId S))) × (p'.conn_mgr ≡ some c')
          × (run (shown D L running c w) evs ≡ shown D L running c' w')
    unfolding export run
    export-shown running p p' key raw timeout c w w' a up calm h =
        elim (Result-cases (prepare S M U F {W = W} p.options key raw)) [
          | inr (inl (x, q)) ↦
              let h' = rw (export, q) at h in
              (
                c,
                [],
                ap (λ t. t.1.0.conn_mgr) (sym h') ∙ up,
                ap (λ t. shown D L running c t.1.1) h',
              )
          | inr (inr q) ↦ absurd (calm (ap (λ t. t.0) (sym (rw (export, q) at h))))
          | inl (req, q) ↦
              let (s, (c₁, w₁)) = serve S M U F D iterate req key timeout c w in
              let h' = rw (export, q, up) at h in
              let found = prepare-get_handler_func S M U F D iterate p.options key raw req q in
              let (evs, same) =
                serve-shown running req key timeout c c₁ w w₁ s found
                  (λ bad. calm (sym (ap (λ t. t.0) h') ∙ bad)) refl in
              (
                c₁,
                evs,
                ap (λ t. t.1.0.conn_mgr) (sym h'),
                same ∙ ap (λ t. shown D L running c₁ t.1.1) h',
              )
        ]
