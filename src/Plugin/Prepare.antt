-- ===== src/Plugin/Prepare.antt =====
-- When `Export` comes as far as asking for a connection.
use zabbix_agent2_plugin_pos.Prelude.{
  Eq, ℕ, ◌⊎◌, String, ◌≡◌, refl, ap, ◌↔◌, inl, inr, false, not, ◌&&◌, Bool-cases, Option, some,
  Option-cases, List, ◌==◌, string_eq,
}
use zabbix_agent2_plugin_pos.Prelude.Dict.{Dict, lookup}
use zabbix_agent2_plugin_pos.Errors.{Error, ok, err, panic, and_then-inverse, Result-cases}
use zabbix_agent2_plugin_pos.Client.Values.{Formats}
use zabbix_agent2_plugin_pos.Sdk.{Sdk}
use zabbix_agent2_plugin_pos.Conn.Create.{ConnId, Url, create_conn_id}
use zabbix_agent2_plugin_pos.Config.{PluginOptions}
use zabbix_agent2_plugin_pos.Handlers.Fetch.{HandlerFunc}
use zabbix_agent2_plugin_pos.Metrics.Registry.{Metric, metrics}
use zabbix_agent2_plugin_pos.Metrics.Dispatch.{get_handler_func}
use zabbix_agent2_plugin_pos.Metrics.Dispatch.Laws.{is_some, get_handler_func_total}
use zabbix_agent2_plugin_pos.Plugin.{MetricSdk, Plugin, Request, or_error, prepare, export}
use zabbix_agent2_plugin_pos.Plugin.Laws.{export_refuses}
use zabbix_agent2_plugin_pos.Plugin.Ping.{or_error-inverse}
use zabbix_agent2_plugin_pos.Conn.Query.{Sql}
use zabbix_agent2_plugin_pos.Metrics.Keys.{key_custom_query}

-- A key of the table has a handler.
handler_of :
    (W : Type 0) (F : Formats) (wrap_nil : String → Option Error) (key : String) (m : Metric)
    → lookup key metrics ≡ some m
    → (h : HandlerFunc W) × (get_handler_func F wrap_nil key ≡ some h)
handler_of W F wrap_nil key m found =
    elim (Option-cases (get_handler_func {W = W} F wrap_nil key)) [
      | inl missing ↦
          let same = get_handler_func_total W F wrap_nil key in
          cc (ap is_some missing, ap is_some found, same)
      | inr there ↦ there
    ]

module _ (S : Sdk) (M : MetricSdk) (U : Url) where
  -- The steps before the choice of a handler succeed.
  abbrev pub Accepted : PluginOptions → String → List String → Type 0
  Accepted options key raw =
      ((key == key_custom_query && not options.custom_queries_enabled) ≡ false)
      × (m : Metric) × (lookup key metrics ≡ some m)
      × (params : Dict String String) × (extra : List String) × (hc : M.Hardcoded) × (M.eval_params
            m raw options.sessions
          ≡ ok (params, extra, hc))
      × (params' : Dict String String) × (M.set_defaults params hc options.default ≡ ok params')
      × (id : ConnId S) × (create_conn_id S U params' ≡ ok id)

module _ (S : Sdk) (M : MetricSdk) (U : Url) (F : Formats) {W : Type 0} where
  prepare-Accepted :
      (options : PluginOptions) (key : String) (raw : List String) (req : Request S W)
      → prepare S M U F options key raw ≡ ok req
      → Accepted S M U options key raw
  unfolding prepare
  prepare-Accepted options key raw req h =
      elim (Bool-cases (key == key_custom_query && not options.custom_queries_enabled)) [
        | inl off ↦ cc (rw (prepare, off) at h)
        | inr on ↦
            let (m, looked, h1) =
              and_then-inverse (or_error _ (lookup key metrics)) _ req (rw (prepare, on) at h) in
            let found = or_error-inverse _ (lookup key metrics) m looked in
            let ((params, extra, hc), evaluated, h2) =
              and_then-inverse (M.eval_params m raw options.sessions) _ req h1 in
            let (params', defaults, h3) =
              and_then-inverse (M.set_defaults params hc options.default) _ req h2 in
            let (id, made, _) = and_then-inverse (create_conn_id S U params') _ req h3 in
            (on, m, found, params, extra, hc, evaluated, params', defaults, id, made)
      ]

  Accepted-prepare :
      (options : PluginOptions) (key : String) (raw : List String)
      → Accepted S M U options key raw
      → (req : Request S W) × (prepare S M U F options key raw ≡ ok req)
  unfolding prepare
  Accepted-prepare options key raw
        (on, m, found, params, extra, hc, evaluated, params', defaults, id, made) =
      let (h, handled) = handler_of W F S.wrap_nil key m found in
      (
        record { conn_id = id; params = params'; extra = extra; handle_metric = h },
        rw (prepare, on) (rw found (rw evaluated (rw defaults (rw made (rw handled refl))))),
      )

  -- `Export` comes to its connection exactly if the key stands in the table of metrics and is no
  -- disabled custom query, and the SDK's EvalParams and SetDefaults and `createConnID` succeed: a
  -- key of the table never fails for want of a handler.
  pub prepare_iff :
      (options : PluginOptions) (key : String) (raw : List String)
      → ((req : Request S W) × (prepare S M U F options key raw ≡ ok req))
        ↔ Accepted S M U options key raw
  prepare_iff options key raw =
      (λ (req, h). prepare-Accepted options key raw req h, Accepted-prepare options key raw)

  module _ (D : Sql W) (iterate : Dict String String → Dict String String) ⦃e : Eq (ConnId S)⦄ where
    -- Where EvalParams, SetDefaults or `createConnID` fails, or the key is unknown or a disabled
    -- custom query, `Export`
    -- answers an error, unless a step panics, and leaves the plugin, its connections and the world
    -- as they are.
    pub export_refused :
        (p : Plugin S) (key : String) (raw : List String) (timeout : Option ℕ) (w : W)
        → ¬ Accepted S M U p.options key raw
        → ((x : Error) × (export S M U F D iterate key raw timeout (p, w) ≡ (err x, (p, w))))
          ⊎ (export S M U F D iterate key raw timeout (p, w) ≡ (panic, (p, w)))
    unfolding export
    export_refused p key raw timeout w refused =
        elim (Result-cases (prepare S M U F {W = W} p.options key raw)) [
          | inl (req, h) ↦ absurd (refused (prepare-Accepted p.options key raw req h))
          | inr (inl (x, h)) ↦ inl (x, export_refuses S M U F D iterate p key raw timeout w x h)
          | inr (inr h) ↦ inr (rw (export, h) refl)
        ]
