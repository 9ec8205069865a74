-- ===== src/Examples/Exports.antt =====
-- Runs of the theorems on `Export`.
use zabbix_agent2_plugin_pos.Prelude.{ℕ, ◌≡◌, ◌↔◌, ◌⊎◌, refl, none, some, [], ◌∷◌, string_eq}
use zabbix_agent2_plugin_pos.Prelude.Dict.{lookup, get}
use zabbix_agent2_plugin_pos.Errors.{Error, ok, err, panic}
use zabbix_agent2_plugin_pos.Config.{zero_options}
use zabbix_agent2_plugin_pos.Conn.Create.{create_conn_id}
use zabbix_agent2_plugin_pos.Handlers.Server.{ping_handler}
use zabbix_agent2_plugin_pos.Metrics.Registry.{metrics}
use zabbix_agent2_plugin_pos.Metrics.Dispatch.{get_handler_func}
use zabbix_agent2_plugin_pos.Plugin.{Plugin, Request, prepare, export}
use zabbix_agent2_plugin_pos.Plugin.Ping.{Pinged, export-Pinged}
use zabbix_agent2_plugin_pos.Plugin.Prepare.{Accepted, prepare_iff, export_refused}
use zabbix_agent2_plugin_pos.Examples.Samples.{
  formats, database, sdk, url, metric_sdk, conn_id_eq, no_connections,
}

abbrev plugin : Plugin sdk
plugin = record { conn_mgr = some no_connections; options = zero_options }

abbrev ping_request : Request sdk ℕ
ping_request = record {
  conn_id = record { uri = "?dbname="; cache_mode = "" };
  params = [];
  extra = [];
  handle_metric = ping_handler formats;
}

prepared : prepare sdk metric_sdk url formats zero_options "pgsql.ping" [] ≡ ok ping_request
unfolding prepare lookup metrics create_conn_id get get_handler_func string_eq
prepared = refl

export-Pinged_example :
    Pinged (export sdk metric_sdk url formats database (λ d. d) "pgsql.ping" [] none (plugin, 0)).0
export-Pinged_example =
    export-Pinged sdk metric_sdk url formats database (λ d. d) plugin [] none 0 ping_request
      no_connections prepared refl

-- A custom query, which the options of the plugin disable.
export_refused_example :
    ((x : Error) × (export sdk metric_sdk url formats database
          (λ d. d)
          "pgsql.custom.query"
          ("q" ∷ [])
          none
          (plugin, 0)
        ≡ (err x, (plugin, 0))))
    ⊎ (export sdk metric_sdk url formats database
          (λ d. d)
          "pgsql.custom.query"
          ("q" ∷ [])
          none
          (plugin, 0)
        ≡ (panic, (plugin, 0)))
unfolding string_eq
export_refused_example =
    export_refused sdk metric_sdk url formats database (λ d. d) plugin "pgsql.custom.query"
      ("q" ∷ []) none 0 (λ accepted. cc (accepted.0))

prepare_iff_example :
    ((req : Request sdk ℕ) × (prepare sdk metric_sdk url formats plugin.options "pgsql.ping" []
        ≡ ok req))
    ↔ Accepted sdk metric_sdk url plugin.options "pgsql.ping" []
prepare_iff_example = prepare_iff sdk metric_sdk url formats plugin.options "pgsql.ping" []
