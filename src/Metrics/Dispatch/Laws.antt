-- ===== src/Metrics/Dispatch/Laws.antt =====
-- The table of metrics and the choice of a handler agree.
use zabbix_agent2_plugin_pos.Prelude.{
  String, ◌≡◌, refl, Bool, true, false, Option, none, some, string_eq, arith,
}
use zabbix_agent2_plugin_pos.Prelude.Dict.{lookup}
use zabbix_agent2_plugin_pos.Errors.{Error}
use zabbix_agent2_plugin_pos.Client.Values.{Formats}
use zabbix_agent2_plugin_pos.Handlers.Server.{ping_handler}
use zabbix_agent2_plugin_pos.Metrics.Registry.{metrics}
use zabbix_agent2_plugin_pos.Metrics.Dispatch.{get_handler_func}

abbrev pub is_some {ℓ} : {A : Type ℓ} → Option A → Bool
is_some none = false
is_some (some a) = true

-- A key has a handler exactly if it stands in the table of metrics.
pub get_handler_func_total :
    (W : Type 0) (F : Formats) (wrap_nil : String → Option Error) (key : String)
    → is_some (get_handler_func {W = W} F wrap_nil key) ≡ is_some (lookup key metrics)
unfolding get_handler_func lookup metrics
get_handler_func_total W F wrap_nil key = ground arith

pub get_handler_func-ping :
    (W : Type 0) (F : Formats) (wrap_nil : String → Option Error)
    → get_handler_func {W = W} F wrap_nil "pgsql.ping" ≡ some (ping_handler F)
unfolding get_handler_func string_eq
get_handler_func-ping W F wrap_nil = refl
