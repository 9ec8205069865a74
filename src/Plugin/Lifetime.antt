-- ===== src/Plugin/Lifetime.antt =====
-- plugin/postgresql.go with plugin/conn.go: the plugin from `Start` to `Stop`. Calls of `Export`
-- come one after the other, with the housekeeper's sweeps between them; after `Stop` the
-- housekeeper handles the end of its context.
pub mod Laws
use zabbix_agent2_plugin_pos.Prelude.{ℕ, String, Option, none, some, List, [], ◌∷◌, Eq}
use zabbix_agent2_plugin_pos.Prelude.Dict.{Dict}
use zabbix_agent2_plugin_pos.Errors.{Result, ok, err, panic}
use zabbix_agent2_plugin_pos.Client.Values.{Formats}
use zabbix_agent2_plugin_pos.Sdk.{Sdk}
use zabbix_agent2_plugin_pos.Conn.Manager.{ConnManager, close_unused, close_all}
use zabbix_agent2_plugin_pos.Conn.Query.{Sql}
use zabbix_agent2_plugin_pos.Conn.Create.{ConnId, Url}
use zabbix_agent2_plugin_pos.Plugin.{MetricSdk, Plugin, export, stop}

-- What reaches a plugin that runs.
pub data Doing (K : Type 0) : Type 0 where
  -- `Export` of a key, its raw parameters and the agent's timeout.
  asked : String → List String → Option ℕ → Doing K
  -- The housekeeper's ticker, with what the clock reads at each connection.
  swept : (K → ℕ) → Doing K

-- `Close` of the handles that a loop over the map has come to. The order is the runtime's; here
-- the last one is closed first.
abbrev pub close_handles : {W : Type 0} → Sql W → List ℕ → W → W
close_handles D [] w = w
close_handles D (h ∷ hs) w = D.close h (close_handles D hs w)

module _ {W : Type 0} (D : Sql W) (S : Sdk) where
  abbrev pub sweep_with :
      (ConnId S → ℕ) → Plugin S → W → Option (ConnManager (ConnId S)) → Plugin S × W
  sweep_with clock p w none = (p, w)
  sweep_with clock p w (some c) =
      let (c', closed) = close_unused c clock in
      (record p { conn_mgr = some c' }, close_handles D closed w)

  -- `housekeeper`, at a tick: the manager that the plugin points to is swept.
  unfoldable pub sweep_plugin : (ConnId S → ℕ) → Plugin S × W → Plugin S × W
  sweep_plugin clock (p, w) = sweep_with clock p w p.conn_mgr

  abbrev pub shut_with :
      Plugin S → W → Option (ConnManager (ConnId S)) → Result (Plugin S) → Result (Plugin S) × W
  shut_with p w none r = (r, w)
  shut_with p w (some c) r = (r, close_handles D (close_all c).1 w)

  -- `Stop`, and the housekeeper's last pass over the manager that it still points to.
  unfoldable pub shut : Plugin S × W → Result (Plugin S) × W
  unfolding stop
  shut (p, w) = shut_with p w p.conn_mgr (stop S p)

  module _ (M : MetricSdk) (U : Url) (F : Formats)
      (iterate : Dict String String → Dict String String) ⦃e : Eq (ConnId S)⦄ where
    unfoldable pub live : List (Doing (ConnId S)) → Plugin S × W → Plugin S × W
    unfolding sweep_plugin
    live [] pw = pw
    live (asked key raw timeout ∷ doings) pw =
        live doings (export S M U F D iterate key raw timeout pw).1
    live (swept clock ∷ doings) pw = live doings (sweep_plugin clock pw)
