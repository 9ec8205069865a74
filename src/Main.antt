-- ===== src/Main.antt =====
-- main.go, and `init` of plugin/metrics.go: the steps of the program, each of which is a call of
-- the SDK, and how the process ends.
pub mod Laws
use zabbix_agent2_plugin_pos.Prelude.{
  ℕ, String, ◌<>◌, Bool, Option, none, some, List, [], ◌∷◌, if◌then◌else◌,
}
use zabbix_agent2_plugin_pos.Prelude.Dict.{Dict}
use zabbix_agent2_plugin_pos.Errors.{Error, wrap, Result, ok, err, panic}
use zabbix_agent2_plugin_pos.Metrics.Registry.{Metric, metrics}

-- `plugin.Info`
pub record Info : Type 0 where
  pub name : String
  pub bin_name : String
  pub copyright_message : String
  pub major_version : ℕ
  pub minor_version : ℕ
  pub patch_version : ℕ
  pub alphatag : String

-- The packages flag, container, log and plugin of the SDK, over the world `W`; an error that is
-- nil is `none`. `exits_gracefully` is errors.Is(err, errs.ErrExitGracefully).
pub record Agent (W : Type 0) : Type 1 where
  pub Args : Type 0
  pub Handler : Type 0
  pub handle_flags : W → Result Args × W
  pub decide_action_from_flags : Args → Info → W → Option Error × W
  pub new_handler : String → W → Result Handler × W
  pub execute : Handler → W → Option Error × W
  pub exits_gracefully : Error → Bool
  -- The text of an error.
  pub error : Error → String
  -- log.Open with its arguments in `init`, and plugin.RegisterMetrics of the name and the table.
  pub open_log : W → Option Error × W
  pub register_metrics : String → Dict String Metric → W → Option Error × W

-- The plugin's name in plugin/postgresql.go.
abbrev pub plugin_name : String
plugin_name = "PostgreSQL"

abbrev copyright_message : String
copyright_message =
    "Copyright (C) 2025 Zabbix SIA\n"
    <> "License AGPLv3: GNU Affero General Public License version 3 <https://www.gnu.org/licenses/>.\n"
    <> "This is free software: you are free to change and redistribute it according to\n"
    <> "the license. There is NO WARRANTY, to the extent permitted by law."

abbrev plugin_version_major : ℕ
plugin_version_major = 8

abbrev plugin_version_minor : ℕ
plugin_version_minor = 0

abbrev plugin_version_patch : ℕ
plugin_version_patch = 0

abbrev plugin_version_rc : String
plugin_version_rc = "alpha1"

abbrev pub plugin_info : String → Info
plugin_info arg0 = record {
  name = plugin_name;
  bin_name = arg0;
  copyright_message = copyright_message;
  major_version = plugin_version_major;
  minor_version = plugin_version_minor;
  patch_version = plugin_version_patch;
  alphatag = plugin_version_rc;
}

-- How the process ends: its exit code and what it wrote to stderr, or a panic.
pub data Ended : Type 0 where
  exited : ℕ → List String → Ended
  panicked : Ended

module _ {W : Type 0} (A : Agent W) where
  -- `exitWithError`
  abbrev pub exit_with_error : Error → Ended
  exit_with_error e = exited 1 ((A.error e <> "\n") ∷ [])

  -- `exitGracefully`
  abbrev pub exit_gracefully : Ended
  exit_gracefully = exited 0 []

  abbrev pub executed : Option Error → Ended
  executed none = exited 0 []
  executed (some e) = exit_with_error (wrap e "failed to execute plugin handler: ")

  abbrev pub run_handler : Result A.Handler × W → Ended × W
  run_handler (ok h, w) = let (r, w') = A.execute h w in (executed r, w')
  run_handler (err e, w) = (exit_with_error (wrap e "failed to create plugin handler: "), w)
  run_handler (panic, w) = (panicked, w)

  abbrev pub act : Option Error × W → Ended × W
  act (none, w) = run_handler (A.new_handler plugin_name w)
  act (some e, w) =
      if A.exits_gracefully e
      then (exit_gracefully, w)
      else (exit_with_error (wrap e "failed to execute plugin functions: "), w)

  abbrev pub decide : String → Result A.Args × W → Ended × W
  decide arg0 (ok args, w) = act (A.decide_action_from_flags args (plugin_info arg0) w)
  decide arg0 (err e, w) = (exit_with_error (wrap e "failed to handle flags: "), w)
  decide arg0 (panic, w) = (panicked, w)

  -- `main`
  unfoldable pub main : String → W → Ended × W
  main arg0 w = decide arg0 (A.handle_flags w)

  abbrev pub registered : Option Error × W → Result W
  registered (none, w) = ok w
  registered (some e, w) = panic

  -- `init`: every error is a panic.
  unfoldable pub init : W → Result W
  unfolding metrics
  init w = elim (A.open_log w).0 [
    | some e ↦ panic
    | none ↦ registered (A.register_metrics plugin_name metrics (A.open_log w).1)
  ]
