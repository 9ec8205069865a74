-- ===== src/Main/Laws.antt =====
-- When the process ends without an error.
use zabbix_agent2_plugin_pos.Prelude.{
  String, ◌≡◌, refl, ◌↔◌, inl, inr, true, Bool-cases, Option, none, some, [],
}
use zabbix_agent2_plugin_pos.Errors.{Error, Result, ok, err, panic}
use zabbix_agent2_plugin_pos.Main.{
  Agent, exited, main, decide, act, run_handler, executed, plugin_info, plugin_name,
}

module _ {W : Type 0} (A : Agent W) (arg0 : String) where
  -- The runs that succeed: the flags asked for something that ends the process, or the handler ran
  -- to its end.
  pub data Completes (w : W) : Type 0 where
    answered :
        (args : A.Args) (w1 w2 : W) (e : Error)
        → A.handle_flags w ≡ (ok args, w1)
        → A.decide_action_from_flags args (plugin_info arg0) w1 ≡ (some e, w2)
        → A.exits_gracefully e ≡ true
        → Completes w
    served :
        (args : A.Args) (h : A.Handler) (w1 w2 w3 : W)
        → A.handle_flags w ≡ (ok args, w1)
        → A.decide_action_from_flags args (plugin_info arg0) w1 ≡ (none, w2)
        → A.new_handler plugin_name w2 ≡ (ok h, w3)
        → (A.execute h w3).0 ≡ none
        → Completes w

  executed-zero : (r : Option Error) → executed A r ≡ exited 0 [] → r ≡ none
  executed-zero none h = refl
  executed-zero (some e) h = cc

  run_handler-zero :
      (w : W) (args : A.Args) (w1 w2 : W) (r : Result A.Handler × W)
      → A.handle_flags w ≡ (ok args, w1)
      → A.decide_action_from_flags args (plugin_info arg0) w1 ≡ (none, w2)
      → A.new_handler plugin_name w2 ≡ r
      → (run_handler A r).0 ≡ exited 0 []
      → Completes w
  run_handler-zero w args w1 w2 (ok h, w3) f d n z =
      served args h w1 w2 w3 f d n (executed-zero (A.execute h w3).0 z)
  run_handler-zero w args w1 w2 (err e, w3) f d n z = cc
  run_handler-zero w args w1 w2 (panic, w3) f d n z = cc

  act-zero :
      (w : W) (args : A.Args) (w1 : W) (r : Option Error × W)
      → A.handle_flags w ≡ (ok args, w1)
      → A.decide_action_from_flags args (plugin_info arg0) w1 ≡ r
      → (act A r).0 ≡ exited 0 []
      → Completes w
  act-zero w args w1 (none, w2) f d z =
      run_handler-zero w args w1 w2 (A.new_handler plugin_name w2) f d refl z
  act-zero w args w1 (some e, w2) f d z = elim (Bool-cases (A.exits_gracefully e)) [
    | inl gracefully ↦ answered args w1 w2 e f d gracefully
    | inr other ↦ cc (rw other at z)
  ]

  decide-zero :
      (w : W) (r : Result A.Args × W)
      → A.handle_flags w ≡ r
      → (decide A arg0 r).0 ≡ exited 0 []
      → Completes w
  decide-zero w (ok args, w1) f z =
      act-zero w args w1 (A.decide_action_from_flags args (plugin_info arg0) w1) f refl z
  decide-zero w (err e, w1) f z = cc
  decide-zero w (panic, w1) f z = cc

  Completes-zero : (w : W) → Completes w → (main A arg0 w).0 ≡ exited 0 []
  unfolding main
  Completes-zero w (answered args w1 w2 e f d gracefully) = rw f (rw d (rw gracefully refl))
  Completes-zero w (served args h w1 w2 w3 f d n x) = rw f (rw d (rw n (rw x refl)))

  -- The process ends with code 0 and nothing on stderr exactly if the flags asked for an action
  -- that ends it, or the plugin's handler was made and ran without an error.
  pub main_lem : (w : W) → (main A arg0 w).0 ≡ exited 0 [] ↔ Completes w
  unfolding main
  main_lem w = (decide-zero w (A.handle_flags w) refl, Completes-zero w)
