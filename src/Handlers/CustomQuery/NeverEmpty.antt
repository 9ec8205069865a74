-- ===== src/Handlers/CustomQuery/NeverEmpty.antt =====
-- A custom query does not give ErrorEmptyResult either.
use zabbix_agent2_plugin_pos.Prelude.{
  refl, String, List, Option, none, some, [], ◌∷◌, ◌++◌, All, string_eq,
}
use zabbix_agent2_plugin_pos.Prelude.Dict.{Dict, get, insert}
use zabbix_agent2_plugin_pos.Prelude.Text.Json.{sort_keys}
use zabbix_agent2_plugin_pos.Errors.{Error, Result, ok, err, panic}
use zabbix_agent2_plugin_pos.Client.Values.{Value, Formats}
use zabbix_agent2_plugin_pos.Handlers.Fetch.{Answer, lift}
use zabbix_agent2_plugin_pos.Handlers.Outcomes.{
  Outcome, Outcome-and_then, Any, Ends-return, Ends-fail, Ends-lift, Ends-on_error,
}
use zabbix_agent2_plugin_pos.Handlers.Outcomes.Emptiness.{
  Plain, NotEmpty, PlainEnd, is_empty_result, cannot_fetch-NotEmpty, scan_failed-NotEmpty,
}
use zabbix_agent2_plugin_pos.Handlers.Outcomes.NeverEmpty.{NeverEmpty}
use zabbix_agent2_plugin_pos.Handlers.CustomQuery.{
  textual, set_result, members, object, marshal, row_json, rows_json, finish, custom_query_handler,
}

set_result-NotEmpty :
    (results : Dict String Value) (values : List Value) (columns : List String)
    → Outcome NotEmpty Any (set_result results values columns)
unfolding set_result
set_result-NotEmpty results [] columns = tt
set_result-NotEmpty results (v ∷ values) [] = tt
set_result-NotEmpty results (v ∷ values) (column ∷ columns) =
    set_result-NotEmpty (insert column (textual v) results) values columns

module _ (F : Formats) where
  object-NotEmpty : (parts : Option (List String)) → Outcome NotEmpty Any (object F parts)
  unfolding is_empty_result
  object-NotEmpty none = refl
  object-NotEmpty (some parts) = tt

  marshal-NotEmpty : (results : Dict String Value) → Outcome NotEmpty Any (marshal F results)
  unfolding marshal
  marshal-NotEmpty results = object-NotEmpty (members F (sort_keys results))

  row_json-NotEmpty :
      (columns : List String) (results : Dict String Value) (fetched : Result (List Value))
      → Outcome Plain Any fetched
      → Outcome NotEmpty Any (row_json F columns results fetched)
  unfolding row_json
  row_json-NotEmpty columns results (ok values) p =
      Outcome-and_then Any (set_result results values columns) _
        (set_result-NotEmpty results values columns) (λ e h. h)
        λ results' _.
          Outcome-and_then Any (marshal F results') _ (marshal-NotEmpty results') (λ e h. h)
            λ json _. tt
  row_json-NotEmpty columns results (err e) p = scan_failed-NotEmpty e p
  row_json-NotEmpty columns results panic p = tt

  rows_json-NotEmpty :
      (columns : List String) (results : Dict String Value) (before : List String)
      (fetched : List (Result (List Value)))
      → All (Outcome Plain Any) fetched
      → Outcome NotEmpty Any (rows_json F columns results before fetched)
  unfolding rows_json
  rows_json-NotEmpty columns results before [] ps = tt
  rows_json-NotEmpty columns results before (r ∷ more) (p, ps) =
      Outcome-and_then Any (row_json F columns results r) _ (row_json-NotEmpty columns results r p)
        (λ e h. h)
        λ (results', json) _. rows_json-NotEmpty columns results' (before ++ json ∷ []) more ps

  finish-NotEmpty :
      (wrap_nil : String → Option Error) (e : Option Error) (texts : List String)
      → ((msg : String) → PlainEnd (wrap_nil msg))
      → Outcome NotEmpty Any (finish F wrap_nil e texts)
  unfolding finish
  finish-NotEmpty wrap_nil none texts h = tt
  finish-NotEmpty wrap_nil (some e) texts h =
      wrapped (wrap_nil "cannot fetch data") (h "cannot fetch data")
    where
      wrapped :
          (o : Option Error)
          → PlainEnd o
          → Outcome NotEmpty (Any {A = Answer}) (elim o [ none ↦ ok Answer.nil | some x ↦ err x ])
      wrapped none p = tt
      wrapped (some x) (_, p) = p

  pub custom_query_handler-NeverEmpty :
      {W : Type 0} (wrap_nil : String → Option Error)
      → ((msg : String) → PlainEnd (wrap_nil msg))
      → NeverEmpty (custom_query_handler F {W = W} wrap_nil)
  unfolding custom_query_handler
  custom_query_handler-NeverEmpty wrap_nil h conn key params extra p =
      Ends-on_error _ _ _
        (Ends-on_error (conn.query_by_name (get params "QueryName") extra) _ _
          (p.query_by_name (get params "QueryName") extra)
          (λ e pe. Ends-fail _ (cannot_fetch-NotEmpty e pe)) (λ rows q. Ends-return rows q))
        (λ e pe. Ends-fail e pe)
        λ rows q.
          Ends-on_error _ _ _
            (Ends-on_error (lift rows.columns) _ _ (Ends-lift rows.columns q.columns)
              (λ e pe. Ends-fail _ (cannot_fetch-NotEmpty e pe)) (λ c _. Ends-return c tt))
            (λ e pe. Ends-fail e pe)
            λ columns _.
              Ends-on_error _ _ _
                (Ends-lift _ (rows_json-NotEmpty columns [] [] rows.fetched q.fetched))
                (λ e pe. Ends-fail e pe)
                λ texts _. Ends-lift _ (finish-NotEmpty wrap_nil rows.rows_err texts h)
