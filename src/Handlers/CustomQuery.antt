-- ===== src/Handlers/CustomQuery.antt =====
-- plugin/handler_custom_query.go
pub mod Laws
pub mod Columns
pub mod RowTexts
pub mod NeverEmpty
use zabbix_agent2_plugin_pos.Prelude.{
  ℕ, String, ◌<>◌, Bool, Option, none, some, List, [], ◌∷◌, ◌++◌, if◌then◌else◌, string_eq,
}
use zabbix_agent2_plugin_pos.Prelude.Dict.{Dict, get, insert}
use zabbix_agent2_plugin_pos.Prelude.Text.Decimal.{format_int}
use zabbix_agent2_plugin_pos.Prelude.Text.Trim.{trim_space}
use zabbix_agent2_plugin_pos.Prelude.Text.Json.{json_string, sort_keys, join}
use zabbix_agent2_plugin_pos.Errors.{
  Error, wrap, foreign, Result, ok, err, panic, Act, return, fail, on_error, and_then, ◌>>=◌,
}
use zabbix_agent2_plugin_pos.Client.{PostgresClient}
use zabbix_agent2_plugin_pos.Client.Values.{
  Value, null, int64, float64, bool, bytes, text, time, Formats, Rows,
}
use zabbix_agent2_plugin_pos.Handlers.Fetch.{Answer, HandlerFunc, lift, cannot_fetch, scan_failed}

-- `case []uint8`
abbrev textual : Value → Value
textual (bytes s) = text s
textual v = v

-- `setResult`; it panics where there are more values than columns.
unfoldable pub set_result :
    Dict String Value → List Value → List String → Result (Dict String Value)
set_result results [] columns = ok results
set_result results (v ∷ values) [] = panic
set_result results (v ∷ values) (column ∷ columns) =
    set_result (insert column (textual v) results) values columns

module _ (F : Formats) where
  -- json.Marshal of a value that `Scan` put into an `any`; `none` is an unsupported value.
  json_value : Value → Option String
  json_value null = some "null"
  json_value (int64 z) = some (format_int z)
  json_value (float64 x) = F.json_float x
  json_value (bool b) = some (if b then "true" else "false")
  json_value (bytes s) = some (json_string s)
  json_value (text s) = some (json_string s)
  json_value (time t) = F.json_time t

  abbrev member : String → Option String → Option (List String) → Option (List String)
  member k none rest = none
  member k (some v) none = none
  member k (some v) (some rest) = some ((json_string k <> ":" <> v) ∷ rest)

  pub members : Dict String Value → Option (List String)
  unfolding json_value
  members [] = some []
  members ((k, v) ∷ d) = member k (json_value v) (members d)

  abbrev pub object : Option (List String) → Result String
  object none = err (wrap (foreign "json: unsupported value") "cannot marshal results")
  object (some parts) = ok ("{" <> join parts "," <> "}")

  -- json.Marshal(results), with the error that the handler makes of a failure.
  unfoldable pub marshal : Dict String Value → Result String
  unfolding members json_string sort_keys join
  marshal results = object (members (sort_keys results))

  abbrev scanned : Result (List Value) → Result (List Value)
  scanned (ok values) = ok values
  scanned (err e) = err (scan_failed e)
  scanned panic = panic

  -- The body of the loop: the map after the row, which is shared by all rows, and the row's text.
  unfoldable pub row_json :
      List String → Dict String Value → Result (List Value) → Result (Dict String Value × String)
  unfolding set_result marshal trim_space
  row_json columns results fetched = and_then (scanned fetched) λ values.
      and_then (set_result results values columns)
        λ results'. and_then (marshal results') λ json. ok (results', trim_space json)

  -- The loop over `rows.Next`, from the rows already in `data`.
  unfoldable pub rows_json :
      List String
      → Dict String Value
      → List String
      → List (Result (List Value))
      → Result (List String)
  unfolding row_json
  rows_json columns results data_ [] = ok data_
  rows_json columns results data_ (fetched ∷ more) =
      and_then (row_json columns results fetched)
        λ (results', json). rows_json columns results' (data_ ++ json ∷ []) more

  -- The end of the handler. The variable `err` that it wraps is nil there: the error of `rows.Err`
  -- is not in it. `wrap_nil` is what errs.Wrap makes of a nil error and a message.
  unfoldable pub finish : (String → Option Error) → Option Error → List String → Result Answer
  unfolding join
  finish wrap_nil none data_ = ok (Answer.string ("[" <> join data_ "," <> "]"))
  finish wrap_nil (some e) data_ = elim (wrap_nil "cannot fetch data") [
    | none ↦ ok Answer.nil
    | some e' ↦ err e'
  ]

  module _ {W : Type 0} (wrap_nil : String → Option Error) where
    unfoldable pub custom_query_handler : HandlerFunc W
    unfolding rows_json finish get
    custom_query_handler conn _ params extra = do
      rows ←
          on_error (conn.query_by_name (get params "QueryName") extra) (λ e. fail (cannot_fetch e))
            return
      columns ← on_error (lift rows.columns) (λ e. fail (cannot_fetch e)) return
      data_ ← lift (rows_json columns [] [] rows.fetched)
      lift (finish wrap_nil rows.rows_err data_)
