-- ===== src/Handlers/CustomQuery/Laws.antt =====
-- What `customQueryHandler` makes of the rows of a user's query.
use zabbix_agent2_plugin_pos.Prelude.{
  ◌+◌, arith, length-append, String, ◌<>◌, ◌≡◌, refl, ap, ◌∙◌, Option, none, some, List, [], ◌∷◌,
  ◌++◌, ◌==◌, string_eq, length, if◌then◌else◌,
}
use zabbix_agent2_plugin_pos.Prelude.Dict.{Dict, get, lookup, insert, lookup-insert}
use zabbix_agent2_plugin_pos.Prelude.Text.Json.{join}
use zabbix_agent2_plugin_pos.Errors.{Error, Result, ok, and_then-inverse}
use zabbix_agent2_plugin_pos.Client.{PostgresClient}
use zabbix_agent2_plugin_pos.Client.Values.{Value, Formats, Rows}
use zabbix_agent2_plugin_pos.Handlers.Fetch.{Answer}
use zabbix_agent2_plugin_pos.Handlers.CustomQuery.{
  textual, set_result, row_json, rows_json, finish, custom_query_handler,
}

-- The value of the last column with a name, and `before` where there is none.
abbrev pub last_value : String → List String → List Value → Option Value → Option Value
last_value c (column ∷ columns) (v ∷ values) before =
    last_value c columns values (if c == column then some (textual v) else before)
last_value c columns values before = before

-- After `setResult` a name has the value of the last column of that name, as text where it is bytes,
-- and what it had before where no column has the name.
pub set_result_lem :
    (c : String) (results results' : Dict String Value) (values : List Value)
    (columns : List String)
    → set_result results values columns ≡ ok results'
    → lookup c results' ≡ last_value c columns values (lookup c results)
unfolding set_result
set_result_lem c results results' [] [] h = cc
set_result_lem c results results' [] (column ∷ columns) h = cc
set_result_lem c results results' (v ∷ values) [] h = cc
set_result_lem c results results' (v ∷ values) (column ∷ columns) h =
    set_result_lem c (insert column (textual v) results) results' values columns h
    ∙ ap (last_value c columns values) (lookup-insert c column (textual v) results)

rows_json-length :
    (F : Formats) (columns : List String) (results : Dict String Value) (before texts : List String)
    (fetched : List (Result (List Value)))
    → rows_json F columns results before fetched ≡ ok texts
    → length texts ≡ length before + length fetched
unfolding rows_json
rows_json-length F columns results before texts [] h = ground arith
rows_json-length F columns results before texts (r ∷ more) h =
    let ((results', json), _, h') = and_then-inverse (row_json F columns results r) _ texts h in
    let ih = rows_json-length F columns results' (before ++ json ∷ []) texts more h' in
    omega (arith, ih, length-append before (json ∷ []))

module _ (F : Formats) (wrap_nil : String → Option Error) {W : Type 0} (conn : PostgresClient W)
    (key : String) (params : Dict String String) (extra : List String) (w w' : W) where
  -- If the query gives rows, every row can be read and written, and no error follows them, the
  -- answer is a JSON array of as many texts as there are rows.
  pub custom_query_handler_answers :
      (rows : Rows) (columns texts : List String)
      → conn.query_by_name (get params "QueryName") extra w ≡ (ok rows, w')
      → rows.columns ≡ ok columns
      → rows_json F columns [] [] rows.fetched ≡ ok texts
      → rows.rows_err ≡ none
      → (custom_query_handler F wrap_nil conn key params extra w
          ≡ (ok (Answer.string ("[" <> join texts "," <> "]")), w'))
        × (length texts ≡ length rows.fetched)
  unfolding custom_query_handler finish
  custom_query_handler_answers rows columns texts q c r done = (
    rw q (rw c (rw r (rw done refl))),
    omega (arith, rows_json-length F columns [] [] texts rows.fetched r),
  )
