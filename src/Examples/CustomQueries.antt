-- ===== src/Examples/CustomQueries.antt =====
-- Runs of the theorems on custom queries: two rows of two columns.
use zabbix_agent2_plugin_pos.Prelude.{
  ◌≡◌, refl, Option, none, List, [], ◌∷◌, String, ◌<>◌, string_eq, length,
}
use zabbix_agent2_plugin_pos.Prelude.Dict.{lookup, insert}
use zabbix_agent2_plugin_pos.Prelude.Integers.{pos}
use zabbix_agent2_plugin_pos.Prelude.Text.Decimal.{format_int}
use zabbix_agent2_plugin_pos.Prelude.Text.Json.{join, json_string, sort_keys}
use zabbix_agent2_plugin_pos.Prelude.Text.Trim.{trim_space}
use zabbix_agent2_plugin_pos.Errors.{Error, ok}
use zabbix_agent2_plugin_pos.Client.Values.{Value, null, text, int64, bytes, Row, got_row, Rows}
use zabbix_agent2_plugin_pos.Handlers.Fetch.{Answer}
use zabbix_agent2_plugin_pos.Handlers.CustomQuery.{
  set_result, row_json, rows_json, marshal, custom_query_handler,
}
use zabbix_agent2_plugin_pos.Handlers.CustomQuery.Laws.{
  last_value, set_result_lem, custom_query_handler_answers,
}
use zabbix_agent2_plugin_pos.Examples.Samples.{formats, client_of}
use zabbix_agent2_plugin_pos.Handlers.CustomQuery.RowTexts.{rows_alone, rows_json_lem}

abbrev object_row : Row
object_row = got_row (text "{\"a\":1}" ∷ [])

-- Two rows of two columns, and an error after them.
abbrev two_rows : Option Error → Rows
two_rows e = record {
  columns = ok ("id" ∷ "name" ∷ []);
  fetched = ok (int64 (pos 1) ∷ bytes "x" ∷ []) ∷ ok (int64 (pos 2) ∷ null ∷ []) ∷ [];
  rows_err = e;
}

abbrev two_texts : List String
two_texts = "{\"id\":1,\"name\":\"x\"}" ∷ "{\"id\":2,\"name\":null}" ∷ []

two_rows-texts : rows_json formats ("id" ∷ "name" ∷ []) [] [] (two_rows none).fetched ≡ ok two_texts
unfolding rows_json row_json set_result marshal insert lookup string_eq format_int json_string
    sort_keys join trim_space
two_rows-texts = refl

rows_json_lem_example :
    rows_json formats ("id" ∷ "name" ∷ []) [] [] (two_rows none).fetched
    ≡ rows_alone formats ("id" ∷ "name" ∷ []) (two_rows none).fetched
rows_json_lem_example =
    rows_json_lem formats ("id" ∷ "name" ∷ []) (two_rows none).fetched (refl, (refl, tt))

custom_query_handler_answers_example :
    (custom_query_handler formats
        (λ _. none)
        (client_of object_row (two_rows none))
        "pgsql.custom.query"
        []
        []
        0
      ≡ (ok (Answer.string ("[" <> join two_texts "," <> "]")), 1))
    × (length two_texts ≡ length (two_rows none).fetched)
custom_query_handler_answers_example =
    custom_query_handler_answers formats (λ _. none) (client_of object_row (two_rows none))
      "pgsql.custom.query" [] [] 0 1 (two_rows none) ("id" ∷ "name" ∷ []) two_texts refl refl
      two_rows-texts refl

set_result_lem_example :
    lookup {K = String} {V = Value} "id" (("id", int64 (pos 2)) ∷ ("name", text "y") ∷ [])
    ≡ last_value "id"
        ("id" ∷ "name" ∷ [])
        (int64 (pos 2) ∷ bytes "y" ∷ [])
        (lookup {K = String} {V = Value} "id" (("id", int64 (pos 1)) ∷ ("name", text "x") ∷ []))
unfolding set_result insert lookup string_eq
set_result_lem_example =
    set_result_lem "id" (("id", int64 (pos 1)) ∷ ("name", text "x") ∷ [])
      (("id", int64 (pos 2)) ∷ ("name", text "y") ∷ []) (int64 (pos 2) ∷ bytes "y" ∷ [])
      ("id" ∷ "name" ∷ []) refl
