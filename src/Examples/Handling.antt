-- ===== src/Examples/Handling.antt =====
-- Runs of the theorems on the handlers, with a client that gives one row to every query.
use Prim.Native.String.{len}
use zabbix_agent2_plugin_pos.Prelude.{
  ◌≡◌, refl, ◌↔◌, ◌⊎◌, [], ◌∷◌, string_eq, eqb, if◌then◌else◌, arith,
}
use zabbix_agent2_plugin_pos.Prelude.Dict.{lookup, get}
use zabbix_agent2_plugin_pos.Prelude.Integers.{pos}
use zabbix_agent2_plugin_pos.Prelude.Text.Decimal.{format_int}
use zabbix_agent2_plugin_pos.Errors.{ok, err, panic, const, cannot_parse_result}
use zabbix_agent2_plugin_pos.Client.Values.{text, int64, Row, got_row, scan, to_string, to_int}
use zabbix_agent2_plugin_pos.Handlers.Fetch.{Answer}
use zabbix_agent2_plugin_pos.Handlers.Server.{
  archive_handler, ping_handler, ping_sql, ping_ok, ping_failed,
}
use zabbix_agent2_plugin_pos.Handlers.Server.Laws.{
  object, archive_handler_merges, ping_handler_answers,
}
use zabbix_agent2_plugin_pos.Handlers.Queries.{queries_handler}
use zabbix_agent2_plugin_pos.Handlers.Queries.Laws.{queries_handler_asks}
use zabbix_agent2_plugin_pos.Examples.Samples.{formats, nothing, client_of}

abbrev object_row : Row
object_row = got_row (text "{\"a\":1}" ∷ [])

archive_handler_merges_example :
    archive_handler formats (client_of object_row nothing) "pgsql.archive" [] [] 0
    ≡ (ok (Answer.string (object (("a", "1") ∷ ("a", "1") ∷ []))), 2)
unfolding scan to_string
archive_handler_merges_example =
    archive_handler_merges formats (client_of object_row nothing) "pgsql.archive" [] [] 0 ("a", "1")
      ("a", "1") [] [] object_row object_row 1 2 refl refl refl refl

ping_handler_answers_example :
    let asked = (client_of (got_row (int64 (pos 1) ∷ [])) nothing).query_row ping_sql [] 0 in
    let r =
      (ping_handler formats
        (client_of (got_row (int64 (pos 1) ∷ [])) nothing)
        "pgsql.ping"
        []
        []
        0).0 in
    ((r ≡ ok (Answer.int ping_ok))
      ↔ ((r' : Row) × (asked.0 ≡ ok r') × (scan (to_int formats) r' ≡ ok (pos 1))))
    × ((r ≡ ok (Answer.int ping_ok)) ⊎ (r ≡ ok (Answer.int ping_failed)) ⊎ (r ≡ panic))
ping_handler_answers_example =
    ping_handler_answers formats (client_of (got_row (int64 (pos 1) ∷ [])) nothing) "pgsql.ping" []
      [] 0

period-get : get (("TimePeriod", "30") ∷ []) "TimePeriod" ≡ format_int (pos 30)
unfolding get lookup string_eq format_int
period-get = refl

queries_handler_asks_example :
    queries_handler formats
      (client_of object_row nothing)
      "pgsql.queries"
      (("TimePeriod", "30") ∷ [])
      []
      0
    ≡ (
      (if eqb (len "{\"a\":1}") 0
          then err (const cannot_parse_result)
          else ok (Answer.string "{\"a\":1}")),
      1,
    )
unfolding scan to_string
queries_handler_asks_example =
    queries_handler_asks formats (client_of object_row nothing) "pgsql.queries"
      (("TimePeriod", "30") ∷ []) [] 0 29 object_row "{\"a\":1}" 1 (omega arith) period-get refl
      refl
