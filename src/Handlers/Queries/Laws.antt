-- ===== src/Handlers/Queries/Laws.antt =====
-- What `queriesHandler` does with its parameter and with the database's answer.
use Prim.Native.String.{len}
use zabbix_agent2_plugin_pos.Prelude.{
  ℕ, suc, String, ◌≡◌, refl, List, [], eqb, Bool-cases, arith, inl, inr, if◌then◌else◌,
}
use zabbix_agent2_plugin_pos.Prelude.Dict.{Dict, get}
use zabbix_agent2_plugin_pos.Prelude.Integers.{pos}
use zabbix_agent2_plugin_pos.Prelude.Text.Decimal.{
  parsed, format_int, parse_int-format_int, IsInt64,
}
use zabbix_agent2_plugin_pos.Errors.{Error, ok, err, cannot_parse_result, const}
use zabbix_agent2_plugin_pos.Client.{PostgresClient}
use zabbix_agent2_plugin_pos.Client.Values.{Row, Formats, scan, to_string}
use zabbix_agent2_plugin_pos.Handlers.Fetch.{Answer, cannot_fetch}
use zabbix_agent2_plugin_pos.Handlers.Fetch.Laws.{fetch_with_scanned}
use zabbix_agent2_plugin_pos.Handlers.Queries.{
  maintenance_exp, queries_sql, time_period_of, time_period, queries_handler,
}

time_period_of-pos :
    (quote : String → String) (s : String) (n : ℕ)
    → time_period_of quote s (parsed (pos (suc n))) ≡ ok (pos (suc n))
unfolding time_period_of
time_period_of-pos quote s n = ground arith

-- A period that is greater than 0, written in decimal, is read back.
time_period-format_int :
    (quote : String → String) (params : Dict String String) (n : ℕ)
    → IsInt64 (pos (suc n))
    → get params "TimePeriod" ≡ format_int (pos (suc n))
    → time_period quote params ≡ ok (pos (suc n))
unfolding time_period
time_period-format_int quote params n bound given = rw given (
    rw (parse_int-format_int (pos (suc n)) bound)
      (time_period_of-pos quote (format_int (pos (suc n))) n))

module _ {W : Type 0} (F : Formats) (conn : PostgresClient W) (key : String)
    (params : Dict String String) (extra : List String) (w : W) where
  -- A period that the test refuses ends the call with the test's error, before any query.
  pub queries_handler_refuses :
      (e : Error)
      → time_period F.quote params ≡ err e
      → queries_handler F conn key params extra w ≡ (err e, w)
  unfolding queries_handler
  queries_handler_refuses e refused = rw refused

  -- With a period n greater than 0 written in decimal, the one query sent is that of n; a text
  -- that it answers is the answer unless it is empty, which is ErrorCannotParseResult.
  pub queries_handler_asks :
      (n : ℕ) (r : Row) (json : String) (w' : W)
      → IsInt64 (pos (suc n))
      → get params "TimePeriod" ≡ format_int (pos (suc n))
      → conn.query_row (queries_sql maintenance_exp (pos (suc n))) [] w ≡ (ok r, w')
      → scan (to_string F) r ≡ ok json
      → queries_handler F conn key params extra w ≡ (
        (if eqb (len json) 0 then err (const cannot_parse_result) else ok (Answer.string json)),
        w',
      )
  unfolding queries_handler
  queries_handler_asks n r json w' bound given q s =
      rw (time_period-format_int F.quote params n bound given) (
        rw (fetch_with_scanned cannot_fetch cannot_fetch conn (to_string F) _ _ w w' r json q s)
          (elim (Bool-cases (eqb (len json) 0)) [ inl b ↦ rw b refl | inr b ↦ rw b refl ]))
