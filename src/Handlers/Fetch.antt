-- ===== src/Handlers/Fetch.antt =====
-- The steps that the handlers share: one query for a row, one `Scan`, and the errors that they
-- make of a failure.
pub mod Laws
use zabbix_agent2_plugin_pos.Prelude.{ℕ, String, Bool, List, Option, none, some, if◌then◌else◌}
use zabbix_agent2_plugin_pos.Prelude.Dict.{Dict}
use zabbix_agent2_plugin_pos.Prelude.Integers.{ℤ}
use zabbix_agent2_plugin_pos.Errors.{
  Error, wrap_const, wrap_text, cannot_fetch_data, empty_result, is_pgx_no_rows, Result, Act, ok,
  return, fail, on_error, ◌>>=◌, ZbxError,
}
use zabbix_agent2_plugin_pos.Client.{PostgresClient}
use zabbix_agent2_plugin_pos.Client.Values.{
  Value, Row, Formats, scan, to_string, to_int, to_float, to_bool,
}

-- A handler's result of type `any`.
pub data Answer : Type 0 where
  nil : Answer
  string : String → Answer
  int int64 : ℤ → Answer
  float64 : ℕ → Answer

-- `handlerFunc`
abbrev pub HandlerFunc : Type 0 → Type 0
HandlerFunc W = PostgresClient W → String → Dict String String → List String → Act W Answer

-- A computation that leaves the world alone.
abbrev pub lift : {W A : Type 0} → Result A → Act W A
lift r w = (r, w)

-- `zbxerr.ErrorCannotFetchData.Wrap(err)`
abbrev pub cannot_fetch : Error → Error
cannot_fetch e = wrap_const cannot_fetch_data e

-- The branch under the error of `Scan`, with its test for pgx.ErrNoRows.
unfoldable pub scan_failed : Error → Error
unfolding is_pgx_no_rows
scan_failed e = if is_pgx_no_rows e then wrap_const empty_result e else cannot_fetch e

-- The same two errors made by errs.Wrap(zbxerr.X, err.Error()).
unfoldable pub cannot_fetch_text : Error → Error
cannot_fetch_text e = wrap_text cannot_fetch_data e

unfoldable pub scan_failed_text : Error → Error
unfolding is_pgx_no_rows
scan_failed_text e =
    if is_pgx_no_rows e then wrap_text empty_result e else wrap_text cannot_fetch_data e

module _ {W : Type 0} where
  -- `conn.QueryRow`, then `row.Scan` of one variable, with the error that each failure becomes.
  unfoldable pub fetch_with :
      {A : Type 0}
      → (Error → Error)
      → (Error → Error)
      → PostgresClient W
      → (Value → Result A)
      → String
      → List String
      → Act W A
  fetch_with unqueried unscanned conn convert query args =
      on_error (conn.query_row query args) (λ e. fail (unqueried e))
        λ r. on_error (lift (scan convert r)) (λ e. fail (unscanned e)) return

  abbrev pub fetch :
      {A : Type 0} → PostgresClient W → (Value → Result A) → String → List String → Act W A
  fetch = fetch_with cannot_fetch scan_failed

  module _ (F : Formats) (conn : PostgresClient W) (query : String) (args : List String) where
    abbrev pub fetch_string : Act W Answer
    fetch_string = do s ← fetch conn (to_string F) query args; return (Answer.string s)

    abbrev pub fetch_int64 : Act W Answer
    fetch_int64 = do n ← fetch conn (to_int F) query args; return (Answer.int64 n)

    abbrev pub fetch_float64 : Act W Answer
    fetch_float64 = do x ← fetch conn (to_float F) query args; return (Answer.float64 x)
