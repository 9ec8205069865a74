-- ===== src/Handlers/Outcomes/Emptiness.antt =====
-- The error ErrorEmptyResult, which the handlers keep for a query without rows.
use zabbix_agent2_plugin_pos.Prelude.{
  ◌≡◌, refl, inl, inr, Bool-cases, Bool, true, false, ◌||◌, String, List, Option, none, some, [],
  ◌∷◌, All, string_eq, eqb,
}
use zabbix_agent2_plugin_pos.Prelude.Integers.{ℤ, pos, negsuc}
use zabbix_agent2_plugin_pos.Prelude.Text.Decimal.{Parsed, parsed, rejected, parse_int}
use zabbix_agent2_plugin_pos.Errors.{
  Error, ZbxError, empty_result, const, wrap, wrap_const, wrap_text, is_pgx_no_rows, Result,
}
use zabbix_agent2_plugin_pos.Client.{PostgresClient}
use zabbix_agent2_plugin_pos.Client.Values.{
  Value, null, int64, float64, bool, bytes, text, time, Formats, Row, broken, no_row, got_row, Rows,
  scan, or_error, int_of, bool_of_int, as_string, parse_bool, to_string, to_int, to_float, to_bool,
  to_null_string,
}
use zabbix_agent2_plugin_pos.Handlers.Fetch.{
  cannot_fetch, scan_failed, cannot_fetch_text, scan_failed_text, fetch_with, lift,
}
use zabbix_agent2_plugin_pos.Handlers.Outcomes.{
  Outcome, Ends, Any, Ends-return, Ends-fail, Ends-lift, Ends-on_error,
}

abbrev is_empty : ZbxError → Bool
is_empty empty_result = true
is_empty _ = false

-- errors.Is(err, zbxerr.ErrorEmptyResult)
unfoldable pub is_empty_result : Error → Bool
is_empty_result (const z) = is_empty z
is_empty_result (wrap e msg) = is_empty_result e
is_empty_result (wrap_const z e) = is_empty z || is_empty_result e
is_empty_result (wrap_text z e) = is_empty z
is_empty_result _ = false

-- An error with neither pgx.ErrNoRows nor ErrorEmptyResult in it.
abbrev pub Plain : Error → Type 0
Plain e = (is_pgx_no_rows e ≡ false) × (is_empty_result e ≡ false)

abbrev pub NotEmpty : Error → Type 0
NotEmpty e = is_empty_result e ≡ false

-- The same of what a query gives.
abbrev pub PlainRow : Row → Type 0
PlainRow (broken e) = Plain e
PlainRow _ = Unit {0}

abbrev pub PlainEnd : Option Error → Type 0
PlainEnd none = Unit {0}
PlainEnd (some e) = Plain e

pub record PlainRows (rows : Rows) : Type 0 where
  pub columns : Outcome Plain Any rows.columns
  pub fetched : All (Outcome Plain Any) rows.fetched
  pub rows_err : PlainEnd rows.rows_err

-- The calls of a client that the handlers use.
pub record PlainClient {W : Type 0} (conn : PostgresClient W) : Type 0 where
  pub query_row :
      (sql : String) (args : List String) → Ends Plain PlainRow (conn.query_row sql args)
  pub query_by_name :
      (name : String) (args : List String) → Ends Plain PlainRows (conn.query_by_name name args)

-- The conversions of `Scan` fail with errors of their own.
abbrev pub Converts : {A : Type 0} → (Value → Result A) → Type 0
Converts convert = (v : Value) → Outcome Plain Any (convert v)

-- The errors that the conversions make.
or_error-Plain : {A : Type 0} (kind : String) (o : Option A) → Outcome Plain Any (or_error kind o)
unfolding is_pgx_no_rows is_empty_result
or_error-Plain kind none = (refl, refl)
or_error-Plain kind (some a) = tt

int_of-Plain : (r : Parsed ℤ) → Outcome Plain Any (int_of r)
unfolding is_pgx_no_rows is_empty_result
int_of-Plain (parsed z) = tt
int_of-Plain (rejected e) = (refl, refl)

bool_of_int-Plain : (z : ℤ) → Outcome Plain Any (bool_of_int z)
unfolding is_pgx_no_rows is_empty_result
bool_of_int-Plain (pos n) = elim (Bool-cases (eqb n 0)) [
  | inl zero_n ↦ rw zero_n tt
  | inr other ↦ rw other (elim (Bool-cases (eqb n 1)) [
    | inl one_n ↦ rw one_n tt
    | inr neither ↦ rw neither (refl, refl)
  ])
]
bool_of_int-Plain (negsuc n) = (refl, refl)

pub to_string-Plain : (F : Formats) → Converts (to_string F)
unfolding to_string is_pgx_no_rows is_empty_result
to_string-Plain F null = (refl, refl)
to_string-Plain F (int64 z) = tt
to_string-Plain F (float64 x) = tt
to_string-Plain F (bool b) = tt
to_string-Plain F (bytes s) = tt
to_string-Plain F (text s) = tt
to_string-Plain F (time t) = tt

pub to_null_string-Plain : (F : Formats) → Converts (to_null_string F)
unfolding to_null_string
to_null_string-Plain F null = tt
to_null_string-Plain F (int64 z) = to_string-Plain F (int64 z)
to_null_string-Plain F (float64 x) = to_string-Plain F (float64 x)
to_null_string-Plain F (bool b) = to_string-Plain F (bool b)
to_null_string-Plain F (bytes s) = to_string-Plain F (bytes s)
to_null_string-Plain F (text s) = to_string-Plain F (text s)
to_null_string-Plain F (time t) = to_string-Plain F (time t)

pub to_int-Plain : (F : Formats) → Converts (to_int F)
unfolding to_int is_pgx_no_rows is_empty_result
to_int-Plain F null = (refl, refl)
to_int-Plain F (int64 z) = int_of-Plain (parse_int (as_string F (int64 z)))
to_int-Plain F (float64 x) = int_of-Plain (parse_int (as_string F (float64 x)))
to_int-Plain F (bool b) = int_of-Plain (parse_int (as_string F (bool b)))
to_int-Plain F (bytes s) = int_of-Plain (parse_int (as_string F (bytes s)))
to_int-Plain F (text s) = int_of-Plain (parse_int (as_string F (text s)))
to_int-Plain F (time t) = int_of-Plain (parse_int (as_string F (time t)))

pub to_float-Plain : (F : Formats) → Converts (to_float F)
unfolding to_float is_pgx_no_rows is_empty_result
to_float-Plain F null = (refl, refl)
to_float-Plain F (int64 z) = or_error-Plain "float64" (F.parse_float (as_string F (int64 z)))
to_float-Plain F (float64 x) = or_error-Plain "float64" (F.parse_float (as_string F (float64 x)))
to_float-Plain F (bool b) = or_error-Plain "float64" (F.parse_float (as_string F (bool b)))
to_float-Plain F (bytes s) = or_error-Plain "float64" (F.parse_float (as_string F (bytes s)))
to_float-Plain F (text s) = or_error-Plain "float64" (F.parse_float (as_string F (text s)))
to_float-Plain F (time t) = or_error-Plain "float64" (F.parse_float (as_string F (time t)))

pub to_bool-Plain : (F : Formats) → Converts (to_bool F)
unfolding to_bool is_pgx_no_rows is_empty_result
to_bool-Plain F null = (refl, refl)
to_bool-Plain F (int64 z) = bool_of_int-Plain z
to_bool-Plain F (float64 x) = (refl, refl)
to_bool-Plain F (bool b) = tt
to_bool-Plain F (bytes s) = or_error-Plain "bool" (parse_bool s)
to_bool-Plain F (text s) = or_error-Plain "bool" (parse_bool s)
to_bool-Plain F (time t) = (refl, refl)

scan-Plain :
    {A : Type 0} (convert : Value → Result A) (r : Row)
    → Converts convert
    → PlainRow r
    → Outcome Plain Any (scan convert r)
unfolding scan is_pgx_no_rows is_empty_result
scan-Plain convert (broken e) c p = p
scan-Plain convert no_row c p = (refl, refl)
scan-Plain convert (got_row []) c p = (refl, refl)
scan-Plain convert (got_row (v ∷ [])) c p = c v
scan-Plain convert (got_row (v ∷ w ∷ more)) c p = (refl, refl)

-- The errors that the handlers make of a failure.
pub cannot_fetch-NotEmpty : (e : Error) → Plain e → NotEmpty (cannot_fetch e)
unfolding is_empty_result
cannot_fetch-NotEmpty e (_, h) = h

pub scan_failed-NotEmpty : (e : Error) → Plain e → NotEmpty (scan_failed e)
unfolding scan_failed is_empty_result
scan_failed-NotEmpty e (other, h) = rw other h

pub cannot_fetch_text-NotEmpty : (e : Error) → Plain e → NotEmpty (cannot_fetch_text e)
unfolding cannot_fetch_text is_empty_result
cannot_fetch_text-NotEmpty e h = refl

pub scan_failed_text-NotEmpty : (e : Error) → Plain e → NotEmpty (scan_failed_text e)
unfolding scan_failed_text is_empty_result
scan_failed_text-NotEmpty e (other, h) = rw other refl

pub fetch_with-NotEmpty :
    {W A : Type 0} (unqueried unscanned : Error → Error) (conn : PostgresClient W)
    (convert : Value → Result A) (sql : String) (args : List String)
    → PlainClient conn
    → ((e : Error) → Plain e → NotEmpty (unqueried e))
    → ((e : Error) → Plain e → NotEmpty (unscanned e))
    → Converts convert
    → Ends NotEmpty Any (fetch_with unqueried unscanned conn convert sql args)
unfolding fetch_with
fetch_with-NotEmpty unqueried unscanned conn convert sql args p q s c =
    Ends-on_error (conn.query_row sql args) _ _ (p.query_row sql args)
      (λ e h. Ends-fail (unqueried e) (q e h))
      λ r h.
        Ends-on_error (lift (scan convert r)) _ _
          (Ends-lift (scan convert r) (scan-Plain convert r c h))
          (λ e h. Ends-fail (unscanned e) (s e h)) (λ a _. Ends-return a tt)
