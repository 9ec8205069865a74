-- ===== src/Client/Values.antt =====
-- The values that a driver hands to database/sql, and `Row.Scan` into the types that the handlers
-- use. A float64 is its bit pattern and a time an opaque number; their texts are `Formats`.
use zabbix_agent2_plugin_pos.Prelude.{
  ℕ, String, ◌≡◌, Bool, true, false, Option, none, some, List, [], ◌∷◌, ◌<>◌, string_eq,
  if◌then◌else◌, contains, eqb,
}
use zabbix_agent2_plugin_pos.Prelude.Integers.{ℤ, pos, negsuc}
use zabbix_agent2_plugin_pos.Prelude.Text.Decimal.{
  format_int, parse_int, parsed, rejected, Parsed, parse_int-format_int, IsInt64,
}
use zabbix_agent2_plugin_pos.Errors.{Error, Result, ok, err, new, sql_no_rows}

-- driver.Value
pub data Value : Type 0 where
  null : Value
  int64 : ℤ → Value
  float64 : ℕ → Value
  bool : Bool → Value
  bytes text : String → Value
  time : ℕ → Value

-- The texts of what is opaque here: float64 and time.Time values, strconv.ParseFloat(s, 64), and
-- strconv.Quote, which goes by Unicode's tables of printable characters.
pub record Formats : Type 0 where
  pub format_float : ℕ → String
  pub format_time : ℕ → String
  pub print_time : ℕ → String
  pub parse_float : String → Option ℕ
  -- encoding/json of a float64 (not of NaN or an infinity) and of a time.Time.
  pub json_float : ℕ → Option String
  pub json_time : ℕ → Option String
  -- strconv.Quote
  pub quote : String → String

-- The first row of a query: an error of the query or of the connection, no row, or its columns.
pub data Row : Type 0 where
  broken : Error → Row
  no_row : Row
  got_row : List Value → Row

-- What a `*sql.Rows` yields: its columns, the outcome of `Scan` into variables of type `any` for
-- each row that `Next` reaches, and `Err` after them.
pub record Rows : Type 0 where
  pub columns : Result (List String)
  pub fetched : List (Result (List Value))
  pub rows_err : Option Error

abbrev null_error : String → Error
null_error kind = new ("converting NULL to " <> kind <> " is unsupported")

abbrev conversion_error : String → Error
conversion_error kind = new ("converting driver.Value type to a " <> kind <> ": invalid syntax")

-- strconv.ParseBool
unfoldable pub parse_bool : String → Option Bool
parse_bool s =
    if contains ("1" ∷ "t" ∷ "T" ∷ "TRUE" ∷ "true" ∷ "True" ∷ []) s
    then some true
    else if contains ("0" ∷ "f" ∷ "F" ∷ "FALSE" ∷ "false" ∷ "False" ∷ []) s
    then some false
    else none

abbrev format_bool : Bool → String
format_bool b = if b then "true" else "false"

abbrev pub or_error {ℓ} : {A : Type ℓ} → String → Option A → Result A
or_error kind none = err (conversion_error kind)
or_error kind (some a) = ok a

abbrev pub int_of : Parsed ℤ → Result ℤ
int_of (parsed z) = ok z
int_of (rejected e) = err (conversion_error "int")

abbrev pub bool_of_int : ℤ → Result Bool
bool_of_int (pos n) =
    if eqb n 0 then ok false else if eqb n 1 then ok true else err (conversion_error "bool")
bool_of_int (negsuc n) = err (conversion_error "bool")

module _ (F : Formats) where
  open F use {format_float, format_time, print_time, parse_float}

  -- `asString`; a null does not reach it.
  unfoldable pub as_string : Value → String
  as_string null = ""
  as_string (int64 z) = format_int z
  as_string (float64 x) = format_float x
  as_string (bool b) = format_bool b
  as_string (bytes s) = s
  as_string (text s) = s
  as_string (time t) = print_time t

  -- Into a `*string`.
  unfoldable pub to_string : Value → Result String
  unfolding as_string
  to_string null = err (null_error "string")
  to_string (time t) = ok (format_time t)
  to_string v = ok (as_string v)

  -- Into an `*int64`, or an `*int` of 64 bits.
  unfoldable pub to_int : Value → Result ℤ
  unfolding as_string
  to_int null = err (null_error "int64")
  to_int v = int_of (parse_int (as_string v))

  -- Into a `*float64`.
  unfoldable pub to_float : Value → Result ℕ
  unfolding as_string
  to_float null = err (null_error "float64")
  to_float v = or_error "float64" (parse_float (as_string v))

  -- Into a `*bool`.
  unfoldable pub to_bool : Value → Result Bool
  unfolding parse_bool
  to_bool null = err (conversion_error "bool")
  to_bool (int64 z) = bool_of_int z
  to_bool (float64 x) = err (conversion_error "bool")
  to_bool (bool b) = ok b
  to_bool (bytes s) = or_error "bool" (parse_bool s)
  to_bool (text s) = or_error "bool" (parse_bool s)
  to_bool (time t) = err (conversion_error "bool")

  -- Into a `*sql.NullString`, of which the handlers read the text only.
  unfoldable pub to_null_string : Value → Result String
  unfolding to_string
  to_null_string null = ok ""
  to_null_string v = to_string v

-- `Row.Scan` with one destination.
unfoldable pub scan {ℓ} : {A : Type ℓ} → (Value → Result A) → Row → Result A
scan convert (broken e) = err e
scan convert no_row = err sql_no_rows
scan convert (got_row []) = err (new "sql: expected 0 destination arguments in Scan, not 1")
scan convert (got_row (v ∷ [])) = convert v
scan convert (got_row (v ∷ w ∷ more)) =
    err (new "sql: expected more destination arguments in Scan, not 1")

-- An int64 column is read back as it is, although `Scan` goes through its text.
pub to_int-int64 : (F : Formats) (z : ℤ) → IsInt64 z → to_int F (int64 z) ≡ ok z
unfolding to_int
to_int-int64 F z h = rw (parse_int-format_int z h)
