-- ===== src/Prelude/Text/Json.antt =====
-- encoding/json: a string, and an object from a map with its keys in order.
use Prim.Native.Nat.{ℕ, zero, suc, ◌/◌, ◌%◌}
use Prim.Native.Char.{Char, code}
use Prim.Native.String.{String, [], ◌∷◌, ◌++◌, compare}
use Prim.Native.Nat.{Ordering}
use mathlib.Core.Path.{◌≡◌, refl}
use mathlib.Core.Bool.{Bool, true, false, ◌||◌}
use mathlib.Core.List.{List}
use zabbix_agent2_plugin_pos.Prelude.Tests.{eqb, ltb, if◌then◌else◌}

-- A hexadecimal digit, by its place.
abbrev hex_digits : String
hex_digits = "0123456789abcdef"

abbrev nth : String → ℕ → String
nth [] n = ""
nth (c ∷ s) zero = c ∷ ""
nth (c ∷ s) (suc n) = nth s n

hex_byte : ℕ → String
hex_byte n = nth hex_digits (n / 16) ++ nth hex_digits (n % 16)

-- A character inside a JSON string, with HTML's special characters escaped.
escape_char : Char → String
unfolding hex_byte
escape_char c =
    if eqb (code c) b'"'
    then "\\\""
    else if eqb (code c) b'\\'
    then "\\\\"
    else if eqb (code c) 8
    then "\\b"
    else if eqb (code c) 12
    then "\\f"
    else if eqb (code c) 10
    then "\\n"
    else if eqb (code c) 13
    then "\\r"
    else if eqb (code c) 9
    then "\\t"
    else if ltb (code c) 32 || eqb (code c) b'<' || eqb (code c) b'>' || eqb (code c) b'&'
    then "\\u00" ++ hex_byte (code c)
    else if eqb (code c) 0x2028
    then "\\u2028"
    else if eqb (code c) 0x2029
    then "\\u2029"
    else c ∷ ""

escape : String → String
unfolding escape_char
escape [] = ""
escape (c ∷ s) = escape_char c ++ escape s

unfoldable pub json_string : String → String
unfolding escape
json_string s = "\"" ++ escape s ++ "\""

-- Whether the first text comes before the second.
abbrev before : String → String → Bool
before s t = elim (compare s t) [ Ordering.lt ↦ true | _ ↦ false ]

module _ {V : Type 0} where
  insert_sorted : String → V → List (String × V) → List (String × V)
  insert_sorted k v List.[] = List.◌∷◌ (k, v) List.[]
  insert_sorted k v (List.◌∷◌ (j, w) d) =
      if before k j
      then List.◌∷◌ (k, v) (List.◌∷◌ (j, w) d)
      else List.◌∷◌ (j, w) (insert_sorted k v d)

  -- The entries of a map in the order of their keys.
  unfoldable pub sort_keys : List (String × V) → List (String × V)
  unfolding insert_sorted
  sort_keys List.[] = List.[]
  sort_keys (List.◌∷◌ (k, v) d) = insert_sorted k v (sort_keys d)

-- strings.Join
unfoldable pub join : List String → String → String
join List.[] sep = ""
join (List.◌∷◌ s List.[]) sep = s
join (List.◌∷◌ s (List.◌∷◌ t rest)) sep = s ++ sep ++ join (List.◌∷◌ t rest) sep

tests : json_string "a\"<\u{1}\n" ≡ "\"a\\\"\\u003c\\u0001\\n\""
unfolding json_string
tests = refl
