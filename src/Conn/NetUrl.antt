-- ===== src/Conn/NetUrl.antt =====
-- net/url: QueryEscape and QueryUnescape, on the bytes of a text.
pub mod RoundTrip
use Prim.Native.Char.{Char, code}
use Prim.Native.String.{String, [], ◌∷◌}
use zabbix_agent2_plugin_pos.Prelude.{
  ℕ, zero, suc, ◌+◌, ◌-◌, ◌*◌, ◌/◌, ◌%◌, ◌<◌, ◌≡◌, refl, Bool, ◌&&◌, ◌||◌, Option, none, some, List,
  ◌++◌, ◌<>◌, eqb, leb, if◌then◌else◌,
}
use zabbix_agent2_plugin_pos.Prelude.Text.Utf8.{utf8_code}
use zabbix_agent2_plugin_pos.Errors.{Error, Result, ok, err, and_then}

-- An upper-case hexadecimal digit.
hex_digit : ℕ → Char
hex_digit zero = "0"
hex_digit (suc zero) = "1"
hex_digit (suc (suc zero)) = "2"
hex_digit (suc (suc (suc zero))) = "3"
hex_digit (suc (suc (suc (suc zero)))) = "4"
hex_digit (suc (suc (suc (suc (suc zero))))) = "5"
hex_digit (suc (suc (suc (suc (suc (suc zero)))))) = "6"
hex_digit (suc (suc (suc (suc (suc (suc (suc zero))))))) = "7"
hex_digit (suc (suc (suc (suc (suc (suc (suc (suc zero)))))))) = "8"
hex_digit (suc (suc (suc (suc (suc (suc (suc (suc (suc zero))))))))) = "9"
hex_digit (suc (suc (suc (suc (suc (suc (suc (suc (suc (suc zero)))))))))) = "A"
hex_digit (suc (suc (suc (suc (suc (suc (suc (suc (suc (suc (suc zero))))))))))) = "B"
hex_digit (suc (suc (suc (suc (suc (suc (suc (suc (suc (suc (suc (suc zero)))))))))))) = "C"
hex_digit (suc (suc (suc (suc (suc (suc (suc (suc (suc (suc (suc (suc (suc zero))))))))))))) = "D"
hex_digit (suc (suc (suc (suc (suc (suc (suc (suc (suc (suc (suc (suc (suc (suc zero)))))))))))))) =
    "E"
hex_digit _ = "F"

-- `ishex` and `unhex` of a byte.
hex_value : ℕ → Option ℕ
hex_value b =
    if leb b'0' b && leb b b'9'
    then some (b - b'0')
    else if leb b'a' b && leb b b'f'
    then some (b - b'a' + 10)
    else if leb b'A' b && leb b b'F'
    then some (b - b'A' + 10)
    else none

-- The bytes that stay as they are.
unreserved : ℕ → Bool
unreserved b =
    leb b'a' b && leb b b'z'
    || leb b'A' b && leb b b'Z'
    || leb b'0' b && leb b b'9'
    || eqb b b'-'
    || eqb b b'_'
    || eqb b b'.'
    || eqb b b'~'

percents : List ℕ → String
percents List.[] = ""
percents (List.◌∷◌ b bytes) = "%" ∷ hex_digit (b / 16) ∷ hex_digit (b % 16) ∷ percents bytes

-- A byte that stays and a blank are characters of one byte.
escape_char : Char → String
unfolding unreserved percents hex_digit
escape_char c =
    if unreserved (code c)
    then c ∷ ""
    else if eqb (code c) b' '
    then "+"
    else percents (utf8_code (code c))

-- QueryEscape
unfoldable pub query_escape : String → String
unfolding escape_char
query_escape [] = ""
query_escape (c ∷ s) = escape_char c <> query_escape s

-- Between two characters: none is open, or a `%` is, with the text from it on, and then its first
-- digit.
data Progress : Type 0 where
  plain : Progress
  first : String → Progress
  second : String → ℕ → Progress

module _ (escape_error : String → Error) where
  with_digit : String → (ℕ → Progress × List ℕ) → Option ℕ → Result (Progress × List ℕ)
  with_digit from f none = err (escape_error from)
  with_digit from f (some d) = ok (f d)

  -- What a character does, and the bytes that it gives; `s` is the text after it.
  read_char : Progress → Char → String → Result (Progress × List ℕ)
  unfolding with_digit
  read_char plain c s =
      if eqb (code c) b'%'
      then ok (first (c ∷ s), List.[])
      else if eqb (code c) b'+'
      then ok (plain, List.◌∷◌ b' ' List.[])
      else ok (plain, utf8_code (code c))
  read_char (first from) c s = with_digit from (λ d. (second from d, List.[])) (hex_value (code c))
  read_char (second from h) c s =
      with_digit from (λ d. (plain, List.◌∷◌ (h * 16 + d) List.[])) (hex_value (code c))

  unescape : Progress → String → Result (List ℕ)
  unfolding read_char
  unescape plain [] = ok List.[]
  unescape (first from) [] = err (escape_error from)
  unescape (second from h) [] = err (escape_error from)
  unescape p (c ∷ s) =
      and_then (read_char p c s) λ (p', out). and_then (unescape p' s) λ bytes. ok (out ++ bytes)

  -- The bytes that QueryUnescape gives; `escape_error` is its error at a `%` without two digits.
  pub query_unescape : String → Result (List ℕ)
  unfolding unescape
  query_unescape s = unescape plain s

tests : query_escape "a b/€" ≡ "a+b%2F%E2%82%AC"
unfolding query_escape utf8_code
tests = refl
