-- ===== src/Metrics/Validator.antt =====
-- plugin/metrics.go: `reSocketPath` and `PostgresURIValidator`.
pub mod Laws
use Prim.Native.Char.{Char, code}
use zabbix_agent2_plugin_pos.Prelude.{
  ℕ, zero, suc, String, ◌<>◌, Bool, true, false, not, ◌&&◌, ◌||◌, Option, none, some, List, [], ◌∷◌,
  ◌==◌, string_eq, contains, eqb, leb, if◌then◌else◌,
}
use zabbix_agent2_plugin_pos.Prelude.Text.Json.{join}
use zabbix_agent2_plugin_pos.Errors.{Error, wrap, new, Result, ok, err, panic}
use zabbix_agent2_plugin_pos.Sdk.{Sdk, Defaults}

abbrev pub is_digit : ℕ → Bool
is_digit c = leb b'0' c && leb c b'9'

-- `\d{0,n}$`
at_most_digits : ℕ → String → Bool
at_most_digits n String.[] = true
at_most_digits zero (String.◌∷◌ c s) = false
at_most_digits (suc n) (String.◌∷◌ c s) = is_digit (code c) && at_most_digits n s

-- `\d{1,5}$`
abbrev port_digits : String → Bool
port_digits String.[] = false
port_digits (String.◌∷◌ c s) = is_digit (code c) && at_most_digits 4 s

-- The rest of a text behind a prefix.
strip_prefix : String → String → Option String
strip_prefix String.[] s = some s
strip_prefix (String.◌∷◌ d p) String.[] = none
strip_prefix (String.◌∷◌ d p) (String.◌∷◌ c s) =
    if eqb (code c) (code d) then strip_prefix p s else none

abbrev ends_in_port : Option String → Bool
ends_in_port none = false
ends_in_port (some rest) = port_digits rest

abbrev socket_prefix : String
socket_prefix = ".s.PGSQL."

-- `^.*\.s\.PGSQL\.\d{1,5}$`, tried at each position; `.` matches no line feed.
unfoldable pub is_socket_path : String → Bool
unfolding strip_prefix at_most_digits
is_socket_path String.[] = false
is_socket_path (String.◌∷◌ c s) =
    ends_in_port (strip_prefix socket_prefix (String.◌∷◌ c s))
    || (not (eqb (code c) 10) && is_socket_path s)

-- `PostgresURIValidator`
pub record PostgresUriValidator : Type 0 where
  pub defaults : Defaults
  pub allowed_schemes : Option (List String)

abbrev is_allowed : Option (List String) → String → Bool
is_allowed none scheme = true
is_allowed (some schemes) scheme = contains schemes scheme

abbrev schemes_text : Option (List String) → String
schemes_text none = ""
schemes_text (some schemes) = join schemes ", "

module _ (S : Sdk) where
  -- The tests of a URI that was read from the text.
  unfoldable pub validate_uri : PostgresUriValidator → String → S.Uri → Result (Unit {0})
  validate_uri v value u =
      if not (is_allowed v.allowed_schemes (S.scheme u))
      then err (new ("allowed schemes: " <> schemes_text v.allowed_schemes))
      else if S.scheme u == "unix" && not (is_socket_path value)
      then err (
          new (
            "socket file must satisfy the format: \"/path/.s.PGSQL.nnnn\" where nnnn is the server's "
            <> "port number"))
      else ok tt

  -- `Validate`
  unfoldable pub validate : PostgresUriValidator → Option String → Result (Unit {0})
  validate v none = ok tt
  validate v (some value) = elim (S.uri_new value v.defaults) [
    | ok u ↦ validate_uri v value u
    | err e ↦ err (wrap e "cannot create URI validator")
    | panic ↦ panic
  ]
