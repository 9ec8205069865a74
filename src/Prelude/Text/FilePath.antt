-- ===== src/Prelude/Text/FilePath.antt =====
-- path/filepath on unix: Clean, Dir, Base, Ext and IsAbs.
pub mod Endings
use Prim.Native.Nat.{ℕ}
use Prim.Native.Char.{Char, code}
use Prim.Native.String.{String, ◌++◌ as ◌<>◌}
use mathlib.Core.Path.{◌≡◌, refl}
use mathlib.Core.Bool.{Bool, false, ◌||◌}
use mathlib.Core.List.{List, [], ◌∷◌, reverse}
use zabbix_agent2_plugin_pos.Prelude.Tests.{eqb, if◌then◌else◌}
use zabbix_agent2_plugin_pos.Prelude.Equality.{◌==◌, string_eq}
use zabbix_agent2_plugin_pos.Prelude.Text.Trim.{trim_right}
use zabbix_agent2_plugin_pos.Prelude.Text.Json.{join}

abbrev pub is_slash : ℕ → Bool
is_slash c = eqb c b'/'

abbrev extend : Char → List String → List String
extend c [] = String.◌∷◌ c "" ∷ []
extend c (part ∷ parts) = String.◌∷◌ c part ∷ parts

-- The parts between the slashes.
split : String → List String
split String.[] = "" ∷ []
split (String.◌∷◌ c s) = if is_slash (code c) then "" ∷ split s else extend c (split s)

abbrev up : Bool → List String → List String
up rooted [] = if rooted then [] else ".." ∷ []
up rooted (top ∷ rest) = if top == ".." then ".." ∷ top ∷ rest else rest

-- The parts kept so far, the last one first.
resolve : Bool → List String → List String → List String
resolve rooted kept [] = kept
resolve rooted kept (part ∷ parts) =
    resolve rooted
      (if part == "" || part == "."
        then kept
        else if part == ".."
        then up rooted kept
        else part ∷ kept)
      parts

unfoldable pub is_abs : String → Bool
is_abs String.[] = false
is_abs (String.◌∷◌ c s) = is_slash (code c)

unfoldable pub clean : String → String
unfolding split resolve is_abs join
clean path =
    let parts = join (reverse (resolve (is_abs path) [] (split path))) "/" in
    if is_abs path then "/" <> parts else if parts == "" then "." else parts

-- The text up to its last slash, that slash included.
upto_slash : String → String
upto_slash String.[] = ""
upto_slash (String.◌∷◌ c s) =
    let before = upto_slash s in
    if before == ""
    then (if is_slash (code c) then String.◌∷◌ c "" else "")
    else String.◌∷◌ c before

unfoldable pub dir : String → String
unfolding upto_slash clean
dir path = clean (upto_slash path)

last_part : List String → String
last_part [] = ""
last_part (part ∷ []) = part
last_part (part ∷ next ∷ parts) = last_part (next ∷ parts)

unfoldable pub base : String → String
unfolding last_part split trim_right
base path =
    let trimmed = trim_right is_slash path in
    if path == "" then "." else if trimmed == "" then "/" else last_part (split trimmed)

-- The text from its last dot on, that dot included; empty without a dot.
from_dot : String → String
from_dot String.[] = ""
from_dot (String.◌∷◌ c s) =
    let later = from_dot s in
    if later == "" then (if eqb (code c) b'.' then String.◌∷◌ c s else "") else later

unfoldable pub ext : String → String
unfolding from_dot last_part split
ext path = from_dot (last_part (split path))

tests :
    (dir "/var/run//postgresql/../.s.PGSQL.5432" ≡ "/var/run")
    × (dir "s.1" ≡ ".")
    × (base "/tmp/.s.PGSQL.5432" ≡ ".s.PGSQL.5432")
    × (ext ".s.PGSQL.5432" ≡ ".5432")
    × (ext "a.b/c" ≡ "")
unfolding dir base ext string_eq
tests = (refl, refl, refl, refl, refl)
