-- ===== src/Prelude/Text/Trim.antt =====
-- strings.TrimSpace and strings.TrimRight(s, ";").
use Prim.Native.Nat.{ℕ}
use Prim.Native.Char.{Char, code}
use Prim.Native.String.{String, [], ◌∷◌}
use mathlib.Core.Path.{◌≡◌, refl}
use mathlib.Core.Bool.{Bool, ◌&&◌, ◌||◌}
use zabbix_agent2_plugin_pos.Prelude.Tests.{leb, eqb, if◌then◌else◌}

-- unicode.IsSpace
unfoldable pub is_space : ℕ → Bool
is_space c =
    (leb 9 c && leb c 13)
    || eqb c 32
    || eqb c 0x85
    || eqb c 0xa0
    || eqb c 0x1680
    || (leb 0x2000 c && leb c 0x200a)
    || eqb c 0x2028
    || eqb c 0x2029
    || eqb c 0x202f
    || eqb c 0x205f
    || eqb c 0x3000

-- Without the leading characters that pass the test.
unfoldable pub trim_left : (ℕ → Bool) → String → String
trim_left p [] = []
trim_left p (c ∷ s) = let rest = trim_left p s in if p (code c) then rest else c ∷ s

-- A character stays if a later one does, or if it fails the test.
abbrev pub kept_before : (ℕ → Bool) → Char → String → String
kept_before p c [] = if p (code c) then [] else c ∷ []
kept_before p c (d ∷ s) = c ∷ d ∷ s

-- Without the trailing characters that pass the test.
unfoldable pub trim_right : (ℕ → Bool) → String → String
trim_right p [] = []
trim_right p (c ∷ s) = kept_before p c (trim_right p s)

unfoldable pub trim_space : String → String
unfolding is_space trim_left trim_right
trim_space s = trim_right is_space (trim_left is_space s)

abbrev pub is_semicolon : ℕ → Bool
is_semicolon c = eqb c b';'

tests : trim_right is_semicolon (trim_space "  select 1; ;; \n") ≡ "select 1; "
unfolding trim_space
tests = refl
