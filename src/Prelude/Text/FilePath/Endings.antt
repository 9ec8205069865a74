-- ===== src/Prelude/Text/FilePath/Endings.antt =====
-- Base and Ext of a path whose last part has a known ending.
use Prim.Native.Nat.{ℕ}
use Prim.Native.Char.{Char, code}
use Prim.Native.String.{String, ◌++◌ as ◌<>◌}
use text.Mathlib.TextLemmas.{cons-append, nil-append, cons≢nil}
use mathlib.Core.Path.{◌≡◌, refl, sym, ap, ◌∙◌}
use mathlib.Core.Logic.{◌≢◌, inl, inr}
use mathlib.Core.Bool.{Bool, false}
use mathlib.Core.List.{List, [], ◌∷◌}
use native.Mathlib.Omega.{arith}
use zabbix_agent2_plugin_pos.Prelude.Tests.{eqb, Bool-cases}
use zabbix_agent2_plugin_pos.Prelude.Equality.{◌==◌, ==_refl, string_eq}
use zabbix_agent2_plugin_pos.Prelude.Text.Trim.{trim_right, kept_before}
use zabbix_agent2_plugin_pos.Prelude.Text.FilePath.{
  is_slash, extend, split, last_part, base, from_dot, ext,
}

-- No character passes the test.
abbrev pub Lacks : (ℕ → Bool) → String → Type 0
Lacks p String.[] = Unit {0}
Lacks p (String.◌∷◌ c s) = (p (code c) ≡ false) × Lacks p s

abbrev pub is_dot : ℕ → Bool
is_dot c = eqb c b'.'

ne→== : (s t : String) → s ≢ t → (s == t) ≡ false
ne→== s t h = ground arith

cons-ne : (c : Char) (s : String) → (String.◌∷◌ c s == "") ≡ false
cons-ne c s = ne→== (String.◌∷◌ c s) "" (λ e. cons≢nil e)

-- There is a last part, and it ends in the text.
abbrev LastEnds : String → List String → Type 0
LastEnds t [] = ⊥
LastEnds t (part ∷ []) = (x : String) × (part ≡ x <> t)
LastEnds t (part ∷ next ∷ parts) = LastEnds t (next ∷ parts)

LastEnds-last_part :
    (t : String) (parts : List String)
    → LastEnds t parts
    → (x : String) × (last_part parts ≡ x <> t)
unfolding last_part
LastEnds-last_part t [] h = absurd h
LastEnds-last_part t (part ∷ []) h = h
LastEnds-last_part t (part ∷ next ∷ parts) h = LastEnds-last_part t (next ∷ parts) h

LastEnds-extend :
    (c : Char) (t : String) (parts : List String) → LastEnds t parts → LastEnds t (extend c parts)
LastEnds-extend c t [] h = absurd h
LastEnds-extend c t (part ∷ []) (x, e) =
    (String.◌∷◌ c x, ap (λ s. String.◌∷◌ c s) e ∙ sym (cons-append c x t))
LastEnds-extend c t (part ∷ next ∷ parts) h = h

LastEnds-cons :
    (part t : String) (parts : List String) → LastEnds t parts → LastEnds t (part ∷ parts)
LastEnds-cons part t [] h = absurd h
LastEnds-cons part t (next ∷ parts) h = h

split-Lacks : (t : String) → Lacks is_slash t → split t ≡ t ∷ []
unfolding split
split-Lacks String.[] h = refl
split-Lacks (String.◌∷◌ c t) (other, h) = rw other (rw (split-Lacks t h) refl)

split-LastEnds : (pre t : String) → Lacks is_slash t → LastEnds t (split (pre <> t))
unfolding split
split-LastEnds String.[] t h = rw (nil-append t) (rw (split-Lacks t h) ("", sym (nil-append t)))
split-LastEnds (String.◌∷◌ c pre) t h =
    rw (cons-append c pre t) (elim (Bool-cases (is_slash (code c))) [
      | inl slash ↦ rw slash (LastEnds-cons "" t (split (pre <> t)) (split-LastEnds pre t h))
      | inr other ↦ rw other (LastEnds-extend c t (split (pre <> t)) (split-LastEnds pre t h))
    ])

-- The last part of a path keeps an ending without slashes.
last_part-append :
    (pre t : String) → Lacks is_slash t → (x : String) × (last_part (split (pre <> t)) ≡ x <> t)
last_part-append pre t h = LastEnds-last_part t (split (pre <> t)) (split-LastEnds pre t h)

from_dot-Lacks : (t : String) → Lacks is_dot t → from_dot t ≡ ""
unfolding from_dot
from_dot-Lacks String.[] h = refl
from_dot-Lacks (String.◌∷◌ c t) (other, h) =
    rw (from_dot-Lacks t h) (rw (==_refl {A = String} "") (rw other refl))

from_dot-append :
    (x t : String) → Lacks is_dot t → from_dot (x <> String.◌∷◌ "." t) ≡ String.◌∷◌ "." t
unfolding from_dot
from_dot-append String.[] t h =
    rw (nil-append (String.◌∷◌ "." t)) (rw (from_dot-Lacks t h) (rw (==_refl {A = String} "") refl))
from_dot-append (String.◌∷◌ c x) t h =
    rw (cons-append c x (String.◌∷◌ "." t)) (rw (from_dot-append x t h) (rw (cons-ne "." t) refl))

append_ne : (pre : String) (c : Char) (t : String) → pre <> String.◌∷◌ c t ≢ ""
append_ne String.[] c t e = cons≢nil (sym (nil-append (String.◌∷◌ c t)) ∙ e)
append_ne (String.◌∷◌ b pre) c t e = cons≢nil (sym (cons-append b pre (String.◌∷◌ c t)) ∙ e)

module _ (p : ℕ → Bool) where
  kept_before-ne : (c : Char) (s : String) → s ≢ "" → kept_before p c s ≡ String.◌∷◌ c s
  kept_before-ne c String.[] h = absurd (h refl)
  kept_before-ne c (String.◌∷◌ d s) h = refl

  trim_right-Lacks :
      (c : Char) (t : String)
      → Lacks p (String.◌∷◌ c t)
      → trim_right p (String.◌∷◌ c t) ≡ String.◌∷◌ c t
  unfolding trim_right
  trim_right-Lacks c String.[] (other, h) = rw other refl
  trim_right-Lacks c (String.◌∷◌ d t) (other, h) = ap (kept_before p c) (trim_right-Lacks d t h)

  -- TrimRight leaves a text whose last character fails the test.
  trim_right-append :
      (pre : String) (c : Char) (t : String)
      → Lacks p (String.◌∷◌ c t)
      → trim_right p (pre <> String.◌∷◌ c t) ≡ pre <> String.◌∷◌ c t
  unfolding trim_right
  trim_right-append String.[] c t h = rw (nil-append (String.◌∷◌ c t)) (trim_right-Lacks c t h)
  trim_right-append (String.◌∷◌ b pre) c t h = rw (cons-append b pre (String.◌∷◌ c t)) (
      rw (trim_right-append pre c t h)
        (kept_before-ne b (pre <> String.◌∷◌ c t) (append_ne pre c t)))

-- Base keeps an ending that holds no slash.
pub base-append :
    (pre : String) (c : Char) (t : String)
    → Lacks is_slash (String.◌∷◌ c t)
    → (x : String) × (base (pre <> String.◌∷◌ c t) ≡ x <> String.◌∷◌ c t)
unfolding base
base-append pre c t h =
    let path = pre <> String.◌∷◌ c t in
    let there = ne→== path "" (append_ne pre c t) in
    let (x, e) = last_part-append pre (String.◌∷◌ c t) h in
    (x, rw (base, there) (rw (base, trim_right-append is_slash pre c t h) (rw there e)))

-- Ext is the text from the last dot on.
pub ext-append :
    (pre t : String)
    → Lacks is_slash t
    → Lacks is_dot t
    → ext (pre <> String.◌∷◌ "." t) ≡ String.◌∷◌ "." t
unfolding ext
ext-append pre t slash dot =
    let (x, e) = last_part-append pre (String.◌∷◌ "." t) (refl, slash) in
    ap from_dot e ∙ from_dot-append x t dot
