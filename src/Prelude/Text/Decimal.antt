-- ===== src/Prelude/Text/Decimal.antt =====
-- strconv.FormatInt(n, 10), strconv.Itoa, and strconv.ParseInt(s, 10, 64), which strconv.Atoi
-- agrees with on a 64-bit machine.
use Prim.Native.Nat.{ℕ, zero, suc, ◌+◌, ◌-◌, ◌*◌, ◌/◌, ◌%◌, ◌^◌, ◌<◌}
use Prim.Native.Char.{Char, code}
use Prim.Native.String.{String, [], ◌∷◌}
use mathlib.Core.Path.{◌≡◌, refl, sym, ap, ◌∙◌}
use mathlib.Core.Logic.{inl, inr}
use mathlib.Core.Bool.{◌&&◌}
use native.Mathlib.Omega.{arith}
use zabbix_agent2_plugin_pos.Prelude.Tests.{
  ltb, leb, eqb, if◌then◌else◌, Bool-cases, lt→ltb, le→leb, ne→eqb,
}
use zabbix_agent2_plugin_pos.Prelude.Integers.{ℤ, pos, negsuc}

-- The character of a digit below 10.
digit : ℕ → Char
digit zero = "0"
digit (suc zero) = "1"
digit (suc (suc zero)) = "2"
digit (suc (suc (suc zero))) = "3"
digit (suc (suc (suc (suc zero)))) = "4"
digit (suc (suc (suc (suc (suc zero))))) = "5"
digit (suc (suc (suc (suc (suc (suc zero)))))) = "6"
digit (suc (suc (suc (suc (suc (suc (suc zero))))))) = "7"
digit (suc (suc (suc (suc (suc (suc (suc (suc zero)))))))) = "8"
digit _ = "9"

-- The digits of `n` in front of `out`; a round for each digit, so fuel above `n` is enough.
digits : ℕ → ℕ → String → String
digits zero n out = out
digits (suc fuel) n out =
    let rest = digits fuel (n / 10) (digit (n % 10) ∷ out) in
    if ltb n 10 then digit n ∷ out else rest

unfoldable pub format_int : ℤ → String
unfolding digits digit
format_int (pos n) = digits (suc n) n []
format_int (negsuc n) = "-" ∷ digits (suc (suc n)) (suc n) []

pub data NumError : Type 0 where
  syntax range : NumError

pub data Parsed (A : Type 0) : Type 0 where
  parsed : A → Parsed A
  rejected : NumError → Parsed A

-- The loop of strconv.ParseUint: it stops at the first character that is no digit, or at the first
-- digit that takes the value above 2^64 - 1.
scan : String → ℕ → Parsed ℕ
scan [] n = parsed n
scan (c ∷ s) n =
    let next = n * 10 + (code c - b'0') in
    let rest = scan s next in
    if leb b'0' (code c) && leb (code c) b'9'
    then if ltb next (2 ^ 64) then rest else rejected range
    else rejected syntax

unsigned : String → Parsed ℕ
unfolding scan
unsigned [] = rejected syntax
unsigned (c ∷ s) = scan (c ∷ s) 0

positive : Parsed ℕ → Parsed ℤ
positive (parsed n) = if ltb n (2 ^ 63) then parsed (pos n) else rejected range
positive (rejected e) = rejected e

negative : Parsed ℕ → Parsed ℤ
negative (parsed zero) = parsed (pos 0)
negative (parsed (suc n)) = if ltb n (2 ^ 63) then parsed (negsuc n) else rejected range
negative (rejected e) = rejected e

unfoldable pub parse_int : String → Parsed ℤ
unfolding unsigned positive negative
parse_int [] = rejected syntax
parse_int (c ∷ s) =
    if eqb (code c) b'-'
    then negative (unsigned s)
    else if eqb (code c) b'+'
    then positive (unsigned s)
    else positive (unsigned (c ∷ s))

code-digit : (d : ℕ) → d < 10 → code (digit d) ≡ d + b'0'
unfolding digit
code-digit zero h = refl
code-digit (suc zero) h = refl
code-digit (suc (suc zero)) h = refl
code-digit (suc (suc (suc zero))) h = refl
code-digit (suc (suc (suc (suc zero)))) h = refl
code-digit (suc (suc (suc (suc (suc zero))))) h = refl
code-digit (suc (suc (suc (suc (suc (suc zero)))))) h = refl
code-digit (suc (suc (suc (suc (suc (suc (suc zero))))))) h = refl
code-digit (suc (suc (suc (suc (suc (suc (suc (suc zero)))))))) h = refl
code-digit (suc (suc (suc (suc (suc (suc (suc (suc (suc d))))))))) h = omega arith

-- An int64 value.
abbrev pub IsInt64 : ℤ → Type 0
IsInt64 (pos n) = n < 2 ^ 63
IsInt64 (negsuc n) = n < 2 ^ 63

scan-cons-digit :
    (d n : ℕ) (s : String)
    → d < 10
    → n * 10 + d < 2 ^ 64
    → scan (digit d ∷ s) n ≡ scan s (n * 10 + d)
unfolding scan
scan-cons-digit d n s h b =
    let cancel : d + 48 - 48 ≡ d = omega arith in
    rw (code-digit d h) (
      rw (cancel, le→leb 48 (d + 48) (omega arith), le→leb (d + 48) 57 (omega arith))
        (rw (lt→ltb _ _ b)))

-- Reading the digits of `n` in front of a text goes on as from `n` at the text.
scan-digits :
    (fuel n : ℕ) (out : String) → n < fuel → n < 2 ^ 64 → scan (digits fuel n out) 0 ≡ scan out n
unfolding digits
scan-digits zero n out h b = absurd (omega arith)
scan-digits (suc fuel) n out h b = elim (Bool-cases (ltb n 10)) [
  | inl last ↦
      rw last (scan-cons-digit n 0 out (ground arith) (ground arith) ∙ ap (scan out) (omega arith))
  | inr more ↦ rw more (
      scan-digits fuel (n / 10) (digit (n % 10) ∷ out) (ground arith) (omega arith)
      ∙ scan-cons-digit (n % 10) (n / 10) out (omega arith) (omega arith)
      ∙ ap (scan out) (omega arith))
]

-- A text that begins with a digit.
abbrev Begins : String → Type 0
Begins s = (d : ℕ) × (t : String) × (d < 10) × (s ≡ digit d ∷ t)

digits-Begins_onto : (fuel n d : ℕ) (out : String) → d < 10 → Begins (digits fuel n (digit d ∷ out))
unfolding digits
digits-Begins_onto zero n d out h = (d, out, h, refl)
digits-Begins_onto (suc fuel) n d out h = elim (Bool-cases (ltb n 10)) [
  | inl last ↦ rw last (n, digit d ∷ out, ground arith, refl)
  | inr more ↦ rw more (digits-Begins_onto fuel (n / 10) (n % 10) _ (omega arith))
]

digits-Begins : (fuel n : ℕ) → Begins (digits (suc fuel) n [])
unfolding digits
digits-Begins fuel n = elim (Bool-cases (ltb n 10)) [
  | inl last ↦ rw last (n, [], ground arith, refl)
  | inr more ↦ rw more (digits-Begins_onto fuel (n / 10) (n % 10) [] (omega arith))
]

unsigned-digits : (n : ℕ) → n < 2 ^ 64 → unsigned (digits (suc n) n []) ≡ parsed n
unfolding unsigned
unsigned-digits n b =
    let (d, t, h, e) = digits-Begins n n in
    rw e (sym (ap (λ s. scan s 0) e) ∙ scan-digits (suc n) n [] (omega arith) b)

parse_int-digit :
    (d : ℕ) (t : String) → d < 10 → parse_int (digit d ∷ t) ≡ positive (unsigned (digit d ∷ t))
unfolding parse_int
parse_int-digit d t h =
    rw (code-digit d h) (rw (ne→eqb (d + 48) 45 (omega arith), ne→eqb (d + 48) 43 (omega arith)))

parse_int-minus : (t : String) → parse_int ("-" ∷ t) ≡ negative (unsigned t)
unfolding parse_int
parse_int-minus t = refl

format_int-pos : (n : ℕ) → format_int (pos n) ≡ digits (suc n) n []
unfolding format_int
format_int-pos n = refl

format_int-negsuc : (n : ℕ) → format_int (negsuc n) ≡ "-" ∷ digits (suc (suc n)) (suc n) []
unfolding format_int
format_int-negsuc n = refl

parse_int-digits :
    (n : ℕ) → parse_int (digits (suc n) n []) ≡ positive (unsigned (digits (suc n) n []))
parse_int-digits n = let (d, t, h, e) = digits-Begins n n in rw e (parse_int-digit d t h)

-- Every int64 is read back from its print.
pub parse_int-format_int : (z : ℤ) → IsInt64 z → parse_int (format_int z) ≡ parsed z
unfolding positive negative
parse_int-format_int (pos n) b =
    ap parse_int (format_int-pos n)
    ∙ parse_int-digits n
    ∙ ap positive (unsigned-digits n (omega arith))
    ∙ rw (lt→ltb _ _ b)
parse_int-format_int (negsuc n) b =
    ap parse_int (format_int-negsuc n)
    ∙ parse_int-minus _
    ∙ ap negative (unsigned-digits (suc n) (omega arith))
    ∙ rw (lt→ltb _ _ b)

tests :
    (format_int (pos 120) ≡ "120")
    × (format_int (negsuc 9) ≡ "-10")
    × (format_int (pos 0) ≡ "0")
    × (parse_int "-17" ≡ parsed (negsuc 16))
    × (parse_int "1x" ≡ rejected syntax)
    × (parse_int "99999999999999999999x" ≡ rejected range)
unfolding format_int parse_int
tests = (refl, refl, refl, refl, refl, refl)
