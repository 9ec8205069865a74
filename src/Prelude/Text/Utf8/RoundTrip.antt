-- ===== src/Prelude/Text/Utf8/RoundTrip.antt =====
-- The UTF-8 of a text is read back as the text.
use Prim.Native.Nat.{ℕ, zero, ◌+◌, ◌*◌, ◌/◌, ◌%◌, ◌<◌, ◌≤◌}
use Prim.Native.Char.{code}
use Prim.Native.String.{String, [], ◌∷◌}
use mathlib.Core.Path.{◌≡◌, refl, ap, ◌∙◌}
use mathlib.Core.Logic.{inl, inr}
use mathlib.Core.Option.{some}
use mathlib.Core.List.{List, ◌++◌}
use native.Mathlib.Omega.{arith}
use zabbix_agent2_plugin_pos.Prelude.Tests.{Bool-cases, le→leb, lt→ltb, ltb}
use zabbix_agent2_plugin_pos.Prelude.Text.Utf8.{
  utf8_code, utf8, to_char, to_char-code, code_below, idle, more, next, emit, continued, read_byte,
  add_char, decode, from_utf8,
}

-- The bytes of a character, whatever follows, give it back.
lead_ascii : (n : ℕ) → n < 128 → read_byte idle n ≡ emit n
unfolding read_byte
lead_ascii n h = ground arith

lead_two : (x : ℕ) → 2 ≤ x → x < 32 → read_byte idle (192 + x) ≡ next (more 0 128 x)
unfolding read_byte
lead_two x l h = ground arith

lead_three : (x : ℕ) → x < 16 → read_byte idle (224 + x) ≡ next (more 1 2048 x)
unfolding read_byte
lead_three x h = ground arith

lead_four : (x : ℕ) → x < 5 → read_byte idle (240 + x) ≡ next (more 2 65536 x)
unfolding read_byte
lead_four x h = ground arith

goes_on :
    (k least v x : ℕ)
    → x < 64
    → read_byte (more k least v) (128 + x) ≡ continued k least (v * 64 + x)
unfolding read_byte
goes_on k least v x h =
    rw (le→leb 128 (128 + x) (omega arith))
      (rw (lt→ltb (128 + x) 192 (omega (arith, h))) (ap (continued k least) (omega arith)))

ends : (least v : ℕ) → least ≤ v → continued zero least v ≡ emit v
unfolding continued
ends least v h = rw (le→leb least v h) refl

-- The bits of a code point, six by six.
two : (n : ℕ) → n / 64 * 64 + n % 64 ≡ n
two n = omega arith

three : (n : ℕ) → (n / 4096 * 64 + n / 64 % 64) * 64 + n % 64 ≡ n
three n = omega arith

four : (n : ℕ) → ((n / 262144 * 64 + n / 4096 % 64) * 64 + n / 64 % 64) * 64 + n % 64 ≡ n
four n = omega arith

-- A character of two bytes, of three, and of four.
decode_two :
    (n : ℕ) (rest : List ℕ)
    → 128 ≤ n
    → n < 2048
    → decode idle (List.◌∷◌ (192 + n / 64) (List.◌∷◌ (128 + n % 64) rest))
      ≡ add_char (to_char n) (decode idle rest)
unfolding decode
decode_two n rest l h = rw (lead_two (n / 64) (omega (arith, l)) (omega (arith, h))) (
    rw (goes_on 0 128 (n / 64) (n % 64) (omega arith)) (
      rw (ends 128 (n / 64 * 64 + n % 64) (omega (arith, l)))
        (ap (λ m. add_char (to_char m) (decode idle rest)) (two n))))

decode_three :
    (n : ℕ) (rest : List ℕ)
    → 2048 ≤ n
    → n < 65536
    → decode idle
        (List.◌∷◌ (224 + n / 4096) (List.◌∷◌ (128 + n / 64 % 64) (List.◌∷◌ (128 + n % 64) rest)))
      ≡ add_char (to_char n) (decode idle rest)
unfolding decode
decode_three n rest l h =
    let v = n / 4096 * 64 + n / 64 % 64 in
    rw (lead_three (n / 4096) (omega (arith, h))) (
      rw (goes_on 1 2048 (n / 4096) (n / 64 % 64) (omega arith)) (
        rw (goes_on 0 2048 v (n % 64) (omega arith)) (
          rw (ends 2048 (v * 64 + n % 64) (omega (arith, three n, l)))
            (ap (λ m. add_char (to_char m) (decode idle rest)) (three n)))))

decode_four :
    (n : ℕ) (rest : List ℕ)
    → 65536 ≤ n
    → n < 1114112
    → decode idle (
        List.◌∷◌ (240 + n / 262144) (
          List.◌∷◌
            (128 + n / 4096 % 64)
            (List.◌∷◌ (128 + n / 64 % 64) (List.◌∷◌ (128 + n % 64) rest))))
      ≡ add_char (to_char n) (decode idle rest)
unfolding decode
decode_four n rest l h =
    let u = n / 262144 * 64 + n / 4096 % 64 in
    let v = u * 64 + n / 64 % 64 in
    rw (lead_four (n / 262144) (omega (arith, h))) (
      rw (goes_on 2 65536 (n / 262144) (n / 4096 % 64) (omega arith)) (
        rw (goes_on 1 65536 u (n / 64 % 64) (omega arith)) (
          rw (goes_on 0 65536 v (n % 64) (omega arith)) (
            rw (ends 65536 (v * 64 + n % 64) (omega (arith, four n, l)))
              (ap (λ m. add_char (to_char m) (decode idle rest)) (four n))))))

decode-utf8_code :
    (n : ℕ) (rest : List ℕ)
    → n < 1114112
    → decode idle (utf8_code n ++ rest) ≡ add_char (to_char n) (decode idle rest)
unfolding utf8_code decode
decode-utf8_code n rest h = elim (Bool-cases (ltb n 128)) [
  | inl b ↦ rw (utf8_code, b) (rw (lead_ascii n (ground arith)) refl)
  | inr b ↦ elim (Bool-cases (ltb n 2048)) [
    | inl b2 ↦
        rw (utf8_code, b) (rw (utf8_code, b2) (decode_two n rest (ground arith) (ground arith)))
    | inr b2 ↦ elim (Bool-cases (ltb n 65536)) [
      | inl b3 ↦
          rw (utf8_code, b)
            (rw (utf8_code, b2)
              (rw (utf8_code, b3) (decode_three n rest (ground arith) (ground arith))))
      | inr b3 ↦
          rw (utf8_code, b)
            (rw (utf8_code, b2) (rw (utf8_code, b3) (decode_four n rest (ground arith) h)))
    ]
  ]
]

decode-utf8 : (s : String) → decode idle (utf8 s) ≡ some s
unfolding decode utf8
decode-utf8 [] = refl
decode-utf8 (c ∷ s) =
    decode-utf8_code (code c) (utf8 s) (code_below c)
    ∙ rw (to_char-code c) (rw (decode-utf8 s) refl)

pub from_utf8-utf8 : (s : String) → from_utf8 (utf8 s) ≡ some s
unfolding from_utf8
from_utf8-utf8 s = decode-utf8 s
