-- ===== src/Conn/NetUrl/RoundTrip.antt =====
-- QueryUnescape undoes QueryEscape, and keeps a text without escapes.
use Prim.Native.Char.{Char, code}
use Prim.Native.String.{String, [], ◌∷◌}
use text.Mathlib.TextLemmas.{cons-append, nil-append}
use zabbix_agent2_plugin_pos.Prelude.{
  ℕ, zero, suc, ◌+◌, ◌*◌, ◌/◌, ◌%◌, ◌<◌, ◌≡◌, refl, sym, ap, ◌∙◌, inl, inr, true, false, Bool-cases,
  some, List, ◌++◌, ◌<>◌, eqb, All, eqb→≡, arith,
}
use zabbix_agent2_plugin_pos.Prelude.Text.Utf8.{utf8, utf8_code, code_below}
use zabbix_agent2_plugin_pos.Errors.{Error, Result, ok, err, panic, and_then}
use zabbix_agent2_plugin_pos.Conn.NetUrl.{
  hex_digit, hex_value, unreserved, percents, escape_char, query_escape, plain, with_digit,
  read_char, unescape, query_unescape,
}

hex_value-hex_digit : (n : ℕ) → n < 16 → hex_value (code (hex_digit n)) ≡ some n
unfolding hex_value hex_digit
hex_value-hex_digit zero h = refl
hex_value-hex_digit (suc zero) h = refl
hex_value-hex_digit (suc (suc zero)) h = refl
hex_value-hex_digit (suc (suc (suc zero))) h = refl
hex_value-hex_digit (suc (suc (suc (suc zero)))) h = refl
hex_value-hex_digit (suc (suc (suc (suc (suc zero))))) h = refl
hex_value-hex_digit (suc (suc (suc (suc (suc (suc zero)))))) h = refl
hex_value-hex_digit (suc (suc (suc (suc (suc (suc (suc zero))))))) h = refl
hex_value-hex_digit (suc (suc (suc (suc (suc (suc (suc (suc zero)))))))) h = refl
hex_value-hex_digit (suc (suc (suc (suc (suc (suc (suc (suc (suc zero))))))))) h = refl
hex_value-hex_digit (suc (suc (suc (suc (suc (suc (suc (suc (suc (suc zero)))))))))) h = refl
hex_value-hex_digit (suc (suc (suc (suc (suc (suc (suc (suc (suc (suc (suc zero))))))))))) h = refl
hex_value-hex_digit (suc (suc (suc (suc (suc (suc (suc (suc (suc (suc (suc (suc zero)))))))))))) h =
    refl
hex_value-hex_digit
      (suc (suc (suc (suc (suc (suc (suc (suc (suc (suc (suc (suc (suc zero))))))))))))) h =
    refl
hex_value-hex_digit
      (suc (suc (suc (suc (suc (suc (suc (suc (suc (suc (suc (suc (suc (suc zero)))))))))))))) h =
    refl
hex_value-hex_digit
      (suc (suc (suc (suc (suc (suc (suc (suc (suc (suc (suc (suc (suc (suc (suc zero)))))))))))))))
      h =
    refl
hex_value-hex_digit
      (suc
        (suc (suc (suc (suc (suc (suc (suc (suc (suc (suc (suc (suc (suc (suc (suc n))))))))))))))))
      h =
    absurd (omega (arith, h))

one_char : (c : Char) (t : String) → (c ∷ "") <> t ≡ c ∷ t
one_char c t = cons-append c "" t ∙ ap (λ u. c ∷ u) (nil-append t)

whole : (b : ℕ) → b / 16 * 16 + b % 16 ≡ b
whole b = omega arith

unreserved-other :
    (c : Char)
    → unreserved (code c) ≡ true
    → (eqb (code c) b'%' ≡ false) × (eqb (code c) b'+' ≡ false)
unfolding unreserved
unreserved-other c h = ground arith

utf8_code-All : (n : ℕ) → n < 1114112 → All (λ b. b < 256) (utf8_code n)
unfolding utf8_code
utf8_code-All n h = ground arith

-- No character stands for another in a query.
abbrev pub Bare : String → Type 0
Bare [] = Unit {0}
Bare (c ∷ s) = (eqb (code c) b'%' ≡ false) × (eqb (code c) b'+' ≡ false) × Bare s

module _ (escape_error : String → Error) where
  -- What the text after gives, behind the bytes before it.
  abbrev behind : List ℕ → Result (List ℕ) → Result (List ℕ)
  behind out r = and_then r λ bytes. ok (out ++ bytes)

  behind-nil : (r : Result (List ℕ)) → r ≡ behind List.[] r
  behind-nil (ok bytes) = refl
  behind-nil (err e) = refl
  behind-nil panic = refl

  behind-cons :
      (b : ℕ) (bytes : List ℕ) (r : Result (List ℕ))
      → behind (List.◌∷◌ b List.[]) (behind bytes r) ≡ behind (List.◌∷◌ b bytes) r
  behind-cons b bytes (ok more) = refl
  behind-cons b bytes (err e) = refl
  behind-cons b bytes panic = refl

  unescape-percent :
      (x y : ℕ) (t : String)
      → x < 16
      → y < 16
      → unescape escape_error plain ("%" ∷ hex_digit x ∷ hex_digit y ∷ t)
        ≡ behind (List.◌∷◌ (x * 16 + y) List.[]) (unescape escape_error plain t)
  unfolding unescape read_char with_digit
  unescape-percent x y t hx hy =
      let r = behind (List.◌∷◌ (x * 16 + y) List.[]) (unescape escape_error plain t) in
      rw (hex_value-hex_digit x hx)
        (rw (hex_value-hex_digit y hy) (sym (behind-nil (behind List.[] r)) ∙ sym (behind-nil r)))

  percents-cons :
      (b : ℕ) (bytes : List ℕ) (t : String)
      → percents (List.◌∷◌ b bytes) <> t
        ≡ "%" ∷ hex_digit (b / 16) ∷ hex_digit (b % 16) ∷ (percents bytes <> t)
  unfolding percents
  percents-cons b bytes t = simp cons-append

  unescape-percents :
      (bytes : List ℕ) (t : String)
      → All (λ b. b < 256) bytes
      → unescape escape_error plain (percents bytes <> t)
        ≡ behind bytes (unescape escape_error plain t)
  unfolding percents
  unescape-percents List.[] t h = rw (nil-append t) (behind-nil (unescape escape_error plain t))
  unescape-percents (List.◌∷◌ b bytes) t (hb, h) = rw (percents-cons b bytes t) (
      unescape-percent (b / 16) (b % 16) (percents bytes <> t) (omega (arith, hb)) (omega arith)
      ∙ rw (unescape-percents bytes t h) (
          behind-cons (b / 16 * 16 + b % 16) bytes (unescape escape_error plain t)
          ∙ ap (λ x. behind (List.◌∷◌ x bytes) (unescape escape_error plain t)) (whole b)))

  unescape-stays :
      (c : Char) (t : String)
      → eqb (code c) b'%' ≡ false
      → eqb (code c) b'+' ≡ false
      → unescape escape_error plain (c ∷ t)
        ≡ behind (utf8_code (code c)) (unescape escape_error plain t)
  unfolding unescape read_char
  unescape-stays c t percent plus = rw percent (rw plus refl)

  plus_blank :
      (t : String)
      → unescape escape_error plain ("+" ∷ t)
        ≡ behind (utf8_code b' ') (unescape escape_error plain t)
  unfolding unescape read_char utf8_code
  plus_blank t = refl

  unescape-escape_char :
      (c : Char) (t : String)
      → unescape escape_error plain (escape_char c <> t)
        ≡ behind (utf8_code (code c)) (unescape escape_error plain t)
  unfolding escape_char
  unescape-escape_char c t = elim (Bool-cases (unreserved (code c))) [
    | inl stays ↦ rw stays (
        rw (one_char c t)
          (unescape-stays c t (unreserved-other c stays).0 (unreserved-other c stays).1))
    | inr b ↦ rw b (elim (Bool-cases (eqb (code c) b' ')) [
      | inl blank ↦ rw blank (rw (one_char "+" t) (rw (eqb→≡ (code c) b' ' blank) (plus_blank t)))
      | inr b2 ↦
          rw b2 (unescape-percents (utf8_code (code c)) t (utf8_code-All (code c) (code_below c)))
    ])
  ]

  unescape-query_escape : (s : String) → unescape escape_error plain (query_escape s) ≡ ok (utf8 s)
  unfolding query_escape unescape utf8
  unescape-query_escape [] = refl
  unescape-query_escape (c ∷ s) =
      unescape-escape_char c (query_escape s) ∙ rw (unescape-query_escape s) refl

  -- A text without `%` and `+` stays as it is.
  pub query_unescape-Bare : (s : String) → Bare s → query_unescape escape_error s ≡ ok (utf8 s)
  unfolding query_unescape unescape utf8
  query_unescape-Bare [] h = refl
  query_unescape-Bare (c ∷ s) (percent, plus, h) =
      unescape-stays c s percent plus ∙ ap (behind (utf8_code (code c))) (query_unescape-Bare s h)

  -- QueryUnescape undoes QueryEscape.
  pub query_unescape-query_escape :
      (s : String) → query_unescape escape_error (query_escape s) ≡ ok (utf8 s)
  unfolding query_unescape
  query_unescape-query_escape s = unescape-query_escape s
