-- ===== src/Conn/Query/Laws.antt =====
-- What `QueryByName` makes of the text of a custom query.
use Prim.Native.Char.{code}
use text.Mathlib.TextLemmas.{cons-append, nil-append}
use zabbix_agent2_plugin_pos.Prelude.{
  ℕ, String, ◌<>◌, ◌≡◌, refl, sym, ap, ◌∙◌, Bool, true, false, Bool-cases, inl, inr, if◌then◌else◌,
}
use zabbix_agent2_plugin_pos.Prelude.Text.Trim.{trim_space, trim_right, kept_before, is_semicolon}
use zabbix_agent2_plugin_pos.Conn.Query.{normalized_sql}

-- The last character passes the test.
abbrev ends_in : (ℕ → Bool) → String → Bool
ends_in p String.[] = false
ends_in p (String.◌∷◌ c String.[]) = p (code c)
ends_in p (String.◌∷◌ c (String.◌∷◌ d s)) = ends_in p (String.◌∷◌ d s)

-- Every character passes the test.
abbrev consists_of : (ℕ → Bool) → String → Bool
consists_of p String.[] = true
consists_of p (String.◌∷◌ c s) = if p (code c) then consists_of p s else false

-- The second text is the first without a tail of characters that pass the test.
abbrev Trimmed : (ℕ → Bool) → String → String → Type 0
Trimmed p s t =
    (tail : String) × (s ≡ t <> tail) × (consists_of p tail ≡ true) × (ends_in p t ≡ false)

trim_right-Trimmed : (p : ℕ → Bool) (s : String) → Trimmed p s (trim_right p s)
unfolding trim_right
trim_right-Trimmed p String.[] = ("", sym (nil-append ""), refl, refl)
trim_right-Trimmed p (String.◌∷◌ c s) = extend (trim_right p s) (trim_right-Trimmed p s)
  where
    extend : (t : String) → Trimmed p s t → Trimmed p (String.◌∷◌ c s) (kept_before p c t)
    extend String.[] (tail, e, all, last) = elim (Bool-cases (p (code c))) [
      | inl passes ↦
          let whole : consists_of p s ≡ true = cc (e, nil-append tail, all) in
          rw passes (String.◌∷◌ c s, sym (nil-append _), rw passes whole, refl)
      | inr stays ↦
          let whole : consists_of p s ≡ true = cc (e, nil-append tail, all) in
          rw stays (s, cc (cons-append c "" s, nil-append s), whole, stays)
    ]
    extend (String.◌∷◌ d t) (tail, e, all, last) =
        (tail, ap (λ x. String.◌∷◌ c x) e ∙ sym (cons-append c _ tail), all, last)

-- The text that is sent is the stored text without the blanks around it and then without all its
-- trailing semicolons, and nothing else is taken away.
normalized_sql_lem :
    (sql : String)
    → (tail : String) × (trim_space sql ≡ normalized_sql sql <> tail)
      × (consists_of is_semicolon tail ≡ true)
      × (ends_in is_semicolon (normalized_sql sql) ≡ false)
unfolding normalized_sql
normalized_sql_lem sql = trim_right-Trimmed is_semicolon (trim_space sql)
