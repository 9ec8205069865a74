-- ===== src/Handlers/Server/Laws.antt =====
-- What `pingHandler` and `archiveHandler` answer for every behaviour of the database.
use Prim.Native.String.{len, slice}
use text.Mathlib.TextLemmas.{append_assoc}
use text.Mathlib.TextPositions.{len-append, slice-append_left, slice-append_right}
use zabbix_agent2_plugin_pos.Prelude.{
  ℕ, ◌-◌, String, ◌<>◌, ◌≡◌, refl, ap, ◌∙◌, ◌↔◌, ◌⊎◌, inl, inr, false, List, [], ◌∷◌, ◌++◌, eqb,
  eqb→≡, eqb→≢, ne→eqb, Bool-cases, arith,
}
use zabbix_agent2_plugin_pos.Prelude.Dict.{Dict}
use zabbix_agent2_plugin_pos.Prelude.Integers.{pos, negsuc, pos_part}
use zabbix_agent2_plugin_pos.Errors.{ok, panic, Result-cases}
use zabbix_agent2_plugin_pos.Client.{PostgresClient}
use zabbix_agent2_plugin_pos.Client.Values.{Row, Formats, scan, to_string, to_int}
use zabbix_agent2_plugin_pos.Handlers.Fetch.{Answer, fetch_with, cannot_fetch, scan_failed}
use zabbix_agent2_plugin_pos.Handlers.Fetch.Laws.{fetch_with_scanned}
use zabbix_agent2_plugin_pos.Handlers.Server.{
  archive_count_sql, archive_size_sql, merge, archive_handler, ping_sql, ping_ok, ping_failed,
  ping_handler,
}

first_brace : (s : String) → slice ("{" <> s) 1 (len ("{" <> s)) ≡ s
first_brace s = rw (len-append "{" s) (slice-append_right "{" s)

last_brace : (s : String) → slice (s <> "}") 0 (len (s <> "}") - 1) ≡ s
last_brace s =
    let size : len (s <> "}") - 1 ≡ len s = omega (arith, len-append s "}") in
    rw size (slice-append_left s "}")

last_object : (a : String) → slice ("{" <> a <> "}") 0 (len ("{" <> a <> "}") - 1) ≡ "{" <> a
last_object a = rw (← append_assoc "{" a "}") (last_brace ("{" <> a))

brace-ne-nil : (s : String) → eqb (len ("{" <> s)) 0 ≡ false
brace-ne-nil s = ne→eqb _ 0 (omega (arith, len-append "{" s))

-- A member of a JSON object: the text between the quotes of its name, and the text of its value.
abbrev pub member : String × String → String
member (name, value) = "\"" <> name <> "\":" <> value

abbrev pub joined : List (String × String) → String
joined [] = ""
joined (m ∷ []) = member m
joined (m ∷ n ∷ ms) = member m <> "," <> joined (n ∷ ms)

-- A JSON object as `row_to_json` writes it.
abbrev pub object : List (String × String) → String
object ms = "{" <> joined ms <> "}"

joined-append :
    (m n : String × String) (ms ns : List (String × String))
    → joined (m ∷ ms ++ n ∷ ns) ≡ joined (m ∷ ms) <> "," <> joined (n ∷ ns)
joined-append m n [] ns = refl
joined-append m n (l ∷ ms) ns =
    ap (λ t. member m <> "," <> t) (joined-append l n ms ns) ∙ simp append_assoc

-- Two objects that have members are merged into the object with the members of both.
pub merge-object :
    (m n : String × String) (ms ns : List (String × String))
    → merge (object (m ∷ ms)) (object (n ∷ ns)) ≡ ok (object (m ∷ ms ++ n ∷ ns))
unfolding merge
merge-object m n ms ns =
    let a = joined (m ∷ ms) in
    let b = joined (n ∷ ns) in
    rw (brace-ne-nil (a <> "}"), brace-ne-nil (b <> "}"), last_object a, first_brace (b <> "}"))
      (rw (joined-append m n ms ns) (simp append_assoc))

pos_injective : (n m : ℕ) → pos n ≡ pos m → n ≡ m
pos_injective n m p = ap pos_part p

module _ {W : Type 0} (F : Formats) (conn : PostgresClient W) (key : String)
    (params : Dict String String) (extra : List String) (w : W) where
  -- If both queries answer a JSON object with at least one member, the second in the world that the
  -- first leaves, the answer is the one object with the members of both, in their order.
  pub archive_handler_merges :
      (m n : String × String) (ms ns : List (String × String)) (counts sizes : Row) (w' w'' : W)
      → conn.query_row archive_count_sql [] w ≡ (ok counts, w')
      → scan (to_string F) counts ≡ ok (object (m ∷ ms))
      → conn.query_row archive_size_sql [] w' ≡ (ok sizes, w'')
      → scan (to_string F) sizes ≡ ok (object (n ∷ ns))
      → archive_handler F conn key params extra w
        ≡ (ok (Answer.string (object (m ∷ ms ++ n ∷ ns))), w'')
  unfolding archive_handler
  archive_handler_merges m n ms ns counts sizes w' w'' q₁ s₁ q₂ s₂ =
      rw (fetch_with_scanned cannot_fetch scan_failed conn (to_string F) _ _ w w' counts _ q₁ s₁) (
        rw (fetch_with_scanned cannot_fetch scan_failed conn (to_string F) _ _ w' w'' sizes _ q₂ s₂)
          (rw (merge-object m n ms ns)))

  -- `pgsql.ping` never fails: it answers 1 if the query for 1 reaches the database and its row
  -- scans as 1, and 0 after any error or any other number (or panics where the query does).
  pub ping_handler_answers :
      let asked = conn.query_row ping_sql [] w in
      let r = (ping_handler F conn key params extra w).0 in
      ((r ≡ ok (Answer.int ping_ok))
        ↔ ((r' : Row) × (asked.0 ≡ ok r') × (scan (to_int F) r' ≡ ok (pos 1))))
      × ((r ≡ ok (Answer.int ping_ok)) ⊎ (r ≡ ok (Answer.int ping_failed)) ⊎ (r ≡ panic))
  unfolding ping_handler fetch_with
  ping_handler_answers = elim (Result-cases (conn.query_row ping_sql [] w).0) [
    | inl (r, q) ↦ elim (Result-cases (scan (to_int F) r)) [
      | inl (pos n, s) ↦ elim (Bool-cases (eqb n 1)) [
        | inl b ↦ rw q (
            rw s (
              rw b ((λ h. (r, refl, s ∙ ap (λ m. ok (pos m)) (eqb→≡ n 1 b)), λ h. refl), inl refl)))
        | inr b ↦ rw q (
            rw s (
              rw b (
                (λ h. cc, λ (r', q', s'). elim (eqb→≢ n 1 b (pos_injective n 1 cc)) [ ]),
                inr (inl refl),
              )))
      ]
      | inl (negsuc n, s) ↦ rw q (rw s ((λ h. cc, λ (r', q', s'). cc (q', s, s')), inr (inl refl)))
      | inr (inl (e, s)) ↦ rw q (rw s ((λ h. cc, λ (r', q', s'). cc (q', s, s')), inr (inl refl)))
      | inr (inr s) ↦ rw q (rw s ((λ h. cc, λ (r', q', s'). cc (q', s, s')), inr (inr refl)))
    ]
    | inr (inl (e, q)) ↦ rw q ((λ h. cc, λ (r', q', s'). cc q'), inr (inl refl))
    | inr (inr q) ↦ rw q ((λ h. cc, λ (r', q', s'). cc q'), inr (inr refl))
  ]
