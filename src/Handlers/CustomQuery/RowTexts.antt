-- ===== src/Handlers/CustomQuery/RowTexts.antt =====
-- The rows of a user's query share one map, but the text of each is that of the row alone.
use mathlib.Core.List.{append_assoc, append-nil}
use zabbix_agent2_plugin_pos.Prelude.{
  String, ◌≡◌, refl, sym, ap, ◌∙◌, ◌⊎◌, inl, inr, true, false, Option, List, [], ◌∷◌, ◌++◌,
  Bool-cases, contains, ◌==◌, string_eq, length, All, arith,
}
use zabbix_agent2_plugin_pos.Prelude.Dict.{Dict, lookup}
use zabbix_agent2_plugin_pos.Errors.{
  Result, ok, err, panic, and_then, and_then-inverse, Result-cases, ok-injective,
}
use zabbix_agent2_plugin_pos.Client.Values.{Value, Formats}
use zabbix_agent2_plugin_pos.Handlers.CustomQuery.{set_result, marshal, row_json, rows_json}
use zabbix_agent2_plugin_pos.Handlers.CustomQuery.Laws.{last_value, set_result_lem}
use zabbix_agent2_plugin_pos.Handlers.CustomQuery.Columns.{
  keys, keys-ext, add_keys, add_keys_twice, keys-set_result, set_result-NodupKeys, set_result-ok,
}

last_value-covered :
    (c : String) (columns : List String) (values : List Value) (before before' : Option Value)
    → length values ≡ length columns
    → contains columns c ≡ true
    → last_value c columns values before ≡ last_value c columns values before'
last_value-covered c [] vs b b' e h = cc
last_value-covered c (column ∷ cs) [] b b' e h = absurd (omega (arith, e))
last_value-covered c (column ∷ cs) (v ∷ vs) b b' e h = elim (Bool-cases (c == column)) [
  | inl same ↦ rw same refl
  | inr other ↦
      rw other (last_value-covered c cs vs b b' (omega (arith, e)) (ground (arith, other, h)))
]

last_value-absent :
    (c : String) (columns : List String) (values : List Value) (before : Option Value)
    → contains columns c ≡ false
    → last_value c columns values before ≡ before
last_value-absent c [] [] b h = refl
last_value-absent c [] (v ∷ vs) b h = refl
last_value-absent c (column ∷ cs) [] b h = refl
last_value-absent c (column ∷ cs) (v ∷ vs) b h = elim (Bool-cases (c == column)) [
  | inl same ↦ ground (arith, same, h)
  | inr other ↦ rw other (last_value-absent c cs vs b (ground (arith, other, h)))
]

-- The map before a row: empty, or what another row of the same columns left.
abbrev Left : List String → Dict String Value → Type 0
Left columns results =
    (results ≡ [])
    ⊎ ((v : List Value) × (length v ≡ length columns) × (set_result [] v columns ≡ ok results))

set_result_again :
    (columns : List String) (values : List Value) (results : Dict String Value)
    → length values ≡ length columns
    → Left columns results
    → set_result results values columns ≡ set_result [] values columns
set_result_again columns values results e (inl empty) = ap (λ d. set_result d values columns) empty
set_result_again columns values results e (inr (v, e', h)) =
    let (a, ha) = set_result-ok results values columns e in
    let (b, hb) = set_result-ok [] values columns e in
    let ka = keys-set_result results a values columns e ha in
    let kb = keys-set_result [] b values columns e hb in
    let kr = keys-set_result [] results v columns e' h in
    let once = set_result-NodupKeys [] results v columns h tt in
    let same_keys : keys a ≡ keys b =
      ka ∙ ap (add_keys columns) kr ∙ add_keys_twice columns ∙ sym kb in
    let same =
      keys-ext a b same_keys (set_result-NodupKeys results a values columns ha once)
        (set_result-NodupKeys [] b values columns hb tt) (λ c. same_value c a b ha hb) in
    ha ∙ ap ok same ∙ sym hb
  where
    same_value :
        (c : String) (a b : Dict String Value)
        → set_result results values columns ≡ ok a
        → set_result [] values columns ≡ ok b
        → lookup c a ≡ lookup c b
    same_value c a b ha hb =
        let la = set_result_lem c results a values columns ha in
        let lb = set_result_lem c [] b values columns hb in
        elim (Bool-cases (contains columns c)) [
          | inl there ↦
              la
              ∙ last_value-covered c columns values (lookup c results) (lookup c []) e there
              ∙ sym lb
          | inr missing ↦
              let lr = set_result_lem c [] results v columns h in
              la
              ∙ ap (last_value c columns values)
                  (lr ∙ last_value-absent c columns v (lookup c []) missing)
              ∙ sym lb
        ]

and_then-ok : (r : Result (List String)) → and_then r (λ texts. ok texts) ≡ r
and_then-ok (ok texts) = refl
and_then-ok (err e) = refl
and_then-ok panic = refl

-- `Scan` gives as many values as there are columns.
abbrev pub Fits : List String → Result (List Value) → Type 0
Fits columns (ok values) = length values ≡ length columns
Fits columns _ = Unit {0}

module _ (F : Formats) (columns : List String) where
  -- The text of one row, from a map of its own.
  abbrev pub row_alone : Result (List Value) → Result String
  row_alone fetched = and_then (row_json F columns [] fetched) λ (_, json). ok json

  abbrev pub rows_alone : List (Result (List Value)) → Result (List String)
  rows_alone [] = ok []
  rows_alone (fetched ∷ more) =
      and_then (row_alone fetched) λ json. and_then (rows_alone more) λ texts. ok (json ∷ texts)

  row_json_again :
      (results : Dict String Value) (fetched : Result (List Value))
      → Fits columns fetched
      → Left columns results
      → row_json F columns results fetched ≡ row_json F columns [] fetched
  unfolding row_json
  row_json_again results (ok values) e left =
      rw (set_result_again columns values results e left) refl
  row_json_again results (err x) e left = refl
  row_json_again results panic e left = refl

  row_json-Left :
      (results : Dict String Value) (json : String) (fetched : Result (List Value))
      → Fits columns fetched
      → row_json F columns [] fetched ≡ ok (results, json)
      → Left columns results
  unfolding row_json
  row_json-Left results json (ok values) e h =
      let (r, set, h') = and_then-inverse (set_result [] values columns) _ (results, json) h in
      let (text, _, done) = and_then-inverse (marshal F r) _ (results, json) h' in
      let same : r ≡ results = ap (λ p. p.0) (ok-injective _ _ done) in
      inr (values, e, set ∙ ap ok same)
  row_json-Left results json (err x) e h = cc
  row_json-Left results json panic e h = cc

  -- The rows before go first, whatever the rows after come to.
  before_append :
      (before : List String) (json : String) (r : Result (List String))
      → and_then r (λ texts. ok ((before ++ json ∷ []) ++ texts))
        ≡ and_then (and_then r λ texts. ok (json ∷ texts)) (λ texts. ok (before ++ texts))
  before_append before json (ok texts) = ap ok (append_assoc before (json ∷ []) texts)
  before_append before json (err e) = refl
  before_append before json panic = refl

  rows_json_from :
      (results : Dict String Value) (before : List String) (fetched : List (Result (List Value)))
      → All (Fits columns) fetched
      → Left columns results
      → rows_json F columns results before fetched
        ≡ and_then (rows_alone fetched) (λ texts. ok (before ++ texts))
  unfolding rows_json
  rows_json_from results before [] fits left = ap ok (sym (append-nil before))
  rows_json_from results before (r ∷ more) (e, fits) left =
      rw (row_json_again results r e left) (elim (Result-cases (row_json F columns [] r)) [
        | inl ((results', json), h) ↦ rw h (
            rows_json_from results' (before ++ json ∷ []) more fits
              (row_json-Left results' json r e h)
            ∙ before_append before json (rows_alone more))
        | inr (inl (x, h)) ↦ rw h refl
        | inr (inr h) ↦ rw h refl
      ])

  -- If every row that is read has a value for each column, the texts of the rows, for which the
  -- handler uses one map, are those of each row alone, in the rows' order; and where a row cannot
  -- be read or written, both stop with the error of the first such row.
  pub rows_json_lem :
      (fetched : List (Result (List Value)))
      → All (Fits columns) fetched
      → rows_json F columns [] [] fetched ≡ rows_alone fetched
  rows_json_lem fetched fits =
      rows_json_from [] [] fetched fits (inl refl) ∙ and_then-ok (rows_alone fetched)
