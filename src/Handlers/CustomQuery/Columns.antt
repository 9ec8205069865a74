-- ===== src/Handlers/CustomQuery/Columns.antt =====
-- `setResult` on the map that the rows share: the columns of a row are the keys of the map, in the
-- order in which they first come.
use zabbix_agent2_plugin_pos.Prelude.{
  String, ◌≡◌, refl, ap, ◌∙◌, subst, true, List, [], ◌∷◌, ◌==◌, contains, string_eq, ==_refl,
  length, All, if◌then◌else◌, arith,
}
use zabbix_agent2_plugin_pos.Prelude.Dict.{Dict, NodupKeys, lookup, insert, insert-NodupKeys}
use zabbix_agent2_plugin_pos.Errors.{ok, ok-injective}
use zabbix_agent2_plugin_pos.Client.Values.{Value}
use zabbix_agent2_plugin_pos.Handlers.CustomQuery.{textual, set_result}

abbrev pub keys {ℓ} : {V : Type ℓ} → Dict String V → List String
keys [] = []
keys ((k, _) ∷ d) = k ∷ keys d

-- Two maps with the same keys in the same order and the same values are one list.
pub keys-ext :
    (d d' : Dict String Value)
    → keys d ≡ keys d'
    → NodupKeys d
    → NodupKeys d'
    → ((c : String) → lookup c d ≡ lookup c d')
    → d ≡ d'
unfolding lookup
keys-ext [] [] e u u' h = refl
keys-ext [] ((j, w) ∷ d') e u u' h = cc
keys-ext ((k, v) ∷ d) [] e u u' h = cc
keys-ext ((k, v) ∷ d) ((j, w) ∷ d') e (fresh, u) (fresh', u') h =
    let same : k ≡ j = cc in
    let value : v ≡ w = ground (arith, same, h k, ==_refl {A = String} k) in
    let rest : d ≡ d' = keys-ext d d' (cc) u u' (λ c. ground (arith, same, h c)) in cc

-- The keys after `m[c] = v`.
abbrev pub add_key : String → List String → List String
add_key c [] = c ∷ []
add_key c (k ∷ ks) = if c == k then k ∷ ks else k ∷ add_key c ks

abbrev pub add_keys : List String → List String → List String
add_keys [] ks = ks
add_keys (c ∷ cs) ks = add_keys cs (add_key c ks)

keys-insert :
    (c : String) (v : Value) (d : Dict String Value) → keys (insert c v d) ≡ add_key c (keys d)
unfolding insert
keys-insert c v [] = refl
keys-insert c v ((k, w) ∷ d) = ground (arith, keys-insert c v d)

pub keys-set_result :
    (results r : Dict String Value) (values : List Value) (columns : List String)
    → length values ≡ length columns
    → set_result results values columns ≡ ok r
    → keys r ≡ add_keys columns (keys results)
unfolding set_result
keys-set_result results r [] [] e h = cc
keys-set_result results r [] (c ∷ cs) e h = absurd (omega (arith, e))
keys-set_result results r (v ∷ vs) [] e h = cc
keys-set_result results r (v ∷ vs) (c ∷ cs) e h =
    keys-set_result (insert c (textual v) results) r vs cs (omega (arith, e)) h
    ∙ ap (add_keys cs) (keys-insert c (textual v) results)

pub set_result-NodupKeys :
    (results r : Dict String Value) (values : List Value) (columns : List String)
    → set_result results values columns ≡ ok r
    → NodupKeys results
    → NodupKeys r
unfolding set_result
set_result-NodupKeys results r [] cs h u = subst NodupKeys (ok-injective results r h) u
set_result-NodupKeys results r (v ∷ vs) [] h u = cc
set_result-NodupKeys results r (v ∷ vs) (c ∷ cs) h u =
    set_result-NodupKeys (insert c (textual v) results) r vs cs h
      (insert-NodupKeys c (textual v) results u)

pub set_result-ok :
    (results : Dict String Value) (values : List Value) (columns : List String)
    → length values ≡ length columns
    → (r : Dict String Value) × (set_result results values columns ≡ ok r)
unfolding set_result
set_result-ok results [] cs e = (results, refl)
set_result-ok results (v ∷ vs) [] e = absurd (omega (arith, e))
set_result-ok results (v ∷ vs) (c ∷ cs) e =
    set_result-ok (insert c (textual v) results) vs cs (omega (arith, e))

-- Writing the same columns again adds no key.
add_key-present : (c : String) (ks : List String) → contains ks c ≡ true → add_key c ks ≡ ks
add_key-present c [] h = cc
add_key-present c (k ∷ ks) h = ground (arith, add_key-present c ks)

contains-add_key_self : (c : String) (ks : List String) → contains (add_key c ks) c ≡ true
contains-add_key_self c [] = ground (arith, ==_refl {A = String} c)
contains-add_key_self c (k ∷ ks) =
    ground (arith, ==_refl {A = String} c, contains-add_key_self c ks)

contains-add_key :
    (c d : String) (ks : List String) → contains ks d ≡ true → contains (add_key c ks) d ≡ true
contains-add_key c d [] h = cc
contains-add_key c d (k ∷ ks) h = ground (arith, contains-add_key c d ks)

contains-add_keys :
    (cs : List String) (d : String) (ks : List String)
    → contains ks d ≡ true
    → contains (add_keys cs ks) d ≡ true
contains-add_keys [] d ks h = h
contains-add_keys (c ∷ cs) d ks h =
    contains-add_keys cs d (add_key c ks) (contains-add_key c d ks h)

add_keys-covers : (cs ks : List String) → All (λ c. contains (add_keys cs ks) c ≡ true) cs
add_keys-covers [] ks = tt
add_keys-covers (c ∷ cs) ks = (
  contains-add_keys cs c (add_key c ks) (contains-add_key_self c ks),
  add_keys-covers cs (add_key c ks),
)

add_keys-present : (cs ks : List String) → All (λ c. contains ks c ≡ true) cs → add_keys cs ks ≡ ks
add_keys-present [] ks h = refl
add_keys-present (c ∷ cs) ks (here, later) =
    ap (add_keys cs) (add_key-present c ks here) ∙ add_keys-present cs ks later

pub add_keys_twice : (cs : List String) → add_keys cs (add_keys cs []) ≡ add_keys cs []
add_keys_twice cs = add_keys-present cs (add_keys cs []) (add_keys-covers cs [])
