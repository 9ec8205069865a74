-- ===== src/Metrics/Validator/Laws.antt =====
-- What the validator accepts, by a description of socket paths that does not search.
use Prim.Native.Char.{Char, code}
use text.Mathlib.TextLemmas.{cons-append, nil-append}
use text.Mathlib.TextEquality.{Char-path}
use zabbix_agent2_plugin_pos.Prelude.{
  ℕ, zero, suc, ◌≤◌, String, ◌<>◌, ◌≡◌, refl, sym, ap, ◌∙◌, ◌≢◌, ◌↔◌, ◌⊎◌, inl, inr, Bool, true,
  not, some, List, string_eq, contains, eqb, Bool-cases, Option-cases, arith,
}
use zabbix_agent2_plugin_pos.Errors.{ok, Result-cases}
use zabbix_agent2_plugin_pos.Sdk.{Sdk}
use zabbix_agent2_plugin_pos.Metrics.Validator.{
  is_digit, at_most_digits, port_digits, strip_prefix, socket_prefix, is_socket_path,
  PostgresUriValidator, validate_uri, validate,
}

-- Every character passes the test.
abbrev pub Each : (ℕ → Bool) → String → Type 0
Each p String.[] = Unit {0}
Each p (String.◌∷◌ c s) = (p (code c) ≡ true) × Each p s

abbrev pub chars : String → ℕ
chars String.[] = 0
chars (String.◌∷◌ c s) = suc (chars s)

-- One to five digits.
abbrev pub IsPort : String → Type 0
IsPort ds = Each is_digit ds × (1 ≤ chars ds) × (chars ds ≤ 5)

-- A path that holds no line feed, the prefix of a socket's name, and a port.
abbrev pub IsSocketPath : String → Type 0
IsSocketPath s =
    (pre : String) × (ds : String) × (s ≡ pre <> ".s.PGSQL." <> ds)
    × Each (λ c. not (eqb c 10)) pre
    × IsPort ds

strip_prefix_sound : (p s r : String) → strip_prefix p s ≡ some r → s ≡ p <> r
unfolding strip_prefix
strip_prefix_sound String.[] s r h = cc (nil-append r)
strip_prefix_sound (String.◌∷◌ d p) String.[] r h = cc
strip_prefix_sound (String.◌∷◌ d p) (String.◌∷◌ c s) r h =
    elim (Bool-cases (eqb (code c) (code d))) [
      | inl same ↦
          let here : c ≡ d = Char-path c d (ground arith) in
          cc (here, strip_prefix_sound p s r (rw same at h), cons-append d p r)
      | inr other ↦ absurd (ground arith)
    ]

strip_prefix-append : (p r : String) → strip_prefix p (p <> r) ≡ some r
unfolding strip_prefix
strip_prefix-append String.[] r = rw nil-append
strip_prefix-append (String.◌∷◌ d p) r = rw cons-append (ground (arith, strip_prefix-append p r))

at_most_digits_iff :
    (n : ℕ) (s : String) → (at_most_digits n s ≡ true) ↔ (Each is_digit s × (chars s ≤ n))
unfolding at_most_digits
at_most_digits_iff zero String.[] = (λ _. (tt, omega arith), λ _. refl)
at_most_digits_iff (suc n) String.[] = (λ _. (tt, omega arith), λ _. refl)
at_most_digits_iff zero (String.◌∷◌ c s) = (λ h. cc, λ h. absurd (omega arith))
at_most_digits_iff (suc n) (String.◌∷◌ c s) = ground (arith, at_most_digits_iff n s)

port_digits_iff : (s : String) → (port_digits s ≡ true) ↔ IsPort s
port_digits_iff String.[] = (λ h. cc, λ h. absurd (omega arith))
port_digits_iff (String.◌∷◌ c s) = ground (arith, at_most_digits_iff 4 s)

IsSocketPath-cons :
    (c : Char) (s : String)
    → not (eqb (code c) 10) ≡ true
    → IsSocketPath s
    → IsSocketPath (String.◌∷◌ c s)
IsSocketPath-cons c s line (pre, ds, e, each, port) =
    (String.◌∷◌ c pre, ds, cc (e, cons-append c pre (".s.PGSQL." <> ds)), (line, each), port)

is_socket_path_sound : (s : String) → is_socket_path s ≡ true → IsSocketPath s
unfolding is_socket_path
is_socket_path_sound String.[] h = cc
is_socket_path_sound (String.◌∷◌ c s) h =
    elim (Option-cases (strip_prefix socket_prefix (String.◌∷◌ c s))) [
      | inl missing ↦ IsSocketPath-cons c s (ground arith) (is_socket_path_sound s (ground arith))
      | inr (rest, found) ↦ elim (Bool-cases (port_digits rest)) [
        | inl port ↦ (
          "",
          rest,
          strip_prefix_sound socket_prefix _ rest found ∙ sym (nil-append _),
          tt,
          (port_digits_iff rest).0 port,
        )
        | inr none_ ↦ IsSocketPath-cons c s (ground arith) (is_socket_path_sound s (ground arith))
      ]
    ]

is_socket_path_here :
    (s ds : String) → s ≡ ".s.PGSQL." <> ds → port_digits ds ≡ true → is_socket_path s ≡ true
unfolding is_socket_path
is_socket_path_here String.[] ds e port = cc (e, cons-append "." "s.PGSQL." ds)
is_socket_path_here (String.◌∷◌ c s) ds e port =
    let stripped : strip_prefix socket_prefix (String.◌∷◌ c s) ≡ some ds =
      ap (strip_prefix socket_prefix) e ∙ strip_prefix-append socket_prefix ds in
    ground arith

is_socket_path_complete :
    (pre ds : String)
    → Each (λ c. not (eqb c 10)) pre
    → port_digits ds ≡ true
    → is_socket_path (pre <> ".s.PGSQL." <> ds) ≡ true
unfolding is_socket_path
is_socket_path_complete String.[] ds each port = is_socket_path_here _ ds (nil-append _) port
is_socket_path_complete (String.◌∷◌ c pre) ds each port =
    rw (cons-append c pre) (ground (arith, is_socket_path_complete pre ds each.1 port))

-- The regular expression's search accepts exactly the socket paths.
pub is_socket_path_iff : (s : String) → (is_socket_path s ≡ true) ↔ IsSocketPath s
is_socket_path_iff s = (
  is_socket_path_sound s,
  λ (pre, ds, e, each, port).
      rw e (is_socket_path_complete pre ds each ((port_digits_iff ds).1 port)),
)

validate_uri_iff :
    (S : Sdk) (v : PostgresUriValidator) (schemes : List String) (value : String) (u : S.Uri)
    → v.allowed_schemes ≡ some schemes
    → (validate_uri S v value u ≡ ok tt)
      ↔ ((contains schemes (S.scheme u) ≡ true) × ((S.scheme u ≢ "unix") ⊎ IsSocketPath value))
unfolding validate_uri
validate_uri_iff S v schemes value u allowed =
    rw (allowed, validate_uri) (ground (arith, is_socket_path_iff value))

-- The validator accepts a value if it reads as a URI of an allowed scheme and, under the scheme
-- "unix", is a socket path; and it accepts no other.
pub validate_iff :
    (S : Sdk) (v : PostgresUriValidator) (schemes : List String) (value : String)
    → v.allowed_schemes ≡ some schemes
    → (validate S v (some value) ≡ ok tt) ↔ (
        (u : S.Uri) × (S.uri_new value v.defaults ≡ ok u)
        × (contains schemes (S.scheme u) ≡ true)
        × ((S.scheme u ≢ "unix") ⊎ IsSocketPath value))
unfolding validate
validate_iff S v schemes value allowed = elim (Result-cases (S.uri_new value v.defaults)) [
  | inl (u, read) ↦ (
    λ h.
        let (scheme, path) =
          (validate_uri_iff S v schemes value u allowed).0 (rw (read, validate) at h) in
        (u, read, scheme, path),
    λ (u', read', scheme, path).
        rw (read', validate) ((validate_uri_iff S v schemes value u' allowed).1 (scheme, path)),
  )
  | inr (inl (e, failed)) ↦
      (λ h. cc (rw (failed, validate) at h), λ (u', read', _, _). cc (sym failed ∙ read'))
  | inr (inr crashed) ↦
      (λ h. cc (rw (crashed, validate) at h), λ (u', read', _, _). cc (sym crashed ∙ read'))
]
