-- ===== src/Conn/Dsn/Laws.antt =====
-- Which settings a connection string holds, and what it does not protect.
use mathlib.Core.List.{Perm, Mem, filter_map, mem-filter_map, mem-cons, mem-cons_self}
use mathlib.Core.Logic.Or
use mathlib.Core.List.Perm
use text.Mathlib.TextLemmas.{append_assoc}
use zabbix_agent2_plugin_pos.Prelude.{
  String, ◌<>◌, ◌≡◌, refl, ap, ◌∙◌, ◌≢◌, inl, inr, false, Option, none, some, List, [], ◌∷◌, ◌==◌,
  string_eq, if◌then◌else◌, Bool-cases, ==_refl, arith,
}
use zabbix_agent2_plugin_pos.Prelude.Dict.{Dict}
use zabbix_agent2_plugin_pos.Sdk.{Sdk}
use zabbix_agent2_plugin_pos.Conn.Tls.{tls_type, tls_details, tls_type-ne-nil}
use zabbix_agent2_plugin_pos.Conn.Dsn.{
  add_setting, add_settings, endpoint_settings, optional_settings, create_dns,
}

-- A setting as the text that is appended, unless its value is empty.
abbrev pub setting : String × String → Option String
setting (k, v) = if v == "" then none else some (" " <> k <> "=" <> v)

abbrev pub written : Dict String String → List String
written = filter_map setting

-- The texts one after the other, behind a text.
abbrev pub concat : String → List String → String
concat s [] = s
concat s (t ∷ ts) = concat (s <> t) ts

add_settings-written :
    (dsn : String) (entries : Dict String String)
    → add_settings dsn entries ≡ concat dsn (written entries)
unfolding add_settings filter_map
add_settings-written dsn [] = refl
add_settings-written dsn ((k, v) ∷ entries) = elim (Bool-cases (v == "")) [
  | inl empty ↦ rw empty (add_settings-written dsn entries)
  | inr set ↦ rw set (add_settings-written (add_setting dsn k v) entries)
]

ne→== : (s t : String) → s ≢ t → (s == t) ≡ false
ne→== s t h = ground arith

password_setting : (pass : String) → " password=" <> pass ≡ " " <> "password" <> "=" <> pass
password_setting pass =
    append_assoc " " ("password" <> "=") pass
    ∙ ap (λ t. " " <> t) (append_assoc "password" "=" pass)

module _ (S : Sdk) where
  open S use {Details}

  -- Values are not quoted: with a password in front of the other optional settings, a user name
  -- that ends in one gives the connection string of that password.
  pub create_dns_ambiguous :
      (iterate : Dict String String → Dict String String) (host port dbname user pass mode : String)
      (details : Details) (rest : Dict String String)
      → pass ≢ ""
      → iterate (optional_settings S pass mode details) ≡ ("password", pass) ∷ rest
      → iterate (optional_settings S "" mode details) ≡ ("password", "") ∷ rest
      → create_dns S iterate host port dbname (user <> " password=" <> pass) "" mode details
        ≡ create_dns S iterate host port dbname user pass mode details
  unfolding create_dns
  create_dns_ambiguous iterate host port dbname user pass mode details rest set with_pass without =
      rw (with_pass, without, ==_refl {A = String} "", ne→== pass "" set)
        (ap (λ dsn. add_settings dsn rest) (simp (append_assoc, password_setting)))

  -- Whatever order the runtime chooses, the connection string is the four fixed settings followed
  -- by exactly the optional settings that are not empty, each once.
  pub create_dns-written :
      (iterate : Dict String String → Dict String String) (host port dbname user pass mode : String)
      (details : Details)
      → Perm
          (iterate (optional_settings S pass mode details))
          (optional_settings S pass mode details)
      → (ts : List String) × Perm ts (written (optional_settings S pass mode details))
        × (create_dns S iterate host port dbname user pass mode details
            ≡ concat (endpoint_settings host port dbname user) ts)
  unfolding create_dns
  create_dns-written iterate host port dbname user pass mode details fair = (
    written (iterate (optional_settings S pass mode details)),
    Perm.filter_map setting fair,
    add_settings-written _ _,
  )

module _ (S : Sdk)
    (connects : (session type_ ca cert key uri : String) (types : List String)
      → S.tls_connect (S.new_details session type_ ca cert key uri types) ≡ type_) where
  -- With the details of `getTlsDetails`, the connection string always sets `sslmode`, to the type
  -- that the parameters ask for or to `disable`: the driver's default never applies. `connects`
  -- says that tlsconfig.NewDetails keeps the type that it is given.
  pub create_dns-sslmode :
      (iterate : Dict String String → Dict String String) (params : Dict String String)
      (host port dbname user pass mode : String)
      → ((entries : Dict String String) → Perm (iterate entries) entries)
      → (ts : List String) × Mem (" " <> "sslmode" <> "=" <> tls_type params) ts
        × (create_dns S iterate host port dbname user pass mode (tls_details S params)
            ≡ concat (endpoint_settings host port dbname user) ts)
  unfolding optional_settings tls_details
  create_dns-sslmode iterate params host port dbname user pass mode fair =
      let details = tls_details S params in
      let (ts, same, made) =
        create_dns-written S iterate host port dbname user pass mode details (fair _) in
      (
        ts,
        Perm.subset (Perm.symm same) _ (
            (mem-filter_map setting _).1 ∣ (
              ("sslmode", S.tls_connect details),
              mem-cons.1 (Or.inr mem-cons_self),
              rw (connects, ne→== _ _ (tls_type-ne-nil params)),
            ) ∣₁),
        made,
      )
