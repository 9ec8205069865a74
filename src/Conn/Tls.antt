-- ===== src/Conn/Tls.antt =====
-- plugin/conn.go: `renameTLS` and `getTlsDetails`.
use text.Mathlib.TextEquality.{eq_iff}
use zabbix_agent2_plugin_pos.Prelude.{
  String, ◌≢◌, Bool, false, not, ◌||◌, none, some, [], ◌∷◌, ◌==◌, string_eq, if◌then◌else◌, arith,
}
use zabbix_agent2_plugin_pos.Prelude.Dict.{Dict, get}
use zabbix_agent2_plugin_pos.Errors.{Result, ok, err}
use zabbix_agent2_plugin_pos.Sdk.{Sdk}
use zabbix_agent2_plugin_pos.Metrics.Keys.{
  tls_ca_param, tls_cert_param, tls_connect_param, tls_key_param, uri_param,
}

abbrev disable : String
disable = "disable"

abbrev require : String
require = "require"

abbrev verify_ca : String
verify_ca = "verify-ca"

abbrev verify_full : String
verify_full = "verify-full"

unfoldable pub rename_tls : String → String
rename_tls in_ =
    if in_ == "required"
    then "require"
    else if in_ == "verify_ca"
    then "verify-ca"
    else if in_ == "verify_full"
    then "verify-full"
    else in_

-- The variable `tlsType`: the renamed parameter, or `disable` where it is empty.
unfoldable pub tls_type : Dict String String → String
unfolding rename_tls get
tls_type params =
    let renamed = rename_tls (get params tls_connect_param) in
    if renamed == "" then disable else renamed

-- The variable `validateCA`.
abbrev validates_ca : String → Bool
validates_ca type_ = not (type_ == disable || type_ == require)

module _ (S : Sdk) where
  -- The details that `getTlsDetails` builds and validates.
  unfoldable pub tls_details : Dict String String → S.Details
  unfolding tls_type
  tls_details params =
      S.new_details (get params S.session_param) (tls_type params) (get params tls_ca_param)
        (get params tls_cert_param) (get params tls_key_param) (get params uri_param)
        (disable ∷ require ∷ verify_ca ∷ verify_full ∷ [])

  unfoldable pub get_tls_details : Dict String String → Result S.Details
  unfolding tls_details
  get_tls_details params =
      elim (S.validate (tls_details params) (validates_ca (tls_type params)) false false) [
        | none ↦ ok (tls_details params)
        | some e ↦ err e
      ]

disable-ne-nil : ◌≢◌ {A = String} "disable" ""
disable-ne-nil = ground (arith, eq_iff "disable" "")

or_disable-ne-nil : (s : String) → (if s == "" then disable else s) ≢ ""
or_disable-ne-nil s = ground (arith, disable-ne-nil)

-- The type handed to the TLS configuration is never empty.
pub tls_type-ne-nil : (params : Dict String String) → tls_type params ≢ ""
unfolding tls_type
tls_type-ne-nil params = or_disable-ne-nil (rename_tls (get params tls_connect_param))
