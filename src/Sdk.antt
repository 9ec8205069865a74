-- ===== src/Sdk.antt =====
-- What the plugin takes from golang.zabbix.com/sdk, which is not part of the repository: a
-- parameter of the model. Only the packages uri, tlsconfig, metric and errs stand here; conf and
-- the agent's protocol are not modelled.
use zabbix_agent2_plugin_pos.Prelude.{String, Bool, Option, List, Eq}
use zabbix_agent2_plugin_pos.Errors.{Error, Result}

-- `uri.Defaults`
pub record Defaults : Type 0 where
  pub scheme : String
  pub port : String

pub record Sdk : Type 1 where
  -- Package uri: a comparable value and its accessors.
  pub Uri : Type 0
  pub uri_eq : Eq Uri
  pub uri_new : String → Defaults → Result Uri
  pub uri_new_with_creds : String → String → String → Defaults → Result Uri
  pub scheme : Uri → String
  pub host : Uri → String
  pub port : Uri → String
  pub addr : Uri → String
  pub user : Uri → String
  pub password : Uri → String
  pub get_param : Uri → String → String
  -- Package tlsconfig: `NewDetails` of session, type, CA, certificate, key, URI and the allowed
  -- types, the fields, and `Validate`.
  pub Details : Type 0
  pub new_details : String → String → String → String → String → String → List String → Details
  pub tls_connect : Details → String
  pub tls_ca_file : Details → String
  pub tls_cert_file : Details → String
  pub tls_key_file : Details → String
  pub validate : Details → Bool → Bool → Bool → Option Error
  -- Package metric: the key of the session's name among the parameters.
  pub session_param : String
  -- Package errs: what `Wrap` makes of a nil error and a message.
  pub wrap_nil : String → Option Error
