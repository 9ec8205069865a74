-- ===== src/Conn/Create/Dbname.antt =====
-- The name of the database, from the parameter `Database` through the URI to the connection string:
-- `createConnID` escapes it, `create` reads it back.
use Prim.Native.Char.{code}
use zabbix_agent2_plugin_pos.Prelude.{
  Bool, true, false, eqb, if◌then◌else◌, ℕ, String, ◌<>◌, ◌≡◌, refl, Option, none, some, List,
}
use zabbix_agent2_plugin_pos.Prelude.Dict.{Dict}
use zabbix_agent2_plugin_pos.Prelude.Text.Utf8.{utf8, from_utf8}
use zabbix_agent2_plugin_pos.Prelude.Text.Utf8.RoundTrip.{from_utf8-utf8}
use zabbix_agent2_plugin_pos.Errors.{Error, ok, Act, and_then, ◌>>=◌}
use zabbix_agent2_plugin_pos.Client.Values.{Formats}
use zabbix_agent2_plugin_pos.Sdk.{Sdk}
use zabbix_agent2_plugin_pos.Conn.Manager.{PgConn, ConnManager}
use zabbix_agent2_plugin_pos.Conn.Query.{Sql}
use zabbix_agent2_plugin_pos.Conn.Dsn.{create_dns}
use zabbix_agent2_plugin_pos.Conn.NetUrl.{query_escape, query_unescape}
use zabbix_agent2_plugin_pos.Conn.NetUrl.RoundTrip.{query_unescape-query_escape, Bare}
use zabbix_agent2_plugin_pos.Conn.Create.{
  Url, ConnId, to_act, uri_defaults, endpoint, create_client, admit,
}

-- The bytes as a string; `raw` stands for the strings that are not valid UTF-8.
abbrev string_of : (List ℕ → String) → List ℕ → Option String → String
string_of raw bytes none = raw bytes
string_of raw bytes (some s) = s

-- net/url. `escape_error` makes the error at the rest of a text with a `%` that does not begin an
-- escape.
unfoldable pub net_url : (String → Error) → (List ℕ → String) → Url
net_url escape_error raw = record {
  query_escape = query_escape;
  query_unescape = λ s.
      and_then (query_unescape escape_error s) λ bytes. ok (string_of raw bytes (from_utf8 bytes));
}

-- How GetParam gives a parameter that stands escaped in the text of a URI: as it stands there, or
-- unescaped.
pub data Reading : Type 0 where
  as_it_stands : Reading
  decoded : Reading

abbrev read : Reading → String → String
read as_it_stands d = query_escape d
read decoded d = d

-- The names that come through: `create` unescapes what GetParam gives, so that a name that is
-- unescaped already may have no character that means another.
abbrev pub Readable : Reading → String → Type 0
Readable as_it_stands d = Unit {0}
Readable decoded d = Bare d

-- A URI's text without a query and without a fragment.
abbrev pub is_plain : String → Bool
is_plain String.[] = true
is_plain (String.◌∷◌ c s) =
    if eqb (code c) b'?' then false else (if eqb (code c) b'#' then false else is_plain s)

module _ (escape_error : String → Error) (raw : List ℕ → String) where
  unescape_to :
      (s t : String)
      → query_unescape escape_error s ≡ ok (utf8 t)
      → (net_url escape_error raw).query_unescape s ≡ ok t
  unfolding net_url
  unescape_to s t h = rw h (rw (from_utf8-utf8 t) refl)

  pub net_url_round_trip :
      (s : String) → (net_url escape_error raw).query_unescape (query_escape s) ≡ ok s
  net_url_round_trip s = unescape_to (query_escape s) s (query_unescape-query_escape escape_error s)

  module _ (S : Sdk) where
    -- The SDK's URIs: GetParam of the one parameter behind a text without a query.
    abbrev pub ReadsParam : Reading → Type 0
    ReadsParam r =
        (text d user pass : String) (u : S.Uri)
        → is_plain text ≡ true
        → S.uri_new_with_creds (text <> "?dbname=" <> query_escape d) user pass uri_defaults ≡ ok u
        → S.get_param u "dbname" ≡ read r d

  module _ (S : Sdk) {W : Type 0} (D : Sql W) (F : Formats)
      (iterate : Dict String String → Dict String String) {K : Type 0} where
    -- A connection to a database of a given name.
    abbrev pub create_to : ConnManager K → ConnId S → S.Details → String → Act W PgConn
    create_to c ci details dbname = do
      (host, port) ← to_act (endpoint S (net_url escape_error raw) D F ci)
      client ←
          create_client S (net_url escape_error raw) D F
            (create_dns S iterate host port dbname (S.user ci.uri) (S.password ci.uri) ci.cache_mode
              details)
            c.connect_timeout
      admit S (net_url escape_error raw) D F c ci client
