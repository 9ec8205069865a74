-- ===== src/Examples/Samples.antt =====
-- A small manager, a database that answers every query in one way, and an SDK whose URI is a text.
use zabbix_agent2_plugin_pos.Prelude.{
  ℕ, suc, String, Option, none, some, [], ◌∷◌, Eq, string_eq, ◌≡◌, ap,
}
use zabbix_agent2_plugin_pos.Prelude.Integers.{pos}
use zabbix_agent2_plugin_pos.Errors.{ok}
use zabbix_agent2_plugin_pos.Client.{PostgresClient}
use zabbix_agent2_plugin_pos.Client.Values.{text, Row, got_row, Rows, Formats}
use zabbix_agent2_plugin_pos.Sdk.{Sdk}
use zabbix_agent2_plugin_pos.Conn.Time.{background}
use zabbix_agent2_plugin_pos.Conn.Query.{Sql}
use zabbix_agent2_plugin_pos.Conn.Create.{Url, ConnId}
use zabbix_agent2_plugin_pos.Plugin.{MetricSdk}
use zabbix_agent2_plugin_pos.Conn.Manager.{PgConn, ConnManager}

abbrev pub no_query : String → Option String
no_query _ = none

abbrev pub conn_of : ℕ → ℕ → PgConn
conn_of client now = record {
  client = client;
  call_timeout = pos 5;
  ctx = background;
  last_time_access = now;
  version = pos 150000;
  query_storage = no_query;
  address = "db";
}

-- One connection, used at 100, kept for 60.
abbrev pub manager : ConnManager String
manager = record {
  connections = ("main", conn_of 0 100) ∷ [];
  keep_alive = pos 60;
  connect_timeout = pos 10;
  call_timeout = pos 5;
  query_storage = no_query;
}

abbrev pub formats : Formats
formats = record {
  format_float = λ _. "0.5";
  format_time = λ _. "now";
  print_time = λ _. "now";
  parse_float = λ _. some 0;
  json_float = λ _. some "0.5";
  json_time = λ _. some "now";
  quote = λ s. s;
}

abbrev pub nothing : Rows
nothing = record { columns = ok []; fetched = []; rows_err = none }

-- A client that gives one row to every query, over a count of queries.
abbrev pub client_of : Row → Rows → PostgresClient ℕ
client_of r rows = record {
  query = λ _ _ n. (ok rows, suc n);
  query_by_name = λ _ _ n. (ok rows, suc n);
  query_row = λ _ _ n. (ok r, suc n);
  query_row_by_name = λ _ _ n. (ok r, suc n);
  postgres_version = pos 150000;
}

-- A database of one version; the world is the number of clients opened.
abbrev pub database : Sql ℕ
database = record {
  query_context = λ _ _ _ _ n. (ok nothing, n);
  query_row_context = λ _ _ _ _ n. (got_row (text "150000" ∷ []), n);
  close = λ _ n. n;
  parse_config = λ _. none;
  open_db = λ _ _ n. (n, suc n);
  now = λ n. n;
}

-- Details are the type alone.
abbrev pub sdk : Sdk
sdk = record {
  Uri = String;
  uri_eq = string_eq;
  uri_new = λ s _. ok s;
  uri_new_with_creds = λ s _ _ _. ok s;
  scheme = λ _. "tcp";
  host = λ _. "localhost";
  port = λ _. "5432";
  addr = λ s. s;
  user = λ _. "postgres";
  password = λ _. "";
  get_param = λ _ _. "postgres";
  Details = String;
  new_details = λ _ type_ _ _ _ _ _. type_;
  tls_connect = λ d. d;
  tls_ca_file = λ _. "";
  tls_cert_file = λ _. "";
  tls_key_file = λ _. "";
  validate = λ _ _ _ _. none;
  session_param = "sessionName";
  wrap_nil = λ _. none;
}

abbrev pub url : Url
url = record { query_escape = λ s. s; query_unescape = ok }

abbrev pub metric_sdk : MetricSdk
metric_sdk = record {
  Hardcoded = Unit {0};
  eval_params = λ _ extra _. ok ([], extra, tt);
  set_defaults = λ params _ _. ok params;
}

same_id : (a b : ConnId sdk) → Dec (a.uri ≡ b.uri) → Dec (a.cache_mode ≡ b.cache_mode) → Dec (a ≡ b)
same_id a b (yes p) (yes q) = yes (λ i. record { uri = p i; cache_mode = q i })
same_id a b (no n) q = no (λ r. n (ap (λ x. x.uri) r))
same_id a b (yes p) (no n) = no (λ r. n (ap (λ x. x.cache_mode) r))

instance unfoldable pub conn_id_eq : Eq (ConnId sdk)
unfolding same_id
conn_id_eq = record {
  dec = λ a b. same_id a b (string_eq.dec a.uri b.uri) (string_eq.dec a.cache_mode b.cache_mode);
}

abbrev pub no_connections : ConnManager (ConnId sdk)
no_connections = record {
  connections = [];
  keep_alive = pos 60;
  connect_timeout = pos 10;
  call_timeout = pos 5;
  query_storage = no_query;
}

abbrev pub main_id : ConnId sdk
main_id = record { uri = "tcp://localhost:5432"; cache_mode = "prepare" }
