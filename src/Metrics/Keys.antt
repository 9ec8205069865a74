-- ===== src/Metrics/Keys.antt =====
-- plugin/metrics.go: the keys of the metrics, and the names of the parameters.
use zabbix_agent2_plugin_pos.Prelude.{String}

abbrev pub key_archive_size : String
key_archive_size = "pgsql.archive"

abbrev pub key_autovacuum : String
key_autovacuum = "pgsql.autovacuum.count"

abbrev pub key_bgwriter : String
key_bgwriter = "pgsql.bgwriter"

abbrev pub key_cache : String
key_cache = "pgsql.cache.hit"

abbrev pub key_connections : String
key_connections = "pgsql.connections"

abbrev pub key_custom_query : String
key_custom_query = "pgsql.custom.query"

abbrev pub key_db_stat : String
key_db_stat = "pgsql.dbstat"

abbrev pub key_db_stat_sum : String
key_db_stat_sum = "pgsql.dbstat.sum"

abbrev pub key_database_age : String
key_database_age = "pgsql.db.age"

abbrev pub key_databases_bloating : String
key_databases_bloating = "pgsql.db.bloating_tables"

abbrev pub key_databases_discovery : String
key_databases_discovery = "pgsql.db.discovery"

abbrev pub key_database_size : String
key_database_size = "pgsql.db.size"

abbrev pub key_locks : String
key_locks = "pgsql.locks"

abbrev pub key_oldest_xid : String
key_oldest_xid = "pgsql.oldest.xid"

abbrev pub key_ping : String
key_ping = "pgsql.ping"

abbrev pub key_queries : String
key_queries = "pgsql.queries"

abbrev pub key_replication_count : String
key_replication_count = "pgsql.replication.count"

abbrev pub key_replication_lag_b : String
key_replication_lag_b = "pgsql.replication.lag.b"

abbrev pub key_replication_lag_sec : String
key_replication_lag_sec = "pgsql.replication.lag.sec"

abbrev pub key_replication_process_info : String
key_replication_process_info = "pgsql.replication.process"

abbrev pub key_replication_process_name_discovery : String
key_replication_process_name_discovery = "pgsql.replication.process.discovery"

abbrev pub key_replication_recovery_role : String
key_replication_recovery_role = "pgsql.replication.recovery_role"

abbrev pub key_replication_status : String
key_replication_status = "pgsql.replication.status"

abbrev pub key_uptime : String
key_uptime = "pgsql.uptime"

abbrev pub key_version : String
key_version = "pgsql.version"

abbrev pub key_wal : String
key_wal = "pgsql.wal.stat"

abbrev pub uri_param : String
uri_param = "URI"

abbrev pub tcp_param : String
tcp_param = "tcp"

abbrev pub user_param : String
user_param = "User"

abbrev pub database_param : String
database_param = "Database"

abbrev pub password_param : String
password_param = "Password"

abbrev pub tls_connect_param : String
tls_connect_param = "TLSConnect"

abbrev pub tls_ca_param : String
tls_ca_param = "TLSCAFile"

abbrev pub tls_cert_param : String
tls_cert_param = "TLSCertFile"

abbrev pub tls_key_param : String
tls_key_param = "TLSKeyFile"

abbrev pub cache_mode_param : String
cache_mode_param = "CacheMode"
