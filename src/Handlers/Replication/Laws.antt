-- ===== src/Handlers/Replication/Laws.antt =====
-- What `replicationHandler` answers on a primary and on a standby.
use zabbix_agent2_plugin_pos.Prelude.{String, ◌≡◌, refl, true, false, List, [], string_eq}
use zabbix_agent2_plugin_pos.Prelude.Dict.{Dict}
use zabbix_agent2_plugin_pos.Prelude.Integers.{ℤ, pos}
use zabbix_agent2_plugin_pos.Prelude.Text.Decimal.{format_int}
use zabbix_agent2_plugin_pos.Errors.{ok}
use zabbix_agent2_plugin_pos.Client.{PostgresClient}
use zabbix_agent2_plugin_pos.Client.Values.{Row, Formats, scan, to_bool, to_int}
use zabbix_agent2_plugin_pos.Handlers.Fetch.{Answer, cannot_fetch, scan_failed}
use zabbix_agent2_plugin_pos.Handlers.Fetch.Laws.{fetch_with_scanned}
use zabbix_agent2_plugin_pos.Handlers.Replication.{
  in_recovery_sql, wal_receiver_sql, lag_b_sql, replication_status, replication_lag_b,
  replication_handler,
}

module _ {W : Type 0} (F : Formats) (conn : PostgresClient W) (params : Dict String String)
    (extra : List String) (w w' : W) (r : Row) where
  -- A server that says that it is not in recovery has the status "2" and the lag 0 in bytes; no
  -- second query is sent.
  replication_handler_primary :
      conn.query_row in_recovery_sql [] w ≡ (ok r, w')
      → scan (to_bool F) r ≡ ok false
      → (replication_handler F conn "pgsql.replication.status" params extra w
          ≡ (ok (Answer.string "2"), w'))
        × (replication_handler F conn "pgsql.replication.lag.b" params extra w
            ≡ (ok (Answer.int64 (pos 0)), w'))
  unfolding replication_handler replication_status replication_lag_b string_eq format_int
  replication_handler_primary q s = (
    rw
        (fetch_with_scanned cannot_fetch cannot_fetch conn (to_bool F) in_recovery_sql [] w w' r
          false q s)
        refl,
    rw
        (fetch_with_scanned cannot_fetch scan_failed conn (to_bool F) in_recovery_sql [] w w' r
          false q s)
        refl,
  )

  -- A server in recovery has the number that its second query answers as its status, in decimal,
  -- and as its lag in bytes.
  replication_handler_standby :
      (n lag : ℤ) (rn rlag : Row) (wn wlag : W)
      → conn.query_row in_recovery_sql [] w ≡ (ok r, w')
      → scan (to_bool F) r ≡ ok true
      → conn.query_row wal_receiver_sql [] w' ≡ (ok rn, wn)
      → scan (to_int F) rn ≡ ok n
      → conn.query_row lag_b_sql [] w' ≡ (ok rlag, wlag)
      → scan (to_int F) rlag ≡ ok lag
      → (replication_handler F conn "pgsql.replication.status" params extra w
          ≡ (ok (Answer.string (format_int n)), wn))
        × (replication_handler F conn "pgsql.replication.lag.b" params extra w
            ≡ (ok (Answer.int64 lag), wlag))
  unfolding replication_handler replication_status replication_lag_b string_eq
  replication_handler_standby n lag rn rlag wn wlag q s qn sn ql sl = (
    rw
        (fetch_with_scanned cannot_fetch cannot_fetch conn (to_bool F) in_recovery_sql [] w w' r
          true q s)
        (rw
          (fetch_with_scanned cannot_fetch scan_failed conn (to_int F) wal_receiver_sql [] w' wn rn
            n qn sn)
          refl),
    rw
        (fetch_with_scanned cannot_fetch scan_failed conn (to_bool F) in_recovery_sql [] w w' r true
          q s)
        (rw
          (fetch_with_scanned cannot_fetch scan_failed conn (to_int F) lag_b_sql [] w' wlag rlag lag
            ql sl)
          refl),
  )
