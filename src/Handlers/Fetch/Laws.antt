-- ===== src/Handlers/Fetch/Laws.antt =====
-- The outcomes of one query and one scan.
use zabbix_agent2_plugin_pos.Prelude.{String, ◌≡◌, refl, List}
use zabbix_agent2_plugin_pos.Errors.{
  Error, wrap_const, cannot_fetch_data, sql_no_rows, Result, ok, err, panic, is_pgx_no_rows,
}
use zabbix_agent2_plugin_pos.Client.{PostgresClient}
use zabbix_agent2_plugin_pos.Client.Values.{Value, Row, no_row, scan}
use zabbix_agent2_plugin_pos.Handlers.Fetch.{fetch_with, fetch, scan_failed}

module _ {W A : Type 0} (unqueried unscanned : Error → Error) (conn : PostgresClient W)
    (convert : Value → Result A) (query : String) (args : List String) (w w' : W) where
  pub fetch_with_unqueried :
      (e : Error)
      → conn.query_row query args w ≡ (err e, w')
      → fetch_with unqueried unscanned conn convert query args w ≡ (err (unqueried e), w')
  unfolding fetch_with
  fetch_with_unqueried e q = rw q

  pub fetch_with_crashed :
      conn.query_row query args w ≡ (panic, w')
      → fetch_with unqueried unscanned conn convert query args w ≡ (panic, w')
  unfolding fetch_with
  fetch_with_crashed q = rw q

  pub fetch_with_scanned :
      (r : Row) (a : A)
      → conn.query_row query args w ≡ (ok r, w')
      → scan convert r ≡ ok a
      → fetch_with unqueried unscanned conn convert query args w ≡ (ok a, w')
  unfolding fetch_with
  fetch_with_scanned r a q s = rw q (rw s)

  pub fetch_with_unscanned :
      (r : Row) (e : Error)
      → conn.query_row query args w ≡ (ok r, w')
      → scan convert r ≡ err e
      → fetch_with unqueried unscanned conn convert query args w ≡ (err (unscanned e), w')
  unfolding fetch_with
  fetch_with_unscanned r e q s = rw q (rw s)

-- If the query reaches the database and finds no row, the error is ErrorCannotFetchData, not
-- ErrorEmptyResult: `Scan` gives sql.ErrNoRows, and the test is for pgx.ErrNoRows.
pub fetch-no_row :
    {W A : Type 0} (conn : PostgresClient W) (convert : Value → Result A) (query : String)
    (args : List String) (w w' : W)
    → conn.query_row query args w ≡ (ok no_row, w')
    → fetch conn convert query args w ≡ (err (wrap_const cannot_fetch_data sql_no_rows), w')
unfolding fetch_with scan scan_failed is_pgx_no_rows
fetch-no_row conn convert query args w w' q = rw q refl
