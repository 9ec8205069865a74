-- ===== src/Handlers/Outcomes/NeverEmpty.antt =====
-- No handler gives ErrorEmptyResult: handler by handler.
use Prim.Native.String.{len}
use zabbix_agent2_plugin_pos.Prelude.{
  refl, inl, inr, String, List, [], Bool-cases, eqb, ◌||◌, ◌==◌, string_eq,
}
use zabbix_agent2_plugin_pos.Prelude.Dict.{Dict, get}
use zabbix_agent2_plugin_pos.Prelude.Integers.{ℤ, pos, ltb_ℤ}
use zabbix_agent2_plugin_pos.Prelude.Text.Decimal.{Parsed, parsed, rejected, parse_int}
use zabbix_agent2_plugin_pos.Errors.{Result, Act, fail, ◌>>=◌}
use zabbix_agent2_plugin_pos.Client.{PostgresClient}
use zabbix_agent2_plugin_pos.Client.Values.{
  Value, Formats, to_string, to_int, to_bool, to_null_string, to_float,
}
use zabbix_agent2_plugin_pos.Handlers.Fetch.{
  Answer, HandlerFunc, cannot_fetch, scan_failed, cannot_fetch_text, scan_failed_text, fetch,
  fetch_with, fetch_string, fetch_int64, fetch_float64,
}
use zabbix_agent2_plugin_pos.Handlers.Outcomes.{
  Outcome, Ends, Any, Ends-return, Ends-fail, Ends-lift, Ends-if, Ends-on_error,
}
use zabbix_agent2_plugin_pos.Handlers.Outcomes.Emptiness.{
  NotEmpty, PlainClient, is_empty_result, fetch_with-NotEmpty, Converts, to_string-Plain,
  to_int-Plain, to_bool-Plain, to_float-Plain, to_null_string-Plain, cannot_fetch-NotEmpty,
  scan_failed-NotEmpty, cannot_fetch_text-NotEmpty, scan_failed_text-NotEmpty,
}
use zabbix_agent2_plugin_pos.Handlers.Server.{
  archive_handler, ping_handler, version_handler, wal_handler, merge, archive_count_sql,
  archive_size_sql, ping_sql, version_sql, wal_sql,
}
use zabbix_agent2_plugin_pos.Handlers.Activity.{locks_handler, locks_sql}
use zabbix_agent2_plugin_pos.Handlers.Replication.{
  replication_handler, replication_status, replication_lag_b, replication_process_info,
  replication_sql, in_recovery_sql, wal_receiver_sql, lag_b_sql, process_info_sql,
}
use zabbix_agent2_plugin_pos.Handlers.Queries.{
  queries_handler, queries_sql, maintenance_exp, time_period, time_period_of,
}
use zabbix_agent2_plugin_pos.Metrics.Keys.{
  key_replication_lag_b, key_replication_process_info, key_replication_status,
}

-- Whatever the parameters and the server's state.
abbrev pub NeverEmpty : {W : Type 0} → HandlerFunc W → Type 0
NeverEmpty {W} handler =
    (conn : PostgresClient W) (key : String) (params : Dict String String) (extra : List String)
    → PlainClient conn
    → Ends NotEmpty Any (handler conn key params extra)

module _ {W : Type 0} where
  -- Then the next step, where the first fails with no ErrorEmptyResult.
  Ends-then :
      {A B : Type 0} (m : Act W A) (f : A → Act W B)
      → Ends NotEmpty Any m
      → ((a : A) → Ends NotEmpty Any (f a))
      → Ends NotEmpty Any (m >>= f)
  Ends-then m f p q = Ends-on_error m fail f p (λ e h. Ends-fail e h) (λ a _. q a)

  module _ (conn : PostgresClient W) (p : PlainClient conn) (sql : String)
      (args : List String) where
    pub fetch-NotEmpty :
        {A : Type 0} (convert : Value → Result A)
        → Converts convert
        → Ends NotEmpty Any (fetch conn convert sql args)
    fetch-NotEmpty convert =
        fetch_with-NotEmpty cannot_fetch scan_failed conn convert sql args p cannot_fetch-NotEmpty
          scan_failed-NotEmpty

    module _ (F : Formats) where
      pub fetch_string-NotEmpty : Ends NotEmpty Any (fetch_string F conn sql args)
      fetch_string-NotEmpty =
          Ends-then _ _ (fetch-NotEmpty (to_string F) (to_string-Plain F))
            λ s. Ends-return (Answer.string s) tt

      pub fetch_int64-NotEmpty : Ends NotEmpty Any (fetch_int64 F conn sql args)
      fetch_int64-NotEmpty =
          Ends-then _ _ (fetch-NotEmpty (to_int F) (to_int-Plain F))
            λ n. Ends-return (Answer.int64 n) tt

      pub fetch_float64-NotEmpty : Ends NotEmpty Any (fetch_float64 F conn sql args)
      fetch_float64-NotEmpty =
          Ends-then _ _ (fetch-NotEmpty (to_float F) (to_float-Plain F))
            λ x. Ends-return (Answer.float64 x) tt

      -- The handlers that keep the text of the error only.
      text-NotEmpty :
          Ends NotEmpty Any
            (fetch_with cannot_fetch_text scan_failed_text conn (to_string F) sql args)
      text-NotEmpty =
          fetch_with-NotEmpty cannot_fetch_text scan_failed_text conn (to_string F) sql args p
            cannot_fetch_text-NotEmpty scan_failed_text-NotEmpty (to_string-Plain F)

      -- The handlers that have no test for pgx.ErrNoRows.
      untested-NotEmpty :
          {A : Type 0} (convert : Value → Result A)
          → Converts convert
          → Ends NotEmpty Any (fetch_with cannot_fetch cannot_fetch conn convert sql args)
      untested-NotEmpty convert =
          fetch_with-NotEmpty cannot_fetch cannot_fetch conn convert sql args p
            cannot_fetch-NotEmpty cannot_fetch-NotEmpty

merge-NotEmpty : (a b : String) → Outcome NotEmpty Any (merge a b)
unfolding merge
merge-NotEmpty a b = elim (Bool-cases (eqb (len a) 0 || eqb (len b) 0)) [
  | inl e ↦ rw e tt
  | inr e ↦ rw e tt
]

time_period_of-NotEmpty :
    (quote : String → String) (s : String) (r : Parsed ℤ)
    → Outcome NotEmpty Any (time_period_of quote s r)
unfolding time_period_of is_empty_result
time_period_of-NotEmpty quote s (rejected e) = refl
time_period_of-NotEmpty quote s (parsed period) = elim (Bool-cases (ltb_ℤ period (pos 1))) [
  | inl e ↦ rw e refl
  | inr e ↦ rw e tt
]

time_period-NotEmpty :
    (quote : String → String) (params : Dict String String)
    → Outcome NotEmpty Any (time_period quote params)
unfolding time_period
time_period-NotEmpty quote params =
    let s = get params "TimePeriod" in time_period_of-NotEmpty quote s (parse_int s)

module _ {W : Type 0} (F : Formats) where
  pub archive_handler-NeverEmpty : NeverEmpty (archive_handler {W = W} F)
  unfolding archive_handler
  archive_handler-NeverEmpty conn key params extra p =
      Ends-then _ _ (fetch-NotEmpty conn p archive_count_sql [] (to_string F) (to_string-Plain F))
        λ a.
          Ends-then _ _
            (fetch-NotEmpty conn p archive_size_sql [] (to_string F) (to_string-Plain F))
            λ b.
              Ends-then _ _ (Ends-lift (merge a b) (merge-NotEmpty a b))
                λ s. Ends-return (Answer.string s) tt

  pub ping_handler-NeverEmpty : NeverEmpty (ping_handler {W = W} F)
  unfolding ping_handler
  ping_handler-NeverEmpty conn key params extra p =
      Ends-on_error _ _ _ (fetch-NotEmpty conn p ping_sql [] (to_int F) (to_int-Plain F))
        (λ e h. Ends-return _ tt) (λ z _. Ends-return _ tt)

  pub version_handler-NeverEmpty : NeverEmpty (version_handler {W = W} F)
  unfolding version_handler
  version_handler-NeverEmpty conn key params extra p =
      Ends-then _ _ (text-NotEmpty conn p version_sql [] F) λ s. Ends-return (Answer.string s) tt

  pub wal_handler-NeverEmpty : NeverEmpty (wal_handler {W = W} F)
  unfolding wal_handler
  wal_handler-NeverEmpty conn key params extra p =
      Ends-then _ _ (text-NotEmpty conn p wal_sql [] F) λ s. Ends-return (Answer.string s) tt

  pub locks_handler-NeverEmpty : NeverEmpty (locks_handler {W = W} F)
  unfolding locks_handler is_empty_result
  locks_handler-NeverEmpty conn key params extra p =
      Ends-then _ _ (untested-NotEmpty conn p locks_sql [] F (to_string F) (to_string-Plain F))
        λ s. Ends-if (eqb (len s) 0) _ _ (Ends-fail _ refl) (Ends-return _ tt)

  pub queries_handler-NeverEmpty : NeverEmpty (queries_handler {W = W} F)
  unfolding queries_handler is_empty_result
  queries_handler-NeverEmpty conn key params extra p =
      Ends-then _ _ (Ends-lift (time_period F.quote params) (time_period-NotEmpty F.quote params))
        λ period.
          Ends-then _ _
            (untested-NotEmpty conn p (queries_sql maintenance_exp period) [] F (to_string F)
              (to_string-Plain F))
            λ s. Ends-if (eqb (len s) 0) _ _ (Ends-fail _ refl) (Ends-return _ tt)

  replication_status-NotEmpty :
      (conn : PostgresClient W) → PlainClient conn → Ends NotEmpty Any (replication_status F conn)
  unfolding replication_status
  replication_status-NotEmpty conn p =
      Ends-then _ _ (untested-NotEmpty conn p in_recovery_sql [] F (to_bool F) (to_bool-Plain F))
        λ b.
          Ends-then _ _
            (Ends-if b _ _ (fetch-NotEmpty conn p wal_receiver_sql [] (to_int F) (to_int-Plain F))
              (Ends-return (pos 2) tt))
            λ z. Ends-return _ tt

  replication_lag_b-NotEmpty :
      (conn : PostgresClient W) → PlainClient conn → Ends NotEmpty Any (replication_lag_b F conn)
  unfolding replication_lag_b
  replication_lag_b-NotEmpty conn p =
      Ends-then _ _ (fetch-NotEmpty conn p in_recovery_sql [] (to_bool F) (to_bool-Plain F)) λ b.
        Ends-then _ _
          (Ends-if b _ _ (fetch-NotEmpty conn p lag_b_sql [] (to_int F) (to_int-Plain F))
            (Ends-return (pos 0) tt))
          λ z. Ends-return _ tt

  replication_process_info-NotEmpty :
      (conn : PostgresClient W)
      → PlainClient conn
      → Ends NotEmpty Any (replication_process_info F conn)
  unfolding replication_process_info
  replication_process_info-NotEmpty conn p =
      Ends-then _ _
        (fetch-NotEmpty conn p process_info_sql [] (to_null_string F) (to_null_string-Plain F))
        λ s. Ends-return _ tt

  pub replication_handler-NeverEmpty : NeverEmpty (replication_handler {W = W} F)
  unfolding replication_handler
  replication_handler-NeverEmpty conn key params extra p =
      Ends-if (key == key_replication_status) _ _ (replication_status-NotEmpty conn p) (
        Ends-if (key == key_replication_lag_b) _ _ (replication_lag_b-NotEmpty conn p) (
          Ends-if (key == key_replication_process_info) _ _
            (replication_process_info-NotEmpty conn p)
            (fetch_int64-NotEmpty conn p (replication_sql key) [] F)))
