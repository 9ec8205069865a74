-- ===== src/Conn/Create/Refinement.antt =====
-- A call of `GetConnection` that runs alone is one of the interleavings of `Manager.Schedule`.
use zabbix_agent2_plugin_pos.Prelude.{
  ℕ, String, ◌≡◌, refl, sym, ap, ◌∙◌, inl, inr, false, some, List, [], ◌∷◌, Option-cases, Eq,
}
use zabbix_agent2_plugin_pos.Prelude.Dict.{Dict}
use zabbix_agent2_plugin_pos.Prelude.Integers.{ℤ, ltb_ℤ}
use zabbix_agent2_plugin_pos.Errors.{Result, ok, Result-cases, ok-injective}
use zabbix_agent2_plugin_pos.Client.Values.{Formats}
use zabbix_agent2_plugin_pos.Sdk.{Sdk}
use zabbix_agent2_plugin_pos.Conn.Manager.{
  PgConn, ConnManager, min_supported_pg_version, new_pg_conn, get_conn, set_conn,
}
use zabbix_agent2_plugin_pos.Conn.Manager.Schedule.{
  State, Event, finds, creates, publishes, run, step,
}
use zabbix_agent2_plugin_pos.Conn.Query.{Sql, get_postgres_version}
use zabbix_agent2_plugin_pos.Conn.Tls.{get_tls_details}
use zabbix_agent2_plugin_pos.Conn.Dsn.{create_dns}
use zabbix_agent2_plugin_pos.Conn.Create.{
  Url, ConnId, endpoint, create_client, admit, create, connect, get_connection,
}
use zabbix_agent2_plugin_pos.Conn.Create.Laws.{admit-closes}

-- Opening a client and publishing its connection, with nothing in flight.
run-connect :
    {K : Type 0} ⦃e : Eq K⦄ (s : State K) (k : K) (v : ℤ) (now : ℕ) (address : String)
    → s.in_flight ≡ []
    → ltb_ℤ v min_supported_pg_version ≡ false
    → let t = run s (creates k (some v) now address ∷ publishes 0 ∷ []) in
      (t.manager ≡ (set_conn s.manager k (new_pg_conn s.manager s.opened v now address)).1)
      × (t.in_flight ≡ [])
unfolding run step
run-connect s k v now address idle fine = simp (fine, idle) (refl, refl)

module _ (S : Sdk) (U : Url) {W : Type 0} (D : Sql W) (F : Formats)
    (iterate : Dict String String → Dict String String) where
  -- A connection that `create` answers is built on the client that it opened.
  pub create-new_pg_conn :
      {K : Type 0} (c : ConnManager K) (ci : ConnId S) (details : S.Details) (w w' : W)
      (made : PgConn)
      → create S U D F iterate c ci details w ≡ (ok made, w')
      → (dsn : String) × (v : ℤ) × (now : ℕ) × (ltb_ℤ v min_supported_pg_version ≡ false)
        × (made ≡ new_pg_conn c (D.open_db dsn c.connect_timeout w).0 v now (S.addr ci.uri))
  unfolding create create_client
  create-new_pg_conn c ci details w w' made h = elim (Result-cases (endpoint S U D F ci)) [
    | inl ((host, port), p) ↦ elim (Result-cases (U.query_unescape (S.get_param ci.uri "dbname"))) [
      | inl (db, q) ↦
          let dsn =
            create_dns S iterate host port db (S.user ci.uri) (S.password ci.uri) ci.cache_mode
              details in
          elim (Option-cases (D.parse_config dsn)) [
            | inl r ↦
                let (client, opened) = D.open_db dsn c.connect_timeout w in
                let h' : admit S U D F c ci client opened ≡ (ok made, w') =
                  rw (create, p, q, create_client, r) at h in
                elim (admit-closes S U D F c ci client opened) [
                  | inl (conn, same, _, fine, a) ↦ (
                    dsn,
                    conn.version,
                    D.now (get_postgres_version D F S.wrap_nil client opened).1,
                    fine,
                    ok-injective made conn (ap (λ x. x.0) (sym h' ∙ a)) ∙ same,
                  )
                  | inr (inl (e, a)) ↦ cc (a, h')
                  | inr (inr a) ↦ cc (a, h')
                ]
            | inr (e, r) ↦ cc (rw (create, p, q, create_client, r) at h)
          ]
      | inr (inl (e, q)) ↦ cc (rw (create, p, q) at h)
      | inr (inr q) ↦ cc (rw (create, p, q) at h)
    ]
    | inr (inl (e, p)) ↦ cc (rw (create, p) at h)
    | inr (inr p) ↦ cc (rw (create, p) at h)
  ]

  -- Let `GetConnection` run alone from a state of the schedule with nothing in flight, and let the
  -- driver give the next handle to the client that is opened. Then, whatever the call answers,
  -- there is a run of the schedule to a state with the manager that the call leaves and again
  -- nothing in flight.
  pub get_connection-run :
      ⦃e : Eq (ConnId S)⦄ (s : State (ConnId S)) (ci : ConnId S) (params : Dict String String)
      (w w' : W) (r : Result PgConn) (c' : ConnManager (ConnId S))
      → s.in_flight ≡ []
      → ((dsn : String) (timeout : ℤ) → (D.open_db dsn timeout w).0 ≡ s.opened)
      → get_connection S U D F iterate ci params (s.manager, w) ≡ (r, (c', w'))
      → (evs : List (Event (ConnId S))) × ((run s evs).manager ≡ c') × ((run s evs).in_flight ≡ [])
  unfolding get_connection connect run step
  get_connection-run s ci params w w' r c' idle next h =
      let c₁ = (get_conn s.manager ci (D.now w)).1 in
      let found = finds ci (D.now w) ∷ [] in
      elim (Option-cases (get_conn s.manager ci (D.now w)).0) [
        | inr (x, p) ↦ (found, ap (λ t. t.1.0) (rw (get_connection, p) at h), idle)
        | inl p ↦ elim (Result-cases (get_tls_details S params)) [
          | inr (inl (e, q)) ↦ (found, ap (λ t. t.1.0) (rw (get_connection, p, q) at h), idle)
          | inr (inr q) ↦ (found, ap (λ t. t.1.0) (rw (get_connection, p, q) at h), idle)
          | inl (details, q) ↦ elim (Result-cases (create S U D F iterate c₁ ci details w).0) [
            | inr (inl (e, m)) ↦
                (found, ap (λ t. t.1.0) (rw (get_connection, p, q, connect, m) at h), idle)
            | inr (inr m) ↦
                (found, ap (λ t. t.1.0) (rw (get_connection, p, q, connect, m) at h), idle)
            | inl (made, m) ↦
                let w₁ = (create S U D F iterate c₁ ci details w).1 in
                let (dsn, v, now, fine, built) =
                  create-new_pg_conn c₁ ci details w w₁ made (λ i. (m i, w₁)) in
                let (published, empty) =
                  run-connect (step s (finds ci (D.now w))) ci v now (S.addr ci.uri) idle fine in
                let same =
                  ap (λ n. new_pg_conn c₁ n v now (S.addr ci.uri))
                    (sym (next dsn c₁.connect_timeout))
                  ∙ sym built in
                (
                  finds ci (D.now w) ∷ creates ci (some v) now (S.addr ci.uri) ∷ publishes 0 ∷ [],
                  published
                      ∙ ap (λ conn. (set_conn c₁ ci conn).1) same
                      ∙ ap (λ t. t.1.0) (rw (get_connection, p, q, connect, m) at h),
                  empty,
                )
          ]
        ]
      ]
