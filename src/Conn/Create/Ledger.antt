-- ===== src/Conn/Create/Ledger.antt =====
-- `GetConnection` and the clients that it opens and closes, call after call: a ledger of the
-- handles that the driver has given out and taken back.
use zabbix_agent2_plugin_pos.Prelude.{
  ℕ, suc, String, ◌≡◌, refl, sym, ap, ◌∙◌, ◌≢◌, ◌⊎◌, inl, inr, Bool, false, none, some, List, [],
  ◌∷◌, Option-cases, Eq,
}
use zabbix_agent2_plugin_pos.Prelude.Dict.{Dict, lookup, insert}
use zabbix_agent2_plugin_pos.Prelude.Integers.{ℤ, ltb_ℤ}
use zabbix_agent2_plugin_pos.Errors.{Result, ok, err, panic, Result-cases}
use zabbix_agent2_plugin_pos.Client.Values.{Formats}
use zabbix_agent2_plugin_pos.Sdk.{Sdk}
use zabbix_agent2_plugin_pos.Conn.Time.{Context}
use zabbix_agent2_plugin_pos.Conn.Manager.{
  PgConn, ConnManager, min_supported_pg_version, new_pg_conn, get_conn, set_conn,
}
use zabbix_agent2_plugin_pos.Conn.Manager.Schedule.{
  State, Event, finds, creates, publishes, run, step,
}
use zabbix_agent2_plugin_pos.Conn.Query.{Sql, get_postgres_version}
use zabbix_agent2_plugin_pos.Conn.Tls.{get_tls_details}
use zabbix_agent2_plugin_pos.Conn.Dsn.{create_dns}
use zabbix_agent2_plugin_pos.Conn.Create.{
  Url, ConnId, endpoint, create_client, admit, create, connect, get_connection, close_each,
}
use zabbix_agent2_plugin_pos.Conn.Create.Laws.{admit-closes}
use zabbix_agent2_plugin_pos.Conn.Create.Refinement.{create-new_pg_conn}

-- Handles are given out in order, a closed one is noted, and a query changes neither.
pub record Ledger {W : Type 0} (D : Sql W) : Type 0 where
  pub opened : W → ℕ
  pub closed : W → List ℕ
  pub open_db :
      (dsn : String) (timeout : ℤ) (w : W)
      → ((D.open_db dsn timeout w).0 ≡ opened w)
        × (opened (D.open_db dsn timeout w).1 ≡ suc (opened w))
        × (closed (D.open_db dsn timeout w).1 ≡ closed w)
  pub close :
      (h : ℕ) (w : W) → (opened (D.close h w) ≡ opened w) × (closed (D.close h w) ≡ h ∷ closed w)
  pub query_row_context :
      (h : ℕ) (ctx : Context) (sql : String) (args : List String) (w : W)
      → (opened (D.query_row_context h ctx sql args w).1 ≡ opened w)
        × (closed (D.query_row_context h ctx sql args w).1 ≡ closed w)
  pub query_context :
      (h : ℕ) (ctx : Context) (sql : String) (args : List String) (w : W)
      → (opened (D.query_context h ctx sql args w).1 ≡ opened w)
        × (closed (D.query_context h ctx sql args w).1 ≡ closed w)

module _ {W : Type 0} (D : Sql W) (L : Ledger D) where
  -- The state of the schedule that a manager and a world show, with nothing in flight.
  abbrev pub shown : {K : Type 0} → Bool → ConnManager K → W → State K
  shown running c w = record {
    manager = c;
    in_flight = [];
    opened = L.opened w;
    closed = L.closed w;
    running = running;
  }

  pub shown-by :
      {K : Type 0} (running : Bool) (c : ConnManager K) (w : W) (n : ℕ) (hs : List ℕ)
      → L.opened w ≡ n
      → L.closed w ≡ hs
      → record { manager = c; in_flight = []; opened = n; closed = hs; running = running }
        ≡ shown running c w
  shown-by running c w n hs p q i = record {
    manager = c;
    in_flight = [];
    opened = sym p i;
    closed = sym q i;
    running = running;
  }

  -- What `create` does to the ledger: a connection stays open; on an error no client was opened,
  -- or it was closed.
  abbrev Created : Result PgConn → W → W → Type 0
  Created (ok conn) w w' = (L.opened w' ≡ suc (L.opened w)) × (L.closed w' ≡ L.closed w)
  Created (err e) w w' =
      ((L.opened w' ≡ L.opened w) × (L.closed w' ≡ L.closed w))
      ⊎ ((L.opened w' ≡ suc (L.opened w)) × (L.closed w' ≡ L.opened w ∷ L.closed w))
  Created panic w w' = Unit {0}

  module _ (S : Sdk) (U : Url) (F : Formats) where
    asked-ledger :
        (client : ℕ) (w : W)
        → let w' = (get_postgres_version D F S.wrap_nil client w).1 in
          (L.opened w' ≡ L.opened w) × (L.closed w' ≡ L.closed w)
    unfolding get_postgres_version
    asked-ledger client w = L.query_row_context client _ _ [] w

    admit-Created :
        {K : Type 0} (c : ConnManager K) (ci : ConnId S) (dsn : String) (timeout : ℤ) (w : W)
        → let (client, w₁) = D.open_db dsn timeout w in
          let (r, w') = admit S U D F c ci client w₁ in Created r w w'
    admit-Created c ci dsn timeout w =
        let (client, w₁) = D.open_db dsn timeout w in
        let (number, more, same) = L.open_db dsn timeout w in
        let (asked_o, asked_c) = asked-ledger client w₁ in
        elim (admit-closes S U D F c ci client w₁) [
          | inl (conn, _, _, _, a) ↦ rw a (asked_o ∙ more, asked_c ∙ same)
          | inr (inl (e, a)) ↦
              let (kept, noted) =
                L.close client (get_postgres_version D F S.wrap_nil client w₁).1 in
              rw a (
                inr (
                  kept ∙ asked_o ∙ more,
                  noted ∙ ap (λ l. client ∷ l) (asked_c ∙ same) ∙ ap (λ n. n ∷ L.closed w) number,
                ))
          | inr (inr a) ↦ rw a tt
        ]

    module _ (iterate : Dict String String → Dict String String) where
      create-Created :
          {K : Type 0} (c : ConnManager K) (ci : ConnId S) (details : S.Details) (w : W)
          → let (r, w') = create S U D F iterate c ci details w in Created r w w'
      unfolding create create_client
      create-Created c ci details w = elim (Result-cases (endpoint S U D F ci)) [
        | inr (inl (x, p)) ↦ rw p (inl (refl, refl))
        | inr (inr p) ↦ rw p tt
        | inl ((host, port), p) ↦
            elim (Result-cases (U.query_unescape (S.get_param ci.uri "dbname"))) [
              | inr (inl (x, q)) ↦ rw p (rw q (inl (refl, refl)))
              | inr (inr q) ↦ rw p (rw q tt)
              | inl (db, q) ↦
                  let dsn =
                    create_dns S iterate host port db (S.user ci.uri) (S.password ci.uri)
                      ci.cache_mode details in
                  elim (Option-cases (D.parse_config dsn)) [
                    | inr (x, m) ↦
                        rw (create, p) (rw (create, q) (rw (create_client, m) (inl (refl, refl))))
                    | inl m ↦
                        rw (create, p)
                          (rw (create, q)
                            (rw (create_client, m) (admit-Created c ci dsn c.connect_timeout w)))
                  ]
            ]
      ]

      -- A client that `create` left open, put in the map or closed by `setConn`.
      published-shown :
          {K : Type 0} ⦃e : Eq K⦄ (running : Bool) (c : ConnManager K) (k : K) (made : PgConn)
          (v : ℤ) (now : ℕ) (address : String) (w w₁ : W)
          → ltb_ℤ v min_supported_pg_version ≡ false
          → new_pg_conn c (L.opened w) v now address ≡ made
          → L.opened w₁ ≡ suc (L.opened w)
          → L.closed w₁ ≡ L.closed w
          → run (shown running c w) (creates k (some v) now address ∷ publishes 0 ∷ [])
            ≡ shown running (set_conn c k made).1 (close_each D (set_conn c k made).2 w₁)
      unfolding run step set_conn
      published-shown running c k made v now address w w₁ fine built more same =
          elim (Option-cases (lookup k c.connections)) [
            | inl absent ↦ rw fine (
                rw built (
                  rw (set_conn, absent)
                    (shown-by running (record c { connections = insert k made c.connections }) w₁ _
                      _ more same)))
            | inr (old, there) ↦
                let (kept, noted) = L.close made.client w₁ in
                rw fine (
                  rw built (
                    rw (set_conn, there)
                      (shown-by running c (D.close made.client w₁) _ _ (kept ∙ more)
                        (noted ∙ ap (λ l. made.client ∷ l) same))))
          ]

      connect-shown :
          ⦃e : Eq (ConnId S)⦄ (running : Bool) (c c' : ConnManager (ConnId S)) (ci : ConnId S)
          (details : S.Details) (w w' : W) (r : Result PgConn)
          → r ≢ panic
          → connect S U D F iterate ci details (c, w) ≡ (r, (c', w'))
          → (evs : List (Event (ConnId S))) × (run (shown running c w) evs ≡ shown running c' w')
      unfolding connect run step
      connect-shown running c c' ci details w w' r calm h =
          let (made_r, w₁) = create S U D F iterate c ci details w in
          let spent = create-Created c ci details w in
          elim (Result-cases (create S U D F iterate c ci details w).0) [
            | inr (inr m) ↦ absurd (calm (ap (λ t. t.0) (sym (rw (connect, m) at h))))
            | inr (inl (x, m)) ↦
                let after = ap (λ t. shown running t.1.0 t.1.1) (rw (connect, m) at h) in
                elim (rw m at spent) [
                  | inl (same_o, same_c) ↦ ([], shown-by running c w₁ _ _ same_o same_c ∙ after)
                  | inr (more, noted) ↦
                      (creates ci none 0 "" ∷ [], shown-by running c w₁ _ _ more noted ∙ after)
                ]
            | inl (made, m) ↦
                let (more, same) = rw m at spent in
                let (dsn, v, now, fine, built) =
                  create-new_pg_conn S U D F iterate c ci details w w₁ made (λ i. (m i, w₁)) in
                let number =
                  ap (λ n. new_pg_conn c n v now (S.addr ci.uri))
                    (sym (L.open_db dsn c.connect_timeout w).0) in
                (
                  creates ci (some v) now (S.addr ci.uri) ∷ publishes 0 ∷ [],
                  published-shown running c ci made v now (S.addr ci.uri) w w₁ fine
                        (number ∙ sym built) more same
                      ∙ ap (λ t. shown running t.1.0 t.1.1) (rw (connect, m) at h),
                )
          ]

      -- Take a world whose ledger gives out handles in order, and let `GetConnection` run alone.
      -- Unless it panics, there is a run of the schedule from the state that the manager and the
      -- world show before the call to exactly the state that they show after it: the clients that
      -- the call opens and closes are those of the run.
      pub get_connection-shown :
          ⦃e : Eq (ConnId S)⦄ (running : Bool) (c c' : ConnManager (ConnId S)) (ci : ConnId S)
          (params : Dict String String) (w w' : W) (r : Result PgConn)
          → r ≢ panic
          → get_connection S U D F iterate ci params (c, w) ≡ (r, (c', w'))
          → (evs : List (Event (ConnId S))) × (run (shown running c w) evs ≡ shown running c' w')
      unfolding get_connection connect run step
      get_connection-shown running c c' ci params w w' r calm h =
          let c₁ = (get_conn c ci (D.now w)).1 in
          let found = finds ci (D.now w) ∷ [] in
          elim (Option-cases (get_conn c ci (D.now w)).0) [
            | inr (x, p) ↦
                (found, ap (λ t. shown running t.1.0 t.1.1) (rw (get_connection, p) at h))
            | inl p ↦ elim (Result-cases (get_tls_details S params)) [
              | inr (inl (x, q)) ↦
                  (found, ap (λ t. shown running t.1.0 t.1.1) (rw (get_connection, p, q) at h))
              | inr (inr q) ↦
                  (found, ap (λ t. shown running t.1.0 t.1.1) (rw (get_connection, p, q) at h))
              | inl (details, q) ↦
                  let (evs, same) =
                    connect-shown running c₁ c' ci details w w' r calm
                      (rw (get_connection, p, q) at h) in
                  (finds ci (D.now w) ∷ evs, same)
            ]
          ]
