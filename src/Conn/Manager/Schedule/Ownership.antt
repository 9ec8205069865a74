-- ===== src/Conn/Manager/Schedule/Ownership.antt =====
-- Every client that was ever opened is in one place: the map, the hands of a goroutine, or closed.
use zabbix_agent2_plugin_pos.Prelude.{
  ℕ, zero, suc, ◌+◌, ◌≤◌, ◌≡◌, refl, inl, inr, String, Option, none, some, List, [], ◌∷◌, Eq,
  if◌then◌else◌, Bool-cases, Option-cases, count, count-append, ltb, arith,
}
use zabbix_agent2_plugin_pos.Prelude.Dict.{Dict, NodupKeys, lookup, insert-NodupKeys}
use zabbix_agent2_plugin_pos.Prelude.Integers.{ℤ, ltb_ℤ}
use zabbix_agent2_plugin_pos.Conn.Manager.{
  PgConn, ConnManager, min_supported_pg_version, new_conn_manager, new_pg_conn, get_conn, set_conn,
  close_unused, close_all, sweep,
}
use zabbix_agent2_plugin_pos.Conn.Manager.Contents.{
  clients, clients-insert_of_absent, clients-insert_of_same, count-sweep, sweep-NodupKeys,
  drain_lem,
}
use zabbix_agent2_plugin_pos.Conn.Manager.Schedule.{
  State, Event, finds, creates, publishes, ticks, destroys, start, pick, open_client, publish, tick,
  destroy, step, run,
}

-- How often a handle is held: by the map, by a goroutine, or as closed.
abbrev pub holders : {K : Type 0} → ℕ → State K → ℕ
holders h s =
    count h (clients s.manager.connections) + count h (clients s.in_flight) + count h s.closed

abbrev pub is_opened : {K : Type 0} → ℕ → State K → ℕ
is_opened h s = if ltb h s.opened then 1 else 0

count-pick :
    {K : Type 0} (h n : ℕ) (k : K) (conn : PgConn) (xs rest : List (K × PgConn))
    → pick n xs ≡ some ((k, conn), rest)
    → count h (clients xs) ≡ count h (clients ((k, conn) ∷ rest))
count-pick h n k conn [] rest p = cc
count-pick h zero k conn ((j, x) ∷ xs) rest p = ground arith
count-pick h (suc n) k conn ((j, x) ∷ xs) rest p = elim (Option-cases (pick n xs)) [
  | inl e ↦ cc
  | inr (((i, y), ys), e) ↦ ground (arith, count-pick h n i y xs ys e)
]

module _ {K : Type 0} ⦃e : Eq K⦄ where
  pub record Inv (s : State K) : Type 0 where
    pub keys : NodupKeys s.manager.connections
    pub owned : (h : ℕ) → holders h s ≡ is_opened h s

  pub get_conn-clients :
      (c : ConnManager K) (k : K) (now : ℕ)
      → clients (get_conn c k now).1.connections ≡ clients c.connections
  unfolding get_conn
  get_conn-clients c k now = elim (Option-cases (lookup k c.connections)) [
    | inl absent ↦ rw (absent, get_conn)
    | inr (old, found) ↦
        rw (found, get_conn) (clients-insert_of_same k _ old c.connections found refl)
  ]

  pub get_conn-NodupKeys :
      (c : ConnManager K) (k : K) (now : ℕ)
      → NodupKeys c.connections
      → NodupKeys (get_conn c k now).1.connections
  unfolding get_conn
  get_conn-NodupKeys c k now u = elim (Option-cases (lookup k c.connections)) [
    | inl absent ↦ rw (absent, get_conn) u
    | inr (old, found) ↦ rw (found, get_conn) (insert-NodupKeys k _ c.connections u)
  ]

  -- `setConn` puts the handle either into the map or among the closed.
  count-set_conn :
      (h : ℕ) (c : ConnManager K) (k : K) (conn : PgConn)
      → count h (clients (set_conn c k conn).1.connections) + count h (set_conn c k conn).2
        ≡ count h (clients c.connections) + count h (conn.client ∷ [])
  unfolding set_conn
  count-set_conn h c k conn = elim (Option-cases (lookup k c.connections)) [
    | inl absent ↦
        rw (absent, set_conn)
          (rw (clients-insert_of_absent k conn c.connections absent)
            (omega (arith, count-append h (clients c.connections) (conn.client ∷ []))))
    | inr (old, found) ↦ rw (found, set_conn) refl
  ]

  pub set_conn-NodupKeys :
      (c : ConnManager K) (k : K) (conn : PgConn)
      → NodupKeys c.connections
      → NodupKeys (set_conn c k conn).1.connections
  unfolding set_conn
  set_conn-NodupKeys c k conn u = elim (Option-cases (lookup k c.connections)) [
    | inl absent ↦ rw (absent, set_conn) (insert-NodupKeys k conn c.connections u)
    | inr (old, found) ↦ rw (found, set_conn) u
  ]

  open_client-Inv :
      (s : State K) (k : K) (v : Option ℤ) (now : ℕ) (address : String)
      → Inv s
      → Inv (open_client s k v now address)
  unfolding new_pg_conn
  open_client-Inv s k none now address i = record {
    keys = i.keys;
    owned = λ h. ground (arith, i.owned h);
  }
  open_client-Inv s k (some v) now address i =
      elim (Bool-cases (ltb_ℤ v min_supported_pg_version)) [
        | inl old ↦ rw old (record { keys = i.keys; owned = λ h. ground (arith, i.owned h) })
        | inr new ↦ rw new (record { keys = i.keys; owned = λ h. ground (arith, i.owned h) })
      ]

  publish-Inv : (s : State K) (n : ℕ) → Inv s → Inv (publish s (pick n s.in_flight))
  publish-Inv s n i = elim (Option-cases (pick n s.in_flight)) [
    | inl missing ↦ rw missing i
    | inr (((k, conn), rest), found) ↦ rw found (record {
      keys = set_conn-NodupKeys s.manager k conn i.keys;
      owned = λ h. omega (
        arith,
        i.owned h,
        count-pick h n k conn s.in_flight rest found,
        count-set_conn h s.manager k conn,
        count-append h (set_conn s.manager k conn).2 s.closed,
      );
    })
  ]

  tick-Inv : (s : State K) (clock : K → ℕ) → Inv s → Inv (tick s clock)
  unfolding tick close_unused
  tick-Inv s clock i = elim (Bool-cases s.running) [
    | inl on ↦ rw on (record {
      keys = sweep-NodupKeys s.manager clock s.manager.connections i.keys;
      owned = λ h. omega (
        arith,
        i.owned h,
        count-sweep s.manager clock h s.manager.connections,
        count-append h (sweep s.manager clock s.manager.connections).1 s.closed,
      );
    })
    | inr off ↦ simp off i
  ]

  destroy-Inv : (s : State K) → Inv s → Inv (destroy s)
  unfolding destroy close_all
  destroy-Inv s i = elim (Bool-cases s.running) [
    | inl on ↦
        rw (on, drain_lem)
          (record {
            keys = tt;
            owned = λ h.
                omega (arith, i.owned h, count-append h (clients s.manager.connections) s.closed);
          })
    | inr off ↦ simp off i
  ]

  pub step-Inv : (s : State K) (ev : Event K) → Inv s → Inv (step s ev)
  unfolding step
  step-Inv s (finds k now) i = record {
    keys = get_conn-NodupKeys s.manager k now i.keys;
    owned = λ h. rw get_conn-clients (i.owned h);
  }
  step-Inv s (creates k v now address) i = open_client-Inv s k v now address i
  step-Inv s (publishes n) i = publish-Inv s n i
  step-Inv s (ticks clock) i = tick-Inv s clock i
  step-Inv s destroys i = destroy-Inv s i

  pub run-Inv : (s : State K) (evs : List (Event K)) → Inv s → Inv (run s evs)
  unfolding run
  run-Inv s [] i = i
  run-Inv s (ev ∷ evs) i = run-Inv (step s ev) evs (step-Inv s ev i)

module _ {K : Type 0} ⦃e : Eq K⦄ where
  pub count-lookup :
      (k : K) (conn : PgConn) (d : Dict K PgConn)
      → lookup k d ≡ some conn
      → 1 ≤ count conn.client (clients d)
  unfolding lookup
  count-lookup k conn [] found = cc
  count-lookup k conn ((j, x) ∷ d) found = ground (arith, count-lookup k conn d)

module _ {K : Type 0} ⦃e : Eq K⦄ (keep_alive connect_timeout call_timeout : ℤ)
    (storage : String → Option String) (evs : List (Event K)) where
  -- The state after the events, from `NewConnManager` on.
  abbrev pub reached : State K
  reached = run (start (new_conn_manager keep_alive connect_timeout call_timeout storage)) evs

  start-Inv : Inv (start {K = K} (new_conn_manager keep_alive connect_timeout call_timeout storage))
  unfolding start new_conn_manager
  start-Inv = record { keys = tt; owned = λ h. ground arith }

  -- In every interleaving each client opened is held once: by the map, by one goroutine, or as
  -- closed. None is lost, none is closed twice, and no key stands twice in the map.
  pub reached-Inv : Inv reached
  reached-Inv = run-Inv _ evs start-Inv
