-- ===== src/Conn/Manager/Goroutines/Shows.antt =====
-- What a state of the goroutines shows of the state of `Schedule`: the map as it will be when the loop
-- that runs has visited its entries, and the clients that this loop has yet to close.
use zabbix_agent2_plugin_pos.Prelude.{
  ℕ, ◌+◌, String, ◌≡◌, refl, sym, ap, ◌∙◌, Bool, true, false, Option, none, some, List, [], ◌++◌,
  Eq, inl, inr, Bool-cases, count, eqb, eqb→≡,
}
use zabbix_agent2_plugin_pos.Prelude.Dict.{Dict, NodupKeys}
use zabbix_agent2_plugin_pos.Prelude.Integers.{ℤ}
use zabbix_agent2_plugin_pos.Conn.Manager.{PgConn, ConnManager, new_pg_conn, sweep}
use zabbix_agent2_plugin_pos.Conn.Manager.Contents.{clients}
use zabbix_agent2_plugin_pos.Conn.Manager.Schedule.{State, Event, run}
use zabbix_agent2_plugin_pos.Conn.Manager.Goroutines.{
  Pc, publishing, storing, Keeper, watching, due, sweeping, stopping, draining, returned, System,
  update,
}
use zabbix_agent2_plugin_pos.Conn.Manager.Goroutines.Flights.{Crew}
use zabbix_agent2_plugin_pos.Conn.Manager.Goroutines.Mutex.{is_busy}

-- The connection that a goroutine created and has not published.
abbrev pub held : {K : Type 0} → Pc K → Option (K × PgConn)
held (publishing k conn) = some (k, conn)
held (storing k conn) = some (k, conn)
held _ = none

abbrev pub is_on : {K : Type 0} → Keeper K → Bool
is_on (draining rest) = false
is_on returned = false
is_on _ = true

-- The handles that the housekeeper's loop has yet to close.
abbrev pub pending : {K : Type 0} → Keeper K → ConnManager K → List ℕ
pending (sweeping clock rest) m = (sweep m clock rest).1
pending (draining rest) m = clients rest
pending _ m = []

-- The map when the loop is done.
abbrev pub Mapped : {K : Type 0} → Keeper K → ConnManager K → ConnManager K → Type 0
Mapped {K} (sweeping clock rest) m a =
    (kept : Dict K PgConn) × (m.connections ≡ kept ++ rest)
    × (a ≡ record m { connections = kept ++ (sweep m clock rest).0 })
Mapped (draining rest) m a = (m.connections ≡ rest) × (a ≡ record m { connections = [] })
Mapped _ m a = a ≡ m

module _ {K : Type 0} where
  pub Mapped-idle : (q : Keeper K) (m a : ConnManager K) → is_busy q ≡ false → Mapped q m a → a ≡ m
  Mapped-idle watching m a quiet h = h
  Mapped-idle due m a quiet h = h
  Mapped-idle (sweeping clock rest) m a quiet h = cc
  Mapped-idle stopping m a quiet h = h
  Mapped-idle (draining rest) m a quiet h = cc
  Mapped-idle returned m a quiet h = h

  pub idle-Mapped : (q : Keeper K) (m a : ConnManager K) → is_busy q ≡ false → a ≡ m → Mapped q m a
  idle-Mapped watching m a quiet h = h
  idle-Mapped due m a quiet h = h
  idle-Mapped (sweeping clock rest) m a quiet h = cc
  idle-Mapped stopping m a quiet h = h
  idle-Mapped (draining rest) m a quiet h = cc
  idle-Mapped returned m a quiet h = h

  pub pending-idle : (q : Keeper K) (m : ConnManager K) → is_busy q ≡ false → pending q m ≡ []
  pending-idle watching m quiet = refl
  pending-idle due m quiet = refl
  pending-idle (sweeping clock rest) m quiet = cc
  pending-idle stopping m quiet = refl
  pending-idle (draining rest) m quiet = cc
  pending-idle returned m quiet = refl

  -- The settings that `create` reads do not depend on the map.
  pub new_pg_conn-Mapped :
      (q : Keeper K) (m a : ConnManager K) (h : ℕ) (v : ℤ) (now : ℕ) (address : String)
      → Mapped q m a
      → new_pg_conn a h v now address ≡ new_pg_conn m h v now address
  unfolding new_pg_conn
  new_pg_conn-Mapped watching m a h v now address same = rw same refl
  new_pg_conn-Mapped due m a h v now address same = rw same refl
  new_pg_conn-Mapped (sweeping t rest) m a h v now address (kept, _, same) = rw same refl
  new_pg_conn-Mapped stopping m a h v now address same = rw same refl
  new_pg_conn-Mapped (draining rest) m a h v now address (_, same) = rw same refl
  new_pg_conn-Mapped returned m a h v now address same = rw same refl

  pub held-update :
      (pc : ℕ → Pc K) (i : ℕ) (p : Pc K)
      → held p ≡ held (pc i)
      → (j : ℕ) → held (update pc i p j) ≡ held (pc j)
  held-update pc i p same j = elim (Bool-cases (eqb j i)) [
    | inl e ↦ rw e (same ∙ sym (ap (λ n. held (pc n)) (eqb→≡ j i e)))
    | inr e ↦ rw e refl
  ]

  module _ ⦃e : Eq K⦄ where
    pub record Shows (s : System K) (t : State K) : Type 0 where
      pub map : Mapped s.keeper s.shared.manager t.manager
      pub nodup : NodupKeys s.shared.manager.connections
      pub closed :
          (h : ℕ)
          → count h t.closed ≡ count h s.shared.closed + count h (pending s.keeper s.shared.manager)
      pub opened : t.opened ≡ s.shared.opened
      pub running : t.running ≡ is_on s.keeper
      pub crew : Crew (λ i. held (s.pc i)) t.in_flight

    -- The schedule gets there by some events.
    abbrev pub Follows : State K → System K → Type 0
    Follows t s' = (evs : List (Event K)) × Shows s' (run t evs)
