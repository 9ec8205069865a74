-- ===== src/Conn/Manager/Goroutines/Mutex.antt =====
-- Who holds `connectionsMu`.
use zabbix_agent2_plugin_pos.Prelude.{
  ℕ, ◌≡◌, refl, ◌⊎◌, inl, inr, Bool, true, false, none, some, Eq, arith,
}
use zabbix_agent2_plugin_pos.Conn.Manager.{ConnManager}
use zabbix_agent2_plugin_pos.Conn.Manager.Goroutines.{
  Pc, finding, storing, Keeper, sweeping, draining, Owner, goroutine, housekeeper, Shared, Move,
  asks, locks_get, finds, misses, fails, discards, creates, locks_set, stores, returns, Keep, ticks,
  locks_sweep, closes, spares, unlocks_sweep, destroyed, locks_drain, drains, unlocks_drain, System,
  Step, moves, keeps, Reach, start, later,
}

-- Between the lock and the unlock.
abbrev pub is_critical : {K : Type 0} → Pc K → Bool
is_critical (finding k) = true
is_critical (storing k conn) = true
is_critical _ = false

abbrev pub is_busy : {K : Type 0} → Keeper K → Bool
is_busy (sweeping clock rest) = true
is_busy (draining rest) = true
is_busy _ = false

-- A step leaves the mutex and stays outside, takes it, or gives it back.
abbrev pub Uses : {K : Type 0} → Owner → Shared K → Bool → Shared K → Bool → Type 0
Uses o m before m' after =
    ((m'.mu ≡ m.mu) × (before ≡ after))
    ⊎ ((m.mu ≡ none) × (m'.mu ≡ some o) × (after ≡ true))
    ⊎ ((before ≡ true) × (m'.mu ≡ none) × (after ≡ false))

module _ {K : Type 0} ⦃e : Eq K⦄ where
  pub Move-Uses :
      {i : ℕ} {m m' : Shared K} {p p' : Pc K}
      → Move i m p m' p'
      → Uses (goroutine i) m (is_critical p) m' (is_critical p')
  Move-Uses (asks k) = inl (refl, refl)
  Move-Uses (locks_get free) = inr (inl (free, refl, refl))
  Move-Uses (finds now h) = inr (inr (refl, refl, refl))
  Move-Uses (misses now h) = inr (inr (refl, refl, refl))
  Move-Uses fails = inl (refl, refl)
  Move-Uses (discards v h) = inl (refl, refl)
  Move-Uses (creates v now address h) = inl (refl, refl)
  Move-Uses (locks_set free) = inr (inl (free, refl, refl))
  Move-Uses (stores h) = inr (inr (refl, refl, refl))
  Move-Uses returns = inl (refl, refl)

  pub Keep-Uses :
      {m m' : Shared K} {q q' : Keeper K}
      → Keep m q m' q'
      → Uses housekeeper m (is_busy q) m' (is_busy q')
  Keep-Uses ticks = inl (refl, refl)
  Keep-Uses (locks_sweep clock free) = inr (inl (free, refl, refl))
  Keep-Uses (closes h) = inl (refl, refl)
  Keep-Uses (spares h) = inl (refl, refl)
  Keep-Uses unlocks_sweep = inr (inr (refl, refl, refl))
  Keep-Uses destroyed = inl (refl, refl)
  Keep-Uses (locks_drain free) = inr (inl (free, refl, refl))
  Keep-Uses drains = inl (refl, refl)
  Keep-Uses unlocks_drain = inr (inr (refl, refl, refl))

  -- Exactly the owner of the mutex is in a locked section.
  pub record Locked (s : System K) : Type 0 where
    pub inside : (i : ℕ) → is_critical (s.pc i) ≡ true → s.shared.mu ≡ some (goroutine i)
    pub busy : is_busy s.keeper ≡ true → s.shared.mu ≡ some housekeeper
    pub owner : (i : ℕ) → s.shared.mu ≡ some (goroutine i) → is_critical (s.pc i) ≡ true
    pub keeper : s.shared.mu ≡ some housekeeper → is_busy s.keeper ≡ true

  pub Step-Locked : {s t : System K} → Step s t → Locked s → Locked t
  Step-Locked {s} (moves i mv) l =
      let u = Move-Uses mv in
      record {
        inside = λ j h. ground (arith, l.inside j, l.inside i);
        busy = λ h. ground (arith, l.inside i);
        owner = λ j h. ground (arith, l.owner j, l.owner i);
        keeper = λ h. ground (arith, l.inside i);
      }
  Step-Locked {s} (keeps kp) l =
      let u = Keep-Uses kp in
      record {
        inside = λ j h. ground (arith, l.inside j);
        busy = λ h. ground (arith);
        owner = λ j h. ground (arith, l.owner j);
        keeper = λ h. ground (arith);
      }

  pub Reach-Locked : {c : ConnManager K} {s : System K} → Reach c s → Locked s
  Reach-Locked start = record {
    inside = λ i h. cc;
    busy = λ h. cc;
    owner = λ i h. cc;
    keeper = λ h. cc;
  }
  Reach-Locked (later r st) = Step-Locked st (Reach-Locked r)
