-- ===== src/Conn/Manager/Goroutines/Release.antt =====
-- Waiting for `connectionsMu`: its owner gives it back by its own steps, the loops over the map
-- included.
use zabbix_agent2_plugin_pos.Prelude.{
  ℕ, ◌≡◌, refl, sym, ap, subst, inl, inr, Bool, true, false, none, some, [], ◌∷◌, Eq, Bool-cases,
  Option-cases, eqb, eqb→≡,
}
use zabbix_agent2_plugin_pos.Prelude.Dict.{Dict}
use zabbix_agent2_plugin_pos.Conn.Manager.{PgConn, ConnManager, is_unused, get_conn}
use zabbix_agent2_plugin_pos.Conn.Manager.Goroutines.{
  Pc, idle, asking, finding, connecting, publishing, storing, answered, Keeper, watching, due,
  sweeping, stopping, draining, returned, Owner, goroutine, housekeeper, Shared, update, Move,
  locks_get, finds, misses, locks_set, stores, Keep, locks_sweep, closes, spares, unlocks_sweep,
  locks_drain, drains, unlocks_drain, System, Step, moves, keeps, Reach,
}
use zabbix_agent2_plugin_pos.Conn.Manager.Goroutines.Mutex.{is_critical, is_busy, Reach-Locked}

-- Before a lock.
abbrev pub is_asking : {K : Type 0} → Pc K → Bool
is_asking (asking k) = true
is_asking (publishing k conn) = true
is_asking _ = false

abbrev pub is_due : {K : Type 0} → Keeper K → Bool
is_due due = true
is_due stopping = true
is_due _ = false

abbrev pub is_waiting : {K : Type 0} → System K → Owner → Bool
is_waiting s (goroutine i) = is_asking (s.pc i)
is_waiting s housekeeper = is_due s.keeper

module _ {K : Type 0} ⦃e : Eq K⦄ where
  -- Steps of one goroutine, or of the housekeeper, alone.
  pub data Alone : Owner → System K → System K → Type 0 where
    done : {o : Owner} {s : System K} → Alone o s s
    moved :
        {i : ℕ} {s t : System K} {m : Shared K} {p : Pc K}
        → Move i s.shared (s.pc i) m p
        → Alone (goroutine i) (record s { shared = m; pc = update s.pc i p }) t
        → Alone (goroutine i) s t
    kept :
        {s t : System K} {m : Shared K} {q : Keeper K}
        → Keep s.shared s.keeper m q
        → Alone housekeeper (record s { shared = m; keeper = q }) t
        → Alone housekeeper s t

  -- After its own steps the mutex is free, and those who wait still do.
  abbrev Frees : Owner → System K → Type 0
  Frees o s =
      (t : System K) × Alone o s t
      × (t.shared.mu ≡ none)
      × ((j : ℕ) → is_asking (s.pc j) ≡ true → is_asking (t.pc j) ≡ true)
      × (is_due s.keeper ≡ true → is_due t.keeper ≡ true)

  Move-at : {i : ℕ} {m m' : Shared K} {p p' q : Pc K} → q ≡ p → Move i m p m' p' → Move i m q m' p'
  Move-at {i} {m} {m'} {p} {p'} at mv = subst (λ x. Move i m x m' p') (sym at) mv

  Keep-at : {m m' : Shared K} {p p' q : Keeper K} → q ≡ p → Keep m p m' p' → Keep m q m' p'
  Keep-at {m} {m'} {p} {p'} at kp = subst (λ x. Keep m x m' p') (sym at) kp

  kept-Frees :
      (s : System K) {m : Shared K} {q q' : Keeper K}
      → s.keeper ≡ q
      → is_due q ≡ false
      → Keep s.shared q m q'
      → Frees housekeeper (record s { shared = m; keeper = q' })
      → Frees housekeeper s
  kept-Frees s at busy kp (t, al, free, asks, waits) =
      (t, kept (Keep-at at kp) al, free, asks, λ h. cc (at, busy, h))

  moved-Frees :
      (s : System K) (i : ℕ) {m : Shared K} {p p' : Pc K}
      → s.pc i ≡ p
      → is_asking p ≡ false
      → Move i s.shared p m p'
      → m.mu ≡ none
      → Frees (goroutine i) s
  moved-Frees s i {m} {p' = p'} at inside mv free = (
    record s { shared = m; pc = update s.pc i p' },
    moved (Move-at at mv) done,
    free,
    λ j h. elim (Bool-cases (eqb j i)) [
      | inl same ↦ cc (at, inside, h, eqb→≡ j i same)
      | inr other ↦ rw other h
    ],
    λ h. h,
  )

  sweep-Frees :
      (clock : K → ℕ) (rest : Dict K PgConn) (s : System K)
      → s.keeper ≡ sweeping clock rest
      → Frees housekeeper s
  sweep-Frees clock [] s at = kept-Frees s at refl unlocks_sweep (_, done, refl, λ j h. h, λ h. h)
  sweep-Frees clock ((ci, conn) ∷ rest) s at =
      elim (Bool-cases (is_unused s.shared.manager (clock ci) conn)) [
        | inl old ↦ kept-Frees s at refl (closes old) (sweep-Frees clock rest _ refl)
        | inr young ↦ kept-Frees s at refl (spares young) (sweep-Frees clock rest _ refl)
      ]

  drain-Frees :
      (rest : Dict K PgConn) (s : System K) → s.keeper ≡ draining rest → Frees housekeeper s
  drain-Frees [] s at = kept-Frees s at refl unlocks_drain (_, done, refl, λ j h. h, λ h. h)
  drain-Frees ((ci, conn) ∷ rest) s at = kept-Frees s at refl drains (drain-Frees rest _ refl)

  keeper-Frees :
      (q : Keeper K) (s : System K) → s.keeper ≡ q → is_busy q ≡ true → Frees housekeeper s
  keeper-Frees watching s at busy = cc
  keeper-Frees due s at busy = cc
  keeper-Frees (sweeping clock rest) s at busy = sweep-Frees clock rest s at
  keeper-Frees stopping s at busy = cc
  keeper-Frees (draining rest) s at busy = drain-Frees rest s at
  keeper-Frees returned s at busy = cc

  goroutine-Frees :
      (p : Pc K) (s : System K) (i : ℕ) → s.pc i ≡ p → is_critical p ≡ true → Frees (goroutine i) s
  goroutine-Frees idle s i at inside = cc
  goroutine-Frees (asking k) s i at inside = cc
  goroutine-Frees (finding k) s i at inside =
      let answer = get_conn s.shared.manager k 0 in
      elim (Option-cases answer.0) [
        | inl none_ ↦ moved-Frees s i at refl (misses 0 (ap (λ o. (o, answer.1)) none_)) refl
        | inr (conn, found) ↦ moved-Frees s i at refl (finds 0 (ap (λ o. (o, answer.1)) found)) refl
      ]
  goroutine-Frees (connecting k) s i at inside = cc
  goroutine-Frees (publishing k conn) s i at inside = cc
  goroutine-Frees (storing k conn) s i at inside = moved-Frees s i at refl (stores refl) refl
  goroutine-Frees (answered k conn) s i at inside = cc

  goroutine_locks :
      (p : Pc K) (t : System K) (i : ℕ)
      → t.pc i ≡ p
      → t.shared.mu ≡ none
      → is_asking p ≡ true
      → (u : System K) × Step t u × (u.shared.mu ≡ some (goroutine i))
  goroutine_locks idle t i at free waits = cc
  goroutine_locks (asking k) t i at free waits = (_, moves i (Move-at at (locks_get free)), refl)
  goroutine_locks (finding k) t i at free waits = cc
  goroutine_locks (connecting k) t i at free waits = cc
  goroutine_locks (publishing k conn) t i at free waits =
      (_, moves i (Move-at at (locks_set free)), refl)
  goroutine_locks (storing k conn) t i at free waits = cc
  goroutine_locks (answered k conn) t i at free waits = cc

  keeper_locks :
      (q : Keeper K) (t : System K)
      → t.keeper ≡ q
      → t.shared.mu ≡ none
      → is_due q ≡ true
      → (u : System K) × Step t u × (u.shared.mu ≡ some housekeeper)
  keeper_locks watching t at free waits = cc
  keeper_locks due t at free waits = (_, keeps (Keep-at at (locks_sweep (λ _. 0) free)), refl)
  keeper_locks (sweeping clock rest) t at free waits = cc
  keeper_locks stopping t at free waits = (_, keeps (Keep-at at (locks_drain free)), refl)
  keeper_locks (draining rest) t at free waits = cc
  keeper_locks returned t at free waits = cc

  frees :
      (c : ConnManager K) (s : System K) (o : Owner) → Reach c s → s.shared.mu ≡ some o → Frees o s
  frees c s (goroutine i) r has = goroutine-Frees (s.pc i) s i refl ((Reach-Locked r).owner i has)
  frees c s housekeeper r has = keeper-Frees s.keeper s refl ((Reach-Locked r).keeper has)

  -- There is no deadlock on `connectionsMu`. Whenever, after any steps from `NewConnManager` on, a
  -- goroutine in `GetConnection` or the housekeeper waits for the lock while another has it, there
  -- are finitely many steps of the other alone, the rest of the loops of `closeUnused` and `closeAll`
  -- included, that come to its unlock, and after them the one that waits can take the lock. That it
  -- is the next to take it is not said; `Close` of a client is one step.
  pub Reach-Alone :
      (c : ConnManager K) (s : System K) (o w : Owner)
      → Reach c s
      → s.shared.mu ≡ some o
      → is_waiting s w ≡ true
      → (t u : System K) × Alone o s t × Step t u × (u.shared.mu ≡ some w)
  Reach-Alone c s o (goroutine i) r has waits =
      let (t, al, free, asks, _) = frees c s o r has in
      let (u, st, mine) = goroutine_locks (t.pc i) t i refl free (asks i waits) in
      (t, u, al, st, mine)
  Reach-Alone c s o housekeeper r has waits =
      let (t, al, free, _, due_) = frees c s o r has in
      let (u, st, mine) = keeper_locks t.keeper t refl free (due_ waits) in (t, u, al, st, mine)
