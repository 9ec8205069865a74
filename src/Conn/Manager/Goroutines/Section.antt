-- ===== src/Conn/Manager/Goroutines/Section.antt =====
-- How long `connectionsMu` is held, in steps of the one that holds it.
use zabbix_agent2_plugin_pos.Prelude.{
  ℕ, ◌+◌, ◌≤◌, ◌≡◌, refl, ◌⊎◌, inl, inr, Bool, true, false, some, none, Eq, Bool-cases, eqb, eqb→≡,
  eqb→≢, ◌∙◌, arith, length, if◌then◌else◌,
}
use zabbix_agent2_plugin_pos.Conn.Manager.{ConnManager}
use zabbix_agent2_plugin_pos.Conn.Manager.Goroutines.{
  Pc, Keeper, sweeping, draining, Owner, goroutine, housekeeper, Shared, Move, asks, locks_get,
  finds, misses, fails, discards, creates, locks_set, stores, returns, Keep, ticks, locks_sweep,
  closes, spares, unlocks_sweep, destroyed, locks_drain, drains, unlocks_drain, System, Step, moves,
  keeps, Reach, later,
}
use zabbix_agent2_plugin_pos.Conn.Manager.Goroutines.Mutex.{
  is_critical, is_busy, Move-Uses, Keep-Uses, Reach-Locked,
}

-- The entries that the housekeeper's loop has yet to visit; a goroutine has no loop.
abbrev pub left : {K : Type 0} → Owner → Keeper K → ℕ
left housekeeper (sweeping clock rest) = length rest
left housekeeper (draining rest) = length rest
left _ _ = 0

abbrev pub is_of : Owner → Owner → Bool
is_of (goroutine i) (goroutine j) = eqb i j
is_of housekeeper housekeeper = true
is_of _ _ = false

module _ {K : Type 0} ⦃e : Eq K⦄ where
  -- Whose step it is.
  abbrev pub own : {s s' : System K} → Step s s' → Owner
  own (moves i mv) = goroutine i
  own (keeps kp) = housekeeper

  -- The owner's step unlocks, or leaves fewer entries to its loop.
  abbrev Nearer : Owner → Shared K → Keeper K → Shared K → Keeper K → Type 0
  Nearer o m q m' q' = (m'.mu ≡ none) ⊎ ((m'.mu ≡ m.mu) × (left o q' + 1 ≤ left o q))

  Move-unlocks :
      {i : ℕ} {m m' : Shared K} {p p' : Pc K}
      → Move i m p m' p'
      → is_critical p ≡ true
      → m'.mu ≡ none
  Move-unlocks (asks k) h = cc
  Move-unlocks (locks_get free) h = cc
  Move-unlocks (finds now g) h = refl
  Move-unlocks (misses now g) h = refl
  Move-unlocks fails h = cc
  Move-unlocks (discards v g) h = cc
  Move-unlocks (creates v now address g) h = cc
  Move-unlocks (locks_set free) h = cc
  Move-unlocks (stores g) h = refl
  Move-unlocks returns h = cc

  Keep-Nearer :
      {m m' : Shared K} {q q' : Keeper K}
      → Keep m q m' q'
      → is_busy q ≡ true
      → Nearer housekeeper m q m' q'
  Keep-Nearer ticks h = cc
  Keep-Nearer (locks_sweep clock free) h = cc
  Keep-Nearer (closes g) h = inr (refl, omega arith)
  Keep-Nearer (spares g) h = inr (refl, omega arith)
  Keep-Nearer unlocks_sweep h = inl refl
  Keep-Nearer destroyed h = cc
  Keep-Nearer (locks_drain free) h = cc
  Keep-Nearer drains h = inr (refl, omega arith)
  Keep-Nearer unlocks_drain h = inl refl

  -- A number of the owner's steps, with any steps of others between them, while the owner has the
  -- lock.
  pub data Section (o : Owner) (s : System K) : ℕ → System K → Type 0 where
    begins : Section o s 0 s
    goes :
        {n : ℕ} {r r' : System K}
        → Section o s n r
        → r.shared.mu ≡ some o
        → (st : Step r r') → Section o s (n + (if is_of o (own st) then 1 else 0)) r'

  abbrev Within : Owner → System K → ℕ → System K → Type 0
  Within o s n r =
      ((r.shared.mu ≡ some o) × (n + left o r.keeper ≤ left o s.keeper))
      ⊎ ((r.shared.mu ≡ none) × (n ≤ left o s.keeper + 1))

  step-Within :
      (o : Owner) (s : System K) (n : ℕ) {r r' : System K} (c : ConnManager K)
      → Reach c r
      → r.shared.mu ≡ some o
      → n + left o r.keeper ≤ left o s.keeper
      → (st : Step r r') → Within o s (n + (if is_of o (own st) then 1 else 0)) r'
  step-Within (goroutine j) s n {r} c rc has few (moves i mv) = elim (Bool-cases (eqb j i)) [
    | inl same ↦
        let owned : r.shared.mu ≡ some (goroutine i) = cc (has, eqb→≡ j i same) in
        rw same (inr (Move-unlocks mv ((Reach-Locked rc).owner i owned), omega arith))
    | inr other ↦ rw other (elim (Move-Uses mv) [
      | inl (kept, _) ↦ inl (kept ∙ has, omega arith)
      | inr (inl (free, _, _)) ↦ cc (free, has)
      | inr (inr (inside, _, _)) ↦
          let its = (Reach-Locked rc).inside i inside in absurd (eqb→≢ j i other cc)
    ])
  ]
  step-Within (goroutine j) s n {r} c rc has few (keeps kp) = elim (Keep-Uses kp) [
    | inl (kept, _) ↦ inl (kept ∙ has, omega arith)
    | inr (inl (free, _, _)) ↦ cc (free, has)
    | inr (inr (busy, _, _)) ↦ let its = (Reach-Locked rc).busy busy in cc (its, has)
  ]
  step-Within housekeeper s n {r} c rc has few (moves i mv) = elim (Move-Uses mv) [
    | inl (kept, _) ↦ inl (kept ∙ has, omega arith)
    | inr (inl (free, _, _)) ↦ cc (free, has)
    | inr (inr (inside, _, _)) ↦ let its = (Reach-Locked rc).inside i inside in cc (its, has)
  ]
  step-Within housekeeper s n {r} c rc has few (keeps kp) =
      elim (Keep-Nearer kp ((Reach-Locked rc).keeper has)) [
        | inl free ↦ inr (free, omega arith)
        | inr (kept, fewer) ↦ inl (kept ∙ has, omega arith)
      ]

  Section-Reach :
      (c : ConnManager K) (o : Owner) (s : System K) {n : ℕ} {r : System K}
      → Reach c s
      → Section o s n r
      → Reach c r
  Section-Reach c o s rc begins = rc
  Section-Reach c o s rc (goes sec has st) = later (Section-Reach c o s rc sec) st

  Section-Within :
      (c : ConnManager K) (o : Owner) (s : System K) {n : ℕ} {r : System K}
      → Reach c s
      → s.shared.mu ≡ some o
      → Section o s n r
      → Within o s n r
  Section-Within c o s rc has begins = inl (has, omega arith)
  Section-Within c o s rc has (goes {n} sec mine st) = elim (Section-Within c o s rc has sec) [
    | inl (_, few) ↦ step-Within o s n c (Section-Reach c o s rc sec) mine few st
    | inr (free, _) ↦ cc (free, mine)
  ]

  -- A locked section of `connectionsMu` takes a bounded number of steps, `Close` of a client being
  -- one. After any steps from `NewConnManager` on, let a goroutine or the housekeeper have the lock,
  -- and take any steps, its own and those of others, while it has it: of its own there are at most
  -- as many as its loop has entries left, and one more, after which the mutex is free; a goroutine
  -- has no loop. As long as it has the lock, its steps and the entries still left are together at
  -- most the entries that were left.
  pub Reach-Section :
      (c : ConnManager K) (s r : System K) (o : Owner) (n : ℕ)
      → Reach c s
      → s.shared.mu ≡ some o
      → Section o s n r
      → (n ≤ left o s.keeper + 1)
        × ((r.shared.mu ≡ none)
            ⊎ ((r.shared.mu ≡ some o) × (n + left o r.keeper ≤ left o s.keeper)))
  Reach-Section c s r o n rc has sec = elim (Section-Within c o s rc has sec) [
    | inl (mine, few) ↦ (omega arith, inr (mine, few))
    | inr (free, few) ↦ (few, inl free)
  ]
