-- ===== src/Conn/Manager/Goroutines/Clients.antt =====
-- Where each client stands while the goroutines and the housekeeper take their steps.
use zabbix_agent2_plugin_pos.Prelude.{
  ℕ, ◌+◌, ◌≤◌, ◌<◌, ◌≡◌, ◌≢◌, refl, sym, ap, ◌∙◌, inl, inr, ◌⊎◌, Option, some, List, [], ◌∷◌, ◌++◌,
  Eq, arith, count, Bool-cases, Option-cases, Bool, false, none, eqb, eqb→≡, eqb→≢,
}
use zabbix_agent2_plugin_pos.Prelude.Dict.{Dict}
use zabbix_agent2_plugin_pos.Conn.Manager.{PgConn, ConnManager, sweep}
use zabbix_agent2_plugin_pos.Conn.Manager.Contents.{clients, count-sweep}
use zabbix_agent2_plugin_pos.Conn.Manager.Schedule
use zabbix_agent2_plugin_pos.Conn.Manager.Schedule.{State, run}
use zabbix_agent2_plugin_pos.Conn.Manager.Schedule.Ownership.{Inv, is_opened, run-Inv}
use zabbix_agent2_plugin_pos.Conn.Manager.Goroutines.{
  Keeper, watching, due, sweeping, stopping, draining, returned, System, Reach,
}
use zabbix_agent2_plugin_pos.Conn.Manager.Goroutines.Flights.{Flying, Among, Crew}
use zabbix_agent2_plugin_pos.Conn.Manager.Goroutines.Shows.{held, pending, Mapped, Shows}
use zabbix_agent2_plugin_pos.Conn.Manager.Goroutines.Refinement.{Reach-run}

module _ {K : Type 0} (h : ℕ) where
  count-clients_append :
      (d rest : Dict K PgConn)
      → count h (clients (d ++ rest)) ≡ count h (clients d) + count h (clients rest)
  count-clients_append [] rest = omega arith
  count-clients_append ((k, conn) ∷ d) rest = omega (arith, count-clients_append d rest)

  -- What the loop has yet to close is still in the map.
  count-Mapped :
      (q : Keeper K) (m a : ConnManager K)
      → Mapped q m a
      → count h (clients m.connections) ≡ count h (clients a.connections) + count h (pending q m)
  count-Mapped watching m a same = rw same (omega arith)
  count-Mapped due m a same = rw same (omega arith)
  count-Mapped (sweeping clock rest) m a (kept, split, same) = omega (
    arith,
    ap (λ d. count h (clients d)) split,
    ap (λ c. count h (clients c.connections)) same,
    count-clients_append kept rest,
    count-clients_append kept (sweep m clock rest).0,
    count-sweep m clock h rest,
  )
  count-Mapped stopping m a same = rw same (omega arith)
  count-Mapped (draining rest) m a (split, same) =
      omega
        (arith, ap (λ d. count h (clients d)) split, ap (λ c. count h (clients c.connections)) same)
  count-Mapped returned m a same = rw same (omega arith)

-- The client is that of a connection in a goroutine's hands.
abbrev pub is_held : {K : Type 0} → ℕ → Option (K × PgConn) → Bool
is_held h none = false
is_held h (some (k, conn)) = eqb conn.client h

module _ {K : Type 0} (holds : ℕ → Option (K × PgConn)) where
  -- The client `h` of a goroutine's connection is counted, and that of two goroutines twice.
  count-holder :
      (h i : ℕ) (k : K) (conn : PgConn) (is : List ℕ) (xs : List (K × PgConn))
      → Flying holds is xs
      → Among i is
      → holds i ≡ some (k, conn)
      → conn.client ≡ h
      → 1 ≤ count h (clients xs)
  count-holder h i k conn [] xs fly a mine client = absurd a
  count-holder h i k conn (j ∷ is) [] fly a mine client = absurd fly
  count-holder h i k conn (j ∷ is) ((k', x) ∷ xs) (here, fly) (inl same) mine client =
      let first : x.client ≡ h = cc in ground arith
  count-holder h i k conn (j ∷ is) ((k', x) ∷ xs) (here, fly) (inr a) mine client =
      let more = count-holder h i k conn is xs fly a mine client in omega arith

  module _ (h i j : ℕ) (k k' : K) (conn conn' : PgConn) (mine : holds i ≡ some (k, conn))
      (its : holds j ≡ some (k', conn')) (client : conn.client ≡ h) (client' : conn'.client ≡ h)
      (differ : i ≢ j) where
    count-holders :
        (is : List ℕ) (xs : List (K × PgConn))
        → Flying holds is xs
        → Among i is
        → Among j is
        → 2 ≤ count h (clients xs)
    count-holders [] xs fly a b = absurd a
    count-holders (n ∷ is) [] fly a b = absurd fly
    count-holders (n ∷ is) ((_, x) ∷ xs) (here, fly) (inl e) (inl e') = absurd (differ (e ∙ sym e'))
    count-holders (n ∷ is) ((_, x) ∷ xs) (here, fly) (inl e) (inr b) =
        let first : x.client ≡ h = cc in
        let more = count-holder h j k' conn' is xs fly b its client' in ground arith
    count-holders (n ∷ is) ((_, x) ∷ xs) (here, fly) (inr a) (inl e') =
        let first : x.client ≡ h = cc in
        let more = count-holder h i k conn is xs fly a mine client in ground arith
    count-holders (n ∷ is) ((_, x) ∷ xs) (here, fly) (inr a) (inr b) =
        let more = count-holders is xs fly a b in omega arith

  -- A goroutine that holds the client.
  abbrev Holder : ℕ → Type 0
  Holder h = (i : ℕ) × (k : K) × (conn : PgConn) × (holds i ≡ some (k, conn)) × (conn.client ≡ h)

  find-Holder :
      (h : ℕ) (is : List ℕ) (xs : List (K × PgConn))
      → Flying holds is xs
      → (count h (clients xs) ≡ 0) ⊎ Holder h
  find-Holder h [] [] fly = inl refl
  find-Holder h [] (x ∷ xs) fly = absurd fly
  find-Holder h (i ∷ is) [] fly = absurd fly
  find-Holder h (i ∷ is) ((k, x) ∷ xs) (here, fly) = elim (Bool-cases (eqb h x.client)) [
    | inl e ↦ inr (i, k, x, here, sym (eqb→≡ h x.client e))
    | inr e ↦ elim (find-Holder h is xs fly) [
      | inl none_ ↦ inl (rw e (omega arith))
      | inr found ↦ inr found
    ]
  ]

  module _ (h : ℕ) (xs : List (K × PgConn)) (c : Crew holds xs) where
    none_holds : count h (clients xs) ≡ 0 → (i : ℕ) → is_held h (holds i) ≡ false
    none_holds unheld i = elim (Option-cases (holds i)) [
      | inl e ↦ rw e refl
      | inr ((k, conn), e) ↦ elim (Bool-cases (eqb conn.client h)) [
        | inl same ↦
            let one =
              count-holder h i k conn c.crew xs c.flying (c.complete i (k, conn) e) e
                (eqb→≡ conn.client h same) in
            absurd (omega arith)
        | inr other ↦ rw e other
      ]
    ]

    one_holds :
        (n : ℕ) (k : K) (conn : PgConn)
        → count h (clients xs) ≤ 1
        → holds n ≡ some (k, conn)
        → conn.client ≡ h
        → (i : ℕ) → is_held h (holds i) ≡ eqb i n
    one_holds n k conn few mine client i = elim (Bool-cases (eqb i n)) [
      | inl same ↦ rw (eqb→≡ i n same, mine, client) (ground arith)
      | inr differ ↦ rw differ (elim (Option-cases (holds i)) [
        | inl e ↦ rw e refl
        | inr ((k', conn'), e) ↦ elim (Bool-cases (eqb conn'.client h)) [
          | inl same ↦
              let two =
                count-holders h i n k' k conn' conn e mine (eqb→≡ conn'.client h same) client
                  (eqb→≢ i n differ) c.crew xs c.flying (c.complete i (k', conn') e)
                  (c.complete n (k, conn) mine) in
              absurd (omega arith)
          | inr other ↦ rw e other
        ]
      ])
    ]

module _ {K : Type 0} ⦃e : Eq K⦄ (c : ConnManager K) (s : System K)
    (empty : c.connections ≡ []) where
  count-Shows :
      (t : State K)
      → Inv t
      → Shows s t
      → (h : ℕ)
      → count h (clients s.shared.manager.connections)
          + count h (clients t.in_flight)
          + count h s.shared.closed
        ≡ is_opened h t
  count-Shows t i sh h =
      omega
        (arith, i.owned h, sh.closed h, count-Mapped h s.keeper s.shared.manager t.manager sh.map)

  start-Inv : Inv (Schedule.start c)
  unfolding Schedule.start
  start-Inv = record { keys = rw empty tt; owned = λ j. rw empty (ground (arith)) }

  -- A client of the map is not closed, and in no goroutine's hands.
  pub Reach-clients :
      Reach c s
      → (h : ℕ) → 1 ≤ count h (clients s.shared.manager.connections)
      → (count h s.shared.closed ≡ 0) × ((i : ℕ) → is_held h (held (s.pc i)) ≡ false)
  Reach-clients r h mapped =
      let (evs, sh) = Reach-run c s empty r in
      let t = run (Schedule.start c) evs in
      let total = count-Shows t (run-Inv (Schedule.start c) evs start-Inv) sh h in
      let most : is_opened h t ≤ 1 = ground arith in
      let holds : ℕ → Option (K × PgConn) = λ j. held (s.pc j) in
      (omega arith, none_holds holds h t.in_flight sh.crew (omega arith))

  -- With goroutines and a housekeeper as in `Reach-run`, after any steps, also between
  -- two turns of a loop: a client that was opened is either once in the map or once closed, and in
  -- no goroutine's hands, or it is in the hands of exactly one goroutine, and then neither in the
  -- map nor closed. None is lost, and none is closed twice.
  pub Reach-is_held :
      Reach c s
      → (h : ℕ) → h < s.shared.opened
      → ((count h (clients s.shared.manager.connections) + count h s.shared.closed ≡ 1)
          × ((i : ℕ) → is_held h (held (s.pc i)) ≡ false))
        ⊎ ((count h (clients s.shared.manager.connections) + count h s.shared.closed ≡ 0)
            × ((n : ℕ) × ((i : ℕ) → is_held h (held (s.pc i)) ≡ eqb i n)))
  Reach-is_held r h below =
      let (evs, sh) = Reach-run c s empty r in
      let t = run (Schedule.start c) evs in
      let total = count-Shows t (run-Inv (Schedule.start c) evs start-Inv) sh h in
      let counted : is_opened h t ≡ 1 = let same = sh.opened in ground arith in
      let holds : ℕ → Option (K × PgConn) = λ j. held (s.pc j) in
      let crew = sh.crew in
      elim (find-Holder holds h crew.crew t.in_flight crew.flying) [
        | inl unheld ↦ inl (omega arith, none_holds holds h t.in_flight crew unheld)
        | inr (n, k, conn, mine, client) ↦
            let one =
              count-holder holds h n k conn crew.crew t.in_flight crew.flying
                (crew.complete n (k, conn) mine) mine client in
            inr (
              omega arith,
              (n, one_holds holds h t.in_flight crew n k conn (omega arith) mine client),
            )
      ]
