-- ===== src/Conn/Manager/Contents.antt =====
-- Which clients the map holds after each operation of the manager, and that no key is in it twice.
use zabbix_agent2_plugin_pos.Prelude.{
  ℕ, ◌≡◌, refl, inl, inr, ap, true, ◌==◌, ==→eq, Option, none, some, List, [], ◌∷◌, ◌++◌, Eq,
  if◌then◌else◌, Bool-cases, arith, count, ◌+◌,
}
use zabbix_agent2_plugin_pos.Prelude.Dict.{Dict, NodupKeys, lookup, insert}
use zabbix_agent2_plugin_pos.Conn.Manager.{PgConn, ConnManager, is_unused, sweep, drain}

-- The handles in the map, in its order.
abbrev pub clients : {K : Type 0} → Dict K PgConn → List ℕ
clients [] = []
clients ((_, conn) ∷ d) = conn.client ∷ clients d

module _ {K : Type 0} ⦃e : Eq K⦄ where
  pub clients-insert_of_absent :
      (k : K) (conn : PgConn) (d : Dict K PgConn)
      → lookup k d ≡ none
      → clients (insert k conn d) ≡ clients d ++ conn.client ∷ []
  unfolding lookup insert
  clients-insert_of_absent k conn [] absent = refl
  clients-insert_of_absent k conn ((j, w) ∷ d) absent =
      ground (arith, clients-insert_of_absent k conn d)

  pub clients-insert_of_same :
      (k : K) (conn old : PgConn) (d : Dict K PgConn)
      → lookup k d ≡ some old
      → conn.client ≡ old.client
      → clients (insert k conn d) ≡ clients d
  unfolding lookup insert
  clients-insert_of_same k conn old [] found same = cc
  clients-insert_of_same k conn old ((j, w) ∷ d) found same =
      ground (arith, clients-insert_of_same k conn old d)

-- What a sweep that visits an entry at `now` leaves of it.
abbrev pub swept : {K : Type 0} → ConnManager K → ℕ → Option PgConn → Option PgConn
swept c now none = none
swept c now (some conn) = if is_unused c now conn then none else some conn

module _ {K : Type 0} (c : ConnManager K) (clock : K → ℕ) where
  -- Sweeping sorts the handles into those kept and those closed.
  pub count-sweep :
      (h : ℕ) (d : Dict K PgConn)
      → count h (clients d) ≡ count h (clients (sweep c clock d).0) + count h (sweep c clock d).1
  unfolding sweep
  count-sweep h [] = omega arith
  count-sweep h ((k, conn) ∷ d) = elim (Bool-cases (is_unused c (clock k) conn)) [
    | inl old ↦ rw old (omega (arith, count-sweep h d))
    | inr young ↦ rw young (omega (arith, count-sweep h d))
  ]

  pub lookup-sweep :
      ⦃e : Eq K⦄ (k : K) (d : Dict K PgConn)
      → NodupKeys d
      → lookup k (sweep c clock d).0 ≡ swept c (clock k) (lookup k d)
  unfolding sweep lookup
  lookup-sweep k [] _ = refl
  lookup-sweep k ((j, conn) ∷ d) (fresh, u) =
      let same : (k == j) ≡ true → is_unused c (clock k) conn ≡ is_unused c (clock j) conn =
        λ h. ap (λ i. is_unused c (clock i) conn) (==→eq k j h) in
      elim (Bool-cases (is_unused c (clock j) conn)) [
        | inl old ↦ rw old (ground (arith, lookup-sweep k d u))
        | inr young ↦ rw young (ground (arith, lookup-sweep k d u))
      ]

  pub sweep-NodupKeys : ⦃e : Eq K⦄ (d : Dict K PgConn) → NodupKeys d → NodupKeys (sweep c clock d).0
  unfolding sweep
  sweep-NodupKeys [] _ = tt
  sweep-NodupKeys ((k, conn) ∷ d) (fresh, u) =
      ground (arith, lookup-sweep k d u, sweep-NodupKeys d u)

-- `closeAll` keeps no entry and closes every handle.
pub drain_lem : {K : Type 0} (d : Dict K PgConn) → drain d ≡ ([], clients d)
unfolding drain
drain_lem [] = refl
drain_lem ((k, conn) ∷ d) = ground (arith, drain_lem d)
