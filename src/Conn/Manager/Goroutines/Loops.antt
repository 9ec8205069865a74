-- ===== src/Conn/Manager/Goroutines/Loops.antt =====
-- The loops of `closeUnused` and `closeAll`, which delete from the map that they range over.
use zabbix_agent2_plugin_pos.Prelude.{
  ℕ, ◌≡◌, refl, ap, true, false, none, [], ◌∷◌, ◌++◌, Eq, ◌==◌, ==_refl, arith,
}
use zabbix_agent2_plugin_pos.Prelude.Dict.{Dict, NodupKeys, lookup}
use zabbix_agent2_plugin_pos.Conn.Manager.{PgConn, ConnManager, is_unused, sweep}
use zabbix_agent2_plugin_pos.Conn.Manager.Goroutines.{delete}

-- A sweep reads nothing of the manager but its settings.
pub sweep-settings :
    {K : Type 0} (c : ConnManager K) (clock : K → ℕ) (d rest : Dict K PgConn)
    → sweep (record c { connections = d }) clock rest ≡ sweep c clock rest
unfolding sweep is_unused
sweep-settings c clock d [] = refl
sweep-settings c clock d ((k, conn) ∷ rest) = rw (sweep-settings c clock d rest) refl

module _ {K : Type 0} (c : ConnManager K) (clock : K → ℕ) (k : K) (conn : PgConn)
    (rest : Dict K PgConn) where
  pub sweep_of_old :
      is_unused c (clock k) conn ≡ true
      → sweep c clock ((k, conn) ∷ rest)
        ≡ ((sweep c clock rest).0, conn.client ∷ (sweep c clock rest).1)
  unfolding sweep
  sweep_of_old old = rw old refl

  pub sweep_of_young :
      is_unused c (clock k) conn ≡ false
      → sweep c clock ((k, conn) ∷ rest)
        ≡ ((k, conn) ∷ (sweep c clock rest).0, (sweep c clock rest).1)
  unfolding sweep
  sweep_of_young young = rw young refl

module _ {K : Type 0} ⦃e : Eq K⦄ where
  -- A key of the map differs from the keys that it does not have.
  pub lookup-append_none :
      (j k : K) (conn : PgConn) (d rest : Dict K PgConn)
      → lookup j (d ++ (k, conn) ∷ rest) ≡ none
      → ((k == j) ≡ false) × (lookup j (d ++ rest) ≡ none)
  unfolding lookup
  lookup-append_none j k conn [] rest none_ = ground arith
  lookup-append_none j k conn ((i, x) ∷ d) rest none_ =
      ground (arith, lookup-append_none j k conn d rest)

  -- Deleting the entry that the loop visits leaves those before it and those behind it.
  pub delete-append :
      (k : K) (conn : PgConn) (d rest : Dict K PgConn)
      → NodupKeys (d ++ (k, conn) ∷ rest)
      → delete k (d ++ (k, conn) ∷ rest) ≡ d ++ rest
  unfolding delete
  delete-append k conn [] rest u = rw (==_refl k) refl
  delete-append k conn ((j, x) ∷ d) rest (fresh, u) =
      rw ((lookup-append_none j k conn d rest fresh).0)
        (ap (λ t. (j, x) ∷ t) (delete-append k conn d rest u))

  pub NodupKeys-delete :
      (k : K) (conn : PgConn) (d rest : Dict K PgConn)
      → NodupKeys (d ++ (k, conn) ∷ rest)
      → NodupKeys (d ++ rest)
  NodupKeys-delete k conn [] rest (fresh, u) = u
  NodupKeys-delete k conn ((j, x) ∷ d) rest (fresh, u) =
      ((lookup-append_none j k conn d rest fresh).1, NodupKeys-delete k conn d rest u)
