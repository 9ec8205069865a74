-- ===== src/Conn/Manager/Goroutines.antt =====
-- plugin/conn.go with its mutex `connectionsMu`: any number of goroutines in `GetConnection`, and
-- `housekeeper`. Taking the lock is a step, and so is each turn of the loops of `closeUnused` and
-- `closeAll`; the bodies of `getConn` and `setConn` are one step with the unlock. The loops range over
-- the map that they delete from, and visit each entry that it held at the start; what the
-- clock reads at each of them is arbitrary. A goroutine opens a client and learns the outcome in one step, since no other sees
-- the client before `setConn`.
pub mod Mutex
pub mod Flights
pub mod Loops
pub mod Shows
pub mod Moves
pub mod Sweeps
pub mod Refinement
pub mod Clients
pub mod Release
pub mod Section
pub mod Serving
use zabbix_agent2_plugin_pos.Prelude.{
  ℕ, suc, String, ◌≡◌, Bool, true, false, Option, none, some, List, [], ◌∷◌, ◌++◌, Eq, ◌==◌, eqb,
  if◌then◌else◌,
}
use zabbix_agent2_plugin_pos.Prelude.Dict.{Dict}
use zabbix_agent2_plugin_pos.Prelude.Integers.{ℤ, ltb_ℤ}
use zabbix_agent2_plugin_pos.Conn.Manager.{
  PgConn, ConnManager, min_supported_pg_version, new_pg_conn, is_unused, get_conn, set_conn,
}

-- Where a goroutine stands, with what it holds in its variables.
pub data Pc (K : Type 0) : Type 0 where
  idle : Pc K
  asking : K → Pc K  -- before the lock of `getConn`
  finding : K → Pc K  -- in `getConn`
  connecting : K → Pc K  -- `getConn` answered nil
  publishing : K → PgConn → Pc K  -- before the lock of `setConn`
  storing : K → PgConn → Pc K  -- in `setConn`
  answered : K → PgConn → Pc K  -- `GetConnection` has returned

-- Where the housekeeper stands, with the entries that its loop has yet to visit.
pub data Keeper (K : Type 0) : Type 0 where
  watching : Keeper K  -- at the `select`
  due : Keeper K  -- before the lock of `closeUnused`
  sweeping : (K → ℕ) → Dict K PgConn → Keeper K  -- with what the clock will read at each key
  stopping : Keeper K  -- before the lock of `closeAll`
  draining : Dict K PgConn → Keeper K
  returned : Keeper K

pub data Owner : Type 0 where
  goroutine : ℕ → Owner
  housekeeper : Owner

-- What the goroutines share: the manager, its mutex, and the clients opened and closed.
pub record Shared (K : Type 0) : Type 0 where
  pub manager : ConnManager K
  pub mu : Option Owner
  pub opened : ℕ
  pub closed : List ℕ

-- `create` closes the client of a server without a version, or with an old one.
abbrev pub is_refused : Option ℤ → Bool
is_refused none = true
is_refused (some v) = ltb_ℤ v min_supported_pg_version

abbrev pub update {ℓ} : {A : Type ℓ} → (ℕ → A) → ℕ → A → ℕ → A
update f i a j = if eqb j i then a else f j

module _ {K : Type 0} ⦃e : Eq K⦄ where
  -- `delete(m, k)`
  unfoldable pub delete : K → Dict K PgConn → Dict K PgConn
  delete k [] = []
  delete k ((j, conn) ∷ d) = if k == j then d else (j, conn) ∷ delete k d

  -- A step of goroutine `i`.
  pub data Move (i : ℕ) (m : Shared K) : Pc K → Shared K → Pc K → Type 0 where
    asks : (k : K) → Move i m idle m (asking k)
    locks_get :
        {k : K}
        → m.mu ≡ none
        → Move i m (asking k) (record m { mu = some (goroutine i) }) (finding k)
    finds :
        {k : K} {conn : PgConn} {c : ConnManager K} (now : ℕ)
        → get_conn m.manager k now ≡ (some conn, c)
        → Move i m (finding k) (record m { manager = c; mu = none }) (answered k conn)
    misses :
        {k : K} {c : ConnManager K} (now : ℕ)
        → get_conn m.manager k now ≡ (none, c)
        → Move i m (finding k) (record m { manager = c; mu = none }) (connecting k)
    -- An error before a client is opened.
    fails : {k : K} → Move i m (connecting k) m idle
    discards :
        {k : K} (v : Option ℤ)
        → is_refused v ≡ true
        → Move i m
            (connecting k)
            (record m { opened = suc m.opened; closed = m.opened ∷ m.closed })
            idle
    creates :
        {k : K} (v : ℤ) (now : ℕ) (address : String)
        → is_refused (some v) ≡ false
        → Move i m
            (connecting k)
            (record m { opened = suc m.opened })
            (publishing k (new_pg_conn m.manager m.opened v now address))
    locks_set :
        {k : K} {conn : PgConn}
        → m.mu ≡ none
        → Move i m (publishing k conn) (record m { mu = some (goroutine i) }) (storing k conn)
    stores :
        {k : K} {conn used : PgConn} {c : ConnManager K} {redundant : List ℕ}
        → set_conn m.manager k conn ≡ (used, c, redundant)
        → Move i m
            (storing k conn)
            (record m { manager = c; mu = none; closed = redundant ++ m.closed })
            (answered k used)
    returns : {k : K} {conn : PgConn} → Move i m (answered k conn) m idle

  -- The entry of a loop is closed and deleted.
  abbrev pub drop_entry : Shared K → K → PgConn → Shared K
  drop_entry m ci conn = record m {
    manager = record m.manager { connections = delete ci m.manager.connections };
    closed = conn.client ∷ m.closed;
  }

  -- A step of the housekeeper.
  pub data Keep (m : Shared K) : Keeper K → Shared K → Keeper K → Type 0 where
    ticks : Keep m watching m due
    locks_sweep :
        (clock : K → ℕ)
        → m.mu ≡ none
        → Keep m due (record m { mu = some housekeeper }) (sweeping clock m.manager.connections)
    closes :
        {clock : K → ℕ} {ci : K} {conn : PgConn} {rest : Dict K PgConn}
        → is_unused m.manager (clock ci) conn ≡ true
        → Keep m (sweeping clock ((ci, conn) ∷ rest)) (drop_entry m ci conn) (sweeping clock rest)
    spares :
        {clock : K → ℕ} {ci : K} {conn : PgConn} {rest : Dict K PgConn}
        → is_unused m.manager (clock ci) conn ≡ false
        → Keep m (sweeping clock ((ci, conn) ∷ rest)) m (sweeping clock rest)
    unlocks_sweep : {clock : K → ℕ} → Keep m (sweeping clock []) (record m { mu = none }) watching
    destroyed : Keep m watching m stopping
    locks_drain :
        m.mu ≡ none
        → Keep m stopping (record m { mu = some housekeeper }) (draining m.manager.connections)
    drains :
        {ci : K} {conn : PgConn} {rest : Dict K PgConn}
        → Keep m (draining ((ci, conn) ∷ rest)) (drop_entry m ci conn) (draining rest)
    unlocks_drain : Keep m (draining []) (record m { mu = none }) returned

pub record System (K : Type 0) : Type 0 where
  pub shared : Shared K
  pub pc : ℕ → Pc K
  pub keeper : Keeper K

-- After `NewConnManager`.
abbrev pub init : {K : Type 0} → ConnManager K → System K
init c = record {
  shared = record { manager = c; mu = none; opened = 0; closed = [] };
  pc = λ _. idle;
  keeper = watching;
}

module _ {K : Type 0} ⦃e : Eq K⦄ where
  pub data Step (s : System K) : System K → Type 0 where
    moves :
        (i : ℕ) {m : Shared K} {p : Pc K}
        → Move i s.shared (s.pc i) m p
        → Step s (record s { shared = m; pc = update s.pc i p })
    keeps :
        {m : Shared K} {q : Keeper K}
        → Keep s.shared s.keeper m q
        → Step s (record s { shared = m; keeper = q })

  -- Any interleaving of steps.
  pub data Reach (c : ConnManager K) : System K → Type 0 where
    start : Reach c (init c)
    later : {s t : System K} → Reach c s → Step s t → Reach c t
