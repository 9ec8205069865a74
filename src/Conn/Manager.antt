-- ===== src/Conn/Manager.antt =====
-- plugin/conn.go: `PGConn`, `ConnManager` and its four locked operations. A pointer to a `PGConn`
-- is its `client`, the handle of the `sql.DB` behind it; the only field that changes after `create`
-- is `lastTimeAccess`, and only under the lock, so the map holds the current value.
-- A key is any comparable type; `Close` calls are returned as the list of the handles closed.
pub mod Contents
pub mod Expiry
pub mod Schedule
pub mod Goroutines
use zabbix_agent2_plugin_pos.Prelude.{
  ℕ, String, Bool, Option, none, some, List, [], ◌∷◌, Eq, if◌then◌else◌,
}
use zabbix_agent2_plugin_pos.Prelude.Dict.{Dict, lookup, insert}
use zabbix_agent2_plugin_pos.Prelude.Integers.{ℤ, pos, ltb_ℤ}
use zabbix_agent2_plugin_pos.Conn.Time.{Context, background, since}

pub record PgConn : Type 0 where
  pub client : ℕ
  pub call_timeout : ℤ
  pub ctx : Context
  pub last_time_access : ℕ
  pub version : ℤ
  -- `queryStorage.Get`
  pub query_storage : String → Option String
  pub address : String

-- `MinSupportedPGVersion`
abbrev pub min_supported_pg_version : ℤ
min_supported_pg_version = pos 100000

-- `updateAccessTime`, with `time.Now()` as an argument.
abbrev pub update_access_time : PgConn → ℕ → PgConn
update_access_time conn now = record conn { last_time_access = now }

pub record ConnManager (K : Type 0) : Type 0 where
  pub connections : Dict K PgConn
  pub keep_alive : ℤ
  pub connect_timeout : ℤ
  pub call_timeout : ℤ
  pub query_storage : String → Option String

-- `NewConnManager`, less the goroutine that it starts (`Schedule`).
unfoldable pub new_conn_manager :
    {K : Type 0} → ℤ → ℤ → ℤ → (String → Option String) → ConnManager K
new_conn_manager keep_alive connect_timeout call_timeout query_storage = record {
  connections = [];
  keep_alive = keep_alive;
  connect_timeout = connect_timeout;
  call_timeout = call_timeout;
  query_storage = query_storage;
}

-- The connection that `create` makes of an open client, at the instant `now`.
unfoldable pub new_pg_conn : {K : Type 0} → ConnManager K → ℕ → ℤ → ℕ → String → PgConn
new_pg_conn c client version now address = record {
  client = client;
  call_timeout = c.call_timeout;
  ctx = background;
  last_time_access = now;
  version = version;
  query_storage = c.query_storage;
  address = address;
}

module _ {K : Type 0} ⦃e : Eq K⦄ where
  -- `getConn`
  unfoldable pub get_conn : ConnManager K → K → ℕ → Option PgConn × ConnManager K
  get_conn c cd now = elim (lookup cd c.connections) [
    | none ↦ (none, c)
    | some conn ↦
        let touched = update_access_time conn now in
        (some touched, record c { connections = insert cd touched c.connections })
  ]

  -- `setConn`: the connection to use, and the redundant one closed.
  unfoldable pub set_conn : ConnManager K → K → PgConn → PgConn × ConnManager K × List ℕ
  set_conn c cd conn = elim (lookup cd c.connections) [
    | some existing ↦ (existing, c, conn.client ∷ [])
    | none ↦ (conn, record c { connections = insert cd conn c.connections }, [])
  ]

module _ {K : Type 0} where
  -- `time.Since(conn.lastTimeAccess) > c.keepAlive`
  unfoldable pub is_unused : ConnManager K → ℕ → PgConn → Bool
  is_unused c now conn = ltb_ℤ c.keep_alive (since conn.last_time_access now)

  -- The loop of `closeUnused`: the entries that stay, and the handles closed. `clock` is what
  -- `time.Since` reads when the loop visits an entry.
  unfoldable pub sweep : ConnManager K → (K → ℕ) → Dict K PgConn → Dict K PgConn × List ℕ
  sweep c clock [] = ([], [])
  sweep c clock ((ci, conn) ∷ rest) =
      let (kept, closed) = sweep c clock rest in
      if is_unused c (clock ci) conn
      then (kept, conn.client ∷ closed)
      else ((ci, conn) ∷ kept, closed)

  -- `closeUnused`
  unfoldable pub close_unused : ConnManager K → (K → ℕ) → ConnManager K × List ℕ
  unfolding sweep is_unused
  close_unused c clock =
      let (kept, closed) = sweep c clock c.connections in (record c { connections = kept }, closed)

  -- The loop of `closeAll`: the entries that stay, and the handles closed.
  unfoldable pub drain : Dict K PgConn → Dict K PgConn × List ℕ
  drain [] = ([], [])
  drain ((ci, conn) ∷ rest) = let (kept, closed) = drain rest in (kept, conn.client ∷ closed)

  -- `closeAll`
  unfoldable pub close_all : ConnManager K → ConnManager K × List ℕ
  unfolding drain
  close_all c =
      let (kept, closed) = drain c.connections in (record c { connections = kept }, closed)
