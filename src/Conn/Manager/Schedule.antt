-- ===== src/Conn/Manager/Schedule.antt =====
-- plugin/conn.go under concurrency: the goroutines that call `GetConnection`, and `housekeeper`.
-- A step is one locked section of a goroutine, or one client opened by `create`; a run is any
-- interleaving of them. Handles are numbered as they are opened.
pub mod Ownership
pub mod Frames
pub mod Shutdown
pub mod Liveness
pub mod Settings
pub mod Serving
pub mod Publishing
use zabbix_agent2_plugin_pos.Prelude.{
  ℕ, zero, suc, String, Bool, true, false, Option, none, some, List, [], ◌∷◌, ◌++◌, Eq,
  if◌then◌else◌,
}
use zabbix_agent2_plugin_pos.Prelude.Integers.{ℤ, ltb_ℤ}
use zabbix_agent2_plugin_pos.Conn.Manager.{
  PgConn, ConnManager, min_supported_pg_version, new_pg_conn, get_conn, set_conn, close_unused,
  close_all,
}

pub record State (K : Type 0) : Type 0 where
  pub manager : ConnManager K
  -- Created and not yet handed to `setConn`.
  pub in_flight : List (K × PgConn)
  -- The handles opened so far are those below.
  pub opened : ℕ
  pub closed : List ℕ
  -- `housekeeper` has not returned.
  pub running : Bool

pub data Event (K : Type 0) : Type 0 where
  -- `getConn` at an instant.
  finds : K → ℕ → Event K
  -- `create`, from the opened client on: the server's version if its query succeeds, the instant
  -- and the address.
  creates : K → Option ℤ → ℕ → String → Event K
  -- `setConn` of the n-th connection in flight.
  publishes : ℕ → Event K
  -- `housekeeper` receives from its ticker; what the clock reads as it visits each key.
  ticks : (K → ℕ) → Event K
  -- `housekeeper` receives from `ctx.Done`, after `Destroy`.
  destroys : Event K

unfoldable pub start : {K : Type 0} → ConnManager K → State K
start c = record { manager = c; in_flight = []; opened = 0; closed = []; running = true }

-- The n-th entry, and the others.
abbrev pub pick {ℓ} : {A : Type ℓ} → ℕ → List A → Option (A × List A)
pick n [] = none
pick zero (x ∷ xs) = some (x, xs)
pick (suc n) (x ∷ xs) = elim (pick n xs) [ none ↦ none | some (y, rest) ↦ some (y, x ∷ rest) ]

module _ {K : Type 0} where
  -- A client is open under the next handle: `create` closes it, or it becomes a connection.
  abbrev pub open_client : State K → K → Option ℤ → ℕ → String → State K
  open_client s k none now address = record s {
    opened = suc s.opened;
    closed = s.opened ∷ s.closed;
  }
  open_client s k (some version) now address =
      if ltb_ℤ version min_supported_pg_version
      then record s { opened = suc s.opened; closed = s.opened ∷ s.closed }
      else record s {
        opened = suc s.opened;
        in_flight = (k, new_pg_conn s.manager s.opened version now address) ∷ s.in_flight;
      }

  -- The housekeeper's two cases; nothing happens after it has returned.
  unfoldable pub tick : State K → (K → ℕ) → State K
  tick s clock =
      let (m, swept) = close_unused s.manager clock in
      if s.running then record s { manager = m; closed = swept ++ s.closed } else s

  unfoldable pub destroy : State K → State K
  destroy s =
      let (m, drained) = close_all s.manager in
      if s.running
      then record s { manager = m; closed = drained ++ s.closed; running = false }
      else s

module _ {K : Type 0} ⦃e : Eq K⦄ where
  abbrev pub publish : State K → Option ((K × PgConn) × List (K × PgConn)) → State K
  publish s none = s
  publish s (some ((k, conn), rest)) =
      let (used, m, redundant) = set_conn s.manager k conn in
      record s { manager = m; in_flight = rest; closed = redundant ++ s.closed }

  unfoldable pub step : State K → Event K → State K
  unfolding tick destroy
  step s (finds k now) = record s { manager = (get_conn s.manager k now).1 }
  step s (creates k version now address) = open_client s k version now address
  step s (publishes n) = publish s (pick n s.in_flight)
  step s (ticks clock) = tick s clock
  step s destroys = destroy s

  unfoldable pub run : State K → List (Event K) → State K
  run s [] = s
  run s (ev ∷ evs) = run (step s ev) evs
