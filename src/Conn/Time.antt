-- ===== src/Conn/Time.antt =====
-- Instants, durations and contexts of Go's time and context packages, as plugin/conn.go and
-- plugin/postgresql.go use them. An instant is a count of nanoseconds on the monotonic clock, a
-- duration an int64.
use zabbix_agent2_plugin_pos.Prelude.{ℕ, ◌+◌, ◌-◌, ◌*◌, Option, none, some, leb, ltb, if◌then◌else◌}
use zabbix_agent2_plugin_pos.Prelude.Integers.{ℤ, pos, negsuc, wrap64}
use zabbix_agent2_plugin_pos.Errors.{Error, deadline_exceeded}

-- time.Second * time.Duration(n)
unfoldable pub seconds : ℕ → ℤ
unfolding wrap64
seconds n = wrap64 (n * 1_000_000_000)

-- The duration from `past` to `now`: time.Since(past), read at `now`.
unfoldable pub since : ℕ → ℕ → ℤ
since past now = if leb past now then pos (now - past) else negsuc (past - now - 1)

-- A context is the background one (no deadline), or has a deadline.
pub record Context : Type 0 where
  pub deadline : Option ℕ

abbrev pub background : Context
background = record { deadline = none }

-- now + d; an instant before the clock's start counts as its start.
unfoldable pub after : ℕ → ℤ → ℕ
after now (pos d) = now + d
after now (negsuc d) = now - (d + 1)

-- context.WithTimeout(ctx, d): the earlier deadline counts.
unfoldable pub with_timeout : Context → ℕ → ℤ → Context
unfolding after
with_timeout ctx now d = elim ctx.deadline [
  | none ↦ record { deadline = some (after now d) }
  | some t ↦ record { deadline = some (if ltb t (after now d) then t else after now d) }
]

-- ctx.Err()
unfoldable pub context_err : Context → ℕ → Option Error
context_err ctx now = elim ctx.deadline [
  | none ↦ none
  | some t ↦ if leb t now then some deadline_exceeded else none
]
