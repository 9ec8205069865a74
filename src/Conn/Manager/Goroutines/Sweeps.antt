-- ===== src/Conn/Manager/Goroutines/Sweeps.antt =====
-- A step of the housekeeper is at most one event of `Schedule`: its loop, entry by entry, is the
-- sweep that happens when it takes the mutex.
use mathlib.Core.List.{append_assoc}
use zabbix_agent2_plugin_pos.Prelude.{
  ℕ, ◌+◌, ◌≡◌, refl, sym, ap, ◌∙◌, subst, true, false, some, [], ◌∷◌, ◌++◌, Eq, arith, count,
  count-append,
}
use zabbix_agent2_plugin_pos.Prelude.Dict.{Dict, NodupKeys}
use zabbix_agent2_plugin_pos.Conn.Manager.{PgConn, is_unused, sweep, close_unused, close_all}
use zabbix_agent2_plugin_pos.Conn.Manager.Contents.{clients, drain_lem}
use zabbix_agent2_plugin_pos.Conn.Manager.Schedule.{
  State, ticks, destroys, tick, destroy, step, run,
}
use zabbix_agent2_plugin_pos.Conn.Manager.Goroutines
use zabbix_agent2_plugin_pos.Conn.Manager.Goroutines.{
  Keeper, watching, due, sweeping, stopping, draining, returned, housekeeper, Shared, delete,
  drop_entry, Keep, locks_sweep, closes, spares, unlocks_sweep, destroyed, locks_drain, drains,
  unlocks_drain, System,
}
use zabbix_agent2_plugin_pos.Conn.Manager.Goroutines.Loops.{
  sweep_of_old, sweep_of_young, sweep-settings, delete-append, NodupKeys-delete,
}
use zabbix_agent2_plugin_pos.Conn.Manager.Goroutines.Shows.{is_on, pending, Mapped, Shows, Follows}

module _ {K : Type 0} ⦃e : Eq K⦄ (s : System K) (t : State K) (sh : Shows s t) where
  -- A step that changes at most the mutex, between two points outside the loops.
  waits :
      (m : Shared K) (q : Keeper K)
      → m.manager ≡ s.shared.manager
      → m.opened ≡ s.shared.opened
      → m.closed ≡ s.shared.closed
      → Mapped q s.shared.manager t.manager
      → pending s.keeper s.shared.manager ≡ pending q s.shared.manager
      → is_on q ≡ is_on s.keeper
      → Follows t (record s { shared = m; keeper = q })
  unfolding run
  waits m q same_m same_o same_c mapped same_p on = (
    [],
    record {
      map = rw same_m mapped;
      nodup = rw same_m sh.nodup;
      closed = λ h. rw (same_m, same_c, ← same_p) (sh.closed h);
      opened = sh.opened ∙ sym same_o;
      running = sh.running ∙ sym on;
      crew = sh.crew;
    },
  )

  module _ (at : s.keeper ≡ due) where
    begins_sweep :
        (clock : K → ℕ)
        → Follows t (record s {
          shared = record s.shared { mu = some housekeeper };
          keeper = sweeping clock s.shared.manager.connections;
        })
    unfolding run step tick close_unused
    begins_sweep clock =
        let here : t.manager ≡ s.shared.manager = (rw at at (sh.map)) in
        let on : t.running ≡ true = sh.running ∙ ap is_on at in
        let (kept, gone) = sweep s.shared.manager clock s.shared.manager.connections in
        (
          ticks clock ∷ [],
          simp on (record {
            map = ([], refl, rw here refl);
            nodup = sh.nodup;
            closed = λ h.
                let before = (rw at at (sh.closed h)) in
                rw here (omega (arith, before, count-append h gone t.closed));
            opened = sh.opened;
            running = refl;
            crew = sh.crew;
          }),
        )

  begins_drain :
      s.keeper ≡ stopping
      → Follows t (record s {
        shared = record s.shared { mu = some housekeeper };
        keeper = draining s.shared.manager.connections;
      })
  unfolding run step destroy close_all
  begins_drain at =
      let here : t.manager ≡ s.shared.manager = (rw at at (sh.map)) in
      let on : t.running ≡ true = sh.running ∙ ap is_on at in
      let all = clients s.shared.manager.connections in
      (
        destroys ∷ [],
        simp (on, drain_lem)
            (record {
              map = (refl, rw here refl);
              nodup = sh.nodup;
              closed = λ h.
                  let before = (rw at at (sh.closed h)) in
                  rw here (omega (arith, before, count-append h all t.closed));
              opened = sh.opened;
              running = refl;
              crew = sh.crew;
            }),
      )

  module _ (ci : K) (conn : PgConn) (rest : Dict K PgConn) where
    sweeps_old :
        (clock : K → ℕ)
        → s.keeper ≡ sweeping clock ((ci, conn) ∷ rest)
        → is_unused s.shared.manager (clock ci) conn ≡ true
        → Follows t
            (record s { shared = drop_entry s.shared ci conn; keeper = sweeping clock rest })
    unfolding run
    sweeps_old clock at old =
        let (kept, split, mapped) = (rw at at (sh.map)) in
        let m = s.shared.manager in
        let d = m.connections in
        let first = sweep_of_old m clock ci conn rest old in
        let u = subst NodupKeys split sh.nodup in
        let left : delete ci d ≡ kept ++ rest =
          ap (delete ci) split ∙ delete-append ci conn kept rest u in
        (
          [],
          record {
            map = (kept, left, rw (sweep-settings m clock (delete ci d) rest) (rw first at mapped));
            nodup = rw left (NodupKeys-delete ci conn kept rest u);
            closed = λ h.
                let before =
                  (rw at at (sh.closed h))
                  ∙ ap (λ r. count h s.shared.closed + count h r.1) first in
                omega (
                  arith,
                  before,
                  ap (λ r. count h r.1) (sweep-settings m clock (delete ci d) rest),
                );
            opened = sh.opened;
            running = sh.running ∙ ap is_on at;
            crew = sh.crew;
          },
        )

    sweeps_young :
        (clock : K → ℕ)
        → s.keeper ≡ sweeping clock ((ci, conn) ∷ rest)
        → is_unused s.shared.manager (clock ci) conn ≡ false
        → Follows t (record s { keeper = sweeping clock rest })
    unfolding run
    sweeps_young clock at young =
        let (kept, split, mapped) = (rw at at (sh.map)) in
        let first = sweep_of_young s.shared.manager clock ci conn rest young in
        let spared = (sweep s.shared.manager clock rest).0 in
        (
          [],
          record {
            map = (
              kept ++ (ci, conn) ∷ [],
              split ∙ sym (append_assoc kept _ rest),
              rw (append_assoc kept ((ci, conn) ∷ []) spared) (rw first at mapped),
            );
            nodup = sh.nodup;
            closed = λ h.
                (rw at at (sh.closed h)) ∙ ap (λ r. count h s.shared.closed + count h r.1) first;
            opened = sh.opened;
            running = sh.running ∙ ap is_on at;
            crew = sh.crew;
          },
        )

    drains_entry :
        s.keeper ≡ draining ((ci, conn) ∷ rest)
        → Follows t (record s { shared = drop_entry s.shared ci conn; keeper = draining rest })
    unfolding run
    drains_entry at =
        let (split, mapped) = (rw at at (sh.map)) in
        let u = subst NodupKeys split sh.nodup in
        let left : delete ci s.shared.manager.connections ≡ rest =
          ap (delete ci) split ∙ delete-append ci conn [] rest u in
        (
          [],
          record {
            map = (left, mapped);
            nodup = rw left (u.1);
            closed = λ h. let before = (rw at at (sh.closed h)) in omega (arith, before);
            opened = sh.opened;
            running = sh.running ∙ ap is_on at;
            crew = sh.crew;
          },
        )

  pub Keep-Follows :
      {q q' : Keeper K} {m : Shared K}
      → Keep s.shared q m q'
      → s.keeper ≡ q
      → Follows t (record s { shared = m; keeper = q' })
  unfolding sweep
  Keep-Follows Goroutines.ticks at =
      waits _ due refl refl refl (rw at at (sh.map)) (ap (λ q. pending q s.shared.manager) at)
        (sym (ap is_on at))
  Keep-Follows (locks_sweep clock free) at = begins_sweep at clock
  Keep-Follows (closes {clock} {ci} {conn} {rest} old) at = sweeps_old ci conn rest clock at old
  Keep-Follows (spares {clock} {ci} {conn} {rest} young) at =
      sweeps_young ci conn rest clock at young
  Keep-Follows (unlocks_sweep {clock}) at =
      let (kept, split, mapped) = (rw at at (sh.map)) in
      let done : t.manager ≡ s.shared.manager =
        mapped ∙ ap (λ d. record s.shared.manager { connections = d }) (sym split) in
      waits _ watching refl refl refl done (ap (λ q. pending q s.shared.manager) at)
        (sym (ap is_on at))
  Keep-Follows destroyed at =
      waits _ stopping refl refl refl (rw at at (sh.map)) (ap (λ q. pending q s.shared.manager) at)
        (sym (ap is_on at))
  Keep-Follows (locks_drain free) at = begins_drain at
  Keep-Follows (drains {ci} {conn} {rest}) at = drains_entry ci conn rest at
  Keep-Follows unlocks_drain at =
      let (empty, mapped) = (rw at at (sh.map)) in
      let done : t.manager ≡ s.shared.manager =
        mapped ∙ ap (λ d. record s.shared.manager { connections = d }) (sym empty) in
      waits _ returned refl refl refl done (ap (λ q. pending q s.shared.manager) at)
        (sym (ap is_on at))
