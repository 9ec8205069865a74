-- ===== src/Plugin/Lifetime/Laws.antt =====
-- The plugin's clients over its whole life.
use zabbix_agent2_plugin_pos.Prelude.{
  ℕ, String, ◌≡◌, refl, sym, ap, ◌∙◌, subst, ◌≢◌, true, false, Option, none, some, List, [], ◌∷◌,
  ◌++◌, Eq, count, ltb, arith, if◌then◌else◌,
}
use zabbix_agent2_plugin_pos.Prelude.Dict.{Dict}
use zabbix_agent2_plugin_pos.Errors.{ok, panic}
use zabbix_agent2_plugin_pos.Client.Values.{Formats}
use zabbix_agent2_plugin_pos.Sdk.{Sdk}
use zabbix_agent2_plugin_pos.Conn.Manager.{ConnManager, new_conn_manager, close_unused, close_all}
use zabbix_agent2_plugin_pos.Conn.Manager.Schedule.{ticks, destroys, step}
use zabbix_agent2_plugin_pos.Conn.Manager.Schedule.Ownership.{Inv, step-Inv, run-Inv}
use zabbix_agent2_plugin_pos.Conn.Manager.Contents.{drain_lem}
use zabbix_agent2_plugin_pos.Conn.Query.{Sql}
use zabbix_agent2_plugin_pos.Conn.Create.{ConnId, Url}
use zabbix_agent2_plugin_pos.Conn.Create.Ledger.{Ledger, shown, shown-by}
use zabbix_agent2_plugin_pos.Plugin.{MetricSdk, Plugin, export, start, stop}
use zabbix_agent2_plugin_pos.Plugin.Refinement.{export-shown}
use zabbix_agent2_plugin_pos.Plugin.Lifetime.{
  Doing, asked, swept, close_handles, sweep_with, sweep_plugin, shut_with, shut, live,
}

stop_lem :
    (S : Sdk) (p : Plugin S) (c : ConnManager (ConnId S))
    → p.conn_mgr ≡ some c
    → stop S p ≡ ok (record p { conn_mgr = none })
unfolding stop
stop_lem S p c up = rw (up, stop)

module _ {W : Type 0} (D : Sql W) (L : Ledger D) where
  close_handles-ledger :
      (hs : List ℕ) (w : W)
      → (L.opened (close_handles D hs w) ≡ L.opened w)
        × (L.closed (close_handles D hs w) ≡ hs ++ L.closed w)
  close_handles-ledger [] w = (refl, refl)
  close_handles-ledger (h ∷ hs) w =
      let (o, c) = close_handles-ledger hs w in
      let (o', c') = L.close h (close_handles D hs w) in (o' ∙ o, c' ∙ ap (λ l. h ∷ l) c)

  -- A sweep by the plugin's housekeeper is a tick of the schedule.
  sweep-shown :
      {K : Type 0} ⦃e : Eq K⦄ (c : ConnManager K) (clock : K → ℕ) (w : W)
      → let (c', closed) = close_unused c clock in
        step (shown D L true c w) (ticks clock) ≡ shown D L true c' (close_handles D closed w)
  unfolding step
  sweep-shown c clock w =
      let (c', closed) = close_unused c clock in
      let (o, k) = close_handles-ledger closed w in
      shown-by D L true c' (close_handles D closed w) (L.opened w) (closed ++ L.closed w) o k

  shut-shown :
      {K : Type 0} ⦃e : Eq K⦄ (c : ConnManager K) (w : W)
      → let (c', closed) = close_all c in
        step (shown D L true c w) destroys ≡ shown D L false c' (close_handles D closed w)
  unfolding step
  shut-shown c w =
      let (c', closed) = close_all c in
      let (o, k) = close_handles-ledger closed w in
      shown-by D L false c' (close_handles D closed w) (L.opened w) (closed ++ L.closed w) o k

  -- Where the map is empty, every client opened has been closed once.
  closed_of_Inv :
      {K : Type 0} ⦃e : Eq K⦄ (c : ConnManager K) (w : W)
      → Inv (shown D L false (close_all c).0 w)
      → (h : ℕ) → count h (L.closed w) ≡ (if ltb h (L.opened w) then 1 else 0)
  unfolding close_all
  closed_of_Inv c w i h =
      let all = (rw (drain_lem c.connections) at (i.owned h)) in omega (arith, all)

  shut-closes :
      (S : Sdk) ⦃e : Eq (ConnId S)⦄ (p : Plugin S) (c : ConnManager (ConnId S)) (w : W)
      → p.conn_mgr ≡ some c
      → Inv (shown D L true c w)
      → let (r, w') = shut D S (p, w) in
        (p' : Plugin S) × (r ≡ ok p')
        × (p'.conn_mgr ≡ none)
        × ((h : ℕ) → count h (L.closed w') ≡ (if ltb h (L.opened w') then 1 else 0))
  unfolding shut stop
  shut-closes S p c w up i =
      let last = step-Inv (shown D L true c w) destroys i in
      let closed = closed_of_Inv c _ (subst Inv (shut-shown c w) last) in
      (
        record p { conn_mgr = none },
        ap (λ o. (shut_with D S p w o (stop S p)).0) up ∙ stop_lem S p c up,
        refl,
        simp up closed,
      )

  module _ (S : Sdk) (M : MetricSdk) (U : Url) (F : Formats)
      (iterate : Dict String String → Dict String String) ⦃e : Eq (ConnId S)⦄ where
    -- No call of `Export` panics.
    abbrev pub CalmLife : List (Doing (ConnId S)) → Plugin S × W → Type 0
    CalmLife [] pw = Unit {0}
    CalmLife (asked key raw timeout ∷ doings) pw =
        ((export S M U F D iterate key raw timeout pw).0 ≢ panic)
        × CalmLife doings (export S M U F D iterate key raw timeout pw).1
    CalmLife (swept clock ∷ doings) pw = CalmLife doings (sweep_plugin D S clock pw)

    -- Take a world whose ledger gives out handles in order, and a running plugin whose manager
    -- satisfies with it the manager's invariant. After any sequence of calls of `Export` and of the
    -- housekeeper's sweeps in which no call panics, the plugin still has a manager, and the
    -- invariant holds of it and of the world: every client that was opened is in the map or was
    -- closed, exactly once.
    pub live-Inv :
        (p : Plugin S) (c : ConnManager (ConnId S)) (w : W) (doings : List (Doing (ConnId S)))
        → p.conn_mgr ≡ some c
        → Inv (shown D L true c w)
        → CalmLife doings (p, w)
        → let (p', w') = live D S M U F iterate doings (p, w) in
          (c' : ConnManager (ConnId S)) × (p'.conn_mgr ≡ some c') × Inv (shown D L true c' w')
    unfolding live
    live-Inv p c w [] up i calm = (c, up, i)
    live-Inv p c w (asked key raw timeout ∷ doings) up i (quiet, calm) =
        let (a, (p₁, w₁)) = export S M U F D iterate key raw timeout (p, w) in
        let (c₁, evs, up₁, same) =
          export-shown D L S M U F iterate true p p₁ key raw timeout c w w₁ a up quiet refl in
        live-Inv p₁ c₁ w₁ doings up₁ (subst Inv same (run-Inv (shown D L true c w) evs i)) calm
    live-Inv p c w (swept clock ∷ doings) up i calm =
        let (c₁, closed) = close_unused c clock in
        let w₁ = close_handles D closed w in
        let now = step-Inv (shown D L true c w) (ticks clock) i in
        let same = ap (λ o. sweep_with D S clock p w o) up in
        let (c₂, up₂, i₂) =
          live-Inv (record p { conn_mgr = some c₁ }) c₁ w₁ doings refl
            (subst Inv (sweep-shown c clock w) now) (subst (CalmLife doings) same calm) in
        (
          c₂,
          ap (λ pw. (live D S M U F iterate doings pw).0.conn_mgr) same ∙ up₂,
          subst (λ pw. Inv (shown D L true c₂ (live D S M U F iterate doings pw).1)) (sym same) i₂,
        )

    -- Start a plugin in a world whose ledger is empty and gives out handles in order. Let any
    -- sequence of calls of `Export` and of sweeps run in which no call panics, then stop it and let
    -- the housekeeper handle the end of its context. `Stop` succeeds, the plugin has no manager any
    -- more, and the clients closed are exactly those ever opened, each of them closed once.
    pub shut-live-start :
        (yarn : String → String → Option (String → Option String)) (p : Plugin S) (w : W)
        (doings : List (Doing (ConnId S)))
        → L.opened w ≡ 0
        → L.closed w ≡ []
        → CalmLife doings (start S yarn p, w)
        → let (r, w') = shut D S (live D S M U F iterate doings (start S yarn p, w)) in
          (p' : Plugin S) × (r ≡ ok p')
          × (p'.conn_mgr ≡ none)
          × ((h : ℕ) → count h (L.closed w') ≡ (if ltb h (L.opened w') then 1 else 0))
    unfolding start new_conn_manager shut stop
    shut-live-start yarn p w doings none_opened none_closed calm =
        let began : Inv (shown D L true _ w) = record {
          keys = tt;
          owned = λ h. rw (none_closed, none_opened) (ground (arith));
        } in
        let (c, up, i) = live-Inv (start S yarn p) _ w doings refl began calm in
        let (p', w') = live D S M U F iterate doings (start S yarn p, w) in
        shut-closes S p' c w' up i
