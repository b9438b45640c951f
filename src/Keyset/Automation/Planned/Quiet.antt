-- ===== src/Keyset/Automation/Planned/Quiet.antt =====
-- All automatic steps of rolls before the times that are planned for them
-- (src/commands/keyset/cmd.rs).
use mathlib.Core.Path.{subst}
use dnst.Base.{
  ℕ, ◌≡◌, refl, sym, Bool, true, false, Option, List, [], ◌∷◌, ok, >>=-eq-ok, ok-eq, All,
}
use dnst.Keyset.Types.{RollType}
use dnst.Keyset.Report.{Probes}
use dnst.Keyset.Workspace.{WorkSpace, KeySetState, KeySet, AutoConfig}
use dnst.Keyset.Run.{Method}
use dnst.Keyset.Rrsets.{KeyStore, get}
use dnst.Keyset.Automation.{
  Stop, each, report_roll, expire_roll, done_roll, each_if, auto_report_expire_done,
}
use dnst.Keyset.Automation.Planned.{
  Plan, plan_each, plan_if, plan_report, plan_expire, plan_done, cron_next_auto_report_expire_done,
}
use dnst.Keyset.AutoStart.Early.{Later, All-append}
use dnst.Keyset.Automation.Planned.Early.{
  StateLaws, report_in_early, expire_in_early, done_in_early,
}

module _ {D K Name : Type 0} (store : KeyStore D) (lib : KeySet K)
    (probes : KeySetState K Name → Probes Name) (laws : StateLaws lib) (ws : WorkSpace K Name) where
  abbrev now : ℕ
  now = (probes ws.state).now

  abbrev AllLater : List (Option ℕ) → Type 0
  AllLater times = All (Later now) times

  -- A loop whose rounds do nothing when they plan nothing but later times.
  each_early :
      (step : RollType → Method Stop (WorkSpace K Name) (Unit {0})) (plan : RollType → Plan)
      (rolls : List RollType) (times : List (Option ℕ))
      → ((r : RollType) (ts : List (Option ℕ))
          → plan r ≡ ok ts
          → AllLater ts
          → step r ws ≡ (ok tt, ws))
      → plan_each plan rolls ≡ ok times
      → AllLater times
      → each step rolls ws ≡ (ok tt, ws)
  unfolding each plan_each
  each_early step plan [] times f h later = refl
  each_early step plan (r ∷ rolls) times f h later =
      let (here, e, h1) = >>=-eq-ok (plan r) _ h in
      let (rest, e2, joined) = >>=-eq-ok (plan_each plan rolls) _ h1 in
      let (l1, l2) = All-append (Later now) here rest (subst AllLater (sym (ok-eq joined)) later) in
      rw (f r here e l1) (each_early step plan rolls rest f e2 l2)

  expire_early :
      (rolls : List RollType) (times : List (Option ℕ))
      → plan_expire lib now rolls ws.state.keyset ≡ ok times
      → AllLater times
      → each (expire_roll store lib probes now) rolls ws ≡ (ok tt, ws)
  unfolding each plan_expire expire_roll
  expire_early [] times h later = refl
  expire_early (r ∷ rolls) times h later =
      let (step, (left, e, later')) =
        expire_in_early store lib probes laws ws r (get r (lib.rollstates ws.state.keyset))
          (plan_expire lib now rolls) times h later in
      rw step (expire_early rolls left e later')

  report_roll_early :
      (r : RollType) (ts : List (Option ℕ))
      → plan_report lib now ws.state r ≡ ok ts
      → AllLater ts
      → report_roll store lib probes now r ws ≡ (ok tt, ws)
  unfolding plan_report report_roll
  report_roll_early r ts h later =
      report_in_early store lib probes laws ws r (get r (lib.rollstates ws.state.keyset)) ts refl h
        later

  done_roll_early :
      (r : RollType) (ts : List (Option ℕ))
      → plan_done lib now ws.state r ≡ ok ts
      → AllLater ts
      → done_roll store lib probes now r ws ≡ (ok tt, ws)
  unfolding plan_done done_roll
  done_roll_early r ts h later =
      done_in_early store lib probes laws ws r (get r (lib.rollstates ws.state.keyset)) ts refl h
        later

  -- Every automatic step is planned: if cron_next_auto_report_expire_done plans, for a state, only
  -- times that are still to come, then auto_report_expire_done on that state at that moment changes
  -- nothing and succeeds, whatever the servers would answer. The conditions on the key set are that its actions
  -- fit the state of a roll and that its answer to wait leaves it as it was.
  pub auto_report_expire_done-cron_next :
      (auto : AutoConfig) (rolls : List RollType) (cron_next times : List (Option ℕ))
      → cron_next_auto_report_expire_done lib now auto rolls ws.state cron_next ≡ ok times
      → AllLater times
      → auto_report_expire_done store lib probes now auto rolls ws ≡ (ok tt, ws)
  unfolding auto_report_expire_done cron_next_auto_report_expire_done
  auto_report_expire_done-cron_next auto rolls cron_next times h later =
      let (reports, e1, h1) =
        >>=-eq-ok (plan_if auto.report (plan_each (plan_report lib now ws.state) rolls)) _ h in
      let (expires, e2, h2) =
        >>=-eq-ok (plan_if auto.expire (plan_expire lib now rolls ws.state.keyset)) _ h1 in
      let (ends, e3, h3) =
        >>=-eq-ok (plan_if auto.done (plan_each (plan_done lib now ws.state) rolls)) _ h2 in
      let all = (All-append (Later now) cron_next _ (subst AllLater (sym (ok-eq h3)) later)).1 in
      let (l1, rest) = All-append (Later now) reports _ all in
      let (l2, l3) = All-append (Later now) expires ends rest in
      rw (reported auto.report reports e1 l1, expired auto.expire expires e2 l2)
        (ended auto.done ends e3 l3)
    where
      reported :
          (b : Bool) (ts : List (Option ℕ))
          → plan_if b (plan_each (plan_report lib now ws.state) rolls) ≡ ok ts
          → AllLater ts
          → each_if b (report_roll store lib probes now) rolls ws ≡ (ok tt, ws)
      reported true ts e l =
          each_early (report_roll store lib probes now) (plan_report lib now ws.state) rolls ts
            report_roll_early e l
      reported false ts e l = refl

      expired :
          (b : Bool) (ts : List (Option ℕ))
          → plan_if b (plan_expire lib now rolls ws.state.keyset) ≡ ok ts
          → AllLater ts
          → each_if b (expire_roll store lib probes now) rolls ws ≡ (ok tt, ws)
      expired true ts e l = expire_early rolls ts e l
      expired false ts e l = refl

      ended :
          (b : Bool) (ts : List (Option ℕ))
          → plan_if b (plan_each (plan_done lib now ws.state) rolls) ≡ ok ts
          → AllLater ts
          → each_if b (done_roll store lib probes now) rolls ws ≡ (ok tt, ws)
      ended true ts e l =
          each_early (done_roll store lib probes now) (plan_done lib now ws.state) rolls ts
            done_roll_early e l
      ended false ts e l = refl
