-- ===== src/Keyset/Automation/Driven.antt =====
-- The automatic steps keep the reports of every roll in progress (src/commands/keyset/cmd.rs).
use dnst.Base.{ℕ, refl, Bool, true, false, List, [], ◌∷◌, Result, ok, err}
use dnst.Keyset.Types.{RollType}
use dnst.Keyset.Report.{Probes}
use dnst.Keyset.Workspace.{WorkSpace, KeySetState, KeySet, AutoConfig}
use dnst.Keyset.Run.{Method}
use dnst.Keyset.Rrsets.{KeyStore, get}
use dnst.Keyset.Automation.{
  Stop, after_step, each, report_roll, expire_roll, done_roll, each_if, auto_report_expire_done,
}
use dnst.Keyset.Automation.Kept.{RollLaws, HasReports, Sound}
use dnst.Keyset.Automation.Steps.{unchanged, report_roll-Sound, expire_in-Sound, done_in-Sound}

module _ {D K Name : Type 0} (store : KeyStore D) (lib : KeySet K)
    (probes : KeySetState K Name → Probes Name) (now : ℕ) (laws : RollLaws lib) where
  expire_roll-Sound :
      (r : RollType) (ws : WorkSpace K Name)
      → HasReports lib ws
      → Sound lib
          (expire_roll store lib probes now r ws).0
          (expire_roll store lib probes now r ws).1
  unfolding expire_roll
  expire_roll-Sound r ws h =
      expire_in-Sound store lib probes now laws r (get r (lib.rollstates ws.state.keyset)) ws h

  done_roll-Sound :
      (r : RollType) (ws : WorkSpace K Name)
      → HasReports lib ws
      → Sound lib (done_roll store lib probes now r ws).0 (done_roll store lib probes now r ws).1
  unfolding done_roll
  done_roll-Sound r ws h =
      done_in-Sound store lib probes now laws r (get r (lib.rollstates ws.state.keyset)) ws refl h

  after_step-Sound :
      (r : Result Stop (Unit {0})) (ws : WorkSpace K Name)
      (rest : Method Stop (WorkSpace K Name) (Unit {0}))
      → Sound lib r ws
      → ((w : WorkSpace K Name) → HasReports lib w → Sound lib (rest w).0 (rest w).1)
      → Sound lib (after_step (r, ws) rest).0 (after_step (r, ws) rest).1
  after_step-Sound (err e) ws rest s f = s
  after_step-Sound (ok u) ws rest s f = f ws s.has_reports

  each-Sound :
      (step : RollType → Method Stop (WorkSpace K Name) (Unit {0})) (rolls : List RollType)
      (ws : WorkSpace K Name)
      → ((r : RollType) (w : WorkSpace K Name)
          → HasReports lib w
          → Sound lib (step r w).0 (step r w).1)
      → HasReports lib ws
      → Sound lib (each step rolls ws).0 (each step rolls ws).1
  unfolding each
  each-Sound step [] ws f h = unchanged store lib probes now laws ws h
  each-Sound step (r ∷ rolls) ws f h =
      after_step-Sound (step r ws).0 (step r ws).1 (each step rolls) (f r ws h)
        (λ w kept. each-Sound step rolls w f kept)

  each_if-Sound :
      (b : Bool) (step : RollType → Method Stop (WorkSpace K Name) (Unit {0}))
      (rolls : List RollType) (ws : WorkSpace K Name)
      → ((r : RollType) (w : WorkSpace K Name)
          → HasReports lib w
          → Sound lib (step r w).0 (step r w).1)
      → HasReports lib ws
      → Sound lib (each_if b step rolls ws).0 (each_if b step rolls ws).1
  each_if-Sound true step rolls ws f h = each-Sound step rolls ws f h
  each_if-Sound false step rolls ws f h = unchanged store lib probes now laws ws h

  -- When every roll in progress has its reports, then whatever the answers of the key set, of the
  -- network and of the store of keys, the three automatic steps end (with or without an error) with
  -- reports for every roll in progress, and do not stop for a lack of them. The condition is that
  -- the key set adds no roll in progress in those calls, and takes a roll away when it ends it.
  pub auto_report_expire_done-Sound :
      (auto : AutoConfig) (rolls : List RollType) (ws : WorkSpace K Name)
      → HasReports lib ws
      → Sound lib
          (auto_report_expire_done store lib probes now auto rolls ws).0
          (auto_report_expire_done store lib probes now auto rolls ws).1
  unfolding auto_report_expire_done
  auto_report_expire_done-Sound auto rolls ws h =
      after_step-Sound (each_if auto.report (report_roll store lib probes now) rolls ws).0
        (each_if auto.report (report_roll store lib probes now) rolls ws).1
        (λ ws1.
          after_step (each_if auto.expire (expire_roll store lib probes now) rolls ws1)
            (λ ws2. each_if auto.done (done_roll store lib probes now) rolls ws2))
        (each_if-Sound auto.report (report_roll store lib probes now) rolls ws
          (report_roll-Sound store lib probes now laws) h)
        (λ ws1 h1.
          after_step-Sound (each_if auto.expire (expire_roll store lib probes now) rolls ws1).0
            (each_if auto.expire (expire_roll store lib probes now) rolls ws1).1
            (λ ws2. each_if auto.done (done_roll store lib probes now) rolls ws2)
            (each_if-Sound auto.expire (expire_roll store lib probes now) rolls ws1
              expire_roll-Sound h1)
            (λ ws2 h2.
              each_if-Sound auto.done (done_roll store lib probes now) rolls ws2 done_roll-Sound
                h2))
