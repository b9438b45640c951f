-- ===== src/Keyset/Automation.antt =====
-- auto_report_expire_done (src/commands/keyset/cmd.rs): the steps that a roll takes by itself. The checks over the network are a
-- function of the state at that time; the clock is read once.
pub mod Kept
pub mod Steps
pub mod Driven
pub mod Planned
use dnst.Base.{
  ℕ, ◌+◌, String, Bool, true, false, Option, none, some, List, [], ◌∷◌, ◌++◌, Result, ok, err,
  if◌then◌else◌, ◌==◌,
}
use dnst.Keyset.Types.{
  RollType, RollState, propagation1, propagation2, done, cache_expire1, cache_expire2, Action,
}
use dnst.Keyset.Report.{
  AutoActionsResult, all_done, wait_until, AutoReportActionsResult, report, wait, ReportState,
  Probes, Flow, next, return, unreachable,
}
use dnst.Keyset.Report.Check.{check_auto_actions}
use dnst.Keyset.Report.Wait.{auto_wait_actions}
use dnst.Keyset.Report.Max.{auto_report_actions}
use dnst.Keyset.Workspace.{
  WorkSpace, KeySetState, KeySet, KeySetError, other, AutoConfig, RollStateReports,
}
use dnst.Keyset.Run.{Method, Run}
use dnst.Keyset.Rrsets.{KeyStore, handle_actions, roll_code, get, do_done}

-- How a command stops before its end: with a message; because a roll that is in progress has no
-- reports, where the code has `expect("should not fail")`; where it has another `expect`; or where
-- it has `unreachable!()`.
pub data Stop : Type 0 where
  message : String → Stop
  no_reports_kept : Stop
  not_expected : Stop
  unreachable_code : Stop

abbrev pub or_stop : {A : Type 0} → Result String A → Result Stop A
or_stop (err e) = err (message e)
or_stop (ok a) = ok a

abbrev pub stopping : {S A : Type 0} → Run S A → Method Stop S A
stopping m s = let (r, t) = m s in (or_stop r, t)

-- A change of the value for a roll, if there is one.
unfoldable pub modify :
    {V : Type 0} → RollType → (V → V) → List (RollType × V) → List (RollType × V)
modify r f [] = []
modify r f ((q, v) ∷ m) = if roll_code q == roll_code r then (q, f v) ∷ m else (q, v) ∷ modify r f m

-- Which of the three reports of a roll.
pub data Slot : Type 0 where
  first second last : Slot

abbrev pub slot_of : {Name : Type 0} → Slot → RollStateReports Name → ReportState Name
slot_of first reports = reports.propagation1
slot_of second reports = reports.propagation2
slot_of last reports = reports.done

abbrev pub with_slot :
    {Name : Type 0} → Slot → ReportState Name → RollStateReports Name → RollStateReports Name
with_slot first rs reports = record reports { propagation1 = rs }
with_slot second rs reports = record reports { propagation2 = rs }
with_slot last rs reports = record reports { done = rs }

abbrev pub report_slot : RollState → Option Slot
report_slot propagation1 = some first
report_slot propagation2 = some second
report_slot done = none
report_slot (cache_expire1 _) = none
report_slot (cache_expire2 _) = none

abbrev pub is_done : RollState → Bool
is_done done = true
is_done propagation1 = false
is_done propagation2 = false
is_done (cache_expire1 _) = false
is_done (cache_expire2 _) = false

module _ {K Name : Type 0} where
  -- What the locked report state of a roll holds after its actions, and the flag.
  abbrev pub save : RollType → Slot → ReportState Name → Bool → WorkSpace K Name → WorkSpace K Name
  save r slot rs changed ws = record ws {
    state = record ws.state { internal = modify r (with_slot slot rs) ws.state.internal };
    state_changed = changed;
  }

  abbrev pub with_keyset : K → WorkSpace K Name → WorkSpace K Name
  with_keyset keyset ws = record ws { state = record ws.state { keyset = keyset } }

  abbrev pub changed_if :
      Result String (Unit {0}) × WorkSpace K Name → Result Stop (Unit {0}) × WorkSpace K Name
  changed_if (err e, ws) = (err (message e), ws)
  changed_if (ok u, ws) = (ok tt, record ws { state_changed = true })

  abbrev pub after_step :
      Result Stop (Unit {0}) × WorkSpace K Name
      → Method Stop (WorkSpace K Name) (Unit {0})
      → Result Stop (Unit {0}) × WorkSpace K Name
  after_step (err e, ws) rest = (err e, ws)
  after_step (ok u, ws) rest = rest ws

  -- A loop over the rolls, which an error ends.
  unfoldable pub each :
      (RollType → Method Stop (WorkSpace K Name) (Unit {0}))
      → List RollType
      → Method Stop (WorkSpace K Name) (Unit {0})
  each step [] ws = (ok tt, ws)
  each step (r ∷ rolls) ws = after_step (step r ws) (each step rolls)

  abbrev pub each_if :
      Bool
      → (RollType → Method Stop (WorkSpace K Name) (Unit {0}))
      → List RollType
      → Method Stop (WorkSpace K Name) (Unit {0})
  each_if true step rolls ws = each step rolls ws
  each_if false step rolls ws = (ok tt, ws)

module _ {D K Name : Type 0} (store : KeyStore D) (lib : KeySet K)
    (probes : KeySetState K Name → Probes Name) (now : ℕ) where
  -- The actions that the key set answers with are handled, and the state has changed.
  abbrev pub proceed :
      String → Result KeySetError (List Action) × K → Method Stop (WorkSpace K Name) (Unit {0})
  proceed e (err x, keyset) ws = (err (message e), with_keyset keyset ws)
  proceed e (ok actions, keyset) ws =
      changed_if (handle_actions store lib now actions (with_keyset keyset ws))

  abbrev pub complete :
      Slot → RollType → ℕ → WorkSpace K Name → Result KeySetError (List Action) × K
  complete first r ttl ws = lib.propagation1_complete ws.state.keyset r ttl
  complete second r ttl ws = lib.propagation2_complete ws.state.keyset r ttl
  complete last r ttl ws = lib.propagation2_complete ws.state.keyset r ttl

  abbrev pub after_report :
      RollType
      → Slot
      → Flow Name AutoReportActionsResult ℕ
      → Method Stop (WorkSpace K Name) (Unit {0})
  after_report r slot unreachable ws = (err unreachable_code, ws)
  after_report r slot (next rs changed m) ws = (err unreachable_code, ws)
  after_report r slot (return (wait until notice) rs changed) ws =
      (ok tt, save r slot rs changed ws)
  after_report r slot (return (report ttl) rs changed) ws =
      let saved = save r slot rs changed ws in
      proceed "Error reporting propagation complete" (complete slot r ttl saved) saved

  -- The reports are there, and the roll is or is not in a propagation state.
  abbrev pub report_with :
      RollType
      → Option Slot
      → Option (RollStateReports Name)
      → Method Stop (WorkSpace K Name) (Unit {0})
  report_with r slot none ws = (err no_reports_kept, ws)
  report_with r none (some reports) ws = (ok tt, ws)
  report_with r (some slot) (some reports) ws =
      after_report r slot
        (auto_report_actions (probes ws.state) (slot_of slot reports) ws.state_changed
          (lib.actions ws.state.keyset r))
        ws

  abbrev pub report_in : RollType → Option RollState → Method Stop (WorkSpace K Name) (Unit {0})
  report_in r none ws = (ok tt, ws)
  report_in r (some state) ws = report_with r (report_slot state) (get r ws.state.internal) ws

  -- One round of the first loop.
  unfoldable pub report_roll : RollType → Method Stop (WorkSpace K Name) (Unit {0})
  unfolding auto_report_actions modify
  report_roll r ws = report_in r (get r (lib.rollstates ws.state.keyset)) ws

  -- An answer that it is too early changes nothing but the key set.
  abbrev pub expire_answer :
      Result KeySetError (List Action) × K → Method Stop (WorkSpace K Name) (Unit {0})
  expire_answer (err (KeySetError.wait _), keyset) ws = (ok tt, with_keyset keyset ws)
  expire_answer (err (other e), keyset) ws =
      proceed "cache_expired[12] failed" (err (other e), keyset) ws
  expire_answer (ok actions, keyset) ws = proceed "" (ok actions, keyset) ws

  abbrev pub expire_in : RollType → Option RollState → Method Stop (WorkSpace K Name) (Unit {0})
  expire_in r none ws = (ok tt, ws)
  expire_in r (some propagation1) ws = (ok tt, ws)
  expire_in r (some propagation2) ws = (ok tt, ws)
  expire_in r (some done) ws = (ok tt, ws)
  expire_in r (some (cache_expire1 _)) ws = expire_answer (lib.cache_expired1 ws.state.keyset r) ws
  expire_in r (some (cache_expire2 _)) ws = expire_answer (lib.cache_expired2 ws.state.keyset r) ws

  unfoldable pub expire_roll : RollType → Method Stop (WorkSpace K Name) (Unit {0})
  expire_roll r ws = expire_in r (get r (lib.rollstates ws.state.keyset)) ws

  abbrev pub after_wait :
      RollType → Flow Name AutoActionsResult (Unit {0}) → Method Stop (WorkSpace K Name) (Unit {0})
  after_wait r unreachable ws = (err unreachable_code, ws)
  after_wait r (next rs changed u) ws = (err unreachable_code, ws)
  after_wait r (return (wait_until until) rs changed) ws = (ok tt, save r last rs changed ws)
  after_wait r (return all_done rs changed) ws =
      changed_if (do_done lib r (save r last rs changed ws))

  abbrev pub done_with :
      RollType → Option (RollStateReports Name) → Method Stop (WorkSpace K Name) (Unit {0})
  done_with r none ws = (err no_reports_kept, ws)
  done_with r (some reports) ws =
      after_wait r
        (auto_wait_actions (probes ws.state) reports.done ws.state_changed
          (lib.actions ws.state.keyset r))
        ws

  abbrev pub done_in : RollType → Option RollState → Method Stop (WorkSpace K Name) (Unit {0})
  done_in r none ws = (ok tt, ws)
  done_in r (some state) ws =
      let finished = done_with r (get r ws.state.internal) ws in
      if is_done state then finished else (ok tt, ws)

  unfoldable pub done_roll : RollType → Method Stop (WorkSpace K Name) (Unit {0})
  unfolding auto_wait_actions do_done modify
  done_roll r ws = done_in r (get r (lib.rollstates ws.state.keyset)) ws

  unfoldable pub auto_report_expire_done :
      AutoConfig → List RollType → Method Stop (WorkSpace K Name) (Unit {0})
  unfolding each report_roll expire_roll done_roll
  auto_report_expire_done auto rolls ws =
      after_step (each_if auto.report report_roll rolls ws) (λ ws1.
        after_step (each_if auto.expire expire_roll rolls ws1)
          (λ ws2. each_if auto.done done_roll rolls ws2))
