-- ===== src/Keyset/Automation/Planned.antt =====
-- cron_next_auto_report_expire_done (src/commands/keyset/cmd.rs): when next to try the steps that a
-- roll takes by itself. The times are added to the end of a list.
pub mod Early
pub mod Quiet
use dnst.Base.{
  ℕ, ◌+◌, String, Bool, true, false, Option, none, some, List, [], ◌∷◌, ◌++◌, Result, ok, err,
  ◌>>=◌, if◌then◌else◌,
}
use dnst.Keyset.Types.{
  RollType, RollState, propagation1, propagation2, done, cache_expire1, cache_expire2, Action,
}
use dnst.Keyset.Report.{AutoActionsResult, all_done, wait_until}
use dnst.Keyset.Report.Check.{check_auto_actions}
use dnst.Keyset.Workspace.{
  KeySetState, KeySet, KeySetError, wait, other, AutoConfig, RollStateReports,
}
use dnst.Keyset.Rrsets.{get}
use dnst.Keyset.Automation.{
  Stop, message, no_reports_kept, Slot, last, slot_of, report_slot, is_done,
}

-- Times to add to the plan, or the end of the command.
abbrev pub Plan : Type 0
Plan = Result Stop (List (Option ℕ))

-- When all actions are ready, cron is asked for at once.
abbrev pub request : ℕ → AutoActionsResult → Option ℕ
request now all_done = some now
request now (wait_until next) = some next

-- A loop over the rolls.
unfoldable pub plan_each : (RollType → Plan) → List RollType → Plan
plan_each step [] = ok []
plan_each step (r ∷ rolls) = do times ← step r; rest ← plan_each step rolls; ok (times ++ rest)

abbrev pub plan_if : Bool → Plan → Plan
plan_if true plan = plan
plan_if false plan = ok []

module _ {K : Type 0} (lib : KeySet K) (now : ℕ) where
  -- The answer of the clone of the key set, which the rest of the loop goes on with.
  abbrev pub plan_answer : Result KeySetError (List Action) × K → (K → Plan) → Plan
  plan_answer (err (wait remain), keyset) rest = do
    times ← rest keyset
    ok (some (now + remain) ∷ times)
  plan_answer (err (other e), keyset) rest = err (message "cache_expired[12] failed")
  plan_answer (ok actions, keyset) rest = do times ← rest keyset; ok (some now ∷ times)

  abbrev pub plan_expire_in : RollType → Option RollState → K → (K → Plan) → Plan
  plan_expire_in r none keyset rest = rest keyset
  plan_expire_in r (some propagation1) keyset rest = rest keyset
  plan_expire_in r (some propagation2) keyset rest = rest keyset
  plan_expire_in r (some done) keyset rest = rest keyset
  plan_expire_in r (some (cache_expire1 _)) keyset rest =
      plan_answer (lib.cache_expired1 keyset r) rest
  plan_expire_in r (some (cache_expire2 _)) keyset rest =
      plan_answer (lib.cache_expired2 keyset r) rest

  unfoldable pub plan_expire : List RollType → K → Plan
  unfolding get
  plan_expire [] keyset = ok []
  plan_expire (r ∷ rolls) keyset =
      plan_expire_in r (get r (lib.rollstates keyset)) keyset (plan_expire rolls)

module _ {K Name : Type 0} (lib : KeySet K) (now : ℕ) where
  abbrev pub plan_with :
      RollType → Option Slot → Option (RollStateReports Name) → KeySetState K Name → Plan
  plan_with r slot none kss = err no_reports_kept
  plan_with r none (some reports) kss = ok []
  plan_with r (some slot) (some reports) kss =
      ok (
        request now (check_auto_actions now (slot_of slot reports) (lib.actions kss.keyset r)) ∷ [])

  abbrev pub plan_report_in : RollType → Option RollState → KeySetState K Name → Plan
  plan_report_in r none kss = ok []
  plan_report_in r (some state) kss = plan_with r (report_slot state) (get r kss.internal) kss

  -- One round of the first loop.
  unfoldable pub plan_report : KeySetState K Name → RollType → Plan
  unfolding get check_auto_actions
  plan_report kss r = plan_report_in r (get r (lib.rollstates kss.keyset)) kss

  abbrev pub plan_done_in : RollType → Option RollState → KeySetState K Name → Plan
  plan_done_in r none kss = ok []
  plan_done_in r (some state) kss =
      let check = plan_with r (some last) (get r kss.internal) kss in
      if is_done state then check else ok []

  -- One round of the last loop.
  unfoldable pub plan_done : KeySetState K Name → RollType → Plan
  unfolding get check_auto_actions
  plan_done kss r = plan_done_in r (get r (lib.rollstates kss.keyset)) kss

  unfoldable pub cron_next_auto_report_expire_done :
      AutoConfig → List RollType → KeySetState K Name → List (Option ℕ) → Plan
  unfolding plan_each plan_report plan_expire plan_done
  cron_next_auto_report_expire_done auto rolls kss cron_next = do
    reports ← plan_if auto.report (plan_each (plan_report kss) rolls)
    expires ← plan_if auto.expire (plan_expire lib now rolls kss.keyset)
    ends ← plan_if auto.done (plan_each (plan_done kss) rolls)
    ok (cron_next ++ (reports ++ (expires ++ ends)))
