-- ===== src/Keyset/Automation/Planned/Early.antt =====
-- The automatic steps of rolls before the times that are planned for them
-- (src/commands/keyset/cmd.rs).
use mathlib.Core.Path.{subst}
use dnst.Base.{
  ℕ, ◌<◌, ◌≡◌, refl, sym, ap, Bool-cases, inl, inr, false, Option, none, some, List, [], ◌∷◌,
  Result, ok, err, >>=-eq-ok, ok-eq, ◌==◌, All, arith,
}
use dnst.Keyset.Types.{
  RollType, RollState, propagation1, propagation2, done, cache_expire1, cache_expire2, Action,
}
use dnst.Keyset.Report.{AutoActionsResult, all_done, wait_until, Probes}
use dnst.Keyset.Report.Wait.Steps.{is_report}
use dnst.Keyset.Report.Wait.Early.{auto_wait_actions_early}
use dnst.Keyset.Report.Max.Early.{is_wait, auto_report_actions_early}
use dnst.Keyset.Workspace.{
  WorkSpace, KeySetState, KeySet, KeySetError, wait, other, RollStateReports,
}
use dnst.Keyset.Rrsets.{KeyStore, roll_code, get}
use dnst.Keyset.AutoStart.Early.{Later}
use dnst.Keyset.Automation.{
  modify, Slot, first, second, last, slot_of, with_slot, report_slot, save, report_with, report_in,
  expire_in, expire_answer, done_with, done_in,
}
use dnst.Keyset.Automation.Planned.{
  Plan, request, plan_with, plan_report_in, plan_answer, plan_expire_in, plan_done_in,
}

module _ {V : Type 0} where
  -- A change that leaves the value there is as it is.
  modify_same :
      (r : RollType) (f : V → V) (m : List (RollType × V)) (v : V)
      → get r m ≡ some v
      → f v ≡ v
      → modify r f m ≡ m
  unfolding modify get
  modify_same r f [] v h same = refl
  modify_same r f ((q, w) ∷ m) v h same = elim (Bool-cases (roll_code q == roll_code r)) [
    | inl e ↦ let there = rw e at h in rw e (ap (λ x. (q, x) ∷ m) cc)
    | inr e ↦ rw e (ap (λ rest. (q, w) ∷ rest) (modify_same r f m v (rw e at h) same))
  ]

-- What the documentation of the key set says: the propagation states have no wait actions and the
-- end of a roll no report actions, and a key set that answers to wait is left as it was.
pub record StateLaws {K : Type 0} (lib : KeySet K) : Type 0 where
  pub reporting :
      (k : K) (r : RollType) (state : RollState) (slot : Slot)
      → get r (lib.rollstates k) ≡ some state
      → report_slot state ≡ some slot
      → All (λ a. is_wait a ≡ false) (lib.actions k r)
  pub waiting :
      (k : K) (r : RollType)
      → get r (lib.rollstates k) ≡ some done
      → All (λ a. is_report a ≡ false) (lib.actions k r)
  pub early1 :
      (k : K) (r : RollType) (t : ℕ)
      → (lib.cache_expired1 k r).0 ≡ err (wait t)
      → (lib.cache_expired1 k r).1 ≡ k
  pub early2 :
      (k : K) (r : RollType) (t : ℕ)
      → (lib.cache_expired2 k r).0 ≡ err (wait t)
      → (lib.cache_expired2 k r).1 ≡ k

-- A request for a later time is one to wait.
request-Later :
    (now : ℕ) (answer : AutoActionsResult)
    → Later now (request now answer)
    → (t : ℕ) × (answer ≡ wait_until t) × (now < t)
request-Later now all_done h = absurd (omega arith)
request-Later now (wait_until t) h = (t, refl, h)

with_slot_same :
    {Name : Type 0} (slot : Slot) (reports : RollStateReports Name)
    → with_slot slot (slot_of slot reports) reports ≡ reports
with_slot_same first reports = refl
with_slot_same second reports = refl
with_slot_same last reports = refl

module _ {D K Name : Type 0} (store : KeyStore D) (lib : KeySet K)
    (probes : KeySetState K Name → Probes Name) (laws : StateLaws lib) (ws : WorkSpace K Name) where
  abbrev now : ℕ
  now = (probes ws.state).now

  abbrev AllLater : List (Option ℕ) → Type 0
  AllLater times = All (Later now) times

  save_same :
      (r : RollType) (slot : Slot) (reports : RollStateReports Name)
      → get r ws.state.internal ≡ some reports
      → save r slot (slot_of slot reports) ws.state_changed ws ≡ ws
  save_same r slot reports h =
      ap (λ m. record ws { state = record ws.state { internal = m } })
        (modify_same r (with_slot slot (slot_of slot reports)) ws.state.internal reports h
          (with_slot_same slot reports))

  report_with_early :
      (r : RollType) (slot : Option Slot) (o : Option (RollStateReports Name))
      (times : List (Option ℕ))
      → get r ws.state.internal ≡ o
      → ((s : Slot) → slot ≡ some s → All (λ a. is_wait a ≡ false) (lib.actions ws.state.keyset r))
      → plan_with lib now r slot o ws.state ≡ ok times
      → AllLater times
      → report_with store lib probes now r slot o ws ≡ (ok tt, ws)
  report_with_early r slot none times e n h later = absurd (ground arith)
  report_with_early r none (some reports) times e n h later = refl
  report_with_early r (some slot) (some reports) times e n h later =
      let (t, waits, soon) = request-Later now _ (subst AllLater (sym (ok-eq h)) later).0 in
      let (notice, answer) =
        auto_report_actions_early (probes ws.state) (slot_of slot reports) ws.state_changed
          (lib.actions ws.state.keyset r) t (n slot refl) waits soon in
      rw answer (ap (λ w. (ok tt, w)) (save_same r slot reports e))

  pub report_in_early :
      (r : RollType) (o : Option RollState) (times : List (Option ℕ))
      → get r (lib.rollstates ws.state.keyset) ≡ o
      → plan_report_in lib now r o ws.state ≡ ok times
      → AllLater times
      → report_in store lib probes now r o ws ≡ (ok tt, ws)
  report_in_early r none times e h later = refl
  report_in_early r (some state) times e h later =
      report_with_early r (report_slot state) (get r ws.state.internal) times refl
        (λ s f. laws.reporting ws.state.keyset r state s e f) h later

  done_with_early :
      (r : RollType) (o : Option (RollStateReports Name)) (times : List (Option ℕ))
      → get r ws.state.internal ≡ o
      → All (λ a. is_report a ≡ false) (lib.actions ws.state.keyset r)
      → plan_with lib now r (some last) o ws.state ≡ ok times
      → AllLater times
      → done_with store lib probes now r o ws ≡ (ok tt, ws)
  done_with_early r none times e n h later = absurd (ground arith)
  done_with_early r (some reports) times e n h later =
      let (t, waits, soon) = request-Later now _ (subst AllLater (sym (ok-eq h)) later).0 in
      rw
        (auto_wait_actions_early (probes ws.state) reports.done ws.state_changed
          (lib.actions ws.state.keyset r) t n waits soon)
        (ap (λ w. (ok tt, w)) (save_same r last reports e))

  pub done_in_early :
      (r : RollType) (o : Option RollState) (times : List (Option ℕ))
      → get r (lib.rollstates ws.state.keyset) ≡ o
      → plan_done_in lib now r o ws.state ≡ ok times
      → AllLater times
      → done_in store lib probes now r o ws ≡ (ok tt, ws)
  done_in_early r none times e h later = refl
  done_in_early r (some done) times e h later =
      done_with_early r (get r ws.state.internal) times refl (laws.waiting ws.state.keyset r e) h
        later
  done_in_early r (some propagation1) times e h later = refl
  done_in_early r (some propagation2) times e h later = refl
  done_in_early r (some (cache_expire1 _)) times e h later = refl
  done_in_early r (some (cache_expire2 _)) times e h later = refl

  expire_answer_early :
      (answer : Result KeySetError (List Action) × K) (rest : K → Plan) (times : List (Option ℕ))
      → ((t : ℕ) → answer.0 ≡ err (wait t) → answer.1 ≡ ws.state.keyset)
      → plan_answer lib now answer rest ≡ ok times
      → AllLater times
      → (expire_answer store lib probes now answer ws ≡ (ok tt, ws))
        × ((left : List (Option ℕ)) × (rest ws.state.keyset ≡ ok left) × AllLater left)
  expire_answer_early (err (wait remain), k) rest times same h later =
      let (left, e, f) = >>=-eq-ok (rest k) _ h in
      let kept = same remain refl in
      (
        ap (λ x. (ok tt, record ws { state = record ws.state { keyset = x } })) kept,
        (left, subst (λ x. rest x ≡ ok left) kept e, (subst AllLater (sym (ok-eq f)) later).1),
      )
  expire_answer_early (err (other x), k) rest times same h later = absurd (ground arith)
  expire_answer_early (ok actions, k) rest times same h later =
      let (left, e, f) = >>=-eq-ok (rest k) _ h in
      let soon = (subst AllLater (sym (ok-eq f)) later).0 in absurd (omega arith)

  pub expire_in_early :
      (r : RollType) (o : Option RollState) (rest : K → Plan) (times : List (Option ℕ))
      → plan_expire_in lib now r o ws.state.keyset rest ≡ ok times
      → AllLater times
      → (expire_in store lib probes now r o ws ≡ (ok tt, ws))
        × ((left : List (Option ℕ)) × (rest ws.state.keyset ≡ ok left) × AllLater left)
  expire_in_early r none rest times h later = (refl, (times, h, later))
  expire_in_early r (some propagation1) rest times h later = (refl, (times, h, later))
  expire_in_early r (some propagation2) rest times h later = (refl, (times, h, later))
  expire_in_early r (some done) rest times h later = (refl, (times, h, later))
  expire_in_early r (some (cache_expire1 _)) rest times h later =
      expire_answer_early (lib.cache_expired1 ws.state.keyset r) rest times
        (λ t e. laws.early1 ws.state.keyset r t e) h later
  expire_in_early r (some (cache_expire2 _)) rest times h later =
      expire_answer_early (lib.cache_expired2 ws.state.keyset r) rest times
        (λ t e. laws.early2 ws.state.keyset r t e) h later
