-- ===== src/Keyset/Automation/Steps.antt =====
-- No step of a roll loses the reports of a roll in progress (src/commands/keyset/cmd.rs).
use dnst.Base.{
  ℕ, String, ◌≡◌, ◌≢◌, refl, sym, ap, ◌∙◌, Bool, Bool-cases, inl, inr, true, false, Option, none,
  some, is_some, List, [], ◌∷◌, Result, ok, err, ◌==◌, arith,
}
use dnst.Keyset.Types.{
  RollType, RollState, propagation1, propagation2, done, cache_expire1, cache_expire2, Action,
}
use dnst.Keyset.Report.{
  AutoActionsResult, all_done, wait_until, AutoReportActionsResult, report, wait, ReportState,
  Probes, Flow, next, return, unreachable,
}
use dnst.Keyset.Report.Wait.{auto_wait_actions}
use dnst.Keyset.Report.Max.{auto_report_actions}
use dnst.Keyset.Workspace.{WorkSpace, KeySetState, KeySet, KeySetError, other, RollStateReports}
use dnst.Keyset.Rrsets.{KeyStore, handle_actions, roll_code, get, do_done, after_done}
use dnst.Keyset.Rrsets.Frame.{handle_actions-Framed}
use dnst.Keyset.Rrsets.Done.{get-remove_other, roll_code-eq}
use dnst.Keyset.Automation.{
  Stop, message, no_reports_kept, unreachable_code, Slot, first, second, last, slot_of, with_slot,
  report_slot, save, with_keyset, changed_if, proceed, complete, after_report, report_with,
  report_in, report_roll, expire_answer, expire_in, after_wait, done_with, done_in,
}
use dnst.Keyset.Automation.Kept.{NoNew, RollLaws, HasReports, Sound, get-modify}

module _ {D K Name : Type 0} (store : KeyStore D) (lib : KeySet K)
    (probes : KeySetState K Name → Probes Name) (now : ℕ) (laws : RollLaws lib) where
  HasReports-step :
      (ws ws' : WorkSpace K Name)
      → NoNew lib ws.state.keyset ws'.state.keyset
      → ((q : RollType) → is_some (get q ws'.state.internal) ≡ is_some (get q ws.state.internal))
      → HasReports lib ws
      → HasReports lib ws'
  HasReports-step ws ws' old same h q p = same q ∙ h q (old q p)

  pub unchanged : (ws : WorkSpace K Name) → HasReports lib ws → Sound lib (ok tt) ws
  unchanged ws h = record { has_reports = h; no_panic = λ p. ground arith }

  stopped :
      (ws : WorkSpace K Name) (r : Result Stop (Unit {0}))
      → r ≢ err no_reports_kept
      → HasReports lib ws
      → Sound lib r ws
  stopped ws r n h = record { has_reports = h; no_panic = n }

  changed_if-Sound :
      (r : Result String (Unit {0}) × WorkSpace K Name)
      → HasReports lib r.1
      → Sound lib (changed_if r).0 (changed_if r).1
  changed_if-Sound (err e, ws) h = stopped ws (err (message e)) (λ p. ground arith) h
  changed_if-Sound (ok u, ws) h = unchanged (record ws { state_changed = true }) h

  handled-HasReports :
      (actions : List Action) (ws : WorkSpace K Name)
      → HasReports lib ws
      → HasReports lib (handle_actions store lib now actions ws).1
  handled-HasReports actions ws h =
      let frame = handle_actions-Framed store lib now actions ws in
      HasReports-step ws (handle_actions store lib now actions ws).1
        (λ q p. ap (λ k. is_some (get q (lib.rollstates k))) (sym frame.keyset) ∙ p)
        (λ q. ap (λ m. is_some (get q m)) frame.internal) h

  proceed-Sound :
      (e : String) (answer : Result KeySetError (List Action) × K) (ws : WorkSpace K Name)
      → NoNew lib ws.state.keyset answer.1
      → HasReports lib ws
      → Sound lib
          (proceed store lib probes now e answer ws).0
          (proceed store lib probes now e answer ws).1
  proceed-Sound e (err x, k) ws old h = record {
    has_reports = λ q p. h q (old q p);
    no_panic = λ p. ground arith;
  }
  proceed-Sound e (ok actions, k) ws old h =
      changed_if-Sound (handle_actions store lib now actions (with_keyset k ws))
        (handled-HasReports actions (with_keyset k ws) (λ q p. h q (old q p)))

  save-HasReports :
      (r : RollType) (slot : Slot) (rs : ReportState Name) (changed : Bool) (ws : WorkSpace K Name)
      → HasReports lib ws
      → HasReports lib (save r slot rs changed ws)
  save-HasReports r slot rs changed ws h q p =
      get-modify q r (with_slot slot rs) ws.state.internal ∙ h q p

  complete-NoNew :
      (slot : Slot) (r : RollType) (ttl : ℕ) (ws : WorkSpace K Name)
      → NoNew lib ws.state.keyset (complete store lib probes now slot r ttl ws).1
  complete-NoNew first r ttl ws = laws.propagation1 ws.state.keyset r ttl
  complete-NoNew second r ttl ws = laws.propagation2 ws.state.keyset r ttl
  complete-NoNew last r ttl ws = laws.propagation2 ws.state.keyset r ttl

  after_report-Sound :
      (r : RollType) (slot : Slot) (f : Flow Name AutoReportActionsResult ℕ) (ws : WorkSpace K Name)
      → HasReports lib ws
      → Sound lib
          (after_report store lib probes now r slot f ws).0
          (after_report store lib probes now r slot f ws).1
  after_report-Sound r slot unreachable ws h =
      stopped ws (err unreachable_code) (λ p. ground arith) h
  after_report-Sound r slot (next rs c m) ws h =
      stopped ws (err unreachable_code) (λ p. ground arith) h
  after_report-Sound r slot (return (wait until notice) rs c) ws h = record {
    has_reports = save-HasReports r slot rs c ws h;
    no_panic = λ p. ground arith;
  }
  after_report-Sound r slot (return (report ttl) rs c) ws h =
      let saved = save r slot rs c ws in
      proceed-Sound "Error reporting propagation complete"
        (complete store lib probes now slot r ttl saved) saved (complete-NoNew slot r ttl saved)
        (save-HasReports r slot rs c ws h)

  report_with-Sound :
      (r : RollType) (slot : Option Slot) (o : Option (RollStateReports Name))
      (ws : WorkSpace K Name)
      → is_some o ≡ true
      → HasReports lib ws
      → Sound lib
          (report_with store lib probes now r slot o ws).0
          (report_with store lib probes now r slot o ws).1
  report_with-Sound r slot none ws s h = absurd (ground arith)
  report_with-Sound r none (some reports) ws s h = unchanged ws h
  report_with-Sound r (some slot) (some reports) ws s h =
      after_report-Sound r slot
        (auto_report_actions (probes ws.state) (slot_of slot reports) ws.state_changed
          (lib.actions ws.state.keyset r))
        ws h

  report_in-Sound :
      (r : RollType) (o : Option RollState) (ws : WorkSpace K Name)
      → get r (lib.rollstates ws.state.keyset) ≡ o
      → HasReports lib ws
      → Sound lib
          (report_in store lib probes now r o ws).0
          (report_in store lib probes now r o ws).1
  report_in-Sound r none ws e h = unchanged ws h
  report_in-Sound r (some state) ws e h =
      report_with-Sound r (report_slot state) (get r ws.state.internal) ws
        (h r (ap (λ o. is_some o) e)) h

  pub report_roll-Sound :
      (r : RollType) (ws : WorkSpace K Name)
      → HasReports lib ws
      → Sound lib
          (report_roll store lib probes now r ws).0
          (report_roll store lib probes now r ws).1
  unfolding report_roll
  report_roll-Sound r ws h = report_in-Sound r (get r (lib.rollstates ws.state.keyset)) ws refl h

  expire_answer-Sound :
      (answer : Result KeySetError (List Action) × K) (ws : WorkSpace K Name)
      → NoNew lib ws.state.keyset answer.1
      → HasReports lib ws
      → Sound lib
          (expire_answer store lib probes now answer ws).0
          (expire_answer store lib probes now answer ws).1
  expire_answer-Sound (err (KeySetError.wait t), k) ws old h = record {
    has_reports = λ q p. h q (old q p);
    no_panic = λ p. ground arith;
  }
  expire_answer-Sound (err (other e), k) ws old h =
      proceed-Sound "cache_expired[12] failed" (err (other e), k) ws old h
  expire_answer-Sound (ok actions, k) ws old h = proceed-Sound "" (ok actions, k) ws old h

  pub expire_in-Sound :
      (r : RollType) (o : Option RollState) (ws : WorkSpace K Name)
      → HasReports lib ws
      → Sound lib
          (expire_in store lib probes now r o ws).0
          (expire_in store lib probes now r o ws).1
  expire_in-Sound r none ws h = unchanged ws h
  expire_in-Sound r (some propagation1) ws h = unchanged ws h
  expire_in-Sound r (some propagation2) ws h = unchanged ws h
  expire_in-Sound r (some done) ws h = unchanged ws h
  expire_in-Sound r (some (cache_expire1 t)) ws h =
      expire_answer-Sound (lib.cache_expired1 ws.state.keyset r) ws
        (laws.expired1 ws.state.keyset r) h
  expire_in-Sound r (some (cache_expire2 t)) ws h =
      expire_answer-Sound (lib.cache_expired2 ws.state.keyset r) ws
        (laws.expired2 ws.state.keyset r) h

  ended-HasReports :
      (r : RollType) (answer : Result KeySetError (List Action)) (k : K) (ws : WorkSpace K Name)
      → NoNew lib ws.state.keyset k
      → ((actions : List Action) → answer ≡ ok actions → is_some (get r (lib.rollstates k)) ≡ false)
      → HasReports lib ws
      → HasReports lib (after_done lib r answer (with_keyset k ws)).1
  ended-HasReports r (err e) k ws old gone h q p = h q (old q p)
  ended-HasReports r (ok (a ∷ actions)) k ws old gone h q p = h q (old q p)
  ended-HasReports r (ok []) k ws old gone h q p = elim (Bool-cases (roll_code q == roll_code r)) [
    | inl e ↦
        let same = roll_code-eq q r (ground arith) in
        let left = ap (λ x. is_some (get x (lib.rollstates k))) same ∙ gone [] refl in
        absurd (let no_yes = sym p ∙ left in ground arith)
    | inr e ↦
        ap (λ o. is_some o)
          (get-remove_other q r ws.state.internal
            (λ same. let c = ap roll_code same in ground arith))
        ∙ h q (old q p)
  ]

  after_wait-Sound :
      (r : RollType) (f : Flow Name AutoActionsResult (Unit {0})) (ws : WorkSpace K Name)
      → HasReports lib ws
      → Sound lib
          (after_wait store lib probes now r f ws).0
          (after_wait store lib probes now r f ws).1
  unfolding do_done
  after_wait-Sound r unreachable ws h = stopped ws (err unreachable_code) (λ p. ground arith) h
  after_wait-Sound r (next rs c u) ws h = stopped ws (err unreachable_code) (λ p. ground arith) h
  after_wait-Sound r (return (wait_until until) rs c) ws h = record {
    has_reports = save-HasReports r last rs c ws h;
    no_panic = λ p. ground arith;
  }
  after_wait-Sound r (return all_done rs c) ws h =
      let saved = save r last rs c ws in
      changed_if-Sound (do_done lib r saved) (
        ended-HasReports r (lib.roll_done ws.state.keyset r).0 (lib.roll_done ws.state.keyset r).1
          saved (laws.ended ws.state.keyset r) (laws.gone ws.state.keyset r)
          (save-HasReports r last rs c ws h))

  done_with-Sound :
      (r : RollType) (o : Option (RollStateReports Name)) (ws : WorkSpace K Name)
      → is_some o ≡ true
      → HasReports lib ws
      → Sound lib
          (done_with store lib probes now r o ws).0
          (done_with store lib probes now r o ws).1
  done_with-Sound r none ws s h = absurd (ground arith)
  done_with-Sound r (some reports) ws s h =
      after_wait-Sound r
        (auto_wait_actions (probes ws.state) reports.done ws.state_changed
          (lib.actions ws.state.keyset r))
        ws h

  pub done_in-Sound :
      (r : RollType) (o : Option RollState) (ws : WorkSpace K Name)
      → get r (lib.rollstates ws.state.keyset) ≡ o
      → HasReports lib ws
      → Sound lib (done_in store lib probes now r o ws).0 (done_in store lib probes now r o ws).1
  done_in-Sound r none ws e h = unchanged ws h
  done_in-Sound r (some done) ws e h =
      done_with-Sound r (get r ws.state.internal) ws (h r (ap (λ o. is_some o) e)) h
  done_in-Sound r (some propagation1) ws e h = unchanged ws h
  done_in-Sound r (some propagation2) ws e h = unchanged ws h
  done_in-Sound r (some (cache_expire1 t)) ws e h = unchanged ws h
  done_in-Sound r (some (cache_expire2 t)) ws e h = unchanged ws h
