-- ===== src/Keyset/Report/Max/Total.antt =====
-- The loop of auto_report_actions as a whole (src/commands/keyset/cmd.rs).
use dnst.Base.{
  ℕ, ◌+◌, ◌≤◌, String, ◌≡◌, refl, sym, ◌∙◌, ap, Bool, true, none, some, inl, inr, List, [], ◌∷◌,
  max, arith,
}
use dnst.Keyset.Types.{Action, report_rrsig_propagated}
use dnst.Keyset.Report.{
  all_done, wait_until, AutoReportActionsResult, report, wait, wait_next_serial, ReportState,
  Probes, return, and_then-eq-return,
}
use dnst.Keyset.Report.Check.{check_auto_actions}
use dnst.Keyset.Report.Max.{report_action, report_loop, auto_report_actions}
use dnst.Keyset.Report.Max.Laws.{
  max_recorded, recorded_ttl, Keeps, Keeps-trans, complete-Keeps, report_action-next,
  report_action-Keeps, report_action-return-Keeps, report_action-return, return-ne-report,
}

max_assoc : (a b c : ℕ) → max (max a b) c ≡ max a (max b c)
max_assoc a b c = ground arith

max-zero : (a : ℕ) → max a 0 ≡ a
max-zero a = ground arith

module _ {Name : Type 0} (p : Probes Name) where
  report_loop-Keeps :
      (actions : List Action) (rs : ReportState Name) (c : Bool) (m : ℕ)
      {r : AutoReportActionsResult} {rs' : ReportState Name} {c' : Bool}
      → report_loop p rs c m actions ≡ return r rs' c'
      → Keeps p.now rs rs'
  unfolding report_loop
  report_loop-Keeps [] rs c m h = record {
    dnskey = λ e. ground arith;
    ds = λ e. ground arith;
    rrsig = λ e. ground arith;
  }
  report_loop-Keeps (a ∷ actions) rs c m {rs' = rs'} {c' = c'} h =
      elim (and_then-eq-return (report_action p rs c m a) _ h) [
        | inl e ↦ report_action-return-Keeps p rs c m a rs' c' e
        | inr (rs1, c1, m1, e, k) ↦
            Keeps-trans (report_action-Keeps p rs c m a rs1 c1 m1 e)
              (report_loop-Keeps actions rs1 c1 m1 k)
      ]

  report_loop-report :
      (actions : List Action) (rs : ReportState Name) (c : Bool) (m t : ℕ) (rs' : ReportState Name)
      (c' : Bool)
      → report_loop p rs c m actions ≡ return (report t) rs' c'
      → (check_auto_actions p.now rs' actions ≡ all_done) × (t ≡ max m (max_recorded rs' actions))
  unfolding report_loop check_auto_actions
  report_loop-report [] rs c m t rs' c' h = (refl, ground (arith, max-zero m))
  report_loop-report (a ∷ actions) rs c m t rs' c' h =
      elim (and_then-eq-return (report_action p rs c m a) _ h) [
        | inl e ↦ absurd (return-ne-report p rs c m a t rs' c' e)
        | inr (rs1, c1, m1, e, k) ↦
            let (complete, grown) = report_action-next p rs c m a rs1 c1 m1 e in
            let (rest, total) = report_loop-report actions rs1 c1 m1 t rs' c' k in
            let (still, same) = complete-Keeps a (report_loop-Keeps actions rs1 c1 m1 k) complete in
            (
              rw still rest,
              total
                  ∙ ap (λ x. max x (max_recorded rs' actions)) (grown ∙ ap (max m) (sym same))
                  ∙ max_assoc m (recorded_ttl rs' a) (max_recorded rs' actions),
            )
      ]

  report_loop-wait :
      (actions : List Action) (rs : ReportState Name) (c : Bool) (m t : ℕ) (notice : String)
      (rs' : ReportState Name) (c' : Bool)
      → ((serial : ℕ) → p.check_next_serial serial ≡ none)
      → report_loop p rs c m actions ≡ return (wait t notice) rs' c'
      → check_auto_actions p.now rs' actions ≡ wait_until t
  unfolding report_loop check_auto_actions
  report_loop-wait [] rs c m t notice rs' c' s h = absurd (ground arith)
  report_loop-wait (a ∷ actions) rs c m t notice rs' c' s h =
      elim (and_then-eq-return (report_action p rs c m a) _ h) [
        | inl e ↦ rw (report_action-return p rs c m a t notice rs' c' s e)
        | inr (rs1, c1, m1, e, k) ↦
            let (complete, _) = report_action-next p rs c m a rs1 c1 m1 e in
            rw (complete-Keeps a (report_loop-Keeps actions rs1 c1 m1 k) complete).0
              (report_loop-wait actions rs1 c1 m1 t notice rs' c' s k)
      ]

  -- If the report actions end in a report, the statuses that are recorded then complete every
  -- action of the list, and the TTL reported is exactly the maximum of the TTLs recorded for them.
  pub auto_report_actions-report :
      (actions : List Action) (rs : ReportState Name) (c : Bool) (t : ℕ) (rs' : ReportState Name)
      (c' : Bool)
      → auto_report_actions p rs c actions ≡ return (report t) rs' c'
      → (check_auto_actions p.now rs' actions ≡ all_done) × (t ≡ max_recorded rs' actions)
  unfolding auto_report_actions
  auto_report_actions-report [] rs c t rs' c' h = absurd (ground arith)
  auto_report_actions-report (a ∷ actions) rs c t rs' c' h =
      let (done, total) = report_loop-report (a ∷ actions) rs c 0 t rs' c' h in
      (done, ground (arith, total))

  -- If the report actions are to wait until a time, and no check for a newer SOA serial fails, the
  -- recorded statuses say the same: the check without the network waits until that time.
  pub auto_report_actions-wait :
      (actions : List Action) (rs : ReportState Name) (c : Bool) (t : ℕ) (notice : String)
      (rs' : ReportState Name) (c' : Bool)
      → ((serial : ℕ) → p.check_next_serial serial ≡ none)
      → auto_report_actions p rs c actions ≡ return (wait t notice) rs' c'
      → check_auto_actions p.now rs' actions ≡ wait_until t
  unfolding auto_report_actions
  auto_report_actions-wait [] rs c t notice rs' c' s h = absurd (ground arith)
  auto_report_actions-wait (a ∷ actions) rs c t notice rs' c' s h =
      report_loop-wait (a ∷ actions) rs c 0 t notice rs' c' s h

  -- When the recorded status is to wait for a newer serial, its time has passed and the check for
  -- a newer serial fails, the time returned is one TTL from now, but the time recorded stays the
  -- old one, and check_auto_actions gives that one.
  pub auto_report_actions_stale :
      (rs : ReportState Name) (c : Bool) (until serial ttl : ℕ) (notice e : String)
      → rs.rrsig ≡ some (wait_next_serial until serial ttl notice)
      → until ≤ p.now
      → p.check_next_serial serial ≡ some e
      → (rs' : ReportState Name) × (auto_report_actions p rs c (report_rrsig_propagated ∷ [])
          ≡ return (wait (p.now + ttl) e) rs' true)
        × (check_auto_actions p.now rs' (report_rrsig_propagated ∷ []) ≡ wait_until until)
  unfolding auto_report_actions report_loop report_action check_auto_actions
  auto_report_actions_stale rs c until serial ttl notice e h past failed =
      (record rs { rrsig = some (wait_next_serial until serial ttl e) }, ground arith, refl)
