-- ===== src/Keyset/Report/Wait/Laws.antt =====
-- When auto_wait_actions completes, and how it agrees with check_auto_actions
-- (src/commands/keyset/cmd.rs).
use dnst.Base.{
  ℕ, ◌+◌, ◌≤◌, String, ◌≡◌, refl, Bool, true, false, Option, none, some, inl, inr, Option-cases,
  List, [], ◌∷◌, All, arith,
}
use dnst.Keyset.Types.{Action, wait_dnskey_propagated, wait_ds_propagated, wait_rrsig_propagated}
use dnst.Keyset.Report.{
  all_done, wait_until, AutoReportRrsigResult, rrsig_report, rrsig_wait, wait_soa, wait_record,
  wait_next_serial, ReportState, Probes, next, return, and_then-eq-return,
}
use dnst.Keyset.Report.Check.{rrsig_pending, action_pending, check_auto_actions}
use dnst.Keyset.Report.Wait.{wait_rrsig, wait_action, auto_wait_actions}
use dnst.Keyset.Report.Wait.Steps.{
  is_report, Grows, Grows-trans, action_pending-Grows, wait_action-next, return_not_done,
  auto_wait_actions-Grows,
}

module _ {Name : Type 0} where
  -- If the wait actions are all done, the statuses that are recorded then complete every action of
  -- the list: the check without the network agrees.
  pub auto_wait_actions-all_done :
      (p : Probes Name) (rs : ReportState Name) (c : Bool) (actions : List Action)
      (rs' : ReportState Name) (c' : Bool)
      → auto_wait_actions p rs c actions ≡ return all_done rs' c'
      → (check_auto_actions p.now rs' actions ≡ all_done) × Grows p.now rs rs'
  unfolding auto_wait_actions check_auto_actions
  auto_wait_actions-all_done p rs c [] rs' c' h = (
    ground arith,
    record { dnskey = λ e. ground arith; ds = λ e. ground arith; rrsig = λ e. ground arith },
  )
  auto_wait_actions-all_done p rs c (a ∷ actions) rs' c' h =
      elim (and_then-eq-return (wait_action p rs c a) _ h) [
        | inl e ↦ absurd (return_not_done p rs c a rs' c' e)
        | inr (rs1, c1, _, e, k) ↦
            let (complete, g) = wait_action-next p rs c a rs1 c1 e in
            let (rest, g') = auto_wait_actions-all_done p rs1 c1 actions rs' c' k in
            (rw (action_pending-Grows a g' complete) rest, Grows-trans g g')
      ]

  pub wait_action_complete :
      (p : Probes Name) (rs : ReportState Name) (c : Bool) (a : Action)
      → is_report a ≡ false
      → action_pending p.now rs a ≡ none
      → wait_action p rs c a ≡ next rs c tt
  unfolding wait_action
  wait_action_complete p rs c wait_dnskey_propagated n h = ground arith
  wait_action_complete p rs c wait_ds_propagated n h = ground arith
  wait_action_complete p rs c wait_rrsig_propagated n h = ground arith
  wait_action_complete p rs c _ n h = ground arith

  -- If the recorded statuses complete every action of a list without report actions, the wait
  -- actions are all done at once: no check is made, and nothing is recorded or flagged as changed.
  pub auto_wait_actions_complete :
      (p : Probes Name) (rs : ReportState Name) (c : Bool) (actions : List Action)
      → All (λ a. is_report a ≡ false) actions
      → check_auto_actions p.now rs actions ≡ all_done
      → auto_wait_actions p rs c actions ≡ return all_done rs c
  unfolding auto_wait_actions check_auto_actions
  auto_wait_actions_complete p rs c [] n h = refl
  auto_wait_actions_complete p rs c (a ∷ actions) n h =
      elim (Option-cases (action_pending p.now rs a)) [
        | inl e ↦
            rw (wait_action_complete p rs c a n.0 e)
              (auto_wait_actions_complete p rs c actions n.1 (rw e at h))
        | inr (t, e) ↦ absurd (ground arith)
      ]

  wait_rrsig-return :
      (p : Probes Name) (rs : ReportState Name) (c : Bool) (o : Option (AutoReportRrsigResult Name))
      (t : ℕ) (rs' : ReportState Name) (c' : Bool)
      → rs.rrsig ≡ o
      → ((serial : ℕ) → p.check_soa serial ≡ none)
      → ((serial : ℕ) → p.check_next_serial serial ≡ none)
      → wait_rrsig p rs c o ≡ return (wait_until t) rs' c'
      → rrsig_pending p.now rs'.rrsig ≡ some t
  unfolding wait_rrsig
  wait_rrsig-return p rs c (some (wait_soa until serial ttl report_ttl m)) t rs' c' e s n h =
      ground (arith, s serial)
  wait_rrsig-return p rs c (some (wait_next_serial until serial ttl m)) t rs' c' e s n h =
      ground (arith, n serial)
  wait_rrsig-return p rs c (some (wait_record until name rtype ttl m)) t rs' c' e s n h =
      ground arith
  wait_rrsig-return p rs c (some (rrsig_wait until m)) t rs' c' e s n h = ground arith
  wait_rrsig-return p rs c (some (rrsig_report m)) t rs' c' e s n h = absurd (ground arith)
  wait_rrsig-return p rs c none t rs' c' e s n h = ground arith

  wait_action-return :
      (p : Probes Name) (rs : ReportState Name) (c : Bool) (a : Action) (t : ℕ)
      (rs' : ReportState Name) (c' : Bool)
      → ((serial : ℕ) → p.check_soa serial ≡ none)
      → ((serial : ℕ) → p.check_next_serial serial ≡ none)
      → wait_action p rs c a ≡ return (wait_until t) rs' c'
      → action_pending p.now rs' a ≡ some t
  unfolding wait_action
  wait_action-return p rs c wait_dnskey_propagated t rs' c' s n h = ground arith
  wait_action-return p rs c wait_ds_propagated t rs' c' s n h = ground arith
  wait_action-return p rs c wait_rrsig_propagated t rs' c' s n h =
      wait_rrsig-return p rs c rs.rrsig t rs' c' refl s n h
  wait_action-return p rs c _ t rs' c' s n h = absurd (ground arith)

  -- If the wait actions are to wait until a time, and no check of a SOA serial fails, the recorded
  -- statuses say the same: the check without the network waits until that time.
  pub auto_wait_actions-wait_until :
      (p : Probes Name) (rs : ReportState Name) (c : Bool) (actions : List Action) (t : ℕ)
      (rs' : ReportState Name) (c' : Bool)
      → ((serial : ℕ) → p.check_soa serial ≡ none)
      → ((serial : ℕ) → p.check_next_serial serial ≡ none)
      → auto_wait_actions p rs c actions ≡ return (wait_until t) rs' c'
      → check_auto_actions p.now rs' actions ≡ wait_until t
  unfolding auto_wait_actions check_auto_actions
  auto_wait_actions-wait_until p rs c [] t rs' c' s n h = absurd (ground arith)
  auto_wait_actions-wait_until p rs c (a ∷ actions) t rs' c' s n h =
      elim (and_then-eq-return (wait_action p rs c a) _ h) [
        | inl e ↦ rw (wait_action-return p rs c a t rs' c' s n e)
        | inr (rs1, c1, _, e, k) ↦
            let (complete, g) = wait_action-next p rs c a rs1 c1 e in
            rw (action_pending-Grows a (auto_wait_actions-Grows p rs1 c1 actions k) complete)
              (auto_wait_actions-wait_until p rs1 c1 actions t rs' c' s n k)
      ]

  -- When the recorded status is to wait for a SOA serial, its time has passed and the check of
  -- the serial fails, the time returned is one TTL from now, but the time recorded stays the old
  -- one, and check_auto_actions gives that one.
  pub auto_wait_actions_stale :
      (p : Probes Name) (rs : ReportState Name) (c : Bool) (until serial ttl report_ttl : ℕ)
      (notice e : String)
      → rs.rrsig ≡ some (wait_soa until serial ttl report_ttl notice)
      → until ≤ p.now
      → p.check_soa serial ≡ some e
      → (rs' : ReportState Name) × (auto_wait_actions p rs c (wait_rrsig_propagated ∷ [])
          ≡ return (wait_until (p.now + ttl)) rs' true)
        × (check_auto_actions p.now rs' (wait_rrsig_propagated ∷ []) ≡ wait_until until)
  unfolding auto_wait_actions wait_action check_auto_actions
  auto_wait_actions_stale p rs c until serial ttl report_ttl notice e h past failed =
      (record rs { rrsig = some (wait_soa until serial ttl report_ttl e) }, ground arith, refl)
