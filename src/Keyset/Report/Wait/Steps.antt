-- ===== src/Keyset/Report/Wait/Steps.antt =====
-- What one wait action does, and that complete statuses stay complete
-- (src/commands/keyset/cmd.rs, auto_wait_actions).
use dnst.Base.{
  ℕ, ◌≡◌, ◌≢◌, refl, Bool, true, false, none, inl, inr, Option-cases, List, [], ◌∷◌, arith,
}
use dnst.Keyset.Types.{
  Action, report_dnskey_propagated, report_ds_propagated, report_rrsig_propagated,
  wait_dnskey_propagated, wait_ds_propagated, wait_rrsig_propagated,
}
use dnst.Keyset.Report.{
  AutoActionsResult, all_done, ReportState, Probes, next, return, and_then-eq-return,
}
use dnst.Keyset.Report.Check.{pending, rrsig_pending, action_pending, check_auto_actions}
use dnst.Keyset.Report.Wait.{wait_dnskey, wait_ds, wait_rrsig, wait_action, auto_wait_actions}

-- The actions for which the Done state may wait.
abbrev pub is_report : Action → Bool
is_report report_dnskey_propagated = true
is_report report_ds_propagated = true
is_report report_rrsig_propagated = true
is_report _ = false

module _ {Name : Type 0} where
  -- Each status that was complete still is.
  pub record Grows (now : ℕ) (rs rs' : ReportState Name) : Type 0 where
    pub dnskey : pending now rs.dnskey ≡ none → pending now rs'.dnskey ≡ none
    pub ds : pending now rs.ds ≡ none → pending now rs'.ds ≡ none
    pub rrsig : rrsig_pending now rs.rrsig ≡ none → rrsig_pending now rs'.rrsig ≡ none

  Grows-refl : (now : ℕ) (rs : ReportState Name) → Grows now rs rs
  Grows-refl now rs = record { dnskey = λ h. h; ds = λ h. h; rrsig = λ h. h }

  pub Grows-trans :
      {now : ℕ} {a b c : ReportState Name} → Grows now a b → Grows now b c → Grows now a c
  Grows-trans g h = record {
    dnskey = λ e. h.dnskey (g.dnskey e);
    ds = λ e. h.ds (g.ds e);
    rrsig = λ e. h.rrsig (g.rrsig e);
  }

  pub action_pending-Grows :
      {now : ℕ} {rs rs' : ReportState Name} (a : Action)
      → Grows now rs rs'
      → action_pending now rs a ≡ none
      → action_pending now rs' a ≡ none
  action_pending-Grows report_dnskey_propagated g = g.dnskey
  action_pending-Grows wait_dnskey_propagated g = g.dnskey
  action_pending-Grows report_ds_propagated g = g.ds
  action_pending-Grows wait_ds_propagated g = g.ds
  action_pending-Grows report_rrsig_propagated g = g.rrsig
  action_pending-Grows wait_rrsig_propagated g = g.rrsig
  action_pending-Grows _ g = λ h. h

  wait_dnskey-next :
      (p : Probes Name) (rs : ReportState Name) (c : Bool) (rs' : ReportState Name) (c' : Bool)
      → wait_dnskey p rs c rs.dnskey ≡ next rs' c' tt
      → (pending p.now rs'.dnskey ≡ none) × Grows p.now rs rs'
  unfolding wait_dnskey
  wait_dnskey-next p rs c rs' c' h = (
    ground arith,
    record { dnskey = λ e. ground arith; ds = λ e. ground arith; rrsig = λ e. ground arith },
  )

  wait_ds-next :
      (p : Probes Name) (rs : ReportState Name) (c : Bool) (rs' : ReportState Name) (c' : Bool)
      → wait_ds p rs c rs.ds ≡ next rs' c' tt
      → (pending p.now rs'.ds ≡ none) × Grows p.now rs rs'
  unfolding wait_ds
  wait_ds-next p rs c rs' c' h = (
    ground arith,
    record { dnskey = λ e. ground arith; ds = λ e. ground arith; rrsig = λ e. ground arith },
  )

  wait_rrsig-next :
      (p : Probes Name) (rs : ReportState Name) (c : Bool) (rs' : ReportState Name) (c' : Bool)
      → wait_rrsig p rs c rs.rrsig ≡ next rs' c' tt
      → (rrsig_pending p.now rs'.rrsig ≡ none) × Grows p.now rs rs'
  unfolding wait_rrsig
  wait_rrsig-next p rs c rs' c' h = (
    ground arith,
    record { dnskey = λ e. ground arith; ds = λ e. ground arith; rrsig = λ e. ground arith },
  )

  pub wait_action-next :
      (p : Probes Name) (rs : ReportState Name) (c : Bool) (a : Action) (rs' : ReportState Name)
      (c' : Bool)
      → wait_action p rs c a ≡ next rs' c' tt
      → (action_pending p.now rs' a ≡ none) × Grows p.now rs rs'
  unfolding wait_action
  wait_action-next p rs c wait_dnskey_propagated rs' c' h = wait_dnskey-next p rs c rs' c' h
  wait_action-next p rs c wait_ds_propagated rs' c' h = wait_ds-next p rs c rs' c' h
  wait_action-next p rs c wait_rrsig_propagated rs' c' h = wait_rrsig-next p rs c rs' c' h
  wait_action-next p rs c report_dnskey_propagated rs' c' h = absurd (ground arith)
  wait_action-next p rs c report_ds_propagated rs' c' h = absurd (ground arith)
  wait_action-next p rs c report_rrsig_propagated rs' c' h = absurd (ground arith)
  wait_action-next p rs c _ rs' c' h = (
    refl,
    record { dnskey = λ e. ground arith; ds = λ e. ground arith; rrsig = λ e. ground arith },
  )

  pub return_not_done :
      (p : Probes Name) (rs : ReportState Name) (c : Bool) (a : Action) (rs' : ReportState Name)
      (c' : Bool)
      → wait_action p rs c a ≢ return all_done rs' c'
  unfolding wait_action
  return_not_done p rs c wait_dnskey_propagated rs' c' h = ground arith
  return_not_done p rs c wait_ds_propagated rs' c' h = ground arith
  return_not_done p rs c wait_rrsig_propagated rs' c' h = ground arith
  return_not_done p rs c _ rs' c' h = ground arith

  check_auto_actions-Grows :
      {now : ℕ} {rs rs' : ReportState Name} (actions : List Action)
      → Grows now rs rs'
      → check_auto_actions now rs actions ≡ all_done
      → check_auto_actions now rs' actions ≡ all_done
  unfolding check_auto_actions
  check_auto_actions-Grows [] g h = refl
  check_auto_actions-Grows {now} {rs} {rs'} (a ∷ actions) g h =
      elim (Option-cases (action_pending now rs a)) [
        | inl e ↦ rw (action_pending-Grows a g e) (check_auto_actions-Grows actions g (rw e at h))
        | inr (t, e) ↦ absurd (ground arith)
      ]

  wait_action-Grows :
      (p : Probes Name) (rs : ReportState Name) (c : Bool) (a : Action) {r : AutoActionsResult}
      (rs' : ReportState Name) (c' : Bool)
      → wait_action p rs c a ≡ return r rs' c'
      → Grows p.now rs rs'
  unfolding wait_action
  wait_action-Grows p rs c wait_dnskey_propagated rs' c' h = record {
    dnskey = λ e. ground arith;
    ds = λ e. ground arith;
    rrsig = λ e. ground arith;
  }
  wait_action-Grows p rs c wait_ds_propagated rs' c' h = record {
    dnskey = λ e. ground arith;
    ds = λ e. ground arith;
    rrsig = λ e. ground arith;
  }
  wait_action-Grows p rs c wait_rrsig_propagated rs' c' h = record {
    dnskey = λ e. ground arith;
    ds = λ e. ground arith;
    rrsig = λ e. ground arith;
  }
  wait_action-Grows p rs c _ rs' c' h = absurd (ground arith)

  -- Whatever the outcome, a status that was complete still is.
  pub auto_wait_actions-Grows :
      (p : Probes Name) (rs : ReportState Name) (c : Bool) (actions : List Action)
      {r : AutoActionsResult} {rs' : ReportState Name} {c' : Bool}
      → auto_wait_actions p rs c actions ≡ return r rs' c'
      → Grows p.now rs rs'
  unfolding auto_wait_actions
  auto_wait_actions-Grows p rs c [] h = record {
    dnskey = λ e. ground arith;
    ds = λ e. ground arith;
    rrsig = λ e. ground arith;
  }
  auto_wait_actions-Grows p rs c (a ∷ actions) {rs' = rs'} {c' = c'} h =
      elim (and_then-eq-return (wait_action p rs c a) _ h) [
        | inl e ↦ wait_action-Grows p rs c a rs' c' e
        | inr (rs1, c1, _, e, k) ↦
            Grows-trans (wait_action-next p rs c a rs1 c1 e).1
              (auto_wait_actions-Grows p rs1 c1 actions k)
      ]
