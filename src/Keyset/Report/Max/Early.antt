-- ===== src/Keyset/Report/Max/Early.antt =====
-- The report actions before the time that is recorded for them (src/commands/keyset/cmd.rs).
use dnst.Base.{
  ℕ, ◌<◌, String, ◌≡◌, refl, Bool, true, false, Option, none, some, Option-cases, inl, inr, List,
  [], ◌∷◌, All, max, arith,
}
use dnst.Keyset.Types.{
  Action, update_dnskey_rrset, create_cds_rrset, remove_cds_rrset, update_ds_rrset, update_rrsig,
  report_dnskey_propagated, report_ds_propagated, report_rrsig_propagated, wait_dnskey_propagated,
  wait_ds_propagated, wait_rrsig_propagated,
}
use dnst.Keyset.Report.{
  wait_until, AutoReportActionsResult, report, wait, AutoReportRrsigResult, rrsig_report,
  rrsig_wait, wait_soa, wait_record, wait_next_serial, ReportState, Probes, next, return,
}
use dnst.Keyset.Report.Check.{pending, rrsig_pending, action_pending, check_auto_actions}
use dnst.Keyset.Report.Max.{
  report_dnskey, report_ds, report_rrsig, report_action, report_loop, auto_report_actions,
}

abbrev pub is_wait : Action → Bool
is_wait wait_dnskey_propagated = true
is_wait wait_ds_propagated = true
is_wait wait_rrsig_propagated = true
is_wait report_dnskey_propagated = false
is_wait report_ds_propagated = false
is_wait report_rrsig_propagated = false
is_wait update_dnskey_rrset = false
is_wait create_cds_rrset = false
is_wait remove_cds_rrset = false
is_wait update_ds_rrset = false
is_wait update_rrsig = false

module _ {Name : Type 0} (p : Probes Name) (rs : ReportState Name) (c : Bool) (m : ℕ) where
  report_dnskey_complete :
      (o : Option AutoReportActionsResult)
      → pending p.now o ≡ none
      → (m' : ℕ) × (report_dnskey p rs c m o ≡ next rs c m')
  unfolding report_dnskey
  report_dnskey_complete none h = absurd (ground arith)
  report_dnskey_complete (some (wait until notice)) h = absurd (ground arith)
  report_dnskey_complete (some (report ttl)) h = (max m ttl, refl)

  report_dnskey_early :
      (o : Option AutoReportActionsResult) (t : ℕ)
      → pending p.now o ≡ some t
      → p.now < t
      → (notice : String) × (report_dnskey p rs c m o ≡ return (wait t notice) rs c)
  unfolding report_dnskey
  report_dnskey_early none t h early = absurd (ground arith)
  report_dnskey_early (some (wait until notice)) t h early = (notice, ground arith)
  report_dnskey_early (some (report ttl)) t h early = absurd (ground arith)

  report_ds_complete :
      (o : Option AutoReportActionsResult)
      → pending p.now o ≡ none
      → (m' : ℕ) × (report_ds p rs c m o ≡ next rs c m')
  unfolding report_ds
  report_ds_complete none h = absurd (ground arith)
  report_ds_complete (some (wait until notice)) h = absurd (ground arith)
  report_ds_complete (some (report ttl)) h = (max m ttl, refl)

  report_ds_early :
      (o : Option AutoReportActionsResult) (t : ℕ)
      → pending p.now o ≡ some t
      → p.now < t
      → (notice : String) × (report_ds p rs c m o ≡ return (wait t notice) rs c)
  unfolding report_ds
  report_ds_early none t h early = absurd (ground arith)
  report_ds_early (some (wait until notice)) t h early = (notice, ground arith)
  report_ds_early (some (report ttl)) t h early = absurd (ground arith)

  report_rrsig_complete :
      (o : Option (AutoReportRrsigResult Name))
      → rrsig_pending p.now o ≡ none
      → (m' : ℕ) × (report_rrsig p rs c m o ≡ next rs c m')
  unfolding report_rrsig
  report_rrsig_complete none h = absurd (ground arith)
  report_rrsig_complete (some (rrsig_report ttl)) h = (max m ttl, refl)
  report_rrsig_complete (some _) h = absurd (ground arith)

  report_rrsig_early :
      (o : Option (AutoReportRrsigResult Name)) (t : ℕ)
      → rrsig_pending p.now o ≡ some t
      → p.now < t
      → (notice : String) × (report_rrsig p rs c m o ≡ return (wait t notice) rs c)
  unfolding report_rrsig
  report_rrsig_early none t h early = absurd (ground arith)
  report_rrsig_early (some (rrsig_report ttl)) t h early = absurd (ground arith)
  report_rrsig_early (some (rrsig_wait until notice)) t h early = (notice, ground arith)
  report_rrsig_early (some (wait_soa until a b d notice)) t h early = (notice, ground arith)
  report_rrsig_early (some (wait_record until a b d notice)) t h early = (notice, ground arith)
  report_rrsig_early (some (wait_next_serial until a b notice)) t h early = (notice, ground arith)

  report_action_complete :
      (a : Action)
      → is_wait a ≡ false
      → action_pending p.now rs a ≡ none
      → (m' : ℕ) × (report_action p rs c m a ≡ next rs c m')
  unfolding report_action
  report_action_complete report_dnskey_propagated w h = report_dnskey_complete rs.dnskey h
  report_action_complete report_ds_propagated w h = report_ds_complete rs.ds h
  report_action_complete report_rrsig_propagated w h = report_rrsig_complete rs.rrsig h
  report_action_complete wait_dnskey_propagated w h = absurd (ground arith)
  report_action_complete wait_ds_propagated w h = absurd (ground arith)
  report_action_complete wait_rrsig_propagated w h = absurd (ground arith)
  report_action_complete update_dnskey_rrset w h = (m, refl)
  report_action_complete create_cds_rrset w h = (m, refl)
  report_action_complete remove_cds_rrset w h = (m, refl)
  report_action_complete update_ds_rrset w h = (m, refl)
  report_action_complete update_rrsig w h = (m, refl)

  report_action_early :
      (a : Action) (t : ℕ)
      → is_wait a ≡ false
      → action_pending p.now rs a ≡ some t
      → p.now < t
      → (notice : String) × (report_action p rs c m a ≡ return (wait t notice) rs c)
  unfolding report_action
  report_action_early report_dnskey_propagated t w h early = report_dnskey_early rs.dnskey t h early
  report_action_early report_ds_propagated t w h early = report_ds_early rs.ds t h early
  report_action_early report_rrsig_propagated t w h early = report_rrsig_early rs.rrsig t h early
  report_action_early _ t w h early = absurd (ground arith)

module _ {Name : Type 0} (p : Probes Name) (rs : ReportState Name) (c : Bool) where
  report_loop_early :
      (actions : List Action) (m t : ℕ)
      → All (λ a. is_wait a ≡ false) actions
      → check_auto_actions p.now rs actions ≡ wait_until t
      → p.now < t
      → (notice : String) × (report_loop p rs c m actions ≡ return (wait t notice) rs c)
  unfolding report_loop check_auto_actions
  report_loop_early [] m t w h early = absurd (ground arith)
  report_loop_early (a ∷ actions) m t w h early = elim (Option-cases (action_pending p.now rs a)) [
    | inl e ↦
        let (m', complete) = report_action_complete p rs c m a w.0 e in
        rw complete (report_loop_early actions m' t w.1 (rw e at h) early)
    | inr (u, e) ↦
        let (notice, waits) =
          report_action_early p rs c m a t w.0 (let same = rw e at h in ground (arith, e)) early in
        (notice, rw waits refl)
  ]

  -- If the recorded statuses say to wait until a time that is still to come, then so do the report
  -- actions, without asking any server: the report state and the flag stay as they are.
  pub auto_report_actions_early :
      (actions : List Action) (t : ℕ)
      → All (λ a. is_wait a ≡ false) actions
      → check_auto_actions p.now rs actions ≡ wait_until t
      → p.now < t
      → (notice : String) × (auto_report_actions p rs c actions ≡ return (wait t notice) rs c)
  unfolding auto_report_actions check_auto_actions
  auto_report_actions_early [] t w h early = absurd (ground arith)
  auto_report_actions_early (a ∷ actions) t w h early =
      report_loop_early (a ∷ actions) 0 t w h early
