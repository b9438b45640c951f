-- ===== src/Keyset/Report/Check.antt =====
-- check_auto_actions (src/commands/keyset/cmd.rs): whether the recorded statuses complete a list of
-- actions, and if not, until when to wait.
use dnst.Base.{ℕ, Option, none, some, List, [], ◌∷◌}
use dnst.Keyset.Types.{
  Action, update_dnskey_rrset, create_cds_rrset, remove_cds_rrset, update_ds_rrset, update_rrsig,
  report_dnskey_propagated, report_ds_propagated, report_rrsig_propagated, wait_dnskey_propagated,
  wait_ds_propagated, wait_rrsig_propagated,
}
use dnst.Keyset.Report.{
  AutoActionsResult, all_done, wait_until, AutoReportActionsResult, report, wait,
  AutoReportRrsigResult, rrsig_report, rrsig_wait, wait_soa, wait_record, wait_next_serial,
  ReportState,
}

-- What a recorded status makes of an action: none if it is complete. With no status, cron is asked
-- for at once.
abbrev pub pending : ℕ → Option AutoReportActionsResult → Option ℕ
pending now none = some now
pending now (some (wait until _)) = some until
pending now (some (report _)) = none

abbrev pub first_wait : Option ℕ → AutoActionsResult → AutoActionsResult
first_wait none rest = rest
first_wait (some until) rest = wait_until until

module _ {Name : Type 0} where
  abbrev pub rrsig_pending : ℕ → Option (AutoReportRrsigResult Name) → Option ℕ
  rrsig_pending now none = some now
  rrsig_pending now (some (rrsig_wait until _)) = some until
  rrsig_pending now (some (wait_record until _ _ _ _)) = some until
  rrsig_pending now (some (wait_next_serial until _ _ _)) = some until
  rrsig_pending now (some (wait_soa until _ _ _ _)) = some until
  rrsig_pending now (some (rrsig_report _)) = none

  abbrev pub action_pending : ℕ → ReportState Name → Action → Option ℕ
  action_pending now rs update_dnskey_rrset = none
  action_pending now rs create_cds_rrset = none
  action_pending now rs remove_cds_rrset = none
  action_pending now rs update_ds_rrset = none
  action_pending now rs update_rrsig = none
  action_pending now rs report_dnskey_propagated = pending now rs.dnskey
  action_pending now rs wait_dnskey_propagated = pending now rs.dnskey
  action_pending now rs report_ds_propagated = pending now rs.ds
  action_pending now rs wait_ds_propagated = pending now rs.ds
  action_pending now rs report_rrsig_propagated = rrsig_pending now rs.rrsig
  action_pending now rs wait_rrsig_propagated = rrsig_pending now rs.rrsig

  unfoldable pub check_auto_actions : ℕ → ReportState Name → List Action → AutoActionsResult
  check_auto_actions now rs [] = all_done
  check_auto_actions now rs (a ∷ actions) =
      first_wait (action_pending now rs a) (check_auto_actions now rs actions)
