-- ===== src/Keyset/Report/Wait.antt =====
-- auto_wait_actions (src/commands/keyset/cmd.rs): the wait actions of the Done state.
pub mod Steps
pub mod Laws
pub mod Early
use dnst.Base.{
  ℕ, ◌+◌, String, Bool, true, false, Option, none, some, List, [], ◌∷◌, ltb, if◌then◌else◌,
}
use dnst.Dns.{Rtype}
use dnst.Keyset.Types.{
  Action, update_dnskey_rrset, create_cds_rrset, remove_cds_rrset, update_ds_rrset, update_rrsig,
  report_dnskey_propagated, report_ds_propagated, report_rrsig_propagated, wait_dnskey_propagated,
  wait_ds_propagated, wait_rrsig_propagated,
}
use dnst.Keyset.Report.{
  AutoActionsResult, all_done, wait_until, AutoReportActionsResult, report, wait,
  AutoReportRrsigResult, rrsig_report, rrsig_wait, wait_soa, wait_record, wait_next_serial,
  ReportState, Probes, ds_or_wait, rrsig_or_wait, Flow, next, return, unreachable, and_then,
}

-- What the loop over the actions hands on or returns.
abbrev pub Waiting : Type 0 → Type 0
Waiting Name = Flow Name AutoActionsResult (Unit {0})

module _ {Name : Type 0} where
  abbrev pub after_check : AutoReportActionsResult → ReportState Name → Waiting Name
  after_check (wait until _) rs = return (wait_until until) rs true
  after_check (report _) rs = next rs true tt

  abbrev pub check_dnskey : Probes Name → ReportState Name → Waiting Name
  check_dnskey p rs =
      after_check p.dnskey_propagated (record rs { dnskey = some p.dnskey_propagated })

  unfoldable pub wait_dnskey :
      Probes Name → ReportState Name → Bool → Option AutoReportActionsResult → Waiting Name
  wait_dnskey p rs changed none = check_dnskey p rs
  wait_dnskey p rs changed (some (wait until _)) =
      if ltb p.now until then return (wait_until until) rs changed else check_dnskey p rs
  wait_dnskey p rs changed (some (report _)) = next rs changed tt

  abbrev pub check_ds : Probes Name → ReportState Name → Waiting Name
  check_ds p rs = after_check (ds_or_wait p) (record rs { ds = some (ds_or_wait p) })

  unfoldable pub wait_ds :
      Probes Name → ReportState Name → Bool → Option AutoReportActionsResult → Waiting Name
  wait_ds p rs changed none = check_ds p rs
  wait_ds p rs changed (some (wait until _)) =
      if ltb p.now until then return (wait_until until) rs changed else check_ds p rs
  wait_ds p rs changed (some (report _)) = next rs changed tt

  abbrev pub after_zone : AutoReportRrsigResult Name → ReportState Name → Waiting Name
  after_zone (rrsig_report _) rs = next rs true tt
  after_zone (rrsig_wait until _) rs = return (wait_until until) rs true
  after_zone (wait_soa until _ _ _ _) rs = return (wait_until until) rs true
  after_zone (wait_record until _ _ _ _) rs = return (wait_until until) rs true
  after_zone (wait_next_serial until _ _ _) rs = return (wait_until until) rs true

  -- report_rrsig_propagated and what follows it.
  abbrev pub check_rrsig : Probes Name → ReportState Name → Waiting Name
  check_rrsig p rs = after_zone (rrsig_or_wait p) (record rs { rrsig = some (rrsig_or_wait p) })

  -- After check_soa: a failure records the old time, and waits for the new one.
  abbrev soa_checked :
      Probes Name
      → ReportState Name
      → (until serial ttl report_ttl : ℕ) → Option String
      → Waiting Name
  soa_checked p rs until serial ttl report_ttl (some e) =
      return (wait_until (p.now + ttl))
        (record rs { rrsig = some (wait_soa until serial ttl report_ttl e) }) true
  soa_checked p rs until serial ttl report_ttl none =
      next (record rs { rrsig = some (rrsig_report report_ttl) }) true tt

  abbrev record_checked :
      Probes Name → ReportState Name → Name → Rtype → ℕ → Option String → Waiting Name
  record_checked p rs name rtype ttl (some e) =
      return (wait_until (p.now + ttl))
        (record rs { rrsig = some (wait_record (p.now + ttl) name rtype ttl e) }) true
  record_checked p rs name rtype ttl none = check_rrsig p rs

  abbrev serial_checked :
      Probes Name → ReportState Name → (until serial ttl : ℕ) → Option String → Waiting Name
  serial_checked p rs until serial ttl (some e) =
      return (wait_until (p.now + ttl))
        (record rs { rrsig = some (wait_next_serial until serial ttl e) }) true
  serial_checked p rs until serial ttl none = check_rrsig p rs

  unfoldable pub wait_rrsig :
      Probes Name → ReportState Name → Bool → Option (AutoReportRrsigResult Name) → Waiting Name
  wait_rrsig p rs changed none = check_rrsig p rs
  wait_rrsig p rs changed (some (rrsig_wait until _)) =
      if ltb p.now until then return (wait_until until) rs changed else check_rrsig p rs
  wait_rrsig p rs changed (some (rrsig_report _)) = next rs changed tt
  wait_rrsig p rs changed (some (wait_soa until serial ttl report_ttl _)) =
      if ltb p.now until
      then return (wait_until until) rs changed
      else soa_checked p rs until serial ttl report_ttl (p.check_soa serial)
  wait_rrsig p rs changed (some (wait_record until name rtype ttl _)) =
      if ltb p.now until
      then return (wait_until until) rs changed
      else record_checked p rs name rtype ttl (p.check_record name rtype)
  wait_rrsig p rs changed (some (wait_next_serial until serial ttl _)) =
      if ltb p.now until
      then return (wait_until until) rs changed
      else serial_checked p rs until serial ttl (p.check_next_serial serial)

  unfoldable pub wait_action : Probes Name → ReportState Name → Bool → Action → Waiting Name
  unfolding wait_dnskey wait_ds wait_rrsig
  wait_action p rs changed create_cds_rrset = next rs changed tt
  wait_action p rs changed remove_cds_rrset = next rs changed tt
  wait_action p rs changed update_dnskey_rrset = next rs changed tt
  wait_action p rs changed update_ds_rrset = next rs changed tt
  wait_action p rs changed update_rrsig = next rs changed tt
  wait_action p rs changed wait_dnskey_propagated = wait_dnskey p rs changed rs.dnskey
  wait_action p rs changed wait_ds_propagated = wait_ds p rs changed rs.ds
  wait_action p rs changed wait_rrsig_propagated = wait_rrsig p rs changed rs.rrsig
  wait_action p rs changed report_dnskey_propagated = unreachable
  wait_action p rs changed report_ds_propagated = unreachable
  wait_action p rs changed report_rrsig_propagated = unreachable

  -- `return` with all_done is the end of the loop; `next` does not come out of it.
  unfoldable pub auto_wait_actions :
      Probes Name → ReportState Name → Bool → List Action → Waiting Name
  unfolding wait_action
  auto_wait_actions p rs changed [] = return all_done rs changed
  auto_wait_actions p rs changed (a ∷ actions) =
      and_then (wait_action p rs changed a)
        (λ rs' changed' _. auto_wait_actions p rs' changed' actions)
