-- ===== src/Keyset/Report/Max.antt =====
-- auto_report_actions (src/commands/keyset/cmd.rs): the report actions of the propagation states,
-- with the maximum of the TTLs to report.
pub mod Laws
pub mod Total
pub mod Early
use dnst.Base.{
  ℕ, ◌+◌, String, Bool, true, false, Option, none, some, List, [], ◌∷◌, ltb, max, if◌then◌else◌,
}
use dnst.Dns.{Rtype}
use dnst.Keyset.Types.{
  Action, update_dnskey_rrset, create_cds_rrset, remove_cds_rrset, update_ds_rrset, update_rrsig,
  report_dnskey_propagated, report_ds_propagated, report_rrsig_propagated, wait_dnskey_propagated,
  wait_ds_propagated, wait_rrsig_propagated,
}
use dnst.Keyset.Report.{
  AutoReportActionsResult, report, wait, AutoReportRrsigResult, rrsig_report, rrsig_wait, wait_soa,
  wait_record, wait_next_serial, ReportState, Probes, ds_or_wait, rrsig_or_wait, Flow, next, return,
  unreachable, and_then,
}

-- What the loop over the actions hands on (with the maximum so far) or returns.
abbrev pub Reporting : Type 0 → Type 0
Reporting Name = Flow Name AutoReportActionsResult ℕ

module _ {Name : Type 0} where
  abbrev pub after_check : ℕ → AutoReportActionsResult → ReportState Name → Reporting Name
  after_check max_ttl (wait until notice) rs = return (wait until notice) rs true
  after_check max_ttl (report ttl) rs = next rs true (max max_ttl ttl)

  abbrev pub check_dnskey : Probes Name → ReportState Name → ℕ → Reporting Name
  check_dnskey p rs max_ttl =
      after_check max_ttl p.dnskey_propagated (record rs { dnskey = some p.dnskey_propagated })

  unfoldable pub report_dnskey :
      Probes Name → ReportState Name → Bool → ℕ → Option AutoReportActionsResult → Reporting Name
  report_dnskey p rs changed max_ttl none = check_dnskey p rs max_ttl
  report_dnskey p rs changed max_ttl (some (wait until notice)) =
      if ltb p.now until then return (wait until notice) rs changed else check_dnskey p rs max_ttl
  report_dnskey p rs changed max_ttl (some (report ttl)) = next rs changed (max max_ttl ttl)

  abbrev pub check_ds : Probes Name → ReportState Name → ℕ → Reporting Name
  check_ds p rs max_ttl =
      after_check max_ttl (ds_or_wait p) (record rs { ds = some (ds_or_wait p) })

  unfoldable pub report_ds :
      Probes Name → ReportState Name → Bool → ℕ → Option AutoReportActionsResult → Reporting Name
  report_ds p rs changed max_ttl none = check_ds p rs max_ttl
  report_ds p rs changed max_ttl (some (wait until notice)) =
      if ltb p.now until then return (wait until notice) rs changed else check_ds p rs max_ttl
  report_ds p rs changed max_ttl (some (report ttl)) = next rs changed (max max_ttl ttl)

  abbrev pub after_zone : ℕ → AutoReportRrsigResult Name → ReportState Name → Reporting Name
  after_zone max_ttl (rrsig_report ttl) rs = next rs true (max max_ttl ttl)
  after_zone max_ttl (rrsig_wait until notice) rs = return (wait until notice) rs true
  after_zone max_ttl (wait_soa until _ _ _ notice) rs = return (wait until notice) rs true
  after_zone max_ttl (wait_record until _ _ _ notice) rs = return (wait until notice) rs true
  after_zone max_ttl (wait_next_serial until _ _ notice) rs = return (wait until notice) rs true

  -- report_rrsig_propagated and what follows it.
  abbrev pub check_rrsig : Probes Name → ReportState Name → ℕ → Reporting Name
  check_rrsig p rs max_ttl =
      after_zone max_ttl (rrsig_or_wait p) (record rs { rrsig = some (rrsig_or_wait p) })

  abbrev pub soa_checked :
      Probes Name
      → ReportState Name
      → ℕ
      → (serial ttl report_ttl : ℕ) → Option String
      → Reporting Name
  soa_checked p rs max_ttl serial ttl report_ttl (some e) =
      return (wait (p.now + ttl) e)
        (record rs { rrsig = some (wait_soa (p.now + ttl) serial ttl report_ttl e) }) true
  soa_checked p rs max_ttl serial ttl report_ttl none =
      next (record rs { rrsig = some (rrsig_report report_ttl) }) true (max max_ttl report_ttl)

  abbrev pub record_checked :
      Probes Name → ReportState Name → ℕ → Name → Rtype → ℕ → Option String → Reporting Name
  record_checked p rs max_ttl name rtype ttl (some e) =
      return (wait (p.now + ttl) e)
        (record rs { rrsig = some (wait_record (p.now + ttl) name rtype ttl e) }) true
  record_checked p rs max_ttl name rtype ttl none = check_rrsig p rs max_ttl

  -- After check_next_serial: a failure records the old time, and waits for the new one.
  abbrev pub serial_checked :
      Probes Name → ReportState Name → ℕ → (until serial ttl : ℕ) → Option String → Reporting Name
  serial_checked p rs max_ttl until serial ttl (some e) =
      return (wait (p.now + ttl) e)
        (record rs { rrsig = some (wait_next_serial until serial ttl e) }) true
  serial_checked p rs max_ttl until serial ttl none = check_rrsig p rs max_ttl

  unfoldable pub report_rrsig :
      Probes Name
      → ReportState Name
      → Bool
      → ℕ
      → Option (AutoReportRrsigResult Name)
      → Reporting Name
  report_rrsig p rs changed max_ttl none = check_rrsig p rs max_ttl
  report_rrsig p rs changed max_ttl (some (rrsig_wait until notice)) =
      if ltb p.now until then return (wait until notice) rs changed else check_rrsig p rs max_ttl
  report_rrsig p rs changed max_ttl (some (rrsig_report ttl)) = next rs changed (max max_ttl ttl)
  report_rrsig p rs changed max_ttl (some (wait_soa until serial ttl report_ttl notice)) =
      if ltb p.now until
      then return (wait until notice) rs changed
      else soa_checked p rs max_ttl serial ttl report_ttl (p.check_soa serial)
  report_rrsig p rs changed max_ttl (some (wait_record until name rtype ttl notice)) =
      if ltb p.now until
      then return (wait until notice) rs changed
      else record_checked p rs max_ttl name rtype ttl (p.check_record name rtype)
  report_rrsig p rs changed max_ttl (some (wait_next_serial until serial ttl notice)) =
      if ltb p.now until
      then return (wait until notice) rs changed
      else serial_checked p rs max_ttl until serial ttl (p.check_next_serial serial)

  unfoldable pub report_action : Probes Name → ReportState Name → Bool → ℕ → Action → Reporting Name
  unfolding report_dnskey report_ds report_rrsig
  report_action p rs changed m report_dnskey_propagated = report_dnskey p rs changed m rs.dnskey
  report_action p rs changed m report_ds_propagated = report_ds p rs changed m rs.ds
  report_action p rs changed m report_rrsig_propagated = report_rrsig p rs changed m rs.rrsig
  report_action p rs changed m update_dnskey_rrset = next rs changed m
  report_action p rs changed m create_cds_rrset = next rs changed m
  report_action p rs changed m remove_cds_rrset = next rs changed m
  report_action p rs changed m update_ds_rrset = next rs changed m
  report_action p rs changed m update_rrsig = next rs changed m
  report_action p rs changed m wait_dnskey_propagated = unreachable
  report_action p rs changed m wait_ds_propagated = unreachable
  report_action p rs changed m wait_rrsig_propagated = unreachable

  unfoldable pub report_loop :
      Probes Name → ReportState Name → Bool → ℕ → List Action → Reporting Name
  unfolding report_action
  report_loop p rs changed m [] = return (report m) rs changed
  report_loop p rs changed m (a ∷ actions) =
      and_then (report_action p rs changed m a)
        (λ rs' changed' m'. report_loop p rs' changed' m' actions)

  -- `assert!(!actions.is_empty())`, and the loop from TTL 0.
  unfoldable pub auto_report_actions :
      Probes Name → ReportState Name → Bool → List Action → Reporting Name
  unfolding report_loop
  auto_report_actions p rs changed [] = unreachable
  auto_report_actions p rs changed (a ∷ actions) = report_loop p rs changed 0 (a ∷ actions)
