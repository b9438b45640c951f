-- ===== src/Examples/Reports.antt =====
-- The report and wait actions at concrete inputs.
use dnst.Base.{ℕ, ◌+◌, ◌≡◌, refl, true, false, none, some, List, [], ◌∷◌, ok, err, arith}
use dnst.Keyset.Types.{
  Action, create_cds_rrset, update_rrsig, report_dnskey_propagated, report_ds_propagated,
  report_rrsig_propagated, wait_dnskey_propagated, wait_ds_propagated, wait_rrsig_propagated,
}
use dnst.Keyset.Report.{
  all_done, wait_until, report, wait, rrsig_report, wait_soa, wait_next_serial, ReportState, Probes,
  return,
}
use dnst.Keyset.Report.Check.{check_auto_actions}
use dnst.Keyset.Report.Wait.{auto_wait_actions}
use dnst.Keyset.Report.Wait.Steps.{Grows}
use dnst.Keyset.Report.Wait.Laws.{auto_wait_actions-all_done, auto_wait_actions_stale}
use dnst.Keyset.Report.Max.{auto_report_actions}
use dnst.Keyset.Report.Max.Laws.{max_recorded}
use dnst.Keyset.Report.Max.Total.{auto_report_actions-report, auto_report_actions_stale}

-- At time 1000 all has propagated.
abbrev good : Probes ℕ
good = record {
  now = 1000;
  dnskey_propagated = report 300;
  ds_propagated = ok (report 900);
  rrsig_propagated = ok (rrsig_report 600);
  check_soa = λ serial. none;
  check_record = λ name rtype. none;
  check_next_serial = λ serial. none;
}

-- At time 1000 the DS check fails.
abbrev bad_ds : Probes ℕ
bad_ds = record good { ds_propagated = err "no address" }

-- At time 1000 the checks of SOA serials fail.
abbrev bad_soa : Probes ℕ
bad_soa = record good {
  check_soa = λ serial. some "old serial";
  check_next_serial = λ serial. some "old serial";
}

abbrev fresh : ReportState ℕ
fresh = record { dnskey = none; ds = none; rrsig = none }

abbrev all_reported : ReportState ℕ
all_reported = record {
  dnskey = some (report 300);
  ds = some (report 900);
  rrsig = some (rrsig_report 600);
}

abbrev waits : List Action
waits = wait_dnskey_propagated ∷ create_cds_rrset ∷ wait_ds_propagated ∷ wait_rrsig_propagated ∷ []

abbrev reports : List Action
reports =
    report_dnskey_propagated ∷ update_rrsig ∷ report_ds_propagated ∷ report_rrsig_propagated ∷ []

auto_wait_actions-all_done_example :
    (check_auto_actions 1000 all_reported waits ≡ all_done) × Grows 1000 fresh all_reported
unfolding auto_wait_actions
auto_wait_actions-all_done_example =
    auto_wait_actions-all_done good fresh false waits all_reported true refl

abbrev ds_failed : ReportState ℕ
ds_failed = record { dnskey = some (report 300); ds = some (wait 1600 "no address"); rrsig = none }

abbrev for_soa : ReportState ℕ
for_soa = record fresh { rrsig = some (wait_soa 900 42 60 3600 "waiting") }

auto_wait_actions_stale_example :
    (rs' : ReportState ℕ) × (auto_wait_actions bad_soa for_soa false (wait_rrsig_propagated ∷ [])
      ≡ return (wait_until (1000 + 60)) rs' true)
    × (check_auto_actions 1000 rs' (wait_rrsig_propagated ∷ []) ≡ wait_until 900)
auto_wait_actions_stale_example =
    auto_wait_actions_stale bad_soa for_soa false 900 42 60 3600 "waiting" "old serial" refl
      (omega arith) refl

auto_report_actions-report_example :
    (check_auto_actions 1000 all_reported reports ≡ all_done)
    × (900 ≡ max_recorded all_reported reports)
unfolding auto_report_actions
auto_report_actions-report_example =
    auto_report_actions-report good reports fresh false 900 all_reported true refl

abbrev for_serial : ReportState ℕ
for_serial = record fresh { rrsig = some (wait_next_serial 900 42 60 "waiting") }

auto_report_actions_stale_example :
    (rs' : ReportState ℕ) × (auto_report_actions bad_soa for_serial false
        (report_rrsig_propagated ∷ [])
      ≡ return (wait (1000 + 60) "old serial") rs' true)
    × (check_auto_actions 1000 rs' (report_rrsig_propagated ∷ []) ≡ wait_until 900)
auto_report_actions_stale_example =
    auto_report_actions_stale bad_soa for_serial false 900 42 60 "waiting" "old serial" refl
      (omega arith) refl
