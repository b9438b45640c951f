-- ===== src/Examples/Automation.antt =====
-- The steps that a roll takes by itself, at concrete inputs.
use dnst.Base.{
  ℕ, ◌≡◌, refl, sym, ◌∙◌, false, none, some, List, [], ◌∷◌, ok, err, arith, Bool-cases, inl, inr,
  ◌==◌, is_some,
}
use dnst.Keyset.Types.{
  RollType, zsk_roll, ksk_roll, RollState, done, update_dnskey_rrset, wait_dnskey_propagated,
}
use dnst.Keyset.Workspace.{WorkSpace, KeySet, RollStateReports, wait}
use dnst.Keyset.Report.{AutoReportActionsResult, ReportState, Probes, report, rrsig_report}
use dnst.Keyset.Report.Wait.{auto_wait_actions}
use dnst.Keyset.Rrsets.{roll_code, get, remove, do_done}
use dnst.Keyset.Automation.{
  modify, each, report_roll, expire_roll, done_roll, auto_report_expire_done,
}
use dnst.Keyset.Automation.Kept.{RollLaws, HasReports, Sound}
use dnst.Keyset.Automation.Driven.{auto_report_expire_done-Sound}
use dnst.Keyset.Report.Check.{check_auto_actions}
use dnst.Keyset.Automation.Planned.{
  plan_each, plan_report, plan_expire, plan_done, cron_next_auto_report_expire_done,
}
use dnst.Keyset.Automation.Planned.Early.{StateLaws}
use dnst.Examples.Starts.{Keys, on, config}
use dnst.Examples.RecordSets.{toy_store}

-- A key set is its keys and its rolls; when a roll ends, no roll is left.
abbrev pub KeysAndRolls : Type 0
KeysAndRolls = Keys × List (RollType × RollState)

abbrev rolling : KeySet KeysAndRolls
rolling = record {
  keys = λ k. k.0;
  rollstates = λ k. k.1;
  actions = λ k r. update_dnskey_rrset ∷ wait_dnskey_propagated ∷ [];
  start_roll = λ k r old new. (ok [], k);
  propagation1_complete = λ k r ttl. (ok [], k);
  propagation2_complete = λ k r ttl. (ok [], k);
  cache_expired1 = λ k r. (err (wait 5), k);
  cache_expired2 = λ k r. (ok [], k);
  roll_done = λ k r. (ok [], (k.0, []));
  delete_key = λ k u. (ok tt, k);
  set_stale = λ k u. (ok tt, k);
  add_key_ksk = λ k u p a t now. (ok tt, k);
  add_key_zsk = λ k u p a t now. (ok tt, k);
  add_key_csk = λ k u p a t now. (ok tt, k);
}

no_roll : (q : RollType) → is_some (get {V = RollState} q []) ≡ false
unfolding get
no_roll q = refl

rolling_laws : RollLaws rolling
rolling_laws = record {
  propagation1 = λ k r ttl q p. p;
  propagation2 = λ k r ttl q p. p;
  expired1 = λ k r q p. p;
  expired2 = λ k r q p. p;
  ended = λ k r q p. absurd (let no = sym p ∙ no_roll q in ground arith);
  gone = λ k r actions e. no_roll r;
}

abbrev no_report : ReportState ℕ
no_report = record { dnskey = none; ds = none; rrsig = none }

abbrev reports : RollStateReports ℕ
reports = record { propagation1 = no_report; propagation2 = no_report; done = no_report }

abbrev pub visible : Probes ℕ
visible = record {
  now = 1000;
  dnskey_propagated = report 3600;
  ds_propagated = err "no parent";
  rrsig_propagated = ok (rrsig_report 3600);
  check_soa = λ serial. none;
  check_record = λ name rtype. none;
  check_next_serial = λ serial. none;
}

abbrev ending : WorkSpace KeysAndRolls ℕ
ending = record {
  config = config;
  state = record {
    keyset = ([], (zsk_roll, done) ∷ []);
    dnskey_rrset = [];
    ds_rrset = [];
    cds_rrset = [];
    ns_rrset = [];
    apex_remove = [];
    apex_extra = [];
    cron_next = none;
    internal = (zsk_roll, reports) ∷ [];
  };
  config_changed = false;
  state_changed = false;
  run_update_ds_command = false;
}

ending-HasReports : HasReports rolling ending
unfolding get
ending-HasReports q p = elim (Bool-cases (roll_code zsk_roll == roll_code q)) [
  | inl e ↦ rw e refl
  | inr e ↦ absurd (ground arith)
]

-- The result and the rolls and reports that are left.
abbrev left : List (RollType × RollState) × List (RollType × RollStateReports ℕ)
left =
    let after =
      (auto_report_expire_done toy_store rolling (λ s. visible) 1000 on (ksk_roll ∷ zsk_roll ∷ [])
        ending).1 in
    (after.state.keyset.1, after.state.internal)

ended : left ≡ ([], [])
unfolding auto_report_expire_done each report_roll expire_roll done_roll modify auto_wait_actions
    do_done get remove
ended = refl

auto_report_expire_done-Sound_example :
    Sound rolling
      (auto_report_expire_done toy_store rolling
        (λ s. visible)
        1000
        on
        (ksk_roll ∷ zsk_roll ∷ [])
        ending).0
      (auto_report_expire_done toy_store rolling
        (λ s. visible)
        1000
        on
        (ksk_roll ∷ zsk_roll ∷ [])
        ending).1
auto_report_expire_done-Sound_example =
    auto_report_expire_done-Sound toy_store rolling (λ s. visible) 1000 rolling_laws on
      (ksk_roll ∷ zsk_roll ∷ []) ending ending-HasReports

-- A roll at its end that waits until 2000 for the DNSKEY records to be seen.
abbrev waiting_reports : RollStateReports ℕ
waiting_reports = record reports {
  done = record no_report { dnskey = some (AutoReportActionsResult.wait 2000 "not yet") };
}

abbrev pub waiting : WorkSpace KeysAndRolls ℕ
waiting = record ending {
  state = record ending.state { internal = (zsk_roll, waiting_reports) ∷ [] };
}

-- A key set whose rolls are all at their end.
abbrev pub ended_rolls : KeySet KeysAndRolls
ended_rolls = record rolling {
  rollstates = λ k. (zsk_roll, done) ∷ [];
  actions = λ k r. update_dnskey_rrset ∷ wait_dnskey_propagated ∷ [];
}

only_done :
    (r : RollType) (state : RollState) → get r ((zsk_roll, done) ∷ []) ≡ some state → state ≡ done
unfolding get
only_done r state e = ground arith

pub ended_laws : StateLaws ended_rolls
ended_laws = record {
  reporting = λ k r state slot e f. absurd (let d = only_done r state e in ground arith);
  waiting = λ k r e. (refl, (refl, tt));
  early1 = λ k r t e. refl;
  early2 = λ k r t e. refl;
}

planned_times :
    cron_next_auto_report_expire_done ended_rolls 1000 on
      (ksk_roll ∷ zsk_roll ∷ [])
      waiting.state
      []
    ≡ ok (some 2000 ∷ [])
unfolding cron_next_auto_report_expire_done plan_each plan_report plan_expire plan_done
    check_auto_actions get
planned_times = refl
