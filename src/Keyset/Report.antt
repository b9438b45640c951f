-- ===== src/Keyset/Report.antt =====
-- The automatic report and wait steps of a key roll (src/commands/keyset/cmd.rs): the recorded
-- status of each kind of propagation, auto_wait_actions, auto_report_actions and
-- check_auto_actions.
pub mod Check
pub mod Wait
pub mod Max
use dnst.Base.{
  ℕ, ◌+◌, ◌≡◌, refl, ◌⊎◌, inl, inr, arith, String, Bool, true, false, Option, none, some, List, [],
  ◌∷◌, Result, ok, err, ltb, max, if◌then◌else◌,
}
use dnst.Dns.{Rtype}
use dnst.Keyset.Types.{
  Action, update_dnskey_rrset, create_cds_rrset, remove_cds_rrset, update_ds_rrset, update_rrsig,
  report_dnskey_propagated, report_ds_propagated, report_rrsig_propagated, wait_dnskey_propagated,
  wait_ds_propagated, wait_rrsig_propagated,
}

-- 10 minutes, in seconds.
abbrev pub default_wait : ℕ
default_wait = 600

pub data AutoActionsResult : Type 0 where
  all_done : AutoActionsResult
  wait_until : ℕ → AutoActionsResult

pub data AutoReportActionsResult : Type 0 where
  report : ℕ → AutoReportActionsResult
  wait : ℕ → String → AutoReportActionsResult

-- The fields are those of the source, in its order.
pub data AutoReportRrsigResult (Name : Type 0) : Type 0 where
  rrsig_report : ℕ → AutoReportRrsigResult Name
  rrsig_wait : ℕ → String → AutoReportRrsigResult Name
  wait_soa : (until serial ttl report_ttl : ℕ) → String → AutoReportRrsigResult Name
  wait_record : (until : ℕ) → Name → Rtype → (ttl : ℕ) → String → AutoReportRrsigResult Name
  wait_next_serial : (until serial ttl : ℕ) → String → AutoReportRrsigResult Name

pub record ReportState (Name : Type 0) : Type 0 where
  pub dnskey : Option AutoReportActionsResult
  pub ds : Option AutoReportActionsResult
  pub rrsig : Option (AutoReportRrsigResult Name)

-- What the checks over the network find; an error is its message. Each is made at most once in a
-- run over the actions, at the time `now` of the run.
pub record Probes (Name : Type 0) : Type 0 where
  pub now : ℕ
  pub dnskey_propagated : AutoReportActionsResult
  pub ds_propagated : Result String AutoReportActionsResult
  pub rrsig_propagated : Result String (AutoReportRrsigResult Name)
  pub check_soa : ℕ → Option String
  pub check_record : Name → Rtype → Option String
  pub check_next_serial : ℕ → Option String

-- One action of a loop: go on, return from the function, or reach `unreachable!()`. The report
-- state and the flag that the state file changed are kept in either of the first two.
pub data Flow (Name R Acc : Type 0) : Type 0 where
  next : ReportState Name → Bool → Acc → Flow Name R Acc
  return : R → ReportState Name → Bool → Flow Name R Acc
  unreachable : Flow Name R Acc

module _ {Name : Type 0} where
  -- `unwrap_or_else` on the results of the DS and RRSIG checks.
  abbrev pub ds_or_wait : Probes Name → AutoReportActionsResult
  ds_or_wait p = elim p.ds_propagated [ ok r ↦ r | err e ↦ wait (p.now + default_wait) e ]

  abbrev pub rrsig_or_wait : Probes Name → AutoReportRrsigResult Name
  rrsig_or_wait p = elim p.rrsig_propagated [
    | ok r ↦ r
    | err e ↦ rrsig_wait (p.now + default_wait) e
  ]

  abbrev pub until_of : AutoReportRrsigResult Name → Option ℕ
  until_of (rrsig_report _) = none
  until_of (rrsig_wait until _) = some until
  until_of (wait_soa until _ _ _ _) = some until
  until_of (wait_record until _ _ _ _) = some until
  until_of (wait_next_serial until _ _ _) = some until

module _ {Name R Acc : Type 0} where
  -- The next round of a loop, if there is one.
  abbrev pub and_then :
      Flow Name R Acc → (ReportState Name → Bool → Acc → Flow Name R Acc) → Flow Name R Acc
  and_then (next rs c x) k = k rs c x
  and_then (return r rs c) k = return r rs c
  and_then unreachable k = unreachable

  pub and_then-eq-return :
      (f : Flow Name R Acc) (k : ReportState Name → Bool → Acc → Flow Name R Acc) {r : R}
      {rs : ReportState Name} {c : Bool}
      → and_then f k ≡ return r rs c
      → (f ≡ return r rs c)
        ⊎ ((rs' : ReportState Name) × (c' : Bool) × (x : Acc) × (f ≡ next rs' c' x)
            × (k rs' c' x ≡ return r rs c))
  and_then-eq-return (next rs' c' x) k h = inr (rs', c', x, refl, h)
  and_then-eq-return (return r' rs' c') k h = inl h
  and_then-eq-return unreachable k h = absurd (ground arith)
