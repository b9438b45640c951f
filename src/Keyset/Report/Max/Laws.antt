-- ===== src/Keyset/Report/Max/Laws.antt =====
-- What auto_report_actions reports, and how it agrees with check_auto_actions
-- (src/commands/keyset/cmd.rs).
use dnst.Base.{ℕ, String, ◌≡◌, ◌≢◌, refl, ◌∙◌, Bool, Option, none, some, List, [], ◌∷◌, max, arith}
use dnst.Keyset.Types.{
  Action, report_dnskey_propagated, report_ds_propagated, report_rrsig_propagated,
  wait_dnskey_propagated, wait_ds_propagated, wait_rrsig_propagated,
}
use dnst.Keyset.Report.{
  AutoReportActionsResult, report, wait, AutoReportRrsigResult, rrsig_report, wait_next_serial,
  ReportState, Probes, next, return,
}
use dnst.Keyset.Report.Check.{pending, rrsig_pending, action_pending}
use dnst.Keyset.Report.Max.{report_rrsig, report_action}

abbrev pub ttl_of : Option AutoReportActionsResult → ℕ
ttl_of (some (report ttl)) = ttl
ttl_of _ = 0

module _ {Name : Type 0} where
  abbrev pub rrsig_ttl_of : Option (AutoReportRrsigResult Name) → ℕ
  rrsig_ttl_of (some (rrsig_report ttl)) = ttl
  rrsig_ttl_of _ = 0

  -- The TTL that is recorded for an action; 0 for one that reports nothing.
  abbrev pub recorded_ttl : ReportState Name → Action → ℕ
  recorded_ttl rs report_dnskey_propagated = ttl_of rs.dnskey
  recorded_ttl rs report_ds_propagated = ttl_of rs.ds
  recorded_ttl rs report_rrsig_propagated = rrsig_ttl_of rs.rrsig
  recorded_ttl rs _ = 0

  abbrev pub max_recorded : ReportState Name → List Action → ℕ
  max_recorded rs [] = 0
  max_recorded rs (a ∷ actions) = max (recorded_ttl rs a) (max_recorded rs actions)

  -- A status that is complete is not written again.
  pub record Keeps (now : ℕ) (rs rs' : ReportState Name) : Type 0 where
    pub dnskey : pending now rs.dnskey ≡ none → rs'.dnskey ≡ rs.dnskey
    pub ds : pending now rs.ds ≡ none → rs'.ds ≡ rs.ds
    pub rrsig : rrsig_pending now rs.rrsig ≡ none → rs'.rrsig ≡ rs.rrsig

  pub Keeps-trans :
      {now : ℕ} {a b c : ReportState Name} → Keeps now a b → Keeps now b c → Keeps now a c
  Keeps-trans g h = record {
    dnskey = λ e. h.dnskey (rw (g.dnskey e) e) ∙ g.dnskey e;
    ds = λ e. h.ds (rw (g.ds e) e) ∙ g.ds e;
    rrsig = λ e. h.rrsig (rw (g.rrsig e) e) ∙ g.rrsig e;
  }

  pub complete-Keeps :
      {now : ℕ} {rs rs' : ReportState Name} (a : Action)
      → Keeps now rs rs'
      → action_pending now rs a ≡ none
      → (action_pending now rs' a ≡ none) × (recorded_ttl rs' a ≡ recorded_ttl rs a)
  complete-Keeps report_dnskey_propagated g h = rw (g.dnskey h) (h, refl)
  complete-Keeps wait_dnskey_propagated g h = rw (g.dnskey h) (h, refl)
  complete-Keeps report_ds_propagated g h = rw (g.ds h) (h, refl)
  complete-Keeps wait_ds_propagated g h = rw (g.ds h) (h, refl)
  complete-Keeps report_rrsig_propagated g h = rw (g.rrsig h) (h, refl)
  complete-Keeps wait_rrsig_propagated g h = rw (g.rrsig h) (h, refl)
  complete-Keeps _ g h = (h, refl)

  module _ (p : Probes Name) (rs : ReportState Name) (c : Bool) (m : ℕ) where
    pub report_action-next :
        (a : Action) (rs' : ReportState Name) (c' : Bool) (m' : ℕ)
        → report_action p rs c m a ≡ next rs' c' m'
        → (action_pending p.now rs' a ≡ none) × (m' ≡ max m (recorded_ttl rs' a))
    unfolding report_action
    report_action-next report_dnskey_propagated rs' c' m' h = (ground arith, ground arith)
    report_action-next report_ds_propagated rs' c' m' h = (ground arith, ground arith)
    report_action-next report_rrsig_propagated rs' c' m' h = (ground arith, ground arith)
    report_action-next wait_dnskey_propagated rs' c' m' h = absurd (ground arith)
    report_action-next wait_ds_propagated rs' c' m' h = absurd (ground arith)
    report_action-next wait_rrsig_propagated rs' c' m' h = absurd (ground arith)
    report_action-next _ rs' c' m' h = (refl, ground arith)

    pub report_action-Keeps :
        (a : Action) (rs' : ReportState Name) (c' : Bool) (m' : ℕ)
        → report_action p rs c m a ≡ next rs' c' m'
        → Keeps p.now rs rs'
    unfolding report_action
    report_action-Keeps wait_dnskey_propagated rs' c' m' h = absurd (ground arith)
    report_action-Keeps wait_ds_propagated rs' c' m' h = absurd (ground arith)
    report_action-Keeps wait_rrsig_propagated rs' c' m' h = absurd (ground arith)
    report_action-Keeps _ rs' c' m' h = record {
      dnskey = λ e. ground arith;
      ds = λ e. ground arith;
      rrsig = λ e. ground arith;
    }

    pub report_action-return-Keeps :
        (a : Action) {r : AutoReportActionsResult} (rs' : ReportState Name) (c' : Bool)
        → report_action p rs c m a ≡ return r rs' c'
        → Keeps p.now rs rs'
    unfolding report_action
    report_action-return-Keeps wait_dnskey_propagated rs' c' h = absurd (ground arith)
    report_action-return-Keeps wait_ds_propagated rs' c' h = absurd (ground arith)
    report_action-return-Keeps wait_rrsig_propagated rs' c' h = absurd (ground arith)
    report_action-return-Keeps _ rs' c' h = record {
      dnskey = λ e. ground arith;
      ds = λ e. ground arith;
      rrsig = λ e. ground arith;
    }

    report_rrsig-return :
        (o : Option (AutoReportRrsigResult Name)) (t : ℕ) (notice : String) (rs' : ReportState Name)
        (c' : Bool)
        → rs.rrsig ≡ o
        → ((serial : ℕ) → p.check_next_serial serial ≡ none)
        → report_rrsig p rs c m o ≡ return (wait t notice) rs' c'
        → rrsig_pending p.now rs'.rrsig ≡ some t
    unfolding report_rrsig
    report_rrsig-return (some (wait_next_serial until serial ttl n)) t notice rs' c' e s h =
        ground (arith, s serial)
    report_rrsig-return _ t notice rs' c' e s h = ground arith

    pub report_action-return :
        (a : Action) (t : ℕ) (notice : String) (rs' : ReportState Name) (c' : Bool)
        → ((serial : ℕ) → p.check_next_serial serial ≡ none)
        → report_action p rs c m a ≡ return (wait t notice) rs' c'
        → action_pending p.now rs' a ≡ some t
    unfolding report_action
    report_action-return report_rrsig_propagated t notice rs' c' s h =
        report_rrsig-return rs.rrsig t notice rs' c' refl s h
    report_action-return _ t notice rs' c' s h = ground arith

    pub return-ne-report :
        (a : Action) (t : ℕ) (rs' : ReportState Name) (c' : Bool)
        → report_action p rs c m a ≢ return (report t) rs' c'
    unfolding report_action
    return-ne-report report_dnskey_propagated t rs' c' h = ground arith
    return-ne-report _ t rs' c' h = ground arith
