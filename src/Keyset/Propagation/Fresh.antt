-- ===== src/Keyset/Propagation/Fresh.antt =====
-- The report actions of a roll over the checks of the network (src/commands/keyset/cmd.rs,
-- auto_report_actions and report_dnskey_propagated).
use mathlib.Core.Path.{subst}
use dnst.Base.{
  ℕ, ◌≡◌, ◌⊎◌, inl, inr, refl, sym, ap, ◌∙◌, String, Bool, true, false, Option, none, some, List,
  [], ◌∷◌, In, ltb, if◌then◌else◌, Eq,
}
use dnst.Keyset.Types.{
  Action, update_dnskey_rrset, create_cds_rrset, remove_cds_rrset, update_ds_rrset, update_rrsig,
  report_dnskey_propagated, report_ds_propagated, report_rrsig_propagated, wait_dnskey_propagated,
  wait_ds_propagated, wait_rrsig_propagated,
}
use dnst.Keyset.Report.{
  AutoReportActionsResult, report, wait, AutoReportRrsigResult, rrsig_report, rrsig_wait, wait_soa,
  wait_record, wait_next_serial, ReportState, Probes, all_done, ds_or_wait, rrsig_or_wait, next,
  return, unreachable, and_then,
}
use dnst.Keyset.Report.Check.{pending, action_pending, first_wait, check_auto_actions}
use dnst.Keyset.Report.Max.Total.{auto_report_actions-report}
use dnst.Keyset.Propagation.{Network, report_dnskey_propagated as dnskey_check}
use dnst.Keyset.Propagation.Reported.{
  AllAddresses, ServesDnskey, report_dnskey_propagated-AllAddresses,
}
use dnst.Keyset.Report.Max.{
  Reporting, after_check, after_zone, report_dnskey, report_ds, soa_checked, record_checked,
  serial_checked, report_rrsig, report_action, report_loop, auto_report_actions,
}

module _ {Name : Type 0} (p : Probes Name) where
  -- The status of the DNSKEY check is an old one, or the result of the check.
  abbrev From : Option AutoReportActionsResult → ReportState Name → Type 0
  From old rs = (rs.dnskey ≡ old) ⊎ (rs.dnskey ≡ some p.dnskey_propagated)

  abbrev Leaves : Option AutoReportActionsResult → Reporting Name → Type 0
  Leaves old (next rs c m) = From old rs
  Leaves old (return r rs c) = From old rs
  Leaves old unreachable = Unit

  after_check-Leaves :
      (old : Option AutoReportActionsResult) (m : ℕ) (r : AutoReportActionsResult)
      (rs : ReportState Name)
      → From old rs
      → Leaves old (after_check m r rs)
  after_check-Leaves old m (wait until notice) rs h = h
  after_check-Leaves old m (report ttl) rs h = h

  after_zone-Leaves :
      (old : Option AutoReportActionsResult) (m : ℕ) (r : AutoReportRrsigResult Name)
      (rs : ReportState Name)
      → From old rs
      → Leaves old (after_zone m r rs)
  after_zone-Leaves old m (rrsig_report ttl) rs h = h
  after_zone-Leaves old m (rrsig_wait until notice) rs h = h
  after_zone-Leaves old m (wait_soa until serial ttl report_ttl notice) rs h = h
  after_zone-Leaves old m (wait_record until name rtype ttl notice) rs h = h
  after_zone-Leaves old m (wait_next_serial until serial ttl notice) rs h = h

  if-Leaves :
      (old : Option AutoReportActionsResult) (b : Bool) (f g : Reporting Name)
      → Leaves old f
      → Leaves old g
      → Leaves old (if b then f else g)
  if-Leaves old true f g h k = h
  if-Leaves old false f g h k = k

  module _ (rs : ReportState Name) (c : Bool) (m : ℕ) (old : Option AutoReportActionsResult)
      (from : From old rs) where
    zone-Leaves :
        Leaves old (after_zone m (rrsig_or_wait p) (record rs { rrsig = some (rrsig_or_wait p) }))
    zone-Leaves =
        after_zone-Leaves old m (rrsig_or_wait p) (record rs { rrsig = some (rrsig_or_wait p) })
          from

    dnskey-Leaves :
        (status : Option AutoReportActionsResult) → Leaves old (report_dnskey p rs c m status)
    unfolding report_dnskey
    dnskey-Leaves none =
        after_check-Leaves old m p.dnskey_propagated
          (record rs { dnskey = some p.dnskey_propagated }) (inr refl)
    dnskey-Leaves (some (report ttl)) = from
    dnskey-Leaves (some (wait until notice)) = if-Leaves old (ltb p.now until) _ _ from (
        after_check-Leaves old m p.dnskey_propagated
          (record rs { dnskey = some p.dnskey_propagated }) (inr refl))

    ds-Leaves : (status : Option AutoReportActionsResult) → Leaves old (report_ds p rs c m status)
    unfolding report_ds
    ds-Leaves none =
        after_check-Leaves old m (ds_or_wait p) (record rs { ds = some (ds_or_wait p) }) from
    ds-Leaves (some (report ttl)) = from
    ds-Leaves (some (wait until notice)) =
        if-Leaves old (ltb p.now until) _ _ from
          (after_check-Leaves old m (ds_or_wait p) (record rs { ds = some (ds_or_wait p) }) from)

    rrsig-Leaves :
        (status : Option (AutoReportRrsigResult Name)) → Leaves old (report_rrsig p rs c m status)
    unfolding report_rrsig
    rrsig-Leaves none = zone-Leaves
    rrsig-Leaves (some (rrsig_report ttl)) = from
    rrsig-Leaves (some (rrsig_wait until notice)) =
        if-Leaves old (ltb p.now until) _ _ from zone-Leaves
    rrsig-Leaves (some (wait_soa until serial ttl report_ttl notice)) =
        if-Leaves old (ltb p.now until) _ _ from
          (elim (p.check_soa serial)
            as (λ x. Leaves old (soa_checked p rs m serial ttl report_ttl x)) [
              | none ↦ from
              | some e ↦ from
            ])
    rrsig-Leaves (some (wait_record until name rtype ttl notice)) =
        if-Leaves old (ltb p.now until) _ _ from
          (elim (p.check_record name rtype)
            as (λ x. Leaves old (record_checked p rs m name rtype ttl x)) [
              | none ↦ zone-Leaves
              | some e ↦ from
            ])
    rrsig-Leaves (some (wait_next_serial until serial ttl notice)) =
        if-Leaves old (ltb p.now until) _ _ from
          (elim (p.check_next_serial serial)
            as (λ x. Leaves old (serial_checked p rs m until serial ttl x)) [
              | none ↦ zone-Leaves
              | some e ↦ from
            ])

    action-Leaves : (a : Action) → Leaves old (report_action p rs c m a)
    unfolding report_action
    action-Leaves report_dnskey_propagated = dnskey-Leaves rs.dnskey
    action-Leaves report_ds_propagated = ds-Leaves rs.ds
    action-Leaves report_rrsig_propagated = rrsig-Leaves rs.rrsig
    action-Leaves update_dnskey_rrset = from
    action-Leaves create_cds_rrset = from
    action-Leaves remove_cds_rrset = from
    action-Leaves update_ds_rrset = from
    action-Leaves update_rrsig = from
    action-Leaves wait_dnskey_propagated = tt
    action-Leaves wait_ds_propagated = tt
    action-Leaves wait_rrsig_propagated = tt

  and_then-Leaves :
      (old : Option AutoReportActionsResult) (f : Reporting Name)
      (k : ReportState Name → Bool → ℕ → Reporting Name)
      → Leaves old f
      → ((rs : ReportState Name) (c : Bool) (m : ℕ) → From old rs → Leaves old (k rs c m))
      → Leaves old (and_then f k)
  and_then-Leaves old (next rs c m) k h f = f rs c m h
  and_then-Leaves old (return r rs c) k h f = h
  and_then-Leaves old unreachable k h f = tt

  loop-Leaves :
      (actions : List Action) (rs : ReportState Name) (c : Bool) (m : ℕ)
      (old : Option AutoReportActionsResult)
      → From old rs
      → Leaves old (report_loop p rs c m actions)
  unfolding report_loop
  loop-Leaves [] rs c m old h = h
  loop-Leaves (a ∷ actions) rs c m old h =
      and_then-Leaves old (report_action p rs c m a) (λ rs' c' m'. report_loop p rs' c' m' actions)
        (action-Leaves rs c m old h a) (λ rs' c' m' k. loop-Leaves actions rs' c' m' old k)

  returned-From :
      (actions : List Action) (rs : ReportState Name) (c : Bool) {r : AutoReportActionsResult}
      {rs' : ReportState Name} {c' : Bool}
      → auto_report_actions p rs c actions ≡ return r rs' c'
      → From rs.dnskey rs'
  unfolding auto_report_actions
  returned-From [] rs c h = cc
  returned-From (a ∷ actions) rs c h =
      subst (Leaves rs.dnskey) h (loop-Leaves (a ∷ actions) rs c 0 rs.dnskey (inl refl))

done_pending :
    {Name : Type 0} (now : ℕ) (rs : ReportState Name) (a : Action) (actions : List Action)
    → check_auto_actions now rs actions ≡ all_done
    → In a actions
    → action_pending now rs a ≡ none
unfolding check_auto_actions
done_pending now rs a [] h i = absurd i
done_pending now rs a (b ∷ actions) h (inl e) = by_first (action_pending now rs b) refl h
  where
    by_first :
        (o : Option ℕ)
        → action_pending now rs b ≡ o
        → first_wait o (check_auto_actions now rs actions) ≡ all_done
        → action_pending now rs a ≡ none
    by_first none same k = ap (action_pending now rs) e ∙ same
    by_first (some t) same k = cc
done_pending now rs a (b ∷ actions) h (inr i) =
    by_first (action_pending now rs b) h (λ k. done_pending now rs a actions k i)
  where
    by_first :
        (o : Option ℕ)
        → first_wait o (check_auto_actions now rs actions) ≡ all_done
        → (check_auto_actions now rs actions ≡ all_done → action_pending now rs a ≡ none)
        → action_pending now rs a ≡ none
    by_first none k ih = ih k
    by_first (some t) k ih = cc

reported_lem :
    (now : ℕ) (status : Option AutoReportActionsResult)
    → pending now status ≡ none
    → (ttl : ℕ) × (status ≡ some (report ttl))
reported_lem now none h = cc
reported_lem now (some (wait until notice)) h = cc
reported_lem now (some (report ttl)) h = (ttl, refl)

module _ {Name Address Dnskey Rrsig Ds : Type 0} ⦃name_eq : Eq Name⦄ ⦃key_eq : Eq Dnskey⦄
    ⦃sig_eq : Eq Rrsig⦄ (net : Network Name Address Dnskey Rrsig Ds) (zone : Name)
    (p : Probes Name) where
  some-eq :
      {x y : AutoReportActionsResult}
      → ◌≡◌ {A = Option AutoReportActionsResult} (some x) (some y)
      → x ≡ y
  some-eq h = cc

  fresh_lem :
      (old new : Option AutoReportActionsResult) {ttl : ℕ}
      → old ≡ none
      → (new ≡ old) ⊎ (new ≡ some p.dnskey_propagated)
      → new ≡ some (report ttl)
      → p.dnskey_propagated ≡ report ttl
  fresh_lem old new e (inl same) h = cc
  fresh_lem old new e (inr found) h = some-eq (sym found ∙ h)

  -- When the report actions of a roll start with no status of the DNSKEY record set, have the check of
  -- its propagation among them, and end in a report, then every address of every name server of the
  -- zone was seen to answer with exactly the DNSKEY record set that is stored.
  pub auto_report_actions-AllAddresses :
      (dnskey_rrset : List String) (actions : List Action) (rs : ReportState Name) (c : Bool)
      {t : ℕ} {rs' : ReportState Name} {c' : Bool}
      → dnskey_check net zone dnskey_rrset p.now ≡ some p.dnskey_propagated
      → rs.dnskey ≡ none
      → In report_dnskey_propagated actions
      → auto_report_actions p rs c actions ≡ return (report t) rs' c'
      → (ttl : ℕ) × (rs'.dnskey ≡ some (report ttl))
        × AllAddresses net zone p.now zone (ServesDnskey net zone p.now dnskey_rrset ttl)
  auto_report_actions-AllAddresses dnskey_rrset actions rs c {t} {rs'} {c'} checked e i h =
      let (done, _) = auto_report_actions-report p actions rs c t rs' c' h in
      let (ttl, status) =
        reported_lem p.now rs'.dnskey
          (done_pending p.now rs' report_dnskey_propagated actions done i) in
      let found = fresh_lem rs.dnskey rs'.dnskey e (returned-From p actions rs c h) status in
      (
        ttl,
        status,
        report_dnskey_propagated-AllAddresses net zone p.now dnskey_rrset (checked ∙ ap some found),
      )
