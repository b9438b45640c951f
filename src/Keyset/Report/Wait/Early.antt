-- ===== src/Keyset/Report/Wait/Early.antt =====
-- The wait actions before the time that is recorded for them (src/commands/keyset/cmd.rs).
use dnst.Base.{
  ℕ, ◌<◌, ◌≡◌, refl, Bool, false, Option, none, some, Option-cases, inl, inr, List, [], ◌∷◌, All,
  arith,
}
use dnst.Keyset.Types.{Action, wait_dnskey_propagated, wait_ds_propagated, wait_rrsig_propagated}
use dnst.Keyset.Report.{
  wait_until, AutoReportActionsResult, report, wait, AutoReportRrsigResult, rrsig_report,
  rrsig_wait, wait_soa, wait_record, wait_next_serial, ReportState, Probes, return,
}
use dnst.Keyset.Report.Check.{pending, rrsig_pending, action_pending, check_auto_actions}
use dnst.Keyset.Report.Wait.{wait_dnskey, wait_ds, wait_rrsig, wait_action, auto_wait_actions}
use dnst.Keyset.Report.Wait.Steps.{is_report}
use dnst.Keyset.Report.Wait.Laws.{wait_action_complete}

module _ {Name : Type 0} (p : Probes Name) (rs : ReportState Name) (c : Bool) where
  wait_dnskey_early :
      (o : Option AutoReportActionsResult) (t : ℕ)
      → pending p.now o ≡ some t
      → p.now < t
      → wait_dnskey p rs c o ≡ return (wait_until t) rs c
  unfolding wait_dnskey
  wait_dnskey_early none t h early = absurd (ground arith)
  wait_dnskey_early (some (wait until notice)) t h early = ground arith
  wait_dnskey_early (some (report ttl)) t h early = absurd (ground arith)

  wait_ds_early :
      (o : Option AutoReportActionsResult) (t : ℕ)
      → pending p.now o ≡ some t
      → p.now < t
      → wait_ds p rs c o ≡ return (wait_until t) rs c
  unfolding wait_ds
  wait_ds_early none t h early = absurd (ground arith)
  wait_ds_early (some (wait until notice)) t h early = ground arith
  wait_ds_early (some (report ttl)) t h early = absurd (ground arith)

  wait_rrsig_early :
      (o : Option (AutoReportRrsigResult Name)) (t : ℕ)
      → rrsig_pending p.now o ≡ some t
      → p.now < t
      → wait_rrsig p rs c o ≡ return (wait_until t) rs c
  unfolding wait_rrsig
  wait_rrsig_early none t h early = absurd (ground arith)
  wait_rrsig_early (some (rrsig_report ttl)) t h early = absurd (ground arith)
  wait_rrsig_early (some (rrsig_wait until notice)) t h early = ground arith
  wait_rrsig_early (some (wait_soa until a b d notice)) t h early = ground arith
  wait_rrsig_early (some (wait_record until a b d notice)) t h early = ground arith
  wait_rrsig_early (some (wait_next_serial until a b notice)) t h early = ground arith

  wait_action_early :
      (a : Action) (t : ℕ)
      → is_report a ≡ false
      → action_pending p.now rs a ≡ some t
      → p.now < t
      → wait_action p rs c a ≡ return (wait_until t) rs c
  unfolding wait_action
  wait_action_early wait_dnskey_propagated t w h early = wait_dnskey_early rs.dnskey t h early
  wait_action_early wait_ds_propagated t w h early = wait_ds_early rs.ds t h early
  wait_action_early wait_rrsig_propagated t w h early = wait_rrsig_early rs.rrsig t h early
  wait_action_early _ t w h early = absurd (ground arith)

  -- If the recorded statuses say to wait until a time that is still to come, then so do the wait
  -- actions, without asking any server: the report state and the flag stay as they are.
  pub auto_wait_actions_early :
      (actions : List Action) (t : ℕ)
      → All (λ a. is_report a ≡ false) actions
      → check_auto_actions p.now rs actions ≡ wait_until t
      → p.now < t
      → auto_wait_actions p rs c actions ≡ return (wait_until t) rs c
  unfolding auto_wait_actions check_auto_actions
  auto_wait_actions_early [] t w h early = absurd (ground arith)
  auto_wait_actions_early (a ∷ actions) t w h early =
      elim (Option-cases (action_pending p.now rs a)) [
        | inl e ↦
            rw (wait_action_complete p rs c a w.0 e)
              (auto_wait_actions_early actions t w.1 (rw e at h) early)
        | inr (u, e) ↦
            rw (wait_action_early a t w.0 (let same = rw e at h in ground (arith, e)) early) refl
      ]
