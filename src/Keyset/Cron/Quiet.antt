-- ===== src/Keyset/Cron/Quiet.antt =====
-- The subcommand `cron` before the times that are planned for it (src/commands/keyset/cmd.rs).
use mathlib.Core.Path.{subst}
use dnst.Base.{
  ℕ, ◌<◌, String, ◌≡◌, refl, sym, ◌∙◌, Bool-cases, inl, inr, Option, List, [], ◌∷◌, ok, >>=-eq-ok,
  ok-eq, All,
}
use dnst.Keyset.Types.{
  RollType, ksk_roll, ksk_double_ds_roll, zsk_roll, zsk_double_signature_roll, csk_roll,
  algorithm_roll,
}
use dnst.Keyset.Report.{Probes}
use dnst.Keyset.Workspace.{KeySetState, KeySetConfig, KeySet, KeyParameters, AutoConfig}
use dnst.Keyset.Run.{Machine, on_space}
use dnst.Keyset.NewKeys.{Backend}
use dnst.Keyset.Rrsets.{KeyStore, update_dnskeys, create_cds}
use dnst.Keyset.Rolls.Commands.{start_ksk_roll, start_zsk_roll}
use dnst.Keyset.AutoStart.Early.{Later, All-append, auto_start_early}
use dnst.Keyset.Renewal.{Zonefile, compute_cron_next, algorithm_roll_needed}
use dnst.Keyset.Renewal.Laws.{AsIs}
use dnst.Keyset.Automation.{stopping}
use dnst.Keyset.Automation.Planned.{cron_next_auto_report_expire_done}
use dnst.Keyset.Automation.Planned.Early.{StateLaws}
use dnst.Keyset.Automation.Planned.Quiet.{auto_report_expire_done-cron_next}
use dnst.Keyset.Cron.{
  ksk_state, zsk_state, csk_state, any_roll, not_zsk_roll, not_ksk_roll, auto_full, if_full,
  renew_dnskey, renew_cds, start_full, start_for_ksk, start_for_zsk, start_for_csk, start_rolls,
  steps_for, ksk_steps, zsk_steps, csk_steps, algorithm_steps, cron,
}
use dnst.Keyset.Cron.Removal.{remove_stale}
use dnst.Keyset.Cron.Plan.{plan_starts, plan_removals, cron_times}
use dnst.Keyset.Cron.Early.{
  eight_early, then_rest, on_space_early, stopping_early, renew_early, removals_early,
  planned_before,
}

module _ {S P W D K Name : Type 0} (backend : Backend S P W) (lib : KeySet K) (store : KeyStore D)
    (zonefile : Zonefile) (params_algorithm : KeyParameters → ℕ)
    (probes : KeySetState K Name → Probes Name) (zone : String) (laws : StateLaws lib)
    (m : Machine K Name W) where
  abbrev now : ℕ
  now = (probes m.space.state).now

  abbrev AllLater : List (Option ℕ) → Type 0
  AllLater times = All (Later now) times

  start_rolls_early :
      (times : List (Option ℕ))
      → AllLater (plan_starts lib zonefile params_algorithm now m.space times)
      → (start_rolls backend lib store zonefile params_algorithm probes zone now m ≡ (ok tt, m))
        × AllLater times
  start_rolls_early times h =
      let c = m.space.config in
      let need = algorithm_roll_needed lib params_algorithm c m.space.state.keyset in
      let full = start_full backend lib store zonefile params_algorithm probes zone now need in
      let for_ksk =
        start_for_ksk backend lib store zonefile params_algorithm probes zone now need in
      let for_zsk =
        start_for_zsk backend lib store zonefile params_algorithm probes zone now need in
      let for_csk =
        start_for_csk backend lib store zonefile params_algorithm probes zone now need in
      let (csks, l2) =
        auto_start_early lib now (auto_full need c) any_roll csk_state c.csk_validity full m _ h in
      let (zsks, l1) =
        auto_start_early lib now (if_full need c (auto_full need c) c.auto_zsk)
          (if_full need c any_roll not_ksk_roll) zsk_state c.zsk_validity
          (if_full need c full (start_zsk_roll backend lib store zone now)) m _ l2 in
      let (ksks, l0) =
        auto_start_early lib now (if_full need c (auto_full need c) c.auto_ksk)
          (if_full need c any_roll not_zsk_roll) ksk_state c.ksk_validity
          (if_full need c full (start_ksk_roll backend lib store zone now)) m times l1 in
      (
        then_rest (stopping for_ksk) _ m (stopping_early for_ksk m ksks)
            ∙ then_rest (stopping for_zsk) _ m (stopping_early for_zsk m zsks)
            ∙ stopping_early for_csk m csks,
        l0,
      )

  remove_stale_early :
      (times : List (Option ℕ))
      → plan_removals lib zonefile params_algorithm now m.space ≡ ok times
      → AllLater times
      → remove_stale backend lib now m ≡ (ok tt, m)
  unfolding remove_stale
  remove_stale_early times h later = elim (Bool-cases m.space.config.autoremove) [
    | inl e ↦
        rw
          (
            removals_early now m.space.config.autoremove_delay (lib.keys m.space.state.keyset) times
                (rw e at h) later,
            e,
          )
          refl
    | inr e ↦ rw e refl
  ]

  steps_early :
      (auto : KeySetConfig → AutoConfig) (rolls : List RollType) (acc times : List (Option ℕ))
      → cron_next_auto_report_expire_done lib now (auto m.space.config) rolls m.space.state acc
        ≡ ok times
      → AllLater times
      → (on_space
            (steps_for backend lib store zonefile params_algorithm probes zone now auto rolls)
            m
          ≡ (ok tt, m))
        × AllLater acc
  steps_early auto rolls acc times h later = (
    on_space_early
        (steps_for backend lib store zonefile params_algorithm probes zone now auto rolls) m
        (auto_report_expire_done-cron_next store lib probes laws m.space (auto m.space.config) rolls
          acc times h later),
    planned_before lib now (auto m.space.config) rolls m.space.state acc times h later,
  )

  -- If the plan that a command makes at its end holds only times that are still to come, `cron` on
  -- that state at that moment does nothing: it succeeds, and neither the work space nor the world
  -- outside change. The conditions are those for the signatures (their expirations stand for the
  -- times that they are as numbers, after the epoch) and for the key set (its actions fit the state
  -- of a roll, and its answer to wait leaves it as it was).
  pub cron-cron_times :
      (times : List (Option ℕ))
      → 0 < now
      → All (AsIs zonefile now) (zonefile.entries m.space.state.dnskey_rrset)
      → All (AsIs zonefile now) (zonefile.entries m.space.state.cds_rrset)
      → cron_times lib zonefile params_algorithm now m.space ≡ ok times
      → AllLater times
      → cron backend lib store zonefile params_algorithm probes zone now m ≡ (ok tt, m)
  unfolding cron cron_times
  cron-cron_times times positive near1 near2 h later =
      let ws = m.space in
      let c = ws.config in
      let (dnskeys, e1, h1) =
        >>=-eq-ok (compute_cron_next zonefile ws.state.dnskey_rrset c.dnskey_remain_time now) _ h in
      let (cdss, e2, h2) =
        >>=-eq-ok (compute_cron_next zonefile ws.state.cds_rrset c.cds_remain_time now) _ h1 in
      let starts = plan_starts lib zonefile params_algorithm now ws (dnskeys ∷ cdss ∷ []) in
      let (ksks, e3, h3) =
        >>=-eq-ok
          (cron_next_auto_report_expire_done lib now c.auto_ksk (ksk_roll ∷ ksk_double_ds_roll ∷ [])
            ws.state starts)
          _ h2 in
      let (zsks, e4, h4) =
        >>=-eq-ok
          (cron_next_auto_report_expire_done lib now c.auto_zsk
            (zsk_roll ∷ zsk_double_signature_roll ∷ []) ws.state ksks)
          _ h3 in
      let (csks, e5, h5) =
        >>=-eq-ok
          (cron_next_auto_report_expire_done lib now c.auto_csk (csk_roll ∷ []) ws.state zsks) _
          h4 in
      let (algorithms, e6, h6) =
        >>=-eq-ok
          (cron_next_auto_report_expire_done lib now c.auto_algorithm (algorithm_roll ∷ []) ws.state
            csks)
          _ h5 in
      let (removed, e7, joined) =
        >>=-eq-ok (plan_removals lib zonefile params_algorithm now ws) _ h6 in
      let (l6, l7) =
        All-append (Later now) algorithms removed (subst AllLater (sym (ok-eq joined)) later) in
      let (s6, l5) =
        steps_early (λ c. c.auto_algorithm) (algorithm_roll ∷ []) csks algorithms e6 l6 in
      let (s5, l4) = steps_early (λ c. c.auto_csk) (csk_roll ∷ []) zsks csks e5 l5 in
      let (s4, l3) =
        steps_early (λ c. c.auto_zsk) (zsk_roll ∷ zsk_double_signature_roll ∷ []) ksks zsks e4 l4 in
      let (s3, l2) =
        steps_early (λ c. c.auto_ksk) (ksk_roll ∷ ksk_double_ds_roll ∷ []) starts ksks e3 l3 in
      let (s2, l1) = start_rolls_early (dnskeys ∷ cdss ∷ []) l2 in
      eight_early
        (on_space (renew_dnskey backend lib store zonefile params_algorithm probes zone now))
        (on_space (renew_cds backend lib store zonefile params_algorithm probes zone now))
        (start_rolls backend lib store zonefile params_algorithm probes zone now)
        (on_space (ksk_steps backend lib store zonefile params_algorithm probes zone now))
        (on_space (zsk_steps backend lib store zonefile params_algorithm probes zone now))
        (on_space (csk_steps backend lib store zonefile params_algorithm probes zone now))
        (on_space (algorithm_steps backend lib store zonefile params_algorithm probes zone now))
        (remove_stale backend lib now) m
        (on_space_early (renew_dnskey backend lib store zonefile params_algorithm probes zone now) m
          (renew_early zonefile ws.state.dnskey_rrset c.dnskey_remain_time now dnskeys
            (update_dnskeys store lib now) ws positive near1 e1 l1.0))
        (on_space_early (renew_cds backend lib store zonefile params_algorithm probes zone now) m (
          renew_early zonefile ws.state.cds_rrset c.cds_remain_time now cdss
            (create_cds store lib now) ws positive near2 e2 l1.1.0))
        s2 s3 s4 s5 s6 (remove_stale_early removed e7 l7)
