-- ===== src/Keyset/Cron/Plan.antt =====
-- The plan of the next run of the subcommand `cron`, and what a command writes at its end
-- (src/commands/keyset/cmd.rs).
use dnst.Base.{
  ℕ, Bool, true, false, ◌||◌, not, Option, none, some, List, [], ◌∷◌, ◌++◌, Result, ok, ◌>>=◌, ◌==◌,
  filter_map, if◌then◌else◌,
}
use dnst.Dns.{Rtype, dnskey, cds, cdnskey}
use dnst.Keyset.Types.{
  ksk_roll, ksk_double_ds_roll, zsk_roll, zsk_double_signature_roll, csk_roll, algorithm_roll,
}
use dnst.Keyset.Workspace.{WorkSpace, KeySetState, KeySet, KeyParameters}
use dnst.Keyset.AutoStart.{cron_next_auto_start, minimum}
use dnst.Keyset.Renewal.{Zonefile, compute_cron_next, algorithm_roll_needed}
use dnst.Keyset.Automation.{Stop}
use dnst.Keyset.Automation.Planned.{Plan, cron_next_auto_report_expire_done}
use dnst.Keyset.Cron.{
  ksk_state, zsk_state, csk_state, any_roll, not_zsk_roll, not_ksk_roll, auto_full, if_full,
}
use dnst.Keyset.Cron.Due.{removal_times}

abbrev same_time : Option ℕ → Option ℕ → Bool
same_time none none = true
same_time (some s) (some t) = s == t
same_time none (some t) = false
same_time (some s) none = false

module _ {K Name : Type 0} (lib : KeySet K) (zonefile : Zonefile)
    (params_algorithm : KeyParameters → ℕ) (now : ℕ) where
  -- cron_next_auto_start for the KSKs, the ZSKs and the CSKs.
  abbrev pub plan_starts : WorkSpace K Name → List (Option ℕ) → List (Option ℕ)
  plan_starts ws times =
      let c = ws.config in
      let need = algorithm_roll_needed lib params_algorithm c ws.state.keyset in
      cron_next_auto_start lib c.csk_validity (auto_full need c) ws.state any_roll csk_state (
        cron_next_auto_start lib c.zsk_validity (if_full need c (auto_full need c) c.auto_zsk)
          ws.state (if_full need c any_roll not_ksk_roll) zsk_state
          (cron_next_auto_start lib c.ksk_validity (if_full need c (auto_full need c) c.auto_ksk)
            ws.state (if_full need c any_roll not_zsk_roll) ksk_state times))

  abbrev pub plan_removals : WorkSpace K Name → Plan
  plan_removals ws =
      let times = removal_times ws.config.autoremove_delay (lib.keys ws.state.keyset) in
      if ws.config.autoremove then times else ok []

  -- All times at which `cron` may have something to do.
  unfoldable pub cron_times : WorkSpace K Name → Plan
  unfolding compute_cron_next algorithm_roll_needed cron_next_auto_report_expire_done removal_times
  cron_times ws = do
    dnskeys ← compute_cron_next zonefile ws.state.dnskey_rrset ws.config.dnskey_remain_time now
    cdss ← compute_cron_next zonefile ws.state.cds_rrset ws.config.cds_remain_time now
    let starts = plan_starts ws (dnskeys ∷ cdss ∷ [])
    ksks ←
        cron_next_auto_report_expire_done lib now ws.config.auto_ksk
          (ksk_roll ∷ ksk_double_ds_roll ∷ []) ws.state starts
    zsks ←
        cron_next_auto_report_expire_done lib now ws.config.auto_zsk
          (zsk_roll ∷ zsk_double_signature_roll ∷ []) ws.state ksks
    csks ←
        cron_next_auto_report_expire_done lib now ws.config.auto_csk (csk_roll ∷ []) ws.state zsks
    algorithms ←
        cron_next_auto_report_expire_done lib now ws.config.auto_algorithm (algorithm_roll ∷ [])
          ws.state csks
    removed ← plan_removals ws
    ok (algorithms ++ removed)

  abbrev pub with_cron_next : Option ℕ → WorkSpace K Name → WorkSpace K Name
  with_cron_next next ws =
      if not (same_time next ws.state.cron_next)
      then record ws { state = record ws.state { cron_next = next }; state_changed = true }
      else ws

  -- The end of a command that changed something: the earliest of the times.
  unfoldable pub plan_cron : WorkSpace K Name → Result Stop (WorkSpace K Name)
  unfolding cron_times minimum
  plan_cron ws = do
    let planned = (do
      times ← cron_times ws
      ok (with_cron_next (minimum (filter_map (λ e. e) times)) ws))
    if ws.config_changed || ws.state_changed then planned else ok ws

abbrev pub apex_remove : List Rtype
apex_remove = dnskey ∷ cds ∷ cdnskey ∷ []

-- What write_state does to the state before it is written.
unfoldable pub written_state : {K Name : Type 0} → KeySetState K Name → KeySetState K Name
written_state s = record s {
  apex_remove = apex_remove;
  apex_extra = s.dnskey_rrset ++ (s.cds_rrset ++ s.ns_rrset);
}
