-- ===== src/Keyset/Cron.antt =====
-- The subcommand `cron` and the plan of its next run (src/commands/keyset/cmd.rs): the renewal of
-- signatures, the start of rolls, their automatic steps and the removal of stale keys, in this
-- order. The clock is read once for a run. The printed output is left out.
pub mod Due
pub mod Removal
pub mod Plan
pub mod Early
pub mod Quiet
use dnst.Base.{
  ℕ, ◌+◌, String, Bool, true, false, ◌||◌, Option, none, some, List, [], ◌∷◌, ◌++◌, Result, ok, err,
  leb, filter_map, if◌then◌else◌,
}
use dnst.Keyset.Types.{
  RollType, ksk_roll, ksk_double_ds_roll, zsk_roll, zsk_double_signature_roll, csk_roll,
  algorithm_roll, Action, KeyType, ksk, zsk, csk, include_key, KeyState, Key,
}
use dnst.Keyset.Report.{Probes}
use dnst.Keyset.Workspace.{WorkSpace, KeySetState, KeySetConfig, KeySet, KeyParameters, AutoConfig}
use dnst.Keyset.Run.{Machine, Method, Run, ◌>>=◌, return, fail, on_space}
use dnst.Keyset.NewKeys.{Backend}
use dnst.Keyset.Rrsets.{KeyStore, update_dnskeys, create_cds}
use dnst.Keyset.Rolls.Commands.{
  start_ksk_roll, start_zsk_roll, start_csk_roll, start_algorithm_roll,
}
use dnst.Keyset.AutoStart.{auto_start, cron_next_auto_start, minimum}
use dnst.Keyset.Renewal.{Zonefile, sig_renew, compute_cron_next, algorithm_roll_needed}
use dnst.Keyset.Automation.{Stop, stopping, changed_if, auto_report_expire_done}
use dnst.Keyset.Cron.Removal.{remove_stale}

abbrev pub ksk_state : KeyType → Option KeyState
ksk_state (ksk s) = some s
ksk_state (zsk s) = none
ksk_state (csk s t) = none
ksk_state (include_key s) = none

abbrev pub zsk_state : KeyType → Option KeyState
zsk_state (zsk s) = some s
zsk_state (ksk s) = none
zsk_state (csk s t) = none
zsk_state (include_key s) = none

abbrev pub csk_state : KeyType → Option KeyState
csk_state (csk s t) = some s
csk_state (ksk s) = none
csk_state (zsk s) = none
csk_state (include_key s) = none

abbrev pub any_roll : RollType → Bool
any_roll r = true

-- `r != RollType::ZskRoll && r != RollType::ZskDoubleSignatureRoll`.
abbrev pub not_zsk_roll : RollType → Bool
not_zsk_roll zsk_roll = false
not_zsk_roll zsk_double_signature_roll = false
not_zsk_roll ksk_roll = true
not_zsk_roll ksk_double_ds_roll = true
not_zsk_roll csk_roll = true
not_zsk_roll algorithm_roll = true

abbrev pub not_ksk_roll : RollType → Bool
not_ksk_roll ksk_roll = false
not_ksk_roll ksk_double_ds_roll = false
not_ksk_roll zsk_roll = true
not_ksk_roll zsk_double_signature_roll = true
not_ksk_roll csk_roll = true
not_ksk_roll algorithm_roll = true

-- `if need_algorithm_roll { auto_algorithm } else { auto_csk }`.
abbrev pub auto_full : Bool → KeySetConfig → AutoConfig
auto_full need c = if need then c.auto_algorithm else c.auto_csk

-- The settings for a KSK or a ZSK: those of a full roll, or those of the one type.
abbrev pub if_full : {A : Type 0} → Bool → KeySetConfig → A → A → A
if_full need c full split = if c.use_csk || need then full else split

module _ {K Name : Type 0} where
  -- Signatures are made anew if that is needed.
  abbrev pub renew_if :
      Result Stop Bool
      → Run (WorkSpace K Name) (Unit {0})
      → Method Stop (WorkSpace K Name) (Unit {0})
  renew_if (err e) renew ws = (err e, ws)
  renew_if (ok true) renew ws = changed_if (renew ws)
  renew_if (ok false) renew ws = (ok tt, ws)

module _ {S P W D K Name : Type 0} (backend : Backend S P W) (lib : KeySet K) (store : KeyStore D)
    (zonefile : Zonefile) (params_algorithm : KeyParameters → ℕ)
    (probes : KeySetState K Name → Probes Name) (zone : String) (now : ℕ) where
  abbrev pub renew_dnskey : Method Stop (WorkSpace K Name) (Unit {0})
  renew_dnskey ws =
      renew_if (sig_renew zonefile ws.state.dnskey_rrset ws.config.dnskey_remain_time now)
        (update_dnskeys store lib now) ws

  abbrev pub renew_cds : Method Stop (WorkSpace K Name) (Unit {0})
  renew_cds ws =
      renew_if (sig_renew zonefile ws.state.cds_rrset ws.config.cds_remain_time now)
        (create_cds store lib now) ws

  abbrev pub start_full : Bool → Run (Machine K Name W) (List Action)
  start_full need =
      if need
      then start_algorithm_roll backend lib store zone now
      else start_csk_roll backend lib store zone now

  -- auto_start for the KSKs, for the ZSKs and for the CSKs.
  abbrev pub start_for_ksk : Bool → Run (Machine K Name W) (Unit {0})
  start_for_ksk need m =
      let c = m.space.config in
      auto_start lib now c.ksk_validity (if_full need c (auto_full need c) c.auto_ksk)
        (if_full need c any_roll not_zsk_roll) ksk_state
        (if_full need c (start_full need) (start_ksk_roll backend lib store zone now)) m

  abbrev pub start_for_zsk : Bool → Run (Machine K Name W) (Unit {0})
  start_for_zsk need m =
      let c = m.space.config in
      auto_start lib now c.zsk_validity (if_full need c (auto_full need c) c.auto_zsk)
        (if_full need c any_roll not_ksk_roll) zsk_state
        (if_full need c (start_full need) (start_zsk_roll backend lib store zone now)) m

  abbrev pub start_for_csk : Bool → Run (Machine K Name W) (Unit {0})
  start_for_csk need m =
      let c = m.space.config in
      auto_start lib now c.csk_validity (auto_full need c) any_roll csk_state (start_full need) m

  abbrev pub start_rolls : Method Stop (Machine K Name W) (Unit {0})
  start_rolls m =
      let need = algorithm_roll_needed lib params_algorithm m.space.config m.space.state.keyset in
      (stopping (start_for_ksk need) >>= λ _.
      stopping (start_for_zsk need) >>= λ _. stopping (start_for_csk need))
        m

  abbrev pub steps_for :
      (KeySetConfig → AutoConfig) → List RollType → Method Stop (WorkSpace K Name) (Unit {0})
  steps_for auto rolls ws = auto_report_expire_done store lib probes now (auto ws.config) rolls ws

  abbrev pub ksk_steps : Method Stop (WorkSpace K Name) (Unit {0})
  ksk_steps = steps_for (λ c. c.auto_ksk) (ksk_roll ∷ ksk_double_ds_roll ∷ [])

  abbrev pub zsk_steps : Method Stop (WorkSpace K Name) (Unit {0})
  zsk_steps = steps_for (λ c. c.auto_zsk) (zsk_roll ∷ zsk_double_signature_roll ∷ [])

  abbrev pub csk_steps : Method Stop (WorkSpace K Name) (Unit {0})
  csk_steps = steps_for (λ c. c.auto_csk) (csk_roll ∷ [])

  abbrev pub algorithm_steps : Method Stop (WorkSpace K Name) (Unit {0})
  algorithm_steps = steps_for (λ c. c.auto_algorithm) (algorithm_roll ∷ [])

  unfoldable pub cron : Method Stop (Machine K Name W) (Unit {0})
  unfolding sig_renew start_algorithm_roll start_csk_roll start_ksk_roll start_zsk_roll
      algorithm_roll_needed auto_report_expire_done remove_stale
  cron = on_space renew_dnskey >>= λ _. on_space renew_cds >>= λ _. start_rolls >>= λ _.
      on_space ksk_steps >>= λ _. on_space zsk_steps >>= λ _.
      on_space csk_steps >>= λ _. on_space algorithm_steps >>= λ _. remove_stale backend lib now
