-- ===== src/Examples/Cron.antt =====
-- The subcommand `cron` and its plan at concrete inputs.
use dnst.Base.{ℕ, ◌≡◌, refl, none, some, [], ◌∷◌, ok, map, arith}
use dnst.Keyset.Workspace.{KeyParameters}
use dnst.Keyset.Run.{Machine}
use dnst.Keyset.Rrsets.{get}
use dnst.Keyset.Report.Check.{check_auto_actions}
use dnst.Keyset.AutoStart.{minimum, cron_next_auto_start, conflict, expiry_in_cron}
use dnst.Keyset.Renewal.{rrsig, Zonefile, expirations, compute_cron_next, algorithm_roll_needed}
use dnst.Keyset.Automation.Planned.{
  plan_each, plan_report, plan_expire, plan_done, cron_next_auto_report_expire_done,
}
use dnst.Keyset.Cron.{cron}
use dnst.Keyset.Cron.Due.{removal_times}
use dnst.Keyset.Cron.Plan.{cron_times}
use dnst.Keyset.Cron.Quiet.{cron-cron_times}
use dnst.Examples.Starts.{on, config, old_ksk}
use dnst.Examples.RecordSets.{toy_store}
use dnst.Examples.Rolls.{toy_backend}
use dnst.Examples.Automation.{KeysAndRolls, ended_rolls, ended_laws, visible, waiting}

-- Every line is a signature that expires at 5000.
abbrev toy_zonefile : Zonefile
toy_zonefile = record {
  entries = λ rrset. map (λ line. rrsig 5000) rrset;
  to_system_time = λ expiration now. expiration;
}

-- For the default algorithm of keys.
abbrev toy_algorithm : KeyParameters → ℕ
toy_algorithm parameters = 13

signature_planned : compute_cron_next toy_zonefile ("signature" ∷ []) 50 1000 ≡ ok (some 4950)
unfolding compute_cron_next expirations minimum
signature_planned = refl

-- One key, one signature, and a ZSK roll at its end.
abbrev quiet_machine : Machine KeysAndRolls ℕ ℕ
quiet_machine = record {
  space = record waiting {
    config = record config { auto_zsk = on; ksk_validity = some 5000 };
    state = record waiting.state {
      keyset = (("file:///keys/old.key", old_ksk) ∷ [], []);
      dnskey_rrset = "signature" ∷ [];
    };
  };
  world = 0;
}

planned_times :
    cron_times ended_rolls toy_zonefile toy_algorithm 1000 quiet_machine.space
    ≡ ok (some 4950 ∷ none ∷ some 5100 ∷ some 2000 ∷ [])
unfolding cron_times cron_next_auto_start conflict expiry_in_cron compute_cron_next expirations
    minimum algorithm_roll_needed cron_next_auto_report_expire_done plan_each plan_report
    plan_expire plan_done check_auto_actions get removal_times
planned_times = refl

cron-cron_times_example :
    cron toy_backend ended_rolls toy_store toy_zonefile toy_algorithm
      (λ s. visible)
      "example."
      1000
      quiet_machine
    ≡ (ok tt, quiet_machine)
cron-cron_times_example =
    cron-cron_times toy_backend ended_rolls toy_store toy_zonefile toy_algorithm (λ s. visible)
      "example." ended_laws quiet_machine (some 4950 ∷ none ∷ some 5100 ∷ some 2000 ∷ [])
      (omega arith) (refl, tt) tt planned_times
      (omega arith, (tt, (omega arith, (omega arith, tt))))
