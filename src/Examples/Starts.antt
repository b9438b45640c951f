-- ===== src/Examples/Starts.antt =====
-- Starting a roll by itself, at concrete inputs.
use dnst.Base.{
  ℕ, ◌≡◌, String, Bool, true, false, not, ◌&&◌, Option, none, some, List, [], ◌∷◌, ok, err, any,
  if◌then◌else◌,
}
use dnst.Keyset.Types.{
  RollType, zsk_roll, RollState, done, KeyState, KeyType, ksk, Key, Action, update_dnskey_rrset,
}
use dnst.Keyset.Workspace.{
  AutoConfig, KeySetConfig, WorkSpace, KeySet, ecdsa_p256_sha256, sha256, double_signature_ksk_roll,
  pre_publish_zsk_roll, wait,
}
use dnst.Keyset.Run.{Machine, Run}
use dnst.Keyset.AutoStart.{auto_start, cron_next_auto_start, started}
use dnst.Keyset.AutoStart.Laws.{before, expired, auto_start_lem, auto_start-cron_next}

abbrev pub off : AutoConfig
off = record { start = false; report = false; expire = false; done = false }

abbrev pub on : AutoConfig
on = record { start = true; report = true; expire = true; done = true }

abbrev pub config : KeySetConfig
config = record {
  state_file = "state";
  keys_dir = "keys";
  use_csk = false;
  algorithm = ecdsa_p256_sha256;
  ksk_roll_type = double_signature_ksk_roll;
  zsk_roll_type = pre_publish_zsk_roll;
  ksk_validity = some 500;
  zsk_validity = none;
  csk_validity = none;
  auto_ksk = on;
  auto_zsk = off;
  auto_csk = off;
  auto_algorithm = off;
  dnskey_inception_offset = 10;
  dnskey_signature_lifetime = 100;
  dnskey_remain_time = 50;
  cds_inception_offset = 10;
  cds_signature_lifetime = 100;
  cds_remain_time = 50;
  ds_algorithm = sha256;
  default_ttl = 3600;
  autoremove = true;
  autoremove_delay = 60;
  update_ds_command = [];
  faketime = none;
  tsig_store_path = none;
  nameservers = [];
}

-- A key set is the list of its keys here; its only roll is a ZSK roll.
abbrev pub Keys : Type 0
Keys = List (String × Key)

abbrev pub toy_keyset : KeySet Keys
toy_keyset = record {
  keys = λ k. k;
  rollstates = λ k. (zsk_roll, done) ∷ [];
  actions = λ k r. update_dnskey_rrset ∷ [];
  start_roll = λ k r old new. (ok (update_dnskey_rrset ∷ []), k);
  propagation1_complete = λ k r ttl. (ok [], k);
  propagation2_complete = λ k r ttl. (ok [], k);
  cache_expired1 = λ k r. (err (wait 5), k);
  cache_expired2 = λ k r. (ok [], k);
  roll_done = λ k r. (ok [], k);
  delete_key = λ k u. (ok tt, k);
  set_stale = λ k u. (ok tt, k);
  add_key_ksk = λ k u p a t now. (ok tt, k);
  add_key_zsk = λ k u p a t now. (ok tt, k);
  add_key_csk = λ k u p a t now. (ok tt, k);
}

abbrev pub active : KeyState
active = record { stale = false; present = true; signer = true; at_parent = true }

abbrev pub old_ksk : Key
old_ksk = record {
  keytype = ksk active;
  algorithm = 13;
  key_tag = 4711;
  privref = some "file:///keys/old.private";
  published = some 100;
  withdrawn = none;
}

abbrev pub space : WorkSpace Keys ℕ
space = record {
  config = config;
  state = record {
    keyset = ("file:///keys/old.key", old_ksk) ∷ [];
    dnskey_rrset = [];
    ds_rrset = [];
    cds_rrset = [];
    ns_rrset = [];
    apex_remove = [];
    apex_extra = [];
    cron_next = none;
    internal = [];
  };
  config_changed = false;
  state_changed = false;
  run_update_ds_command = false;
}

abbrev ksk_state : KeyType → Option KeyState
ksk_state (ksk s) = some s
ksk_state _ = none

abbrev not_zsk : RollType → Bool
not_zsk zsk_roll = false
not_zsk _ = true

abbrev machine : Machine Keys ℕ ℕ
machine = record { space = space; world = 0 }

abbrev start : Run (Machine Keys ℕ ℕ) (List Action)
start m = (ok (update_dnskey_rrset ∷ []), m)

auto_start_lem_example :
    auto_start toy_keyset 1000 (some 500) on not_zsk ksk_state start machine ≡ (
      if true
        && (not (any {A = RollType × RollState} (λ (r, _). not_zsk r) ((zsk_roll, done) ∷ []))
            && any (expired 1000 500 ksk_state) (("file:///keys/old.key", old_ksk) ∷ []))
      then started (start machine)
      else (ok tt, machine))
auto_start_lem_example = auto_start_lem toy_keyset 1000 500 on not_zsk ksk_state start machine

auto_start-cron_next_example :
    auto_start toy_keyset 1000 (some 500) on not_zsk ksk_state start machine ≡ (
      if any
        (before 1000)
        (cron_next_auto_start toy_keyset (some 500) on space.state not_zsk ksk_state [])
      then started (start machine)
      else (ok tt, machine))
auto_start-cron_next_example =
    auto_start-cron_next toy_keyset 1000 500 on not_zsk ksk_state start machine
