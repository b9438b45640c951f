-- ===== src/Keyset/Rolls.antt =====
-- Starting key rolls and their subcommands (src/commands/keyset/cmd.rs): start_ksk_roll,
-- start_zsk_roll, start_csk_roll, start_algorithm_roll, new_csk_or_ksk_zsk, roll_command and
-- roll_variant_to_roll. The clock is read once for a command. The printed output is left out.
pub mod Commands
pub mod Started
pub mod Added
pub mod Variants
pub mod Commanded
use dnst.Base.{
  ℕ, String, Bool, true, false, not, Option, none, some, List, [], ◌∷◌, map, Result, ok, err, any,
  filter, if◌then◌else◌,
}
use dnst.Keyset.Types.{
  RollType, ksk_roll, ksk_double_ds_roll, zsk_roll, zsk_double_signature_roll, csk_roll,
  algorithm_roll, Action, KeyState, KeyType, ksk, zsk, csk, include_key, Key,
}
use dnst.Keyset.Report.{ReportState}
use dnst.Keyset.Workspace.{
  WorkSpace, KeySetState, KeySetConfig, KeySet, KeySetError, RollStateReports, KskRollType,
  double_signature_ksk_roll, double_ds_ksk_roll, ZskRollType, pre_publish_zsk_roll,
  double_signature_zsk_roll,
}
use dnst.Keyset.Run.{Machine, Run, ◌>>=◌, return, fail, on_space}
use dnst.Keyset.NewKeys.{Backend, new_keys, remove_key}
use dnst.Keyset.Rrsets.{KeyStore, handle_actions, insert, do_done}

pub data RollVariant : Type 0 where
  ksk_variant zsk_variant csk_variant algorithm_variant : RollVariant

pub data RollCommands : Type 0 where
  start_roll cache_expired1 cache_expired2 roll_done : RollCommands
  propagation1_complete propagation2_complete : ℕ → RollCommands

abbrev pub ksk_roll_of : KskRollType → RollType
ksk_roll_of double_signature_ksk_roll = ksk_roll
ksk_roll_of double_ds_ksk_roll = ksk_double_ds_roll

abbrev pub zsk_roll_of : ZskRollType → RollType
zsk_roll_of pre_publish_zsk_roll = zsk_roll
zsk_roll_of double_signature_zsk_roll = zsk_double_signature_roll

abbrev pub roll_variant_to_roll : RollVariant → KeySetConfig → RollType
roll_variant_to_roll ksk_variant config = ksk_roll_of config.ksk_roll_type
roll_variant_to_roll zsk_variant config = zsk_roll_of config.zsk_roll_type
roll_variant_to_roll csk_variant config = csk_roll
roll_variant_to_roll algorithm_variant config = algorithm_roll

-- The tests on the keys: whether a key is not stale, for keys of certain types.
abbrev pub csk_in_use : String × Key → Bool
csk_in_use (_, k) = elim k.keytype [
  | csk s _ ↦ not s.stale
  | ksk s ↦ false
  | zsk s ↦ false
  | include_key s ↦ false
]

abbrev pub ksk_in_use : String × Key → Bool
ksk_in_use (_, k) = elim k.keytype [
  | ksk s ↦ not s.stale
  | csk s _ ↦ false
  | zsk s ↦ false
  | include_key s ↦ false
]

abbrev pub zsk_in_use : String × Key → Bool
zsk_in_use (_, k) = elim k.keytype [
  | zsk s ↦ not s.stale
  | csk s _ ↦ false
  | ksk s ↦ false
  | include_key s ↦ false
]

abbrev pub key_in_use : String × Key → Bool
key_in_use (_, k) = elim k.keytype [
  | zsk s ↦ not s.stale
  | csk s _ ↦ not s.stale
  | ksk s ↦ not s.stale
  | include_key s ↦ false
]

abbrev pub names_of : (String × Key → Bool) → List (String × Key) → List String
names_of test keys = map (λ (name, _). name) (filter test keys)

abbrev pub is_empty : {A : Type 0} → List A → Bool
is_empty [] = true
is_empty (x ∷ xs) = false

-- The guards of a start: an error, or on to the rest.
abbrev pub require : {S : Type 0} → Bool → String → Run S (Unit {0})
require true e s = (ok tt, s)
require false e s = (err e, s)

-- The guards of a KSK and of a ZSK roll: no keys, `use_csk`, and a CSK that is in use.
abbrev pub split_guards : {S : Type 0} → Bool → Bool → Bool → Run S (Unit {0})
split_guards true use_csk found_csk s = (err "assertion failed: no keys", s)
split_guards false true found_csk s = (err "wrong key roll, use start-csk-roll", s)
split_guards false false true s = (err "cannot start roll, found CSK", s)
split_guards false false false s = (ok tt, s)

-- `Default::default()`.
abbrev pub no_reports : {Name : Type 0} → RollStateReports Name
no_reports = record {
  propagation1 = record { dnskey = none; ds = none; rrsig = none };
  propagation2 = record { dnskey = none; ds = none; rrsig = none };
  done = record { dnskey = none; ds = none; rrsig = none };
}

-- `map_err`.
abbrev pub map_err : {A : Type 0} → String → Result KeySetError A → Result String A
map_err e (err _) = err e
map_err e (ok a) = ok a

module _ {K Name : Type 0} where
  -- A method of the key set, with `?`.
  abbrev pub on_keyset :
      {A : Type 0} → String → (K → Result KeySetError A × K) → Run (WorkSpace K Name) A
  on_keyset e f ws =
      let (r, keyset) = f ws.state.keyset in
      (map_err e r, record ws { state = record ws.state { keyset = keyset } })

  -- `internal.insert(roll_type, Default::default())`.
  abbrev pub insert_reports : RollType → Run (WorkSpace K Name) (Unit {0})
  insert_reports r ws = (
    ok tt,
    record ws { state = record ws.state { internal = insert r no_reports ws.state.internal } },
  )

  abbrev pub set_changed : Run (WorkSpace K Name) (Unit {0})
  set_changed ws = (ok tt, record ws { state_changed = true })
