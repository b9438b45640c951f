-- ===== src/Keyset/Types.antt =====
-- The vocabulary of key sets that src/commands/keyset/cmd.rs takes from the `domain` crate: the
-- cases that its matches name, and of a key what the accessors return that it calls. Times and
-- durations are numbers in one unit, counted from the Unix epoch.
use dnst.Base.{ℕ, String, Option, Bool}

pub data RollType : Type 0 where
  ksk_roll ksk_double_ds_roll zsk_roll zsk_double_signature_roll csk_roll algorithm_roll : RollType

pub data RollState : Type 0 where
  propagation1 propagation2 done : RollState
  cache_expire1 cache_expire2 : ℕ → RollState

pub data Action : Type 0 where
  update_dnskey_rrset create_cds_rrset remove_cds_rrset update_ds_rrset update_rrsig : Action
  report_dnskey_propagated report_ds_propagated report_rrsig_propagated : Action
  wait_dnskey_propagated wait_ds_propagated wait_rrsig_propagated : Action

-- What the methods `stale`, `present`, `signer` and `at_parent` answer.
pub record KeyState : Type 0 where
  pub stale : Bool
  pub present : Bool
  pub signer : Bool
  pub at_parent : Bool

pub data KeyType : Type 0 where
  ksk zsk include_key : KeyState → KeyType
  csk : KeyState → KeyState → KeyType

pub record Key : Type 0 where
  pub keytype : KeyType
  pub algorithm : ℕ
  pub key_tag : ℕ
  pub privref : Option String
  pub published : Option ℕ
  pub withdrawn : Option ℕ
