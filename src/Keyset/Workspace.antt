-- ===== src/Keyset/Workspace.antt =====
-- The configuration, the state and the work space of src/commands/keyset/cmd.rs, and what the
-- command takes from the key set of the `domain` crate. Paths, names of nameservers and the like
-- are texts; a record set is the list of its records in zone file format.
use dnst.Base.{ℕ, String, Bool, Option, List, Result}
use dnst.Dns.{Rtype}
use dnst.Keyset.Types.{RollType, RollState, Action, Key}
use dnst.Keyset.Report.{ReportState}

pub data KskRollType : Type 0 where
  double_signature_ksk_roll double_ds_ksk_roll : KskRollType

pub data ZskRollType : Type 0 where
  pre_publish_zsk_roll double_signature_zsk_roll : ZskRollType

pub record AutoConfig : Type 0 where
  pub start : Bool
  pub report : Bool
  pub expire : Bool
  pub done : Bool

pub data KeyParameters : Type 0 where
  rsa_sha256 rsa_sha512 : ℕ → KeyParameters
  ecdsa_p256_sha256 ecdsa_p384_sha384 ed25519 ed448 : KeyParameters

pub data DsAlgorithm : Type 0 where
  sha256 sha384 : DsAlgorithm

pub record NameserverConnectionDetails : Type 0 where
  pub addr : String
  pub tsig_key_name : Option String

pub record KeySetConfig : Type 0 where
  pub state_file : String
  pub keys_dir : String
  pub use_csk : Bool
  pub algorithm : KeyParameters
  pub ksk_roll_type : KskRollType
  pub zsk_roll_type : ZskRollType
  pub ksk_validity : Option ℕ
  pub zsk_validity : Option ℕ
  pub csk_validity : Option ℕ
  pub auto_ksk : AutoConfig
  pub auto_zsk : AutoConfig
  pub auto_csk : AutoConfig
  pub auto_algorithm : AutoConfig
  pub dnskey_inception_offset : ℕ
  pub dnskey_signature_lifetime : ℕ
  pub dnskey_remain_time : ℕ
  pub cds_inception_offset : ℕ
  pub cds_signature_lifetime : ℕ
  pub cds_remain_time : ℕ
  pub ds_algorithm : DsAlgorithm
  pub default_ttl : ℕ
  pub autoremove : Bool
  pub autoremove_delay : ℕ
  pub update_ds_command : List String
  pub faketime : Option ℕ
  pub tsig_store_path : Option String
  pub nameservers : List NameserverConnectionDetails

-- The report states of the three steps of a roll.
pub record RollStateReports (Name : Type 0) : Type 0 where
  pub propagation1 : ReportState Name
  pub propagation2 : ReportState Name
  pub done : ReportState Name

-- `internal` is the map from rolls to their reports, as a list of pairs.
pub record KeySetState (K Name : Type 0) : Type 0 where
  pub keyset : K
  pub dnskey_rrset : List String
  pub ds_rrset : List String
  pub cds_rrset : List String
  pub ns_rrset : List String
  pub apex_remove : List Rtype
  pub apex_extra : List String
  pub cron_next : Option ℕ
  pub internal : List (RollType × RollStateReports Name)

pub record WorkSpace (K Name : Type 0) : Type 0 where
  pub config : KeySetConfig
  pub state : KeySetState K Name
  pub config_changed : Bool
  pub state_changed : Bool
  pub run_update_ds_command : Bool

-- The errors of the key set: to wait some time longer, or any other.
pub data KeySetError : Type 0 where
  wait : ℕ → KeySetError
  other : String → KeySetError

-- The methods of the key set that the command calls. One that takes `&mut self` gives the key set
-- after the call beside its result.
pub record KeySet (K : Type 0) : Type 0 where
  pub keys : K → List (String × Key)
  pub rollstates : K → List (RollType × RollState)
  pub actions : K → RollType → List Action
  pub start_roll : K → RollType → List String → List String → Result KeySetError (List Action) × K
  pub propagation1_complete : K → RollType → ℕ → Result KeySetError (List Action) × K
  pub propagation2_complete : K → RollType → ℕ → Result KeySetError (List Action) × K
  pub cache_expired1 : K → RollType → Result KeySetError (List Action) × K
  pub cache_expired2 : K → RollType → Result KeySetError (List Action) × K
  pub roll_done : K → RollType → Result KeySetError (List Action) × K
  pub delete_key : K → String → Result KeySetError (Unit {0}) × K
  pub set_stale : K → String → Result KeySetError (Unit {0}) × K
  pub add_key_ksk : K → String → Option String → ℕ → ℕ → ℕ → Result KeySetError (Unit {0}) × K
  pub add_key_zsk : K → String → Option String → ℕ → ℕ → ℕ → Result KeySetError (Unit {0}) × K
  pub add_key_csk : K → String → Option String → ℕ → ℕ → ℕ → Result KeySetError (Unit {0}) × K
