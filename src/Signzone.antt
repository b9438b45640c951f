-- ===== src/Signzone.antt =====
-- The command `signzone` (src/commands/signzone.rs). Names, record sets, keys, digests and the
-- signing of a zone belong to the `domain` crate and the system: they are parameters. The records of
-- a zone are a list in the order of the library's SortedRecords.
pub mod Keys
pub mod Zonemd
pub mod Load
pub mod Dnskeys
pub mod Output
use dnst.Base.{
  ℕ, String, Bool, true, false, Option, none, some, List, Result, ok, err, ltb, leb, if◌then◌else◌,
}
use dnst.Dns.{Rtype, Class, Soa}

-- Record data: the kinds that the code looks into, and any other data as its type and octets. Of a
-- signature there are the type that it covers and the rest.
pub data Rdata (Name Dnskey : Type 0) : Type 0 where
  soa : Soa Name → Rdata Name Dnskey
  dnskey : Dnskey → Rdata Name Dnskey
  rrsig : Rtype → List ℕ → Rdata Name Dnskey
  zonemd : (serial scheme algorithm : ℕ) → List ℕ → Rdata Name Dnskey
  other : Rtype → List ℕ → Rdata Name Dnskey

pub record StoredRecord (Name Dnskey : Type 0) : Type 0 where
  pub owner : Name
  pub class_ : Class
  pub ttl : ℕ
  pub rdata : Rdata Name Dnskey

abbrev pub rtype : {Name Dnskey : Type 0} → StoredRecord Name Dnskey → Rtype
rtype r = elim r.rdata [
  | soa _ ↦ Rtype.soa
  | dnskey _ ↦ Rtype.dnskey
  | rrsig _ _ ↦ Rtype.rrsig
  | zonemd _ _ _ _ ↦ Rtype.zonemd
  | other t _ ↦ t
]

pub data SigningMode : Type 0 where
  hash_and_sign hash_only no_signing : SigningMode

-- A scheme and an algorithm for a ZONEMD record.
pub record ZonemdTuple : Type 0 where
  pub scheme : ℕ
  pub algorithm : ℕ

-- The options of the command that the model reads.
pub record SignZone (Name : Type 0) : Type 0 where
  pub extra_comments : Bool
  pub do_not_add_keys_to_zone : Bool
  pub expiration : ℕ
  pub inception : ℕ
  pub origin : Option Name
  pub set_soa_serial_to_epoch_time : Bool
  pub use_nsec3 : Bool
  pub iterations : ℕ
  pub nsec3_opt_out : Bool
  pub hash_only : Bool
  pub allow_zonemd_without_signing : Bool
  pub zonemd : List ZonemdTuple
  pub sign_dnskeys_with_all_keys : Bool
  pub sign_with_every_unique_algorithm : Bool
  pub order_rrsigs_after_the_rtype_they_cover : Bool
  pub order_nsec3_rrs_by_unhashed_owner_name : Bool
  pub preceed_zone_with_hash_list : Bool
  pub use_yyyymmddhhmmss_rrsig_format : Bool
  pub key_paths : List String
  pub invoked_as_ldns : Bool
