-- ===== src/Signzone/Load.antt =====
-- Loading a zone (src/commands/signzone.rs): load_zone, find_apex and mk_bumped_soa_rdata, and the
-- arguments that execute looks at first. The reader of zone files, the sorting of records and the
-- arithmetic of serials belong to the `domain` crate.
pub mod Clean
pub mod Bumped
use Prim.Native.String.{◌++◌ as ◌<+>◌}
use dnst.Base.{
  ℕ, ◌==◌, String, Bool, true, false, ◌&&◌, not, Option, none, some, List, [], ◌∷◌, Result, ok, err,
  ◌>>=◌, leb, if◌then◌else◌, Eq,
}
use dnst.Dns.{Rtype, Soa}
use dnst.Signzone.{
  StoredRecord, Rdata, soa, dnskey, rrsig, zonemd, other, rtype, SignZone, SigningMode,
  hash_and_sign, hash_only, no_signing,
}
use dnst.Signzone.Zonemd.{is_zonemd}

-- What the reader of a zone file gives, entry by entry.
pub data Entry (Name Dnskey : Type 0) : Type 0 where
  a_record : StoredRecord Name Dnskey → Entry Name Dnskey
  include : Entry Name Dnskey
  invalid : String → Entry Name Dnskey

abbrev pub is_denial_or_signature : Rtype → Bool
is_denial_or_signature t = elim t [
  | Rtype.rrsig ↦ true
  | Rtype.nsec ↦ true
  | Rtype.nsec3 ↦ true
  | Rtype.nsec3param ↦ true
  | _ ↦ false
]

abbrev pub is_soa : Rtype → Bool
is_soa t = elim t [ Rtype.soa ↦ true | _ ↦ false ]

abbrev pub signing_mode : {Name : Type 0} → SignZone Name → Result String SigningMode
signing_mode o =
    if o.hash_only
    then elim o.key_paths [
      | [] ↦ ok hash_only
      | _ ∷ _ ↦ err "Key paths are not expected when using '-H'"
    ]
    else if o.allow_zonemd_without_signing
    then ok no_signing
    else ok hash_and_sign

pub data IterationsWarning : Type 0 where
  extreme large non_zero : IterationsWarning

unfoldable pub iterations_warning : {Name : Type 0} → SignZone Name → Option IterationsWarning
iterations_warning o =
    if leb 500 o.iterations
    then some extreme
    else if leb 100 o.iterations && o.invoked_as_ldns
    then some large
    else if leb 1 o.iterations && not o.invoked_as_ldns
    then some non_zero
    else none

abbrev pub no_soa : {Name : Type 0} → Option Name → String
no_soa none = "Invalid zone file: Cannot find SOA record"
no_soa (some origin) = "SOA record not found for origin"

abbrev pub is_origin : {Name : Type 0} → ⦃name_eq : Eq Name⦄ → Option Name → Name → Bool
is_origin none name = true
is_origin ⦃name_eq⦄ (some origin) name = name_eq.beq name origin

module _ {Name Dnskey : Type 0} ⦃name_eq : Eq Name⦄ where
  -- A record is stripped: ZONEMD at the origin, or anywhere without an origin, and the types that
  -- signing makes.
  abbrev pub is_stripped : Option Name → StoredRecord Name Dnskey → Bool
  is_stripped origin r =
      if is_zonemd (rtype r) && is_origin origin r.owner
      then true
      else is_denial_or_signature (rtype r)

  abbrev pub push_record :
      Option Name
      → StoredRecord Name Dnskey
      → List (StoredRecord Name Dnskey)
      → List (StoredRecord Name Dnskey)
  push_record origin r records = if is_stripped origin r then records else r ∷ records

  unfoldable pub load_entries :
      Option Name → List (Entry Name Dnskey) → Result String (List (StoredRecord Name Dnskey))
  load_entries origin [] = ok []
  load_entries origin (a_record r ∷ entries) = do
    records ← load_entries origin entries
    ok (push_record origin r records)
  load_entries origin (include ∷ entries) =
      err "Invalid zone file: $INCLUDE directive is not supported"
  load_entries origin (invalid e ∷ entries) = err ("Invalid zone file: " <+> e)

  unfoldable pub load_zone :
      (List (StoredRecord Name Dnskey) → List (StoredRecord Name Dnskey))
      → Option Name
      → List (Entry Name Dnskey)
      → Result String (List (StoredRecord Name Dnskey))
  unfolding load_entries
  load_zone sorted origin entries = do records ← load_entries origin entries; ok (sorted records)

  abbrev pub choose_soa :
      Option Name
      → StoredRecord Name Dnskey
      → Rdata Name Dnskey
      → Result String (StoredRecord Name Dnskey × Soa Name)
      → Result String (StoredRecord Name Dnskey × Soa Name)
  choose_soa origin r (soa s) rest = if is_origin origin r.owner then ok (r, s) else rest
  choose_soa origin r (dnskey _) rest = rest
  choose_soa origin r (rrsig _ _) rest = rest
  choose_soa origin r (zonemd _ _ _ _) rest = rest
  choose_soa origin r (other _ _) rest = rest

  -- The first SOA record, of the origin where one is given, as the record and its data.
  unfoldable pub find_apex :
      List (StoredRecord Name Dnskey)
      → Option Name
      → Result String (StoredRecord Name Dnskey × Soa Name)
  find_apex [] origin = err (no_soa origin)
  find_apex (r ∷ records) origin = choose_soa origin r r.rdata (find_apex records origin)

-- Serials, as numbers below 2^32: whether one is greater, and the addition.
pub record SerialLibrary : Type 0 where
  pub greater : ℕ → ℕ → Bool
  pub add : ℕ → ℕ → ℕ

-- `now` is the time in seconds since the epoch.
unfoldable pub mk_bumped_soa_rdata : {Name : Type 0} → SerialLibrary → ℕ → Soa Name → Soa Name
mk_bumped_soa_rdata serials now old = record {
  mname = old.mname;
  rname = old.rname;
  serial = if serials.greater now old.serial then now else serials.add old.serial 1;
  refresh = old.refresh;
  retry = old.retry;
  expire = old.expire;
  minimum = old.minimum;
}
