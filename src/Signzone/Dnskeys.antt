-- ===== src/Signzone/Dnskeys.antt =====
-- The DNSKEY records of a signed zone and the signatures at its apex (src/commands/signzone.rs,
-- execute).
pub mod Added
use dnst.Base.{
  ℕ, ◌≡◌, String, Bool, true, false, Option, none, some, List, [], ◌∷◌, ◌++◌, map, any, Result, ok,
  err, ◌>>=◌, if◌then◌else◌, Eq,
}
use dnst.Dns.{Rtype, Class}
use dnst.Signzone.{StoredRecord, Rdata, soa, dnskey, rrsig, zonemd, other, SignZone}
use dnst.Signzone.Keys.{KeyLibrary}
use dnst.Signzone.Zonemd.{ZoneLibrary}

-- The TTL of the zone's DNSKEY records, or that of the SOA record.
abbrev pub dnskey_ttl_of : {Name Dnskey : Type 0} → ℕ → List (StoredRecord Name Dnskey) → ℕ
dnskey_ttl_of default_ttl [] = default_ttl
dnskey_ttl_of default_ttl (r ∷ rrset) = r.ttl

module _ {Name Dnskey Key : Type 0} ⦃key_eq : Eq Dnskey⦄ (lib : KeyLibrary Dnskey Key) where
  abbrev pub is_key : Dnskey → StoredRecord Name Dnskey → Bool
  is_key pubkey r = elim r.rdata [
    | dnskey k ↦ key_eq.beq k pubkey
    | soa _ ↦ false
    | rrsig _ _ ↦ false
    | zonemd _ _ _ _ ↦ false
    | other _ _ ↦ false
  ]

  -- The record of a key that the zone's record set does not have.
  abbrev pub extra_record : Name → Class → ℕ → Key → StoredRecord Name Dnskey
  extra_record apex apex_class dnskey_ttl k = record {
    owner = apex;
    class_ = apex_class;
    ttl = dnskey_ttl;
    rdata = dnskey (lib.dnskey k);
  }

  unfoldable pub extra_records :
      Name
      → Class
      → ℕ
      → List (StoredRecord Name Dnskey)
      → List Key
      → List (StoredRecord Name Dnskey)
  extra_records apex apex_class dnskey_ttl rrset [] = []
  extra_records apex apex_class dnskey_ttl rrset (k ∷ keys) =
      let rest = extra_records apex apex_class dnskey_ttl rrset keys in
      if any (is_key (lib.dnskey k)) rrset
      then rest
      else extra_record apex apex_class dnskey_ttl k ∷ rest

  unfoldable pub dnskey_extra :
      SignZone Name
      → Name
      → Class
      → ℕ
      → List (StoredRecord Name Dnskey)
      → List Key
      → List (StoredRecord Name Dnskey)
  unfolding extra_records
  dnskey_extra o apex apex_class default_ttl rrset keys =
      if o.do_not_add_keys_to_zone
      then []
      else extra_records apex apex_class (dnskey_ttl_of default_ttl rrset) rrset keys

  -- The DNSKEY record set that is signed.
  unfoldable pub all_dnskeys :
      SignZone Name
      → Name
      → Class
      → ℕ
      → List (StoredRecord Name Dnskey)
      → List Key
      → List (StoredRecord Name Dnskey)
  unfolding dnskey_extra extra_records
  all_dnskeys o apex apex_class default_ttl rrset keys =
      rrset ++ dnskey_extra o apex apex_class default_ttl rrset keys

-- `sign` is sign_rrset: the signature of a key over a record set. Signatures of an empty set are none.
module _ {Name Dnskey Key : Type 0}
    (sign : Key → List (StoredRecord Name Dnskey) → StoredRecord Name Dnskey) where
  unfoldable pub signatures :
      List Key → List (StoredRecord Name Dnskey) → List (StoredRecord Name Dnskey)
  signatures keys [] = []
  signatures keys (r ∷ rrset) = map (λ k. sign k (r ∷ rrset)) keys

module _ {Name Dnskey Key : Type 0} (lib : ZoneLibrary Name Dnskey Key) where
  abbrev pub inserted_or_panic :
      Option (List (StoredRecord Name Dnskey)) → Result String (List (StoredRecord Name Dnskey))
  inserted_or_panic none = err "panic: should not fail"
  inserted_or_panic (some records) = ok records

  -- `records.insert(r).expect("should not fail")` for each record.
  unfoldable pub insert_new :
      List (StoredRecord Name Dnskey)
      → List (StoredRecord Name Dnskey)
      → Result String (List (StoredRecord Name Dnskey))
  insert_new [] records = ok records
  insert_new (r ∷ rrs) records = do
    more ← inserted_or_panic (lib.insert r records)
    insert_new rrs more

-- The apex: its name, class and default TTL, and the DNSKEY, CDS and CDNSKEY record sets there.
pub record Apex (Name Dnskey : Type 0) : Type 0 where
  pub name : Name
  pub apex_class : Class
  pub default_ttl : ℕ
  pub dnskeys : List (StoredRecord Name Dnskey)
  pub cds : List (StoredRecord Name Dnskey)
  pub cdnskeys : List (StoredRecord Name Dnskey)

-- The new records at the apex: the missing keys, and the signatures over the keys, CDS and CDNSKEY.
unfoldable pub apex_records :
    {Name Dnskey Key : Type 0}
    → ⦃key_eq : Eq Dnskey⦄ → KeyLibrary Dnskey Key
    → (Key → List (StoredRecord Name Dnskey) → StoredRecord Name Dnskey)
    → SignZone Name
    → Apex Name Dnskey
    → List Key
    → List Key
    → List (StoredRecord Name Dnskey)
unfolding dnskey_extra extra_records all_dnskeys signatures
apex_records lib sign o apex signing_keys key_signing_keys =
    dnskey_extra lib o apex.name apex.apex_class apex.default_ttl apex.dnskeys signing_keys
    ++ (signatures sign key_signing_keys
          (all_dnskeys lib o apex.name apex.apex_class apex.default_ttl apex.dnskeys signing_keys)
        ++ (signatures sign key_signing_keys apex.cds
            ++ signatures sign key_signing_keys apex.cdnskeys))
