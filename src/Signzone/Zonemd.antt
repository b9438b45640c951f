-- ===== src/Signzone/Zonemd.antt =====
-- The ZONEMD records of a zone (src/commands/signzone.rs): the digest of the SIMPLE scheme, the
-- placeholder, the records with the digests and the new signature, and their places around the
-- signing of the zone in execute.
pub mod Unchanged
pub mod Inserts
pub mod Verified
use Prim.Native.String.{◌++◌ as ◌<+>◌}
use dnst.Base.{
  ℕ, ◌==◌, ◌≡◌, String, Bool, true, false, ◌&&◌, ◌||◌, not, Option, none, some, List, [], ◌∷◌, ◌++◌,
  Result, ok, err, ◌>>=◌, if◌then◌else◌, Eq, is_some,
}
use dnst.Dns.{Rtype, Class}
use dnst.Signzone.{
  StoredRecord, Rdata, soa, dnskey, rrsig, zonemd, other, rtype, SigningMode, hash_and_sign,
  hash_only, no_signing, ZonemdTuple,
}

-- The library's operations on the sorted records of a zone, its signing and the digests. An insertion
-- of a record that is already there gives none.
pub record ZoneLibrary (Name Dnskey Key : Type 0) : Type 0 where
  pub insert :
      StoredRecord Name Dnskey
      → List (StoredRecord Name Dnskey)
      → Option (List (StoredRecord Name Dnskey))
  pub update_data :
      (StoredRecord Name Dnskey → Bool)
      → Rdata Name Dnskey
      → List (StoredRecord Name Dnskey)
      → List (StoredRecord Name Dnskey)
  pub remove_all : Name → Rtype → List (StoredRecord Name Dnskey) → List (StoredRecord Name Dnskey)
  pub remove_first :
      Name → Rtype → List (StoredRecord Name Dnskey) → List (StoredRecord Name Dnskey)
  pub is_in_zone : Name → Name → Bool
  pub compose_canonical : StoredRecord Name Dnskey → List ℕ
  pub sha384 : List ℕ → List ℕ
  pub sha512 : List ℕ → List ℕ
  pub sign_rrset :
      Name → List Key → List (StoredRecord Name Dnskey) → Result String (List (Rdata Name Dnskey))
  pub sign_zone :
      Name
      → List Key
      → List (StoredRecord Name Dnskey)
      → Result String (List (StoredRecord Name Dnskey))

abbrev pub is_zonemd : Rtype → Bool
is_zonemd t = elim t [ Rtype.zonemd ↦ true | _ ↦ false ]

abbrev pub covers_zonemd : {Name Dnskey : Type 0} → Rdata Name Dnskey → Bool
covers_zonemd data_ = elim data_ [
  | rrsig covered _ ↦ is_zonemd covered
  | soa _ ↦ false
  | dnskey _ ↦ false
  | zonemd _ _ _ _ ↦ false
  | other _ _ ↦ false
]

-- Failures of the library with a text in front, and the panic of an unwrap.
abbrev pub map_err : {A : Type 0} → String → Result String A → Result String A
map_err text (ok a) = ok a
map_err text (err e) = err (text <+> e)

abbrev pub last_or_panic : {A : Type 0} → List A → Result String A
last_or_panic [] = err "panic: called `Option::unwrap()` on a `None` value"
last_or_panic (x ∷ []) = ok x
last_or_panic (x ∷ y ∷ ys) = last_or_panic (y ∷ ys)

abbrev pub or_unchanged : {A : Type 0} → Option A → A → A
or_unchanged none a = a
or_unchanged (some b) a = b

abbrev pub is_empty : List ZonemdTuple → Bool
is_empty [] = true
is_empty (_ ∷ _) = false

module _ {Name Dnskey Key : Type 0} ⦃name_eq : Eq Name⦄ (lib : ZoneLibrary Name Dnskey Key) where
  -- A ZONEMD record at the apex, or a signature over one.
  abbrev pub is_skipped : Name → StoredRecord Name Dnskey → Bool
  is_skipped apex r =
      is_zonemd (rtype r) && name_eq.beq r.owner apex
      || covers_zonemd r.rdata && name_eq.beq r.owner apex

  abbrev pub is_digested : Name → StoredRecord Name Dnskey → Bool
  is_digested apex r = lib.is_in_zone apex r.owner && not (is_skipped apex r)

  unfoldable pub composed : Name → List (StoredRecord Name Dnskey) → List ℕ
  composed apex [] = []
  composed apex (r ∷ records) =
      let rest = composed apex records in
      if is_digested apex r then lib.compose_canonical r ++ rest else rest

  -- Algorithm 1 is SHA-384 and 2 is SHA-512.
  unfoldable pub create_zonemd_digest_simple :
      Name → List (StoredRecord Name Dnskey) → ℕ → Result String (List ℕ)
  unfolding composed
  create_zonemd_digest_simple apex records algorithm =
      if algorithm == 1
      then ok (lib.sha384 (composed apex records))
      else if algorithm == 2
      then ok (lib.sha512 (composed apex records))
      else err "unsupported zonemd hash algorithm"

  abbrev pub insert_or_ignore :
      StoredRecord Name Dnskey → List (StoredRecord Name Dnskey) → List (StoredRecord Name Dnskey)
  insert_or_ignore r records = or_unchanged (lib.insert r records) records

  abbrev pub placeholder_zonemd : Name → Class → ℕ → ℕ → StoredRecord Name Dnskey
  placeholder_zonemd apex apex_class soa_serial default_ttl = record {
    owner = apex;
    class_ = apex_class;
    ttl = default_ttl;
    rdata = zonemd soa_serial 0 0 [];
  }

  unfoldable pub replace_apex_zonemd_with_placeholder :
      Name → Class → ℕ → ℕ → List (StoredRecord Name Dnskey) → List (StoredRecord Name Dnskey)
  replace_apex_zonemd_with_placeholder apex apex_class soa_serial default_ttl records =
      insert_or_ignore (placeholder_zonemd apex apex_class soa_serial default_ttl)
        (lib.remove_all apex Rtype.zonemd records)

  abbrev pub zonemd_record : Name → Class → ℕ → ℕ → ZonemdTuple → List ℕ → StoredRecord Name Dnskey
  zonemd_record apex apex_class soa_serial default_ttl z digest = record {
    owner = apex;
    class_ = apex_class;
    ttl = default_ttl;
    rdata = zonemd soa_serial z.scheme z.algorithm digest;
  }

  -- Scheme 1 is SIMPLE.
  unfoldable pub create_zonemd_digest_and_records :
      Name
      → Class
      → ℕ
      → ℕ
      → List (StoredRecord Name Dnskey)
      → List ZonemdTuple
      → Result String (List (StoredRecord Name Dnskey))
  unfolding create_zonemd_digest_simple composed
  create_zonemd_digest_and_records apex apex_class soa_serial default_ttl records [] = ok []
  create_zonemd_digest_and_records apex apex_class soa_serial default_ttl records (z ∷ tuples) =
      let rest =
        create_zonemd_digest_and_records apex apex_class soa_serial default_ttl records tuples in
      do
        _ ←
            if z.scheme == 1
            then ok tt
            else err "unsupported zonemd scheme (only SIMPLE is supported)"
        digest ← create_zonemd_digest_simple apex records z.algorithm
        rrs ← rest
        ok (zonemd_record apex apex_class soa_serial default_ttl z digest ∷ rrs)

  abbrev pub is_apex_zonemd_rrsig : Name → StoredRecord Name Dnskey → Bool
  is_apex_zonemd_rrsig apex r = name_eq.beq r.owner apex && covers_zonemd r.rdata

  -- The last of the new signatures becomes the data of the signature over the ZONEMD records.
  unfoldable pub update_zonemd_rrsig :
      Name
      → List Key
      → List (StoredRecord Name Dnskey)
      → List (StoredRecord Name Dnskey)
      → Result String (List (StoredRecord Name Dnskey))
  update_zonemd_rrsig apex keys [] records = ok records
  update_zonemd_rrsig apex keys (r ∷ zonemd_rrs) records = do
    signatures ← lib.sign_rrset apex keys (r ∷ zonemd_rrs)
    signature ← last_or_panic signatures
    ok (lib.update_data (is_apex_zonemd_rrsig apex) signature records)

  unfoldable pub insert_all :
      List (StoredRecord Name Dnskey)
      → List (StoredRecord Name Dnskey)
      → List (StoredRecord Name Dnskey)
  insert_all [] records = records
  insert_all (r ∷ rrs) records = insert_all rrs (insert_or_ignore r records)

  -- The new signature, where the zone is signed.
  abbrev pub resigned :
      SigningMode
      → Name
      → List Key
      → List (StoredRecord Name Dnskey)
      → List (StoredRecord Name Dnskey)
      → Result String (List (StoredRecord Name Dnskey))
  resigned mode apex keys zonemd_rrs records = elim mode [
    | hash_and_sign ↦
        map_err "ZONEMD re-signing error: " (update_zonemd_rrsig apex keys zonemd_rrs records)
    | hash_only ↦ ok records
    | no_signing ↦ ok records
  ]

  -- The part of execute after the signing.
  unfoldable pub finish_zonemd :
      SigningMode
      → Name
      → Class
      → ℕ
      → ℕ
      → List Key
      → List ZonemdTuple
      → List (StoredRecord Name Dnskey)
      → Result String (List (StoredRecord Name Dnskey))
  unfolding create_zonemd_digest_and_records create_zonemd_digest_simple composed
      update_zonemd_rrsig insert_all
  finish_zonemd mode apex apex_class soa_serial default_ttl keys tuples signed =
      let records = lib.remove_first apex Rtype.zonemd signed in
      do
        zonemd_rrs ←
            create_zonemd_digest_and_records apex apex_class soa_serial default_ttl records tuples
        resigned mode apex keys zonemd_rrs (insert_all zonemd_rrs records)

  -- The placeholder, the signing, and the digests. `tuples` are the members of the set of tuples.
  unfoldable pub sign_records :
      SigningMode
      → Name
      → Class
      → ℕ
      → ℕ
      → List Key
      → List ZonemdTuple
      → List (StoredRecord Name Dnskey)
      → Result String (List (StoredRecord Name Dnskey))
  unfolding replace_apex_zonemd_with_placeholder finish_zonemd
  sign_records mode apex apex_class soa_serial default_ttl keys tuples records =
      let unsigned =
        if is_empty tuples
        then records
        else replace_apex_zonemd_with_placeholder apex apex_class soa_serial default_ttl records in
      do
        signed ← map_err "Signing failed: " (lib.sign_zone apex keys unsigned)
        (if is_empty tuples
            then ok signed
            else finish_zonemd mode apex apex_class soa_serial default_ttl keys tuples signed)
