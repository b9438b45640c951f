-- ===== src/Signzone/Zonemd/Verified.antt =====
-- The digests in the ZONEMD records of a finished zone (src/commands/signzone.rs).
use mathlib.Core.Path.{subst}
use dnst.Base.{
  ℕ, ◌==◌, ◌≡◌, All-weaken, refl, ap, ◌∙◌, ◌⊎◌, inl, inr, String, true, false, List, [], ◌∷◌,
  Result, ok, err, >>=-eq-ok, ok-eq, if◌then◌else◌, Eq, All, arith,
}
use dnst.Dns.{Rtype, Class}
use dnst.Signzone.{
  StoredRecord, Rdata, zonemd, rtype, SigningMode, hash_and_sign, hash_only, no_signing,
  ZonemdTuple,
}
use dnst.Signzone.Zonemd.{
  ZoneLibrary, is_zonemd, covers_zonemd, map_err, last_or_panic, is_skipped, composed,
  create_zonemd_digest_simple, create_zonemd_digest_and_records, zonemd_record,
  is_apex_zonemd_rrsig, update_zonemd_rrsig, insert_all, resigned, finish_zonemd,
  replace_apex_zonemd_with_placeholder, sign_records,
}
use dnst.Signzone.Zonemd.Unchanged.{Holds, Has, Updated, CoversZonemd, ZoneLaws, update-composed}
use dnst.Signzone.Zonemd.Inserts.{update_keeps, insert_all-composed, insert_all_there}

module _ {Name Dnskey Key : Type 0} ⦃name_eq : Eq Name⦄ (lib : ZoneLibrary Name Dnskey Key)
    (apex : Name) (soa_serial : ℕ) where
  -- A zone has the record with the digest of another, or of itself.
  abbrev pub Verifies :
      List (StoredRecord Name Dnskey) → List (StoredRecord Name Dnskey) → ZonemdTuple → Type 0
  Verifies digested records z =
      (digest : List ℕ) × (z.scheme ≡ 1)
      × (create_zonemd_digest_simple lib apex digested z.algorithm ≡ ok digest)
      × Has apex (zonemd soa_serial z.scheme z.algorithm digest) records

  abbrev IsApexZonemd : StoredRecord Name Dnskey → Type 0
  IsApexZonemd r = (r.owner ≡ apex) × (is_zonemd (rtype r) ≡ true)

  scheme-one :
      (scheme : ℕ) (text : String)
      → ◌≡◌ {A = Result String Unit} (if scheme == 1 then ok tt else err text) (ok tt)
      → scheme ≡ 1
  scheme-one scheme text h = ground (arith, h)

  simple-eq :
      (records more : List (StoredRecord Name Dnskey)) (algorithm : ℕ)
      → composed lib apex records ≡ composed lib apex more
      → create_zonemd_digest_simple lib apex records algorithm
        ≡ create_zonemd_digest_simple lib apex more algorithm
  unfolding create_zonemd_digest_simple
  simple-eq records more algorithm e =
      ap
        (λ octets.
          if algorithm == 1
          then ok (lib.sha384 octets)
          else if algorithm == 2
          then ok (lib.sha512 octets)
          else err "unsupported zonemd hash algorithm")
        e

  abbrev Makes :
      List (StoredRecord Name Dnskey) → List ZonemdTuple → List (StoredRecord Name Dnskey) → Type 0
  Makes records tuples rrs = All (Verifies records rrs) tuples × All IsApexZonemd rrs

  created-step :
      (apex_class : Class) (default_ttl : ℕ) (records : List (StoredRecord Name Dnskey))
      (z : ZonemdTuple) (tuples : List ZonemdTuple) (digest : List ℕ)
      (rrs : List (StoredRecord Name Dnskey))
      → z.scheme ≡ 1
      → create_zonemd_digest_simple lib apex records z.algorithm ≡ ok digest
      → Makes records tuples rrs
      → Makes records
          (z ∷ tuples)
          (zonemd_record lib apex apex_class soa_serial default_ttl z digest ∷ rrs)
  created-step apex_class default_ttl records z tuples digest rrs e f (verified, at_apex) =
      let r = zonemd_record lib apex apex_class soa_serial default_ttl z digest in
      (
        (
          (digest, e, f, inl (refl, refl)),
          All-weaken (Verifies records rrs) (Verifies records (r ∷ rrs)) tuples
              (λ x (digest', e', f', has). (digest', e', f', inr has)) verified,
        ),
        ((refl, refl), at_apex),
      )

  created :
      (apex_class : Class) (default_ttl : ℕ) (records : List (StoredRecord Name Dnskey))
      (tuples : List ZonemdTuple) {rrs : List (StoredRecord Name Dnskey)}
      → create_zonemd_digest_and_records lib apex apex_class soa_serial default_ttl records tuples
        ≡ ok rrs
      → Makes records tuples rrs
  unfolding create_zonemd_digest_and_records
  created apex_class default_ttl records [] {rrs} h = subst (Makes records []) (ok-eq h) (tt, tt)
  created apex_class default_ttl records (z ∷ tuples) {rrs} h =
      let (_, tested, h1) =
        >>=-eq-ok
          (if z.scheme == 1
            then ok tt
            else err "unsupported zonemd scheme (only SIMPLE is supported)")
          _ h in
      let (digest, digested, h2) =
        >>=-eq-ok (create_zonemd_digest_simple lib apex records z.algorithm) _ h1 in
      let (more, made, h3) =
        >>=-eq-ok
          (create_zonemd_digest_and_records lib apex apex_class soa_serial default_ttl records
            tuples)
          _ h2 in
      subst (Makes records (z ∷ tuples)) (ok-eq h3) (
        created-step apex_class default_ttl records z tuples digest more
          (scheme-one z.scheme _ tested) digested
          (created apex_class default_ttl records tuples made))

  apex_skipped : (r : StoredRecord Name Dnskey) → IsApexZonemd r → is_skipped lib apex r ≡ true
  apex_skipped r (e, t) = let same = name_eq.beq_iff r.owner apex in ground (arith, t, same.1 e)

  last-covers :
      (signatures : List (Rdata Name Dnskey)) {d : Rdata Name Dnskey}
      → All (λ x. covers_zonemd x ≡ true) signatures
      → last_or_panic signatures ≡ ok d
      → covers_zonemd d ≡ true
  last-covers [] h e = cc
  last-covers (x ∷ []) h e = subst (λ y. covers_zonemd y ≡ true) (ok-eq e) h.0
  last-covers (x ∷ y ∷ ys) h e = last-covers (y ∷ ys) h.1 e

  map_err-ok :
      {A : Type 0} (text : String) (r : Result String A) {a : A} → map_err text r ≡ ok a → r ≡ ok a
  map_err-ok text (ok b) h = h
  map_err-ok text (err e) h = cc

  module _ (laws : ZoneLaws lib) where
    update_outcome :
        (keys : List Key) (rrs records : List (StoredRecord Name Dnskey))
        {final : List (StoredRecord Name Dnskey)}
        → All IsApexZonemd rrs
        → update_zonemd_rrsig lib apex keys rrs records ≡ ok final
        → (records ≡ final)
          ⊎ ((d : Rdata Name Dnskey) × (covers_zonemd d ≡ true)
              × Updated (is_apex_zonemd_rrsig lib apex) d records final)
    unfolding update_zonemd_rrsig
    update_outcome keys [] records at_apex h = inl (ok-eq h)
    update_outcome keys (r ∷ rrs) records at_apex h =
        let (signatures, signed, h1) = >>=-eq-ok (lib.sign_rrset apex keys (r ∷ rrs)) _ h in
        let (d, popped, h2) = >>=-eq-ok (last_or_panic signatures) _ h1 in
        let covers = laws.signs apex keys (r ∷ rrs) (
          All-weaken IsApexZonemd (λ x. is_zonemd (rtype x) ≡ true) (r ∷ rrs) (λ x p. p.1)
            at_apex) in
        inr (
          d,
          last-covers signatures (subst CoversZonemd signed covers) popped,
          subst (Updated (is_apex_zonemd_rrsig lib apex) d records) (ok-eq h2)
              (laws.updates (is_apex_zonemd_rrsig lib apex) d records),
        )

    -- A zone with the same digests that keeps the data of another's ZONEMD records.
    abbrev Keeps : List (StoredRecord Name Dnskey) → List (StoredRecord Name Dnskey) → Type 0
    Keeps records final =
        (composed lib apex final ≡ composed lib apex records)
        × ((z : ZonemdTuple) (digest : List ℕ)
            → Has apex (zonemd soa_serial z.scheme z.algorithm digest) records
            → Has apex (zonemd soa_serial z.scheme z.algorithm digest) final)

    not_chosen :
        (z : ZonemdTuple) (digest : List ℕ) (x : StoredRecord Name Dnskey)
        → Holds apex (zonemd soa_serial z.scheme z.algorithm digest) x
        → is_apex_zonemd_rrsig lib apex x ≡ false
    not_chosen z digest x (e, f) = ground (arith, ap covers_zonemd f)

    update-Keeps :
        (keys : List Key) (rrs records : List (StoredRecord Name Dnskey))
        {final : List (StoredRecord Name Dnskey)}
        → All IsApexZonemd rrs
        → update_zonemd_rrsig lib apex keys rrs records ≡ ok final
        → Keeps records final
    update-Keeps keys rrs records {final} at_apex h =
        elim (update_outcome keys rrs records at_apex h) [
          | inl e ↦ subst (Keeps records) e (refl, λ z digest has. has)
          | inr (d, covers, updated) ↦ (
            update-composed lib apex d records final covers updated,
            λ z digest has.
                update_keeps apex (zonemd soa_serial z.scheme z.algorithm digest)
                  (is_apex_zonemd_rrsig lib apex) d records final (not_chosen z digest) updated has,
          )
        ]

    resigned-Keeps :
        (mode : SigningMode) (keys : List Key) (rrs records : List (StoredRecord Name Dnskey))
        {final : List (StoredRecord Name Dnskey)}
        → All IsApexZonemd rrs
        → resigned lib mode apex keys rrs records ≡ ok final
        → Keeps records final
    resigned-Keeps hash_and_sign keys rrs records at_apex h =
        update-Keeps keys rrs records at_apex
          (map_err-ok "ZONEMD re-signing error: " (update_zonemd_rrsig lib apex keys rrs records) h)
    resigned-Keeps hash_only keys rrs records at_apex h =
        subst (Keeps records) (ok-eq h) (refl, λ z digest has. has)
    resigned-Keeps no_signing keys rrs records at_apex h =
        subst (Keeps records) (ok-eq h) (refl, λ z digest has. has)

    Keeps-Verifies :
        (records final rrs : List (StoredRecord Name Dnskey)) (tuples : List ZonemdTuple)
        → All IsApexZonemd rrs
        → Keeps (insert_all lib rrs records) final
        → All (Verifies records rrs) tuples
        → All (Verifies final final) tuples
    Keeps-Verifies records final rrs tuples at_apex (same, keeps) verified =
        let skipped =
          All-weaken IsApexZonemd (λ x. is_skipped lib apex x ≡ true) rrs apex_skipped at_apex in
        let e = same ∙ insert_all-composed lib apex laws rrs records skipped in
        All-weaken (Verifies records rrs) (Verifies final final) tuples
          (λ z (digest, simple, digested, has). (
            digest,
            simple,
            simple-eq final records z.algorithm e ∙ digested,
            keeps z digest (
                insert_all_there lib apex laws apex (zonemd soa_serial z.scheme z.algorithm digest)
                  rrs records has),
          ))
          verified

    finish_zonemd-Verifies :
        (mode : SigningMode) (apex_class : Class) (default_ttl : ℕ) (keys : List Key)
        (tuples : List ZonemdTuple) (signed : List (StoredRecord Name Dnskey))
        {final : List (StoredRecord Name Dnskey)}
        → finish_zonemd lib mode apex apex_class soa_serial default_ttl keys tuples signed
          ≡ ok final
        → All (Verifies final final) tuples
    unfolding finish_zonemd
    finish_zonemd-Verifies mode apex_class default_ttl keys tuples signed {final} h =
        let records = lib.remove_first apex Rtype.zonemd signed in
        let (rrs, made, h1) =
          >>=-eq-ok
            (create_zonemd_digest_and_records lib apex apex_class soa_serial default_ttl records
              tuples)
            _ h in
        let (verified, at_apex) = created apex_class default_ttl records tuples made in
        Keeps-Verifies records final rrs tuples at_apex
          (resigned-Keeps mode keys rrs (insert_all lib rrs records) at_apex h1) verified

    -- A zone that is finished has, for every scheme and algorithm asked for, a ZONEMD record at the
    -- apex with the serial of the SOA, the scheme SIMPLE and the digest that the finished zone itself
    -- has, with its ZONEMD records and their signatures in place.
    pub sign_records-Verifies :
        (mode : SigningMode) (apex_class : Class) (default_ttl : ℕ) (keys : List Key)
        (tuples : List ZonemdTuple) (records : List (StoredRecord Name Dnskey))
        {final : List (StoredRecord Name Dnskey)}
        → sign_records lib mode apex apex_class soa_serial default_ttl keys tuples records
          ≡ ok final
        → All (Verifies final final) tuples
    unfolding sign_records
    sign_records-Verifies mode apex_class default_ttl keys [] records h = tt
    sign_records-Verifies mode apex_class default_ttl keys (z ∷ tuples) records h =
        let unsigned =
          replace_apex_zonemd_with_placeholder lib apex apex_class soa_serial default_ttl records in
        let (signed, _, h1) =
          >>=-eq-ok (map_err "Signing failed: " (lib.sign_zone apex keys unsigned)) _ h in
        finish_zonemd-Verifies mode apex_class default_ttl keys (z ∷ tuples) signed h1
