-- ===== src/Signzone/Zonemd/Unchanged.antt =====
-- What leaves the digest of a zone unchanged (src/commands/signzone.rs).
use dnst.Base.{
  ◌≡◌, refl, sym, ap, ◌∙◌, ◌⊎◌, String, Bool, true, Option, none, some, List, [], ◌∷◌, ◌++◌, Result,
  ok, err, if◌then◌else◌, Eq, All, arith,
}
use dnst.Signzone.{StoredRecord, Rdata, rtype}
use dnst.Signzone.Zonemd.{
  ZoneLibrary, is_zonemd, covers_zonemd, is_skipped, is_digested, composed, is_apex_zonemd_rrsig,
}

module _ {Name Dnskey : Type 0} where
  abbrev pub Holds : Name → Rdata Name Dnskey → StoredRecord Name Dnskey → Type 0
  Holds apex data_ r = (r.owner ≡ apex) × (r.rdata ≡ data_)

  -- Some record of the zone has the owner and the data.
  abbrev pub Has : Name → Rdata Name Dnskey → List (StoredRecord Name Dnskey) → Type 0
  Has apex data_ [] = ⊥
  Has apex data_ (r ∷ records) = Holds apex data_ r ⊎ Has apex data_ records

  -- A record is put into a place of the zone, or one like it is there.
  pub data Inserted (r : StoredRecord Name Dnskey)
      : List (StoredRecord Name Dnskey) → List (StoredRecord Name Dnskey) → Type 0 where
    at : (records : List (StoredRecord Name Dnskey)) → Inserted r records (r ∷ records)
    after :
        (x : StoredRecord Name Dnskey) (records more : List (StoredRecord Name Dnskey))
        → Inserted r records more
        → Inserted r (x ∷ records) (x ∷ more)

  -- Data of chosen records are replaced, of all of them or of some.
  pub data Updated (chosen : StoredRecord Name Dnskey → Bool) (data_ : Rdata Name Dnskey)
      : List (StoredRecord Name Dnskey) → List (StoredRecord Name Dnskey) → Type 0 where
    ended : Updated chosen data_ [] []
    kept :
        (x : StoredRecord Name Dnskey) (records more : List (StoredRecord Name Dnskey))
        → Updated chosen data_ records more
        → Updated chosen data_ (x ∷ records) (x ∷ more)
    replaced :
        (x : StoredRecord Name Dnskey) (records more : List (StoredRecord Name Dnskey))
        → chosen x ≡ true
        → Updated chosen data_ records more
        → Updated chosen data_
            (x ∷ records)
            (record { owner = x.owner; class_ = x.class_; ttl = x.ttl; rdata = data_ } ∷ more)

  abbrev pub InsertOutcome :
      StoredRecord Name Dnskey
      → List (StoredRecord Name Dnskey)
      → Option (List (StoredRecord Name Dnskey))
      → Type 0
  InsertOutcome r records none = Has r.owner r.rdata records
  InsertOutcome r records (some more) = Inserted r records more

  -- Every signature of a successful signing covers ZONEMD.
  abbrev pub CoversZonemd : Result String (List (Rdata Name Dnskey)) → Type 0
  CoversZonemd (ok signatures) = All (λ d. covers_zonemd d ≡ true) signatures
  CoversZonemd (err e) = Unit

-- What the code relies on: an insertion adds the record or finds one like it, an update changes only
-- the data of chosen records, and the signatures over ZONEMD records cover that type.
pub record ZoneLaws {Name Dnskey Key : Type 0} (lib : ZoneLibrary Name Dnskey Key) : Type 0 where
  pub inserts :
      (r : StoredRecord Name Dnskey) (records : List (StoredRecord Name Dnskey))
      → InsertOutcome r records (lib.insert r records)
  pub updates :
      (chosen : StoredRecord Name Dnskey → Bool) (data_ : Rdata Name Dnskey)
      (records : List (StoredRecord Name Dnskey))
      → Updated chosen data_ records (lib.update_data chosen data_ records)
  pub signs :
      (apex : Name) (keys : List Key) (records : List (StoredRecord Name Dnskey))
      → All (λ r. is_zonemd (rtype r) ≡ true) records
      → CoversZonemd (lib.sign_rrset apex keys records)

module _ {Name Dnskey Key : Type 0} ⦃name_eq : Eq Name⦄ (lib : ZoneLibrary Name Dnskey Key)
    (apex : Name) where
  composed-skip :
      (r : StoredRecord Name Dnskey) (records : List (StoredRecord Name Dnskey))
      → is_skipped lib apex r ≡ true
      → composed lib apex (r ∷ records) ≡ composed lib apex records
  unfolding composed
  composed-skip r records e = ground (arith, e)

  composed-step :
      (r : StoredRecord Name Dnskey) (records more : List (StoredRecord Name Dnskey))
      → composed lib apex records ≡ composed lib apex more
      → composed lib apex (r ∷ records) ≡ composed lib apex (r ∷ more)
  unfolding composed
  composed-step r records more e =
      ap (λ rest. if is_digested lib apex r then lib.compose_canonical r ++ rest else rest) e

  pub insert-composed :
      (r : StoredRecord Name Dnskey) (records more : List (StoredRecord Name Dnskey))
      → is_skipped lib apex r ≡ true
      → Inserted r records more
      → composed lib apex more ≡ composed lib apex records
  insert-composed r records _ e (at _) = composed-skip r records e
  insert-composed r _ _ e (after x records more h) =
      composed-step x more records (insert-composed r records more e h)

  chosen_skipped :
      (r : StoredRecord Name Dnskey)
      → is_apex_zonemd_rrsig lib apex r ≡ true
      → is_skipped lib apex r ≡ true
  chosen_skipped r e = ground (arith, e)

  replaced_skipped :
      (r : StoredRecord Name Dnskey) (data_ : Rdata Name Dnskey)
      → is_apex_zonemd_rrsig lib apex r ≡ true
      → covers_zonemd data_ ≡ true
      → is_skipped lib apex
          (record { owner = r.owner; class_ = r.class_; ttl = r.ttl; rdata = data_ })
        ≡ true
  replaced_skipped r data_ e c = ground (arith, e, c)

  pub update-composed :
      (data_ : Rdata Name Dnskey) (records more : List (StoredRecord Name Dnskey))
      → covers_zonemd data_ ≡ true
      → Updated (is_apex_zonemd_rrsig lib apex) data_ records more
      → composed lib apex more ≡ composed lib apex records
  update-composed data_ _ _ c ended = refl
  update-composed data_ _ _ c (kept x records more h) =
      composed-step x more records (update-composed data_ records more c h)
  update-composed data_ _ _ c (replaced x records more e h) =
      composed-skip (record { owner = x.owner; class_ = x.class_; ttl = x.ttl; rdata = data_ }) more
        (replaced_skipped x data_ e c)
      ∙ update-composed data_ records more c h
      ∙ sym (composed-skip x records (chosen_skipped x e))
