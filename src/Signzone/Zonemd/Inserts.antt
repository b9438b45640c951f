-- ===== src/Signzone/Zonemd/Inserts.antt =====
-- The insertion of ZONEMD records into a zone (src/commands/signzone.rs).
use mathlib.Core.Path.{subst}
use dnst.Base.{
  ◌≡◌, refl, ◌∙◌, inl, inr, Bool, true, false, Option, none, some, List, [], ◌∷◌, Eq, All,
}
use dnst.Signzone.{StoredRecord, Rdata}
use dnst.Signzone.Zonemd.{
  ZoneLibrary, or_unchanged, is_skipped, composed, insert_or_ignore, insert_all,
}
use dnst.Signzone.Zonemd.Unchanged.{
  Holds, Has, Inserted, at, after, Updated, ended, kept, replaced, InsertOutcome, ZoneLaws,
  insert-composed,
}

module _ {Name Dnskey : Type 0} (a : Name) (d : Rdata Name Dnskey) where
  insert_keeps :
      (r : StoredRecord Name Dnskey) (records more : List (StoredRecord Name Dnskey))
      → Inserted r records more
      → Has a d records
      → Has a d more
  insert_keeps r _ _ (at records) h = inr h
  insert_keeps r _ _ (after x records more i) (inl e) = inl e
  insert_keeps r _ _ (after x records more i) (inr h) = inr (insert_keeps r records more i h)

  insert_there :
      (r : StoredRecord Name Dnskey) (records more : List (StoredRecord Name Dnskey))
      → Inserted r records more
      → Holds a d r
      → Has a d more
  insert_there r _ _ (at records) h = inl h
  insert_there r _ _ (after x records more i) h = inr (insert_there r records more i h)

  -- Records that are not chosen stay.
  pub update_keeps :
      (chosen : StoredRecord Name Dnskey → Bool) (new : Rdata Name Dnskey)
      (records more : List (StoredRecord Name Dnskey))
      → ((x : StoredRecord Name Dnskey) → Holds a d x → chosen x ≡ false)
      → Updated chosen new records more
      → Has a d records
      → Has a d more
  update_keeps chosen new _ _ f ended h = h
  update_keeps chosen new _ _ f (kept x records more u) (inl e) = inl e
  update_keeps chosen new _ _ f (kept x records more u) (inr h) =
      inr (update_keeps chosen new records more f u h)
  update_keeps chosen new _ _ f (replaced x records more c u) (inl e) = cc (c, f x e)
  update_keeps chosen new _ _ f (replaced x records more c u) (inr h) =
      inr (update_keeps chosen new records more f u h)

module _ {Name Dnskey Key : Type 0} ⦃name_eq : Eq Name⦄ (lib : ZoneLibrary Name Dnskey Key)
    (apex : Name) (laws : ZoneLaws lib) where
  outcome-composed :
      (r : StoredRecord Name Dnskey) (records : List (StoredRecord Name Dnskey))
      (o : Option (List (StoredRecord Name Dnskey)))
      → InsertOutcome r records o
      → is_skipped lib apex r ≡ true
      → composed lib apex (or_unchanged o records) ≡ composed lib apex records
  outcome-composed r records none h e = refl
  outcome-composed r records (some more) h e = insert-composed lib apex r records more e h

  outcome_keeps :
      (a : Name) (d : Rdata Name Dnskey) (r : StoredRecord Name Dnskey)
      (records : List (StoredRecord Name Dnskey)) (o : Option (List (StoredRecord Name Dnskey)))
      → InsertOutcome r records o
      → Has a d records
      → Has a d (or_unchanged o records)
  outcome_keeps a d r records none i h = h
  outcome_keeps a d r records (some more) i h = insert_keeps a d r records more i h

  like_there :
      (a : Name) (d : Rdata Name Dnskey) (r : StoredRecord Name Dnskey)
      (records : List (StoredRecord Name Dnskey))
      → Holds a d r
      → Has r.owner r.rdata records
      → Has a d records
  like_there a d r records e h =
      subst (λ x. Has x d records) e.0 (subst (λ x. Has r.owner x records) e.1 h)

  outcome_there :
      (a : Name) (d : Rdata Name Dnskey) (r : StoredRecord Name Dnskey)
      (records : List (StoredRecord Name Dnskey)) (o : Option (List (StoredRecord Name Dnskey)))
      → InsertOutcome r records o
      → Holds a d r
      → Has a d (or_unchanged o records)
  outcome_there a d r records none i e = like_there a d r records e i
  outcome_there a d r records (some more) i e = insert_there a d r records more i e

  pub insert_all-composed :
      (rrs records : List (StoredRecord Name Dnskey))
      → All (λ r. is_skipped lib apex r ≡ true) rrs
      → composed lib apex (insert_all lib rrs records) ≡ composed lib apex records
  unfolding insert_all
  insert_all-composed [] records h = refl
  insert_all-composed (r ∷ rrs) records h =
      insert_all-composed rrs (insert_or_ignore lib r records) h.1
      ∙ outcome-composed r records (lib.insert r records) (laws.inserts r records) h.0

  insert_all-kept :
      (a : Name) (d : Rdata Name Dnskey) (rrs records : List (StoredRecord Name Dnskey))
      → Has a d records
      → Has a d (insert_all lib rrs records)
  unfolding insert_all
  insert_all-kept a d [] records h = h
  insert_all-kept a d (r ∷ rrs) records h =
      insert_all-kept a d rrs (insert_or_ignore lib r records)
        (outcome_keeps a d r records (lib.insert r records) (laws.inserts r records) h)

  pub insert_all_there :
      (a : Name) (d : Rdata Name Dnskey) (rrs records : List (StoredRecord Name Dnskey))
      → Has a d rrs
      → Has a d (insert_all lib rrs records)
  unfolding insert_all
  insert_all_there a d [] records h = absurd h
  insert_all_there a d (r ∷ rrs) records (inl e) =
      insert_all-kept a d rrs (insert_or_ignore lib r records)
        (outcome_there a d r records (lib.insert r records) (laws.inserts r records) e)
  insert_all_there a d (r ∷ rrs) records (inr h) =
      insert_all_there a d rrs (insert_or_ignore lib r records) h
