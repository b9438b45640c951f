-- ===== src/Signzone/Dnskeys/Added.antt =====
-- Which keys a signed zone publishes, and a key that is given twice (src/commands/signzone.rs, execute).
use mathlib.Core.Path.{subst}
use dnst.Base.{
  ℕ, ◌≡◌, refl, sym, ◌∙◌, inl, inr, Bool, true, false, ◌||◌, Option-cases, none, some, List, [],
  ◌∷◌, ◌++◌, any, err, if◌then◌else◌, Eq, All, All-weaken, All-of_In, In, In-All, In-append_left,
  arith,
}
use dnst.Dns.{Class}
use dnst.Signzone.{StoredRecord, SignZone}
use dnst.Signzone.Keys.{KeyLibrary, signing_sets}
use dnst.Signzone.Keys.Sets.{signing_sets-In}
use dnst.Signzone.Zonemd.{ZoneLibrary}
use dnst.Signzone.Dnskeys.{
  is_key, extra_record, extra_records, dnskey_ttl_of, dnskey_extra, all_dnskeys, insert_new, Apex,
  apex_records,
}

module _ {Name Dnskey Key : Type 0} ⦃key_eq : Eq Dnskey⦄ (lib : KeyLibrary Dnskey Key) where
  -- Some record of a set has the key.
  abbrev pub Published : List (StoredRecord Name Dnskey) → Key → Type 0
  Published rrset k = any (is_key lib (lib.dnskey k)) rrset ≡ true

  any-append :
      (p : StoredRecord Name Dnskey → Bool) (xs ys : List (StoredRecord Name Dnskey))
      → any p (xs ++ ys) ≡ any p xs || any p ys
  any-append p [] ys = refl
  any-append p (x ∷ xs) ys = ground (arith, any-append p xs ys)

  module _ (apex : Name) (apex_class : Class) (dnskey_ttl : ℕ)
      (rrset : List (StoredRecord Name Dnskey)) where
    -- The key is in the zone's set or among more records.
    abbrev Found : List (StoredRecord Name Dnskey) → Key → Type 0
    Found extra k =
        any (is_key lib (lib.dnskey k)) rrset || any (is_key lib (lib.dnskey k)) extra ≡ true

    abbrev extended : Bool → Key → List (StoredRecord Name Dnskey) → List (StoredRecord Name Dnskey)
    extended b k rest = if b then rest else extra_record lib apex apex_class dnskey_ttl k ∷ rest

    Found-extended :
        (b : Bool) (k x : Key) (rest : List (StoredRecord Name Dnskey))
        → Found rest x
        → Found (extended b k rest) x
    Found-extended true k x rest f = f
    Found-extended false k x rest f = ground (arith, f)

    extended-Found :
        (b : Bool) (k : Key) (rest : List (StoredRecord Name Dnskey))
        → any (is_key lib (lib.dnskey k)) rrset ≡ b
        → Found (extended b k rest) k
    extended-Found true k rest e = ground (arith, e)
    extended-Found false k rest e =
        let same = key_eq.beq_iff (lib.dnskey k) (lib.dnskey k) in ground (arith, e, same.1 refl)

    extra_records-Found :
        (keys : List Key)
        → All (Found (extra_records lib apex apex_class dnskey_ttl rrset keys)) keys
    unfolding extra_records
    extra_records-Found [] = tt
    extra_records-Found (k ∷ keys) =
        let b = any (is_key lib (lib.dnskey k)) rrset in
        let rest = extra_records lib apex apex_class dnskey_ttl rrset keys in
        (
          extended-Found b k rest refl,
          All-weaken (Found rest) (Found (extended b k rest)) keys
              (λ x f. Found-extended b k x rest f) (extra_records-Found keys),
        )

  all_dnskeys-Published :
      (o : SignZone Name) (apex : Name) (apex_class : Class) (default_ttl : ℕ)
      (rrset : List (StoredRecord Name Dnskey)) (keys : List Key)
      → o.do_not_add_keys_to_zone ≡ false
      → All (Published (all_dnskeys lib o apex apex_class default_ttl rrset keys)) keys
  unfolding all_dnskeys dnskey_extra
  all_dnskeys-Published o apex apex_class default_ttl rrset keys e =
      let extra = extra_records lib apex apex_class (dnskey_ttl_of default_ttl rrset) rrset keys in
      subst (λ b. All (Published (rrset ++ (if b then [] else extra))) keys) (sym e)
        (All-weaken (Found apex apex_class (dnskey_ttl_of default_ttl rrset) rrset extra)
          (Published (rrset ++ extra)) keys
          (λ k f. any-append (is_key lib (lib.dnskey k)) rrset extra ∙ f)
          (extra_records-Found apex apex_class (dnskey_ttl_of default_ttl rrset) rrset keys))

  -- Unless the keys are not to be added, the DNSKEY record set that is signed has the key of every
  -- signature, over the record sets of keys as over the rest of the zone, and it has every DNSKEY
  -- record of the zone.
  pub signing_sets-Published :
      (o : SignZone Name) (apex : Name) (apex_class : Class) (default_ttl : ℕ)
      (rrset : List (StoredRecord Name Dnskey)) (keys : List Key)
      → o.do_not_add_keys_to_zone ≡ false
      → All
          (Published (all_dnskeys lib o apex apex_class default_ttl rrset keys))
          (signing_sets lib o keys).0
        × All
            (Published (all_dnskeys lib o apex apex_class default_ttl rrset keys))
            (signing_sets lib o keys).1
        × All (λ r. In r (all_dnskeys lib o apex apex_class default_ttl rrset keys)) rrset
  unfolding all_dnskeys
  signing_sets-Published o apex apex_class default_ttl rrset keys e =
      let extra = dnskey_extra lib o apex apex_class default_ttl rrset keys in
      let all = all_dnskeys-Published o apex apex_class default_ttl rrset keys e in
      let drawn = signing_sets-In lib o keys in
      let published =
        λ (k : Key) (h : In k keys). In-All (Published (rrset ++ extra)) k keys h all in
      (
        All-weaken (λ k. In k keys) (Published (rrset ++ extra)) (signing_sets lib o keys).0
            published drawn.0,
        All-weaken (λ k. In k keys) (Published (rrset ++ extra)) (signing_sets lib o keys).1
            published drawn.1,
        All-of_In (λ r. In r (rrset ++ extra)) rrset (λ r h. In-append_left r rrset extra h),
      )

-- A record that was inserted cannot be inserted again.
abbrev pub InsertsOnce : {Name Dnskey Key : Type 0} → ZoneLibrary Name Dnskey Key → Type 0
InsertsOnce {Name} {Dnskey} lib =
    (r : StoredRecord Name Dnskey) (records more : List (StoredRecord Name Dnskey))
    → lib.insert r records ≡ some more
    → lib.insert r more ≡ none

module _ {Name Dnskey Key : Type 0} ⦃key_eq : Eq Dnskey⦄ (zone : ZoneLibrary Name Dnskey Key)
    (once : InsertsOnce zone) where
  insert_new-twice :
      (r : StoredRecord Name Dnskey) (rrs records : List (StoredRecord Name Dnskey))
      → insert_new zone (r ∷ r ∷ rrs) records ≡ err "panic: should not fail"
  unfolding insert_new
  insert_new-twice r rrs records = elim (Option-cases (zone.insert r records)) [
    | inl e ↦ rw e refl
    | inr (more, e) ↦ rw e (rw (once r records more e) refl)
  ]

  -- A key that is given twice in a row, that the zone does not have and that is to be added, makes the
  -- command panic when it inserts the new records at the apex, whatever the other keys are.
  pub insert_new-panics :
      (lib : KeyLibrary Dnskey Key)
      (sign : Key → List (StoredRecord Name Dnskey) → StoredRecord Name Dnskey) (o : SignZone Name)
      (apex : Apex Name Dnskey) (k : Key) (keys key_signing_keys : List Key)
      (records : List (StoredRecord Name Dnskey))
      → o.do_not_add_keys_to_zone ≡ false
      → any (is_key lib (lib.dnskey k)) apex.dnskeys ≡ false
      → insert_new zone (apex_records lib sign o apex (k ∷ k ∷ keys) key_signing_keys) records
        ≡ err "panic: should not fail"
  unfolding apex_records dnskey_extra extra_records
  insert_new-panics lib sign o apex k keys key_signing_keys records e f =
      rw e (rw f (insert_new-twice _ _ records))
