-- ===== src/Signzone/Output/Written.antt =====
-- Which records of an owner are written (src/commands/signzone.rs, execute).
use mathlib.Core.Path.{subst}
use dnst.Base.{
  ◌≡◌, ◌≢◌, refl, sym, ap, ◌∙◌, inl, inr, Bool, Bool-cases, true, false, List, [], ◌∷◌, ◌++◌,
  filter, if◌then◌else◌, Eq, All, All-of_In, In, In-append_left, In-append_right, arith,
}
use dnst.Dns.{Rtype, rtype_eq}
use dnst.Signzone.{StoredRecord, SignZone}
use dnst.Signzone.Output.{
  Rrset, OwnerRrs, is_type, covers, is_listed, follows, covering_rrsigs, listed_sets, apex_nsec,
  plain_sets, owner_records,
}

In-filter :
    {A : Type 0} (p : A → Bool) (x : A) (xs : List A) → In x xs → p x ≡ true → In x (filter p xs)
In-filter p x [] h e = absurd h
In-filter p x (y ∷ ys) (inl same) e =
    subst (λ b. In x (if b then y ∷ filter p ys else filter p ys)) (sym (ap p (sym same) ∙ e))
      (inl same)
In-filter p x (y ∷ ys) (inr h) e =
    elim (p y) as (λ b. In x (if b then y ∷ filter p ys else filter p ys)) [
      | true ↦ inr (In-filter p x ys h e)
      | false ↦ In-filter p x ys h e
    ]

filter-In :
    {A : Type 0} (p : A → Bool) (x : A) (xs : List A) → In x (filter p xs) → In x xs × (p x ≡ true)
filter-In p x [] h = absurd h
filter-In {A} p x (y ∷ ys) h = by_test (p y) refl (filter-In p x ys) h
  where
    by_test :
        (b : Bool)
        → p y ≡ b
        → (In x (filter p ys) → In x ys × (p x ≡ true))
        → In x (if b then y ∷ filter p ys else filter p ys)
        → In x (y ∷ ys) × (p x ≡ true)
    by_test true e ih (inl same) = (inl same, ap p same ∙ e)
    by_test true e ih (inr i) = let (there, f) = ih i in (inr there, f)
    by_test false e ih i = let (there, f) = ih i in (inr there, f)

other_type : (t u : Rtype) → t ≢ u → is_type t u ≡ false
other_type t u n = elim (Bool-cases (is_type t u)) [
  | inl e ↦ absurd (n ((rtype_eq.beq_iff t u).0 e))
  | inr e ↦ e
]

-- The signatures of a set of signatures, and nothing of another.
abbrev pub signatures_in :
    {Name Dnskey : Type 0} → Rrset Name Dnskey → List (StoredRecord Name Dnskey)
signatures_in s = if is_type s.rtype_of_set Rtype.rrsig then s.records else []

module _ {Name Dnskey : Type 0} ⦃name_eq : Eq Name⦄ (o : SignZone Name) (apex : Name) where
  In-covering_rrsigs :
      (t : Rtype) (s : Rrset Name Dnskey) (r : StoredRecord Name Dnskey)
      (rrsets : List (Rrset Name Dnskey))
      → In s rrsets
      → is_type s.rtype_of_set Rtype.rrsig ≡ true
      → In r s.records
      → follows o apex t r ≡ true
      → In r (covering_rrsigs o apex t rrsets)
  unfolding covering_rrsigs
  In-covering_rrsigs t s r [] h e i f = absurd h
  In-covering_rrsigs t s r (u ∷ rrsets) (inl same) e i f =
      let rest = covering_rrsigs o apex t rrsets in
      subst
        (λ v. In r (
          if is_type v.rtype_of_set Rtype.rrsig
          then filter (follows o apex t) v.records ++ rest
          else rest))
        same
        (subst (λ b. In r (if b then filter (follows o apex t) s.records ++ rest else rest)) (sym e)
          (In-append_left r (filter (follows o apex t) s.records) rest
            (In-filter (follows o apex t) r s.records i f)))
  In-covering_rrsigs t s r (u ∷ rrsets) (inr h) e i f =
      let rest = covering_rrsigs o apex t rrsets in
      let ih = In-covering_rrsigs t s r rrsets h e i f in
      elim (is_type u.rtype_of_set Rtype.rrsig)
        as (λ b. In r (if b then filter (follows o apex t) u.records ++ rest else rest)) [
          | true ↦ In-append_right r (filter (follows o apex t) u.records) rest ih
          | false ↦ ih
        ]

  -- What is written for one listed set.
  abbrev block : List (Rrset Name Dnskey) → Rrset Name Dnskey → List (StoredRecord Name Dnskey)
  block group s = s.records ++ covering_rrsigs o apex s.rtype_of_set group

  In-listed_sets :
      (owner : Name) (group : List (Rrset Name Dnskey)) (s : Rrset Name Dnskey)
      (r : StoredRecord Name Dnskey) (rrsets : List (Rrset Name Dnskey))
      → In s rrsets
      → is_listed o apex owner s ≡ true
      → In r (block group s)
      → In r (listed_sets o apex owner group rrsets)
  unfolding listed_sets
  In-listed_sets owner group s r [] h e i = absurd h
  In-listed_sets owner group s r (u ∷ rrsets) (inl same) e i =
      let rest = listed_sets o apex owner group rrsets in
      subst (λ v. In r (if is_listed o apex owner v then block group v ++ rest else rest)) same
        (subst (λ b. In r (if b then block group s ++ rest else rest)) (sym e)
          (In-append_left r (block group s) rest i))
  In-listed_sets owner group s r (u ∷ rrsets) (inr h) e i =
      let rest = listed_sets o apex owner group rrsets in
      let ih = In-listed_sets owner group s r rrsets h e i in
      elim (is_listed o apex owner u) as (λ b. In r (if b then block group u ++ rest else rest)) [
        | true ↦ In-append_right r (block group u) rest ih
        | false ↦ ih
      ]

  follows_lem :
      (t : Rtype) (r : StoredRecord Name Dnskey)
      → o.invoked_as_ldns ≡ false
      → covers t r ≡ true
      → follows o apex t r ≡ true
  follows_lem t r ldns c = ground (arith, c, ldns)

  listed_lem :
      (owner : Name) (s : Rrset Name Dnskey)
      → o.invoked_as_ldns ≡ false
      → s.rtype_of_set ≢ Rtype.soa
      → s.rtype_of_set ≢ Rtype.rrsig
      → is_listed o apex owner s ≡ true
  listed_lem owner s e f g =
      ground
        (arith, e, other_type s.rtype_of_set Rtype.soa f, other_type s.rtype_of_set Rtype.rrsig g)

  In-owner_records :
      (g : OwnerRrs Name Dnskey) (s : Rrset Name Dnskey) (r : StoredRecord Name Dnskey)
      → o.invoked_as_ldns ≡ false
      → o.order_rrsigs_after_the_rtype_they_cover ≡ true
      → In s g.rrsets
      → s.rtype_of_set ≢ Rtype.soa
      → s.rtype_of_set ≢ Rtype.rrsig
      → In r (block g.rrsets s)
      → In r (owner_records o apex g)
  unfolding owner_records
  In-owner_records g s r ldns ordered h f k i =
      subst
        (λ b. In r (
          if b
          then listed_sets o apex g.owner g.rrsets g.rrsets ++ apex_nsec o apex g
          else plain_sets g.rrsets))
        (sym ordered)
        (In-append_left r (listed_sets o apex g.owner g.rrsets g.rrsets) (apex_nsec o apex g)
          (In-listed_sets g.owner g.rrsets s r g.rrsets h (listed_lem g.owner s ldns f k) i))

  signature_written :
      (g : OwnerRrs Name Dnskey) (s u : Rrset Name Dnskey)
      → o.invoked_as_ldns ≡ false
      → o.order_rrsigs_after_the_rtype_they_cover ≡ true
      → In s g.rrsets
      → s.rtype_of_set ≢ Rtype.soa
      → s.rtype_of_set ≢ Rtype.rrsig
      → In u g.rrsets
      → All (λ r. In r (owner_records o apex g)) (filter (covers s.rtype_of_set) (signatures_in u))
  signature_written g s u ldns ordered h f k j =
      elim (Bool-cases (is_type u.rtype_of_set Rtype.rrsig)) [
        | inl e ↦
            subst
              (λ b.
                All (λ r. In r (owner_records o apex g))
                  (filter (covers s.rtype_of_set) (if b then u.records else [])))
              (sym e)
              (All-of_In (λ r. In r (owner_records o apex g))
                (filter (covers s.rtype_of_set) u.records)
                (λ r i.
                  let (there, c) = filter-In (covers s.rtype_of_set) r u.records i in
                  In-owner_records g s r ldns ordered h f k (
                    In-append_right r s.records (covering_rrsigs o apex s.rtype_of_set g.rrsets) (
                      In-covering_rrsigs s.rtype_of_set u r g.rrsets j e there
                        (follows_lem s.rtype_of_set r ldns c)))))
        | inr e ↦
            subst
              (λ b.
                All (λ r. In r (owner_records o apex g))
                  (filter (covers s.rtype_of_set) (if b then u.records else [])))
              (sym e) tt
      ]

  -- With signatures after the sets that they cover, and not as ldns-signzone, every record of a set
  -- that is neither SOA nor signatures is written, and so is every signature over such a set in a set
  -- of signatures of the same owner.
  pub owner_records-Written :
      (g : OwnerRrs Name Dnskey) (s : Rrset Name Dnskey)
      → o.invoked_as_ldns ≡ false
      → o.order_rrsigs_after_the_rtype_they_cover ≡ true
      → In s g.rrsets
      → s.rtype_of_set ≢ Rtype.soa
      → s.rtype_of_set ≢ Rtype.rrsig
      → All (λ r. In r (owner_records o apex g)) s.records
        × All
            (λ u.
              All
                (λ r. In r (owner_records o apex g))
                (filter (covers s.rtype_of_set) (signatures_in u)))
            g.rrsets
  owner_records-Written g s ldns ordered h f k = (
    All-of_In (λ r. In r (owner_records o apex g)) s.records
        (λ r i.
          In-owner_records g s r ldns ordered h f k
            (In-append_left r s.records (covering_rrsigs o apex s.rtype_of_set g.rrsets) i)),
    All-of_In _ g.rrsets (λ u j. signature_written g s u ldns ordered h f k j),
  )
