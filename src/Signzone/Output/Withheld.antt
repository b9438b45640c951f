-- ===== src/Signzone/Output/Withheld.antt =====
-- The signatures over the NSEC record of the apex that ldns-signzone's order keeps
-- (src/commands/signzone.rs, execute).
use mathlib.Core.Path.{subst}
use dnst.Base.{
  ◌≤◌, ◌≡◌, refl, sym, ap, ◌∙◌, inl, inr, Bool, Bool-cases, true, false, ◌&&◌, not, List, [], ◌∷◌,
  ◌++◌, filter, length, if◌then◌else◌, Eq, All, All-append, All-weaken, arith,
}
use dnst.Dns.{Rtype, rtype_eq}
use dnst.Signzone.{StoredRecord, rtype, SignZone}
use dnst.Signzone.Output.{
  Rrset, OwnerRrs, is_type, covers, first_of, first_in_set, first_signature, is_listed, follows,
  covering_rrsigs, listed_sets, apex_nsec, owner_records, plain_sets,
}

module _ {A : Type 0} (p : A → Bool) where
  abbrev None : List A → Type 0
  None xs = All (λ x. p x ≡ false) xs

  filter-None : (xs ys : List A) → None xs → filter p (xs ++ ys) ≡ filter p ys
  filter-None [] ys h = refl
  filter-None (x ∷ xs) ys h = ground (arith, h.0, filter-None xs ys h.1)

  All-filter :
      (q : A → Bool) (P : A → Type 0) (xs : List A)
      → ((x : A) → P x → q x ≡ true → p x ≡ false)
      → All P xs
      → None (filter q xs)
  All-filter q P [] f h = tt
  All-filter q P (x ∷ xs) f h = elim (Bool-cases (q x)) [
    | inl e ↦
        subst (λ b. None (if b then x ∷ filter q xs else filter q xs)) (sym e)
          (f x h.0 e, All-filter q P xs f h.1)
    | inr e ↦
        subst (λ b. None (if b then x ∷ filter q xs else filter q xs)) (sym e)
          (All-filter q P xs f h.1)
  ]

module _ {Name Dnskey : Type 0} where
  -- The records of a set have its type, and the owner of the group.
  abbrev pub Typed : Name → Rrset Name Dnskey → Type 0
  Typed owner s = All (λ r. (rtype r ≡ s.rtype_of_set) × (r.owner ≡ owner)) s.records

  abbrev pub Grouped : OwnerRrs Name Dnskey → Type 0
  Grouped g = All (Typed g.owner) g.rrsets

  unsigned_covers :
      (t : Rtype) (r : StoredRecord Name Dnskey)
      → is_type (rtype r) Rtype.rrsig ≡ false
      → covers t r ≡ false
  unsigned_covers t r e = ground (arith, e)

  set_covers :
      (t : Rtype) (owner : Name) (s : Rrset Name Dnskey)
      → Typed owner s
      → is_type s.rtype_of_set Rtype.rrsig ≡ false
      → None (covers t) s.records
  set_covers t owner s typed e =
      All-weaken (λ r. (rtype r ≡ s.rtype_of_set) × (r.owner ≡ owner)) (λ r. covers t r ≡ false)
        s.records (λ r (same, _). unsigned_covers t r (ap (λ u. is_type u Rtype.rrsig) same ∙ e))
        typed

  first_in_set-None :
      (owner : Name) (rrsets : List (Rrset Name Dnskey))
      → All (Typed owner) rrsets
      → None (covers Rtype.nsec) (first_in_set Rtype.nsec rrsets)
  unfolding first_in_set
  first_in_set-None owner [] h = tt
  first_in_set-None owner (s ∷ rrsets) h = elim (Bool-cases (is_type s.rtype_of_set Rtype.nsec)) [
    | inl e ↦
        subst
          (λ b.
            None (covers Rtype.nsec)
              (if b then first_of s.records else first_in_set Rtype.nsec rrsets))
          (sym e)
          (first-None s.records
            (set_covers Rtype.nsec owner s h.0 (nsec_unsigned s.rtype_of_set e)))
    | inr e ↦
        subst
          (λ b.
            None (covers Rtype.nsec)
              (if b then first_of s.records else first_in_set Rtype.nsec rrsets))
          (sym e) (first_in_set-None owner rrsets h.1)
  ]
    where
      first-None :
          (xs : List (StoredRecord Name Dnskey))
          → None (covers Rtype.nsec) xs
          → None (covers Rtype.nsec) (first_of xs)
      first-None [] h = tt
      first-None (x ∷ xs) h = (h.0, tt)

      nsec_unsigned : (t : Rtype) → is_type t Rtype.nsec ≡ true → is_type t Rtype.rrsig ≡ false
      nsec_unsigned t e = ground (arith, e)

  first_signature-short :
      (p : StoredRecord Name Dnskey → Bool) (t : Rtype) (rrsets : List (Rrset Name Dnskey))
      → length (filter p (first_signature t rrsets)) ≤ 1
  unfolding first_signature
  first_signature-short p t [] = omega arith
  first_signature-short p t (s ∷ rrsets) =
      elim (is_type s.rtype_of_set Rtype.rrsig)
        as (λ b.
          length (
            filter p
              (if b then first_of (filter (covers t) s.records) else first_signature t rrsets))
          ≤ 1) [
            | true ↦ first-short (filter (covers t) s.records)
            | false ↦ first_signature-short p t rrsets
          ]
    where
      first-short : (xs : List (StoredRecord Name Dnskey)) → length (filter p (first_of xs)) ≤ 1
      first-short [] = omega arith
      first-short (x ∷ xs) = ground arith

module _ {Name Dnskey : Type 0} ⦃name_eq : Eq Name⦄ (o : SignZone Name) (apex : Name)
    (ldns : o.invoked_as_ldns ≡ true) where
  followed_lem :
      (t : Rtype) (r : StoredRecord Name Dnskey)
      → r.owner ≡ apex
      → follows o apex t r ≡ true
      → covers Rtype.nsec r ≡ false
  followed_lem t r e f =
      let same = (name_eq.beq_iff r.owner apex).1 e in ground (arith, f, same, ldns)

  covering_rrsigs-None :
      (t : Rtype) (rrsets : List (Rrset Name Dnskey))
      → All (Typed apex) rrsets
      → None (covers Rtype.nsec) (covering_rrsigs o apex t rrsets)
  unfolding covering_rrsigs
  covering_rrsigs-None t [] h = tt
  covering_rrsigs-None t (s ∷ rrsets) h =
      let rest = covering_rrsigs o apex t rrsets in
      elim (is_type s.rtype_of_set Rtype.rrsig)
        as (λ b.
          None (covers Rtype.nsec)
            (if b then filter (follows o apex t) s.records ++ rest else rest)) [
              | true ↦
                  All-append _ (filter (follows o apex t) s.records) rest
                    (All-filter (covers Rtype.nsec) (follows o apex t)
                      (λ r. (rtype r ≡ s.rtype_of_set) × (r.owner ≡ apex)) s.records
                      (λ r (_, e) f. followed_lem t r e f) h.0)
                    (covering_rrsigs-None t rrsets h.1)
              | false ↦ covering_rrsigs-None t rrsets h.1
            ]

  listed_unsigned :
      (owner : Name) (s : Rrset Name Dnskey)
      → is_listed o apex owner s ≡ true
      → is_type s.rtype_of_set Rtype.rrsig ≡ false
  listed_unsigned owner s e = ground (arith, e)

  listed_sets-None :
      (group rrsets : List (Rrset Name Dnskey))
      → All (Typed apex) group
      → All (Typed apex) rrsets
      → None (covers Rtype.nsec) (listed_sets o apex apex group rrsets)
  unfolding listed_sets
  listed_sets-None group [] g h = tt
  listed_sets-None group (s ∷ rrsets) g h =
      let rest = listed_sets o apex apex group rrsets in
      let sigs = covering_rrsigs o apex s.rtype_of_set group in
      elim (Bool-cases (is_listed o apex apex s)) [
        | inl e ↦
            subst (λ b. None (covers Rtype.nsec) (if b then (s.records ++ sigs) ++ rest else rest))
              (sym e)
              (All-append _ (s.records ++ sigs) rest
                (All-append _ s.records sigs
                  (set_covers Rtype.nsec apex s h.0 (listed_unsigned apex s e))
                  (covering_rrsigs-None s.rtype_of_set group g))
                (listed_sets-None group rrsets g h.1))
        | inr e ↦
            subst (λ b. None (covers Rtype.nsec) (if b then (s.records ++ sigs) ++ rest else rest))
              (sym e) (listed_sets-None group rrsets g h.1)
      ]

  apex_nsec-short :
      (g : OwnerRrs Name Dnskey)
      → Grouped g
      → length (filter (covers Rtype.nsec) (apex_nsec o apex g)) ≤ 1
  unfolding apex_nsec
  apex_nsec-short g h =
      elim (o.invoked_as_ldns && (not o.use_nsec3 && name_eq.beq g.owner apex))
        as (λ b.
          length (
            filter (covers Rtype.nsec) (
              if b
              then first_in_set Rtype.nsec g.rrsets ++ first_signature Rtype.nsec g.rrsets
              else []))
          ≤ 1) [
            | true ↦
                subst (λ xs. length xs ≤ 1)
                  (sym (
                    filter-None (covers Rtype.nsec) (first_in_set Rtype.nsec g.rrsets)
                      (first_signature Rtype.nsec g.rrsets) (first_in_set-None g.owner g.rrsets h)))
                  (first_signature-short (covers Rtype.nsec) Rtype.nsec g.rrsets)
            | false ↦ omega arith
          ]

  -- As ldns-signzone, with signatures after the sets that they cover, at most one of the signatures
  -- over the NSEC record of the apex is written, however many there are.
  pub owner_records_one_nsec_signature :
      (g : OwnerRrs Name Dnskey)
      → o.order_rrsigs_after_the_rtype_they_cover ≡ true
      → g.owner ≡ apex
      → Grouped g
      → length (filter (covers Rtype.nsec) (owner_records o apex g)) ≤ 1
  unfolding owner_records
  owner_records_one_nsec_signature g e same h =
      let at_apex = subst (λ n. All (Typed n) g.rrsets) same h in
      subst
        (λ b.
          length (
            filter (covers Rtype.nsec) (
              if b
              then listed_sets o apex g.owner g.rrsets g.rrsets ++ apex_nsec o apex g
              else plain_sets g.rrsets))
          ≤ 1)
        (sym e)
        (subst
          (λ n.
            length (
              filter (covers Rtype.nsec)
                (listed_sets o apex n g.rrsets g.rrsets ++ apex_nsec o apex g))
            ≤ 1)
          (sym same)
          (subst (λ xs. length xs ≤ 1)
            (sym (
              filter-None (covers Rtype.nsec) (listed_sets o apex apex g.rrsets g.rrsets)
                (apex_nsec o apex g) (listed_sets-None g.rrsets g.rrsets at_apex at_apex)))
            (apex_nsec-short g h)))
