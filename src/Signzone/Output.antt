-- ===== src/Signzone/Output.antt =====
-- The order in which a signed zone is written (src/commands/signzone.rs, execute), as the list of the
-- records. The text of a record and the comments are not here. The groups of the records by owner, in
-- the order of the output, and the record sets in a group are what the library's iterators give.
pub mod Withheld
pub mod Written
use dnst.Base.{
  ℕ, Bool, true, false, ◌&&◌, ◌||◌, not, Option, none, some, List, [], ◌∷◌, ◌++◌, filter,
  if◌then◌else◌, Eq,
}
use dnst.Dns.{Rtype, rtype_eq}
use dnst.Signzone.{StoredRecord, Rdata, soa, dnskey, rrsig, zonemd, other, rtype, SignZone}

pub record Rrset (Name Dnskey : Type 0) : Type 0 where
  pub rtype_of_set : Rtype
  pub records : List (StoredRecord Name Dnskey)

pub record OwnerRrs (Name Dnskey : Type 0) : Type 0 where
  pub owner : Name
  pub rrsets : List (Rrset Name Dnskey)

abbrev pub is_type : Rtype → Rtype → Bool
is_type t u = rtype_eq.beq t u

module _ {Name Dnskey : Type 0} where
  abbrev pub covers : Rtype → StoredRecord Name Dnskey → Bool
  covers t r = elim r.rdata [
    | rrsig covered _ ↦ is_type covered t
    | soa _ ↦ false
    | dnskey _ ↦ false
    | zonemd _ _ _ _ ↦ false
    | other _ _ ↦ false
  ]

  abbrev pub first_of : List (StoredRecord Name Dnskey) → List (StoredRecord Name Dnskey)
  first_of [] = []
  first_of (r ∷ records) = r ∷ []

  -- The first record of the first set of a type.
  unfoldable pub first_in_set : Rtype → List (Rrset Name Dnskey) → List (StoredRecord Name Dnskey)
  first_in_set t [] = []
  first_in_set t (s ∷ rrsets) =
      let rest = first_in_set t rrsets in
      if is_type s.rtype_of_set t then first_of s.records else rest

  -- The first signature over a type in the first set of signatures.
  unfoldable pub first_signature :
      Rtype → List (Rrset Name Dnskey) → List (StoredRecord Name Dnskey)
  first_signature t [] = []
  first_signature t (s ∷ rrsets) =
      let rest = first_signature t rrsets in
      if is_type s.rtype_of_set Rtype.rrsig then first_of (filter (covers t) s.records) else rest

  unfoldable pub plain_sets : List (Rrset Name Dnskey) → List (StoredRecord Name Dnskey)
  plain_sets [] = []
  plain_sets (s ∷ rrsets) =
      let rest = plain_sets rrsets in
      if is_type s.rtype_of_set Rtype.soa then rest else s.records ++ rest

abbrev pub is_withheld :
    {Name : Type 0} → ⦃name_eq : Eq Name⦄ → SignZone Name → Name → Rtype → Name → Bool
is_withheld ⦃name_eq⦄ o apex t owner =
    o.invoked_as_ldns && is_type t Rtype.nsec && name_eq.beq owner apex

module _ {Name Dnskey : Type 0} ⦃name_eq : Eq Name⦄ (o : SignZone Name) (apex : Name) where
  -- The set is written in its place.
  abbrev pub is_listed : Name → Rrset Name Dnskey → Bool
  is_listed owner s = not (
      (is_type s.rtype_of_set Rtype.soa || is_type s.rtype_of_set Rtype.rrsig)
      || is_withheld o apex s.rtype_of_set owner)

  abbrev pub follows : Rtype → StoredRecord Name Dnskey → Bool
  follows t r =
      covers t r
      && (if o.invoked_as_ldns && name_eq.beq r.owner apex then not (covers Rtype.nsec r) else true)

  -- The signatures that are written after a set of a type.
  unfoldable pub covering_rrsigs :
      Rtype → List (Rrset Name Dnskey) → List (StoredRecord Name Dnskey)
  covering_rrsigs t [] = []
  covering_rrsigs t (s ∷ rrsets) =
      let rest = covering_rrsigs t rrsets in
      if is_type s.rtype_of_set Rtype.rrsig then filter (follows t) s.records ++ rest else rest

  unfoldable pub listed_sets :
      Name → List (Rrset Name Dnskey) → List (Rrset Name Dnskey) → List (StoredRecord Name Dnskey)
  unfolding covering_rrsigs
  listed_sets owner group [] = []
  listed_sets owner group (s ∷ rrsets) =
      let rest = listed_sets owner group rrsets in
      if is_listed owner s
      then (s.records ++ covering_rrsigs s.rtype_of_set group) ++ rest
      else rest

  -- As ldns-signzone, the NSEC record of the apex and a signature over it come last.
  unfoldable pub apex_nsec : OwnerRrs Name Dnskey → List (StoredRecord Name Dnskey)
  unfolding first_in_set first_signature
  apex_nsec g =
      if o.invoked_as_ldns && (not o.use_nsec3 && name_eq.beq g.owner apex)
      then first_in_set Rtype.nsec g.rrsets ++ first_signature Rtype.nsec g.rrsets
      else []

  unfoldable pub owner_records : OwnerRrs Name Dnskey → List (StoredRecord Name Dnskey)
  unfolding listed_sets covering_rrsigs apex_nsec first_in_set first_signature plain_sets
  owner_records g =
      if o.order_rrsigs_after_the_rtype_they_cover
      then listed_sets g.owner g.rrsets g.rrsets ++ apex_nsec g
      else plain_sets g.rrsets

  unfoldable pub groups_records : List (OwnerRrs Name Dnskey) → List (StoredRecord Name Dnskey)
  unfolding owner_records listed_sets covering_rrsigs apex_nsec first_in_set first_signature
      plain_sets
  groups_records [] = []
  groups_records (g ∷ groups) = owner_records g ++ groups_records groups

  -- The first SOA record of the zone, and the signatures over SOA records where they are to follow.
  unfoldable pub soa_records : List (StoredRecord Name Dnskey) → List (StoredRecord Name Dnskey)
  soa_records records = elim (first_of (filter (λ r. is_type (rtype r) Rtype.soa) records)) [
    | [] ↦ []
    | r ∷ _ ↦
        r
        ∷ (if o.order_rrsigs_after_the_rtype_they_cover
            then filter (covers Rtype.soa) records
            else [])
  ]

  unfoldable pub written_records :
      List (StoredRecord Name Dnskey)
      → List (OwnerRrs Name Dnskey)
      → List (StoredRecord Name Dnskey)
  unfolding soa_records groups_records
  written_records records groups = soa_records records ++ groups_records groups
