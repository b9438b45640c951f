-- ===== src/Keyset/Rrsigs/Authoritative.antt =====
-- Which records of a zone need signatures that check_rrsigs looks at (src/commands/keyset/cmd.rs),
-- by the place of their names in the zone, and that the function looks at just these.
use dnst.Base.{
  ◌≡◌, refl, ap, Bool, Bool-cases, inl, inr, true, false, not, ◌&&◌, ◌||◌, Option, none, some, List,
  [], ◌∷◌, ◌++◌, if◌then◌else◌, Eq, any, arith,
}
use dnst.Dns.{Rtype, ns, ds, nsec, dnskey, cds, cdnskey}
use dnst.Keyset.Rrsigs.{skipped, is_ns, signed_by_ksk, signed_at_delegation, below, delegation_at}

-- Where a name is that is not below a delegation.
pub data Place : Type 0 where
  at_apex at_delegation inside : Place

-- At the apex the DNSKEY, CDS and CDNSKEY records, which the KSKs sign, do not count; at a
-- delegation only DS and NSEC do; at any other name every type does.
abbrev pub counts : Place → Rtype → Bool
counts at_apex dnskey = false
counts at_apex cds = false
counts at_apex cdnskey = false
counts at_apex _ = true
counts at_delegation ds = true
counts at_delegation nsec = true
counts at_delegation _ = false
counts inside _ = true

abbrev pub has_ns : List Rtype → Bool
has_ns [] = false
has_ns (ns ∷ rtypes) = true
has_ns (_ ∷ rtypes) = has_ns rtypes

abbrev pub cut_at : {Name : Type 0} → Place → Name → Option Name
cut_at at_apex name = none
cut_at at_delegation name = some name
cut_at inside name = none

abbrev pub is_beneath : {Name : Type 0} → (Name → Name → Bool) → Option Name → Name → Bool
is_beneath ends_with none name = false
is_beneath ends_with (some cut) name = ends_with name cut

abbrev pub counted : {Name : Type 0} → Place → Name → List Rtype → List (Name × Rtype)
counted place name [] = []
counted place name (t ∷ ts) =
    let rest = counted place name ts in if counts place t then (name, t) ∷ rest else rest

module _ {Name : Type 0} ⦃name_eq : Eq Name⦄ (zone : Name) where
  abbrev pub place_of : Name → List Rtype → Place
  place_of name rtypes =
      if name_eq.beq name zone then at_apex else if has_ns rtypes then at_delegation else inside

  -- The records that count, in the order of the names. `cut` is the delegation at the last name
  -- that is not below one, if there is one at it; names below it have glue, which does not count.
  unfoldable pub authoritative :
      (ends_with : Name → Name → Bool)
      → List (Name × List Rtype)
      → Option Name
      → List (Name × Rtype)
  authoritative ends_with [] cut = []
  authoritative ends_with ((name, rtypes) ∷ rest) cut =
      let glue = authoritative ends_with rest cut in
      let place = place_of name rtypes in
      let here = counted place name rtypes ++ authoritative ends_with rest (cut_at place name) in
      if is_beneath ends_with cut name then glue else here

  -- The records that the function does not skip.
  abbrev pub looked_at_types : Name → Option Name → List Rtype → List (Name × Rtype)
  looked_at_types key delegation [] = []
  looked_at_types key delegation (t ∷ ts) =
      let rest = looked_at_types key delegation ts in
      if skipped zone key delegation t then rest else (key, t) ∷ rest

  unfoldable pub looked_at :
      (ends_with : Name → Name → Bool)
      → List (Name × List Rtype)
      → Option Name
      → List (Name × Rtype)
  looked_at ends_with [] delegation = []
  looked_at ends_with ((key, rtypes) ∷ rest) delegation =
      let ignored = looked_at ends_with rest delegation in
      let here = delegation_at zone key rtypes in
      let kept = looked_at_types key here rtypes ++ looked_at ends_with rest here in
      if below ends_with key delegation then ignored else kept

  any-is_ns : (rtypes : List Rtype) → any is_ns rtypes ≡ has_ns rtypes
  any-is_ns [] = refl
  any-is_ns (t ∷ ts) = elim t as (λ t. any is_ns (t ∷ ts) ≡ has_ns (t ∷ ts)) [
    | Rtype.ns ↦ refl
    | _ ↦ any-is_ns ts
  ]

  -- The delegation that the function keeps at each place.
  delegation-cut_at :
      (key : Name) (rtypes : List Rtype)
      → delegation_at zone key rtypes ≡ cut_at (place_of key rtypes) key
  delegation-cut_at key rtypes = elim (Bool-cases (name_eq.beq key zone)) [
    | inl z ↦ rw (z, any-is_ns) (ground arith)
    | inr z ↦ elim (Bool-cases (has_ns rtypes)) [
      | inl n ↦ rw (z, any-is_ns, n) refl
      | inr n ↦ rw (z, any-is_ns, n) refl
    ]
  ]

  -- The guards of the loop say whether a type counts at its place.
  skipped-counts :
      (key : Name) (rtypes : List Rtype) (t : Rtype)
      → skipped zone key (cut_at (place_of key rtypes) key) t ≡ not (counts (place_of key rtypes) t)
  skipped-counts key rtypes t = elim (Bool-cases (name_eq.beq key zone)) [
    | inl z ↦ rw z (rw z (apex t))
    | inr z ↦ elim (Bool-cases (has_ns rtypes)) [
      | inl n ↦ rw (z, n) (rw z (delegation t))
      | inr n ↦ rw (z, n) (rw z (elsewhere t))
    ]
  ]
    where
      apex : (t : Rtype) → (signed_by_ksk t && true) ≡ not (counts at_apex t)
      apex t = elim t as (λ t. (signed_by_ksk t && true) ≡ not (counts at_apex t)) [
        | Rtype.ns ↦ refl
        | _ ↦ refl
      ]

      delegation :
          (t : Rtype)
          → (not (signed_at_delegation t) || (signed_by_ksk t && false))
            ≡ not (counts at_delegation t)
      delegation t =
          elim t
            as (λ t.
              (not (signed_at_delegation t) || (signed_by_ksk t && false))
              ≡ not (counts at_delegation t)) [ Rtype.ns ↦ refl | _ ↦ refl ]

      elsewhere : (t : Rtype) → (signed_by_ksk t && false) ≡ not (counts inside t)
      elsewhere t = elim t as (λ t. (signed_by_ksk t && false) ≡ not (counts inside t)) [
        | Rtype.ns ↦ refl
        | _ ↦ refl
      ]

  looked_at_types-counted :
      (key : Name) (rtypes ts : List Rtype)
      → looked_at_types key (cut_at (place_of key rtypes) key) ts
        ≡ counted (place_of key rtypes) key ts
  looked_at_types-counted key rtypes [] = refl
  looked_at_types-counted key rtypes (t ∷ ts) =
      let same = skipped-counts key rtypes t in
      let rest = looked_at_types-counted key rtypes ts in
      elim (Bool-cases (counts (place_of key rtypes) t)) [
        | inl c ↦ rw (same, c) (ap (λ es. (key, t) ∷ es) rest)
        | inr c ↦ rw (same, c) rest
      ]

  below-is_beneath :
      (ends_with : Name → Name → Bool) (key : Name) (cut : Option Name)
      → below ends_with key cut ≡ is_beneath ends_with cut key
  below-is_beneath ends_with key none = refl
  below-is_beneath ends_with key (some cut) = refl

  -- The function looks at exactly the records that count.
  pub looked_at-authoritative :
      (ends_with : Name → Name → Bool) (tree : List (Name × List Rtype)) (cut : Option Name)
      → looked_at ends_with tree cut ≡ authoritative ends_with tree cut
  unfolding looked_at authoritative
  looked_at-authoritative ends_with [] cut = refl
  looked_at-authoritative ends_with ((key, rtypes) ∷ rest) cut =
      rw
        (
          below-is_beneath,
          delegation-cut_at,
          looked_at_types-counted,
          looked_at-authoritative ends_with rest cut,
          looked_at-authoritative ends_with rest (cut_at (place_of key rtypes) key),
        )
        refl
