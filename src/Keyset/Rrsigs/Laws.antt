-- ===== src/Keyset/Rrsigs/Laws.antt =====
-- What each result of check_rrsigs says of the zone (src/commands/keyset/cmd.rs).
use dnst.Base.{
  ◌≡◌, refl, Bool, Bool-cases, true, false, Option, none, inl, inr, List, [], ◌∷◌, ◌++◌,
  if◌then◌else◌, Eq, All, arith, ◌⊎◌,
}
use dnst.Dns.{Rtype}
use dnst.Keyset.Rrsigs.Authoritative.{
  authoritative, looked_at_types, looked_at, looked_at-authoritative,
}
use dnst.Keyset.Rrsigs.{
  CheckRrsigsResult, done, wait_record, wait_next_serial, KeyTags, is_nsec3, matches, check_types,
  and_then, below, delegation_at, check_names, check_rrsigs,
}

module _ {Name : Type 0} (sigmap : Name → Rtype → Option KeyTags) (expected_set : KeyTags) where
  abbrev pub well_signed : Name × Rtype → Bool
  well_signed (key, t) = matches sigmap expected_set key t

  scan : List (Name × Rtype) → CheckRrsigsResult Name → CheckRrsigsResult Name
  scan [] result = result
  scan ((key, t) ∷ rest) result =
      let kept = scan rest result in
      let failed = scan rest wait_next_serial in
      if matches sigmap expected_set key t
      then kept
      else if is_nsec3 t
      then failed
      else wait_record key t

  -- A record that does not end the check with its name.
  abbrev pub Passed : Name × Rtype → Type 0
  Passed (key, t) = (matches sigmap expected_set key t ≡ true) ⊎ (is_nsec3 t ≡ true)

  -- The first record that has wrong signatures and is no NSEC3 record.
  pub data First (key : Name) (t : Rtype) : List (Name × Rtype) → Type 0 where
    first :
        {es : List (Name × Rtype)}
        → matches sigmap expected_set key t ≡ false
        → is_nsec3 t ≡ false
        → First key t ((key, t) ∷ es)
    later :
        {e : Name × Rtype} {es : List (Name × Rtype)}
        → Passed e
        → First key t es
        → First key t (e ∷ es)

  -- Some record has wrong signatures, and all such are NSEC3 records.
  pub data OnlyNsec3 : List (Name × Rtype) → Type 0 where
    one :
        {key : Name} {t : Rtype} {es : List (Name × Rtype)}
        → matches sigmap expected_set key t ≡ false
        → is_nsec3 t ≡ true
        → All Passed es
        → OnlyNsec3 ((key, t) ∷ es)
    more :
        {e : Name × Rtype} {es : List (Name × Rtype)} → Passed e → OnlyNsec3 es → OnlyNsec3 (e ∷ es)

  -- What a result says of the records that were looked at.
  abbrev pub Says : CheckRrsigsResult Name → List (Name × Rtype) → Type 0
  Says done es = All (λ e. well_signed e ≡ true) es
  Says (wait_record key t) es = First key t es
  Says wait_next_serial es = OnlyNsec3 es

  scan_failed :
      (es : List (Name × Rtype))
      → ((scan es wait_next_serial ≡ wait_next_serial) × All Passed es)
        ⊎ ((key : Name) × (t : Rtype) × (scan es wait_next_serial ≡ wait_record key t)
            × First key t es)
  unfolding scan
  scan_failed [] = inl (refl, tt)
  scan_failed ((key, t) ∷ es) = elim (Bool-cases (matches sigmap expected_set key t)) [
    | inl m ↦ elim (scan_failed es) [
      | inl (e, all) ↦ inl (rw m e, (inl m, all))
      | inr (k, u, e, f) ↦ inr (k, u, rw m e, later (inl m) f)
    ]
    | inr m ↦ elim (Bool-cases (is_nsec3 t)) [
      | inl n ↦ elim (scan_failed es) [
        | inl (e, all) ↦ inl (rw (m, n) e, (inr n, all))
        | inr (k, u, e, f) ↦ inr (k, u, rw (m, n) e, later (inr n) f)
      ]
      | inr n ↦ inr (key, t, rw (m, n), first m n)
    ]
  ]

  scan-Says : (es : List (Name × Rtype)) → Says (scan es done) es
  unfolding scan
  scan-Says [] = tt
  scan-Says ((key, t) ∷ es) = elim (Bool-cases (matches sigmap expected_set key t)) [
    | inl m ↦ rw m (kept (scan es done) (scan-Says es) m)
    | inr m ↦ elim (Bool-cases (is_nsec3 t)) [
      | inl n ↦
          rw (m, n)
            (elim (scan_failed es) [
              | inl (e, all) ↦ rw e (one m n all)
              | inr (k, u, e, f) ↦ rw e (later (inr n) f)
            ])
      | inr n ↦ rw (m, n) (first m n)
    ]
  ]
    where
      kept :
          (r : CheckRrsigsResult Name)
          → Says r es
          → matches sigmap expected_set key t ≡ true
          → Says r ((key, t) ∷ es)
      kept done h m = (m, h)
      kept (wait_record k u) h m = later (inl m) h
      kept wait_next_serial h m = more (inl m) h

module _ {Name : Type 0} ⦃name_eq : Eq Name⦄ (ends_with : Name → Name → Bool)
    (sigmap : Name → Rtype → Option KeyTags) (zone : Name) (expected_set : KeyTags) where
  check_types-scan :
      (key : Name) (delegation : Option Name) (ts : List Rtype) (es : List (Name × Rtype))
      (k : CheckRrsigsResult Name → CheckRrsigsResult Name) (result : CheckRrsigsResult Name)
      → ((r : CheckRrsigsResult Name) → k r ≡ scan sigmap expected_set es r)
      → and_then (check_types ends_with sigmap zone expected_set key delegation ts result) k
        ≡ scan sigmap expected_set (looked_at_types zone key delegation ts ++ es) result
  unfolding check_types scan
  check_types-scan key delegation [] es k result h = h result
  check_types-scan key delegation (t ∷ ts) es k result h = ground (
    arith,
    check_types-scan key delegation ts es k result h,
    check_types-scan key delegation ts es k wait_next_serial h,
  )

  check_names-scan :
      (tree : List (Name × List Rtype)) (delegation : Option Name) (result : CheckRrsigsResult Name)
      → check_names ends_with sigmap zone expected_set tree delegation result
        ≡ scan sigmap expected_set (looked_at zone ends_with tree delegation) result
  unfolding check_names looked_at scan
  check_names-scan [] delegation result = refl
  check_names-scan ((key, rtypes) ∷ rest) delegation result =
      elim (Bool-cases (below ends_with key delegation)) [
        | inl b ↦ rw b (check_names-scan rest delegation result)
        | inr b ↦
            let here = delegation_at zone key rtypes in
            rw b (
              check_types-scan key here rtypes (looked_at zone ends_with rest here)
                (check_names ends_with sigmap zone expected_set rest here) result
                (check_names-scan rest here))
      ]

  -- The records that count are those at the apex but for the types DNSKEY, CDS and CDNSKEY, the DS
  -- and NSEC records at a delegation, none of the names below one, and all records of other names.
  -- The result `done` means that every one of them has exactly the expected signatures; `wait_record`
  -- names the first with other signatures that is no NSEC3 record; and `wait_next_serial` means that
  -- there are some with other signatures, all of them NSEC3.
  pub check_rrsigs-Says :
      (treemap : List (Name × List Rtype))
      → Says sigmap expected_set
          (check_rrsigs ends_with sigmap zone expected_set treemap)
          (authoritative zone ends_with treemap none)
  unfolding check_rrsigs
  check_rrsigs-Says treemap =
      rw (check_names-scan, looked_at-authoritative)
        (scan-Says sigmap expected_set (authoritative zone ends_with treemap none))
