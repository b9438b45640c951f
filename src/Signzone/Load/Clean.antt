-- ===== src/Signzone/Load/Clean.antt =====
-- What a loaded zone has and what it lacks (src/commands/signzone.rs).
use mathlib.Core.Path.{subst}
use dnst.Base.{
  String, In-All, All-of_In, ◌≡◌, ◌≢◌, refl, sym, ap, ◌∙◌, inl, inr, ◌⊎◌, Bool-cases, true, false,
  Option, List, [], ◌∷◌, Result, ok, >>=-eq-ok, ok-eq, if◌then◌else◌, Eq, All, All-weaken, In, Some,
  arith,
}
use dnst.Dns.{Rtype, Soa}
use dnst.Signzone.{StoredRecord, Rdata, soa, dnskey, rrsig, zonemd, other, rtype}
use dnst.Signzone.Zonemd.{is_zonemd}
use dnst.Signzone.Load.{
  Entry, a_record, include, invalid, is_denial_or_signature, is_origin, is_stripped, push_record,
  load_entries, load_zone, choose_soa, find_apex,
}

-- A type that signing does not make.
abbrev pub Plain : Rtype → Type 0
Plain t = (t ≢ Rtype.rrsig) × (t ≢ Rtype.nsec) × (t ≢ Rtype.nsec3) × (t ≢ Rtype.nsec3param)

abbrev pub Made : Rtype → Type 0
Made t = (t ≡ Rtype.rrsig) ⊎ ((t ≡ Rtype.nsec) ⊎ ((t ≡ Rtype.nsec3) ⊎ (t ≡ Rtype.nsec3param)))

module _ {Name Dnskey : Type 0} where
  -- The same record but for the TTL.
  abbrev pub Duplicate : StoredRecord Name Dnskey → StoredRecord Name Dnskey → Type 0
  Duplicate x y = (y.owner ≡ x.owner) × (y.class_ ≡ x.class_) × (y.rdata ≡ x.rdata)

  -- A record of the entries is in the zone, perhaps with another TTL, or its type is made by signing
  -- or ZONEMD.
  abbrev pub Loaded : List (StoredRecord Name Dnskey) → Entry Name Dnskey → Type 0
  Loaded records (a_record r) =
      Some (Duplicate r) records ⊎ (Made (rtype r) ⊎ (rtype r ≡ Rtype.zonemd))
  Loaded records include = ⊥
  Loaded records (invalid e) = ⊥

  -- What sorting does: it makes no record, and of each record it keeps one with equal owner, class
  -- and data. Of duplicates it may keep only one, whatever their TTLs.
  abbrev pub KeepsRecords :
      (List (StoredRecord Name Dnskey) → List (StoredRecord Name Dnskey)) → Type 0
  KeepsRecords sorted =
      (x : StoredRecord Name Dnskey) (xs : List (StoredRecord Name Dnskey))
      → (In x (sorted xs) → In x xs) × (In x xs → Some (Duplicate x) (sorted xs))

  -- What is true of a zone that is loaded with an apex.
  abbrev pub Clean :
      List (Entry Name Dnskey) → List (StoredRecord Name Dnskey) → StoredRecord Name Dnskey → Type 0
  Clean entries records apex =
      All (λ r. Plain (rtype r) × ¬ ((r.owner ≡ apex.owner) × (rtype r ≡ Rtype.zonemd))) records
      × All (Loaded records) entries

Some-weaken :
    {A : Type 0} (P Q : A → Type 0) (xs : List A) → ((x : A) → P x → Q x) → Some P xs → Some Q xs
Some-weaken P Q [] f h = absurd h
Some-weaken P Q (x ∷ xs) f (inl h) = inl (f x h)
Some-weaken P Q (x ∷ xs) f (inr h) = inr (Some-weaken P Q xs f h)

Plain-if : (t : Rtype) → is_denial_or_signature t ≡ false → Plain t
Plain-if t e = (
  λ h. cc (e, ap is_denial_or_signature h),
  λ h. cc (e, ap is_denial_or_signature h),
  λ h. cc (e, ap is_denial_or_signature h),
  λ h. cc (e, ap is_denial_or_signature h),
)

Made-if : (t : Rtype) → is_denial_or_signature t ≡ true → Made t
Made-if t = elim t as (λ t. is_denial_or_signature t ≡ true → Made t) [
  | Rtype.rrsig ↦ λ e. inl refl
  | Rtype.nsec ↦ λ e. inr (inl refl)
  | Rtype.nsec3 ↦ λ e. inr (inr (inl refl))
  | Rtype.nsec3param ↦ λ e. inr (inr (inr refl))
  | _ ↦ λ e. cc
]

not_zonemd : (t : Rtype) → is_zonemd t ≡ false → t ≢ Rtype.zonemd
not_zonemd t e h = cc (e, ap is_zonemd h)

zonemd_if : (t : Rtype) → is_zonemd t ≡ true → t ≡ Rtype.zonemd
zonemd_if t = elim t as (λ t. is_zonemd t ≡ true → t ≡ Rtype.zonemd) [
  | Rtype.zonemd ↦ λ e. refl
  | _ ↦ λ e. cc
]

module _ {Name Dnskey : Type 0} ⦃name_eq : Eq Name⦄ (origin : Option Name) where
  -- What is true of every record of a loaded zone.
  abbrev Kept : StoredRecord Name Dnskey → Type 0
  Kept r = is_stripped origin r ≡ false

  push_record-Kept :
      (r : StoredRecord Name Dnskey) (records : List (StoredRecord Name Dnskey))
      → All Kept records
      → All Kept (push_record origin r records)
  push_record-Kept r records h = elim (Bool-cases (is_stripped origin r)) [
    | inl e ↦ rw e h
    | inr e ↦
        subst (λ xs. All Kept xs) (sym (ap (λ b. if b then records else r ∷ records) e)) (e, h)
  ]

  In-push_record :
      (r : StoredRecord Name Dnskey) (records : List (StoredRecord Name Dnskey))
      → Loaded (push_record origin r records) (a_record r)
  In-push_record r records = elim (Bool-cases (is_zonemd (rtype r))) [
    | inl z ↦ inr (inr (zonemd_if (rtype r) z))
    | inr z ↦ elim (Bool-cases (is_denial_or_signature (rtype r))) [
      | inl d ↦ inr (inl (Made-if (rtype r) d))
      | inr d ↦ inl (
          subst (Some (Duplicate r))
            (sym (ap (λ b. if b then records else r ∷ records) (unstripped r z d)))
            (inl (refl, refl, refl)))
    ]
  ]
    where
      unstripped :
          (r : StoredRecord Name Dnskey)
          → is_zonemd (rtype r) ≡ false
          → is_denial_or_signature (rtype r) ≡ false
          → is_stripped origin r ≡ false
      unstripped r z d = ground (arith, z, d)

  push_record-Some :
      (r x : StoredRecord Name Dnskey) (records : List (StoredRecord Name Dnskey))
      → Some (Duplicate x) records
      → Some (Duplicate x) (push_record origin r records)
  push_record-Some r x records h =
      elim (is_stripped origin r)
        as (λ b. Some (Duplicate x) (if b then records else r ∷ records)) [
          | true ↦ h
          | false ↦ inr h
        ]

  push_record-Loaded :
      (r : StoredRecord Name Dnskey) (records : List (StoredRecord Name Dnskey))
      (e : Entry Name Dnskey)
      → Loaded records e
      → Loaded (push_record origin r records) e
  push_record-Loaded r records (a_record x) (inl h) = inl (push_record-Some r x records h)
  push_record-Loaded r records (a_record x) (inr h) = inr h
  push_record-Loaded r records include h = absurd h
  push_record-Loaded r records (invalid e) h = absurd h

  load_entries-Kept :
      (entries : List (Entry Name Dnskey)) {records : List (StoredRecord Name Dnskey)}
      → load_entries origin entries ≡ ok records
      → All Kept records × All (Loaded records) entries
  unfolding load_entries
  load_entries-Kept [] h = subst (λ xs. All Kept xs × Unit {0}) (ok-eq h) (tt, tt)
  load_entries-Kept (include ∷ entries) h = cc
  load_entries-Kept (invalid e ∷ entries) h = cc
  load_entries-Kept (a_record r ∷ entries) h =
      let (rest, loaded, h1) = >>=-eq-ok (load_entries origin entries) _ h in
      let (kept, all) = load_entries-Kept entries loaded in
      subst (λ xs. All Kept xs × All (Loaded xs) (a_record r ∷ entries)) (ok-eq h1)
        (
          push_record-Kept r rest kept,
          (
            In-push_record r rest,
            All-weaken (Loaded rest) (Loaded (push_record origin r rest)) entries
                (push_record-Loaded r rest) all,
          ),
        )

  abbrev ApexOf : List (StoredRecord Name Dnskey) → StoredRecord Name Dnskey → Soa Name → Type 0
  ApexOf records r s = In r records × ((r.rdata ≡ soa s) × (is_origin origin r.owner ≡ true))

  ApexOf-later :
      (x : StoredRecord Name Dnskey) (records : List (StoredRecord Name Dnskey))
      {r : StoredRecord Name Dnskey} {s : Soa Name}
      → ApexOf records r s
      → ApexOf (x ∷ records) r s
  ApexOf-later x records (h, e) = (inr h, e)

  choose_soa-ApexOf :
      (x : StoredRecord Name Dnskey) (d : Rdata Name Dnskey)
      (records : List (StoredRecord Name Dnskey))
      (rest : Result String (StoredRecord Name Dnskey × Soa Name)) {r : StoredRecord Name Dnskey}
      {s : Soa Name}
      → x.rdata ≡ d
      → (rest ≡ ok (r, s) → ApexOf records r s)
      → choose_soa origin x d rest ≡ ok (r, s)
      → ApexOf (x ∷ records) r s
  choose_soa-ApexOf x (soa t) records rest {r} {s} e ih h =
      elim (Bool-cases (is_origin origin x.owner)) [
        | inl o ↦
            let found = ok-eq (sym (ap (λ b. if b then ok (x, t) else rest) o) ∙ h) in
            (
              inl (sym (ap (λ p. p.0) found)),
              (
                subst (λ p. p.0.rdata ≡ soa p.1) found e,
                subst (λ p. is_origin origin p.0.owner ≡ true) found o,
              ),
            )
        | inr o ↦ ApexOf-later x records (ih (sym (ap (λ b. if b then ok (x, t) else rest) o) ∙ h))
      ]
  choose_soa-ApexOf x (dnskey _) records rest e ih h = ApexOf-later x records (ih h)
  choose_soa-ApexOf x (rrsig _ _) records rest e ih h = ApexOf-later x records (ih h)
  choose_soa-ApexOf x (zonemd _ _ _ _) records rest e ih h = ApexOf-later x records (ih h)
  choose_soa-ApexOf x (other _ _) records rest e ih h = ApexOf-later x records (ih h)

  find_apex-ApexOf :
      (records : List (StoredRecord Name Dnskey)) {r : StoredRecord Name Dnskey} {s : Soa Name}
      → find_apex records origin ≡ ok (r, s)
      → ApexOf records r s
  unfolding find_apex
  find_apex-ApexOf [] h = cc
  find_apex-ApexOf (x ∷ records) h =
      choose_soa-ApexOf x x.rdata records (find_apex records origin) refl (find_apex-ApexOf records)
        h

  -- A kept record of the owner of the apex is no ZONEMD record.
  Kept-not_zonemd :
      (apex : Name) (r : StoredRecord Name Dnskey)
      → is_origin origin apex ≡ true
      → Kept r
      → ¬ ((r.owner ≡ apex) × (rtype r ≡ Rtype.zonemd))
  Kept-not_zonemd apex r o k (e, z) =
      not_zonemd (rtype r) (ground (arith, k, sym (ap (λ n. is_origin origin n) (sym e)) ∙ o)) z

  Kept-Plain : (r : StoredRecord Name Dnskey) → Kept r → Plain (rtype r)
  Kept-Plain r k = Plain-if (rtype r) (ground (arith, k))

  Some-resorted :
      (x : StoredRecord Name Dnskey) (xs ys : List (StoredRecord Name Dnskey))
      → ((y : StoredRecord Name Dnskey) → In y xs → Some (Duplicate y) ys)
      → Some (Duplicate x) xs
      → Some (Duplicate x) ys
  Some-resorted x [] ys kept h = absurd h
  Some-resorted x (y ∷ xs) ys kept (inl (o, c, d)) =
      Some-weaken (Duplicate y) (Duplicate x) ys (λ z (o', c', d'). (o' ∙ o, c' ∙ c, d' ∙ d))
        (kept y (inl refl))
  Some-resorted x (y ∷ xs) ys kept (inr h) = Some-resorted x xs ys (λ z i. kept z (inr i)) h

  resorted_zone :
      (entries : List (Entry Name Dnskey)) (records more : List (StoredRecord Name Dnskey))
      (apex : StoredRecord Name Dnskey)
      → ((x : StoredRecord Name Dnskey) → In x more → In x records)
      → ((x : StoredRecord Name Dnskey) → In x records → Some (Duplicate x) more)
      → is_origin origin apex.owner ≡ true
      → All Kept records
      → All (Loaded records) entries
      → Clean entries more apex
  resorted_zone entries records more apex from same o kept loaded = (
    All-of_In _ more (λ x h. clean x (In-All Kept x records (from x h) kept)),
    All-weaken (Loaded records) (Loaded more) entries resorted loaded,
  )
    where
      clean :
          (r : StoredRecord Name Dnskey)
          → Kept r
          → Plain (rtype r) × ¬ ((r.owner ≡ apex.owner) × (rtype r ≡ Rtype.zonemd))
      clean r k = (Kept-Plain r k, Kept-not_zonemd apex.owner r o k)

      resorted : (e : Entry Name Dnskey) → Loaded records e → Loaded more e
      resorted (a_record r) (inl h) = inl (Some-resorted r records more same h)
      resorted (a_record r) (inr h) = inr h
      resorted include h = absurd h
      resorted (invalid e) h = absurd h

  -- A zone that is loaded, and in which the apex is found, has the apex as a SOA record of the origin
  -- where one is given; no record of a type that signing makes, and no ZONEMD record at the apex; and
  -- for every record of the file of another type than these one of the same owner, class and data.
  -- All entries of the file are records. Sorting makes no record, and may drop those that are equal
  -- in owner, class and data to one that it keeps.
  pub load_zone-Clean :
      (sorted : List (StoredRecord Name Dnskey) → List (StoredRecord Name Dnskey))
      (entries : List (Entry Name Dnskey)) {records : List (StoredRecord Name Dnskey)}
      {apex : StoredRecord Name Dnskey} {s : Soa Name}
      → KeepsRecords sorted
      → load_zone sorted origin entries ≡ ok records
      → find_apex records origin ≡ ok (apex, s)
      → (In apex records × ((apex.rdata ≡ soa s) × (is_origin origin apex.owner ≡ true)))
        × Clean entries records apex
  unfolding load_zone
  load_zone-Clean sorted entries {records} {apex} keeps h found =
      let (xs, loaded, h1) = >>=-eq-ok (load_entries origin entries) _ h in
      let (kept, all) = load_entries-Kept entries loaded in
      let at_apex = find_apex-ApexOf records found in
      (
        at_apex,
        resorted_zone entries xs records apex
            (λ x. subst (λ more. In x more → In x xs) (ok-eq h1) (keeps x xs).0)
            (λ x. subst (λ more. In x xs → Some (Duplicate x) more) (ok-eq h1) (keeps x xs).1)
            at_apex.1.1 kept all,
      )
