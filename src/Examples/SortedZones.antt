-- ===== src/Examples/SortedZones.antt =====
-- A sort of the records of a zone that drops duplicates, and a zone file with duplicates.
use mathlib.Core.Path.{subst}
use dnst.Base.{
  ℕ, ◌==◌, ◌≡◌, refl, sym, ap, ◌∙◌, Bool, Bool-cases, true, false, ◌&&◌, inl, inr, ◌⊎◌, some, List,
  [], ◌∷◌, any, nat_eq, ok, if◌then◌else◌, In, Some, arith,
}
use dnst.Dns.{Rtype, Class, in_class, none_class, any_class, other_class, Soa}
use dnst.Signzone.{StoredRecord, Rdata, soa, dnskey, rrsig, zonemd, other}
use dnst.Signzone.Load.{Entry, a_record, load_entries, load_zone, find_apex, is_origin}
use dnst.Signzone.Load.Clean.{Duplicate, KeepsRecords, Clean, load_zone-Clean}
use dnst.Examples.SignedZones.{record_of, soa_record}

abbrev is_in : Class → Bool
is_in in_class = true
is_in none_class = false
is_in any_class = false
is_in (other_class n) = false

is_in-eq : (c : Class) → is_in c ≡ true → c ≡ in_class
is_in-eq in_class h = refl
is_in-eq none_class h = cc
is_in-eq any_class h = cc
is_in-eq (other_class n) h = cc

abbrev is_key : ℕ → Rdata ℕ ℕ → Bool
is_key k (dnskey l) = k == l
is_key k (soa _) = false
is_key k (rrsig _ _) = false
is_key k (zonemd _ _ _ _) = false
is_key k (other _ _) = false

abbrev same_key : Rdata ℕ ℕ → Rdata ℕ ℕ → Bool
same_key (dnskey k) d = is_key k d
same_key (soa _) d = false
same_key (rrsig _ _) d = false
same_key (zonemd _ _ _ _) d = false
same_key (other _ _) d = false

is_key-eq : (k : ℕ) (d : Rdata ℕ ℕ) → is_key k d ≡ true → d ≡ dnskey k
is_key-eq k (dnskey l) h = ap dnskey (grind arith)
is_key-eq k (soa _) h = cc
is_key-eq k (rrsig _ _) h = cc
is_key-eq k (zonemd _ _ _ _) h = cc
is_key-eq k (other _ _) h = cc

same_key-eq : (d e : Rdata ℕ ℕ) → same_key d e ≡ true → e ≡ d
same_key-eq (dnskey k) e h = is_key-eq k e h
same_key-eq (soa _) e h = cc
same_key-eq (rrsig _ _) e h = cc
same_key-eq (zonemd _ _ _ _) e h = cc
same_key-eq (other _ _) e h = cc

-- Whether two DNSKEY records are equal but for the TTL. Other records are all kept here.
abbrev same : StoredRecord ℕ ℕ → StoredRecord ℕ ℕ → Bool
same r x = same_key r.rdata x.rdata && (is_in r.class_ && (is_in x.class_ && x.owner == r.owner))

same-Duplicate : (r x : StoredRecord ℕ ℕ) → same r x ≡ true → Duplicate r x
same-Duplicate r x h = (
  ground arith,
  is_in-eq x.class_ (ground arith) ∙ sym (is_in-eq r.class_ (ground arith)),
  same_key-eq r.rdata x.rdata (ground arith),
)

-- The first of two duplicates is dropped.
abbrev put : StoredRecord ℕ ℕ → List (StoredRecord ℕ ℕ) → List (StoredRecord ℕ ℕ)
put r xs = if any (same r) xs then xs else r ∷ xs

abbrev without_duplicates : List (StoredRecord ℕ ℕ) → List (StoredRecord ℕ ℕ)
without_duplicates [] = []
without_duplicates (r ∷ xs) = put r (without_duplicates xs)

any-Some :
    (r : StoredRecord ℕ ℕ) (xs : List (StoredRecord ℕ ℕ))
    → any (same r) xs ≡ true
    → Some (Duplicate r) xs
any-Some r [] h = cc
any-Some r (x ∷ xs) h = elim (Bool-cases (same r x)) [
  | inl e ↦ inl (same-Duplicate r x e)
  | inr e ↦ inr (any-Some r xs (ground arith))
]

put-Some :
    (r : StoredRecord ℕ ℕ) (P : StoredRecord ℕ ℕ → Type 0) (xs : List (StoredRecord ℕ ℕ))
    → Some P xs
    → Some P (put r xs)
put-Some r P xs h = elim (any (same r) xs) as (λ b. Some P (if b then xs else r ∷ xs)) [
  | true ↦ h
  | false ↦ inr h
]

put_self : (r : StoredRecord ℕ ℕ) (xs : List (StoredRecord ℕ ℕ)) → Some (Duplicate r) (put r xs)
put_self r xs = elim (Bool-cases (any (same r) xs)) [
  | inl e ↦ subst (λ b. Some (Duplicate r) (if b then xs else r ∷ xs)) (sym e) (any-Some r xs e)
  | inr e ↦
      subst (λ b. Some (Duplicate r) (if b then xs else r ∷ xs)) (sym e) (inl (refl, refl, refl))
]

put-In :
    (r x : StoredRecord ℕ ℕ) (xs : List (StoredRecord ℕ ℕ)) → In x (put r xs) → (x ≡ r) ⊎ In x xs
put-In r x xs =
    elim (any (same r) xs) as (λ b. In x (if b then xs else r ∷ xs) → (x ≡ r) ⊎ In x xs) [
      | true ↦ inr
      | false ↦ λ h. h
    ]

without_duplicates-In :
    (x : StoredRecord ℕ ℕ) (xs : List (StoredRecord ℕ ℕ)) → In x (without_duplicates xs) → In x xs
without_duplicates-In x [] h = h
without_duplicates-In x (r ∷ xs) h = elim (put-In r x (without_duplicates xs) h) [
  | inl e ↦ inl e
  | inr i ↦ inr (without_duplicates-In x xs i)
]

without_duplicates-Some :
    (x : StoredRecord ℕ ℕ) (xs : List (StoredRecord ℕ ℕ))
    → In x xs
    → Some (Duplicate x) (without_duplicates xs)
without_duplicates-Some x (r ∷ xs) (inl e) =
    subst (λ y. Some (Duplicate y) (put r (without_duplicates xs))) (sym e)
      (put_self r (without_duplicates xs))
without_duplicates-Some x (r ∷ xs) (inr h) =
    put-Some r (Duplicate x) (without_duplicates xs) (without_duplicates-Some x xs h)
without_duplicates-Some x [] h = absurd h

keeps : KeepsRecords without_duplicates
keeps x xs = (without_duplicates-In x xs, without_duplicates-Some x xs)

-- The key 81 is there twice, with two TTLs.
abbrev entries : List (Entry ℕ ℕ)
entries =
    a_record (record_of (rrsig Rtype.soa []))
    ∷ a_record soa_record
    ∷ a_record (record (record_of (dnskey 81)) { ttl = 60 })
    ∷ a_record (record_of (zonemd 4 1 1 []))
    ∷ a_record (record_of (dnskey 81))
    ∷ a_record (record_of (other Rtype.ns (1 ∷ [])))
    ∷ []

abbrev loaded_records : List (StoredRecord ℕ ℕ)
loaded_records = soa_record ∷ record_of (dnskey 81) ∷ record_of (other Rtype.ns (1 ∷ [])) ∷ []

abbrev soa_data : Soa ℕ
soa_data = record {
  mname = 1;
  rname = 1;
  serial = 5;
  refresh = 1;
  retry = 1;
  expire = 1;
  minimum = 1;
}

loaded : load_zone without_duplicates (some 1) entries ≡ ok loaded_records
unfolding load_zone load_entries
loaded = refl

found_apex : find_apex loaded_records (some 1) ≡ ok (soa_record, soa_data)
unfolding find_apex
found_apex = refl

load_zone-Clean_example :
    (In soa_record loaded_records
      × ((soa_record.rdata ≡ soa soa_data) × (is_origin (some 1) soa_record.owner ≡ true)))
    × Clean entries loaded_records soa_record
load_zone-Clean_example =
    load_zone-Clean (some 1) without_duplicates entries keeps loaded found_apex
