-- ===== src/Examples/LoadedZones.antt =====
-- The command signzone at concrete inputs: serials, the keys of a zone and the order of output.
use mathlib.Core.Path.{subst}
use dnst.Base.{
  ℕ, ◌==◌, ◌+◌, ◌-◌, ◌%◌, ◌^◌, ◌≤◌, ◌≡◌, refl, sym, ap, ◌∙◌, Bool-cases, true, ◌&&◌, inl, inr,
  Option, none, some, List, [], ◌∷◌, any, filter, length, err, if◌then◌else◌, ltb, All, In, nat_eq,
  arith,
}
use dnst.Dns.{Rtype, in_class}
use dnst.Signzone.{StoredRecord, dnskey, rrsig, other}
use dnst.Signzone.Keys.{signing_sets}
use dnst.Signzone.Load.{SerialLibrary}
use dnst.Signzone.Load.Bumped.{NextIsGreater}
use dnst.Signzone.Zonemd.{ZoneLibrary}
use dnst.Signzone.Dnskeys.{all_dnskeys, insert_new, Apex, apex_records}
use dnst.Signzone.Dnskeys.Added.{Published, signing_sets-Published, InsertsOnce, insert_new-panics}
use dnst.Signzone.Output.{Rrset, OwnerRrs, covers, owner_records}
use dnst.Signzone.Output.Withheld.{owner_records_one_nsec_signature}
use dnst.Signzone.Output.Written.{signatures_in, owner_records-Written}
use dnst.Examples.SignedZones.{options, key_library, record_of, soa_record, zone_library, keys}

-- Serials by RFC 1982.
abbrev serials : SerialLibrary
serials = record {
  greater = λ a b. ltb 0 ((a + 2 ^ 32 - b) % 2 ^ 32) && ltb ((a + 2 ^ 32 - b) % 2 ^ 32) (2 ^ 31);
  add = λ s n. (s + n) % 2 ^ 32;
}

next_is_greater : NextIsGreater serials
next_is_greater s h = ground arith

abbrev zone_keys : List (StoredRecord ℕ ℕ)
zone_keys = record_of (dnskey 81) ∷ []

signing_sets-Published_example :
    All
      (Published key_library (all_dnskeys key_library options 1 in_class 3600 zone_keys keys))
      (signing_sets key_library options keys).0
    × All
        (Published key_library (all_dnskeys key_library options 1 in_class 3600 zone_keys keys))
        (signing_sets key_library options keys).1
    × All (λ r. In r (all_dnskeys key_library options 1 in_class 3600 zone_keys keys)) zone_keys
signing_sets-Published_example =
    signing_sets-Published key_library options 1 in_class 3600 zone_keys keys refl

-- A library in which the TTL stands for the whole record.
abbrev strict_library : ZoneLibrary ℕ ℕ ℕ
strict_library = record zone_library {
  insert = λ r records. if any (λ x. x.ttl == r.ttl) records then none else some (r ∷ records);
}

some-eq :
    {x y : List (StoredRecord ℕ ℕ)}
    → ◌≡◌ {A = Option (List (StoredRecord ℕ ℕ))} (some x) (some y)
    → x ≡ y
some-eq h = cc

inserts_once : InsertsOnce strict_library
inserts_once r records more h = elim (Bool-cases (any (λ x. x.ttl == r.ttl) records)) [
  | inl e ↦ cc (h, ap (λ b. if b then none else some (r ∷ records)) e)
  | inr e ↦
      let inserted = sym (ap (λ b. if b then none else some (r ∷ records)) e) ∙ h in
      subst (λ xs. strict_library.insert r xs ≡ none) (some-eq inserted) (ground arith)
]

abbrev apex : Apex ℕ ℕ
apex = record {
  name = 1;
  apex_class = in_class;
  default_ttl = 3600;
  dnskeys = zone_keys;
  cds = [];
  cdnskeys = [];
}

abbrev sign : ℕ → List (StoredRecord ℕ ℕ) → StoredRecord ℕ ℕ
sign k records = record_of (rrsig Rtype.dnskey (k ∷ []))

insert_new-panics_example :
    insert_new strict_library
      (apex_records key_library sign options apex (82 ∷ 82 ∷ 132 ∷ []) (81 ∷ []))
      (soa_record ∷ [])
    ≡ err "panic: should not fail"
insert_new-panics_example =
    insert_new-panics strict_library inserts_once key_library sign options apex 82 (132 ∷ [])
      (81 ∷ []) (soa_record ∷ []) refl refl

abbrev nsec_set : Rrset ℕ ℕ
nsec_set = record { rtype_of_set = Rtype.nsec; records = record_of (other Rtype.nsec []) ∷ [] }

abbrev signature_set : Rrset ℕ ℕ
signature_set = record {
  rtype_of_set = Rtype.rrsig;
  records = record_of (rrsig Rtype.nsec (1 ∷ [])) ∷ record_of (rrsig Rtype.nsec (2 ∷ [])) ∷ [];
}

abbrev group : OwnerRrs ℕ ℕ
group = record { owner = 1; rrsets = nsec_set ∷ signature_set ∷ [] }

owner_records_one_nsec_signature_example :
    length (
      filter
        (covers Rtype.nsec)
        (owner_records (record options { invoked_as_ldns = true }) 1 group))
    ≤ 1
owner_records_one_nsec_signature_example =
    owner_records_one_nsec_signature (record options { invoked_as_ldns = true }) 1 refl group refl
      refl (((refl, refl), tt), (((refl, refl), ((refl, refl), tt)), tt))

owner_records-Written_example :
    All (λ r. In r (owner_records options 1 group)) nsec_set.records
    × All
        (λ u.
          All
            (λ r. In r (owner_records options 1 group))
            (filter (covers Rtype.nsec) (signatures_in u)))
        group.rrsets
owner_records-Written_example =
    owner_records-Written options 1 group nsec_set refl refl (inl refl) (λ e. cc) (λ e. cc)
