-- ===== src/Examples/SignedZones.antt =====
-- The command signzone at concrete inputs: a small zone, its keys and its digests.
use dnst.Base.{
  ℕ, ◌==◌, ◌/◌, ◌%◌, ◌≡◌, refl, Bool, Bool-cases, true, false, inl, inr, some, List, [], ◌∷◌, ◌++◌,
  map, ok, if◌then◌else◌, All, In, nat_eq,
}
use dnst.Dns.{Rtype, in_class}
use dnst.Signzone.{StoredRecord, Rdata, soa, rrsig, zonemd, SignZone, hash_and_sign, ZonemdTuple}
use dnst.Signzone.Keys.{KeyLibrary, split_keys, new_algorithms, signing_sets}
use dnst.Signzone.Keys.Algorithms.{Covered}
use dnst.Signzone.Keys.Sets.{signing_sets-Covers}
use dnst.Signzone.Zonemd.{
  ZoneLibrary, composed, create_zonemd_digest_simple, replace_apex_zonemd_with_placeholder,
  create_zonemd_digest_and_records, update_zonemd_rrsig, insert_all, finish_zonemd, sign_records,
}
use dnst.Signzone.Zonemd.Unchanged.{ZoneLaws, at, Updated, ended, kept, replaced}
use dnst.Signzone.Zonemd.Verified.{Verifies, sign_records-Verifies}

abbrev pub options : SignZone ℕ
options = record {
  extra_comments = false;
  do_not_add_keys_to_zone = false;
  expiration = 2000;
  inception = 1000;
  origin = some 1;
  set_soa_serial_to_epoch_time = true;
  use_nsec3 = false;
  iterations = 0;
  nsec3_opt_out = false;
  hash_only = false;
  allow_zonemd_without_signing = false;
  zonemd = [];
  sign_dnskeys_with_all_keys = false;
  sign_with_every_unique_algorithm = true;
  order_rrsigs_after_the_rtype_they_cover = true;
  order_nsec3_rrs_by_unhashed_owner_name = false;
  preceed_zone_with_hash_list = false;
  use_yyyymmddhhmmss_rrsig_format = false;
  key_paths = "a" ∷ "b" ∷ [];
  invoked_as_ldns = false;
}

-- A key is a number: the last digit is odd for a KSK, and the rest is the algorithm.
abbrev pub key_library : KeyLibrary ℕ ℕ
key_library = record {
  is_secure_entry_point = λ k. k % 2 == 1;
  algorithm = λ k. k / 10;
  dnskey = λ k. k;
}

abbrev pub keys : List ℕ
keys = 81 ∷ 82 ∷ 132 ∷ []

both_sets : signing_sets key_library options keys ≡ (81 ∷ 132 ∷ [], 82 ∷ 132 ∷ [])
unfolding signing_sets split_keys new_algorithms
both_sets = refl

signing_sets-Covers_example :
    (All (Covered key_library (signing_sets key_library options keys).0) keys
      × All (Covered key_library (signing_sets key_library options keys).1) keys)
    × (All (λ k. In k keys) (signing_sets key_library options keys).0
        × All (λ k. In k keys) (signing_sets key_library options keys).1)
signing_sets-Covers_example = signing_sets-Covers key_library options keys refl

abbrev replace_chosen : (StoredRecord ℕ ℕ → Bool) → Rdata ℕ ℕ → StoredRecord ℕ ℕ → StoredRecord ℕ ℕ
replace_chosen chosen d r =
    if chosen r then record { owner = r.owner; class_ = r.class_; ttl = r.ttl; rdata = d } else r

abbrev rest_of : List (StoredRecord ℕ ℕ) → List (StoredRecord ℕ ℕ)
rest_of [] = []
rest_of (r ∷ records) = records

abbrev pub record_of : Rdata ℕ ℕ → StoredRecord ℕ ℕ
record_of d = record { owner = 1; class_ = in_class; ttl = 3600; rdata = d }

abbrev pub soa_record : StoredRecord ℕ ℕ
soa_record = record_of (
    soa (record {
      mname = 1;
      rname = 1;
      serial = 5;
      refresh = 1;
      retry = 1;
      expire = 1;
      minimum = 1;
    }))

-- A zone is not sorted here, the digest is the text itself, and a signature is its text.
abbrev pub zone_library : ZoneLibrary ℕ ℕ ℕ
zone_library = record {
  insert = λ r records. some (r ∷ records);
  update_data = λ chosen d records. map (replace_chosen chosen d) records;
  remove_all = λ apex t records. records;
  remove_first = λ apex t records. rest_of records;
  is_in_zone = λ apex name. true;
  compose_canonical = λ r. r.ttl ∷ [];
  sha384 = λ text. text;
  sha512 = λ text. 2 ∷ text;
  sign_rrset = λ apex keys records. ok (rrsig Rtype.zonemd (1 ∷ []) ∷ []);
  sign_zone = λ apex keys records. ok (records ++ (record_of (rrsig Rtype.zonemd []) ∷ []));
}

map_updates :
    (chosen : StoredRecord ℕ ℕ → Bool) (d : Rdata ℕ ℕ) (records : List (StoredRecord ℕ ℕ))
    → Updated chosen d records (map (replace_chosen chosen d) records)
map_updates chosen d [] = ended
map_updates chosen d (r ∷ records) = elim (Bool-cases (chosen r)) [
  | inl e ↦
      rw e (
        replaced r records (map (replace_chosen chosen d) records) e (map_updates chosen d records))
  | inr e ↦
      rw e (kept r records (map (replace_chosen chosen d) records) (map_updates chosen d records))
]

zone_laws : ZoneLaws zone_library
zone_laws = record {
  inserts = λ r records. at records;
  updates = map_updates;
  signs = λ apex keys records h. (refl, tt);
}

abbrev simple_sha384 : ZonemdTuple
simple_sha384 = record { scheme = 1; algorithm = 1 }

abbrev finished : List (StoredRecord ℕ ℕ)
finished =
    record_of (zonemd 5 1 1 (3600 ∷ [])) ∷ soa_record ∷ record_of (rrsig Rtype.zonemd (1 ∷ [])) ∷ []

signed :
    sign_records zone_library hash_and_sign 1 in_class 5 3600 keys
      (simple_sha384 ∷ [])
      (soa_record ∷ [])
    ≡ ok finished
unfolding sign_records replace_apex_zonemd_with_placeholder finish_zonemd
    create_zonemd_digest_and_records create_zonemd_digest_simple composed update_zonemd_rrsig
    insert_all
signed = refl

sign_records-Verifies_example :
    All (Verifies zone_library 1 5 finished finished) (simple_sha384 ∷ [])
sign_records-Verifies_example =
    sign_records-Verifies zone_library 1 5 zone_laws hash_and_sign in_class 3600 keys
      (simple_sha384 ∷ []) (soa_record ∷ []) signed
