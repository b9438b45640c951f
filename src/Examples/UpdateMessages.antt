-- ===== src/Examples/UpdateMessages.antt =====
-- Serials, prerequisites and update sections at concrete inputs. Names are numbers here, and the
-- parser of record data makes a SOA of serial 5 for the type SOA, and other data otherwise.
use dnst.Base.{
  ℕ, ◌+◌, ◌^◌, ◌≤◌, ◌<◌, ◌≡◌, ◌≢◌, ◌↔◌, refl, String, true, none, some, List, [], ◌∷◌, ◌++◌, ok,
  err, All, ltb, length, arith, map,
}
use dnst.Dns.{Rtype, in_class, Soa, RecordData, soa_data, known, Record}
use dnst.Update.Serial.{verify_soa_serial_increment}
use dnst.Update.Serial.Window.{
  ahead, verify_soa_serial_increment_iff, verify_soa_serial_increment-both,
}
use dnst.Update.Message.{
  message_full, assertion_failed, UpdateAction, add, delete, clear, UpdatePrerequisites, Update,
  DomainLibrary, create_rr_addition,
}
use dnst.Update.Message.Sections.{
  UpdateMessage, serial_allowed, insert_prerequisites, insert_add_updates,
}
use dnst.Update.Message.Sections.Prerequisites.{prerequisite_records}
use dnst.Update.Message.Sections.Updates.{Parsed, insert_add_updates-eq-ok}

verify_soa_serial_increment_iff_example :
    (verify_soa_serial_increment 4294967295 3 ≡ true)
    ↔ ((0 < ahead 4294967295 3) × (ahead 4294967295 3 ≤ 2 ^ 31))
verify_soa_serial_increment_iff_example =
    verify_soa_serial_increment_iff 4294967295 3 (omega arith) (omega arith)

verify_soa_serial_increment-both_example :
    (verify_soa_serial_increment 1 2147483649 ≡ true)
    × (verify_soa_serial_increment 2147483649 1 ≡ true)
verify_soa_serial_increment-both_example =
    verify_soa_serial_increment-both 1 2147483649 (omega arith) (omega arith) (omega arith)

abbrev toy_soa : ℕ → Soa ℕ
toy_soa serial = record {
  mname = 1;
  rname = 2;
  serial = serial;
  refresh = 3600;
  retry = 600;
  expire = 86400;
  minimum = 60;
}

abbrev toy_data : Rtype → RecordData ℕ
toy_data Rtype.soa = soa_data (toy_soa 5)
toy_data t = known t (1 ∷ [])

-- The message has room for three records in a section.
abbrev toy : DomainLibrary ℕ ℕ
toy = record {
  rtype_from_str = λ s. some Rtype.a;
  uncertain_from_str = λ s. some 7;
  chain = λ u origin. some (u + origin);
  next_record = λ s origin c. none;
  parse_rdata = λ t s. some (toy_data t);
  has_room = λ section r. ltb (length section) 3;
}

abbrev asked : UpdatePrerequisites ℕ
asked = record {
  rrset_exists = some ((8, Rtype.a) ∷ []);
  rrset_exists_exact = none;
  rrset_non_existent = some ((9, Rtype.aaaa) ∷ []);
  name_in_use = some (10 ∷ []);
  name_not_in_use = none;
}

-- A fourth record does not fit.
prerequisites_overflow :
    insert_prerequisites toy (record asked { name_not_in_use = some (11 ∷ []) }) []
    ≡ err message_full
unfolding insert_prerequisites
prerequisites_overflow = refl

abbrev adding : Update ℕ
adding = record {
  domain = 20;
  action = add Rtype.soa ("x" ∷ []);
  class_ = in_class;
  ttl = 3600;
  rrset_exists = none;
  rrset_exists_exact = none;
  rrset_non_existent = none;
  name_in_use = none;
  name_not_in_use = none;
}

abbrev added : Record ℕ
added = record { owner = 20; class_ = in_class; ttl = 3600; rdata = soa_data (toy_soa 5) }

insert_add_updates_run :
    insert_add_updates toy adding Rtype.soa ("x" ∷ []) (toy_soa 4) [] ≡ ok (added ∷ [])
unfolding insert_add_updates serial_allowed
insert_add_updates_run = refl

-- A serial that does not move on is refused.
insert_add_updates_refused :
    insert_add_updates toy adding Rtype.soa ("x" ∷ []) (toy_soa 5) []
    ≡ err dnst.Update.Message.UpdateError.bad_serial
unfolding insert_add_updates serial_allowed
insert_add_updates_refused = refl

insert_add_updates-eq-ok_example :
    (◌≢◌ {A = List String} ("x" ∷ []) [])
    × ((ds : List (RecordData ℕ)) × Parsed toy Rtype.soa ("x" ∷ []) ds
        × All (λ d. serial_allowed (toy_soa 4) d ≡ true) ds
        × (added ∷ [] ≡ [] ++ map (create_rr_addition 20 in_class 3600) ds))
insert_add_updates-eq-ok_example =
    insert_add_updates-eq-ok toy adding Rtype.soa (toy_soa 4) ("x" ∷ []) [] (added ∷ [])
      insert_add_updates_run

-- A parser of zone files that reads one address record with a TTL.
abbrev reader : DomainLibrary ℕ ℕ
reader = record toy {
  next_record = λ s origin c.
      some (record { owner = origin; class_ = c; ttl = 300; rdata = known Rtype.a [] });
}

abbrev asking : Update ℕ
asking = record adding {
  rrset_exists_exact = some ("a record" ∷ []);
  name_in_use = some ("here" ∷ []);
}

abbrev parsed : UpdatePrerequisites ℕ
parsed = record asked {
  rrset_exists = none;
  rrset_exists_exact =
      some (record { owner = 6; class_ = in_class; ttl = 0; rdata = known Rtype.a [] } ∷ []);
  rrset_non_existent = none;
  name_in_use = some (13 ∷ []);
}

abbrev sent : UpdateMessage ℕ
sent = record {
  zone = 6;
  zone_type = Rtype.soa;
  zone_class = in_class;
  prerequisites = prerequisite_records parsed;
  updates = added ∷ [];
}

-- An exact prerequisite with another TTL stops a build that checks assertions.
insert_prerequisites_unchecked :
    insert_prerequisites toy (record asked { rrset_exists_exact = some (added ∷ []) }) []
    ≡ err assertion_failed
unfolding insert_prerequisites
insert_prerequisites_unchecked = refl
