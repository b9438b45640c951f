-- ===== src/Examples/Propagated.antt =====
-- The checks over the network at a small network: one name server with one address.
use dnst.Base.{
  ℕ, ◌==◌, ◌≡◌, refl, String, some, List, [], ◌∷◌, ok, ltb, nat_eq, inl, none, false, true,
}
use dnst.Dns.{Rtype, noerror}
use dnst.Keyset.Report.{
  AutoReportActionsResult, report, wait, ReportState, Probes, return, rrsig_report,
}
use dnst.Keyset.Propagation.{
  KeyData, a_key, a_signature, Rr, Network, take_target, to_set, check_records, join_dnskey,
  join_ds, addresses_for_names, addresses_for_zone, check_dnskey_for_address, check_ds_for_address,
  report_dnskey_propagated, report_ds_propagated, check_soa,
}
use dnst.Keyset.Propagation.Reported.{
  AllAddresses, ServesDnskey, ServesDs, report_dnskey_propagated-AllAddresses,
  report_ds_propagated-AllAddresses,
}
use dnst.Keyset.Types.{Action}
use dnst.Keyset.Report.Max.{report_dnskey, report_action, report_loop, auto_report_actions}
use dnst.Keyset.Propagation.Fresh.{auto_report_actions-AllAddresses}
use dnst.Keyset.Propagation.Total.{report_dnskey_propagated_total}

-- Keys, signatures and DS records are numbers, and a DS record is that of the key with its number.
abbrev key_record : Rr ℕ (KeyData ℕ ℕ)
key_record = record { owner = 1; ttl = 300; content = a_key 7 }

abbrev network : Network ℕ ℕ ℕ ℕ ℕ
network = record {
  query_ns = λ zone.
      ok
        (record { rcode = noerror; answers = ok (record { owner = zone; nsdname = some 5 } ∷ []) });
  lookup_host = λ name. ok (name ∷ []);
  parent_zone = λ zone. ok 0;
  lookup_dnskey = λ zone address.
      ok (key_record ∷ record { owner = 1; ttl = 400; content = a_signature 8 } ∷ []);
  lookup_ds = λ zone address. ok (record { owner = 1; ttl = 500; content = 7 } ∷ []);
  lookup_soa = λ zone address. ok (record { owner = 1; ttl = 60; content = 10 } ∷ []);
  read_record = λ text. some key_record;
  read_cdnskey = λ text. some (record { owner = 1; ttl = 300; content = 7 });
  type_covered = λ s. Rtype.soa;
  is_ds_of = λ ds key. ds == key;
  less = λ a b. ltb a b;
}

abbrev stored : List String
stored = "a key" ∷ []

dnskey_reported : report_dnskey_propagated network 1 stored 1000 ≡ some (report 300)
unfolding report_dnskey_propagated addresses_for_zone addresses_for_names join_dnskey
    check_dnskey_for_address check_records take_target to_set
dnskey_reported = refl

-- A record that is stored twice is one record of the set.
dnskey_stored_twice :
    report_dnskey_propagated network 1 ("a key" ∷ "a key" ∷ []) 1000 ≡ some (report 300)
unfolding report_dnskey_propagated addresses_for_zone addresses_for_names join_dnskey
    check_dnskey_for_address check_records take_target to_set
dnskey_stored_twice = refl

dnskey_missing :
    report_dnskey_propagated
      (record network { lookup_dnskey = λ zone address. ok [] })
      1
      stored
      1000
    ≡ some (wait 1300 "a required record is missing")
unfolding report_dnskey_propagated addresses_for_zone addresses_for_names join_dnskey
    check_dnskey_for_address check_records take_target to_set
dnskey_missing = refl

report_dnskey_propagated-AllAddresses_example :
    AllAddresses network 1 1000 1 (ServesDnskey network 1 1000 stored 300)
report_dnskey_propagated-AllAddresses_example =
    report_dnskey_propagated-AllAddresses network 1 1000 stored dnskey_reported

ds_reported : report_ds_propagated network 1 stored 1000 ≡ ok (report 500)
unfolding report_ds_propagated addresses_for_zone addresses_for_names join_ds check_ds_for_address
    check_records take_target to_set
ds_reported = refl

report_ds_propagated-AllAddresses_example :
    (parent : ℕ) × (network.parent_zone 1 ≡ ok parent)
    × AllAddresses network 1 1000 parent (ServesDs network 1 1000 stored 500)
report_ds_propagated-AllAddresses_example =
    report_ds_propagated-AllAddresses network 1 1000 stored ds_reported

report_dnskey_propagated_total_example :
    (r : AutoReportActionsResult) × (report_dnskey_propagated network 1 stored 1000 ≡ some r)
report_dnskey_propagated_total_example = report_dnskey_propagated_total network 1 stored 1000

abbrev fresh : ReportState ℕ
fresh = record { dnskey = none; ds = none; rrsig = none }

abbrev probes : Probes ℕ
probes = record {
  now = 1000;
  dnskey_propagated = report 300;
  ds_propagated = ok (report 500);
  rrsig_propagated = ok (rrsig_report 3600);
  check_soa = λ serial. none;
  check_record = λ name rtype. none;
  check_next_serial = λ serial. none;
}

abbrev actions : List Action
actions = Action.report_dnskey_propagated ∷ []

fresh_report :
    auto_report_actions probes fresh false actions
    ≡ return (report 300) (record fresh { dnskey = some (report 300) }) true
unfolding auto_report_actions report_loop report_action report_dnskey
fresh_report = refl

auto_report_actions-AllAddresses_example :
    (ttl : ℕ) × ((record fresh { dnskey = some (report 300) }).dnskey ≡ some (report ttl))
    × AllAddresses network 1 1000 1 (ServesDnskey network 1 1000 stored ttl)
auto_report_actions-AllAddresses_example =
    auto_report_actions-AllAddresses network 1 probes stored actions fresh false dnskey_reported
      refl (inl refl) fresh_report
