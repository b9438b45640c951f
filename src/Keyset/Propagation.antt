-- ===== src/Keyset/Propagation.antt =====
-- The checks over the network (src/commands/keyset/cmd.rs): report_dnskey_propagated,
-- report_ds_propagated and report_rrsig_propagated, with the checks of one address. Queries are
-- parameters, and the sets of addresses and of target records are lists, the latter without
-- duplicates. Texts are shortened.
pub mod Targets
pub mod Served
pub mod Reported
pub mod Serials
pub mod Total
pub mod Fresh
use Prim.Native.String.{◌++◌ as ◌<+>◌}
use dnst.Base.{
  ℕ, ◌+◌, ◌==◌, String, Bool, true, false, ◌&&◌, Option, none, some, List, [], ◌∷◌, ◌++◌, map,
  filter, filter_map, Result, ok, err, ◌>>=◌, max, if◌then◌else◌, Eq, any,
}
use dnst.Dns.{Rtype, Rcode, noerror, rtype_eq}
use dnst.Keyset.Report.{
  AutoReportActionsResult, report, wait, AutoReportRrsigResult, rrsig_report, rrsig_wait, wait_soa,
  wait_record, wait_next_serial, default_wait, Probes,
}

-- The data of a record of a DNSKEY answer or target: a key, a signature, or something else.
pub data KeyData (Dnskey Rrsig : Type 0) : Type 0 where
  a_key : Dnskey → KeyData Dnskey Rrsig
  a_signature : Rrsig → KeyData Dnskey Rrsig
  neither : KeyData Dnskey Rrsig

-- A record, without its class: those that are stored and those that are asked for have class IN.
pub record Rr (Name Content : Type 0) : Type 0 where
  pub owner : Name
  pub ttl : ℕ
  pub content : Content

-- A record of the answer for NS: its owner, and the name server where it is an NS record.
pub record NsRecord (Name : Type 0) : Type 0 where
  pub owner : Name
  pub nsdname : Option Name

pub record NsAnswer (Name : Type 0) : Type 0 where
  pub rcode : Rcode
  pub answers : Result String (List (NsRecord Name))

-- The queries, the reading of records in text, the type that a signature covers, whether a DS record
-- is that of a key, and the order of serials. A time and a serial are numbers. The code panics on a DS
-- record with a digest type that the library cannot compute; here that is up to `is_ds_of`.
pub record Network (Name Address Dnskey Rrsig Ds : Type 0) : Type 0 where
  pub query_ns : Name → Result String (NsAnswer Name)
  pub lookup_host : Name → Result String (List Address)
  pub parent_zone : Name → Result String Name
  pub lookup_dnskey : Name → Address → Result String (List (Rr Name (KeyData Dnskey Rrsig)))
  pub lookup_ds : Name → Address → Result String (List (Rr Name Ds))
  pub lookup_soa : Name → Address → Result String (List (Rr Name ℕ))
  pub read_record : String → Option (Rr Name (KeyData Dnskey Rrsig))
  pub read_cdnskey : String → Option (Rr Name Dnskey)
  pub type_covered : Rrsig → Rtype
  pub is_ds_of : Ds → Dnskey → Bool
  pub less : ℕ → ℕ → Bool

-- A set of records: of two that are equal one is in the list.
abbrev pub same_record :
    {Name Content : Type 0}
    → ⦃name_eq : Eq Name⦄ → (Content → Content → Bool)
    → Rr Name Content
    → Rr Name Content
    → Bool
same_record ⦃name_eq⦄ same r t =
    name_eq.beq r.owner t.owner && (r.ttl == t.ttl && same r.content t.content)

unfoldable pub to_set : {A : Type 0} → (A → A → Bool) → List A → List A
to_set same [] = []
to_set same (x ∷ xs) = let rest = to_set same xs in if any (same x) rest then rest else x ∷ rest

abbrev pub or_keep : {Target : Type 0} → Target → Option (List Target) → Option (List Target)
or_keep t none = none
or_keep t (some targets) = some (t ∷ targets)

-- The targets without the first that fits.
unfoldable pub take_target :
    {Seen Target : Type 0} → (Seen → Target → Bool) → Seen → List Target → Option (List Target)
take_target fits r [] = none
take_target fits r (t ∷ targets) =
    let rest = or_keep t (take_target fits r targets) in if fits r t then some targets else rest

-- The loop over the records of an answer. Each record that counts takes a target that it fits.
module _ {Seen Target : Type 0} (counts : Seen → Bool) (fits : Seen → Target → Bool)
    (seen_ttl : Seen → ℕ) (target_ttl : Target → ℕ) (now : ℕ) where
  abbrev pub after_take :
      Seen
      → Option (List Target)
      → (List Target → AutoReportActionsResult)
      → AutoReportActionsResult
  after_take r none next = wait (now + seen_ttl r) "a record is not part of the target RRset"
  after_take r (some rest) next = next rest

  unfoldable pub check_records : ℕ → List Seen → List Target → AutoReportActionsResult
  unfolding take_target
  check_records max_ttl [] [] = report max_ttl
  check_records max_ttl [] (t ∷ targets) = wait (now + target_ttl t) "a required record is missing"
  check_records max_ttl (r ∷ records) targets = elim (counts r) [
    | true ↦
        after_take r (take_target fits r targets)
          (λ rest. check_records (max max_ttl (seen_ttl r)) records rest)
    | false ↦ check_records max_ttl records targets
  ]

abbrev pub is_less : {Name : Type 0} → (ℕ → ℕ → Bool) → ℕ → Rr Name ℕ → Bool
is_less less serial r = less r.content serial

abbrev pub first_or : {Name : Type 0} → ℕ → List (Rr Name ℕ) → AutoReportActionsResult
first_or now [] = report 0
first_or now (r ∷ records) = wait (now + r.ttl) "server has serial"

abbrev pub judge_soa :
    {Name : Type 0} → (ℕ → ℕ → Bool) → ℕ → ℕ → List (Rr Name ℕ) → AutoReportActionsResult
judge_soa less now serial [] = wait (now + default_wait) "no SOA record found"
judge_soa less now serial (r ∷ records) = first_or now (filter (is_less less serial) (r ∷ records))

abbrev pub or_zero : Option ℕ → ℕ
or_zero none = 0
or_zero (some t) = t

-- `none` is a panic: `expect` on a maximum that was never set.
abbrev pub report_max : Option ℕ → Option AutoReportActionsResult
report_max none = none
report_max (some t) = some (report t)

unfoldable pub join_dnskey :
    ℕ → Option ℕ → List (Result String AutoReportActionsResult) → Option AutoReportActionsResult
join_dnskey now max_ttl [] = report_max max_ttl
join_dnskey now max_ttl (err e ∷ res) =
    some (wait (now + default_wait) ("DNSKEY check failed: " <+> e))
join_dnskey now max_ttl (ok (wait until notice) ∷ res) = some (wait until notice)
join_dnskey now max_ttl (ok (report ttl) ∷ res) =
    join_dnskey now (some (max (or_zero max_ttl) ttl)) res

abbrev pub ok_or_panic : Option AutoReportActionsResult → Result String AutoReportActionsResult
ok_or_panic none = err "panic: cannot be None"
ok_or_panic (some r) = ok r

unfoldable pub join_ds :
    Option ℕ → List (Result String AutoReportActionsResult) → Result String AutoReportActionsResult
join_ds max_ttl [] = ok_or_panic (report_max max_ttl)
join_ds max_ttl (err e ∷ res) = err e
join_ds max_ttl (ok (wait until notice) ∷ res) = ok (wait until notice)
join_ds max_ttl (ok (report ttl) ∷ res) = join_ds (some (max (or_zero max_ttl) ttl)) res

unfoldable pub join_soa : List (Result String AutoReportActionsResult) → Result String Unit
join_soa [] = ok tt
join_soa (err e ∷ res) = err e
join_soa (ok (wait until notice) ∷ res) = err notice
join_soa (ok (report ttl) ∷ res) = join_soa res

abbrev pub non_empty : {A : Type 0} → String → List A → Result String (List A)
non_empty text [] = err text
non_empty text (x ∷ xs) = ok (x ∷ xs)

module _ {Name Address Dnskey Rrsig Ds : Type 0} ⦃name_eq : Eq Name⦄ ⦃key_eq : Eq Dnskey⦄
    ⦃sig_eq : Eq Rrsig⦄ (net : Network Name Address Dnskey Rrsig Ds) where
  abbrev pub ns_of : Name → NsRecord Name → Option Name
  ns_of zone r = if name_eq.beq r.owner zone then r.nsdname else none

  abbrev pub addresses_for_name : Name → Result String (List Address)
  addresses_for_name name = do res ← net.lookup_host name; non_empty "no IP addresses found" res

  unfoldable pub addresses_for_names : List Name → Result String (List Address)
  addresses_for_names [] = ok []
  addresses_for_names (n ∷ names) = do
    first ← addresses_for_name n
    rest ← addresses_for_names names
    ok (first ++ rest)

  abbrev pub expect_noerror : Rcode → Result String Unit
  expect_noerror rcode = elim rcode [ noerror ↦ ok tt | _ ↦ err "NS query failed" ]

  unfoldable pub addresses_for_zone : Name → Result String (List Address)
  unfolding addresses_for_names
  addresses_for_zone zone = do
    answer ← net.query_ns zone
    _ ← expect_noerror answer.rcode
    records ← answer.answers
    nameservers ← non_empty "no NS records" (filter_map (ns_of zone) records)
    addresses_for_names nameservers

  abbrev pub dnskey_counts : Name → Rr Name (KeyData Dnskey Rrsig) → Bool
  dnskey_counts zone r = elim r.content [
    | a_key _ ↦ name_eq.beq r.owner zone
    | a_signature s ↦ name_eq.beq r.owner zone && rtype_eq.beq (net.type_covered s) Rtype.dnskey
    | neither ↦ false
  ]

  abbrev pub same_data : KeyData Dnskey Rrsig → KeyData Dnskey Rrsig → Bool
  same_data (a_key k) (a_key l) = key_eq.beq l k
  same_data (a_key k) (a_signature s) = false
  same_data (a_key k) neither = false
  same_data (a_signature s) (a_key k) = false
  same_data (a_signature s) (a_signature t) = sig_eq.beq t s
  same_data (a_signature s) neither = false
  same_data neither d = false

  abbrev pub dnskey_fits : Rr Name (KeyData Dnskey Rrsig) → Rr Name (KeyData Dnskey Rrsig) → Bool
  dnskey_fits r target = same_data r.content target.content

  -- The set of the stored records that can be read.
  abbrev pub dnskey_target : List String → List (Rr Name (KeyData Dnskey Rrsig))
  dnskey_target dnskey_rrset =
      to_set (same_record same_data) (filter_map net.read_record dnskey_rrset)

  abbrev pub ds_target : List String → List (Rr Name Dnskey)
  ds_target cds_rrset = to_set (same_record key_eq.beq) (filter_map net.read_cdnskey cds_rrset)

  unfoldable pub check_dnskey_for_address :
      Name
      → List (Rr Name (KeyData Dnskey Rrsig))
      → ℕ
      → Address
      → Result String AutoReportActionsResult
  unfolding check_records take_target
  check_dnskey_for_address zone target_dnskey now address = do
    records ← net.lookup_dnskey zone address
    ok (
        check_records (dnskey_counts zone) dnskey_fits (λ r. r.ttl) (λ t. t.ttl) now 0 records
          target_dnskey)

  unfoldable pub check_ds_for_address :
      Name → List (Rr Name Dnskey) → ℕ → Address → Result String AutoReportActionsResult
  unfolding check_records take_target
  check_ds_for_address zone target_dnskey now address = do
    records ← net.lookup_ds zone address
    ok (
        check_records (λ r. name_eq.beq r.owner zone) (λ r t. net.is_ds_of r.content t.content)
          (λ r. r.ttl) (λ t. t.ttl) now 0 records target_dnskey)

  unfoldable pub check_soa_for_address :
      Name → ℕ → ℕ → Address → Result String AutoReportActionsResult
  check_soa_for_address zone serial now address = do
    records ← net.lookup_soa zone address
    ok (judge_soa net.less now serial records)

  abbrev pub join_or_wait :
      Name
      → ℕ
      → List (Rr Name (KeyData Dnskey Rrsig))
      → Result String (List Address)
      → Option AutoReportActionsResult
  join_or_wait zone now target_dnskey (err e) =
      some (wait (now + default_wait) ("Getting nameserver addresses failed: " <+> e))
  join_or_wait zone now target_dnskey (ok addresses) =
      join_dnskey now none (map (check_dnskey_for_address zone target_dnskey now) addresses)

  unfoldable pub report_dnskey_propagated : Name → List String → ℕ → Option AutoReportActionsResult
  unfolding addresses_for_zone addresses_for_names join_dnskey check_dnskey_for_address
      check_records take_target to_set
  report_dnskey_propagated zone dnskey_rrset now =
      join_or_wait zone now (dnskey_target dnskey_rrset) (addresses_for_zone zone)

  unfoldable pub report_ds_propagated :
      Name → List String → ℕ → Result String AutoReportActionsResult
  unfolding addresses_for_zone addresses_for_names join_ds check_ds_for_address check_records
      take_target to_set
  report_ds_propagated zone cds_rrset now = do
    parent ← net.parent_zone zone
    addresses ← addresses_for_zone parent
    join_ds none (map (check_ds_for_address zone (ds_target cds_rrset) now) addresses)

  unfoldable pub check_soa : Name → ℕ → ℕ → Result String Unit
  unfolding addresses_for_zone addresses_for_names join_soa check_soa_for_address
  check_soa zone serial now = do
    addresses ← addresses_for_zone zone
    join_soa (map (check_soa_for_address zone serial now) addresses)

  abbrev pub after_soa :
      (now serial ttl report_ttl : ℕ) → Result String Unit → AutoReportRrsigResult Name
  after_soa now serial ttl report_ttl (ok _) = rrsig_report report_ttl
  after_soa now serial ttl report_ttl (err e) = wait_soa (now + ttl) serial ttl report_ttl e

  abbrev pub after_check_zone :
      Name → ℕ → AutoReportRrsigResult Name → Result String (AutoReportRrsigResult Name)
  after_check_zone zone now (rrsig_report _) = err "panic: unreachable"
  after_check_zone zone now (rrsig_wait _ _) = err "panic: unreachable"
  after_check_zone zone now (wait_soa _ serial ttl report_ttl _) =
      ok (after_soa now serial ttl report_ttl (check_soa zone serial now))
  after_check_zone zone now (wait_record until name rtype ttl notice) =
      ok (wait_record until name rtype ttl notice)
  after_check_zone zone now (wait_next_serial until serial ttl notice) =
      ok (wait_next_serial until serial ttl notice)

  -- `checked` is the result of check_zone.
  unfoldable pub report_rrsig_propagated :
      Name
      → ℕ
      → Result String (AutoReportRrsigResult Name)
      → Result String (AutoReportRrsigResult Name)
  unfolding check_soa
  report_rrsig_propagated zone now checked = do result ← checked; after_check_zone zone now result
