-- ===== src/Keyset/Propagation/Serials.antt =====
-- The serials that the servers have when signatures are reported (src/commands/keyset/cmd.rs).
use dnst.Base.{ℕ, ◌≡◌, ◌≢◌, String, false, List, [], All, Result, ok, Eq}
use dnst.Keyset.Report.{AutoReportRrsigResult, wait_soa}
use dnst.Keyset.Propagation.{Rr, Network}

module _ {Name Address Dnskey Rrsig Ds : Type 0} ⦃name_eq : Eq Name⦄ ⦃key_eq : Eq Dnskey⦄
    ⦃sig_eq : Eq Rrsig⦄ (net : Network Name Address Dnskey Rrsig Ds) (zone : Name) (now : ℕ) where
  -- An address answers with a SOA record, and with none whose serial is less.
  abbrev pub HasSerial : ℕ → Address → Type 0
  HasSerial serial a =
      (records : List (Rr Name ℕ)) × (net.lookup_soa zone a ≡ ok records)
      × (records ≢ [])
      × All (λ r. net.less r.content serial ≡ false) records

  -- The check of the zone that a report of the signatures rests on.
  abbrev pub ZoneChecked : Result String (AutoReportRrsigResult Name) → ℕ → ℕ → Type 0
  ZoneChecked checked serial ttl =
      (until : ℕ) × (soa_ttl : ℕ) × (notice : String) × (checked
        ≡ ok (wait_soa until serial soa_ttl ttl notice))
