-- ===== src/Keyset/Propagation/Reported.antt =====
-- What a report of the checks of all addresses means (src/commands/keyset/cmd.rs).
use dnst.Base.{
  ℕ, ◌≤◌, ◌≡◌, refl, sym, ap, ◌∙◌, String, inl, inr, Option, none, some, List, [], ◌∷◌, map,
  filter_map, In, ◌↔◌, All, All-weaken, max, Result, Result-cases, ok, err, >>=-eq-ok, ok-eq, Eq,
  arith,
}
use dnst.Keyset.Report.{AutoReportActionsResult, report, wait}
use dnst.Keyset.Propagation.{
  KeyData, Rr, Network, or_zero, report_max, join_dnskey, ok_or_panic, join_ds, join_soa,
  addresses_for_zone, dnskey_target, ds_target, dnskey_counts, dnskey_fits,
  check_dnskey_for_address, check_ds_for_address, join_or_wait, report_dnskey_propagated,
  report_ds_propagated,
}
use dnst.Keyset.Propagation.Targets.{dnskey_target-In, ds_target-In}
use dnst.Keyset.Propagation.Served.{Matches, within, check_records-Matches}

module _ {Address : Type 0} (check : Address → Result String AutoReportActionsResult) where
  -- The check of an address gives a report of at most a TTL.
  abbrev Reports : ℕ → Address → Type 0
  Reports limit a = (ttl : ℕ) × (check a ≡ ok (report ttl)) × (ttl ≤ limit)

  max_bounds : (a b c : ℕ) → max a b ≤ c → (a ≤ c) × (b ≤ c)
  max_bounds a b c h = (ground arith, ground arith)

  report_max-eq : (m : Option ℕ) {ttl : ℕ} → report_max m ≡ some (report ttl) → or_zero m ≤ ttl
  report_max-eq none h = cc
  report_max-eq (some t) {ttl} h = omega (arith, same)
    where
      same : t ≡ ttl
      same = cc

  Reports-more :
      (m : Option ℕ) (a : Address) (addresses : List Address) (t ttl : ℕ)
      → check a ≡ ok (report t)
      → (max (or_zero m) t ≤ ttl) × All (Reports ttl) addresses
      → (or_zero m ≤ ttl) × All (Reports ttl) (a ∷ addresses)
  Reports-more m a addresses t ttl e (le, all) =
      let (le_max, le_t) = max_bounds (or_zero m) t ttl le in (le_max, ((t, e, le_t), all))

  join_dnskey-Reports :
      (now : ℕ) (m : Option ℕ) (addresses : List Address) {ttl : ℕ}
      → join_dnskey now m (map check addresses) ≡ some (report ttl)
      → (or_zero m ≤ ttl) × All (Reports ttl) addresses
  unfolding join_dnskey
  join_dnskey-Reports now m [] h = (report_max-eq m h, tt)
  join_dnskey-Reports now m (a ∷ addresses) {ttl} h =
      by_result (check a) refl h (λ n. join_dnskey-Reports now n addresses)
    where
      by_result :
          (r : Result String AutoReportActionsResult)
          → check a ≡ r
          → join_dnskey now m (r ∷ map check addresses) ≡ some (report ttl)
          → ((n : Option ℕ)
              → join_dnskey now n (map check addresses) ≡ some (report ttl)
              → (or_zero n ≤ ttl) × All (Reports ttl) addresses)
          → (or_zero m ≤ ttl) × All (Reports ttl) (a ∷ addresses)
      by_result (err e) same k ih = cc
      by_result (ok (wait until notice)) same k ih = cc
      by_result (ok (report t)) same k ih =
          Reports-more m a addresses t ttl same (ih (some (max (or_zero m) t)) k)

  panic_lem :
      (m : Option ℕ) {ttl : ℕ}
      → ok_or_panic (report_max m) ≡ ok (report ttl)
      → report_max m ≡ some (report ttl)
  panic_lem none h = cc
  panic_lem (some t) h = ap some (ok-eq h)

  join_ds-Reports :
      (m : Option ℕ) (addresses : List Address) {ttl : ℕ}
      → join_ds m (map check addresses) ≡ ok (report ttl)
      → (or_zero m ≤ ttl) × All (Reports ttl) addresses
  unfolding join_ds
  join_ds-Reports m [] h = (report_max-eq m (panic_lem m h), tt)
  join_ds-Reports m (a ∷ addresses) {ttl} h =
      by_result (check a) refl h (λ n. join_ds-Reports n addresses)
    where
      by_result :
          (r : Result String AutoReportActionsResult)
          → check a ≡ r
          → join_ds m (r ∷ map check addresses) ≡ ok (report ttl)
          → ((n : Option ℕ)
              → join_ds n (map check addresses) ≡ ok (report ttl)
              → (or_zero n ≤ ttl) × All (Reports ttl) addresses)
          → (or_zero m ≤ ttl) × All (Reports ttl) (a ∷ addresses)
      by_result (err e) same k ih = cc
      by_result (ok (wait until notice)) same k ih = cc
      by_result (ok (report t)) same k ih =
          Reports-more m a addresses t ttl same (ih (some (max (or_zero m) t)) k)

  pub join_soa-ok :
      (addresses : List Address)
      → join_soa (map check addresses) ≡ ok tt
      → All (λ a. (ttl : ℕ) × (check a ≡ ok (report ttl))) addresses
  unfolding join_soa
  join_soa-ok [] h = tt
  join_soa-ok (a ∷ addresses) h = by_result (check a) refl h (λ k. join_soa-ok addresses k)
    where
      by_result :
          (r : Result String AutoReportActionsResult)
          → check a ≡ r
          → join_soa (r ∷ map check addresses) ≡ ok tt
          → (join_soa (map check addresses) ≡ ok tt
              → All (λ a. (ttl : ℕ) × (check a ≡ ok (report ttl))) addresses)
          → All (λ a. (ttl : ℕ) × (check a ≡ ok (report ttl))) (a ∷ addresses)
      by_result (err e) same k ih = cc
      by_result (ok (wait until notice)) same k ih = cc
      by_result (ok (report t)) same k ih = ((t, same), ih k)

module _ {Name Address Dnskey Rrsig Ds : Type 0} ⦃name_eq : Eq Name⦄ ⦃key_eq : Eq Dnskey⦄
    ⦃sig_eq : Eq Rrsig⦄ (net : Network Name Address Dnskey Rrsig Ds) (zone : Name) (now : ℕ) where
  -- An address answers with the DNSKEY record set and signatures that are stored, as a set, and TTLs
  -- within the limit.
  abbrev pub ServesDnskey : List String → ℕ → Address → Type 0
  ServesDnskey dnskey_rrset limit a =
      (records : List (Rr Name (KeyData Dnskey Rrsig))) × (net.lookup_dnskey zone a ≡ ok records)
      × Matches (dnskey_counts net zone) (dnskey_fits net) (λ r. r.ttl) (λ t. t.ttl) now records
          (dnskey_target net dnskey_rrset) limit
      × ((x : Rr Name (KeyData Dnskey Rrsig))
          → In x (dnskey_target net dnskey_rrset) ↔ In x (filter_map net.read_record dnskey_rrset))

  -- An address answers with DS records of exactly the keys that are stored, as a set.
  abbrev pub ServesDs : List String → ℕ → Address → Type 0
  ServesDs cds_rrset limit a =
      (records : List (Rr Name Ds)) × (net.lookup_ds zone a ≡ ok records)
      × Matches (λ r. name_eq.beq r.owner zone) (λ r t. net.is_ds_of r.content t.content)
          (λ r. r.ttl) (λ t. t.ttl) now records (ds_target net cds_rrset) limit
      × ((x : Rr Name Dnskey)
          → In x (ds_target net cds_rrset) ↔ In x (filter_map net.read_cdnskey cds_rrset))

  -- Every address of every name server passes a check.
  abbrev pub AllAddresses : Name → (Address → Type 0) → Type 0
  AllAddresses name P =
      (addresses : List Address) × (addresses_for_zone net name ≡ ok addresses) × All P addresses

  served_dnskey :
      (dnskey_rrset : List String) (ttl : ℕ) (a : Address)
      → Reports (check_dnskey_for_address net zone (dnskey_target net dnskey_rrset) now) ttl a
      → ServesDnskey dnskey_rrset ttl a
  unfolding check_dnskey_for_address
  served_dnskey dnskey_rrset ttl a (t, e, le) =
      let (records, looked_up, h) = >>=-eq-ok (net.lookup_dnskey zone a) _ e in
      (
        records,
        looked_up,
        within (dnskey_counts net zone) (dnskey_fits net) (λ r. r.ttl) (λ r. r.ttl) now t ttl le
            records (dnskey_target net dnskey_rrset)
            (check_records-Matches (dnskey_counts net zone) (dnskey_fits net) (λ r. r.ttl)
              (λ r. r.ttl) now 0 records (dnskey_target net dnskey_rrset) (ok-eq h)).1,
        dnskey_target-In net dnskey_rrset,
      )

  served_ds :
      (cds_rrset : List String) (ttl : ℕ) (a : Address)
      → Reports (check_ds_for_address net zone (ds_target net cds_rrset) now) ttl a
      → ServesDs cds_rrset ttl a
  unfolding check_ds_for_address
  served_ds cds_rrset ttl a (t, e, le) =
      let (records, looked_up, h) = >>=-eq-ok (net.lookup_ds zone a) _ e in
      (
        records,
        looked_up,
        within (λ r. name_eq.beq r.owner zone) (λ r t. net.is_ds_of r.content t.content)
            (λ r. r.ttl) (λ r. r.ttl) now t ttl le records (ds_target net cds_rrset)
            (check_records-Matches (λ r. name_eq.beq r.owner zone)
              (λ r t. net.is_ds_of r.content t.content) (λ r. r.ttl) (λ r. r.ttl) now 0 records
              (ds_target net cds_rrset) (ok-eq h)).1,
        ds_target-In net cds_rrset,
      )

  -- A report that the DNSKEY record set has propagated means that every address of every name server
  -- of the zone answers with the keys and signatures that are stored, that none of these is missing
  -- and no other is there, and that the TTL in the report is no less than that of any such record.
  pub report_dnskey_propagated-AllAddresses :
      (dnskey_rrset : List String) {ttl : ℕ}
      → report_dnskey_propagated net zone dnskey_rrset now ≡ some (report ttl)
      → AllAddresses zone (ServesDnskey dnskey_rrset ttl)
  unfolding report_dnskey_propagated
  report_dnskey_propagated-AllAddresses dnskey_rrset {ttl} h =
      elim (Result-cases (addresses_for_zone net zone)) [
        | inl (e, failed) ↦
            absurd (not_waiting (sym (ap (join_or_wait net zone now target) failed) ∙ h))
        | inr (addresses, found) ↦
            let joined = sym (ap (join_or_wait net zone now target) found) ∙ h in
            let reports =
              join_dnskey-Reports (check_dnskey_for_address net zone target now) now none addresses
                joined in
            (
              addresses,
              found,
              All-weaken _ (ServesDnskey dnskey_rrset ttl) addresses
                  (served_dnskey dnskey_rrset ttl) reports.1,
            )
      ]
    where
      target : List (Rr Name (KeyData Dnskey Rrsig))
      target = dnskey_target net dnskey_rrset

      not_waiting :
          {until : ℕ} {notice : String} {ttl : ℕ}
          → ¬ (
              ◌≡◌ {A = Option AutoReportActionsResult}
                (some (wait until notice))
                (some (report ttl)))
      not_waiting k = cc

  -- A report that the DS record set has propagated means that every address of every name server of
  -- the parent zone answers with a DS record for each key that is stored and with no other.
  pub report_ds_propagated-AllAddresses :
      (cds_rrset : List String) {ttl : ℕ}
      → report_ds_propagated net zone cds_rrset now ≡ ok (report ttl)
      → (parent : Name) × (net.parent_zone zone ≡ ok parent)
        × AllAddresses parent (ServesDs cds_rrset ttl)
  unfolding report_ds_propagated
  report_ds_propagated-AllAddresses cds_rrset {ttl} h =
      let target = ds_target net cds_rrset in
      let (parent, found, h1) = >>=-eq-ok (net.parent_zone zone) _ h in
      let (addresses, resolved, h2) = >>=-eq-ok (addresses_for_zone net parent) _ h1 in
      let reports = join_ds-Reports (check_ds_for_address net zone target now) none addresses h2 in
      (
        parent,
        found,
        (
          addresses,
          resolved,
          All-weaken _ (ServesDs cds_rrset ttl) addresses (served_ds cds_rrset ttl) reports.1,
        ),
      )
