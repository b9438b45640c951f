-- ===== src/Keyset/Propagation/Total.antt =====
-- The panics of report_dnskey_propagated cannot be (src/commands/keyset/cmd.rs).
use dnst.Base.{
  ℕ, ◌+◌, ◌≡◌, ◌≢◌, sym, ap, ◌∙◌, String, inl, inr, Option-cases, none, some, List, [], ◌∷◌, ◌++◌,
  map, filter_map, max, Result, Result-cases, ok, err, >>=-eq-ok, ok-eq, Eq,
}
use dnst.Keyset.Report.{AutoReportActionsResult, report, wait, default_wait}
use dnst.Keyset.Propagation.{
  Network, join_dnskey, non_empty, ns_of, expect_noerror, addresses_for_name, addresses_for_names,
  addresses_for_zone, dnskey_target, check_dnskey_for_address, join_or_wait,
  report_dnskey_propagated,
}

join_some :
    (now t : ℕ) (res : List (Result String AutoReportActionsResult))
    → join_dnskey now (some t) res ≢ none
unfolding join_dnskey
join_some now t [] h = cc
join_some now t (err e ∷ res) h = cc
join_some now t (ok (wait until notice) ∷ res) h = cc
join_some now t (ok (report u) ∷ res) h = join_some now (max t u) res h

join_any :
    (now : ℕ) (r : Result String AutoReportActionsResult)
    (res : List (Result String AutoReportActionsResult))
    → join_dnskey now none (r ∷ res) ≢ none
unfolding join_dnskey
join_any now (err e) res h = cc
join_any now (ok (wait until notice)) res h = cc
join_any now (ok (report u)) res h = join_some now (max 0 u) res h

-- A list has a first member.
abbrev NonEmpty : {A : Type 0} → List A → Type 0
NonEmpty {A} xs = (x : A) × (more : List A) × (xs ≡ x ∷ more)

non_empty-NonEmpty :
    {A : Type 0} (text : String) (xs : List A) {ys : List A}
    → non_empty text xs ≡ ok ys
    → NonEmpty ys
non_empty-NonEmpty text [] h = cc
non_empty-NonEmpty text (x ∷ xs) h = (x, xs, sym (ok-eq h))

append-NonEmpty :
    {A : Type 0} (xs ys : List A) {zs : List A} → NonEmpty xs → xs ++ ys ≡ zs → NonEmpty zs
append-NonEmpty xs ys (x, more, e) h = (x, more ++ ys, sym h ∙ ap (λ l. l ++ ys) e)

module _ {Name Address Dnskey Rrsig Ds : Type 0} ⦃name_eq : Eq Name⦄ ⦃key_eq : Eq Dnskey⦄
    ⦃sig_eq : Eq Rrsig⦄ (net : Network Name Address Dnskey Rrsig Ds) where
  name_has_address :
      (name : Name) {addresses : List Address}
      → addresses_for_name net name ≡ ok addresses
      → NonEmpty addresses
  name_has_address name h =
      let (res, looked_up, h1) = >>=-eq-ok (net.lookup_host name) _ h in
      non_empty-NonEmpty "no IP addresses found" res h1

  names_have_address :
      (names : List Name) {addresses : List Address}
      → NonEmpty names
      → addresses_for_names net names ≡ ok addresses
      → NonEmpty addresses
  unfolding addresses_for_names
  names_have_address [] (x, more, e) h = absurd (no_names e)
    where
      no_names : {x : Name} {xs : List Name} → ¬ ([] ≡ x ∷ xs)
      no_names k = cc
  names_have_address (n ∷ names) found h =
      let (first, looked_up, h1) = >>=-eq-ok (addresses_for_name net n) _ h in
      let (rest, others, h2) = >>=-eq-ok (addresses_for_names net names) _ h1 in
      append-NonEmpty first rest (name_has_address n looked_up) (ok-eq h2)

  zone_has_address :
      (zone : Name) {addresses : List Address}
      → addresses_for_zone net zone ≡ ok addresses
      → NonEmpty addresses
  unfolding addresses_for_zone
  zone_has_address zone h =
      let (answer, asked, h1) = >>=-eq-ok (net.query_ns zone) _ h in
      let (_, answered, h2) = >>=-eq-ok (expect_noerror net answer.rcode) _ h1 in
      let (records, read, h3) = >>=-eq-ok answer.answers _ h2 in
      let (names, found, h4) =
        >>=-eq-ok (non_empty "no NS records" (filter_map (ns_of net zone) records)) _ h3 in
      names_have_address names
        (non_empty-NonEmpty "no NS records" (filter_map (ns_of net zone) records) found) h4

  -- The check of the DNSKEY record set always has a result: neither the assertion that there is an
  -- address nor `expect` on the maximum of the TTLs fails.
  pub report_dnskey_propagated_total :
      (zone : Name) (dnskey_rrset : List String) (now : ℕ)
      → (r : AutoReportActionsResult) × (report_dnskey_propagated net zone dnskey_rrset now
          ≡ some r)
  unfolding report_dnskey_propagated
  report_dnskey_propagated_total zone dnskey_rrset now =
      elim (Result-cases (addresses_for_zone net zone)) [
        | inl (e, failed) ↦ (
          wait (now + default_wait) _,
          ap (join_or_wait net zone now (dnskey_target net dnskey_rrset)) failed,
        )
        | inr (addresses, found) ↦
            let check = check_dnskey_for_address net zone (dnskey_target net dnskey_rrset) now in
            let (a, more, e) = zone_has_address zone found in
            let joined =
              ap (join_or_wait net zone now (dnskey_target net dnskey_rrset)) found
              ∙ ap (λ xs. join_dnskey now none (map check xs)) e in
            elim (Option-cases (join_dnskey now none (check a ∷ map check more))) [
              | inl nothing ↦ absurd (join_any now (check a) (map check more) nothing)
              | inr (r, result) ↦ (r, joined ∙ result)
            ]
      ]
