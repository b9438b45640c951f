-- ===== src/Keyset/Propagation/Targets.antt =====
-- The target records of a check, as a set (src/commands/keyset/cmd.rs, the HashSets of
-- report_dnskey_propagated and report_ds_propagated).
use mathlib.Core.Path.{subst}
use dnst.Base.{
  ◌≡◌, sym, ap, ◌↔◌, inl, inr, Bool, Bool-cases, true, String, List, [], ◌∷◌, filter_map, any, In,
  Eq, arith,
}
use dnst.Keyset.Propagation.{
  KeyData, a_key, a_signature, neither, Rr, Network, same_record, to_set, same_data, dnskey_target,
  ds_target,
}

module _ {A : Type 0} (same : A → A → Bool) where
  any-In :
      (x : A) (xs : List A) → ((y : A) → same x y ≡ true → y ≡ x) → any (same x) xs ≡ true → In x xs
  any-In x [] e h = cc
  any-In x (y ∷ ys) e h = elim (Bool-cases (same x y)) [
    | inl s ↦ inl (sym (e y s))
    | inr s ↦ inr (any-In x ys e (ground arith))
  ]

  to_set-In :
      ((x y : A) → same x y ≡ true → y ≡ x)
      → (x : A) (xs : List A) → In x (to_set same xs) ↔ In x xs
  unfolding to_set
  to_set-In e x [] = (λ h. h, λ h. h)
  to_set-In e x (y ∷ ys) = elim (Bool-cases (any (same y) (to_set same ys))) [
    | inl a ↦ rw a (
      λ h. inr ((to_set-In e x ys).0 h),
      λ h. elim h [
        | inl s ↦ subst (λ z. In z (to_set same ys)) (sym s) (any-In y (to_set same ys) (e y) a)
        | inr i ↦ (to_set-In e x ys).1 i
      ],
    )
    | inr a ↦ rw a (
      λ h. elim h [ inl s ↦ inl s | inr i ↦ inr ((to_set-In e x ys).0 i) ],
      λ h. elim h [ inl s ↦ inl s | inr i ↦ inr ((to_set-In e x ys).1 i) ],
    )
  ]

same_record-eq :
    {Name Content : Type 0} ⦃name_eq : Eq Name⦄ (same : Content → Content → Bool)
    → ((c d : Content) → same c d ≡ true → d ≡ c)
    → (r t : Rr Name Content) → same_record same r t ≡ true
    → t ≡ r
same_record-eq ⦃name_eq⦄ same e r t h =
    let o : t.owner ≡ r.owner = sym ((name_eq.beq_iff r.owner t.owner).0 (ground arith)) in
    let l : t.ttl ≡ r.ttl = grind arith in
    let c : t.content ≡ r.content = e r.content t.content (ground arith) in
    λ i. record { owner = o i; ttl = l i; content = c i }

module _ {Name Address Dnskey Rrsig Ds : Type 0} ⦃name_eq : Eq Name⦄ ⦃key_eq : Eq Dnskey⦄
    ⦃sig_eq : Eq Rrsig⦄ (net : Network Name Address Dnskey Rrsig Ds) where
  same_data-eq : (c d : KeyData Dnskey Rrsig) → same_data net c d ≡ true → d ≡ c
  same_data-eq (a_key k) (a_key l) h = ap a_key ((key_eq.beq_iff l k).0 h)
  same_data-eq (a_key k) (a_signature s) h = cc
  same_data-eq (a_key k) neither h = cc
  same_data-eq (a_signature s) (a_key k) h = cc
  same_data-eq (a_signature s) (a_signature t) h = ap a_signature ((sig_eq.beq_iff t s).0 h)
  same_data-eq (a_signature s) neither h = cc
  same_data-eq neither d h = cc

  pub dnskey_target-In :
      (dnskey_rrset : List String) (x : Rr Name (KeyData Dnskey Rrsig))
      → In x (dnskey_target net dnskey_rrset) ↔ In x (filter_map net.read_record dnskey_rrset)
  dnskey_target-In dnskey_rrset x =
      to_set-In (same_record (same_data net)) (same_record-eq (same_data net) same_data-eq) x
        (filter_map net.read_record dnskey_rrset)

  pub ds_target-In :
      (cds_rrset : List String) (x : Rr Name Dnskey)
      → In x (ds_target net cds_rrset) ↔ In x (filter_map net.read_cdnskey cds_rrset)
  ds_target-In cds_rrset x =
      to_set-In (same_record key_eq.beq)
        (same_record-eq key_eq.beq (λ c d h. sym ((key_eq.beq_iff c d).0 h))) x
        (filter_map net.read_cdnskey cds_rrset)
