-- ===== src/Keyset/Rrsets/Contents.antt =====
-- What the record sets of the state hold after an update (src/commands/keyset/cmd.rs,
-- update_dnskey_rrset and update_ds_rrset).
use dnst.Base.{
  ℕ, String, ◌≡◌, Bool, Bool-cases, true, false, Option, inl, inr, List, [], ◌∷◌, ◌++◌, map, Result,
  ok, ◌>>=◌, >>=-eq-ok, Result-cases, arith,
}
use dnst.Keyset.Types.{Key, KeyType}
use dnst.Keyset.Workspace.{WorkSpace, KeySet}
use dnst.Keyset.Rrsets.{
  KeyStore, collect, sign_loop, present, at_parent, dnskey_signer, inception_time, expiration_time,
  dnskey_records, ds_records, update_dnskeys, update_ds, or_missing, none_or_err,
}

module _ {A : Type 0} (test : KeyType → Bool) (make : String → Key → Result String A) where
  -- One value for each key that passes the test, in the order of the keys, and no other.
  pub data Collected : List (String × Key) → List A → Type 0 where
    empty : Collected [] []
    kept :
        {k : String} {v : Key} {keys : List (String × Key)} {x : A} {xs : List A}
        → test v.keytype ≡ true
        → make k v ≡ ok x
        → Collected keys xs
        → Collected ((k, v) ∷ keys) (x ∷ xs)
    dropped :
        {k : String} {v : Key} {keys : List (String × Key)} {xs : List A}
        → test v.keytype ≡ false
        → Collected keys xs
        → Collected ((k, v) ∷ keys) xs

  collect-Collected :
      (keys : List (String × Key)) (xs : List A)
      → collect test make keys ≡ ok xs
      → Collected keys xs
  unfolding collect
  collect-Collected [] xs h = let e : xs ≡ [] = cc in rw e empty
  collect-Collected ((k, v) ∷ keys) xs h = elim (Bool-cases (test v.keytype)) [
    | inl t ↦
        let (x, e, h1) = >>=-eq-ok (make k v) _ (rw (t, collect) at h) in
        let (ys, f, h2) = >>=-eq-ok (collect test make keys) _ h1 in
        let g : xs ≡ x ∷ ys = cc in rw g (kept t e (collect-Collected keys ys f))
    | inr t ↦ dropped t (collect-Collected keys xs (rw (t, collect) at h))
  ]

-- The signature of one key, which must have a private key.
abbrev pub signature :
    (String → String → Result String String) → String → Key → Result String String
signature sign k v = do privref ← or_missing v.privref; sign privref k

module _ {D : Type 0} (bad_rrset : List D → Option String)
    (sign : String → String → Result String String) where
  sign_loop-Collected :
      (d : D) (ds : List D) (keys : List (String × Key)) (sigs : List String)
      → sign_loop bad_rrset sign (d ∷ ds) keys ≡ ok sigs
      → Collected dnskey_signer (signature sign) keys sigs
  unfolding sign_loop
  sign_loop-Collected d ds [] sigs h = let e : sigs ≡ [] = cc in rw e empty
  sign_loop-Collected d ds ((k, v) ∷ keys) sigs h =
      let (_, _, h1) = >>=-eq-ok (none_or_err (bad_rrset (d ∷ ds))) _ h in
      elim (Bool-cases (dnskey_signer v.keytype)) [
        | inl t ↦
            let (p, e, h2) = >>=-eq-ok (or_missing v.privref) _ (rw t at h1) in
            let (sig, f, h3) = >>=-eq-ok (sign p k) _ h2 in
            let (rest, g, h4) = >>=-eq-ok (sign_loop bad_rrset sign (d ∷ ds) keys) _ h3 in
            let q : sigs ≡ sig ∷ rest = cc in
            rw q (kept t (ground arith) (sign_loop-Collected d ds keys rest g))
        | inr t ↦ dropped t (sign_loop-Collected d ds keys sigs (rw t at h1))
      ]

  -- The signatures over a record set: none for an empty one, else one for each signing key.
  abbrev pub Signatures : List D → List (String × Key) → List String → Type 0
  Signatures [] keys sigs = sigs ≡ []
  Signatures (d ∷ ds) keys sigs = Collected dnskey_signer (signature sign) keys sigs

  sign_loop-Signatures :
      (dnskeys : List D) (keys : List (String × Key)) (sigs : List String)
      → sign_loop bad_rrset sign dnskeys keys ≡ ok sigs
      → Signatures dnskeys keys sigs
  unfolding sign_loop
  sign_loop-Signatures [] keys sigs h = cc
  sign_loop-Signatures (d ∷ ds) keys sigs h = sign_loop-Collected d ds keys sigs h

module _ {D K Name : Type 0} (store : KeyStore D) (lib : KeySet K) (now : ℕ)
    (ws ws' : WorkSpace K Name) where
  -- A successful update replaces the DNSKEY record set by the DNSKEY records of exactly the keys
  -- that are present, in order, followed by one signature over them by each KSK or CSK that is a
  -- signer, or by none if no key is present. Nothing else in the work space changes.
  pub update_dnskeys-eq-ok :
      update_dnskeys store lib now ws ≡ (ok tt, ws')
      → (dnskeys : List D) × (sigs : List String) × Collected present
          (λ k _. store.public_key k)
          (lib.keys ws.state.keyset)
          dnskeys
        × Signatures store.bad_rrset
            (λ p k.
              store.sign_dnskey p k dnskeys
                (inception_time now ws.config.dnskey_inception_offset)
                (expiration_time now ws.config.dnskey_signature_lifetime))
            dnskeys
            (lib.keys ws.state.keyset)
            sigs
        × (ws' ≡ record ws {
          state = record ws.state { dnskey_rrset = map store.display dnskeys ++ sigs };
        })
  unfolding update_dnskeys dnskey_records
  update_dnskeys-eq-ok h = elim (Result-cases (dnskey_records store lib now ws)) [
    | inl (e, p) ↦ absurd (ground arith)
    | inr (rrs, p) ↦
        let (dnskeys, c, p1) =
          >>=-eq-ok (collect present (λ k _. store.public_key k) (lib.keys ws.state.keyset)) _ p in
        let (sigs, s, p2) =
          >>=-eq-ok (sign_loop store.bad_rrset _ dnskeys (lib.keys ws.state.keyset)) _ p1 in
        (
          dnskeys,
          sigs,
          collect-Collected present _ (lib.keys ws.state.keyset) dnskeys c,
          sign_loop-Signatures store.bad_rrset _ dnskeys (lib.keys ws.state.keyset) sigs s,
          ground arith,
        )
  ]

  -- A successful update replaces the DS record set by the DS records, for the configured digest
  -- algorithm and default TTL, of exactly the keys that are at the parent, in order. Nothing else in the work space changes.
  pub update_ds-eq-ok :
      update_ds store lib ws ≡ (ok tt, ws')
      → (records : List String) × Collected at_parent
          (λ k _. do
            d ← store.public_key k
            store.ds_of ws.config.ds_algorithm ws.config.default_ttl d)
          (lib.keys ws.state.keyset)
          records
        × (ws' ≡ record ws { state = record ws.state { ds_rrset = records } })
  unfolding update_ds ds_records
  update_ds-eq-ok h = elim (Result-cases (ds_records store lib ws)) [
    | inl (e, p) ↦ absurd (ground arith)
    | inr (rrs, p) ↦
        (rrs, collect-Collected at_parent _ (lib.keys ws.state.keyset) rrs p, ground arith)
  ]
