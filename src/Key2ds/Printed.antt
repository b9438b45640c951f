-- ===== src/Key2ds/Printed.antt =====
-- What `key2ds` prints (src/commands/key2ds.rs).
use mathlib.Core.Path.{subst}
use dnst.Base.{
  ℕ, String, ◌≡◌, ◌≢◌, refl, sym, ap, ◌∙◌, Bool, Bool-cases, inl, inr, true, false, not, ◌&&◌, ◌||◌,
  List, [], ◌∷◌, ◌++◌, map, Result, ok, err, ok-eq, if◌then◌else◌, arith,
}
use dnst.Keyset.Run.{>>=-eq-ok, from_result}
use dnst.Key2ds.{
  DigestAlgorithm, sha1, sha256, sha384, gost, other_digest, KeyRecord, DsRecord, Entry, key_entry,
  other_entry, bad_entry, KeyLibrary, Files, Key2ds, Output, choose_digest, outside, accepted,
  with_digest, with_algorithm, ds_of, line_of, emit, key2ds_loop, execute,
}

module _ {Name D : Type 0} (lib : KeyLibrary Name D) (o : Key2ds) where
  -- The DS record of a key: by the digest that is chosen for it, which is not GOST.
  pub record IsDs (k : KeyRecord Name D) (rr : DsRecord Name) : Type 0 where
    pub owner : rr.owner ≡ k.owner
    pub class : rr.class ≡ k.class
    pub ttl : rr.ttl ≡ k.ttl
    pub key_tag : rr.key_tag ≡ lib.key_tag k.dnskey
    pub algorithm : rr.algorithm ≡ lib.algorithm k.dnskey
    pub chosen : choose_digest o (lib.algorithm k.dnskey) o.algorithm ≡ ok rr.digest_alg
    pub not_gost : rr.digest_alg ≢ gost
    pub digest : lib.digest k.dnskey k.owner rr.digest_alg ≡ ok rr.digest

  -- One DS record for each key, in order.
  abbrev pub AreDs : List (KeyRecord Name D) → List (DsRecord Name) → Type 0
  AreDs [] [] = Unit
  AreDs [] (rr ∷ rrs) = ⊥
  AreDs (k ∷ keys) [] = ⊥
  AreDs (k ∷ keys) (rr ∷ rrs) = IsDs k rr × AreDs keys rrs

  -- A key is to have a DS record if it is a secure entry point, or with ignore_sep.
  abbrev pub is_wanted : KeyRecord Name D → Bool
  is_wanted k = o.ignore_sep || lib.is_secure_entry_point k.dnskey

  pub accepted-is_wanted : (k : KeyRecord Name D) → accepted lib o k ≡ is_wanted k
  accepted-is_wanted k = either o.ignore_sep (lib.is_secure_entry_point k.dnskey)
    where
      either : (a b : Bool) → (if not a && not b then false else true) ≡ a || b
      either true b = refl
      either false true = refl
      either false false = refl

  -- The keys in a file that are to have a DS record.
  abbrev pub wanted : List (Entry Name D) → List (KeyRecord Name D)
  wanted [] = []
  wanted (bad_entry e ∷ entries) = wanted entries
  wanted (other_entry ∷ entries) = wanted entries
  wanted (key_entry k ∷ entries) =
      let rest = wanted entries in if is_wanted k then k ∷ rest else rest

  with_digest-IsDs :
      (k : KeyRecord Name D) (alg : DigestAlgorithm) (d : Result String (List ℕ))
      (rr : DsRecord Name)
      → alg ≢ gost
      → choose_digest o (lib.algorithm k.dnskey) o.algorithm ≡ ok alg
      → lib.digest k.dnskey k.owner alg ≡ d
      → with_digest lib o k alg d ≡ ok rr
      → IsDs k rr
  with_digest-IsDs k alg (err e) rr n c made h = absurd (ground arith)
  with_digest-IsDs k alg (ok digest) rr n c made h = subst (IsDs k) (ok-eq h) (record {
    owner = refl;
    class = refl;
    ttl = refl;
    key_tag = refl;
    algorithm = refl;
    chosen = c;
    not_gost = n;
    digest = made;
  })

  with_algorithm-IsDs :
      (k : KeyRecord Name D) (r : Result String DigestAlgorithm) (rr : DsRecord Name)
      → choose_digest o (lib.algorithm k.dnskey) o.algorithm ≡ r
      → with_algorithm lib o k r ≡ ok rr
      → IsDs k rr
  with_algorithm-IsDs k (err e) rr c h = absurd (ground arith)
  with_algorithm-IsDs k (ok gost) rr c h = absurd (ground arith)
  with_algorithm-IsDs k (ok sha1) rr c h = with_digest-IsDs k sha1 _ rr (λ e. ground arith) c refl h
  with_algorithm-IsDs k (ok sha256) rr c h =
      with_digest-IsDs k sha256 _ rr (λ e. ground arith) c refl h
  with_algorithm-IsDs k (ok sha384) rr c h =
      with_digest-IsDs k sha384 _ rr (λ e. ground arith) c refl h
  with_algorithm-IsDs k (ok (other_digest n)) rr c h =
      with_digest-IsDs k (other_digest n) _ rr (λ e. ground arith) c refl h

  ds_of-IsDs : (k : KeyRecord Name D) (rr : DsRecord Name) → ds_of lib o k ≡ ok rr → IsDs k rr
  unfolding ds_of
  ds_of-IsDs k rr h =
      with_algorithm-IsDs k (choose_digest o (lib.algorithm k.dnskey) o.algorithm) rr refl h

append_nil : {A : Type 0} (xs : List A) → xs ≡ xs ++ []
append_nil [] = refl
append_nil (x ∷ xs) = ap (λ rest. x ∷ rest) (append_nil xs)

append_one :
    {A : Type 0} (xs : List A) (y : A) (ys : List A) → (xs ++ y ∷ []) ++ ys ≡ xs ++ (y ∷ ys)
append_one [] y ys = refl
append_one (x ∷ xs) y ys = ap (λ rest. x ∷ rest) (append_one xs y ys)

module _ {Name D W : Type 0} (lib : KeyLibrary Name D) (files : Files Name D W) (o : Key2ds) where
  -- The output with the lines of these records added.
  abbrev pub with_lines : List (DsRecord Name) → Output W → Output W
  with_lines rrs out = record out { printed = out.printed ++ map (line_of lib o) rrs }

  emit-eq-ok :
      (rr : DsRecord Name) (out out' : Output W)
      → o.write_to_stdout ≡ true
      → emit lib files o rr out ≡ (ok tt, out')
      → out' ≡ record out { printed = out.printed ++ line_of lib o rr ∷ [] }
  emit-eq-ok rr out out' stdout h = let shown = rw stdout at h in ap (λ r. r.1) (sym shown)

  kept_lines :
      (rr : DsRecord Name) (rrs : List (DsRecord Name)) (out out1 out2 out' : Output W)
      → out ≡ out1
      → out2 ≡ record out1 { printed = out1.printed ++ line_of lib o rr ∷ [] }
      → out' ≡ with_lines rrs out2
      → out' ≡ with_lines (rr ∷ rrs) out
  kept_lines rr rrs out out1 out2 out' same one shown =
      shown
      ∙ ap (with_lines rrs) (one ∙ ap (with_lines (rr ∷ [])) (sym same))
      ∙ ap (λ ls. record out { printed = ls })
          (append_one out.printed (line_of lib o rr) (map (line_of lib o) rrs))

  key2ds_loop-eq-ok :
      (entries : List (Entry Name D)) (out out' : Output W)
      → o.write_to_stdout ≡ true
      → key2ds_loop lib files o entries out ≡ (ok tt, out')
      → (rrs : List (DsRecord Name)) × AreDs lib o (wanted lib o entries) rrs
        × (out' ≡ with_lines rrs out)
  unfolding key2ds_loop
  key2ds_loop-eq-ok [] out out' stdout h = (
    [],
    tt,
    ap (λ r. r.1) (sym h) ∙ ap (λ ls. record out { printed = ls }) (append_nil out.printed),
  )
  key2ds_loop-eq-ok (bad_entry e ∷ entries) out out' stdout h = absurd (ground arith)
  key2ds_loop-eq-ok (other_entry ∷ entries) out out' stdout h =
      key2ds_loop-eq-ok entries out out' stdout h
  key2ds_loop-eq-ok (key_entry k ∷ entries) out out' stdout h =
      elim (Bool-cases (is_wanted lib o k)) [
        | inr e ↦
            let (rrs, are, shown) =
              key2ds_loop-eq-ok entries out out' stdout
                (rw (accepted-is_wanted lib o k ∙ e) at h) in
            (rrs, rw e are, shown)
        | inl e ↦
            let (rr, out1, made, h1) =
              >>=-eq-ok (from_result (ds_of lib o k)) _
                (rw (accepted-is_wanted lib o k ∙ e) at h) in
            let (u, out2, emitted, h2) = >>=-eq-ok (emit lib files o rr) _ h1 in
            let (rrs, are, shown) = key2ds_loop-eq-ok entries out2 out' stdout h2 in
            let same = ap (λ r. r.1) made in
            let one = emit-eq-ok rr out1 out2 stdout emitted in
            (
              rr ∷ rrs,
              rw e (ds_of-IsDs lib o k rr (ap (λ r. r.0) made), are),
              kept_lines rr rrs out out1 out2 out' same one shown,
            )
      ]

  -- If `key2ds -n` on a file succeeds, it has added one line to what is printed for each key in the
  -- file that is a secure entry point (for any key with ignore_sep), in order, and has written
  -- nothing. The line is that of a DS record with the name, class, TTL, key tag and algorithm of the
  -- key and its digest by the algorithm that was asked for or chosen, which is never GOST.
  pub execute-AreDs :
      (entries : List (Entry Name D)) (out out1 out' : Output W)
      → o.write_to_stdout ≡ true
      → outside (files.load o.keyfile) out ≡ (ok entries, out1)
      → execute lib files o out ≡ (ok tt, out')
      → (rrs : List (DsRecord Name)) × AreDs lib o (wanted lib o entries) rrs
        × (out' ≡ with_lines rrs out1)
  unfolding execute
  execute-AreDs entries out out1 out' stdout loaded h =
      key2ds_loop-eq-ok entries out1 out' stdout (rw loaded at h)
