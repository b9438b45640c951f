-- ===== src/Signzone/Keys/Sets.antt =====
-- The two sets of signing keys cover every algorithm (src/commands/signzone.rs, execute).
use mathlib.Core.Path.{subst}
use dnst.Base.{
  ◌≡◌, sym, Bool, true, false, List, [], ◌∷◌, ◌++◌, map, All, In, In-All, All-append, All-weaken,
  All-In, if◌then◌else◌,
}
use dnst.Signzone.{SignZone}
use dnst.Signzone.Keys.{
  KeyLibrary, add_key, split_keys, new_algorithms, unique_algorithms, with_all_keys, share_keys,
  signing_sets,
}
use dnst.Signzone.Keys.Algorithms.{
  Covered, Covered-self, Covered-append_left, added-Covered, new_algorithms-In,
}

module _ {Name Dnskey Key : Type 0} (lib : KeyLibrary Dnskey Key) (o : SignZone Name) where
  -- The two sets cover the algorithms of all keys of a list, and have nothing but keys of two lists.
  abbrev Covers : List Key × List Key → List Key → Type 0
  Covers sets keys = All (Covered lib (sets.0)) keys × All (Covered lib (sets.1)) keys

  new-All :
      (P : Key → Type 0) (base keys : List Key)
      → All P keys
      → All P (new_algorithms lib (map (lib.algorithm) base) keys)
  new-All P base keys all =
      let new = new_algorithms lib (map (lib.algorithm) base) keys in
      All-weaken (λ k. In k keys) P new (λ k h. In-All P k keys h all)
        (new_algorithms-In lib (map (lib.algorithm) base) keys)

  All-left : (P : Key → Type 0) (xs ys : List Key) → All P (xs ++ ys) → All P xs
  All-left P [] ys h = tt
  All-left P (x ∷ xs) ys h = (h.0, All-left P xs ys (h.1))

  unique-Covers :
      (ksks zsks : List Key)
      → Covers (unique_algorithms lib true ksks zsks) ksks
        × Covers (unique_algorithms lib true ksks zsks) zsks
  unique-Covers ksks zsks =
      let add = new_algorithms lib (map (lib.algorithm) ksks) zsks in
      let all = ksks ++ add in
      let more = new_algorithms lib (map (lib.algorithm) zsks) all in
      let of_ksks = Covered-append_left lib ksks add ksks (Covered-self lib ksks) in
      let of_all = added-Covered lib zsks all in
      (
        (of_ksks, All-left (Covered lib (zsks ++ more)) ksks add of_all),
        (
          added-Covered lib ksks zsks,
          Covered-append_left lib zsks more zsks (Covered-self lib zsks),
        ),
      )

  unique-Drawn :
      (P : Key → Type 0) (ksks zsks : List Key)
      → All P ksks
      → All P zsks
      → All P (unique_algorithms lib true ksks zsks).0
        × All P (unique_algorithms lib true ksks zsks).1
  unique-Drawn P ksks zsks hk hz =
      let add = new_algorithms lib (map (lib.algorithm) ksks) zsks in
      let all = All-append P ksks add hk (new-All P ksks zsks hz) in
      (all, All-append P zsks _ hz (new-All P zsks (ksks ++ add) all))

  with_all_keys-All :
      (P : Key → Type 0) (all : Bool) (ksks zsks : List Key)
      → All P (with_all_keys lib all ksks zsks)
      → All P ksks
  with_all_keys-All P true ksks zsks h = All-left P ksks zsks h
  with_all_keys-All P false ksks zsks h = h

  All-with_all_keys :
      (P : Key → Type 0) (all : Bool) (ksks zsks : List Key)
      → All P ksks
      → All P zsks
      → All P (with_all_keys lib all ksks zsks)
  All-with_all_keys P true ksks zsks hk hz = All-append P ksks zsks hk hz
  All-with_all_keys P false ksks zsks hk hz = hk

  share-Covers :
      (ksks zsks : List Key)
      → o.sign_with_every_unique_algorithm ≡ true
      → Covers (share_keys lib o (ksks, zsks)) ksks × Covers (share_keys lib o (ksks, zsks)) zsks
  share-Covers [] zsks e = ((tt, tt), (Covered-self lib zsks, Covered-self lib zsks))
  share-Covers (k ∷ ksks) [] e =
      ((Covered-self lib (k ∷ ksks), Covered-self lib (k ∷ ksks)), (tt, tt))
  share-Covers (k ∷ ksks) (z ∷ zsks) e =
      let base = with_all_keys lib o.sign_dnskeys_with_all_keys (k ∷ ksks) (z ∷ zsks) in
      let covers = unique-Covers base (z ∷ zsks) in
      let P = λ (x : Key). Covered lib (unique_algorithms lib true base (z ∷ zsks)).0 x in
      let Q = λ (x : Key). Covered lib (unique_algorithms lib true base (z ∷ zsks)).1 x in
      subst
        (λ b.
          Covers (unique_algorithms lib b base (z ∷ zsks)) (k ∷ ksks)
          × Covers (unique_algorithms lib b base (z ∷ zsks)) (z ∷ zsks))
        (sym e)
        (
          (
            with_all_keys-All P o.sign_dnskeys_with_all_keys (k ∷ ksks) (z ∷ zsks) covers.0.0,
            with_all_keys-All Q o.sign_dnskeys_with_all_keys (k ∷ ksks) (z ∷ zsks) covers.0.1,
          ),
          covers.1,
        )

  share-Drawn :
      (P : Key → Type 0) (ksks zsks : List Key)
      → All P ksks
      → All P zsks
      → All P (share_keys lib o (ksks, zsks)).0 × All P (share_keys lib o (ksks, zsks)).1
  share-Drawn P [] zsks hk hz = (hz, hz)
  share-Drawn P (k ∷ ksks) [] hk hz = (hk, hk)
  share-Drawn P (k ∷ ksks) (z ∷ zsks) hk hz =
      let base = with_all_keys lib o.sign_dnskeys_with_all_keys (k ∷ ksks) (z ∷ zsks) in
      let hb = All-with_all_keys P o.sign_dnskeys_with_all_keys (k ∷ ksks) (z ∷ zsks) hk hz in
      elim o.sign_with_every_unique_algorithm
        as (λ b.
          All P (unique_algorithms lib b base (z ∷ zsks)).0
          × All P (unique_algorithms lib b base (z ∷ zsks)).1) [
            | true ↦ unique-Drawn P base (z ∷ zsks) hb hz
            | false ↦ (hb, hz)
          ]

  abbrev chosen : Bool → Key → List Key → List Key → List Key × List Key
  chosen b k ksks zsks = if b then (k ∷ ksks, zsks) else (ksks, k ∷ zsks)

  add_key-All :
      (P : Key → Type 0) (k : Key) (sets : List Key × List Key)
      → P k
      → All P sets.0
      → All P sets.1
      → All P (add_key lib k sets).0 × All P (add_key lib k sets).1
  add_key-All P k (ksks, zsks) p hk hz =
      elim (lib.is_secure_entry_point k)
        as (λ b. All P (chosen b k ksks zsks).0 × All P (chosen b k ksks zsks).1) [
          | true ↦ ((p, hk), hz)
          | false ↦ (hk, (p, hz))
        ]

  All-add_key :
      (P : Key → Type 0) (k : Key) (sets : List Key × List Key)
      → All P (add_key lib k sets).0
      → All P (add_key lib k sets).1
      → P k × (All P sets.0 × All P sets.1)
  All-add_key P k (ksks, zsks) =
      elim (lib.is_secure_entry_point k)
        as (λ b.
          All P (chosen b k ksks zsks).0
          → All P (chosen b k ksks zsks).1
          → P k × (All P ksks × All P zsks)) [
            | true ↦ λ hk hz. (hk.0, (hk.1, hz))
            | false ↦ λ hk hz. (hz.0, (hk, hz.1))
          ]

  split-All :
      (P : Key → Type 0) (keys : List Key)
      → All P keys
      → All P (split_keys lib keys).0 × All P (split_keys lib keys).1
  unfolding split_keys
  split-All P [] h = (tt, tt)
  split-All P (k ∷ keys) h =
      let ih = split-All P keys h.1 in add_key-All P k (split_keys lib keys) h.0 ih.0 ih.1

  All-split :
      (P : Key → Type 0) (keys : List Key)
      → All P (split_keys lib keys).0
      → All P (split_keys lib keys).1
      → All P keys
  unfolding split_keys
  All-split P [] hk hz = tt
  All-split P (k ∷ keys) hk hz =
      let parts = All-add_key P k (split_keys lib keys) hk hz in
      (parts.0, All-split P keys parts.1.0 parts.1.1)

  -- Every key that signs the apex record sets of keys, or the rest of the zone, is one of the keys
  -- given, whatever the options.
  pub signing_sets-In :
      (keys : List Key)
      → All (λ k. In k keys) (signing_sets lib o keys).0
        × All (λ k. In k keys) (signing_sets lib o keys).1
  unfolding signing_sets
  signing_sets-In keys =
      let parts = split-All (λ k. In k keys) keys (All-In keys) in
      share-Drawn (λ k. In k keys) (split_keys lib keys).0 (split_keys lib keys).1 parts.0 parts.1

  -- With the option for every algorithm, each of the two sets of signing keys has a key of the
  -- algorithm of every key given, and both sets hold nothing but keys given.
  pub signing_sets-Covers :
      (keys : List Key)
      → o.sign_with_every_unique_algorithm ≡ true
      → (All (Covered lib (signing_sets lib o keys).0) keys
          × All (Covered lib (signing_sets lib o keys).1) keys)
        × (All (λ k. In k keys) (signing_sets lib o keys).0
            × All (λ k. In k keys) (signing_sets lib o keys).1)
  unfolding signing_sets
  signing_sets-Covers keys e =
      let ksks = (split_keys lib keys).0 in
      let zsks = (split_keys lib keys).1 in
      let sets = share_keys lib o (ksks, zsks) in
      let covers = share-Covers ksks zsks e in
      (
        (
          All-split (Covered lib sets.0) keys covers.0.0 covers.1.0,
          All-split (Covered lib sets.1) keys covers.0.1 covers.1.1,
        ),
        signing_sets-In keys,
      )
