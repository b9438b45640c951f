-- ===== src/Keyset/NewKeys/Draw.antt =====
-- How many keys new_keys generates until one has a new tag (src/commands/keyset/cmd.rs).
use Prim.Native.String.{◌++◌}
use dnst.Base.{
  ℕ, zero, suc, ◌<◌, ◌≤◌, ◌≡◌, refl, ◌∙◌, String, Bool, Bool-cases, inl, inr, true, false, List, ok,
  err, if◌then◌else◌, arith,
}
use dnst.Keyset.Types.{Key}
use dnst.Keyset.Workspace.{KeySet, KeyParameters}
use dnst.Keyset.Run.{Machine, >>=-eq-ok, on_world-eq-ok, ◌>>=◌, >>=-ok}
use dnst.Keyset.NewKeys.{
  Backend, tag_in_use, generate_unique, base_name, file_url, store_key, new_keys, max_key_tag_tries,
}

module _ {S P W : Type 0} (backend : Backend S P W) (algorithm : KeyParameters) (flags : ℕ)
    (keys : List (String × Key)) where
  -- The world after a number of keys have been generated.
  abbrev pub drawn : ℕ → W → W
  drawn zero w = w
  drawn (suc n) w = drawn n (backend.generate algorithm flags w).1

  -- In this world, the next key is one whose tag is in use.
  abbrev pub Collides : W → Type 0
  Collides w =
      (secret : S) × (public : P) × ((backend.generate algorithm flags w).0 ≡ ok (secret, public))
      × (tag_in_use keys (backend.key_tag public) ≡ true)

  -- In this world, the next key is this one, and its tag is new.
  abbrev pub Fresh : W → S → P → Type 0
  Fresh w secret public =
      ((backend.generate algorithm flags w).0 ≡ ok (secret, public))
      × (tag_in_use keys (backend.key_tag public) ≡ false)

  -- If the first keys that the generator makes have tags in use and the next one has a new tag,
  -- and they are at most the tries that are left after the first, then that next key is the
  -- result and no further key is generated.
  pub generate_unique-Fresh :
      (retries n : ℕ) (w : W) (secret : S) (public : P)
      → n ≤ retries
      → ((i : ℕ) → i < n → Collides (drawn i w))
      → Fresh (drawn n w) secret public
      → generate_unique backend algorithm flags keys retries w
        ≡ (ok (secret, public), drawn (suc n) w)
  unfolding generate_unique
  generate_unique-Fresh zero zero w secret public le before (e, new) =
      >>=-ok (backend.generate algorithm flags) _ e ∙ rw new refl
  generate_unique-Fresh (suc retries) zero w secret public le before (e, new) =
      >>=-ok (backend.generate algorithm flags) _ e ∙ rw new refl
  generate_unique-Fresh zero (suc n) w secret public le before fresh = absurd (omega arith)
  generate_unique-Fresh (suc retries) (suc n) w secret public le before fresh =
      let (secret', public', e, used) = before zero (omega arith) in
      let rest =
        generate_unique-Fresh retries n (drawn 1 w) secret public (omega arith)
          (λ i lt. before (suc i) (omega arith)) fresh in
      >>=-ok (backend.generate algorithm flags) _ e ∙ rw used rest

  -- If the tags of all keys that may be tried are in use, the result is an error, after one key
  -- more than the tries that are left.
  pub generate_unique_exhausted :
      (retries : ℕ) (w : W)
      → ((i : ℕ) → i ≤ retries → Collides (drawn i w))
      → generate_unique backend algorithm flags keys retries w
        ≡ (err "unable to generate key with unique key tag", drawn (suc retries) w)
  unfolding generate_unique
  generate_unique_exhausted zero w before =
      let (secret, public, e, used) = before zero (omega arith) in
      >>=-ok (backend.generate algorithm flags) _ e ∙ rw used refl
  generate_unique_exhausted (suc retries) w before =
      let (secret, public, e, used) = before zero (omega arith) in
      let rest =
        generate_unique_exhausted retries (drawn 1 w) (λ i le. before (suc i) (omega arith)) in
      >>=-ok (backend.generate algorithm flags) _ e ∙ rw used rest

  -- A key that is returned has a new tag.
  pub generate_unique-eq-ok :
      (retries : ℕ) (w w' : W) (secret : S) (public : P)
      → generate_unique backend algorithm flags keys retries w ≡ (ok (secret, public), w')
      → tag_in_use keys (backend.key_tag public) ≡ false
  unfolding generate_unique
  generate_unique-eq-ok zero w w' secret public h =
      let ((s, p), t, _, k) = >>=-eq-ok (backend.generate algorithm flags) _ h in
      elim (Bool-cases (tag_in_use keys (backend.key_tag p))) [
        | inl used ↦ absurd (let g = rw used at k in ground arith)
        | inr new ↦ let g = rw new at k in ground arith
      ]
  generate_unique-eq-ok (suc retries) w w' secret public h =
      let ((s, p), t, _, k) = >>=-eq-ok (backend.generate algorithm flags) _ h in
      elim (Bool-cases (tag_in_use keys (backend.key_tag p))) [
        | inl used ↦ generate_unique-eq-ok retries t w' secret public (rw used at k)
        | inr new ↦ let g = rw new at k in ground arith
      ]

-- The tag that is handed on is the one of the key.
store_key-tag :
    {S P W : Type 0} (backend : Backend S P W) (zone keys_dir : String) (secret : S) (public : P)
    (w : W) {w' : W} {pub_url priv_url : String} {alg tag : ℕ}
    → store_key backend zone keys_dir (secret, public) w ≡ (ok (pub_url, priv_url, alg, tag), w')
    → tag ≡ backend.key_tag public
unfolding store_key
store_key-tag backend zone keys_dir secret public w h =
    let base = base_name backend zone public in
    let secret_path = backend.push_path keys_dir (base ++ ".private") in
    let public_path = backend.push_path keys_dir (base ++ ".key") in
    let (_, _, _, h1) = >>=-eq-ok (backend.create_new_file secret_path 384) _ h in
    let (_, _, _, h2) = >>=-eq-ok (backend.create_new_file public_path 420) _ h1 in
    let (_, _, _, h3) =
      >>=-eq-ok (backend.write_all secret_path (backend.display_secret secret)) _ h2 in
    let (_, _, _, h4) =
      >>=-eq-ok (backend.write_all public_path (backend.display_public public)) _ h3 in
    let (_, _, _, h5) = >>=-eq-ok (file_url backend zone secret_path) _ h4 in
    let (_, _, _, h6) = >>=-eq-ok (file_url backend zone public_path) _ h5 in ground arith

module _ {S P W K Name : Type 0} (backend : Backend S P W) (lib : KeySet K) (zone : String)
    (make_ksk : Bool) (m : Machine K Name W) where
  -- If the tags of the first ten keys that are generated, with the configured algorithm and the
  -- flags of a KSK or a ZSK, are in use, no key is made, no file is written and no other key is
  -- generated.
  pub new_keys_exhausted :
      ((i : ℕ)
        → i < max_key_tag_tries
        → Collides backend m.space.config.algorithm
            (if make_ksk then 257 else 256)
            (lib.keys m.space.state.keyset)
            (drawn backend m.space.config.algorithm
              (if make_ksk then 257 else 256)
              (lib.keys m.space.state.keyset)
              i
              m.world))
      → new_keys backend lib zone make_ksk m ≡ (
        err "unable to generate key with unique key tag",
        record m {
          world =
              drawn backend m.space.config.algorithm
                (if make_ksk then 257 else 256)
                (lib.keys m.space.state.keyset)
                max_key_tag_tries
                m.world;
        },
      )
  unfolding new_keys
  new_keys_exhausted before =
      rw
        (generate_unique_exhausted backend m.space.config.algorithm (if make_ksk then 257 else 256)
          (lib.keys m.space.state.keyset) 9 m.world (λ i le. before i (omega arith)))
        refl

  -- A new key that is returned has a tag that no key of the key set has, and the work space is as
  -- it was.
  pub new_keys-eq-ok :
      {m' : Machine K Name W} {pub_url priv_url : String} {alg tag : ℕ}
      → new_keys backend lib zone make_ksk m ≡ (ok (pub_url, priv_url, alg, tag), m')
      → (m'.space ≡ m.space) × (tag_in_use (lib.keys m.space.state.keyset) tag ≡ false)
  unfolding new_keys
  new_keys-eq-ok h =
      let made =
        generate_unique backend m.space.config.algorithm (if make_ksk then 257 else 256)
          (lib.keys m.space.state.keyset) 9 in
      let store = store_key backend zone m.space.config.keys_dir in
      let (g, same) = on_world-eq-ok (made >>= store) m h in
      let ((secret, public), w, e, k) = >>=-eq-ok made store g in
      let tag_eq = store_key-tag backend zone m.space.config.keys_dir secret public w k in
      (
        same,
        rw tag_eq (
            generate_unique-eq-ok backend m.space.config.algorithm (if make_ksk then 257 else 256)
              (lib.keys m.space.state.keyset) 9 m.world w secret public e),
      )
