-- ===== src/Nsec3Hash/Search.antt =====
-- What the search for a prefix finds (src/commands/nsec3hash.rs, find_prefix).
use mathlib.Core.Path.{subst}
use dnst.Base.{ℕ, zero, suc, ◌+◌, ◌-◌, ◌^◌, ◌<◌, ◌≡◌, refl, Bool, true, false, some, ok, ◌∙◌, arith}
use dnst.Nsec3Hash.{
  Bytes, Nsec3Library, Outcome, found, number_to_label, starts_with, with_next, find_from,
  find_prefix,
}

add-zero : (u : ℕ) → u + 0 ≡ u
add-zero u = omega arith

zero-add : (u : ℕ) → u ≡ 0 + u
zero-add u = omega arith

add-suc : (u i : ℕ) → u + suc i ≡ suc u + i
add-suc u i = omega arith

module _ {Name Salt : Type 0} (lib : Nsec3Library Name Salt) (prefix : Bytes) where
  -- The name for this number has a hash, which does or does not start with the prefix.
  abbrev pub Hashes : ℕ → Bool → Name → Bytes → Type 0
  Hashes u fits name hash =
      (lib.with_label (number_to_label u) ≡ some name)
      × (lib.nsec3_hash name ≡ ok hash)
      × (starts_with hash prefix ≡ fits)

  abbrev pub Passed : ℕ → Type 0
  Passed u = (name : Name) × (hash : Bytes) × Hashes u false name hash

  with_next-small : (u : ℕ) (o : Outcome Name) → u < 2 ^ 64 - 1 → with_next u o ≡ o
  unfolding with_next
  with_next-small u o h = ground arith

  find_from_first :
      (rounds u n : ℕ) (name : Name) (hash : Bytes)
      → n < rounds
      → u + n < 2 ^ 64 - 1
      → ((i : ℕ) → i < n → Passed (u + i))
      → Hashes (u + n) true name hash
      → find_from lib prefix rounds u ≡ found name hash
  unfolding find_from
  find_from_first zero u n name hash lt small before fits = absurd (omega arith)
  find_from_first (suc rounds) u zero name hash lt small before fits =
      let (named, hashes, starts) = subst (λ x. Hashes x true name hash) (add-zero u) fits in
      with_next-small u _ (omega arith) ∙ rw (named, hashes, starts) refl
  find_from_first (suc rounds) u (suc n) name hash lt small before fits =
      let (other, far, (named, hashes, starts)) =
        subst Passed (add-zero u) (before 0 (omega arith)) in
      let rest =
        find_from_first rounds (suc u) n name hash (omega arith) (omega arith)
          (λ i below. subst Passed (add-suc u i) (before (suc i) (omega arith)))
          (subst (λ x. Hashes x true name hash) (add-suc u n) fits) in
      with_next-small u _ (omega arith) ∙ rw (named, hashes, starts) rest

  -- If some number below the largest u64 has a name whose hash starts with the prefix, and the names
  -- of all smaller numbers have hashes that do not, then the search ends with that name and its hash as soon as it
  -- may run one round more than that number.
  pub find_prefix_first :
      (rounds n : ℕ) (name : Name) (hash : Bytes)
      → n < rounds
      → n < 2 ^ 64 - 1
      → ((i : ℕ) → i < n → Passed i)
      → Hashes n true name hash
      → find_prefix lib prefix rounds ≡ found name hash
  unfolding find_prefix
  find_prefix_first rounds n name hash lt small before fits =
      find_from_first rounds 0 n name hash lt (omega arith)
        (λ i below. subst Passed (zero-add i) (before i below))
        (subst (λ x. Hashes x true name hash) (zero-add n) fits)
