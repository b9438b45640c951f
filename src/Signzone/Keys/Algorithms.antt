-- ===== src/Signzone/Keys/Algorithms.antt =====
-- Which keys sign what (src/commands/signzone.rs, execute).
use dnst.Base.{
  ℕ, ◌==◌, ◌≡◌, refl, sym, ap, ◌∙◌, Bool, Bool-cases, inl, inr, true, false, ◌||◌, List, [], ◌∷◌,
  ◌++◌, map, any, All, In, All-weaken, arith,
}
use mathlib.Core.Path.{subst}
use dnst.Signzone.Keys.{KeyLibrary, new_algorithms}

module _ {Dnskey Key : Type 0} (lib : KeyLibrary Dnskey Key) where
  -- Some key of a list has the algorithm.
  abbrev pub has : List Key → ℕ → Bool
  has keys a = any (λ k. lib.algorithm k == a) keys

  has-append : (xs ys : List Key) (a : ℕ) → has (xs ++ ys) a ≡ has xs a || has ys a
  has-append [] ys a = refl
  has-append (x ∷ xs) ys a = ground (arith, has-append xs ys a)

  has-map : (keys : List Key) (a : ℕ) → any (λ b. b == a) (map lib.algorithm keys) ≡ has keys a
  has-map [] a = refl
  has-map (k ∷ keys) a = ap (λ b. (lib.algorithm k == a) || b) (has-map keys a)

  -- The algorithm of a key is known or has a key in a list.
  abbrev pub Found : List ℕ → List Key → Key → Type 0
  Found algorithms keys k =
      any (λ a. a == lib.algorithm k) algorithms || has keys (lib.algorithm k) ≡ true

  seen_skips :
      (algorithms : List ℕ) (k : Key) (keys : List Key)
      → any (λ a. a == lib.algorithm k) algorithms ≡ true
      → new_algorithms lib algorithms (k ∷ keys) ≡ new_algorithms lib algorithms keys
  unfolding new_algorithms
  seen_skips algorithms k keys e = rw e refl

  unseen_adds :
      (algorithms : List ℕ) (k : Key) (keys : List Key)
      → any (λ a. a == lib.algorithm k) algorithms ≡ false
      → new_algorithms lib algorithms (k ∷ keys)
        ≡ k ∷ new_algorithms lib (lib.algorithm k ∷ algorithms) keys
  unfolding new_algorithms
  unseen_adds algorithms k keys e = rw e refl

  Found-added :
      (algorithms : List ℕ) (k : Key) (new : List Key) (x : Key)
      → Found (lib.algorithm k ∷ algorithms) new x
      → Found algorithms (k ∷ new) x
  Found-added algorithms k new x f = ground arith

  new_algorithms-Found :
      (algorithms : List ℕ) (keys : List Key)
      → All (Found algorithms (new_algorithms lib algorithms keys)) keys
  new_algorithms-Found algorithms [] = tt
  new_algorithms-Found algorithms (k ∷ keys) =
      elim (Bool-cases (any (λ a. a == lib.algorithm k) algorithms)) [
        | inl e ↦
            subst (λ new. All (Found algorithms new) (k ∷ keys))
              (sym (seen_skips algorithms k keys e))
              (ground (arith, e), new_algorithms-Found algorithms keys)
        | inr e ↦
            subst (λ new. All (Found algorithms new) (k ∷ keys))
              (sym (unseen_adds algorithms k keys e))
              (
                ground arith,
                All-weaken
                    (Found (lib.algorithm k ∷ algorithms)
                      (new_algorithms lib (lib.algorithm k ∷ algorithms) keys))
                    (Found algorithms (k ∷ new_algorithms lib (lib.algorithm k ∷ algorithms) keys))
                    keys
                    (Found-added algorithms k
                      (new_algorithms lib (lib.algorithm k ∷ algorithms) keys))
                    (new_algorithms-Found (lib.algorithm k ∷ algorithms) keys),
              )
      ]

  pub new_algorithms-In :
      (algorithms : List ℕ) (keys : List Key)
      → All (λ k. In k keys) (new_algorithms lib algorithms keys)
  unfolding new_algorithms
  new_algorithms-In algorithms [] = tt
  new_algorithms-In algorithms (k ∷ keys) =
      elim (Bool-cases (any (λ a. a == lib.algorithm k) algorithms)) [
        | inl e ↦ rw e (
            All-weaken (λ x. In x keys) (λ x. In x (k ∷ keys)) _ (λ x h. inr h)
              (new_algorithms-In algorithms keys))
        | inr e ↦ rw e (
          inl refl,
          All-weaken (λ x. In x keys) (λ x. In x (k ∷ keys)) _ (λ x h. inr h)
              (new_algorithms-In (lib.algorithm k ∷ algorithms) keys),
        )
      ]

  abbrev pub Covered : List Key → Key → Type 0
  Covered keys k = has keys (lib.algorithm k) ≡ true

  pub Covered-self : (keys : List Key) → All (Covered keys) keys
  Covered-self [] = tt
  Covered-self (k ∷ keys) = (
    ground arith,
    All-weaken (Covered keys) (Covered (k ∷ keys)) keys (λ x h. ground arith) (Covered-self keys),
  )

  pub Covered-append_left :
      (xs ys keys : List Key) → All (Covered xs) keys → All (Covered (xs ++ ys)) keys
  Covered-append_left xs ys keys h =
      All-weaken (Covered xs) (Covered (xs ++ ys)) keys
        (λ x c. ground (arith, has-append xs ys (lib.algorithm x))) h

  -- With the new algorithms of other keys added, those are covered.
  pub added-Covered :
      (base keys : List Key)
      → All (Covered (base ++ new_algorithms lib (map lib.algorithm base) keys)) keys
  added-Covered base keys =
      let new = new_algorithms lib (map lib.algorithm base) keys in
      All-weaken (Found (map lib.algorithm base) new) (Covered (base ++ new)) keys
        (λ x f.
          has-append base new (lib.algorithm x)
          ∙ ap (λ b. b || has new (lib.algorithm x)) (sym (has-map base (lib.algorithm x)))
          ∙ f)
        (new_algorithms-Found (map lib.algorithm base) keys)
