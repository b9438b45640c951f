-- ===== src/Update/Servers/Order.antt =====
-- The order of the name servers: the primary comes first and no server is lost
-- (src/commands/update.rs, determine_nsnames).
use mathlib.Core.List.{Perm, Memᴰ, head?}
use mathlib.Core.List.Perm
use dnst.Base.{
  ℕ, zero, suc, ◌≡◌, refl, Option, Option-cases, some, inl, inr, List, [], ◌∷◌, ok, get_elem?, set,
  Eq, Bool-cases, sym, arith,
}
use dnst.Update.Servers.{position, swap_first, swap_values, mname_first, determine_nsnames}

perm_exchange {ℓ} :
    {A : Type ℓ} (x y : A) (xs : List A) (i : ℕ)
    → get_elem? xs i ≡ some y
    → Perm (y ∷ set xs i x) (x ∷ xs)
perm_exchange x y [] i h = absurd (ground arith)
perm_exchange x y (z ∷ zs) zero h = let e : z ≡ y = cc in rw e (Perm.swap x y zs)
perm_exchange x y (z ∷ zs) (suc i) h =
    Perm.trans (Perm.swap z y (set zs i x))
      (Perm.trans (Perm.cons z (perm_exchange x y zs i h)) (Perm.swap x z zs))

swap_first_lem :
    {Name : Type 0} (x : Name) (xs : List Name) (i : ℕ) (y : Name)
    → get_elem? (x ∷ xs) i ≡ some y
    → Perm (swap_first (x ∷ xs) i) (x ∷ xs) × (head? (swap_first (x ∷ xs) i) ≡ some y)
unfolding swap_first
swap_first_lem x xs zero y h = (Perm.refl (x ∷ xs), h)
swap_first_lem x xs (suc i) y h =
    let e : swap_values (x ∷ xs) (suc i) (some x) (get_elem? xs i) ≡ y ∷ set xs i x = rw h in
    rw e (perm_exchange x y xs i h, refl)

module _ {Name : Type 0} ⦃name_eq : Eq Name⦄ where
  -- What `position` finds is there.
  get_elem?-position :
      (name : Name) (xs : List Name) (i : ℕ)
      → position name xs ≡ some i
      → get_elem? xs i ≡ some name
  unfolding position
  get_elem?-position name [] i h = absurd (ground arith)
  get_elem?-position name (x ∷ xs) i h = elim (Bool-cases (name_eq.beq x name)) [
    | inl e ↦ ground (arith, (name_eq.beq_iff x name).0 e)
    | inr e ↦ elim (Option-cases (position name xs)) [
      | inl p ↦ absurd (ground arith)
      | inr (j, p) ↦ ground (arith, get_elem?-position name xs j p)
    ]
  ]

  position_of_mem :
      (name : Name) (xs : List Name) → Memᴰ name xs → (i : ℕ) × (position name xs ≡ some i)
  unfolding position
  position_of_mem name [] m = elim m [ ]
  position_of_mem name (x ∷ xs) (Memᴰ.head e) = (0, rw ((name_eq.beq_iff x name).1 (sym e)))
  position_of_mem name (x ∷ xs) (Memᴰ.tail m) = elim (Bool-cases (name_eq.beq x name)) [
    | inl e ↦ (0, rw e)
    | inr e ↦ let (i, p) = position_of_mem name xs m in (suc i, rw (e, p))
  ]

  mem_of_position :
      (name : Name) (xs : List Name) (i : ℕ) → position name xs ≡ some i → Memᴰ name xs
  unfolding position
  mem_of_position name [] i h = absurd (ground arith)
  mem_of_position name (x ∷ xs) i h = elim (Bool-cases (name_eq.beq x name)) [
    | inl e ↦ Memᴰ.head (sym ((name_eq.beq_iff x name).0 e))
    | inr e ↦ elim (Option-cases (position name xs)) [
      | inl p ↦ absurd (ground arith)
      | inr (j, p) ↦ Memᴰ.tail (mem_of_position name xs j p)
    ]
  ]

  mname_first_lem :
      (mname : Name) (nsnames : List Name)
      → Perm (mname_first mname nsnames) nsnames
        × (Memᴰ mname nsnames → head? (mname_first mname nsnames) ≡ some mname)
        × (¬ Memᴰ mname nsnames → mname_first mname nsnames ≡ nsnames)
  unfolding mname_first
  mname_first_lem mname nsnames = elim (Option-cases (position mname nsnames)) [
    | inl e ↦
        rw (e, mname_first)
          (
            Perm.refl nsnames,
            λ m. let (i, p) = position_of_mem mname nsnames m in absurd (ground arith),
            λ _. refl,
          )
    | inr (i, e) ↦
        rw (e, mname_first)
          (
            found nsnames i (get_elem?-position mname nsnames i e),
            λ m. found_head nsnames i (get_elem?-position mname nsnames i e),
            λ n. absurd (n (mem_of_position mname nsnames i e)),
          )
  ]
    where
      found : (xs : List Name) (i : ℕ) → get_elem? xs i ≡ some mname → Perm (swap_first xs i) xs
      found [] i h = absurd (ground arith)
      found (x ∷ xs) i h = (swap_first_lem x xs i mname h).0

      found_head :
          (xs : List Name) (i : ℕ)
          → get_elem? xs i ≡ some mname
          → head? (swap_first xs i) ≡ some mname
      found_head [] i h = absurd (ground arith)
      found_head (x ∷ xs) i h = (swap_first_lem x xs i mname h).1

  -- When the NS query gives a list of names, the result is a permutation of it. It begins with the
  -- primary's name if that is among them, and is the list as it came if it is not.
  pub determine_nsnames_lem :
      (query_ns : Name → Option (List Name)) (zone mname : Name) (nsnames : List Name)
      → query_ns zone ≡ some nsnames
      → (out : List Name) × (determine_nsnames query_ns zone mname ≡ ok out)
        × Perm out nsnames
        × (Memᴰ mname nsnames → head? out ≡ some mname)
        × (¬ Memᴰ mname nsnames → out ≡ nsnames)
  unfolding determine_nsnames
  determine_nsnames_lem query_ns zone mname nsnames h =
      let (p, f, u) = mname_first_lem mname nsnames in
      (mname_first mname nsnames, rw (h, determine_nsnames), p, f, u)
