-- ===== src/Keyset/Rrsigs.antt =====
-- check_rrsigs (src/commands/keyset/cmd.rs): whether all authoritative records of a zone have the
-- signatures of the expected keys. The tree map is the list of its names in the order of the map,
-- each with its record types in the order of the iteration. The notices are left out.
pub mod Authoritative
pub mod Laws
use native.Mathlib.Decide.{ℕ_discrete}
use dnst.Base.{
  ℕ, Bool, true, false, not, ◌&&◌, ◌||◌, Option, none, some, List, [], ◌∷◌, if◌then◌else◌, Eq, any,
  ◌==◌,
}
use dnst.Dns.{Rtype, a, ns, aaaa, ds, nsec, nsec3, dnskey, cds, cdnskey}

pub data CheckRrsigsResult (Name : Type 0) : Type 0 where
  done : CheckRrsigsResult Name
  wait_record : Name → Rtype → CheckRrsigsResult Name
  wait_next_serial : CheckRrsigsResult Name

-- A set of (algorithm, key tag) pairs, as a list.
abbrev pub KeyTags : Type 0
KeyTags = List (ℕ × ℕ)

abbrev same_pair : ℕ × ℕ → ℕ × ℕ → Bool
same_pair (x, t) (y, u) = x == y && t == u

abbrev pub all_in : KeyTags → KeyTags → Bool
all_in [] ys = true
all_in (x ∷ xs) ys = any (same_pair x) ys && all_in xs ys

-- Equality of sets.
unfoldable pub same_set : KeyTags → KeyTags → Bool
same_set xs ys = all_in xs ys && all_in ys xs

abbrev pub is_ns : Rtype → Bool
is_ns ns = true
is_ns _ = false

-- NS, A and AAAA are skipped at a delegation. So is any other type but DS and NSEC.
abbrev pub signed_at_delegation : Rtype → Bool
signed_at_delegation ds = true
signed_at_delegation nsec = true
signed_at_delegation _ = false

-- The types that are signed with the KSKs at the apex.
abbrev pub signed_by_ksk : Rtype → Bool
signed_by_ksk dnskey = true
signed_by_ksk cds = true
signed_by_ksk cdnskey = true
signed_by_ksk _ = false

abbrev pub is_nsec3 : Rtype → Bool
is_nsec3 nsec3 = true
is_nsec3 _ = false

-- The inner loop: the result so far, or a return from the function.
pub data Round (Name : Type 0) : Type 0 where
  go_on : CheckRrsigsResult Name → Round Name
  return : CheckRrsigsResult Name → Round Name

abbrev pub and_then :
    {Name : Type 0}
    → Round Name
    → (CheckRrsigsResult Name → CheckRrsigsResult Name)
    → CheckRrsigsResult Name
and_then (go_on result) k = k result
and_then (return result) k = result

-- With no entry in the map of signatures the set is empty.
abbrev pub found : Option KeyTags → KeyTags
found none = []
found (some set) = set

abbrev pub below : {Name : Type 0} → (Name → Name → Bool) → Name → Option Name → Bool
below ends_with key none = false
below ends_with key (some name) = ends_with key name

module _ {Name : Type 0} ⦃name_eq : Eq Name⦄ (zone : Name) where
  -- The `continue`s of the inner loop: whether the signatures of this type are not looked at.
  abbrev pub skipped : Name → Option Name → Rtype → Bool
  skipped key none rtype = signed_by_ksk rtype && name_eq.beq key zone
  skipped key (some _) rtype =
      not (signed_at_delegation rtype) || (signed_by_ksk rtype && name_eq.beq key zone)

  -- The delegation at a name that is not below another one.
  abbrev pub delegation_at : Name → List Rtype → Option Name
  delegation_at key rtypes =
      if any is_ns rtypes && not (name_eq.beq key zone) then some key else none

module _ {Name : Type 0} (sigmap : Name → Rtype → Option KeyTags) (expected_set : KeyTags) where
  abbrev pub matches : Name → Rtype → Bool
  matches key rtype = same_set (found (sigmap key rtype)) expected_set

module _ {Name : Type 0} ⦃name_eq : Eq Name⦄ (ends_with : Name → Name → Bool)
    (sigmap : Name → Rtype → Option KeyTags) (zone : Name) (expected_set : KeyTags) where
  unfoldable pub check_types : Name → Option Name → List Rtype → CheckRrsigsResult Name → Round Name
  check_types key delegation [] result = go_on result
  check_types key delegation (rtype ∷ rtypes) result =
      let kept = check_types key delegation rtypes result in
      let failed = check_types key delegation rtypes wait_next_serial in
      if skipped zone key delegation rtype
      then kept
      else if matches sigmap expected_set key rtype
      then kept
      else if is_nsec3 rtype
      then failed
      else return (wait_record key rtype)

  -- The outer loop, with the delegation that it is in and the result so far.
  unfoldable pub check_names :
      List (Name × List Rtype) → Option Name → CheckRrsigsResult Name → CheckRrsigsResult Name
  check_names [] delegation result = result
  check_names ((key, rtypes) ∷ rest) delegation result =
      let ignored = check_names rest delegation result in
      let here = delegation_at zone key rtypes in
      let checked = and_then (check_types key here rtypes result) (check_names rest here) in
      if below ends_with key delegation then ignored else checked

  unfoldable pub check_rrsigs : List (Name × List Rtype) → CheckRrsigsResult Name
  unfolding check_types check_names same_set
  check_rrsigs treemap = check_names treemap none done
