-- ===== src/Update/Servers.antt =====
-- The name servers to send an update to (src/commands/update.rs, determine_nsnames).
pub mod Order
use mathlib.Core.Option
use dnst.Base.{
  ℕ, zero, suc, ◌+◌, Bool, Option, none, some, List, [], ◌∷◌, Result, ok, err, ◌>>=◌, get_elem?,
  set, Eq, if◌then◌else◌,
}
use dnst.Update.Message.{UpdateError, lookup_failed, Try}

-- `swap(0, i)`: the two values are written to each other's places.
swap_values : {Name : Type 0} → List Name → ℕ → Option Name → Option Name → List Name
swap_values xs i (some x) (some y) = set (set xs 0 y) i x
swap_values xs i _ _ = xs

pub swap_first : {Name : Type 0} → List Name → ℕ → List Name
unfolding swap_values
swap_first xs i = swap_values xs i (get_elem? xs 0) (get_elem? xs i)

module _ {Name : Type 0} ⦃name_eq : Eq Name⦄ where
  -- `iter().position(|x| x == name)`
  pub position : Name → List Name → Option ℕ
  position name [] = none
  position name (x ∷ xs) =
      let rest = position name xs in if name_eq.beq x name then some 0 else Option.map suc rest

  pub mname_first : Name → List Name → List Name
  unfolding position swap_first
  mname_first mname nsnames = elim (position mname nsnames) [
    | none ↦ nsnames
    | some i ↦ swap_first nsnames i
  ]

  -- The NS query is the resolver's: it fails, or gives the names of the NS records.
  pub determine_nsnames : (Name → Option (List Name)) → Name → Name → Try (List Name)
  unfolding mname_first
  determine_nsnames query_ns zone mname = elim (query_ns zone) [
    | none ↦ err lookup_failed
    | some nsnames ↦ ok (mname_first mname nsnames)
  ]
