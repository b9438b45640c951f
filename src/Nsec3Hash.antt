-- ===== src/Nsec3Hash.antt =====
-- The `nsec3-hash` command (src/commands/nsec3hash.rs): number_to_label, the search of find_prefix,
-- execute, and the parsing of an algorithm and a salt. Text is the list of its bytes. Names, hashes
-- and numbers in text belong to the `domain` crate and the standard library.
pub mod Labels
pub mod Search
use dnst.Base.{
  ℕ, zero, suc, ◌+◌, ◌/◌, ◌%◌, ◌-◌, ◌^◌, ltb, ◌==◌, Bool, true, false, ◌&&◌, Option, none, some,
  List, [], ◌∷◌, length, leb, Result, ok, err, if◌then◌else◌, String,
}

abbrev pub Bytes : Type 0
Bytes = List ℕ

-- The rounds of `while n != 0`; a number below 2^64 has at most 14 digits to base 26.
unfoldable pub label_digits : ℕ → ℕ → Bytes
label_digits zero n = []
label_digits (suc rounds) n =
    let rest = label_digits rounds (n / 26) in if n == 0 then [] else (b'a' + n % 26) ∷ rest

abbrev pub or_a : Bytes → Bytes
or_a [] = b'a' ∷ []
or_a (c ∷ label) = c ∷ label

unfoldable pub number_to_label : ℕ → Bytes
unfolding label_digits
number_to_label n = or_a (label_digits 14 n)

unfoldable pub starts_with : Bytes → Bytes → Bool
starts_with text [] = true
starts_with [] (p ∷ prefix) = false
starts_with (c ∷ text) (p ∷ prefix) = c == p && starts_with text prefix

-- `append_chars` and `append_origin` of a name builder, which the code expects to succeed;
-- nsec3_hash as lower case text; and the algorithms and salts that there are.
pub record Nsec3Library (Name Salt : Type 0) : Type 0 where
  pub with_label : Bytes → Option Name
  pub nsec3_hash : Name → Result String Bytes
  pub has_mnemonic : ℕ → Bool
  pub from_mnemonic : Bytes → Option ℕ
  pub parse_u8 : Bytes → Option ℕ
  pub salt_from_str : Bytes → Result String Salt

-- How a search ends: with a line of output, with an error, or with a panic. `running` is a search
-- that is still going on.
pub data Outcome (Name : Type 0) : Type 0 where
  found : Name → Bytes → Outcome Name
  failed : String → Outcome Name
  panicked : Outcome Name
  running : Outcome Name

-- The range `0..` steps on before it gives a number, so at the largest u64 it overflows. This is a
-- panic where overflows are checked; elsewhere the counter wraps to 0.
unfoldable pub with_next : {Name : Type 0} → ℕ → Outcome Name → Outcome Name
with_next u body = if ltb u (2 ^ 64 - 1) then body else panicked

module _ {Name Salt : Type 0} (lib : Nsec3Library Name Salt) (prefix : Bytes) where
  -- One round of the loop; the rest of the loop is for a hash that does not fit.
  abbrev pub try_hash : Name → Result String Bytes → Outcome Name → Outcome Name
  try_hash name (err e) rest = failed e
  try_hash name (ok hash) rest = if starts_with hash prefix then found name hash else rest

  abbrev pub try_name : Option Name → Outcome Name → Outcome Name
  try_name none rest = panicked
  try_name (some name) rest = try_hash name (lib.nsec3_hash name) rest

  -- `for u in 0..`, for a number of rounds.
  unfoldable pub find_from : ℕ → ℕ → Outcome Name
  unfolding number_to_label starts_with with_next
  find_from zero u = running
  find_from (suc rounds) u =
      let rest = find_from rounds (suc u) in
      with_next u (try_name (lib.with_label (number_to_label u)) rest)

  unfoldable pub find_prefix : ℕ → Outcome Name
  unfolding find_from
  find_prefix rounds = find_from rounds 0

module _ {Name Salt : Type 0} (lib : Nsec3Library Name Salt) where
  abbrev pub hashed : Name → Result String Bytes → Outcome Name
  hashed name (err e) = failed e
  hashed name (ok hash) = found name hash

  -- The command, with the search if a prefix is given.
  unfoldable pub execute : Option Bytes → Name → ℕ → Outcome Name
  unfolding find_prefix
  execute (some prefix) name rounds = find_prefix lib prefix rounds
  execute none name rounds = hashed name (lib.nsec3_hash name)

  unfoldable pub parse_salt : Bytes → Result String Salt
  parse_salt arg = if leb 512 (length arg) then err "Salt too long" else lib.salt_from_str arg

  unfoldable pub num_to_nsec3_alg : ℕ → Result String ℕ
  num_to_nsec3_alg num = if lib.has_mnemonic num then ok num else err "unknown algorithm number"

  abbrev by_mnemonic : Option ℕ → Result String ℕ
  by_mnemonic (some alg) = ok alg
  by_mnemonic none = err "unknown algorithm mnemonic"

  unfoldable pub parse_nsec3_alg : Bytes → Result String ℕ
  unfolding num_to_nsec3_alg
  parse_nsec3_alg arg = elim (lib.parse_u8 arg) [
    | some num ↦ num_to_nsec3_alg num
    | none ↦ by_mnemonic (lib.from_mnemonic arg)
  ]

  unfoldable pub parse_nsec3_alg_as_num : Bytes → Result String ℕ
  unfolding num_to_nsec3_alg
  parse_nsec3_alg_as_num arg = elim (lib.parse_u8 arg) [
    | some num ↦ num_to_nsec3_alg num
    | none ↦ err "malformed algorithm number"
  ]
