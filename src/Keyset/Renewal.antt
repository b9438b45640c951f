-- ===== src/Keyset/Renewal.antt =====
-- When signatures, keys and the algorithm are to be renewed (src/commands/keyset/cmd.rs): sig_renew,
-- compute_cron_next, key_expired and algorithm_roll_needed. The parsing of a zone file is a
-- parameter. A time before the epoch is 0, which is what compute_cron_next makes of it.
pub mod Laws
use mathlib.Core.Option
use dnst.Base.{
  ℕ, ◌+◌, ◌-◌, ◌==◌, String, Bool, true, false, not, ◌&&◌, Option, none, some, List, [], ◌∷◌,
  Result, ok, err, ◌>>=◌, ltb, any, all, filter_map, map, if◌then◌else◌,
}
use dnst.Keyset.Types.{KeyType, ksk, zsk, csk, include_key, KeyState, Key}
use dnst.Keyset.Workspace.{KeySet, KeySetConfig, KeyParameters}
use dnst.Keyset.Automation.{Stop, not_expected}
use dnst.Keyset.AutoStart.{minimum}

-- What an iterator over a zone file gives: a signature with its expiration, another record, an
-- include, or an error.
pub data Entry : Type 0 where
  rrsig : ℕ → Entry
  other_record include bad_entry : Entry

-- The zone file with these lines; and the time near a reference that an expiration stands for.
pub record Zonefile : Type 0 where
  pub entries : List String → List Entry
  pub to_system_time : ℕ → ℕ → ℕ

-- The loop, for the time at which the signatures have to be valid still.
unfoldable pub sig_renew_from : ℕ → List Entry → Result Stop Bool
sig_renew_from renew [] = ok false
sig_renew_from renew (rrsig expiration ∷ entries) =
    let rest = sig_renew_from renew entries in if ltb expiration renew then ok true else rest
sig_renew_from renew (other_record ∷ entries) = sig_renew_from renew entries
sig_renew_from renew (include ∷ entries) = sig_renew_from renew entries
sig_renew_from renew (bad_entry ∷ entries) = err not_expected

unfoldable pub expirations : List Entry → Result Stop (List ℕ)
expirations [] = ok []
expirations (rrsig expiration ∷ entries) = do rest ← expirations entries; ok (expiration ∷ rest)
expirations (other_record ∷ entries) = expirations entries
expirations (include ∷ entries) = expirations entries
expirations (bad_entry ∷ entries) = err not_expected

module _ (zonefile : Zonefile) where
  unfoldable pub sig_renew : List String → ℕ → ℕ → Result Stop Bool
  unfolding sig_renew_from
  sig_renew rrset remain_time now = sig_renew_from (now + remain_time) (zonefile.entries rrset)

  unfoldable pub compute_cron_next : List String → ℕ → ℕ → Result Stop (Option ℕ)
  unfolding expirations
  compute_cron_next rrset remain_time now = do
    times ← expirations (zonefile.entries rrset)
    ok (
        Option.map (λ t. t - remain_time)
          (minimum (map (λ e. zonefile.to_system_time e now) times)))

-- The state that counts for the age of a key, the label of its type, and its validity.
abbrev pub ageing : KeyType → KeySetConfig → Option (KeyState × String × Option ℕ)
ageing (ksk s) c = some (s, "KSK", c.ksk_validity)
ageing (zsk s) c = some (s, "ZSK", c.zsk_validity)
ageing (csk s _) c = some (s, "CSK", c.csk_validity)
ageing (include_key s) c = none

abbrev pub too_old : ℕ → Option (KeyState × String × Option ℕ) → Bool × String
too_old age none = (false, "")
too_old age (some (s, label, none)) = (false, "")
too_old age (some (s, label, some validity)) =
    if s.stale then (false, "") else (ltb validity age, label)

-- `elapsed` is the time since a timestamp.
abbrev pub key_expired : (ℕ → ℕ) → Key → KeySetConfig → Bool × String
key_expired elapsed key c = elim key.published [
  | none ↦ (false, "")
  | some timestamp ↦ too_old (elapsed timestamp) (ageing key.keytype c)
]

-- The algorithm of a key that is not stale.
abbrev pub current_algorithm : Key → Option ℕ
current_algorithm k = elim k.keytype [
  | ksk s ↦ if s.stale then none else some k.algorithm
  | zsk s ↦ if s.stale then none else some k.algorithm
  | csk s _ ↦ if s.stale then none else some k.algorithm
  | include_key s ↦ none
]

-- Whether two lists hold the same numbers: equality of the sets made of them.
abbrev pub same_set : List ℕ → List ℕ → Bool
same_set xs ys = all (λ x. any (λ y. x == y) ys) xs && all (λ y. any (λ x. y == x) xs) ys

module _ {K : Type 0} (lib : KeySet K) (params_algorithm : KeyParameters → ℕ) where
  unfoldable pub algorithm_roll_needed : KeySetConfig → K → Bool
  algorithm_roll_needed c keyset = not (
      same_set (filter_map (λ (_, k). current_algorithm k) (lib.keys keyset))
        (params_algorithm c.algorithm ∷ []))
