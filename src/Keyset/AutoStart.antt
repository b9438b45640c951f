-- ===== src/Keyset/AutoStart.antt =====
-- Starting a key roll when a key expires (src/commands/keyset/cmd.rs): auto_start, and
-- cron_next_auto_start, which plans the next run for it.
pub mod Laws
pub mod Early
use mathlib.Core.Option
use dnst.Base.{
  ℕ, ◌+◌, String, Bool, true, false, not, Option, none, some, List, [], ◌∷◌, ◌++◌, Result, ok, err,
  ltb, any, filter_map, map, if◌then◌else◌,
}
use dnst.Keyset.Types.{RollType, RollState, KeyType, KeyState, Key, Action}
use dnst.Keyset.Run.{Machine, Run}
use dnst.Keyset.Workspace.{WorkSpace, KeySetState, AutoConfig, KeySet}

-- `Iterator::min`: of two numbers the smaller.
unfoldable pub minimum : List ℕ → Option ℕ
minimum [] = none
minimum (x ∷ xs) = elim (minimum xs) [ none ↦ some x | some y ↦ if ltb y x then some y else some x ]

-- When a key that takes part in the roll was published: none for a key of another type and for a
-- stale one.
abbrev pub active_published : (KeyType → Option KeyState) → Key → Option ℕ
active_published match_keytype k = elim (match_keytype k.keytype) [
  | none ↦ none
  | some keystate ↦ if keystate.stale then none else k.published
]

module _ {K : Type 0} (lib : KeySet K) where
  -- Whether a roll is in the way.
  unfoldable pub conflict : (RollType → Bool) → K → Bool
  conflict conflicting_roll keyset = any (λ (r, _). conflicting_roll r) (lib.rollstates keyset)

  -- `filter_map` with the validity added under it, then `min`.
  expiry_in_start : (KeyType → Option KeyState) → ℕ → K → Option ℕ
  expiry_in_start match_keytype validity keyset = minimum (
      filter_map (λ (_, k). Option.map (λ t. t + validity) (active_published match_keytype k))
        (lib.keys keyset))

  -- `filter_map`, then the validity added by `map`, then `min`.
  unfoldable pub expiry_in_cron : (KeyType → Option KeyState) → ℕ → K → Option ℕ
  expiry_in_cron match_keytype validity keyset = minimum (
      map (λ published. published + validity)
        (filter_map (λ (_, k). active_published match_keytype k) (lib.keys keyset)))

module _ {K Name W : Type 0} where
  -- The result of starting a roll with the machine after it; an error of the start is the
  -- result of auto_start, in which case the flag is not set.
  abbrev pub started :
      Result String (List Action) × Machine K Name W → Result String (Unit {0}) × Machine K Name W
  started (ok actions, m) = (ok tt, record m { space = record m.space { state_changed = true } })
  started (err e, m) = (err e, m)

  start_if_due :
      ℕ → Option ℕ → (Run (Machine K Name W) (List Action)) → Run (Machine K Name W) (Unit {0})
  start_if_due now none start_roll m = (ok tt, m)
  start_if_due now (some next) start_roll m =
      if ltb next now then started (start_roll m) else (ok tt, m)

module _ {K Name W : Type 0} (lib : KeySet K) where
  pub auto_start :
      ℕ
      → Option ℕ
      → AutoConfig
      → (RollType → Bool)
      → (KeyType → Option KeyState)
      → (Run (Machine K Name W) (List Action))
      → Run (Machine K Name W) (Unit {0})
  unfolding conflict expiry_in_start start_if_due
  auto_start now none auto conflicting_roll match_keytype start_roll m = (ok tt, m)
  auto_start now (some validity) auto conflicting_roll match_keytype start_roll m =
      if auto.start
      then (if not (conflict lib conflicting_roll m.space.state.keyset)
          then start_if_due now (expiry_in_start lib match_keytype validity m.space.state.keyset)
              start_roll m
          else (ok tt, m))
      else (ok tt, m)

module _ {K Name : Type 0} (lib : KeySet K) where
  unfoldable pub cron_next_auto_start :
      Option ℕ
      → AutoConfig
      → KeySetState K Name
      → (RollType → Bool)
      → (KeyType → Option KeyState)
      → List (Option ℕ)
      → List (Option ℕ)
  unfolding conflict expiry_in_cron
  cron_next_auto_start none auto kss conflicting_roll match_keytype cron_next = cron_next
  cron_next_auto_start (some validity) auto kss conflicting_roll match_keytype cron_next =
      if auto.start
      then (if not (conflict lib conflicting_roll kss.keyset)
          then cron_next ++ expiry_in_cron lib match_keytype validity kss.keyset ∷ []
          else cron_next)
      else cron_next
