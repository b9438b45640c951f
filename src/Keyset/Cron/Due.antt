-- ===== src/Keyset/Cron/Due.antt =====
-- Which stale keys the subcommand `cron` removes, and when (src/commands/keyset/cmd.rs).
use dnst.Base.{
  ℕ, ◌+◌, String, Bool, true, false, Option, none, some, List, [], ◌∷◌, Result, ok, err, ◌>>=◌, leb,
  if◌then◌else◌,
}
use dnst.Keyset.Types.{KeyType, ksk, zsk, csk, include_key, KeyState, Key}
use dnst.Keyset.Automation.{Stop, not_expected}
use dnst.Keyset.Automation.Planned.{Plan}

abbrev pub main_state : KeyType → KeyState
main_state (ksk s) = s
main_state (zsk s) = s
main_state (csk s t) = s
main_state (include_key s) = s

-- When a key may be removed: none for a key that is not stale. A stale key has a time at which it
-- was withdrawn, or the code panics.
abbrev pub withdrawn_for : ℕ → Bool → Option ℕ → Result Stop (Option ℕ)
withdrawn_for delay false withdrawn = ok none
withdrawn_for delay true none = err not_expected
withdrawn_for delay true (some withdrawn) = ok (some (withdrawn + delay))

abbrev pub removable_from : ℕ → Key → Result Stop (Option ℕ)
removable_from delay key = withdrawn_for delay (main_state key.keytype).stale key.withdrawn

abbrev pub if_past :
    ℕ
    → Option ℕ
    → String × Option String
    → List (String × Option String)
    → List (String × Option String)
if_past now none urls rest = rest
if_past now (some t) urls rest = if leb t now then urls ∷ rest else rest

-- The keys to remove, each with its private key.
unfoldable pub removals : ℕ → ℕ → List (String × Key) → Result Stop (List (String × Option String))
removals now delay [] = ok []
removals now delay ((u, k) ∷ keys) = do
  t ← removable_from delay k
  rest ← removals now delay keys
  ok (if_past now t (u, k.privref) rest)

abbrev pub cons_time : Option ℕ → List (Option ℕ) → List (Option ℕ)
cons_time none times = times
cons_time (some t) times = some t ∷ times

-- The times at which the stale keys may be removed.
unfoldable pub removal_times : ℕ → List (String × Key) → Plan
removal_times delay [] = ok []
removal_times delay ((u, k) ∷ keys) = do
  t ← removable_from delay k
  times ← removal_times delay keys
  ok (cons_time t times)
