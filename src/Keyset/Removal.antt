-- ===== src/Keyset/Removal.antt =====
-- The subcommand `remove-key` (src/commands/keyset/cmd.rs, remove_key_command). Whether a key is
-- decoupled is asked of the `domain` crate.
use text.Mathlib.Text.{◌==◌ as ◌=?◌}
use dnst.Base.{
  ◌≡◌, ◌⊎◌, inl, inr, refl, ap, ◌∙◌, String, Bool, Bool-cases, true, false, ◌&&◌, ◌||◌, not, Option,
  none, some, List, [], ◌∷◌, Result, ok, err, if◌then◌else◌, is_some, arith,
}
use dnst.Keyset.Types.{Key, KeyType, ksk, zsk, include_key, csk}
use dnst.Keyset.Workspace.{WorkSpace, KeySet, KeySetError}
use dnst.Keyset.Run.{Machine, Run, ◌>>=◌, return, fail, from_result, on_space}
use dnst.Keyset.NewKeys.{Backend, remove_key}

abbrev is_stale : KeyType → Bool
is_stale (ksk s) = s.stale
is_stale (zsk s) = s.stale
is_stale (include_key s) = s.stale
is_stale (csk k z) = k.stale && z.stale

unfoldable find_key : String → List (String × Key) → Option Key
find_key pubref [] = none
find_key pubref ((name, key) ∷ keys) =
    let rest = find_key pubref keys in if name =? pubref then some key else rest

module _ {S P W K Name : Type 0} (backend : Backend S P W) (lib : KeySet K)
    (decoupled : Key → Bool) where
  abbrev with_keyset : K → WorkSpace K Name → WorkSpace K Name
  with_keyset keyset ws = record ws { state = record ws.state { keyset = keyset } }

  -- `set_stale(..).expect("should not fail")` where the command is forced.
  abbrev marked : Result KeySetError (Unit {0}) × K → Run (WorkSpace K Name) (Unit {0})
  marked (err e, keyset) ws = (err "panic: should not fail", with_keyset keyset ws)
  marked (ok u, keyset) ws = (ok tt, with_keyset keyset ws)

  abbrev mark_stale : Bool → String → Run (WorkSpace K Name) (Unit {0})
  mark_stale false pubref ws = (ok tt, ws)
  mark_stale true pubref ws = marked (lib.set_stale ws.state.keyset pubref) ws

  abbrev delete_result : Result KeySetError (Unit {0}) × K → Run (WorkSpace K Name) (Unit {0})
  delete_result (err e, keyset) ws = (err "unable to remove key", with_keyset keyset ws)
  delete_result (ok u, keyset) ws = (ok tt, with_keyset keyset ws)

  abbrev delete_pubref : String → Run (WorkSpace K Name) (Unit {0})
  delete_pubref pubref ws = delete_result (lib.delete_key ws.state.keyset pubref) ws

  abbrev forget : Bool → String → Run (Machine K Name W) (Unit {0})
  forget force pubref = on_space (mark_stale force pubref) >>= λ _. on_space (delete_pubref pubref)

  -- An error is logged and passed over where `ignored` says so.
  abbrev passed_over :
      Bool
      → Result String (Unit {0}) × Machine K Name W
      → Result String (Unit {0}) × Machine K Name W
  passed_over ignored (err e, m) = if ignored then (ok tt, m) else (err e, m)
  passed_over ignored (ok u, m) = (ok u, m)

  abbrev tried : Bool → String → Run (Machine K Name W) (Unit {0})
  tried ignored text = from_result (backend.parse_url text) >>= λ url m.
      passed_over ignored (remove_key backend url m)

  abbrev remove_private_key : Bool → Option String → Run (Machine K Name W) (Unit {0})
  remove_private_key continue_flag none = return tt
  remove_private_key continue_flag (some privref) = tried continue_flag privref

  abbrev remove_files : Bool → Bool → String → Key → Run (Machine K Name W) (Unit {0})
  remove_files force continue_flag pubref key =
      remove_private_key continue_flag key.privref >>= λ _.
      tried (is_some key.privref || continue_flag) pubref >>= λ _. forget force pubref

  abbrev remove_found : Bool → Bool → String → Option Key → Run (Machine K Name W) (Unit {0})
  remove_found force continue_flag pubref none = fail "key not found"
  remove_found force continue_flag pubref (some key) =
      if decoupled key
      then forget force pubref
      else if not (is_stale key.keytype) && not force
      then fail "unable to remove key. Key is not stale. Use --force to override"
      else remove_files force continue_flag pubref key

  unfoldable remove_key_command : String → Bool → Bool → Run (Machine K Name W) (Unit {0})
  unfolding find_key remove_key
  remove_key_command pubref force continue_flag m =
      remove_found force continue_flag pubref (find_key pubref (lib.keys m.space.state.keyset)) m

  -- Without force, only a key of the key set that is decoupled or stale is removed; otherwise the
  -- command fails with the key set, the files and all else as they were.
  remove_key_command_guarded :
      (pubref : String) (continue_flag : Bool) (m : Machine K Name W)
      → ((key : Key) × (find_key pubref (lib.keys m.space.state.keyset) ≡ some key)
          × (decoupled key || is_stale key.keytype ≡ true))
        ⊎ ((e : String) × (remove_key_command pubref false continue_flag m ≡ (err e, m)))
  unfolding remove_key_command
  remove_key_command_guarded pubref continue_flag m =
      by_key (find_key pubref (lib.keys m.space.state.keyset)) refl
    where
      by_key :
          (o : Option Key)
          → find_key pubref (lib.keys m.space.state.keyset) ≡ o
          → ((key : Key) × (find_key pubref (lib.keys m.space.state.keyset) ≡ some key)
              × (decoupled key || is_stale key.keytype ≡ true))
            ⊎ ((e : String) × (remove_found false continue_flag pubref
                    (find_key pubref (lib.keys m.space.state.keyset))
                    m
                  ≡ (err e, m)))
      by_key none e = inr ("key not found", ap (λ o. remove_found false continue_flag pubref o m) e)
      by_key (some key) e = elim (Bool-cases (decoupled key || is_stale key.keytype)) [
        | inl g ↦ inl (key, e, g)
        | inr g ↦ inr (_, ap (λ o. remove_found false continue_flag pubref o m) e ∙ refused key g)
      ]
        where
          refused :
              (key : Key)
              → decoupled key || is_stale key.keytype ≡ false
              → remove_found false continue_flag pubref (some key) m
                ≡ (err "unable to remove key. Key is not stale. Use --force to override", m)
          refused key g = ground (arith, g)
