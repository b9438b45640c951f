-- ===== src/Keyset/Rolls/Commands.antt =====
-- The start of the four rolls, and the subcommands of a roll (src/commands/keyset/cmd.rs).
use dnst.Base.{ℕ, String, Bool, true, false, not, some, List, [], ◌∷◌, Result, ok, err, any}
use dnst.Keyset.Types.{RollType, Action}
use dnst.Keyset.Workspace.{KeySet, KeySetError}
use dnst.Keyset.Run.{Machine, Run, ◌>>=◌, return, fail, on_space}
use dnst.Keyset.NewKeys.{Backend, new_keys, remove_key}
use dnst.Keyset.Rrsets.{KeyStore, handle_actions, do_done}
use dnst.Keyset.Rolls.{
  RollVariant, ksk_variant, zsk_variant, csk_variant, algorithm_variant, RollCommands, start_roll,
  cache_expired1, cache_expired2, roll_done, propagation1_complete, propagation2_complete,
  ksk_roll_of, zsk_roll_of, roll_variant_to_roll, csk_in_use, ksk_in_use, zsk_in_use, key_in_use,
  names_of, is_empty, require, split_guards, map_err, on_keyset, insert_reports, set_changed,
}

module _ {S P W K Name D : Type 0} (backend : Backend S P W) (lib : KeySet K) (store : KeyStore D)
    (zone : String) (now : ℕ) where
  -- The URLs of the new keys, and those of their files, for `use_csk`.
  unfoldable pub csk_or_ksk_zsk : Bool → Run (Machine K Name W) (List String × List String)
  unfolding new_keys
  csk_or_ksk_zsk true = do
    (csk_pub, csk_priv, alg, tag) ← new_keys backend lib zone true
    _ ←
        on_space (
          on_keyset "unable to add CSK"
            (λ k. lib.add_key_csk k csk_pub (some csk_priv) alg tag now))
    return (csk_pub ∷ [], csk_priv ∷ csk_pub ∷ [])
  csk_or_ksk_zsk false = do
    (ksk_pub, ksk_priv, alg, tag) ← new_keys backend lib zone true
    _ ←
        on_space (
          on_keyset "unable to add KSK"
            (λ k. lib.add_key_ksk k ksk_pub (some ksk_priv) alg tag now))
    (zsk_pub, zsk_priv, zsk_alg, zsk_tag) ← new_keys backend lib zone false
    _ ← on_space (
        on_keyset "unable to add ZSK"
          (λ k. lib.add_key_zsk k zsk_pub (some zsk_priv) zsk_alg zsk_tag now))
    return (ksk_pub ∷ zsk_pub ∷ [], ksk_priv ∷ ksk_pub ∷ zsk_priv ∷ zsk_pub ∷ [])

  unfoldable pub new_csk_or_ksk_zsk : Run (Machine K Name W) (List String × List String)
  unfolding csk_or_ksk_zsk
  new_csk_or_ksk_zsk m = csk_or_ksk_zsk m.space.config.use_csk m

  unfoldable pub remove_keys : List String → Run (Machine K Name W) (Unit {0})
  unfolding remove_key
  remove_keys [] = return tt
  remove_keys (url ∷ urls) = do _ ← remove_key backend url; remove_keys urls

  -- The actions of the started roll, or the removal of the new keys.
  unfoldable pub after_start :
      RollType → List String → Result String (List Action) → Run (Machine K Name W) (List Action)
  unfolding remove_keys
  after_start roll urls (err e) = do _ ← remove_keys urls; fail e
  after_start roll urls (ok actions) = do
    _ ← on_space (handle_actions store lib now actions)
    _ ← on_space (insert_reports roll)
    return actions

  -- The end of all four functions: the roll is started in the key set.
  unfoldable pub begin_roll :
      RollType → List String → List String → List String → Run (Machine K Name W) (List Action)
  unfolding after_start
  begin_roll roll old new urls m =
      let (r, keyset) = lib.start_roll m.space.state.keyset roll old new in
      after_start roll urls (map_err "cannot start roll" r)
        (record m { space = record m.space { state = record m.space.state { keyset = keyset } } })

  -- The rest of start_ksk_roll, for the machine it started from.
  unfoldable pub begin_ksk_roll : Machine K Name W → Run (Machine K Name W) (List Action)
  unfolding new_keys begin_roll
  begin_ksk_roll m = do
    (ksk_pub, ksk_priv, alg, tag) ← new_keys backend lib zone true
    _ ←
        on_space (
          on_keyset "unable to add KSK"
            (λ k. lib.add_key_ksk k ksk_pub (some ksk_priv) alg tag now))
    begin_roll (ksk_roll_of m.space.config.ksk_roll_type)
        (names_of ksk_in_use (lib.keys m.space.state.keyset)) (ksk_pub ∷ [])
        (ksk_priv ∷ ksk_pub ∷ [])

  unfoldable pub start_ksk_roll : Run (Machine K Name W) (List Action)
  unfolding begin_ksk_roll
  start_ksk_roll m =
      (split_guards (is_empty (lib.keys m.space.state.keyset)) m.space.config.use_csk
            (any csk_in_use (lib.keys m.space.state.keyset))
          >>= λ _. begin_ksk_roll m)
        m

  -- The rest of start_zsk_roll, for the machine it started from.
  unfoldable pub begin_zsk_roll : Machine K Name W → Run (Machine K Name W) (List Action)
  unfolding new_keys begin_roll
  begin_zsk_roll m = do
    (zsk_pub, zsk_priv, alg, tag) ← new_keys backend lib zone false
    _ ←
        on_space (
          on_keyset "unable to add ZSK"
            (λ k. lib.add_key_zsk k zsk_pub (some zsk_priv) alg tag now))
    begin_roll (zsk_roll_of m.space.config.zsk_roll_type)
        (names_of zsk_in_use (lib.keys m.space.state.keyset)) (zsk_pub ∷ [])
        (zsk_priv ∷ zsk_pub ∷ [])

  unfoldable pub start_zsk_roll : Run (Machine K Name W) (List Action)
  unfolding begin_zsk_roll
  start_zsk_roll m =
      (split_guards (is_empty (lib.keys m.space.state.keyset)) m.space.config.use_csk
            (any csk_in_use (lib.keys m.space.state.keyset))
          >>= λ _. begin_zsk_roll m)
        m

  -- The rest of start_csk_roll and of start_algorithm_roll.
  unfoldable pub begin_full_roll :
      RollType → Machine K Name W → Run (Machine K Name W) (List Action)
  unfolding new_csk_or_ksk_zsk begin_roll
  begin_full_roll roll m = do
    (new, urls) ← new_csk_or_ksk_zsk
    begin_roll roll (names_of key_in_use (lib.keys m.space.state.keyset)) new urls

  unfoldable pub start_csk_roll : Run (Machine K Name W) (List Action)
  unfolding begin_full_roll
  start_csk_roll m =
      (require (not (is_empty (lib.keys m.space.state.keyset))) "assertion failed: no keys" >>= λ _.
      begin_full_roll RollType.csk_roll m)
        m

  unfoldable pub start_algorithm_roll : Run (Machine K Name W) (List Action)
  unfolding begin_full_roll
  start_algorithm_roll m =
      (require (not (is_empty (lib.keys m.space.state.keyset))) "assertion failed: no keys" >>= λ _.
      begin_full_roll RollType.algorithm_roll m)
        m

  unfoldable pub start : RollVariant → Run (Machine K Name W) (List Action)
  unfolding start_ksk_roll start_zsk_roll start_csk_roll start_algorithm_roll
  start ksk_variant = start_ksk_roll
  start zsk_variant = start_zsk_roll
  start csk_variant = start_csk_roll
  start algorithm_variant = start_algorithm_roll

  -- What follows the key set's answer to a subcommand.
  abbrev pub perform :
      String → (K → Result KeySetError (List Action) × K) → Run (Machine K Name W) (Unit {0})
  perform e f = do
    actions ← on_space (on_keyset e f)
    _ ← on_space (handle_actions store lib now actions)
    on_space set_changed

  unfoldable pub roll_command : RollCommands → RollVariant → Run (Machine K Name W) (Unit {0})
  unfolding start
  roll_command start_roll variant m = (start variant >>= λ _. on_space set_changed) m
  roll_command (propagation1_complete ttl) variant m =
      let roll = roll_variant_to_roll variant m.space.config in
      perform "Error reporting propagation complete" (λ k. lib.propagation1_complete k roll ttl) m
  roll_command cache_expired1 variant m =
      let roll = roll_variant_to_roll variant m.space.config in
      perform "Error reporting cache expired" (λ k. lib.cache_expired1 k roll) m
  roll_command (propagation2_complete ttl) variant m =
      let roll = roll_variant_to_roll variant m.space.config in
      perform "Error reporting propagation complete" (λ k. lib.propagation2_complete k roll ttl) m
  roll_command cache_expired2 variant m =
      let roll = roll_variant_to_roll variant m.space.config in
      perform "Error reporting cache expired" (λ k. lib.cache_expired2 k roll) m
  roll_command roll_done variant m =
      let roll = roll_variant_to_roll variant m.space.config in
      (on_space (do_done lib roll) >>= λ _. on_space set_changed) m
