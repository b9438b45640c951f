-- ===== src/Examples/Rolls.antt =====
-- New keys and the start of rolls, at concrete inputs.
use Prim.Native.String.{◌++◌}
use dnst.Base.{ℕ, suc, ◌+◌, ◌<◌, ◌≡◌, refl, true, false, [], ◌∷◌, ok, any}
use dnst.Keyset.Types.{update_dnskey_rrset}
use dnst.Keyset.Run.{Machine}
use dnst.Keyset.NewKeys.{
  Backend, tag_in_use, new_keys, generate_unique, store_key, max_key_tag_tries,
}
use dnst.Keyset.NewKeys.Draw.{drawn, Collides, new_keys-eq-ok}
use dnst.Keyset.Rrsets.{
  handle_actions, handle_action, insert, remove, update_dnskeys, dnskey_records, collect, sign_loop,
}
use dnst.Keyset.Rolls.{ksk_variant, start_roll, roll_variant_to_roll, csk_in_use}
use dnst.Keyset.Rolls.Commands.{
  start, start_ksk_roll, begin_ksk_roll, begin_roll, after_start, roll_command,
}
use dnst.Keyset.Rolls.Variants.{StartedFor, is_split, start-StartedFor}
use dnst.Keyset.Rolls.Commanded.{Performed, roll_command-Performed}
use dnst.Examples.Starts.{Keys, toy_keyset, space}
use dnst.Examples.RecordSets.{toy_store}

-- The world is the number of keys generated so far. The tags that come are 4711 + n.
abbrev pub toy_backend : Backend ℕ ℕ ℕ
toy_backend = record {
  generate = λ algorithm flags n. (ok (n, 4711 + n), suc n);
  key_tag = λ tag. tag;
  algorithm = λ tag. 13;
  format_number = λ width n. "n";
  push_path = λ dir file. dir ++ ("/" ++ file);
  display_secret = λ n. "secret";
  display_public = λ tag. "public";
  path_text = λ path. ok path;
  parse_url = λ url. ok url;
  url_scheme = λ url. "file";
  url_path = λ url. url;
  same_text = λ s t. true;
  create_new_file = λ path mode n. (ok tt, n);
  write_all = λ path text n. (ok tt, n);
  remove_file = λ path n. (ok tt, n);
}

-- A generator that only makes the tag of the key that there is.
abbrev stuck_backend : Backend ℕ ℕ ℕ
stuck_backend = record toy_backend { generate = λ algorithm flags n. (ok (n, 4711), suc n) }

abbrev machine : Machine Keys ℕ ℕ
machine = record { space = space; world = 0 }

new_keys_run : new_keys toy_backend toy_keyset "example." true machine ≡ (
  ok ("file://keys/Kexample.+n+n.key", "file://keys/Kexample.+n+n.private", 13, 4712),
  record machine { world = 2 },
)
unfolding new_keys generate_unique store_key
new_keys_run = refl

new_keys-eq-ok_example :
    (space ≡ space) × (tag_in_use (toy_keyset.keys space.state.keyset) 4712 ≡ false)
new_keys-eq-ok_example = new_keys-eq-ok toy_backend toy_keyset "example." true machine new_keys_run

stuck :
    (i : ℕ)
    → i < max_key_tag_tries
    → Collides stuck_backend machine.space.config.algorithm 257
        (toy_keyset.keys space.state.keyset)
        (drawn stuck_backend machine.space.config.algorithm 257
          (toy_keyset.keys space.state.keyset)
          i
          0)
stuck i lt =
    let w =
      drawn stuck_backend machine.space.config.algorithm 257 (toy_keyset.keys space.state.keyset) i
        0 in
    (w, 4711, refl, refl)

abbrev after : Machine Keys ℕ ℕ
after = (start toy_backend toy_keyset toy_store "example." 1000 ksk_variant machine).1

start_run :
    start toy_backend toy_keyset toy_store "example." 1000 ksk_variant machine
    ≡ (ok (update_dnskey_rrset ∷ []), after)
unfolding start start_ksk_roll begin_ksk_roll begin_roll after_start new_keys generate_unique
    store_key handle_actions handle_action update_dnskeys dnskey_records collect sign_loop insert
    remove
start_run = refl

start-StartedFor_example :
    StartedFor toy_backend toy_keyset toy_store "example." 1000 ksk_variant
      (update_dnskey_rrset ∷ [])
      machine
      after
    × (is_split ksk_variant ≡ true
        → (space.config.use_csk ≡ false)
          × (any csk_in_use (toy_keyset.keys space.state.keyset) ≡ false))
start-StartedFor_example =
    start-StartedFor toy_backend toy_keyset toy_store "example." 1000 ksk_variant machine after
      (update_dnskey_rrset ∷ []) start_run

abbrev end : Machine Keys ℕ ℕ
end =
    (roll_command toy_backend toy_keyset toy_store "example." 1000 start_roll ksk_variant machine).1

command_run :
    roll_command toy_backend toy_keyset toy_store "example." 1000 start_roll ksk_variant machine
    ≡ (ok tt, end)
unfolding roll_command start start_ksk_roll begin_ksk_roll begin_roll after_start new_keys
    generate_unique store_key handle_actions handle_action update_dnskeys dnskey_records collect
    sign_loop insert remove
command_run = refl

roll_command-Performed_example :
    (end.space.state_changed ≡ true)
    × Performed toy_backend toy_keyset toy_store "example." 1000 start_roll ksk_variant
        (roll_variant_to_roll ksk_variant space.config)
        machine
        end
roll_command-Performed_example =
    roll_command-Performed toy_backend toy_keyset toy_store "example." 1000 start_roll ksk_variant
      machine end command_run
