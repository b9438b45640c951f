-- ===== src/Examples/Ds.antt =====
-- The command key2ds at concrete inputs.
use dnst.Base.{ℕ, suc, ◌≡◌, refl, String, true, false, none, List, [], ◌∷◌, ok, err, ◌==◌}
use dnst.Key2ds.{
  rsasha256, KeyRecord, DsRecord, Entry, key_entry, other_entry, KeyLibrary, Files, Key2ds, Output,
  ds_of, key2ds_loop, execute, already_exists,
}
use dnst.Key2ds.Printed.{AreDs, with_lines, execute-AreDs}

-- A key is its flags: 257 is a secure entry point, 256 is not. Its digest has one byte.
abbrev toy_library : KeyLibrary String ℕ
toy_library = record {
  is_secure_entry_point = λ d. d == 257;
  key_tag = λ d. d;
  algorithm = λ d. rsasha256;
  to_int = λ a. 8;
  digest = λ d owner alg. ok (1 ∷ []);
  display_zonefile = λ rr. rr.owner;
  display_ldns = λ rr. "ldns";
  fmt_with_dot = λ owner. owner;
  format_number = λ width n. "n";
}

abbrev key : ℕ → KeyRecord String ℕ
key flags = record { owner = "example."; class = 1; ttl = 3600; dnskey = flags }

abbrev entries : List (Entry String ℕ)
entries = key_entry (key 257) ∷ other_entry ∷ key_entry (key 256) ∷ []

-- The world is the number of files that were created; a file is there already.
abbrev toy_files : Files String ℕ ℕ
toy_files = record {
  load = λ path w. (ok entries, w);
  create = λ path w. (ok tt, suc w);
  create_new = λ path w. (err already_exists, w);
  write_line = λ path line w. (ok tt, w);
}

abbrev to_stdout : Key2ds
to_stdout = record {
  ignore_sep = false;
  write_to_stdout = true;
  force_overwrite = false;
  algorithm = none;
  keyfile = "key";
  invoked_as_ldns = false;
}

abbrev nothing_printed : Output ℕ
nothing_printed = record { world = 0; printed = [] }

abbrev one_printed : Output ℕ
one_printed = record { world = 0; printed = "example." ∷ [] }

printed_once : execute toy_library toy_files to_stdout nothing_printed ≡ (ok tt, one_printed)
unfolding execute key2ds_loop ds_of
printed_once = refl

not_overwritten :
    execute toy_library toy_files (record to_stdout { write_to_stdout = false }) nothing_printed
    ≡ (err "The file already exists, use the --force to overwrite", nothing_printed)
unfolding execute key2ds_loop ds_of
not_overwritten = refl

execute-AreDs_example :
    (rrs : List (DsRecord String)) × AreDs toy_library to_stdout (key 257 ∷ []) rrs
    × (one_printed ≡ with_lines toy_library toy_files to_stdout rrs nothing_printed)
execute-AreDs_example =
    execute-AreDs toy_library toy_files to_stdout entries nothing_printed nothing_printed
      one_printed refl refl printed_once
