-- ===== src/Examples/Configured.antt =====
-- The subcommand `set` and the names of configured values, at concrete inputs.
use text.Mathlib.Text.{◌==◌ as ◌=?◌}
use dnst.Base.{ℕ, ◌≡◌, refl, String, true, some, [], ◌∷◌, Result, ok, err}
use dnst.Keyset.Workspace.{WorkSpace}
use dnst.Keyset.Config.{ConfigLibrary, split_caret, nameserver_from_str}
use dnst.Keyset.Config.Commands.{
  publication_nameservers, nameservers_from, checked_nameservers, set_config, set_command,
}
use dnst.Examples.Starts.{Keys, config, space}

abbrev toy_config_library : ConfigLibrary
toy_config_library = record {
  parse_addr = λ s. ok s;
  parse_key_name = λ s. ok s;
  load_tsig_store = λ path. ok (λ name. name =? "transfer");
}

abbrev stored_space : WorkSpace Keys ℕ
stored_space = record space { config = record config { tsig_store_path = some "tsig" } }

abbrev with_nameserver : WorkSpace Keys ℕ
with_nameserver = record stored_space {
  config = record config {
    tsig_store_path = some "tsig";
    nameservers = record { addr = "192.0.2.1"; tsig_key_name = some "transfer" } ∷ [];
  };
  config_changed = true;
}

unknown_key :
    set_command toy_config_library (publication_nameservers ("192.0.2.1^other" ∷ [])) stored_space
    ≡ (err "No TSIG key with this name found", stored_space)
unfolding set_command set_config checked_nameservers nameservers_from nameserver_from_str
    split_caret
unknown_key = refl

abbrev stored : Result String (Unit {0})
stored = ok tt
