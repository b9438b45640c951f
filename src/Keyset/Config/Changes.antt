-- ===== src/Keyset/Config/Changes.antt =====
-- What the subcommand `set` changes and what it keeps (src/commands/keyset/cmd.rs).
use dnst.Base.{String, ◌≡◌, Bool, true, false, Option, none, some, ok, All}
use dnst.Keyset.Workspace.{KeySetConfig}
use dnst.Keyset.Config.{ConfigLibrary}
use dnst.Keyset.Config.Commands.{SetCommands, tsig_store_path, key_names}

abbrev pub changes_store : SetCommands → Bool
changes_store (tsig_store_path _) = true
changes_store _ = false

module _ (lib : ConfigLibrary) where
  -- A TSIG key is in the store.
  abbrev pub Stored : Option String → String → Type 0
  Stored none name = ⊥
  Stored (some path) name =
      (known : String → Bool) × (lib.load_tsig_store path ≡ ok known) × (known name ≡ true)

  -- Every TSIG key that a nameserver asks for is in the store of the configuration.
  abbrev pub KeysStored : KeySetConfig → Type 0
  KeysStored c = All (Stored c.tsig_store_path) (key_names lib c.nameservers)
