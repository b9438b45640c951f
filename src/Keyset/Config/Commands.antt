-- ===== src/Keyset/Config/Commands.antt =====
-- The subcommand `set` (src/commands/keyset/cmd.rs, set_command). The durations, times and paths
-- have been parsed by then. The set of nameservers is a list.
use dnst.Base.{
  ℕ, String, Bool, true, Option, none, some, is_some, List, [], ◌∷◌, Result, ok, err, ◌>>=◌, any,
  all, filter_map, if◌then◌else◌,
}
use dnst.Keyset.Workspace.{
  WorkSpace, KeySetConfig, KskRollType, ZskRollType, AutoConfig, DsAlgorithm,
  NameserverConnectionDetails,
}
use dnst.Keyset.Config.{ConfigLibrary, new_key_parameters, nameserver_from_str}

pub data SetCommands : Type 0 where
  algorithm : String → Option ℕ → SetCommands
  publication_nameservers : List String → SetCommands
  autoremove_delay dnskey_inception_offset dnskey_lifetime dnskey_remain_time cds_inception_offset
        cds_lifetime cds_remain_time default_ttl :
      ℕ → SetCommands
  ksk_validity zsk_validity csk_validity fake_time : Option ℕ → SetCommands
  use_csk autoremove : Bool → SetCommands
  ksk_roll_type : KskRollType → SetCommands
  zsk_roll_type : ZskRollType → SetCommands
  ds_algorithm : DsAlgorithm → SetCommands
  update_ds_command : List String → SetCommands
  tsig_store_path : Option String → SetCommands
  auto_ksk auto_zsk auto_csk auto_algorithm : AutoConfig → SetCommands

module _ (lib : ConfigLibrary) where
  unfoldable pub nameservers_from : List String → Result String (List NameserverConnectionDetails)
  unfolding nameserver_from_str
  nameservers_from [] = ok []
  nameservers_from (a ∷ addrs) = do
    details ← nameserver_from_str lib a
    rest ← nameservers_from addrs
    ok (details ∷ rest)

  abbrev pub key_names : List NameserverConnectionDetails → List String
  key_names = filter_map (λ n. n.tsig_key_name)

  -- The loop over the key names.
  abbrev pub all_found :
      (String → Bool)
      → List NameserverConnectionDetails
      → Result String (List NameserverConnectionDetails)
  all_found known nameservers =
      if all known (key_names nameservers)
      then ok nameservers
      else err "No TSIG key with this name found"

  abbrev pub with_store :
      Option String
      → List NameserverConnectionDetails
      → Result String (List NameserverConnectionDetails)
  with_store none nameservers = err "keyset set tsig-store-path MUST be called first"
  with_store (some path) nameservers = do
    known ← lib.load_tsig_store path
    all_found known nameservers

  -- The nameservers, whose TSIG keys have to be in the store.
  unfoldable pub checked_nameservers :
      Option String → List String → Result String (List NameserverConnectionDetails)
  unfolding nameservers_from
  checked_nameservers store addrs = do
    nameservers ← nameservers_from addrs
    let stored = with_store store nameservers
    if any (λ n. is_some n.tsig_key_name) nameservers then stored else ok nameservers

  -- The new configuration, or an error.
  unfoldable pub set_config : SetCommands → KeySetConfig → Result String KeySetConfig
  unfolding new_key_parameters checked_nameservers
  set_config (algorithm name bits) c = do
    parameters ← new_key_parameters name bits
    ok (record c { algorithm = parameters })
  set_config (publication_nameservers addrs) c = do
    nameservers ← checked_nameservers c.tsig_store_path addrs
    ok (record c { nameservers = nameservers })
  set_config (autoremove_delay value) c = ok (record c { autoremove_delay = value })
  set_config (dnskey_inception_offset value) c = ok (record c { dnskey_inception_offset = value })
  set_config (dnskey_lifetime value) c = ok (record c { dnskey_signature_lifetime = value })
  set_config (dnskey_remain_time value) c = ok (record c { dnskey_remain_time = value })
  set_config (cds_inception_offset value) c = ok (record c { cds_inception_offset = value })
  set_config (cds_lifetime value) c = ok (record c { cds_signature_lifetime = value })
  set_config (cds_remain_time value) c = ok (record c { cds_remain_time = value })
  set_config (default_ttl value) c = ok (record c { default_ttl = value })
  set_config (ksk_validity value) c = ok (record c { ksk_validity = value })
  set_config (zsk_validity value) c = ok (record c { zsk_validity = value })
  set_config (csk_validity value) c = ok (record c { csk_validity = value })
  set_config (fake_time value) c = ok (record c { faketime = value })
  set_config (use_csk value) c = ok (record c { use_csk = value })
  set_config (autoremove value) c = ok (record c { autoremove = value })
  set_config (ksk_roll_type value) c = ok (record c { ksk_roll_type = value })
  set_config (zsk_roll_type value) c = ok (record c { zsk_roll_type = value })
  set_config (ds_algorithm value) c = ok (record c { ds_algorithm = value })
  set_config (update_ds_command value) c = ok (record c { update_ds_command = value })
  set_config (tsig_store_path value) c = ok (record c { tsig_store_path = value })
  set_config (auto_ksk value) c = ok (record c { auto_ksk = value })
  set_config (auto_zsk value) c = ok (record c { auto_zsk = value })
  set_config (auto_csk value) c = ok (record c { auto_csk = value })
  set_config (auto_algorithm value) c = ok (record c { auto_algorithm = value })

module _ {K Name : Type 0} (lib : ConfigLibrary) where
  abbrev pub store_config :
      Result String KeySetConfig → WorkSpace K Name → Result String (Unit {0}) × WorkSpace K Name
  store_config (err e) ws = (err e, ws)
  store_config (ok config) ws = (ok tt, record ws { config = config; config_changed = true })

  unfoldable pub set_command :
      SetCommands → WorkSpace K Name → Result String (Unit {0}) × WorkSpace K Name
  unfolding set_config
  set_command cmd ws = store_config (set_config lib cmd ws.config) ws
