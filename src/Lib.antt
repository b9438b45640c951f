-- ===== src/Lib.antt =====
-- The library dnst: the core of the command-line tools of NLnet Labs for DNS and DNSSEC, as
-- functions on data, and what holds of them.
--
-- The program is one binary with a subcommand for each tool. Five of them are here: `update`, which
-- makes a DNS UPDATE message (RFC 2136) and sends it to the first server that answers, `keyset`,
-- which keeps the keys of a zone and takes them through their rolls by itself, `signzone`, which signs a
-- zone file, `nsec3-hash` and `key2ds`.
--
-- Base       lists, options, results, Boolean tests and equality that all parts share.
-- Dns        record types, classes, response codes and records, as far as the commands name them.
--
-- Update     src/commands/update.rs.
--   Serial   compare_serial and verify_soa_serial_increment. A serial is a number below 2^32 and
--            the wrap-around is written out.
--   Message  the parsing of prerequisites and the sections of the message: create_update_message,
--            insert_prerequisites, insert_add_updates, insert_delete_updates. A message has room
--            for a given number of records, and a push can fail.
--            The debug_assert on the TTL of an exact prerequisite is an error of its own.
--   Servers  determine_nsnames: the name servers with the primary first.
--   Send     send_update of the new command and of the ldns one: the walk over the names and the
--            addresses. The lookup and one exchange with a server are parameters.
--
-- Keyset     src/commands/keyset/cmd.rs.
--   Types, Workspace
--            the configuration, the state and the work space as records. The key set, its keys and
--            its roll states belong to the `domain` crate: a record of its methods is a parameter.
--   Report   auto_wait_actions, auto_report_actions and check_auto_actions: the checks whether a
--            change has reached the servers, with the status that each action keeps. The checks
--            over the network are parameters; the mutex around the state is explicit state.
--   Propagation
--            report_dnskey_propagated, report_ds_propagated, report_rrsig_propagated and the checks
--            of one address that these make. Queries are parameters. A record that is stored twice
--            counts once.
--   AutoStart
--            auto_start and cron_next_auto_start.
--   Rrsets   update_dnskey_rrset, create_cds_rrset, update_ds_rrset, handle_actions and do_done.
--            Making records and signatures is a parameter.
--   Rrsigs   check_rrsigs: whether the records of a zone are signed as expected, with a description
--            of the records that count by the places of their names.
--   Run, NewKeys, Rolls
--            methods that also act on the world outside; new_keys, new_csk_or_ksk_zsk and remove_key
--            without the feature `kmip`; start_ksk_roll, start_zsk_roll, start_csk_roll,
--            start_algorithm_roll, roll_variant_to_roll and roll_command. Generating a key, files and
--            URLs are parameters. A panic ends a command as an error does.
--
--   Removal  remove_key_command.
--   Automation
--            auto_report_expire_done: the steps that a roll takes by itself, over the functions of
--            Report and Rrsets, and cron_next_auto_report_expire_done, which plans them. A panic is
--            a result of its own.
--   Renewal  sig_renew, compute_cron_next, key_expired and algorithm_roll_needed. The parsing of zone
--            files is a parameter.
--   Cron     the subcommand `cron`, from the parts above, and the plan at the end of every command.
--   Config   set_command, and `new` and `fmt` of the names of configured values.
--   Labels   src/commands/keyset/kmip.rs: format_key_label and truncate_zone_name, on the bytes of a
--            text; names are a parameter.
--
-- Signzone   src/commands/signzone.rs: the parts of execute, and the functions that it calls. The
--            sorted records of a zone are a list, and the operations of the library on them, its
--            signing and its digests are parameters.
--   Load     load_zone, find_apex, mk_bumped_soa_rdata and the first arguments. Sorting the records is
--            a parameter, which may drop duplicates.
--   Keys     the loading of the keys, and which of them sign what.
--   Dnskeys  the DNSKEY records and the signatures over the record sets of keys at the apex.
--   Zonemd   create_zonemd_digest_simple, replace_apex_zonemd_with_placeholder,
--            create_zonemd_digest_and_records, update_zonemd_rrsig, and their places around the
--            signing of the zone.
--   Output   the records in the order in which they are written.
--
-- Nsec3Hash  src/commands/nsec3hash.rs: number_to_label, find_prefix, execute and the parsing of a
--            salt and an algorithm. Names and hashes are parameters.
--
-- Key2ds     src/commands/key2ds.rs: execute and the choice of the digest. Files, zone files and digests
--            are parameters.
--
-- A function that can fail gives a Result, and one that changes an object takes it and gives it
-- back. Loops are structural recursion over the lists that the source walks, over the tries that are
-- left of the ten that new_keys has, over the 14 digits to base 26 that a 64-bit number has at most,
-- or, for the search in find_prefix, over a number of rounds, which is enough when it is above the
-- number that the search finds. The range of that search is one of u64 numbers, and its overflow is
-- a panic, as it is where overflows are checked.
-- Times are numbers; where the source casts to u32 the remainder is written out.
--
-- Not here: the text of the records and comments that signzone writes, and its hashes for those
-- comments; keygen.rs and notify.rs, which are mostly calls of the `domain` crate; the rest of
-- src/commands/keyset/kmip.rs and tsig.rs, which talk to a server and to files; the other
-- subcommands of keyset, as init and import; the queries and transfers of the network checks; the
-- output of all commands; src/env, src/error.rs, src/log.rs and the parsing of arguments by clap.
pub mod Base
pub mod Dns
pub mod Update
pub mod Keyset
pub mod Nsec3Hash
pub mod Key2ds
pub mod Signzone
mod Examples
