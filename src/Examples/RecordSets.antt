-- ===== src/Examples/RecordSets.antt =====
-- The record sets of the state, and the check of signatures, at concrete inputs.
use dnst.Base.{
  ℕ, ◌≡◌, ◌≢◌, refl, String, Bool, true, false, Option, none, some, List, [], ◌∷◌, ◌++◌, map, ok,
  ◌>>=◌, nat_eq, any, ◌==◌, if◌then◌else◌,
}
use dnst.Dns.{Rtype, a, ns, soa, nsec3, ds, dnskey}
use dnst.Keyset.Types.{
  RollType, zsk_roll, Action, update_dnskey_rrset, update_ds_rrset, remove_cds_rrset,
}
use dnst.Keyset.Workspace.{WorkSpace}
use dnst.Keyset.Rrsigs.{wait_next_serial, KeyTags, check_rrsigs, check_names, check_types, same_set}
use dnst.Keyset.Rrsigs.Authoritative.{authoritative}
use dnst.Keyset.Rrsigs.Laws.{Says, check_rrsigs-Says}
use dnst.Keyset.Rrsets.{
  KeyStore, dnskey_records, ds_records, collect, sign_loop, remove, present, at_parent,
  inception_time, expiration_time, update_dnskeys, update_ds, handle_actions, get, do_done,
}
use dnst.Keyset.Rrsets.Contents.{Collected, Signatures, update_dnskeys-eq-ok, update_ds-eq-ok}
use dnst.Keyset.Rrsets.Frame.{Framed, writes_dnskey, writes_cds, writes_ds, handle_actions-Framed}
use dnst.Keyset.Rrsets.Done.{do_done-eq-ok}
use dnst.Examples.Starts.{Keys, toy_keyset, space}

-- A DNSKEY record is the URL of its key here, and its text and its signatures name it.
abbrev pub toy_store : KeyStore String
toy_store = record {
  public_key = λ url. ok url;
  bad_rrset = λ rrs. none;
  bad_cds_rrset = λ rrs. none;
  sign_dnskey = λ priv url rrs inception expiration. ok priv;
  sign_cds = λ priv url rrs inception expiration. ok (priv, url);
  ds_of = λ algorithm ttl d. ok d;
  cds_of = λ algorithm d. ok (d, d);
  display = λ d. d;
}

abbrev with_dnskeys : WorkSpace Keys ℕ
with_dnskeys = record space {
  state = record space.state {
    dnskey_rrset = "file:///keys/old.key" ∷ "file:///keys/old.private" ∷ [];
  };
}

update_dnskeys_run : update_dnskeys toy_store toy_keyset 1000 space ≡ (ok tt, with_dnskeys)
unfolding update_dnskeys dnskey_records collect sign_loop
update_dnskeys_run = refl

update_dnskeys-eq-ok_example :
    (dnskeys : List String) × (sigs : List String) × Collected present
      (λ k _. toy_store.public_key k)
      (toy_keyset.keys space.state.keyset)
      dnskeys
    × Signatures toy_store.bad_rrset
        (λ p k.
          toy_store.sign_dnskey p k dnskeys
            (inception_time 1000 space.config.dnskey_inception_offset)
            (expiration_time 1000 space.config.dnskey_signature_lifetime))
        dnskeys
        (toy_keyset.keys space.state.keyset)
        sigs
    × (with_dnskeys ≡ record space {
      state = record space.state { dnskey_rrset = map toy_store.display dnskeys ++ sigs };
    })
update_dnskeys-eq-ok_example =
    update_dnskeys-eq-ok toy_store toy_keyset 1000 space with_dnskeys update_dnskeys_run

abbrev with_ds : WorkSpace Keys ℕ
with_ds = record space { state = record space.state { ds_rrset = "file:///keys/old.key" ∷ [] } }

update_ds_run : update_ds toy_store toy_keyset space ≡ (ok tt, with_ds)
unfolding update_ds ds_records collect
update_ds_run = refl

update_ds-eq-ok_example :
    (records : List String) × Collected at_parent
      (λ k _. do
        d ← toy_store.public_key k
        toy_store.ds_of space.config.ds_algorithm space.config.default_ttl d)
      (toy_keyset.keys space.state.keyset)
      records
    × (with_ds ≡ record space { state = record space.state { ds_rrset = records } })
update_ds-eq-ok_example = update_ds-eq-ok toy_store toy_keyset 1000 space with_ds update_ds_run

abbrev actions : List Action
actions = update_dnskey_rrset ∷ remove_cds_rrset ∷ update_ds_rrset ∷ []

handle_actions-Framed_example :
    Framed
      (any writes_dnskey actions)
      (any writes_cds actions)
      (any writes_ds actions)
      space
      (handle_actions toy_store toy_keyset 1000 actions space).0
      (handle_actions toy_store toy_keyset 1000 actions space).1
handle_actions-Framed_example = handle_actions-Framed toy_store toy_keyset 1000 actions space

do_done_run : do_done toy_keyset zsk_roll with_ds ≡ (ok tt, with_ds)
unfolding do_done remove
do_done_run = refl

do_done-eq-ok_example :
    ((toy_keyset.roll_done with_ds.state.keyset zsk_roll).0 ≡ ok [])
    × (with_ds.state.keyset ≡ (toy_keyset.roll_done with_ds.state.keyset zsk_roll).1)
    × (with_ds.state.cds_rrset ≡ [])
    × (get zsk_roll with_ds.state.internal ≡ none)
    × ((q : RollType) → q ≢ zsk_roll → get q with_ds.state.internal ≡ get q with_ds.state.internal)
    × (with_ds.state.dnskey_rrset ≡ with_ds.state.dnskey_rrset)
    × (with_ds.state.ds_rrset ≡ with_ds.state.ds_rrset)
    × (with_ds.config ≡ with_ds.config)
do_done-eq-ok_example = do_done-eq-ok toy_keyset zsk_roll with_ds with_ds do_done_run

-- A zone 0 with the name 1, the delegation 2, and the name 3 below it.
abbrev below_two : ℕ → ℕ → Bool
below_two key name = if name == 2 then (if key == 2 then true else key == 3) else false

abbrev treemap : List (ℕ × List Rtype)
treemap = (0, soa ∷ ns ∷ dnskey ∷ []) ∷ (1, a ∷ nsec3 ∷ []) ∷ (2, ns ∷ ds ∷ []) ∷ (3, a ∷ []) ∷ []

abbrev sigmap : ℕ → Rtype → Option KeyTags
sigmap _ nsec3 = none
sigmap _ _ = some ((13, 4711) ∷ [])

check_rrsigs_run : check_rrsigs below_two sigmap 0 ((13, 4711) ∷ []) treemap ≡ wait_next_serial
unfolding check_rrsigs check_names check_types same_set
check_rrsigs_run = refl

check_rrsigs-Says_example :
    Says sigmap
      ((13, 4711) ∷ [])
      (check_rrsigs below_two sigmap 0 ((13, 4711) ∷ []) treemap)
      (authoritative 0 below_two treemap none)
check_rrsigs-Says_example = check_rrsigs-Says below_two sigmap 0 ((13, 4711) ∷ []) treemap
