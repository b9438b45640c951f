-- ===== src/Keyset/Rrsets.antt =====
-- The DNSKEY, CDS and DS record sets of the state (src/commands/keyset/cmd.rs):
-- update_dnskey_rrset, create_cds_rrset, update_ds_rrset, remove_cds_rrset, handle_actions and
-- do_done. A method takes the work space and gives its result with the work space after it. Keys
-- are made and signed with by the `domain` crate, over files or a KMIP server, so that is a
-- parameter; the panics on an invalid URL or an unknown URL scheme are not modelled.
pub mod Contents
pub mod Frame
pub mod Done
use dnst.Base.{
  ℕ, ◌+◌, ◌-◌, ◌%◌, ◌^◌, String, Bool, true, false, Option, none, some, List, [], ◌∷◌, ◌++◌, map,
  Result, ok, err, ◌>>=◌, if◌then◌else◌, ◌==◌,
}
use dnst.Keyset.Types.{
  RollType, ksk_roll, ksk_double_ds_roll, zsk_roll, zsk_double_signature_roll, csk_roll,
  algorithm_roll, Action, update_dnskey_rrset, create_cds_rrset, remove_cds_rrset, update_ds_rrset,
  update_rrsig, report_dnskey_propagated, report_ds_propagated, report_rrsig_propagated,
  wait_dnskey_propagated, wait_ds_propagated, wait_rrsig_propagated, KeyType, ksk, zsk, csk,
  include_key, Key,
}
use dnst.Keyset.Workspace.{
  WorkSpace, DsAlgorithm, KeySetState, KeySet, KeySetError, RollStateReports,
}

-- The DNSKEY record of a key URL (public_key_from_url), whether records make a record set
-- (Rrset::new_from_owned; for CDS and CDNSKEY, of the DNSKEY records they come from), signing one
-- with a private key for an inception and expiration, the DS record of a DNSKEY for a digest
-- algorithm and a TTL, its CDS (for a digest algorithm) and CDNSKEY records, and their text.
pub record KeyStore (D : Type 0) : Type 0 where
  pub public_key : String → Result String D
  pub bad_rrset : List D → Option String
  pub bad_cds_rrset : List D → Option String
  pub sign_dnskey : String → String → List D → ℕ → ℕ → Result String String
  pub sign_cds : String → String → List D → ℕ → ℕ → Result String (String × String)
  pub ds_of : DsAlgorithm → ℕ → D → Result String String
  pub cds_of : DsAlgorithm → D → Result String (String × String)
  pub display : D → String

-- `as u32` and the arithmetic on it, in a release build.
abbrev pub u32 : ℕ → ℕ
u32 n = n % 2 ^ 32

abbrev pub inception_time : ℕ → ℕ → ℕ
inception_time now offset = u32 (u32 now + (2 ^ 32 - u32 offset))

abbrev pub expiration_time : ℕ → ℕ → ℕ
expiration_time now lifetime = u32 (u32 now + u32 lifetime)

abbrev pub present : KeyType → Bool
present (ksk s) = s.present
present (zsk s) = s.present
present (csk s _) = s.present
present (include_key s) = s.present

abbrev pub at_parent : KeyType → Bool
at_parent (ksk s) = s.at_parent
at_parent (zsk s) = s.at_parent
at_parent (csk s _) = s.at_parent
at_parent (include_key s) = s.at_parent

abbrev pub dnskey_signer : KeyType → Bool
dnskey_signer (ksk s) = s.signer
dnskey_signer (zsk _) = false
dnskey_signer (csk s _) = s.signer
dnskey_signer (include_key _) = false

abbrev pub or_missing : Option String → Result String String
or_missing none = err "missing private key"
or_missing (some p) = ok p

module _ {A : Type 0} where
  -- The loop that collects one value for each key that passes a test.
  unfoldable pub collect :
      (KeyType → Bool)
      → (String → Key → Result String A)
      → List (String × Key)
      → Result String (List A)
  collect test f [] = ok []
  collect test f ((k, v) ∷ keys) = elim (test v.keytype) [
    | false ↦ collect test f keys
    | true ↦ do x ← f k v; xs ← collect test f keys; ok (x ∷ xs)
  ]

abbrev pub none_or_err : Option String → Result String (Unit {0})
none_or_err none = ok tt
none_or_err (some e) = err e

module _ {D A : Type 0} (bad_rrset : List D → Option String)
    (sign : String → String → Result String A) where
  -- A loop over all keys that signs with those that sign the DNSKEY record set. The record set is
  -- made anew for each key, also for one that does not sign. An empty set is not signed.
  unfoldable pub sign_loop : List D → List (String × Key) → Result String (List A)
  sign_loop [] keys = ok []
  sign_loop (d ∷ ds) [] = ok []
  sign_loop (d ∷ ds) ((k, v) ∷ keys) = none_or_err (bad_rrset (d ∷ ds)) >>= λ _.
      elim (dnskey_signer v.keytype) [
        | false ↦ sign_loop (d ∷ ds) keys
        | true ↦ do
          privref ← or_missing v.privref
          sig ← sign privref k
          sigs ← sign_loop (d ∷ ds) keys
          ok (sig ∷ sigs)
      ]

module _ {D K Name : Type 0} (store : KeyStore D) (lib : KeySet K) where
  open store use {
    public_key, bad_rrset, bad_cds_rrset, sign_dnskey, sign_cds, ds_of, cds_of, display,
  }

  -- The new DNSKEY record set: the keys that are present, and the signatures.
  unfoldable pub dnskey_records : ℕ → WorkSpace K Name → Result String (List String)
  unfolding collect sign_loop
  dnskey_records now ws = do
    let keys = lib.keys ws.state.keyset
    let inception = inception_time now ws.config.dnskey_inception_offset
    let expiration = expiration_time now ws.config.dnskey_signature_lifetime
    dnskeys ← collect present (λ k _. public_key k) keys
    sigs ← sign_loop bad_rrset (λ p k. sign_dnskey p k dnskeys inception expiration) dnskeys keys
    ok (map display dnskeys ++ sigs)

  -- The new CDS and CDNSKEY record sets: CDNSKEY records and signatures, then those for CDS.
  unfoldable pub cds_records : ℕ → WorkSpace K Name → Result String (List String)
  unfolding collect sign_loop
  cds_records now ws = do
    let keys = lib.keys ws.state.keyset
    let inception = inception_time now ws.config.cds_inception_offset
    let expiration = expiration_time now ws.config.cds_signature_lifetime
    made ←
        collect at_parent
          (λ k _. do d ← public_key k; c ← cds_of ws.config.ds_algorithm d; ok (d, c)) keys
    let dnskeys = map (λ (d, c). d) made
    let pairs = map (λ (d, c). c) made
    sigs ← sign_loop bad_cds_rrset (λ p k. sign_cds p k dnskeys inception expiration) dnskeys keys
    ok (
        map (λ (cds, cdnskey). cdnskey) pairs
        ++ (map (λ (cds, cdnskey). cdnskey) sigs
            ++ (map (λ (cds, cdnskey). cds) pairs ++ map (λ (cds, cdnskey). cds) sigs)))

  unfoldable pub ds_records : WorkSpace K Name → Result String (List String)
  unfolding collect
  ds_records ws =
      collect at_parent
        (λ k _. do d ← public_key k; ds_of ws.config.ds_algorithm ws.config.default_ttl d)
        (lib.keys ws.state.keyset)

  -- The record sets are replaced only when all has been made.
  abbrev pub store_dnskey :
      Result String (List String) → WorkSpace K Name → Result String (Unit {0}) × WorkSpace K Name
  store_dnskey (err e) ws = (err e, ws)
  store_dnskey (ok rrs) ws = (ok tt, record ws { state = record ws.state { dnskey_rrset = rrs } })

  abbrev pub store_cds :
      Result String (List String) → WorkSpace K Name → Result String (Unit {0}) × WorkSpace K Name
  store_cds (err e) ws = (err e, ws)
  store_cds (ok rrs) ws = (ok tt, record ws { state = record ws.state { cds_rrset = rrs } })

  abbrev pub store_ds :
      Result String (List String) → WorkSpace K Name → Result String (Unit {0}) × WorkSpace K Name
  store_ds (err e) ws = (err e, ws)
  store_ds (ok rrs) ws = (ok tt, record ws { state = record ws.state { ds_rrset = rrs } })

  unfoldable pub update_dnskeys : ℕ → WorkSpace K Name → Result String (Unit {0}) × WorkSpace K Name
  update_dnskeys now ws = store_dnskey (dnskey_records now ws) ws

  unfoldable pub create_cds : ℕ → WorkSpace K Name → Result String (Unit {0}) × WorkSpace K Name
  create_cds now ws = store_cds (cds_records now ws) ws

  unfoldable pub update_ds : WorkSpace K Name → Result String (Unit {0}) × WorkSpace K Name
  update_ds ws = store_ds (ds_records ws) ws

  unfoldable pub remove_cds : WorkSpace K Name → WorkSpace K Name
  remove_cds ws = record ws { state = record ws.state { cds_rrset = [] } }

  unfoldable pub handle_action :
      ℕ → Action → WorkSpace K Name → Result String (Unit {0}) × WorkSpace K Name
  unfolding update_dnskeys create_cds update_ds remove_cds
  handle_action now update_dnskey_rrset ws = update_dnskeys now ws
  handle_action now create_cds_rrset ws = create_cds now ws
  handle_action now remove_cds_rrset ws = (ok tt, remove_cds ws)
  handle_action now update_ds_rrset ws = update_ds (record ws { run_update_ds_command = true })
  handle_action now update_rrsig ws = (ok tt, ws)
  handle_action now report_dnskey_propagated ws = (ok tt, ws)
  handle_action now report_ds_propagated ws = (ok tt, ws)
  handle_action now report_rrsig_propagated ws = (ok tt, ws)
  handle_action now wait_dnskey_propagated ws = (ok tt, ws)
  handle_action now wait_ds_propagated ws = (ok tt, ws)
  handle_action now wait_rrsig_propagated ws = (ok tt, ws)

  -- The `?` of a method: its error ends the caller, with the work space as it is then.
  abbrev pub on_ok :
      Result String (Unit {0}) × WorkSpace K Name
      → (WorkSpace K Name → Result String (Unit {0}) × WorkSpace K Name)
      → Result String (Unit {0}) × WorkSpace K Name
  on_ok (ok _, ws) k = k ws
  on_ok (err e, ws) k = (err e, ws)

  unfoldable pub handle_actions :
      ℕ → List Action → WorkSpace K Name → Result String (Unit {0}) × WorkSpace K Name
  unfolding handle_action
  handle_actions now [] ws = (ok tt, ws)
  handle_actions now (a ∷ actions) ws = on_ok (handle_action now a ws) (handle_actions now actions)

abbrev pub roll_code : RollType → ℕ
roll_code ksk_roll = 0
roll_code ksk_double_ds_roll = 1
roll_code zsk_roll = 2
roll_code zsk_double_signature_roll = 3
roll_code csk_roll = 4
roll_code algorithm_roll = 5

module _ {V : Type 0} where
  -- The map from rolls: `get`, `remove` and `insert`.
  unfoldable pub get : RollType → List (RollType × V) → Option V
  get r [] = none
  get r ((q, v) ∷ m) = if roll_code q == roll_code r then some v else get r m

  unfoldable pub remove : RollType → List (RollType × V) → List (RollType × V)
  remove r [] = []
  remove r ((q, v) ∷ m) =
      let rest = remove r m in if roll_code q == roll_code r then rest else (q, v) ∷ rest

  unfoldable pub insert : RollType → V → List (RollType × V) → List (RollType × V)
  unfolding remove
  insert r v m = (r, v) ∷ remove r m

module _ {K Name : Type 0} (lib : KeySet K) where
  abbrev pub after_done :
      RollType
      → Result KeySetError (List Action)
      → WorkSpace K Name
      → Result String (Unit {0}) × WorkSpace K Name
  after_done r (err e) ws = (err "Error reporting done", ws)
  after_done r (ok (a ∷ actions)) ws = (err "List of actions after reporting done", ws)
  after_done r (ok []) ws = (
    ok tt,
    record ws { state = record ws.state { cds_rrset = []; internal = remove r ws.state.internal } },
  )

  unfoldable pub do_done : RollType → WorkSpace K Name → Result String (Unit {0}) × WorkSpace K Name
  unfolding remove
  do_done r ws =
      let (actions, keyset) = lib.roll_done ws.state.keyset r in
      after_done r actions (record ws { state = record ws.state { keyset = keyset } })
