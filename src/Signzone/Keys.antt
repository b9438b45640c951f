-- ===== src/Signzone/Keys.antt =====
-- The keys that sign a zone (src/commands/signzone.rs, execute): loading them, the choice which of
-- them sign the keys at the apex and which the rest of the zone, and the DNSKEY records to add.
pub mod Algorithms
pub mod Sets
use Prim.Native.String.{◌++◌ as ◌<+>◌}
use text.Mathlib.Text.{◌==◌ as ◌=?◌}
use dnst.Base.{
  ℕ, ◌==◌, String, Bool, true, false, Option, none, some, List, [], ◌∷◌, ◌++◌, map, any, Result, ok,
  err, ◌>>=◌, if◌then◌else◌, Eq,
}
use dnst.Dns.{Class}
use dnst.Signzone.{StoredRecord, Rdata, soa, dnskey, rrsig, zonemd, other, SignZone}

-- Files and keys. `extension` is the extension of a path, and `in_cwd` makes a path absolute.
pub record KeyFiles (Name Dnskey Private Key : Type 0) : Type 0 where
  pub extension : String → Option String
  pub in_cwd : String → String
  pub load_private_key : String → Result String Private
  pub load_public_key : String → Result String (Name × Dnskey)
  pub mk_signing_key : Name → Private → Dnskey → Result String Key

-- What the code asks of a signing key.
pub record KeyLibrary (Dnskey Key : Type 0) : Type 0 where
  pub is_secure_entry_point : Key → Bool
  pub algorithm : Key → ℕ
  pub dnskey : Key → Dnskey

module _ {Name Dnskey Private Key : Type 0} ⦃name_eq : Eq Name⦄
    (files : KeyFiles Name Dnskey Private Key) where
  open files use {extension, in_cwd, load_private_key, load_public_key, mk_signing_key}

  abbrev pub has_extension : Option String → String → Bool
  has_extension none ext = false
  has_extension (some e) ext = e =? ext

  abbrev pub mk_public_key_path : String → String
  mk_public_key_path path = if has_extension (extension path) "key" then path else path <+> ".key"

  abbrev pub mk_private_key_path : String → String
  mk_private_key_path path =
      if has_extension (extension path) "private" then path else path <+> ".private"

  abbrev pub or_next : Result String Key → Option Key → Option Key
  or_next (ok key) rest = some key
  or_next (err e) rest = rest

  -- The first of the public keys in the zone that a private key belongs to.
  unfoldable pub first_match : Private → List (Name × Dnskey) → Option Key
  first_match private [] = none
  first_match private ((owner, public) ∷ found) =
      or_next (mk_signing_key owner private public) (first_match private found)

  abbrev pub at_apex : Name → Name × Dnskey → Result String (Name × Dnskey)
  at_apex apex (owner, public) =
      if name_eq.beq owner apex
      then ok (owner, public)
      else err "Public key owner does not match zone apex"

  -- The key pair with the public key of a file.
  abbrev pub load_pair : Name → String → Private → Result String Key
  load_pair apex path private = do
    loaded ← load_public_key (in_cwd (mk_public_key_path path))
    (owner, public) ← at_apex apex loaded
    mk_signing_key owner private public

  abbrev pub or_load : Option Key → Result String Key → Result String Key
  or_load (some key) load = ok key
  or_load none load = load

  abbrev pub load_key : Name → List (Name × Dnskey) → String → Result String Key
  load_key apex found path = do
    private ← load_private_key (in_cwd (mk_private_key_path (in_cwd path)))
    or_load (first_match private found) (load_pair apex (in_cwd path) private)

  unfoldable pub load_keys : Name → List (Name × Dnskey) → List String → Result String (List Key)
  unfolding first_match
  load_keys apex found [] = ok []
  load_keys apex found (path ∷ paths) = do
    key ← load_key apex found path
    keys ← load_keys apex found paths
    ok (key ∷ keys)

-- The public keys in a DNSKEY record set.
unfoldable pub public_keys :
    {Name Dnskey : Type 0} → List (StoredRecord Name Dnskey) → List (Name × Dnskey)
public_keys [] = []
public_keys (r ∷ rrset) = elim r.rdata [
  | dnskey key ↦ (r.owner, key) ∷ public_keys rrset
  | soa _ ↦ public_keys rrset
  | rrsig _ _ ↦ public_keys rrset
  | zonemd _ _ _ _ ↦ public_keys rrset
  | other _ _ ↦ public_keys rrset
]

module _ {Dnskey Key : Type 0} (lib : KeyLibrary Dnskey Key) where
  abbrev pub add_key : Key → List Key × List Key → List Key × List Key
  add_key k (ksks, zsks) =
      if lib.is_secure_entry_point k then (k ∷ ksks, zsks) else (ksks, k ∷ zsks)

  -- The key signing keys and the zone signing keys, by the SEP flag.
  unfoldable pub split_keys : List Key → List Key × List Key
  split_keys [] = ([], [])
  split_keys (k ∷ keys) = add_key k (split_keys keys)

  -- The first key of every algorithm that is not there yet.
  unfoldable pub new_algorithms : List ℕ → List Key → List Key
  new_algorithms algorithms [] = []
  new_algorithms algorithms (k ∷ keys) =
      let skipped = new_algorithms algorithms keys in
      let added = k ∷ new_algorithms (lib.algorithm k ∷ algorithms) keys in
      if any (λ a. a == lib.algorithm k) algorithms then skipped else added

  abbrev pub unique_algorithms : Bool → List Key → List Key → List Key × List Key
  unique_algorithms false ksks zsks = (ksks, zsks)
  unique_algorithms true ksks zsks =
      let all_ksks = ksks ++ new_algorithms (map lib.algorithm ksks) zsks in
      (all_ksks, zsks ++ new_algorithms (map lib.algorithm zsks) all_ksks)

  abbrev pub with_all_keys : Bool → List Key → List Key → List Key
  with_all_keys all ksks zsks = if all then ksks ++ zsks else ksks

  abbrev pub share_keys :
      {Name : Type 0} → SignZone Name → List Key × List Key → List Key × List Key
  share_keys o ([], zsks) = (zsks, zsks)
  share_keys o (k ∷ ksks, []) = (k ∷ ksks, k ∷ ksks)
  share_keys o (k ∷ ksks, z ∷ zsks) =
      unique_algorithms o.sign_with_every_unique_algorithm
        (with_all_keys o.sign_dnskeys_with_all_keys (k ∷ ksks) (z ∷ zsks)) (z ∷ zsks)

  -- The keys for the record sets of keys at the apex, and those for the rest of the zone.
  unfoldable pub signing_sets : {Name : Type 0} → SignZone Name → List Key → List Key × List Key
  unfolding split_keys new_algorithms
  signing_sets o keys = share_keys o (split_keys keys)
