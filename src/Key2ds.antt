-- ===== src/Key2ds.antt =====
-- The command `key2ds` (src/commands/key2ds.rs): the DS records of the keys in a file. Zone files,
-- keys and digests belong to the `domain` crate, and files to the system: they are parameters. The
-- records are printed or written to files; what is printed is a list of lines.
pub mod Printed
use Prim.Native.String.{◌++◌ as ◌<+>◌}
use dnst.Base.{
  ℕ, String, Bool, true, false, not, ◌&&◌, Option, none, some, List, [], ◌∷◌, ◌++◌, Result, ok, err,
  if◌then◌else◌,
}
use dnst.Keyset.Run.{Method, Run, ◌>>=◌, return, fail, from_result}

-- The algorithms of keys that the code names, and any other.
pub data SecurityAlgorithm : Type 0 where
  rsasha256 rsasha512 ecc_gost ecdsap256sha256 ecdsap384sha384 ed25519 ed448 : SecurityAlgorithm
  other_algorithm : ℕ → SecurityAlgorithm

pub data DigestAlgorithm : Type 0 where
  sha1 sha256 gost sha384 : DigestAlgorithm
  other_digest : ℕ → DigestAlgorithm

pub record KeyRecord (Name D : Type 0) : Type 0 where
  pub owner : Name
  pub class : ℕ
  pub ttl : ℕ
  pub dnskey : D

pub record DsRecord (Name : Type 0) : Type 0 where
  pub owner : Name
  pub class : ℕ
  pub ttl : ℕ
  pub key_tag : ℕ
  pub algorithm : SecurityAlgorithm
  pub digest_alg : DigestAlgorithm
  pub digest : List ℕ

-- What a zone file gives: a DNSKEY record, anything else that is read, or an error.
pub data Entry (Name D : Type 0) : Type 0 where
  key_entry : KeyRecord Name D → Entry Name D
  other_entry : Entry Name D
  bad_entry : String → Entry Name D

pub data CreateError : Type 0 where
  already_exists : CreateError
  failed : String → CreateError

pub record KeyLibrary (Name D : Type 0) : Type 0 where
  pub is_secure_entry_point : D → Bool
  pub key_tag : D → ℕ
  pub algorithm : D → SecurityAlgorithm
  pub to_int : SecurityAlgorithm → ℕ
  pub digest : D → Name → DigestAlgorithm → Result String (List ℕ)
  pub display_zonefile : DsRecord Name → String
  pub display_ldns : DsRecord Name → String
  pub fmt_with_dot : Name → String
  pub format_number : ℕ → ℕ → String

pub record Files (Name D W : Type 0) : Type 0 where
  pub load : String → W → Result String (List (Entry Name D)) × W
  pub create : String → W → Result CreateError (Unit {0}) × W
  pub create_new : String → W → Result CreateError (Unit {0}) × W
  pub write_line : String → String → W → Result String (Unit {0}) × W

pub record Key2ds : Type 0 where
  pub ignore_sep : Bool
  pub write_to_stdout : Bool
  pub force_overwrite : Bool
  pub algorithm : Option DigestAlgorithm
  pub keyfile : String
  pub invoked_as_ldns : Bool

-- The world outside, and the lines printed.
pub record Output (W : Type 0) : Type 0 where
  pub world : W
  pub printed : List String

abbrev pub determine_hash_from_sec_alg : SecurityAlgorithm → Result String DigestAlgorithm
determine_hash_from_sec_alg rsasha256 = ok sha256
determine_hash_from_sec_alg rsasha512 = ok sha256
determine_hash_from_sec_alg ed25519 = ok sha256
determine_hash_from_sec_alg ed448 = ok sha256
determine_hash_from_sec_alg ecdsap256sha256 = ok sha256
determine_hash_from_sec_alg ecdsap384sha384 = ok sha384
determine_hash_from_sec_alg ecc_gost = ok gost
determine_hash_from_sec_alg (other_algorithm _) =
    err "Unable to derive digest algorithm from used key algorithm"

abbrev pub or_sha1 : Result String DigestAlgorithm → DigestAlgorithm
or_sha1 (err e) = sha1
or_sha1 (ok alg) = alg

abbrev pub choose_digest :
    Key2ds → SecurityAlgorithm → Option DigestAlgorithm → Result String DigestAlgorithm
choose_digest o sec_alg (some alg) = ok alg
choose_digest o sec_alg none =
    if o.invoked_as_ldns
    then ok (or_sha1 (determine_hash_from_sec_alg sec_alg))
    else determine_hash_from_sec_alg sec_alg

module _ {W : Type 0} where
  abbrev pub print : String → Run (Output W) (Unit {0})
  print line out = (ok tt, record out { printed = out.printed ++ line ∷ [] })

  -- A step on the world outside.
  abbrev pub outside : {E A : Type 0} → Method E W A → Method E (Output W) A
  outside f out = let (r, w) = f out.world in (r, record out { world = w })

module _ {Name D : Type 0} (lib : KeyLibrary Name D) (o : Key2ds) where
  -- With ignore_sep any key, and otherwise only a secure entry point.
  abbrev pub accepted : KeyRecord Name D → Bool
  accepted k = if not o.ignore_sep && not (lib.is_secure_entry_point k.dnskey) then false else true

  abbrev pub with_digest :
      KeyRecord Name D → DigestAlgorithm → Result String (List ℕ) → Result String (DsRecord Name)
  with_digest k alg (err e) = err e
  with_digest k alg (ok digest) = ok (record {
    owner = k.owner;
    class = k.class;
    ttl = k.ttl;
    key_tag = lib.key_tag k.dnskey;
    algorithm = lib.algorithm k.dnskey;
    digest_alg = alg;
    digest = digest;
  })

  abbrev pub with_algorithm :
      KeyRecord Name D → Result String DigestAlgorithm → Result String (DsRecord Name)
  with_algorithm k (err e) = err e
  with_algorithm k (ok gost) = err "Error: the GOST algorithm is deprecated and must not be used"
  with_algorithm k (ok sha1) = with_digest k sha1 (lib.digest k.dnskey k.owner sha1)
  with_algorithm k (ok sha256) = with_digest k sha256 (lib.digest k.dnskey k.owner sha256)
  with_algorithm k (ok sha384) = with_digest k sha384 (lib.digest k.dnskey k.owner sha384)
  with_algorithm k (ok (other_digest n)) =
      with_digest k (other_digest n) (lib.digest k.dnskey k.owner (other_digest n))

  unfoldable pub ds_of : KeyRecord Name D → Result String (DsRecord Name)
  ds_of k = with_algorithm k (choose_digest o (lib.algorithm k.dnskey) o.algorithm)

  abbrev pub line_of : DsRecord Name → String
  line_of rr = if o.invoked_as_ldns then lib.display_ldns rr else lib.display_zonefile rr

  -- `K{owner}+{sec_alg:03}+{key_tag:05}`.
  abbrev pub keyname_of : DsRecord Name → String
  keyname_of rr =
      "K"
      <+> (lib.fmt_with_dot rr.owner
          <+> ("+"
              <+> (lib.format_number 3 (lib.to_int rr.algorithm)
                  <+> ("+" <+> lib.format_number 5 rr.key_tag))))

abbrev pub create_message : CreateError → String
create_message already_exists = "The file already exists, use the --force to overwrite"
create_message (failed e) = e

abbrev pub or_message : {A : Type 0} → Result CreateError A → Result String A
or_message (err e) = err (create_message e)
or_message (ok a) = ok a

module _ {Name D W : Type 0} (lib : KeyLibrary Name D) (files : Files Name D W) (o : Key2ds) where
  abbrev pub create_file : String → Run W (Unit {0})
  create_file filename w =
      let (r, w') =
        (if o.force_overwrite then files.create filename else files.create_new filename) w in
      (or_message r, w')

  abbrev pub write_file : DsRecord Name → Run (Output W) (Unit {0})
  write_file rr =
      let filename = keyname_of lib o rr <+> ".ds" in
      outside (create_file filename) >>= λ _.
      outside (files.write_line filename (line_of lib o rr)) >>= λ _. print (keyname_of lib o rr)

  abbrev pub emit : DsRecord Name → Run (Output W) (Unit {0})
  emit rr = if o.write_to_stdout then print (line_of lib o rr) else write_file rr

  -- The loop over the zone file.
  unfoldable pub key2ds_loop : List (Entry Name D) → Run (Output W) (Unit {0})
  unfolding ds_of
  key2ds_loop [] = return tt
  key2ds_loop (bad_entry e ∷ entries) = fail e
  key2ds_loop (other_entry ∷ entries) = key2ds_loop entries
  key2ds_loop (key_entry k ∷ entries) =
      let skipped = key2ds_loop entries in
      let made = (from_result (ds_of lib o k) >>= λ rr. emit rr >>= λ _. key2ds_loop entries) in
      if accepted lib o k then made else skipped

  unfoldable pub execute : Run (Output W) (Unit {0})
  unfolding key2ds_loop
  execute = outside (files.load o.keyfile) >>= λ entries. key2ds_loop entries
