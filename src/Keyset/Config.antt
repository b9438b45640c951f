-- ===== src/Keyset/Config.antt =====
-- The names of configured values (src/commands/keyset/cmd.rs): `new` and `fmt` of KskRollType,
-- ZskRollType, KeyParameters and DsAlgorithm, and the details of a nameserver. A number is shown by
-- the standard library; addresses and key names are parsed by libraries.
pub mod Names
pub mod Commands
pub mod Changes
use Prim.Native.Char.{Char, code}
use Prim.Native.String.{◌++◌}
use text.Mathlib.Text.{◌==◌ as ◌=?◌}
use dnst.Base.{
  ℕ, String, Bool, true, false, Option, none, some, List, [], ◌∷◌, Result, ok, err, ◌>>=◌,
  if◌then◌else◌, ◌==◌,
}
use dnst.Keyset.Workspace.{
  KskRollType, double_signature_ksk_roll, double_ds_ksk_roll, ZskRollType, pre_publish_zsk_roll,
  double_signature_zsk_roll, KeyParameters, rsa_sha256, rsa_sha512, ecdsa_p256_sha256,
  ecdsa_p384_sha384, ed25519, ed448, DsAlgorithm, sha256, sha384, NameserverConnectionDetails,
}

unfoldable pub new_ksk_roll_type : String → Result String KskRollType
new_ksk_roll_type roll =
    if roll =? "double-signature-ksk-roll"
    then ok double_signature_ksk_roll
    else if roll =? "double-ds-ksk-roll"
    then ok double_ds_ksk_roll
    else err "unknown roll name"

abbrev pub show_ksk_roll_type : KskRollType → String
show_ksk_roll_type double_signature_ksk_roll = "double-signature-ksk-roll"
show_ksk_roll_type double_ds_ksk_roll = "double-ds-ksk-roll"

unfoldable pub new_zsk_roll_type : String → Result String ZskRollType
new_zsk_roll_type roll =
    if roll =? "pre-publish-zsk-roll"
    then ok pre_publish_zsk_roll
    else if roll =? "double-signature-zsk-roll"
    then ok double_signature_zsk_roll
    else err "unknown roll name"

abbrev pub show_zsk_roll_type : ZskRollType → String
show_zsk_roll_type pre_publish_zsk_roll = "pre-publish-zsk-roll"
show_zsk_roll_type double_signature_zsk_roll = "double-signature-zsk-roll"

unfoldable pub new_ds_algorithm : String → Result String DsAlgorithm
new_ds_algorithm digest =
    if digest =? "SHA-256"
    then ok sha256
    else if digest =? "SHA-384"
    then ok sha384
    else err "unknown digest"

abbrev pub show_ds_algorithm : DsAlgorithm → String
show_ds_algorithm sha256 = "SHA-256"
show_ds_algorithm sha384 = "SHA-384"

abbrev pub with_bits : (ℕ → KeyParameters) → Option ℕ → Result String KeyParameters
with_bits make none = err "bits option expected"
with_bits make (some bits) = ok (make bits)

unfoldable pub new_key_parameters : String → Option ℕ → Result String KeyParameters
new_key_parameters algorithm bits =
    if algorithm =? "RSASHA256"
    then with_bits rsa_sha256 bits
    else if algorithm =? "RSASHA512"
    then with_bits rsa_sha512 bits
    else if algorithm =? "ECDSAP256SHA256"
    then ok ecdsa_p256_sha256
    else if algorithm =? "ECDSAP384SHA384"
    then ok ecdsa_p384_sha384
    else if algorithm =? "ED25519"
    then ok ed25519
    else if algorithm =? "ED448"
    then ok ed448
    else err "unknown algorithm"

abbrev pub show_key_parameters : (ℕ → String) → KeyParameters → String
show_key_parameters show (rsa_sha256 bits) = "RSASHA256 " ++ (show bits ++ " bits")
show_key_parameters show (rsa_sha512 bits) = "RSASHA512 " ++ (show bits ++ " bits")
show_key_parameters show ecdsa_p256_sha256 = "ECDSAP256SHA256"
show_key_parameters show ecdsa_p384_sha384 = "ECDSAP384SHA384"
show_key_parameters show ed25519 = "ED25519"
show_key_parameters show ed448 = "ED448"

abbrev onto_part : Char → String × Option String → String × Option String
onto_part c (part, rest) = (String.◌∷◌ c part, rest)

-- The part of a text before the first `^`, and what follows it: `split('^')`.
unfoldable pub split_caret : String → String × Option String
split_caret String.[] = (String.[], none)
split_caret (String.◌∷◌ c s) =
    let rest = split_caret s in if code c == b'^' then (String.[], some s) else onto_part c rest

-- What is parsed by libraries, and a TSIG store as the test for a key name in it.
pub record ConfigLibrary : Type 0 where
  pub parse_addr : String → Result String String
  pub parse_key_name : String → Result String String
  pub load_tsig_store : String → Result String (String → Bool)

module _ (lib : ConfigLibrary) where
  abbrev pub optional_name : Option String → Result String (Option String)
  optional_name none = ok none
  optional_name (some rest) = do name ← lib.parse_key_name (split_caret rest).0; ok (some name)

  unfoldable pub nameserver_from_str : String → Result String NameserverConnectionDetails
  unfolding split_caret
  nameserver_from_str s = do
    let (addr_port, rest) = split_caret s
    addr ← lib.parse_addr addr_port
    tsig_key_name ← optional_name rest
    ok (record { addr = addr; tsig_key_name = tsig_key_name })

-- `off` stands for no value in an optional one.
unfoldable pub parse_opt :
    {A : Type 0} → (String → Result String A) → String → Result String (Option A)
parse_opt parse value =
    let parsed = (do v ← parse value; ok (some v)) in if value =? "off" then ok none else parsed
