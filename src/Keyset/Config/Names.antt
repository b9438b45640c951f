-- ===== src/Keyset/Config/Names.antt =====
-- The names of configured values, read and shown (src/commands/keyset/cmd.rs).
use text.Mathlib.TextEquality.{eq_iff}
use dnst.Base.{ℕ, String, ◌≡◌, ◌↔◌, refl, Option, none, some, ok, arith}
use dnst.Keyset.Workspace.{
  KskRollType, double_signature_ksk_roll, double_ds_ksk_roll, ZskRollType, pre_publish_zsk_roll,
  double_signature_zsk_roll, KeyParameters, rsa_sha256, rsa_sha512, ecdsa_p256_sha256,
  ecdsa_p384_sha384, ed25519, ed448, DsAlgorithm, sha256, sha384,
}
use dnst.Keyset.Config.{
  new_ksk_roll_type, show_ksk_roll_type, new_zsk_roll_type, show_zsk_roll_type, new_ds_algorithm,
  show_ds_algorithm, new_key_parameters,
}

new_ksk_roll_type_iff :
    (s : String) (x : KskRollType) → (new_ksk_roll_type s ≡ ok x) ↔ (s ≡ show_ksk_roll_type x)
unfolding new_ksk_roll_type
new_ksk_roll_type_iff s double_signature_ksk_roll = (
  λ h. ground (arith, eq_iff s "double-signature-ksk-roll", eq_iff s "double-ds-ksk-roll"),
  λ h. rw h refl,
)
new_ksk_roll_type_iff s double_ds_ksk_roll = (
  λ h. ground (arith, eq_iff s "double-signature-ksk-roll", eq_iff s "double-ds-ksk-roll"),
  λ h. rw h refl,
)

new_zsk_roll_type_iff :
    (s : String) (x : ZskRollType) → (new_zsk_roll_type s ≡ ok x) ↔ (s ≡ show_zsk_roll_type x)
unfolding new_zsk_roll_type
new_zsk_roll_type_iff s pre_publish_zsk_roll = (
  λ h. ground (arith, eq_iff s "pre-publish-zsk-roll", eq_iff s "double-signature-zsk-roll"),
  λ h. rw h refl,
)
new_zsk_roll_type_iff s double_signature_zsk_roll = (
  λ h. ground (arith, eq_iff s "pre-publish-zsk-roll", eq_iff s "double-signature-zsk-roll"),
  λ h. rw h refl,
)

new_ds_algorithm_iff :
    (s : String) (x : DsAlgorithm) → (new_ds_algorithm s ≡ ok x) ↔ (s ≡ show_ds_algorithm x)
unfolding new_ds_algorithm
new_ds_algorithm_iff s sha256 =
    (λ h. ground (arith, eq_iff s "SHA-256", eq_iff s "SHA-384"), λ h. rw h refl)
new_ds_algorithm_iff s sha384 =
    (λ h. ground (arith, eq_iff s "SHA-256", eq_iff s "SHA-384"), λ h. rw h refl)

-- The name and the number of bits that stand for an algorithm; only the RSA ones have bits.
abbrev pub Names : String → Option ℕ → KeyParameters → Type 0
Names s bits (rsa_sha256 n) = (s ≡ "RSASHA256") × (bits ≡ some n)
Names s bits (rsa_sha512 n) = (s ≡ "RSASHA512") × (bits ≡ some n)
Names s bits ecdsa_p256_sha256 = s ≡ "ECDSAP256SHA256"
Names s bits ecdsa_p384_sha384 = s ≡ "ECDSAP384SHA384"
Names s bits ed25519 = s ≡ "ED25519"
Names s bits ed448 = s ≡ "ED448"

new_key_parameters_iff :
    (s : String) (bits : Option ℕ) (x : KeyParameters)
    → (new_key_parameters s bits ≡ ok x) ↔ Names s bits x
unfolding new_key_parameters
new_key_parameters_iff s none (rsa_sha256 n) = (
  λ h. ground (
    arith,
    eq_iff s "RSASHA256",
    eq_iff s "RSASHA512",
    eq_iff s "ECDSAP256SHA256",
    eq_iff s "ECDSAP384SHA384",
    eq_iff s "ED25519",
    eq_iff s "ED448",
  ),
  λ (e, f). absurd (ground arith),
)
new_key_parameters_iff s none (rsa_sha512 n) = (
  λ h. ground (
    arith,
    eq_iff s "RSASHA256",
    eq_iff s "RSASHA512",
    eq_iff s "ECDSAP256SHA256",
    eq_iff s "ECDSAP384SHA384",
    eq_iff s "ED25519",
    eq_iff s "ED448",
  ),
  λ (e, f). absurd (ground arith),
)
new_key_parameters_iff s none ecdsa_p256_sha256 = (
  λ h. ground (
    arith,
    eq_iff s "RSASHA256",
    eq_iff s "RSASHA512",
    eq_iff s "ECDSAP256SHA256",
    eq_iff s "ECDSAP384SHA384",
    eq_iff s "ED25519",
    eq_iff s "ED448",
  ),
  λ h. rw h refl,
)
new_key_parameters_iff s none ecdsa_p384_sha384 = (
  λ h. ground (
    arith,
    eq_iff s "RSASHA256",
    eq_iff s "RSASHA512",
    eq_iff s "ECDSAP256SHA256",
    eq_iff s "ECDSAP384SHA384",
    eq_iff s "ED25519",
    eq_iff s "ED448",
  ),
  λ h. rw h refl,
)
new_key_parameters_iff s none ed25519 = (
  λ h. ground (
    arith,
    eq_iff s "RSASHA256",
    eq_iff s "RSASHA512",
    eq_iff s "ECDSAP256SHA256",
    eq_iff s "ECDSAP384SHA384",
    eq_iff s "ED25519",
    eq_iff s "ED448",
  ),
  λ h. rw h refl,
)
new_key_parameters_iff s none ed448 = (
  λ h. ground (
    arith,
    eq_iff s "RSASHA256",
    eq_iff s "RSASHA512",
    eq_iff s "ECDSAP256SHA256",
    eq_iff s "ECDSAP384SHA384",
    eq_iff s "ED25519",
    eq_iff s "ED448",
  ),
  λ h. rw h refl,
)
new_key_parameters_iff s (some m) (rsa_sha256 n) = (
  λ h. ground (
    arith,
    eq_iff s "RSASHA256",
    eq_iff s "RSASHA512",
    eq_iff s "ECDSAP256SHA256",
    eq_iff s "ECDSAP384SHA384",
    eq_iff s "ED25519",
    eq_iff s "ED448",
  ),
  λ (e, f). rw e (ground arith),
)
new_key_parameters_iff s (some m) (rsa_sha512 n) = (
  λ h. ground (
    arith,
    eq_iff s "RSASHA256",
    eq_iff s "RSASHA512",
    eq_iff s "ECDSAP256SHA256",
    eq_iff s "ECDSAP384SHA384",
    eq_iff s "ED25519",
    eq_iff s "ED448",
  ),
  λ (e, f). rw e (ground arith),
)
new_key_parameters_iff s (some m) ecdsa_p256_sha256 = (
  λ h. ground (
    arith,
    eq_iff s "RSASHA256",
    eq_iff s "RSASHA512",
    eq_iff s "ECDSAP256SHA256",
    eq_iff s "ECDSAP384SHA384",
    eq_iff s "ED25519",
    eq_iff s "ED448",
  ),
  λ h. rw h refl,
)
new_key_parameters_iff s (some m) ecdsa_p384_sha384 = (
  λ h. ground (
    arith,
    eq_iff s "RSASHA256",
    eq_iff s "RSASHA512",
    eq_iff s "ECDSAP256SHA256",
    eq_iff s "ECDSAP384SHA384",
    eq_iff s "ED25519",
    eq_iff s "ED448",
  ),
  λ h. rw h refl,
)
new_key_parameters_iff s (some m) ed25519 = (
  λ h. ground (
    arith,
    eq_iff s "RSASHA256",
    eq_iff s "RSASHA512",
    eq_iff s "ECDSAP256SHA256",
    eq_iff s "ECDSAP384SHA384",
    eq_iff s "ED25519",
    eq_iff s "ED448",
  ),
  λ h. rw h refl,
)
new_key_parameters_iff s (some m) ed448 = (
  λ h. ground (
    arith,
    eq_iff s "RSASHA256",
    eq_iff s "RSASHA512",
    eq_iff s "ECDSAP256SHA256",
    eq_iff s "ECDSAP384SHA384",
    eq_iff s "ED25519",
    eq_iff s "ED448",
  ),
  λ h. rw h refl,
)

-- The name that is shown for a type of KSK roll, of ZSK roll or of DS digest is the one and only
-- name that is read as it. A name and a number of bits are read as an algorithm for keys exactly
-- if the name is that of the algorithm and, for RSA, the bits are given and are those of it.
pub names_read :
    (s : String) (bits : Option ℕ)
    → ((x : KskRollType) → (new_ksk_roll_type s ≡ ok x) ↔ (s ≡ show_ksk_roll_type x))
      × ((x : ZskRollType) → (new_zsk_roll_type s ≡ ok x) ↔ (s ≡ show_zsk_roll_type x))
      × ((x : DsAlgorithm) → (new_ds_algorithm s ≡ ok x) ↔ (s ≡ show_ds_algorithm x))
      × ((x : KeyParameters) → (new_key_parameters s bits ≡ ok x) ↔ Names s bits x)
names_read s bits = (
  new_ksk_roll_type_iff s,
  new_zsk_roll_type_iff s,
  new_ds_algorithm_iff s,
  new_key_parameters_iff s bits,
)
