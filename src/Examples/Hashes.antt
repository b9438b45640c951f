-- ===== src/Examples/Hashes.antt =====
-- The nsec3-hash command at concrete inputs.
use dnst.Base.{
  ℕ, zero, suc, ◌<◌, ◌≤◌, ◌≡◌, refl, true, none, some, [], ◌∷◌, ◌++◌, length, All, ok, err, arith,
  ◌==◌,
}
use dnst.Nsec3Hash.{
  Bytes, label_digits, number_to_label, starts_with, Nsec3Library, found, find_from, find_prefix,
  execute, with_next, num_to_nsec3_alg, parse_nsec3_alg,
}
use dnst.Nsec3Hash.Labels.{IsLetter, label_to_number, label_to_number-number_to_label}
use dnst.Nsec3Hash.Search.{Hashes, Passed, find_prefix_first}

-- A name is its first label here, and its hash the label and an `x`.
abbrev toy_library : Nsec3Library Bytes Bytes
toy_library = record {
  with_label = λ label. some label;
  nsec3_hash = λ name. ok (name ++ (b'x' ∷ []));
  has_mnemonic = λ n. n == 1;
  from_mnemonic = λ text. none;
  parse_u8 = λ text. some (length text);
  salt_from_str = λ text. ok text;
}

abbrev prefix : Bytes
prefix = b'c' ∷ []

label_of_26 : number_to_label 26 ≡ b'a' ∷ b'b' ∷ []
unfolding number_to_label label_digits
label_of_26 = refl

label_to_number-number_to_label_example :
    (label_to_number (number_to_label 26) ≡ 26)
    × All IsLetter (number_to_label 26)
    × (1 ≤ length (number_to_label 26))
    × (length (number_to_label 26) ≤ 14)
label_to_number-number_to_label_example = label_to_number-number_to_label 26 (omega arith)

passed : (i : ℕ) → i < 2 → Passed toy_library prefix i
unfolding number_to_label label_digits starts_with
passed zero h = (b'a' ∷ [], b'a' ∷ b'x' ∷ [], (refl, refl, refl))
passed (suc zero) h = (b'b' ∷ [], b'b' ∷ b'x' ∷ [], (refl, refl, refl))
passed (suc (suc i)) h = absurd (omega arith)

fits : Hashes toy_library prefix 2 true (b'c' ∷ []) (b'c' ∷ b'x' ∷ [])
unfolding number_to_label label_digits starts_with
fits = (refl, refl, refl)

find_prefix_first_example : find_prefix toy_library prefix 5 ≡ found (b'c' ∷ []) (b'c' ∷ b'x' ∷ [])
find_prefix_first_example =
    find_prefix_first toy_library prefix 5 2 (b'c' ∷ []) (b'c' ∷ b'x' ∷ []) (omega arith)
      (omega arith) passed fits

searched : execute toy_library (some prefix) (b'z' ∷ []) 3 ≡ found (b'c' ∷ []) (b'c' ∷ b'x' ∷ [])
unfolding execute find_prefix find_from with_next number_to_label label_digits starts_with
searched = refl

no_such_algorithm : parse_nsec3_alg toy_library (b'1' ∷ b'2' ∷ []) ≡ err "unknown algorithm number"
unfolding parse_nsec3_alg num_to_nsec3_alg
no_such_algorithm = refl
