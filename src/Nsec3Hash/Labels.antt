-- ===== src/Nsec3Hash/Labels.antt =====
-- The labels that stand for numbers (src/commands/nsec3hash.rs, number_to_label).
use dnst.Base.{
  ℕ, zero, suc, ◌+◌, ◌-◌, ◌*◌, ◌/◌, ◌^◌, ◌≤◌, ◌<◌, ◌≡◌, refl, ◌∙◌, [], ◌∷◌, All, length, arith,
}
use dnst.Nsec3Hash.{Bytes, label_digits, or_a, number_to_label}

-- The number whose digits to base 26, the lowest first, are the letters of a label.
abbrev pub label_to_number : Bytes → ℕ
label_to_number [] = 0
label_to_number (c ∷ label) = (c - b'a') + 26 * label_to_number label

abbrev pub IsLetter : ℕ → Type 0
IsLetter c = (b'a' ≤ c) × (c ≤ b'z')

abbrev power : ℕ → ℕ
power zero = 1
power (suc k) = 26 * power k

label_digits-IsLetter : (rounds n : ℕ) → All IsLetter (label_digits rounds n)
unfolding label_digits
label_digits-IsLetter zero n = tt
label_digits-IsLetter (suc rounds) n = ground (arith, label_digits-IsLetter rounds (n / 26))

label_to_number-label_digits :
    (rounds n : ℕ) → n < power rounds → label_to_number (label_digits rounds n) ≡ n
unfolding label_digits
label_to_number-label_digits zero n h = omega arith
label_to_number-label_digits (suc rounds) n h =
    ground (arith, label_to_number-label_digits rounds (n / 26))

length-label_digits : (rounds n : ℕ) → length (label_digits rounds n) ≤ rounds
unfolding label_digits
length-label_digits zero n = omega arith
length-label_digits (suc rounds) n = ground (arith, length-label_digits rounds (n / 26))

or_a_lem :
    (label : Bytes) (k : ℕ)
    → All IsLetter label
    → length label ≤ suc k
    → (label_to_number (or_a label) ≡ label_to_number label)
      × All IsLetter (or_a label)
      × (1 ≤ length (or_a label))
      × (length (or_a label) ≤ suc k)
or_a_lem [] k h l = omega arith
or_a_lem (c ∷ label) k h l = (refl, h, omega arith, l)

-- Reading the label of a 64-bit number back gives the number, so no two have the same label. The
-- label has from 1 to 14 characters, all of them lower case letters.
pub label_to_number-number_to_label :
    (n : ℕ)
    → n < 2 ^ 64
    → (label_to_number (number_to_label n) ≡ n)
      × All IsLetter (number_to_label n)
      × (1 ≤ length (number_to_label n))
      × (length (number_to_label n) ≤ 14)
unfolding number_to_label
label_to_number-number_to_label n h =
    let (e, letters, low, high) =
      or_a_lem (label_digits 14 n) 13 (label_digits-IsLetter 14 n) (length-label_digits 14 n) in
    (e ∙ label_to_number-label_digits 14 n (omega arith), letters, low, high)
