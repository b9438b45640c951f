-- ===== src/Examples/KeyLabels.antt =====
-- Labels of keys at the inputs of the tests in src/commands/keyset/kmip.rs.
use dnst.Base.{
  ℕ, suc, ◌+◌, ◌≡◌, refl, Bool, true, false, Option, none, some, List, [], ◌∷◌, ◌++◌, length, ok,
  err, if◌then◌else◌, ◌==◌,
}
use dnst.Keyset.Labels.{
  Bytes, insufficient_space, Names, append_labels, drop_labels, truncate_zone_name, label_text,
  format_key_label,
}

-- The labels between the dots; the root is the empty text after the last one.
onto_label : ℕ → List Bytes → List Bytes
onto_label c [] = (c ∷ []) ∷ []
onto_label c (label ∷ labels) = (c ∷ label) ∷ labels

split_dots : Bytes → List Bytes
split_dots [] = [] ∷ []
split_dots (c ∷ text) =
    let rest = split_dots text in if c == b'.' then [] ∷ rest else onto_label c rest

join_dots : List Bytes → Bytes
join_dots [] = []
join_dots (label ∷ []) = label
join_dots (label ∷ next ∷ labels) = label ++ (b'.' ∷ join_dots (next ∷ labels))

with_octets : List Bytes → ℕ
with_octets [] = 0
with_octets (label ∷ labels) = suc (length label) + with_octets labels

no_labels : List Bytes → Bool
no_labels [] = true
no_labels (label ∷ labels) = false

add_label : List Bytes → Bytes → List Bytes
add_label labels [] = labels
add_label labels (c ∷ label) = labels ++ (c ∷ label) ∷ []

abbrev toy_names : Names Bytes (List Bytes)
toy_names = record {
  labels_of = λ text. some (split_dots text);
  label_len = λ label. length label;
  new_builder = [];
  append_label = λ labels label. some (add_label labels label);
  builder_len = with_octets;
  is_empty = no_labels;
  name_text = join_dots;
  into_name_text = λ labels. some (join_dots labels);
  is_char_boundary = λ text n. true;
}

-- a.b.c.d.nlnetlabs.nl.
abbrev zone : Bytes
zone =
    b'a' ∷ b'.' ∷ b'b' ∷ b'.' ∷ b'c' ∷ b'.' ∷ b'd' ∷ b'.' ∷ b'n' ∷ b'l' ∷ b'n' ∷ b'e' ∷ b't' ∷ b'l'
    ∷ b'a' ∷ b'b' ∷ b's' ∷ b'.' ∷ b'n' ∷ b'l' ∷ b'.' ∷ []

abbrev tag : Bytes
tag = b'1' ∷ b'2' ∷ b'3' ∷ b'4' ∷ b'5' ∷ []

abbrev ksk : Bytes
ksk = b'k' ∷ b's' ∷ b'k' ∷ []

-- a.b.c..nl.
abbrev shorter : Bytes
shorter = b'a' ∷ b'.' ∷ b'b' ∷ b'.' ∷ b'c' ∷ b'.' ∷ b'.' ∷ b'n' ∷ b'l' ∷ b'.' ∷ []

shortened : format_key_label toy_names [] zone tag ksk [] 20 ≡ ok (label_text [] shorter tag ksk [])
unfolding format_key_label truncate_zone_name drop_labels append_labels split_dots onto_label
    with_octets add_label no_labels join_dots
shortened = refl

too_short : format_key_label toy_names [] zone tag ksk [] 10 ≡ err (insufficient_space 0)
unfolding format_key_label
too_short = refl

unsome : {A : Type 0} → A → Option A → A
unsome d none = d
unsome d (some a) = a
