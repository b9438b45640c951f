-- ===== src/Keyset/Labels.antt =====
-- The labels of keys in an HSM (src/commands/keyset/kmip.rs): format_key_label and
-- truncate_zone_name. Text is the list of its bytes. Domain names, their labels and the builder of
-- names belong to the `domain` crate. A panic, from `unwrap` or from cutting a text within a
-- character, is an error that no caller handles.
pub mod Bounds
use mathlib.Core.List.{reverse}
use dnst.Base.{
  ℕ, zero, suc, ◌+◌, ◌-◌, ◌<◌, Bool, true, false, Option, none, some, List, [], ◌∷◌, ◌++◌, length,
  ltb, leb, Result, ok, err, ◌>>=◌, if◌then◌else◌, String,
}

abbrev pub Bytes : Type 0
Bytes = List ℕ

-- The messages of this part: too little space, and a panic.
pub data LabelError : Type 0 where
  insufficient_space : ℕ → LabelError
  panicked : LabelError

-- Names in text, the labels of one in order, and the name builder. `name_text` is for a name that
-- ends with its last label, `into_name_text` for one that ends with the root.
pub record Names (Label Builder : Type 0) : Type 0 where
  pub labels_of : Bytes → Option (List Label)
  pub label_len : Label → ℕ
  pub new_builder : Builder
  pub append_label : Builder → Label → Option Builder
  pub builder_len : Builder → ℕ
  pub is_empty : Builder → Bool
  pub name_text : Builder → Bytes
  pub into_name_text : Builder → Option Bytes
  pub is_char_boundary : Bytes → ℕ → Bool

abbrev pub unwrap : {A : Type 0} → Option A → Result LabelError A
unwrap none = err panicked
unwrap (some a) = ok a

abbrev pub take : {A : Type 0} → ℕ → List A → List A
take zero xs = []
take (suc n) [] = []
take (suc n) (x ∷ xs) = x ∷ take n xs

module _ {Label Builder : Type 0} (names : Names Label Builder) (max_zone_name_len : ℕ) where
  open names use {
    labels_of, label_len, new_builder, append_label, builder_len, is_empty, name_text,
    into_name_text, is_char_boundary,
  }

  -- `zone_name.truncate(max_zone_name_len)`.
  abbrev pub truncate : Bytes → Result LabelError Bytes
  truncate zone_name =
      if leb (length zone_name) max_zone_name_len
      then ok zone_name
      else if is_char_boundary zone_name max_zone_name_len
      then ok (take max_zone_name_len zone_name)
      else err panicked

  -- The loop over the labels before the last two.
  unfoldable pub append_labels : ℕ → List Label → Builder → Result LabelError Builder
  append_labels end_len [] start_name = ok start_name
  append_labels end_len (label ∷ labels) start_name =
      let skipped = append_labels end_len labels start_name in
      let appended = (do
        longer ← unwrap (append_label start_name label)
        append_labels end_len labels longer) in
      if ltb (builder_len start_name + label_len label + end_len) (max_zone_name_len - 1)
      then appended
      else skipped

  -- The root and the label before it, of the labels in reverse.
  abbrev pub end_builder : List Label → Result LabelError Builder
  end_builder [] = err panicked
  end_builder (root ∷ []) = err panicked
  end_builder (root ∷ tld ∷ labels) = do
    started ← unwrap (append_label new_builder root)
    unwrap (append_label started tld)

  abbrev pub fits_or_cut : Bytes → Bytes → Result LabelError Bytes
  fits_or_cut zone_name text =
      if leb (length text) max_zone_name_len then ok text else truncate zone_name

  abbrev pub join_or_cut : Bytes → Builder → Builder → Result LabelError Bytes
  join_or_cut zone_name start_name end_name =
      if is_empty start_name then truncate zone_name else (do
        end_text ← unwrap (into_name_text end_name)
        fits_or_cut zone_name (name_text start_name ++ (b'.' ∷ b'.' ∷ (end_text ++ b'.' ∷ []))))

  -- For a name of at least three labels.
  unfoldable pub drop_labels : Bytes → List Label → Result LabelError Bytes
  unfolding append_labels
  drop_labels zone_name labels = do
    end_name ← end_builder (reverse labels)
    start_name ← append_labels (builder_len end_name) (take (length labels - 2) labels) new_builder
    join_or_cut zone_name start_name end_name

  abbrev pub by_labels : Bytes → Option (List Label) → Result LabelError Bytes
  by_labels zone_name none = truncate zone_name
  by_labels zone_name (some labels) =
      if leb 3 (length labels) then drop_labels zone_name labels else truncate zone_name

  unfoldable pub truncate_zone_name : Bytes → Result LabelError Bytes
  unfolding drop_labels
  truncate_zone_name zone_name =
      if leb (length zone_name) max_zone_name_len
      then ok zone_name
      else if ltb 0 max_zone_name_len
      then by_labels zone_name (labels_of zone_name)
      else truncate zone_name

-- `{prefix}{zone_name}-{key_tag}-{key_type}{suffix}`.
abbrev pub label_text : (prefix zone_name key_tag key_type suffix : Bytes) → Bytes
label_text prefix zone_name key_tag key_type suffix =
    prefix ++ (zone_name ++ (b'-' ∷ (key_tag ++ (b'-' ∷ (key_type ++ suffix)))))

module _ {Label Builder : Type 0} (names : Names Label Builder) where
  unfoldable pub format_key_label :
      (prefix zone_name key_tag key_type suffix : Bytes) → ℕ → Result LabelError Bytes
  format_key_label prefix zone_name key_tag key_type suffix max_label_bytes =
      let label = label_text prefix zone_name key_tag key_type suffix in
      let room = length zone_name - (length label - max_label_bytes) in
      let shortened = (do
        shorter ← truncate_zone_name names room zone_name
        ok (label_text prefix shorter key_tag key_type suffix)) in
      if ltb max_label_bytes (length label)
      then (if ltb room 8 then err (insufficient_space room) else shortened)
      else ok label
