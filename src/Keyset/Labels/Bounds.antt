-- ===== src/Keyset/Labels/Bounds.antt =====
-- How long a label of a key is, and when there is one (src/commands/keyset/kmip.rs).
use mathlib.Core.List.{reverse}
use dnst.Base.{ℕ, ◌-◌, ◌≤◌, ◌≡◌, true, some, List, [], ◌∷◌, length, Result, ok}
use dnst.Keyset.Labels.{Bytes, LabelError, Names, take, end_builder, label_text}

-- What the code expects of the names of the `domain` crate at a zone name: the labels of a name fit
-- into a name again, some of them left out, as `RoomFor` says of a builder and the labels still to
-- come; its last two labels make a name; and the text is cut between characters.
pub record Usable {Label Builder : Type 0} (names : Names Label Builder)
    (RoomFor : Builder → List Label → Type 0) (zone_name : Bytes) : Type 0 where
  pub start :
      (labels : List Label)
      → names.labels_of zone_name ≡ some labels
      → RoomFor names.new_builder (take (length labels - 2) labels)
  pub step :
      (b : Builder) (l : Label) (labels : List Label)
      → RoomFor b (l ∷ labels)
      → (b' : Builder) × (names.append_label b l ≡ some b') × RoomFor b' labels
  pub skip :
      (b : Builder) (l : Label) (labels : List Label) → RoomFor b (l ∷ labels) → RoomFor b labels
  pub ends :
      (labels : List Label)
      → names.labels_of zone_name ≡ some labels
      → 3 ≤ length labels
      → (b : Builder) × (text : Bytes) × (end_builder names 0 (reverse labels) ≡ ok b)
        × (names.into_name_text b ≡ some text)
  pub cuts : (n : ℕ) → names.is_char_boundary zone_name n ≡ true

-- A result that is there and short enough.
abbrev Short : ℕ → Result LabelError Bytes → Type 0
Short room r = (text : Bytes) × (r ≡ ok text) × (length text ≤ room)

module _ {Label Builder : Type 0} (names : Names Label Builder)
    (RoomFor : Builder → List Label → Type 0) (prefix zone_name key_tag key_type suffix : Bytes)
    (max_label_bytes : ℕ) (u : Usable names RoomFor zone_name) where
  -- The bytes that a label has beside the zone name.
  abbrev pub fixed_part : ℕ
  fixed_part = length (label_text prefix [] key_tag key_type suffix)
