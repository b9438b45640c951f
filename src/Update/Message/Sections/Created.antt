-- ===== src/Update/Message/Sections/Created.antt =====
-- The UPDATE message as a whole (src/commands/update.rs, create_update_message), made from the
-- prerequisites that parse_prerequisites gives.
use dnst.Base.{String, ◌≡◌, some, List, [], ◌∷◌}
use dnst.Dns.{Class, Record}
use dnst.Update.Message.{Update, DomainLibrary}

module _ {Name Uncertain : Type 0} (lib : DomainLibrary Name Uncertain) where
  -- The records that the zone file parser reads in the arguments, in their order, with TTL 0.
  abbrev pub ReadFrom : Name → Class → List String → List (Record Name) → Type 0
  ReadFrom zone cls [] records = records ≡ []
  ReadFrom zone cls (arg ∷ args) records =
      (r : Record Name) × ((rest : List (Record Name)) × (lib.next_record arg zone cls ≡ some r)
        × (records ≡ record r { ttl = 0 } ∷ rest)
        × ReadFrom zone cls args rest)
