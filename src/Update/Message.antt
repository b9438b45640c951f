-- ===== src/Update/Message.antt =====
-- The UPDATE message (src/commands/update.rs): the records for each prerequisite and update of
-- RFC 2136, and the functions that put them into the sections of the message.
pub mod Sections
use Prim.Native.Char.{Char, code}
use dnst.Base.{
  ℕ, String, ◌==◌, Bool, true, false, Option, none, some, List, [], ◌∷◌, ◌++◌, Result, ok, err,
  ◌>>=◌, if◌then◌else◌, is_none, map,
}
use dnst.Dns.{
  Rtype, Class, in_class, none_class, any_class, Soa, RecordData, soa_data, unknown, Record,
}
use dnst.Update.Serial.{verify_soa_serial_increment}

-- The errors of the command, one for each message of the source.
pub data UpdateError : Type 0 where
  bad_format bad_rtype bad_name name_too_long bad_record no_rdata bad_rdata bad_serial : UpdateError
  message_full assertion_failed lookup_failed bad_tsig_key no_soa send_failed unable_to_handle :
      UpdateError

pub data UpdateAction : Type 0 where
  add delete : Rtype → List String → UpdateAction
  clear : UpdateAction

pub record UpdatePrerequisites (Name : Type 0) : Type 0 where
  pub rrset_exists : Option (List (Name × Rtype))
  pub rrset_exists_exact : Option (List (Record Name))
  pub rrset_non_existent : Option (List (Name × Rtype))
  pub name_in_use : Option (List Name)
  pub name_not_in_use : Option (List Name)

-- The arguments of the command that its pure part reads.
pub record Update (Name : Type 0) : Type 0 where
  pub domain : Name
  pub action : UpdateAction
  pub class_ : Class
  pub ttl : ℕ
  pub rrset_exists : Option (List String)
  pub rrset_exists_exact : Option (List String)
  pub rrset_non_existent : Option (List String)
  pub name_in_use : Option (List String)
  pub name_not_in_use : Option (List String)

-- What the `domain` crate does for the command: `Rtype::from_str`, `UncertainName::from_str` and
-- `chain`, the zone file parser on one line (with an origin and a default class), the parser of
-- record data, and whether the message has room for one more record.
pub record DomainLibrary (Name Uncertain : Type 0) : Type 0 where
  pub rtype_from_str : String → Option Rtype
  pub uncertain_from_str : String → Option Uncertain
  pub chain : Uncertain → Name → Option Name
  pub next_record : String → Name → Class → Option (Record Name)
  pub parse_rdata : Rtype → String → Option (RecordData Name)
  pub has_room : List (Record Name) → Record Name → Bool

abbrev pub Try : Type 0 → Type 0
Try = Result UpdateError

abbrev pub or_err : {A : Type 0} → Option A → UpdateError → Try A
or_err none e = err e
or_err (some a) e = ok a

-- The loop `for x in xs { out.push(f(x)?) }`.
unfoldable pub try_map : {A B : Type 0} → (A → Try B) → List A → Try (List B)
try_map f [] = ok []
try_map f (x ∷ xs) = do y ← f x; ys ← try_map f xs; ok (y ∷ ys)

module _ {Name : Type 0} where
  unfoldable pub create_rr_addition : Name → Class → ℕ → RecordData Name → Record Name
  create_rr_addition domain cls ttl data_ = record {
    owner = domain;
    class_ = cls;
    ttl = ttl;
    rdata = data_;
  }

  unfoldable pub create_rr_deletion : Name → RecordData Name → Record Name
  create_rr_deletion domain data_ = record {
    owner = domain;
    class_ = none_class;
    ttl = 0;
    rdata = data_;
  }

  unfoldable pub create_rrset_deletion : Name → Rtype → Record Name
  create_rrset_deletion domain rtype = record {
    owner = domain;
    class_ = any_class;
    ttl = 0;
    rdata = unknown rtype [];
  }

  unfoldable pub create_all_rrset_deletion : Name → Record Name
  create_all_rrset_deletion domain = record {
    owner = domain;
    class_ = any_class;
    ttl = 0;
    rdata = unknown Rtype.any [];
  }

  pub create_prereq_rrset_exists : Name → Rtype → Record Name
  create_prereq_rrset_exists domain rtype = record {
    owner = domain;
    class_ = any_class;
    ttl = 0;
    rdata = unknown rtype [];
  }

  pub create_prereq_rrset_non_existent : Name → Rtype → Record Name
  create_prereq_rrset_non_existent domain rtype = record {
    owner = domain;
    class_ = none_class;
    ttl = 0;
    rdata = unknown rtype [];
  }

  pub create_prereq_name_in_use : Name → Record Name
  create_prereq_name_in_use domain = record {
    owner = domain;
    class_ = any_class;
    ttl = 0;
    rdata = unknown Rtype.any [];
  }

  pub create_prereq_name_not_in_use : Name → Record Name
  create_prereq_name_not_in_use domain = record {
    owner = domain;
    class_ = none_class;
    ttl = 0;
    rdata = unknown Rtype.any [];
  }

prepend : Char → Option (String × String) → Option (String × String)
prepend c none = none
prepend c (some (before, after)) = some (String.◌∷◌ c before, after)

-- `str::split_once(' ')`: what stands before and after the first space.
pub split_once : String → Option (String × String)
split_once String.[] = none
split_once (String.◌∷◌ c s) =
    let rest = split_once s in if code c == b' ' then some (String.[], s) else prepend c rest

-- An argument that was not given stays `None`.
pub optional : {A : Type 0} → (List String → Try A) → Option (List String) → Try (Option A)
optional parse none = ok none
optional parse (some v) = do parsed ← parse v; ok (some parsed)

module _ {Name Uncertain : Type 0} (lib : DomainLibrary Name Uncertain) where
  open lib use {rtype_from_str, uncertain_from_str, chain, next_record}

  unfoldable pub absolute_name : Name → String → Try Name
  absolute_name origin arg = do
    uncertain ← or_err (uncertain_from_str arg) bad_name
    or_err (chain uncertain origin) name_too_long

  name_type : Name → Option (String × String) → Try (Name × Rtype)
  name_type origin none = err bad_format
  name_type origin (some (name, typ)) = do
    rtype ← or_err (rtype_from_str typ) bad_rtype
    absolute ← absolute_name origin name
    ok (absolute, rtype)

  pub parse_prerequisite_name_type : List String → Name → Try (List (Name × Rtype))
  unfolding try_map
  parse_prerequisite_name_type args origin = try_map (λ arg. name_type origin (split_once arg)) args

  unfoldable pub parse_prerequisite_name : List String → Name → Try (List Name)
  parse_prerequisite_name args origin = try_map (absolute_name origin) args

  unfoldable pub exact_record : Option (Record Name) → Try (Record Name)
  exact_record none = err bad_record
  exact_record (some r) = ok (record r { ttl = 0 })

  unfoldable pub parse_prerequisite_rrset_exists_exact :
      List String → Name → Class → Try (List (Record Name))
  parse_prerequisite_rrset_exists_exact args origin cls =
      try_map (λ arg. exact_record (next_record arg origin cls)) args
