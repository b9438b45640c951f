-- ===== src/Update/Message/Sections.antt =====
-- How the `update` command fills the sections of the UPDATE message (src/commands/update.rs):
-- parse_prerequisites, insert_prerequisites, insert_add_updates, insert_delete_updates and
-- create_update_message. A section is the list of its records in the order of the pushes; a failed
-- push ends the command, so what was pushed before it is not kept.
pub mod Prerequisites
pub mod Updates
pub mod Created
use dnst.Base.{
  ℕ, ◌==◌, String, Bool, true, false, Option, none, some, List, [], ◌∷◌, ◌++◌, ok, err, ◌>>=◌,
  if◌then◌else◌,
}
use dnst.Dns.{Rtype, Class, in_class, Soa, RecordData, soa_data, unknown, known, Record}
use dnst.Update.Serial.{verify_soa_serial_increment}
use dnst.Update.Message.{
  UpdateError, message_full, assertion_failed, no_rdata, bad_rdata, bad_serial, UpdateAction, add,
  delete, clear, UpdatePrerequisites, Update, DomainLibrary, Try, or_err, create_rr_addition,
  create_rr_deletion, create_rrset_deletion, create_all_rrset_deletion, create_prereq_rrset_exists,
  create_prereq_rrset_non_existent, create_prereq_name_in_use, create_prereq_name_not_in_use,
  parse_prerequisite_name_type, parse_prerequisite_name, parse_prerequisite_rrset_exists_exact,
  optional,
}

-- The message that is sent: its question (zone) section holds the zone with type SOA, class IN.
pub record UpdateMessage (Name : Type 0) : Type 0 where
  pub zone : Name
  pub zone_type : Rtype
  pub zone_class : Class
  pub prerequisites : List (Record Name)
  pub updates : List (Record Name)

-- The check on new SOA data; other data passes.
unfoldable pub serial_allowed : {Name : Type 0} → Soa Name → RecordData Name → Bool
unfolding verify_soa_serial_increment
serial_allowed soa (soa_data new_soa) = verify_soa_serial_increment soa.serial new_soa.serial
serial_allowed soa (unknown _ _) = true
serial_allowed soa (known _ _) = true

module _ {Name Uncertain : Type 0} (lib : DomainLibrary Name Uncertain) where
  open lib use {parse_rdata, has_room}

  unfoldable pub parse_prerequisites : Update Name → Name → Try (UpdatePrerequisites Name)
  unfolding optional
  parse_prerequisites self origin = do
    exists ← optional (λ v. parse_prerequisite_name_type lib v origin) self.rrset_exists
    exact ←
        optional (λ v. parse_prerequisite_rrset_exists_exact lib v origin self.class_)
          self.rrset_exists_exact
    non_existent ← optional (λ v. parse_prerequisite_name_type lib v origin) self.rrset_non_existent
    in_use ← optional (λ v. parse_prerequisite_name lib v origin) self.name_in_use
    not_in_use ← optional (λ v. parse_prerequisite_name lib v origin) self.name_not_in_use
    ok (record {
      rrset_exists = exists;
      rrset_exists_exact = exact;
      rrset_non_existent = non_existent;
      name_in_use = in_use;
      name_not_in_use = not_in_use;
    })

  unfoldable pub push : Record Name → List (Record Name) → Try (List (Record Name))
  push r section = if has_room section r then ok (section ++ r ∷ []) else err message_full

  -- `for x in xs { section.push(f(x))? }`
  unfoldable pub push_all :
      {A : Type 0} → (A → Record Name) → List A → List (Record Name) → Try (List (Record Name))
  unfolding push
  push_all f [] section = ok section
  push_all f (x ∷ xs) section = do section' ← push (f x) section; push_all f xs section'

  unfoldable pub push_opt :
      {A : Type 0}
      → (A → Record Name)
      → Option (List A)
      → List (Record Name)
      → Try (List (Record Name))
  unfolding push_all
  push_opt f none section = ok section
  push_opt f (some xs) section = push_all f xs section

  -- The check of the TTL is a debug_assert: it is a panic where assertions are checked.
  pub push_exact : List (Record Name) → List (Record Name) → Try (List (Record Name))
  unfolding push
  push_exact [] section = ok section
  push_exact (rr ∷ rrs) section = do
    section' ← if rr.ttl == 0 then push rr section else err assertion_failed
    push_exact rrs section'

  pub push_exact_opt : Option (List (Record Name)) → List (Record Name) → Try (List (Record Name))
  unfolding push_exact
  push_exact_opt none section = ok section
  push_exact_opt (some rrs) section = push_exact rrs section

  unfoldable pub insert_prerequisites :
      UpdatePrerequisites Name → List (Record Name) → Try (List (Record Name))
  unfolding push_opt push_exact_opt create_prereq_rrset_exists create_prereq_rrset_non_existent
      create_prereq_name_in_use create_prereq_name_not_in_use
  insert_prerequisites p section = do
    s1 ←
        push_opt (λ (domain, rtype). create_prereq_rrset_exists domain rtype) p.rrset_exists section
    s2 ← push_exact_opt p.rrset_exists_exact s1
    s3 ←
        push_opt (λ (domain, rtype). create_prereq_rrset_non_existent domain rtype)
          p.rrset_non_existent s2
    s4 ← push_opt create_prereq_name_in_use p.name_in_use s3
    push_opt create_prereq_name_not_in_use p.name_not_in_use s4

  -- One round of the loop of insert_add_updates.
  add_one : Update Name → Rtype → Soa Name → String → List (Record Name) → Try (List (Record Name))
  unfolding push create_rr_addition serial_allowed
  add_one self rtype soa r section = do
    data_ ← or_err (parse_rdata rtype r) bad_rdata
    if serial_allowed soa data_
        then push (create_rr_addition self.domain self.class_ self.ttl data_) section
        else err bad_serial

  add_loop :
      Update Name → Rtype → Soa Name → List String → List (Record Name) → Try (List (Record Name))
  unfolding add_one
  add_loop self rtype soa [] section = ok section
  add_loop self rtype soa (r ∷ rs) section = do
    section' ← add_one self rtype soa r section
    add_loop self rtype soa rs section'

  unfoldable pub insert_add_updates :
      Update Name → Rtype → List String → Soa Name → List (Record Name) → Try (List (Record Name))
  unfolding add_loop
  insert_add_updates self rtype [] soa section = err no_rdata
  insert_add_updates self rtype (r ∷ rs) soa section = add_loop self rtype soa (r ∷ rs) section

  delete_one : Update Name → Rtype → String → List (Record Name) → Try (List (Record Name))
  unfolding push create_rr_deletion
  delete_one self rtype r section = do
    data_ ← or_err (parse_rdata rtype r) bad_rdata
    push (create_rr_deletion self.domain data_) section

  delete_loop : Update Name → Rtype → List String → List (Record Name) → Try (List (Record Name))
  unfolding delete_one
  delete_loop self rtype [] section = ok section
  delete_loop self rtype (r ∷ rs) section = do
    section' ← delete_one self rtype r section
    delete_loop self rtype rs section'

  pub insert_delete_updates :
      Update Name → Rtype → List String → List (Record Name) → Try (List (Record Name))
  unfolding push delete_loop create_rrset_deletion
  insert_delete_updates self rtype [] section =
      push (create_rrset_deletion self.domain rtype) section
  insert_delete_updates self rtype (r ∷ rs) section = delete_loop self rtype (r ∷ rs) section

  -- The `match` on the action.
  pub insert_action : Update Name → UpdateAction → Soa Name → Try (List (Record Name))
  unfolding insert_add_updates insert_delete_updates create_all_rrset_deletion push
  insert_action self (add rtype data_) soa = insert_add_updates self rtype data_ soa []
  insert_action self (delete rtype data_) soa = insert_delete_updates self rtype data_ []
  insert_action self clear soa = push (create_all_rrset_deletion self.domain) []

  unfoldable pub create_update_message :
      Update Name → Name → UpdatePrerequisites Name → Soa Name → Try (UpdateMessage Name)
  unfolding insert_prerequisites insert_action
  create_update_message self zone prerequisites soa = do
    prereqs ← insert_prerequisites prerequisites []
    ups ← insert_action self self.action soa
    ok (record {
      zone = zone;
      zone_type = Rtype.soa;
      zone_class = in_class;
      prerequisites = prereqs;
      updates = ups;
    })
