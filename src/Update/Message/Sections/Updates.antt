-- ===== src/Update/Message/Sections/Updates.antt =====
-- The update section of the UPDATE message (src/commands/update.rs, insert_add_updates,
-- insert_delete_updates and the part of create_update_message that calls them).
use mathlib.Core.List.{append-nil, append_assoc}
use dnst.Base.{
  String, ◌≡◌, ◌≢◌, refl, ap, sym, true, Option-cases, some, inl, inr, List, [], ◌∷◌, ◌++◌, map, ok,
  >>=-eq-ok, All, arith,
}
use dnst.Dns.{Rtype, none_class, any_class, RecordData, Record, Soa}
use dnst.Update.Message.{
  UpdateAction, add, delete, clear, Update, DomainLibrary, or_err, bad_rdata, create_rr_addition,
  create_rr_deletion, create_rrset_deletion, create_all_rrset_deletion,
}
use dnst.Update.Message.Sections.{
  push, serial_allowed, add_one, add_loop, insert_add_updates, delete_one, delete_loop,
  insert_delete_updates, insert_action,
}
use dnst.Update.Message.Sections.Prerequisites.{bare, room_for}

module _ {Name Uncertain : Type 0} (lib : DomainLibrary Name Uncertain) where
  -- The record data that the arguments stand for, in their order, if all of them parse.
  pub data Parsed (rtype : Rtype) : List String → List (RecordData Name) → Type 0 where
    none_left : Parsed rtype [] []
    one_more :
        {r : String} {d : RecordData Name} {rs : List String} {ds : List (RecordData Name)}
        → lib.parse_rdata rtype r ≡ some d
        → Parsed rtype rs ds
        → Parsed rtype (r ∷ rs) (d ∷ ds)

  push-eq-ok :
      (r : Record Name) (section out : List (Record Name))
      → push lib r section ≡ ok out
      → out ≡ section ++ r ∷ []
  unfolding push
  push-eq-ok r section out h = ground arith

  add_one-eq-ok :
      (self : Update Name) (rtype : Rtype) (soa : Soa Name) (r : String)
      (section out : List (Record Name))
      → add_one lib self rtype soa r section ≡ ok out
      → (d : RecordData Name) × (lib.parse_rdata rtype r ≡ some d)
        × (serial_allowed soa d ≡ true)
        × (out ≡ section ++ create_rr_addition self.domain self.class_ self.ttl d ∷ [])
  unfolding add_one
  add_one-eq-ok self rtype soa r section out h = elim (Option-cases (lib.parse_rdata rtype r)) [
    | inl e ↦ absurd (ground arith)
    | inr (d, e) ↦ (d, e, ground arith, ground arith)
  ]

  add_loop-eq-ok :
      (self : Update Name) (rtype : Rtype) (soa : Soa Name) (rs : List String)
      (section out : List (Record Name))
      → add_loop lib self rtype soa rs section ≡ ok out
      → (ds : List (RecordData Name)) × Parsed rtype rs ds
        × All (λ d. serial_allowed soa d ≡ true) ds
        × (out ≡ section ++ map (create_rr_addition self.domain self.class_ self.ttl) ds)
  unfolding add_loop
  add_loop-eq-ok self rtype soa [] section out h = ([], none_left, tt, cc (append-nil section))
  add_loop-eq-ok self rtype soa (r ∷ rs) section out h =
      let (section', e, k) = >>=-eq-ok (add_one lib self rtype soa r section) _ h in
      let (d, p, s, o) = add_one-eq-ok self rtype soa r section section' e in
      let (ds, ps, ss, q) = add_loop-eq-ok self rtype soa rs section' out k in
      (
        d ∷ ds,
        one_more p ps,
        (s, ss),
        cc (
          o,
          q,
          append_assoc section (create_rr_addition self.domain self.class_ self.ttl d ∷ [])
              (map (create_rr_addition self.domain self.class_ self.ttl) ds),
        ),
      )

  add_loop_complete :
      (self : Update Name) (rtype : Rtype) (soa : Soa Name) (rs : List String)
      (ds : List (RecordData Name)) (section : List (Record Name))
      → Parsed rtype rs ds
      → All (λ d. serial_allowed soa d ≡ true) ds
      → room_for lib section (map (create_rr_addition self.domain self.class_ self.ttl) ds) ≡ true
      → add_loop lib self rtype soa rs section
        ≡ ok (section ++ map (create_rr_addition self.domain self.class_ self.ttl) ds)
  unfolding add_loop add_one push room_for
  add_loop_complete self rtype soa [] [] section none_left a room = ap ok (sym (append-nil section))
  add_loop_complete self rtype soa [] (d ∷ ds) section p a room = elim p [ ]
  add_loop_complete self rtype soa (r ∷ rs) [] section p a room = elim p [ ]
  add_loop_complete self rtype soa (r ∷ rs) (d ∷ ds) section (one_more p ps) a room =
      let new = create_rr_addition self.domain self.class_ self.ttl in
      ground (
        arith,
        p,
        a.0,
        append_assoc section (new d ∷ []) (map new ds),
        add_loop_complete self rtype soa rs ds (section ++ new d ∷ []) ps a.1 (ground arith),
      )

  -- `update add` succeeds only with at least one argument, where every argument is record data of
  -- the type and every SOA among them has an allowed serial. The section is then what it was with
  -- one record behind it for each argument in order, of the domain name, class and TTL given.
  pub insert_add_updates-eq-ok :
      (self : Update Name) (rtype : Rtype) (soa : Soa Name) (rs : List String)
      (section out : List (Record Name))
      → insert_add_updates lib self rtype rs soa section ≡ ok out
      → (rs ≢ [])
        × ((ds : List (RecordData Name)) × Parsed rtype rs ds
            × All (λ d. serial_allowed soa d ≡ true) ds
            × (out ≡ section ++ map (create_rr_addition self.domain self.class_ self.ttl) ds))
  unfolding insert_add_updates
  insert_add_updates-eq-ok self rtype soa [] section out h = absurd (ground arith)
  insert_add_updates-eq-ok self rtype soa (r ∷ rs) section out h =
      (λ e. cc, add_loop-eq-ok self rtype soa (r ∷ rs) section out h)

  -- `update add` with at least one argument succeeds, with the same section, if every argument is
  -- record data of the type, every SOA among them has an allowed serial and all records have room.
  pub insert_add_updates_complete :
      (self : Update Name) (rtype : Rtype) (soa : Soa Name) (rs : List String)
      (ds : List (RecordData Name)) (section : List (Record Name))
      → rs ≢ []
      → Parsed rtype rs ds
      → All (λ d. serial_allowed soa d ≡ true) ds
      → room_for lib section (map (create_rr_addition self.domain self.class_ self.ttl) ds) ≡ true
      → insert_add_updates lib self rtype rs soa section
        ≡ ok (section ++ map (create_rr_addition self.domain self.class_ self.ttl) ds)
  unfolding insert_add_updates
  insert_add_updates_complete self rtype soa [] ds section ne ps a room = absurd (ne refl)
  insert_add_updates_complete self rtype soa (r ∷ rs) ds section ne ps a room =
      add_loop_complete self rtype soa (r ∷ rs) ds section ps a room

  delete_loop-eq-ok :
      (self : Update Name) (rtype : Rtype) (rs : List String) (section out : List (Record Name))
      → delete_loop lib self rtype rs section ≡ ok out
      → (ds : List (RecordData Name)) × Parsed rtype rs ds
        × (out ≡ section ++ map (create_rr_deletion self.domain) ds)
  unfolding delete_loop delete_one
  delete_loop-eq-ok self rtype [] section out h = ([], none_left, cc (append-nil section))
  delete_loop-eq-ok self rtype (r ∷ rs) section out h =
      let (section', e, k) = >>=-eq-ok (delete_one lib self rtype r section) _ h in
      let (d, p, o) = >>=-eq-ok (or_err (lib.parse_rdata rtype r) bad_rdata) _ e in
      let (ds, ps, q) = delete_loop-eq-ok self rtype rs section' out k in
      (
        d ∷ ds,
        one_more (ground arith) ps,
        cc (
          push-eq-ok (create_rr_deletion self.domain d) section section' o,
          q,
          append_assoc section (create_rr_deletion self.domain d ∷ [])
              (map (create_rr_deletion self.domain) ds),
        ),
      )

  -- What each action stands for: additions carry the class and the TTL of the command.
  pub data UpdateSection (self : Update Name) : UpdateAction → List (Record Name) → Type 0 where
    additions :
        {rtype : Rtype} {rs : List String} {ds : List (RecordData Name)} {out : List (Record Name)}
        → Parsed rtype rs ds
        → rs ≢ []
        → out
          ≡ map
              (λ d. record { owner = self.domain; class_ = self.class_; ttl = self.ttl; rdata = d })
              ds
        → UpdateSection self (add rtype rs) out
    rrset_deletion :
        {rtype : Rtype} {out : List (Record Name)}
        → out ≡ bare any_class self.domain rtype ∷ []
        → UpdateSection self (delete rtype []) out
    deletions :
        {rtype : Rtype} {r : String} {rs : List String} {ds : List (RecordData Name)}
        {out : List (Record Name)}
        → Parsed rtype (r ∷ rs) ds
        → out
          ≡ map (λ d. record { owner = self.domain; class_ = none_class; ttl = 0; rdata = d }) ds
        → UpdateSection self (delete rtype (r ∷ rs)) out
    all_deletion :
        {out : List (Record Name)}
        → out ≡ bare any_class self.domain Rtype.any ∷ []
        → UpdateSection self clear out

  pub insert_action_sound :
      (self : Update Name) (action : UpdateAction) (soa : Soa Name) (out : List (Record Name))
      → insert_action lib self action soa ≡ ok out
      → UpdateSection self action out
  unfolding insert_action insert_delete_updates create_rr_addition create_rr_deletion
      create_rrset_deletion create_all_rrset_deletion
  insert_action_sound self (add rtype rs) soa out h =
      let (ne, (ds, ps, _, e)) = insert_add_updates-eq-ok self rtype soa rs [] out h in
      additions ps ne e
  insert_action_sound self (delete rtype []) soa out h =
      rrset_deletion (push-eq-ok (create_rrset_deletion self.domain rtype) [] out h)
  insert_action_sound self (delete rtype (r ∷ rs)) soa out h =
      let (ds, ps, e) = delete_loop-eq-ok self rtype (r ∷ rs) [] out h in deletions ps e
  insert_action_sound self clear soa out h =
      all_deletion (push-eq-ok (create_all_rrset_deletion self.domain) [] out h)
