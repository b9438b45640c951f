-- ===== src/Update/Message/Sections/Prerequisites.antt =====
-- The prerequisite section of the UPDATE message (src/commands/update.rs, insert_prerequisites) as
-- one list of records, for exact prerequisites of TTL 0.
use mathlib.Core.List.{append-nil, append_assoc}
use mathlib.Core.Path.{fun_ext}
use dnst.Base.{
  ◌≡◌, ap, sym, ◌∙◌, ◌==◌, Bool, true, ◌&&◌, Option, none, some, List, [], ◌∷◌, ◌++◌, map, ok, err,
  ◌>>=◌, if◌then◌else◌, All, arith,
}
use dnst.Dns.{Rtype, Class, none_class, any_class, unknown, Record}
use dnst.Update.Message.{
  message_full, assertion_failed, UpdatePrerequisites, DomainLibrary, Try,
  create_prereq_rrset_exists, create_prereq_rrset_non_existent, create_prereq_name_in_use,
  create_prereq_name_not_in_use,
}
use dnst.Update.Message.Sections.{
  push, push_all, push_opt, push_exact, push_exact_opt, insert_prerequisites,
}

abbrev pub items : {A : Type 0} → Option (List A) → List A
items none = []
items (some xs) = xs

abbrev pub IsBrief : {Name : Type 0} → Record Name → Type 0
IsBrief r = r.ttl ≡ 0

-- A record with TTL 0 and no data.
abbrev pub bare : {Name : Type 0} → Class → Name → Rtype → Record Name
bare cls owner rtype = record { owner = owner; class_ = cls; ttl = 0; rdata = unknown rtype [] }

-- The records of each option, in the order of the message: those that must exist and those that
-- must not are bare, and exact ones are the records themselves.
unfoldable pub prerequisite_records :
    {Name : Type 0} → UpdatePrerequisites Name → List (Record Name)
prerequisite_records p =
    map (λ (n, t). bare any_class n t) (items p.rrset_exists)
    ++ (items p.rrset_exists_exact
        ++ (map (λ (n, t). bare none_class n t) (items p.rrset_non_existent)
            ++ (map (λ n. bare any_class n Rtype.any) (items p.name_in_use)
                ++ map (λ n. bare none_class n Rtype.any) (items p.name_not_in_use))))

module _ {Name Uncertain : Type 0} (lib : DomainLibrary Name Uncertain) where
  -- Every one of the records still has room when its turn comes.
  unfoldable pub room_for : List (Record Name) → List (Record Name) → Bool
  room_for section [] = true
  room_for section (r ∷ rs) = lib.has_room section r && room_for (section ++ r ∷ []) rs

  -- The whole list at once: all of it, or the error of the first record without room.
  abbrev pub fill : List (Record Name) → List (Record Name) → Try (List (Record Name))
  fill section rs = if room_for section rs then ok (section ++ rs) else err message_full

  refl_fill : (section : List (Record Name)) → ok section ≡ fill section []
  unfolding room_for
  refl_fill section = ap ok (sym (append-nil section))

  fill-cons :
      (r : Record Name) (rs section : List (Record Name))
      → (push lib r section >>= λ s. fill s rs) ≡ fill section (r ∷ rs)
  unfolding push room_for
  fill-cons r rs section = ground (arith, append_assoc section (r ∷ []) rs)

  push_all-eq-fill :
      {A : Type 0} (f : A → Record Name) (xs : List A) (section : List (Record Name))
      → push_all lib f xs section ≡ fill section (map f xs)
  unfolding push_all room_for
  push_all-eq-fill f [] section = ap ok (sym (append-nil section))
  push_all-eq-fill f (x ∷ xs) section =
      rw (fun_ext (push_all-eq-fill f xs)) (fill-cons (f x) (map f xs) section)

  push_opt-eq-fill :
      {A : Type 0} (f : A → Record Name) (o : Option (List A)) (section : List (Record Name))
      → push_opt lib f o section ≡ fill section (map f (items o))
  unfolding push_opt room_for
  push_opt-eq-fill f none section = ap ok (sym (append-nil section))
  push_opt-eq-fill f (some xs) section = push_all-eq-fill f xs section

  fill-append :
      (rs bs section : List (Record Name))
      → (fill section rs >>= λ s. fill s bs) ≡ fill section (rs ++ bs)
  unfolding room_for
  fill-append [] bs section = rw append-nil
  fill-append (a ∷ rs) bs section = ground (
    arith,
    fill-append rs bs (section ++ a ∷ []),
    append_assoc section (a ∷ []) rs,
    append_assoc section (a ∷ []) (rs ++ bs),
  )

  push_exact-eq-fill :
      (rs section : List (Record Name))
      → All IsBrief rs
      → push_exact lib rs section ≡ fill section rs
  unfolding push_exact
  push_exact-eq-fill [] section brief = refl_fill section
  push_exact-eq-fill (r ∷ rs) section (zero_ttl, brief) =
      let passed : (r.ttl == 0) ≡ true = ground arith in
      ap
        (λ b. (if b then push lib r section else err assertion_failed) >>= λ s. push_exact lib rs s)
        passed
      ∙ ap (λ f. push lib r section >>= f) (fun_ext (λ s. push_exact-eq-fill rs s brief))
      ∙ fill-cons r rs section

  push_exact_opt-eq-fill :
      (o : Option (List (Record Name))) (section : List (Record Name))
      → All IsBrief (items o)
      → push_exact_opt lib o section ≡ fill section (items o)
  unfolding push_exact_opt
  push_exact_opt-eq-fill none section brief = refl_fill section
  push_exact_opt-eq-fill (some rs) section brief = push_exact-eq-fill rs section brief

  -- If the exact prerequisites have TTL 0, the prerequisite section is what it was with the records
  -- of the options behind it, in their order, if each of them has room when its turn comes;
  -- otherwise the command fails with the error that the message is full.
  pub insert_prerequisites-eq-fill :
      (p : UpdatePrerequisites Name) (section : List (Record Name))
      → All IsBrief (items p.rrset_exists_exact)
      → insert_prerequisites lib p section ≡ (
          if room_for section (prerequisite_records p)
          then ok (section ++ prerequisite_records p)
          else err message_full)
  unfolding insert_prerequisites prerequisite_records create_prereq_rrset_exists
      create_prereq_rrset_non_existent create_prereq_name_in_use create_prereq_name_not_in_use
  insert_prerequisites-eq-fill p section brief =
      let exact : (s : List (Record Name))
          → push_exact_opt lib p.rrset_exists_exact s ≡ fill s (items p.rrset_exists_exact) =
        λ s. push_exact_opt-eq-fill p.rrset_exists_exact s brief in
      simp (push_opt-eq-fill, exact, fill-append)
