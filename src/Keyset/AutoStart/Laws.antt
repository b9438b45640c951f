-- ===== src/Keyset/AutoStart/Laws.antt =====
-- When a roll is started by itself (src/commands/keyset/cmd.rs, auto_start and
-- cron_next_auto_start).
use mathlib.Core.Option
use dnst.Base.{
  ℕ, ◌+◌, String, ◌≡◌, refl, ap, ◌∙◌, Bool, true, false, not, ◌&&◌, ◌||◌, Option, Option-cases,
  none, some, inl, inr, List, [], ◌∷◌, ok, ltb, any, filter_map, map, if◌then◌else◌, arith,
}
use dnst.Keyset.Types.{RollType, KeyType, KeyState, Key, Action}
use dnst.Keyset.Run.{Machine, Run}
use dnst.Keyset.Workspace.{AutoConfig, KeySet}
use dnst.Keyset.AutoStart.{
  minimum, active_published, conflict, expiry_in_start, expiry_in_cron, started, start_if_due,
  auto_start, cron_next_auto_start,
}

abbrev pub before : ℕ → Option ℕ → Bool
before now none = false
before now (some t) = ltb t now

pub before-minimum : (now : ℕ) (xs : List ℕ) → before now (minimum xs) ≡ any (λ x. ltb x now) xs
unfolding minimum
before-minimum now [] = refl
before-minimum now (x ∷ xs) = ground (arith, before-minimum now xs)

-- A key that takes part in the roll and whose validity is over.
abbrev pub expired : ℕ → ℕ → (KeyType → Option KeyState) → String × Key → Bool
expired now validity match_keytype (_, k) = elim (active_published match_keytype k) [
  | none ↦ false
  | some published ↦ ltb (published + validity) now
]

module _ (match_keytype : KeyType → Option KeyState) (now validity : ℕ) where
  any-expired :
      (keys : List (String × Key))
      → any
          (λ x. ltb x now)
          (filter_map
            (λ (_, k). Option.map (λ t. t + validity) (active_published match_keytype k))
            keys)
        ≡ any (expired now validity match_keytype) keys
  any-expired [] = refl
  any-expired ((u, k) ∷ keys) = elim (Option-cases (active_published match_keytype k)) [
    | inl e ↦ rw (e, expired) (any-expired keys)
    | inr (t, e) ↦ rw (e, expired) (ap (λ b. ltb (t + validity) now || b) (any-expired keys))
  ]

  map-filter_map :
      (keys : List (String × Key))
      → map
          (λ published. published + validity)
          (filter_map (λ (_, k). active_published match_keytype k) keys)
        ≡ filter_map
            (λ (_, k). Option.map (λ t. t + validity) (active_published match_keytype k))
            keys
  map-filter_map [] = refl
  map-filter_map ((u, k) ∷ keys) = elim (Option-cases (active_published match_keytype k)) [
    | inl e ↦ rw e (map-filter_map keys)
    | inr (t, e) ↦ rw e (ap (λ r. (t + validity) ∷ r) (map-filter_map keys))
  ]

module _ {K : Type 0} (lib : KeySet K) where
  before-expiry :
      (match_keytype : KeyType → Option KeyState) (now validity : ℕ) (keyset : K)
      → before now (expiry_in_start lib match_keytype validity keyset)
        ≡ any (expired now validity match_keytype) (lib.keys keyset)
  unfolding expiry_in_start
  before-expiry match_keytype now validity keyset =
      before-minimum now _ ∙ any-expired match_keytype now validity (lib.keys keyset)

  expiry_in_cron-eq :
      (match_keytype : KeyType → Option KeyState) (now validity : ℕ) (keyset : K)
      → expiry_in_cron lib match_keytype validity keyset
        ≡ expiry_in_start lib match_keytype validity keyset
  unfolding expiry_in_cron expiry_in_start
  expiry_in_cron-eq match_keytype now validity keyset =
      ap minimum (map-filter_map match_keytype now validity (lib.keys keyset))

module _ {K Name W : Type 0} where
  start_if_due_lem :
      (now : ℕ) (next : Option ℕ) (start_roll : Run (Machine K Name W) (List Action))
      (m : Machine K Name W)
      → start_if_due now next start_roll m
        ≡ (if before now next then started (start_roll m) else (ok tt, m))
  unfolding start_if_due
  start_if_due_lem now none start_roll m = refl
  start_if_due_lem now (some next) start_roll m = refl

module _ {K Name W : Type 0} (lib : KeySet K) where
  module _ (now validity : ℕ) (auto : AutoConfig) (conflicting_roll : RollType → Bool)
      (match_keytype : KeyType → Option KeyState)
      (start_roll : Run (Machine K Name W) (List Action)) (m : Machine K Name W) where
    -- A roll is started exactly when the flag is set, no conflicting roll is in progress, and some
    -- key that is not stale and of a type that takes part was published longer ago than the
    -- validity. Its error is passed on, otherwise the state is flagged as changed. In all other
    -- cases nothing happens.
    pub auto_start_lem :
        auto_start lib now (some validity) auto conflicting_roll match_keytype start_roll m ≡ (
          if auto.start
            && (not (any (λ (r, _). conflicting_roll r) (lib.rollstates m.space.state.keyset))
                && any (expired now validity match_keytype) (lib.keys m.space.state.keyset))
          then started (start_roll m)
          else (ok tt, m))
    unfolding auto_start conflict
    auto_start_lem =
        rw (start_if_due_lem, before-expiry lib)
          (go auto.start (any (λ (r, _). conflicting_roll r) (lib.rollstates m.space.state.keyset))
            (any (expired now validity match_keytype) (lib.keys m.space.state.keyset)))
      where
        go :
            (a b c : Bool)
            → (if a
                then (if not b
                    then (if c then started (start_roll m) else (ok tt, m))
                    else (ok tt, m))
                else (ok tt, m))
              ≡ (if a && (not b && c) then started (start_roll m) else (ok tt, m))
        go true true c = refl
        go true false c = refl
        go false b c = refl

    -- cron_next_auto_start plans the next run for a time before now exactly when auto_start, with
    -- the same arguments on the same state, starts a roll.
    pub auto_start-cron_next :
        auto_start lib now (some validity) auto conflicting_roll match_keytype start_roll m ≡ (
          if any (before now) (
            cron_next_auto_start lib
              (some validity)
              auto
              m.space.state
              conflicting_roll
              match_keytype
              [])
          then started (start_roll m)
          else (ok tt, m))
    unfolding auto_start cron_next_auto_start conflict
    auto_start-cron_next =
        rw (start_if_due_lem, expiry_in_cron-eq lib match_keytype now validity m.space.state.keyset)
          (go auto.start (any (λ (r, _). conflicting_roll r) (lib.rollstates m.space.state.keyset))
            (expiry_in_start lib match_keytype validity m.space.state.keyset))
      where
        go :
            (a b : Bool) (o : Option ℕ)
            → (if a
                then (if not b
                    then (if before now o then started (start_roll m) else (ok tt, m))
                    else (ok tt, m))
                else (ok tt, m))
              ≡ (if any (before now) (if a then (if not b then o ∷ [] else []) else [])
                  then started (start_roll m)
                  else (ok tt, m))
        go true true c = refl
        go true false c = ground arith
        go false b c = refl
