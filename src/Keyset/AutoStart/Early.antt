-- ===== src/Keyset/AutoStart/Early.antt =====
-- auto_start before the time that is planned for it (src/commands/keyset/cmd.rs).
use mathlib.Core.Path.{subst}
use dnst.Base.{
  ℕ, ◌<◌, ◌≡◌, refl, ap, ◌∙◌, Bool, true, false, Option, none, some, List, [], ◌∷◌, ◌++◌, ok, any,
  All, if◌then◌else◌, not, arith,
}
use dnst.Keyset.Types.{RollType, KeyType, KeyState, Action}
use dnst.Keyset.Workspace.{KeySet, KeySetState, AutoConfig}
use dnst.Keyset.Run.{Machine, Run}
use dnst.Keyset.AutoStart.{auto_start, cron_next_auto_start, conflict, expiry_in_cron}
use dnst.Keyset.AutoStart.Laws.{before, auto_start-cron_next}

-- A planned time, if there is one, is still to come.
abbrev pub Later : ℕ → Option ℕ → Type 0
Later now none = Unit
Later now (some t) = now < t

module _ {A : Type 0} (P : A → Type 0) where
  pub All-append : (xs ys : List A) → All P (xs ++ ys) → All P xs × All P ys
  All-append [] ys h = (tt, h)
  All-append (x ∷ xs) ys h = let (left, right) = All-append xs ys h.1 in ((h.0, left), right)

any-before :
    (now : ℕ) (times : List (Option ℕ)) → All (Later now) times → any (before now) times ≡ false
any-before now [] h = refl
any-before now (none ∷ times) h = any-before now times h.1
any-before now (some t ∷ times) h = let rest = any-before now times h.1 in ground arith

append_nil : {A : Type 0} (xs : List A) → xs ≡ xs ++ []
append_nil [] = refl
append_nil (x ∷ xs) = ap (λ rest. x ∷ rest) (append_nil xs)

module _ {K Name : Type 0} (lib : KeySet K) (auto : AutoConfig) (conflicting_roll : RollType → Bool)
    (match_keytype : KeyType → Option KeyState) where
  cron_next_auto_start_append :
      (validity : Option ℕ) (kss : KeySetState K Name) (times : List (Option ℕ))
      → cron_next_auto_start lib validity auto kss conflicting_roll match_keytype times
        ≡ times ++ cron_next_auto_start lib validity auto kss conflicting_roll match_keytype []
  unfolding cron_next_auto_start
  cron_next_auto_start_append none kss times = append_nil times
  cron_next_auto_start_append (some validity) kss times =
      added auto.start (conflict lib conflicting_roll kss.keyset)
        (expiry_in_cron lib match_keytype validity kss.keyset)
    where
      added :
          (a b : Bool) (o : Option ℕ)
          → (if a then (if not b then times ++ o ∷ [] else times) else times)
            ≡ times ++ (if a then (if not b then o ∷ [] else []) else [])
      added true true o = append_nil times
      added true false o = refl
      added false b o = append_nil times

module _ {K Name W : Type 0} (lib : KeySet K) (now : ℕ) (auto : AutoConfig)
    (conflicting_roll : RollType → Bool) (match_keytype : KeyType → Option KeyState) where
  -- If the plan for a roll holds only times that are still to come, no roll is started.
  pub auto_start_early :
      (validity : Option ℕ) (start_roll : Run (Machine K Name W) (List Action))
      (m : Machine K Name W) (times : List (Option ℕ))
      → All (Later now) (
          cron_next_auto_start lib validity auto m.space.state conflicting_roll match_keytype times)
      → (auto_start lib now validity auto conflicting_roll match_keytype start_roll m ≡ (ok tt, m))
        × All (Later now) times
  unfolding auto_start cron_next_auto_start
  auto_start_early none start_roll m times h = (refl, h)
  auto_start_early (some validity) start_roll m times h =
      let (before_times, added) = All-append (Later now) times _ (
        subst (λ ts. All (Later now) ts)
          (cron_next_auto_start_append lib auto conflicting_roll match_keytype (some validity)
            m.space.state times)
          h) in
      (
        auto_start-cron_next lib now validity auto conflicting_roll match_keytype start_roll m
            ∙ (rw (any-before now _ added) refl),
        before_times,
      )
