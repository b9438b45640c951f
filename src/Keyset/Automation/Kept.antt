-- ===== src/Keyset/Automation/Kept.antt =====
-- Every roll in progress has its reports (src/commands/keyset/cmd.rs), so that the
-- `expect("should not fail")` on them does not.
use dnst.Base.{
  ℕ, ◌≡◌, ◌≢◌, refl, Bool-cases, inl, inr, true, false, is_some, List, [], ◌∷◌, Result, ok, err,
  ◌==◌,
}
use dnst.Keyset.Types.{RollType, Action}
use dnst.Keyset.Workspace.{WorkSpace, KeySet}
use dnst.Keyset.Rrsets.{roll_code, get}
use dnst.Keyset.Automation.{Stop, no_reports_kept, modify}

module _ {K : Type 0} (lib : KeySet K) where
  -- No roll is in progress that was not in progress before.
  abbrev pub NoNew : K → K → Type 0
  NoNew k k' =
      (q : RollType)
      → is_some (get q (lib.rollstates k')) ≡ true
      → is_some (get q (lib.rollstates k)) ≡ true

  -- What the documentation of the key set says of the rolls in progress: the calls that
  -- move a roll on add none, and the end of a roll, when it answers, takes it away.
  pub record RollLaws : Type 0 where
    pub propagation1 :
        (k : K) (r : RollType) (ttl : ℕ) → NoNew k (lib.propagation1_complete k r ttl).1
    pub propagation2 :
        (k : K) (r : RollType) (ttl : ℕ) → NoNew k (lib.propagation2_complete k r ttl).1
    pub expired1 : (k : K) (r : RollType) → NoNew k (lib.cache_expired1 k r).1
    pub expired2 : (k : K) (r : RollType) → NoNew k (lib.cache_expired2 k r).1
    pub ended : (k : K) (r : RollType) → NoNew k (lib.roll_done k r).1
    pub gone :
        (k : K) (r : RollType) (actions : List Action)
        → (lib.roll_done k r).0 ≡ ok actions
        → is_some (get r (lib.rollstates (lib.roll_done k r).1)) ≡ false

  -- Every roll in progress has its reports.
  abbrev pub HasReports : {Name : Type 0} → WorkSpace K Name → Type 0
  HasReports ws =
      (q : RollType)
      → is_some (get q (lib.rollstates ws.state.keyset)) ≡ true
      → is_some (get q ws.state.internal) ≡ true

  -- An outcome with the reports kept, and which is not the panic for a lack of them.
  pub record Sound {Name : Type 0} (result : Result Stop (Unit {0})) (ws : WorkSpace K Name)
      : Type 0 where
    pub has_reports : HasReports ws
    pub no_panic : result ≢ err no_reports_kept

module _ {V : Type 0} where
  pub get-modify :
      (q r : RollType) (f : V → V) (m : List (RollType × V))
      → is_some (get q (modify r f m)) ≡ is_some (get q m)
  unfolding get modify
  get-modify q r f [] = refl
  get-modify q r f ((p, v) ∷ m) = elim (Bool-cases (roll_code p == roll_code r)) [
    | inl e ↦ elim (Bool-cases (roll_code p == roll_code q)) [
      | inl g ↦ rw (e, g) refl
      | inr g ↦ rw (e, g) refl
    ]
    | inr e ↦ elim (Bool-cases (roll_code p == roll_code q)) [
      | inl g ↦ rw (e, g) refl
      | inr g ↦ rw (e, g) (get-modify q r f m)
    ]
  ]
