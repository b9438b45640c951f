-- ===== src/Keyset/Propagation/Served.antt =====
-- What a report of the check of one address means (src/commands/keyset/cmd.rs).
use mathlib.Core.Path.{subst}
use dnst.Base.{
  ℕ, String, ◌≤◌, ◌≡◌, refl, sym, ap, ◌∙◌, inl, inr, ◌⊎◌, Bool, Bool-cases, true, false, Option,
  Option-cases, none, some, List, [], ◌∷◌, All, All-weaken, Some, max, if◌then◌else◌, arith,
}
use dnst.Keyset.Report.{AutoReportActionsResult, report, wait}
use dnst.Keyset.Propagation.{or_keep, take_target, after_take, check_records}

module _ {Seen Target : Type 0} (counts : Seen → Bool) (fits : Seen → Target → Bool)
    (seen_ttl : Seen → ℕ) (target_ttl : Target → ℕ) (now : ℕ) where
  -- A record of the answer is of no concern, or it fits a target and its TTL is within the limit.
  abbrev pub Expected : List Target → ℕ → Seen → Type 0
  Expected targets limit r =
      (counts r ≡ false) ⊎ (Some (λ t. fits r t ≡ true) targets × (seen_ttl r ≤ limit))

  -- A record of the answer that counts fits the target.
  abbrev pub Present : List Seen → Target → Type 0
  Present records t = Some (λ r. (counts r ≡ true) × (fits r t ≡ true)) records

  -- The answer is the target: nothing else counts, and nothing of it is missing.
  abbrev pub Matches : List Seen → List Target → ℕ → Type 0
  Matches records targets limit =
      All (Expected targets limit) records × All (Present records) targets

  -- What it means that a record took a target and left the rest.
  abbrev Taken : Seen → List Target → List Target → Type 1
  Taken r targets rest =
      Some (λ t. fits r t ≡ true) targets
      × (((P : Target → Type 0) → Some P rest → Some P targets)
          × ((P : Target → Type 0)
              → ((t : Target) → fits r t ≡ true → P t)
              → All P rest
              → All P targets))

  take_target-Taken :
      (r : Seen) (targets : List Target) {rest : List Target}
      → take_target fits r targets ≡ some rest
      → Taken r targets rest
  unfolding take_target
  take_target-Taken r [] h = cc
  take_target-Taken r (t ∷ targets) {rest} h = elim (Bool-cases (fits r t)) [
    | inl e ↦
        let same = some-eq (
          sym (ap (λ b. if b then some targets else or_keep t (take_target fits r targets)) e)
          ∙ h) in
        subst (Taken r (t ∷ targets)) same (inl e, (λ P s. inr s, λ P f all. (f t e, all)))
    | inr e ↦
        later t targets (take_target fits r targets) refl
          (sym (ap (λ b. if b then some targets else or_keep t (take_target fits r targets)) e) ∙ h)
          (λ more k. take_target-Taken r targets k)
  ]
    where
      some-eq : {x y : List Target} → ◌≡◌ {A = Option (List Target)} (some x) (some y) → x ≡ y
      some-eq k = cc

      widen :
          (t : Target) (targets more : List Target)
          → ((P : Target → Type 0) → Some P more → Some P targets)
          → (P : Target → Type 0) → Some P (t ∷ more)
          → Some P (t ∷ targets)
      widen t targets more any P (inl p) = inl p
      widen t targets more any P (inr s) = inr (any P s)

      later :
          (t : Target) (targets : List Target) (o : Option (List Target)) {rest : List Target}
          → take_target fits r targets ≡ o
          → or_keep t o ≡ some rest
          → ((more : List Target) → take_target fits r targets ≡ some more → Taken r targets more)
          → Taken r (t ∷ targets) rest
      later t targets none e k ih = cc
      later t targets (some more) e k ih =
          let (fit, (any, all)) = ih more e in
          subst (Taken r (t ∷ targets)) (some-eq k)
            (inr fit, (widen t targets more any, λ P f (p, ps). (p, all P f ps)))

  not_waiting : {until : ℕ} {notice : String} {ttl : ℕ} → ¬ (wait until notice ≡ report ttl)
  not_waiting h = cc

  report_lem : {x y : ℕ} → report x ≡ report y → x ≡ y
  report_lem h = cc

  Matches-skip :
      (max_ttl : ℕ) (r : Seen) (records : List Seen) (targets : List Target) (ttl : ℕ)
      → counts r ≡ false
      → (max_ttl ≤ ttl) × Matches records targets ttl
      → (max_ttl ≤ ttl) × Matches (r ∷ records) targets ttl
  Matches-skip max_ttl r records targets ttl e (le, (expected, present)) = (
    le,
    (
      (inl e, expected),
      All-weaken (Present records) (Present (r ∷ records)) targets (λ t s. inr s) present,
    ),
  )

  max_bounds : (a b c : ℕ) → max a b ≤ c → (a ≤ c) × (b ≤ c)
  max_bounds a b c h = (ground arith, ground arith)

  Matches-found :
      (max_ttl : ℕ) (r : Seen) (records : List Seen) (targets rest : List Target) (ttl : ℕ)
      → counts r ≡ true
      → Taken r targets rest
      → (max max_ttl (seen_ttl r) ≤ ttl) × Matches records rest ttl
      → (max_ttl ≤ ttl) × Matches (r ∷ records) targets ttl
  Matches-found max_ttl r records targets rest ttl e (fit, (any, all)) (le, (expected, present)) =
      let (le_max, le_seen) = max_bounds max_ttl (seen_ttl r) ttl le in
      (
        le_max,
        (
          (
            inr (fit, le_seen),
            All-weaken (Expected rest ttl) (Expected targets ttl) records widen expected,
          ),
          all (Present (r ∷ records)) (λ t f. inl (e, f))
              (All-weaken (Present records) (Present (r ∷ records)) rest (λ t s. inr s) present),
        ),
      )
    where
      widen : (x : Seen) → Expected rest ttl x → Expected targets ttl x
      widen x (inl f) = inl f
      widen x (inr (s, b)) = inr (any (λ t. fits x t ≡ true) s, b)

  -- The loop reports the maximum of the TTLs and only if the answer is the target.
  pub check_records-Matches :
      (max_ttl : ℕ) (records : List Seen) (targets : List Target) {ttl : ℕ}
      → check_records counts fits seen_ttl target_ttl now max_ttl records targets ≡ report ttl
      → (max_ttl ≤ ttl) × Matches records targets ttl
  unfolding check_records
  check_records-Matches max_ttl [] [] h = (omega (arith, report_lem h), (tt, tt))
  check_records-Matches max_ttl [] (t ∷ targets) h = cc
  check_records-Matches max_ttl (r ∷ records) targets {ttl} h =
      let next = λ (rest : List Target).
        check_records counts fits seen_ttl target_ttl now (max max_ttl (seen_ttl r)) records rest in
      let all = λ (b : Bool) (o : Option (List Target)). elim b as (λ b. AutoReportActionsResult) [
        | true ↦ after_take counts fits seen_ttl target_ttl now r o next
        | false ↦ check_records counts fits seen_ttl target_ttl now max_ttl records targets
      ] in
      elim (Bool-cases (counts r)) [
        | inl e ↦ elim (Option-cases (take_target fits r targets)) [
          | inl none_left ↦ absurd (
              not_waiting (
                sym
                  (ap (λ b. all b (take_target fits r targets)) e ∙ ap (λ o. all true o) none_left)
                ∙ h))
          | inr (rest, took) ↦
              Matches-found max_ttl r records targets rest ttl e (take_target-Taken r targets took)
                (check_records-Matches (max max_ttl (seen_ttl r)) records rest (
                  sym (ap (λ b. all b (take_target fits r targets)) e ∙ ap (λ o. all true o) took)
                  ∙ h))
        ]
        | inr e ↦ Matches-skip max_ttl r records targets ttl e (
            check_records-Matches max_ttl records targets
              (sym (ap (λ b. all b (take_target fits r targets)) e) ∙ h))
      ]

  -- A greater limit does as well.
  pub within :
      (low high : ℕ)
      → low ≤ high
      → (records : List Seen) (targets : List Target) → Matches records targets low
      → Matches records targets high
  within low high le records targets (expected, present) =
      (All-weaken (Expected targets low) (Expected targets high) records widen expected, present)
    where
      widen : (x : Seen) → Expected targets low x → Expected targets high x
      widen x (inl e) = inl e
      widen x (inr (s, b)) = inr (s, omega arith)
