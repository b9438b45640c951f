-- ===== src/Keyset/Rolls/Variants.antt =====
-- The start of a roll, for each variant (src/commands/keyset/cmd.rs).
use dnst.Base.{ℕ, String, ◌≡◌, refl, Bool, true, false, not, List, [], ◌∷◌, ok, any, arith}
use dnst.Keyset.Types.{RollType, Action, Key}
use dnst.Keyset.Workspace.{KeySet}
use dnst.Keyset.Run.{Machine, Run, ◌>>=◌, >>=-eq-ok}
use dnst.Keyset.NewKeys.{Backend, NewKey}
use dnst.Keyset.Rrsets.{KeyStore}
use dnst.Keyset.Rolls.{
  RollVariant, ksk_variant, zsk_variant, csk_variant, algorithm_variant, ksk_roll_of, zsk_roll_of,
  roll_variant_to_roll, csk_in_use, ksk_in_use, zsk_in_use, key_in_use, names_of, is_empty, require,
  split_guards,
}
use dnst.Keyset.Rolls.Commands.{
  new_csk_or_ksk_zsk, begin_roll, begin_ksk_roll, begin_zsk_roll, begin_full_roll, start_ksk_roll,
  start_zsk_roll, start_csk_roll, start_algorithm_roll, start,
}
use dnst.Keyset.Rolls.Added.{
  KeysOnly, Started-after, as_ksk, as_zsk, AddedKey, make_and_add, AddedAll, AddedAll-KeysOnly,
  csk_or_ksk_zsk-AddedAll,
}
use dnst.Keyset.Rolls.Started.{Started, begin_roll-Started}

-- The keys that a roll replaces: those in use, of the type that the variant names.
abbrev pub old_names : RollVariant → List (String × Key) → List String
old_names ksk_variant keys = names_of ksk_in_use keys
old_names zsk_variant keys = names_of zsk_in_use keys
old_names csk_variant keys = names_of key_in_use keys
old_names algorithm_variant keys = names_of key_in_use keys

-- The variants that roll keys of one type.
abbrev pub is_split : RollVariant → Bool
is_split ksk_variant = true
is_split zsk_variant = true
is_split csk_variant = false
is_split algorithm_variant = false

module _ {S P W K Name D : Type 0} (backend : Backend S P W) (lib : KeySet K) (store : KeyStore D)
    (zone : String) (now : ℕ) where
  -- The new keys of each variant, added to the key set as keys of its type, with their names.
  abbrev pub AddedFor : RollVariant → List String → Machine K Name W → Machine K Name W → Type 0
  AddedFor ksk_variant names m n =
      (key : NewKey) × ((names ≡ key.0 ∷ [])
        × AddedKey backend lib zone true (as_ksk lib now) key m n)
  AddedFor zsk_variant names m n =
      (key : NewKey) × ((names ≡ key.0 ∷ [])
        × AddedKey backend lib zone false (as_zsk lib now) key m n)
  AddedFor csk_variant names m n = AddedAll backend lib zone now m.space.config.use_csk names m n
  AddedFor algorithm_variant names m n =
      AddedAll backend lib zone now m.space.config.use_csk names m n

  AddedFor-KeysOnly :
      (variant : RollVariant) (names : List String) (m n : Machine K Name W)
      → AddedFor variant names m n
      → KeysOnly m.space n.space
  AddedFor-KeysOnly ksk_variant names m n (_, (_, a)) = a.only
  AddedFor-KeysOnly zsk_variant names m n (_, (_, a)) = a.only
  AddedFor-KeysOnly csk_variant names m n a =
      AddedAll-KeysOnly backend lib zone now m.space.config.use_csk names m n a
  AddedFor-KeysOnly algorithm_variant names m n a =
      AddedAll-KeysOnly backend lib zone now m.space.config.use_csk names m n a

  -- A started roll of a variant, for the machine it started from: `n` is that with the new keys.
  abbrev pub StartedFor : RollVariant → List Action → Machine K Name W → Machine K Name W → Type 0
  StartedFor variant actions m m' =
      (names : List String) × ((n : Machine K Name W) × (AddedFor variant names m n
          × Started store lib now (roll_variant_to_roll variant m.space.config)
              (old_names variant (lib.keys m.space.state.keyset)) names actions n.space.state.keyset
              m.space m'.space))

  begun :
      (variant : RollVariant) (names urls : List String) (m n m' : Machine K Name W)
      (actions : List Action)
      → AddedFor variant names m n
      → begin_roll backend lib store zone now
          (roll_variant_to_roll variant m.space.config)
          (old_names variant (lib.keys m.space.state.keyset))
          names
          urls
          n
        ≡ (ok actions, m')
      → StartedFor variant actions m m'
  begun variant names urls m n m' actions added h = (
    names,
    (
      n,
      (
        added,
        Started-after store lib now m.space n.space m'.space
            (AddedFor-KeysOnly variant names m n added)
            (begin_roll-Started backend lib store zone now
              (roll_variant_to_roll variant m.space.config)
              (old_names variant (lib.keys m.space.state.keyset)) names urls n m' actions h),
      ),
    ),
  )

  -- The rest of a function after its guards.
  guarded :
      (b : Bool) (e : String) {B : Type 0} (f : Run (Machine K Name W) B) (m : Machine K Name W)
      {m' : Machine K Name W} {x : B}
      → (require b e >>= λ _. f) m ≡ (ok x, m')
      → f m ≡ (ok x, m')
  guarded true e f m h = h
  guarded false e f m h = absurd (ground arith)

  split_guarded :
      (no_keys use_csk found_csk : Bool) {B : Type 0} (f : Run (Machine K Name W) B)
      (m : Machine K Name W) {m' : Machine K Name W} {x : B}
      → (split_guards no_keys use_csk found_csk >>= λ _. f) m ≡ (ok x, m')
      → (use_csk ≡ false) × (found_csk ≡ false) × (f m ≡ (ok x, m'))
  split_guarded true use_csk found_csk f m h = absurd (ground arith)
  split_guarded false true found_csk f m h = absurd (ground arith)
  split_guarded false false true f m h = absurd (ground arith)
  split_guarded false false false f m h = (refl, refl, h)

  begin_ksk_roll-StartedFor :
      (m m' : Machine K Name W) (actions : List Action)
      → begin_ksk_roll backend lib store zone now m m ≡ (ok actions, m')
      → StartedFor ksk_variant actions m m'
  unfolding begin_ksk_roll
  begin_ksk_roll-StartedFor m m' actions h =
      let ((url, priv, alg, tag), (n, a, k)) =
        make_and_add backend lib zone true "unable to add KSK" (as_ksk lib now)
          (λ (url, priv, _, _) _.
            begin_roll backend lib store zone now (ksk_roll_of m.space.config.ksk_roll_type)
              (names_of ksk_in_use (lib.keys m.space.state.keyset)) (url ∷ []) (priv ∷ url ∷ []))
          m h in
      begun ksk_variant (url ∷ []) (priv ∷ url ∷ []) m n m' actions
        ((url, priv, alg, tag), (refl, a)) k

  begin_zsk_roll-StartedFor :
      (m m' : Machine K Name W) (actions : List Action)
      → begin_zsk_roll backend lib store zone now m m ≡ (ok actions, m')
      → StartedFor zsk_variant actions m m'
  unfolding begin_zsk_roll
  begin_zsk_roll-StartedFor m m' actions h =
      let ((url, priv, alg, tag), (n, a, k)) =
        make_and_add backend lib zone false "unable to add ZSK" (as_zsk lib now)
          (λ (url, priv, _, _) _.
            begin_roll backend lib store zone now (zsk_roll_of m.space.config.zsk_roll_type)
              (names_of zsk_in_use (lib.keys m.space.state.keyset)) (url ∷ []) (priv ∷ url ∷ []))
          m h in
      begun zsk_variant (url ∷ []) (priv ∷ url ∷ []) m n m' actions
        ((url, priv, alg, tag), (refl, a)) k

  -- What the two rolls of all keys begin with.
  made_all :
      (roll : RollType) (m m' : Machine K Name W) (actions : List Action)
      → begin_full_roll backend lib store zone now roll m m ≡ (ok actions, m')
      → (names : List String) × ((urls : List String) × ((n : Machine K Name W) × (AddedAll backend
                lib zone now m.space.config.use_csk names m n
              × (begin_roll backend lib store zone now roll
                    (names_of key_in_use (lib.keys m.space.state.keyset))
                    names
                    urls
                    n
                  ≡ (ok actions, m')))))
  unfolding begin_full_roll new_csk_or_ksk_zsk
  made_all roll m m' actions h =
      let ((names, urls), n, e, k) =
        >>=-eq-ok (new_csk_or_ksk_zsk backend lib store zone now) _ h in
      (
        names,
        (
          urls,
          (n, (csk_or_ksk_zsk-AddedAll backend lib store zone now m.space.config.use_csk m n e, k)),
        ),
      )

  -- A roll that is started, of any of the four variants, is the one that the other subcommands of
  -- the same variant act on. Its new keys are those that new_keys made and that were added to the
  -- key set: a KSK for a KSK roll, a ZSK for a ZSK roll, and otherwise a CSK if the configuration
  -- asks for it, or a KSK and a ZSK. The key set with these keys was asked to start the roll, with
  -- their names in place of all the keys in use of the types that the variant names, and answered
  -- with the actions and with the new key set. These actions were then handled with success, and
  -- nothing changed after that but the reports: the roll has fresh ones and any other roll has those
  -- it had. The configuration is as it was, and so is each of the DNSKEY, CDS and DS record sets that
  -- no action writes. A KSK or ZSK roll is started only if the configuration asks for no CSK and no
  -- CSK is in use.
  pub start-StartedFor :
      (variant : RollVariant) (m m' : Machine K Name W) (actions : List Action)
      → start backend lib store zone now variant m ≡ (ok actions, m')
      → StartedFor variant actions m m'
        × (is_split variant ≡ true
            → (m.space.config.use_csk ≡ false)
              × (any csk_in_use (lib.keys m.space.state.keyset) ≡ false))
  unfolding start start_ksk_roll start_zsk_roll start_csk_roll start_algorithm_roll
  start-StartedFor ksk_variant m m' actions h =
      let (c, f, k) =
        split_guarded (is_empty (lib.keys m.space.state.keyset)) m.space.config.use_csk
          (any csk_in_use (lib.keys m.space.state.keyset))
          (begin_ksk_roll backend lib store zone now m) m h in
      (begin_ksk_roll-StartedFor m m' actions k, λ _. (c, f))
  start-StartedFor zsk_variant m m' actions h =
      let (c, f, k) =
        split_guarded (is_empty (lib.keys m.space.state.keyset)) m.space.config.use_csk
          (any csk_in_use (lib.keys m.space.state.keyset))
          (begin_zsk_roll backend lib store zone now m) m h in
      (begin_zsk_roll-StartedFor m m' actions k, λ _. (c, f))
  start-StartedFor csk_variant m m' actions h =
      let k =
        guarded (not (is_empty (lib.keys m.space.state.keyset))) "assertion failed: no keys"
          (begin_full_roll backend lib store zone now RollType.csk_roll m) m h in
      let (names, (urls, (n, (added, g)))) = made_all RollType.csk_roll m m' actions k in
      (begun csk_variant names urls m n m' actions added g, λ b. absurd (ground arith))
  start-StartedFor algorithm_variant m m' actions h =
      let k =
        guarded (not (is_empty (lib.keys m.space.state.keyset))) "assertion failed: no keys"
          (begin_full_roll backend lib store zone now RollType.algorithm_roll m) m h in
      let (names, (urls, (n, (added, g)))) = made_all RollType.algorithm_roll m m' actions k in
      (begun algorithm_variant names urls m n m' actions added g, λ b. absurd (ground arith))
