-- ===== src/Keyset/Rolls/Commanded.antt =====
-- What a subcommand of a roll has done (src/commands/keyset/cmd.rs, roll_command).
use dnst.Base.{ℕ, String, ◌≡◌, ◌≢◌, sym, ap, ◌∙◌, true, none, List, [], Result, ok}
use dnst.Keyset.Types.{RollType, Action}
use dnst.Keyset.Workspace.{WorkSpace, KeySet, KeySetError}
use dnst.Keyset.Run.{Machine, >>=-eq-ok, on_space, on_space-eq-ok}
use dnst.Keyset.NewKeys.{Backend}
use dnst.Keyset.Rrsets.{KeyStore, handle_actions, do_done, get}
use dnst.Keyset.Rrsets.Done.{do_done-eq-ok}
use dnst.Keyset.Rolls.{
  RollVariant, RollCommands, start_roll, cache_expired1, cache_expired2, roll_done,
  propagation1_complete, propagation2_complete, roll_variant_to_roll, on_keyset, set_changed,
}
use dnst.Keyset.Rolls.Commands.{start, perform, roll_command}
use dnst.Keyset.Rolls.Started.{with_keyset, map_err-eq-ok, handled-Framed}
use dnst.Keyset.Rolls.Variants.{StartedFor, start-StartedFor}

-- The key set has answered with actions; its answer is the new key set. The actions were handled
-- with it, with success, and nothing changed after that but the mark that the state has changed. The
-- reports and the configuration are as they were.
pub record Answered {K Name W D : Type 0} (store : KeyStore D) (lib : KeySet K) (now : ℕ)
    (f : K → Result KeySetError (List Action) × K) (m m' : Machine K Name W) : Type 0 where
  pub actions : List Action
  pub answer : f m.space.state.keyset ≡ (ok actions, m'.space.state.keyset)
  pub acted : WorkSpace K Name
  pub handled :
      handle_actions store lib now actions (with_keyset m'.space.state.keyset m.space)
      ≡ (ok tt, acted)
  pub left : m'.space ≡ record acted { state_changed = true }
  pub internal : m'.space.state.internal ≡ m.space.state.internal
  pub config : m'.space.config ≡ m.space.config

module _ {S P W K Name D : Type 0} (backend : Backend S P W) (lib : KeySet K) (store : KeyStore D)
    (zone : String) (now : ℕ) where
  perform-Answered :
      (e : String) (f : K → Result KeySetError (List Action) × K) (m m' : Machine K Name W)
      → perform backend lib store zone now e f m ≡ (ok tt, m')
      → (m'.space.state_changed ≡ true) × Answered store lib now f m m'
  perform-Answered e f m m' h =
      let (actions, t, p, h1) = >>=-eq-ok (on_space (on_keyset e f)) _ h in
      let (_, s, q, h2) =
        >>=-eq-ok (on_space (handle_actions store lib now actions)) (λ _. on_space set_changed)
          h1 in
      let (asked, _) = on_space-eq-ok (on_keyset e f) m p in
      let (handled, _) = on_space-eq-ok (handle_actions store lib now actions) t q in
      let frame = handled-Framed store lib now actions t.space s.space handled in
      let changed = ap (λ x. x.1.space) h2 in
      let answered = map_err-eq-ok e (f m.space.state.keyset).0 (ap (λ x. x.0) asked) in
      let left = ap (λ x. x.1) asked in
      let asked_for =
        ap (λ ws. ws.state.keyset) left ∙ sym frame.keyset ∙ ap (λ ws. ws.state.keyset) changed in
      (
        ap (λ ws. ws.state_changed) (sym changed),
        record {
          actions = actions;
          answer = λ i. (answered i, asked_for i);
          acted = s.space;
          handled =
              ap (λ ws. handle_actions store lib now actions ws)
                (ap (λ k. with_keyset k m.space) (sym asked_for) ∙ left)
              ∙ handled;
          left = sym changed;
          internal =
              sym (ap (λ ws. ws.state.internal) changed)
              ∙ frame.internal
              ∙ sym (ap (λ ws. ws.state.internal) left);
          config =
              sym (ap (λ ws. ws.config) changed) ∙ frame.config ∙ sym (ap (λ ws. ws.config) left);
        },
      )

  -- What a subcommand does, for the roll that the configuration gives for its variant.
  abbrev pub Performed :
      RollCommands → RollVariant → RollType → Machine K Name W → Machine K Name W → Type 0
  Performed start_roll variant roll m m' =
      (actions : List Action) × ((n : Machine K Name W) × (StartedFor backend lib store zone now
            variant actions m n
          × (m'.space ≡ record n.space { state_changed = true })))
  Performed (propagation1_complete ttl) variant roll m m' =
      Answered store lib now (λ k. lib.propagation1_complete k roll ttl) m m'
  Performed cache_expired1 variant roll m m' =
      Answered store lib now (λ k. lib.cache_expired1 k roll) m m'
  Performed (propagation2_complete ttl) variant roll m m' =
      Answered store lib now (λ k. lib.propagation2_complete k roll ttl) m m'
  Performed cache_expired2 variant roll m m' =
      Answered store lib now (λ k. lib.cache_expired2 k roll) m m'
  Performed roll_done variant roll m m' =
      ((lib.roll_done m.space.state.keyset roll).0 ≡ ok [])
      × (m'.space.state.keyset ≡ (lib.roll_done m.space.state.keyset roll).1)
      × (get roll m'.space.state.internal ≡ none)
      × ((q : RollType) → q ≢ roll → get q m'.space.state.internal ≡ get q m.space.state.internal)
      × (m'.space.state.cds_rrset ≡ [])
      × (m'.space.state.dnskey_rrset ≡ m.space.state.dnskey_rrset)
      × (m'.space.state.ds_rrset ≡ m.space.state.ds_rrset)
      × (m'.space.config ≡ m.space.config)

  -- A subcommand that succeeds marks the state as changed and does its part. Starting a roll does
  -- what is said of a started roll. The subcommands for a completed propagation and for an expired
  -- cache give the key set's answer for the roll of the variant, handle its actions with success,
  -- and leave reports and configuration as they were. The end of a roll needs an answer with no
  -- actions left, takes over the key set of that answer, and removes the reports of that roll and the
  -- CDS records; the other reports and record sets and the configuration stay.
  pub roll_command-Performed :
      (cmd : RollCommands) (variant : RollVariant) (m m' : Machine K Name W)
      → roll_command backend lib store zone now cmd variant m ≡ (ok tt, m')
      → (m'.space.state_changed ≡ true)
        × Performed cmd variant (roll_variant_to_roll variant m.space.config) m m'
  unfolding roll_command
  roll_command-Performed start_roll variant m m' h =
      let (actions, t, p, q) =
        >>=-eq-ok (start backend lib store zone now variant) (λ _. on_space set_changed) h in
      let (started, _) = start-StartedFor backend lib store zone now variant m t actions p in
      let changed = ap (λ x. x.1.space) q in
      (ap (λ ws. ws.state_changed) (sym changed), (actions, (t, (started, sym changed))))
  roll_command-Performed (propagation1_complete ttl) variant m m' h =
      perform-Answered _ (λ k. lib.propagation1_complete k _ ttl) m m' h
  roll_command-Performed cache_expired1 variant m m' h =
      perform-Answered _ (λ k. lib.cache_expired1 k _) m m' h
  roll_command-Performed (propagation2_complete ttl) variant m m' h =
      perform-Answered _ (λ k. lib.propagation2_complete k _ ttl) m m' h
  roll_command-Performed cache_expired2 variant m m' h =
      perform-Answered _ (λ k. lib.cache_expired2 k _) m m' h
  roll_command-Performed roll_done variant m m' h =
      let roll = roll_variant_to_roll variant m.space.config in
      let (_, t, p, q) = >>=-eq-ok (on_space (do_done lib roll)) (λ _. on_space set_changed) h in
      let (done, _) = on_space-eq-ok (do_done lib roll) m p in
      let (answer, keyset, cds, gone, other, dnskeys, ds, config) =
        do_done-eq-ok lib roll m.space t.space done in
      let changed = ap (λ x. x.1.space) q in
      (
        ap (λ ws. ws.state_changed) (sym changed),
        (
          answer,
          ap (λ ws. ws.state.keyset) (sym changed) ∙ keyset,
          ap (λ ws. get roll ws.state.internal) (sym changed) ∙ gone,
          λ p n. ap (λ ws. get p ws.state.internal) (sym changed) ∙ other p n,
          ap (λ ws. ws.state.cds_rrset) (sym changed) ∙ cds,
          ap (λ ws. ws.state.dnskey_rrset) (sym changed) ∙ dnskeys,
          ap (λ ws. ws.state.ds_rrset) (sym changed) ∙ ds,
          ap (λ ws. ws.config) (sym changed) ∙ config,
        ),
      )
