-- ===== src/Keyset/Rolls/Started.antt =====
-- What a started roll has done (src/commands/keyset/cmd.rs).
use mathlib.Core.Path.{subst}
use dnst.Base.{
  ℕ, String, ◌≡◌, ◌≢◌, refl, sym, ap, ◌∙◌, false, some, List, Result, ok, err, any, arith,
}
use dnst.Keyset.Types.{RollType, Action}
use dnst.Keyset.Workspace.{WorkSpace, KeySet, KeySetError}
use dnst.Keyset.Run.{Machine, >>=-eq-ok, return, fail, on_space, on_space-eq-ok}
use dnst.Keyset.NewKeys.{Backend}
use dnst.Keyset.Rrsets.{KeyStore, handle_actions, insert, get}
use dnst.Keyset.Rrsets.Frame.{Framed, writes_dnskey, writes_cds, writes_ds, handle_actions-Framed}
use dnst.Keyset.Rrsets.Done.{get-remove_other, roll_code-eq}
use dnst.Keyset.Rolls.{map_err, insert_reports, no_reports}
use dnst.Keyset.Rolls.Commands.{remove_keys, after_start, begin_roll}

module _ {V : Type 0} where
  get-insert : (r : RollType) (v : V) (m : List (RollType × V)) → get r (insert r v m) ≡ some v
  unfolding get insert
  get-insert r v m = ground arith

  get-insert_other :
      (q r : RollType) (v : V) (m : List (RollType × V)) → q ≢ r → get q (insert r v m) ≡ get q m
  unfolding get insert
  get-insert_other q r v m h = ground (arith, get-remove_other q r m h, roll_code-eq r q)

abbrev pub with_keyset : {K Name : Type 0} → K → WorkSpace K Name → WorkSpace K Name
with_keyset keyset ws = record ws { state = record ws.state { keyset = keyset } }

pub map_err-eq-ok :
    {A : Type 0} (e : String) (r : Result KeySetError A) {a : A} → map_err e r ≡ ok a → r ≡ ok a
map_err-eq-ok e (err x) h = absurd (ground arith)
map_err-eq-ok e (ok a) h = ground arith

-- The key set has been asked to start the roll and has given these actions; its answer is the
-- new key set. The actions were then handled with it, which gave `acted`, and nothing after that but
-- the reports is new. The roll has fresh reports and any other roll has those it had. The
-- configuration is as it was, and so are the record sets that no action writes.
pub record Started {K Name D : Type 0} (store : KeyStore D) (lib : KeySet K) (now : ℕ)
    (roll : RollType) (old new : List String) (actions : List Action) (keyset : K)
    (ws ws' : WorkSpace K Name) : Type 0 where
  pub answer : lib.start_roll keyset roll old new ≡ (ok actions, ws'.state.keyset)
  pub acted : WorkSpace K Name
  pub handled :
      handle_actions store lib now actions (with_keyset ws'.state.keyset ws) ≡ (ok tt, acted)
  pub left : ws' ≡ record acted { state = record acted.state { internal = ws'.state.internal } }
  pub reports : get roll ws'.state.internal ≡ some no_reports
  pub other : (q : RollType) → q ≢ roll → get q ws'.state.internal ≡ get q ws.state.internal
  pub config : ws'.config ≡ ws.config
  pub dnskey_rrset :
      any writes_dnskey actions ≡ false → ws'.state.dnskey_rrset ≡ ws.state.dnskey_rrset
  pub cds_rrset : any writes_cds actions ≡ false → ws'.state.cds_rrset ≡ ws.state.cds_rrset
  pub ds_rrset : any writes_ds actions ≡ false → ws'.state.ds_rrset ≡ ws.state.ds_rrset

pub handled-Framed :
    {K Name D : Type 0} (store : KeyStore D) (lib : KeySet K) (now : ℕ) (actions : List Action)
    (ws ws' : WorkSpace K Name)
    → handle_actions store lib now actions ws ≡ (ok tt, ws')
    → Framed
        (any writes_dnskey actions)
        (any writes_cds actions)
        (any writes_ds actions)
        ws
        (ok tt)
        ws'
handled-Framed store lib now actions ws ws' h =
    subst
      (λ x.
        Framed (any writes_dnskey actions) (any writes_cds actions) (any writes_ds actions) ws x.0
          x.1)
      h (handle_actions-Framed store lib now actions ws)

module _ {S P W K Name D : Type 0} (backend : Backend S P W) (lib : KeySet K) (store : KeyStore D)
    (zone : String) (now : ℕ) where
  after_start-eq-ok :
      (roll : RollType) (urls : List String) (r : Result String (List Action))
      (m m' : Machine K Name W) (actions : List Action)
      → after_start backend lib store zone now roll urls r m ≡ (ok actions, m')
      → (r ≡ ok actions)
        × ((ws : WorkSpace K Name) × (handle_actions store lib now actions m.space ≡ (ok tt, ws))
            × ((insert_reports roll ws).1 ≡ m'.space))
  unfolding after_start
  after_start-eq-ok roll urls (err e) m m' actions h =
      let (_, _, _, k) = >>=-eq-ok (remove_keys backend lib store zone now urls) (λ _. fail e) h in
      absurd (ground arith)
  after_start-eq-ok roll urls (ok made) m m' actions h =
      let (u, t, e, k) = >>=-eq-ok (on_space (handle_actions store lib now made)) _ h in
      let (v, s, f, g) = >>=-eq-ok (on_space (insert_reports roll)) (λ _. return made) k in
      let (handled, _) = on_space-eq-ok (handle_actions store lib now made) m e in
      let (inserted, _) = on_space-eq-ok (insert_reports roll) t f in
      let p : made ≡ actions = ground arith in
      let q : s ≡ m' = ground arith in
      (
        ap ok p,
        (
          t.space,
          subst (λ x. handle_actions store lib now x m.space ≡ (ok tt, t.space)) p handled,
          ap (λ x. x.1) inserted ∙ ap (λ x. x.space) q,
        ),
      )

  pub begin_roll-Started :
      (roll : RollType) (old new urls : List String) (m m' : Machine K Name W)
      (actions : List Action)
      → begin_roll backend lib store zone now roll old new urls m ≡ (ok actions, m')
      → Started store lib now roll old new actions m.space.state.keyset m.space m'.space
  unfolding begin_roll
  begin_roll-Started roll old new urls m m' actions h =
      let asked = lib.start_roll m.space.state.keyset roll old new in
      let mid = record m { space = with_keyset asked.1 m.space } in
      let (r, (ws, e, f)) =
        after_start-eq-ok roll urls (map_err "cannot start roll" asked.0) mid m' actions h in
      let frame = handled-Framed store lib now actions mid.space ws e in
      let p = map_err-eq-ok "cannot start roll" asked.0 r in
      let q = frame.keyset in
      rw (sym f) (record {
        answer = λ i. (p i, sym q i);
        acted = ws;
        handled =
            subst (λ k. handle_actions store lib now actions (with_keyset k m.space) ≡ (ok tt, ws))
              (sym q) e;
        left = refl;
        reports = get-insert roll no_reports ws.state.internal;
        other = λ o n.
            get-insert_other o roll no_reports ws.state.internal n ∙ ap (get o) frame.internal;
        config = frame.config;
        dnskey_rrset = frame.dnskey_rrset;
        cds_rrset = frame.cds_rrset;
        ds_rrset = frame.ds_rrset;
      })
