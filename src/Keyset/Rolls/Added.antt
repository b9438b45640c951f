-- ===== src/Keyset/Rolls/Added.antt =====
-- What the new keys of a roll change in the work space: nothing but the key set
-- (src/commands/keyset/cmd.rs, new_keys and new_csk_or_ksk_zsk).
use mathlib.Core.Path.{subst}
use dnst.Base.{
  ℕ, String, ◌≡◌, sym, ap, ◌∙◌, Bool, true, false, some, List, [], ◌∷◌, Result, ok, ok-eq, arith,
}
use dnst.Keyset.Types.{RollType, Action}
use dnst.Keyset.Workspace.{WorkSpace, KeySet, KeySetError}
use dnst.Keyset.Run.{Machine, Run, ◌>>=◌, >>=-eq-ok, return, on_space, on_space-eq-ok}
use dnst.Keyset.NewKeys.{Backend, NewKey, new_keys}
use dnst.Keyset.NewKeys.Draw.{new_keys-eq-ok}
use dnst.Keyset.Rrsets.{KeyStore, handle_actions, get}
use dnst.Keyset.Rolls.{require, on_keyset}
use dnst.Keyset.Rolls.Commands.{csk_or_ksk_zsk}
use dnst.Keyset.Rolls.Started.{Started, with_keyset, map_err-eq-ok}

-- Nothing but the key set differs.
abbrev pub KeysOnly : {K Name : Type 0} → WorkSpace K Name → WorkSpace K Name → Type 0
KeysOnly ws ws' = ws' ≡ record ws { state = record ws.state { keyset = ws'.state.keyset } }

KeysOnly-trans :
    {K Name : Type 0} (a b c : WorkSpace K Name) → KeysOnly a b → KeysOnly b c → KeysOnly a c
KeysOnly-trans {K = K} {Name = Name} a b c h g =
    g
    ∙ ap {A = WorkSpace K Name}
        (λ ws. record ws { state = record ws.state { keyset = c.state.keyset } }) h

require-eq-ok :
    {S : Type 0} (b : Bool) (e : String) {u : Unit {0}} {s s' : S}
    → require b e s ≡ (ok u, s')
    → s' ≡ s
require-eq-ok true e h = ground arith
require-eq-ok false e h = absurd (ground arith)

on_keyset-KeysOnly :
    {K Name A : Type 0} (e : String) (f : K → Result KeySetError A × K) (ws : WorkSpace K Name)
    {ws' : WorkSpace K Name} {a : A}
    → on_keyset e f ws ≡ (ok a, ws')
    → KeysOnly ws ws'
on_keyset-KeysOnly e f ws {ws' = ws'} h =
    let p = sym (ap (λ x. x.1) h) in
    p
    ∙ ap (λ k. record ws { state = record ws.state { keyset = k } })
        (sym (ap (λ ws. ws.state.keyset) p))

pub on_keyset-eq-ok :
    {K Name A : Type 0} (e : String) (f : K → Result KeySetError A × K) (ws : WorkSpace K Name)
    {ws' : WorkSpace K Name} {a : A}
    → on_keyset e f ws ≡ (ok a, ws')
    → f ws.state.keyset ≡ (ok a, ws'.state.keyset)
on_keyset-eq-ok e f ws h i =
    (map_err-eq-ok e (f ws.state.keyset).0 (ap (λ x. x.0) h) i, ap (λ x. x.1.state.keyset) h i)

pub Started-after :
    {K Name D : Type 0} (store : KeyStore D) (lib : KeySet K) (now : ℕ) {roll : RollType}
    {old new : List String} {actions : List Action} {keyset : K} (a b c : WorkSpace K Name)
    → KeysOnly a b
    → Started store lib now roll old new actions keyset b c
    → Started store lib now roll old new actions keyset a c
Started-after store lib now {actions = actions} a b c h s = record {
  answer = s.answer;
  acted = s.acted;
  handled =
      ap (λ ws. handle_actions store lib now actions (with_keyset c.state.keyset ws)) (sym h)
      ∙ s.handled;
  left = s.left;
  reports = s.reports;
  other = λ q n. s.other q n ∙ ap (λ ws. get q ws.state.internal) h;
  config = s.config ∙ ap (λ ws. ws.config) h;
  dnskey_rrset = λ n. s.dnskey_rrset n ∙ ap (λ ws. ws.state.dnskey_rrset) h;
  cds_rrset = λ n. s.cds_rrset n ∙ ap (λ ws. ws.state.cds_rrset) h;
  ds_rrset = λ n. s.ds_rrset n ∙ ap (λ ws. ws.state.ds_rrset) h;
}

-- Adding a new key to the key set, as a key of one of the types.
abbrev pub Adding : Type 0 → Type 0
Adding K = K → NewKey → Result KeySetError (Unit {0}) × K

module _ {K : Type 0} (lib : KeySet K) (now : ℕ) where
  abbrev pub as_ksk : Adding K
  as_ksk k (url, priv, alg, tag) = lib.add_key_ksk k url (some priv) alg tag now

  abbrev pub as_zsk : Adding K
  as_zsk k (url, priv, alg, tag) = lib.add_key_zsk k url (some priv) alg tag now

  abbrev pub as_csk : Adding K
  as_csk k (url, priv, alg, tag) = lib.add_key_csk k url (some priv) alg tag now

module _ {S P W K Name : Type 0} (backend : Backend S P W) (lib : KeySet K) (zone : String) where
  -- `new_keys` has made this key, and it has been added to the key set. Nothing else in the work
  -- space differs.
  pub record AddedKey (make_ksk : Bool) (add : Adding K) (key : NewKey) (m n : Machine K Name W)
      : Type 0 where
    pub made : Machine K Name W
    pub new : new_keys backend lib zone make_ksk m ≡ (ok key, made)
    pub added : add m.space.state.keyset key ≡ (ok tt, n.space.state.keyset)
    pub only : KeysOnly m.space n.space
    pub world : n.world ≡ made.world

  -- A new key that is added to the key set.
  pub make_and_add :
      (make_ksk : Bool) (e : String) (add : Adding K) {B : Type 0}
      (f : NewKey → Unit {0} → Run (Machine K Name W) B) (m : Machine K Name W)
      {m' : Machine K Name W} {b : B}
      → (new_keys backend lib zone make_ksk >>= λ key.
            on_space (on_keyset e (λ k. add k key)) >>= f key)
          m
        ≡ (ok b, m')
      → (key : NewKey) × ((n : Machine K Name W) × AddedKey make_ksk add key m n
          × (f key tt n ≡ (ok b, m')))
  make_and_add make_ksk e add f m h =
      let (key, m1, p, h1) = >>=-eq-ok (new_keys backend lib zone make_ksk) _ h in
      let (u, m2, q, h2) = >>=-eq-ok (on_space (on_keyset e (λ k. add k key))) (f key) h1 in
      let (done, kept) = on_space-eq-ok (on_keyset e (λ k. add k key)) m1 q in
      let (same, _) = new_keys-eq-ok backend lib zone make_ksk m p in
      (
        key,
        (
          m2,
          record {
            made = m1;
            new = p;
            added =
                ap (λ ws. add ws.state.keyset key) (sym same)
                ∙ on_keyset-eq-ok e (λ k. add k key) m1.space done;
            only =
                subst (λ ws. KeysOnly ws m2.space) same
                  (on_keyset-KeysOnly e (λ k. add k key) m1.space done);
            world = kept;
          },
          h2,
        ),
      )

  -- The new keys of a roll of all keys: a CSK, or a KSK and a ZSK, with their names.
  abbrev pub AddedAll : ℕ → Bool → List String → Machine K Name W → Machine K Name W → Type 0
  AddedAll now true names m n =
      (key : NewKey) × ((names ≡ key.0 ∷ []) × AddedKey true (as_csk lib now) key m n)
  AddedAll now false names m n =
      (k : NewKey) × ((z : NewKey) × ((t : Machine K Name W) × ((names ≡ k.0 ∷ z.0 ∷ [])
            × AddedKey true (as_ksk lib now) k m t
            × AddedKey false (as_zsk lib now) z t n)))

  pub AddedAll-KeysOnly :
      (now : ℕ) (use_csk : Bool) (names : List String) (m n : Machine K Name W)
      → AddedAll now use_csk names m n
      → KeysOnly m.space n.space
  AddedAll-KeysOnly now true names m n (_, (_, a)) = a.only
  AddedAll-KeysOnly now false names m n (_, (_, (t, (_, a, b)))) =
      KeysOnly-trans m.space t.space n.space a.only b.only

module _ {S P W K Name D : Type 0} (backend : Backend S P W) (lib : KeySet K) (store : KeyStore D)
    (zone : String) (now : ℕ) where
  pub csk_or_ksk_zsk-AddedAll :
      (use_csk : Bool) (m m' : Machine K Name W) {names : List String × List String}
      → csk_or_ksk_zsk backend lib store zone now use_csk m ≡ (ok names, m')
      → AddedAll backend lib zone now use_csk names.0 m m'
  unfolding csk_or_ksk_zsk
  csk_or_ksk_zsk-AddedAll true m m' h =
      let (key, (n, a, k)) =
        make_and_add backend lib zone true "unable to add CSK" (as_csk lib now)
          (λ (url, priv, alg, tag) _. return (url ∷ [], priv ∷ url ∷ [])) m h in
      (
        key,
        (
          sym (ap (λ x. x.0) (ok-eq (ap (λ x. x.0) k))),
          subst (AddedKey backend lib zone true (as_csk lib now) key m) (ap (λ x. x.1) k) a,
        ),
      )
  csk_or_ksk_zsk-AddedAll false m m' h =
      let ((url, priv, alg, tag), (n, a, k)) =
        make_and_add backend lib zone true "unable to add KSK" (as_ksk lib now) _ m h in
      let (z, (o, b, l)) =
        make_and_add backend lib zone false "unable to add ZSK" (as_zsk lib now) _ n k in
      (
        (url, priv, alg, tag),
        (
          z,
          (
            n,
            (
              sym (ap (λ x. x.0) (ok-eq (ap (λ x. x.0) l))),
              a,
              subst (AddedKey backend lib zone false (as_zsk lib now) z n) (ap (λ x. x.1) l) b,
            ),
          ),
        ),
      )
