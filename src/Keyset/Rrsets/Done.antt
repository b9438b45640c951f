-- ===== src/Keyset/Rrsets/Done.antt =====
-- What the end of a roll removes and what it keeps (src/commands/keyset/cmd.rs, do_done).
use dnst.Base.{
  ℕ, ◌≡◌, ◌≢◌, refl, sym, ap, ◌∙◌, none, List, [], ◌∷◌, Result, ok, err, if◌then◌else◌, ◌==◌, arith,
}
use dnst.Keyset.Types.{
  RollType, ksk_roll, ksk_double_ds_roll, zsk_roll, zsk_double_signature_roll, csk_roll,
  algorithm_roll, Action,
}
use dnst.Keyset.Workspace.{WorkSpace, KeySet, KeySetError}
use dnst.Keyset.Rrsets.{roll_code, get, remove, after_done, do_done}

abbrev from_code : ℕ → RollType
from_code n =
    if n == 0
    then ksk_roll
    else if n == 1
    then ksk_double_ds_roll
    else if n == 2
    then zsk_roll
    else if n == 3
    then zsk_double_signature_roll
    else if n == 4
    then csk_roll
    else algorithm_roll

from_code-roll_code : (r : RollType) → from_code (roll_code r) ≡ r
from_code-roll_code ksk_roll = refl
from_code-roll_code ksk_double_ds_roll = refl
from_code-roll_code zsk_roll = refl
from_code-roll_code zsk_double_signature_roll = refl
from_code-roll_code csk_roll = refl
from_code-roll_code algorithm_roll = refl

pub roll_code-eq : (q r : RollType) → roll_code q ≡ roll_code r → q ≡ r
roll_code-eq q r h = sym (from_code-roll_code q) ∙ ap from_code h ∙ from_code-roll_code r

module _ {V : Type 0} where
  get-remove : (r : RollType) (m : List (RollType × V)) → get r (remove r m) ≡ none
  unfolding get remove
  get-remove r [] = refl
  get-remove r ((q, v) ∷ m) = ground (arith, get-remove r m)

  pub get-remove_other :
      (q r : RollType) (m : List (RollType × V)) → q ≢ r → get q (remove r m) ≡ get q m
  unfolding get remove
  get-remove_other q r [] h = refl
  get-remove_other q r ((p, v) ∷ m) h =
      ground (arith, get-remove_other q r m h, roll_code-eq p r, roll_code-eq p q)

after_done-eq-ok :
    {K Name : Type 0} (lib : KeySet K) (r : RollType) (ws' : WorkSpace K Name)
    (result : Result KeySetError (List Action)) (start : WorkSpace K Name)
    → after_done lib r result start ≡ (ok tt, ws')
    → (result ≡ ok [])
      × (ws' ≡ record start {
        state = record start.state { cds_rrset = []; internal = remove r start.state.internal };
      })
after_done-eq-ok lib r ws' (err e) start h = absurd (ground arith)
after_done-eq-ok lib r ws' (ok []) start h = (refl, ground arith)
after_done-eq-ok lib r ws' (ok (a ∷ actions)) start h = absurd (ground arith)

module _ {K Name : Type 0} (lib : KeySet K) (r : RollType) (ws ws' : WorkSpace K Name) where
  -- The end of a roll succeeds only if the key set reports it as done with no actions left. It
  -- then removes the CDS records and the reports of that roll; the reports of any other roll, the
  -- DNSKEY and DS record sets and the configuration are as they were.
  pub do_done-eq-ok :
      do_done lib r ws ≡ (ok tt, ws')
      → ((lib.roll_done ws.state.keyset r).0 ≡ ok [])
        × (ws'.state.keyset ≡ (lib.roll_done ws.state.keyset r).1)
        × (ws'.state.cds_rrset ≡ [])
        × (get r ws'.state.internal ≡ none)
        × ((q : RollType) → q ≢ r → get q ws'.state.internal ≡ get q ws.state.internal)
        × (ws'.state.dnskey_rrset ≡ ws.state.dnskey_rrset)
        × (ws'.state.ds_rrset ≡ ws.state.ds_rrset)
        × (ws'.config ≡ ws.config)
  unfolding do_done
  do_done-eq-ok h =
      let done = lib.roll_done ws.state.keyset r in
      let (p, q) =
        after_done-eq-ok lib r ws' done.0
          (record ws { state = record ws.state { keyset = done.1 } }) h in
      let left = get-remove r ws.state.internal in
      (
        p,
        ground arith,
        ground arith,
        rw (q, left) refl,
        λ o n. rw q (get-remove_other o r ws.state.internal n),
        ground arith,
        ground arith,
        ground arith,
      )
