-- ===== src/Keyset/Cron/Early.antt =====
-- The parts of the subcommand `cron` before the times that are planned for them (src/commands/keyset/cmd.rs).
use mathlib.Core.Path.{subst}
use dnst.Base.{
  ℕ, ◌<◌, String, ◌≡◌, refl, sym, ap, false, Option, none, some, List, [], ◌∷◌, ok, >>=-eq-ok,
  ok-eq, All, arith,
}
use dnst.Keyset.Types.{RollType, Key}
use dnst.Keyset.Workspace.{WorkSpace, KeySetState, KeySet, AutoConfig}
use dnst.Keyset.Run.{Machine, Method, Run, next_run, ◌>>=◌, on_space}
use dnst.Keyset.AutoStart.Laws.{before}
use dnst.Keyset.AutoStart.Early.{Later, All-append}
use dnst.Keyset.Renewal.{Zonefile, sig_renew, compute_cron_next}
use dnst.Keyset.Renewal.Laws.{AsIs, sig_renew-compute_cron_next}
use dnst.Keyset.Automation.{or_stop, stopping}
use dnst.Keyset.Automation.Planned.{
  plan_if, plan_each, plan_report, plan_expire, plan_done, cron_next_auto_report_expire_done,
}
use dnst.Keyset.Cron.{renew_if}
use dnst.Keyset.Cron.Due.{removable_from, if_past, removals, cons_time, removal_times}

module _ {E S B : Type 0} where
  -- A step that does nothing before the rest.
  pub then_rest :
      (m : Method E S (Unit {0})) (f : Unit {0} → Method E S B) (s : S)
      → m s ≡ (ok tt, s)
      → (m >>= f) s ≡ f tt s
  then_rest m f s h = ap (λ r. next_run f r) h

module _ {E S : Type 0} (f1 f2 f3 f4 f5 f6 f7 f8 : Method E S (Unit {0})) (s : S) where
  -- Eight steps that do nothing, one after the other.
  pub eight_early :
      f1 s ≡ (ok tt, s)
      → f2 s ≡ (ok tt, s)
      → f3 s ≡ (ok tt, s)
      → f4 s ≡ (ok tt, s)
      → f5 s ≡ (ok tt, s)
      → f6 s ≡ (ok tt, s)
      → f7 s ≡ (ok tt, s)
      → f8 s ≡ (ok tt, s)
      → (f1 >>= λ _. f2 >>= λ _. f3 >>= λ _. f4 >>= λ _. f5 >>= λ _. f6 >>= λ _. f7 >>= λ _. f8) s
        ≡ (ok tt, s)
  eight_early h1 h2 h3 h4 h5 h6 h7 h8 = rw (h1, h2, h3, h4, h5, h6, h7) h8

module _ {E K Name W : Type 0} where
  pub on_space_early :
      (f : Method E (WorkSpace K Name) (Unit {0})) (m : Machine K Name W)
      → f m.space ≡ (ok tt, m.space)
      → on_space f m ≡ (ok tt, m)
  on_space_early f m h = ap (λ r. (r.0, record m { space = r.1 })) h

pub stopping_early :
    {S : Type 0} (f : Run S (Unit {0})) (s : S) → f s ≡ (ok tt, s) → stopping f s ≡ (ok tt, s)
stopping_early f s h = ap (λ r. (or_stop r.0, r.1)) h

not_before : (now : ℕ) (next : Option ℕ) → Later now next → before now next ≡ false
not_before now none h = refl
not_before now (some t) h = ground arith

pub renew_early :
    {K Name : Type 0} (zonefile : Zonefile) (rrset : List String) (remain now : ℕ) (next : Option ℕ)
    (renew : Run (WorkSpace K Name) (Unit {0})) (ws : WorkSpace K Name)
    → 0 < now
    → All (AsIs zonefile now) (zonefile.entries rrset)
    → compute_cron_next zonefile rrset remain now ≡ ok next
    → Later now next
    → renew_if (sig_renew zonefile rrset remain now) renew ws ≡ (ok tt, ws)
renew_early zonefile rrset remain now next renew ws positive near h later =
    rw
      (
        sig_renew-compute_cron_next zonefile rrset remain now next positive near h,
        not_before now next later,
      )
      refl

module _ (now delay : ℕ) where
  if_past_early :
      (t : Option ℕ) (urls : String × Option String) (times : List (Option ℕ))
      → All (Later now) (cons_time t times)
      → (if_past now t urls [] ≡ []) × All (Later now) times
  if_past_early none urls times h = (refl, h)
  if_past_early (some t) urls times h = (let soon = h.0 in ground arith, h.1)

  pub removals_early :
      (keys : List (String × Key)) (times : List (Option ℕ))
      → removal_times delay keys ≡ ok times
      → All (Later now) times
      → removals now delay keys ≡ ok []
  unfolding removals removal_times
  removals_early [] times h later = refl
  removals_early ((u, k) ∷ keys) times h later =
      let (t, e, h1) = >>=-eq-ok (removable_from delay k) _ h in
      let (rest, f, joined) = >>=-eq-ok (removal_times delay keys) _ h1 in
      let (kept, later') =
        if_past_early t (u, k.privref) rest
          (subst (λ ts. All (Later now) ts) (sym (ok-eq joined)) later) in
      rw (e, removals_early keys rest f later', kept) refl

module _ {K Name : Type 0} (lib : KeySet K) (now : ℕ) where
  -- What was planned before is part of the plan.
  pub planned_before :
      (auto : AutoConfig) (rolls : List RollType) (kss : KeySetState K Name)
      (cron_next times : List (Option ℕ))
      → cron_next_auto_report_expire_done lib now auto rolls kss cron_next ≡ ok times
      → All (Later now) times
      → All (Later now) cron_next
  unfolding cron_next_auto_report_expire_done
  planned_before auto rolls kss cron_next times h later =
      let (reports, _, h1) =
        >>=-eq-ok (plan_if auto.report (plan_each (plan_report lib now kss) rolls)) _ h in
      let (expires, _, h2) =
        >>=-eq-ok (plan_if auto.expire (plan_expire lib now rolls kss.keyset)) _ h1 in
      let (ends, _, h3) =
        >>=-eq-ok (plan_if auto.done (plan_each (plan_done lib now kss) rolls)) _ h2 in
      (All-append (Later now) cron_next _
        (subst (λ ts. All (Later now) ts) (sym (ok-eq h3)) later)).0
