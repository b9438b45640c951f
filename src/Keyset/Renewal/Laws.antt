-- ===== src/Keyset/Renewal/Laws.antt =====
-- What renewing and planning to renew have to do with each other (src/commands/keyset/cmd.rs).
use mathlib.Core.Option
use dnst.Base.{
  ℕ, ◌+◌, ◌-◌, ◌<◌, String, ◌≡◌, refl, sym, ap, ◌∙◌, Bool, true, false, ◌||◌, Option, none, some,
  List, [], ◌∷◌, Result, ok, >>=-eq-ok, ok-eq, ltb, any, map, All, if◌then◌else◌, arith,
}
use dnst.Keyset.Automation.{Stop}
use dnst.Keyset.AutoStart.{minimum}
use dnst.Keyset.AutoStart.Laws.{before, before-minimum}
use dnst.Keyset.Renewal.{
  Entry, rrsig, other_record, include, bad_entry, Zonefile, sig_renew_from, expirations, sig_renew,
  compute_cron_next,
}

module _ (zonefile : Zonefile) (now : ℕ) where
  -- The expiration is the time that it stands for, as it is in the first 2^32 seconds for a time
  -- that is not too far away.
  abbrev pub AsIs : Entry → Type 0
  AsIs (rrsig expiration) = zonefile.to_system_time expiration now ≡ expiration
  AsIs other_record = Unit
  AsIs include = Unit
  AsIs bad_entry = Unit

  sig_renew_from-expirations :
      (renew : ℕ) (entries : List Entry) (times : List ℕ)
      → All AsIs entries
      → expirations entries ≡ ok times
      → sig_renew_from renew entries
        ≡ ok (any (λ x. ltb x renew) (map (λ e. zonefile.to_system_time e now) times))
  unfolding sig_renew_from expirations
  sig_renew_from-expirations renew [] times near h = rw (sym (ok-eq h)) refl
  sig_renew_from-expirations renew (rrsig e ∷ entries) times near h =
      let (rest, f, g) = >>=-eq-ok (expirations entries) _ h in
      let later = sig_renew_from-expirations renew entries rest near.1 f in
      rw (sym (ok-eq g), later, near.0) (or_rest (ltb e renew) _)
    where
      or_rest :
          (a b : Bool) → ◌≡◌ {A = Result Stop Bool} (if a then ok true else ok b) (ok (a || b))
      or_rest true b = refl
      or_rest false b = refl
  sig_renew_from-expirations renew (other_record ∷ entries) times near h =
      sig_renew_from-expirations renew entries times near.1 h
  sig_renew_from-expirations renew (include ∷ entries) times near h =
      sig_renew_from-expirations renew entries times near.1 h
  sig_renew_from-expirations renew (bad_entry ∷ entries) times near h = absurd (ground arith)

before_minus :
    (now remain : ℕ) (o : Option ℕ)
    → 0 < now
    → before now (Option.map (λ t. t - remain) o) ≡ before (now + remain) o
before_minus now remain none h = refl
before_minus now remain (some t) h = ground arith

-- compute_cron_next plans a time before now exactly when sig_renew says that a signature is to be
-- renewed now, for the same records and the same time that signatures have to be valid still. The
-- conditions are that the records can be read, that it is not the epoch itself, and that
-- expirations stand for the times that they are as numbers.
pub sig_renew-compute_cron_next :
    (zonefile : Zonefile) (rrset : List String) (remain_time now : ℕ) (next : Option ℕ)
    → 0 < now
    → All (AsIs zonefile now) (zonefile.entries rrset)
    → compute_cron_next zonefile rrset remain_time now ≡ ok next
    → sig_renew zonefile rrset remain_time now ≡ ok (before now next)
unfolding sig_renew compute_cron_next
sig_renew-compute_cron_next zonefile rrset remain_time now next positive near h =
    let (times, e, f) = >>=-eq-ok (expirations (zonefile.entries rrset)) _ h in
    let due = map (λ e. zonefile.to_system_time e now) times in
    sig_renew_from-expirations zonefile now (now + remain_time) (zonefile.entries rrset) times near
      e
    ∙ ap (λ b. ok b)
        (sym (before-minimum (now + remain_time) due)
          ∙ sym (before_minus now remain_time (minimum due) positive)
          ∙ ap (before now) (ok-eq f))
