-- ===== src/Signzone/Load/Bumped.antt =====
-- The new serial of a zone (src/commands/signzone.rs, mk_bumped_soa_rdata).
use dnst.Base.{ℕ, ◌≡◌, ◌<◌, ◌^◌, refl, ap, ◌∙◌, inl, inr, Bool-cases, true, ◌⊎◌, if◌then◌else◌}
use dnst.Dns.{Soa}
use dnst.Signzone.Load.{SerialLibrary, mk_bumped_soa_rdata}

-- The successor of a serial is greater than it.
abbrev pub NextIsGreater : SerialLibrary → Type 0
NextIsGreater serials = (s : ℕ) → s < 2 ^ 32 → serials.greater (serials.add s 1) s ≡ true

module _ {Name : Type 0} (serials : SerialLibrary) (now : ℕ) (old : Soa Name) where
  bumped-Later :
      NextIsGreater serials
      → old.serial < 2 ^ 32
      → serials.greater
          (if serials.greater now old.serial then now else serials.add old.serial 1)
          old.serial
        ≡ true
  bumped-Later next bound = elim (Bool-cases (serials.greater now old.serial)) [
    | inl e ↦
        ap (λ b. serials.greater (if b then now else serials.add old.serial 1) old.serial) e ∙ e
    | inr e ↦
        ap (λ b. serials.greater (if b then now else serials.add old.serial 1) old.serial) e
        ∙ next old.serial bound
  ]

  bumped-either :
      ((if serials.greater now old.serial then now else serials.add old.serial 1) ≡ now)
      ⊎ ((if serials.greater now old.serial then now else serials.add old.serial 1)
          ≡ serials.add old.serial 1)
  bumped-either = elim (Bool-cases (serials.greater now old.serial)) [
    | inl e ↦ inl (ap (λ b. if b then now else serials.add old.serial 1) e)
    | inr e ↦ inr (ap (λ b. if b then now else serials.add old.serial 1) e)
  ]

  -- With -u, whatever the clock says, the new serial is greater than the old one, and it is the time
  -- or the old serial's successor. Only the serial changes.
  pub mk_bumped_soa_rdata-Later :
      NextIsGreater serials
      → old.serial < 2 ^ 32
      → (serials.greater (mk_bumped_soa_rdata serials now old).serial old.serial ≡ true)
        × (((mk_bumped_soa_rdata serials now old).serial ≡ now)
            ⊎ ((mk_bumped_soa_rdata serials now old).serial ≡ serials.add old.serial 1))
        × (mk_bumped_soa_rdata serials now old
            ≡ record old { serial = (mk_bumped_soa_rdata serials now old).serial })
  unfolding mk_bumped_soa_rdata
  mk_bumped_soa_rdata-Later next bound = (bumped-Later next bound, bumped-either, refl)
