-- ===== src/Rorc/Cru/Accesses.antt =====
-- An access to BAR 0 leaves the rest of the channel as it was.
use flp_prototype.Base.{◌≡◌, refl, done, throws, undefined, Ensures}
use flp_prototype.Rorc.Error.{Error, bar_access_failed}
use flp_prototype.Rorc.Bar
use flp_prototype.Rorc.Bar.{Log, M}
use flp_prototype.Rorc.Bar.Returns.{Returns}
use flp_prototype.Rorc.Cru.{CruDmaChannel, on_bar}

-- Only the accesses to BAR 0 tell the two channels apart.
abbrev pub SameButBar : CruDmaChannel → CruDmaChannel → Type 0
SameButBar c d = d ≡ record c { bar = d.bar }

-- What holds of the accesses to BAR 0 holds after the member function on the channel.
pub on_bar-Runs :
    {A : Type 0} (m : Bar.M A) (c : CruDmaChannel) (P : A → Log → Type 0) (Q : Error → Log → Type 0)
    → Ensures (m c.bar) P Q
    → Ensures (on_bar m c) (λ a d. P a d.bar × SameButBar c d) (λ e d. Q e d.bar × SameButBar c d)
on_bar-Runs m c P Q h =
    (elim (m c.bar)
        as (λ o.
          Ensures o P Q
          → Ensures
              (elim o [
                | done a log ↦ done a (record c { bar = log })
                | throws e log ↦ throws e (record c { bar = log })
                | undefined ↦ undefined
              ])
              (λ a d. P a d.bar × SameButBar c d) (λ e d. Q e d.bar × SameButBar c d)) [
                | done a log ↦ λ p. (p, refl)
                | throws e log ↦ λ p. (p, refl)
                | undefined ↦ λ f. f
              ])
      h

pub on_bar-Ensures :
    {A : Type 0} (m : Bar.M A) (c : CruDmaChannel)
    → Returns m
    → Ensures (on_bar m c) (λ a d. SameButBar c d) (λ e d. (e ≡ bar_access_failed) × SameButBar c d)
on_bar-Ensures m c h =
    (elim (m c.bar)
        as (λ o.
          Ensures o (λ a l. Unit {0}) (λ e l. e ≡ bar_access_failed)
          → Ensures
              (elim o [
                | done a log ↦ done a (record c { bar = log })
                | throws e log ↦ throws e (record c { bar = log })
                | undefined ↦ undefined
              ])
              (λ a d. SameButBar c d) (λ e d. (e ≡ bar_access_failed) × SameButBar c d)) [
                | done a log ↦ λ p. refl
                | throws e log ↦ λ p. (p, refl)
                | undefined ↦ λ f. f
              ])
      (h c.bar)
