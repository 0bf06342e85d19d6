-- ===== src/Rorc/CrorcCard/Rules.antt =====
-- Rules for what a conditional step leaves.
use flp_prototype.Rorc.Error.{Error}
use flp_prototype.Rorc.CrorcCard.Registers.{when, branch}
use flp_prototype.Rorc.Bar.{Log, M}
use flp_prototype.Base.{Bool, Ensures, false, refl, throw_if, true, ◌≡◌}

module _ (P : Unit {0} → Log → Type 0) (Q : Error → Log → Type 0) where
  pub when-Ensures :
      (b : Bool) (m : M (Unit {0})) (log : Log)
      → (b ≡ false → P tt log)
      → (b ≡ true → Ensures (m log) P Q)
      → Ensures (when b m log) P Q
  when-Ensures true m log no_case yes_case = yes_case refl
  when-Ensures false m log no_case yes_case = no_case refl

  pub throw_if-Ensures :
      (b : Bool) (e : Error) (log : Log)
      → (b ≡ false → P tt log)
      → (b ≡ true → Q e log)
      → Ensures (throw_if b e log) P Q
  throw_if-Ensures true e log no_case yes_case = yes_case refl
  throw_if-Ensures false e log no_case yes_case = no_case refl

pub branch-Ensures :
    {A : Type 0} (b : Bool) (m n : M A) (P : A → Log → Type 0) (Q : Error → Log → Type 0)
    (log : Log)
    → (b ≡ true → Ensures (m log) P Q)
    → (b ≡ false → Ensures (n log) P Q)
    → Ensures (branch b m n log) P Q
branch-Ensures true m n P Q log yes_case no_case = yes_case refl
branch-Ensures false m n P Q log yes_case no_case = no_case refl
