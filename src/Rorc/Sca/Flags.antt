-- ===== src/Rorc/Sca/Flags.antt =====
-- checkError(): which answers pass, and the exception that the others give.
use mathlib.Core.Path.{subst}
use flp_prototype.Rorc.Bar.{Log}
use flp_prototype.Base.{
  >>=-Ensures, Bool, Ensures, arith, false, refl, suc, throw_if, true, zero, ℕ, ◌+◌, ◌<◌, ◌==◌, ◌≡◌,
  ◌≤◌, Ensures-mono, ◌∙◌,
}
use native.Mathlib.Decide.{dec_lt}
use flp_prototype.Rorc.Sca.{flag_error, check_flags, check_error}
use flp_prototype.Rorc.Bits.{get_bit}
use flp_prototype.Rorc.CrorcCard.Rules.{throw_if-Ensures}
use Prim.Native.Nat.{bit_and}

abbrev pub flag_set : ℕ → ℕ → Bool
flag_set command flag = get_bit (bit_and command 0xff) flag == 1

abbrev pub ClearBetween : ℕ → ℕ → ℕ → Type 0
ClearBetween command from to = (i : ℕ) → from ≤ i → i < to → flag_set command i ≡ false

-- The first flag that is set, from one on and before another.
abbrev pub IsFirst : ℕ → ℕ → ℕ → ℕ → Type 0
IsFirst command from to i =
    (from ≤ i) × (i < to) × (flag_set command i ≡ true) × ClearBetween command from i

ClearBetween-cons :
    (command from to : ℕ)
    → flag_set command from ≡ false
    → ClearBetween command (from + 1) to
    → ClearBetween command from to
ClearBetween-cons command from to c h i ge lt = elim (dec_lt from i) [
  | yes above ↦ h i (omega arith) lt
  | no same ↦ subst (λ i. flag_set command i ≡ false) (let e : from ≡ i = omega arith in e) c
]

check_flags_lem :
    (command n flag : ℕ) (log : Log)
    → Ensures
        (check_flags command n flag log)
        (λ u l. (l ≡ log) × ClearBetween command flag (flag + n))
        (λ e l. (l ≡ log) × (i : ℕ) × IsFirst command flag (flag + n) i × (e ≡ flag_error i))
unfolding check_flags
check_flags_lem command zero flag log = (refl, λ i ge lt. absurd (omega arith))
check_flags_lem command (suc n) flag log =
    >>=-Ensures (throw_if (flag_set command flag) (flag_error flag)) _
      (λ u l. (l ≡ log) × (flag_set command flag ≡ false)) _ _ log
      (throw_if-Ensures _ _ (flag_set command flag) (flag_error flag) log (λ c. (refl, c))
        (λ s. (refl, flag, (omega arith, omega arith, s, λ i ge lt. absurd (omega arith)), refl)))
      (λ u l h.
        Ensures-mono (check_flags command n (flag + 1) l) _ _ _ _
          (check_flags_lem command n (flag + 1) l)
          (λ v m g. (
            g.0 ∙ h.0,
            ClearBetween-cons command flag (flag + suc n) h.1 (λ i ge lt. g.1 i ge (omega arith)),
          ))
          (λ e m (kept, i, first, error). (
            kept ∙ h.0,
            i,
            (
              omega (arith, first.0),
              omega (arith, first.1),
              first.2,
              ClearBetween-cons command flag i h.1 first.3,
            ),
            error,
          )))

-- checkError() makes no access. It returns exactly where none of the flags 0 to 6 of the command is set,
-- and else throws the exception of the first that is.
pub check_error_lem :
    (command : ℕ) (log : Log)
    → Ensures
        (check_error command log)
        (λ u l. (l ≡ log) × ClearBetween command 0 7)
        (λ e l. (l ≡ log) × (i : ℕ) × IsFirst command 0 7 i × (e ≡ flag_error i))
unfolding check_error
check_error_lem command log = check_flags_lem command 7 0 log
