-- ===== src/Rorc/CrorcCard/Powers.antt =====
-- logi2() and roundPowerOf2().
use native.Mathlib.Decide.{dec_lt}
use mathlib.Core.Path.{subst}
use flp_prototype.Rorc.CrorcCard.DataGenerator.{highest_bit, logi2, round_power_of_2}
use flp_prototype.Rorc.Bar.{Log}
use flp_prototype.Base.Int.{pos}
use flp_prototype.Base.{
  Ensures, arith, done, refl, suc, sym, zero, ℕ, ◌%◌, ◌*◌, ◌+◌, ◌/◌, ◌<◌, ◌^◌, ◌≡◌, ◌≤◌,
}
use native.Mathlib.Nat.{div-eq_of_lt, div-eq_of_lt-le, pow-succ'}

-- The greatest power of 2 that is not above a number.
abbrev pub IsFloor : ℕ → ℕ → Type 0
IsFloor i number = (2 ^ i ≤ number) × (number < 2 ^ suc i)

bit_off : (number i : ℕ) → number < 2 ^ i → number / 2 ^ i % 2 ≡ 0
bit_off number i h = omega (arith, div-eq_of_lt h)

bit_on : (number i : ℕ) → IsFloor i number → number / 2 ^ i % 2 ≡ 1
bit_on number i h =
    let one_fits : 1 * 2 ^ i ≤ number = omega (arith, h.0) in
    let two_do_not : number < (1 + 1) * 2 ^ i = omega (arith, h.1, pow-succ' 2 i) in
    let e : number / 2 ^ i ≡ 1 = div-eq_of_lt-le (2 ^ i) one_fits two_do_not in omega (arith, e)

highest_bit_lem :
    (number i : ℕ)
    → number < 2 ^ i
    → 0 < number
    → (k : ℕ) × (highest_bit number i ≡ pos k) × IsFloor k number
unfolding highest_bit
highest_bit_lem number zero h p = absurd (omega arith)
highest_bit_lem number (suc i) h p = elim (dec_lt number (2 ^ i)) [
  | yes low ↦
      let ih : (k : ℕ) × (highest_bit number i ≡ pos k) × IsFloor k number =
        highest_bit_lem number i low p in
      (ih.0, ground (arith, bit_off number i low, ih.1), ih.2)
  | no high ↦ (i, ground (arith, bit_on number i (omega arith, h)), (omega arith, h))
]

logi2-pos :
    (number : ℕ)
    → number < 2 ^ 32
    → 0 < number
    → (k : ℕ) × (logi2 number ≡ pos k) × IsFloor k number
unfolding logi2
logi2-pos number h p = highest_bit_lem number 32 h p

round_power_of_2-run :
    (number k : ℕ) (log : Log)
    → logi2 number ≡ pos k
    → round_power_of_2 number log ≡ done (2 ^ k) log
unfolding round_power_of_2
round_power_of_2-run number k log e = ground (arith, e)

pub round_power_of_2-Ensures :
    (number : ℕ) (log : Log)
    → number < 2 ^ 32
    → 0 < number
    → Ensures
        (round_power_of_2 number log)
        (λ r l. (i : ℕ) × (r ≡ 2 ^ i) × IsFloor i number × (l ≡ log))
        (λ e l. ⊥)
round_power_of_2-Ensures number log h p =
    let (k, is_k, floor) = logi2-pos number h p in
    subst (λ o. Ensures o (λ r l. (i : ℕ) × (r ≡ 2 ^ i) × IsFloor i number × (l ≡ log)) (λ e l. ⊥))
      (sym (round_power_of_2-run number k log is_k)) (k, refl, floor, refl)
