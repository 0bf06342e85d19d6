-- ===== src/Rorc/CrorcCard/EmptyFifos.antt =====
-- emptyDataFifos(): its loop, bounded by the clock.
use mathlib.Core.Path.{subst}
use flp_prototype.Rorc.CrorcCard.Rules.{branch-Ensures, throw_if-Ensures}
use flp_prototype.Rorc.Error.{Error, bar_access_failed, data_fifos_timeout}
use flp_prototype.Rorc.CrorcCard.Waits.{read_csr}
use flp_prototype.Rorc.CrorcCard.Reset.{empty_data_fifos, empty_rounds, Clock}
use flp_prototype.Rorc.CrorcCard.Registers.{check_rx_data, has, branch}
use flp_prototype.Rorc.CrorcCard.Constants.{c_csr, rxdat_not_empty, clear_fifos}
use flp_prototype.Rorc.Bar.Steps.{answer, read-then, write-then}
use flp_prototype.Rorc.Bar.{Card, Log, M, write_register, wrote}
use flp_prototype.Base.{
  Bool, Ensures, Outcome, false, length, suc, true, ℕ, ◌+◌, ◌≡◌, ◌≤◌, ◌⊎◌, >>=-Ensures, ap, arith,
  inl, inr, ltb, not, pure, refl, sym, throw_if, zero, ◌==◌, ◌>>=◌, ◌∙◌, ◌∷◌,
}

abbrev pub fifos_full : Card → Log → Bool
fifos_full card log = has (answer card log c_csr) rxdat_not_empty

-- The last access is a read of the status that showed this of the FIFOs, after the time was over or
-- before.
abbrev pub LastSaw : Card → Bool → Log → Type 0
LastSaw card full l = (m : Log) × (l ≡ read_csr m) × (fifos_full card m ≡ full)

abbrev pub LastSawLate : Card → (Log → ℕ) → ℕ → Log → Type 0
LastSawLate card now end l =
    (m : Log) × (l ≡ read_csr m) × (fifos_full card m ≡ true) × (end ≤ now m)

module _ (card : Card) (now : Log → ℕ) (end : ℕ) where
  abbrev pub LateError : Error → Log → Type 0
  LateError e l = (e ≡ bar_access_failed) ⊎ ((e ≡ data_fifos_timeout) × LastSawLate card now end l)

  -- What a run leaves.
  abbrev pub Empties : Outcome Log Error (Unit {0}) → Type 0
  Empties o = Ensures o (λ u l. LastSaw card false l) LateError

  rx_check :
      (log : Log)
      → Ensures
          (check_rx_data card log)
          (λ rest l. (l ≡ read_csr log) × (not (rest == 0) ≡ fifos_full card log))
          LateError
  unfolding check_rx_data
  rx_check log = read-then card _ _ c_csr _ log (inl refl) (refl, refl)

  -- The last check, after the time is over.
  late_check :
      (log : Log)
      → end ≤ now log
      → Empties ((check_rx_data card >>= λ rest. throw_if (not (rest == 0)) data_fifos_timeout) log)
  late_check log over =
      >>=-Ensures (check_rx_data card) _ _ _ _ log (rx_check log) (λ rest l (same, shows).
        throw_if-Ensures (λ u m. LastSaw card false m) LateError (not (rest == 0))
          data_fifos_timeout l (λ e. (log, same, sym shows ∙ e))
          (λ e. inr (refl, (log, same, sym shows ∙ e, over))))

  round :
      (log : Log) (k : M (Unit {0}))
      → Empties (k (wrote c_csr clear_fifos ∷ read_csr log))
      → Empties (
          (check_rx_data card >>= λ rest.
          branch (rest == 0) (pure tt) (write_register card c_csr clear_fifos >>= λ w. k))
            log)
  round log k h =
      >>=-Ensures (check_rx_data card) _ _ _ _ log (rx_check log) (λ rest l (same, shows).
        branch-Ensures (rest == 0) _ _ (λ u m. LastSaw card false m) LateError l
          (λ e. (log, same, sym shows ∙ ap not e))
          (λ e.
            subst (λ x. Empties ((write_register card c_csr clear_fifos >>= λ w. k) x)) (sym same)
              (write-then card _ _ c_csr clear_fifos _ _ (inl refl) h)))

  empty_rounds-Empties :
      (fuel : ℕ) (log : Log)
      → ((l : Log) → length log + fuel ≤ length l → end ≤ now l)
      → Empties (empty_rounds card now end (suc fuel) log)
  unfolding empty_rounds
  empty_rounds-Empties zero log late =
      branch-Ensures (ltb (now log) end) _ _ (λ u m. LastSaw card false m) LateError log
        (λ early. absurd (ground (arith, early, late log (omega arith))))
        (λ over. late_check log (late log (omega arith)))
  empty_rounds-Empties (suc fuel) log late =
      branch-Ensures (ltb (now log) end) _ _ (λ u m. LastSaw card false m) LateError log
        (λ early. round log (empty_rounds card now end (suc fuel)) (
          empty_rounds-Empties fuel (wrote c_csr clear_fifos ∷ read_csr log)
            (λ l longer. late l (omega (arith, longer)))))
        (λ over. late_check log (ground (arith, over)))

-- emptyDataFifos(), for any card, and any clock that shows the end of the time after `fuel` accesses
-- more and later, whatever they are: with `fuel + 1` rounds it ends. If it returns, its last access is
-- a read of the status that showed the FIFOs empty; if it throws, the card refused an access, or its
-- last access is a read that showed them not empty after the end of the time.
pub empty_data_fifos_lem :
    (card : Card) (clock : Clock) (timeout fuel : ℕ) (log : Log)
    → ((l : Log) → length log + fuel ≤ length l → clock.start log + timeout ≤ clock.now l)
    → Empties card clock.now
        (clock.start log + timeout)
        (empty_data_fifos card clock (suc fuel) timeout log)
unfolding empty_data_fifos
empty_data_fifos_lem card clock timeout fuel log late =
    empty_rounds-Empties card clock.now (clock.start log + timeout) fuel log late
