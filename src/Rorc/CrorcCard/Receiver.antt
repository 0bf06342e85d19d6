-- ===== src/Rorc/CrorcCard/Receiver.antt =====
-- The switches of the channel's status register: the data receiver and the loopback.
use flp_prototype.Rorc.CrorcCard.Rules.{when-Ensures}
use flp_prototype.Rorc.Error.{Error, bar_access_failed}
use flp_prototype.Rorc.CrorcCard.Registers.{
  has, when, set_loopback_off, set_loopback_on, start_data_receiver, stop_data_receiver,
  is_loopback_on, toggle_loopback,
}
use flp_prototype.Rorc.CrorcCard.Constants.{c_csr, data_rx_on_off, loopb_on_off, c_rrbar, c_rrbx}
use flp_prototype.Rorc.Bar.Steps.{answer, read-then, wrote-Ensures, write-then}
use flp_prototype.Rorc.Bar.{Card, Log, read_register, was_read, write_register, wrote}
use flp_prototype.Base.{
  Bool, Ensures, Outcome, not, ℕ, ◌%◌, ◌>>=◌, ◌^◌, ◌∷◌, ◌≡◌, Ensures-mono, ap, arith, false, refl,
  true, ◌∙◌, >>=-Ensures, sym, ◌/◌,
}

abbrev pub is_on : Card → ℕ → Log → Bool
is_on card bits log = has (answer card log c_csr) bits

-- How the card keeps a switch: a write of its bit to C_CSR turns it, nothing else that these methods
-- do does.
pub record Switch (card : Card) (bits : ℕ) : Type 0 where
  pub by_read :
      (log : Log) (register : ℕ) → is_on card bits (was_read register ∷ log) ≡ is_on card bits log
  pub by_turn :
      (log : Log) → is_on card bits (wrote c_csr (bits % 2 ^ 32) ∷ log) ≡ not (is_on card bits log)

-- The switch is left on or off, or the card refused an access.
abbrev pub Leaves : Card → ℕ → Bool → Outcome Log Error (Unit {0}) → Type 0
Leaves card bits on o = Ensures o (λ u l. is_on card bits l ≡ on) (λ e l. e ≡ bar_access_failed)

module _ (card : Card) (bits : ℕ) (switch : Switch card bits) where
  -- A write that turns the switch, if it is not as it should be.
  set :
      (on b : Bool) (l : Log)
      → (b ≡ false → is_on card bits l ≡ on)
      → (b ≡ true → is_on card bits l ≡ not on)
      → Leaves card bits on (when b (write_register card c_csr bits) l)
  set on b l keep turn =
      when-Ensures (λ u m. is_on card bits m ≡ on) (λ e m. e ≡ bar_access_failed) b
        (write_register card c_csr bits) l keep
        (λ yes_turn.
          Ensures-mono (write_register card c_csr bits l) _ _ _ _ (wrote-Ensures card c_csr bits l)
            (λ u m h.
              ap (is_on card bits) h ∙ switch.by_turn l ∙ ap not (turn yes_turn) ∙ not_not on)
            (λ e m h. h.0))
    where
      not_not : (b : Bool) → not (not b) ≡ b
      not_not true = refl
      not_not false = refl

  turned_on :
      (l : Log)
      → Leaves card bits true (
          (read_register card c_csr >>= λ status.
          when (not (has status bits)) (write_register card c_csr bits))
            l)
  turned_on l = read-then card _ _ c_csr _ l refl (
      set true (not (is_on card bits l)) (was_read c_csr ∷ l)
        (λ e. switch.by_read l c_csr ∙ ground (arith, e))
        (λ e. switch.by_read l c_csr ∙ ground (arith, e)))

  turned_off :
      (l : Log)
      → Leaves card bits false (
          (read_register card c_csr >>= λ status.
          when (has status bits) (write_register card c_csr bits))
            l)
  turned_off l = read-then card _ _ c_csr _ l refl (
      set false (is_on card bits l) (was_read c_csr ∷ l) (λ e. switch.by_read l c_csr ∙ e)
        (λ e. switch.by_read l c_csr ∙ e))

loopback_read :
    (card : Card)
    → Switch card loopb_on_off
    → (l : Log)
    → Ensures
        (is_loopback_on card l)
        (λ on m. on ≡ is_on card loopb_on_off m)
        (λ e m. e ≡ bar_access_failed)
unfolding is_loopback_on
loopback_read card switch l = read-then card _ _ c_csr _ l refl (sym (switch.by_read l c_csr))

-- For a card that keeps the switches of the receiver and of the loopback, each turned by a write of its
-- bit and by no read: startDataReceiver() leaves the receiver on and stopDataReceiver() off,
-- setLoopbackOn() leaves the loopback on and setLoopbackOff() off, whatever they were before, and
-- unless the card refuses an access they return.
pub switches_lem :
    (card : Card) (address : ℕ) (log : Log)
    → Switch card data_rx_on_off
    → Switch card loopb_on_off
    → Leaves card data_rx_on_off true (start_data_receiver card address log)
      × Leaves card data_rx_on_off false (stop_data_receiver card log)
      × Leaves card loopb_on_off true (set_loopback_on card log)
      × Leaves card loopb_on_off false (set_loopback_off card log)
unfolding start_data_receiver stop_data_receiver set_loopback_on set_loopback_off toggle_loopback
switches_lem card address log receiver loopback = (
  write-then card _ _ c_rrbar (address % 2 ^ 32) _ log refl (
      write-then card _ _ c_rrbx (address / 2 ^ 32) _ _ refl
        (turned_on card data_rx_on_off receiver _)),
  turned_off card data_rx_on_off receiver log,
  >>=-Ensures (is_loopback_on card) _ _ _ _ log (loopback_read card loopback log) (λ on l h.
      set card loopb_on_off loopback true (not on) l (λ e. ground (arith, h, e))
        (λ e. ground (arith, h, e))),
  >>=-Ensures (is_loopback_on card) _ _ _ _ log (loopback_read card loopback log)
      (λ on l h. set card loopb_on_off loopback false on l (λ e. sym h ∙ e) (λ e. sym h ∙ e)),
)
