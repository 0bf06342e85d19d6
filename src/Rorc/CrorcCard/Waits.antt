-- ===== src/Rorc/CrorcCard/Waits.antt =====
-- The waits of class Crorc: for a status word, and for room for a command.
use flp_prototype.Rorc.Error.{
  bar_access_failed, ddl_command_timeout, ddl_status_timeout, link_not_up,
}
use flp_prototype.Rorc.CrorcCard.Registers.{
  assert_link_up, check_command_register, check_rx_status, has, is_link_up,
}
use flp_prototype.Rorc.CrorcCard.Polling.{Polls, until-Polls}
use flp_prototype.Rorc.CrorcCard.Link.{ddl_wait_status, wait_command_register}
use flp_prototype.Rorc.CrorcCard.Constants.{c_csr, cmd_not_empty, link_down, rxstat_not_empty}
use flp_prototype.Rorc.Bar.Steps.{answer}
use flp_prototype.Rorc.Bar.{Card, Log, read_register, was_read}
use flp_prototype.Base.{Bool, Ensures, arith, false, not, pure, true, ℕ, ◌==◌, ◌>>=◌, ◌∷◌, ◌≡◌, ◌⊎◌}
use Prim.Native.Nat.{bit_and}

abbrev pub read_csr : Log → Log
read_csr log = was_read c_csr ∷ log

-- What the next read of C_CSR shows.
abbrev pub status_arrived : Card → Log → Bool
status_arrived card log = has (answer card log c_csr) rxstat_not_empty

abbrev pub command_idle : Card → Log → Bool
command_idle card log = bit_and (answer card log c_csr) cmd_not_empty == 0

abbrev pub link_up : Card → Log → Bool
link_up card log = not (has (answer card log c_csr) link_down)

abbrev pub Kept : Log → Log → Type 0
Kept log l = l ≡ log

module _ (card : Card) where
  status_check :
      (log : Log)
      → Ensures
          ((check_rx_status card >>= λ status. pure (not (status == 0))) log)
          (λ b l. (b ≡ status_arrived card log) × (l ≡ read_csr log))
          (λ e l. (e ≡ bar_access_failed) × Kept log l)
  unfolding check_rx_status read_register
  status_check log = ground arith

  idle_check :
      (log : Log)
      → Ensures
          ((check_command_register card >>= λ busy. pure (busy == 0)) log)
          (λ b l. (b ≡ command_idle card log) × (l ≡ read_csr log))
          (λ e l. (e ≡ bar_access_failed) × Kept log l)
  unfolding check_command_register read_register
  idle_check log = ground arith

-- ddlWaitStatus(), for any card: it returns after the first check that finds a status word, if that
-- is one of the first `time` checks; if none of these does, it throws that the time is over, after
-- just `time` checks; otherwise the card refused a check, and all before found no status word.
pub ddl_wait_status_lem :
    (card : Card) (time : ℕ) (log : Log)
    → Polls
        (status_arrived card)
        read_csr
        Kept
        ddl_status_timeout
        time
        log
        (ddl_wait_status card time log)
unfolding ddl_wait_status
ddl_wait_status_lem card time log =
    until-Polls (check_rx_status card >>= λ status. pure (not (status == 0))) ddl_status_timeout
      (status_arrived card) read_csr Kept (status_check card) time log

pub wait_command_register_lem :
    (card : Card) (time : ℕ) (log : Log)
    → Polls
        (command_idle card)
        read_csr
        Kept
        ddl_command_timeout
        time
        log
        (wait_command_register card time log)
unfolding wait_command_register
wait_command_register_lem card time log =
    until-Polls (check_command_register card >>= λ busy. pure (busy == 0)) ddl_command_timeout
      (command_idle card) read_csr Kept (idle_check card) time log

pub link_check :
    (card : Card) (log : Log)
    → Ensures
        (assert_link_up card log)
        (λ u l. (link_up card log ≡ true) × (l ≡ read_csr log))
        (λ e l.
          ((e ≡ bar_access_failed) × (l ≡ log))
          ⊎ ((e ≡ link_not_up) × (link_up card log ≡ false) × (l ≡ read_csr log)))
unfolding assert_link_up is_link_up read_register
link_check card log = ground arith
