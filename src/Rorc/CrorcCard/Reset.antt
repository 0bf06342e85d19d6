-- ===== src/Rorc/CrorcCard/Reset.antt =====
-- The resets of class Crorc: resetCommand(), ddlResetSiu(), emptyDataFifos(), armDdl(), and the
-- sequences that start and stop a trigger or set the loopback of the SIU.
--
-- A DiuConfig is the time that it gives to a command, Ddl::RESPONSE_TIME * pciLoopPerUsec.
use flp_prototype.DataFormat.MemPool.{following}
use flp_prototype.Rorc.Error.{
  Error, command_not_allowed, data_fifos_timeout, siu_loopback_failed, siu_reset_failed,
}
use flp_prototype.Rorc.CrorcCard.Registers.{
  assert_link_up, check_rx_data, has, put_command_register, when, branch,
}
use flp_prototype.Rorc.CrorcCard.Link.{
  StWord, code_part, ddl_read_diu, ddl_read_siu, ddl_read_status, ddl_send_command, ddl_wait_status,
}
use flp_prototype.Rorc.CrorcCard.Constants.{
  c_csr, clear_counters, clear_error, clear_fifos, clear_rxff, clear_txff, ctstw, diu, eobtr,
  error_bit, fee, ifloop, ilcmd, lbmod, option_counters, option_diu, option_error, option_fee,
  option_ff, option_fifos, option_link_up, option_rorc, option_siu, optran, rcsr, rdyrx, reset_chan,
  reset_diu, reset_siu_command, siu, srst, stmask, tstmode,
}
use flp_prototype.Rorc.Bar.{Card, Log, M, write_register}
use flp_prototype.Base.Int.{pos}
use flp_prototype.Base.{
  Bool, Option, done, false, if◌then◌else◌, ltb, none, not, pure, some, suc, throw_if, throws, true,
  undefined, zero, ℕ, ◌%◌, ◌+◌, ◌==◌, ◌>>=◌, ◌>>◌, ◌^◌, ◌||◌,
}
use Prim.Native.Nat.{bit_and, bit_or}

-- A `catch` of every Exception.
abbrev pub catching : {A : Type 0} → M A → (Error → M A) → M A
catching m handler log = elim (m log) [
  | done a l ↦ done a l
  | throws e l ↦ handler e l
  | undefined ↦ undefined
]

-- What steady_clock shows after the accesses so far, in microseconds: as a wait starts, and as its loop
-- tests it.
pub record Clock : Type 0 where
  pub start : Log → ℕ
  pub now : Log → ℕ

abbrev pub incr_15 : ℕ → ℕ
incr_15 a = (a + 1) % 2 ^ 4

abbrev pub bits_if : Bool → ℕ → ℕ
bits_if b bits = if b then bits else 0

-- The commands that resetCommand() gathers for C_CSR.
unfoldable pub csr_command : ℕ → ℕ
csr_command option = bit_or (bits_if (has option option_diu) reset_diu) (
    bit_or (bits_if (has option option_ff) (bit_or clear_rxff clear_txff)) (
      bit_or (bits_if (has option option_fifos) clear_fifos) (
        bit_or (bits_if (has option option_error) clear_error)
          (bits_if (has option option_counters) clear_counters))))

module _ (card : Card) where
  -- What a command of the link leaves to read is read and dropped.
  unfoldable pub drop_status : ℕ → M (Unit {0})
  drop_status time = ddl_wait_status card time >> (ddl_read_status card >>= λ w. pure tt)

  unfoldable pub reset_command : ℕ → ℕ → M (Unit {0})
  reset_command option time =
      when (not (csr_command option == 0)) (write_register card c_csr (csr_command option))
      >> when (has option option_siu)
          (put_command_register card reset_siu_command >> drop_status time)
      >> when (option == 0 || has option option_rorc) (write_register card rcsr reset_chan)

  -- One round of ddlResetSiu(): none, if it returns; the transaction of the next round otherwise.
  unfoldable pub ask_siu : ℕ → ℕ → M (Option ℕ)
  ask_siu time transid =
      catching
        (ddl_read_siu card (pos (incr_15 transid)) time >>= λ w.
          elim (has (bit_and w.stw stmask) error_bit) [
            | true ↦ pure (some (incr_15 transid))
            | false ↦ pure none
          ])
        (λ e. pure (some (incr_15 transid)))

  unfoldable pub reset_round : ℕ → ℕ → M (Option ℕ)
  reset_round time transid =
      catching
        (ddl_read_diu card (pos (incr_15 transid)) time >>= λ w.
          elim (has (bit_and w.stw stmask) error_bit || has (bit_and w.stw stmask) optran) [
            | true ↦ pure (some (incr_15 transid))
            | false ↦ ask_siu time (incr_15 transid)
          ])
        (λ e. pure (some (incr_15 transid)))

  unfoldable pub reset_rounds : ℕ → ℕ → ℕ → M (Unit {0})
  reset_rounds time zero transid = throws siu_reset_failed
  reset_rounds time (suc cycle) transid = reset_round time transid >>= λ o. elim o [
    | none ↦ pure tt
    | some following ↦ reset_rounds time cycle following
  ]

  unfoldable pub ddl_reset_siu : ℕ → ℕ → M (Unit {0})
  ddl_reset_siu cycle time =
      ddl_send_command card (pos diu) srst (pos 0) 0 time
      >> drop_status time
      >> reset_rounds time cycle 0xf

  -- The loop that emptyDataFifos() makes till its time is over; `fuel` bounds the rounds.
  unfoldable pub empty_rounds : (Log → ℕ) → ℕ → ℕ → M (Unit {0})
  empty_rounds now end zero log = undefined
  empty_rounds now end (suc fuel) log =
      branch (ltb (now log) end)
        (check_rx_data card >>= λ rest.
          branch (rest == 0) (pure tt)
            (write_register card c_csr clear_fifos >>= λ w. empty_rounds now end fuel))
        (check_rx_data card >>= λ rest. throw_if (not (rest == 0)) data_fifos_timeout) log

  unfoldable pub empty_data_fifos : Clock → ℕ → ℕ → M (Unit {0})
  empty_data_fifos clock fuel timeout log =
      empty_rounds clock.now (clock.start log + timeout) fuel log

  -- The part of armDdl() for LINK_UP.
  unfoldable pub bring_link_up : Clock → ℕ → ℕ → M (Unit {0})
  bring_link_up clock fuel time =
      reset_command option_rorc time
      >> reset_command option_diu time
      >> reset_command option_siu time
      >> assert_link_up card
      >> empty_data_fifos clock fuel 100000
      >> reset_command option_siu time
      >> reset_command option_diu time
      >> reset_command option_rorc time
      >> assert_link_up card

  unfoldable pub arm_ddl : Clock → ℕ → ℕ → ℕ → M (Unit {0})
  arm_ddl clock fuel reset_mask time =
      throw_if (has reset_mask option_fee) command_not_allowed
      >> when (has reset_mask option_siu) (ddl_reset_siu 3 time)
      >> when (has reset_mask option_link_up) (bring_link_up clock fuel time)
      >> when (has reset_mask option_diu) (reset_command option_diu time)
      >> when (has reset_mask option_ff) (reset_command option_ff time)
      >> when (has reset_mask option_rorc) (reset_command option_rorc time)

  -- A command to the front end, and its answer.
  unfoldable pub ask_front_end : ℕ → ℕ → M (Unit {0})
  ask_front_end command time =
      ddl_send_command card (pos fee) command (pos 0) 0 time >> drop_status time

  unfoldable pub start_trigger : ℕ → M (Unit {0})
  start_trigger time = ask_front_end rdyrx time

  unfoldable pub stop_trigger : ℕ → M (Unit {0})
  stop_trigger time = catching (ask_front_end eobtr time) (λ e. pure tt) >> ask_front_end eobtr time

  -- The part of ddlSetSiuLoopBack() that asks for the loopback, and sets it if it is not set.
  unfoldable pub set_loop_back : ℕ → M StWord
  set_loop_back time = do
    x ← ddl_read_siu card (pos 0) time
    elim (has x.stw lbmod) [
      | true ↦ pure x
      | false ↦ do
        e ← ddl_send_command card (pos siu) ifloop (pos 0) 0 time
        f ← ddl_wait_status card time
        ddl_read_status card
    ]

  unfoldable pub ddl_set_siu_loop_back : ℕ → M StWord
  ddl_set_siu_loop_back time = do
    a ← ddl_send_command card (pos siu) ifloop (pos 0) 0 time
    b ← ddl_wait_status card time
    w ← ddl_read_status card
    c ←
        when (code_part w == ilcmd)
          (ddl_send_command card (pos siu) tstmode (pos 0) 0 time >> ddl_wait_status card time)
    d ← throw_if (not (code_part w == ctstw)) siu_loopback_failed
    set_loop_back time

  unfoldable pub set_siu_loopback : ℕ → M (Unit {0})
  set_siu_loopback time = ddl_set_siu_loop_back time >>= λ w. pure tt
