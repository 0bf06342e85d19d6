-- ===== src/Rorc/CrorcCard/Registers.antt =====
-- The methods of class Crorc that make a few register accesses.
use flp_prototype.Rorc.CrorcCard.DataGenerator.{block_length}
use flp_prototype.Rorc.CrorcCard.Constants.{
  c_csr, c_dcr, c_rafh, c_rafl, c_rafx, c_rrbar, c_rrbx, cmd_not_empty, data_rx_on_off, link_down,
  loopb_on_off, rxaff_empty, rxaff_full, rxdat_not_empty, rxstat_not_empty,
}
use Prim.Native.Nat.{bit_and, bit_or}
use flp_prototype.Base.{
  ℕ, ◌*◌, ◌/◌, ◌%◌, ◌^◌, Bool, true, false, not, ◌==◌, ◌>>=◌, ◌>>◌, pure, throws, throw_if, done,
}
use flp_prototype.Rorc.Error.{link_not_up, free_fifo_not_empty, not_implemented}
use flp_prototype.Rorc.Bar.{Card, M, read_register, write_register}

-- A test of some bits of a word.
abbrev pub has : ℕ → ℕ → Bool
has word bits = not (bit_and word bits == 0)

abbrev pub when : Bool → M (Unit {0}) → M (Unit {0})
when b m log = elim b [ true ↦ m log | false ↦ done tt log ]

abbrev pub branch : {A : Type 0} → Bool → M A → M A → M A
branch b m n = elim b [ true ↦ m | false ↦ n ]

pub data RxFreeFifoState : Type 0 where
  empty not_empty full : RxFreeFifoState

abbrev pub is_empty : RxFreeFifoState → Bool
is_empty empty = true
is_empty not_empty = false
is_empty full = false

module _ (card : Card) where
  unfoldable pub is_link_up : M Bool
  is_link_up = read_register card c_csr >>= λ status. pure (not (has status link_down))

  unfoldable pub assert_link_up : M (Unit {0})
  assert_link_up = is_link_up >>= λ up. throw_if (not up) link_not_up

  unfoldable pub check_command_register : M ℕ
  check_command_register =
      read_register card c_csr >>= λ status. pure (bit_and status cmd_not_empty)

  unfoldable pub put_command_register : ℕ → M (Unit {0})
  put_command_register command = write_register card c_dcr command

  unfoldable pub check_rx_status : M ℕ
  check_rx_status = read_register card c_csr >>= λ status. pure (bit_and status rxstat_not_empty)

  unfoldable pub check_rx_data : M ℕ
  check_rx_data = read_register card c_csr >>= λ status. pure (bit_and status rxdat_not_empty)

  unfoldable pub get_rx_free_fifo_state : M RxFreeFifoState
  get_rx_free_fifo_state = read_register card c_csr >>= λ status. elim (has status rxaff_full) [
    | true ↦ pure full
    | false ↦ elim (has status rxaff_empty) [ true ↦ pure empty | false ↦ pure not_empty ]
  ]

  unfoldable pub is_free_fifo_empty : M Bool
  is_free_fifo_empty = get_rx_free_fifo_state >>= λ state. pure (is_empty state)

  unfoldable pub assert_free_fifo_empty : M (Unit {0})
  assert_free_fifo_empty = is_free_fifo_empty >>= λ e. throw_if (not e) free_fifo_not_empty

  unfoldable pub start_data_receiver : ℕ → M (Unit {0})
  start_data_receiver address = do
    a ← write_register card c_rrbar (address % 2 ^ 32)
    b ← write_register card c_rrbx (address / 2 ^ 32)
    status ← read_register card c_csr
    when (not (has status data_rx_on_off)) (write_register card c_csr data_rx_on_off)

  unfoldable pub stop_data_receiver : M (Unit {0})
  stop_data_receiver = read_register card c_csr >>= λ status.
      when (has status data_rx_on_off) (write_register card c_csr data_rx_on_off)

  unfoldable pub is_loopback_on : M Bool
  is_loopback_on = read_register card c_csr >>= λ status. pure (has status loopb_on_off)

  unfoldable pub toggle_loopback : M (Unit {0})
  toggle_loopback = write_register card c_csr loopb_on_off

  unfoldable pub set_loopback_on : M (Unit {0})
  set_loopback_on = is_loopback_on >>= λ on. when (not on) toggle_loopback

  unfoldable pub set_loopback_off : M (Unit {0})
  set_loopback_off = is_loopback_on >>= λ on. when on toggle_loopback

  unfoldable pub push_rx_free_fifo : ℕ → ℕ → ℕ → M (Unit {0})
  push_rx_free_fifo block_address block_length ready_fifo_index =
      write_register card c_rafx (block_address / 2 ^ 32)
      >> write_register card c_rafh (block_address % 2 ^ 32)
      >> write_register card c_rafl (bit_or (block_length * 2 ^ 8 % 2 ^ 32) ready_fifo_index)

  -- The accesses of BAR 2 for continuous readout.
  unfoldable pub init_readout_continuous : M (Unit {0})
  init_readout_continuous =
      write_register card (0x190 / 4) 0x0200_0000
      >> write_register card (0x194 / 4) 0x21005
      >> write_register card (0x18c / 4) 0x1f

  unfoldable pub start_readout_continuous : M (Unit {0})
  start_readout_continuous =
      write_register card (0x198 / 4) 0x6000_0001 >> write_register card (0x198 / 4) 0x0

  unfoldable pub init_readout_triggered : M (Unit {0})
  init_readout_triggered = throws not_implemented
