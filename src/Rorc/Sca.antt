-- ===== src/Rorc/Sca.antt =====
-- RORC/src/CommandLineUtilities/AliceLowlevelFrontend/Sca.cxx: the slow-control adapter behind BAR 2.
pub mod Flags
pub mod Items
pub mod Sequence
pub mod Gpio
mod Tests
use flp_prototype.Base.{if◌then◌else◌, pure, suc, throw_if, zero, ℕ, ◌+◌, ◌/◌, ◌==◌, ◌>>=◌, ◌>>◌}
use flp_prototype.Rorc.Bits.{get_bit}
use flp_prototype.Rorc.Bar.{Card, M, read_register, write_register}
use flp_prototype.Rorc.CrorcCard.Polling.{until}
use flp_prototype.Rorc.Error.{
  Error, sca_busy_timeout, generic_error_flag, invalid_channel_request, invalid_command_request,
  invalid_transaction_number, invalid_length, channel_not_enabled, channel_busy,
}
use Prim.Native.Nat.{bit_and}

abbrev pub write_data : ℕ
write_data = 0x1e0 / 4

abbrev pub write_command : ℕ
write_command = 0x1e4 / 4

abbrev pub control : ℕ
control = 0x1e8 / 4

abbrev pub busy : ℕ
busy = 0x1ec / 4

abbrev pub read_data : ℕ
read_data = 0x1f0 / 4

abbrev pub read_command : ℕ
read_command = 0x1f4 / 4

abbrev pub max_busy_iterations : ℕ
max_busy_iterations = 10000

pub data CardType : Type 0 where
  crorc cru other_card : CardType

abbrev pub offset : CardType → ℕ
offset crorc = 0
offset cru = 0
offset other_card = 0

pub record ReadResult : Type 0 where
  pub data_word : ℕ
  pub command : ℕ

-- toString() of checkError(), each text an exception.
unfoldable pub flag_error : ℕ → Error
flag_error flag =
    if flag == 1
    then invalid_channel_request
    else if flag == 2
    then invalid_command_request
    else if flag == 3
    then invalid_transaction_number
    else if flag == 4
    then invalid_length
    else if flag == 5
    then channel_not_enabled
    else if flag == 6
    then channel_busy
    else if flag == 7
    then channel_busy
    else generic_error_flag

-- The loop of checkError(), from a flag, with its rounds.
unfoldable pub check_flags : ℕ → ℕ → ℕ → M (Unit {0})
check_flags command zero flag = pure tt
check_flags command (suc n) flag =
    throw_if (get_bit (bit_and command 0xff) flag == 1) (flag_error flag)
    >> check_flags command n (flag + 1)

unfoldable pub check_error : ℕ → M (Unit {0})
check_error command = check_flags command 7 0

module _ (card : Card) (card_type : CardType) where
  unfoldable pub bar_write : ℕ → ℕ → M (Unit {0})
  bar_write index value = write_register card (index + offset card_type) value

  unfoldable pub bar_read : ℕ → M ℕ
  bar_read index = read_register card (index + offset card_type)

  unfoldable pub wait_on_busy_clear : M (Unit {0})
  wait_on_busy_clear =
      until (bar_read busy >>= λ b. pure (b == 0)) sca_busy_timeout max_busy_iterations

  unfoldable pub execute_command : M (Unit {0})
  execute_command = bar_write control 0x4 >> (bar_write control 0x0 >> wait_on_busy_clear)

  unfoldable pub init : M (Unit {0})
  init =
      bar_write control 0x1
      >> (wait_on_busy_clear
          >> (bar_write control 0x2
              >> (wait_on_busy_clear
                  >> (bar_write control 0x1 >> (wait_on_busy_clear >> bar_write control 0x0)))))

  unfoldable pub write : ℕ → ℕ → M (Unit {0})
  write command value =
      bar_write write_data value >> (bar_write write_command command >> execute_command)

  unfoldable pub read : M ReadResult
  read = bar_read read_data >>= λ value. bar_read read_command >>= λ command.
      check_error command >> pure (record { data_word = value; command = command })

  unfoldable pub gpio_enable : M (Unit {0})
  gpio_enable =
      write 0x0001_0002 0xff00_0000
      >> (read >>= λ r.
          write 0x0002_0003 0xff00_0000
          >> (read >>= λ q.
              write 0x0203_0020 0xffff_ffff >> (write 0x0204_0021 0x0 >> (read >>= λ p. pure tt))))

  unfoldable pub gpio_write : ℕ → M ReadResult
  gpio_write value =
      init
      >> (write 0x0204_0010 value
          >> (write 0x0205_0011 0x0 >> (read >>= λ r. write 0x0206_0001 0x0 >> read)))

  unfoldable pub initialize : M (Unit {0})
  initialize = init >> gpio_enable
