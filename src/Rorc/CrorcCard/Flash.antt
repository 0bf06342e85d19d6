-- ===== src/Rorc/CrorcCard/Flash.antt =====
-- The flash memory of a C-RORC: the functions of namespace Crorc::Flash. The values that they write are
-- named by their numbers in the source.
use flp_prototype.Rorc.Error.{bad_flash_status}
use flp_prototype.Rorc.CrorcCard.Registers.{branch}
use flp_prototype.Rorc.CrorcCard.Polling.{until}
use flp_prototype.Rorc.Bar.{Card, M, read_register, write_register}
use flp_prototype.Base.Int.{rounds, ℤ}
use flp_prototype.Base.{
  List, [], pure, suc, undefined, zero, ℕ, ◌%◌, ◌+◌, ◌/◌, ◌==◌, ◌>>=◌, ◌^◌, ◌∷◌,
}
use Prim.Native.Nat.{bit_or}

abbrev pub max_wait : ℕ
max_wait = 1000000

-- Rorc::Flash
abbrev pub data_status_register : ℕ
data_status_register = 60

abbrev pub address_register : ℕ
address_register = 61

abbrev pub ready_register : ℕ
ready_register = 62

abbrev pub magic_0 : ℕ
magic_0 = 0x80

abbrev pub magic_1 : ℕ
magic_1 = 0x0400_0000

abbrev pub magic_2 : ℕ
magic_2 = 0x0300_0050

abbrev pub magic_3 : ℕ
magic_3 = 0x0100_bddf

abbrev pub magic_4 : ℕ
magic_4 = 0x0300_0060

abbrev pub magic_5 : ℕ
magic_5 = 0x0300_0003

abbrev pub magic_6 : ℕ
magic_6 = 0x0300_0070

abbrev pub magic_7 : ℕ
magic_7 = 0x0300_00d0

abbrev pub magic_8 : ℕ
magic_8 = 0x0300_0020

abbrev pub magic_9 : ℕ
magic_9 = 0x0300_0040

abbrev pub magic_10 : ℕ
magic_10 = 0x0300_00ff

abbrev pub magic_11 : ℕ
magic_11 = 0x0300_00e8

abbrev pub magic_12 : ℕ
magic_12 = 0x0300_001f

abbrev pub magic_13 : ℕ
magic_13 = 0x0300_0000

abbrev pub address_start : ℕ
address_start = 0x0100_0000

abbrev pub address_end : ℕ
address_end = 0x0146_0000

abbrev pub block_size : ℕ
block_size = 0x01_0000

module _ (card : Card) where
  unfoldable pub write_status_sleep : ℕ → M (Unit {0})
  write_status_sleep value = write_register card data_status_register value

  unfoldable pub read_status : M ℕ
  read_status = write_status_sleep magic_1 >>= λ u. read_register card address_register

  unfoldable pub init : ℕ → M ℕ
  init address = do
    a ← write_status_sleep magic_2
    b ← write_status_sleep magic_3
    c ← write_status_sleep magic_4
    d ← write_status_sleep magic_5
    e ← write_status_sleep address
    f ← write_status_sleep magic_6
    read_status

  unfoldable pub check_status : M (Unit {0})
  check_status =
      until (read_status >>= λ status. pure (status == magic_0)) bad_flash_status max_wait

  unfoldable pub unlock_block : ℕ → M (Unit {0})
  unlock_block address = do
    a ← write_status_sleep magic_3
    b ← write_status_sleep address
    c ← write_status_sleep magic_4
    d ← write_status_sleep magic_7
    check_status

  unfoldable pub erase_block : ℕ → M (Unit {0})
  erase_block address = do
    a ← write_status_sleep address
    b ← write_status_sleep address
    c ← write_status_sleep magic_8
    d ← write_status_sleep magic_7
    check_status

  unfoldable pub write_word : ℕ → ℕ → M (Unit {0})
  write_word address value = do
    a ← write_status_sleep address
    b ← write_status_sleep magic_9
    c ← write_status_sleep value
    check_status

  -- The two bytes of a word.
  unfoldable pub read_word : ℕ → M (ℕ × ℕ)
  read_word address = do
    a ← write_status_sleep address
    b ← write_status_sleep magic_10
    status ← read_status
    pure (status / 2 ^ 8 % 2 ^ 8, status % 2 ^ 8)

  -- The lines that are printed: what the address register and the ready register show.
  unfoldable pub read_words : ℕ → ℕ → M (List (ℕ × ℕ))
  read_words i zero = pure []
  read_words i (suc n) = do
    a ← write_status_sleep (bit_or 0x0100_0000 i)
    b ← write_status_sleep magic_10
    c ← write_status_sleep magic_1
    status ← read_register card address_register
    ready ← read_register card ready_register
    rest ← read_words (i + 1) n
    pure ((status, ready) ∷ rest)

  unfoldable pub read_range : ℕ → ℤ → M (List (ℕ × ℕ))
  read_range address_flash word_number = read_words address_flash (rounds word_number)

  -- The loop till the flash is ready, with fuel for its reads.
  unfoldable pub wait_ready : ℕ → M (Unit {0})
  wait_ready zero log = undefined
  wait_ready (suc fuel) log =
      (read_register card ready_register >>= λ status.
      branch (status == 0) (wait_ready fuel) (pure tt))
        log
