-- ===== src/Rorc/CrorcCard/Serial.antt =====
-- getSerial(): the serial number, read from the flash. `convert` is boost's try_lexical_convert of some
-- characters to a uint32_t.
use flp_prototype.Rorc.Error.{serial_all_ones}
use flp_prototype.Rorc.CrorcCard.Registers.{branch}
use flp_prototype.Rorc.CrorcCard.Flash.{init, read_word}
use flp_prototype.Rorc.Bar.{Card, M}
use flp_prototype.Base.Int.{to_int, ℤ}
use flp_prototype.Base.{
  List, Option, drop, length, ltb, none, pure, replicate, set, some, suc, take, throws, undefined,
  zero, ℕ, ◌%◌, ◌+◌, ◌-◌, ◌/◌, ◌==◌, ◌>>=◌, ◌^◌, ◌||◌,
}

abbrev pub flash_address : ℕ
flash_address = 0x0147_0000

abbrev pub serial_position : ℕ
serial_position = 33

abbrev pub serial_length : ℕ
serial_length = 5

-- A write of two characters, undefined out of the array.
unfoldable pub put_pair : List ℕ → ℕ → ℕ × ℕ → M (List ℕ)
put_pair characters i pair log =
    branch (ltb (i + 1) (length characters)) (pure (set (set characters i pair.0) (i + 1) pair.1))
      (λ l. undefined) log

module _ (card : Card) where
  -- The loop, with `turns` for its rounds: it ends at a NUL, or past the length.
  unfoldable pub read_characters : ℕ → ℕ → ℕ → List ℕ → M (List ℕ)
  read_characters zero i address characters log = undefined
  read_characters (suc turns) i address characters log =
      branch (ltb i serial_length)
        (read_word card address >>= λ pair. put_pair characters i pair >>= λ filled.
          branch (pair.0 == 0 || pair.1 == 0) (pure filled)
            (read_characters turns (i + 2) ((address + 1) % 2 ^ 32) filled))
        (pure characters) log

  unfoldable pub get_serial : (List ℕ → Option ℕ) → M (Option ℤ)
  get_serial convert = do
    a ← init card flash_address
    characters ←
        read_characters (serial_length + 1) 0 (flash_address + (serial_position - 1) / 2)
          (replicate (serial_length + 1) 0)
    elim (convert (take serial_length (drop 1 characters))) [
      | none ↦ pure none
      | some serial ↦
          branch (serial == 0xffff_ffff) (throws serial_all_ones) (pure (some (to_int serial)))
    ]
