-- ===== src/Rorc/CrorcCard/Program.antt =====
-- programFlash(): a file is written to the flash. `interrupt` is what the flag shows after the
-- accesses so far (never true for a null pointer), `fuel` bounds the reads of one wait, and a file
-- is the numbers that are read from it. The text that is printed is left out.
use Prim.Native.Nat.{bit_or}
use flp_prototype.Rorc.Error.{Error, flash_stuck, interrupted, file_not_open}
use flp_prototype.Rorc.CrorcCard.Registers.{branch}
use flp_prototype.Rorc.CrorcCard.Flash.{
  address_end, address_register, block_size, check_status, data_status_register, erase_block,
  magic_1, magic_11, magic_12, magic_13, magic_7, unlock_block, wait_ready, address_start, init,
  magic_6,
}
use flp_prototype.Rorc.Bar.{Card, Log, M, read_register, write_register}
use flp_prototype.Base.Int.{pos, to_size, ℤ, ◌+ℤ◌}
use flp_prototype.Base.{
  Bool, List, [], false, leb, pure, suc, throw_if, throws, true, undefined, zero, ℕ, ◌%◌, ◌+◌, ◌==◌,
  ◌>>=◌, ◌^◌, ◌∷◌, Option, done, if◌then◌else◌, none, some,
}

abbrev pub max_stuck : ℕ
max_stuck = 5000000

abbrev pub is_interrupted : Error → Bool
is_interrupted interrupted = true
is_interrupted e = false

-- Where the file and the flash are: the words still to write, the next address, whether the file is at
-- its end, and what is missing to the count of bad states at which it gives up.
pub record Progress : Type 0 where
  pub words : List ℤ
  pub address : ℕ
  pub at_end : Bool
  pub left : ℕ

unfoldable pub first_address : ℕ → ℕ
first_address address_flash =
    if address_flash == 0 then address_start else bit_or address_start address_flash

module _ (card : Card) (interrupt : Log → Bool) (fuel : ℕ) where
  unfoldable pub check_interrupt : M (Unit {0})
  check_interrupt log = throw_if (interrupt log) interrupted log

  unfoldable pub write_status_wait : ℕ → M (Unit {0})
  write_status_wait value = do
    a ← write_register card data_status_register value
    wait_ready card fuel

  unfoldable pub read_wait : ℕ → M ℕ
  read_wait index = do value ← read_register card index; b ← wait_ready card fuel; pure value

  -- The loop over the blocks; `blocks` bounds its rounds.
  unfoldable pub erase_blocks : ℕ → ℕ → M (Unit {0})
  erase_blocks zero address log = undefined
  erase_blocks (suc blocks) address log =
      branch (leb address address_end)
        (check_interrupt >>= λ a. unlock_block card address >>= λ b.
          erase_block card address >>= λ c. erase_blocks blocks ((address + block_size) % 2 ^ 32))
        (pure tt) log

  -- The loop over up to 32 words. The sum with MAGIC_VALUE_13 is an int; where it overflows, which
  -- is undefined, it is taken as reduced here.
  unfoldable pub write_words : ℕ → ℕ → ℕ → List ℤ → M Progress
  write_words zero left address words =
      pure (record { words = words; address = address; at_end = false; left = left })
  write_words (suc j) left address [] = check_interrupt >>= λ a.
      pure (record { words = []; address = address; at_end = true; left = left })
  write_words (suc j) left address (hex ∷ words) = do
    a ← check_interrupt
    b ← write_status_wait address
    c ← write_status_wait (to_size (pos magic_13 +ℤ hex))
    write_words j left ((address + 1) % 2 ^ 32) words

  -- The wait for the good status: `left` is what is missing to the count at which it gives up.
  unfoldable pub settle : ℕ → ℕ → M ℕ
  settle zero status log = branch (status == 0x80) (pure zero) (λ l. undefined) log
  settle (suc left) status log =
      branch (status == 0x80) (pure (suc left))
        (check_interrupt >>= λ a. write_status_wait magic_1 >>= λ b.
          read_wait address_register >>= λ next_status.
          branch (left == 0) (throws flash_stuck) (settle left next_status))
        log

  unfoldable pub write_chunk : Progress → M Progress
  write_chunk p = do
    a ← check_interrupt
    b ← write_status_wait p.address
    c ← write_status_wait magic_11
    d ← check_status card
    e ← write_status_wait magic_12
    q ← write_words 32 p.left p.address p.words
    f ← write_status_wait magic_7
    g ← write_status_wait magic_1
    status ← read_register card address_register
    left ← settle q.left status
    h ← check_status card
    pure (record q { left = left })

  -- while (stop != 1), with `chunks` for the rounds
  unfoldable pub write_chunks : ℕ → Progress → M Progress
  write_chunks zero p log = undefined
  write_chunks (suc chunks) p log =
      branch p.at_end (pure p) (write_chunk p >>= λ q. write_chunks chunks q) log

  -- The part in the `try`.
  unfoldable pub program_words : ℕ → ℕ → ℕ → List ℤ → M (Unit {0})
  program_words blocks chunks address_flash words = do
    a ← init card address_start
    b ← erase_blocks blocks address_start
    p ← write_chunks chunks (record {
      words = words;
      address = first_address address_flash;
      at_end = false;
      left = max_stuck;
    })
    c ← write_register card data_status_register magic_6
    check_status card

  unfoldable pub catching_interrupt : M (Unit {0}) → M (Unit {0})
  catching_interrupt m log = elim (m log) [
    | done a l ↦ done a l
    | throws e l ↦ elim (is_interrupted e) [ true ↦ done tt l | false ↦ throws e l ]
    | undefined ↦ undefined
  ]

  -- A file that does not open is none.
  unfoldable pub program_flash : ℕ → ℕ → Option (List ℤ) → ℕ → M (Unit {0})
  program_flash blocks chunks none address_flash = throws file_not_open
  program_flash blocks chunks (some words) address_flash =
      catching_interrupt (program_words blocks chunks address_flash words)
