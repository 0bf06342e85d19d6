-- ===== src/Rorc/CrorcCard/FlashProgram.antt =====
-- programFlash() as a whole.
use mathlib.Core.Path.{subst}
use flp_prototype.Rorc.CrorcCard.Program.{
  first_address, program_words, Progress, erase_blocks, max_stuck, write_chunks,
}
use flp_prototype.Rorc.CrorcCard.FlashWrites.{
  stuck, access_refused, bad_status, stopped, Writes, >>=-Writes, check_status-Writes, Emits,
  FlashError,
}
use flp_prototype.Rorc.CrorcCard.FlashWords.{BecomesReady, Runs-Writes}
use flp_prototype.Rorc.CrorcCard.FlashErase.{
  erases, read_status-Writes, sleep-then, erase_blocks_lem,
}
use flp_prototype.Rorc.Error.{Error, flash_stuck}
use flp_prototype.Rorc.CrorcCard.NotGood.{Leaves, not_good}
use flp_prototype.Rorc.CrorcCard.FlashStuck.{program_words-Leaves}
use flp_prototype.Rorc.CrorcCard.FlashChunks.{file_values, write_chunks-Runs}
use flp_prototype.Rorc.CrorcCard.Flash.{
  address_start, init, magic_2, magic_3, magic_4, magic_5, magic_6, read_status, write_status_sleep,
}
use flp_prototype.Rorc.Bar.{Card, Log}
use flp_prototype.Base.Int.{ℤ}
use flp_prototype.Base.{
  Outcome, done, throws, undefined, inl, inr, ◌≡◌, ◌⊎◌, Bool, List, [], arith, length, suc, ℕ, ◌++◌,
  ◌+◌, ◌/◌, ◌<◌, ◌^◌, ◌∷◌, ◌≤◌, false, refl, Ensures,
}

-- What initiates the flash, the newest value first.
abbrev pub init_values : List ℕ
init_values = magic_6 ∷ address_start ∷ magic_5 ∷ magic_4 ∷ magic_3 ∷ magic_2 ∷ []

-- All that goes to the flash for a file, the newest value first.
abbrev pub program_values : ℕ → List ℤ → List ℕ
program_values first words =
    ((magic_6 ∷ file_values (suc (length words / 32)) first words) ++ erases 71 address_start)
    ++ init_values

module _ (card : Card) where
  pub init-Writes :
      (a : ℕ)
      → a < 2 ^ 32
      → Writes (magic_6 ∷ a ∷ magic_5 ∷ magic_4 ∷ magic_3 ∷ magic_2 ∷ []) (init card a)
  unfolding init
  init-Writes a h =
      subst (λ w. Writes (magic_6 ∷ w ∷ magic_5 ∷ magic_4 ∷ magic_3 ∷ magic_2 ∷ []) (init card a))
        (omega arith)
        (sleep-then card magic_2 _ _ (
          sleep-then card magic_3 _ _ (
            sleep-then card magic_4 _ _ (
              sleep-then card magic_5 _ _
                (sleep-then card a _ _ (sleep-then card magic_6 [] _ asked))))))
    where
      asked : Writes [] (read_status card)
      asked = read_status-Writes card

-- Why the program ends by an exception: that the flash is stuck only after 5,000,000 bad states.
pub data ProgramError (card : Card) : Error → Log → Type 0 where
  other_error : {e : Error} → {l : Log} → FlashError e → ¬ (e ≡ flash_stuck) → ProgramError card e l
  too_many_bad : {l : Log} → 5000000 ≤ not_good card l → ProgramError card flash_stuck l

both :
    {A : Type 0} (card : Card) (o : Outcome Log Error A) (P : A → Log → Type 0)
    → Ensures o P (λ e l. FlashError e)
    → Leaves o (λ a l. Unit {0}) (λ e l. (¬ (e ≡ flash_stuck)) ⊎ (5000000 ≤ not_good card l))
    → Ensures o P (λ e l. ProgramError card e l)
both card (done a l) P h g = h
both card undefined P h g = h
both card (throws e l) P h g = elim g [ inl n ↦ other_error h n | inr k ↦ reason e l h k ]
  where
    reason :
        (e : Error) (l : Log) → FlashError e → 5000000 ≤ not_good card l → ProgramError card e l
    reason _ l stuck k = too_many_bad k
    reason _ l access_refused k = other_error access_refused (λ e. cc)
    reason _ l bad_status k = other_error bad_status (λ e. cc)
    reason _ l stopped k = other_error stopped (λ e. cc)

program_words-Ensures :
    (card : Card) (interrupt : Log → Bool) (fuel blocks chunks address_flash : ℕ) (words : List ℤ)
    (log : Log)
    → BecomesReady card fuel
    → 72 ≤ blocks
    → length words / 32 + 1 < chunks
    → first_address address_flash + length words < 2 ^ 32
    → Ensures
        (program_words card interrupt fuel blocks chunks address_flash words log)
        (λ u l. Emits log (program_values (first_address address_flash) words) l)
        (λ e l. FlashError e)
unfolding program_words write_status_sleep
program_words-Ensures card interrupt fuel blocks chunks address_flash words log ready enough more
      small =
    (>>=-Writes (init card address_start) _ init_values _
        (init-Writes card address_start (omega arith))
        (λ a.
          >>=-Writes (erase_blocks card interrupt fuel blocks address_start) _
            (erases 71 address_start) _ (erase_blocks_lem card interrupt fuel blocks enough)
            (λ b.
              >>=-Writes (write_chunks card interrupt fuel chunks start) _
                (file_values (suc (length words / 32)) (first_address address_flash) words)
                (magic_6 ∷ [])
                (Runs-Writes (λ q. Unit {0}) _ (write_chunks card interrupt fuel chunks start)
                  (write_chunks-Runs card interrupt fuel ready (length words / 32) chunks start
                    (omega arith) small refl refl (omega (arith, more))))
                (λ p. sleep-then card magic_6 [] _ (check_status-Writes card)))))
      log
  where
    start : Progress
    start = record {
      words = words;
      address = first_address address_flash;
      at_end = false;
      left = max_stuck;
    }

-- programFlash(), what stands in its `try`, for a card whose flash gets ready within `fuel` reads
-- whenever it is waited for, any interrupt and any file whose words fit after the first address, with
-- fuel for 72 blocks and for 2 chunks more than 32 words go into the file: it ends. If it returns,
-- it has written to the flash, besides the requests for its state, just what initiates it, what erases
-- the 71 blocks, then each word of the file after its address, the addresses rising by 1 from the
-- first, in chunks of 32 with the commands for a buffer around them, and the value that reads the
-- state. If it throws, the exception is that of a
-- refused access, of a bad state, of an interrupt, or of a flash that is stuck, and this one only if
-- at least 5,000,000 reads of the state have found another than the good one.
pub program_words_lem :
    (card : Card) (interrupt : Log → Bool) (fuel blocks chunks address_flash : ℕ) (words : List ℤ)
    (log : Log)
    → BecomesReady card fuel
    → 72 ≤ blocks
    → length words / 32 + 1 < chunks
    → first_address address_flash + length words < 2 ^ 32
    → Ensures
        (program_words card interrupt fuel blocks chunks address_flash words log)
        (λ u l. Emits log (program_values (first_address address_flash) words) l)
        (λ e l. ProgramError card e l)
program_words_lem card interrupt fuel blocks chunks address_flash words log ready enough more
      small =
    both card (program_words card interrupt fuel blocks chunks address_flash words log)
      (λ u l. Emits log (program_values (first_address address_flash) words) l)
      (program_words-Ensures card interrupt fuel blocks chunks address_flash words log ready enough
        more small)
      (program_words-Leaves card interrupt fuel blocks chunks address_flash words log)
