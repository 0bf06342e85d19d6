-- ===== src/Rorc/CrorcCard/FlashErase.antt =====
-- Unlocking and erasing the blocks of the flash.
use flp_prototype.Rorc.Bar.Steps.{was_read-Ensures, write-then}
use mathlib.Core.Path.{subst}
use flp_prototype.Rorc.Error.{interrupted}
use flp_prototype.Rorc.CrorcCard.Rules.{branch-Ensures, throw_if-Ensures}
use flp_prototype.Rorc.CrorcCard.Program.{check_interrupt, erase_blocks}
use flp_prototype.Rorc.CrorcCard.FlashWrites.{
  >>=-Writes, Emits, FlashError, Writes, check_status-Writes, nothing_more, sleep-Writes, stopped,
  access_refused, ask, look,
}
use flp_prototype.Rorc.CrorcCard.Flash.{
  address_end, block_size, erase_block, magic_3, magic_4, magic_7, magic_8, unlock_block,
  write_status_sleep, address_start, address_register, data_status_register, magic_1, read_status,
}
use flp_prototype.Rorc.Bar.{Card, Log, M, read_register, wrote}
use flp_prototype.Base.{
  Bool, List, [], arith, leb, suc, zero, ℕ, ◌%◌, ◌*◌, ◌++◌, ◌+◌, ◌<◌, ◌>>=◌, ◌^◌, ◌∷◌, ◌≡◌, Ensures,
  append-nil, append_assoc, ◌≤◌, Ensures-mono, sym,
}

-- What unlocks and erases the block at an address, the newest value first.
abbrev pub erase_values : ℕ → List ℕ
erase_values a = magic_7 ∷ magic_8 ∷ a ∷ a ∷ magic_7 ∷ magic_4 ∷ a ∷ magic_3 ∷ []

-- The values for n blocks from an address on.
abbrev pub erases : ℕ → ℕ → List ℕ
erases zero a = []
erases (suc n) a = erases n (a + block_size) ++ erase_values a

module _ (card : Card) where
  pub read_status-Writes : Writes [] (read_status card)
  unfolding read_status write_status_sleep
  read_status-Writes log =
      write-then card _ _ data_status_register magic_1 (read_register card address_register) log
        access_refused
        (Ensures-mono
          (read_register card address_register (wrote data_status_register magic_1 ∷ log)) _ _ _ _
          (was_read-Ensures card address_register (wrote data_status_register magic_1 ∷ log))
          (λ v l h. subst (Emits log []) (sym h.1) (look address_register (ask nothing_more)))
          (λ e l h. subst FlashError (sym h.0) access_refused))

  pub sleep-then :
      {A : Type 0} (v : ℕ) (ws : List ℕ) (k : M A)
      → Writes ws k
      → Writes (ws ++ v % 2 ^ 32 ∷ []) (write_status_sleep card v >>= λ u. k)
  sleep-then v ws k h =
      >>=-Writes (write_status_sleep card v) (λ u. k) (v % 2 ^ 32 ∷ []) ws (sleep-Writes card v)
        (λ u. h)

  unlock_block-Writes :
      (a : ℕ) → a < 2 ^ 32 → Writes (magic_7 ∷ magic_4 ∷ a ∷ magic_3 ∷ []) (unlock_block card a)
  unfolding unlock_block
  unlock_block-Writes a h =
      subst (λ w. Writes (magic_7 ∷ magic_4 ∷ w ∷ magic_3 ∷ []) (unlock_block card a)) (omega arith)
        (sleep-then magic_3 _ _ (
          sleep-then a _ _
            (sleep-then magic_4 _ _ (sleep-then magic_7 [] _ (check_status-Writes card)))))

  erase_block-Writes :
      (a : ℕ) → a < 2 ^ 32 → Writes (magic_7 ∷ magic_8 ∷ a ∷ a ∷ []) (erase_block card a)
  unfolding erase_block
  erase_block-Writes a h =
      subst (λ w. Writes (magic_7 ∷ magic_8 ∷ w ∷ w ∷ []) (erase_block card a)) (omega arith)
        (sleep-then a _ _ (
          sleep-then a _ _
            (sleep-then magic_8 _ _ (sleep-then magic_7 [] _ (check_status-Writes card)))))

module _ (card : Card) (interrupt : Log → Bool) (fuel : ℕ) where
  pub check_interrupt-Writes : Writes [] (check_interrupt card interrupt fuel)
  unfolding check_interrupt
  check_interrupt-Writes log =
      throw_if-Ensures (λ u l. Emits log [] l) (λ e l. FlashError e) (interrupt log) interrupted log
        (λ e. nothing_more) (λ e. stopped)

  erase_blocks-Writes :
      (n blocks a : ℕ)
      → a + n * block_size ≡ address_end + block_size
      → n < blocks
      → Writes (erases n a) (erase_blocks card interrupt fuel blocks a)
  unfolding erase_blocks
  erase_blocks-Writes n zero a at enough log = absurd (omega arith)
  erase_blocks-Writes zero (suc blocks) a at enough log =
      branch-Ensures (leb a address_end) _ _ (λ u l. Emits log [] l) (λ e l. FlashError e) log
        (λ more. absurd (ground (arith, more))) (λ over. nothing_more)
  erase_blocks-Writes (suc n) (suc blocks) a at enough log =
      branch-Ensures (leb a address_end) _ _ (λ u l. Emits log (erases (suc n) a) l)
        (λ e l. FlashError e) log
        (λ more.
          subst (λ vs. Ensures (round log) (λ u l. Emits log vs l) (λ e l. FlashError e))
            (append-nil _)
            (>>=-Writes (check_interrupt card interrupt fuel) _ [] _ check_interrupt-Writes
              (λ u. one_block (
                erase_blocks-Writes n blocks (a + block_size) (omega (arith, at))
                  (omega (arith, enough))))
              log))
        (λ over. absurd (ground (arith, over)))
    where
      round : M (Unit {0})
      round = check_interrupt card interrupt fuel >>= λ x. unlock_block card a >>= λ y.
          erase_block card a >>= λ z.
          erase_blocks card interrupt fuel blocks ((a + block_size) % 2 ^ 32)

      one_block :
          Writes
            (erases n (a + block_size))
            (erase_blocks card interrupt fuel blocks (a + block_size))
          → Writes (erases (suc n) a) (
              unlock_block card a >>= λ y. erase_block card a >>= λ z.
              erase_blocks card interrupt fuel blocks ((a + block_size) % 2 ^ 32))
      one_block ih =
          let small : a < 2 ^ 32 = omega (arith, at) in
          let in_range : a + block_size ≡ (a + block_size) % 2 ^ 32 = omega (arith, at) in
          subst
            (λ vs. Writes vs (
              unlock_block card a >>= λ y. erase_block card a >>= λ z.
              erase_blocks card interrupt fuel blocks ((a + block_size) % 2 ^ 32)))
            (append_assoc (erases n (a + block_size)) (magic_7 ∷ magic_8 ∷ a ∷ a ∷ [])
              (magic_7 ∷ magic_4 ∷ a ∷ magic_3 ∷ []))
            (>>=-Writes (unlock_block card a) _ _ _ (unlock_block-Writes card a small) (λ y.
              >>=-Writes (erase_block card a) _ _ _ (erase_block-Writes card a small) (λ z.
                subst
                  (λ b.
                    Writes (erases n (a + block_size)) (erase_blocks card interrupt fuel blocks b))
                  in_range ih)))

-- The loop of programFlash() that unlocks and erases, for any card and any interrupt, with fuel for 72
-- rounds or more: it ends. If it returns, it has written to the flash, besides the checks of its state, just what
-- unlocks and erases the 71 blocks of 0x10000 from 0x01000000 to 0x01460000, in rising order, each
-- unlocked before it is erased. If it throws, the card refused an access, the state of the flash
-- stayed bad, or it was interrupted.
pub erase_blocks_lem :
    (card : Card) (interrupt : Log → Bool) (fuel blocks : ℕ)
    → 72 ≤ blocks
    → Writes (erases 71 address_start) (erase_blocks card interrupt fuel blocks address_start)
erase_blocks_lem card interrupt fuel blocks h =
    erase_blocks-Writes card interrupt fuel 71 blocks address_start (omega arith) (omega (arith, h))
