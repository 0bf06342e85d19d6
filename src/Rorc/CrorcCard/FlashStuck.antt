-- ===== src/Rorc/CrorcCard/FlashStuck.antt =====
-- programFlash() throws that the flash is stuck only after 5,000,000 bad states.
use flp_prototype.Rorc.Error.{Error, flash_stuck}
use flp_prototype.Rorc.CrorcCard.NotGood.{
  >>=-Leaves, Leaves, Seen, read_state-Leaves, write_register-Grows,
}
use flp_prototype.Rorc.CrorcCard.Registers.{branch}
use flp_prototype.Rorc.CrorcCard.Program.{
  Progress, check_interrupt, erase_blocks, program_words, settle, write_chunk, write_chunks,
  write_status_wait, write_words,
}
use flp_prototype.Rorc.CrorcCard.Flash.{
  address_register, address_start, check_status, data_status_register, init, magic_1, magic_11,
  magic_12, magic_6, magic_7,
}
use flp_prototype.Rorc.Bar.{Card, Log, M, read_register, write_register}
use flp_prototype.Base.Int.{ℤ}
use flp_prototype.Rorc.CrorcCard.FlashGrows.{
  write_status_wait-Grows, check_interrupt-Grows, check_status-Grows, init-Grows,
  erase_blocks-Grows,
}
use flp_prototype.Rorc.CrorcCard.FlashSettle.{
  Reason, Counted, then-Counted, write_words-Leaves, settle-Leaves, due,
}
use flp_prototype.Base.{
  Outcome, done, undefined, Bool, List, arith, false, inl, pure, suc, throws, true, zero, ℕ, ◌>>=◌,
  ◌≡◌,
}

branch-Leaves :
    {A : Type 0} (b : Bool) (m n : M A) (P : A → Log → Type 0) (Q : Error → Log → Type 0)
    (log : Log)
    → Leaves (m log) P Q
    → Leaves (n log) P Q
    → Leaves (branch b m n log) P Q
branch-Leaves true m n P Q log h g = h
branch-Leaves false m n P Q log h g = g

module _ (card : Card) (interrupt : Log → Bool) (fuel : ℕ) where
  write_chunk-Leaves :
      (p : Progress) (log : Log)
      → Counted card interrupt fuel p.left log
      → Leaves
          (write_chunk card interrupt fuel p log)
          (λ q l. Counted card interrupt fuel q.left l)
          (Reason card interrupt fuel)
  unfolding write_chunk
  write_chunk-Leaves p log low =
      then-Counted card interrupt fuel (check_interrupt card interrupt fuel) _ _ p.left log
        (check_interrupt-Grows card interrupt fuel) low
        (λ a l h.
          then-Counted card interrupt fuel (write_status_wait card interrupt fuel p.address) _ _
            p.left l (write_status_wait-Grows card interrupt fuel p.address) h
            (λ a l h.
              then-Counted card interrupt fuel (write_status_wait card interrupt fuel magic_11) _ _
                p.left l (write_status_wait-Grows card interrupt fuel magic_11) h
                (λ a l h.
                  then-Counted card interrupt fuel (check_status card) _ _ p.left l
                    (check_status-Grows card) h
                    (λ a l h.
                      then-Counted card interrupt fuel
                        (write_status_wait card interrupt fuel magic_12) _ _ p.left l
                        (write_status_wait-Grows card interrupt fuel magic_12) h
                        (λ a l h.
                          >>=-Leaves (write_words card interrupt fuel 32 p.left p.address p.words) _
                            (λ q l. Counted card interrupt fuel q.left l) _
                            (Reason card interrupt fuel) _ l
                            (write_words-Leaves card interrupt fuel 32 p.left p.address p.words l h)
                            (λ q l h. rest q l h) (λ e l k. k))))))
    where
      close :
          (q : Progress) (left : ℕ) (l : Log)
          → Counted card interrupt fuel left l
          → Leaves
              ((check_status card >>= λ h. pure (record q { left = left })) l)
              (λ q l. Counted card interrupt fuel q.left l)
              (Reason card interrupt fuel)
      close q left l h =
          then-Counted card interrupt fuel (check_status card) _ _ left l (check_status-Grows card)
            h (λ a l h. h)

      rest :
          (q : Progress) (l : Log)
          → Counted card interrupt fuel q.left l
          → Leaves
              ((write_status_wait card interrupt fuel magic_7 >>= λ f.
                  write_status_wait card interrupt fuel magic_1 >>= λ g.
                  read_register card address_register >>= λ status.
                  settle card interrupt fuel q.left status >>= λ left.
                  check_status card >>= λ h. pure (record q { left = left }))
                l)
              (λ q l. Counted card interrupt fuel q.left l)
              (Reason card interrupt fuel)
      rest q l h =
          then-Counted card interrupt fuel (write_status_wait card interrupt fuel magic_7) _ _
            q.left l (write_status_wait-Grows card interrupt fuel magic_7) h
            (λ a l h.
              then-Counted card interrupt fuel (write_status_wait card interrupt fuel magic_1) _ _
                q.left l (write_status_wait-Grows card interrupt fuel magic_1) h
                (λ a l h.
                  >>=-Leaves (read_register card address_register) _ (Seen card l) _
                    (Reason card interrupt fuel) _ l (read_state-Leaves card l)
                    (λ v m s.
                      >>=-Leaves (settle card interrupt fuel q.left v) _
                        (λ n l. Counted card interrupt fuel n l) _ (Reason card interrupt fuel) _ m
                        (settle-Leaves card interrupt fuel q.left v m (omega (arith, h, s.0))
                          (due card interrupt fuel q.left v l m h s))
                        (λ left n k. close q left n k) (λ e n k. k))
                    (λ e m k. inl k)))

  write_chunks-Leaves :
      (chunks : ℕ) (p : Progress) (log : Log)
      → Counted card interrupt fuel p.left log
      → Leaves
          (write_chunks card interrupt fuel chunks p log)
          (λ q l. Unit {0})
          (Reason card interrupt fuel)
  unfolding write_chunks
  write_chunks-Leaves zero p log low = tt
  write_chunks-Leaves (suc chunks) p log low =
      branch-Leaves p.at_end (pure p) (λ l. (write_chunk card interrupt fuel p >>= others) l)
        (λ q l. Unit {0}) (Reason card interrupt fuel) log tt
        (>>=-Leaves (write_chunk card interrupt fuel p) others
          (λ q l. Counted card interrupt fuel q.left l) (Reason card interrupt fuel)
          (Reason card interrupt fuel) (λ q l. Unit {0}) log (write_chunk-Leaves p log low)
          (λ q l h. write_chunks-Leaves chunks q l h) (λ e l k. k))
    where
      others : Progress → M Progress
      others q = write_chunks card interrupt fuel chunks q

  ended :
      {A : Type 0} (o : Outcome Log Error A) (P : A → Log → Type 0)
      → Leaves o P (λ e l. ¬ (e ≡ flash_stuck))
      → Leaves o (λ a l. Unit {0}) (Reason card interrupt fuel)
  ended (done a l) P h = tt
  ended (throws e l) P h = inl h
  ended undefined P h = tt

  pub program_words-Leaves :
      (blocks chunks address_flash : ℕ) (words : List ℤ) (log : Log)
      → Leaves
          (program_words card interrupt fuel blocks chunks address_flash words log)
          (λ u l. Unit {0})
          (Reason card interrupt fuel)
  unfolding program_words
  program_words-Leaves blocks chunks address_flash words log =
      then-Counted card interrupt fuel (init card address_start) _ _ 5000000 log
        (init-Grows card address_start) (omega arith)
        (λ a l h.
          then-Counted card interrupt fuel (erase_blocks card interrupt fuel blocks address_start) _
            _ 5000000 l (erase_blocks-Grows card interrupt fuel blocks address_start) h
            (λ a l h.
              >>=-Leaves (write_chunks card interrupt fuel chunks _) _ (λ q l. Unit {0}) _
                (Reason card interrupt fuel) _ l (write_chunks-Leaves chunks _ l h)
                (λ q l u. ends l) (λ e l k. k)))
    where
      ends :
          (l : Log)
          → Leaves
              ((write_register card data_status_register magic_6 >>= λ c. check_status card) l)
              (λ u l. Unit {0})
              (Reason card interrupt fuel)
      ends l =
          >>=-Leaves (write_register card data_status_register magic_6) _ _ _
            (Reason card interrupt fuel) _ l
            (write_register-Grows card data_status_register magic_6 l)
            (λ u m h. ended (check_status card m) _ (check_status-Grows card m)) (λ e n k. inl k)
