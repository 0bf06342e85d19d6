-- ===== src/Rorc/CrorcCard/FlashGrows.antt =====
-- The steps of programFlash() but its wait for a good state: none throws that the flash is stuck.
use flp_prototype.Rorc.Error.{bad_flash_status}
use flp_prototype.Rorc.CrorcCard.NotGood.{
  >>=-Grows, Grows, pure-Grows, read_register-Grows, write_register-Grows,
}
use flp_prototype.Rorc.CrorcCard.Registers.{branch}
use flp_prototype.Rorc.CrorcCard.Polling.{until}
use flp_prototype.Rorc.CrorcCard.Program.{check_interrupt, erase_blocks, write_status_wait}
use flp_prototype.Rorc.CrorcCard.Flash.{
  address_end, address_register, check_status, data_status_register, erase_block, init, magic_0,
  magic_1, magic_2, magic_3, magic_4, magic_5, magic_6, magic_7, magic_8, max_wait, read_status,
  ready_register, unlock_block, wait_ready, write_status_sleep,
}
use flp_prototype.Rorc.Bar.{Card, Log, M, read_register, write_register}
use flp_prototype.Base.{
  Bool, Bool-cases, arith, false, inl, inr, leb, pure, suc, true, zero, ℕ, ◌==◌, ◌>>=◌,
}

module _ (card : Card) where
  pub branch-Grows :
      {A : Type 0} (b : Bool) (m n : M A) → Grows card m → Grows card n → Grows card (branch b m n)
  branch-Grows true m n h g log = h log
  branch-Grows false m n h g log = g log

  pub sleep-Grows : (value : ℕ) → Grows card (write_status_sleep card value)
  unfolding write_status_sleep
  sleep-Grows value = write_register-Grows card data_status_register value

  pub sleeps :
      {B : Type 0} (value : ℕ) (k : Unit {0} → M B)
      → ((u : Unit {0}) → Grows card (k u))
      → Grows card (write_status_sleep card value >>= k)
  sleeps value k h = >>=-Grows card (write_status_sleep card value) k (sleep-Grows value) h

  pub read_status-Grows : Grows card (read_status card)
  unfolding read_status
  read_status-Grows = sleeps magic_1 _ (λ u. read_register-Grows card address_register)

  pub until-Grows :
      (step : M Bool) (n : ℕ) → Grows card step → Grows card (until step bad_flash_status n)
  unfolding until
  until-Grows step zero h log = λ e. cc
  until-Grows step (suc n) h log =
      >>=-Grows card step _ h
        (λ found.
          branch-Grows found (pure tt) (until step bad_flash_status n) (pure-Grows card tt)
            (until-Grows step n h))
        log

  pub check_status-Grows : Grows card (check_status card)
  unfolding check_status
  check_status-Grows =
      until-Grows (read_status card >>= λ status. pure (status == magic_0)) max_wait (
        >>=-Grows card (read_status card) _ read_status-Grows (λ v. pure-Grows card (v == magic_0)))

  pub init-Grows : (address : ℕ) → Grows card (init card address)
  unfolding init
  init-Grows address = sleeps magic_2 _ (λ a. sleeps magic_3 _ (λ b. sleeps magic_4 _ (λ c.
      sleeps magic_5 _ (λ d. sleeps address _ (λ e. sleeps magic_6 _ (λ f. read_status-Grows))))))

  pub unlock_block-Grows : (address : ℕ) → Grows card (unlock_block card address)
  unfolding unlock_block
  unlock_block-Grows address = sleeps magic_3 _ (λ a.
      sleeps address _ (λ b. sleeps magic_4 _ (λ c. sleeps magic_7 _ (λ d. check_status-Grows))))

  pub erase_block-Grows : (address : ℕ) → Grows card (erase_block card address)
  unfolding erase_block
  erase_block-Grows address = sleeps address _ (λ a.
      sleeps address _ (λ b. sleeps magic_8 _ (λ c. sleeps magic_7 _ (λ d. check_status-Grows))))

  pub wait_ready-Grows : (fuel : ℕ) → Grows card (wait_ready card fuel)
  unfolding wait_ready
  wait_ready-Grows zero log = tt
  wait_ready-Grows (suc fuel) log =
      >>=-Grows card (read_register card ready_register) _ (read_register-Grows card ready_register)
        (λ status.
          branch-Grows (status == 0) (wait_ready card fuel) (pure tt) (wait_ready-Grows fuel)
            (pure-Grows card tt))
        log

module _ (card : Card) (interrupt : Log → Bool) (fuel : ℕ) where
  pub check_interrupt-Grows : Grows card (check_interrupt card interrupt fuel)
  unfolding check_interrupt
  check_interrupt-Grows log = elim (Bool-cases (interrupt log)) [
    | inl e ↦ rw e (λ n. cc)
    | inr e ↦ rw e (omega arith)
  ]

  pub write_status_wait-Grows :
      (value : ℕ) → Grows card (write_status_wait card interrupt fuel value)
  unfolding write_status_wait
  write_status_wait-Grows value =
      >>=-Grows card (write_register card data_status_register value) _
        (write_register-Grows card data_status_register value) (λ a. wait_ready-Grows card fuel)

  pub erase_blocks-Grows :
      (blocks address : ℕ) → Grows card (erase_blocks card interrupt fuel blocks address)
  unfolding erase_blocks
  erase_blocks-Grows zero address log = tt
  erase_blocks-Grows (suc blocks) address log =
      branch-Grows card (leb address address_end) _ (pure tt)
        (>>=-Grows card (check_interrupt card interrupt fuel) _ check_interrupt-Grows (λ a.
          >>=-Grows card (unlock_block card address) _ (unlock_block-Grows card address) (λ b.
            >>=-Grows card (erase_block card address) _ (erase_block-Grows card address)
              (λ c. erase_blocks-Grows blocks _))))
        (pure-Grows card tt) log
