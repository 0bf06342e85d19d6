-- ===== src/Rorc/CrorcCard/FlashWrites.antt =====
-- What goes to the flash: the values written to its data and status register, between which there may
-- be any reads, and writes of the value that asks for the state.
use mathlib.Core.Path.{subst}
use flp_prototype.Rorc.CrorcCard.Polling.{Polls, times, until-Polls}
use flp_prototype.Rorc.Bar.Steps.{answer, wrote-Ensures}
use flp_prototype.Rorc.Error.{Error, bad_flash_status, bar_access_failed, flash_stuck, interrupted}
use flp_prototype.Rorc.CrorcCard.Flash.{
  data_status_register, magic_1, address_register, check_status, magic_0, max_wait, read_status,
  write_status_sleep,
}
use flp_prototype.Rorc.Bar.{Log, M, was_read, wrote, Card, read_register, write_register}
use flp_prototype.Base.{
  Ensures, List, [], ℕ, ◌++◌, ◌∷◌, >>=-Ensures, Bool, Ensures-mono, arith, inl, inr, pure, suc, sym,
  zero, ◌%◌, ◌==◌, ◌>>=◌, ◌^◌, ◌≡◌, ◌⊎◌,
}

-- `Emits values log l`: from `log` to `l` just these values were written, the newest first.
pub data Emits (log : Log) : List ℕ → Log → Type 0 where
  nothing_more : Emits log [] log
  sends :
      (v : ℕ)
      → {vs : List ℕ} → {l : Log} → Emits log vs l
      → Emits log (v ∷ vs) (wrote data_status_register v ∷ l)
  ask :
      {vs : List ℕ}
      → {l : Log} → Emits log vs l
      → Emits log vs (wrote data_status_register magic_1 ∷ l)
  look :
      (register : ℕ)
      → {vs : List ℕ} → {l : Log} → Emits log vs l
      → Emits log vs (was_read register ∷ l)

pub Emits-trans :
    {log l m : Log} {vs ws : List ℕ} → Emits log vs l → Emits l ws m → Emits log (ws ++ vs) m
Emits-trans h nothing_more = h
Emits-trans h (sends v g) = sends v (Emits-trans h g)
Emits-trans h (ask g) = ask (Emits-trans h g)
Emits-trans h (look r g) = look r (Emits-trans h g)

-- What may go wrong with the flash.
pub data FlashError : Error → Type 0 where
  access_refused : FlashError bar_access_failed
  bad_status : FlashError bad_flash_status
  stuck : FlashError flash_stuck
  stopped : FlashError interrupted

-- A step that writes these values, the newest first, if it returns.
abbrev pub Writes : {A : Type 0} → List ℕ → M A → Type 0
Writes vs m = (log : Log) → Ensures (m log) (λ a l. Emits log vs l) (λ e l. FlashError e)

pub >>=-Writes :
    {A B : Type 0} (m : M A) (k : A → M B) (vs ws : List ℕ)
    → Writes vs m
    → ((a : A) → Writes ws (k a))
    → Writes (ws ++ vs) (m >>= k)
>>=-Writes m k vs ws h r log =
    >>=-Ensures m k _ _ _ log (h log)
      (λ a l e. Ensures-mono (k a l) _ _ _ _ (r a l) (λ b x f. Emits-trans e f) (λ b x f. f))

-- The state that the next check of the flash finds.
abbrev pub ask_state : Log → Log
ask_state log = was_read address_register ∷ wrote data_status_register magic_1 ∷ log

abbrev pub status_good : Card → Log → Bool
status_good card log =
    answer card (wrote data_status_register magic_1 ∷ log) address_register == magic_0

-- A check that the card refused: the write or the read.
abbrev pub PartOfCheck : Log → Log → Type 0
PartOfCheck log l = (l ≡ log) ⊎ (l ≡ wrote data_status_register magic_1 ∷ log)

module _ (card : Card) where
  status_check :
      (log : Log)
      → Ensures
          ((read_status card >>= λ status. pure (status == magic_0)) log)
          (λ b l. (b ≡ status_good card log) × (l ≡ ask_state log))
          (λ e l. (e ≡ bar_access_failed) × PartOfCheck log l)
  unfolding read_status write_status_sleep read_register write_register
  status_check log = ground arith

-- Flash::checkStatus(), for any card: it returns after the first check that finds the state 0x80, if that
-- is one of the first 1,000,000 checks, each of which asks for the state and reads it; if none of these does, it throws after just
-- so many; otherwise the card refused an access of a check, and all before found another state.
pub check_status_lem :
    (card : Card) (log : Log)
    → Polls
        (status_good card)
        ask_state
        PartOfCheck
        bad_flash_status
        max_wait
        log
        (check_status card log)
unfolding check_status
check_status_lem card log =
    until-Polls (read_status card >>= λ status. pure (status == magic_0)) bad_flash_status
      (status_good card) ask_state PartOfCheck (status_check card) max_wait log

module _ (card : Card) where
  Emits-times : (k : ℕ) (log l : Log) → Emits log [] l → Emits log [] (times ask_state k l)
  Emits-times zero log l h = h
  Emits-times (suc k) log l h = Emits-times k log (ask_state l) (look address_register (ask h))

  pub check_status-Writes : Writes [] (check_status card)
  check_status-Writes log =
      Ensures-mono (check_status card log) _ _ _ _ (check_status_lem card log)
        (λ u l (k, (lt, fails, found, same)).
          subst (Emits log []) (sym same) (Emits-times (suc k) log log nothing_more))
        (λ e l h. elim h [
          | inl r ↦ subst FlashError (sym r.0) bad_status
          | inr r ↦ subst FlashError (sym r.0) access_refused
        ])

  pub sleep-Writes : (v : ℕ) → Writes (v % 2 ^ 32 ∷ []) (write_status_sleep card v)
  unfolding write_status_sleep
  sleep-Writes v log =
      Ensures-mono (write_register card data_status_register v log) _ _ _ _
        (wrote-Ensures card data_status_register v log)
        (λ u l h. subst (Emits log (v % 2 ^ 32 ∷ [])) (sym h) (sends (v % 2 ^ 32) nothing_more))
        (λ e l h. subst FlashError (sym h.0) access_refused)
