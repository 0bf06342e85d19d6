-- ===== src/Rorc/Bar/Steps.antt =====
-- Rules for one register access at the head of a sequence of accesses.
use flp_prototype.Base.{ℕ, ◌%◌, ◌^◌, ◌∷◌, Ensures, ◌>>=◌, ◌>>◌, arith, ◌≡◌, false, true}
use flp_prototype.Rorc.Error.{Error, bar_access_failed}
use flp_prototype.Rorc.Bar.{Card, Log, M, wrote, was_read, write_register, read_register}

-- What a read finds now.
abbrev pub answer : Card → Log → ℕ → ℕ
answer card log register = card.answers log register % 2 ^ 32

module _ {A : Type 0} (card : Card) (P : A → Log → Type 0) (Q : Error → Log → Type 0) where
  pub read-then :
      (register : ℕ) (k : ℕ → M A) (log : Log)
      → Q bar_access_failed log
      → Ensures (k (answer card log register) (was_read register ∷ log)) P Q
      → Ensures ((read_register card register >>= k) log) P Q
  unfolding read_register
  read-then register k log q h = ground arith

  pub write-then :
      (register value : ℕ) (k : M A) (log : Log)
      → Q bar_access_failed log
      → Ensures (k (wrote register (value % 2 ^ 32) ∷ log)) P Q
      → Ensures ((write_register card register value >> k) log) P Q
  unfolding write_register
  write-then register value k log q h = ground arith

pub wrote-Ensures :
    (card : Card) (register value : ℕ) (log : Log)
    → Ensures
        (write_register card register value log)
        (λ u l. l ≡ wrote register (value % 2 ^ 32) ∷ log)
        (λ e l. (e ≡ bar_access_failed) × (l ≡ log))
unfolding write_register
wrote-Ensures card register value log = ground arith

pub was_read-Ensures :
    (card : Card) (register : ℕ) (log : Log)
    → Ensures
        (read_register card register log)
        (λ v l. (v ≡ answer card log register) × (l ≡ was_read register ∷ log))
        (λ e l. (e ≡ bar_access_failed) × (l ≡ log))
unfolding read_register
was_read-Ensures card register log = ground arith

-- A read throws exactly if the card refuses it.
pub read_register-Ensures :
    (card : Card) (register : ℕ) (log : Log)
    → Ensures
        (read_register card register log)
        (λ v l.
          (card.refuses log (was_read register) ≡ false)
          × ((v ≡ answer card log register) × (l ≡ was_read register ∷ log)))
        (λ e l. card.refuses log (was_read register) ≡ true)
unfolding read_register
read_register-Ensures card register log = ground arith
