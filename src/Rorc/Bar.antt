-- ===== src/Rorc/Bar.antt =====
-- The registers of a card, behind RegisterReadWriteInterface. The card is not part of the program:
-- `answers` is what a read finds and `refuses` says which accesses throw, given all accesses before.
pub mod Returns
pub mod Steps
use flp_prototype.Base.{ℕ, ◌%◌, ◌^◌, Bool, true, false, List, ◌∷◌, Outcome, done, throws, undefined}
use flp_prototype.Rorc.Error.{Error, bar_access_failed}

pub data Access : Type 0 where
  wrote : ℕ → ℕ → Access
  was_read : ℕ → Access

-- The accesses made so far, newest first.
abbrev pub Log : Type 0
Log = List Access

pub record Card : Type 0 where
  pub index : ℕ
  pub answers : Log → ℕ → ℕ
  pub refuses : Log → Access → Bool

abbrev pub M : Type 0 → Type 0
M A = Log → Outcome Log Error A

access : Card → Access → M (Unit {0})
access card a log = elim (card.refuses log a) [
  | true ↦ throws bar_access_failed log
  | false ↦ done tt (a ∷ log)
]

-- Register values are uint32_t.
unfoldable pub write_register : Card → ℕ → ℕ → M (Unit {0})
unfolding access
write_register card register value = access card (wrote register (value % 2 ^ 32))

unfoldable pub read_register : Card → ℕ → M ℕ
unfolding access
read_register card register log = elim (access card (was_read register) log) [
  | done u l ↦ done (card.answers log register % 2 ^ 32) l
  | throws e l ↦ throws e l
  | undefined ↦ undefined
]
