-- ===== src/Rorc/CrorcCard/ResetSiu.antt =====
-- ddlResetSiu(): the rounds that ask the DIU and the SIU for their states.
use flp_prototype.Rorc.Error.{Error, siu_reset_failed}
use flp_prototype.Rorc.CrorcCard.Reset.{reset_rounds}
use flp_prototype.Rorc.CrorcCard.Registers.{has}
use flp_prototype.Rorc.CrorcCard.Link.{command_word, StWord}
use flp_prototype.Rorc.CrorcCard.Constants.{diu, error_bit, optran, siu, stmask, rand_cifst}
use flp_prototype.Rorc.CrorcCard.Commands.{commands}
use flp_prototype.Rorc.CrorcCard.Answer.{Ends, IsLastRead}
use flp_prototype.Rorc.Bar.{Card, Log, M}
use flp_prototype.Base.Int.{ℤ, pos}
use flp_prototype.Base.{
  Ensures, Option, false, length, none, some, ℕ, ◌+◌, ◌≡◌, ◌≤◌, pure, ◌*◌, Outcome, ◌%◌, ◌^◌, ◌∷◌,
}
use Prim.Native.Nat.{bit_and}

abbrev pub masked : StWord → ℕ
masked w = bit_and w.stw stmask

-- The card has answered the command that asks the DIU by a word with no error and no open transaction, and then, as the last
-- access, the one that asks the SIU by a word with no error.
pub record Healthy (card : Card) (l : Log) : Type 0 where
  pub diu_word : StWord
  pub diu_transid : ℤ
  pub before : Log
  pub between : Log
  pub diu_asked :
      commands between ≡ command_word (pos diu) rand_cifst diu_transid 0 % 2 ^ 32 ∷ commands before
  pub diu_read : IsLastRead card diu_word between
  pub diu_ends : Ends diu_transid diu diu_word
  pub diu_error : has (masked diu_word) error_bit ≡ false
  pub diu_open : has (masked diu_word) optran ≡ false
  pub siu_word : StWord
  pub siu_transid : ℤ
  pub siu_asked :
      commands l ≡ command_word (pos siu) rand_cifst siu_transid 0 % 2 ^ 32 ∷ commands between
  pub siu_read : IsLastRead card siu_word l
  pub siu_ends : Ends siu_transid siu siu_word
  pub siu_error : has (masked siu_word) error_bit ≡ false

-- What a round that returns has seen.
abbrev Seen : Type 0 → Option ℕ → Type 0
Seen T none = T
Seen T (some t) = Unit {0}

-- At most n commands more.
abbrev pub Adds : ℕ → Log → Log → Type 0
Adds n log l = length (commands l) ≤ length (commands log) + n

module _ (card : Card) (time : ℕ) where
  abbrev SiuHealthy : Log → Log → Type 0
  SiuHealthy log l =
      (x : StWord) × (t : ℤ) × Ends t siu x
      × (commands l ≡ command_word (pos siu) rand_cifst t 0 % 2 ^ 32 ∷ commands log)
      × IsLastRead card x l
      × (has (masked x) error_bit ≡ false)

  -- What the rounds leave.
  abbrev Rounds : ℕ → Log → Outcome Log Error (Unit {0}) → Type 0
  Rounds cycle log o =
      Ensures o (λ u l. Healthy card l × Adds (2 * cycle) log l)
        (λ e l. (e ≡ siu_reset_failed) × Adds (2 * cycle) log l)

  abbrev follow : ℕ → Option ℕ → M (Unit {0})
  follow cycle o = elim o [
    | none ↦ pure tt
    | some following ↦ reset_rounds card time cycle following
  ]
