-- ===== src/Rorc/CrorcCard/Blocks.antt =====
-- armDataGenerator(): the length of the events, and what goes to the card.
use flp_prototype.Rorc.CrorcCard.Powers.{IsFloor}
use flp_prototype.Rorc.Error.{Error, bar_access_failed, invalid_event_length}
use flp_prototype.Rorc.CrorcCard.Constants.{c_dg1, c_dg2, c_dg3}
use flp_prototype.Rorc.BarAccessor.{GeneratorPattern}
use flp_prototype.Rorc.Bar.{Card, Log, write_register, wrote, M}
use Prim.Native.Nat.{bit_or}
use flp_prototype.Rorc.CrorcCard.DataGenerator.{arm_block, block_length, event_length}
use flp_prototype.Base.Int.{pos, eqb, to_size, ℤ, negsuc}
use flp_prototype.Base.{
  ℕ, ◌%◌, ◌<◌, ◌^◌, ◌≡◌, ◌≤◌, if◌then◌else◌, pure, ◌>>=◌, ◌∷◌, ◌≢◌, ◌⊎◌, leb, ltb, throw_if, throws,
  ◌||◌,
}

-- How long the events are, that were asked to have this length.
abbrev pub Rounds : ℤ → ℕ → ℕ → Type 0
Rounds seed len rounded =
    ((seed ≡ pos 0) × (rounded ≡ len))
    ⊎ ((seed ≢ pos 0) × (i : ℕ) × (rounded ≡ 2 ^ i) × IsFloor i len)

abbrev pub first_word : ℤ → ℕ → ℕ
first_word seed init_data_word = if eqb seed (pos 0) then init_data_word else to_size seed

abbrev pub block_word : ℤ → ℕ → GeneratorPattern → ℕ
block_word seed rounded pattern =
    if eqb seed (pos 0)
    then block_length rounded pattern
    else bit_or (block_length rounded pattern) 0x8000_0000

-- The three registers of the generator are written, and the length fits.
pub record Arms (card : Card) (event word : ℕ) (pattern : GeneratorPattern) (size seed : ℤ)
    (log : Log) (rounded : ℕ) (l : Log) : Type 0 where
  pub len : ℕ
  pub len_lem : event_length size ≡ pos len
  pub len_pos : 0 < len
  pub len_lt : len < 0x0008_0000
  pub rounds : Rounds seed len rounded
  pub written :
      l
      ≡ wrote c_dg3 (event % 2 ^ 32)
        ∷ wrote c_dg1 (block_word seed rounded pattern % 2 ^ 32)
        ∷ wrote c_dg2 (first_word seed word % 2 ^ 32)
        ∷ log

-- The length of the events does not fit.
abbrev pub NoLength : ℤ → Type 0
NoLength size = (len : ℕ) → event_length size ≡ pos len → (len ≡ 0) ⊎ (0x0008_0000 ≤ len)

module _ (card : Card) (event word : ℕ) (pattern : GeneratorPattern) (size seed : ℤ)
    (log : Log) where
  abbrev Failed : Error → Log → Type 0
  Failed e l = (e ≡ bar_access_failed) ⊎ ((e ≡ invalid_event_length) × (l ≡ log) × NoLength size)

  -- After the seed and the block.
  abbrev BlockSet : ℕ → ℕ → Log → Type 0
  BlockSet len rounded l =
      Rounds seed len rounded
      × (l
          ≡ wrote c_dg1 (block_word seed rounded pattern % 2 ^ 32)
            ∷ wrote c_dg2 (first_word seed word % 2 ^ 32)
            ∷ log)

  -- What is done for a length.
  abbrev for_length : ℤ → M ℕ
  for_length z = elim z [
    | negsuc n ↦ throws invalid_event_length
    | pos len ↦ throw_if (ltb len 1 || leb 0x0008_0000 len) invalid_event_length >>= λ v.
        arm_block card len word pattern seed >>= λ rounded.
        write_register card c_dg3 event >>= λ w. pure rounded
  ]
