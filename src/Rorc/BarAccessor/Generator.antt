-- ===== src/Rorc/BarAccessor/Generator.antt =====
-- The register of the data generator, written by BarAccessor.h.
use flp_prototype.Base.{ℕ, ◌%◌, ◌≤◌, ◌≡◌, ◌⊎◌, Bool, ◌∷◌}
use flp_prototype.Rorc.Error.{Error, bar_access_failed}
use flp_prototype.Rorc.Bar.{Card, Log, wrote, was_read}
use flp_prototype.Rorc.BarAccessor.{
  GeneratorPattern, unknown_pattern, constant, alternating, flying_0, flying_1, incremental,
  decremental, random_pattern, dma_page_size, data_generator_control,
}

-- The patterns that the CRU has.
abbrev pub IsSupported : GeneratorPattern → Type 0
IsSupported unknown_pattern = ⊥
IsSupported constant = Unit {0}
IsSupported alternating = Unit {0}
IsSupported flying_0 = ⊥
IsSupported flying_1 = ⊥
IsSupported incremental = Unit {0}
IsSupported decremental = ⊥
IsSupported random_pattern = ⊥

-- A size of whole 32-byte words, from one up to a page.
abbrev pub SizeFits : ℕ → Type 0
SizeFits size = (size % 32 ≡ 0) × (32 ≤ size) × (size ≤ dma_page_size)

-- The register was read, at most, and what the exception says of the arguments.
abbrev pub Refuses : GeneratorPattern → ℕ → Log → Error → Log → Type 0
Refuses pattern size log e l =
    ((l ≡ log) ⊎ (l ≡ was_read data_generator_control ∷ log))
    × ((e ≡ bar_access_failed) ⊎ (¬ (IsSupported pattern × SizeFits size)))

-- The register was read and then written, once.
abbrev pub Writes : GeneratorPattern → ℕ → Log → Log → Type 0
Writes pattern size log l =
    IsSupported pattern
    × SizeFits size
    × ((value : ℕ) × (l
          ≡ wrote data_generator_control value ∷ was_read data_generator_control ∷ log))

module _ (card : Card) (pattern : GeneratorPattern) (size : ℕ) (random : Bool) (log : Log) where
  read : Log
  read = was_read data_generator_control ∷ log

  Good : Unit {0} → Log → Type 0
  Good u l = Writes pattern size log l

  Bad : Error → Log → Type 0
  Bad e l = Refuses pattern size log e l
