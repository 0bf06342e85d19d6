-- ===== src/Rorc/CrorcCard/DataGenerator.antt =====
-- The data generator of a C-RORC: armDataGenerator(), startDataGenerator(), stopDataGenerator().
use flp_prototype.Rorc.Error.{invalid_event_length}
use flp_prototype.Rorc.CrorcCard.Constants.{c_csr, c_dg1, c_dg2, c_dg3, c_dg4, start_dg, stop_dg}
use flp_prototype.Rorc.BarAccessor.{
  GeneratorPattern, alternating, constant, decremental, flying_0, flying_1, incremental,
  random_pattern, unknown_pattern,
}
use flp_prototype.Rorc.Bar.{Card, M, write_register}
use flp_prototype.Base.Int.{negsuc, pos, ℤ, eqb, neg, to_size}
use flp_prototype.Base.{
  done, false, leb, length, ltb, pure, suc, throw_if, true, undefined, zero, ℕ, ◌*◌, ◌-◌, ◌/◌, ◌==◌,
  ◌^◌, ◌||◌, if◌then◌else◌, throws, ◌%◌, ◌+◌, ◌>>=◌, ◌>>◌,
}
use Prim.Native.Nat.{bit_or}

-- logi2(): the loop from bit 31 down to the highest bit that is set; `i` rounds are left, and the
-- mask is 2 ^ (i - 1). The test is for digit i - 1, `number & mask`.
unfoldable pub highest_bit : ℕ → ℕ → ℤ
highest_bit number zero = negsuc 0
highest_bit number (suc i) = elim (number / 2 ^ i % 2 == 0) [
  | true ↦ highest_bit number i
  | false ↦ pos i
]

unfoldable pub logi2 : ℕ → ℤ
logi2 number = highest_bit number 32

-- 1 << logi2(number); a shift by a negative number is undefined.
unfoldable pub round_power_of_2 : ℕ → M ℕ
round_power_of_2 number log = elim (logi2 number) [
  | pos i ↦ done (2 ^ i) log
  | negsuc i ↦ undefined
]

unfoldable pub pattern_code : GeneratorPattern → ℕ
pattern_code unknown_pattern = 0
pattern_code constant = 1
pattern_code alternating = 2
pattern_code flying_0 = 3
pattern_code flying_1 = 4
pattern_code incremental = 5
pattern_code decremental = 6
pattern_code random_pattern = 7

-- ((length - 1) << 4) | pattern, for a length of an event
unfoldable pub block_length : ℕ → GeneratorPattern → ℕ
block_length length pattern = bit_or ((length - 1) * 2 ^ 4) (pattern_code pattern)

-- dataSize / 4, rounded towards 0
unfoldable pub event_length : ℤ → ℤ
event_length (pos n) = pos (n / 4)
event_length (negsuc n) = neg ((n + 1) / 4)

module _ (card : Card) where
  -- The size of the block, and the seed or the first word.
  unfoldable pub arm_block : ℕ → ℕ → GeneratorPattern → ℤ → M ℕ
  arm_block len init_data_word pattern seed = elim (eqb seed (pos 0)) [
    | true ↦ do
      a ← write_register card c_dg2 init_data_word
      b ← write_register card c_dg1 (block_length len pattern)
      pure len
    | false ↦ do
      rounded ← round_power_of_2 len
      a ← write_register card c_dg2 (to_size seed)
      b ← write_register card c_dg1 (bit_or (block_length rounded pattern) 0x8000_0000)
      pure rounded
  ]

  -- A negative length is below 1.
  unfoldable pub arm_data_generator : ℕ → ℕ → GeneratorPattern → ℤ → ℤ → M ℕ
  arm_data_generator init_event_number init_data_word pattern data_size seed =
      elim (event_length data_size) [
        | negsuc n ↦ throws invalid_event_length
        | pos len ↦ do
          v ← throw_if (ltb len 1 || leb 0x0008_0000 len) invalid_event_length
          rounded ← arm_block len init_data_word pattern seed
          w ← write_register card c_dg3 init_event_number
          pure rounded
      ]

  -- The number of loops less 1, or the top bit for no end.
  unfoldable pub start_data_generator : ℕ → M (Unit {0})
  start_data_generator max_loop =
      write_register card c_dg4 (if max_loop == 0 then 0x8000_0000 else (max_loop - 1) % 2 ^ 31)
      >> write_register card c_csr start_dg

  unfoldable pub stop_data_generator : M (Unit {0})
  stop_data_generator = write_register card c_csr stop_dg
