-- ===== src/Rorc/Bits.antt =====
-- The bit helpers of RORC/src/Utilities/Util.h, at uint32_t and uint64_t.
use Prim.Native.Nat.{bit_and, bit_or}
use flp_prototype.Base.{ℕ, ◌+◌, ◌-◌, ◌/◌, ◌^◌, Bool, if◌then◌else◌}

unfoldable pub get_lower_32_bits : ℕ → ℕ
get_lower_32_bits x = bit_and x 0xffff_ffff

unfoldable pub get_upper_32_bits : ℕ → ℕ
get_upper_32_bits x = bit_and (x / 2 ^ 32) 0xffff_ffff

unfoldable pub get_bit : ℕ → ℕ → ℕ
get_bit x index = bit_and (x / 2 ^ index) 1

-- bits |= 1 << index, or bits &= ~(1 << index), in 32 bits
unfoldable pub set_bit : ℕ → ℕ → Bool → ℕ
set_bit bits index value =
    if value then bit_or bits (2 ^ index) else bit_and bits (0xffff_ffff - 2 ^ index)

-- (x >> lsb) & ~(~0 << (msb - lsb + 1)): the mask has msb - lsb + 1 ones
unfoldable pub get_bits : ℕ → ℕ → ℕ → ℕ
get_bits x lsb msb = bit_and (x / 2 ^ lsb) (2 ^ (msb - lsb + 1) - 1)
