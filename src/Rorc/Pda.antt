-- ===== src/Rorc/Pda.antt =====
-- RORC/src/Pda: the scatter-gather list of PdaDmaBuffer.cxx and the range check of PdaBar.h.
-- Addresses are uintptr_t.
pub mod Address
use flp_prototype.Base.{
  ℕ, ◌+◌, ◌-◌, ◌%◌, ◌^◌, Bool, ◌&&◌, List, [], ◌∷◌, leb, ltb, if◌then◌else◌, Outcome, done, throws,
  Option, none, some, get_elem?,
}
use flp_prototype.Rorc.Error.{
  Error, out_of_range, bus_address_out_of_range, bar_offset_out_of_range,
}

-- ScatterGatherEntry; the kernel address plays no part.
pub record SgEntry : Type 0 where
  pub size : ℕ
  pub address_user : ℕ
  pub address_bus : ℕ

-- the loop of getBusOffsetAddress()
unfoldable pub find_bus_address : ℕ → List SgEntry → Option ℕ
find_bus_address user [] = none
find_bus_address user (e ∷ es) =
    if leb e.address_user user && ltb user ((e.address_user + e.size) % 2 ^ 64)
    then some ((e.address_bus + (user - e.address_user)) % 2 ^ 64)
    else find_bus_address user es

unfoldable pub get_bus_offset_address : {S : Type 0} → List SgEntry → ℕ → S → Outcome S Error ℕ
get_bus_offset_address [] offset s = throws out_of_range s
get_bus_offset_address (e ∷ es) offset s =
    elim (find_bus_address ((e.address_user + offset) % 2 ^ 64) (e ∷ es)) [
      | none ↦ throws bus_address_out_of_range s
      | some address ↦ done address s
    ]

-- PdaBar
pub record PdaBar : Type 0 where
  pub bar_number : ℕ
  pub bar_length : ℕ
  pub userspace_address : ℕ

-- isInRange<uint32_t>()
unfoldable pub is_in_range : PdaBar → ℕ → Bool
is_in_range b offset =
    ltb ((b.userspace_address + offset + 4) % 2 ^ 64)
      ((b.userspace_address + b.bar_length) % 2 ^ 64)

unfoldable pub assert_range : {S : Type 0} → PdaBar → ℕ → S → Outcome S Error (Unit {0})
unfolding is_in_range
assert_range b offset s =
    if is_in_range b offset then done tt s else throws bar_offset_out_of_range s

-- getSize()
unfoldable pub get_size : PdaBar → ℕ
get_size b = b.bar_number
