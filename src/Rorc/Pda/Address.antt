-- ===== src/Rorc/Pda/Address.antt =====
-- The scatter-gather list maps every offset of the buffer, and the BAR check refuses a register.
use flp_prototype.Base.{
  ℕ, ◌+◌, ◌-◌, ◌%◌, ◌^◌, ◌<◌, ◌≡◌, arith, true, false, List, [], ◌∷◌, some, done, ltb, ◌↔◌,
}
use flp_prototype.Rorc.Pda.{SgEntry, find_bus_address, get_bus_offset_address, PdaBar, assert_range}

-- The entries follow one another in userspace from `start` on, and end before the address space does.
abbrev pub IsContiguous : ℕ → List SgEntry → Type 0
IsContiguous start [] = start < 2 ^ 64
IsContiguous start (e ∷ es) = (e.address_user ≡ start) × IsContiguous (start + e.size) es

abbrev pub total : List SgEntry → ℕ
total [] = 0
total (e ∷ es) = e.size + total es

-- The bus address of the byte at `offset`, entry after entry.
abbrev pub bus_byte : List SgEntry → ℕ → ℕ
bus_byte [] offset = 0
bus_byte (e ∷ es) offset = elim (ltb offset e.size) [
  | true ↦ (e.address_bus + offset) % 2 ^ 64
  | false ↦ bus_byte es (offset - e.size)
]

contiguous_end : (start : ℕ) (es : List SgEntry) → IsContiguous start es → start + total es < 2 ^ 64
contiguous_end start [] h = omega arith
contiguous_end start (e ∷ es) h = omega (arith, contiguous_end (start + e.size) es h.1)

find_bus_address_lem :
    (start : ℕ) (es : List SgEntry) (offset : ℕ)
    → IsContiguous start es
    → offset < total es
    → find_bus_address (start + offset) es ≡ some (bus_byte es offset)
unfolding find_bus_address
find_bus_address_lem start [] offset h lt = absurd (omega arith)
find_bus_address_lem start (e ∷ es) offset h lt = ground (
  arith,
  contiguous_end start (e ∷ es) h,
  find_bus_address_lem (start + e.size) es (offset - e.size) h.1,
)

-- getBusOffsetAddress() on a scatter-gather list that is contiguous in userspace, for every offset
-- in the buffer: it returns the bus address of that byte, which lies in the entry that holds the
-- offset, as far behind its start as the user address is. It never throws there.
pub get_bus_offset_address_lem :
    {S : Type 0} (start : ℕ) (es : List SgEntry) (offset : ℕ) (s : S)
    → IsContiguous start es
    → offset < total es
    → get_bus_offset_address es offset s ≡ done (bus_byte es offset) s
unfolding get_bus_offset_address
get_bus_offset_address_lem start [] offset s h lt = absurd (omega arith)
get_bus_offset_address_lem start (e ∷ es) offset s h lt =
    ground (arith, contiguous_end start (e ∷ es) h, find_bus_address_lem start (e ∷ es) offset h lt)

-- The range check of a BAR that does not reach the end of the address space passes exactly the
-- offsets whose four bytes end before the last byte of the BAR; so the register that ends with the
-- BAR's last byte is refused.
pub assert_range_lem :
    {S : Type 0} (b : PdaBar) (offset : ℕ) (s : S)
    → b.userspace_address + b.bar_length < 2 ^ 64
    → b.userspace_address + offset + 4 < 2 ^ 64
    → (assert_range b offset s ≡ done tt s) ↔ (offset + 4 < b.bar_length)
unfolding assert_range
assert_range_lem b offset s h k = (λ e. ground arith, λ e. ground arith)
