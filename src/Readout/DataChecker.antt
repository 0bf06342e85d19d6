-- ===== src/Readout/DataChecker.antt =====
-- Readout/src/ConsumerDataChecker.cxx: the check of a block against the counter of the cards' data
-- generator. Memory is a list of 32-bit words; a read behind it is undefined, which is none. `fuel` bounds
-- the pages that are gone through. The text that is logged is left out.
pub mod Groups
pub mod Check
mod Tests
use flp_prototype.Base.Int.{negsuc, pos, rounds, ℤ}
use flp_prototype.Base.{
  Bool, List, Option, false, get_elem?, if◌then◌else◌, ltb, none, some, suc, true, zero, ℕ, ◌%◌,
  ◌*◌, ◌+◌, ◌-◌, ◌/◌, ◌==◌, ◌^◌,
}

pub record DataChecker : Type 0 where
  pub check_value : ℕ
  pub error_count : ℕ
  pub checked_pages : ℕ

-- The comparison of some words with a value, up to the first that differs.
unfoldable pub differs : List ℕ → ℕ → ℕ → ℕ → Option Bool
differs words value zero at = some false
differs words value (suc k) at = elim (get_elem? words at) [
  | none ↦ none
  | some word ↦ elim (word == value) [ true ↦ differs words value k (at + 1) | false ↦ some true ]
]

abbrev pub counted : Bool → DataChecker → DataChecker
counted differ c = record c {
  check_value = (c.check_value + 1) % 2 ^ 32;
  error_count = if differ then (c.error_count + 1) % 2 ^ 64 else c.error_count;
}

abbrev pub count : DataChecker → Option Bool → Option DataChecker
count c none = none
count c (some differ) = some (counted differ c)

-- The loop over the payload of a page, 8 words in a round.
unfoldable pub check_payload : List ℕ → ℕ → ℕ → DataChecker → Option DataChecker
check_payload words zero at c = some c
check_payload words (suc rounds) at c = elim (count c (differs words c.check_value 8 at)) [
  | none ↦ none
  | some d ↦ check_payload words rounds (at + 8) d
]

-- payloadSize * 256 / 8 - sizeof(RocPageHeader), in uint32_t and size_t, as an unsigned int
unfoldable pub page_payload_size : ℕ → ℕ
page_payload_size payload_size = (payload_size * 256 % 2 ^ 32 / 8 + (2 ^ 64 - 64)) % 2 ^ 64 % 2 ^ 32

abbrev pub check_sized : List ℕ → ℕ → DataChecker → Option ℕ → Option DataChecker
check_sized words at c none = none
check_sized words at c (some payload_size) =
    check_payload words ((page_payload_size payload_size / 4 + 7) / 8) (at + 16)
      (record c { checked_pages = (c.checked_pages + 1) % 2 ^ 64 })

-- A page that starts at a word.
unfoldable pub check_page : List ℕ → ℕ → DataChecker → Option DataChecker
check_page words at c = check_sized words at c (get_elem? words (at + 3))

unfoldable pub check_pages : List ℕ → ℕ → ℕ → ℕ → DataChecker → Option DataChecker
check_pages words size zero i c = none
check_pages words size (suc fuel) i c = elim (ltb i size) [
  | true ↦ elim (check_page words (i / 4) c) [
    | none ↦ none
    | some d ↦ check_pages words size fuel ((i + 8 * 1024) % 2 ^ 32) d
  ]
  | false ↦ some c
]

abbrev pub finished : Option DataChecker → Option (ℤ × DataChecker)
finished none = none
finished (some c) = some (pos 0, c)

-- A null pointer is none.
unfoldable pub push_data : ℕ → Option (List ℕ) → ℕ → DataChecker → Option (ℤ × DataChecker)
push_data fuel none size c = some (negsuc 0, c)
push_data fuel (some words) size c = finished (check_pages words size fuel 0 c)
