-- ===== src/Common/SuffixNumber.antt =====
-- Common/include/Common/SuffixNumber.h and Common/src/SuffixNumber.cxx: a number with a unit behind it, for
-- an unsigned type of w bits. The conversion of digits is Boost's, a parameter.
pub mod Parse
mod Tests
use flp_prototype.Base.{
  Bool, List, Option, [], false, if◌then◌else◌, leb, none, not, some, true, ℕ, ◌%◌, ◌&&◌, ◌*◌, ◌/◌,
  ◌==◌, ◌^◌, ◌||◌, ◌∷◌,
}

pub data Parsed : Type 0 where
  number : ℕ → Parsed
  could_not_convert too_large unrecognized_unit : List ℕ → Parsed

-- The tests for a character of "-.0123456789".
unfoldable pub is_numeric : ℕ → Bool
is_numeric c = (c == b'-') || (c == b'.') || (leb b'0' c && leb c b'9')

abbrev pub cons_if : Bool → ℕ → List ℕ → List ℕ
cons_if true c cs = c ∷ cs
cons_if false c cs = []

-- input.substr(0, pos), where `pos` is the first place with another character.
unfoldable pub numeric_part : List ℕ → List ℕ
numeric_part [] = []
numeric_part (c ∷ cs) = cons_if (is_numeric c) c (numeric_part cs)

abbrev pub after_if : Bool → List ℕ → List ℕ → List ℕ
after_if true all later = later
after_if false all later = all

-- input.substr(pos), empty if there is no such place.
unfoldable pub unit_part : List ℕ → List ℕ
unit_part [] = []
unit_part (c ∷ cs) = after_if (is_numeric c) (c ∷ cs) (unit_part cs)

abbrev pub same : List ℕ → List ℕ → Bool
same [] [] = true
same (c ∷ cs) (d ∷ ds) = (c == d) && same cs ds
same cs ds = false

abbrev pub units : List (List ℕ × ℕ)
units =
    ((b'k' ∷ []), 1000)
    ∷ ((b'M' ∷ []), 1000000)
    ∷ ((b'G' ∷ []), 1000000000)
    ∷ ((b'T' ∷ []), 1000000000000)
    ∷ ((b'P' ∷ []), 1000000000000000)
    ∷ ((b'E' ∷ []), 1000000000000000000)
    ∷ ((b'K' ∷ b'i' ∷ []), 1024)
    ∷ ((b'M' ∷ b'i' ∷ []), 1048576)
    ∷ ((b'G' ∷ b'i' ∷ []), 1073741824)
    ∷ ((b'T' ∷ b'i' ∷ []), 1099511627776)
    ∷ ((b'P' ∷ b'i' ∷ []), 1125899906842624)
    ∷ ((b'E' ∷ b'i' ∷ []), 1152921504606846976)
    ∷ []

-- The product and the check for an overflow. The factors have the type of w bits; for w = 16 they are
-- promoted to int, where a product of 2 ^ 31 or more is undefined, and is taken as reduced here.
unfoldable pub multiply : ℕ → List ℕ → ℕ → ℕ → Parsed
multiply w input a unit =
    let b = unit % 2 ^ w in
    let multiplied = a * b % 2 ^ w in
    if not (a == 0) && not (multiplied / a == b) then too_large input else number multiplied

-- The loop over the units.
unfoldable pub find_unit : ℕ → List ℕ → ℕ → List ℕ → List (List ℕ × ℕ) → Parsed
find_unit w input a unit_string [] = unrecognized_unit unit_string
find_unit w input a unit_string (unit ∷ more) =
    let rest = find_unit w input a unit_string more in
    if same unit_string unit.0 then multiply w input a unit.1 else rest

abbrev pub with_unit : ℕ → List ℕ → ℕ → List ℕ → Parsed
with_unit w input a [] = number a
with_unit w input a (c ∷ cs) = find_unit w input a (c ∷ cs) units

abbrev pub converted : ℕ → List ℕ → Option ℕ → Parsed
converted w input none = could_not_convert (numeric_part input)
converted w input (some a) = with_unit w input a (unit_part input)

unfoldable pub parse : ℕ → (List ℕ → Option ℕ) → List ℕ → Parsed
parse w lexical_convert input = converted w input (lexical_convert (numeric_part input))
