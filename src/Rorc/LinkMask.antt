-- ===== src/Rorc/LinkMask.antt =====
-- RORC/src/Parameters.cxx, linkMaskFromString(). The std::set is the test that it contains a number. Boost's
-- conversion of digits to a uint32_t is a parameter, and `fuel` bounds the rounds of the loop over a range.
pub mod Ranges
mod Tests
use flp_prototype.Rorc.CrorcCard.Answer.{link}
use flp_prototype.Base.{
  Bool, List, Option, [], false, leb, none, some, suc, true, zero, ℕ, ◌%◌, ◌+◌, ◌==◌, ◌^◌, ◌||◌,
  ◌∷◌,
}

abbrev pub LinkSet : Type 0
LinkSet = ℕ → Bool

abbrev pub insert : ℕ → LinkSet → LinkSet
insert n links i = (i == n) || links i

-- A set, a string of another format, a part that is no number, or a loop that goes on.
pub data Parsed : Type 0 where
  parsed : LinkSet → Parsed
  invalid_format bad_lexical_cast goes_on : Parsed

abbrev pub cons_first : ℕ → List (List ℕ) → List (List ℕ)
cons_first c [] = []
cons_first c (part ∷ parts) = (c ∷ part) ∷ parts

abbrev pub split_at : Bool → ℕ → List (List ℕ) → List (List ℕ)
split_at true c parts = [] ∷ parts
split_at false c parts = cons_first c parts

-- boost::split(): the parts between the separators.
unfoldable pub split : ℕ → List ℕ → List (List ℕ)
split separator [] = [] ∷ []
split separator (c ∷ cs) = split_at (c == separator) c (split separator cs)

-- for (uint32_t i = start; i <= end; ++i) { links.insert(i); }
unfoldable pub insert_range : ℕ → ℕ → ℕ → LinkSet → Parsed
insert_range zero i end links = goes_on
insert_range (suc fuel) i end links = elim (leb i end) [
  | true ↦ insert_range fuel ((i + 1) % 2 ^ 32) end (insert i links)
  | false ↦ parsed links
]

abbrev pub from_to : ℕ → Option ℕ → Option ℕ → LinkSet → Parsed
from_to fuel none end links = bad_lexical_cast
from_to fuel (some start) none links = bad_lexical_cast
from_to fuel (some start) (some end) links = insert_range fuel start end links

abbrev pub single : Option ℕ → LinkSet → Parsed
single none links = bad_lexical_cast
single (some n) links = parsed (insert n links)

-- A part between commas, split at its dashes: one part means that it has none.
unfoldable pub insert_part : (List ℕ → Option ℕ) → ℕ → List (List ℕ) → LinkSet → Parsed
insert_part lexical_cast fuel (part ∷ []) links = single (lexical_cast part) links
insert_part lexical_cast fuel (first ∷ second ∷ []) links =
    from_to fuel (lexical_cast first) (lexical_cast second) links
insert_part lexical_cast fuel other links = invalid_format

unfoldable pub insert_parts : (List ℕ → Option ℕ) → ℕ → List (List ℕ) → LinkSet → Parsed
insert_parts lexical_cast fuel [] links = parsed links
insert_parts lexical_cast fuel (part ∷ parts) links =
    elim (insert_part lexical_cast fuel (split b'-' part) links) [
      | parsed l ↦ insert_parts lexical_cast fuel parts l
      | invalid_format ↦ invalid_format
      | bad_lexical_cast ↦ bad_lexical_cast
      | goes_on ↦ goes_on
    ]

unfoldable pub link_mask_from_string : (List ℕ → Option ℕ) → ℕ → List ℕ → Parsed
link_mask_from_string lexical_cast fuel string =
    insert_parts lexical_cast fuel (split b',' string) (λ i. false)
