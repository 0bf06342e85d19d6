-- ===== src/Rorc/LinkMask/Ranges.antt =====
-- The links that a string names.
use native.Mathlib.Decide.{dec_lt}
use flp_prototype.Base.{
  List, Option, [], arith, leb, some, suc, zero, ℕ, ◌&&◌, ◌+◌, ◌-◌, ◌<◌, ◌^◌, ◌||◌, ◌∷◌, ◌≡◌, Bool,
  ap, false, fun_ext, true, ◌%◌, ◌∙◌, ◌≤◌, refl,
}
use flp_prototype.Rorc.LinkMask.{
  LinkSet, insert, parsed, invalid_format, bad_lexical_cast, goes_on, split, insert_range, from_to,
  single, insert_part, insert_parts, link_mask_from_string,
}

-- The first and the last link that a part names, given as what its dashes separate.
pub data Names (lexical_cast : List ℕ → Option ℕ) : List (List ℕ) → ℕ → ℕ → Type 0 where
  one_link :
      {part : List ℕ} → {n : ℕ} → lexical_cast part ≡ some n → Names lexical_cast (part ∷ []) n n
  dashed :
      {a b : List ℕ}
      → {first last : ℕ} → lexical_cast a ≡ some first
      → lexical_cast b ≡ some last
      → Names lexical_cast (a ∷ b ∷ []) first last

-- The parts name these ranges, none with the greatest number of the type.
pub data AreRanges (lexical_cast : List ℕ → Option ℕ) : List (List ℕ) → List (ℕ × ℕ) → Type 0 where
  no_parts : AreRanges lexical_cast [] []
  one_more :
      {part : List ℕ}
      → {parts : List (List ℕ)} → {ranges : List (ℕ × ℕ)} → (first last : ℕ)
      → Names lexical_cast (split b'-' part) first last
      → last < 2 ^ 32 - 1
      → AreRanges lexical_cast parts ranges
      → AreRanges lexical_cast (part ∷ parts) ((first, last) ∷ ranges)

abbrev pub within : ℕ → ℕ → ℕ → Bool
within first last i = leb first i && leb i last

abbrev pub joined : ℕ → ℕ → LinkSet → LinkSet
joined first last links i = within first last i || links i

-- A number is in one of the ranges, or in a set.
abbrev pub in_ranges : List (ℕ × ℕ) → LinkSet → LinkSet
in_ranges [] links = links
in_ranges (range ∷ ranges) links = in_ranges ranges (joined range.0 range.1 links)

range_round :
    (fuel first last : ℕ) (links : LinkSet) (b : Bool)
    → leb first last ≡ b
    → insert_range (suc fuel) first last links ≡ elim b [
      | true ↦ insert_range fuel ((first + 1) % 2 ^ 32) last (insert first links)
      | false ↦ parsed links
    ]
unfolding insert_range
range_round fuel first last links b e =
    ap
      (λ b. elim b [
        | true ↦ insert_range fuel ((first + 1) % 2 ^ 32) last (insert first links)
        | false ↦ parsed links
      ])
      e

none_within : (first last : ℕ) (links : LinkSet) → last < first → links ≡ joined first last links
none_within first last links over = fun_ext (λ i. ground arith)

one_within :
    (first last : ℕ) (links : LinkSet)
    → first ≤ last
    → joined (first + 1) last (insert first links) ≡ joined first last links
one_within first last links inside = fun_ext (λ i. ground arith)

insert_range_lem :
    (fuel first last : ℕ) (links : LinkSet)
    → last < 2 ^ 32 - 1
    → last + 1 < first + fuel
    → 0 < fuel
    → insert_range fuel first last links ≡ parsed (joined first last links)
insert_range_lem zero first last links l h p = absurd (omega arith)
insert_range_lem (suc fuel) first last links l h p = elim (dec_lt last first) [
  | yes over ↦
      range_round fuel first last links false (ground arith)
      ∙ ap parsed (none_within first last links over)
  | no inside ↦
      range_round fuel first last links true (ground arith)
      ∙ ap (λ i. insert_range fuel i last (insert first links))
          (let e : (first + 1) % 2 ^ 32 ≡ first + 1 = omega arith in e)
      ∙ insert_range_lem fuel (first + 1) last (insert first links) l (omega arith) (omega arith)
      ∙ ap parsed (one_within first last links (omega arith))
]

single_within : (n : ℕ) (links : LinkSet) → insert n links ≡ joined n n links
single_within n links = fun_ext (λ i. ground arith)

insert_part_lem :
    (lexical_cast : List ℕ → Option ℕ) (fuel : ℕ) (parts : List (List ℕ)) (first last : ℕ)
    (links : LinkSet)
    → Names lexical_cast parts first last
    → last < 2 ^ 32 - 1
    → last + 1 < fuel
    → insert_part lexical_cast fuel parts links ≡ parsed (joined first last links)
unfolding insert_part
insert_part_lem lexical_cast fuel _ n _ links (one_link e) l f =
    ap (λ o. single o links) e ∙ ap parsed (single_within n links)
insert_part_lem lexical_cast fuel _ first last links (dashed {b = b} d e) l f =
    ap (λ o. from_to fuel o (lexical_cast b) links) d
    ∙ ap (λ o. from_to fuel (some first) o links) e
    ∙ insert_range_lem fuel first last links l (omega arith) (omega arith)

insert_parts_lem :
    (lexical_cast : List ℕ → Option ℕ) (fuel : ℕ) (parts : List (List ℕ)) (ranges : List (ℕ × ℕ))
    (links : LinkSet)
    → AreRanges lexical_cast parts ranges
    → 2 ^ 32 ≤ fuel
    → insert_parts lexical_cast fuel parts links ≡ parsed (in_ranges ranges links)
unfolding insert_parts
insert_parts_lem lexical_cast fuel _ _ links no_parts f = refl
insert_parts_lem lexical_cast fuel (part ∷ parts) _ links
      (one_more {ranges = ranges} first last v l w) f =
    ap
      (λ o. elim o [
        | parsed l ↦ insert_parts lexical_cast fuel parts l
        | invalid_format ↦ invalid_format
        | bad_lexical_cast ↦ bad_lexical_cast
        | goes_on ↦ goes_on
      ])
      (insert_part_lem lexical_cast fuel (split b'-' part) first last links v l (omega arith))
    ∙ insert_parts_lem lexical_cast fuel parts ranges (joined first last links) w f

-- linkMaskFromString() ends and gives exactly the links that the parts of the string between its commas name: a
-- part with no dash the number that it is, one with a dash all numbers from the first to the second,
-- none if the second is smaller. This holds for any conversion of digits, where each part is of this form and
-- converted, and no last link is the greatest uint32_t; 2 ^ 32 rounds of each loop are enough.
pub link_mask_from_string_lem :
    (lexical_cast : List ℕ → Option ℕ) (fuel : ℕ) (string : List ℕ) (ranges : List (ℕ × ℕ))
    → AreRanges lexical_cast (split b',' string) ranges
    → 2 ^ 32 ≤ fuel
    → link_mask_from_string lexical_cast fuel string ≡ parsed (in_ranges ranges (λ i. false))
unfolding link_mask_from_string
link_mask_from_string_lem lexical_cast fuel string ranges v f =
    insert_parts_lem lexical_cast fuel (split b',' string) ranges (λ i. false) v f
