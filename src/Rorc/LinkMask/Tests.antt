-- ===== src/Rorc/LinkMask/Tests.antt =====
-- The links of the string 0,2-3.
use flp_prototype.Base.{List, Option, [], arith, false, refl, some, ℕ, ◌*◌, ◌+◌, ◌-◌, ◌^◌, ◌∷◌, ◌≡◌}
use flp_prototype.Rorc.LinkMask.{parsed, split, link_mask_from_string}
use flp_prototype.Rorc.LinkMask.Ranges.{
  one_link, dashed, no_parts, one_more, in_ranges, link_mask_from_string_lem,
}

abbrev digits_value : ℕ → List ℕ → Option ℕ
digits_value n [] = some n
digits_value n (c ∷ cs) = digits_value (10 * n + c - 48) cs

link_mask_from_string_lem_example :
    link_mask_from_string (digits_value 0) (2 ^ 32) (b'0' ∷ b',' ∷ b'2' ∷ b'-' ∷ b'3' ∷ [])
    ≡ parsed (in_ranges ((0, 0) ∷ (2, 3) ∷ []) (λ i. false))
unfolding split
link_mask_from_string_lem_example =
    link_mask_from_string_lem (digits_value 0) (2 ^ 32) (b'0' ∷ b',' ∷ b'2' ∷ b'-' ∷ b'3' ∷ [])
      ((0, 0) ∷ (2, 3) ∷ [])
      (one_more 0 0 (one_link refl) (omega arith)
        (one_more 2 3 (dashed refl refl) (omega arith) no_parts))
      (omega arith)
