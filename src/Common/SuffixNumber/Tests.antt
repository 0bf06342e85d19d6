-- ===== src/Common/SuffixNumber/Tests.antt =====
-- The reading of 3Ki as a number of 16 bits.
use flp_prototype.Base.{List, Option, [], refl, some, ℕ, ◌*◌, ◌+◌, ◌-◌, ◌∷◌, ◌≡◌}
use flp_prototype.Common.SuffixNumber.{number, is_numeric, parse}
use flp_prototype.Common.SuffixNumber.Parse.{parse_lem}

abbrev digits_value : ℕ → List ℕ → Option ℕ
digits_value n [] = some n
digits_value n (c ∷ cs) = digits_value (10 * n + c - 48) cs

parse_lem_example : parse 16 (digits_value 0) (b'3' ∷ b'K' ∷ b'i' ∷ []) ≡ number 3072
unfolding is_numeric
parse_lem_example = parse_lem 16 (digits_value 0) (b'3' ∷ []) (b'K' ∷ b'i' ∷ []) (refl, tt) refl
