-- ===== src/Readout/DataChecker/Groups.antt =====
-- The groups of 8 words in the payloads of a block, one after the other, and the check of one of them.
use flp_prototype.Base.{
  Bool, List, Option, [], ap, arith, false, get_elem?, get_elem?-lt, length, none, not, refl, some,
  suc, true, zero, ℕ, ◌&&◌, ◌*◌, ◌++◌, ◌+◌, ◌==◌, ◌∙◌, ◌∷◌, ◌≡◌, ◌≤◌,
}
use flp_prototype.Readout.DataChecker.{DataChecker, differs, counted, count, check_payload}

abbrev pub is_value : ℕ → Option ℕ → Bool
is_value value none = false
is_value value (some word) = word == value

-- Some words are in memory, and all equal to a value, or not.
abbrev pub are_equal : List ℕ → ℕ → ℕ → ℕ → Bool
are_equal words value zero at = true
are_equal words value (suc k) at =
    is_value value (get_elem? words at) && are_equal words value k (at + 1)

-- The counter moves on with every group, and each that differs from it is an error.
abbrev pub check_all : List ℕ → List ℕ → DataChecker → DataChecker
check_all words [] c = c
check_all words (at ∷ more) c =
    check_all words more (counted (not (are_equal words c.check_value 8 at)) c)

-- The groups from a word on.
abbrev pub groups_from : ℕ → ℕ → List ℕ
groups_from zero at = []
groups_from (suc n) at = at ∷ groups_from n (at + 8)

pub check_all-append :
    (words gs bs : List ℕ) (c : DataChecker)
    → check_all words (gs ++ bs) c ≡ check_all words bs (check_all words gs c)
check_all-append words [] bs c = refl
check_all-append words (a ∷ gs) bs c =
    check_all-append words gs bs (counted (not (are_equal words c.check_value 8 a)) c)

differs-are_equal :
    (words : List ℕ) (value k at : ℕ)
    → at + k ≤ length words
    → differs words value k at ≡ some (not (are_equal words value k at))
unfolding differs
differs-are_equal words value zero at h = refl
differs-are_equal words value (suc k) at h =
    let (word, e) = get_elem?-lt words at (omega arith) in
    ground (arith, e, differs-are_equal words value k (at + 1) (omega arith))

pub check_payload-check_all :
    (words : List ℕ) (n at : ℕ) (c : DataChecker)
    → at + 8 * n ≤ length words
    → check_payload words n at c ≡ some (check_all words (groups_from n at) c)
unfolding check_payload
check_payload-check_all words zero at c h = refl
check_payload-check_all words (suc n) at c h =
    ap (λ o. elim (count c o) [ none ↦ none | some d ↦ check_payload words n (at + 8) d ])
      (differs-are_equal words c.check_value 8 at (omega arith))
    ∙ check_payload-check_all words n (at + 8) _ (omega arith)
