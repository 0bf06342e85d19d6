-- ===== src/Readout/DataChecker/Check.antt =====
-- pushData() of the data checker: the groups of all pages against one counter.
use flp_prototype.Base.Int.{pos}
use flp_prototype.Base.{
  List, Option, [], ap, arith, get_elem?, length, none, refl, some, suc, zero, ℕ, ◌%◌, ◌*◌, ◌++◌,
  ◌+◌, ◌-◌, ◌/◌, ◌<◌, ◌^◌, ◌∙◌, ◌∷◌, ◌≡◌, ◌≤◌, false, lt→ltb, not, sym, true, le→ltb,
}
use flp_prototype.Readout.DataChecker.{
  DataChecker, counted, check_payload, page_payload_size, check_sized, check_page, check_pages,
  finished, push_data,
}
use flp_prototype.Readout.DataChecker.Groups.{
  are_equal, check_all, groups_from, check_all-append, check_payload-check_all,
}

-- The groups of a page that starts at a word: its header of 16 words counts as two.
abbrev pub groups_sized : ℕ → Option ℕ → List ℕ
groups_sized at none = []
groups_sized at (some payload_size) = groups_from (payload_size - 2) (at + 16)

abbrev pub groups_of : List ℕ → ℕ → ℕ → List ℕ
groups_of words zero at = []
groups_of words (suc pages) at =
    groups_sized at (get_elem? words (at + 3)) ++ groups_of words pages (at + 2048)

-- The header of each page is in memory, and gives a size of a header at least and of a page at most.
abbrev pub IsSize : Option ℕ → Type 0
IsSize none = ⊥
IsSize (some payload_size) = (2 ≤ payload_size) × (payload_size ≤ 256)

abbrev pub ArePages : List ℕ → ℕ → ℕ → Type 0
ArePages words zero at = Unit {0}
ArePages words (suc pages) at = IsSize (get_elem? words (at + 3)) × ArePages words pages (at + 2048)

abbrev pub one_page : DataChecker → DataChecker
one_page c = record c { checked_pages = (c.checked_pages + 1) % 2 ^ 64 }

abbrev pub paged : ℕ → DataChecker → DataChecker
paged zero c = c
paged (suc pages) c = paged pages (one_page c)

rounds_lem :
    (payload_size : ℕ)
    → 2 ≤ payload_size
    → payload_size ≤ 256
    → (page_payload_size payload_size / 4 + 7) / 8 ≡ payload_size - 2
unfolding page_payload_size
rounds_lem payload_size h k = omega arith

check_sized-check_all :
    (words : List ℕ) (at : ℕ) (c : DataChecker) (o : Option ℕ)
    → IsSize o
    → at + 2048 ≤ length words
    → check_sized words at c o ≡ some (check_all words (groups_sized at o) (one_page c))
check_sized-check_all words at c none v h = absurd v
check_sized-check_all words at c (some payload_size) v h =
    ap (λ n. check_payload words n (at + 16) (one_page c)) (rounds_lem payload_size v.0 v.1)
    ∙ check_payload-check_all words (payload_size - 2) (at + 16) (one_page c) (omega (arith, v.1))

check_all-one_page :
    (words gs : List ℕ) (c : DataChecker)
    → check_all words gs (one_page c) ≡ one_page (check_all words gs c)
check_all-one_page words [] c = refl
check_all-one_page words (g ∷ gs) c =
    check_all-one_page words gs (counted (not (are_equal words c.check_value 8 g)) c)

check_all-paged :
    (words gs : List ℕ) (n : ℕ) (c : DataChecker)
    → check_all words gs (paged n c) ≡ paged n (check_all words gs c)
check_all-paged words gs zero c = refl
check_all-paged words gs (suc n) c =
    check_all-paged words gs n (one_page c) ∙ ap (paged n) (check_all-one_page words gs c)

-- After a page, with the others still to check.
abbrev others : List ℕ → ℕ → ℕ → ℕ → Option DataChecker → Option DataChecker
others words size fuel i o = elim o [
  | none ↦ none
  | some d ↦ check_pages words size fuel ((i + 8 * 1024) % 2 ^ 32) d
]

page_run :
    (words : List ℕ) (size fuel i at : ℕ) (c : DataChecker)
    → i < size
    → i ≡ 4 * at
    → IsSize (get_elem? words (at + 3))
    → at + 2048 ≤ length words
    → check_pages words size (suc fuel) i c
      ≡ check_pages words size fuel
          ((i + 8 * 1024) % 2 ^ 32)
          (check_all words (groups_sized at (get_elem? words (at + 3))) (one_page c))
unfolding check_pages check_page
page_run words size fuel i at c lt e v h =
    ap
      (λ b. elim b [
        | true ↦ others words size fuel i (check_page words (i / 4) c)
        | false ↦ some c
      ])
      (lt→ltb i size lt)
    ∙ ap (λ a. others words size fuel i (check_page words a c))
        (let q : i / 4 ≡ at = omega arith in q)
    ∙ ap (others words size fuel i)
        (check_sized-check_all words at c (get_elem? words (at + 3)) v h)

pages_end :
    (words : List ℕ) (size fuel i : ℕ) (c : DataChecker)
    → size ≤ i
    → check_pages words size (suc fuel) i c ≡ some c
unfolding check_pages
pages_end words size fuel i c h =
    ap
      (λ b. elim b [
        | true ↦ others words size fuel i (check_page words (i / 4) c)
        | false ↦ some c
      ])
      (le→ltb i size h)

check_pages-check_all :
    (words : List ℕ) (size pages fuel i at : ℕ) (c : DataChecker)
    → ArePages words pages at
    → at + 2048 * pages ≤ length words
    → i ≡ 4 * at
    → i + 8192 * pages < 2 ^ 32
    → size ≤ i + 8192 * pages
    → i + 8192 * pages < size + 8192
    → pages < fuel
    → check_pages words size fuel i c
      ≡ some (check_all words (groups_of words pages at) (paged pages c))
check_pages-check_all words size pages zero i at c v h e w ge lt f = absurd (omega arith)
check_pages-check_all words size zero (suc fuel) i at c v h e w ge lt f =
    pages_end words size fuel i c (omega arith)
check_pages-check_all words size (suc pages) (suc fuel) i at c v h e w ge lt f =
    page_run words size fuel i at c (omega arith) e v.0 (omega arith)
    ∙ check_pages-check_all words size pages fuel ((i + 8 * 1024) % 2 ^ 32) (at + 2048) _ v.1
        (omega arith) (omega arith) (omega arith) (omega arith) (omega arith) (omega arith)
    ∙ ap (λ c. some (check_all words (groups_of words pages (at + 2048)) c))
        (sym
          (check_all-paged words (groups_sized at (get_elem? words (at + 3))) pages (one_page c)))
    ∙ ap some (
        sym (
          check_all-append words (groups_sized at (get_elem? words (at + 3)))
            (groups_of words pages (at + 2048)) (paged pages (one_page c))))

-- pushData() returns 0 for a block of whole pages, each with a size of a header at least and of 8 KiB at
-- most in its header, and it has then compared the payloads of all pages with one counter, 8 words at
-- a time: the counter starts with the value that the checker has, it moves on by one with each 8
-- words of all pages, and an error is counted exactly for each 8 words that are not all equal to it; each
-- page is counted. This holds for any words, if the last page may be cut off by the size of the block
-- but is in memory, and the pages are less than 4 GiB; as many rounds as pages, and one, are enough.
pub push_data_lem :
    (words : List ℕ) (size pages fuel : ℕ) (c : DataChecker)
    → ArePages words pages 0
    → 2048 * pages ≤ length words
    → 8192 * pages < 2 ^ 32
    → size ≤ 8192 * pages
    → 8192 * pages < size + 8192
    → pages < fuel
    → push_data fuel (some words) size c
      ≡ some (pos 0, check_all words (groups_of words pages 0) (paged pages c))
unfolding push_data
push_data_lem words size pages fuel c v h w ge lt f = ap finished (
    check_pages-check_all words size pages fuel 0 0 c v (omega arith) (omega arith) (omega arith)
      (omega arith) (omega arith) f)
