-- ===== src/Readout/DataChecker/Tests.antt =====
-- The check of one page with two groups of 8 words, where the counter should be 5 and 6 and one word of the
-- second differs.
use flp_prototype.Base.Int.{pos}
use flp_prototype.Base.{List, arith, length-replicate, replicate, some, ℕ, ◌∷◌, ◌≡◌}
use flp_prototype.Readout.DataChecker.{DataChecker, push_data}
use flp_prototype.Readout.DataChecker.Check.{push_data_lem}

abbrev checker : DataChecker
checker = record { check_value = 5; error_count = 0; checked_pages = 9 }

abbrev page_words : List ℕ
page_words =
    0
    ∷ 0
    ∷ 0
    ∷ 4
    ∷ 0
    ∷ 0
    ∷ 0
    ∷ 0
    ∷ 0
    ∷ 0
    ∷ 0
    ∷ 0
    ∷ 0
    ∷ 0
    ∷ 0
    ∷ 0
    ∷ 5
    ∷ 5
    ∷ 5
    ∷ 5
    ∷ 5
    ∷ 5
    ∷ 5
    ∷ 5
    ∷ 6
    ∷ 6
    ∷ 6
    ∷ 6
    ∷ 6
    ∷ 6
    ∷ 7
    ∷ 6
    ∷ replicate 2016 0

push_data_lem_example :
    push_data 2 (some page_words) 0x2000 checker
    ≡ some (pos 0, record { check_value = 7; error_count = 1; checked_pages = 10 })
push_data_lem_example =
    push_data_lem page_words 0x2000 1 2 checker ((omega arith, omega arith), tt)
      (omega (arith, length-replicate {A = ℕ} 2016 0)) (omega arith) (omega arith) (omega arith)
      (omega arith)
