-- ===== src/Rorc/CrorcCard/FlashChunks.antt =====
-- programFlash(): the words of a file, in chunks of 32, and the whole of what is in the `try`.
use flp_prototype.Rorc.CrorcCard.Rules.{branch-Ensures}
use mathlib.Core.Path.{subst}
use flp_prototype.Rorc.CrorcCard.Program.{
  Progress, settle, write_chunk, write_status_wait, check_interrupt, write_chunks, write_words,
}
use flp_prototype.Rorc.CrorcCard.FlashWrites.{check_status-Writes, nothing_more}
use flp_prototype.Rorc.CrorcCard.FlashWords.{
  >>=-Runs, BecomesReady, Runs, Writes-Runs, after_words, word_values, ask-Runs,
  check_interrupt-Runs, read-Runs, settle-Runs, write_status_wait-Runs, write_words-Runs,
}
use flp_prototype.Rorc.CrorcCard.Flash.{
  address_register, check_status, magic_1, magic_11, magic_12, magic_7,
}
use flp_prototype.Rorc.Bar.{Card, Log, M, read_register}
use flp_prototype.Base.Int.{ℤ}
use flp_prototype.Base.{
  Bool, List, [], ap, drop, length, ltb, pure, suc, sym, take, zero, ℕ, ◌++◌, ◌+◌, ◌<◌, ◌>>=◌, ◌^◌,
  ◌∷◌, ◌≡◌, arith, false, ◌%◌, ◌/◌, append-nil, append_assoc, length-drop, length-take, true, ◌∙◌,
}

-- The values of one chunk, the newest first: the address and the command for a buffer, its size, each
-- word after its address, and the command that programs the buffer.
abbrev pub chunk_values : ℕ → List ℤ → List ℕ
chunk_values a words = magic_7 ∷ word_values a (take 32 words) ++ magic_12 ∷ magic_11 ∷ a ∷ []

-- The values of n chunks.
abbrev pub file_values : ℕ → ℕ → List ℤ → List ℕ
file_values zero a words = []
file_values (suc n) a words =
    file_values n (a + length (take 32 words)) (drop 32 words) ++ chunk_values a words

-- What a chunk leaves.
pub record NextChunk (p q : Progress) : Type 0 where
  pub words_lem : q.words ≡ drop 32 p.words
  pub address_lem : q.address ≡ p.address + length (take 32 p.words)
  pub at_end_lem : q.at_end ≡ ltb (length p.words) 32
  pub left_pos : 0 < q.left

module _ (card : Card) (interrupt : Log → Bool) (fuel : ℕ) (ready : BecomesReady card fuel) where
  -- The end of a chunk.
  end_chunk : Progress → M Progress
  end_chunk q = write_status_wait card interrupt fuel magic_7 >>= λ f.
      write_status_wait card interrupt fuel magic_1 >>= λ g.
      read_register card address_register >>= λ status.
      settle card interrupt fuel q.left status >>= λ left.
      check_status card >>= λ h. pure (record q { left = left })

  end_chunk-Runs :
      (p q : Progress)
      → 0 < p.left
      → q ≡ after_words 32 p.left p.address p.words
      → Runs (NextChunk p) (magic_7 ∷ []) (end_chunk q)
  unfolding end_chunk
  end_chunk-Runs p q positive e =
      >>=-Runs (write_status_wait card interrupt fuel magic_7) _ (λ u. Unit {0}) _ (magic_7 ∷ []) []
        (write_status_wait-Runs card interrupt fuel ready magic_7)
        (λ f t.
          >>=-Runs (write_status_wait card interrupt fuel magic_1) _ (λ u. Unit {0}) _ [] []
            (ask-Runs card interrupt fuel ready)
            (λ g u.
              >>=-Runs (read_register card address_register) _ (λ u. Unit {0}) _ [] []
                (read-Runs card address_register)
                (λ status v.
                  >>=-Runs (settle card interrupt fuel q.left status) _ (λ left. 0 < left) _ [] []
                    (settle-Runs card interrupt fuel ready q.left status
                      (subst (λ n. 0 < n) (sym (ap (λ (x : Progress). x.left) e)) positive))
                    (λ left left_is.
                      >>=-Runs (check_status card) _ (λ u. Unit {0}) (NextChunk p) [] []
                        (Writes-Runs [] (check_status card) (check_status-Writes card))
                        (λ h w log. (
                          record {
                            words_lem = ap (λ (x : Progress). x.words) e;
                            address_lem = ap (λ (x : Progress). x.address) e;
                            at_end_lem = ap (λ (x : Progress). x.at_end) e;
                            left_pos = left_is;
                          },
                          nothing_more,
                        ))))))

  write_chunk-Runs :
      (p : Progress)
      → 0 < p.left
      → p.address + length p.words < 2 ^ 32
      → Runs (NextChunk p) (chunk_values p.address p.words) (write_chunk card interrupt fuel p)
  unfolding write_chunk end_chunk
  write_chunk-Runs p positive small =
      subst (λ vs. Runs (NextChunk p) vs (write_chunk card interrupt fuel p))
        (in_order (word_values p.address (take 32 p.words)))
        (>>=-Runs (check_interrupt card interrupt fuel) _ (λ u. Unit {0}) (NextChunk p) [] _
          (check_interrupt-Runs card interrupt fuel ready)
          (λ a t.
            >>=-Runs (write_status_wait card interrupt fuel p.address) _ (λ u. Unit {0})
              (NextChunk p) (p.address % 2 ^ 32 ∷ []) _
              (write_status_wait-Runs card interrupt fuel ready p.address)
              (λ b u.
                >>=-Runs (write_status_wait card interrupt fuel magic_11) _ (λ u. Unit {0})
                  (NextChunk p) (magic_11 ∷ []) _
                  (write_status_wait-Runs card interrupt fuel ready magic_11)
                  (λ c v.
                    >>=-Runs (check_status card) _ (λ u. Unit {0}) (NextChunk p) [] _
                      (Writes-Runs [] (check_status card) (check_status-Writes card))
                      (λ d w.
                        >>=-Runs (write_status_wait card interrupt fuel magic_12) _ (λ u. Unit {0})
                          (NextChunk p) (magic_12 ∷ []) _
                          (write_status_wait-Runs card interrupt fuel ready magic_12)
                          (λ e x.
                            >>=-Runs (write_words card interrupt fuel 32 p.left p.address p.words) _
                              (λ q. q ≡ after_words 32 p.left p.address p.words) (NextChunk p)
                              (word_values p.address (take 32 p.words)) (magic_7 ∷ [])
                              (write_words-Runs card interrupt fuel ready 32 p.left p.address
                                p.words small)
                              (λ q is_q. end_chunk-Runs p q positive is_q)))))))
    where
      in_order :
          (ws : List ℕ)
          → (((((magic_7 ∷ ws) ++ magic_12 ∷ []) ++ []) ++ magic_11 ∷ [])
                ++ p.address % 2 ^ 32 ∷ [])
              ++ []
            ≡ magic_7 ∷ ws ++ magic_12 ∷ magic_11 ∷ p.address ∷ []
      in_order ws =
          let same : p.address % 2 ^ 32 ≡ p.address = omega (arith, small) in
          ap (λ x. magic_7 ∷ x)
            (simp (append_assoc, append-nil) (ap (λ x. ws ++ magic_12 ∷ magic_11 ∷ x ∷ []) same))

  ended :
      (chunks : ℕ) (q : Progress)
      → q.at_end ≡ true
      → Runs (λ r. Unit {0}) [] (write_chunks card interrupt fuel (suc chunks) q)
  unfolding write_chunks
  ended chunks q e log =
      branch-Ensures q.at_end _ _ _ _ log (λ y. (tt, nothing_more))
        (λ n. absurd (ground (arith, e, n)))

  pub write_chunks-Runs :
      (n chunks : ℕ) (p : Progress)
      → 0 < p.left
      → p.address + length p.words < 2 ^ 32
      → p.at_end ≡ false
      → n ≡ length p.words / 32
      → suc n < chunks
      → Runs
          (λ q. Unit {0})
          (file_values (suc n) p.address p.words)
          (write_chunks card interrupt fuel chunks p)
  unfolding write_chunks
  write_chunks-Runs n zero p positive small open_file is_n enough log = absurd (omega arith)
  write_chunks-Runs zero (suc zero) p positive small open_file is_n enough log =
      absurd (omega arith)
  write_chunks-Runs zero (suc (suc chunks)) p positive small open_file is_n enough log =
      branch-Ensures p.at_end _ _ _ _ log (λ y. absurd (ground (arith, open_file, y)))
        (λ not_yet.
          >>=-Runs (write_chunk card interrupt fuel p) _ (NextChunk p) (λ r. Unit {0})
            (chunk_values p.address p.words) [] (write_chunk-Runs p positive small)
            (λ q h. ended chunks q (h.at_end_lem ∙ ground (arith, is_n))) log)
  write_chunks-Runs (suc n) (suc chunks) p positive small open_file is_n enough log =
      branch-Ensures p.at_end _ _ _ _ log (λ y. absurd (ground (arith, open_file, y)))
        (λ not_yet.
          >>=-Runs (write_chunk card interrupt fuel p) _ (NextChunk p) (λ r. Unit {0})
            (chunk_values p.address p.words) _ (write_chunk-Runs p positive small)
            (λ q h.
              subst (λ vs. Runs (λ r. Unit {0}) vs (write_chunks card interrupt fuel chunks q))
                (rest q h)
                (write_chunks-Runs n chunks q h.left_pos (in_range q h)
                  (h.at_end_lem ∙ ground (arith, is_n)) (count q h) (omega (arith, enough))))
            log)
    where
      rest :
          (q : Progress)
          → NextChunk p q
          → file_values (suc n) q.address q.words
            ≡ file_values (suc n) (p.address + length (take 32 p.words)) (drop 32 p.words)
      rest q h = λ i. file_values (suc n) (h.address_lem i) (h.words_lem i)

      in_range : (q : Progress) → NextChunk p q → q.address + length q.words < 2 ^ 32
      in_range q h = omega (
        arith,
        h.address_lem,
        ap (length {0}) h.words_lem,
        length-take 32 p.words,
        length-drop 32 p.words,
        small,
      )

      count : (q : Progress) → NextChunk p q → n ≡ length q.words / 32
      count q h = omega (arith, ap (length {0}) h.words_lem, length-drop 32 p.words, is_n)
