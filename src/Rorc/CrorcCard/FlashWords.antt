-- ===== src/Rorc/CrorcCard/FlashWords.antt =====
-- The waits and the words of programFlash().
use mathlib.Core.Path.{subst}
use flp_prototype.Base.Int.{pos, to_size, ℤ, ◌+ℤ◌}
use flp_prototype.Rorc.CrorcCard.FlashErase.{check_interrupt-Writes}
use flp_prototype.Rorc.Superpage.{is_ready}
use flp_prototype.Rorc.CrorcCard.Rules.{branch-Ensures}
use flp_prototype.Rorc.CrorcCard.Program.{
  write_status_wait, check_interrupt, read_wait, settle, Progress, write_words,
}
use flp_prototype.Rorc.CrorcCard.Polling.{times}
use flp_prototype.Rorc.CrorcCard.FlashWrites.{
  Emits, Emits-trans, FlashError, Writes, look, nothing_more, access_refused, ask, sleep-Writes,
  stuck,
}
use flp_prototype.Rorc.CrorcCard.Flash.{
  data_status_register, ready_register, wait_ready, magic_1, write_status_sleep, address_register,
  magic_13,
}
use flp_prototype.Rorc.Bar.Steps.{answer, read-then, write-then, was_read-Ensures}
use flp_prototype.Rorc.Bar.{Card, Log, M, was_read, write_register, read_register, wrote}
use flp_prototype.Base.{
  >>=-Ensures, Bool, Ensures, Ensures-mono, List, [], arith, suc, zero, ℕ, ◌%◌, ◌++◌, ◌<◌, ◌==◌,
  ◌>>=◌, ◌^◌, ◌∷◌, ◌≢◌, pure, drop, length, ltb, sym, take, ◌+◌, ◌≡◌, ap, append-nil, append_assoc,
  false, true, ◌∙◌,
}

abbrev pub look_ready : Log → Log
look_ready log = was_read ready_register ∷ log

-- The flash is ready within so many reads, whenever it is waited for.
abbrev pub BecomesReady : Card → ℕ → Type 0
BecomesReady card fuel =
    (l : Log) → (k : ℕ) × (k < fuel) × (answer card (times look_ready k l) ready_register ≢ 0)

-- A step that writes these values if it returns, with what its result is.
abbrev pub Runs : {A : Type 0} → (A → Type 0) → List ℕ → M A → Type 0
Runs P vs m = (log : Log) → Ensures (m log) (λ a l. P a × Emits log vs l) (λ e l. FlashError e)

pub >>=-Runs :
    {A B : Type 0} (m : M A) (k : A → M B) (P : A → Type 0) (Q : B → Type 0) (vs ws : List ℕ)
    → Runs P vs m
    → ((a : A) → P a → Runs Q ws (k a))
    → Runs Q (ws ++ vs) (m >>= k)
>>=-Runs m k P Q vs ws h r log = >>=-Ensures m k _ _ _ log (h log) (λ a l (p, e).
    Ensures-mono (k a l) _ _ _ _ (r a p l) (λ b x f. (f.0, Emits-trans e f.1)) (λ b x f. f))

pub Writes-Runs : {A : Type 0} (vs : List ℕ) (m : M A) → Writes vs m → Runs (λ a. Unit {0}) vs m
Writes-Runs vs m h log = Ensures-mono (m log) _ _ _ _ (h log) (λ a l e. (tt, e)) (λ e l f. f)

pub Runs-Writes : {A : Type 0} (P : A → Type 0) (vs : List ℕ) (m : M A) → Runs P vs m → Writes vs m
Runs-Writes P vs m h log = Ensures-mono (m log) _ _ _ _ (h log) (λ a l e. e.1) (λ e l f. f)

pub read-Runs : (card : Card) (index : ℕ) → Runs (λ u. Unit {0}) [] (read_register card index)
read-Runs card index log =
    Ensures-mono (read_register card index log) _ _ _ _ (was_read-Ensures card index log)
      (λ v l h. (tt, subst (Emits log []) (sym h.1) (look index nothing_more)))
      (λ e l h. subst FlashError (sym h.0) access_refused)

module _ (card : Card) where
  wait_ready-Ensures :
      (k fuel : ℕ) (log : Log)
      → k < fuel
      → answer card (times look_ready k log) ready_register ≢ 0
      → Ensures (wait_ready card fuel log) (λ u l. Emits log [] l) (λ e l. FlashError e)
  unfolding wait_ready
  wait_ready-Ensures k zero log lt ready = absurd (omega arith)
  wait_ready-Ensures zero (suc fuel) log lt ready =
      read-then card _ _ ready_register _ log access_refused (
        branch-Ensures (answer card log ready_register == 0) _ _ _ _ _
          (λ e. absurd (ready (ground (arith, e)))) (λ e. look ready_register nothing_more))
  wait_ready-Ensures (suc k) (suc fuel) log lt ready =
      read-then card _ _ ready_register _ log access_refused (
        branch-Ensures (answer card log ready_register == 0) _ _ _ _ _
          (λ e.
            Ensures-mono (wait_ready card fuel (look_ready log)) _ _ _ _
              (wait_ready-Ensures k fuel (look_ready log) (omega arith) ready)
              (λ u l f. Emits-trans (look ready_register nothing_more) f) (λ e l f. f))
          (λ e. look ready_register nothing_more))

-- The values of the words, the newest first, from an address on.
abbrev pub word_value : ℤ → ℕ
word_value hex = to_size (pos magic_13 +ℤ hex) % 2 ^ 32

abbrev pub word_values : ℕ → List ℤ → List ℕ
word_values a [] = []
word_values a (hex ∷ words) = word_values (a + 1) words ++ word_value hex ∷ a ∷ []

abbrev pub after_words : ℕ → ℕ → ℕ → List ℤ → Progress
after_words j left a words = record {
  words = drop j words;
  address = a + length (take j words);
  at_end = ltb (length words) j;
  left = left;
}

progress_eq :
    (words : List ℤ) (left a b : ℕ) (e f : Bool)
    → a ≡ b
    → e ≡ f
    → ◌≡◌ {A = Progress}
        (record { words = words; address = a; at_end = e; left = left })
        (record { words = words; address = b; at_end = f; left = left })
progress_eq words left a b e f p q =
    λ i. record { words = words; address = p i; at_end = q i; left = left }

module _ (card : Card) (interrupt : Log → Bool) (fuel : ℕ) (ready : BecomesReady card fuel) where
  wait_ready-Runs : Runs (λ u. Unit {0}) [] (wait_ready card fuel)
  wait_ready-Runs log =
      let (k, lt, is_ready) = ready log in
      Ensures-mono (wait_ready card fuel log) _ _ _ _
        (wait_ready-Ensures card k fuel log lt is_ready) (λ u l e. (tt, e)) (λ e l f. f)

  pub write_status_wait-Runs :
      (v : ℕ) → Runs (λ u. Unit {0}) (v % 2 ^ 32 ∷ []) (write_status_wait card interrupt fuel v)
  unfolding write_status_wait write_status_sleep
  write_status_wait-Runs v =
      >>=-Runs (write_register card data_status_register v) (λ a. wait_ready card fuel)
        (λ a. Unit {0}) _ _ [] (Writes-Runs _ (write_status_sleep card v) (sleep-Writes card v))
        (λ a t. wait_ready-Runs)

  read_wait-Runs : (index : ℕ) → Runs (λ u. Unit {0}) [] (read_wait card interrupt fuel index)
  unfolding read_wait
  read_wait-Runs index =
      >>=-Runs (read_register card index) (λ x. wait_ready card fuel >>= λ b. pure x)
        (λ a. Unit {0}) _ [] [] (read-Runs card index)
        (λ x t.
          >>=-Runs (wait_ready card fuel) (λ b. pure x) (λ a. Unit {0}) _ [] [] wait_ready-Runs
            (λ b u log. (tt, nothing_more)))

  pub check_interrupt-Runs : Runs (λ u. Unit {0}) [] (check_interrupt card interrupt fuel)
  check_interrupt-Runs =
      Writes-Runs [] (check_interrupt card interrupt fuel)
        (check_interrupt-Writes card interrupt fuel)

  pub ask-Runs : Runs (λ u. Unit {0}) [] (write_status_wait card interrupt fuel magic_1)
  unfolding write_status_wait
  ask-Runs log =
      write-then card _ _ data_status_register magic_1 (wait_ready card fuel) log access_refused (
        Ensures-mono (wait_ready card fuel (wrote data_status_register magic_1 ∷ log)) _ _ _ _
          (wait_ready-Runs (wrote data_status_register magic_1 ∷ log))
          (λ u l e. (tt, Emits-trans (ask nothing_more) e.1)) (λ e l f. f))

  pub settle-Runs :
      (left status : ℕ)
      → 0 < left
      → Runs (λ rest. 0 < rest) [] (settle card interrupt fuel left status)
  unfolding settle
  settle-Runs zero status positive log = absurd (omega arith)
  settle-Runs (suc left) status positive log =
      branch-Ensures (status == 0x80) _ _ _ _ log (λ good. (positive, nothing_more))
        (λ bad.
          >>=-Runs (check_interrupt card interrupt fuel) _ (λ u. Unit {0}) (λ rest. 0 < rest) [] []
            check_interrupt-Runs
            (λ a t.
              >>=-Runs (write_status_wait card interrupt fuel magic_1) _ (λ u. Unit {0})
                (λ rest. 0 < rest) [] [] ask-Runs
                (λ b u.
                  >>=-Runs (read_wait card interrupt fuel address_register) _ (λ u. Unit {0})
                    (λ rest. 0 < rest) [] [] (read_wait-Runs address_register)
                    (λ next_status v l.
                      branch-Ensures (left == 0) _ _ (λ rest m. (0 < rest) × Emits l [] m)
                        (λ e m. FlashError e) l (λ e. stuck)
                        (λ e. settle-Runs left next_status (ground (arith, e)) l))))
            log)

  pub write_words-Runs :
      (j left a : ℕ) (words : List ℤ)
      → a + length words < 2 ^ 32
      → Runs
          (λ p. p ≡ after_words j left a words)
          (word_values a (take j words))
          (write_words card interrupt fuel j left a words)
  unfolding write_words
  write_words-Runs zero left a words small log = (
    progress_eq words left a (a + 0) false (ltb (length words) 0) (omega arith) (ground arith),
    nothing_more,
  )
  write_words-Runs (suc j) left a [] small log =
      >>=-Runs (check_interrupt card interrupt fuel) _ (λ u. Unit {0}) _ [] [] check_interrupt-Runs
        (λ x t l. (
          progress_eq [] left a (a + 0) true (ltb 0 (suc j)) (omega arith) (ground arith),
          nothing_more,
        ))
        log
  write_words-Runs (suc j) left a (hex ∷ words) small log =
      (subst
          (λ vs.
            Runs (λ p. p ≡ after_words (suc j) left a (hex ∷ words)) vs
              (write_words card interrupt fuel (suc j) left a (hex ∷ words)))
          (one_word (take j words))
          (>>=-Runs (check_interrupt card interrupt fuel) _ (λ u. Unit {0}) _ [] _
            check_interrupt-Runs
            (λ x t.
              >>=-Runs (write_status_wait card interrupt fuel a) _ (λ u. Unit {0}) _
                (a % 2 ^ 32 ∷ []) _ (write_status_wait-Runs a)
                (λ y u.
                  >>=-Runs (write_status_wait card interrupt fuel (to_size (pos magic_13 +ℤ hex))) _
                    (λ v. Unit {0}) (λ p. p ≡ after_words (suc j) left a (hex ∷ words))
                    (word_value hex ∷ []) (word_values (a + 1) (take j words))
                    (write_status_wait-Runs (to_size (pos magic_13 +ℤ hex)))
                    (λ z v. rest (write_words-Runs j left (a + 1) words (omega (arith, small))))))))
        log
    where
      one_word :
          (ws : List ℤ)
          → ((word_values (a + 1) ws ++ word_value hex ∷ []) ++ a % 2 ^ 32 ∷ []) ++ []
            ≡ word_values (a + 1) ws ++ word_value hex ∷ a ∷ []
      one_word ws =
          append-nil _
          ∙ append_assoc (word_values (a + 1) ws) (word_value hex ∷ []) (a % 2 ^ 32 ∷ [])
          ∙ ap (λ b. word_values (a + 1) ws ++ word_value hex ∷ b ∷ [])
              (let e : a % 2 ^ 32 ≡ a = omega (arith, small) in e)

      rest :
          Runs
            (λ p. p ≡ after_words j left (a + 1) words)
            (word_values (a + 1) (take j words))
            (write_words card interrupt fuel j left (a + 1) words)
          → Runs
              (λ p. p ≡ after_words (suc j) left a (hex ∷ words))
              (word_values (a + 1) (take j words))
              (write_words card interrupt fuel j left ((a + 1) % 2 ^ 32) words)
      rest h =
          let e : a + 1 ≡ (a + 1) % 2 ^ 32 = omega (arith, small) in
          subst
            (λ b.
              Runs (λ p. p ≡ after_words (suc j) left a (hex ∷ words))
                (word_values (a + 1) (take j words))
                (write_words card interrupt fuel j left b words))
            e
            (λ log.
              Ensures-mono (write_words card interrupt fuel j left (a + 1) words log) _ _ _ _
                (h log)
                (λ p l g. (
                  g.0
                      ∙ progress_eq (drop j words) left (a + 1 + length (take j words))
                          (a + suc (length (take j words))) (ltb (length words) j)
                          (ltb (suc (length words)) (suc j)) (omega arith) (ground arith),
                  g.1,
                ))
                (λ e l f. f))
