-- ===== src/Rorc/CrorcCard/FlashSettle.antt =====
-- The wait of programFlash() for a good state, which counts the bad ones.
use flp_prototype.Rorc.Error.{Error, flash_stuck}
use flp_prototype.Rorc.CrorcCard.NotGood.{
  >>=-Leaves, Grows, Leaves, Seen, not_good, read_state-Leaves,
}
use flp_prototype.Rorc.CrorcCard.Registers.{branch}
use flp_prototype.Rorc.CrorcCard.Program.{
  Progress, check_interrupt, read_wait, settle, write_status_wait, write_words,
}
use flp_prototype.Rorc.CrorcCard.Flash.{address_register, magic_0, magic_1, magic_13, wait_ready}
use flp_prototype.Rorc.Bar.{Card, Log, M, read_register}
use flp_prototype.Base.Int.{ℤ, pos, to_size, ◌+ℤ◌}
use flp_prototype.Rorc.CrorcCard.FlashGrows.{
  write_status_wait-Grows, check_interrupt-Grows, wait_ready-Grows,
}
use flp_prototype.Base.{
  Bool, Bool-cases, List, [], arith, inl, inr, suc, throws, zero, ℕ, ◌%◌, ◌+◌, ◌==◌, ◌>>=◌, ◌^◌,
  ◌∷◌, ◌≡◌, ◌≤◌, ◌⊎◌,
}

module _ (card : Card) (interrupt : Log → Bool) (fuel : ℕ) where
  -- The exception is another one, or the flash showed a bad state 5,000,000 times.
  abbrev pub Reason : Error → Log → Type 0
  Reason e l = (¬ (e ≡ flash_stuck)) ⊎ (5000000 ≤ not_good card l)

  -- `left` and the bad states so far are together 5,000,000 at least.
  abbrev pub Counted : ℕ → Log → Type 0
  Counted left l = 5000000 ≤ left + not_good card l

  pub then-Counted :
      {A B : Type 0} (m : M A) (k : A → M B) (S : B → Log → Type 0) (left : ℕ) (log : Log)
      → Grows card m
      → Counted left log
      → ((a : A) (l : Log) → Counted left l → Leaves (k a l) S Reason)
      → Leaves ((m >>= k) log) S Reason
  then-Counted m k S left log h low r =
      >>=-Leaves m k (λ a l. not_good card log ≤ not_good card l) _ Reason S log (h log)
        (λ a l g. r a l (omega (arith, low, g))) (λ e l n. inl n)

  -- The words leave the count as it is.
  abbrev pub Passes : ℕ → Log → Progress → Log → Type 0
  Passes left log q l = (q.left ≡ left) × (not_good card log ≤ not_good card l)

  pub write_words-Leaves :
      (j left address : ℕ) (words : List ℤ) (log : Log)
      → Counted left log
      → Leaves
          (write_words card interrupt fuel j left address words log)
          (λ q l. Counted q.left l)
          Reason
  unfolding write_words
  write_words-Leaves zero left address words log low = low
  write_words-Leaves (suc j) left address [] log low =
      then-Counted (check_interrupt card interrupt fuel) _ _ left log
        (check_interrupt-Grows card interrupt fuel) low (λ a l h. h)
  write_words-Leaves (suc j) left address (hex ∷ words) log low =
      then-Counted (check_interrupt card interrupt fuel) _ _ left log
        (check_interrupt-Grows card interrupt fuel) low
        (λ a l h.
          then-Counted (write_status_wait card interrupt fuel address) _ _ left l
            (write_status_wait-Grows card interrupt fuel address) h
            (λ b m i.
              then-Counted (write_status_wait card interrupt fuel (to_size (pos magic_13 +ℤ hex))) _
                _ left m
                (write_status_wait-Grows card interrupt fuel (to_size (pos magic_13 +ℤ hex))) i
                (λ c n k. write_words-Leaves j left ((address + 1) % 2 ^ 32) words n k)))

  pub read_wait-Leaves :
      (log : Log)
      → Leaves
          (read_wait card interrupt fuel address_register log)
          (Seen card log)
          (λ e l. ¬ (e ≡ flash_stuck))
  unfolding read_wait
  read_wait-Leaves log =
      >>=-Leaves (read_register card address_register) _ (Seen card log) _ _ (Seen card log) log
        (read_state-Leaves card log)
        (λ v l h.
          >>=-Leaves (wait_ready card fuel) _ (λ u m. not_good card l ≤ not_good card m) _ _
            (Seen card log) l (wait_ready-Grows card fuel l)
            (λ u m g. elim h.1 [
              | inl e ↦ (omega (arith, h.0, g), inl e)
              | inr k ↦ (omega (arith, h.0, g), inr (omega (arith, k, g)))
            ])
            (λ e m n. n))
        (λ e l n. n)

  -- The state that was read last is good, or it is counted and not yet taken from `left`.
  abbrev pub Due : ℕ → ℕ → Log → Type 0
  Due left status l = (status ≡ magic_0) ⊎ (5000001 ≤ left + not_good card l)

  pub due : (left v : ℕ) (log l : Log) → Counted left log → Seen card log v l → Due left v l
  due left v log l low h = elim h.1 [ inl e ↦ inl e | inr k ↦ inr (omega (arith, low, k)) ]

  abbrev pub Settles : ℕ → Type 0
  Settles left =
      (v : ℕ) (n : Log)
      → Counted left n
      → Due left v n
      → Leaves (settle card interrupt fuel left v n) (λ x l. Counted x l) Reason

  pub give_up-Leaves :
      (left v : ℕ) (n : Log)
      → Settles left
      → Counted left n
      → Due left v n
      → Leaves
          (branch (left == 0) (throws flash_stuck) (settle card interrupt fuel left v) n)
          (λ x l. Counted x l)
          Reason
  give_up-Leaves left v n ih c d = elim (Bool-cases (left == 0)) [
    | inl z ↦ rw z (inr (ground (arith, c, z)))
    | inr z ↦ rw z (ih v n c d)
  ]

  -- A round of the wait, for a bad state that is taken from the count.
  pub round-Leaves :
      (left : ℕ) (log : Log)
      → Settles left
      → Counted left log
      → Leaves
          ((check_interrupt card interrupt fuel >>= λ a.
              write_status_wait card interrupt fuel magic_1 >>= λ b.
              read_wait card interrupt fuel address_register >>= λ next_status.
              branch (left == 0) (throws flash_stuck) (settle card interrupt fuel left next_status))
            log)
          (λ n l. Counted n l)
          Reason
  round-Leaves left log ih ok =
      then-Counted (check_interrupt card interrupt fuel) _ _ left log
        (check_interrupt-Grows card interrupt fuel) ok
        (λ a l h.
          then-Counted (write_status_wait card interrupt fuel magic_1) _ _ left l
            (write_status_wait-Grows card interrupt fuel magic_1) h
            (λ b m i.
              >>=-Leaves (read_wait card interrupt fuel address_register) _ (Seen card m) _ Reason _
                m (read_wait-Leaves m)
                (λ v n s. give_up-Leaves left v n ih (omega (arith, i, s.0)) (due left v m n i s))
                (λ e n k. inl k)))

  pub settle-Leaves : (left : ℕ) → Settles left
  unfolding settle
  settle-Leaves zero status log low h = elim (Bool-cases (status == 0x80)) [
    | inl e ↦ rw e low
    | inr e ↦ rw e tt
  ]
  settle-Leaves (suc left) status log low h = elim (Bool-cases (status == 0x80)) [
    | inl e ↦ rw e low
    | inr e ↦ rw e (
        round-Leaves left log (settle-Leaves left)
          (elim h [ inl g ↦ absurd (ground (arith, e, g)) | inr k ↦ omega (arith, k) ]))
  ]
