-- ===== src/Rorc/Sca/Sequence.antt =====
-- What is sent to the slow-control adapter, and what is awaited of it in between.
use flp_prototype.Rorc.Error.{bar_access_failed, sca_busy_timeout}
use flp_prototype.Base.{
  ==_iff, >>=-Ensures, Ensures, Ensures-mono, List, [], inl, inr, pure, suc, sym, true, zero, ℕ,
  ◌%◌, ◌++◌, ◌+◌, ◌==◌, ◌>>=◌, ◌^◌, ◌∷◌, ◌≡◌, ap, arith, ◌>>◌, fun_ext, refl,
}
use mathlib.Core.Path.{subst}
use flp_prototype.Rorc.Sca.{
  CardType, crorc, cru, other_card, offset, control, busy, read_command, max_busy_iterations,
  bar_write, bar_read, wait_on_busy_clear, execute_command, write, read, ReadResult, check_error,
  write_data, write_command, read_data,
}
use flp_prototype.Rorc.Sca.Flags.{IsFirst, ClearBetween, check_error_lem}
use flp_prototype.Rorc.Sca.Items.{
  read_busy, not_busy, Item, sent, idle_seen, answer_passed, Does, nothing_more, sends, sees_idle,
  passes, looks, Does-trans, ScaError, access_refused, stays_busy, flagged, Performs, >>=-Performs,
  command_items,
}
use flp_prototype.Rorc.Bar.Steps.{answer, read-then, wrote-Ensures}
use flp_prototype.Rorc.Bar.{Card, Log, M, was_read, read_register, write_register}
use flp_prototype.Rorc.CrorcCard.Polling.{times, until-Polls}

Does-idle :
    (card : Card) (k : ℕ) (log : Log)
    → not_busy card (times read_busy k log) ≡ true
    → Does card log (idle_seen ∷ []) (times read_busy (suc k) log)
Does-idle card zero log e = sees_idle ((==_iff (answer card log busy) 0).0 e) (nothing_more _)
Does-idle card (suc k) log e = looks busy (Does-idle card k (read_busy log) e)

-- The offset of each type of card is 0.
no_offset : (t : CardType) (index : ℕ) → index + offset t ≡ index
no_offset crorc index = omega arith
no_offset cru index = omega arith
no_offset other_card index = omega arith

module _ (card : Card) (card_type : CardType) where
  bar_read_lem : (index : ℕ) → bar_read card card_type index ≡ read_register card index
  unfolding bar_read
  bar_read_lem index = ap (read_register card) (no_offset card_type index)

  read_check :
      (log : Log)
      → Ensures
          ((read_register card busy >>= λ b. pure (b == 0)) log)
          (λ b l. (b ≡ not_busy card log) × (l ≡ read_busy log))
          (λ e l. (e ≡ bar_access_failed) × (l ≡ log))
  unfolding read_register
  read_check log = ground arith

  busy_check :
      (log : Log)
      → Ensures
          ((bar_read card card_type busy >>= λ b. pure (b == 0)) log)
          (λ b l. (b ≡ not_busy card log) × (l ≡ read_busy log))
          (λ e l. (e ≡ bar_access_failed) × (l ≡ log))
  busy_check log =
      subst
        (λ m.
          Ensures ((m >>= λ b. pure (b == 0)) log)
            (λ b l. (b ≡ not_busy card log) × (l ≡ read_busy log))
            (λ e l. (e ≡ bar_access_failed) × (l ≡ log)))
        (sym (bar_read_lem busy)) (read_check log)

  pub wait-Performs : Performs card (idle_seen ∷ []) (wait_on_busy_clear card card_type)
  unfolding wait_on_busy_clear
  wait-Performs log =
      Ensures-mono (wait_on_busy_clear card card_type log) _ _ _ _
        (until-Polls (bar_read card card_type busy >>= λ b. pure (b == 0)) sca_busy_timeout
          (not_busy card) read_busy (λ log l. l ≡ log) busy_check max_busy_iterations log)
        (λ u l (k, (lt, fails, found, same)).
          subst (Does card log (idle_seen ∷ [])) (sym same) (Does-idle card k log found))
        (λ e l h. elim h [
          | inl r ↦ subst (λ e. ScaError card e l) (sym r.0) (stays_busy log l r.1)
          | inr r ↦ subst (λ e. ScaError card e l) (sym r.0) (access_refused l)
        ])

  pub bar_write-Performs :
      (index value : ℕ)
      → Performs card (sent index (value % 2 ^ 32) ∷ []) (bar_write card card_type index value)
  unfolding bar_write
  bar_write-Performs index value =
      subst (λ i. Performs card (sent index (value % 2 ^ 32) ∷ []) (write_register card i value))
        (sym (no_offset card_type index))
        (λ log.
          Ensures-mono (write_register card index value log) _ _ _ _
            (wrote-Ensures card index value log)
            (λ u l h.
              subst (Does card log (sent index (value % 2 ^ 32) ∷ [])) (sym h)
                (sends index value (nothing_more _)))
            (λ e l h. subst (λ e. ScaError card e l) (sym h.0) (access_refused l)))

  pub execute-Performs :
      Performs card
        (sent control 4 ∷ sent control 0 ∷ idle_seen ∷ [])
        (execute_command card card_type)
  unfolding execute_command
  execute-Performs =
      >>=-Performs card _ _ (sent control 4 ∷ []) (sent control 0 ∷ idle_seen ∷ [])
        (bar_write-Performs control 4)
        (λ a.
          >>=-Performs card _ _ (sent control 0 ∷ []) (idle_seen ∷ [])
            (bar_write-Performs control 0) (λ b. wait-Performs))

  pub write-Performs :
      (command value : ℕ)
      → Performs card (command_items command value) (write card card_type command value)
  unfolding write
  write-Performs command value =
      >>=-Performs card _ _ (sent write_data (value % 2 ^ 32) ∷ [])
        (sent write_command (command % 2 ^ 32) ∷ sent control 4 ∷ sent control 0 ∷ idle_seen ∷ [])
        (bar_write-Performs write_data value)
        (λ a.
          >>=-Performs card _ _ (sent write_command (command % 2 ^ 32) ∷ [])
            (sent control 4 ∷ sent control 0 ∷ idle_seen ∷ [])
            (bar_write-Performs write_command command) (λ b. execute-Performs))

-- What read() returns after some accesses, and its own.
abbrev pub Answers : Card → Log → ReadResult → Log → Type 0
Answers card log r l =
    (r.data_word ≡ answer card log read_data)
    × (r.command ≡ answer card (was_read read_data ∷ log) read_command)
    × ClearBetween r.command 0 7
    × (l ≡ was_read read_command ∷ was_read read_data ∷ log)

module _ (card : Card) (card_type : CardType) where
  checked :
      (log : Log) (value command : ℕ)
      → value ≡ answer card log read_data
      → command ≡ answer card (was_read read_data ∷ log) read_command
      → Ensures
          ((check_error command >> pure (record { data_word = value; command = command }))
            (was_read read_command ∷ was_read read_data ∷ log))
          (λ r l. Answers card log r l)
          (λ e l. ScaError card e l)
  checked log value command v c =
      >>=-Ensures (check_error command) _ _ _ _ _
        (Ensures-mono (check_error command _) _ _ _ _ (check_error_lem command _) (λ u l h. h)
          (λ e l (kept, i, first, error).
            subst (λ e. ScaError card e l) (sym error)
              (flagged (was_read read_data ∷ log) l i (subst (λ w. IsFirst w 0 7 i) c first) kept)))
        (λ u l h. (v, c, h.1, h.0))

  read-Answers :
      (log : Log)
      → Ensures (read card card_type log) (λ r l. Answers card log r l) (λ e l. ScaError card e l)
  unfolding read bar_read
  read-Answers log =
      subst
        (λ i.
          Ensures
            ((read_register card (i read_data) >>= λ value.
                read_register card (i read_command) >>= λ command.
                check_error command >> pure (record { data_word = value; command = command }))
              log)
            (λ r l. Answers card log r l) (λ e l. ScaError card e l))
        (fun_ext (λ index. sym (no_offset card_type index)))
        (read-then card _ _ read_data _ log (access_refused log) (
          read-then card _ _ read_command _ _ (access_refused (was_read read_data ∷ log))
            (checked log _ _ refl refl)))

  pub read-Performs : Performs card (answer_passed ∷ []) (read card card_type)
  read-Performs log =
      Ensures-mono (read card card_type log) _ _ _ _ (read-Answers log)
        (λ r l (v, c, none_set, same).
          subst (Does card log (answer_passed ∷ [])) (sym same) (
            looks read_data (passes (subst (λ c. ClearBetween c 0 7) c none_set) (nothing_more _))))
        (λ e l h. h)

  -- A step that does these, and then reads the answer that it returns.
  abbrev pub Ends : List Item → M ReadResult → Type 0
  Ends items m =
      (log : Log)
      → Ensures (m log) (λ r l. (k : Log) × Does card log items k × Answers card k r l)
          (λ e l. ScaError card e l)

  pub read-Ends : Ends [] (read card card_type)
  read-Ends log =
      Ensures-mono (read card card_type log) _ _ _ _ (read-Answers log)
        (λ r l h. (log, nothing_more log, h)) (λ e l h. h)

  pub >>=-Ends :
      {A : Type 0} (m : M A) (k : A → M ReadResult) (is js : List Item)
      → Performs card is m
      → ((a : A) → Ends js (k a))
      → Ends (is ++ js) (m >>= k)
  >>=-Ends m k is js h r log = >>=-Ensures m k _ _ _ log (h log) (λ a l d.
      Ensures-mono (k a l) _ _ _ _ (r a l)
        (λ b x (at, does, answers). (at, Does-trans d does, answers)) (λ b x f. f))
