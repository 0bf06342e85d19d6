-- ===== src/Rorc/CrorcCard/Loopback.antt =====
-- ddlSetSiuLoopBack() with an SIU that does not know the command for the loopback.
use flp_prototype.Rorc.CrorcCard.Rules.{when-Ensures}
use flp_prototype.Rorc.CrorcCard.Send.{ddl_send_command_lem}
use flp_prototype.Rorc.CrorcCard.Reset.{ddl_set_siu_loop_back, set_loop_back}
use flp_prototype.Rorc.CrorcCard.Registers.{when}
use flp_prototype.Rorc.Error.{Error, siu_loopback_failed}
use flp_prototype.Rorc.CrorcCard.Waits.{read_csr, ddl_wait_status_lem}
use flp_prototype.Rorc.CrorcCard.Polling.{times}
use flp_prototype.Rorc.CrorcCard.Link.{
  code_part, command_word, ddl_send_command, ddl_wait_status, StWord, ddl_read_status,
}
use flp_prototype.Rorc.CrorcCard.Constants.{c_dsr, ilcmd, ctstw, siu, tstmode, ifloop}
use flp_prototype.Rorc.CrorcCard.Commands.{
  LinkError, commands, commands-times, Polls-LinkError, SendsNone-LinkError, refused,
}
use flp_prototype.Rorc.Bar.Steps.{answer, read-then}
use flp_prototype.Rorc.Bar.{Access, Card, Log, was_read, wrote}
use flp_prototype.Base.Int.{pos}
use flp_prototype.Base.{
  Ensures, [], false, refl, suc, true, zero, ℕ, ◌+◌, ◌==◌, ◌∷◌, ◌≡◌, ◌⊎◌, Ensures-mono, Outcome, ap,
  inl, not, throw_if, ◌>>=◌, ◌>>◌, ◌∙◌, >>=-Ensures, arith, inr, List, ◌%◌, ◌++◌, ◌^◌,
}

abbrev pub status_read : Access → ℕ → ℕ
status_read (wrote register value) n = n
status_read (was_read register) n = elim (register == c_dsr) [ true ↦ n + 1 | false ↦ n ]

-- The status words read so far.
abbrev pub status_reads : Log → ℕ
status_reads [] = 0
status_reads (access ∷ log) = status_read access (status_reads log)

status_reads-times : (k : ℕ) (log : Log) → status_reads (times read_csr k log) ≡ status_reads log
status_reads-times zero log = refl
status_reads-times (suc k) log = status_reads-times k (read_csr log)

-- The next status word after these accesses is that of an illegal command.
abbrev pub AnswersIllegal : Card → Log → Type 0
AnswersIllegal card log =
    (m : Log)
    → status_reads m ≡ status_reads log
    → code_part (record { stw = answer card m c_dsr }) ≡ ilcmd

-- A command to the SIU.
abbrev pub siu_word : ℕ → ℕ
siu_word command = command_word (pos siu) command (pos 0) 0 % 2 ^ 32

-- The ways to throw: the link fails; or the loopback failed, after the command for the loopback and the test
-- mode, and no other, have gone out.
abbrev pub Gives : Log → Error → Log → Type 0
Gives log e l =
    LinkError e
    ⊎ ((e ≡ siu_loopback_failed) × (commands l ≡ siu_word tstmode ∷ siu_word ifloop ∷ commands log))

module _ (card : Card) (time : ℕ) (log : Log) where
  -- A step that reads no status word and sends these commands.
  abbrev Unread : List ℕ → Log → Outcome Log Error (Unit {0}) → Type 0
  Unread words l o =
      Ensures o (λ u m. (status_reads m ≡ status_reads l) × (commands m ≡ words ++ commands l))
        (λ e m. Gives log e m)

  Unread-send :
      (command : ℕ) (l : Log)
      → Unread (siu_word command ∷ []) l (ddl_send_command card (pos siu) command (pos 0) 0 time l)
  Unread-send command l =
      Ensures-mono (ddl_send_command card (pos siu) command (pos 0) 0 time l) _ _ _ _
        (ddl_send_command_lem card (pos siu) command (pos 0) 0 time l)
        (λ u m s. (
          ap status_reads s.sent ∙ status_reads-times s.checks l,
          ap commands s.sent ∙ ap (λ c. siu_word command ∷ c) (commands-times s.checks l),
        ))
        (λ e m s. inl (SendsNone-LinkError card (pos siu) command (pos 0) 0 time l e m s))

  Unread-wait : (l : Log) → Unread [] l (ddl_wait_status card time l)
  Unread-wait l =
      Ensures-mono (ddl_wait_status card time l) _ _ _ _ (ddl_wait_status_lem card time l)
        (λ u m (k, (lt, fails, found, same)). (
          ap status_reads same ∙ status_reads-times (suc k) l,
          ap commands same ∙ commands-times (suc k) l,
        ))
        (λ e m h. inl (Polls-LinkError card time l e m h))

  -- The rest of the function, for a word that it has read.
  judged :
      (w : StWord) (l : Log)
      → code_part w ≡ ilcmd
      → commands l ≡ siu_word ifloop ∷ commands log
      → Ensures
          ((when (code_part w == ilcmd) (
                ddl_send_command card (pos siu) tstmode (pos 0) 0 time >> ddl_wait_status card time)
              >>= λ c. throw_if (not (code_part w == ctstw)) siu_loopback_failed >>= λ d.
                  set_loop_back card time)
            l)
          (λ x m. ⊥)
          (λ e m. Gives log e m)
  judged w l old one =
      >>=-Ensures
        (when (code_part w == ilcmd)
          (ddl_send_command card (pos siu) tstmode (pos 0) 0 time >> ddl_wait_status card time))
        _ (λ u m. commands m ≡ siu_word tstmode ∷ siu_word ifloop ∷ commands log) _ _ l
        (when-Ensures (λ u m. commands m ≡ siu_word tstmode ∷ siu_word ifloop ∷ commands log)
          (λ e m. Gives log e m) (code_part w == ilcmd)
          (ddl_send_command card (pos siu) tstmode (pos 0) 0 time >> ddl_wait_status card time) l
          (λ n. absurd (ground (arith, n, old)))
          (λ y.
            >>=-Ensures (ddl_send_command card (pos siu) tstmode (pos 0) 0 time)
              (λ _. ddl_wait_status card time) _ _ _ l (Unread-send tstmode l)
              (λ u m h.
                Ensures-mono (ddl_wait_status card time m) _ _ _ _ (Unread-wait m)
                  (λ v x g. g.1 ∙ h.1 ∙ ap (λ c. siu_word tstmode ∷ c) one) (λ e x g. g))))
        (λ u m two. refused_word m two)
    where
      refused_word :
          (m : Log)
          → commands m ≡ siu_word tstmode ∷ siu_word ifloop ∷ commands log
          → Ensures
              ((throw_if (not (code_part w == ctstw)) siu_loopback_failed >>= λ d.
                  set_loop_back card time)
                m)
              (λ x y. ⊥)
              (λ e y. Gives log e y)
      refused_word m two =
          let bad : not (code_part w == ctstw) ≡ true = ground (arith, old) in
          rw bad (inr (refl, two))

-- ddlSetSiuLoopBack(), for a card whose SIU answers the command for the loopback by the status word of
-- an illegal command: it never returns. Unless the link fails, the test mode is sent to the SIU after the command for the
-- loopback, as the comment has it for an old version, and nothing else; but the word that is judged next is still the old one, so
-- it throws that the loopback failed.
pub ddl_set_siu_loop_back_lem :
    (card : Card) (time : ℕ) (log : Log)
    → AnswersIllegal card log
    → Ensures (ddl_set_siu_loop_back card time log) (λ x l. ⊥) (λ e l. Gives log e l)
unfolding ddl_set_siu_loop_back ddl_read_status
ddl_set_siu_loop_back_lem card time log old =
    >>=-Ensures (ddl_send_command card (pos siu) ifloop (pos 0) 0 time) _ _ _ _ log
      (Unread-send card time log ifloop log)
      (λ a l h.
        >>=-Ensures (ddl_wait_status card time) _ _ _ _ l (Unread-wait card time log l) (λ b m g.
          >>=-Ensures (ddl_read_status card) _
            (λ w x. (code_part w ≡ ilcmd) × (commands x ≡ siu_word ifloop ∷ commands log)) _ _ m
            (illegal m (old m (g.0 ∙ h.0)) (g.1 ∙ h.1))
            (λ w x is_old. judged card time log w x is_old.0 is_old.1)))
  where
    illegal :
        (m : Log)
        → code_part (record { stw = answer card m c_dsr }) ≡ ilcmd
        → commands m ≡ siu_word ifloop ∷ commands log
        → Ensures
            (ddl_read_status card m)
            (λ w x. (code_part w ≡ ilcmd) × (commands x ≡ siu_word ifloop ∷ commands log))
            (λ e x. Gives log e x)
    illegal m e c = read-then card _ _ c_dsr _ m (inl refused) (e, c)
