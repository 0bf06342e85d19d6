-- ===== src/Rorc/CrorcCard/Commands.antt =====
-- The commands that went to the command register, and the errors of the link.
use mathlib.Core.Path.{subst}
use flp_prototype.Rorc.Error.{
  Error, bar_access_failed, ddl_command_timeout, ddl_status_timeout, link_not_up,
}
use flp_prototype.Rorc.CrorcCard.Waits.{ddl_wait_status_lem, read_csr, Kept, status_arrived}
use flp_prototype.Rorc.CrorcCard.Send.{ddl_send_command_lem, SendsNone}
use flp_prototype.Rorc.CrorcCard.Polling.{times, Breaks, RunsOut}
use flp_prototype.Rorc.CrorcCard.Link.{
  command_word, ddl_read_status, ddl_send_command, ddl_wait_status,
}
use flp_prototype.Rorc.CrorcCard.Constants.{c_dcr, c_dsr}
use flp_prototype.Rorc.Bar.Steps.{read-then}
use flp_prototype.Rorc.Bar.{Access, Card, Log, was_read, wrote}
use flp_prototype.Base.Int.{ℤ}
use flp_prototype.Base.{
  Ensures, Ensures-mono, List, ap, false, inl, inr, refl, suc, sym, true, zero, ℕ, ◌%◌, ◌==◌, ◌^◌,
  ◌∙◌, ◌∷◌, ◌≡◌, ◌⊎◌, [],
}

abbrev pub command_of : Access → List ℕ → List ℕ
command_of (wrote register value) rest = elim (register == c_dcr) [
  | true ↦ value ∷ rest
  | false ↦ rest
]
command_of (was_read register) rest = rest

-- Newest first.
abbrev pub commands : Log → List ℕ
commands [] = []
commands (access ∷ log) = command_of access (commands log)

pub commands-times : (k : ℕ) (log : Log) → commands (times read_csr k log) ≡ commands log
commands-times zero log = refl
commands-times (suc k) log = commands-times k (read_csr log)

-- What may go wrong while a command is sent and its answer awaited.
pub data LinkError : Error → Type 0 where
  refused : LinkError bar_access_failed
  down : LinkError link_not_up
  no_room : LinkError ddl_command_timeout
  no_answer : LinkError ddl_status_timeout

-- At most this command went out.
abbrev pub AtMost : ℕ → Log → Log → Type 0
AtMost word log l = (commands l ≡ commands log) ⊎ (commands l ≡ word ∷ commands log)

pub SendsNone-LinkError :
    (card : Card) (dest : ℤ) (command : ℕ) (transid : ℤ) (param time : ℕ) (log : Log) (e : Error)
    (l : Log)
    → SendsNone card dest command transid param time log e l
    → LinkError e
SendsNone-LinkError card dest command transid param time log e l s = elim s.reason [
  | inl broke ↦ subst LinkError (sym broke) refused
  | inr (inl r) ↦ subst LinkError (sym r.0) down
  | inr (inr r) ↦ subst LinkError (sym r.0) no_room
]

pub Polls-LinkError :
    (card : Card) (time : ℕ) (log : Log) (e : Error) (l : Log)
    → ((e ≡ ddl_status_timeout) × RunsOut (status_arrived card) read_csr time log l)
      ⊎ ((e ≡ bar_access_failed)
          × (k : ℕ) × Breaks (status_arrived card) read_csr Kept time k log l)
    → LinkError e
Polls-LinkError card time log e l (inl r) = subst LinkError (sym r.0) no_answer
Polls-LinkError card time log e l (inr r) = subst LinkError (sym r.0) refused

module _ (card : Card) where
  pub send-commands :
      (dest : ℤ) (command : ℕ) (transid : ℤ) (param time : ℕ) (log : Log)
      → Ensures
          (ddl_send_command card dest command transid param time log)
          (λ u l. commands l ≡ command_word dest command transid param % 2 ^ 32 ∷ commands log)
          (λ e l. LinkError e × (commands l ≡ commands log))
  send-commands dest command transid param time log =
      Ensures-mono (ddl_send_command card dest command transid param time log) _ _ _ _
        (ddl_send_command_lem card dest command transid param time log)
        (λ u l s.
          ap commands s.sent
          ∙ ap (λ c. command_word dest command transid param % 2 ^ 32 ∷ c)
              (commands-times s.checks log))
        (λ e l s. (
          SendsNone-LinkError card dest command transid param time log e l s,
          ap commands s.none_sent ∙ commands-times s.checks log,
        ))

  pub wait-commands :
      (time : ℕ) (log : Log)
      → Ensures
          (ddl_wait_status card time log)
          (λ u l. commands l ≡ commands log)
          (λ e l. LinkError e × (commands l ≡ commands log))
  wait-commands time log =
      Ensures-mono (ddl_wait_status card time log) _ _ _ _ (ddl_wait_status_lem card time log)
        (λ u l (k, (lt, fails, found, same)). ap commands same ∙ commands-times (suc k) log)
        (λ e l h. elim h [
          | inl (over, (fails, same)) ↦
              (subst LinkError (sym over) no_answer, ap commands same ∙ commands-times time log)
          | inr (broke, k, (lt, fails, same)) ↦
              (subst LinkError (sym broke) refused, ap commands same ∙ commands-times k log)
        ])

  pub read-commands :
      (log : Log)
      → Ensures
          (ddl_read_status card log)
          (λ w l. commands l ≡ commands log)
          (λ e l. LinkError e × (commands l ≡ commands log))
  unfolding ddl_read_status
  read-commands log = read-then card _ _ c_dsr _ log (refused, refl) refl
