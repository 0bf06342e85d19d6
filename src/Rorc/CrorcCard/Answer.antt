-- ===== src/Rorc/CrorcCard/Answer.antt =====
-- The status words that answer a command: ddlReadDiu(), ddlReadSiu() and ddlReadCTSTW().
use flp_prototype.Rorc.CrorcCard.Constants.{c_dsr, diu, ifstw, rand_cifst, siu}
use flp_prototype.Rorc.Bar.Steps.{answer, read-then}
use flp_prototype.Rorc.Bar.{Card, Log, M, was_read}
use flp_prototype.Rorc.Error.{
  bar_access_failed, Error, unexpected_diu_stw, unexpected_siu_stw, unexpected_stw,
}
use flp_prototype.Rorc.CrorcCard.Commands.{
  refused, LinkError, AtMost, commands, read-commands, wait-commands, send-commands,
}
use flp_prototype.Rorc.CrorcCard.Link.{
  code_part, command_word, dest_part, trid_part, StWord, answers_to, is_command_status,
  ddl_read_ctstw, ddl_read_status, ddl_wait_status, ddl_read_diu, ddl_read_siu, ddl_send_command,
}
use flp_prototype.Base.Int.{pos, ℤ, eqb, eqb→eq}
use flp_prototype.Base.{
  arith, refl, ℕ, ◌%◌, ◌^◌, ◌≡◌, false, not, true, ◌&&◌, ◌≤◌, >>=-Ensures, Bool, Ensures,
  Ensures-mono, inr, pure, throw_if, ◌==◌, ◌>>=◌, ◌>>◌, ◌∙◌, ◌∷◌, Outcome, inl,
}

-- A status word that ends a command: its code is CTSTW, CTSTW_TO or ILCMD, and it has the
-- transaction and the sender.
abbrev pub Ends : ℤ → ℕ → StWord → Type 0
Ends transid sender w = (code_part w ≤ 2) × (pos (trid_part w) ≡ transid) × (dest_part w ≡ sender)

&&→both : (a b : Bool) → not (a && b) ≡ false → (a ≡ true) × (b ≡ true)
&&→both true true h = (refl, refl)
&&→both true false h = cc
&&→both false b h = cc

and→both : (a b : Bool) → (a && b) ≡ true → (a ≡ true) × (b ≡ true)
and→both true true h = (refl, refl)
and→both true false h = cc
and→both false b h = cc

ends :
    (w : StWord) (transid : ℤ) (sender : ℕ)
    → not (is_command_status w && answers_to w transid sender) ≡ false
    → Ends transid sender w
unfolding code_part dest_part trid_part
ends w transid sender h =
    let b : (is_command_status w ≡ true) × (answers_to w transid sender ≡ true) = &&→both _ _ h in
    let d : (eqb (pos (trid_part w)) transid ≡ true) × ((dest_part w == sender) ≡ true) =
      and→both _ _ b.1 in
    (ground (arith, b.0), eqb→eq (pos (trid_part w)) transid d.0, ground (arith, d.1))

-- The last access is a read of the status register, and the card has answered it by this word.
abbrev pub IsLastRead : Card → StWord → Log → Type 0
IsLastRead card w l = (m : Log) × (w.stw ≡ answer card m c_dsr) × (l ≡ was_read c_dsr ∷ m)

-- What goes wrong with the answer.
pub data AnswerError : Error → Type 0 where
  link : (e : Error) → LinkError e → AnswerError e
  not_diu : AnswerError unexpected_diu_stw
  not_siu : AnswerError unexpected_siu_stw
  not_ended : AnswerError unexpected_stw

module _ (card : Card) (word : ℕ) (log : Log) where
  abbrev pub Bad : Error → Log → Type 0
  Bad e l = AnswerError e × AtMost word log l

  -- The command went out, and no other.
  abbrev pub Sent : Log → Type 0
  Sent l = commands l ≡ word ∷ commands log

  abbrev pub Answered : ℤ → ℕ → StWord → Log → Type 0
  Answered transid sender w l = Ends transid sender w × Sent l × IsLastRead card w l

  quiet :
      {A B : Type 0} (m : M A) (k : A → M B) (P : B → Log → Type 0) (l : Log)
      → Sent l
      → Ensures
          (m l)
          (λ a x. commands x ≡ commands l)
          (λ e x. LinkError e × (commands x ≡ commands l))
      → ((a : A) (x : Log) → Sent x → Ensures (k a x) P Bad)
      → Ensures ((m >>= k) l) P Bad
  quiet m k P l s h next_step =
      >>=-Ensures m k (λ a x. commands x ≡ commands l) _ _ l
        (Ensures-mono (m l) _ _ _ _ h (λ a x e. e) (λ e x q. (link e q.0, inr (q.1 ∙ s))))
        (λ a x e. next_step a x (e ∙ s))

  reads :
      {B : Type 0} (k : StWord → M B) (P : B → Log → Type 0) (l : Log)
      → Sent l
      → ((w : StWord) (x : Log) → Sent x → IsLastRead card w x → Ensures (k w x) P Bad)
      → Ensures ((ddl_read_status card >>= k) l) P Bad
  unfolding ddl_read_status
  reads k P l s next_step =
      >>=-Ensures (ddl_read_status card) k (λ w x. Sent x × IsLastRead card w x) _ _ l
        (read-then card _ _ c_dsr _ l (link bar_access_failed refused, inr s) (s, (l, refl, refl)))
        (λ w x h. next_step w x h.0 h.1)

  checked :
      {B : Type 0} (b : Bool) (error : Error) (k : M B) (P : B → Log → Type 0) (l : Log)
      → Sent l
      → AnswerError error
      → (b ≡ false → Ensures (k l) P Bad)
      → Ensures ((throw_if b error >> k) l) P Bad
  checked true error k P l s e h = (e, inr s)
  checked false error k P l s e h = h refl

  ctstw_answer :
      (transid : ℤ) (sender time : ℕ) (l : Log)
      → Sent l
      → Ensures (ddl_read_ctstw card transid sender time l) (Answered transid sender) Bad
  unfolding ddl_read_ctstw
  ctstw_answer transid sender time l s =
      quiet (ddl_wait_status card time) _ _ l s (wait-commands card time l) (λ u x t.
        reads _ _ x t (λ w y v last.
          checked (not (is_command_status w && answers_to w transid sender)) unexpected_stw (pure w)
            _ y v not_ended (λ h. (ends w transid sender h, v, last))))

  siu_answer :
      (transid : ℤ) (time : ℕ) (l : Log)
      → Sent l
      → Ensures
          ((ddl_wait_status card time >>= λ u. ddl_read_status card >>= λ w.
              throw_if (not (code_part w == ifstw && answers_to w transid siu)) unexpected_siu_stw
              >>= λ v. ddl_read_status card >>= λ x.
                  throw_if
                    (not (is_command_status x && answers_to x transid siu))
                    unexpected_siu_stw
                  >>= λ y. pure x)
            l)
          (Answered transid siu)
          Bad
  siu_answer transid time l s =
      quiet (ddl_wait_status card time) _ _ l s (wait-commands card time l) (λ u x t.
        quiet (ddl_read_status card) _ _ x t (read-commands card x) (λ w y v.
          checked (not (code_part w == ifstw && answers_to w transid siu)) unexpected_siu_stw
            (ddl_read_status card >>= λ x.
              throw_if (not (is_command_status x && answers_to x transid siu)) unexpected_siu_stw
              >>= λ y. pure x)
            _ y v not_siu
            (λ h. reads _ _ y v (λ z m r last.
              checked (not (is_command_status z && answers_to z transid siu)) unexpected_siu_stw
                (pure z) _ m r not_siu (λ f. (ends z transid siu f, r, last))))))

  diu_answer :
      (transid : ℤ) (time : ℕ) (l : Log)
      → Sent l
      → Ensures
          ((ddl_wait_status card time >>= λ u. ddl_read_status card >>= λ w.
              throw_if (not (code_part w == ifstw && answers_to w transid diu)) unexpected_diu_stw
              >>= λ v. ddl_read_ctstw card transid diu time)
            l)
          (Answered transid diu)
          Bad
  diu_answer transid time l s =
      quiet (ddl_wait_status card time) _ _ l s (wait-commands card time l) (λ u x t.
        quiet (ddl_read_status card) _ _ x t (read-commands card x) (λ w y v.
          checked (not (code_part w == ifstw && answers_to w transid diu)) unexpected_diu_stw
            (ddl_read_ctstw card transid diu time) _ y v not_diu
            (λ h. ctstw_answer transid diu time y v)))

-- What ddlReadDiu() and ddlReadSiu() leave: if they return, the word they return ends a command.
abbrev pub Asks : Card → ℕ → ℤ → Log → Outcome Log Error StWord → Type 0
Asks card sender transid log o =
    Ensures o
      (Answered card (command_word (pos sender) rand_cifst transid 0 % 2 ^ 32) log transid sender)
      (Bad card (command_word (pos sender) rand_cifst transid 0 % 2 ^ 32) log)

pub ddl_read_diu_lem :
    (card : Card) (transid : ℤ) (time : ℕ) (log : Log)
    → Asks card diu transid log (ddl_read_diu card transid time log)
unfolding ddl_read_diu
ddl_read_diu_lem card transid time log =
    >>=-Ensures (ddl_send_command card (pos diu) rand_cifst transid 0 time) _ _ _ _ log
      (Ensures-mono (ddl_send_command card (pos diu) rand_cifst transid 0 time log) _ _ _ _
        (send-commands card (pos diu) rand_cifst transid 0 time log) (λ u l s. s)
        (λ e l h. (link e h.0, inl h.1)))
      (λ u l s.
        diu_answer card (command_word (pos diu) rand_cifst transid 0 % 2 ^ 32) log transid time l s)

pub ddl_read_siu_lem :
    (card : Card) (transid : ℤ) (time : ℕ) (log : Log)
    → Asks card siu transid log (ddl_read_siu card transid time log)
unfolding ddl_read_siu
ddl_read_siu_lem card transid time log =
    >>=-Ensures (ddl_send_command card (pos siu) rand_cifst transid 0 time) _ _ _ _ log
      (Ensures-mono (ddl_send_command card (pos siu) rand_cifst transid 0 time log) _ _ _ _
        (send-commands card (pos siu) rand_cifst transid 0 time log) (λ u l s. s)
        (λ e l h. (link e h.0, inl h.1)))
      (λ u l s.
        siu_answer card (command_word (pos siu) rand_cifst transid 0 % 2 ^ 32) log transid time l s)
