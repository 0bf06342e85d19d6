-- ===== src/Rorc/CrorcCard/Send.antt =====
-- ddlSendCommand(): what it does to the card.
use mathlib.Core.Path.{subst}
use flp_prototype.Rorc.CrorcCard.Rules.{when-Ensures}
use flp_prototype.Rorc.Bar.Steps.{wrote-Ensures}
use flp_prototype.Rorc.Error.{Error, bar_access_failed, ddl_command_timeout, link_not_up}
use flp_prototype.Rorc.CrorcCard.Waits.{
  command_idle, link_check, link_up, read_csr, wait_command_register_lem,
}
use flp_prototype.Rorc.CrorcCard.Registers.{assert_link_up, when, put_command_register}
use flp_prototype.Rorc.CrorcCard.Polling.{times, times-add, Fails}
use flp_prototype.Rorc.CrorcCard.Link.{
  command_word, destination_of, wait_command_register, ddl_send_command,
}
use flp_prototype.Rorc.CrorcCard.Constants.{c_dcr, diu}
use flp_prototype.Rorc.Bar.{Card, Log, wrote, write_register}
use flp_prototype.Base.Int.{ℤ}
use flp_prototype.Base.{
  Bool, Ensures, Ensures-mono, arith, false, inl, inr, ltb, not, refl, true, ℕ, ◌%◌, ◌+◌, ◌-◌, ◌==◌,
  ◌^◌, ◌∷◌, ◌≡◌, ◌≢◌, ◌≤◌, ◌⊎◌, >>=-Ensures, ap, suc, ◌>>◌, ◌∙◌,
}

module _ (card : Card) (dest : ℤ) (command : ℕ) (transid : ℤ) (param time : ℕ) (log : Log) where
  -- The destination is behind the link.
  abbrev pub behind_link : Bool
  behind_link = ltb diu (destination_of dest command)

  -- The command is written once, after at most `time + 1` checks of the status register: the link is
  -- up, if the destination is behind it, and the last check found room, if there is a time.
  pub record Sends (l : Log) : Type 0 where
    pub checks : ℕ
    pub checks_le : checks ≤ time + 1
    pub sent :
        l
        ≡ wrote c_dcr (command_word dest command transid param % 2 ^ 32) ∷ times read_csr checks log
    pub link_lem : (behind_link ≡ false) ⊎ (link_up card log ≡ true)
    pub idle_lem : (time ≡ 0) ⊎ (command_idle card (times read_csr (checks - 1) log) ≡ true)

  -- No command is written.
  pub record SendsNone (e : Error) (l : Log) : Type 0 where
    pub checks : ℕ
    pub checks_le : checks ≤ time + 1
    pub none_sent : l ≡ times read_csr checks log
    pub reason :
        (e ≡ bar_access_failed)
        ⊎ ((e ≡ link_not_up) × (behind_link ≡ true) × (link_up card log ≡ false))
        ⊎ ((e ≡ ddl_command_timeout)
            × (time ≢ 0)
            × (first : ℕ) × (checks ≡ first + time)
            × Fails (command_idle card) read_csr time (times read_csr first log))

  -- After the check of the link.
  abbrev Linked : Log → Type 0
  Linked l =
      (k : ℕ) × (k ≤ 1)
      × (l ≡ times read_csr k log)
      × ((behind_link ≡ false) ⊎ (link_up card log ≡ true))

  linked : Ensures (when behind_link (assert_link_up card) log) (λ u l. Linked l) SendsNone
  linked =
      when-Ensures (λ u l. Linked l) SendsNone behind_link (assert_link_up card) log
        (λ near. (0, omega arith, refl, inl near))
        (λ far.
          Ensures-mono (assert_link_up card log) _ _ _ _ (link_check card log)
            (λ u l h. (1, omega arith, h.1, inr h.0))
            (λ e l h. elim h [
              | inl r ↦ record {
                checks = 0;
                checks_le = omega arith;
                none_sent = r.1;
                reason = inl r.0;
              }
              | inr r ↦ record {
                checks = 1;
                checks_le = omega arith;
                none_sent = r.2;
                reason = inr (inl (r.0, far, r.1));
              }
            ]))

  -- After the wait for room.
  abbrev Idle : Log → Type 0
  Idle l =
      (k : ℕ) × (k ≤ time + 1)
      × (l ≡ times read_csr k log)
      × ((behind_link ≡ false) ⊎ (link_up card log ≡ true))
      × ((time ≡ 0) ⊎ (command_idle card (times read_csr (k - 1) log) ≡ true))

  after :
      (j k : ℕ) (l m : Log)
      → l ≡ times read_csr j log
      → m ≡ times read_csr k l
      → m ≡ times read_csr (j + k) log
  after j k l m e f = f ∙ ap (times read_csr k) e ∙ times-add read_csr k j log

  waited :
      (l : Log)
      → Linked l
      → Ensures
          (when (not (time == 0)) (wait_command_register card time) l)
          (λ u m. Idle m)
          SendsNone
  waited l (j, small, at, link) =
      when-Ensures (λ u m. Idle m) SendsNone (not (time == 0)) (wait_command_register card time) l
        (λ none_left. (j, omega arith, at, link, inl (ground (arith, none_left))))
        (λ some_left.
          Ensures-mono (wait_command_register card time l) _ _ _ _
            (wait_command_register_lem card time l)
            (λ u m (k, (k_lt, fails, found, same)). (
              j + suc k,
              omega arith,
              after j (suc k) l m at same,
              link,
              inr (
                  subst (λ x. command_idle card x ≡ true)
                    (after j k l (times read_csr k l) at refl
                      ∙ ap (λ n. times read_csr n log)
                          (let s : j + k ≡ j + suc k - 1 = omega arith in s))
                    found),
            ))
            (λ e m h. elim h [
              | inl (over, (fails, same)) ↦ record {
                checks = j + time;
                checks_le = omega arith;
                none_sent = after j time l m at same;
                reason = inr (
                    inr (
                      over,
                      λ zero_time. ground (arith, some_left, zero_time),
                      j,
                      refl,
                      subst (Fails (command_idle card) read_csr time) at fails,
                    ));
              }
              | inr (broke, k, (k_lt, fails, same)) ↦ record {
                checks = j + k;
                checks_le = omega arith;
                none_sent = after j k l m at same;
                reason = inl broke;
              }
            ]))

  put :
      (l : Log)
      → Idle l
      → Ensures
          (put_command_register card (command_word dest command transid param) l)
          (λ u m. Sends m)
          SendsNone
  unfolding put_command_register
  put l (k, small, at, link, room) =
      Ensures-mono (write_register card c_dcr (command_word dest command transid param) l) _ _ _ _
        (wrote-Ensures card c_dcr (command_word dest command transid param) l)
        (λ u m h. record {
          checks = k;
          checks_le = small;
          sent =
              h ∙ ap (λ x. wrote c_dcr (command_word dest command transid param % 2 ^ 32) ∷ x) at;
          link_lem = link;
          idle_lem = room;
        })
        (λ e m h. record { checks = k; checks_le = small; none_sent = h.1 ∙ at; reason = inl h.0 })

-- ddlSendCommand(), for any card and any arguments: it ends; if it returns, it has written the
-- command word to the command register, once and last, after at most `time + 1` reads of the status
-- register and nothing else; the first of these showed the link up, if the destination is behind it,
-- and the last one an empty command register, if `time` is not 0. If it throws, it has written
-- nothing, and either the card refused an access, or the link was down for a destination behind it,
-- or the command register was full at all of `time` checks.
pub ddl_send_command_lem :
    (card : Card) (dest : ℤ) (command : ℕ) (transid : ℤ) (param time : ℕ) (log : Log)
    → Ensures
        (ddl_send_command card dest command transid param time log)
        (λ u l. Sends card dest command transid param time log l)
        (λ e l. SendsNone card dest command transid param time log e l)
unfolding ddl_send_command
ddl_send_command_lem card dest command transid param time log =
    >>=-Ensures
      (λ x.
        (when (behind_link card dest command transid param time log) (assert_link_up card)
            >> when (not (time == 0)) (wait_command_register card time))
          x)
      (λ _. put_command_register card (command_word dest command transid param))
      (λ u l. Idle card dest command transid param time log l) _ _ log
      (>>=-Ensures
        (when (behind_link card dest command transid param time log) (assert_link_up card))
        (λ _. when (not (time == 0)) (wait_command_register card time)) _ _ _ log
        (linked card dest command transid param time log)
        (λ u l h. waited card dest command transid param time log l h))
      (λ u l h. put card dest command transid param time log l h)
