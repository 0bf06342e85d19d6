-- ===== src/Rorc/Sca/Items.antt =====
-- The accesses of the slow-control adapter as a sequence of items, with the reads in between.
use flp_prototype.Base.{
  >>=-Ensures, Ensures, Ensures-mono, List, [], ℕ, ◌%◌, ◌++◌, ◌>>=◌, ◌^◌, ◌∷◌, ◌≡◌, Bool, ◌==◌,
}
use flp_prototype.Rorc.Sca.{busy, read_command, write_data, write_command, control, flag_error}
use flp_prototype.Rorc.Sca.Flags.{ClearBetween, IsFirst}
use flp_prototype.Rorc.CrorcCard.Polling.{RunsOut}
use flp_prototype.Rorc.Bar.Steps.{answer}
use flp_prototype.Rorc.Error.{Error, bar_access_failed, sca_busy_timeout}
use flp_prototype.Rorc.Bar.{Card, Log, M, was_read, wrote}

-- A value is written to a register, the adapter is seen not to be busy, or an answer is read, and it has none of the
-- flags 0 to 6.
pub data Item : Type 0 where
  sent : ℕ → ℕ → Item
  idle_seen answer_passed : Item

-- `Does card log items l`: the accesses from `log` to `l` are these, in this order, and reads.
pub data Does (card : Card) : Log → List Item → Log → Type 0 where
  nothing_more : (log : Log) → Does card log [] log
  sends :
      {log l : Log}
      → (register value : ℕ) → {items : List Item}
      → Does card (wrote register (value % 2 ^ 32) ∷ log) items l
      → Does card log (sent register (value % 2 ^ 32) ∷ items) l
  sees_idle :
      {log l : Log}
      → {items : List Item} → answer card log busy ≡ 0
      → Does card (was_read busy ∷ log) items l
      → Does card log (idle_seen ∷ items) l
  passes :
      {log l : Log}
      → {items : List Item} → ClearBetween (answer card log read_command) 0 7
      → Does card (was_read read_command ∷ log) items l
      → Does card log (answer_passed ∷ items) l
  looks :
      {log l : Log}
      → {items : List Item} → (register : ℕ) → Does card (was_read register ∷ log) items l
      → Does card log items l

pub Does-trans :
    {card : Card} {log l m : Log} {is js : List Item}
    → Does card log is l
    → Does card l js m
    → Does card log (is ++ js) m
Does-trans (nothing_more log) g = g
Does-trans (sends r v h) g = sends r v (Does-trans h g)
Does-trans (sees_idle e h) g = sees_idle e (Does-trans h g)
Does-trans (passes c h) g = passes c (Does-trans h g)
Does-trans (looks r h) g = looks r (Does-trans h g)

abbrev pub read_busy : Log → Log
read_busy log = was_read busy ∷ log

abbrev pub not_busy : Card → Log → Bool
not_busy card log = answer card log busy == 0

-- The exceptions, and the accesses before each: an access is refused; the last 10,000 reads all found the
-- adapter busy; or the last read is an answer, of which this is the first flag.
pub data ScaError (card : Card) : Error → Log → Type 0 where
  access_refused : (l : Log) → ScaError card bar_access_failed l
  stays_busy :
      (m l : Log) → RunsOut (not_busy card) read_busy 10000 m l → ScaError card sca_busy_timeout l
  flagged :
      (m l : Log) (flag : ℕ)
      → IsFirst (answer card m read_command) 0 7 flag
      → l ≡ was_read read_command ∷ m
      → ScaError card (flag_error flag) l

-- A step that does these, if it returns.
abbrev pub Performs : {A : Type 0} → Card → List Item → M A → Type 0
Performs card items m =
    (log : Log) → Ensures (m log) (λ a l. Does card log items l) (λ e l. ScaError card e l)

pub >>=-Performs :
    {A B : Type 0} (card : Card) (m : M A) (k : A → M B) (is js : List Item)
    → Performs card is m
    → ((a : A) → Performs card js (k a))
    → Performs card (is ++ js) (m >>= k)
>>=-Performs card m k is js h r log =
    >>=-Ensures m k _ _ _ log (h log)
      (λ a l d. Ensures-mono (k a l) _ _ _ _ (r a l) (λ b x f. Does-trans d f) (λ b x f. f))

-- What write() does.
abbrev pub command_items : ℕ → ℕ → List Item
command_items command value =
    sent write_data (value % 2 ^ 32)
    ∷ sent write_command (command % 2 ^ 32)
    ∷ sent control 4
    ∷ sent control 0
    ∷ idle_seen
    ∷ []
