-- ===== src/Rorc/Sca/Gpio.antt =====
-- initialize() and gpioWrite(): the whole sequence of commands.
use flp_prototype.Rorc.Bar.{Card, Log, M}
use flp_prototype.Base.{Ensures, List, [], pure, ℕ, ◌%◌, ◌++◌, ◌>>=◌, ◌>>◌, ◌^◌, ◌∷◌}
use flp_prototype.Rorc.Sca.{
  CardType, control, init, initialize, gpio_enable, gpio_write, write, read, ReadResult, bar_write,
  wait_on_busy_clear,
}
use flp_prototype.Rorc.Sca.Items.{
  Item, sent, idle_seen, answer_passed, Does, ScaError, Performs, >>=-Performs, command_items,
  nothing_more,
}
use flp_prototype.Rorc.Sca.Sequence.{
  wait-Performs, bar_write-Performs, write-Performs, read-Performs, Answers, read-Ends, >>=-Ends,
}

-- The adapter is reset, and seen not to be busy after each step but the last.
abbrev pub init_items : List Item
init_items =
    sent control 1
    ∷ idle_seen
    ∷ sent control 2
    ∷ idle_seen
    ∷ sent control 1
    ∷ idle_seen
    ∷ sent control 0
    ∷ []

-- A command, and its answer.
abbrev pub asked : ℕ → ℕ → List Item → List Item
asked command value more = command_items command value ++ answer_passed ∷ more

abbrev pub initialize_items : List Item
initialize_items =
    init_items
    ++ asked 0x0001_0002 0xff00_0000 (
        asked 0x0002_0003 0xff00_0000
          (command_items 0x0203_0020 0xffff_ffff ++ asked 0x0204_0021 0x0 []))

abbrev pub gpio_items : ℕ → List Item
gpio_items value =
    init_items
    ++ (command_items 0x0204_0010 value ++ asked 0x0205_0011 0x0 (command_items 0x0206_0001 0x0))

module _ (card : Card) (card_type : CardType) where
  control-then :
      {A : Type 0} (value : ℕ) (m : M A) (items : List Item)
      → Performs card items m
      → Performs card
          (sent control (value % 2 ^ 32) ∷ idle_seen ∷ items)
          (bar_write card card_type control value >> (wait_on_busy_clear card card_type >> m))
  control-then value m items h =
      >>=-Performs card _ _ (sent control (value % 2 ^ 32) ∷ []) (idle_seen ∷ items)
        (bar_write-Performs card card_type control value)
        (λ a. >>=-Performs card _ _ (idle_seen ∷ []) items (wait-Performs card card_type) (λ b. h))

  ask-then :
      {A : Type 0} (command value : ℕ) (k : ReadResult → M A) (items : List Item)
      → ((r : ReadResult) → Performs card items (k r))
      → Performs card
          (asked command value items)
          (write card card_type command value >> (read card card_type >>= k))
  ask-then command value k items h =
      >>=-Performs card _ _ (command_items command value) (answer_passed ∷ items)
        (write-Performs card card_type command value)
        (λ a. >>=-Performs card _ k (answer_passed ∷ []) items (read-Performs card card_type) h)

  init-Performs : Performs card init_items (init card card_type)
  unfolding init
  init-Performs =
      control-then 1 _ _
        (control-then 2 _ _ (control-then 1 _ _ (bar_write-Performs card card_type control 0)))

  pure-Performs : Performs card [] (pure tt)
  pure-Performs log = nothing_more log

  gpio_enable-Performs :
      Performs card
        (asked 0x0001_0002 0xff00_0000 (
          asked 0x0002_0003 0xff00_0000
            (command_items 0x0203_0020 0xffff_ffff ++ asked 0x0204_0021 0x0 [])))
        (gpio_enable card card_type)
  unfolding gpio_enable
  gpio_enable-Performs = ask-then _ _ _ _ (λ r. ask-then _ _ _ _ (λ q.
      >>=-Performs card _ _ (command_items 0x0203_0020 0xffff_ffff) (asked 0x0204_0021 0x0 [])
        (write-Performs card card_type 0x0203_0020 0xffff_ffff)
        (λ a. ask-then _ _ _ _ (λ p. pure-Performs))))

-- initialize(), for any card: if it returns, then the adapter was reset and the commands for the GPIO
-- were sent, just these and in this order; after each command, and after each step of the reset but the last, the adapter was seen not to be busy,
-- and each answer that is read had none of the flags 0 to 6. It throws only if the card refuses an access, if
-- 10,000 reads in a row find the adapter busy, or by the first flag of the answer that was read last; it always ends.
pub initialize_lem :
    (card : Card) (card_type : CardType) (log : Log)
    → Ensures
        (initialize card card_type log)
        (λ u l. Does card log initialize_items l)
        (λ e l. ScaError card e l)
unfolding initialize
initialize_lem card card_type =
    >>=-Performs card _ _ init_items _ (init-Performs card card_type)
      (λ a. gpio_enable-Performs card card_type)

-- gpioWrite(), for any card and any value: if it returns, then the adapter was reset, the value was sent to
-- the output register, and this and the input register were asked for, just these and in this order;
-- after each command, and after each step of the reset but the last, the adapter was seen not to be busy, the answers had none of the flags 0
-- to 6, and the last one is the result. It throws only if the card refuses an access, if
-- 10,000 reads in a row find the adapter busy, or by the first flag of the answer that was read last; it always ends.
pub gpio_write_lem :
    (card : Card) (card_type : CardType) (value : ℕ) (log : Log)
    → Ensures
        (gpio_write card card_type value log)
        (λ r l. (k : Log) × Does card log (gpio_items value) k × Answers card k r l)
        (λ e l. ScaError card e l)
unfolding gpio_write
gpio_write_lem card card_type value =
    >>=-Ends card card_type _ _ init_items _ (init-Performs card card_type) (λ a.
      >>=-Ends card card_type _ _ (command_items 0x0204_0010 value) _
        (write-Performs card card_type 0x0204_0010 value)
        (λ b.
          >>=-Ends card card_type _ _ (command_items 0x0205_0011 0x0) _
            (write-Performs card card_type 0x0205_0011 0x0)
            (λ c.
              >>=-Ends card card_type _ _ (answer_passed ∷ []) (command_items 0x0206_0001 0x0)
                (read-Performs card card_type)
                (λ r.
                  >>=-Ends card card_type _ _ (command_items 0x0206_0001 0x0) []
                    (write-Performs card card_type 0x0206_0001 0x0)
                    (λ d. read-Ends card card_type)))))
