-- ===== src/Rorc/Sca/Tests.antt =====
-- The theorems on the slow-control adapter at a card that answers every read with 0, and an answer with
-- two flags.
use flp_prototype.Rorc.Bar.{Card, Log}
use flp_prototype.Base.{Ensures, [], false, ℕ, ◌≡◌}
use flp_prototype.Rorc.Sca.{cru, gpio_write, check_error, flag_error}
use flp_prototype.Rorc.Sca.Flags.{ClearBetween, IsFirst, check_error_lem}
use flp_prototype.Rorc.Sca.Sequence.{Answers}
use flp_prototype.Rorc.Sca.Items.{Does, ScaError}
use flp_prototype.Rorc.Sca.Gpio.{gpio_items, gpio_write_lem}

abbrev idle_card : Card
idle_card = record { index = 0; answers = λ log register. 0; refuses = λ log a. false }

check_error_lem_example :
    Ensures
      (check_error 0x14 [])
      (λ u l. (l ≡ []) × ClearBetween 0x14 0 7)
      (λ e l. (l ≡ []) × (i : ℕ) × IsFirst 0x14 0 7 i × (e ≡ flag_error i))
check_error_lem_example = check_error_lem 0x14 []

gpio_write_lem_example :
    Ensures
      (gpio_write idle_card cru 0xff [])
      (λ r l. (k : Log) × Does idle_card [] (gpio_items 0xff) k × Answers idle_card k r l)
      (λ e l. ScaError idle_card e l)
gpio_write_lem_example = gpio_write_lem idle_card cru 0xff []
