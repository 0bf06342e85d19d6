-- ===== src/Rorc/CrorcCard/Tests.antt =====
-- The theorems on class Crorc at cards that answer as a C-RORC may.
use flp_prototype.Rorc.CrorcCard.SerialNumber.{IsSerial, NoSerial, get_serial_lem}
use flp_prototype.Rorc.CrorcCard.Serial.{get_serial}
use flp_prototype.Rorc.CrorcCard.Registers.{has}
use flp_prototype.Rorc.CrorcCard.Receiver.{Switch}
use flp_prototype.Rorc.CrorcCard.Program.{first_address, program_words}
use flp_prototype.Rorc.CrorcCard.Polling.{Polls}
use flp_prototype.Rorc.CrorcCard.FlashWrites.{
  Emits, PartOfCheck, ask_state, check_status_lem, status_good,
}
use flp_prototype.Rorc.CrorcCard.FlashWords.{BecomesReady}
use flp_prototype.Rorc.CrorcCard.FlashProgram.{program_values, program_words_lem, ProgramError}
use flp_prototype.Rorc.CrorcCard.Flash.{check_status, max_wait}
use flp_prototype.Rorc.Error.{bad_flash_status}
use flp_prototype.Rorc.CrorcCard.Word.{Holds, command_word_lem}
use flp_prototype.Rorc.CrorcCard.Status.{ddl_interpret_ifstw, diu_test_mode, siu_undefined}
use flp_prototype.Rorc.CrorcCard.Send.{Sends, SendsNone, ddl_send_command_lem}
use flp_prototype.Rorc.CrorcCard.Reset.{Clock, ddl_set_siu_loop_back, empty_data_fifos}
use flp_prototype.Rorc.CrorcCard.PortStates.{ddl_interpret_ifstw_lem}
use flp_prototype.Rorc.CrorcCard.Loopback.{AnswersIllegal, Gives, ddl_set_siu_loop_back_lem}
use flp_prototype.Rorc.CrorcCard.Link.{code_part, command_word, ddl_send_command}
use flp_prototype.Rorc.CrorcCard.EmptyFifos.{Empties, empty_data_fifos_lem}
use flp_prototype.Rorc.CrorcCard.Constants.{c_csr, c_dsr, data_rx_on_off, diu, loopb_on_off}
use flp_prototype.Rorc.Bar.{Access, Card, Log, was_read, wrote}
use flp_prototype.Base.Int.{pos, ℤ}
use flp_prototype.Base.{
  Ensures, [], false, if◌then◌else◌, last?, length, refl, some, true, ℕ, ◌%◌, ◌+◌, ◌==◌, ◌^◌, ◌≡◌,
  Bool, List, Option, arith, not, ◌&&◌, ◌∷◌,
}

-- Commands are taken, and a status word is always there: `word`, of which the sender is the DIU.
answers_word : ℕ → Log → ℕ → ℕ
answers_word word log register = if register == c_dsr then word else 0x0080_0000

abbrev link_card : ℕ → Card
link_card word = record { index = 0; answers = answers_word word; refuses = λ log a. false }

ddl_send_command_lem_example :
    Ensures
      (ddl_send_command (link_card 0) (pos 2) 15 (pos 3) 0 10 [])
      (λ u l. Sends (link_card 0) (pos 2) 15 (pos 3) 0 10 [] l)
      (λ e l. SendsNone (link_card 0) (pos 2) 15 (pos 3) 0 10 [] e l)
ddl_send_command_lem_example = ddl_send_command_lem (link_card 0) (pos 2) 15 (pos 3) 0 10 []

command_word_lem_example : Holds (command_word (pos 2) 15 (pos 3) 7) (2 % 2 ^ 4) 15 (pos 3) 7
command_word_lem_example = command_word_lem 2 15 (pos 3) 7

illegal : AnswersIllegal (link_card 0x22) []
unfolding code_part answers_word
illegal m e = refl

ddl_set_siu_loop_back_lem_example :
    Ensures (ddl_set_siu_loop_back (link_card 0x22) 10 []) (λ x l. ⊥) (λ e l. Gives [] e l)
ddl_set_siu_loop_back_lem_example = ddl_set_siu_loop_back_lem (link_card 0x22) 10 [] illegal

ddl_interpret_ifstw_lem_example :
    last? (ddl_interpret_ifstw 0x2001)
    ≡ some (if 0x2001 % 2 ^ 4 == diu then diu_test_mode else siu_undefined)
ddl_interpret_ifstw_lem_example = ddl_interpret_ifstw_lem 0x2001 refl

-- A clock that goes on by one for each access.
abbrev clock : Clock
clock = record { start = length; now = length }

empty_data_fifos_lem_example :
    Empties (link_card 0) length (0 + 100) (empty_data_fifos (link_card 0) clock 101 100 [])
empty_data_fifos_lem_example =
    empty_data_fifos_lem (link_card 0) clock 100 100 [] (λ l longer. longer)

-- A card with the two switches, each turned by a write of its bit.
turned_by : ℕ → Access → Bool → Bool
turned_by bits (wrote register word) on = elim (register == c_csr && word == bits) [
  | true ↦ not on
  | false ↦ on
]
turned_by bits (was_read register) on = on

switched : ℕ → Log → Bool
unfolding turned_by
switched bits [] = false
switched bits (access ∷ log) = turned_by bits access (switched bits log)

status_word : Bool → Bool → ℕ
status_word true true = 0x1200
status_word true false = 0x200
status_word false true = 0x1000
status_word false false = 0

abbrev switch_card : Card
switch_card = record {
  index = 0;
  answers = λ log register. status_word (switched 0x200 log) (switched 0x1000 log);
  refuses = λ log a. false;
}

receiver_turns :
    (rx lb : Bool)
    → has (status_word (not rx) lb % 2 ^ 32) 0x200 ≡ not (has (status_word rx lb % 2 ^ 32) 0x200)
unfolding status_word
receiver_turns true true = refl
receiver_turns true false = refl
receiver_turns false true = refl
receiver_turns false false = refl

loopback_turns :
    (rx lb : Bool)
    → has (status_word rx (not lb) % 2 ^ 32) 0x1000 ≡ not (has (status_word rx lb % 2 ^ 32) 0x1000)
unfolding status_word
loopback_turns true true = refl
loopback_turns true false = refl
loopback_turns false true = refl
loopback_turns false false = refl

receiver-Switch : Switch switch_card data_rx_on_off
unfolding switched turned_by
receiver-Switch = record {
  by_read = λ log register. refl;
  by_turn = λ log. receiver_turns (switched 0x200 log) (switched 0x1000 log);
}

loopback-Switch : Switch switch_card loopb_on_off
unfolding switched turned_by
loopback-Switch = record {
  by_read = λ log register. refl;
  by_turn = λ log. loopback_turns (switched 0x200 log) (switched 0x1000 log);
}

-- A flash that is always ready and well.
abbrev flash_card : Card
flash_card = record { index = 0; answers = λ log register. 0x80; refuses = λ log a. false }

flash_ready : BecomesReady flash_card 1
flash_ready l = (0, omega arith, λ e. omega (arith, e))

check_status_lem_example :
    Polls
      (status_good flash_card)
      ask_state
      PartOfCheck
      bad_flash_status
      max_wait
      []
      (check_status flash_card [])
check_status_lem_example = check_status_lem flash_card []

abbrev two_words : List ℤ
two_words = pos 0xbeef ∷ pos 0x1234 ∷ []

program_words_lem_example :
    Ensures
      (program_words flash_card (λ l. false) 1 72 2 0 two_words [])
      (λ u l. Emits [] (program_values (first_address 0) two_words) l)
      (λ e l. ProgramError flash_card e l)
unfolding first_address
program_words_lem_example =
    program_words_lem flash_card (λ l. false) 1 72 2 0 two_words [] flash_ready (omega arith)
      (omega arith) (omega arith)

-- Some characters are the number 7, whatever they are.
abbrev convert : List ℕ → Option ℕ
convert characters = some 7

get_serial_lem_example :
    Ensures
      (get_serial flash_card convert [])
      (λ o l. IsSerial flash_card convert [] o l)
      (λ e l. NoSerial flash_card convert [] e l)
get_serial_lem_example = get_serial_lem flash_card convert []
