-- ===== src/Rorc/Crorc/State.antt =====
-- The state of CrorcDmaChannel, the card that it drives, and the status words of
-- RORC/src/Crorc/ReadyFifo.h.
use flp_prototype.Base.{
  ℕ, ◌+◌, ◌-◌, ◌/◌, ◌%◌, ◌^◌, Bool, true, false, not, ◌&&◌, List, ◌==◌, leb, Outcome, done, throws,
  undefined, ◌>>◌, if◌then◌else◌, length, modify,
}
use flp_prototype.Rorc.Error.{Error, status_has_errors, status_unrecognized}
use flp_prototype.Rorc.Dma.{ResetLevel}
use flp_prototype.Rorc.Queue
use flp_prototype.Rorc.Queue.{
  SuperpageQueue, Entry, is_pushed, get_unpushed_pages, get_queue_available,
  get_pushing_front_entry, get_arrivals_front_entry, remove_from_pushing_queue,
  move_from_arrivals_to_filled_queue, remove_from_filled_queue, add_to_queue, write_entry,
}
use flp_prototype.Rorc.BarAccessor.{GeneratorPattern}

abbrev pub max_superpages : ℕ
max_superpages = 32

abbrev pub readyfifo_entries : ℕ
readyfifo_entries = 128

abbrev pub fifo_queue_max : ℕ
fifo_queue_max = readyfifo_entries

-- LoopbackMode::type
pub data LoopbackMode : Type 0 where
  none_mode diu siu internal_mode : LoopbackMode

-- Rorc::Reset and Ddl, as far as they are sent
pub data ResetOption : Type 0 where
  reset_ff reset_rorc reset_diu reset_siu : ResetOption

-- What the channel does to the card: the methods of class Crorc, with their arguments, and the
-- accesses to the ready FIFO.
pub data Command : Type 0 where
  init_readout_continuous start_readout_continuous init_diu_version : Command
  reset_command arm_ddl : ResetOption → ℕ → Command
  arm_data_generator : ℕ → ℕ → GeneratorPattern → ℕ → ℕ → Command
  set_loopback_on assert_link_up siu_cifst diu_cifst stop_data_generator stop_data_receiver
        assert_free_fifo_empty :
      Command
  start_data_generator start_data_receiver set_siu_loopback start_trigger stop_trigger : ℕ → Command
  push_rx_free_fifo : ℕ → ℕ → ℕ → Command
  reset_ready_entry read_length read_status : ℕ → Command
  write_event_size : ℕ → ℕ → Command

-- The commands so far, newest first.
abbrev pub Log : Type 0
Log = List Command

-- What a command returns, and the commands that throw.
pub record Card : Type 0 where
  pub answers : Log → Command → ℕ
  pub refuses : Log → Command → Bool

-- What the constructor sets for good.
pub record Config : Type 0 where
  pub page_size : ℕ
  pub initial_reset_level : ResetLevel
  pub no_rdyrx : Bool
  pub loopback_mode : LoopbackMode
  pub generator_enabled : Bool
  pub generator_pattern : GeneratorPattern
  pub generator_maximum_events : ℕ
  pub generator_initial_value : ℕ
  pub generator_initial_word : ℕ
  pub generator_seed : ℕ
  pub generator_data_size : ℕ
  pub use_continuous_readout : Bool
  pub ready_fifo_address_bus : ℕ
  pub dma_buffer_userspace : ℕ

pub record CrorcDmaChannel : Type 0 where
  pub commands : Log
  pub fifo_back : ℕ
  pub fifo_size : ℕ
  pub superpage_queue : SuperpageQueue
  pub pending_dma_start : Bool
  pub diu_config : ℕ

abbrev pub M : Type 0 → Type 0
M A = CrorcDmaChannel → Outcome CrorcDmaChannel Error A

-- A member function of the superpage queue.
abbrev pub on_queue : {A : Type 0} → Queue.M A → M A
on_queue m c = elim (m c.superpage_queue) [
  | done a q ↦ done a (record c { superpage_queue = q })
  | throws e q ↦ throws e (record c { superpage_queue = q })
  | undefined ↦ undefined
]

-- A failed assertion ends the program of a debug build, and is counted as undefined.
abbrev pub assert : Bool → Bool → M (Unit {0})
assert debug test c = elim (debug && not test) [ true ↦ undefined | false ↦ done tt c ]

pub data DataArrivalStatus : Type 0 where
  none_arrived part_arrived whole_arrived : DataArrivalStatus

abbrev pub is_whole : DataArrivalStatus → Bool
is_whole none_arrived = false
is_whole part_arrived = false
is_whole whole_arrived = true

abbrev pub is_external : LoopbackMode → Bool
is_external none_mode = false
is_external diu = true
is_external siu = true
is_external internal_mode = false

abbrev pub is_siu : LoopbackMode → Bool
is_siu none_mode = false
is_siu diu = false
is_siu siu = true
is_siu internal_mode = false

-- A division, undefined by 0.
abbrev pub divided : ℕ → ℕ → M ℕ
divided a b c = elim (b == 0) [ true ↦ undefined | false ↦ done (a / b) c ]

-- What dataArrived() makes of a status word, the bits of an int32_t.
unfoldable pub arrival_of : ℕ → M DataArrivalStatus
arrival_of status c =
    if status == 2 ^ 32 - 1
    then done none_arrived c
    else if status == 0
    then done part_arrived c
    else if status % 2 ^ 8 == 0x82
    then (if leb (2 ^ 31) status then throws status_has_errors c else done whole_arrived c)
    else throws status_unrecognized c

unfoldable pub device_start_dma : M (Unit {0})
device_start_dma =
    modify (λ (c : CrorcDmaChannel). record c { fifo_back = 0; fifo_size = 0 })
    >> modify
        (λ (c : CrorcDmaChannel). record c { superpage_queue = Queue.clear c.superpage_queue })
    >> modify (λ (c : CrorcDmaChannel). record c { pending_dma_start = true })

unfoldable pub get_fifo_front : CrorcDmaChannel → ℕ
get_fifo_front c = (c.fifo_back + c.fifo_size) % readyfifo_entries

unfoldable pub get_transfer_queue_available : CrorcDmaChannel → ℕ
get_transfer_queue_available c = get_queue_available max_superpages c.superpage_queue

unfoldable pub get_ready_queue_size : CrorcDmaChannel → ℕ
get_ready_queue_size c = length c.superpage_queue.filled
