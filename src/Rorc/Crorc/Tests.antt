-- ===== src/Rorc/Crorc/Tests.antt =====
-- The theorems of the C-RORC channel at a channel without superpages, and with one.
use flp_prototype.Base.{ℕ, ◌*◌, ◌≡◌, refl, arith, List, [], ◌∷◌, ◌++◌, true, false, replicate}
use flp_prototype.Base.Int.{pos, negsuc}
use flp_prototype.Base.Buffer.{CircularBuffer}
use flp_prototype.Rorc.Superpage.{Superpage, is_multiple}
use flp_prototype.Rorc.Dma.{internal}
use flp_prototype.Rorc.Pda.{SgEntry}
use flp_prototype.Rorc.Queue.{SuperpageQueue, Entry, is_valid_entry, clear, reset_entry}
use flp_prototype.Rorc.Queue.Invariant.{IsQueue}
use flp_prototype.Rorc.Queue.Add.{added, added-IsQueue}
use flp_prototype.Rorc.Queue.Ends.{clear-IsQueue}
use flp_prototype.Rorc.BarAccessor.{incremental}
use flp_prototype.Rorc.Crorc.State.{Card, Config, CrorcDmaChannel, internal_mode, max_superpages}
use flp_prototype.Rorc.Crorc.Transfer.{push_superpage, push_pages}
use flp_prototype.Rorc.Crorc.Push.{Enqueues, entry_of, crorc_push_superpage_lem}
use flp_prototype.Rorc.Crorc.Pages.{PushesPages, push_pages_lem}

abbrev appending : CircularBuffer ℕ
appending = record { push_back = λ c xs x. xs ++ x ∷ []; push_back_room = λ c xs x h. refl }

abbrev card : Card
card = record { answers = λ log command. 0; refuses = λ log command. false }

abbrev config : Config
config = record {
  page_size = 8192;
  initial_reset_level = internal;
  no_rdyrx = true;
  loopback_mode = internal_mode;
  generator_enabled = true;
  generator_pattern = incremental;
  generator_maximum_events = 0;
  generator_initial_value = 0;
  generator_initial_word = 0;
  generator_seed = 0;
  generator_data_size = 8192;
  use_continuous_readout = false;
  ready_fifo_address_bus = 0x8000;
  dma_buffer_userspace = 0x10_0000;
}

abbrev page : Superpage
page = record { offset = 0x10_0000; size = 0x10_0000; user_data = 0; received = 0; ready = false }

abbrev entries : List SgEntry
entries = record { size = 0x40_0000; address_user = 0x10_0000; address_bus = 0x9000_0000 } ∷ []

abbrev unused : Entry
unused = record { superpage = page; bus_address = 0; pushed_pages = negsuc 0; max_pages = pos 0 }

abbrev no_superpages : SuperpageQueue
no_superpages = record {
  number_of_entries = 0;
  next_id = 0;
  registry = replicate 32 unused;
  pushing = [];
  arrivals = [];
  filled = [];
}

no_superpages-IsQueue : IsQueue max_superpages no_superpages
unfolding clear reset_entry
no_superpages-IsQueue = (clear-IsQueue 32 no_superpages (omega arith) refl).0

abbrev channel : SuperpageQueue → CrorcDmaChannel
channel q = record {
  commands = [];
  fifo_back = 127;
  fifo_size = 0;
  superpage_queue = q;
  pending_dma_start = false;
  diu_config = 0;
}

multiple : is_multiple page.size (1024 * 1024) ≡ true
unfolding is_multiple
multiple = refl

crorc_push_superpage_lem_example :
    Enqueues config entries page
      (channel no_superpages)
      (push_superpage card config true appending 0x40_0000 entries page (channel no_superpages))
crorc_push_superpage_lem_example =
    crorc_push_superpage_lem true card config appending 0x40_0000 0x10_0000 entries page
      (channel no_superpages) no_superpages-IsQueue
      (record { some_size = omega arith; units = refl; inside = omega arith; aligned = refl })
      (omega arith) multiple (refl, omega arith) (omega arith) (omega arith) (omega arith)

abbrev one : SuperpageQueue
one = added 32 (entry_of config entries page) no_superpages

one-IsQueue : IsQueue max_superpages one
unfolding is_valid_entry
one-IsQueue =
    added-IsQueue 32 (entry_of config entries page) no_superpages no_superpages-IsQueue
      (omega arith) refl

push_pages_lem_example :
    PushesPages card config true 0
      (entry_of config entries page)
      0
      2
      (channel one)
      (push_pages card config true 0 2 (channel one))
push_pages_lem_example =
    push_pages_lem card config true 0 2 (channel one) (entry_of config entries page) 0 128
      one-IsQueue refl refl refl (omega arith) (omega arith)
