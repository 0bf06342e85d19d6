-- ===== src/Rorc/Crorc/Transfer.antt =====
-- The superpages of CrorcDmaChannel: pages pushed to the card, arrivals, and the client's calls.
use flp_prototype.Base.{
  ℕ, zero, suc, ◌+◌, ◌-◌, ◌*◌, ◌%◌, ◌^◌, Bool, true, false, not, List, ltb, none, some, done, ◌>>◌,
  ◌>>=◌, throw_if, if◌then◌else◌, head?, defined, gets, modify, pure, get_elem?,
}
use flp_prototype.Base.Int.{pos, inc, ltz, minz, rounds, to_int, ◌-ℤ◌}
use flp_prototype.Base.Buffer.{CircularBuffer}
use flp_prototype.Rorc.Error.{size_not_multiple_1m}
use flp_prototype.Rorc.Superpage.{Superpage, is_multiple, is_filled}
use flp_prototype.Rorc.Dma.{check_superpage}
use flp_prototype.Rorc.Pda.{SgEntry, get_bus_offset_address}
use flp_prototype.Rorc.Queue
use flp_prototype.Rorc.Queue.{
  SuperpageQueue, Entry, is_pushed, get_unpushed_pages, get_queue_available,
  get_pushing_front_entry, get_arrivals_front_entry, remove_from_pushing_queue,
  move_from_arrivals_to_filled_queue, remove_from_filled_queue, add_to_queue, write_entry,
}
use flp_prototype.Rorc.Crorc.State.{
  Card, Config, CrorcDmaChannel, init_readout_continuous, start_readout_continuous,
  init_diu_version, start_trigger, reset_ready_entry, read_length, write_event_size, max_superpages,
  readyfifo_entries, fifo_queue_max, M, on_queue, assert, is_whole, divided, get_fifo_front,
}
use flp_prototype.Rorc.Crorc.Device.{
  call, send, send_with, when, data_arrived, clear_status, device_reset_channel,
  start_data_generator_run, start_data_receiving, push_free_fifo_page,
  get_next_superpage_bus_address,
}

module _ (card : Card) (config : Config) (debug : Bool) where
  -- The entry that a reference into the registry stands for.
  unfoldable pub entry_at : ℕ → M Entry
  entry_at id c = defined (get_elem? c.superpage_queue.registry id) c

  unfoldable pub push_into_superpage : ℕ → M (Unit {0})
  unfolding entry_at push_free_fifo_page get_next_superpage_bus_address get_fifo_front
  push_into_superpage id = do
    assert debug (← gets (λ (c : CrorcDmaChannel). ltb c.fifo_size fifo_queue_max))
    entry ← entry_at id
    assert debug (ltz entry.pushed_pages entry.max_pages)
    front ← gets get_fifo_front
    push_free_fifo_page card config front (get_next_superpage_bus_address card config entry)
    modify (λ (c : CrorcDmaChannel). record c { fifo_size = c.fifo_size + 1 })
    on_queue (write_entry id (record entry { pushed_pages = inc entry.pushed_pages }))

  unfoldable pub push_pages : ℕ → ℕ → M (Unit {0})
  unfolding push_into_superpage
  push_pages id zero c = done tt c
  push_pages id (suc n) c = (push_into_superpage id >> push_pages id n) c

  -- The first pages, into the entries of the ready FIFO from `i` on.
  unfoldable pub push_first_pages : ℕ → ℕ → ℕ → M (Unit {0})
  unfolding push_into_superpage send
  push_first_pages id i zero c = done tt c
  push_first_pages id i (suc n) c =
      (send card config (reset_ready_entry i)
          >> push_into_superpage id
          >> push_first_pages id (i + 1) n)
        c

  unfoldable pub reset_ready_fifo : ℕ → ℕ → M (Unit {0})
  unfolding send
  reset_ready_fifo i zero c = done tt c
  reset_ready_fifo i (suc n) c =
      (send card config (reset_ready_entry i) >> reset_ready_fifo (i + 1) n) c

  -- Marks a superpage as ready and moves it.
  unfoldable pub finish : CircularBuffer ℕ → ℕ → Entry → M (Unit {0})
  finish buffer id entry = do
    on_queue
        (write_entry id (record entry { superpage = record (entry.superpage) { ready = true } }))
    moved ← on_queue (move_from_arrivals_to_filled_queue debug buffer max_superpages)
    pure tt

  unfoldable pub receive : ℕ → ℕ → M Entry
  unfolding entry_at
  receive id bytes = do
    entry ← entry_at id
    let new = record entry {
      superpage = record (entry.superpage) {
        received = (entry.superpage.received + bytes) % 2 ^ 64;
      };
    }
    on_queue (write_entry id new)
    pure new

  unfoldable pub start_source : M (Unit {0})
  unfolding send_with when clear_status start_data_generator_run
  start_source =
      if config.generator_enabled
      then start_data_generator_run card config
      else when card config (not config.no_rdyrx)
          (clear_status card config >> send_with card config start_trigger)

  unfoldable pub start_pending_dma : CircularBuffer ℕ → ℕ → M (Unit {0})
  unfolding send when call entry_at push_first_pages start_source data_arrived receive finish
      reset_ready_fifo start_data_receiving
  start_pending_dma buffer id c =
      (if c.pending_dma_start
          then (do
            when card config config.use_continuous_readout
                (send card config init_readout_continuous)
            version ← call card config init_diu_version
            modify (λ (c : CrorcDmaChannel). record c { diu_config = version })
            device_reset_channel card config config.initial_reset_level
            start_data_receiving card config
            push_first_pages id 0 readyfifo_entries
            entry ← entry_at id
            assert debug (not (ltz entry.max_pages entry.pushed_pages))
            when card config (is_pushed entry)
                (on_queue (remove_from_pushing_queue debug) >>= λ _. pure tt)
            start_source
            arrived ← data_arrived card config (readyfifo_entries - 1)
            filling ← receive id (readyfifo_entries * config.page_size)
            when card config (is_filled filling.superpage) (finish buffer id filling)
            reset_ready_fifo 0 readyfifo_entries
            modify (λ (c : CrorcDmaChannel). record c { fifo_back = 0; fifo_size = 0 })
            modify (λ (c : CrorcDmaChannel). record c { pending_dma_start = false })
            when card config config.use_continuous_readout
                (send card config start_readout_continuous))
          else pure tt)
        c

  -- the first half of fillSuperpages()
  unfoldable pub push_new_pages : CircularBuffer ℕ → M (Unit {0})
  unfolding entry_at push_pages when start_pending_dma
  push_new_pages buffer c = elim (head? c.superpage_queue.pushing) [
    | none ↦ done tt c
    | some id ↦
        (do
          entry ← on_queue (get_pushing_front_entry debug)
          λ (c : CrorcDmaChannel).
              (if c.pending_dma_start then start_pending_dma buffer id else (do
                push_pages id (
                    rounds
                      (minz (pos fifo_queue_max -ℤ pos c.fifo_size) (get_unpushed_pages entry)))
                pushed ← entry_at id
                when card config (is_pushed pushed)
                    (on_queue (remove_from_pushing_queue debug) >>= λ _. pure tt)))
                c)
          c
  ]

  -- A page has arrived, in entry `fifo_back` of the ready FIFO, for the superpage `id`.
  unfoldable pub take_arrival : CircularBuffer ℕ → ℕ → M (Unit {0})
  unfolding send when call entry_at receive finish
  take_arrival buffer id = do
    back ← gets (λ (c : CrorcDmaChannel). c.fifo_back)
    words ← call card config (read_length back)
    entry ← entry_at id
    send card config (
        write_event_size
          ((config.dma_buffer_userspace + entry.superpage.offset + entry.superpage.received + 16)
            % 2 ^ 64)
          (words * 4 % 2 ^ 32))
    send card config (reset_ready_entry back)
    modify (λ (c : CrorcDmaChannel). record c { fifo_size = c.fifo_size - 1 })
    modify (λ (c : CrorcDmaChannel). record c { fifo_back = (c.fifo_back + 1) % readyfifo_entries })
    filling ← receive id config.page_size
    when card config (is_filled filling.superpage) (finish buffer id filling)

  -- The while loop: it ends as `fifo_size`, which each round but the last takes down by one, is 0.
  unfoldable pub arrivals_loop : CircularBuffer ℕ → ℕ → M (Unit {0})
  unfolding data_arrived take_arrival when
  arrivals_loop buffer zero c = done tt c
  arrivals_loop buffer (suc n) c =
      (do
        id ← (λ (c : CrorcDmaChannel). defined (head? c.superpage_queue.arrivals) c)
        entry ← on_queue (get_arrivals_front_entry debug)
        back ← gets (λ (c : CrorcDmaChannel). c.fifo_back)
        status ← data_arrived card config back
        when card config (is_whole status) (take_arrival buffer id >> arrivals_loop buffer n))
        c

  unfoldable pub fill_superpages : CircularBuffer ℕ → M (Unit {0})
  unfolding push_new_pages arrivals_loop
  fill_superpages buffer = do
    push_new_pages buffer
    λ (c : CrorcDmaChannel). elim (head? c.superpage_queue.arrivals) [
      | none ↦ done tt c
      | some id ↦ arrivals_loop buffer c.fifo_size c
    ]

  unfoldable pub get_superpage : M Superpage
  get_superpage = on_queue (Queue.get_front_superpage debug)

  unfoldable pub pop_superpage : M Superpage
  pop_superpage = on_queue (remove_from_filled_queue debug) >>= λ entry. pure entry.superpage

  -- the entry that pushSuperpage() makes; the count of pages is an int
  abbrev pub new_entry : Superpage → ℕ → ℕ → Entry
  new_entry p address pages = record {
    superpage = record p { received = 0 };
    bus_address = address;
    pushed_pages = pos 0;
    max_pages = to_int pages;
  }

  unfoldable pub push_superpage : CircularBuffer ℕ → ℕ → List SgEntry → Superpage → M (Unit {0})
  unfolding is_multiple
  push_superpage buffer buffer_size sgl p = do
    check_superpage buffer_size p
    throw_if (not (is_multiple p.size (1024 * 1024))) size_not_multiple_1m
    address ← get_bus_offset_address sgl p.offset
    pages ← divided p.size config.page_size
    id ← on_queue (add_to_queue debug buffer max_superpages (new_entry p address pages))
    pure tt
