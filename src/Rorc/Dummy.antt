-- ===== src/Rorc/Dummy.antt =====
-- RORC/src/Dummy/DummyDmaChannel.cxx: superpages go from the transfer queue to the ready queue.
pub mod Fill
mod Tests
use flp_prototype.Base.{
  ℕ, zero, suc, ◌+◌, ◌-◌, ◌%◌, ◌^◌, Bool, true, false, not, List, [], ◌∷◌, ◌==◌, ltb, Outcome, done,
  throws, undefined, ◌>>◌, ◌>>=◌, throw_if, if◌then◌else◌, length, head?, tail, defined, gets,
  modify, pure,
}
use flp_prototype.Base.Buffer.{CircularBuffer}
use flp_prototype.Rorc.Error.{
  Error, transfer_queue_full, ready_queue_empty, size_zero, size_not_multiple_32k,
  superpage_out_of_range, offset_not_aligned,
}
use flp_prototype.Rorc.Superpage.{Superpage, is_multiple}

pub record DummyDmaChannel : Type 0 where
  pub transfer_queue : List Superpage
  pub ready_queue : List Superpage

abbrev pub transfer_queue_size : ℕ
transfer_queue_size = 16

abbrev pub ready_queue_size : ℕ
ready_queue_size = 32

abbrev pub M : Type 0 → Type 0
M A = DummyDmaChannel → Outcome DummyDmaChannel Error A

unfoldable pub start_dma : M (Unit {0})
start_dma d = done tt (record { transfer_queue = []; ready_queue = [] })

unfoldable pub get_transfer_queue_available : DummyDmaChannel → ℕ
get_transfer_queue_available d = transfer_queue_size - length d.transfer_queue

unfoldable pub get_ready_queue_size : DummyDmaChannel → ℕ
get_ready_queue_size d = length d.ready_queue

-- The front of an empty buffer is undefined.
unfoldable pub get_superpage : M Superpage
get_superpage d = defined (head? d.ready_queue) d

unfoldable pub pop_superpage : M Superpage
pop_superpage = do
  throw_if (← gets (λ (d : DummyDmaChannel). length d.ready_queue == 0)) ready_queue_empty
  p ← (λ (d : DummyDmaChannel). defined (head? d.ready_queue) d)
  modify (λ (d : DummyDmaChannel). record d { ready_queue = tail d.ready_queue })
  pure p

-- A superpage as it leaves the transfer queue.
abbrev pub arrive : Superpage → Superpage
arrive p = record p { ready = true; received = p.size }

module _ (buffer : CircularBuffer Superpage) where
  unfoldable pub push_superpage : ℕ → Superpage → M (Unit {0})
  unfolding get_transfer_queue_available is_multiple
  push_superpage buffer_size p = do
    throw_if (← gets (λ (d : DummyDmaChannel). get_transfer_queue_available d == 0))
        transfer_queue_full
    throw_if (p.size == 0) size_zero
    throw_if (not (is_multiple p.size 32768)) size_not_multiple_32k
    throw_if (ltb buffer_size ((p.offset + p.size) % 2 ^ 64)) superpage_out_of_range
    throw_if (not (p.offset % 4 == 0)) offset_not_aligned
    modify (λ (d : DummyDmaChannel). record d {
      transfer_queue = buffer.push_back transfer_queue_size d.transfer_queue p;
    })

  -- the body of the loop of fillSuperpages()
  move_front : M (Unit {0})
  move_front = do
    p ← (λ (d : DummyDmaChannel). defined (head? d.transfer_queue) d)
    modify (λ (d : DummyDmaChannel). record d {
      ready_queue = buffer.push_back ready_queue_size d.ready_queue (arrive p);
    })
    modify (λ (d : DummyDmaChannel). record d { transfer_queue = tail d.transfer_queue })

  fill_loop : ℕ → M (Unit {0})
  unfolding move_front
  fill_loop zero d = done tt d
  fill_loop (suc n) d = elim (length d.ready_queue == ready_queue_size) [
    | true ↦ done tt d
    | false ↦ (move_front >> fill_loop n) d
  ]

  unfoldable pub fill_superpages : M (Unit {0})
  unfolding fill_loop
  fill_superpages d = fill_loop (length d.transfer_queue) d
