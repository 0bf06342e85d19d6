-- ===== src/Rorc/Dummy/Fill.antt =====
-- fillSuperpages() and pushSuperpage() of the dummy channel.
use flp_prototype.Base.{
  ℕ, suc, ◌+◌, ◌-◌, ◌<◌, ◌≤◌, ◌^◌, ◌≡◌, ◌↔◌, arith, List, [], ◌∷◌, ◌++◌, map, done, throws, length,
  take, drop, min, append-nil, append_assoc, length-append, inl, inr, ◌⊎◌, length-take, length-drop,
  length-map,
}
use native.Mathlib.Decide.{dec_lt}
use flp_prototype.Base.Buffer.{CircularBuffer}
use flp_prototype.Rorc.Error.{transfer_queue_full}
use flp_prototype.Rorc.Superpage.{Superpage}
use flp_prototype.Rorc.Dma.Check.{IsGood}
use flp_prototype.Rorc.Dummy.{
  DummyDmaChannel, transfer_queue_size, ready_queue_size, arrive, push_superpage, fill_loop,
  fill_superpages,
}

-- The queues are within their capacities.
pub record IsDummy (d : DummyDmaChannel) : Type 0 where
  pub transfer_le : length d.transfer_queue ≤ transfer_queue_size
  pub ready_le : length d.ready_queue ≤ ready_queue_size

-- The channel after `n` superpages have arrived.
abbrev pub after : ℕ → DummyDmaChannel → DummyDmaChannel
after n d = record {
  transfer_queue = drop n d.transfer_queue;
  ready_queue = d.ready_queue ++ map arrive (take n d.transfer_queue);
}

abbrev arrivals : ℕ → ℕ → ℕ
arrivals n ready = min n (ready_queue_size - ready)

arrivals-suc :
    (n ready : ℕ) → ready < ready_queue_size → arrivals (suc n) ready ≡ suc (arrivals n (ready + 1))
arrivals-suc n ready h = omega arith

arrivals-full : (n ready : ℕ) → ready_queue_size ≤ ready → arrivals (suc n) ready ≡ 0
arrivals-full n ready h = omega arith

fill_loop_lem :
    (buffer : CircularBuffer Superpage) (transfer ready : List Superpage)
    → length ready ≤ ready_queue_size
    → fill_loop buffer (length transfer) (record { transfer_queue = transfer; ready_queue = ready })
      ≡ done tt (
          after
            (arrivals (length transfer) (length ready))
            (record { transfer_queue = transfer; ready_queue = ready }))
unfolding fill_loop
fill_loop_lem buffer [] ready h = ground (arith, append-nil ready)
fill_loop_lem buffer (p ∷ transfer) ready h = elim (dec_lt (length ready) ready_queue_size) [
  | yes room ↦ ground (
    arith,
    buffer.push_back_room ready_queue_size ready (arrive p) room,
    fill_loop_lem buffer transfer (ready ++ arrive p ∷ [])
        (omega (arith, length-append ready (arrive p ∷ []))),
    length-append ready (arrive p ∷ []),
    arrivals-suc (length transfer) (length ready) room,
    append_assoc ready (arrive p ∷ [])
        (map arrive (take (arrivals (length transfer) (length ready + 1)) transfer)),
  )
  | no full ↦ ground (arith, append-nil ready, arrivals-full (length transfer) (length ready))
]

-- fillSuperpages() moves the oldest superpages, as many as the ready queue has room for, to the end
-- of the ready queue, in their order, marked ready and with their whole size received; the others
-- stay. It neither throws nor reads an empty queue, and both queues stay within their capacities.
pub dummy_fill_superpages_lem :
    (buffer : CircularBuffer Superpage) (d : DummyDmaChannel)
    → IsDummy d
    → (fill_superpages buffer d
        ≡ done tt
            (after (min (length d.transfer_queue) (ready_queue_size - length d.ready_queue)) d))
      × IsDummy (after (min (length d.transfer_queue) (ready_queue_size - length d.ready_queue)) d)
unfolding fill_superpages
dummy_fill_superpages_lem buffer d v = (
  fill_loop_lem buffer d.transfer_queue d.ready_queue v.ready_le,
  record {
    transfer_le = omega (arith, v.transfer_le, length-drop moved d.transfer_queue);
    ready_le = omega (
      arith,
      v.ready_le,
      length-append d.ready_queue (map arrive (take moved d.transfer_queue)),
      length-map arrive (take moved d.transfer_queue),
      length-take moved d.transfer_queue,
    );
  },
)
  where
    moved : ℕ
    moved = min (length d.transfer_queue) (ready_queue_size - length d.ready_queue)

-- pushSuperpage() on a channel within its capacities: it throws and changes nothing if the transfer
-- queue is full; otherwise it takes a superpage whose offset and size do not overflow size_t exactly
-- if it lies in the buffer, in whole units of 32 KiB and at a 32-bit boundary, puts it at the end of
-- the transfer queue, and leaves both queues within their capacities.
pub dummy_push_superpage_lem :
    (buffer : CircularBuffer Superpage) (buffer_size : ℕ) (p : Superpage) (d : DummyDmaChannel)
    → IsDummy d
    → p.offset + p.size < 2 ^ 64
    → ((length d.transfer_queue ≡ transfer_queue_size)
        × (push_superpage buffer buffer_size p d ≡ throws transfer_queue_full d))
      ⊎ (((push_superpage buffer buffer_size p d
              ≡ done tt (record d { transfer_queue = d.transfer_queue ++ p ∷ [] }))
            ↔ IsGood buffer_size p)
          × IsDummy (record d { transfer_queue = d.transfer_queue ++ p ∷ [] }))
unfolding push_superpage
dummy_push_superpage_lem buffer buffer_size p d v h =
    elim (dec_lt (length d.transfer_queue) transfer_queue_size) [
      | yes room ↦ inr (
        (
          λ e. ground (arith, e),
          λ g. ground (
            arith,
            v.transfer_le,
            g.some_size,
            g.units,
            g.inside,
            g.aligned,
            buffer.push_back_room transfer_queue_size d.transfer_queue p room,
          ),
        ),
        record {
          transfer_le = omega (arith, length-append d.transfer_queue (p ∷ []));
          ready_le = v.ready_le;
        },
      )
      | no full ↦ inl (omega (arith, v.transfer_le), ground (arith, v.transfer_le))
    ]
