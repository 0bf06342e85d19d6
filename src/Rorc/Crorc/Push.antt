-- ===== src/Rorc/Crorc/Push.antt =====
-- CrorcDmaChannel::pushSuperpage().
use mathlib.Core.Path.{subst}
use flp_prototype.Base.{
  ℕ, ◌+◌, ◌*◌, ◌/◌, ◌^◌, ◌<◌, ◌≡◌, ◌⊎◌, inl, inr, refl, sym, arith, Bool, true, List, [], ◌∷◌, ◌++◌,
  some, Outcome, done, throws, ◌>>=◌,
}
use flp_prototype.Base.Int.{pos, to_int}
use flp_prototype.Base.Buffer.{CircularBuffer}
use flp_prototype.Rorc.Error.{Error, queue_full}
use flp_prototype.Rorc.Superpage.{Superpage, is_multiple}
use flp_prototype.Rorc.Dma.{check_superpage}
use flp_prototype.Rorc.Dma.Check.{IsGood, check_superpage_lem}
use flp_prototype.Rorc.Pda.{SgEntry, get_bus_offset_address}
use flp_prototype.Rorc.Pda.Address.{IsContiguous, total, bus_byte, get_bus_offset_address_lem}
use flp_prototype.Rorc.Queue.{SuperpageQueue, Entry, is_valid_entry, add_to_queue}
use flp_prototype.Rorc.Queue.Invariant.{IsQueue, contents}
use flp_prototype.Rorc.Queue.Add.{Adds, add_to_queue_lem}
use flp_prototype.Rorc.Crorc.State.{Card, Config, CrorcDmaChannel, max_superpages, on_queue}
use flp_prototype.Rorc.Crorc.Transfer.{push_superpage}

-- The entry of the superpage: none of its pages is pushed, nothing is received, and its bus address is
-- that of its first byte.
abbrev pub entry_of : Config → List SgEntry → Superpage → Entry
entry_of config sgl p = record {
  superpage = record p { received = 0 };
  bus_address = bus_byte sgl p.offset;
  pushed_pages = pos 0;
  max_pages = pos (p.size / config.page_size);
}

-- It throws as the queue is full, or the superpage joins the queue.
abbrev pub Enqueues :
    Config
    → List SgEntry
    → Superpage
    → CrorcDmaChannel
    → Outcome CrorcDmaChannel Error (Unit {0})
    → Type 0
Enqueues config sgl p c o =
    ((c.superpage_queue.number_of_entries ≡ max_superpages) × (o ≡ throws queue_full c))
    ⊎ ((q : SuperpageQueue) × (o ≡ done tt (record c { superpage_queue = q }))
        × IsQueue max_superpages q
        × (contents q ≡ contents c.superpage_queue ++ some (entry_of config sgl p) ∷ []))

module _ (debug : Bool) (card : Card) (config : Config) (buffer : CircularBuffer ℕ)
    (buffer_size : ℕ) (sgl : List SgEntry) (p : Superpage) (c : CrorcDmaChannel) where
  -- The checks and the search of the bus address are passed.
  push_run :
      check_superpage buffer_size p c ≡ done tt c
      → is_multiple p.size (1024 * 1024) ≡ true
      → get_bus_offset_address sgl p.offset c ≡ done (bus_byte sgl p.offset) c
      → 0 < config.page_size
      → p.size / config.page_size < 2 ^ 31
      → push_superpage card config debug buffer buffer_size sgl p c
        ≡ (on_queue (add_to_queue debug buffer max_superpages (entry_of config sgl p)) >>= λ id.
              λ d. done tt d)
            c
  unfolding push_superpage
  push_run checked multiple address some_size few =
      ground (arith, checked, multiple, address, some_size, pages)
    where
      pages : to_int (p.size / config.page_size) ≡ pos (p.size / config.page_size)
      pages = ground arith

add-Enqueues :
    (debug : Bool) (config : Config) (buffer : CircularBuffer ℕ) (sgl : List SgEntry)
    (p : Superpage) (c : CrorcDmaChannel)
    → Adds debug buffer max_superpages (entry_of config sgl p) c.superpage_queue
    → Enqueues config sgl p c (
        (on_queue (add_to_queue debug buffer max_superpages (entry_of config sgl p)) >>= λ id.
        λ d. done tt d)
          c)
add-Enqueues debug config buffer sgl p c (inl (full, run)) = inl (full, ground (arith, run))
add-Enqueues debug config buffer sgl p c (inr (room, q, run, valid, all)) =
    inr (q, ground (arith, run), valid, all)

new_valid :
    (config : Config) (sgl : List SgEntry) (p : Superpage)
    → is_valid_entry (entry_of config sgl p) ≡ true
unfolding is_valid_entry
new_valid config sgl p = refl

-- pushSuperpage() of a good superpage of a multiple of 1 MiB on a channel with a well-formed queue,
-- whose buffer is contiguous in userspace and holds the offset, with a page size of which fewer than
-- 2 ^ 31 pages make up the superpage, in a debug build or not: with 32 superpages in the queue it
-- throws and changes nothing; otherwise the queue stays well-formed and the superpage stands behind
-- those in it, with nothing received, no page pushed of those that fit in it, and the bus address of
-- its first byte. No command goes to the card.
pub crorc_push_superpage_lem :
    (debug : Bool) (card : Card) (config : Config) (buffer : CircularBuffer ℕ)
    (buffer_size start : ℕ) (sgl : List SgEntry) (p : Superpage) (c : CrorcDmaChannel)
    → IsQueue max_superpages c.superpage_queue
    → IsGood buffer_size p
    → p.offset + p.size < 2 ^ 64
    → is_multiple p.size (1024 * 1024) ≡ true
    → IsContiguous start sgl
    → p.offset < total sgl
    → 0 < config.page_size
    → p.size / config.page_size < 2 ^ 31
    → Enqueues config sgl p c (push_superpage card config debug buffer buffer_size sgl p c)
crorc_push_superpage_lem debug card config buffer buffer_size start sgl p c v good h multiple
      contiguous inside some_size few =
    subst (Enqueues config sgl p c)
      (sym (
        push_run debug card config buffer buffer_size sgl p c
          ((check_superpage_lem buffer_size p c h).1 good) multiple
          (get_bus_offset_address_lem start sgl p.offset c contiguous inside) some_size few))
      (add-Enqueues debug config buffer sgl p c (
        add_to_queue_lem debug buffer max_superpages (entry_of config sgl p) c.superpage_queue v
          (new_valid config sgl p)))
