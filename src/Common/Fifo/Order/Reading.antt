-- ===== src/Common/Fifo/Order/Reading.antt =====
-- A turn of the reader keeps the invariant.
use mathlib.Core.Path.{subst}
use flp_prototype.Base.{
  ℕ, suc, ◌+◌, ◌≤◌, ◌≡◌, inl, inr, refl, sym, ◌∙◌, ap, arith, List, [], ◌∷◌, append_assoc, ◌==◌,
  Bool-cases, length, length-set, get_elem?, get_elem?-set_ne, set,
}
use flp_prototype.Common.Fifo.{Fifo, next_index}
use flp_prototype.Common.Fifo.Places.{place, next_index-le, place-next_index, place-zero, place-ne}
use flp_prototype.Common.Fifo.Contents.{IsFifo, Holds-set}
use flp_prototype.Common.Fifo.Turns.{
  Writer, resting, storing, publishing, Reader, waiting, advancing, reading, clearing, World,
  read_turn,
}
use flp_prototype.Common.Fifo.Order.{NextSlot, WriterAt, ReaderAt, IsWorld}
use flp_prototype.Common.Fifo.Order.Writing.{NextSlot-ne, some_items}

-- The reader's new start leaves the writer's slot where it is.
advanced-WriterAt :
    {A : Type 0} (wr : Writer A) (f : Fifo A) (x : A) (xs : List A)
    → f.index_start ≤ f.size
    → WriterAt wr f (x ∷ xs)
    → WriterAt wr (record f { index_start = next_index f.size f.index_start }) xs
advanced-WriterAt {A} wr f x xs h v = go wr v
  where
    slot :
        (new : ℕ)
        → NextSlot f (x ∷ xs) new
        → NextSlot (record f { index_start = next_index f.size f.index_start }) xs new
    slot new n = (
      n.0
          ∙ ap (place f.size f.index_start)
              (let e : suc (length xs) + 1 ≡ length xs + 1 + 1 = omega arith in e)
          ∙ sym (place-next_index f.size f.index_start (length xs + 1) h (omega (arith, n.1))),
      omega (arith, n.1),
    )

    go :
        (wr : Writer A)
        → WriterAt wr f (x ∷ xs)
        → WriterAt wr (record f { index_start = next_index f.size f.index_start }) xs
    go resting v = tt
    go (storing a new) v = slot new v
    go (publishing a new) v = (slot new v.0, v.1)

-- The reset of the reader's slot leaves what the writer relies on.
cleared-WriterAt :
    {A : Type 0} (wr : Writer A) (f g : Fifo A) (xs : List A) (nothing : A)
    → IsFifo f xs
    → g.index_start ≡ f.index_start
    → g.size ≡ f.size
    → g.slots ≡ set f.slots f.index_start nothing
    → WriterAt wr f xs
    → WriterAt wr g xs
cleared-WriterAt resting f g xs nothing k s z l v = tt
cleared-WriterAt (storing a new) f g xs nothing k s z l v =
    (ground (arith, v.0, s, z), omega (arith, v.1, z))
cleared-WriterAt (publishing a new) f g xs nothing k s z l v = (
  (ground (arith, v.0.0, s, z), omega (arith, v.0.1, z)),
  ap (λ d. get_elem? d new) l
      ∙ get_elem?-set_ne f.slots f.index_start new nothing (λ e. NextSlot-ne f xs k new v.0 (sym e))
      ∙ v.1,
)

advanced-IsFifo :
    {A : Type 0} (f : Fifo A) (x : A) (xs : List A)
    → IsFifo f (x ∷ xs)
    → IsFifo (record f { index_start = next_index f.size f.index_start }) xs
advanced-IsFifo f x xs v = record {
  slots_lem = v.slots_lem;
  start_le = next_index-le f.size f.index_start;
  room = omega (arith, v.room);
  end_lem =
      v.end_lem
      ∙ ap (place f.size f.index_start) (let e : suc (length xs) ≡ length xs + 1 = omega arith in e)
      ∙ sym (place-next_index f.size f.index_start (length xs) v.start_le (omega (arith, v.room)));
  holds = v.holds.1;
}

cleared-IsFifo :
    {A : Type 0} (f : Fifo A) (xs : List A) (nothing : A) (count : ℕ)
    → IsFifo f xs
    → IsFifo (record f { slots = set f.slots f.index_start nothing; n_out = count }) xs
cleared-IsFifo f xs nothing count v = record {
  slots_lem = length-set f.slots f.index_start nothing ∙ v.slots_lem;
  start_le = v.start_le;
  room = v.room;
  end_lem = v.end_lem;
  holds =
      Holds-set f.size f.index_start f.index_start f.slots xs nothing
        (λ i k e.
          place-ne f.size f.index_start 0 (i + 1) v.start_le (omega arith) (omega (arith, v.room))
            (place-zero f.size f.index_start v.start_le ∙ sym e))
        v.start_le v.room v.holds;
}

-- The reader takes the first item.
advance-IsWorld :
    {A : Type 0} (w : World A) (new : ℕ) (xs : List A)
    → IsFifo w.fifo xs
    → WriterAt w.writer w.fifo xs
    → ReaderAt (advancing new) w.fifo xs w.pushed w.popped
    → IsWorld (record w {
      fifo = record (w.fifo) { index_start = next_index w.fifo.size w.fifo.index_start };
      reader = reading;
    })
advance-IsWorld w new [] v wr (e, some_left, all) = absurd (omega arith)
advance-IsWorld w new (x ∷ xs) v wr (e, some_left, all) = record {
  items = xs;
  fifo_lem = advanced-IsFifo w.fifo x xs v;
  writer_lem = advanced-WriterAt w.writer w.fifo x xs v.start_le wr;
  reader_lem = (x, v.holds.0, all);
}

pub read_turn-IsWorld :
    {A : Type 0} (nothing : A) (state : Reader A) (w : World A)
    → w.reader ≡ state
    → IsWorld w
    → IsWorld (read_turn nothing state w)
unfolding read_turn
read_turn-IsWorld nothing waiting w same v =
    elim (Bool-cases (w.fifo.index_end == w.fifo.index_start)) [
      | inl none_left ↦ rw none_left v
      | inr some_left ↦ rw some_left (record {
        items = v.items;
        fifo_lem = v.fifo_lem;
        writer_lem = v.writer_lem;
        reader_lem = (
          refl,
          some_items w.fifo v.items v.fifo_lem some_left,
          subst (λ s. ReaderAt s w.fifo v.items w.pushed w.popped) same v.reader_lem,
        );
      })
    ]
read_turn-IsWorld nothing (advancing new) w same v =
    let r : ReaderAt (advancing new) w.fifo v.items w.pushed w.popped =
      subst (λ s. ReaderAt s w.fifo v.items w.pushed w.popped) same v.reader_lem in
    subst (λ n. IsWorld (record w { fifo = record (w.fifo) { index_start = n }; reader = reading }))
      (sym r.0) (advance-IsWorld w new v.items v.fifo_lem v.writer_lem r)
read_turn-IsWorld nothing reading w same v =
    let (x, at, all) : ReaderAt reading w.fifo v.items w.pushed w.popped =
      subst (λ s. ReaderAt s w.fifo v.items w.pushed w.popped) same v.reader_lem in
    rw at (record {
      items = v.items;
      fifo_lem = v.fifo_lem;
      writer_lem = v.writer_lem;
      reader_lem = all;
    })
read_turn-IsWorld nothing (clearing a) w same v =
    let all : ReaderAt (clearing a) w.fifo v.items w.pushed w.popped =
      subst (λ s. ReaderAt s w.fifo v.items w.pushed w.popped) same v.reader_lem in
    record {
      items = v.items;
      fifo_lem = cleared-IsFifo w.fifo v.items nothing _ v.fifo_lem;
      writer_lem =
          cleared-WriterAt w.writer w.fifo _ v.items nothing v.fifo_lem refl refl refl v.writer_lem;
      reader_lem = all ∙ sym (append_assoc w.popped (a ∷ []) v.items);
    }
