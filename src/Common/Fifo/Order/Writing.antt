-- ===== src/Common/Fifo/Order/Writing.antt =====
-- A turn of the writer keeps the invariant.
use mathlib.Core.Path.{subst}
use flp_prototype.Base.{
  ℕ, ◌+◌, ◌<◌, ◌≡◌, ◌≢◌, inl, inr, refl, sym, ◌∙◌, ap, arith, false, List, [], ◌∷◌, ◌++◌,
  append_assoc, some, ◌==◌, Bool-cases, length, length-append, length-set, get_elem?,
  get_elem?-set_self, get_elem?-set_ne, set,
}
use flp_prototype.Common.Fifo.{Fifo, next_index}
use flp_prototype.Common.Fifo.Places.{place, place-le, next_index-place, place-zero, place-ne}
use flp_prototype.Common.Fifo.Contents.{IsFifo, Holds-set, Holds-append, full_iff}
use flp_prototype.Common.Fifo.Turns.{
  Writer, resting, storing, publishing, Reader, waiting, advancing, reading, clearing, World,
  write_turn,
}
use flp_prototype.Common.Fifo.Order.{NextSlot, WriterAt, ReaderAt, IsWorld}

module _ {A : Type 0} (f : Fifo A) (xs : List A) (v : IsFifo f xs) where
  -- The writer's slot is in the vector, is not the reader's, and none of the items is in it.
  pub NextSlot-lt : (new : ℕ) → NextSlot f xs new → new < length f.slots
  NextSlot-lt new n = omega (
    arith,
    v.slots_lem,
    place-le f.size f.index_start (length xs + 1) v.start_le (omega arith),
    n.0,
  )

  pub NextSlot-ne : (new : ℕ) → NextSlot f xs new → new ≢ f.index_start
  NextSlot-ne new n e =
      place-ne f.size f.index_start 0 (length xs + 1) v.start_le (omega arith) (omega arith)
        (place-zero f.size f.index_start v.start_le ∙ sym e ∙ n.0)

  begin_push-NextSlot :
      (next_index f.size f.index_end == f.index_start) ≡ false
      → NextSlot f xs (next_index f.size f.index_end)
  begin_push-NextSlot h = (
    ap (next_index f.size) v.end_lem
        ∙ next_index-place f.size f.index_start (length xs) v.start_le v.room,
    omega (arith, v.room, not_full),
  )
    where
      not_full : length xs ≢ f.size
      not_full e =
          let same : next_index f.size f.index_end ≡ f.index_start =
            ap (next_index f.size) v.end_lem
            ∙ (full_iff f.size f.index_start (length xs) v.start_le v.room).1 e in
          ground (arith, same, h)

  pub some_items : (f.index_end == f.index_start) ≡ false → 0 < length xs
  some_items h = ground (arith, h, v.end_lem, v.start_le)

-- The store leaves what the reader relies on.
stored-ReaderAt :
    {A : Type 0} (r : Reader A) (f : Fifo A) (xs pushed popped : List A) (new : ℕ) (a : A)
    → new ≢ f.index_start
    → ReaderAt r f xs pushed popped
    → ReaderAt r (record f { slots = set f.slots new a }) xs pushed popped
stored-ReaderAt waiting f xs pushed popped new a h v = v
stored-ReaderAt (advancing n) f xs pushed popped new a h v = v
stored-ReaderAt reading f xs pushed popped new a h (x, at, e) =
    (x, get_elem?-set_ne f.slots new f.index_start a h ∙ at, e)
stored-ReaderAt (clearing b) f xs pushed popped new a h v = v

-- So does the new end.
published-ReaderAt :
    {A : Type 0} (r : Reader A) (f g : Fifo A) (xs pushed popped : List A) (a : A)
    → g.index_start ≡ f.index_start
    → g.size ≡ f.size
    → g.slots ≡ f.slots
    → ReaderAt r f xs pushed popped
    → ReaderAt r g (xs ++ a ∷ []) (pushed ++ a ∷ []) popped
published-ReaderAt waiting f g xs pushed popped a s z l v =
    ap (λ ys. ys ++ a ∷ []) v ∙ append_assoc popped xs (a ∷ [])
published-ReaderAt (advancing n) f g xs pushed popped a s z l (e, some_left, v) = (
  ground (arith, e, s, z),
  omega (arith, length-append xs (a ∷ [])),
  ap (λ ys. ys ++ a ∷ []) v ∙ append_assoc popped xs (a ∷ []),
)
published-ReaderAt reading f g xs pushed popped a s z l (x, at, v) =
    (x, ground (arith, at, s, l), ap (λ ys. ys ++ a ∷ []) v ∙ append_assoc popped (x ∷ xs) (a ∷ []))
published-ReaderAt (clearing b) f g xs pushed popped a s z l v =
    ap (λ ys. ys ++ a ∷ []) v ∙ append_assoc popped (b ∷ xs) (a ∷ [])

-- A write of the slot behind the items keeps them.
stored-IsFifo :
    {A : Type 0} (f : Fifo A) (xs : List A) (new : ℕ) (a : A)
    → IsFifo f xs
    → NextSlot f xs new
    → IsFifo (record f { slots = set f.slots new a }) xs
stored-IsFifo f xs new a v n = record {
  slots_lem = length-set f.slots new a ∙ v.slots_lem;
  start_le = v.start_le;
  room = v.room;
  end_lem = v.end_lem;
  holds =
      Holds-set f.size f.index_start new f.slots xs a
        (λ i k e.
          place-ne f.size f.index_start (i + 1) (length xs + 1) v.start_le (omega arith)
            (omega (arith, n.1)) (e ∙ n.0))
        v.start_le v.room v.holds;
}

published-IsFifo :
    {A : Type 0} (f : Fifo A) (xs : List A) (new count : ℕ) (a : A)
    → IsFifo f xs
    → NextSlot f xs new
    → get_elem? f.slots new ≡ some a
    → IsFifo (record f { index_end = new; n_in = count }) (xs ++ a ∷ [])
published-IsFifo f xs new count a v n at = record {
  slots_lem = v.slots_lem;
  start_le = v.start_le;
  room = omega (arith, length-append xs (a ∷ []), n.1);
  end_lem = n.0 ∙ ap (place f.size f.index_start) (sym (length-append xs (a ∷ [])));
  holds =
      Holds-append f.size f.index_start f.slots xs a v.start_le n.1
        (ap (get_elem? f.slots) (sym n.0) ∙ at) v.holds;
}

pub write_turn-IsWorld :
    {A : Type 0} (nothing item : A) (state : Writer A) (w : World A)
    → w.writer ≡ state
    → IsWorld w
    → IsWorld (write_turn nothing item state w)
unfolding write_turn
write_turn-IsWorld nothing item resting w same v =
    elim (Bool-cases (next_index w.fifo.size w.fifo.index_end == w.fifo.index_start)) [
      | inl full ↦ rw full v
      | inr free ↦ rw free (record {
        items = v.items;
        fifo_lem = v.fifo_lem;
        writer_lem = begin_push-NextSlot w.fifo v.items v.fifo_lem free;
        reader_lem = v.reader_lem;
      })
    ]
write_turn-IsWorld nothing item (storing a new) w same v =
    let n : NextSlot w.fifo v.items new =
      subst (λ s. WriterAt s w.fifo v.items) same v.writer_lem in
    record {
      items = v.items;
      fifo_lem = stored-IsFifo w.fifo v.items new a v.fifo_lem n;
      writer_lem =
          (n, get_elem?-set_self w.fifo.slots new a (NextSlot-lt w.fifo v.items v.fifo_lem new n));
      reader_lem =
          stored-ReaderAt w.reader w.fifo v.items w.pushed w.popped new a
            (NextSlot-ne w.fifo v.items v.fifo_lem new n) v.reader_lem;
    }
write_turn-IsWorld nothing item (publishing a new) w same v =
    let n : NextSlot w.fifo v.items new × (get_elem? w.fifo.slots new ≡ some a) =
      subst (λ s. WriterAt s w.fifo v.items) same v.writer_lem in
    record {
      items = v.items ++ a ∷ [];
      fifo_lem = published-IsFifo w.fifo v.items new _ a v.fifo_lem n.0 n.1;
      writer_lem = tt;
      reader_lem =
          published-ReaderAt w.reader w.fifo _ v.items w.pushed w.popped a refl refl refl
            v.reader_lem;
    }
