-- ===== src/Common/Fifo/Order/Always.antt =====
-- The FIFO after any turns, and the turns of push() and pop() when the other side rests.
use flp_prototype.Base.{
  ℕ, ◌+◌, ◌<◌, ◌≤◌, ◌≡◌, ◌≢◌, refl, ◌∙◌, arith, List, [], ◌∷◌, ◌++◌, length, get_elem?-lt, Ensures,
  replicate,
}
use flp_prototype.Common.Fifo.{Fifo, next_index, push, pop}
use flp_prototype.Common.Fifo.Places.{next_index-le}
use flp_prototype.Common.Fifo.Contents.{IsFifo, construct-IsFifo}
use flp_prototype.Common.Fifo.Turns.{
  Writer, resting, storing, publishing, Reader, waiting, advancing, reading, clearing, World,
  beginning, Turn, write, read, turns, write_turn, read_turn,
}
use flp_prototype.Common.Fifo.Order.{WriterAt, ReaderAt, IsWorld}
use flp_prototype.Common.Fifo.Order.Writing.{NextSlot-lt, NextSlot-ne, write_turn-IsWorld}
use flp_prototype.Common.Fifo.Order.Reading.{read_turn-IsWorld}

beginning-IsWorld : {A : Type 0} (nothing : A) (size : ℕ) → IsWorld (beginning nothing size)
beginning-IsWorld nothing size = record {
  items = [];
  fifo_lem = construct-IsFifo nothing size;
  writer_lem = tt;
  reader_lem = refl;
}

turns-IsWorld :
    {A : Type 0} (nothing : A) (ts : List (Turn A)) (w : World A)
    → IsWorld w
    → IsWorld (turns nothing ts w)
unfolding turns
turns-IsWorld nothing [] w v = v
turns-IsWorld nothing (write item ∷ ts) w v =
    turns-IsWorld nothing ts _ (write_turn-IsWorld nothing item w.writer w refl v)
turns-IsWorld nothing (read ∷ ts) w v =
    turns-IsWorld nothing ts _ (read_turn-IsWorld nothing w.reader w refl v)

write_turn-size :
    {A : Type 0} (nothing item : A) (state : Writer A) (w : World A)
    → (write_turn nothing item state w).fifo.size ≡ w.fifo.size
unfolding write_turn
write_turn-size nothing item resting w = ground arith
write_turn-size nothing item (storing a new) w = refl
write_turn-size nothing item (publishing a new) w = refl

read_turn-size :
    {A : Type 0} (nothing : A) (state : Reader A) (w : World A)
    → (read_turn nothing state w).fifo.size ≡ w.fifo.size
unfolding read_turn
read_turn-size nothing waiting w = ground arith
read_turn-size nothing (advancing new) w = refl
read_turn-size nothing reading w = ground arith
read_turn-size nothing (clearing a) w = refl

turns-size :
    {A : Type 0} (nothing : A) (ts : List (Turn A)) (w : World A)
    → (turns nothing ts w).fifo.size ≡ w.fifo.size
unfolding turns
turns-size nothing [] w = refl
turns-size nothing (write item ∷ ts) w =
    turns-size nothing ts _ ∙ write_turn-size nothing item w.writer w
turns-size nothing (read ∷ ts) w = turns-size nothing ts _ ∙ read_turn-size nothing w.reader w

-- What was popped is the beginning of what was pushed, and at most one item more than the size is
-- still to be popped.
abbrev pub InOrder : {A : Type 0} → ℕ → World A → Type 0
InOrder {A} size w = (rest : List A) × (w.pushed ≡ w.popped ++ rest) × (length rest ≤ size + 1)

in_order :
    {A : Type 0} (r : Reader A) (f : Fifo A) (xs pushed popped : List A)
    → length xs ≤ f.size
    → ReaderAt r f xs pushed popped
    → (rest : List A) × (pushed ≡ popped ++ rest) × (length rest ≤ f.size + 1)
in_order waiting f xs pushed popped h v = (xs, v, omega arith)
in_order (advancing n) f xs pushed popped h v = (xs, v.2, omega arith)
in_order reading f xs pushed popped h (x, at, e) = (x ∷ xs, e, omega arith)
in_order (clearing a) f xs pushed popped h v = (a ∷ xs, v, omega arith)

-- A new FIFO used by one writer and one reader, for any interleaving of their steps: the items that
-- pop() has given are, in this order, the first of those that push() has taken, so none is lost,
-- doubled or overtaken; at most one more than the size are underway.
pub turns-InOrder :
    {A : Type 0} (nothing : A) (size : ℕ) (ts : List (Turn A))
    → InOrder size (turns nothing ts (beginning nothing size))
turns-InOrder nothing size ts =
    let w = turns nothing ts (beginning nothing size) in
    let v = turns-IsWorld nothing ts (beginning nothing size) (beginning-IsWorld nothing size) in
    let (rest, all, le) =
      in_order w.reader w.fifo v.items w.pushed w.popped v.fifo_lem.room v.reader_lem in
    (rest, all, omega (arith, le, turns-size nothing ts (beginning nothing size)))

-- The reader's slot is in the vector, and a writer that is about to write a slot writes another one
-- in the vector.
abbrev pub Apart : {A : Type 0} → Writer A → Fifo A → Type 0
Apart resting f = f.index_start < length f.slots
Apart (storing a new) f =
    (f.index_start < length f.slots) × (new < length f.slots) × (new ≢ f.index_start)
Apart (publishing a new) f = f.index_start < length f.slots

apart :
    {A : Type 0} (wr : Writer A) (f : Fifo A) (xs : List A)
    → IsFifo f xs
    → WriterAt wr f xs
    → Apart wr f
apart resting f xs v h = omega (arith, v.slots_lem, v.start_le)
apart (storing a new) f xs v h =
    (omega (arith, v.slots_lem, v.start_le), NextSlot-lt f xs v new h, NextSlot-ne f xs v new h)
apart (publishing a new) f xs v h = omega (arith, v.slots_lem, v.start_le)

-- A new FIFO used by one writer and one reader, for any interleaving of their steps: whenever the
-- writer is about to write a slot, this is not the slot that the reader reads and resets; and both
-- are in the vector.
pub turns-Apart :
    {A : Type 0} (nothing : A) (size : ℕ) (ts : List (Turn A))
    → Apart
        (turns nothing ts (beginning nothing size)).writer
        (turns nothing ts (beginning nothing size)).fifo
turns-Apart nothing size ts =
    let w = turns nothing ts (beginning nothing size) in
    let v = turns-IsWorld nothing ts (beginning nothing size) (beginning-IsWorld nothing size) in
    apart w.writer w.fifo v.items v.fifo_lem v.writer_lem

-- push() is what the writer does in three turns, if it rests before: it leaves the same FIFO.
pub writes-push :
    {A : Type 0} (nothing item : A) (w : World A) (xs : List A)
    → w.writer ≡ resting
    → IsFifo w.fifo xs
    → Ensures
        (push item w.fifo)
        (λ r g. (turns nothing (replicate 3 (write item)) w).fifo ≡ g)
        (λ e g. ⊥)
unfolding push turns
writes-push nothing item w xs same v =
    ground (arith, same, v.slots_lem, next_index-le w.fifo.size w.fifo.index_end)

-- pop() is what the reader does in four turns, if it waits before: it leaves the same FIFO.
pub reads-pop :
    {A : Type 0} (nothing item : A) (w : World A) (xs : List A)
    → w.reader ≡ waiting
    → IsFifo w.fifo xs
    → Ensures
        (pop nothing item w.fifo)
        (λ r g. (turns nothing (replicate 4 read) w).fifo ≡ g)
        (λ e g. ⊥)
unfolding pop turns
reads-pop nothing item w xs same v =
    let (x, at) =
      get_elem?-lt w.fifo.slots (next_index w.fifo.size w.fifo.index_start)
        (omega (arith, v.slots_lem, next_index-le w.fifo.size w.fifo.index_start)) in
    ground (arith, same, v.slots_lem, at)
