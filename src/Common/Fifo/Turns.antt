-- ===== src/Common/Fifo/Turns.antt =====
-- Fifo.h with a writer and a reader at work at once: each turn is what one of them does up to its next
-- access to what they share. The atomics are sequentially consistent.
use flp_prototype.Base.{
  ℕ, ◌+◌, ◌%◌, ◌^◌, List, [], ◌∷◌, ◌++◌, Option, none, some, if◌then◌else◌, get_elem?, set, ◌==◌,
}
use flp_prototype.Common.Fifo.{Fifo, construct, next_index}

-- Where the writer is in push(): not in it, before `data[indexEndNew]=item`, or behind it.
pub data Writer (A : Type 0) : Type 0 where
  resting : Writer A
  storing : A → ℕ → Writer A
  publishing : A → ℕ → Writer A

-- Where the reader is in pop(): not in it, before `this->indexStart=new_indexStart`, before
-- `item=data[this->indexStart]`, or before the slot is reset.
pub data Reader (A : Type 0) : Type 0 where
  waiting : Reader A
  advancing : ℕ → Reader A
  reading : Reader A
  clearing : A → Reader A

-- The FIFO, its two users, and the items that push() took and pop() gave with a result of 0, oldest
-- first.
pub record World (A : Type 0) : Type 0 where
  pub fifo : Fifo A
  pub writer : Writer A
  pub reader : Reader A
  pub pushed : List A
  pub popped : List A

abbrev pub beginning : {A : Type 0} → A → ℕ → World A
beginning nothing size = record {
  fifo = construct nothing size;
  writer = resting;
  reader = waiting;
  pushed = [];
  popped = [];
}

pub data Turn (A : Type 0) : Type 0 where
  write : A → Turn A
  read : Turn A

module _ {A : Type 0} (nothing : A) where
  -- A writer that rests calls push() with its item.
  unfoldable pub write_turn : A → Writer A → World A → World A
  unfolding next_index
  write_turn item resting w =
      let new = next_index w.fifo.size w.fifo.index_end in
      if new == w.fifo.index_start then w else record w { writer = storing item new }
  write_turn item (storing a new) w = record w {
    fifo = record (w.fifo) { slots = set w.fifo.slots new a };
    writer = publishing a new;
  }
  write_turn item (publishing a new) w = record w {
    fifo = record (w.fifo) { index_end = new; n_in = (w.fifo.n_in + 1) % 2 ^ 64 };
    writer = resting;
    pushed = w.pushed ++ a ∷ [];
  }

  take_slot : Option A → World A → World A
  take_slot none w = w
  take_slot (some a) w = record w { reader = clearing a }

  unfoldable pub read_turn : Reader A → World A → World A
  unfolding next_index take_slot
  read_turn waiting w =
      if w.fifo.index_end == w.fifo.index_start
      then w
      else record w { reader = advancing (next_index w.fifo.size w.fifo.index_start) }
  read_turn (advancing new) w = record w {
    fifo = record (w.fifo) { index_start = new };
    reader = reading;
  }
  read_turn reading w = take_slot (get_elem? w.fifo.slots w.fifo.index_start) w
  read_turn (clearing a) w = record w {
    fifo = record (w.fifo) {
      slots = set w.fifo.slots w.fifo.index_start nothing;
      n_out = (w.fifo.n_out + 1) % 2 ^ 64;
    };
    reader = waiting;
    popped = w.popped ++ a ∷ [];
  }

  unfoldable pub turn : Turn A → World A → World A
  unfolding write_turn read_turn
  turn (write item) w = write_turn item w.writer w
  turn read w = read_turn w.reader w

  unfoldable pub turns : List (Turn A) → World A → World A
  unfolding turn
  turns [] w = w
  turns (t ∷ ts) w = turns ts (turn t w)
