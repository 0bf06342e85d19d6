-- ===== src/Common/Fifo/Order.antt =====
-- The FIFO keeps its order whatever the turns of its writer and its reader, and they never meet in a
-- slot.
pub mod Writing
pub mod Reading
pub mod Always
use mathlib.Core.Path.{subst}
use flp_prototype.Base.{
  ℕ, zero, suc, ◌+◌, ◌-◌, ◌%◌, ◌^◌, ◌<◌, ◌≤◌, ◌≡◌, ◌≢◌, ◌⊎◌, inl, inr, refl, sym, ◌∙◌, ap, arith,
  Bool, true, false, List, [], ◌∷◌, ◌++◌, append_assoc, Option, none, some, if◌then◌else◌, leb, ltb,
  ◌==◌, Bool-cases, length, length-append, length-set, get_elem?, get_elem?-set_self,
  get_elem?-set_ne, set,
}
use flp_prototype.Common.Fifo.{Fifo, next_index}
use flp_prototype.Common.Fifo.Places.{
  place, place-le, next_index-place, next_index-le, place-next_index, place-zero, place-one,
  place-ne,
}
use flp_prototype.Common.Fifo.Contents.{
  IsFifo, Holds, Holds-set, Holds-append, full_iff, empty_iff, construct-IsFifo,
}
use flp_prototype.Common.Fifo.Turns.{
  Writer, resting, storing, publishing, Reader, waiting, advancing, reading, clearing, World,
  beginning, Turn, write, read, write_turn, read_turn, turn, turns,
}

-- The writer's slot is the one behind the items.
abbrev pub NextSlot : {A : Type 0} → Fifo A → List A → ℕ → Type 0
NextSlot f xs new = (new ≡ place f.size f.index_start (length xs + 1)) × (length xs < f.size)

abbrev pub WriterAt : {A : Type 0} → Writer A → Fifo A → List A → Type 0
WriterAt resting f xs = Unit {0}
WriterAt (storing a new) f xs = NextSlot f xs new
WriterAt (publishing a new) f xs = NextSlot f xs new × (get_elem? f.slots new ≡ some a)

-- What was pushed is what was popped, the item that the reader has in hand, and the items.
abbrev pub ReaderAt : {A : Type 0} → Reader A → Fifo A → List A → List A → List A → Type 0
ReaderAt waiting f xs pushed popped = pushed ≡ popped ++ xs
ReaderAt (advancing new) f xs pushed popped =
    (new ≡ next_index f.size f.index_start) × (0 < length xs) × (pushed ≡ popped ++ xs)
ReaderAt reading f xs pushed popped =
    (x : _) × (get_elem? f.slots f.index_start ≡ some x) × (pushed ≡ popped ++ x ∷ xs)
ReaderAt (clearing a) f xs pushed popped = pushed ≡ popped ++ a ∷ xs

pub record IsWorld {A : Type 0} (w : World A) : Type 0 where
  pub items : List A
  pub fifo_lem : IsFifo w.fifo items
  pub writer_lem : WriterAt w.writer w.fifo items
  pub reader_lem : ReaderAt w.reader w.fifo items w.pushed w.popped
