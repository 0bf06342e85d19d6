-- ===== src/Common/Fifo/Tests.antt =====
-- The theorems of the FIFO at a FIFO of size 2 with one item, which is in the last slot.
use flp_prototype.Base.{ℕ, ◌≡◌, refl, arith, List, [], ◌∷◌, true, undefined}
use flp_prototype.Common.Fifo.{Fifo, next_index, is_empty, push, clear}
use flp_prototype.Common.Fifo.Contents.{IsFifo}
use flp_prototype.Common.Fifo.Methods.{fifo_clear_lem}
use flp_prototype.Common.Fifo.Turns.{beginning, Turn, write, read, turns}
use flp_prototype.Common.Fifo.Order.Always.{InOrder, turns-InOrder, Apart, turns-Apart}

abbrev last_slot : Fifo ℕ
last_slot = record {
  size = 2;
  index_start = 1;
  index_end = 2;
  slots = 0 ∷ 0 ∷ 7 ∷ [];
  n_in = 2;
  n_out = 1;
}

last_slot-IsFifo : IsFifo last_slot (7 ∷ [])
unfolding next_index
last_slot-IsFifo = record {
  slots_lem = refl;
  start_le = omega arith;
  room = omega arith;
  end_lem = refl;
  holds = (refl, tt);
}

fifo_clear_lem_example :
    (is_empty (clear last_slot) ≡ true) × (push 8 (clear last_slot) ≡ undefined)
fifo_clear_lem_example = fifo_clear_lem last_slot 8 (omega arith)

-- The writer fills a FIFO of size 1 while the reader is in pop().
abbrev mixed : List (Turn ℕ)
mixed =
    write 5
    ∷ write 5
    ∷ write 5
    ∷ read
    ∷ write 6
    ∷ read
    ∷ write 6
    ∷ read
    ∷ write 6
    ∷ read
    ∷ write 6
    ∷ []

turns-InOrder_example : InOrder 1 (turns 0 mixed (beginning 0 1))
turns-InOrder_example = turns-InOrder 0 1 mixed

turns-Apart_example :
    Apart (turns 0 mixed (beginning 0 1)).writer (turns 0 mixed (beginning 0 1)).fifo
turns-Apart_example = turns-Apart 0 1 mixed

mixed_run :
    ((turns 0 mixed (beginning 0 1)).popped ≡ 5 ∷ [])
    × ((turns 0 mixed (beginning 0 1)).pushed ≡ 5 ∷ 6 ∷ [])
unfolding turns
mixed_run = (refl, refl)
