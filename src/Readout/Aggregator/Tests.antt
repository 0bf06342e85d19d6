-- ===== src/Readout/Aggregator/Tests.antt =====
-- A round of the aggregator on three inputs: their first blocks have the ids 5, 4 and 4.
use flp_prototype.Base.{ℕ, refl, arith, [], ◌∷◌, none, some, false, List, Ensures}
use flp_prototype.Readout.Aggregator.Rising.{MovesOn, thread_callback-MovesOn}
use flp_prototype.Common.Fifo.{Fifo, next_index}
use flp_prototype.Common.Fifo.Contents.{IsFifo}
use flp_prototype.Readout.Aggregator.{Block, Reference, Aggregator, thread_callback}
use flp_prototype.Readout.Aggregator.Round.{IsAggregator, Round, thread_callback_lem}

abbrev block : ℕ → ℕ → Block
block id payload = record { id = id; payload = payload }

abbrev one_block : Block → Fifo Reference
one_block b = record {
  size = 1;
  index_start = 0;
  index_end = 1;
  slots = none ∷ some b ∷ [];
  n_in = 1;
  n_out = 0;
}

one_block-IsFifo : (b : Block) → IsFifo (one_block b) (some b ∷ [])
unfolding next_index
one_block-IsFifo b = record {
  slots_lem = refl;
  start_le = omega arith;
  room = omega arith;
  end_lem = refl;
  holds = (refl, tt);
}

abbrev three_inputs : Aggregator
three_inputs = record {
  inputs = one_block (block 5 1) ∷ one_block (block 4 2) ∷ one_block (block 4 3) ∷ [];
  output = record {
    size = 1;
    index_start = 1;
    index_end = 1;
    slots = none ∷ none ∷ [];
    n_in = 3;
    n_out = 3;
  };
  is_incomplete_pending = false;
}

abbrev first_blocks : List (List Block)
first_blocks = (block 5 1 ∷ []) ∷ (block 4 2 ∷ []) ∷ (block 4 3 ∷ []) ∷ []

three_inputs-IsAggregator : IsAggregator three_inputs first_blocks []
three_inputs-IsAggregator = record {
  inputs_lem = (
    one_block-IsFifo (block 5 1),
    (one_block-IsFifo (block 4 2), (one_block-IsFifo (block 4 3), tt)),
  );
  numbered = (omega arith, (omega arith, (omega arith, tt)));
  output_lem = record {
    slots_lem = refl;
    start_le = omega arith;
    room = omega arith;
    end_lem = refl;
    holds = tt;
  };
}

thread_callback_lem_example :
    Round false three_inputs first_blocks [] (thread_callback false three_inputs)
thread_callback_lem_example =
    thread_callback_lem false three_inputs first_blocks [] three_inputs-IsAggregator

thread_callback-MovesOn_example :
    Ensures
      (thread_callback false three_inputs)
      (λ r d. MovesOn three_inputs first_blocks [] r d)
      (λ e d. ⊥)
thread_callback-MovesOn_example =
    thread_callback-MovesOn false three_inputs first_blocks [] three_inputs-IsAggregator
      ((tt, tt), ((tt, tt), ((tt, tt), tt)))
