-- ===== src/Rorc/Queue/Tests.antt =====
-- Runs of the superpage queue, and its theorems at a queue of capacity 2.
use flp_prototype.Rorc.Sca.{offset}
use flp_prototype.Base.{ℕ, zero, suc, ◌≡◌, refl, arith, [], ◌∷◌, ◌++◌, Bool, true, false, done}
use flp_prototype.Base.Int.{pos, negsuc}
use flp_prototype.Base.Buffer.{CircularBuffer}
use flp_prototype.Rorc.Superpage.{Superpage}
use flp_prototype.Rorc.Queue.{SuperpageQueue, Entry, is_valid_entry, add_to_queue}
use flp_prototype.Rorc.Queue.Invariant.{IsQueue, Marks}
use flp_prototype.Rorc.Queue.Add.{Adds, add_to_queue_lem}
use flp_prototype.Rorc.Queue.Remove.{RemovesPushed, remove_from_pushing_queue_lem}
use flp_prototype.Rorc.Queue.Move.{MovesReady, move_from_arrivals_to_filled_queue_lem}
use flp_prototype.Rorc.Queue.Finish.{TakesOldest, remove_from_filled_queue_lem}

-- A buffer that appends always.
abbrev appending : CircularBuffer ℕ
appending = record { push_back = λ c xs x. xs ++ x ∷ []; push_back_room = λ c xs x h. refl }

abbrev page : ℕ → Bool → Superpage
page offset ready = record {
  offset = offset;
  size = 0x100000;
  user_data = 0;
  received = 0;
  ready = ready;
}

abbrev unused : Entry
unused = record {
  superpage = page 0 false;
  bus_address = 0;
  pushed_pages = negsuc 0;
  max_pages = pos 0;
}

abbrev pushed_entry : Entry
pushed_entry = record {
  superpage = page 0 true;
  bus_address = 0;
  pushed_pages = pos 128;
  max_pages = pos 128;
}

abbrev new_entry : Entry
new_entry = record {
  superpage = page 0x100000 false;
  bus_address = 0x100000;
  pushed_pages = pos 0;
  max_pages = pos 128;
}

-- One superpage, completely pushed and ready, still in the pushing and arrivals queues.
abbrev one_ready : SuperpageQueue
one_ready = record {
  number_of_entries = 1;
  next_id = 0;
  registry = unused ∷ pushed_entry ∷ [];
  pushing = 1 ∷ [];
  arrivals = 1 ∷ [];
  filled = [];
}

abbrev one_filled : SuperpageQueue
one_filled = record {
  number_of_entries = 1;
  next_id = 0;
  registry = unused ∷ pushed_entry ∷ [];
  pushing = [];
  arrivals = [];
  filled = 1 ∷ [];
}

ready-Marks : Marks 2 (unused ∷ pushed_entry ∷ []) 1 1
unfolding is_valid_entry
ready-Marks zero h = refl
ready-Marks (suc zero) h = refl
ready-Marks (suc (suc i)) h = absurd (omega arith)

one_ready-IsQueue : IsQueue 2 one_ready
one_ready-IsQueue = record {
  first = 1;
  left = 0;
  first_lt = omega arith;
  count_le = omega arith;
  left_le = omega arith;
  next_lem = refl;
  registry_lem = refl;
  live = refl;
  pushing_lem = refl;
  marks = ready-Marks;
}

one_filled-IsQueue : IsQueue 2 one_filled
one_filled-IsQueue = record {
  first = 1;
  left = 1;
  first_lt = omega arith;
  count_le = omega arith;
  left_le = omega arith;
  next_lem = refl;
  registry_lem = refl;
  live = refl;
  pushing_lem = refl;
  marks = ready-Marks;
}

-- The ids go round: the second superpage gets id 0, and the queue is full then.
add_second :
    (add_to_queue true appending 2 new_entry one_ready)
    ≡ done 0 (record {
      number_of_entries = 2;
      next_id = 1;
      registry = new_entry ∷ pushed_entry ∷ [];
      pushing = 1 ∷ 0 ∷ [];
      arrivals = 1 ∷ 0 ∷ [];
      filled = [];
    })
unfolding add_to_queue is_valid_entry
add_second = refl

add_to_queue_lem_example : Adds true appending 2 new_entry one_ready
unfolding is_valid_entry
add_to_queue_lem_example =
    add_to_queue_lem true appending 2 new_entry one_ready one_ready-IsQueue refl

remove_from_pushing_queue_lem_example : RemovesPushed true 2 one_ready
remove_from_pushing_queue_lem_example =
    remove_from_pushing_queue_lem true 2 one_ready one_ready-IsQueue

move_from_arrivals_to_filled_queue_lem_example : MovesReady true appending 2 one_ready
move_from_arrivals_to_filled_queue_lem_example =
    move_from_arrivals_to_filled_queue_lem true appending 2 one_ready one_ready-IsQueue

remove_from_filled_queue_lem_example : TakesOldest true 2 one_filled one_filled-IsQueue
remove_from_filled_queue_lem_example =
    remove_from_filled_queue_lem true 2 one_filled one_filled-IsQueue
