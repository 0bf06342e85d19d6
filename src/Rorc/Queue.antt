-- ===== src/Rorc/Queue.antt =====
-- RORC/src/SuperpageQueue.h. A member function runs on the queue and gives an `Outcome`.
-- `cap` is MAX_SUPERPAGES, `debug` says that NDEBUG is not defined, `buffer` is the circular buffer.
pub mod Ids
pub mod Invariant
pub mod Add
pub mod Remove
pub mod Move
pub mod Ends
pub mod Finish
mod Tests
use flp_prototype.Base.{
  ℕ, ◌+◌, ◌-◌, ◌%◌, Bool, true, false, not, List, [], ◌∷◌, map, Option, none, some, ◌==◌,
  if◌then◌else◌, head?, last?, tail, set, get_elem?, length, ltb, Outcome, done, throws, undefined,
  ◌>>=◌, ◌>>◌, pure, gets, modify, defined, throw_if,
}
use flp_prototype.Base.Int.{ℤ, pos, negsuc, eqb, ◌-ℤ◌}
use flp_prototype.Base.Buffer.{CircularBuffer}
use flp_prototype.Rorc.Error.{
  Error, no_back_superpage, no_front_superpage, no_superpage_status, queue_full, id_in_use,
  pushing_empty, not_completely_pushed, arrivals_empty, superpage_not_filled, filled_empty,
  invalid_entry, out_of_range,
}
use flp_prototype.Rorc.Superpage.{Superpage, is_ready}

-- SuperpageQueueEntry
pub record Entry : Type 0 where
  pub superpage : Superpage
  pub bus_address : ℕ
  pub pushed_pages : ℤ
  pub max_pages : ℤ

unfoldable pub is_pushed : Entry → Bool
is_pushed e = eqb e.pushed_pages e.max_pages

unfoldable pub get_unpushed_pages : Entry → ℤ
get_unpushed_pages e = e.max_pages -ℤ e.pushed_pages

-- The count is a number: it is decremented only where `filled` holds an entry.
pub record SuperpageQueue : Type 0 where
  pub number_of_entries : ℕ
  pub next_id : ℕ
  pub registry : List Entry
  pub pushing : List ℕ
  pub arrivals : List ℕ
  pub filled : List ℕ

abbrev pub M : Type 0 → Type 0
M A = SuperpageQueue → Outcome SuperpageQueue Error A

abbrev pub pushed_pages_invalid : ℤ
pushed_pages_invalid = negsuc 0

unfoldable pub reset_entry : Entry → Entry
reset_entry e = record e { pushed_pages = pushed_pages_invalid }

unfoldable pub is_valid_entry : Entry → Bool
is_valid_entry e = not (eqb e.pushed_pages pushed_pages_invalid)

abbrev is_nil : List ℕ → Bool
is_nil [] = true
is_nil (x ∷ xs) = false

unfoldable pub get_queue_count : SuperpageQueue → ℕ
get_queue_count q = q.number_of_entries

unfoldable pub is_empty : SuperpageQueue → Bool
unfolding get_queue_count
is_empty q = get_queue_count q == 0

unfoldable pub is_full : ℕ → SuperpageQueue → Bool
unfolding get_queue_count
is_full cap q = get_queue_count q == cap

-- A front() or back() of an empty buffer is undefined.
unfoldable pub get_back_superpage_id : M ℕ
get_back_superpage_id q =
    if not (is_nil q.pushing)
    then defined (last? q.pushing) q
    else if not (is_nil q.arrivals)
    then defined (last? q.arrivals) q
    else if not (is_nil q.filled)
    then defined (last? q.filled) q
    else throws no_back_superpage q

unfoldable pub get_front_superpage_id : M ℕ
get_front_superpage_id q =
    if not (is_nil q.filled)
    then defined (head? q.filled) q
    else if not (is_nil q.arrivals)
    then defined (head? q.arrivals) q
    else if not (is_nil q.pushing)
    then defined (head? q.pushing) q
    else throws no_front_superpage q

-- mRegistry[id] = e, undefined where the array has no element `id`
unfoldable pub write_entry : ℕ → Entry → M (Unit {0})
write_entry id e q = elim (get_elem? q.registry id) [
  | none ↦ undefined
  | some old ↦ done tt (record q { registry = set q.registry id e })
]

module _ (debug : Bool) where
  -- the check of getEntry() on mRegistry.at(id)
  check_entry : ℕ → M (Unit {0})
  unfolding is_valid_entry
  check_entry id q =
      if debug
      then elim (get_elem? q.registry id) [
        | none ↦ throws out_of_range q
        | some e ↦ throw_if (not (is_valid_entry e)) (invalid_entry id) q
      ]
      else done tt q

  unfoldable pub get_entry : ℕ → M Entry
  unfolding check_entry
  get_entry id = do
    check_entry id
    entry ← gets (λ (q : SuperpageQueue). get_elem? q.registry id)
    defined entry

  unfoldable pub get_front_superpage : M Superpage
  unfolding is_empty
  get_front_superpage = do
    throw_if (← gets is_empty) no_superpage_status
    entry ← get_entry (← get_front_superpage_id)
    pure entry.superpage

  unfoldable pub get_pushing_front_entry : M Entry
  get_pushing_front_entry = do
    id ← (λ (q : SuperpageQueue). defined (head? q.pushing) q)
    get_entry id

  unfoldable pub get_arrivals_front_entry : M Entry
  get_arrivals_front_entry = do
    id ← (λ (q : SuperpageQueue). defined (head? q.arrivals) q)
    get_entry id

  unfoldable pub remove_from_pushing_queue : M ℕ
  unfolding is_pushed
  remove_from_pushing_queue = do
    throw_if (← gets (λ (q : SuperpageQueue). is_nil q.pushing)) pushing_empty
    id ← (λ (q : SuperpageQueue). defined (head? q.pushing) q)
    entry ← get_entry id
    throw_if (not (is_pushed entry)) not_completely_pushed
    modify (λ (q : SuperpageQueue). record q { pushing = tail q.pushing })
    pure id

  -- the check of addToQueue() that the id is not in use
  check_unused : ℕ → M (Unit {0})
  unfolding is_valid_entry
  check_unused id q =
      if debug
      then elim (get_elem? q.registry id) [
        | none ↦ throws out_of_range q
        | some e ↦ throw_if (is_valid_entry e) (id_in_use id) q
      ]
      else done tt q

  unfoldable pub remove_from_filled_queue : M Entry
  unfolding reset_entry
  remove_from_filled_queue = do
    throw_if (← gets (λ (q : SuperpageQueue). is_nil q.filled)) filled_empty
    id ← (λ (q : SuperpageQueue). defined (head? q.filled) q)
    entry ← get_entry id
    again ← get_entry id
    write_entry id (reset_entry again)
    modify (λ (q : SuperpageQueue). record q { number_of_entries = q.number_of_entries - 1 })
    modify (λ (q : SuperpageQueue). record q { filled = tail q.filled })
    pure entry

  module _ (buffer : CircularBuffer ℕ) (cap : ℕ) where
    unfoldable pub move_from_arrivals_to_filled_queue : M ℕ
    unfolding is_ready
    move_from_arrivals_to_filled_queue = do
      throw_if (← gets (λ (q : SuperpageQueue). is_nil q.arrivals)) arrivals_empty
      id ← (λ (q : SuperpageQueue). defined (head? q.arrivals) q)
      entry ← get_entry id
      throw_if (not (is_ready entry.superpage)) superpage_not_filled
      modify (λ (q : SuperpageQueue). record q { filled = buffer.push_back cap q.filled id })
      modify (λ (q : SuperpageQueue). record q { arrivals = tail q.arrivals })
      pure id

    unfoldable pub add_to_queue : Entry → M ℕ
    unfolding is_full check_unused write_entry
    add_to_queue entry = do
      throw_if (← gets (is_full cap)) queue_full
      id ← gets (λ (q : SuperpageQueue). q.next_id)
      check_unused id
      write_entry id entry
      modify (λ (q : SuperpageQueue). record q { next_id = (q.next_id + 1) % cap })
      modify (λ (q : SuperpageQueue). record q { number_of_entries = q.number_of_entries + 1 })
      modify (λ (q : SuperpageQueue). record q { pushing = buffer.push_back cap q.pushing id })
      modify (λ (q : SuperpageQueue). record q { arrivals = buffer.push_back cap q.arrivals id })
      pure id

unfoldable pub get_queue_available : ℕ → SuperpageQueue → ℕ
unfolding get_queue_count
get_queue_available cap q = cap - get_queue_count q

unfoldable pub clear : SuperpageQueue → SuperpageQueue
unfolding reset_entry
clear q = record {
  number_of_entries = 0;
  next_id = 0;
  registry = map reset_entry q.registry;
  pushing = [];
  arrivals = [];
  filled = [];
}
