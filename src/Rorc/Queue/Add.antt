-- ===== src/Rorc/Queue/Add.antt =====
-- SuperpageQueue::addToQueue()
use flp_prototype.Base.{
  ℕ, suc, ◌+◌, ◌-◌, ◌%◌, ◌<◌, ◌≡◌, sym, ◌∙◌, ap, arith, ◌==◌, [], ◌∷◌, ◌++◌, inl, inr, ◌⊎◌, length,
  Bool, true, false, some, map, get_elem?, set, length-set, get_elem?-set_self, append_assoc,
  length-append, Bool-cases, get_elem?-lt, done, throws,
}
use mathlib.Core.List.{map-append}
use mathlib.Core.Path.{ap₂}
use native.Mathlib.Decide.{dec_lt}
use flp_prototype.Base.Buffer.{CircularBuffer}
use flp_prototype.Rorc.Error.{queue_full}
use flp_prototype.Rorc.Queue.{SuperpageQueue, Entry, is_valid_entry, add_to_queue}
use flp_prototype.Rorc.Queue.Ids.{wrap, mod-wrap, ids, place, ids-snoc, ids-set, length-ids}
use flp_prototype.Rorc.Queue.Invariant.{
  IsQueue, contents, valid_at, Marks, valid_at-set_self, valid_at-set_ne,
}

add-full :
    (debug : Bool) (buffer : CircularBuffer ℕ) (cap : ℕ) (entry : Entry) (q : SuperpageQueue)
    → q.number_of_entries ≡ cap
    → add_to_queue debug buffer cap entry q ≡ throws queue_full q
unfolding add_to_queue
add-full debug buffer cap entry q e = ground arith

abbrev pub added : ℕ → Entry → SuperpageQueue → SuperpageQueue
added cap entry q = record {
  number_of_entries = q.number_of_entries + 1;
  next_id = wrap cap (q.next_id + 1);
  registry = set q.registry q.next_id entry;
  pushing = q.pushing ++ q.next_id ∷ [];
  arrivals = q.arrivals ++ q.next_id ∷ [];
  filled = q.filled;
}

module _ (cap : ℕ) (entry : Entry) (q : SuperpageQueue) (v : IsQueue cap q)
    (room : q.number_of_entries < cap) where
  next-lt : q.next_id < cap
  next-lt = ground (arith, v)

  next-place : place cap v.first q.next_id ≡ q.number_of_entries
  next-place = ground (arith, v)

  next-unused : valid_at q.registry q.next_id ≡ false
  next-unused = ground (arith, v.marks q.next_id next-lt, next-place)

  length-live : length q.filled + length q.arrivals ≡ q.number_of_entries
  length-live = omega (
    arith,
    length-append q.filled q.arrivals,
    ap length v.live,
    length-ids cap v.first q.number_of_entries,
  )

  push-pushing :
      (buffer : CircularBuffer ℕ)
      → buffer.push_back cap q.pushing q.next_id ≡ q.pushing ++ q.next_id ∷ []
  push-pushing buffer = buffer.push_back_room cap q.pushing q.next_id (
      omega (
        arith,
        ap length v.pushing_lem,
        length-ids cap (wrap cap (v.first + v.left)) (q.number_of_entries - v.left),
      ))

  push-arrivals :
      (buffer : CircularBuffer ℕ)
      → buffer.push_back cap q.arrivals q.next_id ≡ q.arrivals ++ q.next_id ∷ []
  push-arrivals buffer = buffer.push_back_room cap q.arrivals q.next_id (omega (arith, length-live))

  -- what the run of addToQueue() asks, in its order
  not-full : (q.number_of_entries == cap) ≡ false
  not-full = ground arith

  next-step : (q.next_id + 1) % cap ≡ wrap cap (q.next_id + 1)
  next-step = mod-wrap cap (q.next_id + 1) (omega (arith, next-lt))

  valid_at-none : (e : Entry) → get_elem? q.registry q.next_id ≡ some e → is_valid_entry e ≡ false
  unfolding is_valid_entry
  valid_at-none e found = ground (arith, next-unused)

  next-found : (e : Entry) × (get_elem? q.registry q.next_id ≡ some e) × (is_valid_entry e ≡ false)
  next-found =
      let (e, found) = get_elem?-lt q.registry q.next_id (omega (arith, v.registry_lem, next-lt)) in
      (e, found, valid_at-none e found)

  add-room :
      (debug : Bool) (buffer : CircularBuffer ℕ)
      → add_to_queue debug buffer cap entry q ≡ done q.next_id (added cap entry q)
  unfolding add_to_queue
  add-room true buffer = ground (
    arith,
    not-full,
    next-found.1,
    next-found.2,
    next-step,
    push-pushing buffer,
    push-arrivals buffer,
  )
  add-room false buffer =
      ground (arith, not-full, next-found.1, next-step, push-pushing buffer, push-arrivals buffer)

  added-Marks :
      is_valid_entry entry ≡ true
      → Marks cap (added cap entry q).registry v.first (q.number_of_entries + 1)
  added-Marks valid i h = elim (Bool-cases (i == q.next_id)) [
    | inl e ↦ ground (
      arith,
      valid_at-set_self q.registry q.next_id entry (omega (arith, v.registry_lem, next-lt)),
      next-place,
    )
    | inr e ↦ ground (
      arith,
      valid_at-set_ne q.registry q.next_id i entry (ground arith),
      v.marks i h,
      next-place,
    )
  ]

  added-live :
      q.filled ++ (q.arrivals ++ q.next_id ∷ []) ≡ ids cap v.first (q.number_of_entries + 1)
  added-live =
      sym (append_assoc q.filled q.arrivals (q.next_id ∷ []))
      ∙ (λ i. v.live i ++ v.next_lem i ∷ [])
      ∙ sym (ids-snoc cap v.first q.number_of_entries v.first_lt room)
      ∙ ap (ids cap v.first) {x = suc q.number_of_entries} (omega arith)

  added-pushing :
      q.pushing ++ q.next_id ∷ []
      ≡ ids cap (wrap cap (v.first + v.left)) (q.number_of_entries + 1 - v.left)
  added-pushing =
      (λ i. v.pushing_lem i ++ v.next_lem i ∷ [])
      ∙ ap (λ j. ids cap (wrap cap (v.first + v.left)) (q.number_of_entries - v.left) ++ j ∷ [])
          shift
      ∙ sym (
          ids-snoc cap (wrap cap (v.first + v.left)) (q.number_of_entries - v.left)
            (ground (arith, v.first_lt, v.left_le)) (omega arith))
      ∙ ap (ids cap (wrap cap (v.first + v.left))) {x = suc (q.number_of_entries - v.left)}
          (omega (arith, v.left_le))
    where
      shift :
          wrap cap (v.first + q.number_of_entries)
          ≡ wrap cap (wrap cap (v.first + v.left) + (q.number_of_entries - v.left))
      shift = ground (arith, v.first_lt, v.left_le)

  pub added-IsQueue : is_valid_entry entry ≡ true → IsQueue cap (added cap entry q)
  added-IsQueue valid = record {
    first = v.first;
    left = v.left;
    first_lt = v.first_lt;
    count_le = omega arith;
    left_le = omega (arith, v.left_le);
    next_lem = ground (arith, v.next_lem, v.first_lt);
    registry_lem = length-set q.registry q.next_id entry ∙ v.registry_lem;
    live = added-live;
    pushing_lem = added-pushing;
    marks = added-Marks valid;
  }

  contents-added : contents (added cap entry q) ≡ contents q ++ some entry ∷ []
  contents-added =
      ap (map (get_elem? (set q.registry q.next_id entry)))
        (sym (append_assoc q.filled q.arrivals (q.next_id ∷ [])))
      ∙ map-append _ (q.filled ++ q.arrivals) (q.next_id ∷ [])
      ∙ ap₂ ◌++◌ kept (
          ap (λ e. e ∷ [])
            (get_elem?-set_self q.registry q.next_id entry
              (omega (arith, v.registry_lem, next-lt))))
    where
      kept :
          map (get_elem? (set q.registry q.next_id entry)) (q.filled ++ q.arrivals)
          ≡ map (get_elem? q.registry) (q.filled ++ q.arrivals)
      kept = rw v.live (
          ids-set cap q.registry entry q.next_id v.first q.number_of_entries v.first_lt next-lt
            (omega (arith, next-place)))

abbrev pub Adds : Bool → CircularBuffer ℕ → ℕ → Entry → SuperpageQueue → Type 0
Adds debug buffer cap entry q =
    ((q.number_of_entries ≡ cap) × (add_to_queue debug buffer cap entry q ≡ throws queue_full q))
    ⊎ ((q.number_of_entries < cap)
        × (q' : SuperpageQueue) × (add_to_queue debug buffer cap entry q ≡ done q.next_id q')
        × IsQueue cap q'
        × (contents q' ≡ contents q ++ some entry ∷ []))

-- addToQueue() on a well-formed queue, with an entry whose page count is not the invalid mark, in a
-- debug build or not: when MAX_SUPERPAGES entries are in it, it throws and changes nothing;
-- otherwise it returns the next id, the queue stays well-formed, and the entry stands behind those
-- that were in it, which are unchanged. It is never undefined and the id is never one in use.
pub add_to_queue_lem :
    (debug : Bool) (buffer : CircularBuffer ℕ) (cap : ℕ) (entry : Entry) (q : SuperpageQueue)
    → IsQueue cap q
    → is_valid_entry entry ≡ true
    → Adds debug buffer cap entry q
add_to_queue_lem debug buffer cap entry q v valid = elim (dec_lt q.number_of_entries cap) [
  | yes room ↦ inr (
    room,
    added cap entry q,
    add-room cap entry q v room debug buffer,
    added-IsQueue cap entry q v room valid,
    contents-added cap entry q v room,
  )
  | no full ↦
      let count : q.number_of_entries ≡ cap = omega (arith, v.count_le) in
      inl (count, add-full debug buffer cap entry q count)
]
