-- ===== src/Rorc/Queue/Move.antt =====
-- SuperpageQueue::moveFromArrivalsToFilledQueue().
use flp_prototype.Base.{
  ℕ, ◌<◌, ◌≡◌, refl, sym, ◌∙◌, ap, arith, List, [], ◌∷◌, ◌++◌, inl, inr, ◌⊎◌, if◌then◌else◌, length,
  List-cases, Bool, true, false, some, map, get_elem?, append_assoc, done, throws,
}
use flp_prototype.Base.Buffer.{CircularBuffer}
use flp_prototype.Rorc.Superpage.{is_ready}
use flp_prototype.Rorc.Error.{arrivals_empty, superpage_not_filled}
use flp_prototype.Rorc.Queue.{
  SuperpageQueue, Entry, is_valid_entry, get_entry, move_from_arrivals_to_filled_queue,
}
use flp_prototype.Rorc.Queue.Ids.{ids, ids-split}
use flp_prototype.Rorc.Queue.Invariant.{IsQueue, contents, found_live, get_entry_live}

abbrev pub moved : ℕ → List ℕ → SuperpageQueue → SuperpageQueue
moved id rest q = record q { filled = q.filled ++ id ∷ []; arrivals = rest }

move_empty :
    (debug : Bool) (buffer : CircularBuffer ℕ) (cap : ℕ) (q : SuperpageQueue)
    → q.arrivals ≡ []
    → move_from_arrivals_to_filled_queue debug buffer cap q ≡ throws arrivals_empty q
unfolding move_from_arrivals_to_filled_queue
move_empty debug buffer cap q p = ground (arith, p)

module _ (cap : ℕ) (q : SuperpageQueue) (v : IsQueue cap q) (id : ℕ) (rest : List ℕ)
    (p : q.arrivals ≡ id ∷ rest) where
  run_split : q.filled ++ id ∷ rest ≡ ids cap v.first q.number_of_entries
  run_split = ap (◌++◌ q.filled) (sym p) ∙ v.live

  arrivals_found : (e : Entry) × (get_elem? q.registry id ≡ some e) × (is_valid_entry e ≡ true)
  arrivals_found =
      let (at, lt) =
        ids-split cap q.filled id rest v.first q.number_of_entries v.first_lt v.count_le
          run_split in
      found_live cap q v id (ground (arith, v.first_lt, v.count_le))
        (ground (arith, v.first_lt, v.count_le))

  filled-room : length q.filled < cap
  filled-room =
      let (at, lt) =
        ids-split cap q.filled id rest v.first q.number_of_entries v.first_lt v.count_le
          run_split in
      omega (arith, v.count_le)

  regroup : (q.filled ++ id ∷ []) ++ rest ≡ q.filled ++ q.arrivals
  regroup = append_assoc q.filled (id ∷ []) rest ∙ ap (◌++◌ q.filled) (sym p)

  moved-IsQueue : IsQueue cap (moved id rest q)
  moved-IsQueue = record {
    first = v.first;
    left = v.left;
    first_lt = v.first_lt;
    count_le = v.count_le;
    left_le = v.left_le;
    next_lem = v.next_lem;
    registry_lem = v.registry_lem;
    live = regroup ∙ v.live;
    pushing_lem = v.pushing_lem;
    marks = v.marks;
  }

  move_run :
      (debug : Bool) (buffer : CircularBuffer ℕ) (e : Entry) (b : Bool)
      → get_entry debug id q ≡ done e q
      → is_ready e.superpage ≡ b
      → move_from_arrivals_to_filled_queue debug buffer cap q
        ≡ (if b then done id (moved id rest q) else throws superpage_not_filled q)
  unfolding move_from_arrivals_to_filled_queue
  move_run debug buffer e true g h =
      ground (arith, p, g, h, buffer.push_back_room cap q.filled id filled-room)
  move_run debug buffer e false g h = ground (arith, p, g, h)

abbrev pub MovesReady : Bool → CircularBuffer ℕ → ℕ → SuperpageQueue → Type 0
MovesReady debug buffer cap q =
    ((q.arrivals ≡ [])
      × (move_from_arrivals_to_filled_queue debug buffer cap q ≡ throws arrivals_empty q))
    ⊎ ((id : ℕ) × (rest : List ℕ) × (e : Entry) × (q.arrivals ≡ id ∷ rest)
        × (get_elem? q.registry id ≡ some e)
        × (move_from_arrivals_to_filled_queue debug buffer cap q ≡ (
            if is_ready e.superpage
            then done id (moved id rest q)
            else throws superpage_not_filled q))
        × IsQueue cap (moved id rest q)
        × (contents (moved id rest q) ≡ contents q))

-- moveFromArrivalsToFilledQueue() on a well-formed queue, in a debug build or not: it throws, and
-- changes nothing, if no superpage is to arrive or if the front one is not ready; otherwise it moves
-- that superpage to the end of the filled queue, which has room, the queue stays well-formed and
-- holds the same entries in the same order.
pub move_from_arrivals_to_filled_queue_lem :
    (debug : Bool) (buffer : CircularBuffer ℕ) (cap : ℕ) (q : SuperpageQueue)
    → IsQueue cap q
    → MovesReady debug buffer cap q
move_from_arrivals_to_filled_queue_lem debug buffer cap q v = elim (List-cases q.arrivals) [
  | inl p ↦ inl (p, move_empty debug buffer cap q p)
  | inr (id, rest, p) ↦
      let (e, found, valid) = arrivals_found cap q v id rest p in
      inr (
        id,
        rest,
        e,
        p,
        found,
        move_run cap q v id rest p debug buffer e (is_ready e.superpage)
            (get_entry_live debug q id e found valid) refl,
        moved-IsQueue cap q v id rest p,
        ap (map (get_elem? q.registry)) (regroup cap q v id rest p),
      )
]
