-- ===== src/Rorc/Queue/Ends.antt =====
-- SuperpageQueue's getFrontSuperpage(), getBackSuperpageId(), clear() and its counters.
use flp_prototype.Base.{
  ℕ, zero, suc, ◌+◌, ◌-◌, ◌<◌, ◌≤◌, ◌≡◌, ◌≢◌, refl, sym, ◌∙◌, ap, arith, List, [], ◌∷◌, ◌++◌, inl,
  inr, ◌⊎◌, length, List-cases, Bool, true, false, Option, some, map, get_elem?, last?,
  last?-append-cons, append-nil, done, throws, length-map, length-append, ℕ-cases, ◌↔◌,
}
use flp_prototype.Rorc.Error.{no_superpage_status, no_back_superpage}
use flp_prototype.Rorc.Queue.{
  SuperpageQueue, Entry, is_valid_entry, get_entry, reset_entry, get_front_superpage,
  get_front_superpage_id, get_back_superpage_id, clear, is_empty, is_full, get_queue_count,
  get_queue_available,
}
use flp_prototype.Rorc.Queue.Ids.{wrap, ids, ids-uncons, last?-ids, length-ids}
use flp_prototype.Rorc.Queue.Invariant.{IsQueue, contents, valid_at, found_live, get_entry_live}

-- A queue with no entry, and one whose oldest id is `i`.
live_empty :
    (cap : ℕ) (q : SuperpageQueue) (v : IsQueue cap q)
    → q.filled ++ q.arrivals ≡ []
    → q.number_of_entries ≡ 0
live_empty cap q v e =
    omega (arith, length-ids cap v.first q.number_of_entries, ap length v.live, ap length e)

front_run :
    (debug : Bool) (q : SuperpageQueue) (i : ℕ) (rest : List ℕ) (e : Entry)
    → q.filled ++ q.arrivals ≡ i ∷ rest
    → q.number_of_entries ≢ 0
    → get_entry debug i q ≡ done e q
    → get_front_superpage debug q ≡ done e.superpage q
unfolding get_front_superpage get_front_superpage_id
front_run debug q i rest e live some_there g = elim (List-cases q.filled) [
  | inl f ↦ elim (List-cases q.arrivals) [
    | inl a ↦ absurd (cc (sym live ∙ ap (λ xs. xs ++ q.arrivals) f ∙ a))
    | inr (j, more, a) ↦ ground (arith, f, a, g, live)
  ]
  | inr (j, more, f) ↦ ground (arith, f, g, live)
]

front_empty :
    (debug : Bool) (q : SuperpageQueue)
    → q.number_of_entries ≡ 0
    → get_front_superpage debug q ≡ throws no_superpage_status q
unfolding get_front_superpage
front_empty debug q e = ground (arith, e)

abbrev pub ReadsFront : Bool → SuperpageQueue → Type 0
ReadsFront debug q =
    ((contents q ≡ []) × (get_front_superpage debug q ≡ throws no_superpage_status q))
    ⊎ ((e : Entry) × (later : List (Option Entry)) × (contents q ≡ some e ∷ later)
        × (get_front_superpage debug q ≡ done e.superpage q))

-- getFrontSuperpage() on a well-formed queue, in a debug build or not: it throws if the queue is
-- empty, and otherwise returns the superpage of the entry that was added first, without a change.
pub get_front_superpage_lem :
    (debug : Bool) (cap : ℕ) (q : SuperpageQueue) → IsQueue cap q → ReadsFront debug q
get_front_superpage_lem debug cap q v = elim (List-cases (q.filled ++ q.arrivals)) [
  | inl none_live ↦ inl (
    ap (map (get_elem? q.registry)) none_live,
    front_empty debug q (live_empty cap q v none_live),
  )
  | inr (i, rest, live) ↦
      let (at, some_there, _) =
        ids-uncons cap i rest v.first q.number_of_entries (sym live ∙ v.live) in
      let (e, found, valid) =
        found_live cap q v i (ground (arith, v.first_lt)) (ground (arith, v.first_lt)) in
      inr (
        e,
        map (get_elem? q.registry) rest,
        ap (map (get_elem? q.registry)) live ∙ (λ k. found k ∷ map (get_elem? q.registry) rest),
        front_run debug q i rest e live (omega arith) (get_entry_live debug q i e found valid),
      )
]

-- the youngest id, by the list of the ids in use and by the pushing queue
youngest :
    (cap : ℕ) (q : SuperpageQueue) (v : IsQueue cap q) (n : ℕ)
    → q.number_of_entries ≡ suc n
    → last? (q.filled ++ q.arrivals) ≡ some (wrap cap (v.first + n))
youngest cap q v n e =
    ap last? (v.live ∙ ap (ids cap v.first) e)
    ∙ last?-ids cap v.first n v.first_lt (omega (arith, v.count_le))

youngest_pushing :
    (cap : ℕ) (q : SuperpageQueue) (v : IsQueue cap q) (n : ℕ)
    → q.number_of_entries ≡ suc n
    → v.left ≤ n
    → last? q.pushing ≡ some (wrap cap (v.first + n))
youngest_pushing cap q v n e h =
    ap last? (
      v.pushing_lem
      ∙ ap (ids cap (wrap cap (v.first + v.left))) {y = suc (n - v.left)} (omega arith))
    ∙ last?-ids cap (wrap cap (v.first + v.left)) (n - v.left)
        (ground (arith, v.first_lt, v.left_le, v.count_le)) (omega (arith, v.count_le))
    ∙ ap some shift
  where
    shift : wrap cap (wrap cap (v.first + v.left) + (n - v.left)) ≡ wrap cap (v.first + n)
    shift = ground (arith, v.first_lt, v.count_le)

back_run :
    (cap : ℕ) (q : SuperpageQueue) (v : IsQueue cap q) (n : ℕ)
    → q.number_of_entries ≡ suc n
    → get_back_superpage_id q ≡ done (wrap cap (v.first + n)) q
unfolding get_back_superpage_id
back_run cap q v n e = elim (List-cases q.pushing) [
  | inr (i, rest, p) ↦
      let (_, some_left, _) = ids-uncons cap i rest _ _ (sym p ∙ v.pushing_lem) in
      ground (arith, p, youngest_pushing cap q v n e (omega arith))
  | inl p ↦ elim (List-cases q.arrivals) [
    | inr (i, rest, a) ↦
        ground (arith, p, a, youngest cap q v n e, last?-append-cons q.filled i rest)
    | inl a ↦ elim (List-cases q.filled) [
      | inr (i, rest, f) ↦ ground (arith, p, a, f, youngest cap q v n e, append-nil (i ∷ rest))
      | inl f ↦ absurd (
          omega (
            arith,
            ap length v.live,
            ap length f,
            ap length a,
            length-ids cap v.first q.number_of_entries,
            length-append q.filled q.arrivals,
          ))
    ]
  ]
]

back_empty :
    (cap : ℕ) (q : SuperpageQueue) (v : IsQueue cap q)
    → q.number_of_entries ≡ 0
    → get_back_superpage_id q ≡ throws no_back_superpage q
unfolding get_back_superpage_id
back_empty cap q v e = elim (List-cases q.pushing) [
  | inr (i, rest, p) ↦ absurd (
      omega (
        arith,
        ap length p,
        ap length v.pushing_lem,
        length-ids cap (wrap cap (v.first + v.left)) (q.number_of_entries - v.left),
      ))
  | inl p ↦ elim (List-cases q.arrivals) [
    | inr (i, rest, a) ↦ absurd (
        omega (
          arith,
          ap length v.live,
          ap length a,
          length-ids cap v.first q.number_of_entries,
          length-append q.filled q.arrivals,
        ))
    | inl a ↦ elim (List-cases q.filled) [
      | inr (i, rest, f) ↦ absurd (
          omega (
            arith,
            ap length v.live,
            ap length f,
            length-ids cap v.first q.number_of_entries,
            length-append q.filled q.arrivals,
          ))
      | inl f ↦ ground (arith, p, a, f)
    ]
  ]
]

abbrev pub ReadsBack : ℕ → SuperpageQueue → Type 0
ReadsBack cap q =
    ((q.number_of_entries ≡ 0) × (get_back_superpage_id q ≡ throws no_back_superpage q))
    ⊎ ((id : ℕ) × (get_back_superpage_id q ≡ done id q)
        × (last? (q.filled ++ q.arrivals) ≡ some id)
        × (wrap cap (id + 1) ≡ q.next_id))

-- getBackSuperpageId() on a well-formed queue: it throws if the queue is empty, and otherwise
-- returns the id that was given out last (the last in use, and the one before the next id round the
-- capacity), whichever of the three internal queues that id is in.
pub get_back_superpage_id_lem : (cap : ℕ) (q : SuperpageQueue) → IsQueue cap q → ReadsBack cap q
get_back_superpage_id_lem cap q v = elim (ℕ-cases q.number_of_entries) [
  | inl e ↦ inl (e, back_empty cap q v e)
  | inr (n, e) ↦ inr (
    wrap cap (v.first + n),
    back_run cap q v n e,
    youngest cap q v n e,
    ground (arith, v.next_lem, v.first_lt, v.count_le),
  )
]

valid_at-map_reset : (registry : List Entry) (i : ℕ) → valid_at (map reset_entry registry) i ≡ false
unfolding is_valid_entry reset_entry
valid_at-map_reset [] i = refl
valid_at-map_reset (e ∷ rest) zero = refl
valid_at-map_reset (e ∷ rest) (suc i) = valid_at-map_reset rest i

-- clear(), whatever the queue held, if its registry has the array's size: the queue is then
-- well-formed, empty, not full, and all of its places are available.
pub clear-IsQueue :
    (cap : ℕ) (q : SuperpageQueue)
    → 0 < cap
    → length q.registry ≡ cap
    → IsQueue cap (clear q)
      × (contents (clear q) ≡ [])
      × (is_empty (clear q) ≡ true)
      × (is_full cap (clear q) ≡ false)
      × (get_queue_available cap (clear q) ≡ cap)
unfolding clear is_empty is_full get_queue_available
clear-IsQueue cap q h l = (cleared, refl, refl, ground arith, omega arith)
  where
    cleared : IsQueue cap (clear q)
    cleared = record {
      first = 0;
      left = 0;
      first_lt = h;
      count_le = omega arith;
      left_le = omega arith;
      next_lem = ground arith;
      registry_lem = length-map reset_entry q.registry ∙ l;
      live = refl;
      pushing_lem = refl;
      marks = λ i lt. valid_at-map_reset q.registry i ∙ ground arith;
    }

-- On a well-formed queue the count and the places available make up the capacity, the count is the
-- number of ids in the filled and arrivals queues, and isFull() and isEmpty() say exactly whether
-- no place and no entry is left.
pub get_queue_available_lem :
    (cap : ℕ) (q : SuperpageQueue)
    → IsQueue cap q
    → (get_queue_count q + get_queue_available cap q ≡ cap)
      × (get_queue_count q ≡ length q.filled + length q.arrivals)
      × ((is_full cap q ≡ true) ↔ (get_queue_available cap q ≡ 0))
      × ((is_empty q ≡ true) ↔ (contents q ≡ []))
unfolding get_queue_count get_queue_available is_full is_empty
get_queue_available_lem cap q v = (
  omega (arith, v.count_le),
  omega (
    arith,
    ap length v.live,
    length-ids cap v.first q.number_of_entries,
    length-append q.filled q.arrivals,
  ),
  (λ e. ground (arith, v.count_le), λ e. ground (arith, v.count_le)),
  (
    λ e. ap (map (get_elem? q.registry)) (v.live ∙ ap (ids cap v.first) {y = 0} (ground arith)),
    λ e. ground (
      arith,
      ap length e,
      length-map (get_elem? q.registry) (q.filled ++ q.arrivals),
      ap length v.live,
      length-ids cap v.first q.number_of_entries,
    ),
  ),
)
