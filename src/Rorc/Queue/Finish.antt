-- ===== src/Rorc/Queue/Finish.antt =====
-- SuperpageQueue::removeFromFilledQueue().
use native.Mathlib.Decide.{dec_lt}
use mathlib.Core.Path.{subst}
use flp_prototype.Base.{
  ℕ, ◌+◌, ◌-◌, ◌<◌, ◌≡◌, refl, sym, ◌∙◌, ap, arith, ◌==◌, List, [], ◌∷◌, ◌++◌, inl, inr, ◌⊎◌,
  List-cases, Bool, true, false, some, map, get_elem?, set, length-set, Bool-cases, done, throws,
  Outcome, undefined,
}
use flp_prototype.Rorc.Error.{Error, filled_empty}
use flp_prototype.Rorc.Queue.{
  SuperpageQueue, Entry, is_valid_entry, get_entry, reset_entry, remove_from_filled_queue,
  write_entry,
}
use flp_prototype.Rorc.Queue.Ids.{wrap, ids, ids-uncons, ids-set}
use flp_prototype.Rorc.Queue.Invariant.{
  IsQueue, contents, Marks, found_live, get_entry_live, valid_at-set_self, valid_at-set_ne,
}

abbrev pub finished : ℕ → List ℕ → Entry → SuperpageQueue → SuperpageQueue
finished id rest e q = record q {
  number_of_entries = q.number_of_entries - 1;
  registry = set q.registry id (reset_entry e);
  filled = rest;
}

finish_empty :
    (debug : Bool) (q : SuperpageQueue)
    → q.filled ≡ []
    → remove_from_filled_queue debug q ≡ throws filled_empty q
unfolding remove_from_filled_queue
finish_empty debug q p = ground (arith, p)

reset_entry-invalid : (e : Entry) → is_valid_entry (reset_entry e) ≡ false
unfolding is_valid_entry reset_entry
reset_entry-invalid e = refl

module _ (cap : ℕ) (q : SuperpageQueue) (v : IsQueue cap q) (id : ℕ) (rest : List ℕ)
    (p : q.filled ≡ id ∷ rest) where
  run_uncons : id ∷ (rest ++ q.arrivals) ≡ ids cap v.first q.number_of_entries
  run_uncons = ap (λ xs. xs ++ q.arrivals) (sym p) ∙ v.live

  oldest :
      (id ≡ v.first)
      × (0 < q.number_of_entries)
      × (rest ++ q.arrivals ≡ ids cap (wrap cap (v.first + 1)) (q.number_of_entries - 1))
  oldest = ids-uncons cap id (rest ++ q.arrivals) v.first q.number_of_entries run_uncons

  filled_found : (e : Entry) × (get_elem? q.registry id ≡ some e) × (is_valid_entry e ≡ true)
  filled_found =
      let (at, some_left, _) = oldest in
      found_live cap q v id (ground (arith, v.first_lt, v.count_le))
        (ground (arith, v.first_lt, v.count_le))

  finish_run :
      (debug : Bool) (e : Entry)
      → get_entry debug id q ≡ done e q
      → get_elem? q.registry id ≡ some e
      → remove_from_filled_queue debug q ≡ done e (finished id rest e q)
  unfolding remove_from_filled_queue write_entry
  finish_run debug e g f = ground (arith, p, g, f)

  finished-Marks :
      (e : Entry)
      → Marks cap
          (set q.registry id (reset_entry e))
          (wrap cap (v.first + 1))
          (q.number_of_entries - 1)
  finished-Marks e i h = elim (Bool-cases (i == id)) [
    | inl same ↦ ground (
      arith,
      oldest.0,
      v.first_lt,
      v.registry_lem,
      v.count_le,
      reset_entry-invalid e,
      valid_at-set_self q.registry id (reset_entry e),
    )
    | inr other ↦ ground (
      arith,
      oldest.0,
      v.first_lt,
      v.count_le,
      v.marks i h,
      valid_at-set_ne q.registry id i (reset_entry e),
    )
  ]

  finished-IsQueue : (e : Entry) → 0 < v.left → IsQueue cap (finished id rest e q)
  finished-IsQueue e gone = record {
    first = wrap cap (v.first + 1);
    left = v.left - 1;
    first_lt = ground (arith, v.first_lt);
    count_le = omega (arith, v.count_le);
    left_le = omega (arith, v.left_le);
    next_lem = ground (arith, v.next_lem, v.first_lt, v.count_le, oldest.1);
    registry_lem = length-set q.registry id (reset_entry e) ∙ v.registry_lem;
    live = oldest.2;
    pushing_lem = v.pushing_lem ∙ (λ i. ids cap (start i) (many i));
    marks = finished-Marks e;
  }
    where
      start : wrap cap (v.first + v.left) ≡ wrap cap (wrap cap (v.first + 1) + (v.left - 1))
      start = ground (arith, v.first_lt, v.left_le, v.count_le)

      many : q.number_of_entries - v.left ≡ q.number_of_entries - 1 - (v.left - 1)
      many = omega arith

  contents-finished :
      (e : Entry)
      → get_elem? q.registry id ≡ some e
      → contents q ≡ some e ∷ contents (finished id rest e q)
  contents-finished e found =
      ap (λ xs. map (get_elem? q.registry) (xs ++ q.arrivals)) p ∙ (λ i. found i ∷ kept i)
    where
      kept :
          map (get_elem? q.registry) (rest ++ q.arrivals)
          ≡ map (get_elem? (set q.registry id (reset_entry e))) (rest ++ q.arrivals)
      kept = rw oldest.2 (
          sym (
            ids-set cap q.registry (reset_entry e) id (wrap cap (v.first + 1))
              (q.number_of_entries - 1) (ground (arith, v.first_lt))
              (ground (arith, oldest.0, v.first_lt))
              (ground (arith, oldest.0, v.first_lt, v.count_le))))

-- It throws, or takes the oldest entry out, whose place is free then, and leaves the others.
abbrev pub TakesOldest : Bool → (cap : ℕ) (q : SuperpageQueue) → IsQueue cap q → Type 0
TakesOldest debug cap q v =
    ((q.filled ≡ []) × (remove_from_filled_queue debug q ≡ throws filled_empty q))
    ⊎ ((id : ℕ) × (rest : List ℕ) × (e : Entry) × (q.filled ≡ id ∷ rest)
        × (get_elem? q.registry id ≡ some e)
        × (remove_from_filled_queue debug q ≡ done e (finished id rest e q))
        × (contents q ≡ some e ∷ contents (finished id rest e q))
        × (is_valid_entry (reset_entry e) ≡ false)
        × ((v.left ≡ 0) ⊎ IsQueue cap (finished id rest e q)))

-- removeFromFilledQueue() on a well-formed queue, in a debug build or not: it throws and changes
-- nothing if no superpage is filled; otherwise it returns the entry of the front of the filled queue, which was added first of those
-- in the queue, and leaves the others in their order: this id leaves the filled queue, one entry less is counted, and its place in
-- the registry is reset, which makes it invalid. The queue is well-formed then, if the oldest superpage has left the pushing queue.
pub remove_from_filled_queue_lem :
    (debug : Bool) (cap : ℕ) (q : SuperpageQueue) (v : IsQueue cap q) → TakesOldest debug cap q v
remove_from_filled_queue_lem debug cap q v = elim (List-cases q.filled) [
  | inl p ↦ inl (p, finish_empty debug q p)
  | inr (id, rest, p) ↦
      let (e, found, valid) = filled_found cap q v id rest p in
      inr (
        id,
        rest,
        e,
        p,
        found,
        finish_run cap q v id rest p debug e (get_entry_live debug q id e found valid) found,
        contents-finished cap q v id rest p e found,
        reset_entry-invalid e,
        elim (dec_lt 0 v.left) [
          | yes gone ↦ inr (finished-IsQueue cap q v id rest p e gone)
          | no still ↦ inl (omega arith)
        ],
      )
]

abbrev done_state : Outcome SuperpageQueue Error Entry → SuperpageQueue → SuperpageQueue
done_state (done e q) d = q
done_state (throws e q) d = d
done_state undefined d = d

-- removeFromFilledQueue() keeps a well-formed queue well-formed, in a debug build or not, if the
-- oldest superpage has left the pushing queue.
pub remove_from_filled_queue-IsQueue :
    (debug : Bool) (cap : ℕ) (q q' : SuperpageQueue) (e : Entry) (v : IsQueue cap q)
    → 0 < v.left
    → remove_from_filled_queue debug q ≡ done e q'
    → IsQueue cap q'
remove_from_filled_queue-IsQueue debug cap q q' e v gone run = elim (List-cases q.filled) [
  | inl p ↦ absurd (cc (sym (finish_empty debug q p) ∙ run))
  | inr (id, rest, p) ↦
      let (x, found, valid) = filled_found cap q v id rest p in
      subst (IsQueue cap)
        (ap (λ o. done_state o q)
          (sym
              (finish_run cap q v id rest p debug x (get_entry_live debug q id x found valid) found)
            ∙ run))
        (finished-IsQueue cap q v id rest p x gone)
]
