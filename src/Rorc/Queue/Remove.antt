-- ===== src/Rorc/Queue/Remove.antt =====
-- SuperpageQueue::removeFromPushingQueue().
use flp_prototype.Base.{
  ℕ, ◌+◌, ◌-◌, ◌<◌, ◌≡◌, refl, sym, ◌∙◌, arith, List, [], ◌∷◌, inl, inr, ◌⊎◌, if◌then◌else◌,
  List-cases, Bool, true, false, some, get_elem?, done, throws,
}
use flp_prototype.Rorc.Error.{pushing_empty, not_completely_pushed}
use flp_prototype.Rorc.Queue.{
  SuperpageQueue, Entry, is_valid_entry, is_pushed, get_entry, remove_from_pushing_queue,
}
use flp_prototype.Rorc.Queue.Ids.{wrap, ids, ids-uncons}
use flp_prototype.Rorc.Queue.Invariant.{IsQueue, found_live, get_entry_live}

remove_empty :
    (debug : Bool) (q : SuperpageQueue)
    → q.pushing ≡ []
    → remove_from_pushing_queue debug q ≡ throws pushing_empty q
unfolding remove_from_pushing_queue
remove_empty debug q p = ground (arith, p)

module _ (debug : Bool) (cap : ℕ) (q : SuperpageQueue) (v : IsQueue cap q) where
  pushing_front :
      (id : ℕ) (rest : List ℕ)
      → q.pushing ≡ id ∷ rest
      → (id ≡ wrap cap (v.first + v.left))
        × (v.left < q.number_of_entries)
        × (rest ≡ ids cap (wrap cap (v.first + (v.left + 1))) (q.number_of_entries - (v.left + 1)))
  pushing_front id rest e =
      let (at, some_left, remains) = ids-uncons cap id rest _ _ (sym e ∙ v.pushing_lem) in
      (at, omega arith, remains ∙ (λ i. ids cap (next i) (fewer i)))
    where
      next : wrap cap (wrap cap (v.first + v.left) + 1) ≡ wrap cap (v.first + (v.left + 1))
      next = ground (arith, v.first_lt, v.left_le, v.count_le)

      fewer : q.number_of_entries - v.left - 1 ≡ q.number_of_entries - (v.left + 1)
      fewer = omega arith

  pushing_rest-IsQueue :
      (id : ℕ) (rest : List ℕ) → q.pushing ≡ id ∷ rest → IsQueue cap (record q { pushing = rest })
  pushing_rest-IsQueue id rest e =
      let (_, some_left, remains) = pushing_front id rest e in
      record {
        first = v.first;
        left = v.left + 1;
        first_lt = v.first_lt;
        count_le = v.count_le;
        left_le = omega arith;
        next_lem = v.next_lem;
        registry_lem = v.registry_lem;
        live = v.live;
        pushing_lem = remains;
        marks = v.marks;
      }

  pushing_found :
      (id : ℕ) (rest : List ℕ)
      → q.pushing ≡ id ∷ rest
      → (e : Entry) × (get_elem? q.registry id ≡ some e) × (is_valid_entry e ≡ true)
  pushing_found id rest e =
      let (at, some_left, _) = pushing_front id rest e in
      found_live cap q v id (ground (arith, v.first_lt, v.count_le))
        (ground (arith, v.first_lt, v.count_le))

  remove_run :
      (id : ℕ) (rest : List ℕ) (e : Entry) (b : Bool)
      → q.pushing ≡ id ∷ rest
      → get_entry debug id q ≡ done e q
      → is_pushed e ≡ b
      → remove_from_pushing_queue debug q
        ≡ (if b then done id (record q { pushing = rest }) else throws not_completely_pushed q)
  unfolding remove_from_pushing_queue
  remove_run id rest e true p g h = ground (arith, p, g, h)
  remove_run id rest e false p g h = ground (arith, p, g, h)

abbrev pub RemovesPushed : Bool → ℕ → SuperpageQueue → Type 0
RemovesPushed debug cap q =
    ((q.pushing ≡ []) × (remove_from_pushing_queue debug q ≡ throws pushing_empty q))
    ⊎ ((id : ℕ) × (rest : List ℕ) × (e : Entry) × (q.pushing ≡ id ∷ rest)
        × (get_elem? q.registry id ≡ some e)
        × (remove_from_pushing_queue debug q ≡ (
            if is_pushed e
            then done id (record q { pushing = rest })
            else throws not_completely_pushed q))
        × IsQueue cap (record q { pushing = rest }))

-- removeFromPushingQueue() on a well-formed queue, in a debug build or not: it throws, and changes
-- nothing, if the pushing queue is empty or if the superpage at its front has unpushed pages;
-- otherwise it drops that superpage from the pushing queue, changes nothing else, and the queue
-- stays well-formed.
pub remove_from_pushing_queue_lem :
    (debug : Bool) (cap : ℕ) (q : SuperpageQueue) → IsQueue cap q → RemovesPushed debug cap q
remove_from_pushing_queue_lem debug cap q v = elim (List-cases q.pushing) [
  | inl p ↦ inl (p, remove_empty debug q p)
  | inr (id, rest, p) ↦
      let (e, found, valid) = pushing_found debug cap q v id rest p in
      inr (
        id,
        rest,
        e,
        p,
        found,
        remove_run debug cap q v id rest e (is_pushed e) p (get_entry_live debug q id e found valid)
            refl,
        pushing_rest-IsQueue debug cap q v id rest p,
      )
]
