-- ===== src/Common/Fifo/Methods.antt =====
-- push(), pop(), front() and the counts of a FIFO with no other thread at work.
use native.Mathlib.Decide.{dec_lt}
use flp_prototype.Base.{
  ℕ, suc, ◌+◌, ◌-◌, ◌%◌, ◌^◌, ◌<◌, ◌≡◌, ◌≢◌, ◌↔◌, ◌⊎◌, inl, inr, refl, sym, ◌∙◌, ap, arith, true,
  List, [], ◌∷◌, ◌++◌, done, undefined, length, length-set, set,
}
use flp_prototype.Base.Int.{pos, negsuc}
use flp_prototype.Common.Fifo.{
  Fifo, next_index, is_empty, is_full, push, pop, front, get_number_of_free_slots,
  get_number_of_used_slots, clear,
}
use flp_prototype.Common.Fifo.Places.{
  place, next_index-le, place-next_index, place-zero, place-one, place-ne, place-mod,
}
use flp_prototype.Common.Fifo.Contents.{
  IsFifo, Holds-set, after_push, push_run, push_full, after_push-IsFifo,
}

-- What push() does with a FIFO of these items.
abbrev pub Appends : {A : Type 0} → Fifo A → List A → A → Type 0
Appends f xs a =
    ((length xs ≡ f.size) × (push a f ≡ done (negsuc 0) f))
    ⊎ ((g : Fifo _) × (push a f ≡ done (pos 0) g)
        × IsFifo g (xs ++ a ∷ [])
        × (g.size ≡ f.size)
        × (g.n_in ≡ (f.n_in + 1) % 2 ^ 64)
        × (g.n_out ≡ f.n_out))

-- push() on a FIFO: with as many items as its size it returns -1 and changes nothing; otherwise it
-- returns 0, the item stands behind the others, and it is counted, modulo 2 ^ 64. No slot out of the
-- vector is written.
pub fifo_push_lem : {A : Type 0} (f : Fifo A) (xs : List A) (a : A) → IsFifo f xs → Appends f xs a
fifo_push_lem f xs a v = elim (dec_lt (length xs) f.size) [
  | yes room ↦ inr (
    after_push f xs v a,
    push_run f xs v a room,
    after_push-IsFifo f xs v a room,
    refl,
    refl,
    refl,
  )
  | no full ↦ inl (omega (arith, v.room), push_full f xs v a (omega (arith, v.room)))
]

module _ {A : Type 0} (nothing : A) (f : Fifo A) where
  -- The FIFO without its first item.
  abbrev after_pop : Fifo A
  after_pop = record f {
    slots = set f.slots (next_index f.size f.index_start) nothing;
    index_start = next_index f.size f.index_start;
    n_out = (f.n_out + 1) % 2 ^ 64;
  }

  after_pop-IsFifo : (x : A) (xs : List A) → IsFifo f (x ∷ xs) → IsFifo after_pop xs
  after_pop-IsFifo x xs v = record {
    slots_lem = length-set f.slots (next_index f.size f.index_start) nothing ∙ v.slots_lem;
    start_le = next_index-le f.size f.index_start;
    room = omega (arith, v.room);
    end_lem =
        v.end_lem
        ∙ ap (place f.size f.index_start)
            (let e : suc (length xs) ≡ length xs + 1 = omega arith in e)
        ∙ sym
            (place-next_index f.size f.index_start (length xs) v.start_le (omega (arith, v.room)));
    holds =
        Holds-set f.size (next_index f.size f.index_start) (next_index f.size f.index_start) f.slots
          xs nothing away (next_index-le f.size f.index_start) (omega (arith, v.room)) v.holds.1;
  }
    where
      away :
          (n : ℕ)
          → n < length xs
          → place f.size (next_index f.size f.index_start) (n + 1) ≢ next_index f.size f.index_start
      away n k e =
          place-ne f.size (next_index f.size f.index_start) 0 (n + 1)
            (next_index-le f.size f.index_start) (omega arith) (omega (arith, v.room))
            (place-zero f.size (next_index f.size f.index_start)
                (next_index-le f.size f.index_start)
              ∙ sym e)

  pop_run :
      (item x : A) (xs : List A)
      → IsFifo f (x ∷ xs)
      → pop nothing item f ≡ done (pos 0, x) after_pop
  unfolding pop
  pop_run item x xs v = ground (
    arith,
    v.slots_lem,
    v.end_lem,
    v.start_le,
    v.holds.0,
    next_index-le f.size f.index_start,
    place-zero f.size f.index_start v.start_le,
    place-ne f.size f.index_start 0 (suc (length xs)) v.start_le (omega arith) v.room,
  )

  pop_empty : (item : A) → IsFifo f [] → pop nothing item f ≡ done (negsuc 0, item) f
  unfolding pop
  pop_empty item v =
      ground (arith, v.end_lem, v.start_le, place-zero f.size f.index_start v.start_le)

-- What pop() does with a FIFO of these items.
abbrev pub TakesFirst : {A : Type 0} → A → A → Fifo A → List A → Type 0
TakesFirst nothing item f [] = pop nothing item f ≡ done (negsuc 0, item) f
TakesFirst nothing item f (x ∷ xs) =
    (g : Fifo _) × (pop nothing item f ≡ done (pos 0, x) g)
    × IsFifo g xs
    × (g.size ≡ f.size)
    × (g.n_out ≡ (f.n_out + 1) % 2 ^ 64)
    × (g.n_in ≡ f.n_in)

-- pop() on a FIFO: with no item it returns -1 and changes nothing; otherwise it returns 0 and gives the
-- first item, the others stay, and it is counted, modulo 2 ^ 64.
pub fifo_pop_lem :
    {A : Type 0} (nothing item : A) (f : Fifo A) (xs : List A)
    → IsFifo f xs
    → TakesFirst nothing item f xs
fifo_pop_lem nothing item f [] v = pop_empty nothing f item v
fifo_pop_lem nothing item f (x ∷ xs) v = (
  after_pop nothing f,
  pop_run nothing f item x xs v,
  after_pop-IsFifo nothing f x xs v,
  refl,
  refl,
  refl,
)

-- What front() gives, and the counts.
abbrev pub Shows : {A : Type 0} → A → Fifo A → List A → Type 0
Shows item f [] = front item f ≡ done (negsuc 0, item) f
Shows item f (x ∷ xs) = front item f ≡ done (pos 0, x) f

-- front() gives the first item of a FIFO and leaves it there, or returns -1 if there is none.
pub fifo_front_lem :
    {A : Type 0} (item : A) (f : Fifo A) (xs : List A) → IsFifo f xs → Shows item f xs
unfolding front
fifo_front_lem item f [] v =
    ground (arith, v.end_lem, v.start_le, place-zero f.size f.index_start v.start_le)
fifo_front_lem item f (x ∷ xs) v = ground (
  arith,
  v.end_lem,
  v.start_le,
  v.holds.0,
  place-mod f.size f.index_start v.start_le,
  place-one f.size f.index_start v.start_le,
  place-zero f.size f.index_start v.start_le,
  place-ne f.size f.index_start 0 (suc (length xs)) v.start_le (omega arith) v.room,
)

-- The counts of a FIFO are those of its items: it is empty exactly with none, full exactly with as
-- many as its size, and the used and the free slots are as many as the items and as the rest of its
-- size.
pub fifo_counts_lem :
    {A : Type 0} (f : Fifo A) (xs : List A)
    → IsFifo f xs
    → ((is_empty f ≡ true) ↔ (length xs ≡ 0))
      × ((is_full f ≡ true) ↔ (length xs ≡ f.size))
      × (get_number_of_used_slots f ≡ pos (length xs))
      × (get_number_of_free_slots f ≡ pos (f.size - length xs))
unfolding is_empty is_full get_number_of_used_slots
fifo_counts_lem f xs v = (
  (
    λ e. ground (arith, v.end_lem, v.start_le, v.room),
    λ e. ground (arith, v.end_lem, v.start_le, v.room),
  ),
  (
    λ e. ground (arith, v.end_lem, v.start_le, v.room),
    λ e. ground (arith, v.end_lem, v.start_le, v.room),
  ),
  ground (arith, v.end_lem, v.start_le, v.room),
  ground (arith, v.end_lem, v.start_le, v.room),
)

-- clear() takes the slots away with their contents: whatever the FIFO held, it is empty then, and a
-- push() into it, of a FIFO of some size, writes out of the vector.
pub fifo_clear_lem :
    {A : Type 0} (f : Fifo A) (a : A)
    → 0 < f.size
    → (is_empty (clear f) ≡ true) × (push a (clear f) ≡ undefined)
unfolding clear is_empty push next_index
fifo_clear_lem f a h = (refl, ground arith)
