-- ===== src/Common/Fifo/Contents.antt =====
-- What a FIFO holds, and each method on it with no other thread at work.
use flp_prototype.Base.{
  ℕ, suc, ◌+◌, ◌%◌, ◌^◌, ◌<◌, ◌≤◌, ◌≡◌, ◌≢◌, ◌↔◌, sym, ◌∙◌, ap, arith, List, [], ◌∷◌, ◌++◌, some,
  done, length, length-append, length-set, length-replicate, get_elem?, get_elem?-set_self,
  get_elem?-set_ne, set,
}
use flp_prototype.Base.Int.{pos, negsuc}
use flp_prototype.Common.Fifo.{Fifo, construct, next_index, push}
use flp_prototype.Common.Fifo.Places.{
  place, place-le, next_index-place, next_index-le, place-next_index, place-zero, place-one,
  place-round, place-ne,
}

-- The slots behind `start` hold these items, one after the other.
abbrev pub Holds : {A : Type 0} → ℕ → List A → ℕ → List A → Type 0
Holds size slots start [] = Unit {0}
Holds size slots start (x ∷ xs) =
    (get_elem? slots (next_index size start) ≡ some x) × Holds size slots (next_index size start) xs

pub record IsFifo {A : Type 0} (f : Fifo A) (xs : List A) : Type 0 where
  pub slots_lem : length f.slots ≡ f.size + 1
  pub start_le : f.index_start ≤ f.size
  pub room : length xs ≤ f.size
  pub end_lem : f.index_end ≡ place f.size f.index_start (length xs)
  pub holds : Holds f.size f.slots f.index_start xs

-- Writing another slot leaves the items.
pub Holds-set :
    {A : Type 0} (size start i : ℕ) (slots xs : List A) (a : A)
    → ((n : ℕ) → n < length xs → place size start (n + 1) ≢ i)
    → start ≤ size
    → length xs ≤ size
    → Holds size slots start xs
    → Holds size (set slots i a) start xs
Holds-set size start i slots [] a away h r v = tt
Holds-set size start i slots (x ∷ xs) a away h r v = (
  get_elem?-set_ne slots i (next_index size start) a
        (λ e. away 0 (omega arith) (place-one size start h ∙ sym e))
      ∙ v.0,
  Holds-set size (next_index size start) i slots xs a
      (λ n k e.
        away (n + 1) (omega arith) (sym (place-next_index size start (n + 1) h (omega arith)) ∙ e))
      (next_index-le size start) (omega arith) v.1,
)

-- An item behind the last one.
pub Holds-append :
    {A : Type 0} (size start : ℕ) (slots xs : List A) (a : A)
    → start ≤ size
    → length xs < size
    → get_elem? slots (place size start (length xs + 1)) ≡ some a
    → Holds size slots start xs
    → Holds size slots start (xs ++ a ∷ [])
Holds-append size start slots [] a h r at v =
    (ap (get_elem? slots) (sym (place-one size start h)) ∙ at, tt)
Holds-append size start slots (x ∷ xs) a h r at v = (
  v.0,
  Holds-append size (next_index size start) slots xs a (next_index-le size start) (omega arith)
      (ap (get_elem? slots) (place-next_index size start (length xs + 1) h (omega arith))
        ∙ ap (λ n. get_elem? slots (place size start n))
            (let e : length xs + 1 + 1 ≡ suc (length xs) + 1 = omega arith in e)
        ∙ at)
      v.1,
)

-- The next slot is the reader's only if all slots are in use.
pub full_iff :
    (size start n : ℕ)
    → start ≤ size
    → n ≤ size
    → (next_index size (place size start n) ≡ start) ↔ (n ≡ size)
unfolding next_index
full_iff size start n h k = ground arith

pub empty_iff :
    (size start n : ℕ) → start ≤ size → n ≤ size → (place size start n ≡ start) ↔ (n ≡ 0)
empty_iff size start n h k = ground arith

pub construct-IsFifo : {A : Type 0} (nothing : A) (size : ℕ) → IsFifo (construct nothing size) []
construct-IsFifo nothing size = record {
  slots_lem = length-replicate (size + 1) nothing;
  start_le = omega arith;
  room = omega arith;
  end_lem = ground arith;
  holds = tt;
}

module _ {A : Type 0} (f : Fifo A) (xs : List A) (v : IsFifo f xs) where
  -- The FIFO with one more item.
  abbrev pub after_push : A → Fifo A
  after_push a = record f {
    slots = set f.slots (place f.size f.index_start (length xs + 1)) a;
    index_end = place f.size f.index_start (length xs + 1);
    n_in = (f.n_in + 1) % 2 ^ 64;
  }

  pub push_run : (a : A) → length xs < f.size → push a f ≡ done (pos 0) (after_push a)
  unfolding push
  push_run a h = ground (
    arith,
    v.slots_lem,
    v.end_lem,
    v.start_le,
    next_index-place f.size f.index_start (length xs) v.start_le (omega arith),
    place-le f.size f.index_start (length xs + 1) v.start_le (omega arith),
    place-zero f.size f.index_start v.start_le,
    place-ne f.size f.index_start 0 (length xs + 1) v.start_le (omega arith) (omega arith),
  )

  pub push_full : (a : A) → length xs ≡ f.size → push a f ≡ done (negsuc 0) f
  unfolding push
  push_full a h = ground (
    arith,
    v.end_lem,
    v.start_le,
    next_index-place f.size f.index_start (length xs) v.start_le (omega arith),
    ap (λ n. place f.size f.index_start (n + 1)) h,
    place-round f.size f.index_start v.start_le,
  )

  pub after_push-IsFifo : (a : A) → length xs < f.size → IsFifo (after_push a) (xs ++ a ∷ [])
  after_push-IsFifo a h = record {
    slots_lem = length-set f.slots (place f.size f.index_start (length xs + 1)) a ∙ v.slots_lem;
    start_le = v.start_le;
    room = omega (arith, length-append xs (a ∷ []));
    end_lem = ap (place f.size f.index_start) (sym (length-append xs (a ∷ [])));
    holds =
        Holds-append f.size f.index_start
          (set f.slots (place f.size f.index_start (length xs + 1)) a) xs a v.start_le h
          (get_elem?-set_self f.slots (place f.size f.index_start (length xs + 1)) a (
            omega (
              arith,
              v.slots_lem,
              place-le f.size f.index_start (length xs + 1) v.start_le (omega arith),
            )))
          (Holds-set f.size f.index_start (place f.size f.index_start (length xs + 1)) f.slots xs a
            (λ n k.
              place-ne f.size f.index_start (n + 1) (length xs + 1) v.start_le (omega arith)
                (omega arith))
            v.start_le v.room v.holds);
  }
