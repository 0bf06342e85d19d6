-- ===== src/Common/Fifo.antt =====
-- Common/include/Common/Fifo.h: a circular buffer for one writer and one reader. `nothing` is the
-- value that a slot is reset to (0 as a T); an index out of the vector is undefined. Indices are
-- int, and stay below size + 1.
pub mod Places
pub mod Contents
pub mod Methods
pub mod Turns
pub mod Order
mod Tests
use flp_prototype.Base.{
  ℕ, zero, suc, ◌+◌, ◌-◌, ◌*◌, ◌%◌, ◌^◌, Bool, true, false, ◌&&◌, ◌||◌, List, [], ◌∷◌, Option, none,
  some, Outcome, done, throws, undefined, ◌>>=◌, ◌>>◌, pure, gets, modify, defined, if◌then◌else◌,
  length, get_elem?, set, replicate, ltb, leb, ◌==◌,
}
use flp_prototype.Base.Int.{ℤ, pos, negsuc, ◌-ℤ◌, ◌+ℤ◌}

pub record Fifo (A : Type 0) : Type 0 where
  pub size : ℕ
  pub index_start : ℕ
  pub index_end : ℕ
  pub slots : List A
  pub n_in : ℕ
  pub n_out : ℕ

-- No method throws.
abbrev pub M : Type 0 → Type 0 → Type 0
M A B = Fifo A → Outcome (Fifo A) ⊥ B

abbrev pub construct : {A : Type 0} → A → ℕ → Fifo A
construct nothing s = record {
  size = s;
  index_start = 0;
  index_end = 0;
  slots = replicate (s + 1) nothing;
  n_in = 0;
  n_out = 0;
}

-- The index behind `i`: push() and pop() compute it alike.
unfoldable pub next_index : ℕ → ℕ → ℕ
next_index size i = if ltb size (i + 1) then 0 else i + 1

module _ {A : Type 0} where
  -- data[i] = a
  store : ℕ → A → M A (Unit {0})
  store i a f = elim (ltb i (length f.slots)) [
    | true ↦ done tt (record f { slots = set f.slots i a })
    | false ↦ undefined
  ]

  unfoldable pub is_empty : Fifo A → Bool
  is_empty f = f.index_end == f.index_start

  unfoldable pub is_full : Fifo A → Bool
  is_full f =
      f.index_end + 1 == f.index_start || (ltb f.size (f.index_end + 1) && f.index_start == 0)

  unfoldable pub push : A → M A ℤ
  unfolding next_index store
  push item f =
      let new = next_index f.size f.index_end in
      elim (new == f.index_start) [
        | true ↦ done (negsuc 0) f
        | false ↦
            (store new item
                >> modify
                    (λ (f : Fifo A). record f { index_end = new; n_in = (f.n_in + 1) % 2 ^ 64 })
                >> pure (pos 0))
              f
      ]

  -- pop() gives its result and what is in its argument.
  unfoldable pub pop : A → A → M A (ℤ × A)
  unfolding is_empty next_index store
  pop nothing item f =
      let new = next_index f.size f.index_start in
      elim (is_empty f) [
        | true ↦ done (negsuc 0, item) f
        | false ↦
            (modify (λ (f : Fifo A). record f { index_start = new })
                >> (λ (f : Fifo A). defined (get_elem? f.slots f.index_start) f)
                >>= λ a.
                    store new nothing
                    >> modify (λ (f : Fifo A). record f { n_out = (f.n_out + 1) % 2 ^ 64 })
                    >> pure (pos 0, a))
              f
      ]

  unfoldable pub front : A → M A (ℤ × A)
  unfolding is_empty
  front item f = elim (is_empty f) [
    | true ↦ done (negsuc 0, item) f
    | false ↦ elim (get_elem? f.slots ((f.index_start + 1) % (f.size + 1))) [
      | none ↦ undefined
      | some a ↦ done (pos 0, a) f
    ]
  ]

  unfoldable pub get_number_of_free_slots : Fifo A → ℤ
  get_number_of_free_slots f =
      if leb f.index_start f.index_end
      then pos f.size -ℤ pos f.index_end +ℤ pos f.index_start
      else pos f.index_start -ℤ pos f.index_end -ℤ pos 1

  unfoldable pub get_number_of_used_slots : Fifo A → ℤ
  unfolding get_number_of_free_slots
  get_number_of_used_slots f = pos f.size -ℤ get_number_of_free_slots f

  unfoldable pub clear : Fifo A → Fifo A
  clear f = record f { slots = []; index_start = 0; index_end = 0 }

  unfoldable pub reset_stats : Fifo A → Fifo A
  reset_stats f = record f { n_in = 0; n_out = 0 }
