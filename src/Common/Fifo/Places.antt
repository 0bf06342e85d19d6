-- ===== src/Common/Fifo/Places.antt =====
-- The slots of the circular buffer, counted from the last one taken.
use native.Mathlib.Decide.{dec_lt}
use native.Mathlib.Nat.{mod-eq_of_lt, mod_self}
use flp_prototype.Base.{ℕ, ◌+◌, ◌-◌, ◌%◌, ◌<◌, ◌≤◌, ◌≡◌, ◌≢◌, ap, arith, if◌then◌else◌, leb}
use flp_prototype.Common.Fifo.{next_index}

-- the slot `n` behind slot `start`, in a buffer of `size + 1` slots
abbrev pub place : ℕ → ℕ → ℕ → ℕ
place size start n = if leb (start + n) size then start + n else start + n - (size + 1)

pub place-le : (size start n : ℕ) → start ≤ size → n ≤ size + 1 → place size start n ≤ size
place-le size start n h k = ground arith

pub next_index-place :
    (size start n : ℕ)
    → start ≤ size
    → n ≤ size
    → next_index size (place size start n) ≡ place size start (n + 1)
unfolding next_index
next_index-place size start n h k = ground arith

pub next_index-le : (size i : ℕ) → next_index size i ≤ size
unfolding next_index
next_index-le size i = ground arith

-- Counting from the next slot.
pub place-next_index :
    (size start n : ℕ)
    → start ≤ size
    → n ≤ size
    → place size (next_index size start) n ≡ place size start (n + 1)
unfolding next_index
place-next_index size start n h k = ground arith

pub place-zero : (size start : ℕ) → start ≤ size → place size start 0 ≡ start
place-zero size start h = ground arith

pub place-one : (size start : ℕ) → start ≤ size → place size start 1 ≡ next_index size start
unfolding next_index
place-one size start h = ground arith

-- All the way round.
pub place-round : (size start : ℕ) → start ≤ size → place size start (size + 1) ≡ start
place-round size start h = ground arith

-- The slots are different.
pub place-ne :
    (size start m n : ℕ) → start ≤ size → m < n → n ≤ size → place size start m ≢ place size start n
place-ne size start m n h k l = λ e. ground arith

pub place-mod : (size start : ℕ) → start ≤ size → (start + 1) % (size + 1) ≡ place size start 1
place-mod size start h = elim (dec_lt start size) [
  | yes lt ↦ ground (arith, mod-eq_of_lt {n = start + 1} {m = size + 1} (omega arith))
  | no ge ↦ ground (
    arith,
    mod_self (size + 1),
    ap (λ n. (n + 1) % (size + 1)) (let e : start ≡ size = omega arith in e),
  )
]
