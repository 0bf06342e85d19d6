-- ===== src/Base/Buffer.antt =====
-- boost::circular_buffer, a library the program calls: a sequence with a capacity. What the
-- program relies on is that push_back appends while there is room; what it does at capacity is
-- left open.
use Prim.Native.Nat.{ℕ, ◌<◌}
use mathlib.Core.Path.{◌≡◌}
use mathlib.Core.List.{List, [], ◌∷◌, ◌++◌}
use flp_prototype.Base.Lists.{length}

pub record CircularBuffer (A : Type 0) : Type 0 where
  pub push_back : ℕ → List A → A → List A
  pub push_back_room :
      (cap : ℕ) (xs : List A) (x : A) → length xs < cap → push_back cap xs x ≡ xs ++ x ∷ []
