-- ===== src/Rorc/Superpage.antt =====
-- RORC/include/ReadoutCard/Superpage.h and the arithmetic of RORC/src/Utilities/Util.h.
use flp_prototype.Base.{ℕ, ◌%◌, Bool, ◌&&◌, leb, ◌==◌}

-- Sizes and offsets are size_t; `user_data` is the address of the user's pointer, 0 for nullptr.
pub record Superpage : Type 0 where
  pub offset : ℕ
  pub size : ℕ
  pub user_data : ℕ
  pub received : ℕ
  pub ready : Bool

unfoldable pub is_ready : Superpage → Bool
is_ready s = s.ready

unfoldable pub is_filled : Superpage → Bool
is_filled s = s.received == s.size

unfoldable pub is_multiple : ℕ → ℕ → Bool
is_multiple x y = leb y x && (x % y == 0)
