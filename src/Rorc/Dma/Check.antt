-- ===== src/Rorc/Dma/Check.antt =====
-- What checkSuperpage() lets through.
use flp_prototype.Base.{ℕ, ◌+◌, ◌%◌, ◌^◌, ◌<◌, ◌≤◌, ◌≡◌, ◌↔◌, arith, done, Ensures}
use flp_prototype.Rorc.Superpage.{Superpage}
use flp_prototype.Rorc.Dma.{check_superpage}

-- A superpage that lies in the buffer, in whole units of 32 KiB, at a 32-bit boundary.
pub record IsGood (buffer_size : ℕ) (p : Superpage) : Type 0 where
  pub some_size : 0 < p.size
  pub units : p.size % 32768 ≡ 0
  pub inside : p.offset + p.size ≤ buffer_size
  pub aligned : p.offset % 4 ≡ 0

-- checkSuperpage() passes exactly the superpages that lie in the buffer, are a whole number of
-- 32 KiB units, at least one, and start at a 32-bit boundary, if offset and size do not overflow
-- size_t together; and it leaves its object as it was.
pub check_superpage_lem :
    {S : Type 0} (buffer_size : ℕ) (p : Superpage) (s : S)
    → p.offset + p.size < 2 ^ 64
    → (check_superpage buffer_size p s ≡ done tt s) ↔ IsGood buffer_size p
unfolding check_superpage
check_superpage_lem buffer_size p s h = (λ e. ground arith, λ g. ground arith)

-- Where the sum of offset and size overflows size_t, checkSuperpage() looks at what is left of it
-- and passes a superpage that does not lie in the buffer.
pub check_superpage_overflow :
    {S : Type 0} (buffer_size : ℕ) (p : Superpage) (s : S)
    → 32768 ≤ p.size
    → p.size % 32768 ≡ 0
    → p.offset % 4 ≡ 0
    → 2 ^ 64 ≤ p.offset + p.size
    → p.offset + p.size ≤ 2 ^ 64 + buffer_size
    → p.offset + p.size < 2 ^ 65
    → buffer_size < 2 ^ 64
    → (check_superpage buffer_size p s ≡ done tt s) × (buffer_size < p.offset + p.size)
unfolding check_superpage
check_superpage_overflow buffer_size p s a b c d e f g = (ground arith, omega arith)

-- checkSuperpage() leaves its object as it was, and passes good superpages only.
pub check_superpage-Ensures :
    {S : Type 0} (buffer_size : ℕ) (p : Superpage) (s : S)
    → p.offset + p.size < 2 ^ 64
    → Ensures
        (check_superpage buffer_size p s)
        (λ u t. (t ≡ s) × IsGood buffer_size p)
        (λ e t. t ≡ s)
unfolding check_superpage
check_superpage-Ensures buffer_size p s h = ground arith
