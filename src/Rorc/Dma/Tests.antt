-- ===== src/Rorc/Dma/Tests.antt =====
-- The theorems of the channel base at concrete calls and superpages.
use flp_prototype.Base.{ℕ, ◌+◌, ◌<◌, ◌≡◌, refl, arith, false, [], ◌∷◌, Option, none, some, done}
use flp_prototype.Rorc.Error.{Error, bar_access_failed}
use flp_prototype.Rorc.Superpage.{Superpage}
use flp_prototype.Rorc.Dma.{Call, construct, internal, check_superpage}
use flp_prototype.Rorc.Dma.Protocol.{Log, IsSound, start, stop, reset, serve_all, serve_all-IsSound}
use flp_prototype.Rorc.Dma.Check.{check_superpage_overflow}

-- The first start of the device throws.
abbrev first_fails : Log → Call → Option Error
first_fails [] call = some bar_access_failed
first_fails (c ∷ log) call = none

serve_all-IsSound_example :
    IsSound
      (serve_all first_fails (start ∷ start ∷ reset internal ∷ stop ∷ stop ∷ []) (construct []))
serve_all-IsSound_example =
    serve_all-IsSound first_fails (start ∷ start ∷ reset internal ∷ stop ∷ stop ∷ [])

abbrev page : ℕ → ℕ → Superpage
page offset size = record {
  offset = offset;
  size = size;
  user_data = 0;
  received = 0;
  ready = false;
}

-- 2 ^ 64 - 32768 and 32768: the sum is 0.
check_superpage_overflow_example :
    (check_superpage {S = ℕ} 0x10_0000 (page 18446744073709518848 0x8000) 7 ≡ done tt 7)
    × (0x10_0000 < 18446744073709518848 + 0x8000)
check_superpage_overflow_example =
    check_superpage_overflow 0x10_0000 (page 18446744073709518848 0x8000) 7 (omega arith) refl refl
      (omega arith) (omega arith) (omega arith) (omega arith)
