-- ===== src/Rorc/Dummy/Tests.antt =====
-- The theorems of the dummy channel at a channel with one superpage in each queue.
use flp_prototype.Base.{ℕ, refl, arith, [], ◌∷◌, ◌++◌, Bool, true, false}
use flp_prototype.Base.Buffer.{CircularBuffer}
use flp_prototype.Rorc.Superpage.{Superpage}
use flp_prototype.Rorc.Dummy.{DummyDmaChannel}
use flp_prototype.Rorc.Dummy.Fill.{IsDummy}

abbrev appending : CircularBuffer Superpage
appending = record { push_back = λ c xs x. xs ++ x ∷ []; push_back_room = λ c xs x h. refl }

abbrev page : ℕ → Bool → Superpage
page offset ready = record {
  offset = offset;
  size = 0x8000;
  user_data = 0;
  received = 0;
  ready = ready;
}

abbrev one_each : DummyDmaChannel
one_each = record { transfer_queue = page 0x8000 false ∷ []; ready_queue = page 0 true ∷ [] }

one_each-IsDummy : IsDummy one_each
one_each-IsDummy = record { transfer_le = omega arith; ready_le = omega arith }
