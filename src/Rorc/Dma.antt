-- ===== src/Rorc/Dma.antt =====
-- RORC/src/DmaChannelPdaBase.cxx: the state of the DMA in front of the device's own start, stop and
-- reset, and the check of a superpage; RORC/src/DmaChannelBase.cxx: the check of the channel number.
pub mod Protocol
pub mod Check
pub mod Opening
mod Tests
use flp_prototype.Base.{
  ℕ, ◌+◌, ◌%◌, ◌^◌, Bool, true, false, not, List, [], ◌∷◌, ◌==◌, ltb, Outcome, done, throws,
  undefined, ◌>>◌, throw_if, if◌then◌else◌,
}
use flp_prototype.Rorc.Error.{
  Error, channel_not_supported, reset_in_unknown_state, reset_while_started, size_zero,
  size_not_multiple_32k, superpage_out_of_range, offset_not_aligned,
}
use flp_prototype.Rorc.Superpage.{Superpage, is_multiple}

-- ResetLevel::type
pub data ResetLevel : Type 0 where
  nothing internal internal_diu internal_diu_siu : ResetLevel

-- DmaState::type
pub data DmaState : Type 0 where
  unknown stopped started : DmaState

-- What a channel's subclass implements.
pub data Call : Type 0 where
  device_start_dma device_stop_dma : Call
  device_reset_channel : ResetLevel → Call

-- A channel: the DMA state beside the subclass's state.
pub record Channel (S : Type 0) : Type 0 where
  pub dma_state : DmaState
  pub device : S

abbrev pub construct : {S : Type 0} → S → Channel S
construct s = record { dma_state = stopped; device = s }

module _ {S : Type 0} (run : Call → S → Outcome S Error (Unit {0})) where
  -- A call of the subclass, after which the channel's own state is written.
  forward : Call → DmaState → Channel S → Outcome (Channel S) Error (Unit {0})
  forward call next c = elim (run call c.device) [
    | done u s ↦ done u (record { dma_state = next; device = s })
    | throws e s ↦ throws e (record { dma_state = c.dma_state; device = s })
    | undefined ↦ undefined
  ]

  start_from : DmaState → Channel S → Outcome (Channel S) Error (Unit {0})
  unfolding forward
  start_from unknown c = done tt (record c { dma_state = started })
  start_from started c = done tt (record c { dma_state = started })
  start_from stopped c = forward device_start_dma started c

  unfoldable pub start_dma : Channel S → Outcome (Channel S) Error (Unit {0})
  unfolding start_from
  start_dma c = start_from c.dma_state c

  stop_from : DmaState → Channel S → Outcome (Channel S) Error (Unit {0})
  unfolding forward
  stop_from unknown c = done tt (record c { dma_state = stopped })
  stop_from stopped c = done tt (record c { dma_state = stopped })
  stop_from started c = forward device_stop_dma stopped c

  unfoldable pub stop_dma : Channel S → Outcome (Channel S) Error (Unit {0})
  unfolding stop_from
  stop_dma c = stop_from c.dma_state c

  reset_from : DmaState → ResetLevel → Channel S → Outcome (Channel S) Error (Unit {0})
  unfolding forward
  reset_from unknown level c = throws reset_in_unknown_state c
  reset_from started level c = throws reset_while_started c
  reset_from stopped level c = forward (device_reset_channel level) stopped c

  unfoldable pub reset_channel : ResetLevel → Channel S → Outcome (Channel S) Error (Unit {0})
  unfolding reset_from
  reset_channel level c = reset_from c.dma_state level c

-- checkSuperpage(), with the size of the buffer; the sum is a size_t.
unfoldable pub check_superpage : {S : Type 0} → ℕ → Superpage → S → Outcome S Error (Unit {0})
unfolding is_multiple
check_superpage buffer_size p =
    throw_if (p.size == 0) size_zero
    >> throw_if (not (is_multiple p.size 32768)) size_not_multiple_32k
    >> throw_if (ltb buffer_size ((p.offset + p.size) % 2 ^ 64)) superpage_out_of_range
    >> throw_if (not (p.offset % 4 == 0)) offset_not_aligned

-- checkChannelNumber(), with the set of allowed channels as a list
pub contains : ℕ → List ℕ → Bool
contains n [] = false
contains n (c ∷ cs) = if c == n then true else contains n cs

unfoldable pub check_channel_number : {S : Type 0} → List ℕ → ℕ → S → Outcome S Error (Unit {0})
unfolding contains
check_channel_number allowed n = throw_if (not (contains n allowed)) channel_not_supported
