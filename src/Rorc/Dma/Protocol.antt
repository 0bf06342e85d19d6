-- ===== src/Rorc/Dma/Protocol.antt =====
-- What the subclass of a DMA channel sees of a client's calls.
use flp_prototype.Base.{
  ◌≡◌, refl, arith, Bool, true, false, List, [], ◌∷◌, Option, none, some, Outcome, done, throws,
  undefined,
}
use flp_prototype.Rorc.Error.{Error}
use flp_prototype.Rorc.Dma.{
  ResetLevel, DmaState, unknown, stopped, started, Call, device_start_dma, device_stop_dma,
  device_reset_channel, Channel, construct, start_dma, stop_dma, reset_channel,
}

pub data Request : Type 0 where
  start stop : Request
  reset : ResetLevel → Request

-- A subclass that keeps a log of its calls, newest first, each with whether it returned.
abbrev pub Log : Type 0
Log = List (Call × Bool)

module _ (fails : Log → Call → Option Error) where
  abbrev pub logging : Call → Log → Outcome Log Error (Unit {0})
  logging call log = elim (fails log call) [
    | none ↦ done tt ((call, true) ∷ log)
    | some e ↦ throws e ((call, false) ∷ log)
  ]

  abbrev left_by : Outcome (Channel Log) Error (Unit {0}) → Channel Log → Channel Log
  left_by (done u c) d = c
  left_by (throws e c) d = c
  left_by undefined d = d

  unfoldable pub serve : Request → Channel Log → Channel Log
  unfolding start_dma stop_dma reset_channel
  serve start c = left_by (start_dma logging c) c
  serve stop c = left_by (stop_dma logging c) c
  serve (reset level) c = left_by (reset_channel logging level c) c

  unfoldable pub serve_all : List Request → Channel Log → Channel Log
  serve_all [] c = c
  serve_all (r ∷ rs) c = serve_all rs (serve r c)

-- The DMA state that a log leaves.
abbrev pub state_of : Log → DmaState
state_of [] = stopped
state_of ((device_start_dma, true) ∷ log) = started
state_of ((device_stop_dma, true) ∷ log) = stopped
state_of ((call, returned) ∷ log) = state_of log

-- The device is started and reset only while it is stopped, and stopped only while it is started.
abbrev pub IsOrdered : Log → Type 0
IsOrdered [] = Unit {0}
IsOrdered ((device_start_dma, returned) ∷ log) = (state_of log ≡ stopped) × IsOrdered log
IsOrdered ((device_stop_dma, returned) ∷ log) = (state_of log ≡ started) × IsOrdered log
IsOrdered ((device_reset_channel level, returned) ∷ log) = (state_of log ≡ stopped) × IsOrdered log

pub record IsSound (c : Channel Log) : Type 0 where
  pub known : c.dma_state ≡ state_of c.device
  pub ordered : IsOrdered c.device

state_of-ne-unknown : (log : Log) → state_of log ≡ unknown → ⊥
state_of-ne-unknown [] h = cc
state_of-ne-unknown ((device_start_dma, true) ∷ log) h = cc
state_of-ne-unknown ((device_start_dma, false) ∷ log) h = state_of-ne-unknown log h
state_of-ne-unknown ((device_stop_dma, true) ∷ log) h = cc
state_of-ne-unknown ((device_stop_dma, false) ∷ log) h = state_of-ne-unknown log h
state_of-ne-unknown ((device_reset_channel level, true) ∷ log) h = state_of-ne-unknown log h
state_of-ne-unknown ((device_reset_channel level, false) ∷ log) h = state_of-ne-unknown log h

serve-IsSound :
    (fails : Log → Call → Option Error) (r : Request) (c : Channel Log)
    → IsSound c
    → IsSound (serve fails r c)
unfolding serve
serve-IsSound fails start c v = ground (arith, state_of-ne-unknown c.device)
serve-IsSound fails stop c v = ground (arith, state_of-ne-unknown c.device)
serve-IsSound fails (reset level) c v = ground (arith, state_of-ne-unknown c.device)

serve_all-IsSound_from :
    (fails : Log → Call → Option Error) (rs : List Request) (c : Channel Log)
    → IsSound c
    → IsSound (serve_all fails rs c)
unfolding serve_all
serve_all-IsSound_from fails [] c v = v
serve_all-IsSound_from fails (r ∷ rs) c v =
    serve_all-IsSound_from fails rs (serve fails r c) (serve-IsSound fails r c v)

-- Whatever requests a client makes of a new channel, and whichever of the device's calls throw: the
-- device is only started and only reset while it is stopped, only stopped while it is started, and
-- the state that the channel keeps is the one that the calls which returned have left (so never
-- UNKNOWN).
pub serve_all-IsSound :
    (fails : Log → Call → Option Error) (rs : List Request)
    → IsSound (serve_all fails rs (construct []))
serve_all-IsSound fails rs =
    serve_all-IsSound_from fails rs (construct []) (record { known = refl; ordered = tt })
