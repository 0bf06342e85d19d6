-- ===== src/Readout/Aggregator.antt =====
-- Readout/src/DataBlockAggregator.cxx: one round of the aggregator's thread, on the FIFOs that it
-- reads and the one that it fills. A reference is a block, or none for nullptr; a data set is the
-- references in it. Making a data set does not fail.
pub mod Heads
pub mod Take
pub mod Round
pub mod Rising
mod Tests
use flp_prototype.Base.{
  ℕ, zero, suc, Bool, true, false, not, ◌&&◌, ◌||◌, List, [], ◌∷◌, Option, none, some, Outcome,
  done, throws, undefined, if◌then◌else◌, ltb, ◌==◌,
}
use flp_prototype.Base.Int.{ℤ}
use flp_prototype.Common.Fifo.{Fifo, is_empty, is_full, front, pop, push}

-- DataBlock, by its id and the rest of it
pub record Block : Type 0 where
  pub id : ℕ
  pub payload : ℕ

abbrev pub Reference : Type 0
Reference = Option Block

abbrev pub DataSetReference : Type 0
DataSetReference = Option (List Reference)

pub record Aggregator : Type 0 where
  pub inputs : List (Fifo Reference)
  pub output : Fifo DataSetReference
  pub is_incomplete_pending : Bool

-- Thread::CallbackResult: Ok, Idle, Done and Error
pub data CallbackResult : Type 0 where
  ok idle thread_done thread_error : CallbackResult

-- What the first loop finds out.
pub record Scan : Type 0 where
  pub some_empty : Bool
  pub all_empty : Bool
  pub all_same : Bool
  pub min_id : ℕ
  pub last_id : ℕ

abbrev pub no_scan : Scan
no_scan = record { some_empty = false; all_empty = true; all_same = true; min_id = 0; last_id = 0 }

-- An input with no block, and one whose first block has this id.
abbrev pub skip : Scan → Scan
skip s = record s { some_empty = true; all_same = false }

abbrev pub see : ℕ → Scan → Scan
see id s = record s {
  all_empty = false;
  min_id = if s.min_id == 0 || ltb id s.min_id then id else s.min_id;
  all_same = if not (s.last_id == 0) && not (id == s.last_id) then false else s.all_same;
  last_id = id;
}

-- The first reference of a FIFO: front() into a nullptr. It leaves the FIFO.
unfoldable pub front_of : Fifo Reference → Option Reference
front_of f = elim (front none f) [
  | done result g ↦ some result.1
  | throws e g ↦ none
  | undefined ↦ none
]

-- The id of the block behind a reference; with nullptr it is undefined.
abbrev pub id_of : Option Reference → Option ℕ
id_of (some (some b)) = some b.id
id_of (some none) = none
id_of none = none

-- none: undefined
unfoldable pub scan_inputs : List (Fifo Reference) → Scan → Option Scan
unfolding front_of
scan_inputs [] s = some s
scan_inputs (f ∷ fs) s = elim (is_empty f) [
  | true ↦ scan_inputs fs (skip s)
  | false ↦ elim (id_of (front_of f)) [ none ↦ none | some id ↦ scan_inputs fs (see id s) ]
]

-- What the second loop takes out, and the inputs then.
pub record Taken : Type 0 where
  pub blocks : List Reference
  pub rest : List (Fifo Reference)

abbrev pub taking : Reference → Fifo Reference → Option Taken → Option Taken
taking b f none = none
taking b f (some t) = some (record { blocks = b ∷ t.blocks; rest = f ∷ t.rest })

abbrev pub leaving : Fifo Reference → Option Taken → Option Taken
leaving f none = none
leaving f (some t) = some (record { blocks = t.blocks; rest = f ∷ t.rest })

-- One input of the second loop; `others` is what the loop makes of those behind it.
unfoldable pub take_input : ℕ → Fifo Reference → Option Taken → Option Taken
unfolding front_of
take_input min_id f others = elim (is_empty f) [
  | true ↦ leaving f others
  | false ↦ elim (front_of f) [
    | none ↦ none
    | some b ↦ elim (id_of (some b)) [
      | none ↦ none
      | some id ↦ elim (id == min_id) [
        | false ↦ leaving f others
        | true ↦ elim (pop none b f) [
          | done result g ↦ taking b g others
          | throws e g ↦ none
          | undefined ↦ none
        ]
      ]
    ]
  ]
]

unfoldable pub take_inputs : ℕ → List (Fifo Reference) → Option Taken
unfolding take_input
take_inputs min_id [] = some (record { blocks = []; rest = [] })
take_inputs min_id (f ∷ fs) = take_input min_id f (take_inputs min_id fs)

abbrev pub Result : Type 0
Result = Outcome Aggregator ⊥ CallbackResult

-- The data set goes to the output; what push() returns is not looked at.
unfoldable pub push_set : Aggregator → Option Taken → Result
push_set a none = undefined
push_set a (some t) = elim (push (some t.blocks) a.output) [
  | done result out ↦ done ok (record a { inputs = t.rest; output = out })
  | throws e out ↦ undefined
  | undefined ↦ undefined
]

-- From the tests of the scan on; `timed_out` is what incompletePendingTimer.isTimeout() says.
unfoldable pub after_scan : Bool → Aggregator → Option Scan → Result
unfolding push_set take_inputs
after_scan timed_out a none = undefined
after_scan timed_out a (some s) =
    if s.all_empty
    then done idle a
    else if s.some_empty && not timed_out
    then done idle (record a { is_incomplete_pending = true })
    else push_set
        (record a {
          is_incomplete_pending =
              if s.all_same then false else s.some_empty || a.is_incomplete_pending;
        })
        (take_inputs s.min_id a.inputs)

unfoldable pub thread_callback : Bool → Aggregator → Result
unfolding after_scan scan_inputs
thread_callback timed_out a =
    if is_full a.output then done idle a else after_scan timed_out a (scan_inputs a.inputs no_scan)
