-- ===== src/Readout/Aggregator/Round.antt =====
-- One round of the aggregator.
use native.Mathlib.Decide.{dec_lt}
use flp_prototype.Base.{
  ℕ, ◌+◌, ◌<◌, ◌≡◌, ◌⊎◌, inl, inr, refl, ◌∙◌, ap, arith, Bool, true, false, not, ◌&&◌, ◌||◌,
  Bool-cases, List, [], ◌∷◌, ◌++◌, some, map, if◌then◌else◌, length, done,
}
use flp_prototype.Base.Int.{pos}
use flp_prototype.Common.Fifo.{Fifo, is_full, push}
use flp_prototype.Common.Fifo.Contents.{IsFifo}
use flp_prototype.Common.Fifo.Methods.{Appends, fifo_push_lem, fifo_counts_lem}
use flp_prototype.Readout.Aggregator.{
  Block, Reference, DataSetReference, Aggregator, ok, idle, Scan, no_scan, Taken, Result, push_set,
  after_scan, take_inputs, thread_callback,
}
use flp_prototype.Readout.Aggregator.Heads.{
  AllFifo, AllNumbered, all_nil, some_nil, IsLeast, IsFirst, scan_blocks, scan_inputs_lem,
  scan_blocks-all_empty, scan_blocks-some_empty, scan_blocks-IsFirst,
}
use flp_prototype.Readout.Aggregator.Take.{
  heads, rests, take_inputs_lem, AllWithId, heads-AllWithId, heads-some, count, count-rests,
}

-- An aggregator whose inputs hold these blocks and whose output holds these data sets.
pub record IsAggregator (a : Aggregator) (xss : List (List Block)) (sets : List DataSetReference)
    : Type 0 where
  pub inputs_lem : AllFifo a.inputs xss
  pub numbered : AllNumbered xss
  pub output_lem : IsFifo a.output sets

-- The data set of the blocks with the least id goes to the output.
abbrev pub Aggregates : Aggregator → List (List Block) → List DataSetReference → Result → Type 0
Aggregates a xss sets o =
    (m : ℕ) × (d : Aggregator) × IsLeast m xss
    × IsFirst m xss
    × (o ≡ done ok d)
    × AllFifo d.inputs (rests m xss)
    × IsFifo d.output (sets ++ some (map some (heads m xss)) ∷ [])
    × AllWithId m (heads m xss)
    × (0 < length (heads m xss))
    × (count (rests m xss) + length (heads m xss) ≡ count xss)

abbrev pub Round : Bool → Aggregator → List (List Block) → List DataSetReference → Result → Type 0
Round timed_out a xss sets o =
    ((length sets ≡ a.output.size) × (o ≡ done idle a))
    ⊎ ((length sets < a.output.size) × (all_nil xss ≡ true) × (o ≡ done idle a))
    ⊎ ((length sets < a.output.size)
        × (all_nil xss ≡ false)
        × (some_nil xss ≡ true)
        × (timed_out ≡ false)
        × (o ≡ done idle (record a { is_incomplete_pending = true })))
    ⊎ (((some_nil xss ≡ false) ⊎ (timed_out ≡ true))
        × (all_nil xss ≡ false)
        × (length sets < a.output.size)
        × Aggregates a xss sets o)

module _ (timed_out : Bool) (a : Aggregator) (xss : List (List Block))
    (sets : List DataSetReference) (v : IsAggregator a xss sets) where
  found : Scan
  found = scan_blocks xss no_scan

  full_run : is_full a.output ≡ true → thread_callback timed_out a ≡ done idle a
  unfolding thread_callback
  full_run h = ground (arith, h)

  scanned_run :
      is_full a.output ≡ false → thread_callback timed_out a ≡ after_scan timed_out a (some found)
  unfolding thread_callback found
  scanned_run h = ground (arith, h, scan_inputs_lem a.inputs xss no_scan v.inputs_lem)

  empty_run : all_nil xss ≡ true → after_scan timed_out a (some found) ≡ done idle a
  unfolding after_scan found
  empty_run h = ground (arith, h, scan_blocks-all_empty xss no_scan)

  waiting_run :
      all_nil xss ≡ false
      → some_nil xss ≡ true
      → timed_out ≡ false
      → after_scan timed_out a (some found) ≡ done idle (record a { is_incomplete_pending = true })
  unfolding after_scan found
  waiting_run h k t =
      ground (arith, h, k, t, scan_blocks-all_empty xss no_scan, scan_blocks-some_empty xss no_scan)

  pending : Bool
  pending = if found.all_same then false else found.some_empty || a.is_incomplete_pending

  taking_run :
      all_nil xss ≡ false
      → (some_nil xss && not timed_out) ≡ false
      → after_scan timed_out a (some found)
        ≡ push_set
            (record a { is_incomplete_pending = pending })
            (take_inputs found.min_id a.inputs)
  unfolding after_scan found pending
  taking_run h k =
      ground (arith, h, k, scan_blocks-all_empty xss no_scan, scan_blocks-some_empty xss no_scan)

  push_run :
      (taken : Taken) (out : Fifo DataSetReference)
      → push (some taken.blocks) a.output ≡ done (pos 0) out
      → push_set (record a { is_incomplete_pending = pending }) (some taken)
        ≡ done ok (record a { inputs = taken.rest; output = out; is_incomplete_pending = pending })
  unfolding push_set
  push_run taken out run = ground (arith, run)

  aggregates :
      is_full a.output ≡ false
      → all_nil xss ≡ false
      → (some_nil xss && not timed_out) ≡ false
      → length sets < a.output.size
      → Aggregates a xss sets (thread_callback timed_out a)
  unfolding found
  aggregates free some_block ready room =
      let (least, first) = scan_blocks-IsFirst xss no_scan v.numbered refl some_block in
      let (gs, taken, rest) = take_inputs_lem found.min_id a.inputs xss v.inputs_lem in
      let m = found.min_id in
      go (fifo_push_lem a.output sets (some (map some (heads m xss))) v.output_lem) gs taken rest
        least first
    where
      go :
          Appends a.output sets (some (map some (heads found.min_id xss)))
          → (gs : List (Fifo Reference))
          → take_inputs found.min_id a.inputs
            ≡ some (record { blocks = map some (heads found.min_id xss); rest = gs })
          → AllFifo gs (rests found.min_id xss)
          → IsLeast found.min_id xss
          → IsFirst found.min_id xss
          → Aggregates a xss sets (thread_callback timed_out a)
      go (inl (full, run)) gs taken rest least first = absurd (omega arith)
      go (inr (out, run, w, size_same, in_lem, out_lem)) gs taken rest least first = (
        found.min_id,
        record a { inputs = gs; output = out; is_incomplete_pending = pending },
        least,
        first,
        scanned_run free
            ∙ taking_run some_block ready
            ∙ ap (push_set (record a { is_incomplete_pending = pending })) taken
            ∙ push_run (record { blocks = map some (heads found.min_id xss); rest = gs }) out run,
        rest,
        w,
        heads-AllWithId found.min_id xss,
        heads-some found.min_id xss first,
        count-rests found.min_id xss,
      )

  -- A round whose output has room.
  Round-with_room :
      is_full a.output ≡ false
      → length sets < a.output.size
      → Round timed_out a xss sets (thread_callback timed_out a)
  Round-with_room free room = elim (Bool-cases (all_nil xss)) [
    | inl nil ↦ inr (inl (room, nil, scanned_run free ∙ empty_run nil))
    | inr some_block ↦ elim (Bool-cases (some_nil xss)) [
      | inr complete ↦ inr (
          inr (
            inr (
              inl complete,
              some_block,
              room,
              aggregates free some_block (ground (arith, complete)) room,
            )))
      | inl lacking ↦ elim (Bool-cases timed_out) [
        | inl late ↦ inr (
            inr (
              inr (
                inr late,
                some_block,
                room,
                aggregates free some_block (ground (arith, late, lacking)) room,
              )))
        | inr early ↦ inr (
            inr (
              inl (
                room,
                some_block,
                lacking,
                early,
                scanned_run free ∙ waiting_run some_block lacking early,
              )))
      ]
    ]
  ]

-- One round of the aggregator, on inputs and an output that are well-formed FIFOs and on blocks with
-- ids other than 0. It is idle and changes nothing if the output is full, or if it has room and all inputs are empty;
-- it is idle, and notes that a set is incomplete, if the output has room and some inputs are empty but not all, and the timer does not say
-- that the time is up. Otherwise one data set goes to the end of the output: of the first blocks of
-- the inputs, those with the least id among them, input by input, at least one; exactly these blocks
-- leave their inputs, so none is lost or doubled. Nothing is undefined.
pub thread_callback_lem :
    (timed_out : Bool) (a : Aggregator) (xss : List (List Block)) (sets : List DataSetReference)
    → IsAggregator a xss sets
    → Round timed_out a xss sets (thread_callback timed_out a)
thread_callback_lem timed_out a xss sets v = elim (Bool-cases (is_full a.output)) [
  | inl full ↦
      inl (
        (fifo_counts_lem a.output sets v.output_lem).1.0 full,
        full_run timed_out a xss sets v full,
      )
  | inr free ↦
      Round-with_room timed_out a xss sets v free (elim (dec_lt (length sets) a.output.size) [
        | yes room ↦ room
        | no none_left ↦ absurd (
            let e : length sets ≡ a.output.size = omega (arith, v.output_lem.room) in
            ground (arith, free, (fifo_counts_lem a.output sets v.output_lem).1.1 e))
      ])
]
