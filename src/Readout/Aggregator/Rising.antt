-- ===== src/Readout/Aggregator/Rising.antt =====
-- Rounds of the aggregator on inputs with rising ids.
use mathlib.Core.Path.{subst}
use flp_prototype.Base.{
  ℕ, ◌<◌, ◌≡◌, ◌⊎◌, inl, inr, refl, sym, arith, Bool, Bool-cases, List, [], ◌∷◌, ◌==◌, Outcome,
  Ensures, length, map, some, ◌++◌,
}
use flp_prototype.Readout.Aggregator.{
  Block, DataSetReference, Aggregator, CallbackResult, idle, ok, thread_callback,
}
use flp_prototype.Readout.Aggregator.Heads.{AllFifo, IsLeast}
use flp_prototype.Readout.Aggregator.Take.{rests, heads, AllWithId}
use flp_prototype.Common.Fifo.Contents.{IsFifo}
use flp_prototype.Readout.Aggregator.Round.{IsAggregator, Round, thread_callback_lem}

-- Every block has a greater id.
abbrev pub IsAbove : ℕ → List Block → Type 0
IsAbove m [] = Unit {0}
IsAbove m (b ∷ bs) = (m < b.id) × IsAbove m bs

abbrev pub IsRising : List Block → Type 0
IsRising [] = Unit {0}
IsRising (b ∷ bs) = IsAbove b.id bs × IsRising bs

abbrev pub AllAbove : ℕ → List (List Block) → Type 0
AllAbove m [] = Unit {0}
AllAbove m (xs ∷ xss) = IsAbove m xs × AllAbove m xss

abbrev pub AllRising : List (List Block) → Type 0
AllRising [] = Unit {0}
AllRising (xs ∷ xss) = IsRising xs × AllRising xss

IsAbove-mono : (m n : ℕ) (bs : List Block) → m < n → IsAbove n bs → IsAbove m bs
IsAbove-mono m n [] h v = tt
IsAbove-mono m n (b ∷ bs) h v = (omega (arith, v.0), IsAbove-mono m n bs h v.1)

rests-AllAbove :
    (m : ℕ) (xss : List (List Block)) → IsLeast m xss → AllRising xss → AllAbove m (rests m xss)
rests-AllAbove m [] least r = tt
rests-AllAbove m ([] ∷ xss) least r = (tt, rests-AllAbove m xss least r.1)
rests-AllAbove m ((b ∷ bs) ∷ xss) least r = elim (Bool-cases (b.id == m)) [
  | inl same ↦ rw same (
    subst (λ n. IsAbove n bs) (let e : b.id ≡ m = ground (arith, same) in e) r.0.0,
    rests-AllAbove m xss least.1 r.1,
  )
  | inr ne ↦
      let lt : m < b.id = ground (arith, ne, least.0) in
      rw ne ((lt, IsAbove-mono m b.id bs lt r.0.0), rests-AllAbove m xss least.1 r.1)
]

rests-AllRising : (m : ℕ) (xss : List (List Block)) → AllRising xss → AllRising (rests m xss)
rests-AllRising m [] r = tt
rests-AllRising m ([] ∷ xss) r = (tt, rests-AllRising m xss r.1)
rests-AllRising m ((b ∷ bs) ∷ xss) r = elim (Bool-cases (b.id == m)) [
  | inl same ↦ rw same (r.0.1, rests-AllRising m xss r.1)
  | inr ne ↦ rw ne (r.0, rests-AllRising m xss r.1)
]

-- A round that is idle leaves the inputs and the output; after any other the data set of the first blocks with
-- the id m is at the end of the output, and the inputs hold greater ids.
abbrev pub MovesOn :
    Aggregator → List (List Block) → List DataSetReference → CallbackResult → Aggregator → Type 0
MovesOn a xss sets r d =
    ((r ≡ idle) × (d.inputs ≡ a.inputs) × (d.output ≡ a.output))
    ⊎ ((m : ℕ) × (r ≡ ok)
        × IsFifo d.output (sets ++ some (map some (heads m xss)) ∷ [])
        × AllWithId m (heads m xss)
        × (0 < length (heads m xss))
        × AllFifo d.inputs (rests m xss)
        × AllRising (rests m xss)
        × AllAbove m (rests m xss))

-- A round of the aggregator on inputs in each of which the ids rise: it returns, and either it is
-- idle and leaves the inputs and the output, or one data set goes to the end of the output, with at least one block and all
-- of one id, these blocks leave their inputs, and all blocks that are left in the inputs have greater ids than it, with
-- the ids in each input still rising. So no block of an event that was sent on is left behind.
pub thread_callback-MovesOn :
    (timed_out : Bool) (a : Aggregator) (xss : List (List Block)) (sets : List DataSetReference)
    → IsAggregator a xss sets
    → AllRising xss
    → Ensures (thread_callback timed_out a) (λ r d. MovesOn a xss sets r d) (λ e d. ⊥)
thread_callback-MovesOn timed_out a xss sets v rising =
    go (thread_callback_lem timed_out a xss sets v)
  where
    Good : Outcome Aggregator ⊥ CallbackResult → Type 0
    Good o = Ensures o (λ r d. MovesOn a xss sets r d) (λ e d. ⊥)

    go :
        Round timed_out a xss sets (thread_callback timed_out a)
        → Good (thread_callback timed_out a)
    go (inl (full, run)) = subst Good (sym run) (inl (refl, refl, refl))
    go (inr (inl (room, nil, run))) = subst Good (sym run) (inl (refl, refl, refl))
    go (inr (inr (inl (room, some_block, lacking, early, run)))) =
        subst Good (sym run) (inl (refl, refl, refl))
    go
          (inr (
            inr (
              inr (
                ready,
                some_block,
                room,
                (m, d, least, first, run, rest, w, ids, taken, total),
              )))) =
        subst Good (sym run) (
          inr (
            m,
            refl,
            w,
            ids,
            taken,
            rest,
            rests-AllRising m xss rising,
            rests-AllAbove m xss least rising,
          ))
