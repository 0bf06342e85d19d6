-- ===== src/Readout/Aggregator/Heads.antt =====
-- What the first loop of the aggregator finds out about the first blocks of its inputs.
use flp_prototype.Base.{
  ℕ, ◌<◌, ◌≤◌, ◌≡◌, ◌⊎◌, inl, inr, refl, ◌∙◌, arith, Bool, true, false, ◌&&◌, ◌||◌, List, [], ◌∷◌,
  none, some, map, Bool-cases,
}
use flp_prototype.Common.Fifo.{Fifo, is_empty}
use flp_prototype.Common.Fifo.Contents.{IsFifo}
use flp_prototype.Common.Fifo.Methods.{fifo_front_lem, fifo_counts_lem}
use flp_prototype.Readout.Aggregator.{Block, Reference, Scan, skip, see, front_of, scan_inputs}

-- The inputs hold these blocks.
abbrev pub AllFifo : List (Fifo Reference) → List (List Block) → Type 0
AllFifo [] [] = Unit {0}
AllFifo [] (xs ∷ xss) = ⊥
AllFifo (f ∷ fs) [] = ⊥
AllFifo (f ∷ fs) (xs ∷ xss) = IsFifo f (map some xs) × AllFifo fs xss

-- 0 is the aggregator's mark for no id.
abbrev pub AllNumbered : List (List Block) → Type 0
AllNumbered [] = Unit {0}
AllNumbered ([] ∷ xss) = AllNumbered xss
AllNumbered ((b ∷ bs) ∷ xss) = (0 < b.id) × AllNumbered xss

abbrev pub all_nil : List (List Block) → Bool
all_nil [] = true
all_nil ([] ∷ xss) = all_nil xss
all_nil ((b ∷ bs) ∷ xss) = false

abbrev pub some_nil : List (List Block) → Bool
some_nil [] = false
some_nil ([] ∷ xss) = true
some_nil ((b ∷ bs) ∷ xss) = some_nil xss

-- No first block has a smaller id.
abbrev pub IsLeast : ℕ → List (List Block) → Type 0
IsLeast m [] = Unit {0}
IsLeast m ([] ∷ xss) = IsLeast m xss
IsLeast m ((b ∷ bs) ∷ xss) = (m ≤ b.id) × IsLeast m xss

-- Some first block has this id.
abbrev pub IsFirst : ℕ → List (List Block) → Type 0
IsFirst m [] = ⊥
IsFirst m ([] ∷ xss) = IsFirst m xss
IsFirst m ((b ∷ bs) ∷ xss) = (m ≡ b.id) ⊎ IsFirst m xss

-- The loop, on the blocks.
abbrev pub scan_blocks : List (List Block) → Scan → Scan
scan_blocks [] s = s
scan_blocks ([] ∷ xss) s = scan_blocks xss (skip s)
scan_blocks ((b ∷ bs) ∷ xss) s = scan_blocks xss (see b.id s)

pub is_empty-nil : (f : Fifo Reference) → IsFifo f [] → is_empty f ≡ true
is_empty-nil f v = (fifo_counts_lem f [] v).0.1 refl

pub is_empty-cons :
    (f : Fifo Reference) (r : Reference) (rs : List Reference)
    → IsFifo f (r ∷ rs)
    → is_empty f ≡ false
is_empty-cons f r rs v = elim (Bool-cases (is_empty f)) [
  | inl e ↦ absurd (omega (arith, (fifo_counts_lem f (r ∷ rs) v).0.0 e))
  | inr n ↦ n
]

pub front_of-cons :
    (f : Fifo Reference) (r : Reference) (rs : List Reference)
    → IsFifo f (r ∷ rs)
    → front_of f ≡ some r
unfolding front_of
front_of-cons f r rs v = ground (arith, fifo_front_lem none f (r ∷ rs) v)

pub scan_inputs_lem :
    (fs : List (Fifo Reference)) (xss : List (List Block)) (s : Scan)
    → AllFifo fs xss
    → scan_inputs fs s ≡ some (scan_blocks xss s)
unfolding scan_inputs
scan_inputs_lem [] [] s v = refl
scan_inputs_lem [] (xs ∷ xss) s v = absurd v
scan_inputs_lem (f ∷ fs) [] s v = absurd v
scan_inputs_lem (f ∷ fs) ([] ∷ xss) s v =
    ground (arith, is_empty-nil f v.0, scan_inputs_lem fs xss (skip s) v.1)
scan_inputs_lem (f ∷ fs) ((b ∷ bs) ∷ xss) s v = ground (
  arith,
  is_empty-cons f (some b) (map some bs) v.0,
  front_of-cons f (some b) (map some bs) v.0,
  scan_inputs_lem fs xss (see b.id s) v.1,
)

pub scan_blocks-all_empty :
    (xss : List (List Block)) (s : Scan)
    → (scan_blocks xss s).all_empty ≡ (s.all_empty && all_nil xss)
scan_blocks-all_empty [] s = ground arith
scan_blocks-all_empty ([] ∷ xss) s = scan_blocks-all_empty xss (skip s)
scan_blocks-all_empty ((b ∷ bs) ∷ xss) s = ground (arith, scan_blocks-all_empty xss (see b.id s))

pub scan_blocks-some_empty :
    (xss : List (List Block)) (s : Scan)
    → (scan_blocks xss s).some_empty ≡ (s.some_empty || some_nil xss)
scan_blocks-some_empty [] s = ground arith
scan_blocks-some_empty ([] ∷ xss) s = ground (arith, scan_blocks-some_empty xss (skip s))
scan_blocks-some_empty ((b ∷ bs) ∷ xss) s = scan_blocks-some_empty xss (see b.id s)

-- The least id so far, and the inputs still to be seen.
pub scan_blocks-min_id :
    (xss : List (List Block)) (s : Scan)
    → AllNumbered xss
    → 0 < s.min_id
    → ((scan_blocks xss s).min_id ≤ s.min_id)
      × IsLeast (scan_blocks xss s).min_id xss
      × (((scan_blocks xss s).min_id ≡ s.min_id) ⊎ IsFirst (scan_blocks xss s).min_id xss)
scan_blocks-min_id [] s n h = (omega arith, tt, inl refl)
scan_blocks-min_id ([] ∷ xss) s n h = scan_blocks-min_id xss (skip s) n h
scan_blocks-min_id ((b ∷ bs) ∷ xss) s n h =
    let (le, least, found) = scan_blocks-min_id xss (see b.id s) n.1 (ground (arith, n.0, h)) in
    elim found [
      | inl same ↦ (ground (arith, le), (ground (arith, le), least), ground (arith, same))
      | inr later ↦ (ground (arith, le), (ground (arith, le), least), inr (inr later))
    ]

pub scan_blocks-IsFirst :
    (xss : List (List Block)) (s : Scan)
    → AllNumbered xss
    → s.min_id ≡ 0
    → all_nil xss ≡ false
    → IsLeast (scan_blocks xss s).min_id xss × IsFirst (scan_blocks xss s).min_id xss
scan_blocks-IsFirst [] s n z some_block = cc
scan_blocks-IsFirst ([] ∷ xss) s n z some_block = scan_blocks-IsFirst xss (skip s) n z some_block
scan_blocks-IsFirst ((b ∷ bs) ∷ xss) s n z some_block =
    let new : (see b.id s).min_id ≡ b.id = ground (arith, z) in
    let (le, least, found) = scan_blocks-min_id xss (see b.id s) n.1 (omega (arith, new, n.0)) in
    elim found [
      | inl same ↦ ((omega (arith, le, new), least), inl (same ∙ new))
      | inr later ↦ ((omega (arith, le, new), least), inr later)
    ]
