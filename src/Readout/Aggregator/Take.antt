-- ===== src/Readout/Aggregator/Take.antt =====
-- What the second loop of the aggregator takes from its inputs.
use flp_prototype.Base.{
  ℕ, ◌+◌, ◌<◌, ◌≡◌, inl, inr, refl, ◌∙◌, ap, arith, true, false, List, [], ◌∷◌, Option, none, some,
  map, if◌then◌else◌, ◌==◌, Bool-cases, length, done,
}
use flp_prototype.Base.Int.{pos}
use flp_prototype.Common.Fifo.{Fifo, pop}
use flp_prototype.Common.Fifo.Contents.{IsFifo}
use flp_prototype.Common.Fifo.Methods.{fifo_pop_lem}
use flp_prototype.Readout.Aggregator.{
  Block, Reference, Taken, taking, leaving, take_input, take_inputs,
}
use flp_prototype.Readout.Aggregator.Heads.{
  AllFifo, IsFirst, is_empty-nil, is_empty-cons, front_of-cons,
}

-- The first blocks with this id, input by input, and the inputs without them.
abbrev pub heads : ℕ → List (List Block) → List Block
heads m [] = []
heads m ([] ∷ xss) = heads m xss
heads m ((b ∷ bs) ∷ xss) = if b.id == m then b ∷ heads m xss else heads m xss

abbrev pub rests : ℕ → List (List Block) → List (List Block)
rests m [] = []
rests m ([] ∷ xss) = [] ∷ rests m xss
rests m ((b ∷ bs) ∷ xss) = (if b.id == m then bs else b ∷ bs) ∷ rests m xss

-- What the loop leaves of inputs with these blocks.
abbrev pub TakesHeads : ℕ → List (Fifo Reference) → List (List Block) → Type 0
TakesHeads m fs xss =
    (gs : List (Fifo Reference)) × (take_inputs m fs
      ≡ some (record { blocks = map some (heads m xss); rest = gs }))
    × AllFifo gs (rests m xss)

take_input-nil :
    (m : ℕ) (f : Fifo Reference) (t : Option Taken) → IsFifo f [] → take_input m f t ≡ leaving f t
unfolding take_input
take_input-nil m f t v = ground (arith, is_empty-nil f v)

take_input-other :
    (m : ℕ) (f : Fifo Reference) (t : Option Taken) (b : Block) (bs : List Block)
    → IsFifo f (map some (b ∷ bs))
    → (b.id == m) ≡ false
    → take_input m f t ≡ leaving f t
unfolding take_input
take_input-other m f t b bs v ne =
    ground (
      arith,
      is_empty-cons f (some b) (map some bs) v,
      front_of-cons f (some b) (map some bs) v,
      ne,
    )

take_input-same :
    (m : ℕ) (f g : Fifo Reference) (t : Option Taken) (b : Block) (bs : List Block)
    → IsFifo f (map some (b ∷ bs))
    → (b.id == m) ≡ true
    → pop none (some b) f ≡ done (pos 0, some b) g
    → take_input m f t ≡ taking (some b) g t
unfolding take_input
take_input-same m f g t b bs v same run = ground (
  arith,
  is_empty-cons f (some b) (map some bs) v,
  front_of-cons f (some b) (map some bs) v,
  same,
  run,
)

pub take_inputs_lem :
    (m : ℕ) (fs : List (Fifo Reference)) (xss : List (List Block))
    → AllFifo fs xss
    → TakesHeads m fs xss
unfolding take_inputs
take_inputs_lem m [] [] v = ([], refl, tt)
take_inputs_lem m [] (xs ∷ xss) v = absurd v
take_inputs_lem m (f ∷ fs) [] v = absurd v
take_inputs_lem m (f ∷ fs) ([] ∷ xss) v =
    let (gs, run, w) = take_inputs_lem m fs xss v.1 in
    (f ∷ gs, take_input-nil m f (take_inputs m fs) v.0 ∙ ap (leaving f) run, (v.0, w))
take_inputs_lem m (f ∷ fs) ((b ∷ bs) ∷ xss) v =
    let (gs, run, w) = take_inputs_lem m fs xss v.1 in
    elim (Bool-cases (b.id == m)) [
      | inl same ↦
          let (g, popped, u, size_same, out_lem, in_lem) =
            fifo_pop_lem none (some b) f (map some (b ∷ bs)) v.0 in
          (
            g ∷ gs,
            take_input-same m f g (take_inputs m fs) b bs v.0 same popped
                ∙ ap (taking (some b) g) run
                ∙ rw same refl,
            rw same (u, w),
          )
      | inr ne ↦ (
        f ∷ gs,
        take_input-other m f (take_inputs m fs) b bs v.0 ne ∙ ap (leaving f) run ∙ rw ne refl,
        rw ne (v.0, w),
      )
    ]

-- All blocks that are taken have this id.
abbrev pub AllWithId : ℕ → List Block → Type 0
AllWithId m [] = Unit {0}
AllWithId m (b ∷ bs) = (b.id ≡ m) × AllWithId m bs

pub heads-AllWithId : (m : ℕ) (xss : List (List Block)) → AllWithId m (heads m xss)
heads-AllWithId m [] = tt
heads-AllWithId m ([] ∷ xss) = heads-AllWithId m xss
heads-AllWithId m ((b ∷ bs) ∷ xss) = elim (Bool-cases (b.id == m)) [
  | inl same ↦ rw same (ground (arith, same), heads-AllWithId m xss)
  | inr ne ↦ rw ne (heads-AllWithId m xss)
]

pub heads-some : (m : ℕ) (xss : List (List Block)) → IsFirst m xss → 0 < length (heads m xss)
heads-some m [] h = absurd h
heads-some m ([] ∷ xss) h = heads-some m xss h
heads-some m ((b ∷ bs) ∷ xss) (inl same) = ground (arith, same)
heads-some m ((b ∷ bs) ∷ xss) (inr later) = ground (arith, heads-some m xss later)

-- the blocks in all inputs
abbrev pub count : List (List Block) → ℕ
count [] = 0
count (xs ∷ xss) = length xs + count xss

pub count-rests :
    (m : ℕ) (xss : List (List Block)) → count (rests m xss) + length (heads m xss) ≡ count xss
count-rests m [] = refl
count-rests m ([] ∷ xss) = ground (arith, count-rests m xss)
count-rests m ((b ∷ bs) ∷ xss) = ground (arith, count-rests m xss)
