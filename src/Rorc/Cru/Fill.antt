-- ===== src/Rorc/Cru/Fill.antt =====
-- CruDmaChannel::fillSuperpages().
use mathlib.Core.Path.{subst}
use flp_prototype.Base.{
  ℕ, zero, suc, ◌+◌, ◌<◌, ◌≡◌, refl, sym, ◌∙◌, ap, arith, inl, inr, List, [], ◌∷◌, ◌++◌, length,
  length-append, length-set, append-nil, append_assoc, Ensures, Ensures-mono, >>=-Ensures,
}
use flp_prototype.Base.Buffer.{CircularBuffer}
use flp_prototype.Rorc.Error.{Error}
use flp_prototype.Rorc.Superpage.{Superpage}
use flp_prototype.Rorc.Bar.{Card}
use flp_prototype.Rorc.Cru.{CruDmaChannel, arrive, fill_link, fill_loop, fill_superpages}
use flp_prototype.Rorc.Cru.Invariant.{IsCru, queued, queued-set}
use flp_prototype.Rorc.Cru.Collect.{Visited, VisitFails, fill_link-Ensures, same-IsCru}
use flp_prototype.Rorc.Cru.Arrive.{Arrives, here, accessed, next, Arrives-trans, arrived, shortened}

length-Arrives : {c d : CruDmaChannel} → Arrives c d → length d.links ≡ length c.links
length-Arrives here = refl
length-Arrives (accessed r same) =
    ap (λ (x : CruDmaChannel). length x.links) same ∙ length-Arrives r
length-Arrives (next {d = d} i l p rest total r at front room known e) =
    ap (λ (x : CruDmaChannel). length x.links) e
    ∙ length-set d.links i (shortened l rest)
    ∙ length-Arrives r

-- The links before number `n` have each had their round, one after the other: `d` is what that has made.
pub data Visits (card : Card) (c : CruDmaChannel) : ℕ → CruDmaChannel → Type 0 where
  none_yet : Visits card c 0 c
  visits :
      {n : ℕ} {d e : CruDmaChannel}
      → Visits card c n d
      → Visited card n d e
      → Visits card c (n + 1) e

-- What fillSuperpages() has made of `c` in some rounds.
abbrev pub Filled : Card → CruDmaChannel → ℕ → CruDmaChannel → Type 0
Filled card c n d = Visits card c n d × Arrives c d × IsCru d

-- It stops in the round for link number `n`, which counts more superpages than its queue holds, or is not read.
abbrev pub FillFails : Card → CruDmaChannel → Error → CruDmaChannel → Type 0
FillFails card c e d =
    (n : ℕ) × (x : CruDmaChannel) × (n < length c.links)
    × Filled card c n x
    × VisitFails card n x e d
    × Arrives c d
    × IsCru d

visited :
    (card : Card) (c x d : CruDmaChannel) (n : ℕ)
    → Filled card c n x
    → Visited card n x d
    → Filled card c (n + 1) d
visited card c x d n (visits_before, arrives, valid) v =
    let (l, at, few, moves) = v in
    (
      visits visits_before v,
      Arrives-trans arrives (Arrives-trans (accessed here refl) moves.0),
      moves.1,
    )

failed :
    (card : Card) (c x : CruDmaChannel) (n : ℕ)
    → n < length c.links
    → Filled card c n x
    → (e : Error) (d : CruDmaChannel) → VisitFails card n x e d
    → FillFails card c e d
failed card c x n lt f e d (inl (no_read, same)) =
    (n, x, lt, f, inl (no_read, same), subst (Arrives c) (sym same) f.1, subst IsCru (sym same) f.2)
failed card c x n lt f e d (inr (error, l, at, many, same)) = (
  n,
  x,
  lt,
  f,
  inr (error, l, at, many, same),
  subst (Arrives c) (sym same) (accessed f.1 refl),
  subst IsCru (sym same) (same-IsCru refl f.2),
)

fill_loop-Ensures :
    (card : Card) (buffer : CircularBuffer Superpage) (c : CruDmaChannel) (n i : ℕ)
    (x : CruDmaChannel)
    → Filled card c i x
    → i + n ≡ length c.links
    → Ensures
        (fill_loop card buffer n i x)
        (λ u d. Filled card c (length c.links) d)
        (λ e d. FillFails card c e d)
unfolding fill_loop
fill_loop-Ensures card buffer c zero i x f h =
    subst (λ n. Filled card c n x) (let e : i ≡ length c.links = omega arith in e) f
fill_loop-Ensures card buffer c (suc n) i x f h =
    >>=-Ensures (fill_link card buffer i) (λ _. fill_loop card buffer n (i + 1))
      (λ u d. Visited card i x d) (FillFails card c) (λ u d. Filled card c (length c.links) d) x
      (Ensures-mono (fill_link card buffer i x) _ _ _ _
        (fill_link-Ensures card buffer i x f.2 (omega (arith, length-Arrives f.1))) (λ u d p. p)
        (failed card c x i (omega arith) f))
      (λ u d p.
        fill_loop-Ensures card buffer c n (i + 1) d (visited card c x d i f p) (omega arith))

-- fillSuperpages() on a started channel, for any card. If it returns, it has had one round for each link, in
-- their order: the firmware's counter of the link was read, it was ahead of the driver's by no more superpages than the
-- link's queue held, and exactly these superpages have left the front of that queue, or as many of them as the ready queue had
-- room for. It throws only in the round of some link, after such rounds for all links before it: if the card refuses the read of the counter, or if the
-- counter is ahead by more superpages than the queue holds, and none of this link arrives then. In any case
-- what it has done is a sequence of arrivals, each of the front superpage of a link's queue, marked
-- ready and wholly received, at the end of the ready queue while that had room; the invariant
-- holds, and nothing is undefined.
pub fill_superpages-Filled :
    (card : Card) (buffer : CircularBuffer Superpage) (c : CruDmaChannel)
    → IsCru c
    → Ensures
        (fill_superpages card buffer c)
        (λ u d. Filled card c (length c.links) d)
        (λ e d. FillFails card c e d)
unfolding fill_superpages
fill_superpages-Filled card buffer c v =
    fill_loop-Ensures card buffer c (length c.links) 0 c (none_yet, here, v) (omega arith)

-- The superpages of `c` are those of `d`, and the ready queue has only grown at its end.
abbrev pub Conserves : CruDmaChannel → CruDmaChannel → Type 0
Conserves c d =
    (queued d.links + length d.ready_queue ≡ queued c.links + length c.ready_queue)
    × (length d.links ≡ length c.links)
    × ((new : List Superpage) × (d.ready_queue ≡ c.ready_queue ++ new))

Arrives-Conserves : {c d : CruDmaChannel} → Arrives c d → Conserves c d
Arrives-Conserves {c} here = (refl, refl, ([], sym (append-nil c.ready_queue)))
Arrives-Conserves {c} (accessed {d = d} r same) =
    subst (Conserves c) (sym same) (Arrives-Conserves r)
Arrives-Conserves {c} (next {d = d} i l p rest total r at front room known e) =
    subst (Conserves c) (sym e) (step (Arrives-Conserves r))
  where
    step : Conserves c d → Conserves c (arrived d i l p rest total)
    step (sum, links, (new, grown)) = (
      omega (
        arith,
        length-append d.ready_queue (arrive p ∷ []),
        queued-set d.links i l (shortened l rest) at,
        ap length front,
      ),
      length-set d.links i (shortened l rest) ∙ links,
      (
        new ++ arrive p ∷ [],
        ap (λ xs. xs ++ arrive p ∷ []) grown ∙ append_assoc c.ready_queue new (arrive p ∷ []),
      ),
    )

-- fillSuperpages() on a started channel, for any card, and whether it returns or throws, neither
-- loses nor makes up a superpage: those in the links' queues and in the ready queue are as many as
-- before; the links are as many as before; and the ready queue has only grown at its end.
pub fill_superpages-Conserves :
    (card : Card) (buffer : CircularBuffer Superpage) (c : CruDmaChannel)
    → IsCru c
    → Ensures (fill_superpages card buffer c) (λ u d. Conserves c d) (λ e d. Conserves c d)
fill_superpages-Conserves card buffer c v =
    Ensures-mono (fill_superpages card buffer c) _ (λ u d. Conserves c d) _ (λ e d. Conserves c d)
      (fill_superpages-Filled card buffer c v) (λ u d p. Arrives-Conserves p.1)
      (λ e d (n, x, lt, f, fails, arrives, valid). Arrives-Conserves arrives)
