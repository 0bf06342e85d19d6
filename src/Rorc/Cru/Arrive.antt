-- ===== src/Rorc/Cru/Arrive.antt =====
-- One superpage of a link's queue arrives, and the inner loop of CruDmaChannel::fillSuperpages().
use native.Mathlib.Decide.{dec_lt}
use flp_prototype.Base.{
  ℕ, zero, suc, ◌+◌, ◌-◌, ◌*◌, ◌%◌, ◌^◌, ◌<◌, ◌≤◌, ◌≡◌, refl, ap, arith, inl, inr, min, List, [],
  ◌∷◌, ◌++◌, some, length, length-append, length-set, set, get_elem?, get_elem?-set_self, done,
  List-cases, drop, sym, ◌∙◌,
}
use flp_prototype.Base.Buffer.{CircularBuffer}
use flp_prototype.Rorc.Superpage.{Superpage}
use flp_prototype.Rorc.Cru.{
  CruDmaChannel, Link, link_queue_capacity, ready_queue_capacity, arrive, arrive_front, arrive_loop,
}
use flp_prototype.Rorc.Cru.Accesses.{SameButBar}
use flp_prototype.Rorc.Cru.Invariant.{IsCru, AllWithin-at, AllWithin-set, queued-set}

abbrev pub shortened : Link → List Superpage → Link
shortened l rest = record l { queue = rest; superpage_counter = (l.superpage_counter + 1) % 2 ^ 32 }

-- Superpage `p`, the front of link number `i`, is at the end of the ready queue.
abbrev pub arrived : CruDmaChannel → ℕ → Link → Superpage → List Superpage → ℕ → CruDmaChannel
arrived c i l p rest total = record c {
  links = set c.links i (shortened l rest);
  ready_queue = c.ready_queue ++ arrive p ∷ [];
  link_queues_total_available = some (total + 1);
}

-- From `c` to `d` superpages have arrived one by one, each from the front of a link's queue, while
-- the ready queue had room, and BAR 0 has been accessed. Nothing else has changed.
pub data Arrives (c : CruDmaChannel) : CruDmaChannel → Type 0 where
  here : Arrives c c
  accessed : {d e : CruDmaChannel} → Arrives c d → SameButBar d e → Arrives c e
  next :
      {d e : CruDmaChannel} (i : ℕ) (l : Link) (p : Superpage) (rest : List Superpage) (total : ℕ)
      → Arrives c d
      → get_elem? d.links i ≡ some l
      → l.queue ≡ p ∷ rest
      → length d.ready_queue < ready_queue_capacity
      → d.link_queues_total_available ≡ some total
      → e ≡ arrived d i l p rest total
      → Arrives c e

module _ (c : CruDmaChannel) (v : IsCru c) (i : ℕ) (l : Link) (p : Superpage)
    (rest : List Superpage) (at : get_elem? c.links i ≡ some l) (front : l.queue ≡ p ∷ rest)
    (room : length c.ready_queue < ready_queue_capacity) where
  total-le : v.total ≤ link_queue_capacity * 24
  total-le = omega (arith, v.places, v.links_le)

  arrived-IsCru : IsCru (arrived c i l p rest v.total)
  arrived-IsCru = record {
    total = v.total + 1;
    total_lem = refl;
    places = omega (
      arith,
      v.places,
      length-set c.links i (shortened l rest),
      queued-set c.links i l (shortened l rest) at,
      ap length front,
    );
    links_le = omega (arith, v.links_le, length-set c.links i (shortened l rest));
    within =
        AllWithin-set c.links i (shortened l rest) v.within
          (omega (arith, AllWithin-at c.links i l v.within at, ap length front));
    ready_le = omega (arith, length-append c.ready_queue (arrive p ∷ []));
  }

  arrive_front_lem :
      (buffer : CircularBuffer Superpage)
      → arrive_front buffer i c ≡ done tt (arrived c i l p rest v.total)
  unfolding arrive_front
  arrive_front_lem buffer = ground (
    arith,
    at,
    front,
    v.total_lem,
    total-le,
    buffer.push_back_room ready_queue_capacity c.ready_queue (arrive p) room,
  )

index-lt {ℓ} : {A : Type ℓ} (xs : List A) (i : ℕ) (a : A) → get_elem? xs i ≡ some a → i < length xs
index-lt [] i a e = cc
index-lt (x ∷ xs) zero a e = omega arith
index-lt (x ∷ xs) (suc i) a e = omega (arith, index-lt xs i a e)

-- Of n superpages, as many arrive as the ready queue has room for.
abbrev pub moved : CruDmaChannel → ℕ → ℕ
moved c n = min n (ready_queue_capacity - length c.ready_queue)

-- The first n superpages of link number `i`, or as many as there is room for, have arrived.
abbrev pub Moves : CruDmaChannel → ℕ → Link → ℕ → CruDmaChannel → Type 0
Moves c i l n d =
    Arrives c d
    × IsCru d
    × (length d.ready_queue ≡ length c.ready_queue + moved c n)
    × ((m : Link) × (get_elem? d.links i ≡ some m) × (m.queue ≡ drop (moved c n) l.queue))

pub Moves-none :
    (c : CruDmaChannel) (i : ℕ) (l : Link) (n : ℕ)
    → IsCru c
    → get_elem? c.links i ≡ some l
    → moved c n ≡ 0
    → Moves c i l n c
Moves-none c i l n v at e = (here, v, omega (arith, e), (l, at, ap (λ k. drop k l.queue) (sym e)))

pub Arrives-trans : {a b c : CruDmaChannel} → Arrives a b → Arrives b c → Arrives a c
Arrives-trans r here = r
Arrives-trans r (accessed s e) = accessed (Arrives-trans r s) e
Arrives-trans r (next i l p rest total s at front room known e) =
    next i l p rest total (Arrives-trans r s) at front room known e

pub arrive_loop_lem :
    (buffer : CircularBuffer Superpage) (i n : ℕ) (c : CruDmaChannel) (v : IsCru c) (l : Link)
    → get_elem? c.links i ≡ some l
    → n ≤ length l.queue
    → (d : CruDmaChannel) × (arrive_loop buffer i n c ≡ done tt d) × Moves c i l n d
unfolding arrive_loop
arrive_loop_lem buffer i zero c v l at h = (c, refl, Moves-none c i l 0 v at (omega arith))
arrive_loop_lem buffer i (suc n) c v l at h =
    elim (dec_lt (length c.ready_queue) ready_queue_capacity) [
      | no full ↦ (c, ground arith, Moves-none c i l (suc n) v at (omega arith))
      | yes room ↦ elim (List-cases l.queue) [
        | inl nil ↦ absurd (omega (arith, ap length nil))
        | inr (p, rest, front) ↦
            let c' = arrived c i l p rest v.total in
            let (d, run, moves) =
              arrive_loop_lem buffer i n c' (arrived-IsCru c v i l p rest at front room)
                (shortened l rest)
                (get_elem?-set_self c.links i (shortened l rest) (index-lt c.links i l at))
                (omega (arith, ap length front)) in
            (
              d,
              ground (arith, arrive_front_lem c v i l p rest at front room buffer, run),
              (
                Arrives-trans (next i l p rest v.total here at front room v.total_lem refl) moves.0,
                moves.1,
                omega (arith, moves.2, length-append c.ready_queue (arrive p ∷ [])),
                (
                  moves.3.0,
                  moves.3.1,
                  moves.3.2
                      ∙ ap (λ k. drop k (p ∷ rest))
                          (let e : suc (moved c' n) ≡ moved c (suc n) =
                              omega (arith, length-append c.ready_queue (arrive p ∷ [])) in
                            e)
                      ∙ ap (drop (moved c (suc n))) (sym front),
                ),
              ),
            )
      ]
    ]
