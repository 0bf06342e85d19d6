-- ===== src/Rorc/Cru/Collect.antt =====
-- One round of CruDmaChannel::fillSuperpages(): the new superpages of one link.
use mathlib.Core.Path.{subst}
use flp_prototype.Base.{
  ℕ, ◌+◌, ◌-◌, ◌<◌, ◌≤◌, ◌≡◌, refl, sym, ◌∙◌, ap, arith, inl, inr, ◌⊎◌, ◌∷◌, some, length,
  get_elem?, get_elem?-lt, Outcome, done, throws, Ensures, Ensures-mono, >>=-Ensures, ◌>>=◌, ◌*◌,
}
use native.Mathlib.Decide.{dec_lt}
use flp_prototype.Base.Buffer.{CircularBuffer}
use flp_prototype.Rorc.Error.{Error, too_many_available, bar_access_failed}
use flp_prototype.Rorc.Superpage.{Superpage}
use flp_prototype.Rorc.Bar.{Card, was_read, read_register}
use flp_prototype.Rorc.Bar.Steps.{answer, was_read-Ensures}
use flp_prototype.Rorc.BarAccessor.{
  get_superpage_count, link_superpage_offset, link_base_superpages_pushed,
}
use flp_prototype.Rorc.Cru.{CruDmaChannel, Link, link_at, on_bar, arrive_loop, collect, fill_link}
use flp_prototype.Rorc.Cru.Accesses.{SameButBar, on_bar-Runs}
use flp_prototype.Rorc.Cru.Invariant.{IsCru}
use flp_prototype.Rorc.Cru.Arrive.{Moves, Moves-none, arrive_loop_lem}

-- One link: exactly as many superpages arrive as the firmware has counted more than the driver, or as
-- the ready queue has room for; if the firmware has counted more than the queue holds, it throws.
abbrev pub Collects : CruDmaChannel → ℕ → Link → ℕ → Outcome CruDmaChannel Error (Unit {0}) → Type 0
Collects c i l count o =
    ((length l.queue < count - l.superpage_counter) × (o ≡ throws too_many_available c))
    ⊎ ((d : CruDmaChannel) × (count - l.superpage_counter ≤ length l.queue)
        × (o ≡ done tt d)
        × Moves c i l (count - l.superpage_counter) d)

collect_run :
    (buffer : CircularBuffer Superpage) (i : ℕ) (c : CruDmaChannel) (l : Link) (count : ℕ)
    → l.superpage_counter < count
    → count - l.superpage_counter ≤ length l.queue
    → collect buffer i l count c ≡ arrive_loop buffer i (count - l.superpage_counter) c
unfolding collect
collect_run buffer i c l count h k = ground arith

collect_none :
    (buffer : CircularBuffer Superpage) (i : ℕ) (c : CruDmaChannel) (l : Link) (count : ℕ)
    → count ≤ l.superpage_counter
    → collect buffer i l count c ≡ done tt c
unfolding collect
collect_none buffer i c l count h = ground arith

collect_too_many :
    (buffer : CircularBuffer Superpage) (i : ℕ) (c : CruDmaChannel) (l : Link) (count : ℕ)
    → length l.queue < count - l.superpage_counter
    → collect buffer i l count c ≡ throws too_many_available c
unfolding collect
collect_too_many buffer i c l count h = ground arith

-- One round of fillSuperpages(), for link number `i` of a started channel with a firmware counter of
-- `count`: if the firmware counts more new superpages than the link's queue holds, it throws and
-- changes nothing; otherwise exactly the new superpages arrive, or as many of them as the ready
-- queue has room for, the oldest first, and the invariant is kept.
pub collect_lem :
    (buffer : CircularBuffer Superpage) (i : ℕ) (c : CruDmaChannel) (l : Link) (count : ℕ)
    → IsCru c
    → get_elem? c.links i ≡ some l
    → Collects c i l count (collect buffer i l count c)
collect_lem buffer i c l count v at = elim (dec_lt (length l.queue) (count - l.superpage_counter)) [
  | yes many ↦ inl (many, collect_too_many buffer i c l count many)
  | no fits ↦ elim (dec_lt l.superpage_counter count) [
    | no old ↦ inr (
      c,
      omega arith,
      collect_none buffer i c l count (omega arith),
      Moves-none c i l (count - l.superpage_counter) v at (omega arith),
    )
    | yes new ↦
        let (d, run, moves) =
          arrive_loop_lem buffer i (count - l.superpage_counter) c v l at (omega arith) in
        inr (d, omega arith, collect_run buffer i c l count new (omega arith) ∙ run, moves)
  ]
]

pub same-IsCru : {c d : CruDmaChannel} → SameButBar c d → IsCru c → IsCru d
same-IsCru {c} {d} same v = subst IsCru (sym same) (record {
  total = v.total;
  total_lem = v.total_lem;
  places = v.places;
  links_le = v.links_le;
  within = v.within;
  ready_le = v.ready_le;
})

link_at_run :
    {A : Type 0} (i : ℕ) (c : CruDmaChannel) (l : Link)
    (k : Link → CruDmaChannel → Outcome CruDmaChannel Error A)
    → get_elem? c.links i ≡ some l
    → (link_at i >>= k) c ≡ k l c
unfolding link_at
link_at_run i c l k at = rw (at, link_at, ◌>>=◌)

-- The firmware's counter of a link, as it is read now, and the channel after that.
abbrev pub counter : Link → ℕ
counter l = link_superpage_offset * l.id + link_base_superpages_pushed

abbrev pub new_ones : Card → CruDmaChannel → Link → ℕ
new_ones card c l = answer card c.bar (counter l) - l.superpage_counter

abbrev pub counted : CruDmaChannel → Link → CruDmaChannel
counted c l = record c { bar = was_read (counter l) ∷ c.bar }

-- What one round for link number `i` leaves, if it returns and if it throws.
abbrev pub Visited : Card → ℕ → CruDmaChannel → CruDmaChannel → Type 0
Visited card i c d =
    (l : Link) × (get_elem? c.links i ≡ some l)
    × (new_ones card c l ≤ length l.queue)
    × Moves (counted c l) i l (new_ones card c l) d

abbrev pub VisitFails : Card → ℕ → CruDmaChannel → Error → CruDmaChannel → Type 0
VisitFails card i c e d =
    ((e ≡ bar_access_failed) × (d ≡ c))
    ⊎ ((e ≡ too_many_available)
        × (l : Link) × (get_elem? c.links i ≡ some l)
        × (length l.queue < new_ones card c l)
        × (d ≡ counted c l))

count-Ensures :
    (card : Card) (c : CruDmaChannel) (l : Link)
    → Ensures
        (on_bar (get_superpage_count card l.id) c)
        (λ n d. (n ≡ answer card c.bar (counter l)) × (d ≡ counted c l))
        (λ e d. (e ≡ bar_access_failed) × (d ≡ c))
unfolding get_superpage_count
count-Ensures card c l =
    Ensures-mono (on_bar (read_register card (counter l)) c) _ _ _ _
      (on_bar-Runs (read_register card (counter l)) c _ _ (was_read-Ensures card (counter l) c.bar))
      (λ n d h. (h.0.0, h.1 ∙ ap (λ b. record c { bar = b }) h.0.1))
      (λ e d h. (h.0.0, h.1 ∙ ap (λ b. record c { bar = b }) h.0.1))

pub fill_link-Ensures :
    (card : Card) (buffer : CircularBuffer Superpage) (i : ℕ) (c : CruDmaChannel)
    → IsCru c
    → i < length c.links
    → Ensures
        (fill_link card buffer i c)
        (λ u d. Visited card i c d)
        (λ e d. VisitFails card i c e d)
unfolding fill_link
fill_link-Ensures card buffer i c v h =
    let (l, at) = get_elem?-lt c.links i h in
    subst (λ o. Ensures o (λ u d. Visited card i c d) (VisitFails card i c))
      (sym (link_at_run i c l rest at))
      (>>=-Ensures (on_bar (get_superpage_count card l.id)) (λ count. collect buffer i l count) _
        (VisitFails card i c) (λ u d. Visited card i c d) c
        (Ensures-mono (on_bar (get_superpage_count card l.id) c) _ _ _ _ (count-Ensures card c l)
          (λ n d p. p) (λ e d p. inl p))
        (λ count d (shown, same).
          subst
            (λ x.
              Ensures (collect buffer i l count x) (λ u d. Visited card i c d)
                (VisitFails card i c))
            (sym same)
            (subst
              (λ n.
                Ensures (collect buffer i l n (counted c l)) (λ u d. Visited card i c d)
                  (VisitFails card i c))
              (sym shown)
              (collected l at (
                collect_lem buffer i (counted c l) l (answer card c.bar (counter l))
                  (same-IsCru refl v) at)))))
  where
    rest : Link → CruDmaChannel → Outcome CruDmaChannel Error (Unit {0})
    rest l = on_bar (get_superpage_count card l.id) >>= λ count. collect buffer i l count

    collected :
        (l : Link)
        → get_elem? c.links i ≡ some l
        → Collects
            (counted c l)
            i
            l
            (answer card c.bar (counter l))
            (collect buffer i l (answer card c.bar (counter l)) (counted c l))
        → Ensures
            (collect buffer i l (answer card c.bar (counter l)) (counted c l))
            (λ u d. Visited card i c d)
            (VisitFails card i c)
    collected l at (inl (many, run)) = rw run (inr (refl, l, at, many, refl))
    collected l at (inr (d, few, run, moves)) = rw run (l, at, few, moves)
