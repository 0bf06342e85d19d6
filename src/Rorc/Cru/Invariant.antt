-- ===== src/Rorc/Cru/Invariant.antt =====
-- What holds of a CRU channel once its DMA has been started, and the link that is pushed to next.
use flp_prototype.Base.{
  ℕ, zero, suc, ◌+◌, ◌-◌, ◌*◌, ◌%◌, ◌^◌, ◌<◌, ◌≤◌, ◌≡◌, refl, ◌∙◌, ap, arith, ltb, Bool-cases, inl,
  inr, ◌⊎◌, List, [], ◌∷◌, some, length, set, get_elem?,
}
use native.Mathlib.Decide.{dec_lt}
use native.Mathlib.Nat.{zero-add}
use flp_prototype.Rorc.Cru.{
  CruDmaChannel, Link, link_queue_capacity, ready_queue_capacity, max_links, next_link_from,
  get_next_link_index,
}

-- the superpages in the queues of the links
abbrev pub queued : List Link → ℕ
queued [] = 0
queued (l ∷ ls) = length l.queue + queued ls

abbrev pub AllWithin : List Link → Type 0
AllWithin [] = Unit {0}
AllWithin (l ∷ ls) = (length l.queue ≤ link_queue_capacity) × AllWithin ls

-- No queue is shorter than `n`.
abbrev pub NoneShorter : ℕ → List Link → Type 0
NoneShorter n [] = Unit {0}
NoneShorter n (l ∷ ls) = (n ≤ length l.queue) × NoneShorter n ls

-- The count of free places is that of the links' queues, and no queue is longer than its capacity.
pub record IsCru (c : CruDmaChannel) : Type 0 where
  pub total : ℕ
  pub total_lem : c.link_queues_total_available ≡ some total
  pub places : total + queued c.links ≡ link_queue_capacity * length c.links
  pub links_le : length c.links ≤ max_links
  pub within : AllWithin c.links
  pub ready_le : length c.ready_queue ≤ ready_queue_capacity

pub NoneShorter-mono : (m n : ℕ) (ls : List Link) → m ≤ n → NoneShorter n ls → NoneShorter m ls
NoneShorter-mono m n [] h v = tt
NoneShorter-mono m n (l ∷ ls) h v = (omega arith, NoneShorter-mono m n ls h v.1)

-- `result` is the index so far, and no queue is shorter than `size`, or that of a shortest queue.
abbrev Chosen : List Link → ℕ → ℕ → ℕ → ℕ → Type 0
Chosen ls i index size result =
    ((result ≡ index) × NoneShorter size ls)
    ⊎ ((k : ℕ) × (l : Link) × (result ≡ i + k)
        × (get_elem? ls k ≡ some l)
        × (length l.queue < size)
        × NoneShorter (length l.queue) ls)

next_link_from-Chosen :
    (ls : List Link) (i index size : ℕ)
    → i + length ls ≤ 2 ^ 8
    → Chosen ls i index size (next_link_from ls i index size)
unfolding next_link_from
next_link_from-Chosen [] i index size h = inl (refl, tt)
next_link_from-Chosen (l ∷ ls) i index size h = elim (Bool-cases (ltb (length l.queue) size)) [
  | inl shorter ↦ rw shorter (
      took (next_link_from-Chosen ls (i + 1) (i % 2 ^ 8) (length l.queue) (omega arith))
        (ground arith))
  | inr longer ↦
      rw longer (passed (next_link_from-Chosen ls (i + 1) index size (omega arith)) (ground arith))
]
  where
    took :
        {r : ℕ}
        → Chosen ls (i + 1) (i % 2 ^ 8) (length l.queue) r
        → length l.queue < size
        → Chosen (l ∷ ls) i index size r
    took (inl (e, v)) lt = inr (0, l, omega arith, refl, lt, (omega arith, v))
    took (inr (k, m, e, at, shorter, v)) lt =
        inr (suc k, m, omega arith, at, omega arith, (omega arith, v))

    passed :
        {r : ℕ}
        → Chosen ls (i + 1) index size r
        → size ≤ length l.queue
        → Chosen (l ∷ ls) i index size r
    passed (inl (e, v)) le = inl (e, (le, v))
    passed (inr (k, m, e, at, shorter, v)) le =
        inr (suc k, m, omega arith, at, shorter, (omega arith, v))

queued-ge : (n : ℕ) (ls : List Link) → NoneShorter n ls → n * length ls ≤ queued ls
queued-ge n [] v = omega arith
queued-ge n (l ∷ ls) v = omega (arith, queued-ge n ls v.1)

queued-le : (ls : List Link) → AllWithin ls → queued ls ≤ link_queue_capacity * length ls
queued-le [] v = omega arith
queued-le (l ∷ ls) v = omega (arith, queued-le ls v.1)

module _ (c : CruDmaChannel) (v : IsCru c) (h : 0 < v.total) where
  room : (l : Link) → NoneShorter (length l.queue) c.links → length l.queue < link_queue_capacity
  room l n = elim (dec_lt (length l.queue) link_queue_capacity) [
    | yes lt ↦ lt
    | no ge ↦ absurd (full (omega arith))
  ]
    where
      full : link_queue_capacity ≤ length l.queue → ⊥
      full le = omega (
        arith,
        v.places,
        queued-ge link_queue_capacity c.links
            (NoneShorter-mono link_queue_capacity (length l.queue) c.links le n),
      )

-- Where some place is left, the link that getNextLinkIndex() names has a shortest queue, which is
-- not full.
pub next_link_lem :
    (c : CruDmaChannel) (v : IsCru c)
    → 0 < v.total
    → (l : Link) × (get_elem? c.links (get_next_link_index c.links) ≡ some l)
      × (length l.queue < link_queue_capacity)
      × NoneShorter (length l.queue) c.links
unfolding get_next_link_index
next_link_lem c v h =
    go (next_link_from-Chosen c.links 0 (2 ^ 8 - 1) (2 ^ 64 - 1) (omega (arith, v.links_le)))
  where
    go :
        {r : ℕ}
        → Chosen c.links 0 (2 ^ 8 - 1) (2 ^ 64 - 1) r
        → (l : Link) × (get_elem? c.links r ≡ some l)
          × (length l.queue < link_queue_capacity)
          × NoneShorter (length l.queue) c.links
    go (inl (e, n)) = absurd (
        omega (
          arith,
          v.places,
          queued-ge link_queue_capacity c.links
              (NoneShorter-mono link_queue_capacity (2 ^ 64 - 1) c.links (omega arith) n),
        ))
    go (inr (k, l, e, at, lt, n)) =
        let same : _ ≡ k = e ∙ zero-add k in
        (l, ap (get_elem? c.links) same ∙ at, room c v h l n, n)

pub AllWithin-at :
    (ls : List Link) (i : ℕ) (l : Link)
    → AllWithin ls
    → get_elem? ls i ≡ some l
    → length l.queue ≤ link_queue_capacity
AllWithin-at [] i l v e = cc
AllWithin-at (x ∷ ls) zero l v e = ground (arith, v.0)
AllWithin-at (x ∷ ls) (suc i) l v e = AllWithin-at ls i l v.1 e

pub AllWithin-set :
    (ls : List Link) (i : ℕ) (l : Link)
    → AllWithin ls
    → length l.queue ≤ link_queue_capacity
    → AllWithin (set ls i l)
AllWithin-set [] i l v h = tt
AllWithin-set (x ∷ ls) zero l v h = (h, v.1)
AllWithin-set (x ∷ ls) (suc i) l v h = (v.0, AllWithin-set ls i l v.1 h)

-- Replacing a link changes the number of queued superpages by the change of its queue.
pub queued-set :
    (ls : List Link) (i : ℕ) (l new : Link)
    → get_elem? ls i ≡ some l
    → queued (set ls i new) + length l.queue ≡ queued ls + length new.queue
queued-set [] i l new e = cc
queued-set (x ∷ ls) zero l new e = ground arith
queued-set (x ∷ ls) (suc i) l new e = omega (arith, queued-set ls i l new e)
