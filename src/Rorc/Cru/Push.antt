-- ===== src/Rorc/Cru/Push.antt =====
-- CruDmaChannel::pushSuperpage().
use flp_prototype.Rorc.Sca.{offset}
use flp_prototype.Rorc.CrorcCard.Registers.{has}
use mathlib.Core.Path.{subst}
use native.Mathlib.Decide.{dec_lt}
use flp_prototype.Base.{
  ℕ, ◌+◌, ◌-◌, ◌/◌, ◌^◌, ◌<◌, ◌≡◌, refl, ◌∙◌, ap, arith, inl, inr, ◌⊎◌, List, [], ◌∷◌, ◌++◌, some,
  length, length-append, length-set, set, get_elem?, Outcome, done, throws, ◌>>=◌, Ensures,
  >>=-Ensures, Ensures-mono, sym, ◌%◌, ◌*◌,
}
use flp_prototype.Base.Buffer.{CircularBuffer}
use flp_prototype.Rorc.Error.{
  Error, bar_access_failed, out_of_range, bus_address_out_of_range, transfer_queue_full,
}
use flp_prototype.Rorc.Superpage.{Superpage}
use flp_prototype.Rorc.Dma.{check_superpage}
use flp_prototype.Rorc.Dma.Check.{IsGood, check_superpage_lem}
use flp_prototype.Rorc.Pda.{SgEntry, get_bus_offset_address}
use flp_prototype.Rorc.Bar
use flp_prototype.Rorc.Bar.Steps.{write-then, wrote-Ensures}
use flp_prototype.Rorc.Bits.{get_lower_32_bits, get_upper_32_bits}
use flp_prototype.Rorc.Bar.{Card, Log, Access, wrote, write_register, M}
use flp_prototype.Rorc.BarAccessor.{
  link_superpage_offset, link_base_superpage_address_high, link_base_superpage_address_low,
  link_base_superpage_size, dma_page_size, push_superpage_descriptor,
}
use flp_prototype.Rorc.Cru.{
  CruDmaChannel, Link, link_queue_capacity, get_next_link_index, push_superpage, push_to_link,
  on_bar,
}
use flp_prototype.Rorc.Cru.Accesses.{SameButBar, on_bar-Runs}
use flp_prototype.Rorc.Cru.Invariant.{IsCru, NoneShorter, next_link_lem, AllWithin-set, queued-set}

abbrev pub extended : Link → Superpage → Link
extended l p = record l { queue = l.queue ++ p ∷ [] }

-- The channel with the superpage in the queue of link number `i`.
abbrev pub pushed : CruDmaChannel → ℕ → Link → ℕ → Superpage → CruDmaChannel
pushed c i l total p = record c {
  links = set c.links i (extended l p);
  link_queues_total_available = some (total - 1);
}

-- What is left to do then: the descriptor goes to the firmware.
abbrev send :
    Card → List SgEntry → Link → Superpage → CruDmaChannel → Outcome CruDmaChannel Error (Unit {0})
send card sgl l p = get_bus_offset_address sgl p.offset >>= λ address.
    on_bar (push_superpage_descriptor card l.id (p.size / dma_page_size) address)

pushed-IsCru :
    (c : CruDmaChannel) (v : IsCru c) (i : ℕ) (l : Link) (p : Superpage) (log : Log)
    → get_elem? c.links i ≡ some l
    → length l.queue < link_queue_capacity
    → 0 < v.total
    → IsCru (record (pushed c i l v.total p) { bar = log })
pushed-IsCru c v i l p log at room some_left = record {
  total = v.total - 1;
  total_lem = refl;
  places = omega (
    arith,
    v.places,
    length-set c.links i (extended l p),
    queued-set c.links i l (extended l p) at,
    length-append l.queue (p ∷ []),
  );
  links_le = omega (arith, v.links_le, length-set c.links i (extended l p));
  within =
      AllWithin-set c.links i (extended l p) v.within
        (omega (arith, length-append l.queue (p ∷ [])));
  ready_le = v.ready_le;
}

push_to_link_run :
    (card : Card) (buffer : CircularBuffer Superpage) (sgl : List SgEntry) (p : Superpage)
    (total i : ℕ) (c : CruDmaChannel) (l : Link)
    → get_elem? c.links i ≡ some l
    → length l.queue < link_queue_capacity
    → push_to_link card buffer sgl p total i c ≡ send card sgl l p (pushed c i l total p)
unfolding push_to_link
push_to_link_run card buffer sgl p total i c l at room =
    ground (arith, at, room, buffer.push_back_room link_queue_capacity l.queue p room)

-- The writes of a descriptor, the newest first.
abbrev high_word : ℕ → ℕ → Access
high_word link_id address =
    wrote (link_superpage_offset * link_id + link_base_superpage_address_high)
      (get_upper_32_bits address % 2 ^ 32)

abbrev low_word : ℕ → ℕ → Access
low_word link_id address =
    wrote (link_superpage_offset * link_id + link_base_superpage_address_low)
      (get_lower_32_bits address % 2 ^ 32)

abbrev pub described : ℕ → ℕ → ℕ → Log → Log
described link_id pages address log =
    wrote (link_superpage_offset * link_id + link_base_superpage_size) (pages % 2 ^ 32)
    ∷ low_word link_id address
    ∷ high_word link_id address
    ∷ log

abbrev pub PartDescribed : ℕ → ℕ → Log → Log → Type 0
PartDescribed link_id address log l =
    (l ≡ log)
    ⊎ (l ≡ high_word link_id address ∷ log)
    ⊎ (l ≡ low_word link_id address ∷ high_word link_id address ∷ log)

descriptor-Ensures :
    (card : Card) (link_id pages address : ℕ) (log : Log)
    → Ensures
        (push_superpage_descriptor card link_id pages address log)
        (λ u l. l ≡ described link_id pages address log)
        (λ e l. (e ≡ bar_access_failed) × PartDescribed link_id address log l)
unfolding push_superpage_descriptor
descriptor-Ensures card link_id pages address log =
    write-then card _ _ _ _ _ log (refl, inl refl)
      (write-then card _ _ _ _ _ _ (refl, inr (inl refl))
        (Ensures-mono (write_register card _ _ _) _ _ _ _ (wrote-Ensures card _ _ _) (λ u l h. h)
          (λ e l h. (h.0, inr (inr h.1)))))

-- Of a run of getBusOffsetAddress(): it leaves its object as it was.
abbrev pub AddressError : Error → Type 0
AddressError e = (e ≡ out_of_range) ⊎ (e ≡ bus_address_out_of_range)

abbrev pub HasAddress : List SgEntry → ℕ → ℕ → Type 0
HasAddress sgl offset address =
    get_bus_offset_address {S = Unit {0}} sgl offset tt ≡ done address tt

get_bus_offset_address-Ensures :
    {S : Type 0} (sgl : List SgEntry) (offset : ℕ) (s : S)
    → Ensures
        (get_bus_offset_address sgl offset s)
        (λ a t. (t ≡ s) × HasAddress sgl offset a)
        (λ e t. AddressError e × (t ≡ s))
unfolding get_bus_offset_address
get_bus_offset_address-Ensures [] offset s = (inl refl, refl)
get_bus_offset_address-Ensures (e ∷ es) offset s = ground arith

-- The descriptor is sent: the number of the link, the pages and the bus address of the superpage.
abbrev pub SentTo : List SgEntry → Link → Superpage → CruDmaChannel → CruDmaChannel → Type 0
SentTo sgl l p c d =
    (address : ℕ) × HasAddress sgl p.offset address
    × (d ≡ record c { bar = described l.id (p.size / 8192) address c.bar })

-- There is no bus address, or the card refuses one of the writes.
abbrev pub SendFails :
    List SgEntry → Link → Superpage → CruDmaChannel → Error → CruDmaChannel → Type 0
SendFails sgl l p c e d =
    (AddressError e × (d ≡ c))
    ⊎ ((address : ℕ) × HasAddress sgl p.offset address
        × (e ≡ bar_access_failed)
        × PartDescribed l.id address c.bar d.bar
        × SameButBar c d)

send-Ensures :
    (card : Card) (sgl : List SgEntry) (l : Link) (p : Superpage) (c : CruDmaChannel)
    → Ensures (send card sgl l p c) (λ u d. SentTo sgl l p c d) (λ e d. SendFails sgl l p c e d)
send-Ensures card sgl l p c =
    >>=-Ensures (get_bus_offset_address sgl p.offset) (λ a. on_bar (descriptor a))
      (λ a t. (t ≡ c) × HasAddress sgl p.offset a) (SendFails sgl l p c) (λ u d. SentTo sgl l p c d)
      c
      (Ensures-mono (get_bus_offset_address sgl p.offset c) _ _ _ (SendFails sgl l p c)
        (get_bus_offset_address-Ensures sgl p.offset c) (λ a t h. h) (λ e t h. inl h))
      (λ a t (same, has).
        subst
          (λ x. Ensures (on_bar (descriptor a) x) (λ u d. SentTo sgl l p c d) (SendFails sgl l p c))
          (sym same) (sent a has))
  where
    descriptor : ℕ → Bar.M (Unit {0})
    descriptor a = push_superpage_descriptor card l.id (p.size / dma_page_size) a

    sent :
        (a : ℕ)
        → HasAddress sgl p.offset a
        → Ensures (on_bar (descriptor a) c) (λ u d. SentTo sgl l p c d) (SendFails sgl l p c)
    sent a has =
        Ensures-mono (on_bar (descriptor a) c) _ _ _ (SendFails sgl l p c)
          (on_bar-Runs (descriptor a) c _ _ (descriptor-Ensures card l.id _ a c.bar))
          (λ u d h. (a, has, h.1 ∙ ap (λ b. record c { bar = b }) h.0))
          (λ e d h. inr (a, has, h.0.0, h.0.1, h.1))

push_run :
    (card : Card) (buffer : CircularBuffer Superpage) (buffer_size : ℕ) (sgl : List SgEntry)
    (p : Superpage) (c : CruDmaChannel) (total : ℕ)
    → check_superpage buffer_size p c ≡ done tt c
    → c.link_queues_total_available ≡ some total
    → 0 < total
    → push_superpage card buffer buffer_size sgl p c
      ≡ push_to_link card buffer sgl p total (get_next_link_index c.links) c
unfolding push_superpage
push_run card buffer buffer_size sgl p c total good known some_left = ground (arith, good, known)

push_full :
    (card : Card) (buffer : CircularBuffer Superpage) (buffer_size : ℕ) (sgl : List SgEntry)
    (p : Superpage) (c : CruDmaChannel)
    → check_superpage buffer_size p c ≡ done tt c
    → c.link_queues_total_available ≡ some 0
    → push_superpage card buffer buffer_size sgl p c ≡ throws transfer_queue_full c
unfolding push_superpage
push_full card buffer buffer_size sgl p c good none_left = ground (arith, good, none_left)

-- The superpage is in the queue of link number `i`, and the invariant holds.
abbrev pub Keeps :
    List SgEntry
    → CruDmaChannel
    → ℕ
    → Link
    → ℕ
    → Superpage
    → Outcome CruDmaChannel Error (Unit {0})
    → Type 0
Keeps sgl c i l total p o =
    Ensures o (λ u d. SentTo sgl l p (pushed c i l total p) d × IsCru d)
      (λ e d. SendFails sgl l p (pushed c i l total p) e d × IsCru d)

send-Keeps :
    (card : Card) (sgl : List SgEntry) (p : Superpage) (c : CruDmaChannel) (v : IsCru c) (i : ℕ)
    (l : Link)
    → get_elem? c.links i ≡ some l
    → length l.queue < link_queue_capacity
    → 0 < v.total
    → Keeps sgl c i l v.total p (send card sgl l p (pushed c i l v.total p))
send-Keeps card sgl p c v i l at room some_left =
    Ensures-mono (send card sgl l p start) _ _ _ _ (send-Ensures card sgl l p start)
      (λ u d (address, has, same).
        ((address, has, same), valid d (same ∙ ap (λ b. record start { bar = b }) (bars d _ same))))
      (λ e d h. (h, valid d (kept e d h)))
  where
    start : CruDmaChannel
    start = pushed c i l v.total p

    bars : (d : CruDmaChannel) (b : Log) → d ≡ record start { bar = b } → b ≡ d.bar
    bars d b same = ap (λ (x : CruDmaChannel). x.bar) (sym same)

    kept : (e : Error) (d : CruDmaChannel) → SendFails sgl l p start e d → SameButBar start d
    kept e d (inl h) = h.1 ∙ ap (λ b. record start { bar = b }) (bars d start.bar h.1)
    kept e d (inr h) = h.4

    valid : (d : CruDmaChannel) → SameButBar start d → IsCru d
    valid d same = subst IsCru (sym same) (pushed-IsCru c v i l p d.bar at room some_left)

-- It throws as no place is left, or the superpage joins the shortest queue of a link.
abbrev pub Pushes :
    List SgEntry
    → (c : CruDmaChannel) → IsCru c
    → Superpage
    → Outcome CruDmaChannel Error (Unit {0})
    → Type 0
Pushes sgl c v p o =
    ((v.total ≡ 0) × (o ≡ throws transfer_queue_full c))
    ⊎ ((i : ℕ) × (l : Link) × (get_elem? c.links i ≡ some l)
        × (length l.queue < link_queue_capacity)
        × NoneShorter (length l.queue) c.links
        × Keeps sgl c i l v.total p o)

-- pushSuperpage() of a good superpage on a started channel: if no place is left in any link's queue
-- it throws and changes nothing; otherwise the superpage goes to the end of the queue of a link
-- with a shortest queue, which has room, and one place less is left. Then the descriptor is sent: the two
-- halves of the bus address that getBusOffsetAddress() gives for the offset, and the number of pages of 8 KiB, go to the registers of
-- this link, in this order. What can still throw is the search of the bus address, before any write, or the card at one of the writes, and the superpage stays in the
-- queue. So "link queue was full" is never thrown, nothing is undefined, and the invariant is kept.
pub push_superpage_lem :
    (card : Card) (buffer : CircularBuffer Superpage) (buffer_size : ℕ) (sgl : List SgEntry)
    (p : Superpage) (c : CruDmaChannel) (v : IsCru c)
    → IsGood buffer_size p
    → p.offset + p.size < 2 ^ 64
    → Pushes sgl c v p (push_superpage card buffer buffer_size sgl p c)
push_superpage_lem card buffer buffer_size sgl p c v g h = elim (dec_lt 0 v.total) [
  | no none_left ↦
      let z : v.total ≡ 0 = omega arith in
      inl (z, push_full card buffer buffer_size sgl p c passed (v.total_lem ∙ ap some z))
  | yes some_left ↦
      let (l, at, room, shortest) = next_link_lem c v some_left in
      let i = get_next_link_index c.links in
      let run =
        push_run card buffer buffer_size sgl p c v.total passed v.total_lem some_left
        ∙ push_to_link_run card buffer sgl p v.total i c l at room in
      inr (
        i,
        l,
        at,
        room,
        shortest,
        subst (Keeps sgl c i l v.total p) (sym run)
            (send-Keeps card sgl p c v i l at room some_left),
      )
]
  where
    passed : check_superpage buffer_size p c ≡ done tt c
    passed = (check_superpage_lem buffer_size p c h).1 g
