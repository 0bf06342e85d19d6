-- ===== src/Rorc/Crorc/Pages.antt =====
-- The pages of a superpage that CrorcDmaChannel pushes to the card.
use mathlib.Core.Path.{subst}
use flp_prototype.Base.{
  ℕ, zero, suc, ◌+◌, ◌*◌, ◌/◌, ◌%◌, ◌^◌, ◌<◌, ◌≤◌, ◌≡◌, refl, sym, ◌∙◌, ap, arith, Bool, true,
  Bool-cases, ◌∷◌, some, inl, inr, ◌⊎◌, Outcome, done, throws, ◌>>◌, ◌>>=◌, get_elem?,
  get_elem?-set_self, get_elem?-some_lt, ℕ-eq_cases, length-set, set, Ensures, Ensures-mono,
}
use flp_prototype.Base.Int.{pos}
use flp_prototype.Rorc.Error.{Error, card_failed}
use flp_prototype.Rorc.Queue.{SuperpageQueue, Entry, is_valid_entry, write_entry}
use flp_prototype.Rorc.Queue.Invariant.{
  IsQueue, valid_at, valid_at-some, valid_at-set_self, valid_at-set_ne,
}
use flp_prototype.Rorc.Crorc.State.{
  Card, Config, CrorcDmaChannel, Command, push_rx_free_fifo, Log, max_superpages, fifo_queue_max,
  readyfifo_entries,
}
use flp_prototype.Rorc.Crorc.Transfer.{push_into_superpage, push_pages}

-- A valid entry in place of a valid entry keeps the queue well-formed.
pub IsQueue-set :
    (cap : ℕ) (q : SuperpageQueue) (id : ℕ) (old new : Entry)
    → IsQueue cap q
    → get_elem? q.registry id ≡ some old
    → is_valid_entry old ≡ true
    → is_valid_entry new ≡ true
    → IsQueue cap (record q { registry = set q.registry id new })
IsQueue-set cap q id old new v at old_valid new_valid = record {
  first = v.first;
  left = v.left;
  first_lt = v.first_lt;
  count_le = v.count_le;
  left_le = v.left_le;
  next_lem = v.next_lem;
  registry_lem = length-set q.registry id new ∙ v.registry_lem;
  live = v.live;
  pushing_lem = v.pushing_lem;
  marks = λ i h. same i ∙ v.marks i h;
}
  where
    same : (i : ℕ) → valid_at (set q.registry id new) i ≡ valid_at q.registry i
    same i = elim (ℕ-eq_cases id i) [
      | inl e ↦
          subst (λ j. valid_at (set q.registry id new) j ≡ valid_at q.registry j) e
            (valid_at-set_self q.registry id new (get_elem?-some_lt q.registry id old at)
              ∙ new_valid
              ∙ sym old_valid
              ∙ sym (valid_at-some q.registry id old at))
      | inr ne ↦ valid_at-set_ne q.registry id i new ne
    ]

module _ (card : Card) (config : Config) (debug : Bool) (id : ℕ) where
  -- The command for page number `k` of a superpage at this bus address.
  abbrev pub page_command : ℕ → ℕ → ℕ → Command
  page_command bus front k =
      push_rx_free_fifo ((bus + config.page_size * (k % 2 ^ 64)) % 2 ^ 64)
        (config.page_size / 4 % 2 ^ 32) front

  -- The commands for `m` pages from number `k` on, into the entries of the ready FIFO from number
  -- `back + size` on, round the FIFO.
  abbrev pub page_log : ℕ → ℕ → ℕ → ℕ → ℕ → Log → Log
  page_log bus back size k zero log = log
  page_log bus back size k (suc m) log =
      page_log bus back (size + 1) (k + 1) m
        (page_command bus ((back + size) % readyfifo_entries) k ∷ log)

  abbrev pub advanced : Entry → ℕ → Entry
  advanced e k = record e { pushed_pages = pos k }

  -- One page more.
  abbrev pushed_one : CrorcDmaChannel → Entry → ℕ → CrorcDmaChannel
  pushed_one c e k = record c {
    commands =
        page_command e.bus_address ((c.fifo_back + c.fifo_size) % readyfifo_entries) k ∷ c.commands;
    fifo_size = c.fifo_size + 1;
    superpage_queue = record (c.superpage_queue) {
      registry = set c.superpage_queue.registry id (advanced e (k + 1));
    };
  }

  -- `m` pages more.
  pub record Pushed (e : Entry) (k m : ℕ) (c d : CrorcDmaChannel) : Type 0 where
    pub size_lem : d.fifo_size ≡ c.fifo_size + m
    pub back_lem : d.fifo_back ≡ c.fifo_back
    pub log_lem : d.commands ≡ page_log e.bus_address c.fifo_back c.fifo_size k m c.commands
    pub entry_lem : get_elem? d.superpage_queue.registry id ≡ some (advanced e (k + m))
    pub queue_lem : IsQueue max_superpages d.superpage_queue

  push_one_run :
      (c : CrorcDmaChannel) (e : Entry) (k pages : ℕ)
      → get_elem? c.superpage_queue.registry id ≡ some e
      → e.pushed_pages ≡ pos k
      → e.max_pages ≡ pos pages
      → k < pages
      → c.fifo_size < fifo_queue_max
      → (push_into_superpage card config debug id c ≡ throws card_failed c)
        ⊎ (push_into_superpage card config debug id c ≡ done tt (pushed_one c e k))
  unfolding push_into_superpage write_entry
  push_one_run c e k pages at pushed max left room =
      elim (Bool-cases (
        card.refuses c.commands
          (page_command e.bus_address ((c.fifo_back + c.fifo_size) % readyfifo_entries) k))) [
            | inl refused ↦ inl (ground (arith, at, pushed, max, left, room, refused))
            | inr accepted ↦ inr (ground (arith, at, pushed, max, left, room, accepted))
          ]

  Pushed-none :
      (c : CrorcDmaChannel) (e : Entry) (k : ℕ)
      → IsQueue max_superpages c.superpage_queue
      → get_elem? c.superpage_queue.registry id ≡ some e
      → e.pushed_pages ≡ pos k
      → Pushed e k 0 c c
  Pushed-none c e k v at pushed = record {
    size_lem = omega arith;
    back_lem = refl;
    log_lem = refl;
    entry_lem =
        at
        ∙ ap (λ z. some (record e { pushed_pages = z }))
            (pushed ∙ ap pos (let s : k ≡ k + 0 = omega arith in s));
    queue_lem = v;
  }

  Pushed-more :
      (c d : CrorcDmaChannel) (e : Entry) (k m : ℕ)
      → Pushed (advanced e (k + 1)) (k + 1) m (pushed_one c e k) d
      → Pushed e k (suc m) c d
  Pushed-more c d e k m p = record {
    size_lem = omega (arith, p.size_lem);
    back_lem = p.back_lem;
    log_lem = p.log_lem;
    entry_lem =
        p.entry_lem
        ∙ ap (λ n. some (advanced e n)) (let s : k + 1 + m ≡ k + suc m = omega arith in s);
    queue_lem = p.queue_lem;
  }

  -- What n pages more leave, or fewer of them as the card fails.
  abbrev pub PushesPages :
      Entry → ℕ → ℕ → CrorcDmaChannel → Outcome CrorcDmaChannel Error (Unit {0}) → Type 0
  PushesPages e k n c o =
      Ensures o (λ u d. Pushed e k n c d)
        (λ err d. (err ≡ card_failed) × (m : ℕ) × (m < n) × Pushed e k m c d)

  push_pages_refused :
      (n : ℕ) (c : CrorcDmaChannel)
      → push_into_superpage card config debug id c ≡ throws card_failed c
      → push_pages card config debug id (suc n) c ≡ throws card_failed c
  unfolding push_pages
  push_pages_refused n c run = rw (run, ◌>>◌, ◌>>=◌)

  push_pages_accepted :
      (n : ℕ) (c d : CrorcDmaChannel)
      → push_into_superpage card config debug id c ≡ done tt d
      → push_pages card config debug id (suc n) c ≡ push_pages card config debug id n d
  unfolding push_pages
  push_pages_accepted n c d run = rw (run, ◌>>◌, ◌>>=◌)

  kept :
      (c : CrorcDmaChannel) (e : Entry) (k : ℕ)
      → IsQueue max_superpages c.superpage_queue
      → get_elem? c.superpage_queue.registry id ≡ some e
      → e.pushed_pages ≡ pos k
      → IsQueue max_superpages (pushed_one c e k).superpage_queue
  unfolding is_valid_entry
  kept c e k v at pushed =
      IsQueue-set max_superpages c.superpage_queue id e (advanced e (k + 1)) v at
        (ground (arith, pushed)) refl

  push_pages_from :
      (n : ℕ) (c : CrorcDmaChannel) (e : Entry) (k pages : ℕ)
      → IsQueue max_superpages c.superpage_queue
      → get_elem? c.superpage_queue.registry id ≡ some e
      → e.pushed_pages ≡ pos k
      → e.max_pages ≡ pos pages
      → k + n ≤ pages
      → c.fifo_size + n ≤ fifo_queue_max
      → PushesPages e k n c (push_pages card config debug id n c)
  unfolding push_pages
  push_pages_from zero c e k pages v at pushed max left room = Pushed-none c e k v at pushed
  push_pages_from (suc n) c e k pages v at pushed max left room =
      elim (push_one_run c e k pages at pushed max (omega arith) (omega arith)) [
        | inl run ↦
            subst (PushesPages e k (suc n) c) (sym (push_pages_refused n c run))
              (refl, 0, omega arith, Pushed-none c e k v at pushed)
        | inr run ↦
            subst (PushesPages e k (suc n) c) (sym (push_pages_accepted n c (pushed_one c e k) run))
              (Ensures-mono (push_pages card config debug id n (pushed_one c e k)) _ _ _ _
                (push_pages_from n (pushed_one c e k) (advanced e (k + 1)) (k + 1) pages
                  (kept c e k v at pushed)
                  (get_elem?-set_self c.superpage_queue.registry id (advanced e (k + 1))
                    (get_elem?-some_lt c.superpage_queue.registry id e at))
                  refl max (omega arith) (omega arith))
                (λ u d p. Pushed-more c d e k n p)
                (λ err d p. (p.0, suc p.1, omega (arith, p.2), Pushed-more c d e k p.1 p.3)))
      ]

-- Pushing `n` pages of a superpage with that many unpushed ones, on a channel with a well-formed queue
-- and with that much room in the ready FIFO, in a debug build or not, for any card: the commands to
-- the card are those for the next `n` pages of the superpage, each with the address of its page and
-- with the next entry of the ready FIFO, round it; the FIFO and the count of pushed pages grow by
-- `n`, and the queue stays well-formed. If the card fails, so much holds of the fewer pages before.
-- No assertion fails.
pub push_pages_lem :
    (card : Card) (config : Config) (debug : Bool) (id n : ℕ) (c : CrorcDmaChannel) (e : Entry)
    (k pages : ℕ)
    → IsQueue max_superpages c.superpage_queue
    → get_elem? c.superpage_queue.registry id ≡ some e
    → e.pushed_pages ≡ pos k
    → e.max_pages ≡ pos pages
    → k + n ≤ pages
    → c.fifo_size + n ≤ fifo_queue_max
    → PushesPages card config debug id e k n c (push_pages card config debug id n c)
push_pages_lem card config debug id n c e k pages v at pushed max left room =
    push_pages_from card config debug id n c e k pages v at pushed max left room
