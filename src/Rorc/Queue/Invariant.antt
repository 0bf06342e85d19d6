-- ===== src/Rorc/Queue/Invariant.antt =====
-- What holds of a superpage queue between calls: the ids in `filled` and then `arrivals` are
-- consecutive, exactly they have a valid registry entry, and `pushing` is an end of that run.
use flp_prototype.Base.{
  ℕ, ◌+◌, ◌-◌, ◌<◌, ◌≤◌, ◌≡◌, ◌≢◌, ◌∙◌, arith, ltb, List, ◌++◌, length, Bool, true, false, Option,
  some, none, map, get_elem?, set, get_elem?-set_ne, get_elem?-set_self, get_elem?-lt, lt→ltb, sym,
  done,
}
use flp_prototype.Rorc.Queue.{SuperpageQueue, Entry, is_valid_entry, get_entry}
use flp_prototype.Rorc.Queue.Ids.{wrap, ids, place}

-- The entry at an id, if the registry has that id.
abbrev pub valid_at : List Entry → ℕ → Bool
unfolding is_valid_entry
valid_at registry i = elim (get_elem? registry i) [ none ↦ false | some e ↦ is_valid_entry e ]

abbrev pub Marks : ℕ → List Entry → ℕ → ℕ → Type 0
Marks cap registry first n = (i : ℕ) → i < cap → valid_at registry i ≡ ltb (place cap first i) n

-- `first` is the oldest id; `left` of the entries have left the pushing queue.
pub record IsQueue (cap : ℕ) (q : SuperpageQueue) : Type 0 where
  pub first : ℕ
  pub left : ℕ
  pub first_lt : first < cap
  pub count_le : q.number_of_entries ≤ cap
  pub left_le : left ≤ q.number_of_entries
  pub next_lem : q.next_id ≡ wrap cap (first + q.number_of_entries)
  pub registry_lem : length q.registry ≡ cap
  pub live : q.filled ++ q.arrivals ≡ ids cap first q.number_of_entries
  pub pushing_lem : q.pushing ≡ ids cap (wrap cap (first + left)) (q.number_of_entries - left)
  pub marks : Marks cap q.registry first q.number_of_entries

-- The entries in the queue, oldest first.
abbrev pub contents : SuperpageQueue → List (Option Entry)
contents q = map (get_elem? q.registry) (q.filled ++ q.arrivals)

pub valid_at-some :
    (registry : List Entry) (i : ℕ) (e : Entry)
    → get_elem? registry i ≡ some e
    → valid_at registry i ≡ is_valid_entry e
unfolding is_valid_entry
valid_at-some registry i e found = ground arith

pub valid_at-set_self :
    (registry : List Entry) (i : ℕ) (e : Entry)
    → i < length registry
    → valid_at (set registry i e) i ≡ is_valid_entry e
unfolding is_valid_entry
valid_at-set_self registry i e h = ground (arith, get_elem?-set_self registry i e h)

pub valid_at-set_ne :
    (registry : List Entry) (i j : ℕ) (e : Entry)
    → i ≢ j
    → valid_at (set registry i e) j ≡ valid_at registry j
unfolding is_valid_entry
valid_at-set_ne registry i j e h = ground (arith, get_elem?-set_ne registry i j e h)

-- An id in use has a valid entry.
pub found_live :
    (cap : ℕ) (q : SuperpageQueue) (v : IsQueue cap q) (i : ℕ)
    → i < cap
    → place cap v.first i < q.number_of_entries
    → (e : Entry) × (get_elem? q.registry i ≡ some e) × (is_valid_entry e ≡ true)
found_live cap q v i h p =
    let (e, found) = get_elem?-lt q.registry i (omega (arith, v.registry_lem)) in
    (e, found, checked e found)
  where
    marked : valid_at q.registry i ≡ true
    marked = v.marks i h ∙ lt→ltb _ _ p

    checked : (e : Entry) → get_elem? q.registry i ≡ some e → is_valid_entry e ≡ true
    checked e found = sym (valid_at-some q.registry i e found) ∙ marked

-- getEntry() of an id in use returns its entry, in a debug build or not.
pub get_entry_live :
    (debug : Bool) (q : SuperpageQueue) (i : ℕ) (e : Entry)
    → get_elem? q.registry i ≡ some e
    → is_valid_entry e ≡ true
    → get_entry debug i q ≡ done e q
unfolding get_entry is_valid_entry
get_entry_live true q i e found valid = ground arith
get_entry_live false q i e found valid = ground arith
