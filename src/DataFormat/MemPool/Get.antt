-- ===== src/DataFormat/MemPool/Get.antt =====
-- getPage() finds a free page whenever there is one.
use mathlib.Core.Path.{subst}
use native.Mathlib.Decide.{dec_lt}
use flp_prototype.Base.{
  ℕ, zero, suc, ◌+◌, ◌<◌, ◌≡◌, ◌⊎◌, inl, inr, refl, sym, ◌∙◌, ap, arith, Bool, true, false,
  Bool-cases, List, [], ◌∷◌, Option, none, some, Outcome, done, length, length-set, get_elem?,
  get_elem?-lt, set,
}
use flp_prototype.Base.Int.{pos}
use flp_prototype.DataFormat.MemPool.{MemPool, following, get_from, get_page}
use flp_prototype.DataFormat.MemPool.Places.{
  IsPool, round_to, mod-round_to, round_to-lt, round_of, round_of-lt, round_to-round_of,
}

abbrev pub AllUsed : List Bool → Type 0
AllUsed [] = Unit {0}
AllUsed (b ∷ bs) = (b ≡ true) × AllUsed bs

abbrev pub free_pages : List Bool → ℕ
free_pages [] = 0
free_pages (true ∷ bs) = free_pages bs
free_pages (false ∷ bs) = free_pages bs + 1

abbrev pub taken : MemPool → ℕ → MemPool
taken p k = record p { page_is_used = set p.page_is_used k true; last_page_index_get = pos k }

-- The page of index `k`, which was free, is given out.
abbrev pub Gives : MemPool → Outcome MemPool ⊥ (Option ℕ) → ℕ → ℕ → Type 0
Gives p o k page =
    (o ≡ done (some page) (taken p k))
    × (get_elem? p.page_table k ≡ some page)
    × (get_elem? p.page_is_used k ≡ some false)
    × (free_pages (taken p k).page_is_used + 1 ≡ free_pages p.page_is_used)
    × IsPool (taken p k)

abbrev pub Gets : MemPool → Outcome MemPool ⊥ (Option ℕ) → Type 0
Gets p o = (AllUsed p.page_is_used × (o ≡ done none p)) ⊎ ((k : ℕ) × (page : ℕ) × Gives p o k page)

free_pages-set :
    (bs : List Bool) (k : ℕ)
    → get_elem? bs k ≡ some false
    → free_pages (set bs k true) + 1 ≡ free_pages bs
free_pages-set [] k e = cc
free_pages-set (true ∷ bs) zero e = cc
free_pages-set (false ∷ bs) zero e = refl
free_pages-set (true ∷ bs) (suc k) e = free_pages-set bs k e
free_pages-set (false ∷ bs) (suc k) e = omega (arith, free_pages-set bs k e)

all_used : (bs : List Bool) → ((k : ℕ) → k < length bs → get_elem? bs k ≡ some true) → AllUsed bs
all_used [] h = tt
all_used (false ∷ bs) h = absurd (let e : some false ≡ some true = h 0 (omega arith) in cc)
all_used (true ∷ bs) h = (refl, all_used bs (λ k lt. h (suc k) (omega arith)))

module _ (p : MemPool) (v : IsPool p) where
  start : ℕ
  start = following p.last_page_index_get

  given :
      (k page : ℕ) (o : Outcome MemPool ⊥ (Option ℕ))
      → k < p.number_of_pages
      → o ≡ done (some page) (taken p k)
      → get_elem? p.page_table k ≡ some page
      → get_elem? p.page_is_used k ≡ some false
      → Gets p o
  given k page o lt e at free = inr (
    k,
    page,
    (
      e,
      at,
      free,
      free_pages-set p.page_is_used k free,
      record {
        pages_lem = v.pages_lem;
        used_lem = length-set p.page_is_used k true ∙ v.used_lem;
        get_le = omega arith;
        release_le = v.release_le;
      },
    ),
  )

  get_from_used :
      (rounds i : ℕ)
      → i < p.number_of_pages
      → get_elem? p.page_is_used (round_to p.number_of_pages start i) ≡ some true
      → get_from (suc rounds) i p ≡ get_from rounds (i + 1) p
  unfolding get_from start
  get_from_used rounds i h used =
      ground (arith, mod-round_to p.number_of_pages start i v.get_le h, used)

  get_from_free :
      (rounds i page : ℕ)
      → i < p.number_of_pages
      → get_elem? p.page_is_used (round_to p.number_of_pages start i) ≡ some false
      → get_elem? p.page_table (round_to p.number_of_pages start i) ≡ some page
      → get_from (suc rounds) i p ≡ done (some page) (taken p (round_to p.number_of_pages start i))
  unfolding get_from start
  get_from_free rounds i page h free at =
      ground (arith, mod-round_to p.number_of_pages start i v.get_le h, free, at)

  get_from_lem :
      (rounds i : ℕ)
      → rounds + i ≡ p.number_of_pages
      → ((j : ℕ)
          → j < i
          → get_elem? p.page_is_used (round_to p.number_of_pages start j) ≡ some true)
      → Gets p (get_from rounds i p)
  unfolding get_from start
  get_from_lem zero i h used = inl (all_used p.page_is_used every, refl)
    where
      every : (k : ℕ) → k < length p.page_is_used → get_elem? p.page_is_used k ≡ some true
      every k lt =
          let l : k < p.number_of_pages = omega (arith, v.used_lem) in
          ap (get_elem? p.page_is_used)
            (sym (round_to-round_of p.number_of_pages start k v.get_le l))
          ∙ used (round_of p.number_of_pages start k)
              (omega (arith, round_of-lt p.number_of_pages start k v.get_le l))
  get_from_lem (suc rounds) i h used =
      let lt : i < p.number_of_pages = omega arith in
      let k = round_to p.number_of_pages start i in
      let k_lt = round_to-lt p.number_of_pages start i v.get_le lt in
      let (page, at) = get_elem?-lt p.page_table k (omega (arith, v.pages_lem)) in
      let (b, flag) = get_elem?-lt p.page_is_used k (omega (arith, v.used_lem)) in
      elim (Bool-cases b) [
        | inl yes_used ↦
            subst (Gets p) (sym (get_from_used rounds i lt (flag ∙ ap some yes_used)))
              (get_from_lem rounds (i + 1) (omega arith) (more i used (flag ∙ ap some yes_used)))
        | inr no_free ↦
            given k page _ k_lt (get_from_free rounds i page lt (flag ∙ ap some no_free) at) at
              (flag ∙ ap some no_free)
      ]
    where
      more :
          (i : ℕ)
          → ((j : ℕ)
              → j < i
              → get_elem? p.page_is_used (round_to p.number_of_pages start j) ≡ some true)
          → get_elem? p.page_is_used (round_to p.number_of_pages start i) ≡ some true
          → (j : ℕ) → j < i + 1
          → get_elem? p.page_is_used (round_to p.number_of_pages start j) ≡ some true
      more i used last j lt = elim (dec_lt j i) [
        | yes lower ↦ used j lower
        | no upper ↦
            ap (λ n. get_elem? p.page_is_used (round_to p.number_of_pages start n))
              (let e : j ≡ i = omega arith in e)
            ∙ last
      ]

-- getPage() returns NULL and changes nothing exactly where all pages are in use; otherwise it gives out
-- a page that was free, marks it as used, and one page less is free. Its loop ends after as many
-- rounds as there are pages, wherever it starts, and stays in the tables.
pub get_page_lem : (p : MemPool) → IsPool p → Gets p (get_page p)
unfolding get_page
get_page_lem p v = get_from_lem p v p.number_of_pages 0 (omega arith) (λ j h. absurd (omega arith))
