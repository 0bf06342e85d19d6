-- ===== src/DataFormat/MemPool/Release.antt =====
-- releasePage() gives back the page that it is given.
use native.Mathlib.Decide.{dec_lt}
use flp_prototype.Base.{
  ℕ, zero, suc, ◌+◌, ◌<◌, ◌≤◌, ◌≡◌, ◌⊎◌, inl, inr, refl, sym, ◌∙◌, ap, arith, true, false,
  Bool-cases, List, [], ◌∷◌, none, some, done, length-set, get_elem?, get_elem?-lt, get_elem?-ge,
  set, ◌==◌,
}
use flp_prototype.Base.Int.{pos}
use flp_prototype.DataFormat.MemPool.{MemPool, following, release_from, release_page, get_page}
use flp_prototype.DataFormat.MemPool.Places.{
  IsPool, round_to, mod-round_to, round_to-lt, round_of, round_of-lt, round_to-round_of,
}
use flp_prototype.DataFormat.MemPool.Get.{AllUsed, taken, Gets, get_page_lem}

-- No address is in the table twice, as the pages are allocated.
abbrev pub IsDistinct : List ℕ → Type 0
IsDistinct pages =
    (i j page : ℕ) → get_elem? pages i ≡ some page → get_elem? pages j ≡ some page → i ≡ j

abbrev pub released : MemPool → ℕ → MemPool
released p k = record p {
  page_is_used = set p.page_is_used k false;
  last_page_index_release = pos k;
}

module _ (p : MemPool) (v : IsPool p) (k page : ℕ) (at : get_elem? p.page_table k ≡ some page)
    (d : IsDistinct p.page_table) where
  start : ℕ
  start = following p.last_page_index_release

  release_from_found :
      (rounds i : ℕ)
      → i < p.number_of_pages
      → round_to p.number_of_pages start i ≡ k
      → release_from page (suc rounds) i p ≡ done tt (released p k)
  unfolding release_from start
  release_from_found rounds i h same = ground (
    arith,
    mod-round_to p.number_of_pages start i v.release_le h,
    same,
    ap (get_elem? p.page_table) same,
    at,
  )

  release_from_other :
      (rounds i other : ℕ)
      → i < p.number_of_pages
      → get_elem? p.page_table (round_to p.number_of_pages start i) ≡ some other
      → (page == other) ≡ false
      → release_from page (suc rounds) i p ≡ release_from page rounds (i + 1) p
  unfolding release_from start
  release_from_other rounds i other h found ne =
      ground (arith, mod-round_to p.number_of_pages start i v.release_le h, found, ne)

  k_lt : k < p.number_of_pages
  k_lt = elim (dec_lt k p.number_of_pages) [
    | yes lt ↦ lt
    | no ge ↦ absurd (
        let e : none ≡ some page =
          sym (get_elem?-ge p.page_table k (omega (arith, v.pages_lem))) ∙ at in
        cc)
  ]

  release_from_lem :
      (rounds i : ℕ)
      → rounds + i ≡ p.number_of_pages
      → i ≤ round_of p.number_of_pages start k
      → release_from page rounds i p ≡ done tt (released p k)
  unfolding start
  release_from_lem zero i h le =
      absurd (omega (arith, round_of-lt p.number_of_pages start k v.release_le k_lt))
  release_from_lem (suc rounds) i h le =
      let lt : i < p.number_of_pages = omega arith in
      let (other, found) =
        get_elem?-lt p.page_table (round_to p.number_of_pages start i)
          (omega (arith, v.pages_lem, round_to-lt p.number_of_pages start i v.release_le lt)) in
      elim (Bool-cases (page == other)) [
        | inl same ↦
            release_from_found rounds i lt
              (d _ k page (found ∙ ap some (let e : other ≡ page = ground (arith, same) in e)) at)
        | inr ne ↦
            release_from_other rounds i other lt found ne
            ∙ release_from_lem rounds (i + 1) (omega arith) (next i other le found ne)
      ]
    where
      next :
          (i other : ℕ)
          → i ≤ round_of p.number_of_pages start k
          → get_elem? p.page_table (round_to p.number_of_pages start i) ≡ some other
          → (page == other) ≡ false
          → i + 1 ≤ round_of p.number_of_pages start k
      next i other le found ne = elim (dec_lt i (round_of p.number_of_pages start k)) [
        | yes lt ↦ omega arith
        | no ge ↦ absurd (
            let e : i ≡ round_of p.number_of_pages start k = omega arith in
            let same : some other ≡ some page =
              sym found
              ∙ ap (λ n. get_elem? p.page_table (round_to p.number_of_pages start n)) e
              ∙ ap (get_elem? p.page_table)
                  (round_to-round_of p.number_of_pages start k v.release_le k_lt)
              ∙ at in
            ground (arith, same, ne))
      ]

  released-IsPool : IsPool (released p k)
  released-IsPool = record {
    pages_lem = v.pages_lem;
    used_lem = length-set p.page_is_used k false ∙ v.used_lem;
    get_le = v.get_le;
    release_le = omega (arith, k_lt);
  }

-- releasePage() of a page of the pool, whose pages are distinct, marks this page and no other as free,
-- wherever its loop starts, and keeps the pool well-formed.
pub release_page_lem :
    (p : MemPool) (k page : ℕ)
    → IsPool p
    → get_elem? p.page_table k ≡ some page
    → IsDistinct p.page_table
    → (release_page page p ≡ done tt (released p k)) × IsPool (released p k)
unfolding release_page
release_page_lem p k page v at d = (
  release_from_lem p v k page at d p.number_of_pages 0 (omega arith) (omega arith),
  released-IsPool p v k page at d,
)

set-set_self :
    {A : Type 0} (xs : List A) (k : ℕ) (a b : A)
    → get_elem? xs k ≡ some a
    → set (set xs k b) k a ≡ xs
set-set_self [] k a b e = refl
set-set_self (x ∷ xs) zero a b e = ground (arith, e)
set-set_self (x ∷ xs) (suc k) a b e = ap (λ ys. x ∷ ys) (set-set_self xs k a b e)

-- NULL with all pages in use, or a page whose release leaves the flags as they were.
abbrev pub GivesBack : MemPool → Type 0
GivesBack p =
    (AllUsed p.page_is_used × (get_page p ≡ done none p))
    ⊎ ((page : ℕ) × (q : MemPool) × (r : MemPool) × (get_page p ≡ done (some page) q)
        × (release_page page q ≡ done tt r)
        × (r.page_is_used ≡ p.page_is_used))

-- In a pool with distinct pages, a page that getPage() gave out can be given back at once: then the
-- same pages are in use as before.
pub release_page-get_page : (p : MemPool) → IsPool p → IsDistinct p.page_table → GivesBack p
release_page-get_page p v d = go (get_page_lem p v)
  where
    go : Gets p (get_page p) → GivesBack p
    go (inl none_free) = inl none_free
    go (inr (k, page, (run, at, free, count, w))) = inr (
      page,
      taken p k,
      released (taken p k) k,
      run,
      (release_page_lem (taken p k) k page w at d).0,
      set-set_self p.page_is_used k false true free,
    )
