-- ===== src/DataFormat/MemPool.antt =====
-- DataFormat/src/MemPool.cxx: a pool of memory pages. A page is the address that posix_memalign()
-- returned, and NULL is none. getPage() and releasePage() are modelled one call at a time.
pub mod Places
pub mod Get
pub mod Release
mod Tests
use flp_prototype.Base.{
  ℕ, zero, suc, ◌+◌, ◌-◌, ◌%◌, Bool, true, false, List, [], ◌∷◌, Option, none, some, Outcome, done,
  undefined, length, get_elem?, set, replicate, ◌==◌,
}
use flp_prototype.Base.Int.{ℤ, pos, negsuc}

pub record MemPool : Type 0 where
  pub number_of_pages : ℕ
  pub page_size : ℕ
  pub page_table : List ℕ
  pub page_is_used : List Bool
  pub last_page_index_get : ℤ
  pub last_page_index_release : ℤ

abbrev pub M : Type 0 → Type 0
M A = MemPool → Outcome MemPool ⊥ A

-- The pool once all pages are allocated.
unfoldable pub construct : List ℕ → ℕ → MemPool
construct pages size = record {
  number_of_pages = length pages;
  page_size = size;
  page_table = pages;
  page_is_used = replicate (length pages) false;
  last_page_index_get = negsuc 0;
  last_page_index_release = negsuc 0;
}

-- `last + 1` for an index or -1
abbrev pub following : ℤ → ℕ
following (pos n) = n + 1
following (negsuc n) = 0

-- The loop of getPage(), in its round `i`. The sum is an int, which does not overflow for at most
-- 2 ^ 30 pages.
pub get_from : ℕ → ℕ → M (Option ℕ)
get_from zero i p = done none p
get_from (suc rounds) i p =
    let new = (following p.last_page_index_get + i) % p.number_of_pages in
    elim (get_elem? p.page_is_used new) [
      | none ↦ undefined
      | some true ↦ get_from rounds (i + 1) p
      | some false ↦ elim (get_elem? p.page_table new) [
        | none ↦ undefined
        | some page ↦
            done (some page) (record p {
              page_is_used = set p.page_is_used new true;
              last_page_index_get = pos new;
            })
      ]
    ]

unfoldable pub get_page : M (Option ℕ)
unfolding get_from
get_page p = get_from p.number_of_pages 0 p

-- The loop of releasePage(), in its round `i`.
pub release_from : ℕ → ℕ → ℕ → M (Unit {0})
release_from page zero i p = done tt p
release_from page (suc rounds) i p =
    let index = (following p.last_page_index_release + i) % p.number_of_pages in
    elim (get_elem? p.page_table index) [
      | none ↦ undefined
      | some other ↦ elim (page == other) [
        | true ↦ done tt (record p {
          page_is_used = set p.page_is_used index false;
          last_page_index_release = pos index;
        })
        | false ↦ release_from page rounds (i + 1) p
      ]
    ]

unfoldable pub release_page : ℕ → M (Unit {0})
unfolding release_from
release_page page p = release_from page p.number_of_pages 0 p

unfoldable pub get_page_size : MemPool → ℕ
get_page_size p = p.page_size
