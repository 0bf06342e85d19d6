-- ===== src/DataFormat/MemPool/Places.antt =====
-- The loops of the pool look at every page.
use native.Mathlib.Decide.{dec_lt}
use native.Mathlib.Nat.{mod-eq_of_lt, add-mul-mod_self_right}
use flp_prototype.Base.{ℕ, ◌+◌, ◌-◌, ◌%◌, ◌<◌, ◌≤◌, ◌≡◌, ap, arith, if◌then◌else◌, ltb, length}
use flp_prototype.DataFormat.MemPool.{MemPool, following}

-- A pool with its tables, and its last indices in them.
pub record IsPool (p : MemPool) : Type 0 where
  pub pages_lem : length p.page_table ≡ p.number_of_pages
  pub used_lem : length p.page_is_used ≡ p.number_of_pages
  pub get_le : following p.last_page_index_get ≤ p.number_of_pages
  pub release_le : following p.last_page_index_release ≤ p.number_of_pages

-- (start + i) % n, without a division
abbrev pub round_to : ℕ → ℕ → ℕ → ℕ
round_to n start i = if ltb (start + i) n then start + i else start + i - n

pub mod-round_to : (n start i : ℕ) → start ≤ n → i < n → (start + i) % n ≡ round_to n start i
mod-round_to n start i h k = elim (dec_lt (start + i) n) [
  | yes lt ↦ ground (arith, mod-eq_of_lt {n = start + i} {m = n} lt)
  | no ge ↦
      let back : start + i - n + n ≡ start + i = omega arith in
      ground (
        arith,
        ap (λ x. x % n) back,
        add-mul-mod_self_right (start + i - n) 1 n,
        mod-eq_of_lt {n = start + i - n} {m = n} (omega arith),
      )
]

pub round_to-lt : (n start i : ℕ) → start ≤ n → i < n → round_to n start i < n
round_to-lt n start i h k = ground arith

-- The round that looks at page `k`.
abbrev pub round_of : ℕ → ℕ → ℕ → ℕ
round_of n start k = if ltb k start then k + n - start else k - start

pub round_of-lt : (n start k : ℕ) → start ≤ n → k < n → round_of n start k < n
round_of-lt n start k h l = ground arith

pub round_to-round_of :
    (n start k : ℕ) → start ≤ n → k < n → round_to n start (round_of n start k) ≡ k
round_to-round_of n start k h l = ground arith
