-- ===== src/Rorc/Queue/Ids.antt =====
-- The ids in use: a run of consecutive ids that goes round at the capacity.
use native.Mathlib.Nat.{mod-eq_of_lt, mod-eq-sub-mod}
use flp_prototype.Base.{
  ℕ, zero, suc, ◌+◌, ◌-◌, ◌%◌, ◌<◌, ◌≤◌, ◌≡◌, refl, ◌∙◌, ap, arith, ltb, leb, if◌then◌else◌, List,
  [], ◌∷◌, ◌++◌, length, tail, last?, some, map, set, get_elem?, get_elem?-set_ne,
}

abbrev pub wrap : ℕ → ℕ → ℕ
wrap cap i = if ltb i cap then i else i - cap

pub mod-wrap : (cap i : ℕ) → i < cap + cap → i % cap ≡ wrap cap i
mod-wrap cap i h = grind (arith, mod-eq_of_lt, mod-eq-sub-mod)

module _ (cap : ℕ) where
  -- the `n` ids from `first` on
  abbrev pub ids : ℕ → ℕ → List ℕ
  ids first zero = []
  ids first (suc n) = first ∷ ids (wrap cap (first + 1)) n

  -- how many places behind `first` the id stands
  abbrev pub place : ℕ → ℕ → ℕ
  place first i = if leb first i then i - first else i + cap - first

  abbrev head_or : ℕ → List ℕ → ℕ
  head_or d [] = d
  head_or d (x ∷ xs) = x

  pub length-ids : (first n : ℕ) → length (ids first n) ≡ n
  length-ids first zero = refl
  length-ids first (suc n) = ap suc (length-ids (wrap cap (first + 1)) n)

  -- What a run that is not empty begins with.
  pub ids-uncons :
      (i : ℕ) (rest : List ℕ) (first n : ℕ)
      → i ∷ rest ≡ ids first n
      → (i ≡ first) × (0 < n) × (rest ≡ ids (wrap cap (first + 1)) (n - 1))
  ids-uncons i rest first zero e = cc
  ids-uncons i rest first (suc n) e = (
    ap (head_or first) e,
    omega arith,
    ap tail e ∙ ap (ids (wrap cap (first + 1))) {x = n} (omega arith),
  )

  wrap-wrap :
      (first n : ℕ)
      → first < cap
      → suc n ≤ cap
      → wrap cap (wrap cap (first + 1) + n) ≡ wrap cap (first + suc n)
  wrap-wrap first n h k = ground arith

  pub ids-snoc :
      (first n : ℕ)
      → first < cap
      → n < cap
      → ids first (suc n) ≡ ids first n ++ wrap cap (first + n) ∷ []
  ids-snoc first zero h k = ap (λ i. i ∷ []) (ground arith)
  ids-snoc first (suc n) h k = ap (◌∷◌ first) (
      ids-snoc (wrap cap (first + 1)) n (ground arith) (omega arith)
      ∙ ap (λ j. ids (wrap cap (first + 1)) n ++ j ∷ []) (wrap-wrap first n h (omega arith)))

  -- Writing at an id behind the run leaves what the run names.
  pub ids-set {ℓ} :
      {A : Type ℓ} (xs : List A) (v : A) (j first n : ℕ)
      → first < cap
      → j < cap
      → n ≤ place first j
      → map (get_elem? (set xs j v)) (ids first n) ≡ map (get_elem? xs) (ids first n)
  ids-set xs v j first zero h k l = refl
  ids-set xs v j first (suc n) h k l = ground (
    arith,
    get_elem?-set_ne xs j first v (ground arith),
    ids-set xs v j (wrap cap (first + 1)) n (ground arith) k (ground arith),
  )

  -- The id at a place of the run.
  pub ids-split :
      (xs : List ℕ) (i : ℕ) (ys : List ℕ) (first n : ℕ)
      → first < cap
      → n ≤ cap
      → xs ++ i ∷ ys ≡ ids first n
      → (i ≡ wrap cap (first + length xs)) × (length xs < n)
  ids-split [] i ys first zero h k e = cc
  ids-split [] i ys first (suc n) h k e = ground (arith, ap (head_or first) e)
  ids-split (x ∷ xs) i ys first zero h k e = cc
  ids-split (x ∷ xs) i ys first (suc n) h k e =
      let (at, lt) =
        ids-split xs i ys (wrap cap (first + 1)) n (ground arith) (omega arith) (ap tail e) in
      (at ∙ wrap-wrap first (length xs) h (omega arith), omega arith)

  pub last?-ids :
      (first n : ℕ)
      → first < cap
      → suc n ≤ cap
      → last? (ids first (suc n)) ≡ some (wrap cap (first + n))
  last?-ids first zero h k = ap some (ground arith)
  last?-ids first (suc n) h k =
      last?-ids (wrap cap (first + 1)) n (ground arith) (omega arith)
      ∙ ap some (wrap-wrap first n h (omega arith))
