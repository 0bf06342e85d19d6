-- ===== src/Rorc/CrorcCard/NotGood.antt =====
-- How often the flash has shown a state that is not the good one, and the steps of programFlash() that
-- do not throw that the flash is stuck.
use mathlib.Core.Path.{subst}
use flp_prototype.Rorc.Error.{Error, flash_stuck}
use flp_prototype.Rorc.CrorcCard.Flash.{address_register, magic_0}
use flp_prototype.Rorc.Bar.Steps.{answer, was_read-Ensures, wrote-Ensures}
use flp_prototype.Rorc.Bar.{Card, Log, M, read_register, was_read, write_register, wrote}
use flp_prototype.Base.{
  Bool-cases, Ensures, Outcome, [], arith, done, inl, inr, pure, suc, sym, throws, undefined, ℕ,
  ◌+◌, ◌==◌, ◌>>=◌, ◌∷◌, ◌≡◌, ◌≤◌, ◌⊎◌, if◌then◌else◌,
}

-- 1 for a read of the address register that finds another state than the good one.
abbrev pub not_good_now : Card → Log → ℕ → ℕ
not_good_now card log register =
    if register == address_register then if answer card log register == magic_0 then 0 else 1 else 0

abbrev pub not_good : Card → Log → ℕ
not_good card [] = 0
not_good card (wrote register value ∷ log) = not_good card log
not_good card (was_read register ∷ log) = not_good_now card log register + not_good card log

-- A property of what a run leaves, if its behaviour is defined.
abbrev pub Leaves :
    {A : Type 0} → Outcome Log Error A → (A → Log → Type 0) → (Error → Log → Type 0) → Type 0
Leaves (done a l) P Q = P a l
Leaves (throws e l) P Q = Q e l
Leaves undefined P Q = Unit {0}

pub >>=-Leaves :
    {A B : Type 0} (m : M A) (k : A → M B) (P : A → Log → Type 0) (Q R : Error → Log → Type 0)
    (S : B → Log → Type 0) (log : Log)
    → Leaves (m log) P Q
    → ((a : A) (l : Log) → P a l → Leaves (k a l) S R)
    → ((e : Error) (l : Log) → Q e l → R e l)
    → Leaves ((m >>= k) log) S R
>>=-Leaves m k P Q R S log h r t =
    (elim (m log)
        as (λ o.
          Leaves o P Q
          → Leaves (elim o [ done a l ↦ k a l | throws e l ↦ throws e l | undefined ↦ undefined ]) S
              R) [ done a l ↦ λ p. r a l p | throws e l ↦ λ q. t e l q | undefined ↦ λ u. u ])
      h

pub Leaves-mono :
    {A : Type 0} (o : Outcome Log Error A) (P P' : A → Log → Type 0) (Q : Error → Log → Type 0)
    → Leaves o P Q
    → ((a : A) (l : Log) → P a l → P' a l)
    → Leaves o P' Q
Leaves-mono (done a l) P P' Q h f = f a l h
Leaves-mono (throws e l) P P' Q h f = h
Leaves-mono undefined P P' Q h f = h

Leaves-of :
    {A : Type 0} (o : Outcome Log Error A) (P P' : A → Log → Type 0) (Q Q' : Error → Log → Type 0)
    → Ensures o P Q
    → ((a : A) (l : Log) → P a l → P' a l)
    → ((e : Error) (l : Log) → Q e l → Q' e l)
    → Leaves o P' Q'
Leaves-of (done a l) P P' Q Q' h f g = f a l h
Leaves-of (throws e l) P P' Q Q' h f g = g e l h
Leaves-of undefined P P' Q Q' h f g = tt

module _ (card : Card) where
  -- It does not throw that the flash is stuck, and the count does not fall.
  abbrev pub Grows : {A : Type 0} → M A → Type 0
  Grows m =
      (log : Log)
      → Leaves (m log) (λ a l. not_good card log ≤ not_good card l) (λ e l. ¬ (e ≡ flash_stuck))

  pub >>=-Grows :
      {A B : Type 0} (m : M A) (k : A → M B) → Grows m → ((a : A) → Grows (k a)) → Grows (m >>= k)
  >>=-Grows m k h r log =
      >>=-Leaves m k _ _ _ (λ b x. not_good card log ≤ not_good card x) log (h log)
        (λ a l low.
          Leaves-mono (k a l) (λ b x. not_good card l ≤ not_good card x) _ _ (r a l)
            (λ b x high. omega (arith, low, high)))
        (λ e l n. n)

  pub pure-Grows : {A : Type 0} (a : A) → Grows (pure a)
  pure-Grows a log = omega arith

  pub write_register-Grows : (register value : ℕ) → Grows (write_register card register value)
  write_register-Grows register value log =
      Leaves-of (write_register card register value log) _ _ _ _
        (wrote-Ensures card register value log)
        (λ u l h. subst (λ x. not_good card log ≤ not_good card x) (sym h) (omega arith))
        (λ e l h n. cc (h.0, n))

  -- What a read of the state adds to the count.
  abbrev pub Seen : Log → ℕ → Log → Type 0
  Seen log v l =
      (not_good card log ≤ not_good card l)
      × ((v ≡ magic_0) ⊎ (suc (not_good card log) ≤ not_good card l))

  seen : (log : Log) → Seen log (answer card log address_register) (was_read address_register ∷ log)
  seen log = elim (Bool-cases (answer card log address_register == magic_0)) [
    | inl good ↦ (omega arith, inl (ground (arith, good)))
    | inr bad ↦ (omega arith, inr (rw bad (omega arith)))
  ]

  pub read_state-Leaves :
      (log : Log)
      → Leaves (read_register card address_register log) (Seen log) (λ e l. ¬ (e ≡ flash_stuck))
  read_state-Leaves log =
      Leaves-of (read_register card address_register log) _ _ _ _
        (was_read-Ensures card address_register log)
        (λ v l h.
          subst (λ x. Seen log x l) (sym h.0)
            (subst (λ x. Seen log (answer card log address_register) x) (sym h.1) (seen log)))
        (λ e l h n. cc (h.0, n))

  pub read_register-Grows : (register : ℕ) → Grows (read_register card register)
  read_register-Grows register log =
      Leaves-of (read_register card register log) _ _ _ _ (was_read-Ensures card register log)
        (λ v l h. subst (λ x. not_good card log ≤ not_good card x) (sym h.1) (omega arith))
        (λ e l h n. cc (h.0, n))
