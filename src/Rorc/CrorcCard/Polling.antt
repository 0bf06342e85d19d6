-- ===== src/Rorc/CrorcCard/Polling.antt =====
-- The loops of class Crorc that check the card again and again, up to a number of times.
use mathlib.Core.Path.{subst}
use flp_prototype.Rorc.Error.{Error, bar_access_failed}
use flp_prototype.Rorc.Bar.{Log, M}
use flp_prototype.Base.{
  >>=-Ensures, Bool, Ensures, Ensures-mono, Outcome, arith, false, inl, inr, pure, refl, suc,
  throws, true, zero, ℕ, ◌<◌, ◌>>=◌, ◌≡◌, ◌⊎◌, sym, ap, ◌+◌, ◌∙◌,
}

-- for (i = 0; i < n; ++i) { if (step()) { return; } } throw error;
unfoldable pub until : M Bool → Error → ℕ → M (Unit {0})
until step error zero = throws error
until step error (suc n) =
    step >>= λ found. elim found [ true ↦ pure tt | false ↦ until step error n ]

abbrev pub times : (Log → Log) → ℕ → Log → Log
times f zero log = log
times f (suc k) log = times f k (f log)

pub times-add :
    (f : Log → Log) (j k : ℕ) (log : Log) → times f j (times f k log) ≡ times f (k + j) log
times-add f j zero log = ap (λ n. times f n log) (let s : j ≡ 0 + j = omega arith in s)
times-add f j (suc k) log =
    times-add f j k (f log)
    ∙ ap (λ n. times f n log) (let s : suc (k + j) ≡ suc k + j = omega arith in s)

-- The first k checks fail.
abbrev pub Fails : (Log → Bool) → (Log → Log) → ℕ → Log → Type 0
Fails test f zero log = Unit {0}
Fails test f (suc k) log = (test log ≡ false) × Fails test f k (f log)

-- Check number k, of less than n, is the first that succeeds, and the last made.
abbrev pub StopsAt : (Log → Bool) → (Log → Log) → ℕ → ℕ → Log → Log → Type 0
StopsAt test f n k log l =
    (k < n) × Fails test f k log × (test (times f k log) ≡ true) × (l ≡ times f (suc k) log)

-- n checks fail, and no more are made.
abbrev pub RunsOut : (Log → Bool) → (Log → Log) → ℕ → Log → Log → Type 0
RunsOut test f n log l = Fails test f n log × (l ≡ times f n log)

-- The card refuses an access in check number k; the checks before fail.
abbrev pub Breaks : (Log → Bool) → (Log → Log) → (Log → Log → Type 0) → ℕ → ℕ → Log → Log → Type 0
Breaks test f Part n k log l = (k < n) × Fails test f k log × Part (times f k log) l

-- What a loop of n checks leaves: `test` is what a check finds after some accesses, `f` makes its
-- accesses, and `Part` what a refused access leaves of them.
abbrev pub Polls :
    (Log → Bool)
    → (Log → Log)
    → (Log → Log → Type 0)
    → Error
    → ℕ
    → Log
    → Outcome Log Error (Unit {0})
    → Type 0
Polls test f Part error n log o =
    Ensures o (λ u l. (k : ℕ) × StopsAt test f n k log l)
      (λ e l.
        ((e ≡ error) × RunsOut test f n log l)
        ⊎ ((e ≡ bar_access_failed) × (k : ℕ) × Breaks test f Part n k log l))

module _ (test : Log → Bool) (f : Log → Log) (Part : Log → Log → Type 0) (error : Error) (n : ℕ)
    (log : Log) (missed : test log ≡ false) where
  -- One failed check more, before the others.
  Polls-later :
      (o : Outcome Log Error (Unit {0}))
      → Polls test f Part error n (f log) o
      → Polls test f Part error (suc n) log o
  Polls-later o h =
      Ensures-mono o _ _ _ _ h
        (λ u l s. (suc s.0, (omega (arith, s.1.0), (missed, s.1.1), s.1.2, s.1.3)))
        (λ e l s. elim s [
          | inl r ↦ inl (r.0, ((missed, r.1.0), r.1.1))
          | inr r ↦ inr (r.0, suc r.1, (omega (arith, r.2.0), (missed, r.2.1), r.2.2))
        ])

module _ (step : M Bool) (error : Error) (test : Log → Bool) (f : Log → Log)
    (Part : Log → Log → Type 0)
    (checks : (log : Log)
      → Ensures
          (step log)
          (λ b l. (b ≡ test log) × (l ≡ f log))
          (λ e l. (e ≡ bar_access_failed) × Part log l)) where
  -- After a check, with the others still to make.
  abbrev continue : ℕ → Bool → M (Unit {0})
  continue n b = elim b [ true ↦ pure tt | false ↦ until step error n ]

  after :
      (n : ℕ) (log : Log) (b : Bool) (l : Log)
      → b ≡ test log
      → l ≡ f log
      → Polls test f Part error n (f log) (until step error n (f log))
      → Polls test f Part error (suc n) log (continue n b l)
  after n log true l found same ih = (0, (omega arith, tt, sym found, same))
  after n log false l missed same ih =
      subst (λ x. Polls test f Part error (suc n) log (until step error n x)) (sym same)
        (Polls-later test f Part error n log (sym missed) (until step error n (f log)) ih)

  pub until-Polls : (n : ℕ) (log : Log) → Polls test f Part error n log (until step error n log)
  unfolding until
  until-Polls zero log = inl (refl, (tt, refl))
  until-Polls (suc n) log =
      >>=-Ensures step _ (λ b l. (b ≡ test log) × (l ≡ f log)) _ _ log
        (Ensures-mono (step log) _ _ _ _ (checks log) (λ b l h. h)
          (λ e l h. inr (h.0, 0, (omega arith, tt, h.1))))
        (λ b l h. after n log b l h.0 h.1 (until-Polls n (f log)))
