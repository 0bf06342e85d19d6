-- ===== src/Base/Outcomes.antt =====
-- What a C++ method does to its object: it returns, it throws (the object keeps what was written
-- before the throw), or its behaviour is undefined.
use mathlib.Core.Bool.{Bool, true, false}
use mathlib.Core.Option.{Option, none, some}

pub data Outcome (S E A : Type 0) : Type 0 where
  done : A → S → Outcome S E A
  throws : E → S → Outcome S E A
  undefined : Outcome S E A

infixl 5 ◌>>=◌ ◌>>◌
abbrev pub ◌>>=◌ :
    {S E A B : Type 0} → (S → Outcome S E A) → (A → S → Outcome S E B) → S → Outcome S E B
◌>>=◌ m f s = elim (m s) [ done a t ↦ f a t | throws e t ↦ throws e t | undefined ↦ undefined ]

abbrev pub ◌>>◌ :
    {S E B : Type 0} → (S → Outcome S E (Unit {0})) → (S → Outcome S E B) → S → Outcome S E B
◌>>◌ m k = m >>= λ _. k

abbrev pub pure : {S E A : Type 0} → A → S → Outcome S E A
pure a s = done a s

abbrev pub gets : {S E A : Type 0} → (S → A) → S → Outcome S E A
gets f s = done (f s) s

abbrev pub modify : {S E : Type 0} → (S → S) → S → Outcome S E (Unit {0})
modify f s = done tt (f s)

-- The value is there, or reading it is undefined behaviour.
abbrev pub defined : {S E A : Type 0} → Option A → S → Outcome S E A
defined none s = undefined
defined (some a) s = done a s

-- `if (test) BOOST_THROW_EXCEPTION(...)`
abbrev pub throw_if : {S E : Type 0} → Bool → E → S → Outcome S E (Unit {0})
throw_if true e s = throws e s
throw_if false e s = done tt s

-- A property of what a run leaves: undefined behaviour meets none.
abbrev pub Ensures : {S E A : Type 0} → Outcome S E A → (A → S → Type 0) → (E → S → Type 0) → Type 0
Ensures (done a s) P Q = P a s
Ensures (throws e s) P Q = Q e s
Ensures undefined P Q = ⊥

-- What follows a step is shown from what the step leaves.
pub >>=-Ensures :
    {S E A B : Type 0} (m : S → Outcome S E A) (k : A → S → Outcome S E B) (P : A → S → Type 0)
    (Q : E → S → Type 0) (R : B → S → Type 0) (s : S)
    → Ensures (m s) P Q
    → ((a : A) (t : S) → P a t → Ensures (k a t) R Q)
    → Ensures ((m >>= k) s) R Q
>>=-Ensures m k P Q R s h r =
    (elim (m s)
        as (λ o.
          Ensures o P Q
          → Ensures (elim o [ done a t ↦ k a t | throws e t ↦ throws e t | undefined ↦ undefined ])
              R Q) [ done a t ↦ λ p. r a t p | throws e t ↦ λ q. q | undefined ↦ λ f. f ])
      h

pub Ensures-mono :
    {S E A : Type 0} (o : Outcome S E A) (P P' : A → S → Type 0) (Q Q' : E → S → Type 0)
    → Ensures o P Q
    → ((a : A) (s : S) → P a s → P' a s)
    → ((e : E) (s : S) → Q e s → Q' e s)
    → Ensures o P' Q'
Ensures-mono (done a s) P P' Q Q' h f g = f a s h
Ensures-mono (throws e s) P P' Q Q' h f g = g e s h
Ensures-mono undefined P P' Q Q' h f g = h
