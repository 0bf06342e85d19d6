-- ===== src/Rorc/Dma/Opening/Needs.antt =====
-- Chains of checks that change nothing, and the constructors of the base classes as such a chain.
use mathlib.Core.Path.{subst}
use flp_prototype.Base.{
  ℕ, ◌≡◌, refl, sym, ◌⊎◌, inl, inr, Bool, true, false, not, List, Option, none, some, Outcome,
  Ensures, Ensures-mono, >>=-Ensures, ◌>>◌, throw_if,
}
use flp_prototype.Rorc.Error.{Error}
use flp_prototype.Rorc.Dma.{check_channel_number, contains}
use flp_prototype.Rorc.Dma.Opening.{
  Attempt, acquired, mutex_taken, other_failure, Surroundings, BaseParameters, get_value_or,
  attempt, get_lock, check_channel, construct_base, construct_pda_base,
}

-- It returns exactly if P holds, and it changes nothing then.
abbrev pub Needs : {S : Type 0} → (S → Outcome S Error (Unit {0})) → Type 0 → Type 0
Needs {S} m P = (s : S) → Ensures (m s) (λ u t. (t ≡ s) × P) (λ e t. ¬ P)

pub Needs-then :
    {S : Type 0} (m n : S → Outcome S Error (Unit {0})) (P Q : Type 0)
    → Needs m P
    → Needs n Q
    → Needs (m >> n) (P × Q)
Needs-then m n P Q first second s =
    >>=-Ensures m (λ _. n) (λ u t. (t ≡ s) × P) (λ e t. ¬ (P × Q)) (λ u t. (t ≡ s) × (P × Q)) s
      (Ensures-mono (m s) (λ u t. (t ≡ s) × P) (λ u t. (t ≡ s) × P) (λ e t. ¬ P) (λ e t. ¬ (P × Q))
        (first s) (λ u t h. h) (λ e t n b. n b.0))
      (λ u t h.
        subst (λ x. Ensures (n x) (λ u t. (t ≡ s) × (P × Q)) (λ e t. ¬ (P × Q))) (sym h.0)
          (Ensures-mono (n s) (λ u t. (t ≡ s) × Q) (λ u t. (t ≡ s) × (P × Q)) (λ e t. ¬ Q)
            (λ e t. ¬ (P × Q)) (second s) (λ v r k. (k.0, (h.1, k.1))) (λ e r n b. n b.1)))

pub throw_if-Needs :
    {S : Type 0} (ok : Bool) (e : Error) → Needs {S = S} (throw_if (not ok) e) (ok ≡ true)
throw_if-Needs true e s = (refl, refl)
throw_if-Needs false e s = λ h. cc

-- The lock is got at once, or by force after only the named mutex was taken.
abbrev pub Locks : Bool → Attempt → Attempt → Type 0
Locks forced first second =
    (first ≡ acquired) ⊎ ((first ≡ mutex_taken) × ((forced ≡ true) × (second ≡ acquired)))

get_lock-Needs :
    {S : Type 0} (forced : Bool) (first second : Attempt)
    → Needs {S = S} (get_lock forced first second) (Locks forced first second)
unfolding get_lock attempt
get_lock-Needs true acquired second s = (refl, inl refl)
get_lock-Needs false acquired second s = (refl, inl refl)
get_lock-Needs true other_failure second s = λ h. elim h [ inl e ↦ cc | inr p ↦ cc p.0 ]
get_lock-Needs false other_failure second s = λ h. elim h [ inl e ↦ cc | inr p ↦ cc p.0 ]
get_lock-Needs false mutex_taken second s = λ h. elim h [ inl e ↦ cc | inr p ↦ cc p.1.0 ]
get_lock-Needs true mutex_taken acquired s = (refl, inr (refl, (refl, refl)))
get_lock-Needs true mutex_taken mutex_taken s = λ h. elim h [ inl e ↦ cc | inr p ↦ cc p.1.1 ]
get_lock-Needs true mutex_taken other_failure s = λ h. elim h [ inl e ↦ cc | inr p ↦ cc p.1.1 ]

abbrev pub Allows : List ℕ → Option ℕ → Type 0
Allows allowed none = ⊥
Allows allowed (some n) = contains n allowed ≡ true

check_channel-Needs :
    {S : Type 0} (allowed : List ℕ) (o : Option ℕ)
    → Needs {S = S} (check_channel allowed o) (Allows allowed o)
unfolding check_channel check_channel_number
check_channel-Needs allowed none s = λ h. h
check_channel-Needs allowed (some n) s = throw_if-Needs (contains n allowed) _ s

abbrev pub BaseFits : List ℕ → Surroundings → BaseParameters → Type 0
BaseFits allowed w p =
    (w.card_described ≡ true)
    × (Allows allowed p.channel_number_given
        × ((w.directories_made ≡ true)
            × (Locks (get_value_or p.forced_unlock_given false) w.first_attempt w.second_attempt
                × ((p.buffer_given ≡ true) × (w.buffer_provided ≡ true)))))

abbrev pub PdaBaseFits : List ℕ → Surroundings → BaseParameters → Type 0
PdaBaseFits allowed w p =
    BaseFits allowed w p × ((w.device_opened ≡ true) × (w.buffer_registered ≡ true))

construct_base-Needs :
    {S : Type 0} (allowed : List ℕ) (w : Surroundings) (p : BaseParameters)
    → Needs {S = S} (construct_base allowed w p) (BaseFits allowed w p)
unfolding construct_base
construct_base-Needs allowed w p = Needs-then _ _ _ _ (throw_if-Needs w.card_described _) (
    Needs-then _ _ _ _ (check_channel-Needs allowed p.channel_number_given) (
      Needs-then _ _ _ _ (throw_if-Needs w.directories_made _) (
        Needs-then _ _ _ _
          (get_lock-Needs (get_value_or p.forced_unlock_given false) w.first_attempt
            w.second_attempt)
          (Needs-then _ _ _ _ (throw_if-Needs p.buffer_given _)
            (throw_if-Needs w.buffer_provided _)))))

pub construct_pda_base-Needs :
    {S : Type 0} (allowed : List ℕ) (w : Surroundings) (p : BaseParameters)
    → Needs {S = S} (construct_pda_base allowed w p) (PdaBaseFits allowed w p)
unfolding construct_pda_base
construct_pda_base-Needs allowed w p =
    Needs-then _ _ _ _ (construct_base-Needs allowed w p)
      (Needs-then _ _ _ _ (throw_if-Needs w.device_opened _) (throw_if-Needs w.buffer_registered _))
