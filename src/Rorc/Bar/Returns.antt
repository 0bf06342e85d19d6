-- ===== src/Rorc/Bar/Returns.antt =====
-- Register accesses return or throw that the access failed; there is no third way.
use flp_prototype.Base.{ℕ, ◌≡◌, ◌>>=◌, ◌>>◌, Ensures, >>=-Ensures, arith}
use flp_prototype.Rorc.Error.{bar_access_failed}
use flp_prototype.Rorc.Bar.{Card, Log, M, write_register, read_register}

abbrev pub Returns : {A : Type 0} → M A → Type 0
Returns m = (log : Log) → Ensures (m log) (λ a l. Unit {0}) (λ e l. e ≡ bar_access_failed)

pub write_register-Returns :
    (card : Card) (register value : ℕ) → Returns (write_register card register value)
unfolding write_register
write_register-Returns card register value log = ground arith

pub read_register-Returns : (card : Card) (register : ℕ) → Returns (read_register card register)
unfolding read_register
read_register-Returns card register log = ground arith

-- A sequence of accesses.
pub >>-Returns :
    {A : Type 0} (m : M (Unit {0})) (k : M A) → Returns m → Returns k → Returns (m >> k)
>>-Returns m k h r log = >>=-Ensures m (λ _. k) _ _ _ log (h log) (λ a l p. r l)

pub >>=-Returns :
    {A B : Type 0} (m : M A) (k : A → M B)
    → Returns m
    → ((a : A) → Returns (k a))
    → Returns (m >>= k)
>>=-Returns m k h r log = >>=-Ensures m k _ _ _ log (h log) (λ a l p. r a l)
