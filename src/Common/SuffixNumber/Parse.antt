-- ===== src/Common/SuffixNumber/Parse.antt =====
-- What a number with a unit stands for.
use mathlib.Core.Path.{subst}
use native.Mathlib.Decide.{dec_lt}
use flp_prototype.Base.{
  List, Option, [], arith, if◌then◌else◌, ltb, none, some, suc, zero, ℕ, ◌%◌, ◌*◌, ◌<◌, ◌==◌, ◌^◌,
  ◌∷◌, ◌≡◌, refl, ◌/◌, ◌≢◌, ap, false, true, ◌++◌, ◌∙◌,
}
use native.Mathlib.Nat.{one-le-pow, mod-eq_of_lt, mul-div_cancel_left, mul-div-le, mod-lt}
use native.Mathlib.Decide.{dec_lt}
use flp_prototype.Common.SuffixNumber.{
  Parsed, number, could_not_convert, too_large, unrecognized_unit, is_numeric, numeric_part,
  unit_part, cons_if, after_if, same, units, multiply, find_unit, with_unit, converted, parse,
}

-- The unit as a value of the type times the number, or no room for it.
abbrev pub scaled : ℕ → List ℕ → ℕ → ℕ → Parsed
scaled w input a unit =
    if ltb (a * (unit % 2 ^ w)) (2 ^ w) then number (a * (unit % 2 ^ w)) else too_large input

pos_pow : (w : ℕ) → 0 < 2 ^ w
pos_pow w = one-le-pow w 2 (omega arith)

-- The check by division finds each overflow, and only these.
multiply_lem :
    (w : ℕ) (input : List ℕ) (a unit : ℕ) → multiply w input a unit ≡ scaled w input a unit
unfolding multiply
multiply_lem w input zero unit = ground (arith, pos_pow w)
multiply_lem w input (suc a) unit = elim (dec_lt (suc a * (unit % 2 ^ w)) (2 ^ w)) [
  | yes fits ↦ ground (
    arith,
    mod-eq_of_lt fits,
    mul-div_cancel_left (unit % 2 ^ w) (let p : 0 < suc a = omega arith in p),
  )
  | no over ↦
      let quotient_ne : suc a * (unit % 2 ^ w) % 2 ^ w / suc a ≢ unit % 2 ^ w = λ e. over (
        subst (λ b. suc a * b < 2 ^ w) e
          (omega (
            arith,
            mul-div-le (suc a * (unit % 2 ^ w) % 2 ^ w) (suc a),
            mod-lt (suc a * (unit % 2 ^ w)) (pos_pow w),
          ))) in
      ground (
        arith,
        mod-lt (suc a * (unit % 2 ^ w)) (pos_pow w),
        mul-div-le (suc a * (unit % 2 ^ w) % 2 ^ w) (suc a),
        quotient_ne,
      )
]

-- The power of a base that a letter stands for, if the text starts with the power `e`.
abbrev pub power_at : ℕ → ℕ → ℕ → List ℕ → Option ℕ
power_at base e c [] = none
power_at base e c (d ∷ ds) = if c == d then some (base ^ e) else power_at base (suc e) c ds

-- A power of 1000 for one letter of kMGTPE, of 1024 for one of KMGTPE and an i.
abbrev pub factor : List ℕ → Option ℕ
factor (c ∷ []) = power_at 1000 1 c (b'k' ∷ b'M' ∷ b'G' ∷ b'T' ∷ b'P' ∷ b'E' ∷ [])
factor (c ∷ d ∷ []) =
    if d == b'i' then power_at 1024 1 c (b'K' ∷ b'M' ∷ b'G' ∷ b'T' ∷ b'P' ∷ b'E' ∷ []) else none
factor other = none

abbrev pub scaled_by : ℕ → List ℕ → ℕ → List ℕ → Option ℕ → Parsed
scaled_by w input a unit none = unrecognized_unit unit
scaled_by w input a unit (some u) = scaled w input a u

lookup : List ℕ → List (List ℕ × ℕ) → Option ℕ
lookup unit [] = none
lookup unit (u ∷ us) = if same unit u.0 then some u.1 else lookup unit us

find_unit-lookup :
    (w : ℕ) (input : List ℕ) (a : ℕ) (unit : List ℕ) (us : List (List ℕ × ℕ))
    → find_unit w input a unit us ≡ scaled_by w input a unit (lookup unit us)
unfolding find_unit lookup
find_unit-lookup w input a unit [] = refl
find_unit-lookup w input a unit (u ∷ us) =
    ground (arith, multiply_lem w input a u.1, find_unit-lookup w input a unit us)

lookup-units : (unit : List ℕ) → lookup unit units ≡ factor unit
unfolding lookup
lookup-units [] = refl
lookup-units (c ∷ []) = ground arith
lookup-units (c ∷ d ∷ []) = ground arith
lookup-units (c ∷ d ∷ e ∷ more) = ground arith

-- The digits, the signs and the points end where another character comes.
abbrev pub AreNumeric : List ℕ → Type 0
AreNumeric [] = Unit {0}
AreNumeric (c ∷ cs) = (is_numeric c ≡ true) × AreNumeric cs

abbrev pub StartsOther : List ℕ → Type 0
StartsOther [] = Unit {0}
StartsOther (c ∷ cs) = is_numeric c ≡ false

numeric_part-append :
    (digits unit : List ℕ)
    → AreNumeric digits
    → StartsOther unit
    → numeric_part (digits ++ unit) ≡ digits
unfolding numeric_part
numeric_part-append [] [] v s = refl
numeric_part-append [] (c ∷ cs) v s = ap (λ t. cons_if t c (numeric_part cs)) s
numeric_part-append (d ∷ digits) unit v s =
    ap (λ t. cons_if t d (numeric_part (digits ++ unit))) v.0
    ∙ ap (λ l. d ∷ l) (numeric_part-append digits unit v.1 s)

unit_part-append :
    (digits unit : List ℕ)
    → AreNumeric digits
    → StartsOther unit
    → unit_part (digits ++ unit) ≡ unit
unfolding unit_part
unit_part-append [] [] v s = refl
unit_part-append [] (c ∷ cs) v s = ap (λ t. after_if t (c ∷ cs) (unit_part cs)) s
unit_part-append (d ∷ digits) unit v s =
    ap (λ t. after_if t (d ∷ digits ++ unit) (unit_part (digits ++ unit))) v.0
    ∙ unit_part-append digits unit v.1 s

-- The number that the digits stand for, times its unit.
abbrev pub scale : ℕ → List ℕ → List ℕ → Option ℕ → Parsed
scale w digits unit none = could_not_convert digits
scale w digits [] (some a) = number a
scale w digits (c ∷ cs) (some a) = scaled_by w (digits ++ c ∷ cs) a (c ∷ cs) (factor (c ∷ cs))

with_unit-scale :
    (w : ℕ) (digits unit : List ℕ) (n : Option ℕ)
    → AreNumeric digits
    → StartsOther unit
    → converted w (digits ++ unit) n ≡ scale w digits unit n
with_unit-scale w digits unit none v s = ap could_not_convert (numeric_part-append digits unit v s)
with_unit-scale w digits [] (some a) v s =
    ap (with_unit w (digits ++ []) a) (unit_part-append digits [] v s)
with_unit-scale w digits (c ∷ cs) (some a) v s =
    ap (with_unit w (digits ++ c ∷ cs) a) (unit_part-append digits (c ∷ cs) v s)
    ∙ find_unit-lookup w (digits ++ c ∷ cs) a (c ∷ cs) units
    ∙ ap (scaled_by w (digits ++ c ∷ cs) a (c ∷ cs)) (lookup-units (c ∷ cs))

-- Text of digits, signs and points with a unit behind it is read as the number that Boost converts the
-- first part to, if there is no unit, and else as the product with the power of 1000 or 1024 that the
-- unit names, this power taken modulo 2 ^ w; where the product is not below 2 ^ w, where the unit is
-- none of the twelve, and where the first part is not converted, it throws. The type of the number
-- is an unsigned one of w bits, and the conversion is any function.
pub parse_lem :
    (w : ℕ) (lexical_convert : List ℕ → Option ℕ) (digits unit : List ℕ)
    → AreNumeric digits
    → StartsOther unit
    → parse w lexical_convert (digits ++ unit) ≡ scale w digits unit (lexical_convert digits)
unfolding parse
parse_lem w lexical_convert digits unit v s =
    ap (λ l. converted w (digits ++ unit) (lexical_convert l)) (numeric_part-append digits unit v s)
    ∙ with_unit-scale w digits unit (lexical_convert digits) v s
