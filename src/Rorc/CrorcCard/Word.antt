-- ===== src/Rorc/CrorcCard/Word.antt =====
-- The word of a command, and the fields of StWord.h.
use mathlib.Core.Path.{subst}
use flp_prototype.Rorc.CrorcCard.Link.{
  code_part, command_word, dest_part, low_4_bits, packed, param_part, trid_part,
}
use flp_prototype.Base.Int.{negsuc, pos, ℤ}
use flp_prototype.Base.{arith, refl, sym, ℕ, ◌%◌, ◌<◌, ◌^◌, ◌≡◌}

-- The fields of a command word, read back as those of a status word: the low bits of what went in,
-- and a clear error bit.
abbrev pub Holds : ℕ → ℕ → ℕ → ℤ → ℕ → Type 0
Holds word destination command transid param =
    (dest_part (record { stw = word }) ≡ destination)
    × (code_part (record { stw = word }) ≡ command % 2 ^ 4)
    × (trid_part (record { stw = word }) ≡ low_4_bits transid)
    × (param_part (record { stw = word }) ≡ param % 2 ^ 19)
    × (word < 2 ^ 31)

low_4_bits-lt : (z : ℤ) → low_4_bits z < 16
unfolding low_4_bits
low_4_bits-lt (pos n) = omega arith
low_4_bits-lt (negsuc n) = omega arith

packed-Holds :
    (destination command : ℕ) (transid : ℤ) (param : ℕ)
    → destination < 2 ^ 4
    → Holds (packed destination command transid param) destination command transid param
unfolding packed dest_part code_part trid_part param_part
packed-Holds destination command transid param h = (
  omega (arith, low_4_bits-lt transid),
  omega (arith, low_4_bits-lt transid),
  omega (arith, low_4_bits-lt transid),
  omega (arith, low_4_bits-lt transid),
  omega (arith, low_4_bits-lt transid),
)

command_word-packed :
    (dest command : ℕ) (transid : ℤ) (param : ℕ)
    → command_word (pos dest) command transid param ≡ packed (dest % 2 ^ 4) command transid param
unfolding command_word low_4_bits
command_word-packed dest command transid param = refl

-- The word that ddlSendCommand() sends to a destination holds the destination, the command, the
-- transaction and the parameter in the fields that StWord has for them, each cut to the width of its
-- field, and has a clear top bit: nothing overlaps and nothing is lost in 32 bits.
pub command_word_lem :
    (dest command : ℕ) (transid : ℤ) (param : ℕ)
    → Holds (command_word (pos dest) command transid param) (dest % 2 ^ 4) command transid param
command_word_lem dest command transid param =
    subst (λ w. Holds w (dest % 2 ^ 4) command transid param)
      (sym (command_word-packed dest command transid param))
      (packed-Holds (dest % 2 ^ 4) command transid param (omega arith))
