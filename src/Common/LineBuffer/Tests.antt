-- ===== src/Common/LineBuffer/Tests.antt =====
-- The theorems of LineBuffer where two reads and the end of the file meet a pending line.
use flp_prototype.Base.Int.{negsuc}
use flp_prototype.Base.{List, [], arith, refl, ◌∷◌, ◌≡◌}
use flp_prototype.Common.LineBuffer.{
  LineBuffer, Input, bytes, append_from_file_descriptor, get_next_line, c_string,
}
use flp_prototype.Common.LineBuffer.Text.{append_from_file_descriptor_lem}
use flp_prototype.Common.LineBuffer.NextLine.{next_line_lem, Next}

abbrev begun : LineBuffer
begun = record { complete_lines = []; pending_line = b'a' ∷ [] }

-- "b\nc", "d\n" and the end of the file.
abbrev reads : List Input
reads = bytes (b'b' ∷ b'\n' ∷ b'c' ∷ []) ∷ bytes (b'd' ∷ b'\n' ∷ []) ∷ bytes [] ∷ []

abbrev all_read : LineBuffer
all_read = record {
  complete_lines = (b'a' ∷ b'b' ∷ []) ∷ (b'c' ∷ b'd' ∷ []) ∷ [];
  pending_line = [];
}

append_from_file_descriptor_lem_example :
    append_from_file_descriptor reads begun ≡ (negsuc 0, all_read)
unfolding c_string
append_from_file_descriptor_lem_example =
    append_from_file_descriptor_lem reads begun (omega arith, (omega arith, (omega arith, tt)))

next_line_lem_example :
    Next
      (b'a' ∷ b'b' ∷ b'\n' ∷ b'c' ∷ b'd' ∷ b'\n' ∷ [])
      (get_next_line ((append_from_file_descriptor reads begun).1))
unfolding c_string
next_line_lem_example =
    next_line_lem reads begun (tt, (refl, tt)) (omega arith, (omega arith, (omega arith, tt)))
