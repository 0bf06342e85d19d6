-- ===== src/Common/LineBuffer.antt =====
-- Common/src/LineBuffer.cxx: bytes of a file descriptor, cut into lines. What select() and read() give
-- is the argument of the methods.
pub mod Text
pub mod NextLine
mod Tests
use flp_prototype.Base.Int.{negsuc, pos, ℤ}
use flp_prototype.Base.{List, Option, [], false, none, some, suc, true, zero, ℕ, ◌++◌, ◌==◌, ◌∷◌}

abbrev pub newline : ℕ
newline = b'\n'

pub record LineBuffer : Type 0 where
  pub complete_lines : List (List ℕ)
  pub pending_line : List ℕ

-- What one turn of the loop gets: select() fails, nothing is ready in time, read() fails, or it gives
-- some bytes, none at the end of the file.
pub data Input : Type 0 where
  select_failed nothing_ready read_failed : Input
  bytes : List ℕ → Input

-- A C string ends at its first 0.
unfoldable pub c_string : List ℕ → List ℕ
c_string [] = []
c_string (c ∷ cs) = elim (c == 0) [ true ↦ [] | false ↦ c ∷ c_string cs ]

-- strchr(ptr, '\n'): what stands before it and after it.
pub record Found : Type 0 where
  pub before : List ℕ
  pub after : List ℕ

abbrev pub extend : ℕ → Option Found → Option Found
extend c none = none
extend c (some f) = some (record { before = c ∷ f.before; after = f.after })

unfoldable pub strchr : List ℕ → Option Found
strchr [] = none
strchr (c ∷ cs) = elim (c == newline) [
  | true ↦ some (record { before = []; after = cs })
  | false ↦ extend c (strchr cs)
]

-- The loop over the lines of a buffer, with `fuel` for its turns.
unfoldable pub parse : ℕ → List ℕ → LineBuffer → LineBuffer
parse fuel [] b = b
parse zero (c ∷ cs) b = b
parse (suc fuel) (c ∷ cs) b = elim (strchr (c ∷ cs)) [
  | none ↦ record b { pending_line = b.pending_line ++ c ∷ cs }
  | some f ↦ parse fuel f.after (record {
    complete_lines = b.complete_lines ++ (b.pending_line ++ f.before) ∷ [];
    pending_line = [];
  })
]

-- The buffer takes 999 bytes, so a turn of the loop takes one byte at least.
abbrev pub buffer_size : ℕ
buffer_size = 1000

unfoldable pub append_from_file_descriptor : List Input → LineBuffer → ℤ × LineBuffer
append_from_file_descriptor [] b = (pos 0, b)
append_from_file_descriptor (select_failed ∷ inputs) b = (pos 0, b)
append_from_file_descriptor (nothing_ready ∷ inputs) b = (pos 0, b)
append_from_file_descriptor (read_failed ∷ inputs) b = (pos 0, b)
append_from_file_descriptor (bytes [] ∷ inputs) b = (negsuc 0, b)
append_from_file_descriptor (bytes (c ∷ cs) ∷ inputs) b =
    append_from_file_descriptor inputs (parse buffer_size (c_string (c ∷ cs)) b)

-- The line that is returned, if the result is 0.
unfoldable pub get_next_line : LineBuffer → Option (List ℕ) × LineBuffer
get_next_line b = elim b.complete_lines [
  | [] ↦ (none, b)
  | line ∷ lines ↦ (some line, record b { complete_lines = lines })
]
