-- ===== src/Common/LineBuffer/NextLine.antt =====
-- What LineBuffer holds, as the bytes that were read, and what getNextLine() takes of them.
use mathlib.Core.Path.{subst}
use flp_prototype.Base.{
  Bool, List, Option, [], ap, append-nil, append_assoc, false, none, refl, some, sym, true, ℕ, ◌++◌,
  ◌==◌, ◌∙◌, ◌∷◌, ◌≡◌, ==_iff,
}
use flp_prototype.Common.LineBuffer.{
  LineBuffer, Input, append_from_file_descriptor, get_next_line, newline,
}
use flp_prototype.Common.LineBuffer.Text.{
  put_if, put_all, received, Fits, append_from_file_descriptor_lem,
}

-- What the buffer holds, written out again.
abbrev pub write_lines : List (List ℕ) → List ℕ
write_lines [] = []
write_lines (line ∷ lines) = line ++ newline ∷ write_lines lines

abbrev pub text : LineBuffer → List ℕ
text b = write_lines b.complete_lines ++ b.pending_line

abbrev pub IsLine : List ℕ → Type 0
IsLine [] = Unit {0}
IsLine (c ∷ cs) = ((c == newline) ≡ false) × IsLine cs

abbrev pub AreLines : List (List ℕ) → Type 0
AreLines [] = Unit {0}
AreLines (line ∷ lines) = IsLine line × AreLines lines

-- No newline stands within a line.
abbrev pub IsClean : LineBuffer → Type 0
IsClean b = AreLines b.complete_lines × IsLine b.pending_line

IsLine-append :
    (line : List ℕ) (c : ℕ) → IsLine line → (c == newline) ≡ false → IsLine (line ++ c ∷ [])
IsLine-append [] c v e = (e, tt)
IsLine-append (d ∷ line) c v e = (v.0, IsLine-append line c v.1 e)

AreLines-append :
    (lines : List (List ℕ)) (line : List ℕ)
    → AreLines lines
    → IsLine line
    → AreLines (lines ++ line ∷ [])
AreLines-append [] line v w = (w, tt)
AreLines-append (l ∷ lines) line v w = (v.0, AreLines-append lines line v.1 w)

write_lines-append :
    (lines : List (List ℕ)) (line : List ℕ)
    → write_lines (lines ++ line ∷ []) ≡ write_lines lines ++ (line ++ newline ∷ [])
write_lines-append [] line = refl
write_lines-append (l ∷ lines) line =
    ap (λ r. l ++ newline ∷ r) (write_lines-append lines line)
    ∙ sym (append_assoc l (newline ∷ write_lines lines) (line ++ newline ∷ []))

put-text :
    (c : ℕ) (t : Bool) (b : LineBuffer)
    → (c == newline) ≡ t
    → IsClean b
    → (text (put_if t c b) ≡ text b ++ c ∷ []) × IsClean (put_if t c b)
put-text c true b e v = (
  append-nil (write_lines (b.complete_lines ++ b.pending_line ∷ []))
      ∙ write_lines-append b.complete_lines b.pending_line
      ∙ sym (append_assoc (write_lines b.complete_lines) b.pending_line (newline ∷ []))
      ∙ ap (λ c. text b ++ c ∷ []) (sym ((==_iff c newline).0 e)),
  (AreLines-append b.complete_lines b.pending_line v.0 v.1, tt),
)
put-text c false b e v = (
  sym (append_assoc (write_lines b.complete_lines) b.pending_line (c ∷ [])),
  (v.0, IsLine-append b.pending_line c v.1 e),
)

put_all-text :
    (cs : List ℕ) (b : LineBuffer)
    → IsClean b
    → (text (put_all cs b) ≡ text b ++ cs) × IsClean (put_all cs b)
put_all-text [] b v = (sym (append-nil (text b)), v)
put_all-text (c ∷ cs) b v =
    let (one, clean) = put-text c (c == newline) b refl v in
    let (rest, done_clean) = put_all-text cs (put_if (c == newline) c b) clean in
    (rest ∙ ap (λ l. l ++ cs) one ∙ append_assoc (text b) (c ∷ []) cs, done_clean)

-- What getNextLine() gives of all the bytes: the pending line is all, or a line ends and the rest stays.
abbrev pub Next : List ℕ → Option (List ℕ) × LineBuffer → Type 0
Next whole (none, b) = IsLine whole × (text b ≡ whole) × IsClean b
Next whole (some line, b) = IsLine line × (whole ≡ line ++ newline ∷ text b) × IsClean b

get_next_line-Next : (b : LineBuffer) → IsClean b → Next (text b) (get_next_line b)
unfolding get_next_line
get_next_line-Next b v = split b.complete_lines refl v.0
  where
    split :
        (lines : List (List ℕ))
        → b.complete_lines ≡ lines
        → AreLines lines
        → Next (text b) (elim lines [
          | [] ↦ (none, b)
          | line ∷ lines ↦ (some line, record b { complete_lines = lines })
        ])
    split [] e w = (subst (λ l. IsLine (write_lines l ++ b.pending_line)) (sym e) v.1, refl, v)
    split (line ∷ lines) e w = (
      w.0,
      ap (λ l. write_lines l ++ b.pending_line) e
          ∙ append_assoc line (newline ∷ write_lines lines) b.pending_line,
      (w.1, v.1),
    )

-- Once what the descriptor gives is read, the next line is all up to the first newline, of what the buffer
-- held and what was read behind it, and the rest stays in the buffer; there is no next line exactly
-- where there is no newline, and then nothing is lost. This holds for a buffer with no newline within a
-- line, which it stays, and for reads that fit into the buffer and count up to their first 0 byte.
pub next_line_lem :
    (inputs : List Input) (b : LineBuffer)
    → IsClean b
    → Fits inputs
    → Next (text b ++ received inputs) (get_next_line ((append_from_file_descriptor inputs b).1))
next_line_lem inputs b v h =
    let (written, clean) = put_all-text (received inputs) b v in
    subst (λ r. Next (text b ++ received inputs) (get_next_line (r.1)))
      (sym (append_from_file_descriptor_lem inputs b h))
      (subst (λ t. Next t (get_next_line (put_all (received inputs) b))) written
        (get_next_line-Next (put_all (received inputs) b) clean))
