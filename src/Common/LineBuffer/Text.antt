-- ===== src/Common/LineBuffer/Text.antt =====
-- The lines of LineBuffer against the bytes that were read, one after the other.
use flp_prototype.Base.Int.{negsuc, pos, ℤ}
use flp_prototype.Base.{
  Bool, List, Option, [], arith, false, length, none, some, true, ℕ, ◌++◌, ◌<◌, ◌==◌, ◌∷◌, ◌≡◌, ap,
  append-nil, append_assoc, refl, suc, sym, zero, ◌∙◌, ◌≤◌,
}
use flp_prototype.Common.LineBuffer.{
  LineBuffer, Input, select_failed, nothing_ready, read_failed, bytes, c_string, Found, extend,
  strchr, parse, append_from_file_descriptor, newline, buffer_size,
}

-- One byte: the end of a line, or one more of the pending line.
abbrev pub put_if : Bool → ℕ → LineBuffer → LineBuffer
put_if true c b = record {
  complete_lines = b.complete_lines ++ b.pending_line ∷ [];
  pending_line = [];
}
put_if false c b = record b { pending_line = b.pending_line ++ c ∷ [] }

abbrev pub put_all : List ℕ → LineBuffer → LineBuffer
put_all [] b = b
put_all (c ∷ cs) b = put_all cs (put_if (c == newline) c b)

-- What a search of a line's end says of the bytes.
abbrev pub Cut : List ℕ → Option Found → Type 0
Cut cs none = (b : LineBuffer) → put_all cs b ≡ record b { pending_line = b.pending_line ++ cs }
Cut cs (some f) =
    (length f.after < length cs)
    × ((b : LineBuffer)
        → put_all cs b
          ≡ put_all f.after (record {
            complete_lines = b.complete_lines ++ (b.pending_line ++ f.before) ∷ [];
            pending_line = [];
          }))

put_all-step :
    (c : ℕ) (cs : List ℕ) (t : Bool) (b : LineBuffer)
    → (c == newline) ≡ t
    → put_all (c ∷ cs) b ≡ put_all cs (put_if t c b)
put_all-step c cs t b e = ap (λ t. put_all cs (put_if t c b)) e

Cut-extend :
    (c : ℕ) (cs : List ℕ) (o : Option Found)
    → (c == newline) ≡ false
    → Cut cs o
    → Cut (c ∷ cs) (extend c o)
Cut-extend c cs none e h = λ b.
    put_all-step c cs false b e
    ∙ h (put_if false c b)
    ∙ ap (λ l. record b { pending_line = l }) (append_assoc b.pending_line (c ∷ []) cs)
Cut-extend c cs (some f) e h = (
  omega (arith, h.0),
  λ b.
      put_all-step c cs false b e
      ∙ h.1 (put_if false c b)
      ∙ ap
          (λ l.
            put_all f.after
              (record { complete_lines = b.complete_lines ++ l ∷ []; pending_line = [] }))
          (append_assoc b.pending_line (c ∷ []) f.before),
)

Cut-strchr : (cs : List ℕ) → Cut cs (strchr cs)
unfolding strchr
Cut-strchr [] = λ b. ap (λ l. record b { pending_line = l }) (sym (append-nil b.pending_line))
Cut-strchr (c ∷ cs) = first (Cut-strchr cs) (c == newline) refl
  where
    first :
        Cut cs (strchr cs)
        → (t : Bool) → (c == newline) ≡ t
        → Cut (c ∷ cs) (elim t [
          | true ↦ some (record { before = []; after = cs })
          | false ↦ extend c (strchr cs)
        ])
    first cut true e = (
      omega arith,
      λ b.
          put_all-step c cs true b e
          ∙ ap
              (λ l.
                put_all cs
                  (record { complete_lines = b.complete_lines ++ l ∷ []; pending_line = [] }))
              (sym (append-nil b.pending_line)),
    )
    first cut false e = Cut-extend c cs (strchr cs) e cut

-- One turn of the loop over the lines.
parse-Cut :
    (fuel c : ℕ) (cs : List ℕ) (b : LineBuffer)
    → length (c ∷ cs) ≤ suc fuel
    → ((cs : List ℕ) (b : LineBuffer) → length cs ≤ fuel → parse fuel cs b ≡ put_all cs b)
    → (o : Option Found) → Cut (c ∷ cs) o
    → (elim o [
      | none ↦ record b { pending_line = b.pending_line ++ c ∷ cs }
      | some f ↦ parse fuel f.after (record {
        complete_lines = b.complete_lines ++ (b.pending_line ++ f.before) ∷ [];
        pending_line = [];
      })
    ])
      ≡ put_all (c ∷ cs) b
parse-Cut fuel c cs b h more none cut = sym (cut b)
parse-Cut fuel c cs b h more (some f) cut = more f.after _ (omega (arith, cut.0)) ∙ sym (cut.1 b)

parse-put_all :
    (fuel : ℕ) (cs : List ℕ) (b : LineBuffer) → length cs ≤ fuel → parse fuel cs b ≡ put_all cs b
unfolding parse
parse-put_all fuel [] b h = refl
parse-put_all zero (c ∷ cs) b h = absurd (omega arith)
parse-put_all (suc fuel) (c ∷ cs) b h =
    parse-Cut fuel c cs b h (parse-put_all fuel) (strchr (c ∷ cs)) (Cut-strchr (c ∷ cs))

-- The reads that come before the method returns, each without what is behind a 0 in it.
abbrev pub received : List Input → List ℕ
received (bytes (c ∷ cs) ∷ inputs) = c_string (c ∷ cs) ++ received inputs
received other = []

-- The method returns -1 at the end of the file, 0 otherwise.
abbrev pub result : List Input → ℤ
result (bytes (c ∷ cs) ∷ inputs) = result inputs
result (bytes [] ∷ inputs) = negsuc 0
result other = pos 0

-- No read gives more than there is room for.
abbrev pub Fits : List Input → Type 0
Fits (bytes cs ∷ inputs) = (length cs < buffer_size) × Fits inputs
Fits (other ∷ inputs) = Fits inputs
Fits [] = Unit {0}

length-c_string : (cs : List ℕ) → length (c_string cs) ≤ length cs
unfolding c_string
length-c_string [] = omega arith
length-c_string (c ∷ cs) = ground (arith, length-c_string cs)

put_all-append :
    (cs ds : List ℕ) (b : LineBuffer) → put_all (cs ++ ds) b ≡ put_all ds (put_all cs b)
put_all-append [] ds b = refl
put_all-append (c ∷ cs) ds b = put_all-append cs ds (put_if (c == newline) c b)

-- However the bytes are cut into reads, the buffer is as if they were taken one after the other: a
-- newline completes a line, any other byte is added to the pending line. The result is -1 if the end of
-- the file is met, and 0 otherwise. This holds for all reads that fit into the buffer; a read counts
-- up to its first 0 byte.
pub append_from_file_descriptor_lem :
    (inputs : List Input) (b : LineBuffer)
    → Fits inputs
    → append_from_file_descriptor inputs b ≡ (result inputs, put_all (received inputs) b)
unfolding append_from_file_descriptor
append_from_file_descriptor_lem [] b h = refl
append_from_file_descriptor_lem (select_failed ∷ inputs) b h = refl
append_from_file_descriptor_lem (nothing_ready ∷ inputs) b h = refl
append_from_file_descriptor_lem (read_failed ∷ inputs) b h = refl
append_from_file_descriptor_lem (bytes [] ∷ inputs) b h = refl
append_from_file_descriptor_lem (bytes (c ∷ cs) ∷ inputs) b h =
    append_from_file_descriptor_lem inputs (parse buffer_size (c_string (c ∷ cs)) b) h.1
    ∙ ap (λ b. (result inputs, put_all (received inputs) b))
        (parse-put_all buffer_size (c_string (c ∷ cs)) b
          (omega (arith, length-c_string (c ∷ cs), h.0)))
    ∙ ap (λ b. (result inputs, b)) (sym (put_all-append (c_string (c ∷ cs)) (received inputs) b))
