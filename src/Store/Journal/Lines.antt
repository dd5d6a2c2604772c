-- ===== src/Store/Journal/Lines.antt =====
-- The lines of bytes that follow each other, and of a front part of them.
use open_chronicle_next.Base.{
  ℕ, suc, ◌+◌, ◌≡◌, refl, sym, ap, ◌∙◌, inl, inr, Bool, true, false, not, List, [], ◌∷◌, ◌++◌,
  length, take, every, ◌==◌, if◌then◌else◌, arith, Bool-cases,
}
use open_chronicle_next.Store.Journal.{Bytes, put_byte, split_lines, lines_length}

-- No byte is a newline.
abbrev pub is_line : Bytes → Bool
is_line bytes = every (λ b. not (b == 10)) bytes

-- A partial line in front of the lines that follow.
abbrev pub join : Bytes → List Bytes × Bytes → List Bytes × Bytes
join partial ([], rest) = ([], partial ++ rest)
join partial (line ∷ lines, rest) = ((partial ++ line) ∷ lines, rest)

join_empty : (x : List Bytes × Bytes) → join [] x ≡ x
join_empty ([], rest) = refl
join_empty (line ∷ lines, rest) = refl

put_byte-join :
    (b : ℕ) (lines : List Bytes) (partial : Bytes) (x : List Bytes × Bytes)
    → put_byte b (lines ++ (join partial x).0, (join partial x).1) ≡ (
      (put_byte b (lines, partial)).0 ++ (join (put_byte b (lines, partial)).1 x).0,
      (join (put_byte b (lines, partial)).1 x).1,
    )
put_byte-join b [] partial ([], rest) = refl
put_byte-join b [] partial (line ∷ lines, rest) = refl
put_byte-join b (first ∷ others) partial x = refl

-- The lines of bytes to which others are appended.
pub split_lines-append :
    (bytes more : Bytes)
    → split_lines (bytes ++ more) ≡ (
      (split_lines bytes).0 ++ (join (split_lines bytes).1 (split_lines more)).0,
      (join (split_lines bytes).1 (split_lines more)).1,
    )
unfolding split_lines
split_lines-append [] more = sym (join_empty (split_lines more))
split_lines-append (b ∷ bytes) more =
    let rest = split_lines-append bytes more in
    elim (Bool-cases (b == 10)) [
      | inl newline ↦ ground (arith, newline, rest)
      | inr other ↦
          let put =
            put_byte-join b (split_lines bytes).0 (split_lines bytes).1 (split_lines more) in
          ground (arith, other, rest, put)
    ]

take-suc : (n m b : ℕ) (bytes : Bytes) → n ≡ suc m → take n (b ∷ bytes) ≡ b ∷ take m bytes
take-suc n m b bytes h = ap (λ k. take k (b ∷ bytes)) h

-- The pair that a byte in front of the others makes.
abbrev added : ℕ → Bool → List Bytes × Bytes → List Bytes × Bytes
added b newline x = if newline then ([] ∷ x.0, x.1) else put_byte b x

taken :
    (b : ℕ) (bytes : Bytes) (newline : Bool) (x : List Bytes × Bytes)
    → (b == 10) ≡ newline
    → split_lines (take (lines_length x.0) bytes) ≡ (x.0, [])
    → split_lines (take (lines_length (added b newline x).0) (b ∷ bytes))
      ≡ ((added b newline x).0, [])
unfolding split_lines lines_length
taken b bytes true x is h =
    let more = take-suc (lines_length ([] ∷ x.0)) (lines_length x.0) b bytes (omega arith) in
    ap (λ y. split_lines y) more ∙ ground (arith, is, h)
taken b bytes false ([], partial) is h = refl
taken b bytes false (line ∷ lines, partial) is h =
    let more =
      take-suc (lines_length ((b ∷ line) ∷ lines)) (lines_length (line ∷ lines)) b bytes
        (omega arith) in
    ap (λ y. split_lines y) more ∙ ground (arith, is, h)

-- The bytes of the complete lines alone.
pub split_lines-take :
    (bytes : Bytes)
    → split_lines (take (lines_length (split_lines bytes).0) bytes) ≡ ((split_lines bytes).0, [])
unfolding split_lines lines_length
split_lines-take [] = refl
split_lines-take (b ∷ bytes) =
    taken b bytes (b == 10) (split_lines bytes) refl (split_lines-take bytes)

counted :
    (b n : ℕ) (newline : Bool) (x : List Bytes × Bytes)
    → lines_length x.0 + length x.1 ≡ n
    → lines_length (added b newline x).0 + length (added b newline x).1 ≡ suc n
unfolding lines_length
counted b n true x h = omega (arith, h)
counted b n false ([], partial) h = omega (arith, h)
counted b n false (line ∷ lines, partial) h = omega (arith, h)

-- Every byte is in a complete line or behind the last one.
pub split_lines-length :
    (bytes : Bytes)
    → lines_length (split_lines bytes).0 + length (split_lines bytes).1 ≡ length bytes
unfolding split_lines lines_length
split_lines-length [] = refl
split_lines-length (b ∷ bytes) =
    counted b (length bytes) (b == 10) (split_lines bytes) (split_lines-length bytes)

pub lines_length-append :
    (xs ys : List Bytes) → lines_length (xs ++ ys) ≡ lines_length xs + lines_length ys
unfolding lines_length
lines_length-append [] ys = omega arith
lines_length-append (x ∷ xs) ys = omega (arith, lines_length-append xs ys)

-- One line, with its newline.
pub split_lines_one :
    (line : Bytes) → is_line line ≡ true → split_lines (line ++ 10 ∷ []) ≡ (line ∷ [], [])
unfolding split_lines
split_lines_one [] h = refl
split_lines_one (b ∷ line) h =
    let tail = split_lines_one line (ground (arith, h)) in ground (arith, h, tail)
