-- ===== src/Store/Journal/Scan.antt =====
-- The scan of a shard when bytes are appended to it, and when its partial tail is cut off.
use open_chronicle_next.Base.{
  ℕ, suc, ◌+◌, ◌≤◌, ◌≡◌, sym, ap, subst, ◌∙◌, inl, inr, String, Bool, true, ◌&&◌, List, [], ◌∷◌,
  ◌++◌, length, length-append, take, ltb, ◌==◌, arith,
}
use open_chronicle_next.Base.Outcome.{Result, ok, ◌>>=◌, ok_injective, Result-cases}
use open_chronicle_next.Store.Errors.{StoreError}
use open_chronicle_next.Store.Journal.{
  JournalFamily, Bytes, JournalLibrary, VerifiedRecord, ScanReport, split_lines, scan_line,
  scan_lines, lines_length, scan_bytes, encode_line, parse_verified_line,
}
use open_chronicle_next.Store.Journal.Lines.{
  is_line, join, split_lines-append, split_lines-take, split_lines-length, lines_length-append,
  split_lines_one,
}

-- The records lie one behind the other, from an offset to an offset.
abbrev pub is_contiguous : ℕ → List VerifiedRecord → ℕ → Bool
is_contiguous start [] end = start == end
is_contiguous start (r ∷ rs) end =
    r.start_offset == start && ltb start r.end_offset && is_contiguous r.end_offset rs end

-- The line of a body, without its newline.
abbrev pub line_of : {Body : Type 0} → JournalLibrary Body → Body → Bytes
line_of lib body =
    lib.envelope_json
      (record { body = body; checksum = lib.checksum_bytes (lib.canonical_json body) })

module _ {Body : Type 0} (lib : JournalLibrary Body) (family : JournalFamily) (shard : String) where
  scan_lines-append :
      (start : ℕ) (xs ys : List Bytes)
      → scan_lines lib family shard start (xs ++ ys) ≡ (
          scan_lines lib family shard start xs >>= λ found.
          scan_lines lib family shard (start + lines_length xs) ys >>= λ later. ok (found ++ later))
  unfolding scan_lines lines_length
  scan_lines-append start [] ys =
      let at : start ≡ start + 0 = omega arith in
      let same = ap (λ k. scan_lines lib family shard k ys) at in
      elim (Result-cases (scan_lines lib family shard start ys)) [
        | inl (found, done) ↦ ground (arith, done, same)
        | inr (e, failed) ↦ ground (arith, failed, same)
      ]
  scan_lines-append start (x ∷ xs) ys =
      let rest = scan_lines-append (start + suc (length x)) xs ys in
      let at : start + suc (length x) + lines_length xs ≡ start + lines_length (x ∷ xs) =
        omega arith in
      let same = ap (λ k. scan_lines lib family shard k ys) at in
      elim (Result-cases (scan_line lib family shard start x)) [
        | inr (e, failed) ↦ ground (arith, failed)
        | inl (r, scanned) ↦
            elim (Result-cases (scan_lines lib family shard (start + suc (length x)) xs)) [
              | inr (e, failed) ↦ ground (arith, scanned, rest, failed)
              | inl (found, done) ↦
                  elim (Result-cases
                    (scan_lines lib family shard (start + suc (length x) + lines_length xs) ys)) [
                      | inr (e, failed) ↦ ground (arith, scanned, rest, done, failed, same)
                      | inl (later, ends) ↦ ground (arith, scanned, rest, done, ends, same)
                    ]
            ]
      ]

  scan_line_offsets :
      (start : ℕ) (line : Bytes) (r : VerifiedRecord)
      → scan_line lib family shard start line ≡ ok r
      → (r.start_offset ≡ start) × (r.end_offset ≡ start + suc (length line))
  unfolding scan_line parse_verified_line
  scan_line_offsets start line r h = (ground arith, ground arith)

  contiguous_lines :
      (start : ℕ) (lines : List Bytes) (rs : List VerifiedRecord)
      → scan_lines lib family shard start lines ≡ ok rs
      → is_contiguous start rs (start + lines_length lines) ≡ true
  unfolding scan_lines lines_length
  contiguous_lines start [] rs h = ground arith
  contiguous_lines start (x ∷ xs) rs h = elim (Result-cases (scan_line lib family shard start x)) [
    | inr (e, failed) ↦ absurd (ground (arith, h, failed))
    | inl (r, scanned) ↦
        let (starts, ends) = scan_line_offsets start x r scanned in
        elim (Result-cases (scan_lines lib family shard (start + suc (length x)) xs)) [
          | inr (e, failed) ↦ absurd (ground (arith, h, scanned, failed))
          | inl (found, done) ↦
              let tail = contiguous_lines (start + suc (length x)) xs found done in
              let joined : ◌≡◌ {A = Result StoreError (List VerifiedRecord)} (ok (r ∷ found))
                  (ok rs) =
                ground (arith, h, scanned, done) in
              let out = ok_injective (r ∷ found) rs joined in
              let at : start + suc (length x) + lines_length xs ≡ start + lines_length (x ∷ xs) =
                omega arith in
              subst (λ k. is_contiguous start k (start + lines_length (x ∷ xs)) ≡ true) out
                (ground (
                  arith,
                  starts,
                  ends,
                  subst (λ k. is_contiguous (start + suc (length x)) found k ≡ true) at tail,
                ))
        ]
  ]

  -- The parts of a scan that succeeds.
  scanned_parts :
      (bytes : Bytes) (r : ScanReport)
      → scan_bytes lib family shard bytes ≡ ok r
      → (scan_lines lib family shard 0 (split_lines bytes).0 ≡ ok r.records)
        × (r.verified_through ≡ lines_length (split_lines bytes).0)
        × (r.partial_tail_bytes ≡ length (split_lines bytes).1)
  unfolding scan_bytes
  scanned_parts bytes r h =
      elim (Result-cases (scan_lines lib family shard 0 (split_lines bytes).0)) [
        | inr (e, failed) ↦ absurd (ground (arith, h, failed))
        | inl (found, done) ↦
            (ground (arith, h, done), ground (arith, h, done), ground (arith, h, done))
      ]

  -- A scan that succeeds gives records that lie one behind the other, from the start of the shard to
  -- where it is verified; the numbers of verified and of partial bytes add up to its length. Cut off
  -- there, as a repair does, the shard is scanned with the same records and no partial tail.
  pub scan_bytes-take :
      (bytes : Bytes) (r : ScanReport)
      → scan_bytes lib family shard bytes ≡ ok r
      → (is_contiguous 0 r.records r.verified_through ≡ true)
        × (r.verified_through + r.partial_tail_bytes ≡ length bytes)
        × (scan_bytes lib family shard (take r.verified_through bytes)
            ≡ ok (record r { partial_tail_bytes = 0 }))
  unfolding scan_bytes
  scan_bytes-take bytes r h =
      let (found, verified, partial) = scanned_parts bytes r h in
      let all = split_lines-length bytes in
      let cut = ap (λ n. split_lines (take n bytes)) verified ∙ split_lines-take bytes in
      let zero_front : 0 + lines_length (split_lines bytes).0 ≡ r.verified_through =
        omega (arith, verified) in
      (
        subst (λ n. is_contiguous 0 r.records n ≡ true) zero_front
            (contiguous_lines 0 (split_lines bytes).0 r.records found),
        omega (arith, verified, partial, all),
        ground (arith, found, verified, cut),
      )

  -- Bytes that are appended to a shard, a torn line or a part of one too, change no record of it:
  -- where the scan of the longer shard succeeds, so does that of the shorter, and its records stand
  -- in front, and no less is verified.
  pub scan_bytes-append :
      (bytes more : Bytes) (r : ScanReport)
      → scan_bytes lib family shard (bytes ++ more) ≡ ok r
      → (before : ScanReport) × (later : List VerifiedRecord) × (scan_bytes lib family shard bytes
          ≡ ok before)
        × (r.records ≡ before.records ++ later)
        × (before.verified_through ≤ r.verified_through)
  unfolding scan_bytes
  scan_bytes-append bytes more r h =
      let (found, verified, partial) = scanned_parts (bytes ++ more) r h in
      let split = ap (λ x. x.0) (split_lines-append bytes more) in
      let after = (join (split_lines bytes).1 (split_lines more)).0 in
      let front = (split_lines bytes).0 in
      let whole =
        sym (scan_lines-append 0 front after)
        ∙ ap (λ ls. scan_lines lib family shard 0 ls) (sym split)
        ∙ found in
      let longer = verified ∙ ap (λ ls. lines_length ls) split ∙ lines_length-append front after in
      elim (Result-cases (scan_lines lib family shard 0 front)) [
        | inr (e, failed) ↦ absurd (ground (arith, whole, failed))
        | inl (records, done) ↦
            elim (Result-cases (scan_lines lib family shard (0 + lines_length front) after)) [
              | inr (e, failed) ↦ absurd (ground (arith, whole, done, failed))
              | inl (later, ends) ↦ (
                record {
                  records = records;
                  verified_through = lines_length front;
                  partial_tail_bytes = length (split_lines bytes).1;
                },
                later,
                ground (arith, done),
                ground (arith, whole, done, ends),
                omega (arith, longer),
              )
            ]
      ]

  -- The line that an append encodes, behind a shard without a partial tail: the scan is that of the
  -- shard before, and then of that line at its end, whether it is a record or not, and nothing is
  -- partial. The hypothesis: the JSON of an envelope holds no newline.
  pub scan_bytes-encode_line :
      (bytes : Bytes) (body : Body)
      → (split_lines bytes).1 ≡ []
      → is_line (line_of lib body) ≡ true
      → scan_bytes lib family shard (bytes ++ encode_line lib body) ≡ (
          scan_bytes lib family shard bytes >>= λ before.
          scan_line lib family shard before.verified_through (line_of lib body) >>= λ found.
          ok (record {
            records = before.records ++ found ∷ [];
            verified_through = before.verified_through + length (encode_line lib body);
            partial_tail_bytes = 0;
          }))
  unfolding scan_bytes encode_line scan_lines lines_length
  scan_bytes-encode_line bytes body whole fits =
      let line = line_of lib body in
      let front = (split_lines bytes).0 in
      let split : split_lines (bytes ++ (line ++ 10 ∷ [])) ≡ (front ++ (line ∷ []), []) =
        split_lines-append bytes (line ++ 10 ∷ [])
        ∙ ap
            (λ p. (
              front ++ (join p (split_lines (line ++ 10 ∷ []))).0,
              (join p (split_lines (line ++ 10 ∷ []))).1,
            ))
            whole
        ∙ ap (λ x. (front ++ (join [] x).0, (join [] x).1)) (split_lines_one line fits) in
      let lines =
        ap (λ x. scan_lines lib family shard 0 x.0) split ∙ scan_lines-append 0 front (line ∷ []) in
      let partial : length (split_lines (bytes ++ (line ++ 10 ∷ []))).1 ≡ 0 =
        ap (λ x. length x.1) split in
      let longer = ap (λ x. lines_length x.0) split ∙ lines_length-append front (line ∷ []) in
      let encoded = length-append line (10 ∷ []) in
      let verified : lines_length (split_lines (bytes ++ (line ++ 10 ∷ []))).0
          ≡ lines_length front + length (line ++ 10 ∷ []) =
        omega (arith, longer, encoded) in
      let at : 0 + lines_length front ≡ lines_length front = omega arith in
      let here = ap (λ k. scan_line lib family shard k line) at in
      elim (Result-cases (scan_lines lib family shard 0 front)) [
        | inr (e, failed) ↦ ground (arith, lines, failed)
        | inl (records, done) ↦
            elim (Result-cases (scan_line lib family shard (lines_length front) line)) [
              | inr (e, failed) ↦ ground (arith, lines, done, here, failed)
              | inl (r, found) ↦ ground (arith, lines, done, here, found, partial, verified)
            ]
      ]
