-- ===== src/Store/Journal/Corrupt.antt =====
-- The line that a repair looks for is the line at which a scan fails.
use open_chronicle_next.Base.{
  ℕ, suc, ◌+◌, ◌≡◌, ◌⊎◌, str_eq, Bool-cases, refl, String, false, Option, none, some, List, [], ◌∷◌,
  length, inl, inr, arith,
}
use open_chronicle_next.Base.Outcome.{Result, ok, err, is_ok, Result-cases}
use open_chronicle_next.Store.Errors.{StoreError, corrupt_record}
use open_chronicle_next.Store.Journal.{
  JournalFamily, Bytes, JournalLibrary, VerifiedRecord, split_lines, parse_verified_line, scan_line,
  scan_lines, locate_line, locate_first_corrupt_line, scan_bytes,
}

-- The offset that a corrupt record names.
abbrev pub corrupt_offset : {A : Type 0} → Result StoreError A → Option ℕ
corrupt_offset (ok a) = none
corrupt_offset (err (corrupt_record shard offset reason)) = some offset
corrupt_offset (err e) = none

abbrev pub located : Result StoreError ℕ → Option ℕ
located (ok offset) = some offset
located (err e) = none

-- A parse gives a record, or calls the line corrupt at its start.
module _ {Body : Type 0} (lib : JournalLibrary Body) (family : JournalFamily) (shard : String) where
  parse_cases :
      (start end : ℕ) (line : Bytes)
      → ((r : VerifiedRecord) × (parse_verified_line lib family shard start end line ≡ ok r))
        ⊎ ((reason : String) × (parse_verified_line lib family shard start end line
              ≡ err (corrupt_record shard start reason)))
  unfolding parse_verified_line
  parse_cases start end line = elim (Result-cases (lib.from_slice line)) [
    | inr (e, failed) ↦ inr (e, ground (arith, failed))
    | inl (envelope, read) ↦
        elim (Bool-cases
          (str_eq (lib.checksum_bytes (lib.canonical_json envelope.body)) envelope.checksum)) [
            | inr other ↦ inr ("body checksum mismatch", ground (arith, read, other))
            | inl same ↦
                elim (Result-cases (lib.stable_id family (lib.canonical_json envelope.body))) [
                  | inr (e, failed) ↦ inr (e, ground (arith, read, same, failed))
                  | inl (id, named) ↦ inl (
                    record {
                      family = family;
                      shard = shard;
                      start_offset = start;
                      end_offset = end;
                      stable_id = id;
                      checksum = envelope.checksum;
                      body_bytes = lib.canonical_json envelope.body;
                    },
                    ground (arith, read, same, named),
                  )
                ]
          ]
  ]

  empty_line :
      (start end : ℕ)
      → is_ok (lib.from_slice []) ≡ false
      → is_ok (parse_verified_line lib family shard start end []) ≡ false
  unfolding parse_verified_line
  empty_line start end h = ground (arith, h)

module _ {Body : Type 0} (lib : JournalLibrary Body) (family : JournalFamily) (shard : String)
    (empty : is_ok (lib.from_slice []) ≡ false) where
  -- A line is a record, or it is corrupt at its start.
  line_cases :
      (start : ℕ) (line : Bytes)
      → ((r : VerifiedRecord) × (parse_verified_line lib family shard start
              (start + suc (length line))
              line
            ≡ ok r)
          × (scan_line lib family shard start line ≡ ok r))
        ⊎ ((is_ok (parse_verified_line lib family shard start (start + suc (length line)) line)
              ≡ false)
            × (reason : String) × (scan_line lib family shard start line
                ≡ err (corrupt_record shard start reason)))
  unfolding scan_line
  line_cases start [] =
      inr (empty_line lib family shard start (start + 1) empty, "empty complete line", refl)
  line_cases start (b ∷ line) =
      elim (parse_cases lib family shard start (start + suc (suc (length line))) (b ∷ line)) [
        | inl (r, parsed) ↦ inl (r, parsed, ground (arith, parsed))
        | inr (reason, failed) ↦ inr (ground (arith, failed), reason, ground (arith, failed))
      ]

  -- The repair looks for the line at which the scan of the lines fails.
  located_lines :
      (start : ℕ) (lines : List Bytes)
      → located (locate_line lib family shard start lines)
        ≡ corrupt_offset (scan_lines lib family shard start lines)
  unfolding locate_line scan_lines
  located_lines start [] = refl
  located_lines start (line ∷ lines) =
      let rest = located_lines (start + suc (length line)) lines in
      elim (line_cases start line) [
        | inr (refused, reason, failed) ↦ ground (arith, refused, failed)
        | inl (r, parsed, scanned) ↦
            elim (Result-cases (scan_lines lib family shard (start + suc (length line)) lines)) [
              | inl (found, done) ↦ ground (arith, rest, parsed, scanned, done)
              | inr (e, failed) ↦ ground (arith, rest, parsed, scanned, failed)
            ]
      ]

  -- For the bytes of any shard, `locate_first_corrupt_line` finds an offset exactly where the scan
  -- fails at a corrupt record, and then that record's. Where the scan succeeds it finds none. The
  -- hypothesis: the empty text is not the JSON of an envelope.
  pub locate_first_corrupt_line_lem :
      (bytes : Bytes)
      → located (locate_first_corrupt_line lib family shard bytes)
        ≡ corrupt_offset (scan_bytes lib family shard bytes)
  unfolding locate_first_corrupt_line scan_bytes
  locate_first_corrupt_line_lem bytes =
      let same = located_lines 0 (split_lines bytes).0 in
      elim (Result-cases (scan_lines lib family shard 0 (split_lines bytes).0)) [
        | inl (found, done) ↦ ground (arith, same, done)
        | inr (e, failed) ↦ ground (arith, same, failed)
      ]
