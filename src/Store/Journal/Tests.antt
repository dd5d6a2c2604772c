-- ===== src/Store/Journal/Tests.antt =====
-- The theorems on the scan at small shards, with a library that writes a body as one byte.
use open_chronicle_next.Base.{
  ℕ, ◌+◌, ◌≤◌, ◌≡◌, refl, String, Bool, true, false, List, [], ◌∷◌, ◌++◌, length, take, ◌==◌,
}
use open_chronicle_next.Base.Outcome.{Result, ok, err, ◌>>=◌}
use open_chronicle_next.Store.Journal.{
  Bytes, JournalEnvelope, JournalLibrary, VerifiedRecord, ScanReport, events, scan_bytes, scan_line,
  scan_lines, parse_verified_line, split_lines, lines_length, encode_line,
  locate_first_corrupt_line,
}
use open_chronicle_next.Store.Journal.Scan.{
  line_of, is_contiguous, scan_bytes-take, scan_bytes-append, scan_bytes-encode_line,
}
use open_chronicle_next.Store.Journal.Corrupt.{
  located, corrupt_offset, locate_first_corrupt_line_lem,
}

abbrev byte_of : Bool → Bytes
byte_of true = 1 ∷ []
byte_of false = 2 ∷ []

abbrev read_byte : Bytes → Result String (JournalEnvelope Bool)
read_byte [] = err "no envelope"
read_byte (b ∷ rest) = ok (record { body = b == 1; checksum = "sum" })

abbrev library : JournalLibrary Bool
library = record {
  from_slice = read_byte;
  envelope_json = λ e. byte_of e.body;
  canonical_json = byte_of;
  checksum_bytes = λ bytes. "sum";
  stable_id = λ family bytes. ok "id";
}

-- Two records and a part of a third line.
abbrev torn : Bytes
torn = 1 ∷ 10 ∷ 2 ∷ 10 ∷ 7 ∷ []

abbrev record_at : (start end : ℕ) → Bytes → VerifiedRecord
record_at start end body = record {
  family = events;
  shard = "2026-01-01.jsonl";
  start_offset = start;
  end_offset = end;
  stable_id = "id";
  checksum = "sum";
  body_bytes = body;
}

abbrev torn_report : ScanReport
torn_report = record {
  records = record_at 0 2 (1 ∷ []) ∷ record_at 2 4 (2 ∷ []) ∷ [];
  verified_through = 4;
  partial_tail_bytes = 1;
}

scan_bytes-take_example :
    (is_contiguous 0 torn_report.records 4 ≡ true)
    × (4 + 1 ≡ length torn)
    × (scan_bytes library events "2026-01-01.jsonl" (take 4 torn)
        ≡ ok (record torn_report { partial_tail_bytes = 0 }))
unfolding scan_bytes scan_lines scan_line parse_verified_line split_lines lines_length
scan_bytes-take_example = scan_bytes-take library events "2026-01-01.jsonl" torn torn_report refl

scan_bytes-append_example :
    (before : ScanReport) × (later : List VerifiedRecord) × (scan_bytes library events
        "2026-01-01.jsonl"
        (1 ∷ 10 ∷ 2 ∷ [])
      ≡ ok before)
    × (torn_report.records ≡ before.records ++ later)
    × (before.verified_through ≤ 4)
unfolding scan_bytes scan_lines scan_line parse_verified_line split_lines lines_length
scan_bytes-append_example =
    scan_bytes-append library events "2026-01-01.jsonl" (1 ∷ 10 ∷ 2 ∷ []) (10 ∷ 7 ∷ []) torn_report
      refl

scan_bytes-encode_line_example :
    scan_bytes library events "2026-01-01.jsonl" (1 ∷ 10 ∷ [] ++ encode_line library false) ≡ (
      scan_bytes library events "2026-01-01.jsonl" (1 ∷ 10 ∷ []) >>= λ before.
      scan_line library events "2026-01-01.jsonl" before.verified_through (line_of library false)
      >>= λ found. ok (record {
        records = before.records ++ found ∷ [];
        verified_through = before.verified_through + length (encode_line library false);
        partial_tail_bytes = 0;
      }))
unfolding split_lines
scan_bytes-encode_line_example =
    scan_bytes-encode_line library events "2026-01-01.jsonl" (1 ∷ 10 ∷ []) false refl refl

-- A record, an empty line, and a record.
locate_first_corrupt_line_lem_example :
    located
      (locate_first_corrupt_line library events "2026-01-01.jsonl" (1 ∷ 10 ∷ 10 ∷ 2 ∷ 10 ∷ []))
    ≡ corrupt_offset (scan_bytes library events "2026-01-01.jsonl" (1 ∷ 10 ∷ 10 ∷ 2 ∷ 10 ∷ []))
locate_first_corrupt_line_lem_example =
    locate_first_corrupt_line_lem library events "2026-01-01.jsonl" refl (1 ∷ 10 ∷ 10 ∷ 2 ∷ 10 ∷ [])
