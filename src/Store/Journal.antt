-- ===== src/Store/Journal.antt =====
-- crates/chronicle-store/src/journal.rs: the lines of a journal shard and the scan of its bytes.
-- Offsets are 64-bit numbers in the source, which no file in memory exceeds.
pub mod Lines
pub mod Scan
pub mod Corrupt
mod Tests
use open_chronicle_next.Base.{
  ℕ, suc, ◌+◌, String, Bool, true, false, not, Option, none, some, List, [], ◌∷◌, ◌++◌, length,
  ◌==◌, str_eq, if◌then◌else◌,
}
use open_chronicle_next.Base.Outcome.{Result, ok, err, map_err, refuse, is_ok, ◌>>=◌, ◌>>◌}
use open_chronicle_next.Store.Errors.{StoreError, corrupt_record, repair_incomplete}

pub data JournalFamily : Type 0 where
  events chunks : JournalFamily

abbrev pub Bytes : Type 0
Bytes = List ℕ

pub record JournalEnvelope (Body : Type 0) : Type 0 where
  pub body : Body
  pub checksum : String

-- What the JSON and hash libraries give, and the parse of a body as an event or a chunk, which
-- gives its identifier.
pub record JournalLibrary (Body : Type 0) : Type 0 where
  pub from_slice : Bytes → Result String (JournalEnvelope Body)
  pub envelope_json : JournalEnvelope Body → Bytes
  pub canonical_json : Body → Bytes
  pub checksum_bytes : Bytes → String
  pub stable_id : JournalFamily → Bytes → Result String String

pub record VerifiedRecord : Type 0 where
  pub family : JournalFamily
  pub shard : String
  pub start_offset : ℕ
  pub end_offset : ℕ
  pub stable_id : String
  pub checksum : String
  pub body_bytes : Bytes

-- The lines that end in a newline, without it, and the bytes behind the last one.
abbrev pub put_byte : ℕ → List Bytes × Bytes → List Bytes × Bytes
put_byte b ([], partial) = ([], b ∷ partial)
put_byte b (line ∷ lines, partial) = ((b ∷ line) ∷ lines, partial)

unfoldable pub split_lines : Bytes → List Bytes × Bytes
split_lines [] = ([], [])
split_lines (b ∷ bs) =
    let rest = split_lines bs in if b == 10 then ([] ∷ rest.0, rest.1) else put_byte b rest

module _ {Body : Type 0} (lib : JournalLibrary Body) (family : JournalFamily) (shard : String) where
  -- `parse_verified_line`.
  unfoldable pub parse_verified_line : (start end : ℕ) → Bytes → Result StoreError VerifiedRecord
  parse_verified_line start end line = do
    envelope ← map_err (corrupt_record shard start) (lib.from_slice line)
    refuse (not (str_eq (lib.checksum_bytes (lib.canonical_json envelope.body)) envelope.checksum))
        (corrupt_record shard start "body checksum mismatch")
    id ←
        map_err (corrupt_record shard start)
          (lib.stable_id family (lib.canonical_json envelope.body))
    ok (record {
      family = family;
      shard = shard;
      start_offset = start;
      end_offset = end;
      stable_id = id;
      checksum = envelope.checksum;
      body_bytes = lib.canonical_json envelope.body;
    })

  -- One complete line of a scan.
  unfoldable pub scan_line : (start : ℕ) → Bytes → Result StoreError VerifiedRecord
  unfolding parse_verified_line
  scan_line start line =
      if length line == 0
      then err (corrupt_record shard start "empty complete line")
      else parse_verified_line start (start + suc (length line)) line

  -- The loop over the complete lines, from an offset.
  unfoldable pub scan_lines : ℕ → List Bytes → Result StoreError (List VerifiedRecord)
  unfolding scan_line
  scan_lines start [] = ok []
  scan_lines start (line ∷ lines) = do
    found ← scan_line start line
    rest ← scan_lines (start + suc (length line)) lines
    ok (found ∷ rest)

  -- The loop of `locate_first_corrupt_line`.
  unfoldable pub locate_line : ℕ → List Bytes → Result StoreError ℕ
  unfolding parse_verified_line
  locate_line start [] = err (repair_incomplete "shard has no corrupt complete canonical line")
  locate_line start (line ∷ lines) =
      let rest = locate_line (start + suc (length line)) lines in
      if is_ok (parse_verified_line start (start + suc (length line)) line) then rest else ok start

  -- `locate_first_corrupt_line`.
  unfoldable pub locate_first_corrupt_line : Bytes → Result StoreError ℕ
  unfolding locate_line split_lines
  locate_first_corrupt_line bytes = locate_line 0 (split_lines bytes).0

-- The length of complete lines.
unfoldable pub lines_length : List Bytes → ℕ
lines_length [] = 0
lines_length (line ∷ lines) = suc (length line) + lines_length lines

pub record ScanReport : Type 0 where
  pub records : List VerifiedRecord
  pub verified_through : ℕ
  pub partial_tail_bytes : ℕ

-- What `scan_shard` reports of the bytes of a shard; what it repairs is left out.
unfoldable pub scan_bytes :
    {Body : Type 0}
    → JournalLibrary Body
    → JournalFamily
    → String
    → Bytes
    → Result StoreError ScanReport
unfolding scan_lines split_lines lines_length
scan_bytes lib family shard bytes = do
  found ← scan_lines lib family shard 0 (split_lines bytes).0
  ok (record {
    records = found;
    verified_through = lines_length (split_lines bytes).0;
    partial_tail_bytes = length (split_lines bytes).1;
  })

-- `encode_line`.
unfoldable pub encode_line : {Body : Type 0} → JournalLibrary Body → Body → Bytes
encode_line lib body =
    lib.envelope_json
      (record { body = body; checksum = lib.checksum_bytes (lib.canonical_json body) })
    ++ 10 ∷ []
