-- ===== src/Domain/Ids.antt =====
-- crates/chronicle-domain/src/ids.rs: `validate_opaque_id`, and the length of a text in UTF-8.
use open_chronicle_next.Base.{
  ℕ, ◌+◌, String, Bool, false, ◌&&◌, ◌||◌, not, List, [], ◌∷◌, every, ltb, leb, ◌==◌, str_eq,
  if◌then◌else◌,
}
use open_chronicle_next.Base.Outcome.{Result, require}
use open_chronicle_next.Domain.Version.{codes}

abbrev width : ℕ → ℕ
width c = if ltb c 128 then 1 else if ltb c 2048 then 2 else if ltb c 65536 then 3 else 4

unfoldable pub utf8_length : List ℕ → ℕ
utf8_length [] = 0
utf8_length (c ∷ cs) = width c + utf8_length cs

-- `str::len`.
unfoldable pub byte_length : String → ℕ
unfolding utf8_length
byte_length s = utf8_length (codes s)

abbrev within : ℕ → ℕ → ℕ → Bool
within low high c = leb low c && leb c high

-- ASCII letters and digits, and the four marks.
abbrev is_id_code : ℕ → Bool
is_id_code c =
    within b'0' b'9' c
    || within b'A' b'Z' c
    || within b'a' b'z' c
    || (c == b'-' || c == b'_' || c == b'.' || c == b':')

-- `value.contains("..")`.
unfoldable pub has_dots : List ℕ → Bool
has_dots [] = false
has_dots (c ∷ []) = false
has_dots (c ∷ d ∷ cs) = (c == b'.' && d == b'.') || has_dots (d ∷ cs)

-- The slashes are no identifier characters, so the last two tests of the source never decide.
unfoldable pub is_opaque_id : String → Bool
unfolding byte_length has_dots
is_opaque_id value =
    not (str_eq value "")
    && leb (byte_length value) 160
    && every is_id_code (codes value)
    && not (has_dots (codes value))

unfoldable pub validate_opaque_id : String → Result String (Unit {0})
unfolding is_opaque_id
validate_opaque_id value =
    require (is_opaque_id value)
      "identifier must be non-empty and contain only opaque identifier characters"
