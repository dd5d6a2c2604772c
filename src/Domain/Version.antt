-- ===== src/Domain/Version.antt =====
-- `validate_schema_version` of crates/chronicle-domain/src/lib.rs: the text is split at its dots,
-- and each part is read as Rust's `u16::from_str` reads it.
use Prim.Native.Char.{code}
use Prim.Native.String.{String}
use open_chronicle_next.Base.{
  ℕ, ◌+◌, ◌-◌, ◌*◌, ◌≡◌, refl, true, false, ◌&&◌, Option, none, some, List, [], ◌∷◌, ltb, leb, ◌==◌,
  if◌then◌else◌,
}
use open_chronicle_next.Base.Outcome.{Result, ok, err, ok_or, refuse, ◌>>=◌, ◌>>◌}

abbrev pub codes : String → List ℕ
codes String.[] = []
codes (String.◌∷◌ c s) = code c ∷ codes s

abbrev pub contract_major_version : ℕ
contract_major_version = 1

-- Puts a character at the head of the first part.
abbrev prepend : ℕ → List (List ℕ) → List (List ℕ)
prepend c [] = (c ∷ []) ∷ []
prepend c (part ∷ parts) = (c ∷ part) ∷ parts

-- `str::split`: there is always one part at least.
unfoldable pub split : ℕ → List ℕ → List (List ℕ)
split dot [] = [] ∷ []
split dot (c ∷ s) = let rest = split dot s in if c == dot then [] ∷ rest else prepend c rest

-- Decimal digits after the value so far; `none` at another character and above 65535.
unfoldable pub digits_u16 : ℕ → List ℕ → Option ℕ
digits_u16 n [] = some n
digits_u16 n (c ∷ s) =
    let rest = digits_u16 (n * 10 + (c - 48)) s in
    if leb 48 c && leb c 57 && ltb (n * 10 + (c - 48)) 65536 then rest else none

-- `u16::from_str`: one digit at least, and a plus sign may stand before them.
unfoldable pub parse_u16 : List ℕ → Option ℕ
unfolding digits_u16
parse_u16 [] = none
parse_u16 (c ∷ []) = digits_u16 0 (c ∷ [])
parse_u16 (c ∷ d ∷ s) = if c == b'+' then digits_u16 0 (d ∷ s) else digits_u16 0 (c ∷ d ∷ s)

abbrev malformed : String
malformed = "schema version must contain numeric major and minor parts"

abbrev unsupported : String
unsupported = "unsupported contract major version"

-- The minor part: the one part that is left must be a number.
unfoldable pub check_minor : List (List ℕ) → Result String (Unit {0})
unfolding parse_u16
check_minor (minor ∷ []) = do m ← ok_or (parse_u16 minor) malformed; ok tt
check_minor parts = err malformed

unfoldable pub check_parts : List (List ℕ) → Result String (Unit {0})
unfolding check_minor parse_u16
check_parts [] = err malformed
check_parts (major ∷ parts) = do
  m ← ok_or (parse_u16 major) malformed
  check_minor parts
  refuse (if m == contract_major_version then false else true) unsupported

unfoldable pub validate_schema_version : String → Result String (Unit {0})
unfolding check_parts split
validate_schema_version version = check_parts (split b'.' (codes version))

accepts_current : validate_schema_version "1.0" ≡ ok tt
unfolding validate_schema_version
accepts_current = refl
