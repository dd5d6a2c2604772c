-- ===== src/Engine/Cadence.antt =====
-- crates/chronicle-engine/src/ingest.rs: `CadenceGuard`, which admits the stamps of the capture
-- clock. The set of retired boot sequences is a list.
pub mod Order
pub mod Lockout
use open_chronicle_next.Base.{
  ℕ, String, Bool, true, false, ◌&&◌, not, Option, none, some, List, [], ◌∷◌, any, leb, ◌==◌,
  str_eq, if◌then◌else◌,
}
use open_chronicle_next.Base.Outcome.{Result, ok, err}

pub record CadenceStamp : Type 0 where
  pub boot_sequence : String
  pub monotonic_tick : ℕ

pub record CadenceGuard : Type 0 where
  pub last : Option CadenceStamp
  pub last_event_id : Option ℕ
  pub retired_boot_sequences : List String

-- `CadenceGuard::default`.
abbrev pub new : CadenceGuard
new = record { last = none; last_event_id = none; retired_boot_sequences = [] }

pub data CadenceError : Type 0 where
  empty_boot_sequence tick_did_not_advance retired_boot_sequence : CadenceError

abbrev pub is_retired : CadenceGuard → String → Bool
is_retired g boot = any (str_eq boot) g.retired_boot_sequences

-- The stamp is taken, unless its boot sequence is retired.
unfoldable pub admit : CadenceGuard → CadenceStamp → Result CadenceError (Unit {0}) × CadenceGuard
admit g stamp =
    if is_retired g stamp.boot_sequence
    then (err retired_boot_sequence, g)
    else (ok tt, record g { last = some stamp; last_event_id = none })

-- The test against the last stamp: one of another boot sequence retires the last one's, whatever
-- becomes of the stamp.
unfoldable pub advance :
    CadenceGuard
    → Option CadenceStamp
    → CadenceStamp
    → Result CadenceError (Unit {0}) × CadenceGuard
unfolding admit
advance g none stamp = admit g stamp
advance g (some last) stamp =
    if str_eq last.boot_sequence stamp.boot_sequence
    then if leb stamp.monotonic_tick last.monotonic_tick
      then (err tick_did_not_advance, g)
      else admit g stamp
    else admit (record g { retired_boot_sequences = last.boot_sequence ∷ g.retired_boot_sequences })
        stamp

-- `CadenceGuard::observe`, with the guard as it is left, by an error too.
unfoldable pub observe : CadenceGuard → CadenceStamp → Result CadenceError (Unit {0}) × CadenceGuard
unfolding advance
observe g stamp =
    if str_eq stamp.boot_sequence "" then (err empty_boot_sequence, g) else advance g g.last stamp

-- `self.last.as_ref() == Some(stamp)`.
abbrev pub is_last : CadenceGuard → CadenceStamp → Bool
is_last g stamp = elim g.last [
  | none ↦ false
  | some last ↦
      str_eq last.boot_sequence stamp.boot_sequence && last.monotonic_tick == stamp.monotonic_tick
]

abbrev pub is_last_event : CadenceGuard → ℕ → Bool
is_last_event g id = elim g.last_event_id [ none ↦ false | some last ↦ last == id ]

-- The end of `observe_event`.
unfoldable pub noting :
    ℕ
    → Result CadenceError (Unit {0}) × CadenceGuard
    → Result CadenceError (Unit {0}) × CadenceGuard
noting id (ok _, g) = (ok tt, record g { last_event_id = some id })
noting id (err e, g) = (err e, g)

-- `CadenceGuard::observe_event`: the last event with the last stamp is admitted again.
unfoldable pub observe_event :
    CadenceGuard → CadenceStamp → ℕ → Result CadenceError (Unit {0}) × CadenceGuard
unfolding observe noting
observe_event g stamp id =
    if is_last g stamp && is_last_event g id then (ok tt, g) else noting id (observe g stamp)
