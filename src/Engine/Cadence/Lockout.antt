-- ===== src/Engine/Cadence/Lockout.antt =====
-- A stale stamp and the current boot sequence.
use open_chronicle_next.Base.{◌≡◌, ◌≢◌, true, some, List, arith, every}
use open_chronicle_next.Base.Outcome.{err}
use open_chronicle_next.Engine.Cadence.{
  CadenceStamp, CadenceGuard, retired_boot_sequence, observe, is_retired, advance, admit,
}
use open_chronicle_next.Engine.Cadence.Order.{
  admitted, elsewhere, admitted-elsewhere, str_eq_refl, str_eq_sound,
}

-- A stamp of a retired boot sequence, other than the current one, is refused. All the same it
-- retires the current boot sequence: no later stamp of it is admitted, however far its tick has
-- advanced.
pub stale_stamp-lockout :
    (g : CadenceGuard) (last stale : CadenceStamp) (ss : List CadenceStamp)
    → g.last ≡ some last
    → stale.boot_sequence ≢ ""
    → stale.boot_sequence ≢ last.boot_sequence
    → is_retired g stale.boot_sequence ≡ true
    → ((observe g stale).0 ≡ err retired_boot_sequence)
      × (every (elsewhere last.boot_sequence) (admitted (observe g stale).1 ss) ≡ true)
unfolding observe advance admit
stale_stamp-lockout g last stale ss h nonempty other retired =
    let a = str_eq_sound stale.boot_sequence "" in
    let b = str_eq_sound last.boot_sequence stale.boot_sequence in
    let self = str_eq_refl last.boot_sequence in
    let later = admitted-elsewhere (observe g stale).1 last.boot_sequence ss in
    let (p, q) : ((observe g stale).0 ≡ err retired_boot_sequence)
        × (is_retired (observe g stale).1 last.boot_sequence ≡ true) =
      ground arith in
    (p, later q)
