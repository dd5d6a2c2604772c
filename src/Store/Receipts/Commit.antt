-- ===== src/Store/Receipts/Commit.antt =====
-- crates/chronicle-store/src/receipts.rs: how a session's changes reach the disk.
use open_chronicle_next.Domain.Grant.{DisclosureGrant}
use open_chronicle_next.Store.Errors.{FaultInjector, check, after_artifact_rename}
use open_chronicle_next.Store.World.{Platform, lift, ◌>>=◌, ◌>>◌, atomic_write_with_boundary}
use open_chronicle_next.Store.Receipts.Ledger.{GrantQuerySession, ReceiptAction}
use open_chronicle_next.Store.Receipts.Session.{current, prepare_commit}

-- `GrantQuerySession::commit_with_faults`.
unfoldable pub commit_with_faults :
    Platform → GrantQuerySession → FaultInjector → ReceiptAction DisclosureGrant
unfolding current prepare_commit check
commit_with_faults os s faults = do
  document ← lift (prepare_commit s faults)
  atomic_write_with_boundary os document (check faults after_artifact_rename)
  lift (current s)
