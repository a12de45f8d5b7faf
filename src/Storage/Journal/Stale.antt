-- ===== src/Storage/Journal/Stale.antt =====
-- services_storage/src/journaled_storage.rs, `recover`, with the identifiers of
-- core_types/src/uuid_tools.rs: journaled writes of a transaction that did not commit.
use panda_gen.Prelude.{◌≡◌, true, List, some, arith}
use panda_gen.Storage.Transaction.{Transaction, is_active}
use panda_gen.Storage.Journal.Entries.{PendingWrite, apply_writes}
use panda_gen.Storage.Journal.{JournaledStorage, replay, replay_entry, recover, commit}
use panda_gen.Storage.Journal.Replaying.{replay-append_one}

-- Suppose that the journal holds uncommitted writes `ws` under the identifier of an active
-- transaction, the store recovers, and the transaction then commits. (The transaction was begun
-- before the recovery, or has the identifier of an earlier one.) The commit changes no object, but
-- the next recovery applies `ws`: what a reader sees changes at the reboot.
pub recover-commit_stale :
    (s : JournaledStorage) (tx : Transaction) (ws : List PendingWrite)
    → is_active tx.state ≡ true
    → (replay s.journal).writes tx.id ≡ some ws
    → ((commit (recover s) tx).0.objects ≡ (recover s).objects)
      × ((recover (commit (recover s) tx).0).objects ≡ apply_writes (recover s).objects ws)
unfolding commit recover replay_entry
recover-commit_stale s tx ws a e = (ground arith, rw (a, replay-append_one) (rw (e, replay_entry)))
