-- ===== src/Storage/Journal/Finalized.antt =====
-- services_storage/src/transaction.rs and journaled_storage.rs: the end of a transaction.
use panda_gen.Prelude.{ℕ, ◌≡◌, true, false, List, none, arith, err, if◌then◌else◌, ◌==◌}
use panda_gen.Storage.Transaction.{Transaction, ObjectId, VersionId, already_finalized, is_active}
use panda_gen.Storage.Journal.{
  JournaledStorage, recover, newest_pending, read, read_data, write, commit, rollback,
}

-- Every call with this transaction is refused, and leaves any store and the transaction as they are.
pub record IsClosed (tx : Transaction) : Type 0 where
  pub no_read : (s : JournaledStorage) (o : ObjectId) → read s tx o ≡ err already_finalized
  pub no_read_data :
      (s : JournaledStorage) (o : ObjectId) → read_data s tx o ≡ err already_finalized
  pub no_write :
      (s : JournaledStorage) (o : ObjectId) (b : List ℕ) (v : VersionId)
      → write s tx o b v ≡ (s, tx, err already_finalized)
  pub no_commit : (s : JournaledStorage) → commit s tx ≡ (s, tx, err already_finalized)
  pub no_rollback : (s : JournaledStorage) → rollback s tx ≡ (s, tx, err already_finalized)

inactive-IsClosed : (tx : Transaction) → is_active tx.state ≡ false → IsClosed tx
unfolding read read_data write commit rollback
inactive-IsClosed tx a = record {
  no_read = λ s o. rw a;
  no_read_data = λ s o. rw a;
  no_write = λ s o b v. rw a;
  no_commit = λ s. rw a;
  no_rollback = λ s. rw a;
}

-- Whatever state a transaction is in, after `commit` or after `rollback` it is closed: every later
-- call with it fails with `AlreadyFinalized` and changes nothing.
pub finalized-IsClosed :
    (s : JournaledStorage) (tx : Transaction)
    → IsClosed (commit s tx).1 × IsClosed (rollback s tx).1
unfolding commit rollback
finalized-IsClosed s tx = (
  inactive-IsClosed (commit s tx).1 (ground arith),
  inactive-IsClosed (rollback s tx).1 (ground arith),
)

-- Rolling an active transaction back drops its pending writes and those of no other transaction,
-- and changes neither an object nor what a recovery gives.
pub rollback-discards :
    (s : JournaledStorage) (tx other : Transaction) (o : ObjectId)
    → is_active tx.state ≡ true
    → (newest_pending (rollback s tx).0 other o
        ≡ (if tx.id == other.id then none else newest_pending s other o))
      × ((rollback s tx).0.objects ≡ s.objects)
      × (recover (rollback s tx).0 ≡ recover s)
unfolding rollback newest_pending recover
rollback-discards s tx other o a = (ground arith, ground arith, rw a)
