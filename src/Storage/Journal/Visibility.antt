-- ===== src/Storage/Journal/Visibility.antt =====
-- services_storage/src/journaled_storage.rs: which transaction reads what.
use mathlib.Core.List.{reverse-append}
use mathlib.Core.Option
use panda_gen.Prelude.{
  ℕ, ◌≡◌, ◌≢◌, refl, true, List, [], ◌∷◌, Option, none, some, arith, ◌==◌, select, last, or_else,
  find-reverse, last-append, last-map, ok, err,
}
use panda_gen.Storage.Transaction.{Transaction, ObjectId, VersionId, is_active, object_not_found}
use panda_gen.Storage.Journal.Entries.{PendingWrite, VersionEntry, or_nil}
use panda_gen.Storage.Journal.{JournaledStorage, newest_pending, read, read_data, write, commit}
use panda_gen.Storage.Journal.Histories.{versions, to_version, versions-commit}

-- An active transaction reads back what it wrote last to an object, before it commits.
pub read_data-write :
    (s : JournaledStorage) (tx : Transaction) (o : ObjectId) (b : List ℕ) (v : VersionId)
    → is_active tx.state ≡ true
    → let r = write s tx o b v in (read_data r.0 r.1 o ≡ ok b) × (read r.0 r.1 o ≡ ok v)
unfolding write read_data read
read_data-write s tx o b v a = ground (
  arith,
  a,
  reverse-append (or_nil (s.pending tx.id))
      (record { object_id = o; version_id = v; bytes = b } ∷ []),
)

-- What one transaction writes, another does not read: its view of every object stays as it was.
pub read_data-write_ne :
    (s : JournaledStorage) (tx other : Transaction) (o p : ObjectId) (b : List ℕ) (v : VersionId)
    → other.id ≢ tx.id
    → (read_data (write s tx o b v).0 other p ≡ read_data s other p)
      × (read (write s tx o b v).0 other p ≡ read s other p)
unfolding write read_data read
read_data-write_ne s tx other o p b v h = ground arith

-- The newest version of an object that a transaction sees, if it sees one.
view : JournaledStorage → Transaction → ObjectId → Option VersionEntry
view s tx o = or_else (Option.map to_version (newest_pending s tx o)) (last (versions s o))

read_data-view :
    (s : JournaledStorage) (tx : Transaction) (o : ObjectId)
    → is_active tx.state ≡ true
    → read_data s tx o
      ≡ elim (view s tx o) [ none ↦ err (object_not_found o) | some e ↦ ok e.bytes ]
unfolding read_data view
read_data-view s tx o a = ground arith

newest_pending-last :
    (s : JournaledStorage) (tx : Transaction) (o : ObjectId)
    → newest_pending s tx o ≡ last (select (λ w. w.object_id == o) (or_nil (s.pending tx.id)))
unfolding newest_pending
newest_pending-last s tx o =
    ground (arith, find-reverse (λ (w : PendingWrite). w.object_id == o) (or_nil (s.pending tx.id)))

newest_pending-commit_ne :
    (s : JournaledStorage) (tx other : Transaction) (o : ObjectId)
    → other.id ≢ tx.id
    → newest_pending (commit s tx).0 other o ≡ newest_pending s other o
unfolding newest_pending commit
newest_pending-commit_ne s tx other o h = ground arith

view-commit :
    (s : JournaledStorage) (tx other : Transaction) (o : ObjectId)
    → is_active tx.state ≡ true
    → other.id ≢ tx.id
    → newest_pending s other o ≡ none
    → view (commit s tx).0 other o ≡ view s tx o
unfolding view
view-commit s tx other o a h n =
    rw (newest_pending-commit_ne s tx other o h, n, versions-commit s tx o a, last-append, last-map)
      (rw (newest_pending-last s tx o) refl)

-- What an active transaction reads of an object just before it commits, any other active
-- transaction that has not written the object reads just after, a missing object included: the
-- commit publishes the transaction's whole view.
pub read_data-commit :
    (s : JournaledStorage) (tx other : Transaction) (o : ObjectId)
    → is_active tx.state ≡ true
    → is_active other.state ≡ true
    → other.id ≢ tx.id
    → newest_pending s other o ≡ none
    → read_data (commit s tx).0 other o ≡ read_data s tx o
read_data-commit s tx other o a a' h n = rw (
  read_data-view (commit s tx).0 other o a',
  read_data-view s tx o a,
  view-commit s tx other o a h n,
)
