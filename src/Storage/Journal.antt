-- ===== src/Storage/Journal.antt =====
-- services_storage/src/journaled_storage.rs: versioned objects behind transactions, with a journal
-- from which the committed objects are rebuilt. A fresh version identifier is an argument of `write`.
pub mod Entries
pub mod System
pub mod Replaying
pub mod Recovery
pub mod Histories
pub mod Visibility
pub mod Stale
pub mod Finalized
pub mod Examples
use mathlib.Core.List.{foldl, reverse}
use panda_gen.Prelude.{
  ℕ, ◌≡◌, Bool, true, false, List, [], ◌∷◌, ◌++◌, Option, none, some, Map, empty_map, put, delete,
  Result, ok, err, if◌then◌else◌, ◌==◌, find, last,
}
use panda_gen.Storage.Transaction
use panda_gen.Storage.Transaction.{
  Transaction, TransactionId, ObjectId, VersionId, TransactionError, object_not_found,
  already_finalized, is_active,
}
use Entries.{VersionEntry, PendingWrite, JournalEntry, push_or_default, apply_writes}

pub record JournaledStorage : Type 0 where
  pub objects : Map (List VersionEntry)
  pub journal : List JournalEntry
  pub pending : Map (List PendingWrite)

abbrev pub new : JournaledStorage
new = record { objects = empty_map; journal = []; pending = empty_map }

-- The two maps that `recover` fills while it walks the journal.
pub record Replay : Type 0 where
  pub writes : Map (List PendingWrite)
  pub rebuilt : Map (List VersionEntry)

unfoldable pub replay_entry : Replay → JournalEntry → Replay
unfolding push_or_default
replay_entry r (JournalEntry.write tx_id object_id version_id bytes) = record r {
  writes =
      push_or_default r.writes tx_id
        (record { object_id = object_id; version_id = version_id; bytes = bytes });
}
replay_entry r (JournalEntry.commit tx_id) = elim (r.writes tx_id) [
  | none ↦ r
  | some pending ↦ record {
    writes = delete r.writes tx_id;
    rebuilt = apply_writes r.rebuilt pending;
  }
]

unfoldable pub replay : List JournalEntry → Replay
unfolding replay_entry
replay = foldl replay_entry (record { writes = empty_map; rebuilt = empty_map })

unfoldable pub recover : JournaledStorage → JournaledStorage
unfolding replay
recover s = record s { objects = (replay s.journal).rebuilt; pending = empty_map }

unfoldable pub from_journal : List JournalEntry → JournaledStorage
unfolding recover
from_journal entries =
    recover (record { objects = empty_map; journal = entries; pending = empty_map })

-- `pending.iter().rev().find(|p| p.object_id == object_id)` for the transaction's writes.
unfoldable pub newest_pending : JournaledStorage → Transaction → ObjectId → Option PendingWrite
newest_pending s tx object_id = elim (s.pending tx.id) [
  | none ↦ none
  | some pending ↦ find (λ p. p.object_id == object_id) (reverse pending)
]

-- `self.objects.get(&object_id)…last()`, a missing object or an empty history being an error.
unfoldable pub newest_committed : JournaledStorage → ObjectId → Result TransactionError VersionEntry
newest_committed s object_id = elim (s.objects object_id) [
  | none ↦ err (object_not_found object_id)
  | some versions ↦ elim (last versions) [
    | none ↦ err (object_not_found object_id)
    | some entry ↦ ok entry
  ]
]

unfoldable pub read_data :
    JournaledStorage → Transaction → ObjectId → Result TransactionError (List ℕ)
unfolding newest_pending newest_committed
read_data s tx object_id =
    if is_active tx.state
    then elim (newest_pending s tx object_id) [
      | some entry ↦ ok entry.bytes
      | none ↦ elim (newest_committed s object_id) [ ok entry ↦ ok entry.bytes | err e ↦ err e ]
    ]
    else err already_finalized

unfoldable pub read : JournaledStorage → Transaction → ObjectId → Result TransactionError VersionId
unfolding newest_pending newest_committed
read s tx object_id =
    if is_active tx.state
    then elim (newest_pending s tx object_id) [
      | some entry ↦ ok entry.version_id
      | none ↦ elim (newest_committed s object_id) [
        | ok entry ↦ ok entry.version_id
        | err e ↦ err e
      ]
    ]
    else err already_finalized

-- What a call leaves behind: the store, the caller's transaction, and the result.
abbrev pub Outcome : Type 0 → Type 0
Outcome A = JournaledStorage × Transaction × Result TransactionError A

unfoldable pub begin_transaction : JournaledStorage → TransactionId → Outcome Unit
unfolding Transaction.new
begin_transaction s fresh = (s, Transaction.new fresh, ok tt)

unfoldable pub write :
    JournaledStorage → Transaction → ObjectId → List ℕ → VersionId → Outcome VersionId
unfolding Transaction.modify push_or_default
write s tx object_id bytes version_id =
    if is_active tx.state
    then (
      record s {
        pending =
            push_or_default s.pending tx.id
              (record { object_id = object_id; version_id = version_id; bytes = bytes });
        journal = s.journal ++ JournalEntry.write tx.id object_id version_id bytes ∷ [];
      },
      (Transaction.modify tx object_id).0,
      elim (Transaction.modify tx object_id).1 [ ok _ ↦ ok version_id | err e ↦ err e ],
    )
    else (s, tx, err already_finalized)

-- The objects and the pending writes after `if let Some(pending) = self.pending.remove(&tx.id())`.
unfoldable pub apply_pending : JournaledStorage → TransactionId → JournaledStorage
apply_pending s tx_id = elim (s.pending tx_id) [
  | none ↦ s
  | some pending ↦ record s {
    objects = apply_writes s.objects pending;
    pending = delete s.pending tx_id;
  }
]

unfoldable pub commit : JournaledStorage → Transaction → Outcome Unit
unfolding Transaction.commit apply_pending
commit s tx =
    if is_active tx.state
    then (
      record (apply_pending s tx.id) { journal = s.journal ++ JournalEntry.commit tx.id ∷ [] },
      (Transaction.commit tx).0,
      (Transaction.commit tx).1,
    )
    else (s, tx, err already_finalized)

unfoldable pub rollback : JournaledStorage → Transaction → Outcome Unit
unfolding Transaction.rollback
rollback s tx =
    if is_active tx.state
    then (
      record s { pending = delete s.pending tx.id },
      (Transaction.rollback tx).0,
      (Transaction.rollback tx).1,
    )
    else (s, tx, err already_finalized)
