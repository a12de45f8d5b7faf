-- ===== src/Storage/Journal/System.antt =====
-- services_storage/src/journaled_storage.rs with its callers: the store, the transactions that the
-- callers hold, and every history of calls and reboots as a step relation.
use panda_gen.Prelude.{
  ℕ, ◌≡◌, Bool, false, ◌||◌, List, [], ◌∷◌, none, some, Map, empty_map, put, ◌==◌,
}
use panda_gen.Storage.Transaction.{Transaction, TransactionId, ObjectId, VersionId}
use panda_gen.Storage.Journal.Entries.{JournalEntry}
use panda_gen.Storage.Journal.{
  JournaledStorage, new, from_journal, begin_transaction, write, commit, rollback, recover,
}

pub record System : Type 0 where
  pub storage : JournaledStorage
  pub open storage use *
  pub transactions : Map Transaction

-- The journal has an entry of the transaction.
abbrev pub mentions : List JournalEntry → TransactionId → Bool
mentions [] t = false
mentions (JournalEntry.write u o v b ∷ j) t = u == t || mentions j t
mentions (JournalEntry.commit u ∷ j) t = u == t || mentions j t

-- An identifier that was never drawn: no caller holds it, and the journal has no entry of it.
pub record IsFresh (s : System) (t : TransactionId) : Type 0 where
  pub unheld : s.transactions t ≡ none
  pub unwritten : mentions s.journal t ≡ false

-- The system after a call that left `store` and `tx` behind.
abbrev pub after : System → JournaledStorage → Transaction → System
after s store tx = record { storage = store; transactions = put s.transactions tx.id tx }

pub data Step : System → System → Type 0 where
  begins :
      (s : System) (t : TransactionId)
      → IsFresh s t
      → Step s (after s s.storage (begin_transaction s.storage t).1)
  writes :
      (s : System) (t : TransactionId) (tx : Transaction) (o : ObjectId) (b : List ℕ)
      (v : VersionId)
      → s.transactions t ≡ some tx
      → Step s (after s (write s.storage tx o b v).0 (write s.storage tx o b v).1)
  commits :
      (s : System) (t : TransactionId) (tx : Transaction)
      → s.transactions t ≡ some tx
      → Step s (after s (commit s.storage tx).0 (commit s.storage tx).1)
  rolls_back :
      (s : System) (t : TransactionId) (tx : Transaction)
      → s.transactions t ≡ some tx
      → Step s (after s (rollback s.storage tx).0 (rollback s.storage tx).1)
  -- The callers and the memory are gone; the journal was kept.
  reboots :
      (s : System) → Step s (record { storage = from_journal s.journal; transactions = empty_map })
  -- A recovery of the running store, whose callers give up the transactions that they hold. (What a
  -- transaction does that goes on after a recovery stands in Storage.Journal.Stale.)
  recovers :
      (s : System) → Step s (record { storage = recover s.storage; transactions = empty_map })

pub data Reach (s : System) : System → Type 0 where
  here : Reach s s
  next : {t u : System} → Reach s t → Step t u → Reach s u

abbrev pub start : System
start = record { storage = new; transactions = empty_map }
