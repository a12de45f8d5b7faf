-- ===== src/Storage/Service.antt =====
-- services_storage/src/journaled_storage.rs: the storage service, which asks a budget before each read,
-- write and commit. The budget is a type with the operation of the trait `StorageBudget`; error
-- messages are the errors that they print.
pub mod Durable
pub mod Examples
use panda_gen.Prelude.{
  ℕ, ◌≡◌, refl, List, Option, none, some, Map, empty_map, put, Result, ok, err, Result-cases, inl,
  inr,
}
use panda_gen.Storage.Transaction.{
  Transaction, TransactionId, ObjectId, VersionId, TransactionError,
}
use panda_gen.Storage.Journal as Journal
use panda_gen.Storage.Journal.{JournaledStorage}
use panda_gen.Storage.Journal.System as System
use panda_gen.Storage.Journal.System.{System, IsFresh, after}
use panda_gen.Storage.Journal.Recovery.{recover-objects}

abbrev pub ExecutionId : Type 0
ExecutionId = ℕ

pub data StorageOperation : Type 0 where
  read_operation write_operation commit_operation : StorageOperation

-- The trait `StorageBudget` for a type of budgets, with the kernel's errors.
pub record StorageBudget (B K : Type 0) : Type 0 where
  pub consume_storage_op : B → ExecutionId → StorageOperation → B × Result K Unit

pub data StorageServiceError (K : Type 0) : Type 0 where
  transaction_error : TransactionError → StorageServiceError K
  budget_error : K → StorageServiceError K

-- `?` on a result of the journaled storage
abbrev pub from_transaction :
    {K A : Type 0} → Result TransactionError A → Result (StorageServiceError K) A
from_transaction (ok a) = ok a
from_transaction (err e) = err (StorageServiceError.transaction_error e)

pub record StorageService (B : Type 0) : Type 0 where
  pub storage : JournaledStorage
  pub budget : B

module _ {B K : Type 0} (trait : StorageBudget B K) where
  -- What a call leaves behind: the service, the caller's transaction, and the result.
  abbrev pub Outcome : Type 0 → Type 0
  Outcome A = StorageService B × Transaction × Result (StorageServiceError K) A

  abbrev consumed : StorageService B → ExecutionId → StorageOperation → B × Result K Unit
  consumed s e operation = trait.consume_storage_op s.budget e operation

  -- The service with the budget as the operation left it.
  abbrev left_over : StorageService B → ExecutionId → StorageOperation → StorageService B
  left_over s e operation = record s { budget = (consumed s e operation).0 }

  unfoldable pub begin_transaction : StorageService B → TransactionId → Outcome Unit
  begin_transaction s fresh = (
    s,
    (Journal.begin_transaction s.storage fresh).1,
    from_transaction (Journal.begin_transaction s.storage fresh).2,
  )

  unfoldable pub read : StorageService B → ExecutionId → Transaction → ObjectId → Outcome VersionId
  read s e tx o = elim (consumed s e StorageOperation.read_operation).1 [
    | err x ↦ (
      left_over s e StorageOperation.read_operation,
      tx,
      err (StorageServiceError.budget_error x),
    )
    | ok _ ↦ (
      left_over s e StorageOperation.read_operation,
      tx,
      from_transaction (Journal.read s.storage tx o),
    )
  ]

  unfoldable pub write :
      StorageService B
      → ExecutionId
      → Transaction
      → ObjectId
      → List ℕ
      → VersionId
      → Outcome VersionId
  write s e tx o b v = elim (consumed s e StorageOperation.write_operation).1 [
    | err x ↦ (
      left_over s e StorageOperation.write_operation,
      tx,
      err (StorageServiceError.budget_error x),
    )
    | ok _ ↦ (
      record {
        storage = (Journal.write s.storage tx o b v).0;
        budget = (consumed s e StorageOperation.write_operation).0;
      },
      (Journal.write s.storage tx o b v).1,
      from_transaction (Journal.write s.storage tx o b v).2,
    )
  ]

  unfoldable pub commit : StorageService B → ExecutionId → Transaction → Outcome Unit
  commit s e tx = elim (consumed s e StorageOperation.commit_operation).1 [
    | err x ↦ (
      left_over s e StorageOperation.commit_operation,
      tx,
      err (StorageServiceError.budget_error x),
    )
    | ok _ ↦ (
      record {
        storage = (Journal.commit s.storage tx).0;
        budget = (consumed s e StorageOperation.commit_operation).0;
      },
      (Journal.commit s.storage tx).1,
      from_transaction (Journal.commit s.storage tx).2,
    )
  ]

  unfoldable pub rollback : StorageService B → Transaction → Outcome Unit
  rollback s tx = (
    record s { storage = (Journal.rollback s.storage tx).0 },
    (Journal.rollback s.storage tx).1,
    from_transaction (Journal.rollback s.storage tx).2,
  )

  unfoldable pub recover : StorageService B → StorageService B
  recover s = record s { storage = Journal.recover s.storage }

  -- The service with the transactions that its callers hold.
  pub record Clients : Type 0 where
    pub service : StorageService B
    pub transactions : Map Transaction

  abbrev pub returned : {A : Type 0} → Clients → Outcome A → Clients
  returned c (service, tx, result) = record {
    service = service;
    transactions = put c.transactions tx.id tx;
  }

  abbrev pub system : Clients → System
  system c = record { storage = c.service.storage; transactions = c.transactions }

  pub data Call : Clients → Clients → Type 0 where
    begins :
        (c : Clients) (t : TransactionId)
        → IsFresh (system c) t
        → Call c (returned c (begin_transaction c.service t))
    writes :
        (c : Clients) (e : ExecutionId) (t : TransactionId) (tx : Transaction) (o : ObjectId)
        (b : List ℕ) (v : VersionId)
        → c.transactions t ≡ some tx
        → Call c (returned c (write c.service e tx o b v))
    reads :
        (c : Clients) (e : ExecutionId) (tx : Transaction) (o : ObjectId)
        → Call c (record c { service = (read c.service e tx o).0 })
    commits :
        (c : Clients) (e : ExecutionId) (t : TransactionId) (tx : Transaction)
        → c.transactions t ≡ some tx
        → Call c (returned c (commit c.service e tx))
    rolls_back :
        (c : Clients) (t : TransactionId) (tx : Transaction)
        → c.transactions t ≡ some tx
        → Call c (returned c (rollback c.service tx))
    -- A service over the journal that was kept; the callers and the memory are gone.
    restarts :
        (c : Clients) (budget : B)
        → Call c (record {
          service = record {
            storage = Journal.from_journal c.service.storage.journal;
            budget = budget;
          };
          transactions = empty_map;
        })
    -- A recovery of the running service, whose callers give up their transactions.
    recovers :
        (c : Clients) → Call c (record { service = recover c.service; transactions = empty_map })

  abbrev pub first_clients : B → Clients
  first_clients budget = record {
    service = record { storage = Journal.new; budget = budget };
    transactions = empty_map;
  }

  pub data Calls (c : Clients) : Clients → Type 0 where
    idle : Calls c c
    then_call : {d u : Clients} → Calls c d → Call d u → Calls c u
