-- ===== src/Storage/Service/Durable.antt =====
-- services_storage/src/journaled_storage.rs: the service keeps what the journaled storage promises,
-- whatever its budget grants.
use panda_gen.Prelude.{ℕ, ◌≡◌, List, err, Result-cases, inl, inr, arith}
use panda_gen.Storage.Transaction.{Transaction, ObjectId, VersionId}
use panda_gen.Storage.Journal as Journal
use panda_gen.Storage.Journal.{JournaledStorage}
use panda_gen.Storage.Journal.System as System
use panda_gen.Storage.Journal.Recovery.{Inv, idle-Inv, Step-Inv, start-Inv}
use panda_gen.Storage.Service.{
  ExecutionId, StorageOperation, StorageBudget, StorageService, budget_error, Clients, Call, Calls,
  begins, writes, reads, commits, rolls_back, restarts, recovers, first_clients, idle, then_call,
  system, write, commit, read, rollback, recover, begin_transaction,
}

module _ {B K : Type 0} (trait : StorageBudget B K) where
  Call-Inv :
      {c d : Clients {B = B} {K = K} trait}
      → Call trait c d
      → Inv (system trait c)
      → Inv (system trait d)
  unfolding begin_transaction read write commit rollback recover
  Call-Inv (begins c t f) v = Step-Inv (System.begins (system trait c) t f) v
  Call-Inv (reads c e tx o) v =
      elim (Result-cases
        (trait.consume_storage_op c.service.budget e StorageOperation.read_operation).1) [
          | inl (g, q) ↦ rw (read, q) (v)
          | inr (x, q) ↦ rw (read, q) (v)
        ]
  Call-Inv (writes c e t tx o b i h) v =
      elim (Result-cases
        (trait.consume_storage_op c.service.budget e StorageOperation.write_operation).1) [
          | inl (g, q) ↦ rw (write, q) (Step-Inv (System.writes (system trait c) t tx o b i h) v)
          | inr (x, q) ↦ rw (write, q) (idle-Inv (system trait c) t tx h v)
        ]
  Call-Inv (commits c e t tx h) v =
      elim (Result-cases
        (trait.consume_storage_op c.service.budget e StorageOperation.commit_operation).1) [
          | inl (g, q) ↦ rw (commit, q) (Step-Inv (System.commits (system trait c) t tx h) v)
          | inr (x, q) ↦ rw (commit, q) (idle-Inv (system trait c) t tx h v)
        ]
  Call-Inv (rolls_back c t tx h) v = Step-Inv (System.rolls_back (system trait c) t tx h) v
  Call-Inv (restarts c budget) v = Step-Inv (System.reboots (system trait c)) v
  Call-Inv (recovers c) v = Step-Inv (System.recovers (system trait c)) v

  Calls-Inv :
      {c d : Clients {B = B} {K = K} trait}
      → Calls trait c d
      → Inv (system trait c)
      → Inv (system trait d)
  Calls-Inv idle v = v
  Calls-Inv (then_call p q) v = Call-Inv q (Calls-Inv p v)

  -- Whatever the budget grants or refuses: after any history of begins, reads, writes, commits,
  -- rollbacks and recoveries of the service and of restarts, from an empty store, in which a begun
  -- transaction gets an identifier never drawn before and no transaction goes on after a recovery
  -- or a restart, recovering from the journal gives back exactly the committed objects.
  pub service-recover :
      (budget : B) (c : Clients {B = B} {K = K} trait)
      → Calls trait (first_clients trait budget) c
      → (Journal.recover c.service.storage).objects ≡ c.service.storage.objects
  unfolding Journal.recover
  service-recover budget c p = (Calls-Inv p start-Inv).durable

  -- When the budget refuses a read, a write and a commit, each returns the budget's error and leaves
  -- the store and the transaction as they were.
  pub refused-unchanged :
      (s : StorageService B) (e : ExecutionId) (x y z : K)
      → (trait.consume_storage_op s.budget e StorageOperation.read_operation).1 ≡ err x
      → (trait.consume_storage_op s.budget e StorageOperation.write_operation).1 ≡ err y
      → (trait.consume_storage_op s.budget e StorageOperation.commit_operation).1 ≡ err z
      → (tx : Transaction) (o : ObjectId) (b : List ℕ) (v : VersionId)
      → (((read trait s e tx o).0.storage ≡ s.storage)
          × ((read trait s e tx o).1 ≡ tx)
          × ((read trait s e tx o).2 ≡ err (budget_error x)))
        × (((write trait s e tx o b v).0.storage ≡ s.storage)
            × ((write trait s e tx o b v).1 ≡ tx)
            × ((write trait s e tx o b v).2 ≡ err (budget_error y)))
        × (((commit trait s e tx).0.storage ≡ s.storage)
            × ((commit trait s e tx).1 ≡ tx)
            × ((commit trait s e tx).2 ≡ err (budget_error z)))
  unfolding read write commit
  refused-unchanged s e x y z h k l tx o b v = ground arith
