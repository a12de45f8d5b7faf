-- ===== src/Storage/Service/Examples.antt =====
-- services_storage/src/journaled_storage.rs: the service's theorems at a concrete budget.
use panda_gen.Prelude.{ℕ, zero, suc, ◌≡◌, refl, [], ◌∷◌, Result, ok, err}
use panda_gen.Storage.Transaction.{Transaction, active}
use panda_gen.Storage.Journal as Journal
use panda_gen.Storage.Service.{
  StorageBudget, StorageService, Clients, Calls, idle, then_call, begins, writes, first_clients,
  begin_transaction, write, returned,
}
use panda_gen.Storage.Service.Durable.{service-recover}

-- A budget of operations, whose only error is 0.
abbrev consume : ℕ → Result ℕ Unit
consume zero = err 0
consume (suc n) = ok tt

abbrev spend : ℕ → ℕ
spend zero = 0
spend (suc n) = n

abbrev counted : StorageBudget ℕ ℕ
counted = record { consume_storage_op = λ n e operation. (spend n, consume n) }

abbrev tx1 : Transaction
tx1 = record { id = 1; state = active; modified = [] }

abbrev begun : Clients {B = ℕ} {K = ℕ} counted
unfolding begin_transaction
begun =
    returned counted (first_clients counted 1)
      (begin_transaction counted (first_clients counted 1).service 1)

-- The one operation of the budget is spent on a write.
one_write :
    Calls counted
      (first_clients counted 1)
      (returned counted begun (write counted begun.service 3 tx1 5 (7 ∷ []) 90))
unfolding begin_transaction begun Journal.begin_transaction
one_write =
    then_call
      (then_call idle
        (begins (first_clients counted 1) 1 (record { unheld = refl; unwritten = refl })))
      (writes begun 3 1 tx1 5 (7 ∷ []) 90 refl)

service-recover_example :
    (Journal.recover (write counted begun.service 3 tx1 5 (7 ∷ []) 90).0.storage).objects
    ≡ (write counted begun.service 3 tx1 5 (7 ∷ []) 90).0.storage.objects
service-recover_example =
    service-recover counted 1
      (returned counted begun (write counted begun.service 3 tx1 5 (7 ∷ []) 90)) one_write

abbrev spent : StorageService ℕ
spent = record { storage = Journal.new; budget = 0 }
