-- ===== src/Storage/Journal/Examples.antt =====
-- services_storage/src/journaled_storage.rs: the theorems at concrete stores.
use panda_gen.Prelude.{◌≡◌, refl, [], ◌∷◌, arith, ok, empty_map}
use panda_gen.Storage.Transaction.{Transaction, active}
use panda_gen.Storage.Journal.Entries.{apply_writes}
use panda_gen.Storage.Journal.{
  JournaledStorage, new, replay, recover, begin_transaction, read_data, write, commit, rollback,
}
use panda_gen.Storage.Journal.System.{System, begins, writes, Reach, here, next, start, after}
use panda_gen.Storage.Journal.Recovery.{recover-objects}
use panda_gen.Storage.Journal.Histories.{versions, Extends, versions-Extends}
use panda_gen.Storage.Journal.Visibility.{read_data-commit}
use panda_gen.Storage.Journal.Stale.{recover-commit_stale}
use panda_gen.Storage.Journal.Finalized.{finalized-IsClosed, IsClosed}

abbrev tx1 : Transaction
tx1 = record { id = 1; state = active; modified = [] }

abbrev tx2 : Transaction
tx2 = record { id = 2; state = active; modified = [] }

-- Transaction 1 has written bytes 7 8 to object 5, as version 90.
abbrev written : JournaledStorage
unfolding write
written = (write new tx1 5 (7 ∷ 8 ∷ []) 90).0

abbrev begun : System
begun = after start new (begin_transaction new 1).1

abbrev dirty : System
dirty = after begun (write new tx1 5 (7 ∷ 8 ∷ []) 90).0 (write new tx1 5 (7 ∷ 8 ∷ []) 90).1

dirty-Reach : Reach start dirty
unfolding begin_transaction
dirty-Reach =
    next (next here (begins start 1 (record { unheld = refl; unwritten = refl })))
      (writes begun 1 tx1 5 (7 ∷ 8 ∷ []) 90 refl)

recover-objects_example : (recover dirty.storage).objects ≡ empty_map
unfolding write
recover-objects_example = recover-objects dirty-Reach

versions-Extends_example : Extends [] (versions dirty.storage 5)
versions-Extends_example = versions-Extends here dirty-Reach 5

read_data-commit_example : read_data (commit written tx1).0 tx2 5 ≡ ok (7 ∷ 8 ∷ [])
unfolding write read_data
read_data-commit_example = read_data-commit written tx1 tx2 5 refl refl (omega arith) refl

recover-commit_stale_example :
    ((commit (recover written) tx1).0.objects ≡ (recover written).objects)
    × ((recover (commit (recover written) tx1).0).objects
        ≡ apply_writes
            (recover written).objects
            (record { object_id = 5; version_id = 90; bytes = 7 ∷ 8 ∷ [] } ∷ []))
unfolding write replay
recover-commit_stale_example = recover-commit_stale written tx1 _ refl refl

finalized-IsClosed_example : IsClosed (commit written tx1).1 × IsClosed (rollback written tx1).1
finalized-IsClosed_example = finalized-IsClosed written tx1
