-- ===== src/Storage/Transaction.antt =====
-- services_storage/src/transaction.rs. Identifiers are numbers: `new_uuid` (the uuid crate) is an
-- argument of what draws a fresh one.
use Prim.Native.String.{String}
use panda_gen.Prelude.{ℕ, Bool, true, false, List, [], ◌∷◌, ◌++◌, Result, ok, err, if◌then◌else◌}

abbrev pub TransactionId : Type 0
TransactionId = ℕ

abbrev pub ObjectId : Type 0
ObjectId = ℕ

abbrev pub VersionId : Type 0
VersionId = ℕ

-- The identifier of an object stands for its printed form in `object_not_found`.
pub data TransactionError : Type 0 where
  conflict : String → TransactionError
  object_not_found : ObjectId → TransactionError
  already_finalized : TransactionError
  invalid_operation : String → TransactionError
  storage_error : String → TransactionError

pub data TransactionState : Type 0 where
  active committed rolled_back : TransactionState

-- `state == TransactionState::Active`
abbrev pub is_active : TransactionState → Bool
is_active active = true
is_active committed = false
is_active rolled_back = false

pub record Transaction : Type 0 where
  pub id : TransactionId
  pub state : TransactionState
  pub modified : List ObjectId

-- `Transaction::new`, at the identifier drawn for it.
unfoldable pub new : TransactionId → Transaction
new fresh = record { id = fresh; state = active; modified = [] }

unfoldable pub modify : Transaction → ObjectId → Transaction × Result TransactionError Unit
modify tx object_id =
    if is_active tx.state
    then (record tx { modified = tx.modified ++ object_id ∷ [] }, ok tt)
    else (tx, err already_finalized)

unfoldable pub commit : Transaction → Transaction × Result TransactionError Unit
commit tx =
    if is_active tx.state
    then (record tx { state = committed }, ok tt)
    else (tx, err already_finalized)

unfoldable pub rollback : Transaction → Transaction × Result TransactionError Unit
rollback tx =
    if is_active tx.state
    then (record tx { state = rolled_back; modified = [] }, ok tt)
    else (tx, err already_finalized)
