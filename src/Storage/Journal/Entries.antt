-- ===== src/Storage/Journal/Entries.antt =====
-- services_storage/src/journaled_storage.rs: what the journal, the pending writes and the object
-- histories hold.
use mathlib.Core.List.{foldl}
use panda_gen.Prelude.{ℕ, List, [], ◌∷◌, ◌++◌, Option, none, some, Map, put}
use panda_gen.Storage.Transaction.{TransactionId, ObjectId, VersionId}

pub record VersionEntry : Type 0 where
  pub version_id : VersionId
  pub bytes : List ℕ

pub record PendingWrite : Type 0 where
  pub object_id : ObjectId
  pub version_id : VersionId
  pub bytes : List ℕ

pub data JournalEntry : Type 0 where
  write : TransactionId → ObjectId → VersionId → List ℕ → JournalEntry
  commit : TransactionId → JournalEntry

abbrev pub or_nil {ℓ} : {A : Type ℓ} → Option (List A) → List A
or_nil none = []
or_nil (some xs) = xs

-- `map.entry(key).or_default().push(value)`
unfoldable pub push_or_default {ℓ} : {A : Type ℓ} → Map (List A) → ℕ → A → Map (List A)
push_or_default m k a = put m k (or_nil (m k) ++ a ∷ [])

-- One pending write becomes the newest version of its object.
unfoldable pub apply_write : Map (List VersionEntry) → PendingWrite → Map (List VersionEntry)
unfolding push_or_default
apply_write objects w =
    push_or_default objects w.object_id (record { version_id = w.version_id; bytes = w.bytes })

unfoldable pub apply_writes : Map (List VersionEntry) → List PendingWrite → Map (List VersionEntry)
unfolding apply_write
apply_writes = foldl apply_write
