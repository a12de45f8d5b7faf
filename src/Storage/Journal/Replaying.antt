-- ===== src/Storage/Journal/Replaying.antt =====
-- services_storage/src/journaled_storage.rs, `recover`: what one more journal entry adds to a replay.
use mathlib.Core.List.{foldl, foldl-append}
use panda_gen.Prelude.{◌≡◌, refl, false, ◌||◌, List, [], ◌∷◌, ◌++◌, none, arith}
use panda_gen.Storage.Transaction.{TransactionId}
use panda_gen.Storage.Journal.Entries.{JournalEntry}
use panda_gen.Storage.Journal.{Replay, replay, replay_entry}
use panda_gen.Storage.Journal.System.{mentions}

pub replay-append_one :
    (j : List JournalEntry) (e : JournalEntry) → replay (j ++ e ∷ []) ≡ replay_entry (replay j) e
unfolding replay
replay-append_one j e = rw foldl-append

pub mentions-append_one :
    (j : List JournalEntry) (e : JournalEntry) (t : TransactionId)
    → mentions (j ++ e ∷ []) t ≡ (mentions j t || mentions (e ∷ []) t)
mentions-append_one [] e t = refl
mentions-append_one (JournalEntry.write u o v b ∷ j) e t = ground (arith, mentions-append_one j e t)
mentions-append_one (JournalEntry.commit u ∷ j) e t = ground (arith, mentions-append_one j e t)

-- A transaction that an entry does not name keeps its uncommitted writes.
pub writes-replay_entry :
    (r : Replay) (e : JournalEntry) (t : TransactionId)
    → mentions (e ∷ []) t ≡ false
    → (replay_entry r e).writes t ≡ r.writes t
unfolding replay_entry
writes-replay_entry r (JournalEntry.write u o v b) t h = ground arith
writes-replay_entry r (JournalEntry.commit u) t h = ground arith

fold_unmentioned :
    (j : List JournalEntry) (r : Replay) (t : TransactionId)
    → mentions j t ≡ false
    → (foldl replay_entry r j).writes t ≡ r.writes t
fold_unmentioned [] r t h = refl
fold_unmentioned (JournalEntry.write u o v b ∷ j) r t h = ground (
  arith,
  fold_unmentioned j (replay_entry r (JournalEntry.write u o v b)) t,
  writes-replay_entry r (JournalEntry.write u o v b) t,
)
fold_unmentioned (JournalEntry.commit u ∷ j) r t h = ground (
  arith,
  fold_unmentioned j (replay_entry r (JournalEntry.commit u)) t,
  writes-replay_entry r (JournalEntry.commit u) t,
)

-- A transaction that the journal does not name has no uncommitted writes.
pub writes-unmentioned :
    (j : List JournalEntry) (t : TransactionId) → mentions j t ≡ false → (replay j).writes t ≡ none
unfolding replay
writes-unmentioned j t h = fold_unmentioned j _ t h
