-- ===== src/Storage/Journal/Recovery.antt =====
-- services_storage/src/journaled_storage.rs: the journal always holds what the memory holds.
use panda_gen.Prelude.{ℕ, ◌≡◌, refl, true, false, List, none, some, arith, inl, inr, Bool-cases}
use panda_gen.Storage.Transaction.{Transaction, TransactionId, ObjectId, VersionId, is_active}
use panda_gen.Storage.Journal.Entries.{JournalEntry}
use panda_gen.Storage.Journal.{
  replay, replay_entry, recover, from_journal, begin_transaction, write, commit, rollback,
}
use panda_gen.Storage.Journal.System.{
  System, Step, begins, writes, commits, rolls_back, reboots, recovers, Reach, here, next, start,
  mentions, IsFresh, after,
}
use panda_gen.Storage.Journal.Replaying.{replay-append_one, mentions-append_one, writes-unmentioned}

-- What holds of a system between two calls.
pub record Inv (s : System) : Type 0 where
  -- A replay of the journal gives the committed objects.
  pub durable : (replay s.journal).rebuilt ≡ s.objects
  -- And the pending writes of each active transaction.
  pub buffered :
      (t : TransactionId) (tx : Transaction)
      → s.transactions t ≡ some tx
      → is_active tx.state ≡ true
      → (replay s.journal).writes t ≡ s.pending t
  -- A transaction is held under its own identifier.
  pub keyed : (t : TransactionId) (tx : Transaction) → s.transactions t ≡ some tx → tx.id ≡ t
  -- Pending writes are journaled.
  pub journaled : (t : TransactionId) → mentions s.journal t ≡ false → s.pending t ≡ none

pub start-Inv : Inv start
unfolding replay
start-Inv = record {
  durable = refl;
  buffered = λ t tx h a. cc;
  keyed = λ t tx h. cc;
  journaled = λ t h. refl;
}

begins-Inv :
    (s : System) (t : TransactionId)
    → IsFresh s t
    → Inv s
    → Inv (after s s.storage (begin_transaction s.storage t).1)
unfolding begin_transaction
begins-Inv s t f v = record {
  durable = v.durable;
  buffered =
      λ u tx h a. ground (arith, writes-unmentioned s.journal t, v.journaled t, v.buffered u tx);
  keyed = λ u tx h. ground (arith, v.keyed u tx);
  journaled = v.journaled;
}

module _ (s : System) (t : TransactionId) (tx : Transaction)
    (held : s.transactions t ≡ some tx) where
  pub idle-Inv : Inv s → Inv (after s s.storage tx)
  idle-Inv v = record {
    durable = v.durable;
    buffered = λ u tx' h a. ground (arith, v.buffered u tx', v.keyed t tx, v.buffered tx.id tx);
    keyed = λ u tx' h. ground (arith, v.keyed u tx');
    journaled = v.journaled;
  }

  writes-Inv :
      (o : ObjectId) (b : List ℕ) (i : VersionId)
      → Inv s
      → Inv (after s (write s.storage tx o b i).0 (write s.storage tx o b i).1)
  unfolding write
  writes-Inv o b i v = elim (Bool-cases (is_active tx.state)) [
    | inr e ↦ rw e (idle-Inv v)
    | inl e ↦ rw e (record {
      durable = rw replay-append_one (unfold replay_entry in v.durable);
      buffered = λ u tx' h a.
          rw replay-append_one (
            unfold replay_entry in ground (arith, v.buffered u tx', v.buffered t tx, v.keyed t tx));
      keyed = λ u tx' h. ground (arith, v.keyed u tx');
      journaled = λ u h.
          ground (
            arith,
            v.journaled u,
            mentions-append_one s.journal (JournalEntry.write tx.id o i b) u,
          );
    })
  ]

  commits-Inv : Inv s → Inv (after s (commit s.storage tx).0 (commit s.storage tx).1)
  unfolding commit
  commits-Inv v = elim (Bool-cases (is_active tx.state)) [
    | inr e ↦ rw e (idle-Inv v)
    | inl e ↦ rw e (record {
      durable =
          rw replay-append_one
            (unfold replay_entry in ground (arith, v.buffered t tx, v.keyed t tx, v.durable));
      buffered = λ u tx' h a.
          rw replay-append_one (
            unfold replay_entry in ground (arith, v.buffered u tx', v.buffered t tx, v.keyed t tx));
      keyed = λ u tx' h. ground (arith, v.keyed u tx');
      journaled = λ u h.
          ground
            (arith, v.journaled u, mentions-append_one s.journal (JournalEntry.commit tx.id) u);
    })
  ]

  rolls_back-Inv : Inv s → Inv (after s (rollback s.storage tx).0 (rollback s.storage tx).1)
  unfolding rollback
  rolls_back-Inv v = elim (Bool-cases (is_active tx.state)) [
    | inr e ↦ rw e (idle-Inv v)
    | inl e ↦ rw e (record {
      durable = v.durable;
      buffered = λ u tx' h a. ground (arith, v.buffered u tx', v.keyed t tx);
      keyed = λ u tx' h. ground (arith, v.keyed u tx');
      journaled = λ u h. ground (arith, v.journaled u);
    })
  ]

reboots-Inv :
    (s : System) → Inv (record { storage = from_journal s.journal; transactions = λ _. none })
unfolding from_journal
reboots-Inv s = record {
  durable = refl;
  buffered = λ t tx h a. cc;
  keyed = λ t tx h. cc;
  journaled = λ t h. refl;
}

recovers-Inv : (s : System) → Inv (record { storage = recover s.storage; transactions = λ _. none })
unfolding recover
recovers-Inv s = record {
  durable = refl;
  buffered = λ t tx h a. cc;
  keyed = λ t tx h. cc;
  journaled = λ t h. refl;
}

pub Step-Inv : {s u : System} → Step s u → Inv s → Inv u
Step-Inv (begins s t f) v = begins-Inv s t f v
Step-Inv (writes s t tx o b i h) v = writes-Inv s t tx h o b i v
Step-Inv (commits s t tx h) v = commits-Inv s t tx h v
Step-Inv (rolls_back s t tx h) v = rolls_back-Inv s t tx h v
Step-Inv (reboots s) v = reboots-Inv s
Step-Inv (recovers s) v = recovers-Inv s

pub Reach-Inv : {s u : System} → Inv s → Reach s u → Inv u
Reach-Inv v here = v
Reach-Inv v (next r st) = Step-Inv st (Reach-Inv v r)

-- After any history of begins, writes, commits, rollbacks, reboots and recoveries from an empty
-- store, in which a begun transaction gets an identifier never drawn before and no transaction
-- goes on after a reboot or a recovery, recovering from the journal gives back exactly the
-- committed objects.
pub recover-objects : {s : System} → Reach start s → (recover s.storage).objects ≡ s.objects
unfolding recover
recover-objects r = (Reach-Inv start-Inv r).durable
