-- ===== src/Storage/Journal/Histories.antt =====
-- services_storage/src/journaled_storage.rs: the version history of an object under commits.
use mathlib.Core.List.{append-nil, append_assoc}
use panda_gen.Prelude.{
  ◌≡◌, refl, sym, ◌∙◌, true, List, [], ◌∷◌, ◌++◌, map, arith, Map, ◌==◌, select, Bool-cases,
  Option-cases, inl, inr,
}
use panda_gen.Storage.Transaction.{Transaction, ObjectId, is_active}
use panda_gen.Storage.Journal.Entries.{
  VersionEntry, PendingWrite, apply_write, apply_writes, or_nil,
}
use panda_gen.Storage.Journal.{
  JournaledStorage, from_journal, recover, write, commit, rollback, apply_pending,
}
use panda_gen.Storage.Journal.System.{
  System, Step, begins, writes, commits, rolls_back, reboots, recovers, Reach, here, next, start,
}
use panda_gen.Storage.Journal.Recovery.{start-Inv, Inv, Reach-Inv}

-- The versions of an object, oldest first.
abbrev pub versions : JournaledStorage → ObjectId → List VersionEntry
versions s o = or_nil (s.objects o)

abbrev pub to_version : PendingWrite → VersionEntry
to_version w = record { version_id = w.version_id; bytes = w.bytes }

-- The writes of a batch that go to one object, as its versions.
abbrev pub versions_of : ObjectId → List PendingWrite → List VersionEntry
versions_of o ws = map to_version (select (λ w. w.object_id == o) ws)

pub apply_writes-versions_of :
    (m : Map (List VersionEntry)) (ws : List PendingWrite) (o : ObjectId)
    → or_nil (apply_writes m ws o) ≡ or_nil (m o) ++ versions_of o ws
unfolding apply_writes
apply_writes-versions_of m [] o = sym (append-nil (or_nil (m o)))
apply_writes-versions_of m (w ∷ ws) o = elim (Bool-cases (w.object_id == o)) [
  | inl e ↦
      apply_writes-versions_of (apply_write m w) ws o
      ∙ rw e (ground (arith, append_assoc (or_nil (m o)) (to_version w ∷ []) (versions_of o ws)))
  | inr e ↦ apply_writes-versions_of (apply_write m w) ws o ∙ rw e (refl)
]

-- Committing an active transaction appends its pending writes to the histories of their objects,
-- in the order of the writes, and each object that it did not write keeps its history.
pub versions-commit :
    (s : JournaledStorage) (tx : Transaction) (o : ObjectId)
    → is_active tx.state ≡ true
    → versions (commit s tx).0 o ≡ versions s o ++ versions_of o (or_nil (s.pending tx.id))
unfolding commit
versions-commit s tx o a = elim (Option-cases (s.pending tx.id)) [
  | inl e ↦ rw (a, e, apply_pending) (sym (append-nil (versions s o)))
  | inr (ws, e) ↦ rw (a, e, apply_pending) (apply_writes-versions_of s.objects ws o)
]

abbrev pub Extends : List VersionEntry → List VersionEntry → Type 0
Extends xs ys = (zs : List VersionEntry) × (ys ≡ xs ++ zs)

Extends-refl : (xs : List VersionEntry) → Extends xs xs
Extends-refl xs = ([], sym (append-nil xs))

commit-Extends :
    (s : JournaledStorage) (tx : Transaction) (o : ObjectId)
    → Extends (versions s o) (versions (commit s tx).0 o)
commit-Extends s tx o = elim (Bool-cases (is_active tx.state)) [
  | inl a ↦ (versions_of o (or_nil (s.pending tx.id)), versions-commit s tx o a)
  | inr a ↦ unfold commit in rw a (Extends-refl (versions s o))
]

Step-Extends :
    {s u : System}
    → Inv s
    → Step s u
    → (o : ObjectId) → Extends (versions s.storage o) (versions u.storage o)
unfolding write rollback from_journal recover
Step-Extends v (begins s t f) o = Extends-refl _
Step-Extends v (writes s t tx p b i h) o = ([], ground (arith, append-nil (versions s.storage o)))
Step-Extends v (commits s t tx h) o = commit-Extends s.storage tx o
Step-Extends v (rolls_back s t tx h) o = ([], ground (arith, append-nil (versions s.storage o)))
Step-Extends v (reboots s) o = ([], rw v.durable (sym (append-nil (versions s.storage o))))
Step-Extends v (recovers s) o = ([], rw v.durable (sym (append-nil (versions s.storage o))))

Extends-trans : (xs ys zs : List VersionEntry) → Extends xs ys → Extends ys zs → Extends xs zs
Extends-trans xs ys zs (vs, p) (ws, q) = (vs ++ ws, q ∙ rw p (append_assoc xs vs ws))

Inv-Extends :
    {s u : System}
    → Inv s
    → Reach s u
    → (o : ObjectId) → Extends (versions s.storage o) (versions u.storage o)
Inv-Extends v here o = Extends-refl _
Inv-Extends v (next r st) o =
    Extends-trans _ _ _ (Inv-Extends v r o) (Step-Extends (Reach-Inv v r) st o)

-- No begin, write, commit or rollback, no reboot and no recovery removes or changes a version, as long
-- as a begun transaction gets an identifier never drawn before and no transaction goes on after a
-- reboot or a recovery: along any such history that starts in a system reachable from an empty
-- store, the history of each object only gets longer at its end.
pub versions-Extends :
    {s u : System}
    → Reach start s
    → Reach s u
    → (o : ObjectId) → Extends (versions s.storage o) (versions u.storage o)
versions-Extends r r' o = Inv-Extends (Reach-Inv start-Inv r) r' o
