-- ===== src/Kernel/Authority/Ledger.antt =====
-- sim_kernel/src/lib.rs: what the moves keep: the log of capabilities tells who holds each of them, an
-- invalid capability stays invalid, and a task that has ended is gone.
use panda_gen.Prelude.{
  ℕ, ◌≡◌, refl, sym, ap, ◌∙◌, Bool, true, false, List, [], ◌∷◌, ◌++◌, some, Option-cases, inl, inr,
  if◌then◌else◌, ◌==◌, arith, Map, empty_map,
}
use panda_gen.Prelude.Tables.{get, get-insert, get-update, map_some}
use panda_gen.Scheduler.Types.{TaskId}
use panda_gen.Kernel.{SimulatedKernel, audit_capability}
use panda_gen.Kernel.Types.{CapabilityMetadata, CapabilityEvent, granted, cross_domain_delegation}
use panda_gen.Kernel.Authority.{
  is_valid, is_task, validate_capability, is_capability_valid, record_capability_grant,
  change_capability,
}
use panda_gen.Kernel.Authority.Validity.{change_capability-get, change_capability-tasks}
use panda_gen.Kernel.Authority.Moves.{
  tell, holder, IsChange, Move, unmoved, begins, ends, gives, crosses, changes,
}

abbrev pub told : Map TaskId → List (ℕ × CapabilityEvent) → Map TaskId
told holders [] = holders
told holders ((t, event) ∷ log) = told (tell holders event) log

-- The log, read from its start, gives the holder of every capability in the table.
pub record IsTold (k : SimulatedKernel) : Type 0 where
  pub tells : (c : ℕ) → told empty_map k.capability_audit c ≡ holder (get k.capability_table c)

told-append_one :
    (holders : Map TaskId) (log : List (ℕ × CapabilityEvent)) (t : ℕ) (event : CapabilityEvent)
    → told holders (log ++ (t, event) ∷ []) ≡ tell (told holders log) event
told-append_one holders [] t event = refl
told-append_one holders ((u, e) ∷ log) t event = told-append_one (tell holders e) log t event

-- An event that tells of a change of the table.
audit_capability-IsTold :
    (k : SimulatedKernel) (event : CapabilityEvent)
    → ((c : ℕ)
        → tell (told empty_map k.capability_audit) event c ≡ holder (get k.capability_table c))
    → IsTold (audit_capability k event)
audit_capability-IsTold k event h = record {
  tells = λ c.
      ap (λ (holders : Map TaskId). holders c)
        (told-append_one empty_map k.capability_audit k.current_time event)
      ∙ h c;
}

change_capability-IsTold :
    (k : SimulatedKernel) (c : ℕ) (change : CapabilityMetadata → CapabilityMetadata)
    (event : CapabilityMetadata → CapabilityEvent)
    → IsChange k c change event
    → IsTold k
    → IsTold (change_capability k c change event)
unfolding change_capability
change_capability-IsTold k c change event h i = elim (Option-cases (get k.capability_table c)) [
  | inl n ↦ rw (change_capability, n) i
  | inr (meta, q) ↦
      rw (change_capability, q)
        (audit_capability-IsTold _ (event meta) (λ d.
          rw get-update
            (ground (arith, q, i.tells d, h.told meta (told empty_map k.capability_audit) d q))))
]

pub Move-IsTold :
    {begun : TaskId → Bool} {given : ℕ → Bool} {k n : SimulatedKernel}
    → Move begun given k n
    → IsTold k
    → IsTold n
unfolding record_capability_grant change_capability
Move-IsTold (unmoved k n audit table tasks stays) i = record {
  tells = λ c. rw (audit, table) (i.tells c);
}
Move-IsTold (begins k n t info b audit table tasks stays) i = record {
  tells = λ c. rw (audit, table) (i.tells c);
}
Move-IsTold (ends k t) i = record { tells = i.tells }
Move-IsTold (gives k c t cap_type grantor lease g) i =
    audit_capability-IsTold _ (granted c grantor t cap_type)
      (λ d. rw get-insert (ground (arith, i.tells d)))
Move-IsTold (crosses k c from to d d') i =
    audit_capability-IsTold k (cross_domain_delegation c from d to d') i.tells
Move-IsTold (changes k c change event h) i = change_capability-IsTold k c change event h i

-- No capability with that identifier is valid.
pub record IsGone (c : ℕ) (k : SimulatedKernel) : Type 0 where
  pub gone :
      (meta : CapabilityMetadata)
      → get k.capability_table c ≡ some meta
      → is_valid meta.status ≡ false

pub IsGone-refused :
    (c : ℕ) (k : SimulatedKernel) (t : TaskId) → IsGone c k → is_capability_valid k c t ≡ false
unfolding validate_capability
IsGone-refused c k t h = elim (Option-cases (get k.capability_table c)) [
  | inl n ↦ ground (arith, n)
  | inr (meta, q) ↦ ground (arith, q, h.gone meta q)
]

not_given : (given : ℕ → Bool) {c d : ℕ} → given d ≡ true → given c ≡ false → (d == c) ≡ false
not_given given g f = ground (arith, g, f)

IsGone-change_capability :
    (k : SimulatedKernel) (c d : ℕ) (change : CapabilityMetadata → CapabilityMetadata)
    (event : CapabilityMetadata → CapabilityEvent)
    → IsChange k d change event
    → IsGone c k
    → IsGone c (change_capability k d change event)
IsGone-change_capability k c d change event h i = record {
  gone = λ meta q.
      let r : (if d == c
            then map_some change (get k.capability_table c)
            else get k.capability_table c)
          ≡ some meta =
        sym (change_capability-get k d change event c) ∙ q in
      elim (Option-cases (get k.capability_table c)) [
        | inl n ↦ ground (arith, n, r)
        | inr (old, o) ↦ ground (arith, o, r, i.gone old o, h.stays_invalid old (i.gone old o))
      ];
}

pub Move-IsGone :
    {begun : TaskId → Bool} (given : ℕ → Bool) {k n : SimulatedKernel} (c : ℕ)
    → given c ≡ false
    → Move begun given k n
    → IsGone c k
    → IsGone c n
unfolding record_capability_grant
Move-IsGone given c f (unmoved k n audit table tasks stays) i = record {
  gone = λ meta q. i.gone meta (ap (λ m. get m c) (sym table) ∙ q);
}
Move-IsGone given c f (begins k n t info b audit table tasks stays) i = record {
  gone = λ meta q. i.gone meta (ap (λ m. get m c) (sym table) ∙ q);
}
Move-IsGone given c f (ends k t) i = record { gone = i.gone }
Move-IsGone given c f (gives k d t cap_type grantor lease g) i = record {
  gone = λ meta q.
      let other : (d == c) ≡ false = not_given given g f in
      i.gone meta (sym (get-insert k.capability_table d c _ ∙ rw other refl) ∙ q);
}
Move-IsGone given c f (crosses k d from to e e') i = record { gone = i.gone }
Move-IsGone given c f (changes k d change event h) i =
    IsGone-change_capability k c d change event h i

pub Move-ended :
    {begun : TaskId → Bool} {given : ℕ → Bool} {k n : SimulatedKernel} (t : TaskId)
    → begun t ≡ false
    → Move begun given k n
    → is_task k t ≡ false
    → is_task n t ≡ false
unfolding record_capability_grant
Move-ended t f (unmoved k n audit table tasks stays) i = rw tasks i
Move-ended t f (begins k n u info b audit table tasks stays) i = rw tasks (ground (arith, i, b, f))
Move-ended t f (ends k u) i = ground (arith, i)
Move-ended t f (gives k c u cap_type grantor lease g) i = i
Move-ended t f (crosses k c from to d d') i = i
Move-ended t f (changes k c change event h) i = rw (change_capability-tasks k c change event) i
