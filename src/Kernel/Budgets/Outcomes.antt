-- ===== src/Kernel/Budgets/Outcomes.antt =====
-- sim_kernel/src/lib.rs: the three ways in which a charge can leave the kernel.
use panda_gen.Prelude.{ℕ, ◌≡◌, refl, ◌⊎◌, some, Option-cases, Bool-cases, inl, inr, arith}
use panda_gen.Identity.{ExecutionId, IdentityMetadata}
use panda_gen.Kernel.{SimulatedKernel}
use panda_gen.Kernel.Budgets.{Meter, try_consume, consume, exhaust, is_identity_cancelled}

module _ (k : SimulatedKernel) (m : Meter) (e : ExecutionId) where
  -- As it was, with the usage counted, or with the execution cancelled.
  abbrev pub Outcome : SimulatedKernel → Type 0
  Outcome n =
      (n ≡ k)
      ⊎ (((identity : IdentityMetadata) × (k.identity_table e ≡ some identity)
            × (n ≡ consume k m e identity))
          ⊎ ((limit : ℕ) × (current : ℕ) × (n ≡ (exhaust k m e limit current).0)))

  pub try_consume-outcome : Outcome (try_consume k m e).0
  unfolding try_consume
  try_consume-outcome = elim (Bool-cases (is_identity_cancelled k e)) [
    | inl c ↦ rw (try_consume, c) (inl refl)
    | inr c ↦ elim (Option-cases (k.identity_table e)) [
      | inl n ↦ rw (try_consume, c, n) (inl refl)
      | inr (identity, q) ↦ elim (Option-cases identity.budget) [
        | inl n ↦ rw (try_consume, c, q, n) (inl refl)
        | inr (b, w) ↦ elim (Option-cases (m.limit b)) [
          | inl n ↦ inr (inl (identity, q, ground arith))
          | inr (limit, l) ↦ elim (Bool-cases (m.passes (m.usage identity.usage) limit)) [
            | inl p ↦ inr (inr (limit, m.usage identity.usage, ground arith))
            | inr p ↦ inr (inl (identity, q, ground arith))
          ]
        ]
      ]
    ]
  ]

  -- What holds after each of the three holds after the charge.
  pub try_consume-keeps {ℓ} :
      (P : SimulatedKernel → Type ℓ)
      → P k
      → ((identity : IdentityMetadata)
          → k.identity_table e ≡ some identity
          → P (consume k m e identity))
      → ((limit current : ℕ) → P (exhaust k m e limit current).0)
      → P (try_consume k m e).0
  try_consume-keeps P same consumed exhausted = elim try_consume-outcome [
    | inl h ↦ rw h same
    | inr (inl (identity, q, h)) ↦ rw h (consumed identity q)
    | inr (inr (limit, current, h)) ↦ rw h (exhausted limit current)
  ]
