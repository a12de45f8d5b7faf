-- ===== src/Prelude/Tables.antt =====
-- Maps with number keys that the program walks through: lists of entries, in the order in which an
-- iteration would meet them.
use Prim.Native.Nat.{ℕ}
use mathlib.Core.Path.{◌≡◌, refl}
use mathlib.Core.List.{List, [], ◌∷◌}
use mathlib.Core.Option.{Option, none, some}
use native.Mathlib.Omega.{arith}
use panda_gen.Prelude.Tests.{◌==◌, if◌then◌else◌}

module _ {ℓ} where
  abbrev pub Table : Type ℓ → Type ℓ
  Table V = List (ℕ × V)

module _ {ℓ} {V : Type ℓ} where
  -- `HashMap::get`
  unfoldable pub get : Table V → ℕ → Option V
  get [] t = none
  get ((u, v) ∷ m) t = if u == t then some v else get m t

  -- A change of the entry through `HashMap::get_mut`; with no entry, nothing.
  unfoldable pub update : Table V → ℕ → (V → V) → Table V
  update [] t f = []
  update ((u, v) ∷ m) t f = (if u == t then (u, f v) else (u, v)) ∷ update m t f

  -- `HashMap::insert`
  unfoldable pub insert : Table V → ℕ → V → Table V
  insert [] t v = (t, v) ∷ []
  insert ((u, old) ∷ m) t v = if u == t then (t, v) ∷ m else (u, old) ∷ insert m t v

  abbrev pub map_some : (V → V) → Option V → Option V
  map_some f none = none
  map_some f (some v) = some (f v)

  pub get-update :
      (m : Table V) (t u : ℕ) (f : V → V)
      → get (update m t f) u ≡ (if t == u then map_some f (get m u) else get m u)
  unfolding get update
  get-update [] t u f = ground arith
  get-update ((w, v) ∷ m) t u f = ground (arith, get-update m t u f)

  pub get-insert :
      (m : Table V) (t u : ℕ) (v : V) → get (insert m t v) u ≡ (if t == u then some v else get m u)
  unfolding get insert
  get-insert [] t u v = refl
  get-insert ((w, old) ∷ m) t u v = ground (arith, get-insert m t u v)

  -- `HashMap::remove`
  unfoldable pub remove : Table V → ℕ → Table V
  remove [] t = []
  remove ((u, v) ∷ m) t = if u == t then remove m t else (u, v) ∷ remove m t

  pub get-remove : (m : Table V) (t u : ℕ) → get (remove m t) u ≡ (if t == u then none else get m u)
  unfolding get remove
  get-remove [] t u = ground arith
  get-remove ((w, v) ∷ m) t u = ground (arith, get-remove m t u)
