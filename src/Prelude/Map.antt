-- ===== src/Prelude/Map.antt =====
-- A JavaScript `Map` with numeric keys, as its entries in insertion order. `set` of a key that is
-- there keeps its place, and no key stands twice.
use mathlib.Core.Path.{◌≡◌, refl}
use mathlib.Core.List.{List, [], ◌∷◌}
use mathlib.Core.Bool.{false}
use mathlib.Core.Option.{Option, none, some}
use native.Mathlib.Omega.{arith}
use Prim.Native.Nat.{ℕ}
use litedoge_js.Prelude.Tests.{◌==◌, if◌then◌else◌}

abbrev pub Map {ℓ} : Type ℓ → Type ℓ
Map V = List (ℕ × V)

module _ {ℓ} {V : Type ℓ} where
  unfoldable pub get : ℕ → Map V → Option V
  get k [] = none
  get k ((j, v) ∷ m) = if j == k then some v else get k m

  unfoldable pub set : ℕ → V → Map V → Map V
  set k v [] = (k, v) ∷ []
  set k v ((j, w) ∷ m) = if j == k then (k, v) ∷ m else (j, w) ∷ set k v m

  unfoldable pub delete : ℕ → Map V → Map V
  delete k [] = []
  delete k ((j, w) ∷ m) = if j == k then m else (j, w) ∷ delete k m

  abbrev pub IsFresh : ℕ → Map V → Type 0
  IsFresh k [] = Unit
  IsFresh k ((j, v) ∷ m) = ((j == k) ≡ false) × IsFresh k m

  abbrev pub HasUniqueKeys : Map V → Type 0
  HasUniqueKeys [] = Unit
  HasUniqueKeys ((j, v) ∷ m) = IsFresh j m × HasUniqueKeys m

module _ {ℓ} {V : Type ℓ} where
  pub get-empty : (k : ℕ) → get {V = V} k [] ≡ none
  unfolding get
  get-empty k = refl

  pub get-set :
      (k j : ℕ) (v : V) (m : Map V) → get j (set k v m) ≡ (if k == j then some v else get j m)
  unfolding get set
  get-set k j v [] = refl
  get-set k j v ((i, w) ∷ m) = ground (arith, get-set k j v m)

  pub get-IsFresh : (k : ℕ) (m : Map V) → IsFresh k m → get k m ≡ none
  unfolding get
  get-IsFresh k [] f = refl
  get-IsFresh k ((j, v) ∷ m) f = ground (arith, get-IsFresh k m f.1)

  pub get-delete :
      (k j : ℕ) (m : Map V)
      → HasUniqueKeys m
      → get j (delete k m) ≡ (if k == j then none else get j m)
  unfolding get delete
  get-delete k j [] u = ground arith
  get-delete k j ((i, w) ∷ m) u = ground (arith, get-delete k j m u.1, get-IsFresh i m u.0)

  set-IsFresh :
      (k j : ℕ) (v : V) (m : Map V) → (k == j) ≡ false → IsFresh j m → IsFresh j (set k v m)
  unfolding set
  set-IsFresh k j v [] h f = (h, tt)
  set-IsFresh k j v ((i, w) ∷ m) h f = ground (arith, set-IsFresh k j v m h f.1)

  pub set-HasUniqueKeys : (k : ℕ) (v : V) (m : Map V) → HasUniqueKeys m → HasUniqueKeys (set k v m)
  unfolding set
  set-HasUniqueKeys k v [] u = (tt, tt)
  set-HasUniqueKeys k v ((i, w) ∷ m) u =
      ground (arith, set-HasUniqueKeys k v m u.1, set-IsFresh k i v m)
