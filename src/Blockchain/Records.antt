-- ===== src/Blockchain/Records.antt =====
-- The records of one prefix in the database of lib/blockchain/chaindb.js, by their keys.
use litedoge_js.Prelude.{
  ℕ, ◌≡◌, ◌≢◌, refl, ◌⊎◌, inl, inr, Option, some, arith, Bool-cases, ==→eq, ==_refl, ◌==◌,
  if◌then◌else◌,
}

-- A record of the database, written or deleted.
unfoldable pub write {ℓ} : {V : Type ℓ} → ℕ → Option V → (ℕ → Option V) → ℕ → Option V
write k v m j = if k == j then v else m j

pub write-same {ℓ} : {V : Type ℓ} (k : ℕ) (v : Option V) (m : ℕ → Option V) → write k v m k ≡ v
unfolding write
write-same k v m = rw (==_refl k) refl

pub write-other {ℓ} :
    {V : Type ℓ} (k j : ℕ) (v : Option V) (m : ℕ → Option V) → (k ≢ j) → write k v m j ≡ m j
unfolding write
write-other k j v m n = elim (Bool-cases (k == j)) [
  | inl t ↦ absurd (n (==→eq k j t))
  | inr f ↦ rw f refl
]

pub write-cases {ℓ} :
    {V : Type ℓ} (k j : ℕ) (v : Option V) (m : ℕ → Option V) (w : V)
    → write k v m j ≡ some w
    → ((k ≡ j) × (v ≡ some w)) ⊎ ((k ≢ j) × (m j ≡ some w))
unfolding write
write-cases k j v m w h = elim (Bool-cases (k == j)) [
  | inl t ↦ inl (==→eq k j t, ground arith)
  | inr f ↦ inr (λ e. ground arith, ground arith)
]
