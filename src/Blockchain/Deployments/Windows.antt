-- ===== src/Blockchain/Deployments/Windows.antt =====
-- The windows of the deployments in lib/blockchain/chain.js, and one step of the computation.
use litedoge_js.Prelude.{
  ℕ, zero, suc, ◌-◌, ◌<◌, ◌≡◌, ◌≢◌, ◌⊎◌, refl, sym, ap, ◌∙◌, subst, Bool, true, false, Option, none,
  some, ltb, leb, arith, Bool-cases, inl, inr,
}
use litedoge_js.Prelude.Int.{pos, negsuc, sub_ℕ}
use litedoge_js.Blockchain.Block.{ChainEntry}
use litedoge_js.Blockchain.Index.{IsIn, Loop, done, no_previous, running}
use litedoge_js.Blockchain.Index.Ancestors.{same_hash}
use litedoge_js.Blockchain.Records.{write-cases}
use litedoge_js.Blockchain.Store.{Store}
use litedoge_js.Blockchain.Store.MainChain.{IsMainChain, Ancestor-IsIn}
use litedoge_js.Blockchain.Store.Ancestors.{get_ancestor, get_ancestor_lem}
use litedoge_js.Blockchain.Locks.{median_time}
use litedoge_js.Blockchain.Deployments.{
  Threshold, defined, Deployment, Cache, cache_state, elim_done, advance, compute_one,
}
use litedoge_js.Blockchain.Deployments.State.{state_at, IsConsistent, Matches, advance-ends}

sub_pos : (a b : ℕ) → leb b a ≡ true → sub_ℕ a b ≡ pos (a - b)
sub_pos a b t = rw t refl

sub_neg : (a b : ℕ) → leb b a ≡ false → sub_ℕ a b ≡ negsuc (b - a - 1)
sub_neg a b f = rw f refl

not_none : {p : ChainEntry} → done none ≡ done (some p) → ⊥
not_none {p} q = ground (arith, ap is_none q)
  where
    is_none : Loop (Option ChainEntry) → Bool
    is_none (done none) = true
    is_none x = false

same_ancestor : {a b : ChainEntry} → done (some a) ≡ done (some b) → a ≡ b
same_ancestor {a} q = ap (of a) q
  where
    of : ChainEntry → Loop (Option ChainEntry) → ChainEntry
    of d (done (some e)) = e
    of d (done none) = d
    of d no_previous = d
    of d running = d

module _ (genesis tip : ChainEntry) (s : Store) (m : IsMainChain genesis s tip) (d : Deployment)
    (w : 0 < d.window) where
  no_ancestor :
      (e : ChainEntry) (b : ℕ)
      → leb b e.height ≡ false
      → get_ancestor s e (sub_ℕ e.height b) ≡ done none
  unfolding get_ancestor
  no_ancestor e b f = ap (get_ancestor s e) (sub_neg e.height b f)

  -- So many blocks before an entry there is no entry, or one of the index that is lower.
  pub entry_before :
      (e : ChainEntry) (b : ℕ)
      → IsIn s.entries e
      → 0 < b
      → (get_ancestor s e (sub_ℕ e.height b) ≡ done none)
        ⊎ ((a : ChainEntry) × (get_ancestor s e (sub_ℕ e.height b) ≡ done (some a))
            × IsIn s.entries a
            × (a.height < e.height))
  entry_before e b i l = elim (Bool-cases (leb b e.height)) [
    | inr f ↦ inl (no_ancestor e b f)
    | inl t ↦
        let (a, q, r, z) = get_ancestor_lem genesis tip e s (e.height - b) m i (omega arith) in
        inr (
          a,
          ap (get_ancestor s e) (sub_pos e.height b t) ∙ q,
          Ancestor-IsIn s.entries genesis m.0 a e i r,
          ground arith,
        )
  ]

  pub window_before :
      (e p : ChainEntry)
      → IsIn s.entries e
      → get_ancestor s e (sub_ℕ e.height d.window) ≡ done (some p)
      → IsIn s.entries p × (p.height < e.height)
  window_before e p i h = elim (entry_before e d.window i w) [
    | inl n ↦ absurd (not_none (sym n ∙ h))
    | inr (a, q, ia, l) ↦
        let same = same_ancestor (sym q ∙ h) in
        (subst (IsIn s.entries) same ia, subst (λ (x : ChainEntry). x.height < e.height) same l)
  ]

  pub before-ends :
      (e : ChainEntry) (b : ℕ)
      → IsIn s.entries e
      → 0 < b
      → get_ancestor s e (sub_ℕ e.height b) ≢ running
  before-ends e b i l h = elim (entry_before e b i l) [
    | inl n ↦ ends (sym n ∙ h)
    | inr (a, q, ia, k) ↦ ends (sym q ∙ h)
  ]
    where
      ends : {o : Option ChainEntry} → done o ≡ running → ⊥
      ends q = ground arith

  pub cache_state-IsConsistent :
      (e : ChainEntry) (st : Threshold) (c : Cache)
      → IsIn s.entries e
      → state_at s d (suc e.height) e ≡ done st
      → IsConsistent s d c
      → IsConsistent s d (cache_state e st c)
  unfolding cache_state
  cache_state-IsConsistent e st c i h k e' st' i' r =
      elim (write-cases e.hash e'.hash (some st) c st' r) [
        | inr (n, j) ↦ k e' st' i' j
        | inl (q, j) ↦
            subst (λ (x : ChainEntry). state_at s d (suc x.height) x ≡ done st')
              (same_hash s.entries e e' i i' q) (h ∙ ap done (same_state j))
      ]
    where
      same_state : {a b : Threshold} → some a ≡ some b → a ≡ b
      same_state {a} q = ap (λ (o : Option Threshold). elim o [ none ↦ a | some x ↦ x ]) q

  pub state_at-fuel :
      (n k : ℕ) (e : ChainEntry)
      → IsIn s.entries e
      → e.height < n
      → e.height < k
      → state_at s d n e ≡ state_at s d k e
  unfolding state_at
  state_at-fuel zero k e i h l = absurd (omega arith)
  state_at-fuel (suc n) zero e i h l = absurd (omega arith)
  state_at-fuel (suc n) (suc k) e i h l =
      elim (Bool-cases (ltb (median_time s.entries e) d.start_time)) [
        | inl t ↦ rw t refl
        | inr f ↦ rw f (
            go (get_ancestor s e (sub_ℕ e.height d.window)) (λ p q.
              let (ip, lp) = window_before e p i q in
              state_at-fuel n k p ip (omega arith) (omega arith)))
      ]
    where
      go :
          (o : Loop (Option ChainEntry))
          → ((p : ChainEntry) → o ≡ done (some p) → state_at s d n p ≡ state_at s d k p)
          → elim_done o (λ before. elim before [
            | none ↦ advance s d defined e
            | some p ↦ elim_done (state_at s d n p) (λ st. advance s d st e)
          ])
            ≡ elim_done o (λ before. elim before [
              | none ↦ advance s d defined e
              | some p ↦ elim_done (state_at s d k p) (λ st. advance s d st e)
            ])
      go (done none) f = refl
      go (done (some p)) f = rw (f p refl) refl
      go no_previous f = refl
      go running f = refl

  pub one-Matches :
      (x : Loop (Threshold × Cache)) (r : Loop Threshold) (e : ChainEntry)
      → IsIn s.entries e
      → Matches s d x r
      → state_at s d (suc e.height) e ≡ elim_done r (λ st. advance s d st e)
      → Matches s d (elim_done x (compute_one s d e)) (state_at s d (suc e.height) e)
  one-Matches no_previous r e i h q = q ∙ ap (λ y. elim_done y (λ st. advance s d st e)) h
  one-Matches running r e i h q = absurd h
  one-Matches (done (st, c)) r e i (h, k) q =
      go (advance s d st e) (q ∙ ap (λ y. elim_done y (λ st'. advance s d st' e)) h)
        (advance-ends s d st e)
    where
      go :
          (o : Loop Threshold)
          → state_at s d (suc e.height) e ≡ o
          → o ≢ running
          → Matches s d
              (elim_done o (λ st'. done (st', cache_state e st' c)))
              (state_at s d (suc e.height) e)
      go (done st') z n = (z, cache_state-IsConsistent e st' c i z k)
      go no_previous z n = z
      go running z n = absurd (n refl)
