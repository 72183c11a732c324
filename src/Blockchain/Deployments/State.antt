-- ===== src/Blockchain/Deployments/State.antt =====
-- The deployment states of lib/blockchain/chain.js without their cache.
use litedoge_js.Prelude.{
  ℕ, zero, suc, ◌+◌, ◌≡◌, ◌≢◌, refl, sym, ◌∙◌, Bool, none, some, ltb, leb, ◌==◌, ◌%◌, if◌then◌else◌,
  arith, Bool-cases, Option-cases, inl, inr,
}
use litedoge_js.Prelude.Int.{sub_ℕ}
use litedoge_js.Blockchain.Block.{ChainEntry}
use litedoge_js.Blockchain.Index.{get_previous, IsIn, Loop, done, no_previous, running}
use litedoge_js.Blockchain.Store.{Store}
use litedoge_js.Blockchain.Store.Ancestors.{get_ancestor}
use litedoge_js.Blockchain.Locks.{median_time}
use litedoge_js.Blockchain.Deployments.{
  Threshold, defined, started, locked_in, active, failed, has_bit, Deployment, Cache, elim_done,
  advance, reaches_threshold,
}

module _ (s : Store) (d : Deployment) where
  -- The state at the end of a window, from those of the windows before.
  unfoldable pub state_at : ℕ → ChainEntry → Loop Threshold
  state_at zero e = running
  state_at (suc n) e =
      if ltb (median_time s.entries e) d.start_time
      then done defined
      else elim_done (get_ancestor s e (sub_ℕ e.height d.window)) (λ before. elim before [
        | none ↦ advance s d defined e
        | some p ↦ elim_done (state_at n p) (λ st. advance s d st e)
      ])

  -- The state for the block after `prev`.
  unfoldable pub deployment_state : ChainEntry → Loop Threshold
  unfolding state_at
  deployment_state prev =
      let over = (prev.height + 1) % d.window in
      if d.always_active
      then done active
      else if over == 0
      then state_at (suc prev.height) prev
      else elim_done (get_ancestor s prev (sub_ℕ prev.height over))
          (λ before. elim before [ none ↦ done defined | some e ↦ state_at (suc e.height) e ])

  -- What the cache holds is the state.
  abbrev pub IsConsistent : Cache → Type 0
  IsConsistent c =
      (e : ChainEntry) (st : Threshold)
      → IsIn s.entries e
      → c e.hash ≡ some st
      → state_at (suc e.height) e ≡ done st

  abbrev pub Matches : Loop (Threshold × Cache) → Loop Threshold → Type 0
  Matches (done (st, c)) r = (r ≡ done st) × IsConsistent c
  Matches no_previous r = r ≡ no_previous
  Matches running r = ⊥

reaches-ends :
    (s : Store) (d : Deployment) (n : ℕ) (e : ChainEntry) (count : ℕ)
    → reaches_threshold s d n e count ≢ running
unfolding reaches_threshold get_previous
reaches-ends s d zero e count h = absurd (ground arith)
reaches-ends s d (suc n) e count h =
    let count' = if has_bit e.version d.bit then count + 1 else count in
    elim (Bool-cases (leb d.threshold count')) [
      | inl t ↦ ground arith
      | inr f ↦ elim (Option-cases (s.entries e.prev_block)) [
        | inl z ↦ ground arith
        | inr (p, z) ↦ reaches-ends s d n p count' (sym (rw (f, z) refl) ∙ h)
      ]
    ]

pub advance-ends :
    (s : Store) (d : Deployment) (st : Threshold) (e : ChainEntry) → advance s d st e ≢ running
unfolding advance
advance-ends s d defined e h = ground arith
advance-ends s d started e h = elim (Bool-cases (leb d.timeout (median_time s.entries e))) [
  | inl t ↦ ground arith
  | inr f ↦ go (reaches_threshold s d d.window e 0) refl (sym (rw f refl) ∙ h)
]
  where
    go :
        (o : Loop Bool)
        → reaches_threshold s d d.window e 0 ≡ o
        → elim_done o (λ reached. done (if reached then locked_in else started)) ≡ running
        → ⊥
    go (done b) q k = ground arith
    go no_previous q k = ground arith
    go running q k = reaches-ends s d d.window e 0 q
advance-ends s d locked_in e h = ground arith
advance-ends s d active e h = ground arith
advance-ends s d failed e h = ground arith
