-- ===== src/Blockchain/Deployments/Steps.antt =====
-- The deployment states of lib/blockchain/chain.js from window to window.
use litedoge_js.Prelude.{
  suc, ◌+◌, ◌%◌, ◌==◌, ◌≤◌, ◌<◌, ◌≡◌, refl, sym, ap, ◌∙◌, subst, Bool, true, false, some, ltb, leb,
  if◌then◌else◌, arith, Bool-cases, inl, inr,
}
use litedoge_js.Prelude.Int.{sub_ℕ}
use litedoge_js.Blockchain.Block.{ChainEntry}
use litedoge_js.Blockchain.Index.{IsIn, Loop, done, no_previous, running}
use litedoge_js.Blockchain.Store.{Store}
use litedoge_js.Blockchain.Store.MainChain.{IsMainChain}
use litedoge_js.Blockchain.Store.Ancestors.{get_ancestor}
use litedoge_js.Blockchain.Locks.{median_time}
use litedoge_js.Blockchain.Deployments.{
  Threshold, defined, started, locked_in, active, failed, Deployment, elim_done, advance,
  reaches_threshold, Cache, get_state,
}
use litedoge_js.Blockchain.Deployments.State.{state_at, deployment_state, IsConsistent, Matches}
use litedoge_js.Blockchain.Deployments.Cached.{get_state-Matches}
use litedoge_js.Blockchain.Deployments.Signals.{count_signals, reaches_threshold-count_signals}
use litedoge_js.Blockchain.Deployments.Windows.{window_before, state_at-fuel}

-- The steps of BIP9 at the last block of a window, by its median time and the number of the window's
-- blocks that signal.
pub data IsNext (s : Store) (d : Deployment) (e : ChainEntry) : Threshold → Threshold → Type 0 where
  stays_defined : median_time s.entries e < d.start_time → IsNext s d e defined defined
  starts :
      d.start_time ≤ median_time s.entries e
      → median_time s.entries e < d.timeout
      → IsNext s d e defined started
  never_starts :
      d.start_time ≤ median_time s.entries e
      → d.timeout ≤ median_time s.entries e
      → IsNext s d e defined failed
  stays_started :
      median_time s.entries e < d.timeout
      → count_signals s d.bit d.window (some e) < d.threshold
      → IsNext s d e started started
  locks_in :
      median_time s.entries e < d.timeout
      → d.threshold ≤ count_signals s d.bit d.window (some e)
      → IsNext s d e started locked_in
  times_out : d.timeout ≤ median_time s.entries e → IsNext s d e started failed
  activates : IsNext s d e locked_in active
  stays_active : IsNext s d e active active
  stays_failed : IsNext s d e failed failed

done_state : {a b : Threshold} → done a ≡ done b → a ≡ b
done_state {a} q = ap (of a) q
  where
    of : Threshold → Loop Threshold → Threshold
    of d (done x) = x
    of d no_previous = d
    of d running = d

-- The state that `advance` comes to, from the state that the test of the signals gives.
tested-IsNext :
    (s : Store) (d : Deployment) (st : Threshold) (e : ChainEntry) (o : Loop Bool)
    → 0 < d.window
    → median_time s.entries e < d.timeout
    → reaches_threshold s d d.window e 0 ≡ o
    → elim_done o (λ reached. done (if reached then locked_in else started)) ≡ done st
    → IsNext s d e started st
tested-IsNext s d st e (done true) w h r q =
    let told = reaches_threshold-count_signals s d d.window e 0 true (inr w) r in
    subst (IsNext s d e started) (done_state q) (locks_in h (ground arith))
tested-IsNext s d st e (done false) w h r q =
    let told = reaches_threshold-count_signals s d d.window e 0 false (inr w) r in
    subst (IsNext s d e started) (done_state q) (stays_started h (ground arith))
tested-IsNext s d st e no_previous w h r q = absurd (ground arith)
tested-IsNext s d st e running w h r q = absurd (ground arith)

advance-IsNext :
    (s : Store) (d : Deployment) (st st' : Threshold) (e : ChainEntry)
    → 0 < d.window
    → d.start_time ≤ median_time s.entries e
    → advance s d st e ≡ done st'
    → IsNext s d e st st'
unfolding advance
advance-IsNext s d defined st' e w le h =
    elim (Bool-cases (leb d.timeout (median_time s.entries e))) [
      | inl t ↦
          subst (IsNext s d e defined) (done_state (sym (rw t refl) ∙ h))
            (never_starts le (ground arith))
      | inr f ↦
          let begun : leb d.start_time (median_time s.entries e) ≡ true = ground arith in
          subst (IsNext s d e defined) (done_state (sym (rw (f, begun) refl) ∙ h))
            (starts le (ground arith))
    ]
advance-IsNext s d started st' e w le h =
    elim (Bool-cases (leb d.timeout (median_time s.entries e))) [
      | inl t ↦
          subst (IsNext s d e started) (done_state (sym (rw t refl) ∙ h)) (times_out (ground arith))
      | inr f ↦
          tested-IsNext s d st' e (reaches_threshold s d d.window e 0) w (ground arith) refl
            (sym (rw f refl) ∙ h)
    ]
advance-IsNext s d locked_in st' e w le h = subst (IsNext s d e locked_in) (done_state h) activates
advance-IsNext s d active st' e w le h = subst (IsNext s d e active) (done_state h) stays_active
advance-IsNext s d failed st' e w le h = subst (IsNext s d e failed) (done_state h) stays_failed

module _ (genesis tip : ChainEntry) (s : Store) (m : IsMainChain genesis s tip) (d : Deployment)
    (w : 0 < d.window) where
  early_state :
      (e : ChainEntry) (st : Threshold)
      → ltb (median_time s.entries e) d.start_time ≡ true
      → state_at s d (suc e.height) e ≡ done st
      → defined ≡ st
  unfolding state_at
  early_state e st t h = done_state (sym (rw t refl) ∙ h)

  late_state :
      (e p : ChainEntry) (st : Threshold)
      → ltb (median_time s.entries e) d.start_time ≡ false
      → get_ancestor s e (sub_ℕ e.height d.window) ≡ done (some p)
      → state_at s d e.height p ≡ done st
      → state_at s d (suc e.height) e ≡ advance s d st e
  unfolding state_at
  late_state e p st f q b = rw (f, q, b) refl

  state_at-IsNext :
      (e p : ChainEntry) (st st' : Threshold)
      → IsIn s.entries e
      → get_ancestor s e (sub_ℕ e.height d.window) ≡ done (some p)
      → median_time s.entries p ≤ median_time s.entries e
      → state_at s d (suc p.height) p ≡ done st
      → state_at s d (suc e.height) e ≡ done st'
      → IsNext s d e st st'
  unfolding state_at
  state_at-IsNext e p st st' i q le h k =
      elim (Bool-cases (ltb (median_time s.entries e) d.start_time)) [
        | inl t ↦
            let early = early_state p st (ground (arith, le)) h in
            subst (λ x. IsNext s d e st x) (early_state e st' t k)
              (subst (λ x. IsNext s d e x defined) early (stays_defined (ground arith)))
        | inr f ↦
            let (ip, lp) = window_before genesis tip s m d w e p i q in
            let before =
              state_at-fuel genesis tip s m d w e.height (suc p.height) p ip lp (omega arith) ∙ h in
            advance-IsNext s d st st' e w (ground arith) (sym (late_state e p st f q before) ∙ k)
      ]

  -- What `getState` comes to at the last block of a window is the state without a cache.
  get_state-state_at :
      (c k : Cache) (e : ChainEntry) (st : Threshold)
      → IsIn s.entries e
      → IsConsistent s d c
      → d.always_active ≡ false
      → (e.height + 1) % d.window ≡ 0
      → get_state s d c e ≡ done (st, k)
      → state_at s d (suc e.height) e ≡ done st
  unfolding deployment_state
  get_state-state_at c k e st i h a z q =
      let last : ((e.height + 1) % d.window == 0) ≡ true = ground arith in
      let found =
        subst (λ x. Matches s d x (deployment_state s d e)) q
          (get_state-Matches genesis tip s m d w c e i h) in
      sym (rw (a, last) refl) ∙ found.0

  -- At the last blocks of two windows in a row, where the median time does not go back and the caches
  -- hold the states that there are without them, the states that `getState` comes to are a step of
  -- BIP9: by the start time and the timeout, and to be locked in by as many of the window's blocks
  -- as the threshold that signal, a version with the top bits 001 and the deployment's bit. An
  -- active or a failed state stays.
  pub get_state-IsNext :
      (c c' k k' : Cache) (e p : ChainEntry) (st st' : Threshold)
      → IsIn s.entries e
      → IsConsistent s d c
      → IsConsistent s d c'
      → d.always_active ≡ false
      → (p.height + 1) % d.window ≡ 0
      → (e.height + 1) % d.window ≡ 0
      → get_ancestor s e (sub_ℕ e.height d.window) ≡ done (some p)
      → median_time s.entries p ≤ median_time s.entries e
      → get_state s d c p ≡ done (st, k)
      → get_state s d c' e ≡ done (st', k')
      → IsNext s d e st st'
  get_state-IsNext c c' k k' e p st st' i h h' a z z' q le r r' =
      let (ip, lp) = window_before genesis tip s m d w e p i q in
      state_at-IsNext e p st st' i q le (get_state-state_at c k p st ip h a z r)
        (get_state-state_at c' k' e st' i h' a z' r')
