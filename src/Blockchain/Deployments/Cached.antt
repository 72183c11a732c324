-- ===== src/Blockchain/Deployments/Cached.antt =====
-- `getState` of lib/blockchain/chain.js against the states without a cache.
use litedoge_js.Prelude.{
  ℕ, zero, suc, ◌+◌, ◌<◌, ◌≡◌, ◌≢◌, refl, sym, subst, true, false, Option, none, some, List, [],
  ◌∷◌, ltb, ◌==◌, ◌%◌, arith, Bool-cases, Option-cases, inl, inr,
}
use litedoge_js.Prelude.Int.{sub_ℕ}
use litedoge_js.Blockchain.Block.{ChainEntry}
use litedoge_js.Blockchain.Index.{IsIn, Loop, done, no_previous, running}
use litedoge_js.Blockchain.Store.{Store}
use litedoge_js.Blockchain.Store.MainChain.{IsMainChain}
use litedoge_js.Blockchain.Store.Ancestors.{get_ancestor}
use litedoge_js.Blockchain.Locks.{median_time}
use litedoge_js.Blockchain.Deployments.{
  Threshold, defined, Deployment, Cache, cache_state, elim_done, advance, collect, compute,
  compute_one, compute_collected, cons_entry, get_state,
}
use litedoge_js.Blockchain.Deployments.State.{state_at, deployment_state, IsConsistent, Matches}
use litedoge_js.Blockchain.Deployments.Windows.{
  window_before, before-ends, entry_before, cache_state-IsConsistent, state_at-fuel, one-Matches,
}

module _ (genesis tip : ChainEntry) (s : Store) (m : IsMainChain genesis s tip) (d : Deployment)
    (w : 0 < d.window) where
  -- Computing the entries collected, with one more in front.
  one_more :
      (e : ChainEntry) (x : Loop (Threshold × Cache × List ChainEntry))
      → elim_done (elim_done x (cons_entry s d e)) (compute_collected s d)
        ≡ elim_done (elim_done x (compute_collected s d)) (compute_one s d e)
  unfolding compute
  one_more e (done (st, c, es)) = refl
  one_more e no_previous = refl
  one_more e running = refl

  collect-cached :
      (n : ℕ) (c : Cache) (e : ChainEntry) (st : Threshold)
      → c e.hash ≡ some st
      → collect s d (suc n) c e ≡ done (st, c, [])
  unfolding collect
  collect-cached n c e st q = rw (collect, q) refl

  collect-early :
      (n : ℕ) (c : Cache) (e : ChainEntry)
      → c e.hash ≡ none
      → ltb (median_time s.entries e) d.start_time ≡ true
      → collect s d (suc n) c e ≡ done (defined, cache_state e defined c, [])
  unfolding collect
  collect-early n c e q t = rw (collect, q, t) refl

  collect-before :
      (n : ℕ) (c : Cache) (e : ChainEntry)
      → c e.hash ≡ none
      → ltb (median_time s.entries e) d.start_time ≡ false
      → collect s d (suc n) c e
        ≡ elim_done (get_ancestor s e (sub_ℕ e.height d.window)) (λ before. elim before [
          | none ↦ done (defined, c, e ∷ [])
          | some p ↦ elim_done (collect s d n c p) (cons_entry s d e)
        ])
  unfolding collect
  collect-before n c e q f = rw (collect, q, f) refl

  state_at-early :
      (n : ℕ) (e : ChainEntry)
      → ltb (median_time s.entries e) d.start_time ≡ true
      → state_at s d (suc n) e ≡ done defined
  unfolding state_at
  state_at-early n e t = rw t refl

  state_at-before :
      (n : ℕ) (e : ChainEntry)
      → ltb (median_time s.entries e) d.start_time ≡ false
      → state_at s d (suc n) e
        ≡ elim_done (get_ancestor s e (sub_ℕ e.height d.window)) (λ before. elim before [
          | none ↦ advance s d defined e
          | some p ↦ elim_done (state_at s d n p) (λ st. advance s d st e)
        ])
  unfolding state_at
  state_at-before n e f = rw f refl

  -- The entry a window before, or none, or a failed assertion.
  collect-rest :
      (n : ℕ) (c : Cache) (e : ChainEntry) (o : Loop (Option ChainEntry))
      → IsIn s.entries e
      → IsConsistent s d c
      → o ≢ running
      → state_at s d (suc e.height) e
        ≡ elim_done o (λ before. elim before [
          | none ↦ advance s d defined e
          | some p ↦ elim_done (state_at s d e.height p) (λ st. advance s d st e)
        ])
      → ((p : ChainEntry)
          → o ≡ done (some p)
          → Matches s d
              (elim_done (collect s d n c p) (compute_collected s d))
              (state_at s d e.height p))
      → Matches s d
          (elim_done
            (elim_done o (λ before. elim before [
              | none ↦ done (defined, c, e ∷ [])
              | some p ↦ elim_done (collect s d n c p) (cons_entry s d e)
            ]))
            (compute_collected s d))
          (state_at s d (suc e.height) e)
  unfolding compute
  collect-rest n c e running i k r q h = absurd (r refl)
  collect-rest n c e no_previous i k r q h = q
  collect-rest n c e (done none) i k r q h =
      one-Matches genesis tip s m d w (done (defined, c)) (done defined) e i (refl, k) q
  collect-rest n c e (done (some p)) i k r q h =
      subst (λ x. Matches s d x (state_at s d (suc e.height) e))
        (sym (one_more e (collect s d n c p)))
        (one-Matches genesis tip s m d w (elim_done (collect s d n c p) (compute_collected s d))
          (state_at s d e.height p) e i (h p refl) q)

  collect-Matches :
      (n : ℕ) (c : Cache) (e : ChainEntry)
      → IsIn s.entries e
      → e.height < n
      → IsConsistent s d c
      → Matches s d
          (elim_done (collect s d n c e) (compute_collected s d))
          (state_at s d (suc e.height) e)
  unfolding compute
  collect-Matches zero c e i h k = absurd (omega arith)
  collect-Matches (suc n) c e i h k = elim (Option-cases (c e.hash)) [
    | inr (st, q) ↦
        subst
          (λ x. Matches s d (elim_done x (compute_collected s d)) (state_at s d (suc e.height) e))
          (sym (collect-cached n c e st q)) (k e st i q, k)
    | inl q ↦ elim (Bool-cases (ltb (median_time s.entries e) d.start_time)) [
      | inl t ↦
          let z = state_at-early e.height e t in
          subst
            (λ x. Matches s d (elim_done x (compute_collected s d)) (state_at s d (suc e.height) e))
            (sym (collect-early n c e q t))
            (z, cache_state-IsConsistent genesis tip s m d w e defined c i z k)
      | inr f ↦
          subst
            (λ x. Matches s d (elim_done x (compute_collected s d)) (state_at s d (suc e.height) e))
            (sym (collect-before n c e q f))
            (collect-rest n c e (get_ancestor s e (sub_ℕ e.height d.window)) i k
              (before-ends genesis tip s m d w e d.window i w) (state_at-before e.height e f)
              (λ p z.
                let (ip, lp) = window_before genesis tip s m d w e p i z in
                subst (Matches s d (elim_done (collect s d n c p) (compute_collected s d)))
                  (state_at-fuel genesis tip s m d w (suc p.height) e.height p ip (omega arith)
                    (omega arith))
                  (collect-Matches n c p ip (omega arith) k)))
    ]
  ]

  -- `getState` comes to the state that there is without a cache, and leaves a cache that holds such
  -- states, where it was given one.
  pub get_state-Matches :
      (c : Cache) (prev : ChainEntry)
      → IsIn s.entries prev
      → IsConsistent s d c
      → Matches s d (get_state s d c prev) (deployment_state s d prev)
  unfolding get_state deployment_state
  get_state-Matches c prev i k = elim (Bool-cases d.always_active) [
    | inl t ↦ rw t (refl, k)
    | inr f ↦ elim (Bool-cases ((prev.height + 1) % d.window == 0)) [
      | inl t ↦ rw (f, t) (collect-Matches (suc prev.height) c prev i (omega arith) k)
      | inr g ↦
          elim (entry_before genesis tip s m d w prev ((prev.height + 1) % d.window) i
            (ground arith)) [
              | inl n ↦ rw (f, g, n) (refl, k)
              | inr (a, q, ia, l) ↦
                  rw (f, g, q) (collect-Matches (suc a.height) c a ia (omega arith) k)
            ]
    ]
  ]
