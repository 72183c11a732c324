-- ===== src/Blockchain/Deployments.antt =====
-- Version bits (BIP9): `getState` of lib/blockchain/chain.js with the state cache of
-- lib/blockchain/chaindb.js, and `hasBit` of lib/protocol/consensus.js. The cache is that of the
-- deployment's bit. Where an assertion fails the result has no cache: what the code wrote to it before
-- is left out.
pub mod State
pub mod Windows
pub mod Cached
pub mod Signals
pub mod Steps
use litedoge_js.Prelude.{
  ℕ, zero, suc, ◌+◌, ◌-◌, ◌*◌, ◌%◌, ◌^◌, bit_and, Bool, true, false, not, ◌&&◌, Option, none, some,
  List, [], ◌∷◌, leb, ltb, ◌==◌, if◌then◌else◌,
}
use litedoge_js.Prelude.Int.{ℤ, pos, sub_ℕ}
use litedoge_js.Blockchain.Block.{ChainEntry}
use litedoge_js.Blockchain.Index.{Index, Loop, done, no_previous, running, get_previous}
use litedoge_js.Blockchain.Records.{write}
use litedoge_js.Blockchain.Store.{Store}
use litedoge_js.Blockchain.Store.Ancestors.{get_ancestor}
use litedoge_js.Blockchain.Locks.{median_time}

pub data Threshold : Type 0 where
  defined started locked_in active failed : Threshold

-- `always_active` is the start time -1; `window` and `threshold` are the network's where the
-- deployment's are -1.
pub record Deployment : Type 0 where
  pub bit : ℕ
  pub always_active : Bool
  pub start_time : ℕ
  pub timeout : ℕ
  pub threshold : ℕ
  pub window : ℕ

unfoldable pub has_bit : ℕ → ℕ → Bool
has_bit version bit =
    bit_and version 0xe000_0000 == 0x2000_0000 && not (bit_and version (2 ^ bit) == 0)

abbrev pub Cache : Type 0
Cache = ℕ → Option Threshold

unfoldable pub cache_state : ChainEntry → Threshold → Cache → Cache
unfolding write
cache_state e st c = write e.hash (some st) c

abbrev pub elim_done {ℓ κ} : {A : Type ℓ} {B : Type κ} → Loop A → (A → Loop B) → Loop B
elim_done (done a) f = f a
elim_done no_previous f = no_previous
elim_done running f = running

module _ (s : Store) (d : Deployment) where
  -- The loop over the blocks of a window. The block before the last one counted has to be there.
  unfoldable pub reaches_threshold : ℕ → ChainEntry → ℕ → Loop Bool
  unfolding get_previous has_bit
  reaches_threshold zero block count = done false
  reaches_threshold (suc n) block count =
      let count' = if has_bit block.version d.bit then count + 1 else count in
      if leb d.threshold count' then done true else elim (get_previous s.entries block) [
        | none ↦ no_previous
        | some p ↦ reaches_threshold n p count'
      ]

  -- The `switch` on the state, at the last block of a window.
  unfoldable pub advance : Threshold → ChainEntry → Loop Threshold
  unfolding reaches_threshold
  advance defined e =
      let time = median_time s.entries e in
      if leb d.timeout time
      then done failed
      else if leb d.start_time time
      then done started
      else done defined
  advance started e =
      if leb d.timeout (median_time s.entries e)
      then done failed
      else elim_done (reaches_threshold d.window e 0)
          (λ reached. done (if reached then locked_in else started))
  advance locked_in e = done active
  advance active e = done active
  advance failed e = done failed

  abbrev pub cons_entry :
      ChainEntry → Threshold × Cache × List ChainEntry → Loop (Threshold × Cache × List ChainEntry)
  cons_entry e (st, c, es) = done (st, c, e ∷ es)

  -- The first loop: the state to start from, the cache, and the entries to compute, from the newest.
  unfoldable pub collect : ℕ → Cache → ChainEntry → Loop (Threshold × Cache × List ChainEntry)
  unfolding cache_state
  collect zero c e = running
  collect (suc n) c e = elim (c e.hash) [
    | some st ↦ done (st, c, [])
    | none ↦
        if ltb (median_time s.entries e) d.start_time
        then done (defined, cache_state e defined c, [])
        else elim_done (get_ancestor s e (sub_ℕ e.height d.window)) (λ before. elim before [
          | none ↦ done (defined, c, e ∷ [])
          | some p ↦ elim_done (collect n c p) (cons_entry e)
        ])
  ]

  abbrev pub compute_one : ChainEntry → Threshold × Cache → Loop (Threshold × Cache)
  compute_one e (st, c) = elim_done (advance st e) (λ st'. done (st', cache_state e st' c))

  -- The second loop, from the oldest entry.
  unfoldable pub compute : List ChainEntry → Threshold × Cache → Loop (Threshold × Cache)
  unfolding advance
  compute [] x = done x
  compute (e ∷ es) x = elim_done (compute es x) (compute_one e)

  abbrev pub compute_collected : Threshold × Cache × List ChainEntry → Loop (Threshold × Cache)
  compute_collected (st, c, es) = compute es (st, c)

  unfoldable pub get_state : Cache → ChainEntry → Loop (Threshold × Cache)
  unfolding collect compute
  get_state c prev =
      let over = (prev.height + 1) % d.window in
      if d.always_active
      then done (active, c)
      else if over == 0
      then elim_done (collect (suc prev.height) c prev) compute_collected
      else elim_done (get_ancestor s prev (sub_ℕ prev.height over)) (λ before. elim before [
        | none ↦ done (defined, c)
        | some e ↦ elim_done (collect (suc e.height) c e) compute_collected
      ])
