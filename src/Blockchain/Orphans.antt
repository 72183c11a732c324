-- ===== src/Blockchain/Orphans.antt =====
-- lib/blockchain/chain.js: the orphan blocks, by their hash and by the hash that they wait for.
pub mod Pairs
pub mod Stale
pub mod Stored
use litedoge_js.Prelude.{
  ℕ, ◌+◌, ◌*◌, Bool, true, false, Option, none, some, List, [], ◌∷◌, ltb, length, ◌==◌,
  if◌then◌else◌,
}
use litedoge_js.Prelude.Map.{Map, get, set, delete}

-- The flags and the peer that come with the block are left out.
pub record Orphan : Type 0 where
  pub hash : ℕ
  pub prev_block : ℕ
  pub time : ℕ

pub record Orphans : Type 0 where
  pub orphan_map : Map Orphan
  pub orphan_prev : Map Orphan

unfoldable pub holds_key : ℕ → Map Orphan → Bool
holds_key k m = elim (get k m) [ none ↦ false | some o ↦ true ]

-- `none` is a failed assertion, here and below.
unfoldable pub add_orphan : Orphan → Orphans → Option Orphans
add_orphan o s =
    if holds_key o.hash s.orphan_map
    then none
    else if holds_key o.prev_block s.orphan_prev
    then none
    else some (record {
      orphan_map = set o.hash o s.orphan_map;
      orphan_prev = set o.prev_block o s.orphan_prev;
    })

unfoldable pub remove_orphan : Orphan → Orphans → Option Orphans
remove_orphan o s =
    if holds_key o.hash s.orphan_map
    then (if holds_key o.prev_block s.orphan_prev
        then some (record {
          orphan_map = delete o.hash s.orphan_map;
          orphan_prev = delete o.prev_block s.orphan_prev;
        })
        else none)
    else none

abbrev pub older : Orphan → Option Orphan → Option Orphan
older o none = some o
older o (some p) = if ltb o.time p.time then some o else some p

-- The loop over the orphans: those of an hour ago go, and the oldest of the others is kept in mind.
unfoldable pub drop_stale :
    ℕ → List (ℕ × Orphan) → Option Orphan → Orphans → Option (Option Orphan × Orphans)
unfolding remove_orphan
drop_stale now [] oldest s = some (oldest, s)
drop_stale now ((k, o) ∷ os) oldest s =
    if ltb now (o.time + 60 * 60)
    then drop_stale now os (older o oldest) s
    else elim (remove_orphan o s) [ none ↦ none | some s' ↦ drop_stale now os oldest s' ]

abbrev pub drop_oldest : ℕ → Option Orphan × Orphans → Option Orphans
drop_oldest max_orphans (oldest, s) =
    if ltb (length s.orphan_map) max_orphans
    then some s
    else elim oldest [ none ↦ some s | some o ↦ remove_orphan o s ]

unfoldable pub limit_orphans : ℕ → ℕ → Orphans → Option Orphans
unfolding drop_stale
limit_orphans now max_orphans s = elim (drop_stale now s.orphan_map none s) [
  | none ↦ none
  | some x ↦ drop_oldest max_orphans x
]

-- The orphan that waits for the same block goes; it is asserted to be another one.
unfoldable pub drop_forked : Orphan → Orphans → Option Orphans
unfolding remove_orphan
drop_forked o s = elim (get o.prev_block s.orphan_prev) [
  | none ↦ some s
  | some p ↦
      if p.hash == o.hash
      then none
      else if p.prev_block == o.prev_block
      then remove_orphan p s
      else none
]

abbrev pub bind_option {ℓ κ} : {A : Type ℓ} {B : Type κ} → Option A → (A → Option B) → Option B
bind_option none f = none
bind_option (some a) f = f a

unfoldable pub store_orphan : ℕ → ℕ → Orphan → Orphans → Option Orphans
unfolding drop_forked limit_orphans add_orphan
store_orphan now max_orphans o s =
    bind_option (bind_option (drop_forked o s) (limit_orphans now max_orphans)) (add_orphan o)

-- The orphan that a block lets in, if there is one, and the others.
unfoldable pub resolve_orphan : ℕ → Orphans → Option (Option Orphan × Orphans)
unfolding remove_orphan
resolve_orphan hash s = elim (get hash s.orphan_prev) [
  | none ↦ some (none, s)
  | some o ↦ elim (remove_orphan o s) [ none ↦ none | some s' ↦ some (some o, s') ]
]
