-- ===== src/Blockchain/Index.antt =====
-- The index of blocks: `getEntryByHash`, `getPrevious` and `getAncestor` of
-- lib/blockchain/chaindb.js, and `findFork` and the two lists of `reorganize` of
-- lib/blockchain/chain.js.
pub mod Extended
pub mod Agree
pub mod Path
pub mod Fork
pub mod Ancestors
use litedoge_js.Prelude.{
  ℕ, zero, suc, ◌+◌, ◌≡◌, ◌⊎◌, Option, none, some, List, [], ◌∷◌, ltb, ◌==◌, if◌then◌else◌,
}
use litedoge_js.Blockchain.Block.{ChainEntry}

-- The entry that a hash names.
abbrev pub Index : Type 0
Index = ℕ → Option ChainEntry

-- What a loop that reads the index comes to: `running` is the loop cut short, where its fuel has run
-- out.
pub data Loop {ℓ} (A : Type ℓ) : Type ℓ where
  done : A → Loop A
  no_previous : Loop A
  running : Loop A

unfoldable pub get_previous : Index → ChainEntry → Option ChainEntry
get_previous index e = index e.prev_block

-- The inner loop of `findFork`: `longer` comes down to the height of `fork`.
unfoldable pub lower : ℕ → Index → ChainEntry → ChainEntry → Loop ChainEntry
unfolding get_previous
lower zero index fork longer = running
lower (suc n) index fork longer =
    if ltb fork.height longer.height
    then elim (get_previous index longer) [ none ↦ no_previous | some p ↦ lower n index fork p ]
    else done longer

unfoldable pub find_fork : ℕ → Index → ChainEntry → ChainEntry → Loop ChainEntry
unfolding lower get_previous
find_fork zero index fork longer = running
find_fork (suc n) index fork longer =
    if fork.hash == longer.hash
    then done fork
    else elim (lower (suc longer.height) index fork longer) [
      | running ↦ running
      | no_previous ↦ no_previous
      | done l ↦ if fork.hash == l.hash then done fork else elim (get_previous index fork) [
        | none ↦ no_previous
        | some p ↦ find_fork n index p l
      ]
    ]

abbrev pub cons_done : ChainEntry → Loop (List ChainEntry) → Loop (List ChainEntry)
cons_done e (done es) = done (e ∷ es)
cons_done e no_previous = no_previous
cons_done e running = running

-- The lists `disconnect` and `connect` of `reorganize`: the entries from one down to the fork, which
-- is left out.
unfoldable pub path_to : ℕ → Index → ChainEntry → ChainEntry → Loop (List ChainEntry)
unfolding get_previous
path_to zero index entry fork = running
path_to (suc n) index entry fork =
    if entry.hash == fork.hash then done [] else elim (get_previous index entry) [
      | none ↦ no_previous
      | some p ↦ cons_done entry (path_to n index p fork)
    ]

-- The loop of `getAncestor`, for an entry off the main chain. The cache it asks first holds entries
-- of the index.
unfoldable pub walk_to : ℕ → Index → ChainEntry → ℕ → Loop ChainEntry
unfolding get_previous
walk_to zero index entry height = running
walk_to (suc n) index entry height =
    if entry.height == height
    then done entry
    else elim (get_previous index entry) [ none ↦ no_previous | some p ↦ walk_to n index p height ]

-- An entry stands under its hash, and has the genesis block or else a previous entry, one lower.
abbrev pub IsIndex : Index → ChainEntry → Type 0
IsIndex index genesis =
    (h : ℕ) (e : ChainEntry)
    → index h ≡ some e
    → (e.hash ≡ h)
      × (((e ≡ genesis) × (e.height ≡ 0) × (index e.prev_block ≡ none))
          ⊎ ((p : ChainEntry) × (index e.prev_block ≡ some p) × (e.height ≡ suc p.height)))

abbrev pub IsIn : Index → ChainEntry → Type 0
IsIn index e = index e.hash ≡ some e

pub data Ancestor (index : Index) : ChainEntry → ChainEntry → Type 0 where
  here : {e : ChainEntry} → Ancestor index e e
  up : {a p e : ChainEntry} → index e.prev_block ≡ some p → Ancestor index a p → Ancestor index a e
