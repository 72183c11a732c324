-- ===== src/Blockchain/ChainDb/Save.antt =====
-- `saveView` writes what the view shows over the database. It needs the view's maps to hold each
-- key once, as JavaScript's maps do; the operations of a view keep that.
use litedoge_js.Prelude.{
  ℕ, suc, ◌≡◌, refl, subst, ◌∙◌, ◌&&◌, Option, none, some, List, [], ◌∷◌, ◌++◌,
}
use litedoge_js.Prelude.{arith, if◌then◌else◌, ◌==◌, Bool-cases, Option-cases, inl, inr}
use litedoge_js.Prelude.Int.{ℤ}
use litedoge_js.Prelude.Map
use litedoge_js.Prelude.Map.{Map, IsFresh, HasUniqueKeys, get-IsFresh, set-HasUniqueKeys}
use litedoge_js.Primitives.Tx.{Outpoint, Output, Tx, is_unspendable}
use litedoge_js.Coins.Entry.{CoinEntry, Stored, from_tx_output}
use litedoge_js.Coins.Outputs.{Coins, from_outputs, from_tx_outputs}
use litedoge_js.Coins.View.{View, add, add_entry, add_tx, remove_tx, mark_all_spent, get_entry}
use litedoge_js.Coins.Overlay.{shown, overlay}
use litedoge_js.Coins.Spend.{Db}
use litedoge_js.Blockchain.ChainDb.{
  Op, apply_op, apply_batch, save_coin, save_coins, save_map, save_view,
}

abbrev pub HasUniqueCoins : Map Coins → Type 0
HasUniqueCoins [] = Unit
HasUniqueCoins ((h, cs) ∷ m) = HasUniqueKeys cs × HasUniqueCoins m

abbrev pub IsWellFormed : View → Type 0
IsWellFormed v = HasUniqueKeys v.coins × HasUniqueCoins v.coins

apply_batch-append :
    (os qs : List Op) (db : Db) → apply_batch (os ++ qs) db ≡ apply_batch qs (apply_batch os db)
unfolding apply_batch
apply_batch-append [] qs db = refl
apply_batch-append (o ∷ os) qs db = apply_batch-append os qs (apply_op o db)

apply_save_coin :
    (h i : ℕ) (e : CoinEntry) (db : Db) (h' i' : ℕ)
    → apply_op (save_coin h i e) db h' i'
      ≡ (if h == h' && i == i' then shown (some e) (db h' i') else db h' i')
unfolding apply_op save_coin
apply_save_coin h i e db h' i' = ground arith

apply_save_coins :
    (h : ℕ) (cs : Coins) (db : Db) (h' i' : ℕ)
    → HasUniqueKeys cs
    → apply_batch (save_coins h cs) db h' i'
      ≡ (if h == h' then shown (Map.get i' cs) (db h' i') else db h' i')
unfolding apply_batch save_coins Map.get
apply_save_coins h [] db h' i' u = ground arith
apply_save_coins h ((i, e) ∷ cs) db h' i' u =
    apply_save_coins h cs (apply_op (save_coin h i e) db) h' i' u.1
    ∙ ground (arith, apply_save_coin h i e db h' i', get-IsFresh i cs u.0)

abbrev shown_in : Option Coins → ℕ → Option Stored → Option Stored
shown_in none i s = s
shown_in (some cs) i s = shown (Map.get i cs) s

apply_save_map :
    (m : Map Coins) (db : Db) (h' i' : ℕ)
    → HasUniqueKeys m
    → HasUniqueCoins m
    → apply_batch (save_map m) db h' i' ≡ shown_in (Map.get h' m) i' (db h' i')
unfolding save_map
apply_save_map [] db h' i' u w = unfold apply_batch Map.get in refl
apply_save_map ((h, cs) ∷ m) db h' i' u w =
    rw (apply_batch-append (save_coins h cs) (save_map m) db) (
      apply_save_map m (apply_batch (save_coins h cs) db) h' i' u.1 w.1
      ∙ unfold Map.get in ground (arith, apply_save_coins h cs db h' i' w.0, get-IsFresh h m u.0))

pub apply-save_view :
    (v : View) (db : Db) (h i : ℕ)
    → IsWellFormed v
    → apply_batch (save_view v) db h i ≡ overlay v db h i
unfolding save_view get_entry
apply-save_view v db h i (u, w) = apply_save_map v.coins db h i u w ∙ ground arith

-- The operations of a view keep it well formed.
get-HasUniqueKeys :
    (h : ℕ) (m : Map Coins) (cs : Coins)
    → HasUniqueCoins m
    → Map.get h m ≡ some cs
    → HasUniqueKeys cs
get-HasUniqueKeys h [] cs w e = absurd (unfold Map.get in cc)
get-HasUniqueKeys h ((j, ds) ∷ m) cs w e =
    let f : (if j == h then some ds else Map.get h m) ≡ some cs = unfold Map.get in e in
    elim (Bool-cases (j == h)) [
      | inl t ↦
          let g : some ds ≡ some cs = rw t at f in
          let k : ds ≡ cs = cc g in subst (λ (x : Coins). HasUniqueKeys x) k w.0
      | inr n ↦ get-HasUniqueKeys h m cs w.1 (rw n at f)
    ]

set-HasUniqueCoins :
    (h : ℕ) (cs : Coins) (m : Map Coins)
    → HasUniqueKeys cs
    → HasUniqueCoins m
    → HasUniqueCoins (Map.set h cs m)
unfolding Map.set
set-HasUniqueCoins h cs [] u w = (u, tt)
set-HasUniqueCoins h cs ((j, ds) ∷ m) u w = ground (arith, set-HasUniqueCoins h cs m u w.1)

from_outputs-HasUniqueKeys :
    (tx : Tx) (height : ℤ) (i : ℕ) (os : List Output) (cs : Coins)
    → HasUniqueKeys cs
    → HasUniqueKeys (from_outputs tx height i os cs)
unfolding from_outputs
from_outputs-HasUniqueKeys tx height i [] cs u = u
from_outputs-HasUniqueKeys tx height i (o ∷ os) cs u =
    from_outputs-HasUniqueKeys tx height (suc i) os
      (if is_unspendable o.script then cs else Map.set i (from_tx_output tx height o) cs)
      (elim (Bool-cases (is_unspendable o.script)) [
        | inl t ↦ rw t u
        | inr f ↦ rw f (set-HasUniqueKeys i (from_tx_output tx height o) cs u)
      ])

mark_all_spent-IsFresh : (k : ℕ) (cs : Coins) → IsFresh k cs → IsFresh k (mark_all_spent cs)
unfolding mark_all_spent
mark_all_spent-IsFresh k [] f = tt
mark_all_spent-IsFresh k ((i, e) ∷ cs) f = (f.0, mark_all_spent-IsFresh k cs f.1)

mark_all_spent-HasUniqueKeys : (cs : Coins) → HasUniqueKeys cs → HasUniqueKeys (mark_all_spent cs)
unfolding mark_all_spent
mark_all_spent-HasUniqueKeys [] u = tt
mark_all_spent-HasUniqueKeys ((i, e) ∷ cs) u =
    (mark_all_spent-IsFresh i cs u.0, mark_all_spent-HasUniqueKeys cs u.1)

add-IsWellFormed :
    (h : ℕ) (cs : Coins) (v : View) → HasUniqueKeys cs → IsWellFormed v → IsWellFormed (add h cs v)
unfolding add
add-IsWellFormed h cs v u w =
    (set-HasUniqueKeys h cs v.coins w.0, set-HasUniqueCoins h cs v.coins u w.1)

pub add_entry-IsWellFormed :
    (p : Outpoint) (e : CoinEntry) (v : View) → IsWellFormed v → IsWellFormed (add_entry p e v)
unfolding add_entry
add_entry-IsWellFormed p e v w = elim (Option-cases (Map.get p.hash v.coins)) [
  | inl n ↦
      rw n (add-IsWellFormed p.hash (Map.set p.index e []) v (set-HasUniqueKeys p.index e [] tt) w)
  | inr (cs, g) ↦ rw g (
      add-IsWellFormed p.hash (Map.set p.index e cs) v
        (set-HasUniqueKeys p.index e cs (get-HasUniqueKeys p.hash v.coins cs w.1 g)) w)
]

pub add_tx-IsWellFormed :
    (tx : Tx) (height : ℤ) (v : View) → IsWellFormed v → IsWellFormed (add_tx tx height v)
unfolding add_tx from_tx_outputs
add_tx-IsWellFormed tx height v w =
    add-IsWellFormed tx.hash (from_outputs tx height 0 tx.outputs []) v
      (from_outputs-HasUniqueKeys tx height 0 tx.outputs [] tt) w

pub remove_tx-IsWellFormed :
    (tx : Tx) (height : ℤ) (v : View) → IsWellFormed v → IsWellFormed (remove_tx tx height v)
unfolding remove_tx from_tx_outputs
remove_tx-IsWellFormed tx height v w =
    add-IsWellFormed tx.hash (mark_all_spent (from_outputs tx height 0 tx.outputs [])) v
      (mark_all_spent-HasUniqueKeys (from_outputs tx height 0 tx.outputs [])
        (from_outputs-HasUniqueKeys tx height 0 tx.outputs [] tt))
      w
