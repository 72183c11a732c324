-- ===== src/Blockchain/ChainDb/Kept.antt =====
-- Spending inputs keeps a view well formed.
use litedoge_js.Prelude.{Bool, true, false, List, [], ◌∷◌, map}
use litedoge_js.Prelude.{Bool-cases, Option-cases, inl, inr}
use litedoge_js.Primitives.Tx.{Outpoint}
use litedoge_js.Coins.Entry.{CoinEntry}
use litedoge_js.Coins.Outputs.{mark_spent}
use litedoge_js.Coins.View.{View, add_entry, get_entry}
use litedoge_js.Coins.Spend.{
  Db, Job, cached, fetched, missing, start, add_fetched, mark, settle, spend_batch, and_then,
  spend_inputs,
}
use litedoge_js.Blockchain.ChainDb.Save.{IsWellFormed, add_entry-IsWellFormed}

mark-IsWellFormed :
    (p : Outpoint) (e : CoinEntry) (v : View) → IsWellFormed v → IsWellFormed (mark p e v)
unfolding mark
mark-IsWellFormed p e v w = add_entry-IsWellFormed p (mark_spent e) v w

add_fetched-IsWellFormed :
    (js : List Job) (v : View) → IsWellFormed v → IsWellFormed (add_fetched js v)
unfolding add_fetched
add_fetched-IsWellFormed [] v w = w
add_fetched-IsWellFormed (cached p ∷ js) v w = add_fetched-IsWellFormed js v w
add_fetched-IsWellFormed (fetched p e ∷ js) v w =
    add_fetched-IsWellFormed js (add_entry p e v) (add_entry-IsWellFormed p e v w)
add_fetched-IsWellFormed (missing p ∷ js) v w = add_fetched-IsWellFormed js v w

settle-IsWellFormed : (js : List Job) (v : View) → IsWellFormed v → IsWellFormed (settle js v).1
unfolding settle
settle-IsWellFormed [] v w = w
settle-IsWellFormed (missing p ∷ js) v w = w
settle-IsWellFormed (fetched p e ∷ js) v w = elim (Bool-cases e.spent) [
  | inl t ↦ rw t w
  | inr f ↦ rw f (settle-IsWellFormed js (mark p e v) (mark-IsWellFormed p e v w))
]
settle-IsWellFormed (cached p ∷ js) v w = elim (Option-cases (get_entry p v)) [
  | inl n ↦ rw (n, settle) w
  | inr (e, g) ↦ elim (Bool-cases e.spent) [
    | inl t ↦ rw (g, t, settle) w
    | inr f ↦ rw (g, f, settle) (settle-IsWellFormed js (mark p e v) (mark-IsWellFormed p e v w))
  ]
]

spend_batch-IsWellFormed :
    (db : Db) (ps : List Outpoint) (v : View)
    → IsWellFormed v
    → IsWellFormed (spend_batch db ps v).1
unfolding spend_batch
spend_batch-IsWellFormed db ps v w =
    let jobs : List Job = map (start db v) ps in
    settle-IsWellFormed jobs (add_fetched jobs v) (add_fetched-IsWellFormed jobs v w)

and_then-IsWellFormed :
    (r : Bool × View) (f : View → Bool × View)
    → IsWellFormed r.1
    → ((v : View) → IsWellFormed v → IsWellFormed (f v).1)
    → IsWellFormed (and_then r f).1
unfolding and_then
and_then-IsWellFormed (true, v) f w k = k v w
and_then-IsWellFormed (false, v) f w k = w

pub spend_inputs-IsWellFormed :
    (db : Db) (ps : List Outpoint) (v : View)
    → IsWellFormed v
    → IsWellFormed (spend_inputs db ps v).1
unfolding spend_inputs
spend_inputs-IsWellFormed db [] v w = spend_batch-IsWellFormed db [] v w
spend_inputs-IsWellFormed db (p ∷ []) v w = spend_batch-IsWellFormed db (p ∷ []) v w
spend_inputs-IsWellFormed db (p ∷ q ∷ []) v w = spend_batch-IsWellFormed db (p ∷ q ∷ []) v w
spend_inputs-IsWellFormed db (p ∷ q ∷ r ∷ []) v w = spend_batch-IsWellFormed db (p ∷ q ∷ r ∷ []) v w
spend_inputs-IsWellFormed db (p ∷ q ∷ r ∷ s ∷ ps) v w =
    and_then-IsWellFormed (spend_batch db (p ∷ q ∷ r ∷ s ∷ []) v) (λ x. spend_inputs db ps x)
      (spend_batch-IsWellFormed db (p ∷ q ∷ r ∷ s ∷ []) v w)
      (λ x u. spend_inputs-IsWellFormed db ps x u)
