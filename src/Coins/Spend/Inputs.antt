-- ===== src/Coins/Spend/Inputs.antt =====
-- `spendInputs` on all inputs of a transaction: the batches one after the other.
use litedoge_js.Prelude.{
  ◌≤◌, ◌≡◌, refl, sym, subst, length, arith, ◌∙◌, Bool, true, false, Option, none, some, List, [],
  ◌∷◌, ◌++◌,
}
use litedoge_js.Prelude.{map, fun_ext, Option-cases, inl, inr}
use litedoge_js.Primitives.Tx.{Outpoint}
use mathlib.Core.List.{append_assoc, append-nil}
use litedoge_js.Coins.Entry.{CoinEntry, Stored, to_raw, from_raw, to_raw-from_raw}
use litedoge_js.Coins.View.{View, get_entry}
use litedoge_js.Coins.Overlay.{overlay}
use litedoge_js.Coins.Spend.{
  Db, spend_batch, start, and_then, spend_inputs, Job, fetched, settle, mark, add_fetched,
}
use litedoge_js.Coins.Spend.Refine.{
  spend_each-some, spend_each-none, undo-mark, settle-fetched, Utxo, take_out, spend_each, Distinct,
  Agrees,
}
use litedoge_js.Coins.Spend.Batch.{spend_batch-refines, start_fetched, undo-add_fetched}

abbrev pub spend_more : List Outpoint → Option (Utxo × List Stored) → Option (Utxo × List Stored)
spend_more ps none = none
spend_more ps (some (s, us)) = spend_each ps s us

pub spend_each-append :
    (ps qs : List Outpoint) (s : Utxo) (us : List Stored)
    → spend_each (ps ++ qs) s us ≡ spend_more qs (spend_each ps s us)
spend_each-append [] qs s us = unfold spend_each in refl
spend_each-append (p ∷ ps) qs s us = elim (Option-cases (s p.hash p.index)) [
  | inl h ↦ rw (spend_each-none p (ps ++ qs) s us h, spend_each-none p ps s us h)
  | inr (c, h) ↦
      rw (spend_each-some p (ps ++ qs) s us c h, spend_each-some p ps s us c h)
        (spend_each-append ps qs (take_out p s) (us ++ (c ∷ [])))
]

and_then-refines :
    (db : Db) (ps : List Outpoint) (f : View → Bool × View) (r : Bool × View)
    (o : Option (Utxo × List Stored))
    → Agrees db r o
    → ((w : View) → Agrees db (f w) (spend_each ps (overlay w db) (map to_raw w.undo)))
    → Agrees db (and_then r f) (spend_more ps o)
unfolding and_then
and_then-refines db ps f (true, w) none a k = cc
and_then-refines db ps f (false, w) none a k = refl
and_then-refines db ps f (false, w) (some (s, us)) a k = cc
and_then-refines db ps f (true, w) (some (s, us)) a k =
    let o : overlay w db ≡ s = fun_ext (λ h. fun_ext (λ i. a.2 h i)) in
    subst (λ x. Agrees db (f w) (spend_each ps x us)) o
      (subst (λ x. Agrees db (f w) (spend_each ps (overlay w db) x)) a.1 (k w))

-- For distinct prevouts `spendInputs` succeeds exactly where each prevout in turn is unspent in
-- the view over the database; then the undo list has grown by those coins, in order, and the view
-- shows the same unspent coins less the spent ones.
pub spend_inputs-refines :
    (db : Db) (ps : List Outpoint) (v : View)
    → Distinct ps
    → Agrees db (spend_inputs db ps v) (spend_each ps (overlay v db) (map to_raw v.undo))
unfolding spend_inputs
spend_inputs-refines db [] v d = spend_batch-refines db [] v d
spend_inputs-refines db (p ∷ []) v d = spend_batch-refines db (p ∷ []) v d
spend_inputs-refines db (p ∷ q ∷ []) v d = spend_batch-refines db (p ∷ q ∷ []) v d
spend_inputs-refines db (p ∷ q ∷ r ∷ []) v d = spend_batch-refines db (p ∷ q ∷ r ∷ []) v d
spend_inputs-refines db (p ∷ q ∷ r ∷ s ∷ ps) v d =
    let first : List Outpoint = p ∷ q ∷ r ∷ s ∷ [] in
    rw (spend_each-append first ps (overlay v db) (map to_raw v.undo)) (
      and_then-refines db ps (λ w. spend_inputs db ps w) (spend_batch db first v)
        (spend_each first (overlay v db) (map to_raw v.undo))
        (spend_batch-refines db first v (assumption)) (λ w. spend_inputs-refines db ps w d.1.1.1.1))

-- The view has read none of the outpoints, and the database has these coins for them.
abbrev pub AreUnread : Db → View → List Outpoint → List Stored → Type 0
AreUnread db v [] [] = Unit
AreUnread db v [] (c ∷ cs) = ⊥
AreUnread db v (p ∷ ps) [] = ⊥
AreUnread db v (p ∷ ps) (c ∷ cs) =
    (get_entry p v ≡ none) × (db p.hash p.index ≡ some c) × AreUnread db v ps cs

abbrev fetches : List Outpoint → List Stored → List Job
fetches [] cs = []
fetches (p ∷ ps) [] = []
fetches (p ∷ ps) (c ∷ cs) = fetched p (from_raw c) ∷ fetches ps cs

start-fetches :
    (db : Db) (v : View) (ps : List Outpoint) (cs : List Stored)
    → AreUnread db v ps cs
    → map (start db v) ps ≡ fetches ps cs
start-fetches db v [] [] h = refl
start-fetches db v [] (c ∷ cs) h = absurd h
start-fetches db v (p ∷ ps) [] h = absurd h
start-fetches db v (p ∷ ps) (c ∷ cs) (g, k, hs) =
    rw (start_fetched db v p c g k, start-fetches db v ps cs hs) refl

-- The loop over coins that have just been read accepts each.
settle-fetches :
    (db : Db) (v : View) (ps : List Outpoint) (cs : List Stored) (w : View)
    → AreUnread db v ps cs
    → ((settle (fetches ps cs) w).0 ≡ true)
      × (map to_raw (settle (fetches ps cs) w).1.undo ≡ map to_raw w.undo ++ cs)
settle-fetches db v [] [] w h = unfold settle in (refl, sym (append-nil (map to_raw w.undo)))
settle-fetches db v [] (c ∷ cs) w h = absurd h
settle-fetches db v (p ∷ ps) [] w h = absurd h
settle-fetches db v (p ∷ ps) (c ∷ cs) w (g, k, hs) =
    let e : CoinEntry = from_raw c in
    let (accepts, undo) = settle-fetches db v ps cs (mark p e w) hs in
    rw (settle-fetched p e (fetches ps cs) w (unfold from_raw in refl)) (
      accepts,
      undo ∙ rw (undo-mark p e w, to_raw-from_raw c) (append_assoc (map to_raw w.undo) (c ∷ []) cs),
    )

spend_inputs-batch :
    (db : Db) (ps : List Outpoint) (v : View)
    → length ps ≤ 4
    → spend_inputs db ps v ≡ spend_batch db ps v
unfolding spend_inputs spend_batch and_then settle add_fetched
spend_inputs-batch db [] v h = refl
spend_inputs-batch db (p ∷ []) v h = refl
spend_inputs-batch db (p ∷ q ∷ []) v h = refl
spend_inputs-batch db (p ∷ q ∷ r ∷ []) v h = refl
spend_inputs-batch db (p ∷ q ∷ r ∷ s ∷ []) v h =
    and_then-true (spend_batch db (p ∷ q ∷ r ∷ s ∷ []) v)
  where
    and_then-true : (x : Bool × View) → and_then x (λ w. (true, w)) ≡ x
    and_then-true (true, w) = refl
    and_then-true (false, w) = refl
spend_inputs-batch db (p ∷ q ∷ r ∷ s ∷ t ∷ ps) v h = absurd (omega (arith, h))

-- In a list of at most four prevouts, one batch, the reads make an entry each: where the database has
-- a coin for every prevout and the view has read none of them, `spendInputs` accepts, whether or not
-- the list names a prevout more than once, and the undo list grows by the coin of each place in turn.
pub spend_inputs-accepts_duplicate :
    (db : Db) (v : View) (ps : List Outpoint) (cs : List Stored)
    → length ps ≤ 4
    → AreUnread db v ps cs
    → ((spend_inputs db ps v).0 ≡ true)
      × (map to_raw (spend_inputs db ps v).1.undo ≡ map to_raw v.undo ++ cs)
spend_inputs-accepts_duplicate db v ps cs h k =
    let js = fetches ps cs in
    let (accepts, undo) = settle-fetches db v ps cs (add_fetched js v) k in
    rw (spend_inputs-batch db ps v h) (
      unfold spend_batch in
      rw (start-fetches db v ps cs k) (accepts, undo ∙ rw (undo-add_fetched js v) refl))
