-- ===== src/Blockchain/ChainDb/Disconnect.antt =====
-- The loops of `disconnectBlock` against undoing a block in the abstract coin state.
use litedoge_js.Prelude.{
  ℕ, ◌≡◌, refl, ◌∙◌, sym, ap, Bool, true, false, Option, none, some, List, [], ◌∷◌, map,
}
use litedoge_js.Prelude.{arith, fun_ext, Option-cases, inl, inr, All, pop_last}
use litedoge_js.Prelude.Int.{ℤ}
use litedoge_js.Primitives.Tx.{Outpoint, Tx}
use litedoge_js.Coins.Entry.{CoinEntry, Stored, to_raw, from_raw, from_tx_output}
use litedoge_js.Coins.View.{View, add_entry, get_entry, get_output, remove_tx}
use litedoge_js.Coins.Outputs
use litedoge_js.Coins.Undo
use litedoge_js.Coins.Overlay.{overlay, spendable, get_entry-add_entry, get_entry-remove_tx}
use litedoge_js.Coins.Spend.{Db}
use litedoge_js.Coins.Spend.Refine.{Utxo}
use litedoge_js.Blockchain.Block.{prevouts}
use litedoge_js.Blockchain.ChainDb.{
  Undoing, add, unspend, unspend_inputs, remove_created, disconnect_tx, disconnect_txs,
}
use litedoge_js.Blockchain.ChainDb.Save.{
  IsWellFormed, add_entry-IsWellFormed, remove_tx-IsWellFormed,
}
use litedoge_js.Blockchain.Utxo.{
  Ledger, remove_coins, put_back, unput, unspend_each, unmake, undo_tx, undo_txs,
}

abbrev pub Undoes : Db → Undoing → Ledger → Type 0
Undoes db u (s, us) = IsWellFormed u.view × (u.items ≡ map from_raw us) × (overlay u.view db ≡ s)

abbrev pub ResultUndoes : Db → Option Undoing → Option Ledger → Type 0
ResultUndoes db none none = Unit
ResultUndoes db (some u) (some l) = Undoes db u l
ResultUndoes db none (some l) = ⊥
ResultUndoes db (some u) none = ⊥

-- The database has no coin of the transaction but those that its outputs make.
abbrev pub HasOnlyMade : Utxo → Tx → Type 0
HasOnlyMade s tx = (i : ℕ) → spendable tx.outputs i ≡ none → s tx.hash i ≡ none

get_output-eq-get_entry :
    (p : Outpoint) (v : View) (e : CoinEntry)
    → get_entry p v ≡ some e
    → get_output p v ≡ some e.output
unfolding get_entry get_output Outputs.get_output
get_output-eq-get_entry p v e h = ground arith

pub get_output-add_entry :
    (p : Outpoint) (e : CoinEntry) (v : View) → get_output p (add_entry p e v) ≡ some e.output
get_output-add_entry p e v =
    get_output-eq-get_entry p (add_entry p e v) e (ground (arith, get_entry-add_entry p e v p))

abbrev map_popped : Option (List Stored × Stored) → Option (List CoinEntry × CoinEntry)
map_popped none = none
map_popped (some (xs, x)) = some (map from_raw xs, from_raw x)

abbrev cons_popped {ℓ} : {A : Type ℓ} → A → Option (List A × A) → Option (List A × A)
cons_popped x none = some ([], x)
cons_popped x (some (front, last)) = some (x ∷ front, last)

pop_last-cons {ℓ} :
    {A : Type ℓ} (x : A) (xs : List A) → pop_last (x ∷ xs) ≡ cons_popped x (pop_last xs)
pop_last-cons x [] = refl
pop_last-cons x (y ∷ ys) = refl

map_popped-cons :
    (c : Stored) (o : Option (List Stored × Stored))
    → cons_popped (from_raw c) (map_popped o) ≡ map_popped (cons_popped c o)
map_popped-cons c none = refl
map_popped-cons c (some (front, last)) = refl

pop_last-map : (us : List Stored) → pop_last (map from_raw us) ≡ map_popped (pop_last us)
pop_last-map [] = refl
pop_last-map (c ∷ cs) =
    pop_last-cons (from_raw c) (map from_raw cs)
    ∙ ap (cons_popped (from_raw c)) (pop_last-map cs)
    ∙ map_popped-cons c (pop_last cs)
    ∙ ap map_popped (sym (pop_last-cons c cs))

put_back-overlay :
    (db : Db) (p : Outpoint) (c : Stored) (v : View)
    → overlay (add_entry p (from_raw c) v) db ≡ put_back p c (overlay v db)
unfolding from_raw to_raw
put_back-overlay db p c v = fun_ext λ h.
    fun_ext
      λ i. ground (arith, get_entry-add_entry p (from_raw c) v (record { hash = h; index = i }))

remove-overlay :
    (db : Db) (tx : Tx) (height : ℤ) (v : View)
    → HasOnlyMade db tx
    → overlay (remove_tx tx height v) db ≡ remove_coins tx (overlay v db)
unfolding from_tx_output
remove-overlay db tx height v n = fun_ext λ h.
    fun_ext
      λ i. ground (arith, get_entry-remove_tx tx height v (record { hash = h; index = i }), n i)

unput-none :
    (p : Outpoint) (s : Utxo) (us : List Stored) → pop_last us ≡ none → unput p (s, us) ≡ none
unfolding unput
unput-none p s us h = ground arith

unput-some :
    (p : Outpoint) (s : Utxo) (us us' : List Stored) (c : Stored)
    → pop_last us ≡ some (us', c)
    → unput p (s, us) ≡ some (put_back p c s, us')
unfolding unput
unput-some p s us us' c h = ground arith

unspend-none : (p : Outpoint) (u : Undoing) → pop_last u.items ≡ none → unspend p u ≡ none
unfolding unspend Undo.apply
unspend-none p u h = ground arith

abbrev unspent : Outpoint → List CoinEntry → CoinEntry → Undoing → Undoing
unspent p items e u = record {
  items = items;
  view = add_entry p e u.view;
  pending = add e.output u.pending;
}

unspend-some :
    (p : Outpoint) (u : Undoing) (items : List CoinEntry) (e : CoinEntry)
    → pop_last u.items ≡ some (items, e)
    → unspend p u ≡ some (unspent p items e u)
unfolding unspend Undo.apply
unspend-some p u items e h = ground (arith, get_output-add_entry p e u.view)

unspend-refines :
    (db : Db) (p : Outpoint) (u : Undoing) (l : Ledger)
    → Undoes db u l
    → ResultUndoes db (unspend p u) (unput p l)
unspend-refines db p u (s, us) (w, ei, eo) = elim (Option-cases (pop_last us)) [
  | inl h ↦
      rw (unput-none p s us h, unspend-none p u (rw ei (pop_last-map us ∙ ap map_popped h))) tt
  | inr ((us', c), h) ↦
      rw
        (
          unput-some p s us us' c h,
          unspend-some p u (map from_raw us') (from_raw c)
              (rw ei (pop_last-map us ∙ ap map_popped h)),
        )
        (
          add_entry-IsWellFormed p (from_raw c) u.view w,
          refl,
          put_back-overlay db p c u.view ∙ ap (put_back p c) eo,
        )
]

unspend_inputs-refines :
    (db : Db) (ps : List Outpoint) (u : Undoing) (l : Ledger)
    → Undoes db u l
    → ResultUndoes db (unspend_inputs ps u) (unspend_each ps l)
unfolding unspend_inputs unspend_each
unspend_inputs-refines db [] u l h = h
unspend_inputs-refines db (p ∷ ps) u l h =
    go (unspend_inputs ps u) (unspend_each ps l) (unspend_inputs-refines db ps u l h)
  where
    go :
        (o : Option Undoing) (r : Option Ledger)
        → ResultUndoes db o r
        → ResultUndoes db
            (elim o [ none ↦ none | some u' ↦ unspend p u' ])
            (elim r [ none ↦ none | some l' ↦ unput p l' ])
    go none none x = tt
    go (some u') (some l') x = unspend-refines db p u' l' x
    go none (some l') x = absurd x
    go (some u') none x = absurd x

remove_created-refines :
    (db : Db) (tx : Tx) (height : ℤ) (u : Undoing) (l : Ledger)
    → HasOnlyMade db tx
    → Undoes db u l
    → Undoes db (remove_created tx height u) (unmake tx l)
unfolding remove_created
remove_created-refines db tx height u (s, us) n (w, ei, eo) = (
  remove_tx-IsWellFormed tx height u.view w,
  ei,
  remove-overlay db tx height u.view n ∙ ap (remove_coins tx) eo,
)

remove_result :
    (db : Db) (tx : Tx) (height : ℤ) (o : Option Undoing) (r : Option Ledger)
    → HasOnlyMade db tx
    → ResultUndoes db o r
    → ResultUndoes db
        (elim o [ none ↦ none | some u' ↦ some (remove_created tx height u') ])
        (elim r [ none ↦ none | some l' ↦ some (unmake tx l') ])
remove_result db tx height none none n x = tt
remove_result db tx height (some u) (some l) n x = remove_created-refines db tx height u l n x
remove_result db tx height none (some l) n x = absurd x
remove_result db tx height (some u) none n x = absurd x

disconnect_tx-refines :
    (db : Db) (first : Bool) (tx : Tx) (height : ℤ) (u : Undoing) (l : Ledger)
    → HasOnlyMade db tx
    → Undoes db u l
    → ResultUndoes db (disconnect_tx first tx height u) (undo_tx first tx l)
unfolding disconnect_tx undo_tx
disconnect_tx-refines db true tx height u l n x = remove_created-refines db tx height u l n x
disconnect_tx-refines db false tx height u l n x =
    remove_result db tx height (unspend_inputs (prevouts tx) u) (unspend_each (prevouts tx) l) n
      (unspend_inputs-refines db (prevouts tx) u l x)

-- The code undoes the transactions of a block exactly as the specification does.
pub disconnect_txs-refines :
    (db : Db) (first : Bool) (txs : List Tx) (height : ℤ) (u : Undoing) (l : Ledger)
    → All (HasOnlyMade db) txs
    → Undoes db u l
    → ResultUndoes db (disconnect_txs first txs height u) (undo_txs first txs l)
unfolding disconnect_txs undo_txs
disconnect_txs-refines db first [] height u l n x = x
disconnect_txs-refines db first (tx ∷ txs) height u l n x =
    go (disconnect_txs false txs height u) (undo_txs false txs l)
      (disconnect_txs-refines db false txs height u l n.1 x)
  where
    go :
        (o : Option Undoing) (r : Option Ledger)
        → ResultUndoes db o r
        → ResultUndoes db
            (elim o [ none ↦ none | some u' ↦ disconnect_tx first tx height u' ])
            (elim r [ none ↦ none | some l' ↦ undo_tx first tx l' ])
    go none none y = tt
    go (some u') (some l') y = disconnect_tx-refines db first tx height u' l' n.0 y
    go none (some l') y = absurd y
    go (some u') none y = absurd y
