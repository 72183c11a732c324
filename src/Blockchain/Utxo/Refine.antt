-- ===== src/Blockchain/Utxo/Refine.antt =====
-- `updateInputs` against the abstract coin state.
use litedoge_js.Prelude.{
  ◌≡◌, refl, ◌∙◌, ap, subst, true, false, Option, none, some, List, [], ◌∷◌, map,
}
use litedoge_js.Prelude.{arith, fun_ext, Option-cases, inl, inr, All}
use litedoge_js.Prelude.Int.{ℤ}
use litedoge_js.Primitives.Tx.{Outpoint, Tx}
use litedoge_js.Coins.Entry.{to_raw, from_tx_output}
use litedoge_js.Coins.View.{View, add_tx}
use litedoge_js.Coins.Overlay.{overlay, get_entry-add_tx}
use litedoge_js.Coins.Spend.{Db, spend_inputs}
use litedoge_js.Coins.Spend.Refine.{spend_each, Distinct, Agrees}
use litedoge_js.Coins.Spend.Inputs.{spend_inputs-refines}
use litedoge_js.Blockchain.Block.{prevouts}
use litedoge_js.Blockchain.Inputs.{update_txs}
use litedoge_js.Blockchain.ChainDb.Save.{IsWellFormed, add_tx-IsWellFormed}
use litedoge_js.Blockchain.ChainDb.Kept.{spend_inputs-IsWellFormed}
use litedoge_js.Blockchain.Utxo.{Ledger, make_coins, apply_txs, make}
use litedoge_js.Blockchain.Utxo.Inverse.{HasNoCoins, AreNew, apply_txs-none, apply_txs-some}

-- A view over the database shows a ledger.
abbrev pub Shows : Db → View → Ledger → Type 0
Shows db v (s, us) = (map to_raw v.undo ≡ us) × (overlay v db ≡ s)

abbrev pub ResultShows : Db → Option View → Option Ledger → Type 0
ResultShows db none none = Unit
ResultShows db (some v) (some l) = IsWellFormed v × Shows db v l
ResultShows db none (some l) = ⊥
ResultShows db (some v) none = ⊥

-- No two inputs of a transaction spend the same coin.
abbrev pub HaveDistinctInputs : List Tx → Type 0
HaveDistinctInputs txs = All (λ (tx : Tx). Distinct (prevouts tx)) txs

overlay-add_tx :
    (db : Db) (tx : Tx) (height : ℤ) (v : View)
    → HasNoCoins db tx.hash
    → overlay (add_tx tx height v) db ≡ make_coins tx height (overlay v db)
unfolding to_raw from_tx_output
overlay-add_tx db tx height v n = fun_ext λ h.
    fun_ext λ i. ground (arith, get_entry-add_tx tx height v (record { hash = h; index = i }), n i)

pub Shows-add_tx :
    (db : Db) (tx : Tx) (height : ℤ) (v : View) (l : Ledger)
    → HasNoCoins db tx.hash
    → Shows db v l
    → Shows db (add_tx tx height v) (make tx height l)
unfolding add_tx
Shows-add_tx db tx height v (s, us) n (u, o) =
    (u, overlay-add_tx db tx height v n ∙ ap (make_coins tx height) o)

update_txs-spent :
    (db : Db) (height : ℤ) (tx : Tx) (txs : List Tx) (v : View)
    → (spend_inputs db (prevouts tx) v).0 ≡ true
    → update_txs db height (tx ∷ txs) v
      ≡ update_txs db height txs (add_tx tx height (spend_inputs db (prevouts tx) v).1)
unfolding update_txs
update_txs-spent db height tx txs v h = ground arith

update_txs-refused :
    (db : Db) (height : ℤ) (tx : Tx) (txs : List Tx) (v : View)
    → (spend_inputs db (prevouts tx) v).0 ≡ false
    → update_txs db height (tx ∷ txs) v ≡ none
unfolding update_txs
update_txs-refused db height tx txs v h = ground arith

spend_inputs-none :
    (db : Db) (ps : List Outpoint) (v : View)
    → Distinct ps
    → spend_each ps (overlay v db) (map to_raw v.undo) ≡ none
    → (spend_inputs db ps v).0 ≡ false
spend_inputs-none db ps v d e =
    subst (λ x. Agrees db (spend_inputs db ps v) x) e (spend_inputs-refines db ps v d)

spend_inputs-some :
    (db : Db) (ps : List Outpoint) (v : View) (l : Ledger)
    → Distinct ps
    → spend_each ps (overlay v db) (map to_raw v.undo) ≡ some l
    → ((spend_inputs db ps v).0 ≡ true) × Shows db (spend_inputs db ps v).1 l
spend_inputs-some db ps v (s, us) d e =
    let a = subst (λ x. Agrees db (spend_inputs db ps v) x) e (spend_inputs-refines db ps v d) in
    (a.0, (a.1, fun_ext (λ h. fun_ext (λ i. a.2 h i))))

-- Where the transactions are new and none names an input twice, the code accepts them exactly
-- where the specification does, and its view then shows the specified coins.
pub update_txs-refines :
    (db : Db) (height : ℤ) (txs : List Tx) (v : View)
    → IsWellFormed v
    → HaveDistinctInputs txs
    → AreNew db txs
    → ResultShows db
        (update_txs db height txs v)
        (apply_txs false height txs (overlay v db, map to_raw v.undo))
update_txs-refines db height [] v w d n = unfold update_txs apply_txs in (w, (refl, refl))
update_txs-refines db height (tx ∷ txs) v w d n =
    let l : Ledger = (overlay v db, map to_raw v.undo) in
    elim (Option-cases (spend_each (prevouts tx) (overlay v db) (map to_raw v.undo))) [
      | inl e ↦
          rw
            (
              apply_txs-none height tx txs l e,
              update_txs-refused db height tx txs v (spend_inputs-none db (prevouts tx) v d.0 e),
            )
            tt
      | inr (l', e) ↦
          let (t, sh) = spend_inputs-some db (prevouts tx) v l' d.0 e in
          let v' = (spend_inputs db (prevouts tx) v).1 in
          let w' = add_tx tx height v' in
          let (su, so) = Shows-add_tx db tx height v' l' n.0 sh in
          rw
            (apply_txs-some height tx txs l l' e, update_txs-spent db height tx txs v t, ← su, ← so)
            (update_txs-refines db height txs w'
              (add_tx-IsWellFormed tx height v' (spend_inputs-IsWellFormed db (prevouts tx) v w))
              d.1 n.1)
    ]
