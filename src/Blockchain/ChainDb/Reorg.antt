-- ===== src/Blockchain/ChainDb/Reorg.antt =====
-- Disconnecting a block that was connected gives back the coins of the database.
use litedoge_js.Prelude.{
  ℕ, ◌≡◌, refl, ◌∙◌, sym, ap, subst, subst₂, true, false, Option, none, some, List, [], ◌∷◌, map,
}
use litedoge_js.Prelude.{arith, fun_ext, Option-cases, inl, inr, All}
use litedoge_js.Prelude.Int.{ℤ, pos}
use litedoge_js.Prelude.Map
use litedoge_js.Primitives.Tx.{Tx}
use litedoge_js.Coins.Entry.{CoinEntry, Stored, to_raw, from_raw}
use litedoge_js.Coins.View.{View, empty, add_tx, get_entry}
use litedoge_js.Coins.Undo
use litedoge_js.Coins.Overlay.{overlay}
use litedoge_js.Coins.Spend.{Db}
use litedoge_js.Coins.Spend.Refine.{Utxo, spend_each}
use litedoge_js.Blockchain.Block.{Block, ChainEntry, is_genesis, prevouts}
use litedoge_js.Blockchain.Inputs.{update_txs, update_inputs}
use litedoge_js.Blockchain.ChainDb.{
  ChainDb, Undoing, connect_block, disconnect, disconnect_txs, disconnect_block, get_undo_coins,
  write_undo, apply_batch, save_view,
}
use litedoge_js.Blockchain.ChainDb.Save.{IsWellFormed, apply-save_view, add_tx-IsWellFormed}
use litedoge_js.Blockchain.ChainDb.Disconnect.{
  Undoes, ResultUndoes, HasOnlyMade, disconnect_txs-refines,
}
use litedoge_js.Blockchain.Utxo.{Ledger, make_coins, make, apply_txs}
use litedoge_js.Blockchain.Utxo.Inverse.{
  spend_each-keeps_none, AreNew, HashNotIn, HasDistinctHashes, apply_txs-first, apply_txs-none,
  apply_txs-some, undo-apply_block,
}
use litedoge_js.Blockchain.Utxo.Refine.{
  Shows, ResultShows, HaveDistinctInputs, Shows-add_tx, update_txs-refines,
}

overlay-empty : (db : Db) → overlay empty db ≡ db
unfolding get_entry Map.get
overlay-empty db = refl

-- A coin that is not there is not made by transactions with other hashes.
apply_txs-keeps_none :
    (height : ℤ) (h i : ℕ) (txs : List Tx) (l l₁ : Ledger)
    → HashNotIn h txs
    → apply_txs false height txs l ≡ some l₁
    → l.0 h i ≡ none
    → l₁.0 h i ≡ none
apply_txs-keeps_none height h i [] l l₁ d e n =
    let f : some l ≡ some l₁ = unfold apply_txs in e in
    let g : l ≡ l₁ = cc f in subst (λ (x : Ledger). x.0 h i ≡ none) g n
apply_txs-keeps_none height h i (tx ∷ txs) l l₁ d e n =
    elim (Option-cases (spend_each (prevouts tx) l.0 l.1)) [
      | inl g ↦ absurd (cc (e, apply_txs-none height tx txs l g))
      | inr ((s, us), g) ↦
          let k = spend_each-keeps_none h i (prevouts tx) l.0 l.1 s us g n in
          apply_txs-keeps_none height h i txs (make_coins tx height s, us) l₁ d.1
            (sym (apply_txs-some height tx txs l (s, us) g) ∙ e) (ground (arith, d.0))
    ]

make-HasOnlyMade : (tx : Tx) (height : ℤ) (s : Utxo) → HasOnlyMade (make_coins tx height s) tx
make-HasOnlyMade tx height s i h = ground arith

apply_txs-HasOnlyMade :
    (height : ℤ) (txs : List Tx) (l l₁ : Ledger)
    → HasDistinctHashes txs
    → apply_txs false height txs l ≡ some l₁
    → All (HasOnlyMade l₁.0) txs
apply_txs-HasOnlyMade height [] l l₁ d e = tt
apply_txs-HasOnlyMade height (tx ∷ txs) l l₁ d e =
    elim (Option-cases (spend_each (prevouts tx) l.0 l.1)) [
      | inl g ↦ absurd (cc (e, apply_txs-none height tx txs l g))
      | inr ((s, us), g) ↦
          let f = sym (apply_txs-some height tx txs l (s, us) g) ∙ e in
          (
            λ i h.
                apply_txs-keeps_none height tx.hash i txs (make_coins tx height s, us) l₁ d.0 f
                  (make-HasOnlyMade tx height s i h),
            apply_txs-HasOnlyMade height txs (make_coins tx height s, us) l₁ d.1 f,
          )
    ]

block-HasOnlyMade :
    (height : ℤ) (txs : List Tx) (l l₁ : Ledger)
    → HasDistinctHashes txs
    → apply_txs true height txs l ≡ some l₁
    → All (HasOnlyMade l₁.0) txs
block-HasOnlyMade height [] l l₁ d e = tt
block-HasOnlyMade height (tx ∷ txs) l l₁ d e =
    let f = sym (apply_txs-first height tx txs l) ∙ e in
    (
      λ i h.
          apply_txs-keeps_none height tx.hash i txs (make tx height l) l₁ d.0 f
            (make-HasOnlyMade tx height l.0 i h),
      apply_txs-HasOnlyMade height txs (make tx height l) l₁ d.1 f,
    )

Shows-empty : (db : Db) → Shows db empty (db, [])
Shows-empty db = (refl, overlay-empty db)

-- Where no transaction names an input twice and the database has no coin of a hash of the block,
-- `updateInputs` accepts the block exactly where the specification does, and its view then is well
-- formed and shows the specified coins and undo coins.
pub update_inputs-refines :
    (db : Db) (height : ℤ) (txs : List Tx)
    → HaveDistinctInputs txs
    → AreNew db txs
    → ResultShows db (update_inputs db height txs) (apply_txs true height txs (db, []))
unfolding update_inputs
update_inputs-refines db height [] d n = unfold apply_txs in ((tt, tt), Shows-empty db)
update_inputs-refines db height (tx ∷ txs) d n =
    let v : View = add_tx tx height empty in
    let (su, so) = Shows-add_tx db tx height empty (db, []) n.0 (Shows-empty db) in
    let r =
      update_txs-refines db height txs v (add_tx-IsWellFormed tx height empty (tt, tt)) d.1 n.1 in
    rw (apply_txs-first height tx txs (db, [])) (
      subst₂
        (λ (s : Utxo) (us : List Stored).
          ResultShows db (update_txs db height txs v) (apply_txs false height txs (s, us)))
        so su r)

pub ResultShows-some :
    (db : Db) (v : View) (r : Option Ledger)
    → ResultShows db (some v) r
    → IsWellFormed v × (r ≡ some (overlay v db, map to_raw v.undo))
ResultShows-some db v none x = absurd x
ResultShows-some db v (some (s, us)) (w, (su, so)) = (w, cc)

ResultUndoes-some :
    (db : Db) (o : Option Undoing) (l : Ledger)
    → ResultUndoes db o (some l)
    → (u : Undoing) × (o ≡ some u) × Undoes db u l
ResultUndoes-some db none l x = absurd x
ResultUndoes-some db (some u) l x = (u, refl, x)

-- The states that `connectBlock` leaves.
module _ (entry : ChainEntry) (block : Block) (v : View) (db db₁ : ChainDb)
    (connected : connect_block entry block v db ≡ some db₁) (full : db.spv ≡ false)
    (later : is_genesis entry ≡ false) where
  connected_parts :
      (db₁.spv ≡ false)
      × (db₁.coins ≡ apply_batch (save_view v) db.coins)
      × (db₁.undo ≡ write_undo block.hash (map to_raw v.undo) db.undo)
  unfolding connect_block Undo.commit
  connected_parts = ground arith

get_undo-write :
    (hash : ℕ) (us : List Stored) (db : ChainDb) (undo : ℕ → Option (List Stored))
    → db.undo ≡ write_undo hash us undo
    → (us ≡ [] → undo hash ≡ none)
    → get_undo_coins hash db ≡ map from_raw us
unfolding get_undo_coins write_undo Undo.from_raw_undo
get_undo-write hash [] db undo e n =
    ground (arith, ap (λ (f : ℕ → Option (List Stored)). f hash) e, n refl)
get_undo-write hash (c ∷ cs) db undo e n =
    ground (arith, ap (λ (f : ℕ → Option (List Stored)). f hash) e)

-- The start of `disconnectBlock`.
abbrev undoing : Block → ChainDb → Undoing
undoing block db = record {
  items = get_undo_coins block.hash db;
  view = empty;
  pending = disconnect block db.pending;
}

abbrev undone : ChainDb → Undoing → ChainDb
undone db u = record db { coins = apply_batch (save_view u.view) db.coins; pending = u.pending }

disconnect_block-some :
    (entry : ChainEntry) (block : Block) (db : ChainDb) (u : Undoing)
    → db.spv ≡ false
    → disconnect_txs true block.txs (pos entry.height) (undoing block db) ≡ some u
    → u.items ≡ []
    → disconnect_block entry block db ≡ some (undone db u)
unfolding disconnect_block
disconnect_block-some entry block db u f e n = ground arith

map-eq-nil : (es : List CoinEntry) → map to_raw es ≡ [] → es ≡ []
map-eq-nil [] h = refl
map-eq-nil (e ∷ es) h = absurd (cc h)

-- After a block was connected with the view that `updateInputs` made, `disconnectBlock` succeeds
-- and gives back every coin record of the database: none is lost, changed or left over. The block
-- has distinct transaction hashes with no coin in the database, no transaction names an input
-- twice, the node is a full node, the block is not the genesis block, and where it spends nothing
-- no undo record of its hash is there.
pub disconnect-connect :
    (entry : ChainEntry) (block : Block) (v : View) (db db₁ : ChainDb)
    → db.spv ≡ false
    → is_genesis entry ≡ false
    → HaveDistinctInputs block.txs
    → HasDistinctHashes block.txs
    → AreNew db.coins block.txs
    → (v.undo ≡ [] → db.undo block.hash ≡ none)
    → update_inputs db.coins (pos entry.height) block.txs ≡ some v
    → connect_block entry block v db ≡ some db₁
    → (db₂ : ChainDb) × (disconnect_block entry block db₁ ≡ some db₂)
      × ((h i : ℕ) → db₂.coins h i ≡ db.coins h i)
disconnect-connect entry block v db db₁ full later inputs hashes fresh stale made connected =
    let height = pos entry.height in
    let (spv₁, coins₁, undo₁) = connected_parts entry block v db db₁ connected full later in
    let shows =
      subst (λ o. ResultShows db.coins o (apply_txs true height block.txs (db.coins, []))) made
        (update_inputs-refines db.coins height block.txs inputs fresh) in
    let (w, applied) = ResultShows-some db.coins v _ shows in
    let l₁ : Ledger = (overlay v db.coins, map to_raw v.undo) in
    let saved : db₁.coins ≡ overlay v db.coins =
      coins₁ ∙ fun_ext (λ h. fun_ext (λ i. apply-save_view v db.coins h i w)) in
    let only =
      subst (λ (s : Utxo). All (HasOnlyMade s) block.txs) (sym saved)
        (block-HasOnlyMade height block.txs (db.coins, []) l₁ hashes applied) in
    let items =
      get_undo-write block.hash (map to_raw v.undo) db₁ db.undo undo₁
        (λ e. stale (map-eq-nil v.undo e)) in
    let started : Undoes db₁.coins (undoing block db₁) l₁ =
      ((tt, tt), items, overlay-empty db₁.coins ∙ saved) in
    let result =
      subst
        (λ o. ResultUndoes db₁.coins (disconnect_txs true block.txs height (undoing block db₁)) o)
        (undo-apply_block height block.txs (db.coins, []) l₁ hashes fresh applied)
        (disconnect_txs-refines db₁.coins true block.txs height (undoing block db₁) l₁ only
          started) in
    let (u, ran, undoes) = ResultUndoes-some db₁.coins _ (db.coins, []) result in
    let (w₂, empty₂, shown₂) = undoes in
    (
      undone db₁ u,
      disconnect_block-some entry block db₁ u spv₁ ran empty₂,
      λ h i. apply-save_view u.view db₁.coins h i w₂ ∙ ap (λ (s : Utxo). s h i) shown₂,
    )
