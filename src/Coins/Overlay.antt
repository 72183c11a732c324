-- ===== src/Coins/Overlay.antt =====
-- What a view over a database shows: the coin that a later read would find unspent. Coins are
-- compared by what their bytes hold.
use litedoge_js.Prelude.{ℕ, zero, suc, ◌+◌, ◌<◌, ◌≡◌, refl, Bool, ◌&&◌}
use litedoge_js.Prelude.{Option, none, some, List, [], ◌∷◌, arith, ◌==◌, if◌then◌else◌}
use litedoge_js.Prelude.{get_elem?, Option-cases, inl, inr, ◌∙◌}
use litedoge_js.Prelude.Int.{ℤ}
use litedoge_js.Prelude.Map
use litedoge_js.Prelude.Map.{Map, get-set, get-empty}
use litedoge_js.Primitives.Tx.{Outpoint, Output, Tx, is_unspendable}
use litedoge_js.Coins.Entry.{CoinEntry, Stored, to_raw, from_tx_output}
use litedoge_js.Coins.Outputs.{Coins, from_outputs, from_tx_outputs, mark_spent}
use litedoge_js.Coins.View.{View, mark_all_spent, add, get_entry, add_entry, add_tx, remove_tx}
use litedoge_js.Coins.Spend.{Db}

abbrev pub same : Outpoint → Outpoint → Bool
same p q = p.hash == q.hash && p.index == q.index

abbrev pub shown : Option CoinEntry → Option Stored → Option Stored
shown none s = s
shown (some e) s = if e.spent then none else some (to_raw e)

abbrev pub overlay : View → Db → Db
overlay v db h i = shown (get_entry (record { hash = h; index = i }) v) (db h i)

-- The outputs that become coins.
unfoldable pub spendable : List Output → ℕ → Option Output
spendable os i = elim (get_elem? os i) [
  | none ↦ none
  | some o ↦ if is_unspendable o.script then none else some o
]

abbrev pub as_entry : Tx → ℤ → Option Output → Option CoinEntry
as_entry tx height none = none
as_entry tx height (some o) = some (from_tx_output tx height o)

abbrev pub or_else {ℓ} : {A : Type ℓ} → Option A → Option A → Option A
or_else none b = b
or_else (some a) b = some a

pub get_entry-add :
    (h : ℕ) (cs : Coins) (v : View) (q : Outpoint)
    → get_entry q (add h cs v) ≡ (if h == q.hash then Map.get q.index cs else get_entry q v)
unfolding get_entry add
get_entry-add h cs v q = ground (arith, get-set h q.hash cs v.coins)

pub get_entry-add_entry :
    (p : Outpoint) (e : CoinEntry) (v : View) (q : Outpoint)
    → get_entry q (add_entry p e v) ≡ (if same p q then some e else get_entry q v)
unfolding get_entry add_entry
get_entry-add_entry p e v q = elim (Option-cases (Map.get p.hash v.coins)) [
  | inl h ↦ rw h (
      ground (
        arith,
        h,
        get-set p.hash q.hash (Map.set p.index e []) v.coins,
        get-set p.index q.index e [],
        get-empty {V = CoinEntry} q.index,
      ))
  | inr (cs, h) ↦ rw h (
      ground (
        arith,
        h,
        get-set p.hash q.hash (Map.set p.index e cs) v.coins,
        get-set p.index q.index e cs,
      ))
]

module _ (tx : Tx) (height : ℤ) where
  from_outputs-get_below :
      (i : ℕ) (os : List Output) (cs : Coins) (j : ℕ)
      → j < i
      → Map.get j (from_outputs tx height i os cs) ≡ Map.get j cs
  unfolding from_outputs
  from_outputs-get_below i [] cs j h = refl
  from_outputs-get_below i (o ∷ os) cs j h =
      from_outputs-get_below (suc i) os
        (if is_unspendable o.script then cs else Map.set i (from_tx_output tx height o) cs) j
        (omega arith)
      ∙ ground (arith, get-set i j (from_tx_output tx height o) cs)

  from_outputs-get :
      (i : ℕ) (os : List Output) (cs : Coins) (k : ℕ)
      → Map.get (i + k) (from_outputs tx height i os cs)
        ≡ or_else (as_entry tx height (spendable os k)) (Map.get (i + k) cs)
  unfolding from_outputs spendable
  from_outputs-get i [] cs k = refl
  from_outputs-get i (o ∷ os) cs zero =
      from_outputs-get_below (suc i) os
        (if is_unspendable o.script then cs else Map.set i (from_tx_output tx height o) cs) (i + 0)
        (omega arith)
      ∙ ground (arith, get-set i (i + 0) (from_tx_output tx height o) cs)
  from_outputs-get i (o ∷ os) cs (suc k) =
      let cs' = if is_unspendable o.script then cs else Map.set i (from_tx_output tx height o) cs in
      let e : i + suc k ≡ suc i + k = omega arith in
      rw e (
        from_outputs-get (suc i) os cs' k
        ∙ ground (arith, get-set i (suc i + k) (from_tx_output tx height o) cs))

  pub get-from_tx_outputs :
      (j : ℕ) → Map.get j (from_tx_outputs tx height) ≡ as_entry tx height (spendable tx.outputs j)
  unfolding from_tx_outputs
  get-from_tx_outputs j =
      let e : 0 + j ≡ j = omega arith in
      ground (arith, rw e at (from_outputs-get 0 tx.outputs [] j), get-empty {V = CoinEntry} j)

  pub get_entry-add_tx :
      (v : View) (q : Outpoint)
      → get_entry q (add_tx tx height v) ≡ (
          if tx.hash == q.hash
          then as_entry tx height (spendable tx.outputs q.index)
          else get_entry q v)
  unfolding add_tx
  get_entry-add_tx v q =
      get_entry-add tx.hash (from_tx_outputs tx height) v q
      ∙ ground (arith, get-from_tx_outputs q.index)

abbrev pub all_spent : Option CoinEntry → Option CoinEntry
all_spent none = none
all_spent (some e) = some (mark_spent e)

get-mark_all_spent : (j : ℕ) (cs : Coins) → Map.get j (mark_all_spent cs) ≡ all_spent (Map.get j cs)
unfolding mark_all_spent Map.get
get-mark_all_spent j [] = refl
get-mark_all_spent j ((i, e) ∷ cs) = ground (arith, get-mark_all_spent j cs)

pub get_entry-remove_tx :
    (tx : Tx) (height : ℤ) (v : View) (q : Outpoint)
    → get_entry q (remove_tx tx height v) ≡ (
        if tx.hash == q.hash
        then all_spent (as_entry tx height (spendable tx.outputs q.index))
        else get_entry q v)
unfolding remove_tx
get_entry-remove_tx tx height v q =
    get_entry-add tx.hash (mark_all_spent (from_tx_outputs tx height)) v q
    ∙ ground (
      arith,
      get-mark_all_spent q.index (from_tx_outputs tx height),
      get-from_tx_outputs tx height q.index,
    )
