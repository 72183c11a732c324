-- ===== src/Coins/Spend/Refine.antt =====
-- `spendInputs` against spending the inputs one after the other in a set of unspent coins.
use litedoge_js.Prelude.{ℕ, ◌≡◌, refl, Bool, true, false, Option, none, some, List, [], ◌∷◌, ◌++◌}
use litedoge_js.Prelude.{map, arith, Bool-cases, inl, inr, if◌then◌else◌, All, fun_ext}
use mathlib.Core.List.{map-append}
use litedoge_js.Primitives.Tx.{Outpoint}
use litedoge_js.Coins.Entry.{CoinEntry, Stored, to_raw}
use litedoge_js.Coins.Outputs.{mark_spent}
use litedoge_js.Coins.View.{View, get_entry, add_entry}
use litedoge_js.Coins.Overlay.{same, overlay, get_entry-add_entry}
use litedoge_js.Coins.Spend.{Db, Job, cached, fetched, missing, mark, settle}

-- The unspent coins, and the spent ones so far, oldest first.
abbrev pub Utxo : Type 0
Utxo = ℕ → ℕ → Option Stored

abbrev pub take_out : Outpoint → Utxo → Utxo
take_out p s h i = if same p (record { hash = h; index = i }) then none else s h i

-- Spending in turn: `none` where a coin is missing or spent before.
unfoldable pub spend_each : List Outpoint → Utxo → List Stored → Option (Utxo × List Stored)
spend_each [] s us = some (s, us)
spend_each (p ∷ ps) s us = elim (s p.hash p.index) [
  | none ↦ none
  | some c ↦ spend_each ps (take_out p s) (us ++ (c ∷ []))
]

abbrev pub NotIn : Outpoint → List Outpoint → Type 0
NotIn p [] = Unit
NotIn p (q ∷ qs) = (same p q ≡ false) × NotIn p qs

abbrev pub Distinct : List Outpoint → Type 0
Distinct [] = Unit
Distinct (p ∷ ps) = NotIn p ps × Distinct ps

-- A result of the code agrees with the result of the specification.
abbrev pub Agrees : Db → Bool × View → Option (Utxo × List Stored) → Type 0
Agrees db r none = r.0 ≡ false
Agrees db r (some (s, us)) =
    (r.0 ≡ true) × (map to_raw r.1.undo ≡ us) × ((h i : ℕ) → overlay r.1 db h i ≡ s h i)

module _ (db : Db) where
  abbrev pub Ready : View → Job → Type 0
  Ready w (cached p) = (e : CoinEntry) × (get_entry p w ≡ some e)
  Ready w (fetched p e) = (get_entry p w ≡ some e) × (e.spent ≡ false)
  Ready w (missing p) = (get_entry p w ≡ none) × (db p.hash p.index ≡ none)

abbrev pub prevout : Job → Outpoint
prevout (cached p) = p
prevout (fetched p e) = p
prevout (missing p) = p

get_entry-mark :
    (p : Outpoint) (e : CoinEntry) (v : View) (q : Outpoint)
    → get_entry q (mark p e v) ≡ (if same p q then some (mark_spent e) else get_entry q v)
unfolding mark get_entry
get_entry-mark p e v q = get_entry-add_entry p (mark_spent e) v q

overlay-mark :
    (db : Db) (p : Outpoint) (e : CoinEntry) (v : View) (h i : ℕ)
    → overlay (mark p e v) db h i ≡ take_out p (overlay v db) h i
overlay-mark db p e v h i = ground (arith, get_entry-mark p e v (record { hash = h; index = i }))

Ready-mark :
    (db : Db) (p : Outpoint) (e : CoinEntry) (w : View) (j : Job)
    → same p (prevout j) ≡ false
    → Ready db w j
    → Ready db (mark p e w) j
Ready-mark db p e w (cached q) n (x, r) = (x, ground (arith, get_entry-mark p e w q))
Ready-mark db p e w (fetched q x) n r = ground (arith, get_entry-mark p e w q)
Ready-mark db p e w (missing q) n r = ground (arith, get_entry-mark p e w q)

All-Ready-mark :
    (db : Db) (p : Outpoint) (e : CoinEntry) (w : View) (js : List Job)
    → NotIn p (map prevout js)
    → All (Ready db w) js
    → All (Ready db (mark p e w)) js
All-Ready-mark db p e w [] n r = tt
All-Ready-mark db p e w (j ∷ js) n r =
    (Ready-mark db p e w j n.0 r.0, All-Ready-mark db p e w js n.1 r.1)

pub undo-mark :
    (p : Outpoint) (e : CoinEntry) (v : View)
    → map to_raw (mark p e v).undo ≡ map to_raw v.undo ++ (to_raw e ∷ [])
unfolding mark add_entry to_raw
undo-mark p e v = rw map-append

pub spend_each-none :
    (p : Outpoint) (ps : List Outpoint) (s : Utxo) (us : List Stored)
    → s p.hash p.index ≡ none
    → spend_each (p ∷ ps) s us ≡ none
unfolding spend_each
spend_each-none p ps s us h = ground arith

pub spend_each-some :
    (p : Outpoint) (ps : List Outpoint) (s : Utxo) (us : List Stored) (c : Stored)
    → s p.hash p.index ≡ some c
    → spend_each (p ∷ ps) s us ≡ spend_each ps (take_out p s) (us ++ (c ∷ []))
unfolding spend_each
spend_each-some p ps s us c h = ground arith

shown_unspent :
    (db : Db) (p : Outpoint) (e : CoinEntry) (w : View)
    → get_entry p w ≡ some e
    → e.spent ≡ false
    → overlay w db p.hash p.index ≡ some (to_raw e)
shown_unspent db p e w g n = ground arith

-- One coin: what the specification does at `p` when the view shows `e` there.
settle_step :
    (db : Db) (p : Outpoint) (e : CoinEntry) (w : View) (ps : List Outpoint)
    → get_entry p w ≡ some e
    → e.spent ≡ false
    → spend_each (p ∷ ps) (overlay w db) (map to_raw w.undo)
      ≡ spend_each ps (overlay (mark p e w) db) (map to_raw (mark p e w).undo)
settle_step db p e w ps g n =
    let o : overlay (mark p e w) db ≡ take_out p (overlay w db) =
      fun_ext (λ h. fun_ext (λ i. overlay-mark db p e w h i)) in
    rw (undo-mark p e w, o)
      (spend_each-some p ps (overlay w db) (map to_raw w.undo) (to_raw e)
        (shown_unspent db p e w g n))

settle_spent :
    (db : Db) (p : Outpoint) (e : CoinEntry) (w : View) (ps : List Outpoint)
    → get_entry p w ≡ some e
    → e.spent ≡ true
    → spend_each (p ∷ ps) (overlay w db) (map to_raw w.undo) ≡ none
unfolding spend_each
settle_spent db p e w ps g n = ground arith

settle_missing :
    (db : Db) (p : Outpoint) (w : View) (ps : List Outpoint)
    → get_entry p w ≡ none
    → db p.hash p.index ≡ none
    → spend_each (p ∷ ps) (overlay w db) (map to_raw w.undo) ≡ none
unfolding spend_each
settle_missing db p w ps g n = ground arith

settle-cached_spent :
    (p : Outpoint) (e : CoinEntry) (js : List Job) (w : View)
    → get_entry p w ≡ some e
    → e.spent ≡ true
    → settle (cached p ∷ js) w ≡ (false, w)
unfolding settle
settle-cached_spent p e js w g t = ground arith

settle-cached :
    (p : Outpoint) (e : CoinEntry) (js : List Job) (w : View)
    → get_entry p w ≡ some e
    → e.spent ≡ false
    → settle (cached p ∷ js) w ≡ settle js (mark p e w)
unfolding settle
settle-cached p e js w g f = ground arith

pub settle-fetched :
    (p : Outpoint) (e : CoinEntry) (js : List Job) (w : View)
    → e.spent ≡ false
    → settle (fetched p e ∷ js) w ≡ settle js (mark p e w)
unfolding settle
settle-fetched p e js w f = rw f

pub settle-refines :
    (db : Db) (js : List Job) (w : View)
    → Distinct (map prevout js)
    → All (Ready db w) js
    → Agrees db (settle js w) (spend_each (map prevout js) (overlay w db) (map to_raw w.undo))
settle-refines db [] w d r = unfold settle spend_each in (refl, refl, λ h i. refl)
settle-refines db (missing p ∷ js) w d r =
    rw (settle_missing db p w (map prevout js) r.0.0 r.0.1) (unfold settle in refl)
settle-refines db (fetched p e ∷ js) w d r =
    rw (settle_step db p e w (map prevout js) r.0.0 r.0.1, settle-fetched p e js w r.0.1)
      (settle-refines db js (mark p e w) d.1 (All-Ready-mark db p e w js d.0 r.1))
settle-refines db (cached p ∷ js) w d ((e, g), r) = elim (Bool-cases e.spent) [
  | inl t ↦ rw (settle_spent db p e w (map prevout js) g t, settle-cached_spent p e js w g t) refl
  | inr f ↦
      rw (settle_step db p e w (map prevout js) g f, settle-cached p e js w g f)
        (settle-refines db js (mark p e w) d.1 (All-Ready-mark db p e w js d.0 r))
]
