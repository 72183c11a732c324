-- ===== src/Coins/Spend/Batch.antt =====
-- One batch of `spendInputs`: reading ahead changes nothing that the view shows, so a batch of
-- distinct inputs spends them as if one after the other; and so do all batches.
use litedoge_js.Prelude.{ℕ, ◌≡◌, refl, sym, subst, ◌∙◌, false, none, some, List, [], ◌∷◌}
use litedoge_js.Prelude.{map, arith, All, fun_ext, Option-cases, inl, inr}
use litedoge_js.Primitives.Tx.{Outpoint}
use litedoge_js.Coins.Entry.{CoinEntry, Stored, to_raw, from_raw}
use litedoge_js.Coins.View.{View, get_entry, add_entry}
use litedoge_js.Coins.Overlay.{same, overlay, get_entry-add_entry}
use litedoge_js.Coins.Spend.{Db, Job, cached, fetched, missing, start, add_fetched, spend_batch}
use litedoge_js.Coins.Spend.Refine.{
  spend_each, NotIn, Distinct, Agrees, Ready, prevout, settle-refines,
}

abbrev add_one : Job → View → View
add_one (cached p) v = v
add_one (fetched p e) v = add_entry p e v
add_one (missing p) v = v

add_fetched-cons :
    (j : Job) (js : List Job) (v : View) → add_fetched (j ∷ js) v ≡ add_fetched js (add_one j v)
unfolding add_fetched
add_fetched-cons (cached p) js v = refl
add_fetched-cons (fetched p e) js v = refl
add_fetched-cons (missing p) js v = refl

pub undo-add_fetched : (js : List Job) (v : View) → (add_fetched js v).undo ≡ v.undo
unfolding add_fetched add_entry
undo-add_fetched [] v = refl
undo-add_fetched (cached p ∷ js) v = undo-add_fetched js v
undo-add_fetched (fetched p e ∷ js) v = undo-add_fetched js (add_entry p e v)
undo-add_fetched (missing p ∷ js) v = undo-add_fetched js v

get_entry-add_one :
    (j : Job) (v : View) (q : Outpoint)
    → same (prevout j) q ≡ false
    → get_entry q (add_one j v) ≡ get_entry q v
get_entry-add_one (cached p) v q h = refl
get_entry-add_one (fetched p e) v q h = ground (arith, get_entry-add_entry p e v q)
get_entry-add_one (missing p) v q h = refl

same_comm : (p q : Outpoint) → same p q ≡ same q p
same_comm p q = ground arith

module _ (db : Db) (v₀ : View) where
  -- How a read was resolved, in terms of the view at the start of the batch.
  data Started (p : Outpoint) : Job → Type 0 where
    was_cached : (e : CoinEntry) → get_entry p v₀ ≡ some e → Started p (cached p)
    was_fetched :
        (s : Stored)
        → get_entry p v₀ ≡ none
        → db p.hash p.index ≡ some s
        → Started p (fetched p (from_raw s))
    was_missing : get_entry p v₀ ≡ none → db p.hash p.index ≡ none → Started p (missing p)

  start_cached : (p : Outpoint) (e : CoinEntry) → get_entry p v₀ ≡ some e → start db v₀ p ≡ cached p
  unfolding start
  start_cached p e h = ground arith

  pub start_fetched :
      (p : Outpoint) (s : Stored)
      → get_entry p v₀ ≡ none
      → db p.hash p.index ≡ some s
      → start db v₀ p ≡ fetched p (from_raw s)
  unfolding start
  start_fetched p s h d = ground arith

  start_missing :
      (p : Outpoint) → get_entry p v₀ ≡ none → db p.hash p.index ≡ none → start db v₀ p ≡ missing p
  unfolding start
  start_missing p h d = ground arith

  start-Started : (p : Outpoint) → Started p (start db v₀ p)
  start-Started p = elim (Option-cases (get_entry p v₀)) [
    | inr (e, h) ↦ rw (start_cached p e h) (was_cached e h)
    | inl h ↦ elim (Option-cases (db p.hash p.index)) [
      | inl d ↦ rw (start_missing p h d) (was_missing h d)
      | inr (s, d) ↦ rw (start_fetched p s h d) (was_fetched s h d)
    ]
  ]

  prevout-Started : {p : Outpoint} {j : Job} → Started p j → prevout j ≡ p
  prevout-Started (was_cached e h) = refl
  prevout-Started (was_fetched s h d) = refl
  prevout-Started (was_missing h d) = refl

  prevouts-start : (ps : List Outpoint) → map prevout (map (start db v₀) ps) ≡ ps
  prevouts-start [] = refl
  prevouts-start (p ∷ ps) = rw (prevout-Started (start-Started p), prevouts-start ps)

  keep_entry :
      (ps : List Outpoint) (v : View) (q : Outpoint)
      → NotIn q ps
      → get_entry q (add_fetched (map (start db v₀) ps) v) ≡ get_entry q v
  keep_entry [] v q n = unfold add_fetched in refl
  keep_entry (p ∷ ps) v q n = rw add_fetched-cons (
      keep_entry ps (add_one (start db v₀ p) v) q n.1
      ∙ get_entry-add_one (start db v₀ p) v q
          (rw (prevout-Started (start-Started p), same_comm p q) n.0))

  -- `v` shows at the prevouts what `v₀` shows.
  abbrev Tracks : View → List Outpoint → Type 0
  Tracks v ps = All (λ p. get_entry p v ≡ get_entry p v₀) ps

  Tracks-add_one :
      (p : Outpoint) (v : View) (ps : List Outpoint)
      → NotIn p ps
      → Tracks v ps
      → Tracks (add_one (start db v₀ p) v) ps
  Tracks-add_one p v [] n t = tt
  Tracks-add_one p v (q ∷ ps) n t = (
    get_entry-add_one (start db v₀ p) v q (rw (prevout-Started (start-Started p)) n.0) ∙ t.0,
    Tracks-add_one p v ps n.1 t.1,
  )

  overlay-add_one :
      {p : Outpoint} {j : Job} (v : View) (h i : ℕ)
      → Started p j
      → get_entry p v ≡ get_entry p v₀
      → overlay (add_one j v) db h i ≡ overlay v db h i
  unfolding to_raw from_raw
  overlay-add_one v h i (was_cached e g) t = refl
  overlay-add_one {p} v h i (was_fetched s g d) t =
      ground (arith, get_entry-add_entry p (from_raw s) v (record { hash = h; index = i }))
  overlay-add_one v h i (was_missing g d) t = refl

  overlay-add_fetched :
      (ps : List Outpoint) (v : View) (h i : ℕ)
      → Distinct ps
      → Tracks v ps
      → overlay (add_fetched (map (start db v₀) ps) v) db h i ≡ overlay v db h i
  overlay-add_fetched [] v h i d t = unfold add_fetched in refl
  overlay-add_fetched (p ∷ ps) v h i d t = rw add_fetched-cons (
      overlay-add_fetched ps (add_one (start db v₀ p) v) h i d.1 (Tracks-add_one p v ps d.0 t.1)
      ∙ overlay-add_one v h i (start-Started p) t.0)

  Started-Ready :
      {p : Outpoint} {j : Job} (v w : View)
      → Started p j
      → get_entry p v ≡ get_entry p v₀
      → get_entry p w ≡ get_entry p (add_one j v)
      → Ready db w j
  unfolding from_raw
  Started-Ready v w (was_cached e g) t k = (e, k ∙ t ∙ g)
  Started-Ready {p} v w (was_fetched s g d) t k =
      ground (arith, get_entry-add_entry p (from_raw s) v p)
  Started-Ready v w (was_missing g d) t k = (k ∙ t ∙ g, d)

  All-Ready :
      (ps : List Outpoint) (v : View)
      → Distinct ps
      → Tracks v ps
      → All (Ready db (add_fetched (map (start db v₀) ps) v)) (map (start db v₀) ps)
  All-Ready [] v d t = tt
  All-Ready (p ∷ ps) v d t =
      let v' = add_one (start db v₀ p) v in
      let w = add_fetched (map (start db v₀) ps) v' in
      subst (λ x. All (Ready db x) (map (start db v₀) (p ∷ ps)))
        (sym (add_fetched-cons (start db v₀ p) (map (start db v₀) ps) v))
        (
          Started-Ready v w (start-Started p) t.0 (keep_entry ps v' p d.0),
          All-Ready ps v' d.1 (Tracks-add_one p v ps d.0 t.1),
        )

Tracks-refl : (db : Db) (v : View) (ps : List Outpoint) → Tracks db v v ps
Tracks-refl db v [] = tt
Tracks-refl db v (p ∷ ps) = (refl, Tracks-refl db v ps)

pub spend_batch-refines :
    (db : Db) (ps : List Outpoint) (v : View)
    → Distinct ps
    → Agrees db (spend_batch db ps v) (spend_each ps (overlay v db) (map to_raw v.undo))
unfolding spend_batch
spend_batch-refines db ps v d =
    let jobs : List Job = map (start db v) ps in
    let w : View = add_fetched jobs v in
    let t = Tracks-refl db v ps in
    let o : overlay w db ≡ overlay v db =
      fun_ext (λ h. fun_ext (λ i. overlay-add_fetched db v ps v h i d t)) in
    let e : spend_each (map prevout jobs) (overlay w db) (map to_raw w.undo)
        ≡ spend_each ps (overlay v db) (map to_raw v.undo) =
      cc (prevouts-start db v ps, o, undo-add_fetched jobs v) in
    rw e at (settle-refines db jobs w (rw (prevouts-start db v ps) d) (All-Ready db v ps v d t))
