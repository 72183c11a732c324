-- ===== src/Blockchain/Store/Kept.antt =====
-- The indexes of the main chain through `reconnect`, `disconnect` and `save` of lib/blockchain/chaindb.js.
use litedoge_js.Prelude.{ℕ, ◌≡◌, refl, sym, ap, ◌∙◌, subst, inl, inr, Option, none, some, arith}
use litedoge_js.Prelude.{Bool-cases}
use litedoge_js.Coins.View.{View}
use litedoge_js.Blockchain.Block.{Block, ChainEntry, is_genesis}
use litedoge_js.Blockchain.ChainDb.{ChainDb, connect_block, disconnect_block}
use litedoge_js.Blockchain.Records.{write, write-same, write-cases}
use litedoge_js.Blockchain.Index.{Index, IsIndex, IsIn, Ancestor}
use litedoge_js.Blockchain.Index.Ancestors.{prev-IsIn}
use litedoge_js.Blockchain.Index.Extended.{
  IsNew, extended, extended-prev, extended-old, extended-IsIndex, Ancestor-extended,
  extended-Ancestor,
}
use litedoge_js.Blockchain.Store.{
  Store, with_db, commit, reconnect, disconnect, save, save_alternate,
}
use litedoge_js.Blockchain.Store.MainChain.{
  Follows, IsMainChain, up_the_chain, down_the_chain, Ancestor-IsIn,
}

-- The indexes of the store are those before, with the tip named.
abbrev Keeps : Store → ℕ → Store → Type 0
Keeps s tip t =
    (t.entries ≡ s.entries)
    × (t.hash_at ≡ s.hash_at)
    × (t.next ≡ s.next)
    × (t.db.pending.tip ≡ tip)
    × (t.blocks ≡ s.blocks)

with_db-Keeps :
    (s t : Store) (tip : ℕ) (o : Option ChainDb) → with_db s tip o ≡ some t → Keeps s tip t
unfolding commit
with_db-Keeps s t tip none h = absurd (ground arith)
with_db-Keeps s t tip (some db) h =
    subst (λ (o : Option Store). Keeps s tip (or_store t o)) h (refl, refl, refl, refl, refl)
  where
    or_store : Store → Option Store → Store
    or_store d none = d
    or_store d (some x) = x

Keeps-IsMainChain :
    (genesis tip : ChainEntry) (s t : Store)
    → Keeps s tip.hash t
    → IsIndex s.entries genesis
    → IsIn s.entries tip
    → Follows s.entries s.hash_at s.next tip
    → IsMainChain genesis t tip
Keeps-IsMainChain genesis tip s t (e, h, n, k, b) valid i f =
    (rw e valid, rw e i, k, rw (e, h, n) f)

abbrev linked : ChainEntry → ℕ → Store → Store
linked e hash s = record s {
  next = write e.prev_block (some hash) s.next;
  hash_at = write e.height (some hash) s.hash_at;
}

abbrev cut : ChainEntry → Store → Store
cut e s = record s {
  next = write e.prev_block none s.next;
  hash_at = write e.height none s.hash_at;
}

linked-IsMainChain :
    (genesis e tip : ChainEntry) (hash : ℕ) (s t : Store) (o : Option ChainDb)
    → IsMainChain genesis s tip
    → IsIn s.entries e
    → s.entries e.prev_block ≡ some tip
    → hash ≡ e.hash
    → with_db (linked e hash s) hash o ≡ some t
    → IsMainChain genesis t e
linked-IsMainChain genesis e tip hash s t o (valid, it, st, f) ie q bh r =
    Keeps-IsMainChain genesis e (linked e hash s) t
      (subst (λ h. Keeps (linked e hash s) h t) bh (with_db-Keeps (linked e hash s) t hash o r))
      valid ie (rw bh (up_the_chain s.entries genesis valid s.hash_at s.next e tip q ie f))

pub reconnect-IsMainChain :
    (genesis e tip : ChainEntry) (block : Block) (v : View) (s t : Store)
    → IsMainChain genesis s tip
    → IsIn s.entries e
    → s.entries e.prev_block ≡ some tip
    → block.hash ≡ e.hash
    → reconnect e block v s ≡ some t
    → IsMainChain genesis t e
unfolding reconnect is_genesis
reconnect-IsMainChain genesis e tip block v s t m ie q bh r = elim (Bool-cases (is_genesis e)) [
  | inl g ↦ absurd (ground arith)
  | inr g ↦
      linked-IsMainChain genesis e tip block.hash s t (connect_block e block v s.db) m ie q bh
        (sym (rw g refl) ∙ r)
]

-- The entries and the blocks stay.
pub reconnect-same :
    (e : ChainEntry) (block : Block) (v : View) (s t : Store)
    → reconnect e block v s ≡ some t
    → (t.entries ≡ s.entries) × (t.blocks ≡ s.blocks)
unfolding reconnect
reconnect-same e block v s t r = elim (Bool-cases (is_genesis e)) [
  | inl g ↦ absurd (ground arith)
  | inr g ↦
      let k =
        with_db-Keeps (linked e block.hash s) t block.hash (connect_block e block v s.db)
          (sym (rw g refl) ∙ r) in
      (k.0, k.4)
]

pub disconnect-same :
    (e : ChainEntry) (block : Block) (s t : Store)
    → disconnect e block s ≡ some t
    → (t.entries ≡ s.entries) × (t.blocks ≡ s.blocks)
unfolding disconnect
disconnect-same e block s t r =
    let k = with_db-Keeps (cut e s) t e.prev_block (disconnect_block e block s.db) r in (k.0, k.4)

pub disconnect-IsMainChain :
    (genesis e prev : ChainEntry) (block : Block) (s t : Store)
    → IsMainChain genesis s e
    → s.entries e.prev_block ≡ some prev
    → disconnect e block s ≡ some t
    → IsMainChain genesis t prev
unfolding disconnect
disconnect-IsMainChain genesis e prev block s t (valid, ie, st, f) q r =
    Keeps-IsMainChain genesis prev (cut e s) t
      (subst (λ h. Keeps (cut e s) h t) (sym (valid e.prev_block prev q).0)
        (with_db-Keeps (cut e s) t e.prev_block (disconnect_block e block s.db) r))
      valid (prev-IsIn s.entries genesis valid e.prev_block prev q)
      (down_the_chain s.entries genesis valid s.hash_at s.next e prev q ie f)

Follows-extended :
    (index : Index) (genesis prev e tip : ChainEntry) (hash_at next : ℕ → Option ℕ)
    → IsIndex index genesis
    → IsNew index genesis prev e
    → IsIn index tip
    → Follows index hash_at next tip
    → Follows (extended index e) hash_at next tip
Follows-extended index genesis prev e tip hash_at next valid new i f = record {
  heights = λ a r. f.heights a (old a r);
  above = f.above;
  nexts = λ a p r k. f.nexts a p (old a r) (
      extended-prev index genesis prev e valid new a p
        (Ancestor-IsIn index genesis valid a tip i (old a r)) k);
  only_next = λ x y k.
      let (a, r, u, w) = f.only_next x y k in
      (a, Ancestor-extended index genesis prev e valid new a tip r, u, w);
}
  where
    old : (a : ChainEntry) → Ancestor (extended index e) a tip → Ancestor index a tip
    old a r = extended-Ancestor index genesis prev e valid new a tip i r

pub save_alternate-IsMainChain :
    (genesis prev e tip : ChainEntry) (block : Block) (s : Store)
    → IsMainChain genesis s tip
    → IsNew s.entries genesis prev e
    → block.hash ≡ e.hash
    → IsMainChain genesis (save_alternate e block s) tip
unfolding save_alternate
save_alternate-IsMainChain genesis prev e tip block s (valid, it, st, f) new bh =
    subst (λ h. IsMainChain genesis (with_entries h) tip) (sym bh)
      (
        extended-IsIndex s.entries genesis prev e valid new,
        extended-old s.entries genesis prev e valid new tip.hash tip it,
        st,
        Follows-extended s.entries genesis prev e tip s.hash_at s.next valid new it f,
      )
  where
    with_entries : ℕ → Store
    with_entries h = record s {
      entries = write h (some e) s.entries;
      blocks = (save_alternate e block s).blocks;
    }

pub save-IsMainChain :
    (genesis e tip : ChainEntry) (block : Block) (v : View) (s t : Store)
    → IsMainChain genesis s tip
    → IsNew s.entries genesis tip e
    → block.hash ≡ e.hash
    → save e block v s ≡ some t
    → IsMainChain genesis t e
unfolding save save_alternate is_genesis
save-IsMainChain genesis e tip block v s t m new bh r = elim (Bool-cases (is_genesis e)) [
  | inl g ↦ absurd (ground (arith, new.height))
  | inr g ↦
      linked-IsMainChain genesis e tip block.hash (save_alternate e block s) t
        (connect_block e block v s.db)
        (save_alternate-IsMainChain genesis tip e tip block s m new bh)
        (rw bh (write-same e.hash (some e) s.entries))
        (rw bh (extended-old s.entries genesis tip e m.0 new e.prev_block tip new.after)) bh
        (sym (rw g refl) ∙ r)
]

pub save-blocks :
    (genesis prev e : ChainEntry) (block : Block) (v : View) (s t : Store)
    → IsNew s.entries genesis prev e
    → save e block v s ≡ some t
    → t.blocks ≡ (save_alternate e block s).blocks
unfolding save save_alternate is_genesis
save-blocks genesis prev e block v s t new r = elim (Bool-cases (is_genesis e)) [
  | inl g ↦ absurd (ground (arith, new.height))
  | inr g ↦
      let k =
        with_db-Keeps (linked e block.hash (save_alternate e block s)) t block.hash
          (connect_block e block v s.db) (sym (rw g refl) ∙ r) in
      k.4
]

-- The blocks stay under their hashes.
pub save_alternate-hashes :
    (e : ChainEntry) (block : Block) (s : Store)
    → ((h : ℕ) (b : Block) → s.blocks h ≡ some b → b.hash ≡ h)
    → (h : ℕ) (b : Block) → (save_alternate e block s).blocks h ≡ some b
    → b.hash ≡ h
unfolding save_alternate
save_alternate-hashes e block s k h b r = elim (Bool-cases s.db.spv) [
  | inl t ↦ k h b (sym (rw t refl) ∙ r)
  | inr f ↦ elim (write-cases block.hash h (some block) s.blocks b (sym (rw f refl) ∙ r)) [
    | inl (z, j) ↦ subst (λ (x : Block). x.hash ≡ h) (same_block j) z
    | inr (n, j) ↦ k h b j
  ]
]
  where
    same_block : {x y : Block} → some x ≡ some y → x ≡ y
    same_block {x} q = ap (λ (o : Option Block). elim o [ none ↦ x | some z ↦ z ]) q
