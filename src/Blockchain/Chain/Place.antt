-- ===== src/Blockchain/Chain/Place.antt =====
-- `setBestChain`, `saveAlternate` and the end of `connect` in lib/blockchain/chain.js.
use litedoge_js.Prelude.{
  ℕ, ◌+◌, ◌≤◌, ◌≡◌, refl, sym, subst, ◌⊎◌, inl, inr, Option, none, some, arith,
}
use litedoge_js.Prelude.{Bool, true, false, Bool-cases, ==→eq, ◌==◌, leb, if◌then◌else◌}
use litedoge_js.Coins.View.{View}
use litedoge_js.Blockchain.Block.{Block, ChainEntry}
use litedoge_js.Blockchain.Context.{VerifyError, Outcome, passed, thrown, verify}
use litedoge_js.Blockchain.Records.{write-same}
use litedoge_js.Blockchain.Index.{Index, IsIn}
use litedoge_js.Blockchain.Index.Ancestors.{same_entry}
use litedoge_js.Blockchain.Index.Extended.{IsNew}
use litedoge_js.Blockchain.Store.{Store, save, save_alternate}
use litedoge_js.Blockchain.Store.Kept.{
  save-IsMainChain, save_alternate-IsMainChain, save-blocks, save_alternate-hashes,
}
use litedoge_js.Blockchain.Chain.{
  Chain, Result, returned, raised, unfinished, Rules, connected, save_verified, on_verify_error,
  check_block, connect_tip, set_best_chain, add_alternate, alternate_saved, place, is_below,
  around_prev, reorganize, invalid_block, is_assertion, is_malleated, set_invalid,
}
use litedoge_js.Blockchain.Chain.Moves.{IsChain, Ends}
use litedoge_js.Blockchain.Chain.Best.{reorganize-Ends}

-- The call ends with a consistent chain, and if it returns, the tip is `tip` and the index has `e`.
abbrev pub Places : ChainEntry → ChainEntry → ChainEntry → Result → Type 0
Places genesis e tip (returned c) = IsChain genesis c × IsIn c.store.entries e × (c.tip ≡ tip)
Places genesis e tip (raised x c) = IsChain genesis c
Places genesis e tip unfinished = ⊥

on_verify_error-Places :
    (genesis e tip x : ChainEntry) (v : VerifyError) (c : Chain)
    → IsChain genesis c
    → Places genesis e tip (on_verify_error v x c)
unfolding on_verify_error
on_verify_error-Places genesis e tip x v c m = elim (Bool-cases (is_assertion v)) [
  | inl a ↦ rw a m
  | inr n ↦ rw n (go (is_malleated v))
]
  where
    go :
        (b : Bool)
        → Places genesis e tip (raised (invalid_block v) (if b then c else set_invalid x.hash c))
    go true = m
    go false = m

save_verified-Places :
    (genesis e : ChainEntry) (block : Block) (c : Chain) (o : Outcome View)
    → IsChain genesis c
    → IsNew c.store.entries genesis c.tip e
    → block.hash ≡ e.hash
    → Places genesis e e (save_verified e block c o)
save_verified-Places genesis e block c (thrown x) m new h =
    on_verify_error-Places genesis e e e x c m
save_verified-Places genesis e block c (passed v) m new h = go (save e block v c.store) refl
  where
    go : (o : Option Store) → save e block v c.store ≡ o → Places genesis e e (connected c e o)
    go none r = m
    go (some t) r =
        let kept = save-IsMainChain genesis e c.tip block v c.store t m.0 new h r in
        (
          (
            kept,
            refl,
            subst (λ (f : ℕ → Option Block). (n : ℕ) (x : Block) → f n ≡ some x → x.hash ≡ n)
                (sym (save-blocks genesis c.tip e block v c.store t new r))
                (save_alternate-hashes e block c.store m.2),
          ),
          kept.1,
          refl,
        )

then_Places :
    (genesis e prev : ChainEntry) (entries : Index) (x : Result) (f : Chain → Result)
    → Ends genesis entries prev x
    → ((c : Chain)
        → IsChain genesis c
        → c.store.entries ≡ entries
        → c.tip ≡ prev
        → Places genesis e e (f c))
    → Places genesis e e
        (elim x [ returned c ↦ f c | raised y c ↦ raised y c | unfinished ↦ unfinished ])
then_Places genesis e prev entries (returned c) f (m, q, t) h = h c m q t
then_Places genesis e prev entries (raised y c) f (m, q, n) h = m
then_Places genesis e prev entries unfinished f x h = x

connect_tip-Places :
    (genesis prev e : ChainEntry) (block : Block) (r : Rules) (enabled : Bool) (c : Chain)
    → IsChain genesis c
    → IsNew c.store.entries genesis prev e
    → c.tip ≡ prev
    → block.hash ≡ e.hash
    → Places genesis e e (connect_tip r enabled e block prev c)
unfolding connect_tip
connect_tip-Places genesis prev e block r enabled c m new t h =
    save_verified-Places genesis e block c (check_block r enabled block prev c.store.db.coins) m
      (subst (λ p. IsNew c.store.entries genesis p e) (sym t) new) h

-- `setBestChain` ends with a consistent chain whatever fails on the way; if it returns, the new block
-- is the tip.
pub set_best_chain-Places :
    (genesis prev e : ChainEntry) (block : Block) (r : Rules) (enabled : Bool) (c : Chain)
    → IsChain genesis c
    → IsNew c.store.entries genesis prev e
    → block.hash ≡ e.hash
    → Places genesis e e (set_best_chain r enabled e block prev c)
unfolding set_best_chain
set_best_chain-Places genesis prev e block r enabled c m new h =
    elim (Bool-cases (e.prev_block == c.tip.hash)) [
      | inl t ↦ rw t (
          connect_tip-Places genesis prev e block r enabled c m new
            (same_entry
              (subst (λ n. c.store.entries n ≡ some c.tip) (sym (==→eq e.prev_block c.tip.hash t))
                m.0.1)
              new.after)
            h)
      | inr f ↦ rw f (
          then_Places genesis e prev c.store.entries (reorganize r e c)
            (connect_tip r enabled e block prev) (reorganize-Ends genesis prev e r c m new)
            λ c' m' k t.
              connect_tip-Places genesis prev e block r enabled c' m'
                (subst (λ i. IsNew i genesis prev e) (sym k) new) t h)
    ]

alternate_saved-Places :
    (genesis prev e : ChainEntry) (block : Block) (c : Chain) (o : Outcome (Unit {0}))
    → IsChain genesis c
    → IsNew c.store.entries genesis prev e
    → block.hash ≡ e.hash
    → Places genesis e c.tip (alternate_saved e block c o)
unfolding save_alternate
alternate_saved-Places genesis prev e block c (thrown x) m new h =
    on_verify_error-Places genesis e c.tip e x c m
alternate_saved-Places genesis prev e block c (passed t) m new h =
    let kept = save_alternate-IsMainChain genesis prev e c.tip block c.store m.0 new h in
    (
      (kept, m.1, save_alternate-hashes e block c.store m.2),
      rw h (write-same e.hash (some e) c.store.entries),
      refl,
    )

pub add_alternate-Places :
    (genesis prev e : ChainEntry) (block : Block) (r : Rules) (enabled : Bool) (c : Chain)
    → IsChain genesis c
    → IsNew c.store.entries genesis prev e
    → block.hash ≡ e.hash
    → Places genesis e c.tip (add_alternate r enabled e block prev c)
unfolding add_alternate
add_alternate-Places genesis prev e block r enabled c m new h =
    elim (Bool-cases (is_below (prev.height + 1) r.last_checkpoint)) [
      | inl t ↦ rw t m
      | inr f ↦ rw f (
          alternate_saved-Places genesis prev e block c
            (verify r.size_of r.create_root enabled (around_prev r prev) (r.header block) block) m
            new h)
    ]

-- What a block placed in the chain leaves.
abbrev pub HasPlaced : ChainEntry → ChainEntry → ChainEntry → Result → Type 0
HasPlaced genesis old e (returned c) =
    IsChain genesis c
    × IsIn c.store.entries e
    × ((c.tip ≡ old) ⊎ (c.tip ≡ e))
    × (old.chaintrust ≤ c.tip.chaintrust)
    × (e.chaintrust ≤ c.tip.chaintrust)
HasPlaced genesis old e (raised x c) = IsChain genesis c
HasPlaced genesis old e unfinished = ⊥

kept_tip :
    (genesis e old : ChainEntry) (x : Result)
    → e.chaintrust ≤ old.chaintrust
    → Places genesis e old x
    → HasPlaced genesis old e x
kept_tip genesis e old (returned c) le (m, i, t) = (m, i, inl t, rw t (omega arith), rw t le)
kept_tip genesis e old (raised x c) le m = m
kept_tip genesis e old unfinished le m = m

new_tip :
    (genesis e old : ChainEntry) (x : Result)
    → old.chaintrust ≤ e.chaintrust
    → Places genesis e e x
    → HasPlaced genesis old e x
new_tip genesis e old (returned c) le (m, i, t) = (m, i, inr t, rw t le, rw t (omega arith))
new_tip genesis e old (raised x c) le m = m
new_tip genesis e old unfinished le m = m

-- A new block is placed so that a consistent chain is left, also by an error, and no loop runs on;
-- where it is taken, the index has it, and the tip is the old one or the new block, whichever has
-- the most trust.
pub place-HasPlaced :
    (genesis prev e : ChainEntry) (block : Block) (r : Rules) (enabled : Bool) (c : Chain)
    → IsChain genesis c
    → IsNew c.store.entries genesis prev e
    → block.hash ≡ e.hash
    → HasPlaced genesis c.tip e (place r enabled e block prev c)
unfolding place
place-HasPlaced genesis prev e block r enabled c m new h =
    elim (Bool-cases (leb e.chaintrust c.tip.chaintrust)) [
      | inl t ↦ rw t (
          kept_tip genesis e c.tip (add_alternate r enabled e block prev c) (ground arith)
            (add_alternate-Places genesis prev e block r enabled c m new h))
      | inr f ↦ rw f (
          new_tip genesis e c.tip (set_best_chain r enabled e block prev c) (ground arith)
            (set_best_chain-Places genesis prev e block r enabled c m new h))
    ]
