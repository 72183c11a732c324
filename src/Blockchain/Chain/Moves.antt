-- ===== src/Blockchain/Chain/Moves.antt =====
-- A consistent chain, and the single moves of the tip in lib/blockchain/chain.js.
use litedoge_js.Prelude.{ℕ, ◌≡◌, ◌≢◌, refl, sym, ap, subst, inl, inr, Option, none, some, arith}
use litedoge_js.Prelude.{Bool, true, false, Bool-cases, Option-cases, if◌then◌else◌}
use litedoge_js.Coins.View.{View}
use litedoge_js.Blockchain.Block.{Block, ChainEntry}
use litedoge_js.Blockchain.Context.{VerifyError, Outcome, passed, thrown}
use litedoge_js.Blockchain.Index.{Index, IsIn, get_previous}
use litedoge_js.Blockchain.Store
use litedoge_js.Blockchain.Store.{Store}
use litedoge_js.Blockchain.Store.MainChain.{IsMainChain}
use litedoge_js.Blockchain.Store.Kept.{
  reconnect-IsMainChain, disconnect-IsMainChain, reconnect-same, disconnect-same,
}
use litedoge_js.Blockchain.Chain.{
  Chain, Error, no_previous_entry, failed_assertion, block_not_found, invalid_block, connected,
  Result, returned, raised, unfinished, Rules, disconnect, disconnected, reconnect,
  reconnect_verified, on_verify_error, set_invalid, is_assertion, is_malleated, check_block,
}

-- The chain's tip is that of the database, whose indexes follow it, and each block stands under its
-- hash.
abbrev pub IsChain : ChainEntry → Chain → Type 0
IsChain genesis c =
    IsMainChain genesis c.store c.tip
    × (c.height ≡ c.tip.height)
    × ((h : ℕ) (b : Block) → c.store.blocks h ≡ some b → b.hash ≡ h)

-- The call ends with a consistent chain and the entries there were; if it returns, the tip is `tip`.
abbrev pub Ends : ChainEntry → Index → ChainEntry → Result → Type 0
Ends genesis entries tip (returned c) =
    IsChain genesis c × (c.store.entries ≡ entries) × (c.tip ≡ tip)
Ends genesis entries tip (raised x c) =
    IsChain genesis c × (c.store.entries ≡ entries) × (x ≢ no_previous_entry)
Ends genesis entries tip unfinished = ⊥

abbrev is_no_previous : Error → Bool
is_no_previous no_previous_entry = true
is_no_previous e = false

other_error : (e : Error) → is_no_previous e ≡ false → e ≢ no_previous_entry
other_error e h q = ground (arith, ap is_no_previous q)

pub stays :
    (genesis tip : ChainEntry) (c : Chain) (e : Error)
    → IsChain genesis c
    → is_no_previous e ≡ false
    → Ends genesis c.store.entries tip (raised e c)
stays genesis tip c e m h = (m, refl, other_error e h)

disconnect-round :
    (e p : ChainEntry) (block : Block) (c : Chain)
    → c.store.blocks e.hash ≡ some block
    → c.store.entries e.prev_block ≡ some p
    → disconnect e c ≡ disconnected c (some p) (Store.disconnect e block c.store)
unfolding disconnect get_previous
disconnect-round e p block c h q = rw (disconnect, h, q) refl

no_block :
    (e : ChainEntry) (c : Chain)
    → c.store.blocks e.hash ≡ none
    → disconnect e c ≡ raised block_not_found c
unfolding disconnect
no_block e c h = rw (disconnect, h) refl

disconnected-Ends :
    (genesis p : ChainEntry) (block : Block) (c : Chain) (o : Option Store)
    → IsChain genesis c
    → c.store.entries c.tip.prev_block ≡ some p
    → Store.disconnect c.tip block c.store ≡ o
    → Ends genesis c.store.entries p (disconnected c (some p) o)
disconnected-Ends genesis p block c none m q r = stays genesis p c failed_assertion m refl
disconnected-Ends genesis p block c (some t) (m, h, b) q r =
    let same = disconnect-same c.tip block c.store t r in
    (
      (
        disconnect-IsMainChain genesis c.tip p block c.store t m q r,
        refl,
        subst (λ (f : ℕ → Option Block). (n : ℕ) (x : Block) → f n ≡ some x → x.hash ≡ n)
            (sym same.1) b,
      ),
      same.0,
      refl,
    )

pub disconnect-Ends :
    (genesis p : ChainEntry) (c : Chain)
    → IsChain genesis c
    → c.store.entries c.tip.prev_block ≡ some p
    → Ends genesis c.store.entries p (disconnect c.tip c)
disconnect-Ends genesis p c m q = elim (Option-cases (c.store.blocks c.tip.hash)) [
  | inl e ↦
      subst (Ends genesis c.store.entries p) (sym (no_block c.tip c e))
        (stays genesis p c block_not_found m refl)
  | inr (block, e) ↦
      subst (Ends genesis c.store.entries p) (sym (disconnect-round c.tip p block c e q))
        (disconnected-Ends genesis p block c (Store.disconnect c.tip block c.store) m q refl)
]

pub on_verify_error-Ends :
    (genesis tip e : ChainEntry) (x : VerifyError) (c : Chain)
    → IsChain genesis c
    → Ends genesis c.store.entries tip (on_verify_error x e c)
unfolding on_verify_error set_invalid
on_verify_error-Ends genesis tip e x c m = elim (Bool-cases (is_assertion x)) [
  | inl a ↦ rw a (stays genesis tip c failed_assertion m refl)
  | inr n ↦ rw n (go (is_malleated x))
]
  where
    go :
        (b : Bool)
        → Ends genesis c.store.entries tip
            (raised (invalid_block x) (if b then c else set_invalid e.hash c))
    go true = stays genesis tip c (invalid_block x) m refl
    go false = (m, refl, other_error (invalid_block x) refl)

reconnect_verified-Ends :
    (genesis e : ChainEntry) (block : Block) (c : Chain) (o : Outcome View)
    → IsChain genesis c
    → IsIn c.store.entries e
    → c.store.entries e.prev_block ≡ some c.tip
    → block.hash ≡ e.hash
    → Ends genesis c.store.entries e (reconnect_verified e block c o)
reconnect_verified-Ends genesis e block c (thrown x) m i q h =
    on_verify_error-Ends genesis e e x c m
reconnect_verified-Ends genesis e block c (passed v) m i q h =
    go (Store.reconnect e block v c.store) refl
  where
    go :
        (o : Option Store)
        → Store.reconnect e block v c.store ≡ o
        → Ends genesis c.store.entries e (connected c e o)
    go none r = stays genesis e c failed_assertion m refl
    go (some t) r =
        let same = reconnect-same e block v c.store t r in
        (
          (
            reconnect-IsMainChain genesis e c.tip block v c.store t m.0 i q h r,
            refl,
            subst (λ (f : ℕ → Option Block). (n : ℕ) (x : Block) → f n ≡ some x → x.hash ≡ n)
                (sym same.1) m.2,
          ),
          same.0,
          refl,
        )

reconnect-round :
    (r : Rules) (e p : ChainEntry) (block : Block) (c : Chain)
    → c.store.blocks e.hash ≡ some block
    → c.store.entries e.prev_block ≡ some p
    → reconnect r e c ≡ reconnect_verified e block c (check_block r false block p c.store.db.coins)
unfolding reconnect get_previous
reconnect-round r e p block c h q = rw (reconnect, h, q) refl

no_block_again :
    (r : Rules) (e : ChainEntry) (c : Chain)
    → c.store.blocks e.hash ≡ none
    → reconnect r e c ≡ raised block_not_found c
unfolding reconnect
no_block_again r e c h = rw (reconnect, h) refl

pub reconnect-Ends :
    (genesis e : ChainEntry) (r : Rules) (c : Chain)
    → IsChain genesis c
    → IsIn c.store.entries e
    → c.store.entries e.prev_block ≡ some c.tip
    → Ends genesis c.store.entries e (reconnect r e c)
reconnect-Ends genesis e r c m i q = elim (Option-cases (c.store.blocks e.hash)) [
  | inl k ↦
      subst (Ends genesis c.store.entries e) (sym (no_block_again r e c k))
        (stays genesis e c block_not_found m refl)
  | inr (block, k) ↦
      subst (Ends genesis c.store.entries e) (sym (reconnect-round r e c.tip block c k q)) (
        reconnect_verified-Ends genesis e block c (check_block r false block c.tip c.store.db.coins)
          m i q (m.2 e.hash block k))
]
