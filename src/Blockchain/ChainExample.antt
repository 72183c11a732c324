-- ===== src/Blockchain/ChainExample.antt =====
-- A chain that two branches grow on, one of which overtakes the other.
use litedoge_js.Prelude.{
  ℕ, suc, ◌≤◌, ◌<◌, ◌≡◌, ◌≢◌, ◌⊎◌, ◌↔◌, refl, sym, ap, subst, inl, inr, arith, true, false, Bool,
  Option, none, some, List, [], ◌∷◌, ◌==◌, if◌then◌else◌,
}
use litedoge_js.Prelude.Int.{pos}
use litedoge_js.Primitives.Tx.{Input, Output, Tx}
use litedoge_js.Coins.Spend.{Db}
use litedoge_js.Blockchain.Block.{Block, ChainEntry}
use litedoge_js.Blockchain.Body.{Header}
use litedoge_js.Blockchain.Verify.{Checks}
use litedoge_js.Blockchain.Context.{Around}
use litedoge_js.Blockchain.ChainDb.{ChainDb, ChainState}
use litedoge_js.Blockchain.Records.{write, write-cases}
use litedoge_js.Blockchain.Index.{IsIn, Ancestor}
use litedoge_js.Blockchain.Index.Ancestors.{Ancestor-step}
use litedoge_js.Blockchain.Index.Extended.{IsNew}
use litedoge_js.Blockchain.Store.{Store, is_main_chain}
use litedoge_js.Blockchain.Chain.{Chain, Result, returned, raised, unfinished, Rules, place}
use litedoge_js.Blockchain.Chain.Moves.{IsChain}
use litedoge_js.Blockchain.Chain.Place.{place-HasPlaced}

abbrev pub coinbase : ℕ → Tx
coinbase h = record {
  hash = h;
  version = 1;
  inputs =
      record {
        prevout = record { hash = 0; index = 0xffff_ffff };
        script = 0x51 ∷ 0x52 ∷ [];
        sequence = 0xffff_ffff;
      }
      ∷ [];
  outputs = record { value = pos 1000; script = 0x51 ∷ [] } ∷ [];
  locktime = 0;
}

abbrev pub block : ℕ → Block
block h = record { hash = h; txs = coinbase (suc h) ∷ [] }

abbrev pub entry : ℕ → ℕ → ℕ → ℕ → ChainEntry
entry h prev height trust = record {
  hash = h;
  prev_block = prev;
  version = 1;
  time = 1000;
  height = height;
  chaintrust = trust;
}

abbrev pub genesis : ChainEntry
genesis = entry 1 0 0 1

-- The blocks 20 and 30 make a branch beside the block 10.
abbrev pub left : ChainEntry
left = entry 10 1 1 2

abbrev pub right : ChainEntry
right = entry 20 1 1 2

abbrev pub right_child : ChainEntry
right_child = entry 30 20 2 3

abbrev pub prev_of : ℕ → ℕ
prev_of h = if h == 30 then 20 else 1

abbrev pub rules : Rules
rules = record {
  size_of = λ tx. 100;
  create_root = λ hs. some 7;
  checks = λ prev b. record {
    sigops_cost = λ tx v. 1;
    verify_locks = λ tx v. true;
    min_fee = λ tx. 5;
    verify_script = λ tx v. true;
  };
  exception = λ h. none;
  around = λ prev. record {
    prev_hash = 0;
    prev_height = 0;
    checkpoint_holds = true;
    historical = false;
    target = 4;
    mtp = 900;
    now = 950;
    has_mtp = false;
  };
  header = λ b. record {
    hash = b.hash;
    prev_block = prev_of b.hash;
    merkle_root = 7;
    time = 1000;
    bits = 4;
    size = 250;
  };
  last_checkpoint = none;
}

abbrev pub no_coins : Db
no_coins h i = none

abbrev pub start : Chain
start = record {
  tip = genesis;
  height = 0;
  invalid = λ h. false;
  store = record {
    entries = write 1 (some genesis) (λ h. none);
    hash_at = write 0 (some 1) (λ h. none);
    next = λ h. none;
    blocks = λ h. none;
    db = record {
      spv = false;
      coins = no_coins;
      undo = λ h. none;
      pending = record { tip = 1; tx = pos 1; coin = pos 0; value = pos 0 };
    };
  };
}

abbrev pub chain_of : Result → Chain
chain_of (returned c) = c
chain_of (raised e c) = c
chain_of unfinished = start

abbrev pub with_left : Chain
with_left = chain_of (place rules true left (block 10) genesis start)

abbrev pub with_right : Chain
with_right = chain_of (place rules true right (block 20) genesis with_left)

abbrev pub result : Result
result = place rules true right_child (block 30) right with_right

abbrev pub tip_hash : Result → Option ℕ
tip_hash (returned c) = some c.tip.hash
tip_hash x = none

left_is_tip : with_left.tip.hash ≡ 10
unfolding place litedoge_js.Blockchain.Context.verify_context litedoge_js.Blockchain.Body.check_body
    litedoge_js.Primitives.Tx.is_coinbase litedoge_js.Blockchain.Sanity.check_sanity
    litedoge_js.Primitives.Tx.is_empty litedoge_js.Blockchain.Sanity.get_legacy_sigops
    litedoge_js.Blockchain.Sanity.is_final litedoge_js.Blockchain.Context.verify_duplicates
    litedoge_js.Blockchain.Verify.verify_inputs litedoge_js.Prelude.Int.◌+ℤ◌
    litedoge_js.Protocol.Consensus.get_proof_of_work_reward
    litedoge_js.Blockchain.Block.get_output_value litedoge_js.Blockchain.Block.is_genesis
left_is_tip = refl

right_is_alternate : with_right.tip.hash ≡ 10
unfolding place litedoge_js.Blockchain.Context.verify_context litedoge_js.Blockchain.Body.check_body
    litedoge_js.Primitives.Tx.is_coinbase litedoge_js.Blockchain.Sanity.check_sanity
    litedoge_js.Primitives.Tx.is_empty litedoge_js.Blockchain.Sanity.get_legacy_sigops
    litedoge_js.Blockchain.Sanity.is_final litedoge_js.Blockchain.Context.verify_duplicates
    litedoge_js.Blockchain.Verify.verify_inputs litedoge_js.Prelude.Int.◌+ℤ◌
    litedoge_js.Protocol.Consensus.get_proof_of_work_reward
    litedoge_js.Blockchain.Block.get_output_value litedoge_js.Blockchain.Block.is_genesis
right_is_alternate = refl

right_child_is_tip : tip_hash result ≡ some 30
unfolding place litedoge_js.Blockchain.Context.verify_context litedoge_js.Blockchain.Body.check_body
    litedoge_js.Primitives.Tx.is_coinbase litedoge_js.Blockchain.Sanity.check_sanity
    litedoge_js.Primitives.Tx.is_empty litedoge_js.Blockchain.Sanity.get_legacy_sigops
    litedoge_js.Blockchain.Sanity.is_final litedoge_js.Blockchain.Context.verify_duplicates
    litedoge_js.Blockchain.Verify.verify_inputs litedoge_js.Prelude.Int.◌+ℤ◌
    litedoge_js.Protocol.Consensus.get_proof_of_work_reward
    litedoge_js.Blockchain.Block.get_output_value litedoge_js.Blockchain.Block.is_genesis
    litedoge_js.Coins.View.add_tx litedoge_js.Coins.Undo.commit litedoge_js.Blockchain.Store.commit
    litedoge_js.Coins.View.remove_tx litedoge_js.Prelude.Map.set
    litedoge_js.Coins.Outputs.from_tx_outputs litedoge_js.Primitives.Tx.is_unspendable
    litedoge_js.Blockchain.ChainDb.apply_op litedoge_js.Coins.Entry.from_tx_output
right_child_is_tip = refl

one_entry : (h : ℕ) (e : ChainEntry) → start.store.entries h ≡ some e → (h ≡ 1) × (e ≡ genesis)
one_entry h e k = elim (write-cases 1 h (some genesis) (λ x. none) e k) [
  | inl (z, j) ↦
      (sym z, ap (λ (o : Option ChainEntry). elim o [ none ↦ genesis | some x ↦ x ]) (sym j))
  | inr (n, j) ↦ absurd (ground arith)
]

start-Ancestor : (a : ChainEntry) → Ancestor start.store.entries a genesis → a ≡ genesis
unfolding write
start-Ancestor a r = elim (Ancestor-step start.store.entries a genesis r) [
  | inl z ↦ z
  | inr (p, k, s) ↦ absurd (ground arith)
]

pub start-IsChain : IsChain genesis start
unfolding write
start-IsChain = (
  (
    λ h e k.
        let (z, g) = one_entry h e k in
        subst
          (λ (x : ChainEntry).
            (x.hash ≡ h)
            × (((x ≡ genesis) × (x.height ≡ 0) × (start.store.entries x.prev_block ≡ none))
                ⊎ ((p : ChainEntry) × (start.store.entries x.prev_block ≡ some p)
                    × (x.height ≡ suc p.height))))
          (sym g) (sym z, inl (refl, refl, refl)),
    refl,
    refl,
    record {
      heights = λ a r.
          subst (λ (x : ChainEntry). start.store.hash_at x.height ≡ some x.hash)
            (sym (start-Ancestor a r)) refl;
      above = λ h l. ground arith;
      nexts = λ a p r k. absurd (no_previous a p (start-Ancestor a r) k);
      only_next = λ x y k. absurd (ground arith);
    },
  ),
  refl,
  λ h b k. absurd (ground arith),
)
  where
    no_previous : (a p : ChainEntry) → a ≡ genesis → start.store.entries a.prev_block ≡ some p → ⊥
    no_previous a p z k =
        ground (arith, subst (λ (x : ChainEntry). start.store.entries x.prev_block ≡ some p) z k)

pub with_left-IsChain : IsChain genesis with_left
unfolding place litedoge_js.Blockchain.Context.verify_context litedoge_js.Blockchain.Body.check_body
    litedoge_js.Primitives.Tx.is_coinbase litedoge_js.Blockchain.Sanity.check_sanity
    litedoge_js.Primitives.Tx.is_empty litedoge_js.Blockchain.Sanity.get_legacy_sigops
    litedoge_js.Blockchain.Sanity.is_final litedoge_js.Blockchain.Context.verify_duplicates
    litedoge_js.Blockchain.Verify.verify_inputs litedoge_js.Prelude.Int.◌+ℤ◌
    litedoge_js.Protocol.Consensus.get_proof_of_work_reward
    litedoge_js.Blockchain.Block.get_output_value litedoge_js.Blockchain.Block.is_genesis
with_left-IsChain =
    (place-HasPlaced genesis genesis left (block 10) rules true start start-IsChain
      (record { unknown = refl; after = refl; height = refl; not_before = λ h. omega arith })
      refl).0

pub with_right-IsChain : IsChain genesis with_right
unfolding place litedoge_js.Blockchain.Context.verify_context litedoge_js.Blockchain.Body.check_body
    litedoge_js.Primitives.Tx.is_coinbase litedoge_js.Blockchain.Sanity.check_sanity
    litedoge_js.Primitives.Tx.is_empty litedoge_js.Blockchain.Sanity.get_legacy_sigops
    litedoge_js.Blockchain.Sanity.is_final litedoge_js.Blockchain.Context.verify_duplicates
    litedoge_js.Blockchain.Verify.verify_inputs litedoge_js.Prelude.Int.◌+ℤ◌
    litedoge_js.Protocol.Consensus.get_proof_of_work_reward
    litedoge_js.Blockchain.Block.get_output_value litedoge_js.Blockchain.Block.is_genesis
with_right-IsChain =
    (place-HasPlaced genesis genesis right (block 20) rules true with_left with_left-IsChain
      (record { unknown = refl; after = refl; height = refl; not_before = λ h. omega arith })
      refl).0

pub right_child-IsNew : IsNew with_right.store.entries genesis right right_child
unfolding place litedoge_js.Blockchain.Context.verify_context litedoge_js.Blockchain.Body.check_body
    litedoge_js.Primitives.Tx.is_coinbase litedoge_js.Blockchain.Sanity.check_sanity
    litedoge_js.Primitives.Tx.is_empty litedoge_js.Blockchain.Sanity.get_legacy_sigops
    litedoge_js.Blockchain.Sanity.is_final litedoge_js.Blockchain.Context.verify_duplicates
    litedoge_js.Blockchain.Verify.verify_inputs litedoge_js.Prelude.Int.◌+ℤ◌
    litedoge_js.Protocol.Consensus.get_proof_of_work_reward
    litedoge_js.Blockchain.Block.get_output_value litedoge_js.Blockchain.Block.is_genesis
right_child-IsNew = record {
  unknown = refl;
  after = refl;
  height = refl;
  not_before = λ h. omega arith;
}

pub right-IsIn : IsIn with_right.store.entries right
unfolding place litedoge_js.Blockchain.Context.verify_context litedoge_js.Blockchain.Body.check_body
    litedoge_js.Primitives.Tx.is_coinbase litedoge_js.Blockchain.Sanity.check_sanity
    litedoge_js.Primitives.Tx.is_empty litedoge_js.Blockchain.Sanity.get_legacy_sigops
    litedoge_js.Blockchain.Sanity.is_final litedoge_js.Blockchain.Context.verify_duplicates
    litedoge_js.Blockchain.Verify.verify_inputs litedoge_js.Prelude.Int.◌+ℤ◌
    litedoge_js.Protocol.Consensus.get_proof_of_work_reward
    litedoge_js.Blockchain.Block.get_output_value litedoge_js.Blockchain.Block.is_genesis
right-IsIn = refl

pub left-IsIn : IsIn with_right.store.entries left
unfolding place litedoge_js.Blockchain.Context.verify_context litedoge_js.Blockchain.Body.check_body
    litedoge_js.Primitives.Tx.is_coinbase litedoge_js.Blockchain.Sanity.check_sanity
    litedoge_js.Primitives.Tx.is_empty litedoge_js.Blockchain.Sanity.get_legacy_sigops
    litedoge_js.Blockchain.Sanity.is_final litedoge_js.Blockchain.Context.verify_duplicates
    litedoge_js.Blockchain.Verify.verify_inputs litedoge_js.Prelude.Int.◌+ℤ◌
    litedoge_js.Protocol.Consensus.get_proof_of_work_reward
    litedoge_js.Blockchain.Block.get_output_value litedoge_js.Blockchain.Block.is_genesis
left-IsIn = refl
