-- ===== src/Blockchain/ChainTests.antt =====
-- The theorems on the chain, its indexes, its median times and its sequence locks, at an example.
use litedoge_js.Prelude.{ℕ, ◌≡◌, ◌⊎◌, ◌↔◌, refl, arith, true, false, some, [], ◌∷◌}
use litedoge_js.Prelude.Int.{pos}
use litedoge_js.Primitives.Tx.{Input, Tx}
use litedoge_js.Blockchain.Block.{ChainEntry}
use litedoge_js.Blockchain.Index.{Ancestor, done, find_fork}
use litedoge_js.Blockchain.Index.Fork.{IsFork, find_fork-IsFork}
use litedoge_js.Blockchain.Store.{is_main_chain}
use litedoge_js.Blockchain.Store.OnChain.{is_main_chain-Ancestor}
use litedoge_js.Blockchain.Store.Ancestors.{get_ancestor, get_ancestor_lem}
use litedoge_js.Blockchain.Chain.Place.{HasPlaced, place-HasPlaced}
use litedoge_js.Coins.View.{empty}
use litedoge_js.Blockchain.MedianTime.{get_median_time}
use litedoge_js.Blockchain.MedianTime.Middle.{IsMedian, counted, get_median_time-IsMedian}
use litedoge_js.Blockchain.Locks.{verify_locks}
use litedoge_js.Blockchain.Locks.Sound.{IsUnbound, IsUnlocked, verify_locks-IsUnlocked}
use litedoge_js.Prelude.{All}
use litedoge_js.Blockchain.ChainExample.{
  start, block, genesis, left, left-IsIn, result, right, right-IsIn, right_child, right_child-IsNew,
  rules, with_right, with_right-IsChain,
}

place-HasPlaced_example : HasPlaced genesis with_right.tip right_child result
place-HasPlaced_example =
    place-HasPlaced genesis right right_child (block 30) rules true with_right with_right-IsChain
      right_child-IsNew refl

is_main_chain-Ancestor_example :
    (is_main_chain with_right.store right ≡ true)
    ↔ Ancestor with_right.store.entries right with_right.tip
is_main_chain-Ancestor_example =
    is_main_chain-Ancestor genesis with_right.tip right with_right.store with_right-IsChain.0
      right-IsIn

find_fork-IsFork_example :
    (f : ChainEntry) × (find_fork 2 with_right.store.entries left right ≡ done f)
    × IsFork with_right.store.entries left right f
find_fork-IsFork_example =
    find_fork-IsFork with_right.store.entries genesis with_right-IsChain.0.0 2 left right left-IsIn
      right-IsIn (omega arith)

get_ancestor_lem_example :
    (a : ChainEntry) × (get_ancestor with_right.store right (pos 0) ≡ done (some a))
    × Ancestor with_right.store.entries a right
    × (a.height ≡ 0)
get_ancestor_lem_example =
    get_ancestor_lem genesis with_right.tip right with_right.store 0 with_right-IsChain.0 right-IsIn
      (omega arith)

get_median_time-IsMedian_example :
    (m : ℕ) × (get_median_time with_right.store.entries right_child (some 1007) ≡ some m)
    × IsMedian (counted with_right.store.entries right_child (some 1007)) m
get_median_time-IsMedian_example =
    get_median_time-IsMedian with_right.store.entries right_child (some 1007)

abbrev locked_input : ℕ → Input
locked_input sequence = record {
  prevout = record { hash = 5; index = 0 };
  script = [];
  sequence = sequence;
}

-- An input that waits for blocks, one that waits for time, and one that does not wait.
abbrev locked : Tx
locked = record {
  hash = 6;
  version = 2;
  inputs = locked_input 0 ∷ locked_input 0x40_0000 ∷ locked_input 0xffff_ffff ∷ [];
  outputs = [];
  locktime = 0;
}

verify_locks-IsUnlocked_example :
    (verify_locks start.store genesis 1 empty locked true ≡ some true)
    ↔ (IsUnbound locked true ⊎ All (IsUnlocked start.store genesis 1 empty) locked.inputs)
verify_locks-IsUnlocked_example = verify_locks-IsUnlocked start.store genesis 1 empty locked true

locks_are_over : verify_locks start.store genesis 1 empty locked true ≡ some true
unfolding verify_locks get_ancestor litedoge_js.Blockchain.Block.is_genesis
    litedoge_js.Blockchain.Records.write litedoge_js.Blockchain.Locks.median_time
    litedoge_js.Primitives.Tx.is_coinbase litedoge_js.Prelude.Int.◌+ℤ◌
    litedoge_js.Blockchain.Locks.coin_height litedoge_js.Coins.View.get_height
    litedoge_js.Coins.View.get_entry litedoge_js.Prelude.Map.get
locks_are_over = refl

abbrev one_more_block : Tx
one_more_block = record locked { inputs = locked_input 1 ∷ [] }

lock_is_set : verify_locks start.store genesis 1 empty one_more_block true ≡ some false
unfolding verify_locks litedoge_js.Primitives.Tx.is_coinbase litedoge_js.Prelude.Int.◌+ℤ◌
    litedoge_js.Blockchain.Locks.coin_height litedoge_js.Coins.View.get_height
    litedoge_js.Coins.View.get_entry litedoge_js.Prelude.Map.get
lock_is_set = refl
