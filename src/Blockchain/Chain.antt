-- ===== src/Blockchain/Chain.antt =====
-- lib/blockchain/chain.js: the tip, and how it moves: `disconnect`, `reconnect`, `reorganize`,
-- `setBestChain` and `saveAlternate`, without SPV. The deployment states and the events are left out.
pub mod Moves
pub mod Lists
pub mod Best
pub mod Place
use litedoge_js.Prelude.{
  ℕ, suc, ◌+◌, Bool, true, false, not, ◌&&◌, Option, none, some, List, [], ◌∷◌, ltb, leb, ◌==◌,
  if◌then◌else◌,
}
use litedoge_js.Primitives.Tx.{Tx}
use litedoge_js.Coins.View.{View}
use litedoge_js.Coins.Spend.{Db}
use litedoge_js.Blockchain.Block.{Block, ChainEntry}
use litedoge_js.Blockchain.Body.{Header}
use litedoge_js.Blockchain.Verify.{Checks, no_coinbase}
use litedoge_js.Blockchain.Context.{
  Around, VerifyError, body_error, input_error, missing_historical, time_too_new, Outcome, passed,
  thrown, verify, verify_context,
}
use litedoge_js.Blockchain.Index.{
  Index, Loop, done, no_previous, running, get_previous, find_fork, path_to,
}
use litedoge_js.Blockchain.Store
use litedoge_js.Blockchain.Store.{Store, save, save_alternate}

-- `invalid` is an LRU cache, whose evictions are left out.
pub record Chain : Type 0 where
  pub tip : ChainEntry
  pub height : ℕ
  pub invalid : ℕ → Bool
  pub store : Store

pub data Error : Type 0 where
  block_not_found no_previous_entry failed_assertion bad_fork_prior_to_checkpoint : Error
  invalid_block : VerifyError → Error

-- The chain after a call, which an exception leaves as far as the call came. A loop that did not end
-- leaves none.
pub data Result : Type 0 where
  returned : Chain → Result
  raised : Error → Chain → Result
  unfinished : Result

-- What the verification of a block takes from elsewhere in the node: the scripts' checks, the listed
-- exceptions to BIP30, what `verify` reads of the previous entry, and the header's fields.
pub record Rules : Type 0 where
  pub size_of : Tx → ℕ
  pub create_root : List ℕ → Option ℕ
  pub checks : ChainEntry → Block → Checks
  pub exception : ℕ → Option ℕ
  pub around : ChainEntry → Around
  pub header : Block → Header
  pub last_checkpoint : Option ℕ

abbrev pub around_prev : Rules → ChainEntry → Around
around_prev r prev = record (r.around prev) { prev_hash = prev.hash; prev_height = prev.height }

unfoldable pub check_block : Rules → Bool → Block → ChainEntry → Db → Outcome View
check_block r enabled block prev coins =
    verify_context r.size_of r.create_root (r.checks prev block) coins
      (r.exception (prev.height + 1)) enabled (around_prev r prev) (r.header block) block

unfoldable pub is_malleated : VerifyError → Bool
is_malleated (body_error b) = true
is_malleated time_too_new = true
is_malleated e = false

unfoldable pub set_invalid : ℕ → Chain → Chain
set_invalid hash c = record c { invalid = λ h. if hash == h then true else c.invalid h }

-- The assertions of `updateInputs` and `getClaimed` throw an error of another type.
unfoldable pub is_assertion : VerifyError → Bool
is_assertion missing_historical = true
is_assertion (input_error no_coinbase) = true
is_assertion e = false

unfoldable pub on_verify_error : VerifyError → ChainEntry → Chain → Result
unfolding is_assertion is_malleated set_invalid
on_verify_error e entry c =
    if is_assertion e
    then raised failed_assertion c
    else raised (invalid_block e) (if is_malleated e then c else set_invalid entry.hash c)

abbrev set_tip : ChainEntry → Store → Chain → Chain
set_tip e s c = record c { tip = e; height = e.height; store = s }

abbrev pub disconnected : Chain → Option ChainEntry → Option Store → Result
disconnected c prev none = raised failed_assertion c
disconnected c none (some s) = raised failed_assertion (record c { store = s })
disconnected c (some prev) (some s) = returned (set_tip prev s c)

-- The previous entry is asserted when the database has changed.
unfoldable pub disconnect : ChainEntry → Chain → Result
unfolding get_previous Store.disconnect
disconnect entry c = elim (c.store.blocks entry.hash) [
  | none ↦ raised block_not_found c
  | some block ↦
      disconnected c (get_previous c.store.entries entry) (Store.disconnect entry block c.store)
]

abbrev pub connected : Chain → ChainEntry → Option Store → Result
connected c e none = raised failed_assertion c
connected c e (some s) = returned (set_tip e s c)

abbrev pub reconnect_verified : ChainEntry → Block → Chain → Outcome View → Result
reconnect_verified entry block c (thrown e) = on_verify_error e entry c
reconnect_verified entry block c (passed v) =
    connected c entry (Store.reconnect entry block v c.store)

unfoldable pub reconnect : Rules → ChainEntry → Chain → Result
unfolding get_previous check_block on_verify_error Store.reconnect
reconnect r entry c = elim (c.store.blocks entry.hash) [
  | none ↦ raised block_not_found c
  | some block ↦ elim (get_previous c.store.entries entry) [
    | none ↦ raised failed_assertion c
    | some prev ↦ reconnect_verified entry block c (check_block r false block prev c.store.db.coins)
  ]
]

unfoldable pub disconnect_all : List ChainEntry → Chain → Result
unfolding disconnect
disconnect_all [] c = returned c
disconnect_all (e ∷ es) c = elim (disconnect e c) [
  | returned c' ↦ disconnect_all es c'
  | raised x c' ↦ raised x c'
  | unfinished ↦ unfinished
]

-- From the last of the list to the second.
unfoldable pub reconnect_above : Rules → List ChainEntry → Chain → Result
unfolding reconnect
reconnect_above r [] c = returned c
reconnect_above r (e ∷ es) c = elim (reconnect_above r es c) [
  | returned c' ↦ reconnect r e c'
  | raised x c' ↦ raised x c'
  | unfinished ↦ unfinished
]

abbrev pub tail : List ChainEntry → List ChainEntry
tail [] = []
tail (e ∷ es) = es

abbrev pub move_between : Rules → Loop (List ChainEntry) → Loop (List ChainEntry) → Chain → Result
move_between r (done off) (done on) c = elim (disconnect_all off c) [
  | returned c' ↦ reconnect_above r (tail on) c'
  | raised x c' ↦ raised x c'
  | unfinished ↦ unfinished
]
move_between r no_previous on c = raised failed_assertion c
move_between r (done off) no_previous c = raised failed_assertion c
move_between r running on c = unfinished
move_between r (done off) running c = unfinished

-- The competitor itself is left to `setBestChain`. Each loop has as much fuel as the heights it goes
-- down through.
unfoldable pub reorganize : Rules → ChainEntry → Chain → Result
unfolding find_fork path_to disconnect_all reconnect_above
reorganize r competitor c =
    let index = c.store.entries in
    elim (find_fork (suc c.tip.height) index c.tip competitor) [
      | no_previous ↦ raised no_previous_entry c
      | running ↦ unfinished
      | done fork ↦
          move_between r (path_to (suc c.tip.height) index c.tip fork)
            (path_to (suc competitor.height) index competitor fork) c
    ]

abbrev pub save_verified : ChainEntry → Block → Chain → Outcome View → Result
save_verified entry block c (thrown e) = on_verify_error e entry c
save_verified entry block c (passed v) = connected c entry (save entry block v c.store)

unfoldable pub connect_tip : Rules → Bool → ChainEntry → Block → ChainEntry → Chain → Result
unfolding check_block on_verify_error save
connect_tip r enabled entry block prev c =
    save_verified entry block c (check_block r enabled block prev c.store.db.coins)

-- The fork is resolved before the block is checked in its context and saved.
unfoldable pub set_best_chain : Rules → Bool → ChainEntry → Block → ChainEntry → Chain → Result
unfolding reorganize connect_tip
set_best_chain r enabled entry block prev c =
    if entry.prev_block == c.tip.hash
    then connect_tip r enabled entry block prev c
    else elim (reorganize r entry c) [
      | returned c' ↦ connect_tip r enabled entry block prev c'
      | raised x c' ↦ raised x c'
      | unfinished ↦ unfinished
    ]

abbrev pub is_below : ℕ → Option ℕ → Bool
is_below height none = false
is_below height (some last) = ltb height last

abbrev pub alternate_saved : ChainEntry → Block → Chain → Outcome (Unit {0}) → Result
alternate_saved entry block c (thrown e) = on_verify_error e entry c
alternate_saved entry block c (passed t) =
    returned (record c { store = save_alternate entry block c.store })

-- `saveAlternate`: a block off the main chain, whose inputs are not connected. `last_checkpoint` is
-- there where the checkpoints are used.
unfoldable pub add_alternate : Rules → Bool → ChainEntry → Block → ChainEntry → Chain → Result
unfolding verify on_verify_error save_alternate
add_alternate r enabled entry block prev c =
    if is_below (prev.height + 1) r.last_checkpoint
    then raised bad_fork_prior_to_checkpoint c
    else alternate_saved entry block c
        (verify r.size_of r.create_root enabled (around_prev r prev) (r.header block) block)

-- The end of `connect`: the chain of more trust is the main one.
unfoldable pub place : Rules → Bool → ChainEntry → Block → ChainEntry → Chain → Result
unfolding set_best_chain add_alternate
place r enabled entry block prev c =
    if leb entry.chaintrust c.tip.chaintrust
    then add_alternate r enabled entry block prev c
    else set_best_chain r enabled entry block prev c
