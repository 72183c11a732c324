-- ===== src/Lib.antt =====
-- litedoge-js: a full node and wallet for the LiteDoge chain. This library models the parts of
-- lib/ that decide which coins exist, in the order in which a block meets them.
--
-- * Primitives (lib/primitives/outpoint.js, input.js, output.js, tx.js): the data of a
--   transaction. A hash is the number that its 32 bytes write, and `hash` of a `Tx` is what
--   `tx.hash()` returns; hashing itself is not modelled. The value of an output is an integer, as
--   its 64 bits are signed.
-- * Coins (lib/coins): `Entry` is coinentry.js, `Outputs` is coins.js, `View` and `Spend` are
--   coinview.js, `Undo` is undocoins.js. A JavaScript `Map` is the list of its entries
--   (`Prelude.Map`); a method that changes an object in place returns it. `spendInputs` reads the
--   inputs four at a time, and `Spend` keeps that: the reads of a batch all look into the view
--   first. `Overlay` says what a view over the database shows, and `Spend.Refine`,
--   `Spend.Batch` and `Spend.Inputs` relate the code to spending one input after the other.
-- * Protocol (lib/protocol/consensus.js): `Consensus` has the constants and the block rewards.
-- * Blockchain (lib/blockchain): `ChainDb` is the coin part of chaindb.js (`saveView`,
--   `connectBlock`, `disconnectBlock`, `ChainState`), and `Inputs` is `updateInputs` of chain.js.
--   `CheckInputs` is `checkInputs` of tx.js, and `Verify` is `verifyInputs` of chain.js: what it
--   calls outside the coins (sigop costs, locks, the minimum fee, scripts) is the record `Checks`,
--   any functions at all. Awaited script checks are run in order.
--   `Utxo` is the abstract coin state that the code is compared with. The database maps a hash and
--   an index to what the bytes of a coin hold (`Stored`): version, height, coinbase flag and
--   output; that the output's compressed form and the packed height and flag read back as written
--   is taken for granted. The cache of an entry's bytes, pruning and the indexes are left out.
--   `Sanity` is `checkSanity`, `isFinal`, the sizes and the legacy sigops of tx.js. `Body` is
--   `checkBody` of block.js; the size of a transaction and `createRoot` of the merkle package are
--   its parameters. `Context` is `verify`, `verifyDuplicates` and `verifyContext` of chain.js; the
--   record `Around` holds the answers of `verifyCheckpoint`, `isHistorical`, `getTarget` and
--   `getMedianTime`, and the clock.
-- * The chain (lib/blockchain): `Index` is the index of entries with `getPrevious`, `findFork` and
--   the lists that `reorganize` makes; `Records` is a prefix of the database. `Store` is `save`,
--   `reconnect`, `disconnect` and `isMainChain` of chaindb.js over the coins of `ChainDb`, and
--   `Store.Ancestors` is `getAncestor`. `Store.MainChain` says when the height and next-block
--   indexes follow a tip. `Chain` is the tip and how it moves: `disconnect`, `reconnect`,
--   `reorganize`, `setBestChain`, `saveAlternate` and the choice between the last two at the end of
--   `connect`. A call that throws leaves the chain as far as it came (`raised`), as the code does;
--   what verification takes from elsewhere is the record `Rules`. `MedianTime` is
--   `getMedianTime`, `Locks` is `verifyFinal`, `getLocks` and `verifyLocks`, `Deployments` is
--   `getState` with the state cache (what it has cached when an assertion fails is not kept), `Orphans` the two maps of orphan blocks. Left out: SPV, the
--   caches of entries, the tips, events and logging, pruning, resetting, the locks around calls, the
--   proof of work and of stake of an entry, and the making of an entry from a block.
-- * Script (lib/script): `Num` is scriptnum.js, `Op` and `Bytes` are opcode.js, `Stack` is stack.js
--   with the top of a stack first, `Checks` has the encodings of common.js and the locktime tests of
--   tx.js, `Handlers` the cases of the switch in `execute` of script.js, `Exec` the rest of
--   `execute`, and `Verify` is `verify`. A thrown `ScriptError` is a `Result`. Hashing, elliptic
--   curves and the signature hash of a transaction are the record `Crypto`.
-- * Utils (lib/utils/binary.js): `Binary` is `search`. The code's `compare` answers a number of
--   which only the sign counts.
--
-- The entries of the coin view and those of its undo list are the same JavaScript objects. After
-- an entry is pushed nothing writes it but `spent`, which its bytes do not hold, so the lists hold
-- copies.
--
-- Loops are over lists or down a number, and some take fuel. Reading a script takes the number of
-- its bytes, since every round reads one at least, and binary search takes the number of items,
-- since every round leaves fewer. The loops that go back in the chain take the height of the entry
-- that they start from, and one, since every round goes one block down at least; `running` and
-- `unfinished` stand for a loop cut short.
pub mod Prelude
pub mod Protocol
pub mod Primitives
pub mod Coins
pub mod Blockchain
pub mod Script
pub mod Utils
