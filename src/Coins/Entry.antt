-- ===== src/Coins/Entry.antt =====
-- lib/coins/coinentry.js: an unspent output with what the chain knows of it. The cache `raw` of an
-- entry's own bytes is left out: it holds what `toWriter` would write.
use litedoge_js.Prelude.{ℕ, ◌≡◌, refl, Bool, false, Option, none, some, List}
use litedoge_js.Prelude.{get_elem?}
use litedoge_js.Prelude.Int.{ℤ, negsuc}
use litedoge_js.Primitives.Tx.{Outpoint, Output, Tx, is_coinbase, is_coinstake}

-- A height of -1 is an unconfirmed coin.
pub record CoinEntry : Type 0 where
  pub version : ℕ
  pub height : ℤ
  pub coinbase : Bool
  pub coinstake : Bool
  pub output : Output
  pub spent : Bool

-- lib/primitives/coin.js
pub record Coin : Type 0 where
  pub version : ℕ
  pub height : ℤ
  pub coinbase : Bool
  pub coinstake : Bool
  pub script : List ℕ
  pub value : ℤ
  pub hash : ℕ
  pub index : ℕ

unfoldable pub from_output : Output → CoinEntry
from_output o = record {
  version = 1;
  height = negsuc 0;
  coinbase = false;
  coinstake = false;
  output = o;
  spent = false;
}

unfoldable pub from_coin : Coin → CoinEntry
from_coin c = record {
  version = c.version;
  height = c.height;
  coinbase = c.coinbase;
  coinstake = c.coinstake;
  output = record { value = c.value; script = c.script };
  spent = false;
}

unfoldable pub to_coin : Outpoint → CoinEntry → Coin
to_coin p e = record {
  version = e.version;
  height = e.height;
  coinbase = e.coinbase;
  coinstake = e.coinstake;
  script = e.output.script;
  value = e.output.value;
  hash = p.hash;
  index = p.index;
}

-- `fromTX` of an output that is there.
unfoldable pub from_tx_output : Tx → ℤ → Output → CoinEntry
from_tx_output tx height o = record {
  version = tx.version;
  height = height;
  coinbase = is_coinbase tx;
  coinstake = is_coinstake tx;
  output = o;
  spent = false;
}

-- `none` is the failed assertion that the index is in range.
unfoldable pub from_tx : Tx → ℕ → ℤ → Option CoinEntry
from_tx tx index height = elim (get_elem? tx.outputs index) [
  | none ↦ none
  | some o ↦ some (from_tx_output tx height o)
]

-- What the bytes of an entry hold: neither `spent` nor `coinstake` is written.
pub record Stored : Type 0 where
  pub version : ℕ
  pub height : ℤ
  pub coinbase : Bool
  pub output : Output

unfoldable pub to_raw : CoinEntry → Stored
to_raw e = record {
  version = e.version;
  height = e.height;
  coinbase = e.coinbase;
  output = e.output;
}

-- `fromReader` leaves the fields that it does not read at what the constructor set.
unfoldable pub from_raw : Stored → CoinEntry
from_raw s = record {
  version = s.version;
  height = s.height;
  coinbase = s.coinbase;
  coinstake = false;
  output = s.output;
  spent = false;
}

pub to_raw-from_raw : (s : Stored) → to_raw (from_raw s) ≡ s
unfolding to_raw from_raw
to_raw-from_raw s = refl

-- A coin that went through its bytes comes back as it was, unspent and no coinstake.
pub from_raw-to_raw :
    (e : CoinEntry) → from_raw (to_raw e) ≡ record e { coinstake = false; spent = false }
unfolding to_raw from_raw
from_raw-to_raw e = refl
