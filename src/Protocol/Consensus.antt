-- ===== src/Protocol/Consensus.antt =====
-- lib/protocol/consensus.js: amounts and the block rewards. No constant or reward is negative, so they are natural numbers.
pub mod Rewards
mod Tests
use litedoge_js.Prelude.{ℕ, ◌+◌, ◌-◌, ◌*◌, ◌/◌, ◌%◌, ◌^◌, Option, none, some, ltb, leb, ◌==◌}
use litedoge_js.Prelude.{if◌then◌else◌}

abbrev pub coin : ℕ
coin = 100_000_000

abbrev pub max_money : ℕ
max_money = 50_000_000_000 * coin

abbrev pub max_block_sigops_cost : ℕ
max_block_sigops_cost = 80_000

abbrev pub coinbase_maturity : ℕ
coinbase_maturity = 100

abbrev pub reward_halving_period : ℕ
reward_halving_period = 2_000_000

unfoldable pub get_proof_of_work_reward : ℕ → ℕ
get_proof_of_work_reward height =
    if ltb height 30
    then 1000 * coin
    else if ltb height 1000
    then 1_000_000 * coin
    else if ltb height 2000
    then 500_000 * coin
    else if ltb height 3000
    then 250_000 * coin
    else if ltb height 4000
    then 125_000 * coin
    else if ltb height 5000
    then 62_500 * coin
    else if ltb height 6000
    then 31_250 * coin
    else if ltb height 7000
    then 15_625 * coin
    else if leb height 8000
    then 10_000 * coin
    else height

-- `BigInt(a / b)` of a JavaScript number: a RangeError, `none`, where the quotient is no integer.
unfoldable pub to_bigint : ℕ → ℕ → Option ℕ
to_bigint a b = if a % b == 0 then some (a / b) else none

-- The branch with the halvings. With 64 halvings or more the subsidy is the number 0, and the
-- product of a number and a BigInt is a TypeError.
unfoldable pub halved_reward : ℕ → Option ℕ
unfolding to_bigint
halved_reward height =
    if leb (64 * reward_halving_period) height
    then none
    else elim (to_bigint height reward_halving_period) [
      | none ↦ none
      | some halvings ↦
          let subsidy = 10_000 * coin / 2 ^ halvings in
          elim (to_bigint (height % reward_halving_period) (2 * reward_halving_period)) [
            | none ↦ none
            | some part ↦ some (subsidy - subsidy * part)
          ]
    ]

-- The rewards from height 51000 on.
unfoldable pub late_reward : ℕ → ℕ
late_reward height =
    if ltb height 144_999
    then 30_000 * coin
    else if ltb height 189_999
    then 28_000 * coin
    else if ltb height 234_999
    then 26_000 * coin
    else if ltb height 279_999
    then 24_000 * coin
    else if ltb height 324_999
    then 22_000 * coin
    else if ltb height 369_999
    then 20_000 * coin
    else if ltb height 414_999
    then 18_000 * coin
    else if ltb height 459_999
    then 16_000 * coin
    else if ltb height 504_999
    then 14_000 * coin
    else if ltb height 549_999
    then 12_000 * coin
    else if ltb height 594_999
    then 10_000 * coin
    else if ltb height 639_999
    then 4000 * coin
    else if ltb height 684_999
    then 2000 * coin
    else if ltb height 729_999
    then 1000 * coin
    else 500 * coin

-- `none` is an exception.
unfoldable pub get_proof_of_stake_reward : ℕ → Option ℕ
get_proof_of_stake_reward height =
    if ltb height 10_000
    then some (100_000 * coin)
    else if ltb height 20_000
    then some (50_000 * coin)
    else if ltb height 30_000
    then some (25_000 * coin)
    else if ltb height 40_000
    then some (12_500 * coin)
    else if ltb height 51_000
    then halved_reward height
    else some (late_reward height)
