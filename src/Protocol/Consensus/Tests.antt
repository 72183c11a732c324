-- ===== src/Protocol/Consensus/Tests.antt =====
-- Runs of the reward schedules.
use litedoge_js.Prelude.{◌*◌, ◌≤◌, ◌<◌, ◌≡◌, ◌↔◌, refl, none, arith, inr}
use litedoge_js.Protocol.Consensus.{
  coin, get_proof_of_work_reward, get_proof_of_stake_reward, late_reward,
}
use litedoge_js.Protocol.Consensus.Rewards.{
  get_proof_of_stake_reward-throws, get_proof_of_stake_reward-antitone,
  get_proof_of_work_reward-bound,
}

genesis_reward : get_proof_of_work_reward 0 ≡ 1000 * coin
unfolding get_proof_of_work_reward
genesis_reward = refl

get_proof_of_stake_reward-throws_example :
    (get_proof_of_stake_reward 45_000 ≡ none) ↔ ((40_000 ≤ 45_000) × (45_000 < 51_000))
get_proof_of_stake_reward-throws_example = get_proof_of_stake_reward-throws 45_000

get_proof_of_stake_reward-antitone_example : 28_000 * coin ≤ 30_000 * coin
get_proof_of_stake_reward-antitone_example =
    get_proof_of_stake_reward-antitone 60_000 150_000 (30_000 * coin) (28_000 * coin) (omega arith)
      (inr (omega arith)) (unfold get_proof_of_stake_reward late_reward in refl)
      (unfold get_proof_of_stake_reward late_reward in refl)

get_proof_of_work_reward-bound_example : get_proof_of_work_reward 9000 ≤ 1_000_000 * coin
get_proof_of_work_reward-bound_example = get_proof_of_work_reward-bound 9000 (omega arith)
