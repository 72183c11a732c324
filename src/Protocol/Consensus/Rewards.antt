-- ===== src/Protocol/Consensus/Rewards.antt =====
-- What the reward schedules promise.
use litedoge_js.Prelude.{
  ℕ, ◌*◌, ◌≤◌, ◌<◌, ◌≡◌, ◌↔◌, ◌≢◌, ◌⊎◌, inl, inr, none, some, arith, ltb, if◌then◌else◌,
}
use native.Mathlib.Decide.{dec_lt}
use litedoge_js.Protocol.Consensus.{
  coin, get_proof_of_work_reward, get_proof_of_stake_reward, halved_reward, late_reward,
}

halved_reward-none : (height : ℕ) → 40_000 ≤ height → height < 51_000 → halved_reward height ≡ none
unfolding halved_reward
halved_reward-none height lo hi = ground arith

late_reward-antitone : (a b : ℕ) → a ≤ b → late_reward b ≤ late_reward a
unfolding late_reward
late_reward-antitone a b h = ground arith

late_reward-le : (a : ℕ) → late_reward a ≤ 30_000 * coin
unfolding late_reward
late_reward-le a = ground arith

reward_throws_at :
    (height : ℕ) → get_proof_of_stake_reward height ≡ none → (40_000 ≤ height) × (height < 51_000)
unfolding get_proof_of_stake_reward
reward_throws_at height e = ground arith

-- The staking reward throws at the heights from 40000 to 50999, and at no other.
pub get_proof_of_stake_reward-throws :
    (height : ℕ)
    → (get_proof_of_stake_reward height ≡ none) ↔ ((40_000 ≤ height) × (height < 51_000))
unfolding get_proof_of_stake_reward
get_proof_of_stake_reward-throws height =
    ((λ e. reward_throws_at height e), (λ h. ground (arith, halved_reward-none height h.0 h.1)))

late-eq :
    (b s : ℕ) → 51_000 ≤ b → get_proof_of_stake_reward b ≡ some s → some (late_reward b) ≡ some s
unfolding get_proof_of_stake_reward
late-eq b s h e = ground arith

-- The steps before height 40000.
early_reward : ℕ → ℕ
early_reward a =
    if ltb a 10_000
    then 100_000 * coin
    else if ltb a 20_000
    then 50_000 * coin
    else if ltb a 30_000
    then 25_000 * coin
    else 12_500 * coin

early-eq :
    (a r : ℕ) → a < 40_000 → get_proof_of_stake_reward a ≡ some r → some (early_reward a) ≡ some r
unfolding get_proof_of_stake_reward early_reward
early-eq a r h e = ground arith

middle-none : (a r : ℕ) → 40_000 ≤ a → a < 51_000 → get_proof_of_stake_reward a ≢ some r
middle-none a r lo hi e = cc (e, (get_proof_of_stake_reward-throws a).1 (lo, hi))

early_reward-antitone : (a b : ℕ) → a ≤ b → early_reward b ≤ early_reward a
unfolding early_reward
early_reward-antitone a b h = ground arith

early-antitone :
    (a b r s : ℕ)
    → a ≤ b
    → b < 51_000
    → get_proof_of_stake_reward a ≡ some r
    → get_proof_of_stake_reward b ≡ some s
    → s ≤ r
early-antitone a b r s h k ea eb = elim (dec_lt b 40_000) [
  | yes p ↦
      ground (arith, early-eq a r (omega arith) ea, early-eq b s p eb, early_reward-antitone a b h)
  | no p ↦ absurd (middle-none b s (omega arith) k eb)
]

late-antitone :
    (a b r s : ℕ)
    → a ≤ b
    → 51_000 ≤ a
    → get_proof_of_stake_reward a ≡ some r
    → get_proof_of_stake_reward b ≡ some s
    → s ≤ r
late-antitone a b r s h k ea eb =
    ground (arith, late-eq a r k ea, late-eq b s (omega arith) eb, late_reward-antitone a b h)

-- Where the staking reward is defined it never rises with the height, before height 51000 and from
-- there on.
pub get_proof_of_stake_reward-antitone :
    (a b r s : ℕ)
    → a ≤ b
    → (b < 51_000) ⊎ (51_000 ≤ a)
    → get_proof_of_stake_reward a ≡ some r
    → get_proof_of_stake_reward b ≡ some s
    → s ≤ r
get_proof_of_stake_reward-antitone a b r s h (inl k) ea eb = early-antitone a b r s h k ea eb
get_proof_of_stake_reward-antitone a b r s h (inr k) ea eb = late-antitone a b r s h k ea eb

-- No reward exceeds a million coins up to the height where the height itself does.
pub get_proof_of_work_reward-bound :
    (height : ℕ) → height ≤ 1_000_000 * coin → get_proof_of_work_reward height ≤ 1_000_000 * coin
unfolding get_proof_of_work_reward
get_proof_of_work_reward-bound height h = ground arith
