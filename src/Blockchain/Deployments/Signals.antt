-- ===== src/Blockchain/Deployments/Signals.antt =====
-- The blocks that signal for a deployment: `hasBit` of lib/protocol/consensus.js without masks, and
-- the count that `getState` of lib/blockchain/chain.js makes of a window.
use litedoge_js.Prelude.{
  ℕ, zero, suc, ◌+◌, ◌*◌, ◌/◌, ◌%◌, ◌^◌, ◌<◌, ◌≡◌, ◌⊎◌, inl, inr, refl, sym, ap, ◌∙◌, bit_and, Bool,
  true, false, not, ◌&&◌, Option, none, some, leb, ◌==◌, if◌then◌else◌, arith, Bool-cases,
  Option-cases,
}
use litedoge_js.Prelude.Bits.{bit_and-bit, bit_and-three_bits, power_positive}
use litedoge_js.Blockchain.Block.{ChainEntry}
use litedoge_js.Blockchain.Index.{get_previous, Loop, done, no_previous, running}
use litedoge_js.Blockchain.Store.{Store}
use litedoge_js.Blockchain.Deployments.{Deployment, has_bit, reaches_threshold}

-- The top three of 32 bits are 001, and the deployment's bit is set.
abbrev pub signals : ℕ → ℕ → Bool
signals version bit = version / 2 ^ 29 % 8 == 1 && version / 2 ^ bit % 2 == 1

top_is_one : (v : ℕ) → (bit_and v 0xe000_0000 == 0x2000_0000) ≡ (v / 2 ^ 29 % 8 == 1)
top_is_one v =
    let top : bit_and v 0xe000_0000 ≡ 0x2000_0000 * (v / 2 ^ 29 % 8) = bit_and-three_bits v 29 in
    rw top (product (v / 2 ^ 29 % 8))
  where
    product : (x : ℕ) → (0x2000_0000 * x == 0x2000_0000) ≡ (x == 1)
    product x = ground arith

digit_is_one : (p y : ℕ) → 0 < p → y < 2 → not (p * y == 0) ≡ (y == 1)
digit_is_one p zero h l = ground arith
digit_is_one p (suc zero) h l = ground arith
digit_is_one p (suc (suc y)) h l = absurd (omega (arith, l))

bit_is_one : (v k : ℕ) → not (bit_and v (2 ^ k) == 0) ≡ (v / 2 ^ k % 2 == 1)
bit_is_one v k =
    rw (bit_and-bit v k) (digit_is_one (2 ^ k) (v / 2 ^ k % 2) (power_positive k) (omega arith))

has_bit-signals : (v k : ℕ) → has_bit v k ≡ signals v k
unfolding has_bit
has_bit-signals v k = rw (top_is_one v, bit_is_one v k) refl

-- How many of so many blocks signal, from one back; there may be fewer blocks.
pub count_signals : Store → ℕ → ℕ → Option ChainEntry → ℕ
count_signals s bit zero block = 0
count_signals s bit (suc n) none = 0
count_signals s bit (suc n) (some b) =
    (if signals b.version bit then 1 else 0) + count_signals s bit n (s.entries b.prev_block)

same_done : {a b : Bool} → done a ≡ done b → a ≡ b
same_done {a} q = ap (of a) q
  where
    of : Bool → Loop Bool → Bool
    of d (done x) = x
    of d no_previous = d
    of d running = d

module _ (s : Store) (d : Deployment) where
  abbrev next_count : ChainEntry → ℕ → ℕ
  next_count e count = if has_bit e.version d.bit then count + 1 else count

  next_count_lem :
      (e : ChainEntry) (count n : ℕ)
      → next_count e count + count_signals s d.bit n (s.entries e.prev_block)
        ≡ count + count_signals s d.bit (suc n) (some e)
  unfolding count_signals
  next_count_lem e count n =
      rw (has_bit-signals e.version d.bit) (
        one_more (signals e.version d.bit) count (count_signals s d.bit n (s.entries e.prev_block)))
    where
      one_more :
          (b : Bool) (c k : ℕ) → (if b then c + 1 else c) + k ≡ c + ((if b then 1 else 0) + k)
      one_more b c k = ground arith

  -- The loop tells whether the threshold is reached.
  pub reaches_threshold-count_signals :
      (n : ℕ) (e : ChainEntry) (count : ℕ) (b : Bool)
      → (count < d.threshold) ⊎ (0 < n)
      → reaches_threshold s d n e count ≡ done b
      → leb d.threshold (count + count_signals s d.bit n (some e)) ≡ b
  unfolding reaches_threshold get_previous
  reaches_threshold-count_signals zero e count b (inr h) q = absurd (omega (arith, h))
  reaches_threshold-count_signals zero e count b (inl h) q =
      let below : leb d.threshold (count + count_signals s d.bit zero (some e)) ≡ false =
        unfold count_signals in ground arith in
      below ∙ same_done q
  reaches_threshold-count_signals (suc n) e count b h q =
      let total = next_count_lem e count n in
      elim (Bool-cases (leb d.threshold (next_count e count))) [
        | inl t ↦
            let reached : leb d.threshold (count + count_signals s d.bit (suc n) (some e)) ≡ true =
              ground arith in
            reached ∙ same_done (sym (rw t refl) ∙ q)
        | inr f ↦ elim (Option-cases (s.entries e.prev_block)) [
          | inl z ↦ absurd (ground arith)
          | inr (p, z) ↦
              ap (λ c. leb d.threshold c) (sym total)
              ∙ ap (λ o. leb d.threshold (next_count e count + count_signals s d.bit n o)) z
              ∙ reaches_threshold-count_signals n p (next_count e count) b (inl (ground arith))
                  (sym (rw (f, z) refl) ∙ q)
        ]
      ]
