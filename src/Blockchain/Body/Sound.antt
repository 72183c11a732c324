-- ===== src/Blockchain/Body/Sound.antt =====
-- What `checkBody` establishes.
use litedoge_js.Prelude.{
  ℕ, suc, ◌+◌, ◌≤◌, ◌<◌, ◌≡◌, refl, sym, ap, subst, ◌∙◌, drop, All-map, true, false, ◌&&◌, Option,
  some, List, [], ◌∷◌, map, arith, ltb, All, Option-cases, inl, inr,
}
use litedoge_js.Primitives.Tx.{Tx, is_coinbase, is_coinstake}
use litedoge_js.Protocol.Consensus.{max_block_sigops_cost}
use litedoge_js.Coins.Spend.Refine.{Distinct}
use litedoge_js.Blockchain.Block.{Block, prevouts}
use litedoge_js.Blockchain.Sanity.{sane, check_sanity, get_legacy_sigops, max_block_size}
use litedoge_js.Blockchain.Sanity.Sound.{IsSane, check_sanity-IsSane}
use litedoge_js.Blockchain.Body.{
  Header, Body, good, bad, then_check, check_first, check_root, check_txs, check_body,
}

pub block_sigops : List Tx → ℕ
block_sigops [] = 0
block_sigops (tx ∷ txs) = get_legacy_sigops tx + block_sigops txs

then_check-good : (a b : Body) → then_check a b ≡ good → (a ≡ good) × (b ≡ good)
then_check-good good b e = (refl, e)
then_check-good (bad r) b e = absurd (cc e)

module _ (size_of : Tx → ℕ) (create_root : List ℕ → Option ℕ) where
  txs_step :
      (i ops : ℕ) (tx : Tx) (txs : List Tx)
      → check_txs size_of create_root i ops (tx ∷ txs) ≡ good
      → ((ltb 0 i && is_coinbase tx) ≡ false)
        × ((ltb 1 i && is_coinstake tx) ≡ false)
        × (check_sanity (size_of tx) tx ≡ sane)
        × (ops + get_legacy_sigops tx ≤ max_block_sigops_cost)
        × (check_txs size_of create_root (suc i) (ops + get_legacy_sigops tx) txs ≡ good)
  unfolding check_txs
  txs_step i ops tx txs e = (ground arith, ground arith, ground arith, ground arith, ground arith)

  -- The transactions after the first two are neither a coinbase nor a coinstake.
  later_txs :
      (i ops : ℕ) (txs : List Tx)
      → 1 < i
      → check_txs size_of create_root i ops txs ≡ good
      → All (λ tx. (is_coinbase tx ≡ false) × (is_coinstake tx ≡ false)) txs
  later_txs i ops [] h e = tt
  later_txs i ops (tx ∷ txs) h e =
      let (c, s, k, o, r) = txs_step i ops tx txs e in
      (
        (ground arith, ground arith),
        later_txs (suc i) (ops + get_legacy_sigops tx) txs (omega (arith, h)) r,
      )

  check_txs-good :
      (i ops : ℕ) (txs : List Tx)
      → ops ≤ max_block_sigops_cost
      → check_txs size_of create_root i ops txs ≡ good
      → All (λ tx. IsSane (size_of tx) tx) txs × (ops + block_sigops txs ≤ max_block_sigops_cost)
  unfolding block_sigops
  check_txs-good i ops [] h e = (tt, omega (arith, h))
  check_txs-good i ops (tx ∷ txs) h e =
      let (c, s, k, o, r) = txs_step i ops tx txs e in
      let (all, sum) = check_txs-good (suc i) (ops + get_legacy_sigops tx) txs o r in
      (((check_sanity-IsSane (size_of tx) tx).0 k, all), omega (arith, sum))

  body_parts :
      (h : Header) (block : Block)
      → check_body size_of create_root h block ≡ good
      → (check_first block.txs ≡ good)
        × (check_root size_of create_root h.merkle_root block.txs ≡ good)
        × (check_txs size_of create_root 0 0 block.txs ≡ good)
        × (h.size ≤ max_block_size)
  unfolding check_body
  body_parts h block e =
      let inner =
        then_check (check_root size_of create_root h.merkle_root block.txs)
          (check_txs size_of create_root 0 0 block.txs) in
      let all : then_check (check_first block.txs) inner ≡ good = ground arith in
      let (a, rest) = then_check-good (check_first block.txs) inner all in
      let (b, c) = then_check-good _ _ rest in (a, b, c, ground arith)

  root-good :
      (root : ℕ) (txs : List Tx)
      → check_root size_of create_root root txs ≡ good
      → create_root (map (λ (tx : Tx). tx.hash) txs) ≡ some root
  unfolding check_root
  root-good root txs e = elim (Option-cases (create_root (map (λ (tx : Tx). tx.hash) txs))) [
    | inl n ↦ ground arith
    | inr (r, q) ↦ let same_root : root ≡ r = ground arith in q ∙ ap some (sym same_root)
  ]

  first-good :
      (txs : List Tx)
      → check_first txs ≡ good
      → (cb : Tx) × (rest : List Tx) × (txs ≡ cb ∷ rest) × (is_coinbase cb ≡ true)
  unfolding check_first
  first-good [] e = absurd (cc e)
  first-good (cb ∷ rest) e = (cb, rest, refl, ground arith)

  -- Behind the first transaction there is no coinbase, and behind the second no coinstake.
  rest-good :
      (ops : ℕ) (txs : List Tx)
      → check_txs size_of create_root 1 ops txs ≡ good
      → All (λ tx. is_coinbase tx ≡ false) txs × All (λ tx. is_coinstake tx ≡ false) (drop 1 txs)
  rest-good ops [] e = (tt, tt)
  rest-good ops (tx ∷ txs) e =
      let (c, s, k, o, r) = txs_step 1 ops tx txs e in
      let later = later_txs 2 (ops + get_legacy_sigops tx) txs (omega arith) r in
      ((c, All-map (λ t p. p.0) txs later), All-map (λ t p. p.1) txs later)

  check_txs-tail :
      (cb : Tx) (rest : List Tx)
      → check_txs size_of create_root 0 0 (cb ∷ rest) ≡ good
      → check_txs size_of create_root 1 (0 + get_legacy_sigops cb) rest ≡ good
  check_txs-tail cb rest e = (txs_step 0 0 cb rest e).4

  -- In a block that `checkBody` accepts the first transaction is a coinbase and no other is, only
  -- the second can be a coinstake, every transaction is sane, the legacy sigops are within the limit
  -- of a block, and the merkle root is that of the hashes, which are not malleated.
  pub check_body-good :
      (h : Header) (block : Block)
      → check_body size_of create_root h block ≡ good
      → (cb : Tx) × (rest : List Tx) × (block.txs ≡ cb ∷ rest)
        × (is_coinbase cb ≡ true)
        × All (λ tx. is_coinbase tx ≡ false) rest
        × All (λ tx. is_coinstake tx ≡ false) (drop 1 rest)
        × All (λ tx. IsSane (size_of tx) tx) block.txs
        × (block_sigops block.txs ≤ max_block_sigops_cost)
        × (create_root (map (λ (tx : Tx). tx.hash) block.txs) ≡ some h.merkle_root)
  check_body-good h block e =
      let (a, b, c, n) = body_parts h block e in
      let (cb, rest, q, is_cb) = first-good block.txs a in
      let (sound, sum) = check_txs-good 0 0 block.txs (omega arith) c in
      let tail =
        check_txs-tail cb rest (subst (λ l. check_txs size_of create_root 0 0 l ≡ good) q c) in
      let (no_cb, no_cs) = rest-good (0 + get_legacy_sigops cb) rest tail in
      (
        cb,
        rest,
        q,
        is_cb,
        no_cb,
        no_cs,
        sound,
        omega (arith, sum),
        root-good h.merkle_root block.txs b,
      )

  -- The inputs are distinct, as the coin state needs them.
  pub good-HaveDistinctInputs :
      (h : Header) (block : Block)
      → check_body size_of create_root h block ≡ good
      → All (λ (tx : Tx). Distinct (prevouts tx)) block.txs
  good-HaveDistinctInputs h block e =
      let (a, b, c, n) = body_parts h block e in
      let (sound, sum) = check_txs-good 0 0 block.txs (omega arith) c in
      All-map (λ (tx : Tx) (p : IsSane (size_of tx) tx). p.6) block.txs sound
