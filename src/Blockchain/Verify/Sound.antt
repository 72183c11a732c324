-- ===== src/Blockchain/Verify/Sound.antt =====
-- What a block that `verifyInputs` accepts is known to satisfy, and what is not checked.
use litedoge_js.Prelude.{ℕ, ◌+◌, ◌≡◌, ◌≢◌, ◌∙◌, refl, subst, true, some, List, [], ◌∷◌}
use litedoge_js.Prelude.{arith}
use litedoge_js.Prelude.Int.{ℤ, pos, ◌+ℤ◌, ◌≤ℤ◌, +ℤ_assoc, +ℤ-zero, zero-+ℤ}
use litedoge_js.Primitives.Tx.{Tx, is_coinbase}
use litedoge_js.Protocol.Consensus.{get_proof_of_work_reward}
use litedoge_js.Coins.View.{View, empty, add_tx}
use litedoge_js.Coins.Spend.{Db, spend_inputs}
use litedoge_js.Blockchain.Block.{prevouts, get_output_value}
use litedoge_js.Blockchain.CheckInputs.{Reason, check_inputs, fee_of}
use litedoge_js.Blockchain.CheckInputs.Surplus.{
  surplus_of, refusals_of, fee_of-surplus_of, add_pairs, at_most_surplus,
}
use litedoge_js.Blockchain.Inputs.{update_txs, update_inputs}
use litedoge_js.Blockchain.Verify.{
  Checks, bad_inputs, accepted, refusal, Loop, done, failed, verify_txs, conclude, scripts_hold,
  verify_inputs,
}

module _ (c : Checks) (db : Db) (height : ℕ) where
  verify_txs-update_txs :
      (txs : List Tx) (v w : View) (ops ops' : ℕ) (reward reward' : ℤ)
      → verify_txs c db height txs v ops reward ≡ done w ops' reward'
      → update_txs db (pos height) txs v ≡ some w
  unfolding verify_txs update_txs
  verify_txs-update_txs [] v w ops ops' reward reward' e = ground arith
  verify_txs-update_txs (tx ∷ txs) v w ops ops' reward reward' e =
      let v' = (spend_inputs db (prevouts tx) v).1 in
      ground (
        arith,
        verify_txs-update_txs txs (add_tx tx (pos height) v') w (ops + c.sigops_cost tx v') ops'
            (reward +ℤ fee_of (check_inputs tx v' height (c.min_fee tx))) reward',
      )

  -- No step of the loop, and nothing after it, reads what `checkInputs` refused.
  verify_txs-ne-bad_inputs :
      (r : Reason) (txs : List Tx) (v : View) (ops : ℕ) (reward : ℤ)
      → verify_txs c db height txs v ops reward ≢ failed (bad_inputs r)
  unfolding verify_txs
  verify_txs-ne-bad_inputs r [] v ops reward e = cc
  verify_txs-ne-bad_inputs r (tx ∷ txs) v ops reward e =
      let v' = (spend_inputs db (prevouts tx) v).1 in
      ground (
        arith,
        verify_txs-ne-bad_inputs r txs (add_tx tx (pos height) v') (ops + c.sigops_cost tx v')
            (reward +ℤ fee_of (check_inputs tx v' height (c.min_fee tx))),
      )

  -- The fees that the loop adds up; a transaction that `checkInputs` refuses counts as -1.
  total_fees : List Tx → View → ℤ
  total_fees [] v = pos 0
  total_fees (tx ∷ txs) v =
      let v' = (spend_inputs db (prevouts tx) v).1 in
      fee_of (check_inputs tx v' height (c.min_fee tx))
      +ℤ total_fees txs (add_tx tx (pos height) v')

  -- What the transactions' inputs are worth beyond their outputs, each looked up in the view of its
  -- turn, and how many of the transactions `checkInputs` refuses.
  pub total_surplus : List Tx → View → ℤ
  total_surplus [] v = pos 0
  total_surplus (tx ∷ txs) v =
      let v' = (spend_inputs db (prevouts tx) v).1 in
      surplus_of (check_inputs tx v' height (c.min_fee tx)) tx v'
      +ℤ total_surplus txs (add_tx tx (pos height) v')

  pub total_refusals : List Tx → View → ℕ
  total_refusals [] v = 0
  total_refusals (tx ∷ txs) v =
      let v' = (spend_inputs db (prevouts tx) v).1 in
      refusals_of (check_inputs tx v' height (c.min_fee tx))
      + total_refusals txs (add_tx tx (pos height) v')

  total_fees-total_surplus :
      (txs : List Tx) (v : View)
      → total_fees txs v +ℤ pos (total_refusals txs v) ≡ total_surplus txs v
  unfolding total_fees total_surplus total_refusals
  total_fees-total_surplus [] v = unfold ◌+ℤ◌ in refl
  total_fees-total_surplus (tx ∷ txs) v =
      let v' = (spend_inputs db (prevouts tx) v).1 in
      let next = add_tx tx (pos height) v' in
      let k = check_inputs tx v' height (c.min_fee tx) in
      add_pairs (fee_of k) (total_fees txs next) (refusals_of k) (total_refusals txs next)
        (surplus_of k tx v') (total_surplus txs next)
        (fee_of-surplus_of tx v' height (c.min_fee tx) k refl) (total_fees-total_surplus txs next)

  verify_txs_step :
      (tx : Tx) (txs : List Tx) (v w : View) (ops ops' : ℕ) (reward reward' : ℤ)
      → verify_txs c db height (tx ∷ txs) v ops reward ≡ done w ops' reward'
      → let v' = (spend_inputs db (prevouts tx) v).1 in
        verify_txs c db height txs
          (add_tx tx (pos height) v')
          (ops + c.sigops_cost tx v')
          (reward +ℤ fee_of (check_inputs tx v' height (c.min_fee tx)))
        ≡ done w ops' reward'
  unfolding verify_txs
  verify_txs_step tx txs v w ops ops' reward reward' e = ground arith

  verify_txs-total_fees :
      (txs : List Tx) (v w : View) (ops ops' : ℕ) (reward reward' : ℤ)
      → verify_txs c db height txs v ops reward ≡ done w ops' reward'
      → reward' ≡ reward +ℤ total_fees txs v
  unfolding total_fees
  verify_txs-total_fees [] v w ops ops' reward reward' e =
      let f : done v ops reward ≡ done w ops' reward' = unfold verify_txs in e in rw +ℤ-zero (cc f)
  verify_txs-total_fees (tx ∷ txs) v w ops ops' reward reward' e =
      let v' = (spend_inputs db (prevouts tx) v).1 in
      let fee = fee_of (check_inputs tx v' height (c.min_fee tx)) in
      let next = add_tx tx (pos height) v' in
      verify_txs-total_fees txs next w (ops + c.sigops_cost tx v') ops' (reward +ℤ fee) reward'
        (verify_txs_step tx txs v w ops ops' reward reward' e)
      ∙ +ℤ_assoc reward fee (total_fees txs next)

  -- The script checks all hold, the first transaction is a coinbase, and it claims no more than
  -- the reward.
  conclude-view :
      (cb : Tx) (txs : List Tx) (v w : View) (ops : ℕ) (reward : ℤ)
      → conclude c db height cb txs (done v ops reward) ≡ accepted w
      → v ≡ w
  unfolding conclude
  conclude-view cb txs v w ops reward e = ground arith

  conclude-accepted :
      (cb : Tx) (txs : List Tx) (v w : View) (ops : ℕ) (reward : ℤ)
      → conclude c db height cb txs (done v ops reward) ≡ accepted w
      → (is_coinbase cb ≡ true)
        × (scripts_hold c db height txs v ≡ true)
        × (get_output_value cb ≤ℤ reward +ℤ pos (get_proof_of_work_reward height))
  unfolding conclude
  conclude-accepted cb txs v w ops reward e = (ground arith, ground arith, ground arith)

  -- The loop behind an accepted block.
  verify_inputs_loop :
      (cb : Tx) (txs : List Tx) (w : View)
      → verify_inputs c db height cb txs ≡ accepted w
      → conclude c db height cb txs (
          verify_txs c db height txs
            (add_tx cb (pos height) empty)
            (c.sigops_cost cb empty)
            (pos 0))
        ≡ accepted w
  verify_inputs_loop cb txs w e = unfold verify_inputs in ground arith

  Loop-done :
      (cb : Tx) (txs : List Tx) (w : View) (l : Loop)
      → conclude c db height cb txs l ≡ accepted w
      → (ops : ℕ) × (reward : ℤ) × (l ≡ done w ops reward)
  Loop-done cb txs w (failed r) e = absurd (unfold conclude in cc e)
  Loop-done cb txs w (done v ops reward) e =
      let f : v ≡ w = conclude-view cb txs v w ops reward e in (ops, reward, cc f)

  -- A block that `verifyInputs` accepts gets the view that `updateInputs` makes: the checks leave
  -- the coins alone.
  pub verify_inputs-update_inputs :
      (cb : Tx) (txs : List Tx) (w : View)
      → verify_inputs c db height cb txs ≡ accepted w
      → update_inputs db (pos height) (cb ∷ txs) ≡ some w
  unfolding update_inputs
  verify_inputs-update_inputs cb txs w e =
      let start = add_tx cb (pos height) empty in
      let k = verify_inputs_loop cb txs w e in
      let (ops, reward, l) = Loop-done cb txs w _ k in
      verify_txs-update_txs txs start w (c.sigops_cost cb empty) ops (pos 0) reward l

  -- In a block that `verifyInputs` accepts the first transaction is a coinbase, every other script
  -- check holds, and what the coinbase makes, with 1 for each transaction that `checkInputs` refuses,
  -- is at most the proof-of-work reward and what the inputs of the accepted transactions other than
  -- coinstakes are worth beyond their outputs. What a refused transaction or a coinstake makes is
  -- not bounded.
  pub verify_inputs-bounds_claim :
      (cb : Tx) (txs : List Tx) (w : View)
      → verify_inputs c db height cb txs ≡ accepted w
      → (is_coinbase cb ≡ true)
        × (scripts_hold c db height txs w ≡ true)
        × (get_output_value cb +ℤ pos (total_refusals txs (add_tx cb (pos height) empty))
            ≤ℤ total_surplus txs (add_tx cb (pos height) empty)
              +ℤ pos (get_proof_of_work_reward height))
  verify_inputs-bounds_claim cb txs w e =
      let start = add_tx cb (pos height) empty in
      let k = verify_inputs_loop cb txs w e in
      let (ops, reward, l) = Loop-done cb txs w _ k in
      let (a, s, b) =
        conclude-accepted cb txs w w ops reward
          (subst (λ x. conclude c db height cb txs x ≡ accepted w) l k) in
      let t = verify_txs-total_fees txs start w (c.sigops_cost cb empty) ops (pos 0) reward l in
      let claim = λ (x : ℤ). get_output_value cb ≤ℤ x +ℤ pos (get_proof_of_work_reward height) in
      let bound = subst claim (t ∙ zero-+ℤ (total_fees txs start)) b in
      (
        a,
        s,
        at_most_surplus (get_output_value cb) (total_fees txs start) (total_surplus txs start)
            (total_refusals txs start) (get_proof_of_work_reward height) bound
            (total_fees-total_surplus txs start),
      )

  conclude-ne-bad_inputs :
      (r : Reason) (cb : Tx) (txs : List Tx) (l : Loop)
      → l ≢ failed (bad_inputs r)
      → conclude c db height cb txs l ≢ refusal (bad_inputs r)
  unfolding conclude
  conclude-ne-bad_inputs r cb txs (failed x) n e = n (cc e)
  conclude-ne-bad_inputs r cb txs (done v ops reward) n e = ground arith

  -- No block is refused for what `checkInputs` found: the code compares its BigInt fee with the
  -- number -1 by `===`, which is never true.
  pub verify_inputs-ne-bad_inputs :
      (r : Reason) (cb : Tx) (txs : List Tx)
      → verify_inputs c db height cb txs ≢ refusal (bad_inputs r)
  unfolding verify_inputs
  verify_inputs-ne-bad_inputs r cb txs =
      let l =
        verify_txs c db height txs (add_tx cb (pos height) empty) (c.sigops_cost cb empty)
          (pos 0) in
      ground (
        arith,
        conclude-ne-bad_inputs r cb txs l (
            verify_txs-ne-bad_inputs r txs (add_tx cb (pos height) empty) (c.sigops_cost cb empty)
              (pos 0)),
      )
