-- ===== src/Script/Handlers/Multisig.antt =====
-- OP_CHECKMULTISIG matches signatures with keys in order.
use litedoge_js.Prelude.{
  ℕ, zero, suc, ◌+◌, ◌-◌, ◌≤◌, ◌<◌, ◌≡◌, ◌≢◌, ◌↔◌, ◌⊎◌, Bool, true, false, List, arith, ltb, ◌==◌,
  if◌then◌else◌, Bool-cases, inl, inr,
}
use litedoge_js.Script.Result.{Bytes, Result, Result-cases, ok_injective, ok}
use litedoge_js.Script.Op.{Op}
use litedoge_js.Script.Stack.{Stack, get}
use litedoge_js.Script.Checks.{validate_signature, validate_key}
use litedoge_js.Script.Handlers.{Env}
use litedoge_js.Script.Handlers.Sigs.{check_sig, match_sigs}

-- The test of the loop for signatures left.
drop_zero_test :
    (m : ℕ) (x y : Result Bool) {r : Result Bool} → m ≢ 0 → (if m == 0 then x else y) ≡ r → y ≡ r
drop_zero_test m x y n h = ground arith

module _ (e : Env) (subscript : List Op) (st : Stack) where
  -- The signature at one index of the stack is good for the key at another.
  abbrev pub Signs : ℕ → ℕ → Type 0
  Signs isig ikey =
      (sig : Bytes) × (key : Bytes) × (get isig st ≡ ok sig)
      × (get ikey st ≡ ok key)
      × (check_sig e subscript sig key ≡ true)

  -- The `m` signatures from index `isig` on can be given keys in order among the `n` from `ikey`.
  pub data HaveKeys : ℕ → ℕ → ℕ → ℕ → Type 0 where
    no_sigs : {n isig ikey : ℕ} → HaveKeys n 0 isig ikey
    skip : {n m isig ikey : ℕ} → HaveKeys n m isig (ikey + 1) → HaveKeys (suc n) m isig ikey
    use_key :
        {n m isig ikey : ℕ}
        → Signs isig ikey
        → HaveKeys n m (isig + 1) (ikey + 1)
        → HaveKeys (suc n) (suc m) isig ikey

  HaveKeys-le : (n m isig ikey : ℕ) → HaveKeys n m isig ikey → m ≤ n
  HaveKeys-le n m isig ikey no_sigs = omega arith
  HaveKeys-le n m isig ikey (skip {n = n'} h) = omega (arith, HaveKeys-le n' m isig (ikey + 1) h)
  HaveKeys-le n m isig ikey (use_key {n = n'} {m = m'} s h) =
      omega (arith, HaveKeys-le n' m' (isig + 1) (ikey + 1) h)

  -- A signature can be left out.
  HaveKeys-rest : (n m isig ikey : ℕ) → HaveKeys n (suc m) isig ikey → HaveKeys n m (isig + 1) ikey
  HaveKeys-rest n m isig ikey (skip {n = n'} h) = skip (HaveKeys-rest n' m isig (ikey + 1) h)
  HaveKeys-rest n m isig ikey (use_key s h) = skip h

  -- The greedy choice: where the first key fits, the rest of the signatures fits the other keys.
  HaveKeys-tail :
      (n m isig ikey : ℕ) → HaveKeys (suc n) (suc m) isig ikey → HaveKeys n m (isig + 1) (ikey + 1)
  HaveKeys-tail n m isig ikey (skip h) = HaveKeys-rest n m isig (ikey + 1) h
  HaveKeys-tail n m isig ikey (use_key s h) = h

  -- Where it does not fit it can be skipped.
  HaveKeys-skipped :
      (n m isig ikey : ℕ) (sig key : Bytes)
      → get isig st ≡ ok sig
      → get ikey st ≡ ok key
      → check_sig e subscript sig key ≡ false
      → HaveKeys (suc n) (suc m) isig ikey
      → HaveKeys n (suc m) isig (ikey + 1)
  HaveKeys-skipped n m isig ikey sig key p q c (skip h) = h
  HaveKeys-skipped n m isig ikey sig key p q c (use_key (sig', key', p', q', c') h) =
      let same_sig : sig ≡ sig' = ok_injective sig sig' (cc (p, p')) in
      let same_key : key ≡ key' = ok_injective key key' (cc (q, q')) in
      absurd (cc (c, c', same_sig, same_key))

  -- A round of the loop that ends well read a signature and a key.
  match_reads :
      (n m isig ikey : ℕ) (r : Bool)
      → match_sigs e subscript st (suc n) (suc m) isig ikey ≡ ok r
      → (sig : Bytes) × (key : Bytes) × (get isig st ≡ ok sig) × (get ikey st ≡ ok key)
  unfolding match_sigs
  match_reads n m isig ikey r h = elim (Result-cases (get isig st)) [
    | inr (x, p) ↦ ground arith
    | inl (sig, p) ↦ elim (Result-cases (get ikey st)) [
      | inr (x, q) ↦ ground arith
      | inl (key, q) ↦ (sig, key, p, q)
    ]
  ]

  -- The rest of the round.
  match_rest :
      (n m isig ikey : ℕ) (r : Bool) (sig key : Bytes)
      → match_sigs e subscript st (suc n) (suc m) isig ikey ≡ ok r
      → get isig st ≡ ok sig
      → get ikey st ≡ ok key
      → (let matched : ℕ = if check_sig e subscript sig key then 1 else 0 in
          if ltb n (suc m - matched)
          then ok false
          else match_sigs e subscript st n (suc m - matched) (isig + matched) (ikey + 1))
        ≡ ok r
  unfolding match_sigs
  match_rest n m isig ikey r sig key h p q =
      let k = rw (p, q) at h in
      elim (Result-cases (validate_signature e.crypto.is_low_der sig e.flags)) [
        | inr (x, a) ↦ absurd (cc (drop_zero_test (suc m) _ _ (omega arith) (rw a at k)))
        | inl (x, a) ↦ elim (Result-cases (validate_key key e.flags)) [
          | inr (y, b) ↦ absurd (cc (drop_zero_test (suc m) _ _ (omega arith) (rw (a, b) at k)))
          | inl (y, b) ↦ drop_zero_test (suc m) _ _ (omega arith) (rw (a, b) at k)
        ]
      ]

  match-good :
      (n m isig ikey : ℕ) (r : Bool) (sig key : Bytes)
      → match_sigs e subscript st (suc n) (suc m) isig ikey ≡ ok r
      → get isig st ≡ ok sig
      → get ikey st ≡ ok key
      → m ≤ n
      → check_sig e subscript sig key ≡ true
      → match_sigs e subscript st n m (isig + 1) (ikey + 1) ≡ ok r
  match-good n m isig ikey r sig key h p q k c =
      let rest = rw c at (match_rest n m isig ikey r sig key h p q) in ground arith

  match-bad :
      (n m isig ikey : ℕ) (r : Bool) (sig key : Bytes)
      → match_sigs e subscript st (suc n) (suc m) isig ikey ≡ ok r
      → get isig st ≡ ok sig
      → get ikey st ≡ ok key
      → check_sig e subscript sig key ≡ false
      → ((r ≡ false) × (n < suc m))
        ⊎ ((suc m ≤ n) × (match_sigs e subscript st n (suc m) isig (ikey + 1) ≡ ok r))
  match-bad n m isig ikey r sig key h p q c =
      let rest = rw c at (match_rest n m isig ikey r sig key h p q) in ground arith

  match-done :
      (n isig ikey : ℕ) (r : Bool) → match_sigs e subscript st n 0 isig ikey ≡ ok r → r ≡ true
  unfolding match_sigs
  match-done zero isig ikey r h = ground arith
  match-done (suc n) isig ikey r h = ground arith

  -- Where the loop over keys and signatures ends without an error, with at most as many signatures
  -- as keys, it answers true exactly where the signatures can be given good keys in order.
  pub match_sigs-HaveKeys :
      (n m isig ikey : ℕ) (r : Bool)
      → m ≤ n
      → match_sigs e subscript st n m isig ikey ≡ ok r
      → (r ≡ true) ↔ HaveKeys n m isig ikey
  match_sigs-HaveKeys n zero isig ikey r k h =
      ((λ t. no_sigs), (λ keys. match-done n isig ikey r h))
  match_sigs-HaveKeys zero (suc m) isig ikey r k h = absurd (omega (arith, k))
  match_sigs-HaveKeys (suc n) (suc m) isig ikey r k h =
      let (sig, key, p, q) = match_reads n m isig ikey r h in
      elim (Bool-cases (check_sig e subscript sig key)) [
        | inl c ↦
            let next = match-good n m isig ikey r sig key h p q (omega (arith, k)) c in
            let (to, from) =
              match_sigs-HaveKeys n m (isig + 1) (ikey + 1) r (omega (arith, k)) next in
            (
              (λ t. use_key (sig, key, p, q, c) (to t)),
              (λ keys. from (HaveKeys-tail n m isig ikey keys)),
            )
        | inr c ↦ elim (match-bad n m isig ikey r sig key h p q c) [
          | inl (f, few) ↦ (
            (λ t. absurd (cc (f, t))),
            (λ keys. absurd (
                omega (
                  arith,
                  few,
                  HaveKeys-le n (suc m) isig (ikey + 1)
                      (HaveKeys-skipped n m isig ikey sig key p q c keys),
                ))),
          )
          | inr (room, next) ↦
              let (to, from) = match_sigs-HaveKeys n (suc m) isig (ikey + 1) r room next in
              (
                (λ t. skip (to t)),
                (λ keys. from (HaveKeys-skipped n m isig ikey sig key p q c keys)),
              )
        ]
      ]
