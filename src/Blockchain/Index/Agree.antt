-- ===== src/Blockchain/Index/Agree.antt =====
-- The loops of `findFork` and `reorganize` of lib/blockchain/chain.js on two indexes.
use litedoge_js.Prelude.{
  ℕ, zero, suc, ◌≡◌, refl, sym, ap, ◌∙◌, subst, inl, inr, none, some, arith, Bool-cases,
  Option-cases, false, ltb, ◌==◌, if◌then◌else◌,
}
use litedoge_js.Blockchain.Block.{ChainEntry}
use litedoge_js.Blockchain.Index.{
  Index, Loop, done, no_previous, running, cons_done, lower, find_fork, path_to, get_previous,
}

done_inj : {a b : ChainEntry} → done a ≡ done b → a ≡ b
done_inj {a} h = ap (of_done a) h
  where
    of_done : ChainEntry → Loop ChainEntry → ChainEntry
    of_done d (done e) = e
    of_done d no_previous = d
    of_done d running = d

-- A round of `findFork` after its inner loop.
abbrev after_lower :
    Index
    → (ChainEntry → ChainEntry → Loop ChainEntry)
    → ChainEntry
    → Loop ChainEntry
    → Loop ChainEntry
after_lower i again a running = running
after_lower i again a no_previous = no_previous
after_lower i again a (done l) =
    if a.hash == l.hash
    then done a
    else elim (i a.prev_block) [ none ↦ no_previous | some p ↦ again p l ]

find_fork-round :
    (n : ℕ) (i : Index) (a b : ChainEntry)
    → (a.hash == b.hash) ≡ false
    → find_fork (suc n) i a b ≡ after_lower i (find_fork n i) a (lower (suc b.height) i a b)
unfolding find_fork get_previous
find_fork-round n i a b f = rw f (go (lower (suc b.height) i a b))
  where
    go :
        (o : Loop ChainEntry)
        → (elim o [
          | running ↦ running
          | no_previous ↦ no_previous
          | done l ↦
              if a.hash == l.hash
              then done a
              else elim (get_previous i a) [ none ↦ no_previous | some p ↦ find_fork n i p l ]
        ])
          ≡ after_lower i (find_fork n i) a o
    go running = refl
    go no_previous = refl
    go (done l) = refl

-- The loops read the previous entries alone, so that two indexes that agree on these do as well.
module _ {κ} (i j : Index) (Known : ChainEntry → Type κ)
    (agree : (x : ChainEntry) → Known x → i x.prev_block ≡ j x.prev_block)
    (Known-prev : (x p : ChainEntry) → Known x → j x.prev_block ≡ some p → Known p) where
  lower-agree :
      (n : ℕ) (fork longer : ChainEntry)
      → Known longer
      → lower n i fork longer ≡ lower n j fork longer
  unfolding lower get_previous
  lower-agree zero fork longer k = refl
  lower-agree (suc n) fork longer k = elim (Bool-cases (ltb fork.height longer.height)) [
    | inr f ↦ rw f refl
    | inl t ↦ elim (Option-cases (j longer.prev_block)) [
      | inl e ↦ rw (t, agree longer k, e) refl
      | inr (p, e) ↦ rw (t, agree longer k, e) (lower-agree n fork p (Known-prev longer p k e))
    ]
  ]

  lower-Known :
      (n : ℕ) (fork longer l : ChainEntry) → Known longer → lower n j fork longer ≡ done l → Known l
  unfolding lower get_previous
  lower-Known zero fork longer l k h = absurd (ground arith)
  lower-Known (suc n) fork longer l k h = elim (Bool-cases (ltb fork.height longer.height)) [
    | inr f ↦ subst Known (done_inj (sym (rw f refl) ∙ h)) k
    | inl t ↦ elim (Option-cases (j longer.prev_block)) [
      | inl e ↦ absurd (ground arith)
      | inr (p, e) ↦ lower-Known n fork p l (Known-prev longer p k e) (sym (rw (t, e) refl) ∙ h)
    ]
  ]

  pub path_to-agree :
      (n : ℕ) (x fork : ChainEntry) → Known x → path_to n i x fork ≡ path_to n j x fork
  unfolding path_to get_previous
  path_to-agree zero x fork k = refl
  path_to-agree (suc n) x fork k = elim (Bool-cases (x.hash == fork.hash)) [
    | inl t ↦ rw t refl
    | inr f ↦ elim (Option-cases (j x.prev_block)) [
      | inl e ↦ rw (f, agree x k, e) refl
      | inr (p, e) ↦
          rw (f, agree x k, e) (ap (cons_done x) (path_to-agree n p fork (Known-prev x p k e)))
    ]
  ]

  after_lower-agree :
      (again again' : ChainEntry → ChainEntry → Loop ChainEntry) (a : ChainEntry)
      (o : Loop ChainEntry)
      → Known a
      → ((l : ChainEntry) → o ≡ done l → Known l)
      → ((p l : ChainEntry) → Known p → Known l → again p l ≡ again' p l)
      → after_lower i again a o ≡ after_lower j again' a o
  after_lower-agree again again' a running ka kl h = refl
  after_lower-agree again again' a no_previous ka kl h = refl
  after_lower-agree again again' a (done l) ka kl h = elim (Bool-cases (a.hash == l.hash)) [
    | inl t ↦ rw t refl
    | inr f ↦ elim (Option-cases (j a.prev_block)) [
      | inl e ↦ rw (f, agree a ka, e) refl
      | inr (p, e) ↦ rw (f, agree a ka, e) (h p l (Known-prev a p ka e) (kl l refl))
    ]
  ]

  pub find_fork-agree :
      (n : ℕ) (a b : ChainEntry) → Known a → Known b → find_fork n i a b ≡ find_fork n j a b
  unfolding find_fork
  find_fork-agree zero a b ka kb = refl
  find_fork-agree (suc n) a b ka kb = elim (Bool-cases (a.hash == b.hash)) [
    | inl t ↦ rw t refl
    | inr f ↦
        find_fork-round n i a b f
        ∙ ap (after_lower i (find_fork n i) a) (lower-agree (suc b.height) a b kb)
        ∙ after_lower-agree (find_fork n i) (find_fork n j) a (lower (suc b.height) j a b) ka
            (λ l e. lower-Known (suc b.height) a b l kb e)
            (λ p l kp kl. find_fork-agree n p l kp kl)
        ∙ sym (find_fork-round n j a b f)
  ]
