-- ===== src/Blockchain/Index/Fork.antt =====
-- `findFork` of lib/blockchain/chain.js.
use litedoge_js.Prelude.{ℕ, zero, suc, ◌-◌, ◌≤◌, ◌<◌, ◌≡◌, refl, sym, ap, subst, inl, inr, some}
use litedoge_js.Prelude.{arith, Bool-cases, ==→eq, true, false, ltb, ◌==◌}
use litedoge_js.Blockchain.Block.{ChainEntry}
use litedoge_js.Blockchain.Index.{
  Index, done, get_previous, lower, find_fork, IsIndex, IsIn, Ancestor, here, up,
}
use litedoge_js.Blockchain.Index.Ancestors.{
  same_hash, Ancestor-trans, prev-IsIn, has_prev, at_zero, Ancestor-height, Ancestor-prev,
  Ancestor-itself,
}

-- What the inner loop leaves: an ancestor of `longer` with every ancestor that is low enough.
abbrev Lowers : Index → ChainEntry → ChainEntry → ChainEntry → Type 0
Lowers index fork longer l =
    IsIn index l
    × (l.height ≤ fork.height)
    × Ancestor index l longer
    × ((c : ChainEntry) → Ancestor index c longer → c.height ≤ fork.height → Ancestor index c l)

-- A common ancestor of two entries, as high as any other.
abbrev pub IsFork : Index → ChainEntry → ChainEntry → ChainEntry → Type 0
IsFork index a b f =
    Ancestor index f a
    × Ancestor index f b
    × ((c : ChainEntry) → Ancestor index c a → Ancestor index c b → c.height ≤ f.height)

different : (a b : ChainEntry) → (a.hash == b.hash) ≡ false → a ≡ b → ⊥
different a b f e = ground (arith, ap (λ (x : ChainEntry). x.hash) e)

low_enough :
    (fork e c : ChainEntry)
    → ltb fork.height e.height ≡ true
    → c.height ≤ fork.height
    → c.height ≡ e.height
    → ⊥
low_enough fork e c t y z = ground arith

module _ (index : Index) (genesis : ChainEntry) (valid : IsIndex index genesis) where
  not_itself :
      (fork e c p : ChainEntry)
      → ltb fork.height e.height ≡ true
      → index e.prev_block ≡ some p
      → Ancestor index c e
      → c.height ≤ fork.height
      → Ancestor index c p
  not_itself fork e c p t q x y = elim (Ancestor-prev index genesis valid c e p q x) [
    | inl z ↦ absurd (low_enough fork e c t y (ap (λ (w : ChainEntry). w.height) z))
    | inr r ↦ r
  ]

  lower-Lowers :
      (n : ℕ) (fork longer : ChainEntry)
      → IsIn index longer
      → longer.height < n
      → (l : ChainEntry) × (lower n index fork longer ≡ done l) × Lowers index fork longer l
  unfolding lower get_previous
  lower-Lowers zero fork longer i h = absurd (omega arith)
  lower-Lowers (suc n) fork longer i h = elim (Bool-cases (ltb fork.height longer.height)) [
    | inl t ↦
        let (k, e) = above fork longer t in
        let (p, q, ip, hp) = has_prev index genesis valid longer k i e in
        let (l, r, (il, le, al, low)) = lower-Lowers n fork p ip (omega arith) in
        (l, rw (t, q) r, (il, le, up q al, λ c x y. low c (not_itself fork longer c p t q x y) y))
    | inr f ↦ (longer, rw f refl, (i, ground arith, here, λ c x y. x))
  ]
    where
      above : (a b : ChainEntry) → ltb a.height b.height ≡ true → (k : ℕ) × (b.height ≡ suc k)
      above a b t = (b.height - 1, ground arith)

  -- The entries below `fork` and `l`, which differ, at the height that `l` is brought to.
  fork_below :
      (fork l p : ChainEntry)
      → IsIn index fork
      → IsIn index l
      → l.height ≤ fork.height
      → (fork.hash == l.hash) ≡ false
      → (c : ChainEntry) → Ancestor index c fork
      → Ancestor index c l
      → index fork.prev_block ≡ some p
      → Ancestor index c p
  fork_below fork l p i il le f c x y q = elim (Ancestor-prev index genesis valid c fork p q x) [
    | inr r ↦ r
    | inl z ↦ absurd (
        different fork l f
          (Ancestor-itself index genesis valid fork l il (subst (λ w. Ancestor index w l) z y) le))
  ]

  has_fork_prev :
      (fork l : ChainEntry)
      → IsIn index fork
      → IsIn index l
      → l.height ≤ fork.height
      → (fork.hash == l.hash) ≡ false
      → (p : ChainEntry) × (index fork.prev_block ≡ some p)
        × IsIn index p
        × (suc p.height ≡ fork.height)
  has_fork_prev fork l i il le f = elim (valid fork.hash fork i).1 [
    | inr (p, q, s) ↦ (p, q, prev-IsIn index genesis valid fork.prev_block p q, sym s)
    | inl (g, z, x) ↦
        absurd (different fork l f (at_zero index genesis valid fork l i il z (omega arith)))
  ]

  -- `findFork` of two entries of the index finds a common ancestor that is as high as any other, and
  -- neither runs into the end of the chain nor runs on, with more fuel than the first one's height.
  pub find_fork-IsFork :
      (n : ℕ) (a b : ChainEntry)
      → IsIn index a
      → IsIn index b
      → a.height < n
      → (f : ChainEntry) × (find_fork n index a b ≡ done f) × IsFork index a b f
  unfolding find_fork
  find_fork-IsFork zero a b ia ib h = absurd (omega arith)
  find_fork-IsFork (suc n) a b ia ib h = elim (Bool-cases (a.hash == b.hash)) [
    | inl t ↦
        let e = same_hash index a b ia ib (==→eq a.hash b.hash t) in
        (
          a,
          rw t refl,
          (
            here,
            subst (λ x. Ancestor index a x) e here,
            λ c x y. Ancestor-height index genesis valid c a ia x,
          ),
        )
    | inr f ↦
        let (l, r, (il, le, al, low)) = lower-Lowers (suc b.height) a b ib (omega arith) in
        elim (Bool-cases (a.hash == l.hash)) [
          | inl t ↦ (
            a,
            rw (f, r, t) refl,
            (
              here,
              subst (λ x. Ancestor index x b)
                  (sym (same_hash index a l ia il (==→eq a.hash l.hash t))) al,
              λ c x y. Ancestor-height index genesis valid c a ia x,
            ),
          )
          | inr g ↦
              let (p, q, ip, hp) = has_fork_prev a l ia il le g in
              let (k, s, (kp, kl, best)) = find_fork-IsFork n p l ip il (omega arith) in
              let to_l = λ (c : ChainEntry) (x : Ancestor index c a) (y : Ancestor index c b).
                low c y (Ancestor-height index genesis valid c a ia x) in
              (
                k,
                rw (f, r, g, q) s,
                (
                  up q kp,
                  Ancestor-trans index k l b kl al,
                  λ c x y. best c (fork_below a l p ia il le g c x (to_l c x y) q) (to_l c x y),
                ),
              )
        ]
  ]
