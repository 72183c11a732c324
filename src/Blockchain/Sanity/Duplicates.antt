-- ===== src/Blockchain/Sanity/Duplicates.antt =====
-- lib/primitives/tx.js: the loop of `checkSanity` that looks for a prevout that is named twice.
use litedoge_js.Prelude.{◌≡◌, ◌↔◌, refl, false, List, [], ◌∷◌, arith, All}
use litedoge_js.Primitives.Tx.{Outpoint}
use litedoge_js.Coins.Overlay.{same}
use litedoge_js.Coins.Spend.Refine.{NotIn, Distinct}
use litedoge_js.Blockchain.Sanity.{sane, has_key, check_duplicates}

-- The keys seen so far are not among those to come, which are distinct.
abbrev pub Fresh : List Outpoint → List Outpoint → Type 0
Fresh seen ps = All (λ q. NotIn q ps) seen × Distinct ps

has_key-not :
    (p : Outpoint) (seen : List Outpoint)
    → has_key p seen ≡ false
    → All (λ q. same q p ≡ false) seen
has_key-not p [] h = tt
has_key-not p (q ∷ seen) h =
    let here : same q p ≡ false = ground arith in
    let there : has_key p seen ≡ false = ground arith in (here, has_key-not p seen there)

not-has_key :
    (p : Outpoint) (seen : List Outpoint)
    → All (λ q. same q p ≡ false) seen
    → has_key p seen ≡ false
not-has_key p [] h = refl
not-has_key p (q ∷ seen) (here, there) = rw (here, not-has_key p seen there)

All-NotIn-cons :
    (p : Outpoint) (seen ps : List Outpoint)
    → All (λ q. same q p ≡ false) seen
    → All (λ q. NotIn q ps) seen
    → All (λ q. NotIn q (p ∷ ps)) seen
All-NotIn-cons p [] ps h k = tt
All-NotIn-cons p (q ∷ seen) ps (h, hs) (k, ks) = ((h, k), All-NotIn-cons p seen ps hs ks)

All-NotIn-parts :
    (p : Outpoint) (seen ps : List Outpoint)
    → All (λ q. NotIn q (p ∷ ps)) seen
    → All (λ q. same q p ≡ false) seen × All (λ q. NotIn q ps) seen
All-NotIn-parts p [] ps k = (tt, tt)
All-NotIn-parts p (q ∷ seen) ps ((h, k), ks) =
    let (hs, rest) = All-NotIn-parts p seen ps ks in ((h, hs), (k, rest))

duplicates_step :
    (p : Outpoint) (seen ps : List Outpoint)
    → (check_duplicates seen (p ∷ ps) ≡ sane)
      ↔ ((has_key p seen ≡ false) × (check_duplicates (p ∷ seen) ps ≡ sane))
unfolding check_duplicates
duplicates_step p seen ps = ((λ e. (ground arith, ground arith)), (λ h. ground arith))

All-nil : (seen : List Outpoint) → All (λ q. NotIn q []) seen
All-nil [] = tt
All-nil (q ∷ seen) = (tt, All-nil seen)

pub check_duplicates-sane :
    (ps seen : List Outpoint) → (check_duplicates seen ps ≡ sane) ↔ Fresh seen ps
check_duplicates-sane [] seen = ((λ e. (All-nil seen, tt)), (λ h. unfold check_duplicates in refl))
check_duplicates-sane (p ∷ ps) seen =
    let (to, from) = check_duplicates-sane ps (p ∷ seen) in
    let (split, join) = duplicates_step p seen ps in
    (
      (λ e.
          let (k, r) = split e in
          let ((n, ns), d) = to r in (All-NotIn-cons p seen ps (has_key-not p seen k) ns, (n, d))),
      (λ h.
          let (a, (n, d)) = h in
          let (ks, ns) = All-NotIn-parts p seen ps a in
          join (not-has_key p seen ks, from ((n, ns), d))),
    )
