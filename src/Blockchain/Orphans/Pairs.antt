-- ===== src/Blockchain/Orphans/Pairs.antt =====
-- The two maps of the orphans in lib/blockchain/chain.js, in step.
use litedoge_js.Prelude.{
  ℕ, suc, ◌≡◌, ◌≢◌, ◌⊎◌, refl, sym, ap, ◌∙◌, subst, true, false, Option, none, some, [], ◌∷◌,
  length, ◌==◌, arith, Bool-cases, inl, inr, ==→eq,
}
use litedoge_js.Prelude.Map.{
  Map, get, set, delete, IsFresh, HasUniqueKeys, get-set, get-delete, set-HasUniqueKeys,
}
use litedoge_js.Blockchain.Orphans.{Orphan, Orphans, holds_key, add_orphan, remove_orphan}

module _ {ℓ} {V : Type ℓ} where
  delete-IsFresh : (k j : ℕ) (m : Map V) → IsFresh j m → IsFresh j (delete k m)
  unfolding delete
  delete-IsFresh k j [] f = tt
  delete-IsFresh k j ((i, w) ∷ m) (e, f) = ground (arith, delete-IsFresh k j m f)

  delete-HasUniqueKeys : (k : ℕ) (m : Map V) → HasUniqueKeys m → HasUniqueKeys (delete k m)
  unfolding delete
  delete-HasUniqueKeys k [] u = tt
  delete-HasUniqueKeys k ((i, w) ∷ m) (f, u) =
      ground (arith, delete-HasUniqueKeys k m u, delete-IsFresh k i m f)

  pub length-delete :
      (k : ℕ) (v : V) (m : Map V) → get k m ≡ some v → suc (length (delete k m)) ≡ length m
  unfolding get delete
  length-delete k v [] h = absurd (ground arith)
  length-delete k v ((i, w) ∷ m) h = ground (arith, length-delete k v m)

  pub length-set :
      (k : ℕ) (v : V) (m : Map V) → get k m ≡ none → length (set k v m) ≡ suc (length m)
  unfolding get set
  length-set k v [] h = omega arith
  length-set k v ((i, w) ∷ m) h = ground (arith, length-set k v m)

-- Each map holds_key one entry for a key, the block it names has it, and is in the other map.
pub record IsPaired (s : Orphans) : Type 0 where
  pub map_keys : HasUniqueKeys s.orphan_map
  pub prev_keys : HasUniqueKeys s.orphan_prev
  pub by_hash :
      (h : ℕ) (o : Orphan)
      → get h s.orphan_map ≡ some o
      → (o.hash ≡ h) × (get o.prev_block s.orphan_prev ≡ some o)
  pub by_prev :
      (p : ℕ) (o : Orphan)
      → get p s.orphan_prev ≡ some o
      → (o.prev_block ≡ p) × (get o.hash s.orphan_map ≡ some o)

abbrev pub removed : Orphan → Orphans → Orphans
removed o s = record {
  orphan_map = delete o.hash s.orphan_map;
  orphan_prev = delete o.prev_block s.orphan_prev;
}

abbrev pub added : Orphan → Orphans → Orphans
added o s = record {
  orphan_map = set o.hash o s.orphan_map;
  orphan_prev = set o.prev_block o s.orphan_prev;
}

pub one_orphan : {a b : Orphan} {r : Option Orphan} → r ≡ some a → r ≡ some b → a ≡ b
one_orphan {a} p q = ap (λ (o : Option Orphan). elim o [ none ↦ a | some x ↦ x ]) (sym p ∙ q)

-- What a map with a key deleted, or set, still holds.
pub get-deleted :
    (k j : ℕ) (m : Map Orphan) (o : Orphan)
    → HasUniqueKeys m
    → get j (delete k m) ≡ some o
    → (k ≢ j) × (get j m ≡ some o)
get-deleted k j m o u h = elim (Bool-cases (k == j)) [
  | inl t ↦ absurd (ground (arith, get-delete k j m u))
  | inr f ↦ (λ e. ground arith, ground (arith, get-delete k j m u))
]

pub get-kept :
    (k j : ℕ) (m : Map Orphan) (o : Orphan)
    → HasUniqueKeys m
    → (k ≢ j)
    → get j m ≡ some o
    → get j (delete k m) ≡ some o
get-kept k j m o u n h = elim (Bool-cases (k == j)) [
  | inl t ↦ absurd (n (==→eq k j t))
  | inr f ↦ ground (arith, get-delete k j m u)
]

get-added :
    (k j : ℕ) (m : Map Orphan) (o x : Orphan)
    → get j (set k o m) ≡ some x
    → ((k ≡ j) × (x ≡ o)) ⊎ (get j m ≡ some x)
get-added k j m o x h = elim (Bool-cases (k == j)) [
  | inl t ↦ inl (==→eq k j t, one_orphan h (get-set k j o m ∙ rw t refl))
  | inr f ↦ inr (ground (arith, get-set k j o m))
]

get-still :
    (k j : ℕ) (m : Map Orphan) (o x : Orphan)
    → get k m ≡ none
    → get j m ≡ some x
    → get j (set k o m) ≡ some x
get-still k j m o x n h = elim (Bool-cases (k == j)) [
  | inl t ↦ absurd (none_some' (subst (λ i. get i m ≡ none) (==→eq k j t) n) h)
  | inr f ↦ ground (arith, get-set k j o m)
]
  where
    none_some' : {r : Option Orphan} {a : Orphan} → r ≡ none → r ≡ some a → ⊥
    none_some' p q = cc

pub get-same : (k : ℕ) (m : Map Orphan) (o : Orphan) → get k (set k o m) ≡ some o
get-same k m o = ground (arith, get-set k k o m)

pub removed-IsPaired :
    (o : Orphan) (s : Orphans)
    → IsPaired s
    → get o.hash s.orphan_map ≡ some o
    → IsPaired (removed o s)
removed-IsPaired o s p g = record {
  map_keys = delete-HasUniqueKeys o.hash s.orphan_map p.map_keys;
  prev_keys = delete-HasUniqueKeys o.prev_block s.orphan_prev p.prev_keys;
  by_hash = λ h x r.
      let (n, k) = get-deleted o.hash h s.orphan_map x p.map_keys r in
      let (e, j) = p.by_hash h x k in
      (
        e,
        get-kept o.prev_block x.prev_block s.orphan_prev x p.prev_keys
            (λ q. n (
              ap (λ (y : Orphan). y.hash)
                (one_orphan (subst (λ i. get i s.orphan_prev ≡ some o) q (p.by_hash o.hash o g).1)
                  j)
              ∙ e))
            j,
      );
  by_prev = λ b x r.
      let (n, k) = get-deleted o.prev_block b s.orphan_prev x p.prev_keys r in
      let (e, j) = p.by_prev b x k in
      (
        e,
        get-kept o.hash x.hash s.orphan_map x p.map_keys
            (λ q. n (
              ap (λ (y : Orphan). y.prev_block)
                (one_orphan (subst (λ i. get i s.orphan_map ≡ some o) q g) j)
              ∙ e))
            j,
      );
}

pub added-IsPaired :
    (o : Orphan) (s : Orphans)
    → IsPaired s
    → get o.hash s.orphan_map ≡ none
    → get o.prev_block s.orphan_prev ≡ none
    → IsPaired (added o s)
added-IsPaired o s p g n = record {
  map_keys = set-HasUniqueKeys o.hash o s.orphan_map p.map_keys;
  prev_keys = set-HasUniqueKeys o.prev_block o s.orphan_prev p.prev_keys;
  by_hash = λ h x r. elim (get-added o.hash h s.orphan_map o x r) [
    | inl (e, z) ↦
        subst (λ (y : Orphan). (y.hash ≡ h) × (get y.prev_block (added o s).orphan_prev ≡ some y))
          (sym z) (e, get-same o.prev_block s.orphan_prev o)
    | inr k ↦
        let (e, j) = p.by_hash h x k in
        (e, get-still o.prev_block x.prev_block s.orphan_prev o x n j)
  ];
  by_prev = λ b x r. elim (get-added o.prev_block b s.orphan_prev o x r) [
    | inl (e, z) ↦
        subst (λ (y : Orphan). (y.prev_block ≡ b) × (get y.hash (added o s).orphan_map ≡ some y))
          (sym z) (e, get-same o.hash s.orphan_map o)
    | inr k ↦ let (e, j) = p.by_prev b x k in (e, get-still o.hash x.hash s.orphan_map o x g j)
  ];
}

holds_key-some : (k : ℕ) (o : Orphan) (m : Map Orphan) → get k m ≡ some o → holds_key k m ≡ true
unfolding holds_key
holds_key-some k o m h = rw (holds_key, h) refl

holds_key-none : (k : ℕ) (m : Map Orphan) → get k m ≡ none → holds_key k m ≡ false
unfolding holds_key
holds_key-none k m h = rw (holds_key, h) refl

pub remove_orphan-removed :
    (o : Orphan) (s : Orphans)
    → IsPaired s
    → get o.hash s.orphan_map ≡ some o
    → remove_orphan o s ≡ some (removed o s)
unfolding remove_orphan
remove_orphan-removed o s p g =
    rw
      (
        holds_key-some o.hash o s.orphan_map g,
        holds_key-some o.prev_block o s.orphan_prev (p.by_hash o.hash o g).1,
      )
      refl

pub add_orphan-added :
    (o : Orphan) (s : Orphans)
    → get o.hash s.orphan_map ≡ none
    → get o.prev_block s.orphan_prev ≡ none
    → add_orphan o s ≡ some (added o s)
unfolding add_orphan
add_orphan-added o s g n =
    rw (holds_key-none o.hash s.orphan_map g, holds_key-none o.prev_block s.orphan_prev n) refl
