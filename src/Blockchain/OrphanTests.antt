-- ===== src/Blockchain/OrphanTests.antt =====
-- Two orphans that wait for the same block, and one more where one is allowed.
use litedoge_js.Prelude.{ℕ, ◌≤◌, ◌≡◌, refl, arith, Option, none, some, [], length}
use litedoge_js.Prelude.Map.{get}
use litedoge_js.Blockchain.Orphans.{Orphan, Orphans, store_orphan, resolve_orphan}
use litedoge_js.Blockchain.Orphans.Pairs.{IsPaired, added, added-IsPaired}
use litedoge_js.Blockchain.Orphans.Stored.{store_orphan-IsPaired, resolve_orphan-IsPaired}

abbrev orphan : ℕ → ℕ → ℕ → Orphan
orphan h p t = record { hash = h; prev_block = p; time = t }

abbrev no_orphans : Orphans
no_orphans = record { orphan_map = []; orphan_prev = [] }

no_orphans-IsPaired : IsPaired no_orphans
unfolding get
no_orphans-IsPaired = record {
  map_keys = tt;
  prev_keys = tt;
  by_hash = λ h o r. absurd (ground arith);
  by_prev = λ p o r. absurd (ground arith);
}

abbrev one_waiting : Orphans
one_waiting = added (orphan 7 6 100) no_orphans

one_waiting-IsPaired : IsPaired one_waiting
unfolding get
one_waiting-IsPaired = added-IsPaired (orphan 7 6 100) no_orphans no_orphans-IsPaired refl refl

is_new : get 8 one_waiting.orphan_map ≡ none
unfolding get litedoge_js.Prelude.Map.set
is_new = refl

is_one : length one_waiting.orphan_map ≤ 1
unfolding litedoge_js.Prelude.Map.set
is_one = omega arith

store_orphan-IsPaired_example :
    (t : Orphans) × (store_orphan 150 1 (orphan 8 6 150) one_waiting ≡ some t)
    × IsPaired t
    × (length t.orphan_map ≤ 1)
    × (get 8 t.orphan_map ≡ some (orphan 8 6 150))
store_orphan-IsPaired_example =
    store_orphan-IsPaired 150 1 (orphan 8 6 150) one_waiting one_waiting-IsPaired is_new
      (omega arith) is_one

resolve_orphan-IsPaired_example :
    (t : Orphans) × (resolve_orphan 6 one_waiting ≡ some (get 6 one_waiting.orphan_prev, t))
    × IsPaired t
    × (get 6 t.orphan_prev ≡ none)
resolve_orphan-IsPaired_example = resolve_orphan-IsPaired 6 one_waiting one_waiting-IsPaired
