-- ===== src/Blockchain/DeploymentTests.antt =====
-- The theorems on deployments at a chain of two blocks.
use litedoge_js.Prelude.{◌≤◌, ◌≡◌, refl, arith, false, none, some}
use litedoge_js.Prelude.Int.{sub_ℕ}
use litedoge_js.Blockchain.Block.{ChainEntry}
use litedoge_js.Blockchain.Index.{IsIn, Loop, done, no_previous, running}
use litedoge_js.Blockchain.Store.{Store, save_alternate}
use litedoge_js.Blockchain.Store.MainChain.{IsMainChain}
use litedoge_js.Blockchain.Store.Kept.{save_alternate-IsMainChain}
use litedoge_js.Blockchain.Store.Ancestors.{get_ancestor}
use litedoge_js.Blockchain.Locks.{median_time}
use litedoge_js.Blockchain.Deployments.{Threshold, Deployment, Cache, started, get_state}
use litedoge_js.Blockchain.Deployments.State.{deployment_state, IsConsistent, Matches}
use litedoge_js.Blockchain.Deployments.Cached.{get_state-Matches}
use litedoge_js.Blockchain.Deployments.Steps.{IsNext, get_state-IsNext}
use litedoge_js.Blockchain.ChainExample.{start, start-IsChain, genesis, left, block}

abbrev store : Store
store = save_alternate left (block 10) start.store

store-IsMainChain : IsMainChain genesis store genesis
unfolding litedoge_js.Blockchain.Records.write
store-IsMainChain =
    save_alternate-IsMainChain genesis genesis left genesis (block 10) start.store start-IsChain.0
      (record { unknown = refl; after = refl; height = refl; not_before = λ h. omega arith }) refl

abbrev deployment : Deployment
deployment = record {
  bit = 0;
  always_active = false;
  start_time = 500;
  timeout = 2000;
  threshold = 1;
  window = 1;
}

abbrev nothing_cached : Cache
nothing_cached h = none

nothing_cached-IsConsistent : IsConsistent store deployment nothing_cached
nothing_cached-IsConsistent e st i h = absurd (ground arith)

left-IsIn : IsIn store.entries left
unfolding save_alternate
left-IsIn = refl

get_state-Matches_example :
    Matches store deployment
      (get_state store deployment nothing_cached left)
      (deployment_state store deployment left)
get_state-Matches_example =
    get_state-Matches genesis genesis store store-IsMainChain deployment (omega arith)
      nothing_cached left left-IsIn nothing_cached-IsConsistent

before_left : get_ancestor store left (sub_ℕ 1 1) ≡ done (some genesis)
unfolding get_ancestor save_alternate litedoge_js.Blockchain.Block.is_genesis
before_left = refl

times_are_level : median_time store.entries genesis ≤ median_time store.entries left
unfolding median_time save_alternate
times_are_level = omega arith

abbrev cache_of : Loop (Threshold × Cache) → Cache
cache_of (done (st, c)) = c
cache_of no_previous = nothing_cached
cache_of running = nothing_cached

abbrev cache_after : ChainEntry → Cache
cache_after e = cache_of (get_state store deployment nothing_cached e)

genesis_state :
    get_state store deployment nothing_cached genesis ≡ done (started, cache_after genesis)
unfolding get_state median_time save_alternate get_ancestor litedoge_js.Blockchain.Block.is_genesis
genesis_state = refl

left_state : get_state store deployment nothing_cached left ≡ done (started, cache_after left)
unfolding get_state median_time save_alternate get_ancestor litedoge_js.Blockchain.Block.is_genesis
left_state = refl

get_state-IsNext_example : IsNext store deployment left started started
get_state-IsNext_example =
    get_state-IsNext genesis genesis store store-IsMainChain deployment (omega arith) nothing_cached
      nothing_cached (cache_after genesis) (cache_after left) left genesis started started left-IsIn
      nothing_cached-IsConsistent nothing_cached-IsConsistent refl refl refl before_left
      times_are_level genesis_state left_state
